-- ===== src/Dispatcher/Bounds.antt =====
-- The ledgers along the interleavings of the producer and the consumer, and the bounds on what is
-- delivered for one lot, channel and recipient.
use gektar_monitor.Prelude.{◌≤◌, ◌≡◌, ◌↔◌, some, List, [], arith}
use gektar_monitor.Notifications.{Key, sent, row_of, reserve, status_of}
use gektar_monitor.Notifications.Laws.{
  same_key_iff, row_of-reserve, row_of-mark_permanent_fail, status_of-row_of,
}
use gektar_monitor.Dispatcher.{Options, Env, World, dispatch}
use gektar_monitor.Dispatcher.Delivery.{fail_row, publish_smtp_failed}
use gektar_monitor.Dispatcher.Consumer.{Action, run}
use gektar_monitor.Dispatcher.Ledger.{Ledger, calls_for, successes_for, attempt-Ledger}
use gektar_monitor.Dispatcher.Keeps.{Keeps, run-Holds}

-- Every ledger is balanced.
abbrev pub Books : World → Type 0
Books w = (j : Key) → Ledger j w

reserve-Ledger :
    (k j : Key) (w : World) → Ledger j w → Ledger j (record w { rows = (reserve k w.rows).1 })
reserve-Ledger k j w h = ground (arith, same_key_iff k j, row_of-reserve k j w.rows)

fail_row-Ledger : (k j : Key) (w : World) → Ledger j w → Ledger j (fail_row k w)
fail_row-Ledger k j w h = ground (arith, row_of-mark_permanent_fail k j w.rows)

Books-keeps : Keeps Books
unfolding dispatch publish_smtp_failed
Books-keeps = record {
  by_observation = λ w h j. h j;
  by_attempt = λ d env notifier lot k w h j. attempt-Ledger d env notifier lot k j w (h k) (h j);
  by_event = λ env channel n result w h j. h j;
  by_reserve = λ k w e h j. reserve-Ledger k j w (h j);
  by_failure = λ k w h j. fail_row-Ledger k j w (h j);
  by_dispatch = λ d lot w h j. h j;
  by_drain = λ lot lots w e h j. h j;
}

-- The state of a dispatcher that starts on an empty table.
abbrev pub fresh : World
fresh = record { rows = []; calls = []; events = []; waits = []; queue = []; warned = []; tick = 0 }

fresh-Books : Books fresh
unfolding row_of
fresh-Books j = omega arith

pub run-Books : (d : Options) (env : Env) (actions : List Action) → Books (run d env actions fresh)
run-Books d env actions = run-Holds Books Books-keeps d env actions fresh fresh-Books

Ledger-bounds :
    (k : Key) (w : World)
    → Ledger k w
    → (calls_for k w.calls ≤ 10)
      × (successes_for k w.calls ≤ 1)
      × ((status_of k w.rows ≡ some sent) ↔ (successes_for k w.calls ≡ 1))
Ledger-bounds k w h = ground (arith, status_of-row_of k w.rows)

-- From an empty table, whatever lots are produced, whatever the channels answer and however the producer and the
-- consumer alternate: for one lot, channel and recipient, `notifier.send` is called at most ten
-- times and succeeds at most once, and the row says `sent` exactly when it succeeded.
pub run_bounds :
    (d : Options) (env : Env) (actions : List Action) (k : Key)
    → (calls_for k (run d env actions fresh).calls ≤ 10)
      × (successes_for k (run d env actions fresh).calls ≤ 1)
      × ((status_of k (run d env actions fresh).rows ≡ some sent)
          ↔ (successes_for k (run d env actions fresh).calls ≡ 1))
run_bounds d env actions k = Ledger-bounds k (run d env actions fresh) (run-Books d env actions k)
