-- ===== src/Dispatcher/Final.antt =====
-- Rows with a final status.
use gektar_monitor.Prelude.{
  ℕ, ◌+◌, ltb, ◌≡◌, refl, false, Option, none, some, List, arith, Bool-cases, inl, inr, ◌⊎◌,
}
use gektar_monitor.Domain.{LotPublicDto, NotifyResult}
use gektar_monitor.Notifications.{
  Key, row_of, reserve, is_pending, NotificationRecord, same_key, mark_attempt,
}
use gektar_monitor.Notifications.Laws.{
  same_key_iff, row_of-reserve, row_of-mark_permanent_fail, row_of-mark_attempt, row_of-mark_sent,
  next_attempt, mark_attempt-next_attempt,
}
use gektar_monitor.Notifiers.{Notifier}
use gektar_monitor.Dispatcher.{Options, Env, World, dispatch}
use gektar_monitor.Dispatcher.Delivery.{
  max_total_attempts, fail_row, publish_smtp_failed, attempt, try_send, call_notifier, conclude,
  back_off, backoff,
}
use gektar_monitor.Dispatcher.Consumer.{Action, run}
use gektar_monitor.Dispatcher.Ledger.{calls_for}
use gektar_monitor.Dispatcher.Keeps.{Keeps, run-Holds}

module _ (k : Key) (r : NotificationRecord) (n : ℕ) (final : is_pending r.status ≡ false) where
  -- The row of the key is the final row `r`, and `n` calls were made for it.
  abbrev Frozen : World → Type 0
  Frozen w = (row_of k w.rows ≡ some r) × (calls_for k w.calls ≡ n)

  back_off-Frozen :
      (env : Env) (o : Option ℕ) (result : NotifyResult) (w : World)
      → Frozen w
      → Frozen (back_off env o result w).1
  unfolding back_off
  back_off-Frozen env none result w h = h
  back_off-Frozen env (some b) result w h = h

  conclude-Frozen :
      (d : Options) (env : Env) (j : Key) (m : ℕ) (result : NotifyResult) (w : World)
      → Frozen w
      → Frozen (conclude d env j m result w).1
  unfolding conclude publish_smtp_failed
  conclude-Frozen d env j m result w h = ground (
    arith,
    row_of-mark_sent j k (env.now w.tick) w.rows,
    row_of-mark_permanent_fail j k w.rows,
    back_off-Frozen env (backoff m d.retry_backoff) result w h,
  )

  call_notifier-Frozen :
      (env : Env) (notifier : Notifier) (lot : LotPublicDto) (j : Key) (w : World)
      → same_key j k ≡ false
      → Frozen w
      → Frozen (call_notifier env notifier lot j w).1
  unfolding call_notifier
  call_notifier-Frozen env notifier lot j w ne h = ground arith

  fail_row-Frozen : (j : Key) (w : World) → Frozen w → Frozen (fail_row j w)
  fail_row-Frozen j w h = ground (arith, row_of-mark_permanent_fail j k w.rows)

  try_send-Frozen :
      (d : Options) (env : Env) (notifier : Notifier) (lot : LotPublicDto) (j : Key) (o : Option ℕ)
      (w : World)
      → ((o ≡ none) ⊎ (same_key j k ≡ false))
      → Frozen w
      → Frozen (try_send d env notifier lot j o w).1
  unfolding try_send
  try_send-Frozen d env notifier lot j none w c h = h
  try_send-Frozen d env notifier lot j (some m) w (inl e) h = cc
  try_send-Frozen d env notifier lot j (some m) w (inr ne) h =
      elim (Bool-cases (ltb max_total_attempts m)) [
        | inl e ↦ rw e (fail_row-Frozen j w h)
        | inr e ↦ rw e (
            conclude-Frozen d env j m (call_notifier env notifier lot j w).0
              (call_notifier env notifier lot j w).1
              (call_notifier-Frozen env notifier lot j w ne h))
      ]

  blocked :
      (j : Key) (w : World)
      → Frozen w
      → (next_attempt (row_of j w.rows) ≡ none) ⊎ (same_key j k ≡ false)
  blocked j w h = ground (arith, same_key_iff j k)

  attempt-Frozen :
      (d : Options) (env : Env) (notifier : Notifier) (lot : LotPublicDto) (j : Key) (w : World)
      → Frozen w
      → Frozen (attempt d env notifier lot j w).1
  unfolding attempt
  attempt-Frozen d env notifier lot j w h =
      rw (mark_attempt-next_attempt j (env.now w.tick) w.rows) (
        try_send-Frozen d env notifier lot j (next_attempt (row_of j w.rows))
          (record w { rows = (mark_attempt j (env.now w.tick) w.rows).1; tick = w.tick + 1 })
          (blocked j w h) (ground (arith, row_of-mark_attempt j k (env.now w.tick) w.rows)))

  reserve-Frozen :
      (j : Key) (w : World) → Frozen w → Frozen (record w { rows = (reserve j w.rows).1 })
  reserve-Frozen j w h = ground (arith, row_of-reserve j k w.rows)

  Frozen-keeps : Keeps Frozen
  unfolding dispatch publish_smtp_failed
  Frozen-keeps = record {
    by_observation = λ w h. h;
    by_attempt = attempt-Frozen;
    by_event = λ env channel m result w h. h;
    by_reserve = λ j w e h. reserve-Frozen j w h;
    by_failure = fail_row-Frozen;
    by_dispatch = λ d lot w h. h;
    by_drain = λ lot lots w e h. h;
  }

-- Once a row is `sent` or `permanent_fail`, no interleaving of the producer and the consumer changes
-- the row, and none calls the notifier for it again.
pub run_final :
    (d : Options) (env : Env) (actions : List Action) (k : Key) (r : NotificationRecord) (w : World)
    → row_of k w.rows ≡ some r
    → is_pending r.status ≡ false
    → (row_of k (run d env actions w).rows ≡ some r)
      × (calls_for k (run d env actions w).calls ≡ calls_for k w.calls)
run_final d env actions k r w found final =
    let n = calls_for k w.calls in
    run-Holds (Frozen k r n final) (Frozen-keeps k r n final) d env actions w (found, refl)
