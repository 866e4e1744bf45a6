-- ===== src/Dispatcher/Delivery.antt =====
-- `_send_one` and `_publish_smtp_failed` of src/fis_monitor/services/notifier_dispatcher.py.
use gektar_monitor.Prelude.{
  ℕ, zero, suc, ◌+◌, ◌-◌, min, String, Option, none, some, List, [], ◌∷◌, ◌++◌, length, get_elem?,
  ltb, if◌then◌else◌,
}
use gektar_monitor.Domain.{LotPublicDto, NotifyResult}
use gektar_monitor.Notifications.{
  Key, Status, pending, sent, permanent_fail, reserve, status_of, mark_attempt, mark_sent,
  mark_permanent_fail,
}
use gektar_monitor.Notifiers.{Notifier, channel_id, is_suppressed, send}
use gektar_monitor.Dispatcher.{
  Options, Env, World, Outcome, returned, raised, observed, classify_error,
}

abbrev pub max_total_attempts : ℕ
max_total_attempts = 10

-- How one round of the retry loop ends: the method returns, the round is repeated, or the index
-- into an empty `retry_backoff` raises.
pub data Verdict : Type 0 where
  finished : Verdict
  again : NotifyResult → Verdict
  index_error : Verdict

-- `retry_backoff[min(attempt_no - 1, len(retry_backoff) - 1)]`
unfoldable pub backoff : ℕ → List ℕ → Option ℕ
backoff attempt_no table = get_elem? table (min (attempt_no - 1) (length table - 1))

unfoldable pub publish_smtp_failed : Env → String → ℕ → NotifyResult → World → World
publish_smtp_failed env channel attempt_no result w = record w {
  events =
      w.events
      ++ (record {
        timestamp = env.now w.tick;
        channel_id = channel;
        attempt_no = attempt_no;
        error_category = classify_error result;
      })
        ∷ [];
  tick = w.tick + 1;
}

abbrev pub fail_row : Key → World → World
fail_row k w = record w { rows = mark_permanent_fail k w.rows }

-- After a retryable failure: the wait on the stop event.
unfoldable pub back_off : Env → Option ℕ → NotifyResult → World → Verdict × World
back_off env none result w = (index_error, w)
back_off env (some delay) result w = (
  if env.stop w.tick then finished else again result,
  record w { waits = delay ∷ w.waits; tick = w.tick + 1 },
)

-- What follows the call of `notifier.send`.
unfoldable pub conclude : Options → Env → Key → ℕ → NotifyResult → World → Verdict × World
conclude d env k attempt_no result w =
    if result.is_ok
    then (finished, record w { rows = mark_sent k (env.now w.tick) w.rows; tick = w.tick + 1 })
    else if result.retryable
    then back_off env (backoff attempt_no d.retry_backoff) result w
    else (finished, publish_smtp_failed env k.channel attempt_no result (fail_row k w))

-- `notifier_send(lot, recipient)`: the filters check the scope of this moment again.
unfoldable pub call_notifier : Env → Notifier → LotPublicDto → Key → World → NotifyResult × World
call_notifier env notifier lot k w =
    let result = send (env.scope w.tick) notifier lot (env.answer w.tick) in
    (
      result,
      record w { calls = (record { key = k; is_ok = result.is_ok }) ∷ w.calls; tick = w.tick + 1 },
    )

-- The loop body after `mark_attempt`, by what that returned.
unfoldable pub try_send :
    Options → Env → Notifier → LotPublicDto → Key → Option ℕ → World → Verdict × World
try_send d env notifier lot k none w = (finished, w)
try_send d env notifier lot k (some attempt_no) w =
    if ltb max_total_attempts attempt_no
    then (finished, fail_row k w)
    else let (result, w') = call_notifier env notifier lot k w in
      conclude d env k attempt_no result w'

unfoldable pub attempt : Options → Env → Notifier → LotPublicDto → Key → World → Verdict × World
attempt d env notifier lot k w =
    let (attempt_no, rows) = mark_attempt k (env.now w.tick) w.rows in
    try_send d env notifier lot k attempt_no (record w { rows = rows; tick = w.tick + 1 })

-- When the attempts are used up, the last failure is published and the row stays pending.
abbrev pub exhausted : Options → Env → Key → Option NotifyResult → World → World
exhausted d env k none w = w
exhausted d env k (some result) w = publish_smtp_failed env k.channel d.retry_attempts result w

abbrev pub follow : Verdict × World → (NotifyResult → World → Outcome) → Outcome
follow (finished, w) rest = returned w
follow (again result, w) rest = rest result w
follow (index_error, w) rest = raised w

unfoldable pub retry_loop :
    Options → Env → Notifier → LotPublicDto → Key → ℕ → Option NotifyResult → World → Outcome
retry_loop d env notifier lot k zero last w = returned (exhausted d env k last w)
retry_loop d env notifier lot k (suc n) last w =
    follow (attempt d env notifier lot k w)
      (λ result w'. retry_loop d env notifier lot k n (some result) w')

-- The reservation and the loop, by the status before.
unfoldable pub deliver :
    Options → Env → Notifier → LotPublicDto → Key → Option Status → World → Outcome
deliver d env notifier lot k none w =
    retry_loop d env notifier lot k d.retry_attempts none (record w { rows = (reserve k w.rows).1 })
deliver d env notifier lot k (some pending) w =
    retry_loop d env notifier lot k d.retry_attempts none w
deliver d env notifier lot k (some sent) w = returned w
deliver d env notifier lot k (some permanent_fail) w = returned w

-- A suppressed lot leaves no new row; a pending row becomes final.
abbrev pub suppress : Key → Option Status → World → World
suppress k none w = w
suppress k (some pending) w = fail_row k w
suppress k (some sent) w = w
suppress k (some permanent_fail) w = w

abbrev pub key_of : LotPublicDto → Notifier → String → Key
key_of lot notifier recipient = record {
  lot_id = lot.id;
  channel = channel_id notifier;
  recipient = recipient;
}

-- _send_one
unfoldable pub send_one : Options → Env → LotPublicDto → Notifier → String → World → Outcome
send_one d env lot notifier recipient w =
    let k = key_of lot notifier recipient in
    let status = status_of k w.rows in
    let rest = deliver d env notifier lot k status (observed w) in
    if is_suppressed (env.scope w.tick) notifier lot
    then returned (suppress k status (observed w))
    else rest
