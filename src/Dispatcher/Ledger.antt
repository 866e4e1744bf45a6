-- ===== src/Dispatcher/Ledger.antt =====
-- The ledger of one notification: what its row says of the calls of `notifier.send` made for it.
use gektar_monitor.Prelude.{
  ℕ, ◌+◌, ◌≤◌, ◌≡◌, Bool, false, ◌&&◌, Option, none, some, List, count_if, arith, if◌then◌else◌,
  Bool-cases, Option-cases, inl, inr, ◌⊎◌, ltb,
}
use gektar_monitor.Domain.{LotPublicDto, NotifyResult}
use gektar_monitor.Notifications.{
  Key, Status, pending, sent, permanent_fail, NotificationRecord, same_key, row_of, mark_attempt,
}
use gektar_monitor.Notifications.Laws.{
  same_key_iff, same_key_refl, row_of-mark_sent, row_of-mark_permanent_fail, row_of-mark_attempt,
  next_attempt, mark_attempt-next_attempt,
}
use gektar_monitor.Notifiers.{Notifier}
use gektar_monitor.Dispatcher.{Options, Env, Call, World}
use gektar_monitor.Dispatcher.Delivery.{
  max_total_attempts, backoff, attempt, try_send, call_notifier, conclude, back_off,
  publish_smtp_failed, fail_row,
}

-- The calls of `notifier.send` for a key, and those that succeeded.
abbrev pub calls_for : Key → List Call → ℕ
calls_for k = count_if (λ c. same_key c.key k)

abbrev pub successes_for : Key → List Call → ℕ
successes_for k = count_if (λ c. same_key c.key k && c.is_ok)

abbrev pub Settled : Status → ℕ → ℕ → ℕ → Type 0
Settled pending attempt_no calls successes =
    (calls ≡ attempt_no) × (calls ≤ max_total_attempts) × (successes ≡ 0)
Settled sent attempt_no calls successes = (calls ≤ max_total_attempts) × (successes ≡ 1)
Settled permanent_fail attempt_no calls successes = (calls ≤ max_total_attempts) × (successes ≡ 0)

abbrev pub Balanced : Option NotificationRecord → ℕ → ℕ → Type 0
Balanced none calls successes = (calls ≡ 0) × (successes ≡ 0)
Balanced (some r) calls successes = Settled r.status r.attempt_no calls successes

-- The row of the key agrees with the calls made for it.
abbrev pub Ledger : Key → World → Type 0
Ledger k w = Balanced (row_of k w.rows) (calls_for k w.calls) (successes_for k w.calls)

fail_row-Ledger : (k j : Key) (w : World) → Ledger j w → Ledger j (fail_row k w)
fail_row-Ledger k j w h = ground (arith, row_of-mark_permanent_fail k j w.rows)

-- Between the call of `notifier.send` and the write of its result, the ledger of the key of the
-- call is one result ahead.
abbrev Midway : Bool → Option NotificationRecord → ℕ → ℕ → Type 0
Midway is_ok none calls successes = ⊥
Midway is_ok (some r) calls successes =
    (r.status ≡ pending)
    × (calls ≡ r.attempt_no)
    × (calls ≤ max_total_attempts)
    × (successes ≡ (if is_ok then 1 else 0))

abbrev Ahead : Bool → Key → World → Type 0
Ahead is_ok k w = Midway is_ok (row_of k w.rows) (calls_for k w.calls) (successes_for k w.calls)

back_off-Ledger :
    (env : Env) (o : Option ℕ) (result : NotifyResult) (j : Key) (w : World)
    → Ledger j w
    → Ledger j (back_off env o result w).1
unfolding back_off
back_off-Ledger env none result j w h = h
back_off-Ledger env (some b) result j w h = h

conclude-Ledger :
    (d : Options) (env : Env) (k j : Key) (n : ℕ) (result : NotifyResult) (w : World)
    → Ahead result.is_ok k w
    → (same_key k j ≡ false → Ledger j w)
    → Ledger j (conclude d env k n result w).1
unfolding conclude publish_smtp_failed
conclude-Ledger d env k j n result w mid other = ground (
  arith,
  same_key_iff k j,
  row_of-mark_sent k j (env.now w.tick) w.rows,
  row_of-mark_permanent_fail k j w.rows,
  back_off-Ledger env (backoff n d.retry_backoff) result j w,
)

-- Between `mark_attempt` and the call, the row of the key is one attempt ahead of its calls.
abbrev Counted : ℕ → Option NotificationRecord → ℕ → ℕ → Type 0
Counted n none calls successes = ⊥
Counted n (some r) calls successes =
    (r.status ≡ pending)
    × (r.attempt_no ≡ n)
    × (calls + 1 ≡ n)
    × (calls ≤ max_total_attempts)
    × (successes ≡ 0)

abbrev Charged : ℕ → Key → World → Type 0
Charged n k w = Counted n (row_of k w.rows) (calls_for k w.calls) (successes_for k w.calls)

call_notifier-Ahead :
    (env : Env) (notifier : Notifier) (lot : LotPublicDto) (k : Key) (n : ℕ) (w : World)
    → n ≤ max_total_attempts
    → Charged n k w
    → Ahead (call_notifier env notifier lot k w).0.is_ok k (call_notifier env notifier lot k w).1
unfolding call_notifier
call_notifier-Ahead env notifier lot k n w le h = ground (arith, same_key_refl k)

call_notifier-Ledger :
    (env : Env) (notifier : Notifier) (lot : LotPublicDto) (k j : Key) (w : World)
    → same_key k j ≡ false
    → Ledger j w
    → Ledger j (call_notifier env notifier lot k w).1
unfolding call_notifier
call_notifier-Ledger env notifier lot k j w ne h = ground arith

try_send-Ledger :
    (d : Options) (env : Env) (notifier : Notifier) (lot : LotPublicDto) (k j : Key) (n : ℕ)
    (w : World)
    → Charged n k w
    → (same_key k j ≡ false → Ledger j w)
    → Ledger j (try_send d env notifier lot k (some n) w).1
unfolding try_send
try_send-Ledger d env notifier lot k j n w h other = elim (Bool-cases (ltb max_total_attempts n)) [
  | inl over ↦ rw over (ground (arith, same_key_iff k j, row_of-mark_permanent_fail k j w.rows))
  | inr under ↦ rw under (
      conclude-Ledger d env k j n _ _ (call_notifier-Ahead env notifier lot k n w (ground arith) h)
        (λ ne. call_notifier-Ledger env notifier lot k j w ne (other ne)))
]

-- The state that `mark_attempt` leaves.
abbrev marked : Env → Key → World → World
marked env k w = record w { rows = (mark_attempt k (env.now w.tick) w.rows).1; tick = w.tick + 1 }

marked-Charged :
    (env : Env) (k : Key) (n : ℕ) (w : World)
    → next_attempt (row_of k w.rows) ≡ some n
    → Ledger k w
    → Charged n k (marked env k w)
marked-Charged env k n w e h =
    ground (arith, same_key_refl k, row_of-mark_attempt k k (env.now w.tick) w.rows)

marked-Ledger :
    (env : Env) (k j : Key) (w : World)
    → ((same_key k j ≡ false) ⊎ (next_attempt (row_of k w.rows) ≡ none))
    → Ledger j w
    → Ledger j (marked env k w)
marked-Ledger env k j w c h =
    ground (arith, same_key_iff k j, row_of-mark_attempt k j (env.now w.tick) w.rows)

-- A round of the retry loop keeps every ledger.
pub attempt-Ledger :
    (d : Options) (env : Env) (notifier : Notifier) (lot : LotPublicDto) (k j : Key) (w : World)
    → Ledger k w
    → Ledger j w
    → Ledger j (attempt d env notifier lot k w).1
unfolding attempt
attempt-Ledger d env notifier lot k j w hk hj =
    rw (mark_attempt-next_attempt k (env.now w.tick) w.rows)
      (elim (Option-cases (next_attempt (row_of k w.rows))) [
        | inl stop ↦ rw stop (unfold try_send in marked-Ledger env k j w (inr stop) hj)
        | inr (n, go) ↦ rw go (
            try_send-Ledger d env notifier lot k j n (marked env k w)
              (marked-Charged env k n w go hk) (λ ne. marked-Ledger env k j w (inl ne) hj))
      ])
