-- ===== src/Dispatcher/Retried.antt =====
-- A delivery that succeeds behind failures that can be retried.
use gektar_monitor.Prelude.{
  ℕ, zero, suc, ◌+◌, ◌<◌, ◌≤◌, ◌≡◌, refl, ap, ◌∙◌, subst, String, true, false, Option, none, some,
  List, ◌∷◌, length, arith, ltb,
}
use gektar_monitor.Domain.{LotPublicDto, NotifyResult}
use gektar_monitor.Notifications.{
  Key, NotificationRecord, pending, sent, row_of, reserve, fresh_row, mark_attempt, mark_sent,
  delivered, attempted,
}
use gektar_monitor.Notifications.Laws.{
  same_key_refl, row_of-mark_sent, row_of-mark_attempt, next_attempt, mark_attempt-next_attempt,
}
use gektar_monitor.Notifiers.{Notifier, is_suppressed, send}
use gektar_monitor.Dispatcher.{Options, Env, World, Outcome, Call, returned, observed}
use gektar_monitor.Dispatcher.Delivery.{
  send_one, deliver, retry_loop, attempt, try_send, conclude, call_notifier, back_off, backoff,
  key_of, follow, finished, again, max_total_attempts,
}
use gektar_monitor.Dispatcher.Reserved.{reserved, row-none}
use gektar_monitor.Dispatcher.Totality.{backoff-some}

-- So many failed calls for the key, ahead of the calls before.
abbrev pub with_failures : Key → ℕ → List Call → List Call
with_failures k zero calls = calls
with_failures k (suc m) calls = with_failures k m ((record { key = k; is_ok = false }) ∷ calls)

-- The answer to the call at a reading of the clock.
abbrev pub answered : Env → Notifier → LotPublicDto → ℕ → NotifyResult
answered env notifier lot tick = send (env.scope tick) notifier lot (env.answer tick)

-- From the reading `start` on: so many attempts fail and may be retried while the stop event is not
-- set, and the next one succeeds. An attempt reads the clock, asks the channel and waits.
abbrev pub FailsFirst : Env → Notifier → LotPublicDto → ℕ → ℕ → Type 0
FailsFirst env notifier lot zero start = (answered env notifier lot (start + 1)).is_ok ≡ true
FailsFirst env notifier lot (suc m) start =
    ((answered env notifier lot (start + 1)).is_ok ≡ false)
    × ((answered env notifier lot (start + 1)).retryable ≡ true)
    × (env.stop (start + 2) ≡ false)
    × FailsFirst env notifier lot m (start + 3)

abbrev IsOpen : Key → ℕ → World → Type 0
IsOpen k a w =
    (r : NotificationRecord) × (row_of k w.rows ≡ some r)
    × (r.status ≡ pending)
    × (r.attempt_no ≡ a)

abbrev IsDone : Key → ℕ → World → Type 0
IsDone k a w =
    (r : NotificationRecord) × (row_of k w.rows ≡ some r) × (r.status ≡ sent) × (r.attempt_no ≡ a)

abbrev counted : Env → Key → World → World
counted env k w = record w { rows = (mark_attempt k (env.now w.tick) w.rows).1; tick = w.tick + 1 }

counted-IsOpen :
    (env : Env) (k : Key) (a : ℕ) (w : World) → IsOpen k a w → IsOpen k (a + 1) (counted env k w)
counted-IsOpen env k a w (r, found, waits, same) = (
  attempted (env.now w.tick) r,
  ground (arith, same_key_refl k, found, waits, row_of-mark_attempt k k (env.now w.tick) w.rows),
  waits,
  ap (λ n. n + 1) same,
)

attempt_lem :
    (d : Options) (env : Env) (notifier : Notifier) (lot : LotPublicDto) (k : Key) (a : ℕ)
    (w : World)
    → IsOpen k a w
    → attempt d env notifier lot k w
      ≡ try_send d env notifier lot k (some (a + 1)) (counted env k w)
unfolding attempt
attempt_lem d env notifier lot k a w (r, found, waits, same) =
    ap (λ o. try_send d env notifier lot k o (counted env k w))
      (mark_attempt-next_attempt k (env.now w.tick) w.rows
        ∙ ap next_attempt found
        ∙ rw (waits, same) refl)

abbrev after_success : Env → Key → World → World
after_success env k w = record w {
  rows = mark_sent k (env.now (w.tick + 1)) w.rows;
  calls = (record { key = k; is_ok = true }) ∷ w.calls;
  tick = w.tick + 1 + 1;
}

after_success-IsDone :
    (env : Env) (k : Key) (a : ℕ) (w : World) → IsOpen k a w → IsDone k a (after_success env k w)
after_success-IsDone env k a w (r, found, waits, same) = (
  delivered (env.now (w.tick + 1)) r,
  ground (arith, same_key_refl k, found, waits, row_of-mark_sent k k (env.now (w.tick + 1)) w.rows),
  refl,
  same,
)

abbrev after_failure : Key → ℕ → World → World
after_failure k delay w = record w {
  calls = (record { key = k; is_ok = false }) ∷ w.calls;
  waits = delay ∷ w.waits;
  tick = w.tick + 1 + 1;
}

try_send_succeeds :
    (d : Options) (env : Env) (notifier : Notifier) (lot : LotPublicDto) (k : Key) (a : ℕ)
    (w : World)
    → ltb max_total_attempts a ≡ false
    → (answered env notifier lot w.tick).is_ok ≡ true
    → try_send d env notifier lot k (some a) w ≡ (finished, after_success env k w)
unfolding try_send call_notifier conclude
try_send_succeeds d env notifier lot k a w cap ok = rw (cap, ok) refl

try_send_fails :
    (d : Options) (env : Env) (notifier : Notifier) (lot : LotPublicDto) (k : Key) (a delay : ℕ)
    (w : World)
    → ltb max_total_attempts a ≡ false
    → (answered env notifier lot w.tick).is_ok ≡ false
    → (answered env notifier lot w.tick).retryable ≡ true
    → backoff a d.retry_backoff ≡ some delay
    → env.stop (w.tick + 1) ≡ false
    → try_send d env notifier lot k (some a) w
      ≡ (again (answered env notifier lot w.tick), after_failure k delay w)
unfolding try_send call_notifier conclude back_off
try_send_fails d env notifier lot k a delay w cap bad retry there goes =
    rw (cap, bad, retry, there, goes) refl

abbrev Retried : Key → ℕ → List Call → Outcome → Type 0
Retried k a calls o =
    (w' : World) × (o ≡ returned w')
    × IsDone k a w'
    × (w'.calls ≡ (record { key = k; is_ok = true }) ∷ calls)

retry_loop_succeeds :
    (d : Options) (env : Env) (notifier : Notifier) (lot : LotPublicDto) (k : Key)
    (a m count total : ℕ) (last : Option NotifyResult) (w : World)
    → IsOpen k a w
    → m < count
    → a + m + 1 ≡ total
    → total ≤ 10
    → 0 < length d.retry_backoff
    → FailsFirst env notifier lot m w.tick
    → Retried k total (with_failures k m w.calls) (retry_loop d env notifier lot k count last w)
unfolding retry_loop
retry_loop_succeeds d env notifier lot k a m zero total last w still tries sum few delays fails =
    absurd (omega (arith, tries))
retry_loop_succeeds d env notifier lot k a zero (suc n) total last w still tries sum few delays ok =
    let cap : ltb max_total_attempts (a + 1) ≡ false = ground (arith, sum, few) in
    (
      after_success env k (counted env k w),
      ap (λ v. follow v (λ result w'. retry_loop d env notifier lot k n (some result) w'))
          (attempt_lem d env notifier lot k a w still
            ∙ try_send_succeeds d env notifier lot k (a + 1) (counted env k w) cap ok),
      subst (λ c. IsDone k c (after_success env k (counted env k w))) (omega (arith, sum))
          (after_success-IsDone env k (a + 1) (counted env k w) (counted-IsOpen env k a w still)),
      refl,
    )
retry_loop_succeeds d env notifier lot k a (suc m) (suc n) total last w still tries sum few delays
      (bad, retry, goes, rest) =
    let cap : ltb max_total_attempts (a + 1) ≡ false = ground (arith, sum, few) in
    let (delay, there) = backoff-some (a + 1) d.retry_backoff delays in
    let w1 = after_failure k delay (counted env k w) in
    let (w', e, done, calls) =
      retry_loop_succeeds d env notifier lot k (a + 1) m n total
        (some (answered env notifier lot (w.tick + 1))) w1 (counted-IsOpen env k a w still)
        (omega (arith, tries)) (omega (arith, sum)) few delays
        (subst (λ t. FailsFirst env notifier lot m t) (omega arith) rest) in
    (
      w',
      ap (λ v. follow v (λ result w2. retry_loop d env notifier lot k n (some result) w2))
            (attempt_lem d env notifier lot k a w still
              ∙ try_send_fails d env notifier lot k (a + 1) delay (counted env k w) cap bad retry
                  there (subst (λ t. env.stop t ≡ false) (omega arith) goes))
          ∙ e,
      done,
      calls,
    )

-- A delivery goes through in spite of failures that may be retried. If the key has no row, the
-- delivery is not suppressed, there is a table of delays, and the first m answers of the channel are
-- failures that may be retried, with m smaller than the number of retries and than ten, the stop event
-- not set in the waits, and the next answer is ok, then `_send_one` returns; the notifier was called
-- exactly m + 1 times, the last time with success; and the row says `sent` behind m + 1 attempts.
pub send_one_delivers :
    (d : Options) (env : Env) (lot : LotPublicDto) (notifier : Notifier) (recipient : String)
    (m : ℕ) (w : World)
    → is_suppressed (env.scope w.tick) notifier lot ≡ false
    → row_of (key_of lot notifier recipient) w.rows ≡ none
    → m < d.retry_attempts
    → m < 10
    → 0 < length d.retry_backoff
    → FailsFirst env notifier lot m (w.tick + 1)
    → (w' : World) × (send_one d env lot notifier recipient w ≡ returned w')
      × ((r : NotificationRecord) × (row_of (key_of lot notifier recipient) w'.rows ≡ some r)
          × (r.status ≡ sent)
          × (r.attempt_no ≡ m + 1))
      × (w'.calls
          ≡ (record { key = key_of lot notifier recipient; is_ok = true })
            ∷ with_failures (key_of lot notifier recipient) m w.calls)
unfolding send_one deliver
send_one_delivers d env lot notifier recipient m w passes new tries few delays fails =
    let k = key_of lot notifier recipient in
    let start = record (observed w) { rows = (reserve k w.rows).1 } in
    let (w', e, done, calls) =
      retry_loop_succeeds d env notifier lot k 0 m d.retry_attempts (m + 1) none start
        (fresh_row k, reserved k w.rows new, refl, refl) tries (omega arith) (omega (arith, few))
        delays fails in
    (w', rw (passes, row-none k w.rows new) e, done, calls)
