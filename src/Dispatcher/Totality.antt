-- ===== src/Dispatcher/Totality.antt =====
-- The index into the table of delays, the one place where a delivery may raise.
use gektar_monitor.Prelude.{
  ℕ, zero, suc, ◌+◌, ◌-◌, ◌<◌, ◌≡◌, ◌≢◌, refl, min, String, Option, none, some, List, [], ◌∷◌,
  arith, Bool-cases, inl, inr, ltb, length, get_elem?,
}
use gektar_monitor.Domain.{LotPublicDto, NotifyResult}
use gektar_monitor.Notifications.{
  Key, Status, pending, sent, permanent_fail, status_of, reserve, mark_attempt,
}
use gektar_monitor.Notifiers.{Notifier, is_suppressed}
use gektar_monitor.Dispatcher.{Options, Env, World, Outcome, returned, raised, observed}
use gektar_monitor.Dispatcher.Delivery.{
  Verdict, finished, again, index_error, max_total_attempts, key_of, suppress, send_one, attempt,
  try_send, call_notifier, conclude, back_off, backoff, follow, retry_loop, deliver,
}

get_elem?_in_range :
    {A : Type 0} (l : List A) (i : ℕ) → i < length l → (a : A) × (get_elem? l i ≡ some a)
get_elem?_in_range [] i h = elim h [ ]
get_elem?_in_range (x ∷ xs) zero h = (x, refl)
get_elem?_in_range (x ∷ xs) (suc i) h = get_elem?_in_range xs i (omega arith)

-- The entry that is read exists in every nonempty table.
pub backoff-some :
    (n : ℕ) (table : List ℕ) → 0 < length table → (delay : ℕ) × (backoff n table ≡ some delay)
unfolding backoff
backoff-some n table h = get_elem?_in_range table (min (n - 1) (length table - 1)) (omega arith)

abbrev Returns : Outcome → Type 0
Returns (returned w) = Unit
Returns (raised w) = ⊥

module _ (d : Options) (env : Env) (nonempty : 0 < length d.retry_backoff) where
  conclude-ne :
      (k : Key) (n : ℕ) (result : NotifyResult) (w : World)
      → (conclude d env k n result w).0 ≢ index_error
  unfolding conclude back_off
  conclude-ne k n result w =
      let (delay, e) = backoff-some n d.retry_backoff nonempty in ground arith

  try_send-ne :
      (notifier : Notifier) (lot : LotPublicDto) (k : Key) (o : Option ℕ) (w : World)
      → (try_send d env notifier lot k o w).0 ≢ index_error
  unfolding try_send
  try_send-ne notifier lot k none w = λ e. cc e
  try_send-ne notifier lot k (some n) w = elim (Bool-cases (ltb max_total_attempts n)) [
    | inl e ↦ rw e (λ x. cc x)
    | inr e ↦ rw e (
        conclude-ne k n (call_notifier env notifier lot k w).0
          (call_notifier env notifier lot k w).1)
  ]

  attempt-ne :
      (notifier : Notifier) (lot : LotPublicDto) (k : Key) (w : World)
      → (attempt d env notifier lot k w).0 ≢ index_error
  unfolding attempt
  attempt-ne notifier lot k w =
      try_send-ne notifier lot k (mark_attempt k (env.now w.tick) w.rows).0
        (record w { rows = (mark_attempt k (env.now w.tick) w.rows).1; tick = w.tick + 1 })

  follow-Returns :
      (o : Verdict × World) (f : NotifyResult → World → Outcome)
      → o.0 ≢ index_error
      → ((result : NotifyResult) (w : World) → Returns (f result w))
      → Returns (follow o f)
  follow-Returns (finished, w) f ne h = tt
  follow-Returns (again result, w) f ne h = h result w
  follow-Returns (index_error, w) f ne h = absurd (ne refl)

  retry_loop-Returns :
      (notifier : Notifier) (lot : LotPublicDto) (k : Key) (n : ℕ) (last : Option NotifyResult)
      (w : World)
      → Returns (retry_loop d env notifier lot k n last w)
  unfolding retry_loop
  retry_loop-Returns notifier lot k zero last w = tt
  retry_loop-Returns notifier lot k (suc n) last w =
      follow-Returns (attempt d env notifier lot k w)
        (λ result w'. retry_loop d env notifier lot k n (some result) w')
        (attempt-ne notifier lot k w)
        (λ result w'. retry_loop-Returns notifier lot k n (some result) w')

  deliver-Returns :
      (notifier : Notifier) (lot : LotPublicDto) (k : Key) (o : Option Status) (w : World)
      → Returns (deliver d env notifier lot k o w)
  unfolding deliver
  deliver-Returns notifier lot k none w =
      retry_loop-Returns notifier lot k d.retry_attempts none
        (record w { rows = (reserve k w.rows).1 })
  deliver-Returns notifier lot k (some pending) w =
      retry_loop-Returns notifier lot k d.retry_attempts none w
  deliver-Returns notifier lot k (some sent) w = tt
  deliver-Returns notifier lot k (some permanent_fail) w = tt

  Returns-world : (o : Outcome) → Returns o → (w : World) × (o ≡ returned w)
  Returns-world (returned w) h = (w, refl)
  Returns-world (raised w) h = absurd h

-- When the table of delays has an entry, `_send_one` always returns: the index into the table is in
-- range on every retry.
send_one-returned :
    (d : Options) (env : Env) (lot : LotPublicDto) (notifier : Notifier) (recipient : String)
    (w : World)
    → 0 < length d.retry_backoff
    → (w' : World) × (send_one d env lot notifier recipient w ≡ returned w')
unfolding send_one
send_one-returned d env lot notifier recipient w nonempty =
    let k = key_of lot notifier recipient in
    elim (Bool-cases (is_suppressed (env.scope w.tick) notifier lot)) [
      | inl e ↦ (suppress k (status_of k w.rows) (observed w), rw e)
      | inr e ↦ rw e (
          Returns-world d env nonempty
            (deliver d env notifier lot k (status_of k w.rows) (observed w))
            (deliver-Returns d env nonempty notifier lot k (status_of k w.rows) (observed w)))
    ]
