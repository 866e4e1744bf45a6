-- ===== src/Notifications/Laws.antt =====
-- What the row of a key is after each method.
use gektar_monitor.Prelude.{
  ℕ, ◌+◌, ◌≡◌, refl, ◌↔◌, true, Option, none, some, [], ◌∷◌, ◌++◌, arith, if◌then◌else◌, eq_iff,
}
use gektar_monitor.Notifications.{
  Key, NotificationRecord, Table, same_key, is_pending, row_of, reserve, status_of, update_pending,
  attempted, delivered, abandoned, fresh_row, mark_attempt, mark_sent, mark_permanent_fail,
}

pub same_key_iff : (a b : Key) → (same_key a b ≡ true) ↔ (a ≡ b)
unfolding same_key
same_key_iff a b = ground (arith, eq_iff a.channel b.channel, eq_iff a.recipient b.recipient)

pub same_key_refl : (a : Key) → same_key a a ≡ true
same_key_refl a = (same_key_iff a a).1 refl

abbrev pub when_pending :
    (NotificationRecord → NotificationRecord)
    → Option NotificationRecord
    → Option NotificationRecord
when_pending f none = none
when_pending f (some r) = some (if is_pending r.status then f r else r)

row_of-update_pending :
    (k j : Key) (f : NotificationRecord → NotificationRecord) (t : Table)
    → ((r : NotificationRecord) → (f r).key ≡ r.key)
    → row_of j (update_pending k f t)
      ≡ (if same_key k j then when_pending f (row_of j t) else row_of j t)
unfolding row_of update_pending
row_of-update_pending k j f [] h = ground arith
row_of-update_pending k j f (r ∷ t) h = ground (
  arith,
  h r,
  row_of-update_pending k j f t h,
  same_key_iff r.key k,
  same_key_iff r.key j,
  same_key_iff k j,
)

pub row_of-mark_sent :
    (k j : Key) (now : ℕ) (t : Table)
    → row_of j (mark_sent k now t)
      ≡ (if same_key k j then when_pending (delivered now) (row_of j t) else row_of j t)
unfolding mark_sent
row_of-mark_sent k j now t = row_of-update_pending k j (delivered now) t (λ r. refl)

pub row_of-mark_permanent_fail :
    (k j : Key) (t : Table)
    → row_of j (mark_permanent_fail k t)
      ≡ (if same_key k j then when_pending abandoned (row_of j t) else row_of j t)
unfolding mark_permanent_fail
row_of-mark_permanent_fail k j t = row_of-update_pending k j abandoned t (λ r. refl)

pub row_of-mark_attempt :
    (k j : Key) (now : ℕ) (t : Table)
    → row_of j (mark_attempt k now t).1
      ≡ (if same_key k j then when_pending (attempted now) (row_of j t) else row_of j t)
unfolding mark_attempt
row_of-mark_attempt k j now t =
    ground (arith, same_key_iff k j, row_of-update_pending k j (attempted now) t (λ r. refl))

-- What `mark_attempt` returns.
abbrev pub next_attempt : Option NotificationRecord → Option ℕ
next_attempt none = none
next_attempt (some r) = if is_pending r.status then some (r.attempt_no + 1) else none

pub mark_attempt-next_attempt :
    (k : Key) (now : ℕ) (t : Table) → (mark_attempt k now t).0 ≡ next_attempt (row_of k t)
unfolding mark_attempt
mark_attempt-next_attempt k now t = ground arith

row_of-append :
    (j : Key) (t : Table) (r : NotificationRecord)
    → row_of j (t ++ r ∷ [])
      ≡ elim (row_of j t) [ none ↦ if same_key r.key j then some r else none | some q ↦ some q ]
unfolding row_of
row_of-append j [] r = refl
row_of-append j (q ∷ t) r = ground (arith, row_of-append j t r)

pub row_of-reserve :
    (k j : Key) (t : Table)
    → row_of j (reserve k t).1 ≡ elim (row_of j t) [
      | none ↦ if same_key k j then some (fresh_row k) else none
      | some q ↦ some q
    ]
unfolding reserve
row_of-reserve k j t = ground (arith, same_key_iff k j, row_of-append j t (fresh_row k))

pub status_of-row_of :
    (k : Key) (t : Table)
    → status_of k t ≡ elim (row_of k t) [ none ↦ none | some r ↦ some r.status ]
unfolding status_of
status_of-row_of k t = refl

pub ruleset row_laws = (
  row_of-mark_sent, row_of-mark_permanent_fail, row_of-mark_attempt, row_of-reserve,
  mark_attempt-next_attempt, status_of-row_of,
)
