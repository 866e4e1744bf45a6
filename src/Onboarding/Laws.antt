-- ===== src/Onboarding/Laws.antt =====
-- The order of the onboarding, with the calls of several threads.
use gektar_monitor.Prelude.{
  ℕ, ◌≡◌, refl, ap, sym, subst, ◌∙◌, String, Bool, true, false, not, Option, none, some, List, [],
  ◌∷◌, ◌++◌, ◌==◌, All, str_eq, Bool-cases, Option-cases, inl, inr, if◌then◌else◌,
}
use gektar_monitor.StateTable.{Table, get, set, OnboardingState, onboarding_key, get_onboarding}
use gektar_monitor.StateTable.Laws.{get-set_other, get-delete_other, get_onboarding-set_onboarding}
use gektar_monitor.Onboarding.Guards.{Allows, same_state_eq, can_advance-Allows}
use gektar_monitor.Onboarding.{
  next_state, same_state, can_advance, may_skip, skip_email, test_send, Call, Pending, no_call,
  has_read, has_checked, advance_read, advance_check, Action, reads, checks, commits, skips, tests,
  writes, deletes, World, Transition, after, set_pending, checking, committing, act, run,
}

-- The key is not the one of the state.
abbrev pub IsForeign : Action → Type 0
IsForeign (writes key v) = str_eq key onboarding_key ≡ false
IsForeign (deletes key) = str_eq key onboarding_key ≡ false
IsForeign (reads i c) = Unit
IsForeign (checks i) = Unit
IsForeign (commits i) = Unit
IsForeign skips = Unit
IsForeign (tests ok now_iso) = Unit

-- The call found the state that it names, asks for the next one, and its guard held when it was
-- checked.
pub record IsLegal (x : Transition) : Type 0 where
  pub found : get_onboarding x.read ≡ some x.call.from_state
  pub next : next_state x.call.from_state ≡ some x.call.to_state
  pub allowed : Allows x.call.env x.call.to_state x.checked

-- No other call has written the state between the read of the call and its write.
abbrev pub Undisturbed : Transition → Type 0
Undisturbed x = get_onboarding x.written ≡ get_onboarding x.read

-- From `s` the transitions lead to `r` along the chain of the states.
abbrev pub Chain : OnboardingState → List Transition → OnboardingState → Type 0
Chain s [] r = s ≡ r
Chain s (x ∷ xs) r =
    (x.call.from_state ≡ s) × (next_state s ≡ some x.call.to_state) × (Chain x.call.to_state xs r)

-- A call that is in flight has passed what is behind it.
abbrev PendingIsLegal : Pending → Type 0
PendingIsLegal no_call = Unit
PendingIsLegal (has_read c read) = get_onboarding read ≡ some c.from_state
PendingIsLegal (has_checked c read checked) =
    (get_onboarding read ≡ some c.from_state)
    × (next_state c.from_state ≡ some c.to_state)
    × Allows c.env c.to_state checked

abbrev pub AllPending : World → Type 0
AllPending w = (i : ℕ) → PendingIsLegal (w.pending i)

advance_read-IsLegal : (c : Call) (t : Table) → PendingIsLegal (advance_read c t)
unfolding advance_read
advance_read-IsLegal c t = by_state (get_onboarding t) refl
  where
    by_state :
        (o : Option OnboardingState)
        → get_onboarding t ≡ o
        → PendingIsLegal (elim o [
          | none ↦ no_call
          | some curr ↦ if not (same_state curr c.from_state) then no_call else has_read c t
        ])
    by_state none e = tt
    by_state (some curr) e = elim (Bool-cases (same_state curr c.from_state)) [
      | inr other ↦ rw other tt
      | inl same ↦ rw same (e ∙ ap (λ s. some s) (same_state_eq curr c.from_state same))
    ]

checking-IsLegal : (p : Pending) (t : Table) → PendingIsLegal p → PendingIsLegal (checking p t)
unfolding advance_check
checking-IsLegal no_call t h = tt
checking-IsLegal (has_checked c read checked) t h = h
checking-IsLegal (has_read c read) t h =
    elim (Bool-cases (can_advance c.env c.from_state c.to_state t)) [
      | inr unmet ↦ rw unmet tt
      | inl met ↦
          let (next, ok) = can_advance-Allows c.env c.from_state c.to_state t met in
          rw met (h, next, ok)
    ]

set_pending-IsLegal :
    (i : ℕ) (p : Pending) (pending : ℕ → Pending)
    → PendingIsLegal p
    → ((j : ℕ) → PendingIsLegal (pending j))
    → (j : ℕ) → PendingIsLegal (set_pending i p pending j)
set_pending-IsLegal i p pending h k j = elim (Bool-cases (j == i)) [
  | inl e ↦ rw e h
  | inr e ↦ rw e (k j)
]

same_onboarding :
    (t r : Table)
    → get onboarding_key r ≡ get onboarding_key t
    → get_onboarding r ≡ get_onboarding t
unfolding get_onboarding
same_onboarding t r e = rw (get_onboarding, e) refl

skip_email_stays : (t : Table) → get_onboarding (after (skip_email t) t) ≡ get_onboarding t
unfolding skip_email
skip_email_stays t = elim (Option-cases (get_onboarding t)) [
  | inl unread ↦ rw (skip_email, unread) unread
  | inr (s, h) ↦ elim (Bool-cases (may_skip s)) [
    | inl may ↦
        rw (skip_email, h, may)
          (same_onboarding t (set "email_skipped" "true" t)
              (get-set_other "email_skipped" onboarding_key "true" t refl)
            ∙ h)
    | inr may_not ↦ rw (skip_email, h, may_not) h
  ]
]

test_send_stays :
    (ok : Bool) (now_iso : String) (t : Table)
    → get_onboarding (test_send ok now_iso t) ≡ get_onboarding t
unfolding test_send
test_send_stays true now_iso t = same_onboarding t _ (
    get-set_other "onboarding_test_email_ok" onboarding_key "true" _ refl
    ∙ (get-set_other "smtp_test_last_result_at" onboarding_key now_iso _ refl
        ∙ get-set_other "smtp_test_last_result_ok" onboarding_key "true" t refl))
test_send_stays false now_iso t = same_onboarding t _ (
    get-set_other "smtp_test_last_result_at" onboarding_key now_iso _ refl
    ∙ get-set_other "smtp_test_last_result_ok" onboarding_key "false" t refl)

-- What an action leads to.
pub data ActCase (w : World) (r : List Transition × World) : Type 0 where
  quiet :
      r.0 ≡ [] → get_onboarding r.1.table ≡ get_onboarding w.table → AllPending r.1 → ActCase w r
  moved :
      (x : Transition)
      → r.0 ≡ x ∷ []
      → IsLegal x
      → x.written ≡ w.table
      → get_onboarding r.1.table ≡ some x.call.to_state
      → AllPending r.1
      → ActCase w r

committing-ActCase :
    (i : ℕ) (p : Pending) (w : World)
    → PendingIsLegal p
    → AllPending w
    → ActCase w (committing i p w)
committing-ActCase i no_call w h k = quiet refl refl k
committing-ActCase i (has_read c read) w h k = quiet refl refl k
committing-ActCase i (has_checked c read checked) w h k =
    moved _ refl (record { found = h.0; next = h.1; allowed = h.2 }) refl
      (get_onboarding-set_onboarding c.to_state w.table)
      (set_pending-IsLegal i no_call w.pending tt k)

act-ActCase : (a : Action) (w : World) → IsForeign a → AllPending w → ActCase w (act a w)
unfolding act
act-ActCase (reads i c) w f k =
    quiet refl refl (set_pending-IsLegal i _ w.pending (advance_read-IsLegal c w.table) k)
act-ActCase (checks i) w f k =
    quiet refl refl
      (set_pending-IsLegal i _ w.pending (checking-IsLegal (w.pending i) w.table (k i)) k)
act-ActCase (commits i) w f k = committing-ActCase i (w.pending i) w (k i) k
act-ActCase skips w f k = quiet refl (skip_email_stays w.table) k
act-ActCase (tests ok now_iso) w f k = quiet refl (test_send_stays ok now_iso w.table) k
act-ActCase (writes key v) w f k =
    quiet refl (same_onboarding w.table _ (get-set_other key onboarding_key v w.table f)) k
act-ActCase (deletes key) w f k =
    quiet refl (same_onboarding w.table _ (get-delete_other key onboarding_key w.table f)) k

from_stored :
    (x : Transition) (s : OnboardingState) (t : Table)
    → IsLegal x
    → Undisturbed x
    → x.written ≡ t
    → get_onboarding t ≡ some s
    → x.call.from_state ≡ s
from_stored x s t legal still e h =
    let same : ◌≡◌ {A = Option OnboardingState} (some x.call.from_state) (some s) =
      sym legal.found ∙ (sym still ∙ (ap get_onboarding e ∙ h)) in
    cc same

-- If no call writes the state between the read of another one and its write, then the writes of the
-- state are the chain of the states from the first one on: none is skipped, repeated or undone, and
-- the last one is the state that is stored at the end, whatever else is called and in whatever order.
-- At the start each call in flight has passed what is behind it, and the other services do not write
-- under the key of the state.
pub run-Chain :
    (actions : List Action) (w : World) (s : OnboardingState)
    → All IsForeign actions
    → AllPending w
    → All Undisturbed (run actions w).0
    → get_onboarding w.table ≡ some s
    → (r : OnboardingState) × (get_onboarding (run actions w).1.table ≡ some r)
      × Chain s (run actions w).0 r
unfolding run
run-Chain [] w s f k still h = (s, h, refl)
run-Chain (a ∷ actions) w s f k still h = elim (act-ActCase a w f.0 k) [
  | quiet e stays k' ↦
      let rest : All Undisturbed (run actions (act a w).1).0 =
        subst (λ xs. All Undisturbed (xs ++ (run actions (act a w).1).0)) e still in
      let (r, ends, chain) = run-Chain actions (act a w).1 s f.1 k' rest (stays ∙ h) in
      (r, ends, rw e chain)
  | moved x e legal written ends k' ↦
      let rest : All Undisturbed (x ∷ (run actions (act a w).1).0) =
        subst (λ xs. All Undisturbed (xs ++ (run actions (act a w).1).0)) e still in
      let from : x.call.from_state ≡ s = from_stored x s w.table legal rest.0 written h in
      let (r, last, chain) = run-Chain actions (act a w).1 x.call.to_state f.1 k' rest.1 ends in
      (r, last, rw e (from, ap next_state (sym from) ∙ legal.next, chain))
]
