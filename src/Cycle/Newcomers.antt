-- ===== src/Cycle/Newcomers.antt =====
-- Which lots of a page are dispatched: step 5 of a cycle against a plain description of the new ones.
use gektar_monitor.Prelude.{
  ℕ, ◌+◌, ◌≡◌, refl, ap, sym, subst, ◌∙◌, Bool, true, false, not, ◌||◌, List, [], ◌∷◌, ◌==◌, length,
  map, if◌then◌else◌, Bool-cases, Option-cases, inl, inr, arith, contains,
}
use gektar_monitor.Domain.{Lot, lot_to_public_dto}
use gektar_monitor.Lots.{Database, UpsertResult}
use gektar_monitor.Lots.Total.{
  Sound, has_row, upsert-Succeeds, upsert-Sound, was_new-has_row, upsert-has_row,
}
use gektar_monitor.Dispatcher.{Options, World as DispatcherWorld, dispatch}
use gektar_monitor.Cycle.{Env, World}
use gektar_monitor.Cycle.Run.{stored, store_lots, on_upserted, status_change}
use gektar_monitor.Cycle.Pending.{one_stored, store_lots_goes_on}

-- The lots that are not known when their turn comes.
abbrev pub newcomers : (ℕ → Bool) → List Lot → List Lot
newcomers known [] = []
newcomers known (l ∷ ls) =
    let rest = newcomers (λ m. m == l.id || known m) ls in if known l.id then rest else l ∷ rest

-- `dispatch` of each, in order.
abbrev pub dispatch_all : Options → List Lot → DispatcherWorld → DispatcherWorld
dispatch_all d [] w = w
dispatch_all d (l ∷ ls) w = dispatch_all d ls (dispatch d (lot_to_public_dto l) w)

-- What is true of the state behind step 5, from the state `w` and with `known` for the ids that had
-- a row.
pub record Stores (env : Env) (known : ℕ → Bool) (lots : List Lot) (w w' : World) : Type 0 where
  pub sound : Sound w'.db
  pub dispatched : w'.dispatcher ≡ dispatch_all env.dispatcher (newcomers known lots) w.dispatcher
  pub rows : (m : ℕ) → has_row w'.db m ≡ (contains m (map (λ (l : Lot). l.id) lots) || known m)

or_swap : (a b c : Bool) → (a || (b || c)) ≡ ((b || a) || c)
or_swap a b c = ground arith

pub one_stored-db :
    (env : Env) (lot : Lot) (answer : UpsertResult × Database) (w : World)
    → (one_stored env lot answer w).db ≡ answer.1
unfolding on_upserted
one_stored-db env lot answer w = elim (Bool-cases answer.0.was_new) [
  | inl e ↦ rw e refl
  | inr e ↦ elim (Option-cases (status_change answer.0.changes)) [
    | inl q ↦ rw (e, q) refl
    | inr (v, q) ↦ rw (e, q) refl
  ]
]

-- A lot is dispatched if it was not known.
one_stored-dispatcher :
    (env : Env) (lot : Lot) (answer : UpsertResult × Database) (w : World) (is_known : Bool)
    → answer.0.was_new ≡ not is_known
    → (one_stored env lot answer w).dispatcher ≡ (
        if is_known
        then w.dispatcher
        else dispatch env.dispatcher (lot_to_public_dto lot) w.dispatcher)
unfolding on_upserted
one_stored-dispatcher env lot answer w false e = rw e refl
one_stored-dispatcher env lot answer w true e =
    elim (Option-cases (status_change answer.0.changes)) [
      | inl q ↦ rw (e, q) refl
      | inr (v, q) ↦ rw (e, q) refl
    ]

count_lem :
    (known : ℕ → Bool) (lot : Lot) (lots : List Lot) (n : ℕ) (was_new : Bool)
    → was_new ≡ not (known lot.id)
    → n + (if was_new then 1 else 0) + length (newcomers (λ m. m == lot.id || known m) lots)
      ≡ n + length (newcomers known (lot ∷ lots))
count_lem known lot lots n was_new e = elim (Bool-cases (known lot.id)) [
  | inl q ↦ rw (e, q) (omega arith)
  | inr q ↦ rw (e, q) (omega arith)
]

dispatch_all-newcomers :
    (d : Options) (known : ℕ → Bool) (lot : Lot) (lots : List Lot) (w : DispatcherWorld)
    → dispatch_all d
        (newcomers (λ m. m == lot.id || known m) lots)
        (if known lot.id then w else dispatch d (lot_to_public_dto lot) w)
      ≡ dispatch_all d (newcomers known (lot ∷ lots)) w
dispatch_all-newcomers d known lot lots w = elim (Bool-cases (known lot.id)) [
  | inl q ↦ rw q refl
  | inr q ↦ rw q refl
]

-- On a sound database step 5 ends; it dispatches exactly the lots that are not known, in order, and
-- counts them; the database stays sound, and behind it the lots of the page have rows.
pub store_lots-Stores :
    (env : Env) (known : ℕ → Bool) (lots : List Lot) (n : ℕ) (w : World)
    → Sound w.db
    → ((m : ℕ) → has_row w.db m ≡ known m)
    → (w' : World) × (store_lots env lots n w ≡ stored (n + length (newcomers known lots)) w')
      × Stores env known lots w w'
store_lots-Stores env known [] n w h k = (
  w,
  unfold store_lots in ap (λ c. stored c w) (omega arith),
  record { sound = h; dispatched = refl; rows = k },
)
store_lots-Stores env known (lot ∷ lots) n w h k =
    let now = env.now w.tick in
    let (result, db', e) = upsert-Succeeds lot now w.db h in
    let w1 = one_stored env lot (result, db') w in
    let at_db = one_stored-db env lot (result, db') w in
    let sound = subst Sound (sym at_db) (upsert-Sound lot now w.db result db' h e) in
    let k1 : (m : ℕ) → has_row w1.db m ≡ (m == lot.id || known m) = λ m.
      ap (λ d. has_row d m) at_db
      ∙ upsert-has_row lot now w.db result db' m e
      ∙ ap (λ b. m == lot.id || b) (k m) in
    let is_new = was_new-has_row lot now w.db result db' e ∙ ap not (k lot.id) in
    let (w', q, s) =
      store_lots-Stores env (λ m. m == lot.id || known m) lots
        (n + (if result.was_new then 1 else 0)) w1 sound k1 in
    (
      w',
      store_lots_goes_on env lot lots n w (result, db') e
          ∙ q
          ∙ ap (λ c. stored c w') (count_lem known lot lots n result.was_new is_new),
      record {
        sound = s.sound;
        dispatched =
            s.dispatched
            ∙ ap (dispatch_all env.dispatcher (newcomers (λ m. m == lot.id || known m) lots))
                (one_stored-dispatcher env lot (result, db') w (known lot.id) is_new)
            ∙ dispatch_all-newcomers env.dispatcher known lot lots w.dispatcher;
        rows = λ m.
            s.rows m ∙ or_swap (contains m (map (λ (l : Lot). l.id) lots)) (m == lot.id) (known m);
      },
    )
