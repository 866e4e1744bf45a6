-- ===== src/UserState/Laws.antt =====
-- The chunked read of the user state, and what its writes leave as it was.
use gektar_monitor.Prelude.{
  ℕ, zero, suc, ◌≤◌, ◌≡◌, refl, ap, sym, ◌∙◌, Bool, true, false, ◌||◌, Option, none, some, List, [],
  ◌∷◌, ◌++◌, ◌==◌, length, take, drop, contains, if◌then◌else◌, arith, ==_iff, ==_refl, Bool-cases,
  inl, inr,
}
use gektar_monitor.Domain.{Instant, Lot}
use gektar_monitor.Lots.{Database}
use gektar_monitor.Lots
use gektar_monitor.UserState.{
  LotUserState, untouched, get, put, submitting, noting, set_submitted, set_note, chunk_size,
  rows_in, get_chunks, get_many, ok, require_lot, toggled, toggle_archive, too_long, store_note,
}

abbrev pub or_else : Option LotUserState → Option LotUserState → Option LotUserState
or_else none o = o
or_else (some s) o = some s

get-append : (n : ℕ) (s t : List LotUserState) → get n (s ++ t) ≡ or_else (get n s) (get n t)
unfolding get
get-append n [] t = refl
get-append n (x ∷ s) t = ground (arith, get-append n s t)

get-rows_in :
    (n : ℕ) (ids : List ℕ) (t : List LotUserState)
    → get n (rows_in ids t) ≡ (if contains n ids then get n t else none)
unfolding get
get-rows_in n ids [] = ground arith
get-rows_in n ids (s ∷ t) = elim (Bool-cases (s.lot_id == n)) [
  | inl e ↦ rw ((==_iff s.lot_id n).0 e) (ground (arith, get-rows_in n ids t))
  | inr e ↦ ground (arith, get-rows_in n ids t)
]

contains-take-drop :
    (n k : ℕ) (ids : List ℕ) → contains n ids ≡ (contains n (take k ids) || contains n (drop k ids))
contains-take-drop n zero ids = refl
contains-take-drop n (suc k) [] = refl
contains-take-drop n (suc k) (m ∷ ids) = ground (arith, contains-take-drop n k ids)

length-drop : (k : ℕ) (ids : List ℕ) → length (drop k ids) ≤ length ids
length-drop zero ids = omega arith
length-drop (suc k) [] = omega arith
length-drop (suc k) (m ∷ ids) = omega (arith, length-drop k ids)

merge :
    (a b : Bool) (x y : Option LotUserState)
    → (if b
        then or_else x (or_else (if a then x else none) y)
        else or_else (if a then x else none) y)
      ≡ (if a || b then or_else x y else y)
merge true true none y = refl
merge true true (some s) y = refl
merge true false x y = refl
merge false true none y = refl
merge false true (some s) y = refl
merge false false x y = refl

-- Chunk by chunk, an id that is asked for is looked up in the table.
get-get_chunks :
    (fuel n : ℕ) (ids : List ℕ) (t result : List LotUserState)
    → length ids ≤ fuel
    → get n (get_chunks fuel ids t result)
      ≡ (if contains n ids then or_else (get n t) (get n result) else get n result)
unfolding get_chunks
get-get_chunks zero n [] t result le = refl
get-get_chunks zero n (m ∷ ids) t result le = absurd (omega (arith, le))
get-get_chunks (suc fuel) n [] t result le = refl
get-get_chunks (suc fuel) n (m ∷ ids) t result le =
    let chunk = take chunk_size (m ∷ ids) in
    let rest = drop chunk_size (m ∷ ids) in
    let found : get n (rows_in chunk t ++ result)
        ≡ or_else (if contains n chunk then get n t else none) (get n result) =
      get-append n (rows_in chunk t) result
      ∙ ap (λ o. or_else o (get n result)) (get-rows_in n chunk t) in
    let tail =
      get-get_chunks fuel n rest t (rows_in chunk t ++ result)
        (omega (arith, le, length-drop 499 ids)) in
    tail
    ∙ ap (λ o. if contains n rest then or_else (get n t) o else o) found
    ∙ merge (contains n chunk) (contains n rest) (get n t) (get n result)
    ∙ ap (λ b. if b then or_else (get n t) (get n result) else get n result)
        (sym (contains-take-drop n chunk_size (m ∷ ids)))

or_else-none : (o : Option LotUserState) → or_else o none ≡ o
or_else-none none = refl
or_else-none (some s) = refl

-- `get_many` answers, for each lot that is asked for, what `get` answers, however many chunks the
-- ids take, and nothing for another lot.
pub get-get_many :
    (n : ℕ) (ids : List ℕ) (table : List LotUserState)
    → get n (get_many ids table) ≡ (if contains n ids then get n table else none)
unfolding get_many get
get-get_many n ids table =
    get-get_chunks (length ids) n ids table [] (omega arith)
    ∙ ap (λ o. if contains n ids then o else none) (or_else-none (get n table))

-- The row of a lot behind a write, from its row before.
abbrev pub written :
    ℕ → Instant → (LotUserState → LotUserState) → Option LotUserState → LotUserState
written n now f none = f (untouched n now)
written n now f (some s) = f s

get-put :
    (n m : ℕ) (now : Instant) (f : LotUserState → LotUserState) (t : List LotUserState)
    → ((s : LotUserState) → (f s).lot_id ≡ s.lot_id)
    → get m (put n now f t) ≡ (if n == m then some (written n now f (get n t)) else get m t)
unfolding get put
get-put n m now f [] keeps = rw (keeps (untouched n now)) refl
get-put n m now f (s ∷ t) keeps = elim (Bool-cases (s.lot_id == n)) [
  | inl e ↦ ground (arith, keeps s, (==_iff s.lot_id n).0 e)
  | inr e ↦ ground (arith, keeps s, get-put n m now f t keeps)
]

-- If the lot is in the database and the note is no longer than 4096 characters, archiving the lot and
-- then storing the note succeed. The row of the lot then has the flag turned over, no time of
-- submission, the note, and the times of its last change and of being seen that it should have; the
-- rows of the other lots are as they were.
store_note-toggle_archive :
    (n m : ℕ) (note : Option (List ℕ)) (now later : Instant) (db : Database)
    (table : List LotUserState) (lot : Lot)
    → Lots.get n db ≡ Lots.Result.ok (some lot)
    → too_long note ≡ false
    → (t : List LotUserState) × (u : List LotUserState) × (toggle_archive n now db table ≡ ok t)
      × (store_note n note later db t ≡ ok u)
      × (get m u ≡ (
          if n == m
          then some (
              noting note later
                (written n now (submitting (toggled (get n table)) none now) (get n table)))
          else get m table))
unfolding toggle_archive store_note require_lot set_submitted set_note
store_note-toggle_archive n m note now later db table lot found fits =
    let f = submitting (toggled (get n table)) none now in
    let t = put n now f table in
    (
      t,
      put n later (noting note later) t,
      rw found refl,
      rw (fits, found) refl,
      get-put n m later (noting note later) t (λ s. refl)
          ∙ twice (n == m) (get m table) (get-put n n now f table (λ s. refl) ∙ rw (==_refl n) refl)
              (get-put n m now f table (λ s. refl)),
    )
  where
    twice :
        (b : Bool) (q : Option LotUserState) {o p : Option LotUserState} {r : LotUserState}
        → o ≡ some r
        → p ≡ (if b then some r else q)
        → (if b then some (written n later (noting note later) o) else p)
          ≡ (if b then some (noting note later r) else q)
    twice true q h k = ap (λ x. some (written n later (noting note later) x)) h
    twice false q h k = k
