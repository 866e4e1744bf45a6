-- ===== src/LotQuery/Reads.antt =====
-- The lots that are read off the rows of a page.
use gektar_monitor.Prelude.{
  ℕ, zero, suc, ◌<◌, ◌≡◌, refl, ap, subst, true, some, List, [], ◌∷◌, ltb, length, take, drop,
  contains, All, map, arith, ==_refl,
}
use gektar_monitor.Domain.{Lot}
use gektar_monitor.Lots.Rows.{>>=-eq-ok}
use gektar_monitor.Lots.{LotRow, Database, row_to_lot, read_reason, ◌>>=◌}
use gektar_monitor.Lots.Queries.{read_all}
use gektar_monitor.Lots
use gektar_monitor.UserState.{LotUserState, get_many}
use gektar_monitor.UserState
use gektar_monitor.UserState.Laws.{get-get_many}
use gektar_monitor.LotQuery.{Key, key_of}
use gektar_monitor.LotQuery.Search.{last, Reader, page_of, ok, LotUserDto, lot_to_user_dto, next_of}
use gektar_monitor.LotQuery.Paging.{last_row}

-- The lots that are read off rows.
abbrev pub Reads : List LotRow → List Lot → Type 0
Reads [] [] = Unit
Reads [] (l ∷ ls) = ⊥
Reads (r ∷ rs) [] = ⊥
Reads (r ∷ rs) (l ∷ ls) = (row_to_lot r ≡ Lots.Result.ok l) × Reads rs ls

pub read_all-Reads :
    (rows : List LotRow) (lots : List Lot) → read_all rows ≡ Lots.Result.ok lots → Reads rows lots
unfolding read_all
read_all-Reads [] [] e = tt
read_all-Reads [] (l ∷ ls) e = absurd (ground (arith, e))
read_all-Reads (r ∷ rows) lots e =
    let (l, first, rest) = >>=-eq-ok (row_to_lot r) _ e in
    let (ls, others, done) = >>=-eq-ok (read_all rows) _ rest in
    let same : l ∷ ls ≡ lots = cc done in
    subst (Reads (r ∷ rows)) same (first, read_all-Reads rows ls others)

pub Reads-read_all :
    (rows : List LotRow) (lots : List Lot) → Reads rows lots → read_all rows ≡ Lots.Result.ok lots
unfolding read_all
Reads-read_all [] [] h = refl
Reads-read_all [] (l ∷ ls) h = absurd h
Reads-read_all (r ∷ rows) [] h = absurd h
Reads-read_all (r ∷ rows) (l ∷ ls) h = rw (h.0, Reads-read_all rows ls h.1) refl

pub Reads-take :
    (n : ℕ) (rows : List LotRow) (lots : List Lot)
    → Reads rows lots
    → Reads (take n rows) (take n lots)
Reads-take zero rows lots h = tt
Reads-take (suc n) [] [] h = tt
Reads-take (suc n) [] (l ∷ ls) h = absurd h
Reads-take (suc n) (r ∷ rows) [] h = absurd h
Reads-take (suc n) (r ∷ rows) (l ∷ ls) h = (h.0, Reads-take n rows ls h.1)

pub Reads-drop :
    (n : ℕ) (rows : List LotRow) (lots : List Lot)
    → Reads rows lots
    → Reads (drop n rows) (drop n lots)
Reads-drop zero rows lots h = h
Reads-drop (suc n) [] [] h = tt
Reads-drop (suc n) [] (l ∷ ls) h = absurd h
Reads-drop (suc n) (r ∷ rows) [] h = absurd h
Reads-drop (suc n) (r ∷ rows) (l ∷ ls) h = Reads-drop n rows ls h.1

pub Reads-length :
    (rows : List LotRow) (lots : List Lot) → Reads rows lots → length lots ≡ length rows
Reads-length [] [] h = refl
Reads-length [] (l ∷ ls) h = absurd h
Reads-length (r ∷ rows) [] h = absurd h
Reads-length (r ∷ rows) (l ∷ ls) h = omega (arith, Reads-length rows ls h.1)

row_to_lot-key :
    (r : LotRow) (l : Lot)
    → row_to_lot r ≡ Lots.Result.ok l
    → ◌≡◌ {A = Key} (l.date_create, l.id) (key_of r)
unfolding row_to_lot
row_to_lot-key r l e =
    let (reason, read, done) = >>=-eq-ok (read_reason r.lot.inactive_reason) _ e in cc done

-- The last row of a page and its lot have one key.
pub last-page :
    (m : ℕ) (rows : List LotRow) (lots : List Lot)
    → Reads rows lots
    → 0 < length rows
    → (x : LotRow) × (l : Lot) × (last_row (take (suc m) rows) ≡ some x)
      × (last (take (suc m) lots) ≡ some l)
      × ◌≡◌ {A = Key} (l.date_create, l.id) (key_of x)
last-page m [] lots h some_row = absurd (omega (arith, some_row))
last-page m (r ∷ rows) [] h some_row = absurd h
last-page zero (r ∷ rows) (l ∷ ls) h some_row = (r, l, refl, refl, row_to_lot-key r l h.0)
last-page (suc m) (r ∷ []) (l ∷ []) h some_row = (r, l, refl, refl, row_to_lot-key r l h.0)
last-page (suc m) (r ∷ []) (l ∷ k ∷ ls) h some_row = absurd h.1
last-page (suc m) (r ∷ q ∷ rows) (l ∷ []) h some_row = absurd h.1
last-page (suc m) (r ∷ q ∷ rows) (l ∷ k ∷ ls) h some_row =
    last-page m (q ∷ rows) (k ∷ ls) h.1 (omega arith)

-- The lots as the client gets them.
abbrev pub items_of : Reader → List Lot → List LotUserDto
items_of e = map (λ (l : Lot). lot_to_user_dto e.now l (UserState.get l.id e.users))

abbrev ids_of : List Lot → List ℕ
ids_of = map (λ (l : Lot). l.id)

items-get_many :
    (e : Reader) (ids : List ℕ) (lots : List Lot)
    → All (λ (l : Lot). contains l.id ids ≡ true) lots
    → map (λ (l : Lot). lot_to_user_dto e.now l (UserState.get l.id (get_many ids e.users))) lots
      ≡ items_of e lots
items-get_many e ids [] h = refl
items-get_many e ids (l ∷ ls) h =
    rw (get-get_many l.id ids e.users, h.0)
      (ap (λ ds. lot_to_user_dto e.now l (UserState.get l.id e.users) ∷ ds)
        (items-get_many e ids ls h.1))

All-wider :
    (n : ℕ) (ids : List ℕ) (lots : List Lot)
    → All (λ (l : Lot). contains l.id ids ≡ true) lots
    → All (λ (l : Lot). contains l.id (n ∷ ids) ≡ true) lots
All-wider n ids [] h = tt
All-wider n ids (l ∷ ls) h = (ground (arith, h.0), All-wider n ids ls h.1)

All-own_ids : (lots : List Lot) → All (λ (l : Lot). contains l.id (ids_of lots) ≡ true) lots
All-own_ids [] = tt
All-own_ids (l ∷ ls) = (rw (==_refl l.id) refl, All-wider l.id (ids_of ls) ls (All-own_ids ls))

-- What `search` answers behind its query.
pub page_of-reads :
    (e : Reader) (page_size : ℕ) (rows : List LotRow) (lots : List Lot)
    → read_all (take page_size rows) ≡ Lots.Result.ok lots
    → page_of e.codec page_size e.users e.now rows
      ≡ ok (record {
        items = items_of e lots;
        next_cursor = next_of e.codec (ltb page_size (length rows)) (last lots);
        has_more = ltb page_size (length rows);
      })
unfolding page_of
page_of-reads e page_size rows lots read =
    rw (page_of, read, items-get_many e (ids_of lots) lots (All-own_ids lots)) refl
