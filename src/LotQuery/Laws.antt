-- ===== src/LotQuery/Laws.antt =====
-- The pages of a query put together are the lots that match it.
use gektar_monitor.Prelude.{
  ℕ, zero, suc, ◌+◌, ◌≤◌, ◌<◌, ◌≡◌, refl, ap, sym, subst, ◌∙◌, Bool, true, false, ◌&&◌, Option,
  none, some, List, [], ◌∷◌, ◌++◌, leb, ltb, length, take, drop, select, arith, Bool-cases, inl,
  inr,
}
use gektar_monitor.Prelude.Int.{pos}
use gektar_monitor.Domain.{Lot}
use gektar_monitor.Lots.{LotRow, Database, row_to_lot, read_reason, ◌>>=◌}
use gektar_monitor.Lots.Queries.{read_all}
use gektar_monitor.Lots
use gektar_monitor.UserState.{LotUserState, get_many}
use gektar_monitor.UserState
use gektar_monitor.LotQuery.{
  LotFilters, Key, key_of, before, ordered, matching, holds, build_where, is_none,
}
use gektar_monitor.LotQuery.Search.{
  Codec, Cursor, encode_cursor, beyond, query, Reader, page_of, search, all_pages, count, ok,
  lot_to_user_dto,
}
use gektar_monitor.LotQuery.Order.{
  Strict, DistinctIds, select-Strict, ordered-Strict, select-ordered, ordered-length,
}
use gektar_monitor.LotQuery.Paging.{
  Faithful, decode_cursor-encode_cursor, beyond-before, behind, last_row, behind-page,
  behind-behind, All-selected, select-and, take-take, more-take, All-last,
}
use gektar_monitor.LotQuery.Reads.{
  Reads, read_all-Reads, Reads-read_all, Reads-take, Reads-drop, Reads-length, last-page, items_of,
  page_of-reads,
}

abbrev encoded : Codec → Option Key → Option (List ℕ)
encoded codec none = none
encoded codec (some k) = some (encode_cursor codec k)

and_true : (b : Bool) → (b && true) ≡ b
and_true true = refl
and_true false = refl

-- The cursor that `search` decodes.
abbrev cursor_of : Codec → Option Key → Option Cursor
cursor_of codec none = none
cursor_of codec (some k) = some (codec.isoformat k.0, pos k.1)

-- The rows of a query are those behind its cursor, of the rows that match in their order.
query-behind :
    (e : Reader) (f : LotFilters) (k : Option Key) (limit : ℕ) (db : Database)
    → Faithful e.codec
    → DistinctIds (matching e.subscribed_at f db)
    → query e.codec e.subscribed_at f (cursor_of e.codec k) limit db
      ≡ take limit (behind k (ordered (matching e.subscribed_at f db)))
unfolding query matching beyond
query-behind e f none limit db c distinct =
    let tests = holds (build_where e.subscribed_at f) in
    λ i. take limit (ordered (select (λ r. and_true (tests r) i) db.lots))
query-behind e f (some k) limit db c distinct =
    let tests = holds (build_where e.subscribed_at f) in
    let step : query e.codec e.subscribed_at f (cursor_of e.codec (some k)) limit db
        ≡ take limit (ordered (select (λ r. tests r && before k (key_of r)) db.lots)) =
      λ i. take limit (ordered (select (λ r. tests r && beyond-before e.codec k r c i) db.lots)) in
    step
    ∙ ap (λ l. take limit (ordered l)) (select-and tests (λ r. before k (key_of r)) db.lots)
    ∙ ap (take limit) (select-ordered (λ r. before k (key_of r)) (select tests db.lots) distinct)

search-behind :
    (e : Reader) (f : LotFilters) (m : ℕ) (k : Option Key) (db : Database)
    → Faithful e.codec
    → DistinctIds (matching e.subscribed_at f db)
    → is_none f.fts_query ≡ true
    → m < 200
    → search e f (suc m) (encoded e.codec k) db
      ≡ page_of e.codec
          (suc m)
          e.users
          e.now
          (take (suc (suc m)) (behind k (ordered (matching e.subscribed_at f db))))
unfolding search
search-behind e f m k db c distinct fts small =
    let fits : (leb 1 (suc m) && leb (suc m) 200) ≡ true = ground (arith, small) in
    let limit : suc m + 1 ≡ suc (suc m) = omega arith in
    let rows : query e.codec e.subscribed_at f (cursor_of e.codec k) (suc m + 1) db
        ≡ take (suc (suc m)) (behind k (ordered (matching e.subscribed_at f db))) =
      query-behind e f k (suc m + 1) db c distinct
      ∙ ap (λ n. take n (behind k (ordered (matching e.subscribed_at f db)))) limit in
    by_cursor k fits rows
  where
    by_cursor :
        (k : Option Key)
        → (leb 1 (suc m) && leb (suc m) 200) ≡ true
        → query e.codec e.subscribed_at f (cursor_of e.codec k) (suc m + 1) db
          ≡ take (suc (suc m)) (behind k (ordered (matching e.subscribed_at f db)))
        → search e f (suc m) (encoded e.codec k) db
          ≡ page_of e.codec
              (suc m)
              e.users
              e.now
              (take (suc (suc m)) (behind k (ordered (matching e.subscribed_at f db))))
    by_cursor none fits rows =
        rw (search, fits, fts) (ap (page_of e.codec (suc m) e.users e.now) rows)
    by_cursor (some k) fits rows =
        rw (search, fits, fts, decode_cursor-encode_cursor e.codec k c)
          (ap (page_of e.codec (suc m) e.users e.now) rows)

items-take-drop :
    (e : Reader) (n : ℕ) (lots : List Lot)
    → items_of e (take n lots) ++ items_of e (drop n lots) ≡ items_of e lots
items-take-drop e zero lots = refl
items-take-drop e (suc n) [] = refl
items-take-drop e (suc n) (l ∷ ls) =
    ap (λ ds. lot_to_user_dto e.now l (UserState.get l.id e.users) ∷ ds) (items-take-drop e n ls)

take-all : (n : ℕ) (lots : List Lot) → length lots ≤ n → take n lots ≡ lots
take-all zero [] le = refl
take-all zero (l ∷ ls) le = absurd (omega (arith, le))
take-all (suc n) [] le = refl
take-all (suc n) (l ∷ ls) le = ap (λ ms. l ∷ ms) (take-all n ls (omega (arith, le)))

length-drop :
    (m : ℕ) (rows : List LotRow) → 0 < length rows → length (drop (suc m) rows) < length rows
length-drop m [] some_row = absurd (omega (arith, some_row))
length-drop zero (r ∷ rows) some_row = omega arith
length-drop (suc m) (r ∷ []) some_row = omega arith
length-drop (suc m) (r ∷ q ∷ rows) some_row = omega (arith, length-drop m (q ∷ rows) (omega arith))

behind-Strict : (k : Option Key) (rows : List LotRow) → Strict rows → Strict (behind k rows)
behind-Strict none rows h = h
behind-Strict (some k) rows h = select-Strict (λ r. before k (key_of r)) rows h

-- The key of a page is behind the cursor of the page.
last-behind :
    (k : Option Key) (m : ℕ) (rows : List LotRow) (x : LotRow)
    → last_row (take (suc m) (behind k rows)) ≡ some x
    → (c : Key) → k ≡ some c
    → before c (key_of x) ≡ true
last-behind none m rows x e c same = absurd (ground (arith, same))
last-behind (some d) m rows x e c same =
    let eq : d ≡ c = cc same in
    subst (λ y. before y (key_of x) ≡ true) eq
      (All-last (λ r. before d (key_of r) ≡ true) m _ x (All-selected _ rows) e)

module _ (e : Reader) (f : LotFilters) (m : ℕ) (db : Database) (c : Faithful e.codec)
    (distinct : DistinctIds (matching e.subscribed_at f db)) (fts : is_none f.fts_query ≡ true)
    (small : m < 200) where
  -- The pages from a cursor on.
  all_pages-behind :
      (fuel : ℕ) (k : Option Key) (lots : List Lot)
      → Reads (behind k (ordered (matching e.subscribed_at f db))) lots
      → length (behind k (ordered (matching e.subscribed_at f db))) < fuel
      → all_pages fuel e f (suc m) (encoded e.codec k) db ≡ some (ok (items_of e lots))
  unfolding all_pages
  all_pages-behind zero k lots read enough = absurd (omega (arith, enough))
  all_pages-behind (suc fuel) k lots read enough =
      let rows = behind k (ordered (matching e.subscribed_at f db)) in
      let page =
        search-behind e f m k db c distinct fts small
        ∙ page_of-reads e (suc m) (take (suc (suc m)) rows) (take (suc m) lots) (
            ap read_all (take-take (suc m) rows)
            ∙ Reads-read_all _ _ (Reads-take (suc m) rows lots read)) in
      elim (Bool-cases (ltb (suc m) (length rows))) [
        | inl more ↦
            let some_row : 0 < length rows = ground (arith, more) in
            let (x, l, row, lot, key) = last-page m rows lots read some_row in
            let next : behind (some (key_of x)) (ordered (matching e.subscribed_at f db))
                ≡ drop (suc m) rows =
              sym (behind-behind k x _ (last-behind k m _ x row))
              ∙ behind-page m rows x (behind-Strict k _ (ordered-Strict _ distinct)) row in
            let rest =
              all_pages-behind fuel (some (key_of x)) (drop (suc m) lots)
                (subst (λ rs. Reads rs (drop (suc m) lots)) (sym next)
                  (Reads-drop (suc m) rows lots read))
                (rw next (omega (arith, enough, length-drop m rows some_row))) in
            let rest' =
              subst
                (λ y.
                  all_pages fuel e f (suc m) (some (encode_cursor e.codec y)) db
                  ≡ some (ok (items_of e (drop (suc m) lots))))
                (sym key) rest in
            rw (all_pages, page, more-take (suc m) rows, more, lot, rest')
              (ap (λ ds. some (ok ds)) (items-take-drop e (suc m) lots))
        | inr done ↦
            rw (all_pages, page, more-take (suc m) rows, done)
              (ap (λ ls. some (ok (items_of e ls)))
                (take-all (suc m) lots (ground (arith, done, Reads-length rows lots read))))
      ]

-- If no two matching rows have the same id, each of them can be read as a lot, no full-text search is
-- asked for and the page size is from 1 to 200, then a client that follows the cursors from the first
-- page on gets to the end, whenever it asks for more pages than there are matching rows. It gets
-- exactly the matching lots, each once, newest first and by falling id within one time, each with its
-- own user state; and `count` answers how many they are. The tables do not change meanwhile.
pub all_pages-matching :
    (e : Reader) (f : LotFilters) (m fuel : ℕ) (db : Database) (lots : List Lot)
    → Faithful e.codec
    → DistinctIds (matching e.subscribed_at f db)
    → f.fts_query ≡ none
    → m < 200
    → read_all (ordered (matching e.subscribed_at f db)) ≡ Lots.Result.ok lots
    → length lots < fuel
    → (all_pages fuel e f (suc m) none db ≡ some (ok (items_of e lots)))
      × (count e.subscribed_at f db ≡ ok (length lots))
      × Strict (ordered (matching e.subscribed_at f db))
unfolding count
all_pages-matching e f m fuel db lots c distinct fts small read enough =
    let rows = ordered (matching e.subscribed_at f db) in
    let reads = read_all-Reads rows lots read in
    let sizes = Reads-length rows lots reads in
    let none_asked : is_none f.fts_query ≡ true = ap is_none fts in
    (
      all_pages-behind e f m db c distinct none_asked small fuel none lots reads
          (omega (arith, enough, sizes)),
      rw (count, none_asked) (ap ok (sym (sizes ∙ ordered-length (matching e.subscribed_at f db)))),
      ordered-Strict _ distinct,
    )
