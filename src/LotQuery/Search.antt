-- ===== src/LotQuery/Search.antt =====
-- The cursor of a page, `search` and `count` of src/fis_monitor/services/lot_query.py. Base64,
-- `isoformat` and `int` are the parameter `Codec`; `date_create` is compared as text where the code
-- does so.
use gektar_monitor.Prelude.{
  ℕ, zero, suc, ◌+◌, ◌-◌, ◌/◌, Bool, true, false, not, ◌&&◌, ◌||◌, Option, none, some, List, [],
  ◌∷◌, ◌++◌, ◌==◌, leb, ltb, length, take, select, decimal, map, if◌then◌else◌,
}
use gektar_monitor.Prelude.Int.{ℤ, pos, negsuc}
use gektar_monitor.Domain.{Instant, Freshness, hot, warm, cold, Lot}
use gektar_monitor.Lots.{LotRow, Database}
use gektar_monitor.Lots.Queries.{read_all}
use gektar_monitor.Lots
use gektar_monitor.UserState.{LotUserState, get_many}
use gektar_monitor.UserState
use gektar_monitor.LotQuery.{
  LotFilters, is_none, text_before, Subscriptions, Condition, build_where, holds, matching, Key,
  ordered,
}
use gektar_monitor.Prelude.{same_text}

-- `none` of a decoder is the exception.
pub record Codec : Type 0 where
  pub isoformat : Instant → List ℕ
  pub b64encode : List ℕ → List ℕ
  pub b64decode : List ℕ → Option (List ℕ)
  pub int_of : List ℕ → Option ℤ

pub data QueryError : Type 0 where
  value_error not_implemented : QueryError
  unreadable : Lots.Error → QueryError

pub data Found (A : Type 0) : Type 0 where
  raise : QueryError → Found A
  ok : A → Found A

-- A cursor that was decoded: the text of the time, and the id.
abbrev pub Cursor : Type 0
Cursor = List ℕ × ℤ

unfoldable pub encode_cursor : Codec → Key → List ℕ
encode_cursor codec k = codec.b64encode (codec.isoformat k.0 ++ b':' ∷ decimal k.1)

-- The parts around the last colon.
abbrev pub or_here : ℕ → List ℕ → Option (List ℕ × List ℕ) → Option (List ℕ × List ℕ)
or_here c s none = if c == b':' then some ([], s) else none
or_here c s (some (before_it, behind)) = some (c ∷ before_it, behind)

unfoldable pub split_last : List ℕ → Option (List ℕ × List ℕ)
split_last [] = none
split_last (c ∷ s) = or_here c s (split_last s)

abbrev pub with_id : List ℕ → Option ℤ → Option Cursor
with_id text none = none
with_id text (some n) = some (text, n)

unfoldable pub decode_cursor : Codec → List ℕ → Option Cursor
decode_cursor codec cursor = elim (codec.b64decode cursor) [
  | none ↦ none
  | some payload ↦ elim (split_last payload) [
    | none ↦ none
    | some (text, behind) ↦ with_id text (codec.int_of behind)
  ]
]

abbrev pub lt_int : ℕ → ℤ → Bool
lt_int n (pos m) = ltb n m
lt_int n (negsuc m) = false

-- The condition of a cursor.
unfoldable pub beyond : Codec → Option Cursor → Condition
beyond codec none r = true
beyond codec (some (text, n)) r =
    text_before (codec.isoformat r.lot.date_create) text
    || (same_text (codec.isoformat r.lot.date_create) text && lt_int r.lot.id n)

-- _build_query, and its run
unfoldable pub query :
    Codec → Subscriptions → LotFilters → Option Cursor → ℕ → Database → List LotRow
query codec subscribed_at f last_cursor limit db = take limit (
    ordered
      (select (λ r. holds (build_where subscribed_at f) r && beyond codec last_cursor r) db.lots))

pub record LotUserDto : Type 0 where
  pub lot : Lot
  pub age_seconds : ℕ
  pub freshness : Freshness
  pub user_state : Option LotUserState

abbrev pub compute_freshness : ℕ → Freshness
compute_freshness age = if ltb age 3600 then hot else if ltb age 86400 then warm else cold

-- `_lot_to_user_dto`. The age is the difference in microseconds, where the source subtracts two floats
-- and truncates the difference.
unfoldable pub lot_to_user_dto : Instant → Lot → Option LotUserState → LotUserDto
lot_to_user_dto now lot state =
    let age = (now - lot.first_seen) / 1000000 in
    record { lot = lot; age_seconds = age; freshness = compute_freshness age; user_state = state }

pub record Page : Type 0 where
  pub items : List LotUserDto
  pub next_cursor : Option (List ℕ)
  pub has_more : Bool

abbrev pub last : List Lot → Option Lot
last [] = none
last (l ∷ []) = some l
last (l ∷ m ∷ ls) = last (m ∷ ls)

abbrev pub next_of : Codec → Bool → Option Lot → Option (List ℕ)
next_of codec false l = none
next_of codec true none = none
next_of codec true (some l) = some (encode_cursor codec (l.date_create, l.id))

-- The part of `search` behind the query.
unfoldable pub page_of : Codec → ℕ → List LotUserState → Instant → List LotRow → Found Page
page_of codec page_size users now rows = elim (read_all (take page_size rows)) [
  | Lots.Result.raise e ↦ raise (unreadable e)
  | Lots.Result.ok lots ↦
      let states = get_many (map (λ (l : Lot). l.id) lots) users in
      ok (record {
        items = map (λ (l : Lot). lot_to_user_dto now l (UserState.get l.id states)) lots;
        next_cursor = next_of codec (ltb page_size (length rows)) (last lots);
        has_more = ltb page_size (length rows);
      })
]

abbrev decoded : Codec → Option (List ℕ) → Found (Option Cursor)
decoded codec none = ok none
decoded codec (some cursor) = elim (decode_cursor codec cursor) [
  | none ↦ raise value_error
  | some c ↦ ok (some c)
]

-- What `search` reads besides the tables and the filter.
pub record Reader : Type 0 where
  pub codec : Codec
  pub subscribed_at : Subscriptions
  pub users : List LotUserState
  pub now : Instant

unfoldable pub search : Reader → LotFilters → ℕ → Option (List ℕ) → Database → Found Page
search e f page_size cursor db =
    if not (leb 1 page_size && leb page_size 200)
    then raise value_error
    else if not (is_none f.fts_query)
    then raise not_implemented
    else elim (decoded e.codec cursor) [
      | raise x ↦ raise x
      | ok last_cursor ↦
          page_of e.codec page_size e.users e.now
            (query e.codec e.subscribed_at f last_cursor (page_size + 1) db)
    ]

unfoldable pub count : Subscriptions → LotFilters → Database → Found ℕ
count subscribed_at f db =
    if not (is_none f.fts_query)
    then raise not_implemented
    else ok (length (matching subscribed_at f db))

-- A client that asks for page after page, and collects the lots; `none` is fuel that ran out.
unfoldable pub all_pages :
    ℕ → Reader → LotFilters → ℕ → Option (List ℕ) → Database → Option (Found (List LotUserDto))
all_pages zero e f page_size cursor db = none
all_pages (suc fuel) e f page_size cursor db = elim (search e f page_size cursor db) [
  | raise x ↦ some (raise x)
  | ok page ↦ elim page.next_cursor [
    | none ↦ some (ok page.items)
    | some next ↦ elim (all_pages fuel e f page_size (some next) db) [
      | none ↦ none
      | some (raise x) ↦ some (raise x)
      | some (ok items) ↦ some (ok (page.items ++ items))
    ]
  ]
]
