-- ===== src/LotQuery.antt =====
-- `LotQueryService` of src/fis_monitor/services/lot_query.py on the tables of Lots.antt: the filter
-- with its refusals, the conditions of WHERE and ORDER BY.
-- A condition whose column is NULL does not hold.
pub mod Search
pub mod Reads
pub mod Order
pub mod Paging
pub mod Laws
use gektar_monitor.Prelude.{
  is_empty, same_text, ℕ, zero, suc, ◌+◌, ◌-◌, ◌/◌, ◌<◌, ◌≡◌, String, Bool, true, false, not, ◌&&◌,
  ◌||◌, Option, none, some, List, [], ◌∷◌, ◌++◌, ◌==◌, leb, ltb, length, take, drop, select,
  contains, codes, decimal, map, if◌then◌else◌, str_eq,
}
use gektar_monitor.Prelude.Int.{ℤ, pos, negsuc}
use gektar_monitor.Domain.{Instant, Freshness, hot, warm, cold, Lot, date}
use gektar_monitor.Lots.{LotRow, Database}
use gektar_monitor.Lots.Queries.{read_all}
use gektar_monitor.Lots
use gektar_monitor.UserState.{LotUserState, get_many}
use gektar_monitor.UserState

pub record LotFilters : Type 0 where
  pub regions : List ℕ
  pub subject_display_names : List String
  pub area_sqm_min : Option ℕ
  pub area_sqm_max : Option ℕ
  pub status : Option String
  pub fts_query : Option String
  pub apply_subscription_cutoff : Bool
  pub filter_subscribed_subjects : Bool

abbrev pub is_none {ℓ} : {A : Type ℓ} → Option A → Bool
is_none none = true
is_none (some a) = false

abbrev pub text_in : String → List String → Bool
text_in s [] = false
text_in s (t ∷ ts) = str_eq s t || text_in s ts

abbrev pub known_status : Option String → Bool
known_status none = true
known_status (some s) = text_in s ("Свободен" ∷ "Зарезервирован" ∷ [])

-- `__post_init__`: `none` is a ValueError.
unfoldable pub new_filters : LotFilters → Option LotFilters
new_filters f =
    if not (is_empty f.regions) && not (is_empty f.subject_display_names)
    then none
    else if f.apply_subscription_cutoff && f.filter_subscribed_subjects
    then none
    else if not (known_status f.status)
    then none
    else some f

-- The order of texts, code point by code point.
abbrev pub text_before : List ℕ → List ℕ → Bool
text_before [] [] = false
text_before [] (d ∷ t) = true
text_before (c ∷ s) [] = false
text_before (c ∷ s) (d ∷ t) = ltb c d || (c == d && text_before s t)

abbrev pub code_in : List ℕ → List ℕ → Bool
code_in s [] = false
code_in s (n ∷ ns) = same_text s (decimal n) || code_in s ns

abbrev pub at_least : Option ℕ → ℕ → Bool
at_least none n = false
at_least (some a) n = leb n a

abbrev pub at_most : Option ℕ → ℕ → Bool
at_most none n = false
at_most (some a) n = leb a n

-- `region_subscriptions`: a region has one row at most.
abbrev pub Subscriptions : Type 0
Subscriptions = ℕ → Option Instant

-- _subscription_cutoff_fragment, with the LEFT JOIN
unfoldable pub passes_cutoff : Subscriptions → LotRow → Bool
passes_cutoff subscribed_at r = elim r.lot.region_id [
  | none ↦ true
  | some region ↦ elim (subscribed_at region) [
    | none ↦ true
    | some at_time ↦ leb (date at_time) (date r.lot.date_create)
  ]
]

unfoldable pub in_subscribed : Subscriptions → Option ℕ → Bool
in_subscribed subscribed_at none = true
in_subscribed subscribed_at (some region) = not (is_none (subscribed_at region))

abbrev pub Condition : Type 0
Condition = LotRow → Bool

-- A condition that is appended under `if`.
abbrev pub given : Bool → Condition → List Condition
given true c = c ∷ []
given false c = []

abbrev pub given_some {ℓ} : {A : Type ℓ} → Option A → (A → Condition) → List Condition
given_some none c = []
given_some (some a) c = c a ∷ []

-- _build_where, in the order of the code
unfoldable pub build_where : Subscriptions → LotFilters → List Condition
build_where subscribed_at f =
    (λ r. r.lot.is_active)
    ∷ (given (not (is_empty f.regions)) (λ r. code_in (codes r.lot.region) f.regions)
        ++ (given (not (is_empty f.subject_display_names))
              (λ r. text_in r.lot.region f.subject_display_names)
            ++ (given_some f.area_sqm_min (λ n r. at_least r.lot.area_sqm n)
                ++ (given_some f.area_sqm_max (λ n r. at_most r.lot.area_sqm n)
                    ++ (given_some f.status (λ s r. str_eq r.lot.status s)
                        ++ (given f.apply_subscription_cutoff (passes_cutoff subscribed_at)
                            ++ given f.filter_subscribed_subjects
                                (λ r. in_subscribed subscribed_at r.lot.region_id)))))))

unfoldable pub holds : List Condition → Condition
holds [] r = true
holds (c ∷ cs) r = c r && holds cs r

-- The rows of FROM … WHERE.
unfoldable pub matching : Subscriptions → LotFilters → Database → List LotRow
matching subscribed_at f db = select (holds (build_where subscribed_at f)) db.lots

-- ORDER BY date_create DESC, id DESC
abbrev pub Key : Type 0
Key = Instant × ℕ

abbrev pub key_of : LotRow → Key
key_of r = (r.lot.date_create, r.lot.id)

abbrev pub before : Key → Key → Bool
before a b = ltb b.0 a.0 || (a.0 == b.0 && ltb b.1 a.1)

unfoldable pub insert_row : LotRow → List LotRow → List LotRow
insert_row r [] = r ∷ []
insert_row r (q ∷ qs) =
    let rest = insert_row r qs in if before (key_of q) (key_of r) then q ∷ rest else r ∷ q ∷ qs

unfoldable pub ordered : List LotRow → List LotRow
ordered [] = []
ordered (r ∷ rs) = insert_row r (ordered rs)
