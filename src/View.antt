-- ===== src/View.antt =====
-- The view filter of a browser: `ViewFilters` of src/fis_monitor/services/view_filters.py, its filter on
-- the live events in services/sse_view_filter.py with `_build_event_filter` of web/routes/events.py,
-- and its filter on the stored lots in web/feed_context.py. Python's `int` on a text is a parameter;
-- `none` of it is the ValueError. The cookie is taken as what `deserialize` answers.
pub mod Catalog
pub mod Subjects
pub mod Agrees
use gektar_monitor.Prelude.{
  ℕ, String, Bool, true, false, not, ◌&&◌, ◌||◌, Option, none, some, List, [], ◌∷◌, ◌==◌, leb, ltb,
  contains, select, if◌then◌else◌, str_eq,
}
use gektar_monitor.Prelude.Int.{ℤ, pos, negsuc}
use gektar_monitor.Domain.{Instant, LotPublicDto}
use gektar_monitor.Domain.Regions.{subject_title_by_id}
use gektar_monitor.LotQuery.{LotFilters, is_none}
use gektar_monitor.Prelude.{is_empty}
use gektar_monitor.LotQuery.Search.{LotUserDto}

pub record ViewFilters : Type 0 where
  pub subjects : List String
  pub area_min : Option ℕ
  pub area_max : Option ℕ
  pub only_new : Bool

abbrev pub inverted : Option ℕ → Option ℕ → Bool
inverted (some low) (some high) = ltb high low
inverted _ _ = false

-- The validator of the model: `none` is a ValidationError.
unfoldable pub new_view_filters : ViewFilters → Option ViewFilters
new_view_filters vf = if inverted vf.area_min vf.area_max then none else some vf

-- The live events: those of a new lot, and all others.
pub data SseEvent : Type 0 where
  lot_new : LotPublicDto → SseEvent
  other : SseEvent

unfoldable pub is_default : ViewFilters → Bool
is_default vf = is_empty vf.subjects && (is_none vf.area_min && is_none vf.area_max)

abbrev pub is_int : ℕ → ℤ → Bool
is_int n (pos m) = n == m
is_int n (negsuc m) = false

abbrev pub int_in : ℕ → List ℤ → Bool
int_in n [] = false
int_in n (i ∷ is) = is_int n i || int_in n is

-- The ids among the subjects; what is no number is left out.
unfoldable pub subject_ids : (String → Option ℤ) → List String → List ℤ
subject_ids int_of [] = []
subject_ids int_of (s ∷ ss) = elim (int_of s) [
  | none ↦ subject_ids int_of ss
  | some i ↦ i ∷ subject_ids int_of ss
]

abbrev pub below : Option ℕ → Option ℕ → Bool
below (some bound) (some area) = ltb area bound
below _ _ = false

abbrev pub above : Option ℕ → Option ℕ → Bool
above (some bound) (some area) = ltb bound area
above _ _ = false

abbrev pub region_mismatch : List ℤ → Option ℕ → Bool
region_mismatch [] region_id = false
region_mismatch (i ∷ is) none = true
region_mismatch (i ∷ is) (some region) = not (int_in region (i ∷ is))

abbrev pub predicate : List ℤ → ViewFilters → LotPublicDto → Bool
predicate ids vf lot =
    if region_mismatch ids lot.region_id
    then false
    else if below vf.area_min lot.area_sqm
    then false
    else if above vf.area_max lot.area_sqm
    then false
    else true

unfoldable pub make_sse_view_filter : (String → Option ℤ) → ViewFilters → SseEvent → Bool
make_sse_view_filter int_of vf other = true
make_sse_view_filter int_of vf (lot_new lot) =
    if is_default vf then true else predicate (subject_ids int_of vf.subjects) vf lot

unfoldable pub make_sse_membership_filter : List ℕ → SseEvent → Bool
make_sse_membership_filter subscribed other = true
make_sse_membership_filter subscribed (lot_new lot) = elim lot.region_id [
  | none ↦ true
  | some region ↦ contains region subscribed
]

-- _build_event_filter; `none` is no cookie or one that is malformed.
unfoldable pub build_event_filter :
    (String → Option ℤ) → Option ViewFilters → List ℕ → SseEvent → Bool
build_event_filter int_of none subscribed event = make_sse_membership_filter subscribed event
build_event_filter int_of (some vf) subscribed event =
    make_sse_membership_filter subscribed event && make_sse_view_filter int_of vf event

-- `SUBJECT_TITLE_BY_ID.get`
unfoldable pub title_of : ℕ → List (ℕ × String) → Option String
title_of n [] = none
title_of n ((sid, name) ∷ rest) = if sid == n then some name else title_of n rest

abbrev pub title_of_int : ℤ → Option String
title_of_int (pos n) = title_of n subject_title_by_id
title_of_int (negsuc n) = none

abbrev pub with_name : Option String → List String → List String
with_name none names = names
with_name (some name) names = name ∷ names

unfoldable pub display_names : (String → Option ℤ) → List String → List String
display_names int_of [] = []
display_names int_of (s ∷ ss) = elim (int_of s) [
  | none ↦ display_names int_of ss
  | some i ↦ with_name (title_of_int i) (display_names int_of ss)
]

-- _view_filters_to_lot_filters
unfoldable pub view_filters_to_lot_filters : (String → Option ℤ) → ViewFilters → LotFilters
view_filters_to_lot_filters int_of vf = record {
  regions = [];
  subject_display_names = display_names int_of vf.subjects;
  area_sqm_min = vf.area_min;
  area_sqm_max = vf.area_max;
  status = none;
  fts_query = none;
  apply_subscription_cutoff = false;
  filter_subscribed_subjects = true;
}
