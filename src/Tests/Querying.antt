-- ===== src/Tests/Querying.antt =====
-- The query of the lots, the user state and the view filter on concrete inputs.
use gektar_monitor.Prelude.{
  ℕ, suc, zero, ◌+◌, ◌*◌, ◌-◌, ◌%◌, ◌/◌, ◌<◌, ◌≤◌, ◌||◌, ◌&&◌, ap, ◌∙◌, str_eq, ◌≡◌, refl, String,
  true, false, Option, none, some, List, [], ◌∷◌, ◌++◌, ◌==◌, ltb, if◌then◌else◌, arith, Bool-cases,
  inl, inr,
}
use gektar_monitor.Prelude.Int.{ℤ, pos}
use gektar_monitor.Prelude.Texts.{digits_of}
use gektar_monitor.Domain.{Instant, Lot, lot_to_public_dto}
use gektar_monitor.Lots.{LotRow, Database, columns, row_to_lot, read_reason}
use gektar_monitor.Lots.Queries.{read_all}
use gektar_monitor.Lots
use gektar_monitor.UserState.{get_many, get_chunks, get}
use gektar_monitor.LotQuery.{
  LotFilters, matching, holds, build_where, ordered, insert_row, in_subscribed,
}
use gektar_monitor.LotQuery.Search.{
  Codec, Reader, ok, all_pages, search, query, page_of, beyond, encode_cursor, decode_cursor,
  split_last, lot_to_user_dto, count,
}
use gektar_monitor.LotQuery.Order.{Strict}
use gektar_monitor.LotQuery.Paging.{Faithful}
use gektar_monitor.LotQuery.Reads.{items_of}
use gektar_monitor.LotQuery.Laws.{all_pages-matching}
use gektar_monitor.Subscriptions.{get_subscribed_at, list_subscribed_region_ids}
use gektar_monitor.Domain.Regions.{subject_id_by_title, id_of_title}
use gektar_monitor.View.{
  ViewFilters, lot_new, build_event_filter, make_sse_membership_filter, make_sse_view_filter,
  is_default, subject_ids, view_filters_to_lot_filters, display_names, title_of,
}
use gektar_monitor.View.Subjects.{Known}
use gektar_monitor.View.Agrees.{build_event_filter-build_where}
use gektar_monitor.Tests.Fixtures.{sample_lot}

abbrev lot_at : ℕ → Instant → Lot
lot_at n at_time = record sample_lot { id = n; date_create = at_time }

abbrev row_at : ℕ → Instant → LotRow
row_at n at_time = record {
  lot = columns (lot_at n at_time);
  is_backfill = false;
  enrichment_retries = 0;
}

abbrev three_rows : Database
three_rows = record {
  lots = row_at 4 10 ∷ row_at 5 20 ∷ row_at 6 10 ∷ [];
  history = [];
  rtree = [];
  last_known = [];
}

-- A codec: base64 leaves the text as it is, a time is one code point, and `int` reads the digits.
abbrev value_from : ℕ → List ℕ → ℕ
value_from acc [] = acc
value_from acc (c ∷ s) = value_from (acc * 10 + (c - b'0')) s

abbrev plain : Codec
plain = record {
  isoformat = λ d. d ∷ [];
  b64encode = λ s. s;
  b64decode = some;
  int_of = λ s. some (pos (value_from 0 s));
}

value_from-append :
    (acc : ℕ) (s : List ℕ) (c : ℕ)
    → value_from acc (s ++ c ∷ []) ≡ value_from acc s * 10 + (c - b'0')
value_from-append acc [] c = refl
value_from-append acc (d ∷ s) c = value_from-append (acc * 10 + (d - b'0')) s c

value_from-digits_of : (fuel n : ℕ) → n < fuel → value_from 0 (digits_of fuel n) ≡ n
value_from-digits_of zero n lt = absurd (omega (arith, lt))
value_from-digits_of (suc fuel) n lt = elim (Bool-cases (ltb n 10)) [
  | inl e ↦ rw e (ground (arith, e))
  | inr e ↦
      let big : 10 ≤ n = ground (arith, e) in
      rw e (
        value_from-append 0 (digits_of fuel (n / 10)) (b'0' + n % 10)
        ∙ omega (arith, big, value_from-digits_of fuel (n / 10) (omega (arith, lt, big))))
]

one_code : (a b : ℕ) → (ltb a b || ((a == b) && false)) ≡ ltb a b
one_code a b = ground arith

same_code : (a b : ℕ) → ((a == b) && true) ≡ (a == b)
same_code a b = ground arith

plain-Faithful : Faithful plain
plain-Faithful = record {
  b64 = λ s. refl;
  int_decimal = λ n. ap (λ v. some (pos v)) (value_from-digits_of (n + 1) n (omega arith));
  in_order = one_code;
  same = same_code;
}

abbrev all_lots : LotFilters
all_lots = record {
  regions = [];
  subject_display_names = [];
  area_sqm_min = some 500;
  area_sqm_max = none;
  status = some "open";
  fts_query = none;
  apply_subscription_cutoff = false;
  filter_subscribed_subjects = true;
}

abbrev reader : Reader
reader = record { codec = plain; subscribed_at = λ g. some 3; users = []; now = 2000000 }

abbrev newest : List Lot
newest = lot_at 5 20 ∷ lot_at 6 10 ∷ lot_at 4 10 ∷ []

-- Two of the three lots fit on the first page.
two_pages : all_pages 2 reader all_lots 2 none three_rows ≡ some (ok (items_of reader newest))
unfolding all_pages search query page_of holds build_where ordered insert_row in_subscribed beyond
    read_all row_to_lot read_reason get_many get_chunks get encode_cursor decode_cursor split_last
    lot_to_user_dto columns
two_pages = refl

all_pages-matching_example :
    (all_pages 4 reader all_lots 2 none three_rows ≡ some (ok (items_of reader newest)))
    × (count reader.subscribed_at all_lots three_rows ≡ ok 3)
    × Strict (ordered (matching reader.subscribed_at all_lots three_rows))
unfolding matching holds build_where ordered insert_row in_subscribed read_all row_to_lot
    read_reason columns
all_pages-matching_example =
    all_pages-matching reader all_lots 1 4 three_rows newest plain-Faithful (omega arith) refl
      (omega arith) refl (omega arith)

abbrev sound_rows : Database
sound_rows = record { lots = row_at 31 10 ∷ []; history = []; rtree = []; last_known = [] }

found_31 : Lots.get 31 sound_rows ≡ Lots.Result.ok (some (lot_at 31 10))
unfolding Lots.get Lots.find_row Lots.read_old row_to_lot read_reason columns
found_31 = refl

-- `int` on the texts that are used here.
abbrev int_of : String → Option ℤ
int_of s = if str_eq s "88" then some (pos 88) else none

abbrev coast : ViewFilters
coast = record { subjects = "88" ∷ []; area_min = some 500; area_max = none; only_new = true }

abbrev coast_lot : Lot
coast_lot = record sample_lot { region = "Приморский край"; region_id = some 88 }

abbrev coast_row : LotRow
coast_row = record { lot = columns coast_lot; is_backfill = false; enrichment_retries = 0 }

abbrev subscribed : List (ℕ × Instant)
subscribed = (88, 5) ∷ []

coast_read : row_to_lot coast_row ≡ Lots.Result.ok coast_lot
unfolding row_to_lot read_reason columns
coast_read = refl

coast-Known : Known int_of "88"
unfolding title_of
coast-Known = record { n = 88; name = "Приморский край"; number = refl; title = refl }

coast_region : coast_row.lot.region_id ≡ subject_id_by_title coast_row.lot.region
unfolding columns subject_id_by_title id_of_title
coast_region = refl

build_event_filter-build_where_example :
    build_event_filter int_of
      (some coast)
      (list_subscribed_region_ids subscribed)
      (lot_new (lot_to_public_dto coast_lot))
    ≡ holds
        (build_where
          (λ g. get_subscribed_at g subscribed)
          (view_filters_to_lot_filters int_of coast))
        coast_row
unfolding columns
build_event_filter-build_where_example =
    build_event_filter-build_where int_of coast subscribed coast_row coast_lot 10000 coast_read
      (coast-Known, tt) refl refl coast_region

coast_passes :
    build_event_filter int_of
      (some coast)
      (list_subscribed_region_ids subscribed)
      (lot_new (lot_to_public_dto coast_lot))
    ≡ true
unfolding build_event_filter make_sse_membership_filter make_sse_view_filter is_default subject_ids
    list_subscribed_region_ids lot_to_public_dto
coast_passes = refl

-- A subject that the catalog does not have hides every event, and does not narrow the feed.
abbrev stale : ViewFilters
stale = record { subjects = "88" ∷ []; area_min = none; area_max = none; only_new = false }

stale_subject :
    (build_event_filter
        (λ s. some (pos 999))
        (some stale)
        (list_subscribed_region_ids subscribed)
        (lot_new (lot_to_public_dto coast_lot))
      ≡ false)
    × (holds
          (build_where
            (λ g. get_subscribed_at g subscribed)
            (view_filters_to_lot_filters (λ s. some (pos 999)) stale))
          coast_row
        ≡ true)
unfolding build_event_filter make_sse_membership_filter make_sse_view_filter is_default subject_ids
    list_subscribed_region_ids lot_to_public_dto holds build_where view_filters_to_lot_filters
    display_names title_of in_subscribed get_subscribed_at columns
stale_subject = (refl, refl)
