-- ===== src/View/Agrees.antt =====
-- The filter on the live events and the one on the stored lots agree.
use gektar_monitor.Prelude.{
  ℕ, ◌≡◌, refl, ap, sym, subst, ◌∙◌, String, Bool, true, false, not, ◌&&◌, ◌||◌, Option, none, some,
  List, [], ◌∷◌, contains, All, if◌then◌else◌, arith,
}
use gektar_monitor.Prelude.Int.{ℤ}
use gektar_monitor.Domain.{Instant, Lot, LotPublicDto, lot_to_public_dto}
use gektar_monitor.Domain.Regions.{subject_id_by_title}
use gektar_monitor.Lots.{LotRow, row_to_lot, read_reason, with_reason, ◌>>=◌}
use gektar_monitor.Lots
use gektar_monitor.Lots.Rows.{>>=-eq-ok}
use gektar_monitor.LotQuery.{holds, build_where, in_subscribed, is_none, text_in, at_least, at_most}
use gektar_monitor.Prelude.{is_empty}
use gektar_monitor.Subscriptions.{
  get_subscribed_at, list_subscribed_region_ids, contains-list_subscribed_region_ids,
}
use gektar_monitor.View.{
  ViewFilters, lot_new, is_default, subject_ids, below, above, region_mismatch, predicate,
  make_sse_view_filter, make_sse_membership_filter, build_event_filter, display_names,
  view_filters_to_lot_filters,
}
use gektar_monitor.View.Subjects.{Known, subject_condition}

abbrev low_ok : Option ℕ → Option ℕ → Bool
low_ok none area = true
low_ok (some n) area = at_least area n

abbrev high_ok : Option ℕ → Option ℕ → Bool
high_ok none area = true
high_ok (some n) area = at_most area n

not-below : (low : Option ℕ) (a : ℕ) → not (below low (some a)) ≡ low_ok low (some a)
not-below none a = refl
not-below (some n) a = ground arith

not-above : (high : Option ℕ) (a : ℕ) → not (above high (some a)) ≡ high_ok high (some a)
not-above none a = refl
not-above (some n) a = ground arith

three_guards :
    (a b c : Bool)
    → (if a then false else if b then false else if c then false else true)
      ≡ (not a && (not b && not c))
three_guards true b c = refl
three_guards false true c = refl
three_guards false false true = refl
three_guards false false false = refl

-- The shortcut of a filter at its defaults makes no difference.
view_value :
    (int_of : String → Option ℤ) (vf : ViewFilters) (lot : LotPublicDto)
    → make_sse_view_filter int_of vf (lot_new lot) ≡ (
        not (region_mismatch (subject_ids int_of vf.subjects) lot.region_id)
        && (not (below vf.area_min lot.area_sqm) && not (above vf.area_max lot.area_sqm)))
unfolding make_sse_view_filter is_default subject_ids
view_value int_of vf lot = by_fields vf.subjects vf.area_min vf.area_max
  where
    by_fields :
        (ss : List String) (low high : Option ℕ)
        → (if is_empty ss && (is_none low && is_none high)
            then true
            else predicate
                (subject_ids int_of ss)
                (record vf { subjects = ss; area_min = low; area_max = high })
                lot)
          ≡ (not (region_mismatch (subject_ids int_of ss) lot.region_id)
              && (not (below low lot.area_sqm) && not (above high lot.area_sqm)))
    by_fields [] none none = refl
    by_fields [] none (some n) =
        three_guards (region_mismatch (subject_ids int_of []) lot.region_id)
          (below none lot.area_sqm) (above (some n) lot.area_sqm)
    by_fields [] (some n) high =
        three_guards (region_mismatch (subject_ids int_of []) lot.region_id)
          (below (some n) lot.area_sqm) (above high lot.area_sqm)
    by_fields (s ∷ ss) low high =
        three_guards (region_mismatch (subject_ids int_of (s ∷ ss)) lot.region_id)
          (below low lot.area_sqm) (above high lot.area_sqm)

-- The conditions of the feed.
feed_value :
    (subscribed : ℕ → Option Instant) (int_of : String → Option ℤ) (vf : ViewFilters) (r : LotRow)
    → holds (build_where subscribed (view_filters_to_lot_filters int_of vf)) r ≡ (
        r.lot.is_active
        && ((is_empty (display_names int_of vf.subjects)
              || text_in r.lot.region (display_names int_of vf.subjects))
            && (low_ok vf.area_min r.lot.area_sqm
                && (high_ok vf.area_max r.lot.area_sqm
                    && (in_subscribed subscribed r.lot.region_id && true)))))
unfolding holds build_where view_filters_to_lot_filters
feed_value subscribed int_of vf r =
    by_fields (display_names int_of vf.subjects) vf.area_min vf.area_max
  where
    by_fields :
        (names : List String) (low high : Option ℕ)
        → holds
            (build_where subscribed (record (view_filters_to_lot_filters int_of vf) {
              subject_display_names = names;
              area_sqm_min = low;
              area_sqm_max = high;
            }))
            r
          ≡ (r.lot.is_active
              && ((is_empty names || text_in r.lot.region names)
                  && (low_ok low r.lot.area_sqm
                      && (high_ok high r.lot.area_sqm
                          && (in_subscribed subscribed r.lot.region_id && true)))))
    by_fields [] none none = refl
    by_fields [] none (some n) = refl
    by_fields [] (some m) none = refl
    by_fields [] (some m) (some n) = refl
    by_fields (s ∷ ss) none none = refl
    by_fields (s ∷ ss) none (some n) = refl
    by_fields (s ∷ ss) (some m) none = refl
    by_fields (s ∷ ss) (some m) (some n) = refl

membership_value :
    (subs : List (ℕ × Instant)) (lot : LotPublicDto)
    → make_sse_membership_filter (list_subscribed_region_ids subs) (lot_new lot)
      ≡ in_subscribed (λ g. get_subscribed_at g subs) lot.region_id
unfolding make_sse_membership_filter in_subscribed
membership_value subs lot = by_region lot.region_id
  where
    by_region :
        (o : Option ℕ)
        → elim o [ none ↦ true | some region ↦ contains region (list_subscribed_region_ids subs) ]
          ≡ in_subscribed (λ g. get_subscribed_at g subs) o
    by_region none = refl
    by_region (some region) = contains-list_subscribed_region_ids region subs

when_active : (b c : Bool) → b ≡ true → (b && c) ≡ c
when_active true c e = refl
when_active false c e = cc e

regroup : (m s l h : Bool) → (m && (s && (l && h))) ≡ (s && (l && (h && (m && true))))
regroup m s l h = ground arith

-- A filter whose subjects are all in the catalog lets the event of a new lot through to the browser
-- exactly if the feed shows the lot with the same filter, for a lot that is active, has an area, and
-- has the region id of its region's title, which is how a lot is made of a row of the list page.
pub build_event_filter-build_where :
    (int_of : String → Option ℤ) (vf : ViewFilters) (subs : List (ℕ × Instant)) (r : LotRow)
    (lot : Lot) (area : ℕ)
    → row_to_lot r ≡ Lots.Result.ok lot
    → All (Known int_of) vf.subjects
    → r.lot.is_active ≡ true
    → r.lot.area_sqm ≡ some area
    → r.lot.region_id ≡ subject_id_by_title r.lot.region
    → build_event_filter int_of
        (some vf)
        (list_subscribed_region_ids subs)
        (lot_new (lot_to_public_dto lot))
      ≡ holds
          (build_where (λ g. get_subscribed_at g subs) (view_filters_to_lot_filters int_of vf))
          r
unfolding row_to_lot build_event_filter lot_to_public_dto
build_event_filter-build_where int_of vf subs r lot area read known active has_area has_region =
    let (reason, _, done) = >>=-eq-ok (read_reason r.lot.inactive_reason) _ read in
    let same : with_reason r.lot reason ≡ lot = cc done in
    let subscribed : ℕ → Option Instant = λ g. get_subscribed_at g subs in
    let shown = lot_to_public_dto (with_reason r.lot reason) in
    let inside = in_subscribed subscribed r.lot.region_id in
    let by_subject : not (region_mismatch (subject_ids int_of vf.subjects) r.lot.region_id) ≡ (
        is_empty (display_names int_of vf.subjects)
        || text_in r.lot.region (display_names int_of vf.subjects)) =
      ap (λ o. not (region_mismatch (subject_ids int_of vf.subjects) o)) has_region
      ∙ subject_condition int_of r.lot.region vf.subjects known in
    let by_low : not (below vf.area_min r.lot.area_sqm) ≡ low_ok vf.area_min r.lot.area_sqm =
      ap (λ a. not (below vf.area_min a)) has_area
      ∙ not-below vf.area_min area
      ∙ ap (low_ok vf.area_min) (sym has_area) in
    let by_high : not (above vf.area_max r.lot.area_sqm) ≡ high_ok vf.area_max r.lot.area_sqm =
      ap (λ a. not (above vf.area_max a)) has_area
      ∙ not-above vf.area_max area
      ∙ ap (high_ok vf.area_max) (sym has_area) in
    subst
      (λ l.
        build_event_filter int_of (some vf) (list_subscribed_region_ids subs)
          (lot_new (lot_to_public_dto l))
        ≡ holds (build_where subscribed (view_filters_to_lot_filters int_of vf)) r)
      same
      ((λ i. membership_value subs shown i && view_value int_of vf shown i)
        ∙ (λ i. inside && (by_subject i && (by_low i && by_high i)))
        ∙ regroup inside _ (low_ok vf.area_min r.lot.area_sqm) (high_ok vf.area_max r.lot.area_sqm)
        ∙ sym (feed_value subscribed int_of vf r ∙ when_active r.lot.is_active _ active))
