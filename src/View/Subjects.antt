-- ===== src/View/Subjects.antt =====
-- The subjects of a view filter, by their ids and by their titles.
use gektar_monitor.Prelude.{
  ℕ, ◌≡◌, refl, ap, sym, ◌∙◌, String, Bool, true, false, not, ◌||◌, Option, none, some, List, [],
  ◌∷◌, All, str_eq, Option-cases, inl, inr,
}
use gektar_monitor.Prelude.Int.{ℤ, pos}
use gektar_monitor.Domain.Regions.{subject_title_by_id, subject_id_by_title}
use gektar_monitor.LotQuery.{text_in}
use gektar_monitor.Prelude.{is_empty}
use gektar_monitor.View.{int_in, subject_ids, region_mismatch, title_of, display_names}
use gektar_monitor.View.Catalog.{same_subject, no_subject}

-- A subject of the filter is the id of a subject in the catalog.
pub record Known (int_of : String → Option ℤ) (s : String) : Type 0 where
  pub n : ℕ
  pub name : String
  pub number : int_of s ≡ some (pos n)
  pub title : title_of n subject_title_by_id ≡ some name

not-not : (b : Bool) → not (not b) ≡ b
not-not true = refl
not-not false = refl

mismatch-none : (ids : List ℤ) → is_empty ids ≡ false → region_mismatch ids none ≡ true
mismatch-none [] e = cc e
mismatch-none (i ∷ ids) e = refl

mismatch-some :
    (g : ℕ) (ids : List ℤ)
    → is_empty ids ≡ false
    → region_mismatch ids (some g) ≡ not (int_in g ids)
mismatch-some g [] e = cc e
mismatch-some g (i ∷ ids) e = refl

module _ (int_of : String → Option ℤ) where
  subjects_agree :
      (region : String) (g : ℕ) (ss : List String)
      → All (Known int_of) ss
      → subject_id_by_title region ≡ some g
      → int_in g (subject_ids int_of ss) ≡ text_in region (display_names int_of ss)
  unfolding subject_ids display_names
  subjects_agree region g [] h at_region = refl
  subjects_agree region g (s ∷ ss) (k, ks) at_region =
      rw (subject_ids, display_names, k.number, k.title)
        (ap (λ b. b || int_in g (subject_ids int_of ss))
            (same_subject g k.n region k.name at_region k.title)
          ∙ ap (λ b. str_eq region k.name || b) (subjects_agree region g ss ks at_region))

  no_subjects :
      (region : String) (ss : List String)
      → All (Known int_of) ss
      → subject_id_by_title region ≡ none
      → text_in region (display_names int_of ss) ≡ false
  unfolding display_names
  no_subjects region [] h missing = refl
  no_subjects region (s ∷ ss) (k, ks) missing =
      rw (display_names, k.number, k.title, no_subject k.n region k.name missing k.title)
        (no_subjects region ss ks missing)

  Known-is_empty :
      (ss : List String)
      → All (Known int_of) ss
      → (is_empty (subject_ids int_of ss) ≡ is_empty ss)
        × (is_empty (display_names int_of ss) ≡ is_empty ss)
  unfolding subject_ids display_names
  Known-is_empty [] h = (refl, refl)
  Known-is_empty (s ∷ ss) (k, ks) =
      (rw (subject_ids, k.number) refl, rw (display_names, k.number, k.title) refl)

  pub subject_condition :
      (region : String) (ss : List String)
      → All (Known int_of) ss
      → not (region_mismatch (subject_ids int_of ss) (subject_id_by_title region))
        ≡ (is_empty (display_names int_of ss) || text_in region (display_names int_of ss))
  subject_condition region [] h = unfold subject_ids display_names in refl
  subject_condition region (s ∷ ss) h =
      let sizes = Known-is_empty (s ∷ ss) h in
      elim (Option-cases (subject_id_by_title region)) [
        | inl missing ↦
            rw (missing, mismatch-none (subject_ids int_of (s ∷ ss)) sizes.0, sizes.1)
              (sym (no_subjects region (s ∷ ss) h missing))
        | inr (g, found) ↦
            rw (found, mismatch-some g (subject_ids int_of (s ∷ ss)) sizes.0, sizes.1)
              (not-not _ ∙ subjects_agree region g (s ∷ ss) h found)
      ]
