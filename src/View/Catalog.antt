-- ===== src/View/Catalog.antt =====
-- The catalog of subjects is one to one: a title and an id name one another.
use gektar_monitor.Prelude.{
  ℕ, ◌≡◌, refl, ap, subst, ◌∙◌, String, Bool, true, false, ◌&&◌, Option, none, some, List, [], ◌∷◌,
  ◌==◌, All, str_eq, eq_iff, arith, ==_iff, ==_refl, Bool-cases, Option-cases, inl, inr,
}
use gektar_monitor.Domain.Regions.{subject_title_by_id, id_of_title, subject_id_by_title}
use gektar_monitor.View.{title_of}

title_of-All :
    (P : ℕ × String → Type 0) (n : ℕ) (name : String) (entries : List (ℕ × String))
    → All P entries
    → title_of n entries ≡ some name
    → P (n, name)
unfolding title_of
title_of-All P n name [] h e = absurd (ground (arith, e))
title_of-All P n name ((sid, title) ∷ rest) h e = elim (Bool-cases (sid == n)) [
  | inl q ↦
      let same_id : sid ≡ n = (==_iff sid n).0 q in
      let same_name : title ≡ name = cc (rw q at e) in subst P (λ i. (same_id i, same_name i)) h.0
  | inr q ↦ title_of-All P n name rest h.1 (rw q at e)
]

id_of_title-All :
    (P : ℕ × String → Type 0) (n : ℕ) (name : String) (entries : List (ℕ × String))
    → All P entries
    → id_of_title name entries ≡ some n
    → P (n, name)
unfolding id_of_title
id_of_title-All P n name [] h e = absurd (ground (arith, e))
id_of_title-All P n name ((sid, title) ∷ rest) h e = elim (Option-cases (id_of_title name rest)) [
  | inr (m, q) ↦
      let same : m ≡ n = cc (rw (id_of_title, q) at e) in
      id_of_title-All P n name rest h.1 (q ∙ ap some same)
  | inl q ↦ elim (Bool-cases (str_eq title name)) [
    | inl t ↦
        let same_id : sid ≡ n = cc (rw (id_of_title, q, t) at e) in
        let same_name : title ≡ name = (eq_iff title name).0 t in
        subst P (λ i. (same_id i, same_name i)) h.0
    | inr t ↦ absurd (ground (arith, rw (id_of_title, q, t) at e))
  ]
]

abbrev Entry : ℕ × String → Type 0
Entry p = (subject_id_by_title p.1 ≡ some p.0) × (title_of p.0 subject_title_by_id ≡ some p.1)

is_id : Option ℕ → ℕ → Bool
is_id none n = false
is_id (some m) n = m == n

is_title : Option String → String → Bool
is_title none s = false
is_title (some t) s = str_eq t s

-- Every entry of the catalog is checked by evaluation.
checked : List (ℕ × String) → Bool
checked [] = true
checked (p ∷ ps) =
    is_id (subject_id_by_title p.1) p.0
    && is_title (title_of p.0 subject_title_by_id) p.1
    && checked ps

is_id-some : (o : Option ℕ) (n : ℕ) → is_id o n ≡ true → o ≡ some n
unfolding is_id
is_id-some none n e = cc e
is_id-some (some m) n e = ap some ((==_iff m n).0 e)

is_title-some : (o : Option String) (s : String) → is_title o s ≡ true → o ≡ some s
unfolding is_title
is_title-some none s e = cc e
is_title-some (some t) s e = ap some ((eq_iff t s).0 e)

and-parts : (a b c : Bool) → (a && b && c) ≡ true → (a ≡ true) × (b ≡ true) × (c ≡ true)
and-parts a b c e = ground (arith, e)

checked-All : (ps : List (ℕ × String)) → checked ps ≡ true → All Entry ps
unfolding checked
checked-All [] e = tt
checked-All (p ∷ ps) e =
    let (by_title, by_id, rest) = and-parts _ _ (checked ps) e in
    ((is_id-some _ p.0 by_title, is_title-some _ p.1 by_id), checked-All ps rest)

entries : All Entry subject_title_by_id
unfolding checked is_id is_title subject_id_by_title id_of_title title_of
entries = checked-All subject_title_by_id refl

-- The id of a title that the catalog has.
pub subject_id_by_title-title_of :
    (n : ℕ) (name : String)
    → title_of n subject_title_by_id ≡ some name
    → subject_id_by_title name ≡ some n
subject_id_by_title-title_of n name e = (title_of-All Entry n name subject_title_by_id entries e).0

pub title_of-subject_id_by_title :
    (n : ℕ) (name : String)
    → subject_id_by_title name ≡ some n
    → title_of n subject_title_by_id ≡ some name
unfolding subject_id_by_title
title_of-subject_id_by_title n name e = elim (Bool-cases (str_eq name "")) [
  | inl q ↦ absurd (ground (arith, rw q at e))
  | inr q ↦ (id_of_title-All Entry n name subject_title_by_id entries (rw q at e)).1
]

-- A region is a subject by its title exactly if it is by its id.
pub same_subject :
    (g n : ℕ) (region name : String)
    → subject_id_by_title region ≡ some g
    → title_of n subject_title_by_id ≡ some name
    → (g == n) ≡ str_eq region name
same_subject g n region name at_region at_n = elim (Bool-cases (str_eq region name)) [
  | inl e ↦
      let same : region ≡ name = (eq_iff region name).0 e in
      let other : subject_id_by_title region ≡ some n =
        ap subject_id_by_title same ∙ subject_id_by_title-title_of n name at_n in
      let ids : g ≡ n = cc (at_region, other) in rw (e, ids) (==_refl n)
  | inr e ↦ elim (Bool-cases (g == n)) [
    | inr q ↦ rw (e, q) refl
    | inl q ↦
        let ids : g ≡ n = (==_iff g n).0 q in
        let at_g : title_of n subject_title_by_id ≡ some region =
          subst (λ k. title_of k subject_title_by_id ≡ some region) ids
            (title_of-subject_id_by_title g region at_region) in
        let same : region ≡ name = cc (at_g, at_n) in cc ((eq_iff region name).1 same)
  ]
]

pub no_subject :
    (n : ℕ) (region name : String)
    → subject_id_by_title region ≡ none
    → title_of n subject_title_by_id ≡ some name
    → str_eq region name ≡ false
no_subject n region name missing at_n = elim (Bool-cases (str_eq region name)) [
  | inr e ↦ e
  | inl e ↦
      let same : region ≡ name = (eq_iff region name).0 e in
      cc (missing, ap subject_id_by_title same ∙ subject_id_by_title-title_of n name at_n)
]
