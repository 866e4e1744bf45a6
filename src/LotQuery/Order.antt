-- ===== src/LotQuery/Order.antt =====
-- The rows in the order of a query: newest first, and by falling id within a day.
use gektar_monitor.Prelude.{
  ◌+◌, ◌≡◌, ◌≢◌, refl, ap, sym, ◌∙◌, Bool, true, false, List, [], ◌∷◌, length, select, All,
  if◌then◌else◌, arith, Bool-cases, inl, inr,
}
use gektar_monitor.Lots.{LotRow}
use gektar_monitor.LotQuery.{Key, key_of, before, insert_row, ordered}

abbrev pub Strict : List LotRow → Type 0
Strict [] = Unit
Strict (r ∷ rs) = All (λ q. before (key_of r) (key_of q) ≡ true) rs × Strict rs

-- No two rows have the same id.
abbrev pub DistinctIds : List LotRow → Type 0
DistinctIds [] = Unit
DistinctIds (r ∷ rs) = All (λ q. q.lot.id ≢ r.lot.id) rs × DistinctIds rs

pub before_trans : (a b c : Key) → before a b ≡ true → before b c ≡ true → before a c ≡ true
before_trans a b c h k = ground arith

pub before_asym : (a b : Key) → before a b ≡ true → before b a ≡ false
before_asym a b h = ground arith

pub before_irrefl : (a : Key) → before a a ≡ false
before_irrefl a = ground arith

before_total : (a b : Key) → b.1 ≢ a.1 → before a b ≡ false → before b a ≡ true
before_total a b ne h = ground arith

pub All-map :
    (P Q : LotRow → Type 0) (rs : List LotRow) → ((r : LotRow) → P r → Q r) → All P rs → All Q rs
All-map P Q [] f h = tt
All-map P Q (r ∷ rs) f h = (f r h.0, All-map P Q rs f h.1)

All-insert_row :
    (P : LotRow → Type 0) (r : LotRow) (rs : List LotRow) → P r → All P rs → All P (insert_row r rs)
unfolding insert_row
All-insert_row P r [] p h = (p, tt)
All-insert_row P r (q ∷ qs) p h = elim (Bool-cases (before (key_of q) (key_of r))) [
  | inl e ↦ rw e (h.0, All-insert_row P r qs p h.1)
  | inr e ↦ rw e (p, h)
]

All-ordered : (P : LotRow → Type 0) (rs : List LotRow) → All P rs → All P (ordered rs)
unfolding ordered
All-ordered P [] h = tt
All-ordered P (r ∷ rs) h = All-insert_row P r (ordered rs) h.0 (All-ordered P rs h.1)

insert_row-Strict :
    (r : LotRow) (rs : List LotRow)
    → All (λ q. q.lot.id ≢ r.lot.id) rs
    → Strict rs
    → Strict (insert_row r rs)
unfolding insert_row
insert_row-Strict r [] ne h = (tt, tt)
insert_row-Strict r (q ∷ qs) ne h = elim (Bool-cases (before (key_of q) (key_of r))) [
  | inl e ↦ rw e (All-insert_row _ r qs e h.0, insert_row-Strict r qs ne.1 h.1)
  | inr e ↦
      let first : before (key_of r) (key_of q) ≡ true =
        before_total (key_of q) (key_of r) (λ same. ne.0 (sym same)) e in
      rw e
        ((first, All-map _ _ qs (λ x. before_trans (key_of r) (key_of q) (key_of x) first) h.0), h)
]

pub ordered-Strict : (rs : List LotRow) → DistinctIds rs → Strict (ordered rs)
unfolding ordered
ordered-Strict [] h = tt
ordered-Strict (r ∷ rs) h =
    insert_row-Strict r (ordered rs) (All-ordered _ rs h.0) (ordered-Strict rs h.1)

pub All-select :
    (P : LotRow → Type 0) (p : LotRow → Bool) (rs : List LotRow) → All P rs → All P (select p rs)
All-select P p [] h = tt
All-select P p (r ∷ rs) h = elim (Bool-cases (p r)) [
  | inl e ↦ rw e (h.0, All-select P p rs h.1)
  | inr e ↦ rw e (All-select P p rs h.1)
]

pub select-Strict : (p : LotRow → Bool) (rs : List LotRow) → Strict rs → Strict (select p rs)
select-Strict p [] h = tt
select-Strict p (r ∷ rs) h = elim (Bool-cases (p r)) [
  | inl e ↦ rw e (All-select _ p rs h.0, select-Strict p rs h.1)
  | inr e ↦ rw e (select-Strict p rs h.1)
]

select-DistinctIds :
    (p : LotRow → Bool) (rs : List LotRow) → DistinctIds rs → DistinctIds (select p rs)
select-DistinctIds p [] h = tt
select-DistinctIds p (r ∷ rs) h = elim (Bool-cases (p r)) [
  | inl e ↦ rw e (All-select _ p rs h.0, select-DistinctIds p rs h.1)
  | inr e ↦ rw e (select-DistinctIds p rs h.1)
]

-- A row in front of all others is inserted first.
insert_row-first :
    (r : LotRow) (rs : List LotRow)
    → All (λ q. before (key_of r) (key_of q) ≡ true) rs
    → insert_row r rs ≡ r ∷ rs
unfolding insert_row
insert_row-first r [] h = refl
insert_row-first r (q ∷ qs) h = rw (before_asym (key_of r) (key_of q) h.0) refl

select-insert_row :
    (p : LotRow → Bool) (r : LotRow) (rs : List LotRow)
    → Strict rs
    → All (λ q. q.lot.id ≢ r.lot.id) rs
    → select p (insert_row r rs) ≡ (if p r then insert_row r (select p rs) else select p rs)
unfolding insert_row
select-insert_row p r [] h ne = refl
select-insert_row p r (q ∷ qs) h ne = elim (Bool-cases (before (key_of q) (key_of r))) [
  | inl e ↦ elim (Bool-cases (p q)) [
    | inl pq ↦ elim (Bool-cases (p r)) [
      | inl pr ↦
          rw (e, pq, pr) (rw e (ap (λ l. q ∷ l) (select-insert_row p r qs h.1 ne.1 ∙ rw pr refl)))
      | inr pr ↦ rw (e, pq, pr) (ap (λ l. q ∷ l) (select-insert_row p r qs h.1 ne.1 ∙ rw pr refl))
    ]
    | inr pq ↦ rw (e, pq) (select-insert_row p r qs h.1 ne.1)
  ]
  | inr e ↦
      let first : before (key_of r) (key_of q) ≡ true =
        before_total (key_of q) (key_of r) (λ same. ne.0 (sym same)) e in
      let all : All (λ x. before (key_of r) (key_of x) ≡ true) (q ∷ qs) =
        (first, All-map _ _ qs (λ x. before_trans (key_of r) (key_of q) (key_of x) first) h.0) in
      rw e (
        ap (λ l. if p r then l else select p (q ∷ qs))
          (sym (insert_row-first r (select p (q ∷ qs)) (All-select _ p (q ∷ qs) all))))
]

-- A selection may be made before or after the rows are put in order.
pub select-ordered :
    (p : LotRow → Bool) (rs : List LotRow)
    → DistinctIds rs
    → ordered (select p rs) ≡ select p (ordered rs)
unfolding ordered
select-ordered p [] h = refl
select-ordered p (r ∷ rs) h =
    let whole = select-insert_row p r (ordered rs) (ordered-Strict rs h.1) (All-ordered _ rs h.0) in
    let rest = select-ordered p rs h.1 in
    elim (Bool-cases (p r)) [
      | inl e ↦ rw (e, rest) (sym (whole ∙ rw e refl))
      | inr e ↦ rw (e, rest) (sym (whole ∙ rw e refl))
    ]

insert_row-length : (r : LotRow) (rs : List LotRow) → length (insert_row r rs) ≡ length rs + 1
unfolding insert_row
insert_row-length r [] = omega arith
insert_row-length r (q ∷ qs) = ground (arith, insert_row-length r qs)

pub ordered-length : (rs : List LotRow) → length (ordered rs) ≡ length rs
unfolding ordered
ordered-length [] = refl
ordered-length (r ∷ rs) = omega (arith, insert_row-length r (ordered rs), ordered-length rs)
