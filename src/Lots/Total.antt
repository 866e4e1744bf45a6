-- ===== src/Lots/Total.antt =====
-- When `upsert` cannot fail, and when it cannot but fail.
use gektar_monitor.Prelude.{
  ℕ, ◌≡◌, ◌≢◌, refl, ap, sym, ◌∙◌, Bool, true, false, not, ◌||◌, Option, none, some, List, ◌==◌,
  arith, ==_iff, Bool-cases, inl, inr,
}
use gektar_monitor.Domain.{Instant, Lot}
use gektar_monitor.Diff.{
  FieldChange, check_tracked, refusal, compute_changes, default_tracked_fields,
}
use gektar_monitor.Lots.{
  LotRow, Database, Error, Result, ok, raise, find_row, point_of, old_point, sync_geo, UpsertResult,
  is_new, read_old, get, upsert, guard_tracked, lift_diff,
}
use gektar_monitor.Lots.Rows.{upsert-Upserted, Result-cases}
use gektar_monitor.Lots.Upsert.{upsert-get, upsert-other, read_old-some, read_old-none}
use gektar_monitor.Lots.Geo.{IsSynced, >>=-ne-raise, sync_geo_lem, point_was, upsert-IsSynced}

-- Every lot can be read, and the R-tree agrees with the rows.
pub record Sound (db : Database) : Type 0 where
  pub synced : IsSynced db
  pub readable : (m : ℕ) → (o : Option Lot) × (get m db ≡ ok o)

abbrev pub is_some {ℓ} : {A : Type ℓ} → Option A → Bool
is_some none = false
is_some (some a) = true

abbrev pub has_row : Database → ℕ → Bool
has_row db m = is_some (find_row m db.lots)

abbrev value_of : Result (Option Lot) → Option Lot
value_of (raise e) = none
value_of (ok o) = o

abbrev pub Succeeds : Lot → Instant → Database → Type 0
Succeeds lot now db =
    (result : UpsertResult) × (db' : Database) × (upsert lot default_tracked_fields false now db
      ≡ ok (result, db'))

changes_ok :
    (o : Option Lot) (lot : Lot)
    → (cs : List FieldChange) × (lift_diff (compute_changes o lot default_tracked_fields) ≡ ok cs)
unfolding lift_diff compute_changes check_tracked refusal
changes_ok o lot = (_, refl)

guard_ok : guard_tracked default_tracked_fields ≡ ok tt
unfolding guard_tracked
guard_ok = refl

never_raises :
    (lot : Lot) (now : Instant) (db : Database) (x : Error)
    → Sound db
    → upsert lot default_tracked_fields false now db ≢ raise x
unfolding upsert get
never_raises lot now db x h =
    let (o, read) = h.readable lot.id in
    let new = point_of lot.lat lot.lon in
    >>=-ne-raise x (guard_tracked default_tracked_fields) _ (λ p. cc (p, guard_ok))
      (λ _ _.
        >>=-ne-raise x (read_old (find_row lot.id db.lots)) _ (λ p. cc (p, read))
          (λ old was.
            >>=-ne-raise x (lift_diff (compute_changes old lot default_tracked_fields)) _
              (λ p. cc (p, (changes_ok old lot).1))
              (λ changes _.
                >>=-ne-raise x (sync_geo lot.id (old_point old) new db.rtree) _
                  (λ p. cc (
                    p,
                    (sync_geo_lem lot.id (old_point old) new db.rtree
                        (point_was lot db old h.synced was)).1,
                  ))
                  (λ rtree _ p. cc p))))

pub upsert-Succeeds : (lot : Lot) (now : Instant) (db : Database) → Sound db → Succeeds lot now db
upsert-Succeeds lot now db h =
    elim (Result-cases (upsert lot default_tracked_fields false now db)) [
      | inl (x, e) ↦ absurd (never_raises lot now db x h e)
      | inr (answer, e) ↦ (answer.0, answer.1, e)
    ]

-- The invariant under which `upsert` cannot fail is kept: if each row of the tables can be read back
-- and the R-tree agrees with the rows, then both still hold behind a live `upsert` that succeeds, one
-- with the default tracked fields that is not of a backfill.
pub upsert-Sound :
    (lot : Lot) (now : Instant) (db : Database) (result : UpsertResult) (db' : Database)
    → Sound db
    → upsert lot default_tracked_fields false now db ≡ ok (result, db')
    → Sound db'
unfolding get
upsert-Sound lot now db result db' h e = record {
  synced = upsert-IsSynced lot default_tracked_fields false now db result db' h.synced e;
  readable = λ m. elim (Bool-cases (m == lot.id)) [
    | inl q ↦
        let (old, was) = h.readable lot.id in
        let now_there = upsert-get lot default_tracked_fields false now db old result db' was e in
        (_, ap (λ k. get k db') ((==_iff m lot.id).0 q) ∙ now_there)
    | inr q ↦
        let (o, was) = h.readable m in
        let same =
          upsert-other lot default_tracked_fields false now db result db' m e
            (λ p. ground (arith, ==_iff m lot.id)) in
        (o, ap read_old same ∙ was)
  ];
}

is_new_lem :
    (o : Option LotRow) (old : Option Lot) → read_old o ≡ ok old → is_new old ≡ not (is_some o)
is_new_lem none old e =
    unfold read_old in ap (λ (x : Result (Option Lot)). is_new (value_of x)) (sym e)
is_new_lem (some r) none e = cc (read_old-none (some r) e)
is_new_lem (some r) (some l) e = refl

read_old-is_some : (o : Option LotRow) (l : Lot) → read_old o ≡ ok (some l) → is_some o ≡ true
read_old-is_some o l e = let (r, q) = read_old-some o l e in ap is_some q

pub was_new-has_row :
    (lot : Lot) (now : Instant) (db : Database) (result : UpsertResult) (db' : Database)
    → upsert lot default_tracked_fields false now db ≡ ok (result, db')
    → result.was_new ≡ not (has_row db lot.id)
was_new-has_row lot now db result db' e =
    let u = upsert-Upserted lot default_tracked_fields false now db e in
    ap (λ (r : UpsertResult). r.was_new) u.answer
    ∙ is_new_lem (find_row lot.id db.lots) u.old u.read

pub upsert-has_row :
    (lot : Lot) (now : Instant) (db : Database) (result : UpsertResult) (db' : Database) (m : ℕ)
    → upsert lot default_tracked_fields false now db ≡ ok (result, db')
    → has_row db' m ≡ (m == lot.id || has_row db m)
unfolding get
upsert-has_row lot now db result db' m e = elim (Bool-cases (m == lot.id)) [
  | inl q ↦
      let u = upsert-Upserted lot default_tracked_fields false now db e in
      let there = upsert-get lot default_tracked_fields false now db u.old result db' u.read e in
      rw q (
        ap (has_row db') ((==_iff m lot.id).0 q)
        ∙ read_old-is_some (find_row lot.id db'.lots) _ there)
  | inr q ↦ rw q (
      ap is_some (
        upsert-other lot default_tracked_fields false now db result db' m e
          (λ p. ground (arith, ==_iff m lot.id))))
]

-- A lot that cannot be read cannot be written, and stays so whatever other lot is written.
pub unreadable-raises :
    (lot : Lot) (now : Instant) (db : Database) (x : Error)
    → get lot.id db ≡ raise x
    → upsert lot default_tracked_fields false now db ≡ raise x
unfolding upsert get guard_tracked
unreadable-raises lot now db x e = rw (upsert, e) refl

pub unreadable-stays :
    (lot : Lot) (now : Instant) (db : Database) (result : UpsertResult) (db' : Database) (m : ℕ)
    (x : Error)
    → get m db ≡ raise x
    → upsert lot default_tracked_fields false now db ≡ ok (result, db')
    → get m db' ≡ raise x
unfolding get
unreadable-stays lot now db result db' m x bad e = elim (Bool-cases (m == lot.id)) [
  | inl q ↦
      let here = ap (λ k. get k db) (sym ((==_iff m lot.id).0 q)) ∙ bad in
      absurd (cc (e, unreadable-raises lot now db x here))
  | inr q ↦
      ap read_old (
        upsert-other lot default_tracked_fields false now db result db' m e
          (λ p. ground (arith, ==_iff m lot.id)))
      ∙ bad
]
