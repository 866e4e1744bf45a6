-- ===== src/Lots/Geo.antt =====
-- The R-tree against the coordinates of the rows, under `_sync_geo` and `upsert`.
use gektar_monitor.Prelude.{
  ℕ, ◌≡◌, ◌≢◌, ◌↔◌, refl, String, ap, sym, subst, ◌∙◌, Bool, true, Option, none, some, List, [],
  ◌∷◌, ◌==◌, if◌then◌else◌, arith, ==_iff, Bool-cases, inl, inr,
}
use gektar_monitor.Domain.{Instant, InactiveReason, Lot}
use gektar_monitor.Diff.{TrackedField, unknown, DiffResult, compute_changes}
use gektar_monitor.Lots.{
  LotRow, Database, Point, Error, integrity_error, validation_error, guard_tracked, lift_diff,
  parse_reason, Result, ok, raise, row_to_lot, columns, find_row, find_point, remove_point,
  flag_same, coordinate_eq, point_eq, point_of, insert_point, sync_geo, old_point, write_lot,
  UpsertResult, read_old, upsert, read_reason, ◌>>=◌, with_reason,
}
use gektar_monitor.Lots.Rows.{upsert-Upserted}
use gektar_monitor.Lots.Upsert.{
  find_inserted, find_updated, read_old-none, read_old-some, other_written,
}

find_point-remove_point :
    (n m : ℕ) (t : List (ℕ × Point))
    → find_point m (remove_point n t) ≡ (if n == m then none else find_point m t)
unfolding find_point remove_point
find_point-remove_point n m [] = ground arith
find_point-remove_point n m ((k, p) ∷ t) = ground (arith, find_point-remove_point n m t)

point_eq_iff : (p q : Point) → (point_eq p q ≡ true) ↔ (p ≡ q)
unfolding point_eq coordinate_eq flag_same
point_eq_iff p q = ground arith

-- When the tree holds the old point of an id, the five cases succeed, leave the tree with the new
-- point of that id, and leave every other id alone.
pub sync_geo_lem :
    (n : ℕ) (old new : Option Point) (t : List (ℕ × Point))
    → find_point n t ≡ old
    → (t' : List (ℕ × Point)) × (sync_geo n old new t ≡ ok t')
      × ((m : ℕ) → find_point m t' ≡ (if n == m then new else find_point m t))
unfolding sync_geo insert_point
sync_geo_lem n none none t e = (t, refl, λ m. ground arith)
sync_geo_lem n none (some new) t e =
    ((n, new) ∷ t, rw (e, insert_point), λ m. unfold find_point in ground arith)
sync_geo_lem n (some old) none t e =
    (remove_point n t, refl, λ m. ground (arith, find_point-remove_point n m t))
sync_geo_lem n (some old) (some new) t e = elim (Bool-cases (point_eq old new)) [
  | inl q ↦ (t, rw q, λ m. ground (arith, point_eq_iff old new))
  | inr q ↦ (
    (n, new) ∷ remove_point n t,
    rw q,
    λ m. unfold find_point in ground (arith, find_point-remove_point n m t),
  )
]

-- The point that the row of an id asks for.
abbrev pub row_point : Option LotRow → Option Point
row_point none = none
row_point (some r) = point_of r.lot.lat r.lot.lon

-- The R-tree agrees with the rows.
abbrev pub IsSynced : Database → Type 0
IsSynced db = (m : ℕ) → find_point m db.rtree ≡ row_point (find_row m db.lots)

old_point-row_point :
    (o : Option LotRow) (old : Option Lot) → read_old o ≡ ok old → old_point old ≡ row_point o
unfolding read_old row_to_lot
old_point-row_point none old e = ground arith
old_point-row_point (some r) old e = by_reason (read_reason r.lot.inactive_reason) e
  where
    by_reason :
        (x : Result (Option InactiveReason))
        → ((x >>= λ reason. ok (with_reason r.lot reason)) >>= λ l. ok (some l)) ≡ ok old
        → old_point old ≡ row_point (some r)
    by_reason (ok reason) p =
        ap (λ (x : Result (Option Lot)). elim x [ ok o ↦ old_point o | raise _ ↦ none ]) (sym p)
    by_reason (raise x) p = cc

written_point :
    (old : Option Lot) (lot : Lot) (is_backfill : Bool) (rows : List LotRow) (m : ℕ)
    → read_old (find_row lot.id rows) ≡ ok old
    → row_point (find_row m (write_lot old lot is_backfill rows))
      ≡ (if lot.id == m then point_of lot.lat lot.lon else row_point (find_row m rows))
unfolding columns
written_point none lot is_backfill rows m e = elim (Bool-cases (lot.id == m)) [
  | inl here ↦
      let same : lot.id ≡ m = (==_iff lot.id m).0 here in
      rw here (
        subst
          (λ k.
            row_point (find_row k (write_lot none lot is_backfill rows)) ≡ point_of lot.lat lot.lon)
          same
          (ap row_point
            (find_inserted lot is_backfill rows (read_old-none (find_row lot.id rows) e))))
  | inr there ↦
      rw there (ap row_point (other_written none lot is_backfill rows m (λ q. ground arith)))
]
written_point (some old) lot is_backfill rows m e =
    let (r, found) = read_old-some (find_row lot.id rows) old e in
    ground (arith, find_updated old lot is_backfill rows m, found, ==_iff lot.id m)

pub >>=-ne-raise :
    {A : Type 0} {B : Type 0} (x : Error) (m : Result A) (f : A → Result B)
    → m ≢ raise x
    → ((a : A) → m ≡ ok a → f a ≢ raise x)
    → (m >>= f) ≢ raise x
>>=-ne-raise x (ok a) f ne h = h a refl
>>=-ne-raise x (raise e) f ne h = λ p. ne (cc p)

guard_tracked-ne : (fs : List TrackedField) → guard_tracked fs ≢ raise integrity_error
unfolding guard_tracked
guard_tracked-ne [] = λ p. cc p
guard_tracked-ne (unknown s ∷ fs) = λ p. cc p
guard_tracked-ne (f ∷ fs) = guard_tracked-ne fs

lift_diff-ne : {A : Type 0} (r : DiffResult A) → lift_diff r ≢ raise integrity_error
unfolding lift_diff
lift_diff-ne (DiffResult.ok a) = λ p. cc p
lift_diff-ne (DiffResult.raise e) = λ p. cc p

read_old-ne : (o : Option LotRow) → read_old o ≢ raise integrity_error
unfolding read_old row_to_lot read_reason
read_old-ne none = λ p. cc p
read_old-ne (some r) = by_reason r.lot.inactive_reason
  where
    by_parse :
        (x : Option InactiveReason)
        → (((elim x [ none ↦ raise validation_error | some q ↦ ok (some q) ]) >>= λ reason.
              ok (with_reason r.lot reason))
            >>= λ l. ok (some l))
          ≢ raise integrity_error
    by_parse none = λ p. cc p
    by_parse (some q) = λ p. cc p

    by_reason :
        (o : Option String)
        → ((read_reason o >>= λ reason. ok (with_reason r.lot reason)) >>= λ l. ok (some l))
          ≢ raise integrity_error
    by_reason none = λ p. cc p
    by_reason (some s) = by_parse (parse_reason s)

pub point_was :
    (lot : Lot) (db : Database) (old : Option Lot)
    → IsSynced db
    → read_old (find_row lot.id db.lots) ≡ ok old
    → find_point lot.id db.rtree ≡ old_point old
point_was lot db old h read =
    h lot.id ∙ sym (old_point-row_point (find_row lot.id db.lots) old read)

sync_geo-ne :
    (lot : Lot) (db : Database) (old : Option Lot)
    → IsSynced db
    → read_old (find_row lot.id db.lots) ≡ ok old
    → sync_geo lot.id (old_point old) (point_of lot.lat lot.lon) db.rtree ≢ raise integrity_error
sync_geo-ne lot db old h read p =
    let new = point_of lot.lat lot.lon in
    cc (p, (sync_geo_lem lot.id (old_point old) new db.rtree (point_was lot db old h read)).1)

-- From a database in which the R-tree agrees with the rows, `upsert` never fails on the key of the
-- R-tree.
upsert-ne-integrity_error :
    (lot : Lot) (tracked : List TrackedField) (is_backfill : Bool) (now : Instant) (db : Database)
    → IsSynced db
    → upsert lot tracked is_backfill now db ≢ raise integrity_error
unfolding upsert
upsert-ne-integrity_error lot tracked is_backfill now db h =
    >>=-ne-raise integrity_error (guard_tracked tracked) _ (guard_tracked-ne tracked) (λ _ _.
      >>=-ne-raise integrity_error (read_old (find_row lot.id db.lots)) _
        (read_old-ne (find_row lot.id db.lots))
        (λ old read.
          >>=-ne-raise integrity_error (lift_diff (compute_changes old lot tracked)) _
            (lift_diff-ne (compute_changes old lot tracked))
            (λ changes _.
              >>=-ne-raise integrity_error
                (sync_geo lot.id (old_point old) (point_of lot.lat lot.lon) db.rtree) _
                (sync_geo-ne lot db old h read) (λ rtree _ p. cc p))))

-- When the R-tree agrees with the rows before a successful `upsert`, it agrees with them after it:
-- it has a point for exactly the lots that have both coordinates.
pub upsert-IsSynced :
    (lot : Lot) (tracked : List TrackedField) (is_backfill : Bool) (now : Instant) (db : Database)
    (result : UpsertResult) (db' : Database)
    → IsSynced db
    → upsert lot tracked is_backfill now db ≡ ok (result, db')
    → IsSynced db'
upsert-IsSynced lot tracked is_backfill now db result db' h e m =
    let u = upsert-Upserted lot tracked is_backfill now db e in
    let new = point_of lot.lat lot.lon in
    let (t, computed, points) =
      sync_geo_lem lot.id (old_point u.old) new db.rtree (point_was lot db u.old h u.read) in
    let same : u.rtree ≡ t = cc (u.synced, computed) in
    rw u.after (
      ap (find_point m) same
      ∙ points m
      ∙ ap (λ (p : Option Point). if lot.id == m then new else p) (h m)
      ∙ sym (written_point u.old lot is_backfill db.lots m u.read))
