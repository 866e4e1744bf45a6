-- ===== src/Lots/Rows.antt =====
-- Laws of the rows of `lots`, and what a successful `upsert` went through.
use gektar_monitor.Prelude.{
  ℕ, ◌≡◌, refl, Bool, Option, none, some, List, [], ◌∷◌, ◌++◌, ◌==◌, if◌then◌else◌, arith, ==_iff,
  Bool-cases, ◌⊎◌, inl, inr,
}
use gektar_monitor.Domain.{Instant, InactiveReason, status_changed, hard_removed, list_absent, Lot}
use gektar_monitor.Diff.{TrackedField, FieldChange, compute_changes}
use gektar_monitor.Lots.{
  LotRow, Database, Point, Error, Result, ok, raise, ◌>>=◌, reason_text, parse_reason, read_reason,
  row_to_lot, stored_reason, columns, find_row, update_row, write_lot, history_rows, old_point,
  point_of, is_new, sync_geo, UpsertResult, guard_tracked, lift_diff, read_old, upsert,
}

pub find_row-update_row :
    (n m : ℕ) (f : LotRow → LotRow) (rows : List LotRow)
    → ((r : LotRow) → r.lot.id ≡ n → (f r).lot.id ≡ n)
    → find_row m (update_row n f rows)
      ≡ elim (find_row m rows) [ none ↦ none | some r ↦ some (if n == m then f r else r) ]
unfolding find_row update_row
find_row-update_row n m f [] h = refl
find_row-update_row n m f (r ∷ rs) h = elim (Bool-cases (r.lot.id == n)) [
  | inl e ↦ ground (arith, h r ((==_iff r.lot.id n).0 e), find_row-update_row n m f rs h)
  | inr e ↦ ground (arith, find_row-update_row n m f rs h)
]

pub find_row-append :
    (m : ℕ) (rows : List LotRow) (r : LotRow)
    → find_row m (rows ++ r ∷ [])
      ≡ elim (find_row m rows) [ none ↦ if r.lot.id == m then some r else none | some q ↦ some q ]
unfolding find_row
find_row-append m [] r = refl
find_row-append m (q ∷ qs) r = ground (arith, find_row-append m qs r)

-- A row that is found has the id that was asked for.
pub id-find_row :
    (m : ℕ) (rows : List LotRow) (r : LotRow) → find_row m rows ≡ some r → r.lot.id ≡ m
unfolding find_row
id-find_row m [] r e = cc
id-find_row m (q ∷ qs) r e = ground (arith, id-find_row m qs r)

pub parse_reason-reason_text : (r : InactiveReason) → parse_reason (reason_text r) ≡ some r
unfolding parse_reason
parse_reason-reason_text status_changed = refl
parse_reason-reason_text hard_removed = refl
parse_reason-reason_text list_absent = refl

read_reason-stored_reason : (o : Option InactiveReason) → read_reason (stored_reason o) ≡ ok o
unfolding read_reason
read_reason-stored_reason none = refl
read_reason-stored_reason (some r) = rw (parse_reason-reason_text r, read_reason)

-- The columns of a lot are read back as the lot.
pub row_to_lot-columns :
    (lot : Lot) (r : LotRow) (first : Instant)
    → row_to_lot (record r { lot = record (columns lot) { first_seen = first } })
      ≡ ok (record lot { first_seen = first })
unfolding row_to_lot columns
row_to_lot-columns lot r first = rw (read_reason-stored_reason lot.inactive_reason)

-- A chain of two steps that returns: what the first returned, and the run of the second.
pub >>=-eq-ok :
    {B C : Type 0} (step : Result B) (rest : B → Result C) {end : C}
    → (step >>= rest) ≡ ok end
    → (mid : B) × (step ≡ ok mid) × (rest mid ≡ ok end)
>>=-eq-ok (raise problem) rest done = cc
>>=-eq-ok (ok mid) rest done = (mid, refl, done)

-- What a successful `upsert` computed on its way.
pub record Upserted (lot : Lot) (tracked : List TrackedField) (is_backfill : Bool) (now : Instant)
    (db : Database) (result : UpsertResult) (db' : Database) : Type 0 where
  pub old : Option Lot
  pub changes : List FieldChange
  pub rtree : List (ℕ × Point)
  pub read : read_old (find_row lot.id db.lots) ≡ ok old
  pub diff : lift_diff (compute_changes old lot tracked) ≡ ok changes
  pub synced : sync_geo lot.id (old_point old) (point_of lot.lat lot.lon) db.rtree ≡ ok rtree
  pub answer : result ≡ record { was_new = is_new old; changes = changes }
  pub after : db' ≡ record db {
    lots = write_lot old lot is_backfill db.lots;
    history = db.history ++ history_rows lot.id now changes;
    rtree = rtree;
  }

pub upsert-Upserted :
    (lot : Lot) (tracked : List TrackedField) (is_backfill : Bool) (now : Instant) (db : Database)
    {result : UpsertResult} {db' : Database}
    → upsert lot tracked is_backfill now db ≡ ok (result, db')
    → Upserted lot tracked is_backfill now db result db'
unfolding upsert
upsert-Upserted lot tracked is_backfill now db e =
    let (u, _, e0) = >>=-eq-ok (guard_tracked tracked) _ e in
    let (old, read, e1) = >>=-eq-ok (read_old (find_row lot.id db.lots)) _ e0 in
    let (changes, diff, e2) = >>=-eq-ok (lift_diff (compute_changes old lot tracked)) _ e1 in
    let (rtree, synced, e3) =
      >>=-eq-ok (sync_geo lot.id (old_point old) (point_of lot.lat lot.lon) db.rtree) _ e2 in
    record {
      old = old;
      changes = changes;
      rtree = rtree;
      read = read;
      diff = diff;
      synced = synced;
      answer = cc e3;
      after = cc e3;
    }

pub Result-cases :
    {A : Type 0} (x : Result A) → ((e : Error) × (x ≡ raise e)) ⊎ ((a : A) × (x ≡ ok a))
Result-cases (raise e) = inl (e, refl)
Result-cases (ok a) = inr (a, refl)
