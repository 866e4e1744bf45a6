-- ===== src/Lots/Upsert.antt =====
-- What can be read after an `upsert`.
use gektar_monitor.Prelude.{
  ℕ, ◌≡◌, ◌≢◌, refl, ap, subst, ◌∙◌, sym, Bool, true, false, Option, none, some, List, [], ◌++◌,
  ◌==◌, if◌then◌else◌, arith, ==_refl, All,
}
use gektar_monitor.Domain.{Instant, Lot}
use gektar_monitor.Diff.{TrackedField, FieldChange, compute_changes}
use gektar_monitor.Diff.Laws.{
  IsImplemented, check_tracked-none, ChangesBetween, compute_changes-ChangesBetween,
}
use gektar_monitor.Lots.{
  LotRow, Database, Result, ok, raise, ◌>>=◌, row_to_lot, columns, find_row, write_lot,
  UpsertResult, is_new, read_old, upsert, get, lift_diff, history_rows,
}
use gektar_monitor.Lots.Rows.{
  find_row-update_row, find_row-append, row_to_lot-columns, upsert-Upserted,
}

-- The lot as it is stored: the time of discovery stays that of the first row.
abbrev pub rediscovered : Option Lot → Lot → Lot
rediscovered none lot = lot
rediscovered (some old) lot = record lot { first_seen = old.first_seen }

pub read_old-none : (o : Option LotRow) → read_old o ≡ ok none → o ≡ none
unfolding read_old
read_old-none none e = refl
read_old-none (some r) e = absurd (ne (row_to_lot r) e)
  where
    ne : (x : Result Lot) → (x >>= λ l. ok (some l)) ≢ ok none
    ne (ok l) p = cc p
    ne (raise _) p = cc p

pub read_old-some :
    (o : Option LotRow) (old : Lot) → read_old o ≡ ok (some old) → (r : LotRow) × (o ≡ some r)
unfolding read_old
read_old-some none old e = cc
read_old-some (some r) old e = (r, refl)

read_written :
    (lot : Lot) (r : LotRow) (first : Instant)
    → read_old (some (record r { lot = record (columns lot) { first_seen = first } }))
      ≡ ok (some (record lot { first_seen = first }))
unfolding read_old
read_written lot r first = rw (row_to_lot-columns lot r first)

abbrev pub fresh_row : Lot → Bool → LotRow
fresh_row lot is_backfill = record {
  lot = columns lot;
  is_backfill = is_backfill;
  enrichment_retries = 0;
}

pub find_inserted :
    (lot : Lot) (is_backfill : Bool) (rows : List LotRow)
    → find_row lot.id rows ≡ none
    → find_row lot.id (write_lot none lot is_backfill rows) ≡ some (fresh_row lot is_backfill)
unfolding write_lot columns
find_inserted lot is_backfill rows e =
    ground (arith, find_row-append lot.id rows (fresh_row lot is_backfill))

abbrev pub updated_row : Lot → Lot → LotRow → LotRow
updated_row old lot r = record r { lot = record (columns lot) { first_seen = old.first_seen } }

pub find_updated :
    (old lot : Lot) (is_backfill : Bool) (rows : List LotRow) (m : ℕ)
    → find_row m (write_lot (some old) lot is_backfill rows) ≡ elim (find_row m rows) [
      | none ↦ none
      | some r ↦ some (if lot.id == m then updated_row old lot r else r)
    ]
unfolding write_lot columns
find_updated old lot is_backfill rows m =
    find_row-update_row lot.id m (updated_row old lot) rows (λ r e. refl)

get_written :
    (old : Option Lot) (lot : Lot) (is_backfill : Bool) (rows : List LotRow)
    → read_old (find_row lot.id rows) ≡ ok old
    → read_old (find_row lot.id (write_lot old lot is_backfill rows))
      ≡ ok (some (rediscovered old lot))
get_written none lot is_backfill rows e =
    ap read_old (find_inserted lot is_backfill rows (read_old-none (find_row lot.id rows) e))
    ∙ (unfold columns in read_written lot (fresh_row lot is_backfill) lot.first_seen)
get_written (some old) lot is_backfill rows e =
    let (r, found) = read_old-some (find_row lot.id rows) old e in
    ap read_old (find_updated old lot is_backfill rows lot.id ∙ rw (found, ==_refl lot.id) refl)
    ∙ read_written lot r old.first_seen

-- After a successful `upsert` the lot is read back as it was given, except that a lot that was there
-- before keeps its time of discovery.
pub upsert-get :
    (lot : Lot) (tracked : List TrackedField) (is_backfill : Bool) (now : Instant) (db : Database)
    (old : Option Lot) (result : UpsertResult) (db' : Database)
    → get lot.id db ≡ ok old
    → upsert lot tracked is_backfill now db ≡ ok (result, db')
    → get lot.id db' ≡ ok (some (rediscovered old lot))
unfolding get
upsert-get lot tracked is_backfill now db old result db' was e =
    let u = upsert-Upserted lot tracked is_backfill now db e in
    let same : u.old ≡ old = cc (u.read, was) in
    ap (λ (d : Database). read_old (find_row lot.id d.lots)) u.after
    ∙ get_written u.old lot is_backfill db.lots u.read
    ∙ ap (λ (o : Option Lot). ok (some (rediscovered o lot))) same

pub other_written :
    (old : Option Lot) (lot : Lot) (is_backfill : Bool) (rows : List LotRow) (m : ℕ)
    → m ≢ lot.id
    → find_row m (write_lot old lot is_backfill rows) ≡ find_row m rows
other_written none lot is_backfill rows m ne =
    unfold write_lot columns in ground (arith, find_row-append m rows (fresh_row lot is_backfill))
other_written (some old) lot is_backfill rows m ne =
    ground (arith, find_updated old lot is_backfill rows m)

-- `upsert` changes the row of no other lot.
pub upsert-other :
    (lot : Lot) (tracked : List TrackedField) (is_backfill : Bool) (now : Instant) (db : Database)
    (result : UpsertResult) (db' : Database) (m : ℕ)
    → upsert lot tracked is_backfill now db ≡ ok (result, db')
    → m ≢ lot.id
    → find_row m db'.lots ≡ find_row m db.lots
upsert-other lot tracked is_backfill now db result db' m e ne =
    let u = upsert-Upserted lot tracked is_backfill now db e in
    ap (λ (d : Database). find_row m d.lots) u.after
    ∙ other_written u.old lot is_backfill db.lots m ne

-- The changes that `upsert` reports of a lot that was `old` before.
abbrev pub Reports : Option Lot → Lot → List TrackedField → UpsertResult → Type 0
Reports none lot tracked result = (result.was_new ≡ true) × (result.changes ≡ [])
Reports (some old) lot tracked result =
    (result.was_new ≡ false) × ChangesBetween old lot tracked result.changes

reports :
    (old : Option Lot) (lot : Lot) (tracked : List TrackedField) (changes : List FieldChange)
    → All IsImplemented tracked
    → lift_diff (compute_changes old lot tracked) ≡ ok changes
    → Reports old lot tracked (record { was_new = is_new old; changes = changes })
unfolding lift_diff
reports none lot tracked changes h e =
    unfold compute_changes in (refl, ground (arith, check_tracked-none tracked h))
reports (some old) lot tracked changes h e =
    let (cs, computed, between) = compute_changes-ChangesBetween old lot tracked h in
    let same : cs ≡ changes = cc (e, computed) in
    (refl, subst (ChangesBetween old lot tracked) same between)

-- After a successful `upsert` with the names of fields that a lot has: a new lot is reported with no
-- changes; of a known one exactly the tracked fields that differ from
-- what was stored are reported, and written to the history with the time of the call.
pub upsert-Reports :
    (lot : Lot) (tracked : List TrackedField) (is_backfill : Bool) (now : Instant) (db : Database)
    (old : Option Lot) (result : UpsertResult) (db' : Database)
    → All IsImplemented tracked
    → get lot.id db ≡ ok old
    → upsert lot tracked is_backfill now db ≡ ok (result, db')
    → Reports old lot tracked result
      × (db'.history ≡ db.history ++ history_rows lot.id now result.changes)
unfolding get
upsert-Reports lot tracked is_backfill now db old result db' h was e =
    let u = upsert-Upserted lot tracked is_backfill now db e in
    let same : u.old ≡ old = cc (u.read, was) in
    let r = reports u.old lot tracked u.changes h u.diff in
    (
      subst (λ (o : Option Lot). Reports o lot tracked result) same (rw u.answer r),
      ap (λ (d : Database). d.history) u.after
          ∙ ap (λ (q : UpsertResult). db.history ++ history_rows lot.id now q.changes)
              (sym u.answer),
    )
