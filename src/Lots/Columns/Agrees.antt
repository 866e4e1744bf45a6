-- ===== src/Lots/Columns/Agrees.antt =====
-- The rows of `Lots` and the columns in which SQLite keeps them.
use gektar_monitor.Prelude.{
  ℕ, ◌≡◌, refl, ap, sym, subst, ◌∙◌, String, Bool, map, Option, none, some, List, [], ◌∷◌, ◌++◌,
  ◌==◌, arith, Bool-cases, Option-cases, inl, inr,
}
use gektar_monitor.Domain.{Instant, InactiveReason, Lot}
use gektar_monitor.Diff.{TrackedField}
use gektar_monitor.Lots.{
  LotRow, Database, with_reason, Result, ok, raise, columns, parse_reason, read_reason, read_old,
  write_lot, get, upsert, UpsertResult, row_to_lot as read_lot, find_row as find_lot,
  update_row as update_lot,
}
use gektar_monitor.Lots.Rows.{upsert-Upserted}
use gektar_monitor.Lots.Columns.{
  Codec, StoredRow, iso, to_int, bool_to_int, stored_enrichment, row_to_lot, insert_values,
  update_values, ◌>>=◌, find_row, update_row, read_inactive, read_row, write_row, upsert_row,
}
use gektar_monitor.Lots.Columns.Laws.{
  IsCodec, parse_text-isoformat, parse_dt-iso, read_json-dumps, read_enrichment_lem, boundaries_lem,
  to_bool-to_int,
}

-- The columns of a row of `Lots`.
abbrev store : Codec → LotRow → StoredRow
store codec r = record {
  id = r.lot.id;
  cadastral_no = r.lot.cadastral_no;
  area_sqm = r.lot.area_sqm;
  region = r.lot.region;
  municipality = r.lot.municipality;
  land_category = r.lot.land_category;
  permitted_use = r.lot.permitted_use;
  ogv = r.lot.ogv;
  status = r.lot.status;
  date_create = codec.isoformat r.lot.date_create;
  date_update = iso codec r.lot.date_update;
  date_registry = iso codec r.lot.date_registry;
  lat = r.lot.lat;
  lon = r.lot.lon;
  has_boundaries = bool_to_int r.lot.has_boundaries;
  raw_json = codec.dumps r.lot.raw_json;
  parser_version = r.lot.parser_version;
  first_seen = codec.isoformat r.lot.first_seen;
  last_seen = codec.isoformat r.lot.last_seen;
  detail_fetched_at = iso codec r.lot.detail_fetched_at;
  enrichment_status = stored_enrichment r.lot.enrichment_status;
  enrichment_retries = r.enrichment_retries;
  last_seen_at = iso codec r.lot.last_seen_at;
  is_active = to_int r.lot.is_active;
  inactive_reason = r.lot.inactive_reason;
  inactive_since = iso codec r.lot.inactive_since;
  inactive_confirmed_at = iso codec r.lot.inactive_confirmed_at;
  region_id = r.lot.region_id;
  is_backfill = to_int r.is_backfill;
}

abbrev returned : {A : Type 0} → Result A → Option A
returned (ok x) = some x
returned (raise _) = none

find_row-store :
    (codec : Codec) (m : ℕ) (rows : List LotRow)
    → find_row m (map (store codec) rows)
      ≡ elim (find_lot m rows) [ none ↦ none | some r ↦ some (store codec r) ]
unfolding find_row find_lot
find_row-store codec m [] = refl
find_row-store codec m (r ∷ rows) = ground (arith, find_row-store codec m rows)

update_row-store :
    (codec : Codec) (m : ℕ) (f : LotRow → LotRow) (g : StoredRow → StoredRow) (rows : List LotRow)
    → ((r : LotRow) → r.lot.id ≡ m → g (store codec r) ≡ store codec (f r))
    → update_row m g (map (store codec) rows) ≡ map (store codec) (update_lot m f rows)
unfolding update_row update_lot
update_row-store codec m f g [] h = refl
update_row-store codec m f g (r ∷ rows) h = elim (Bool-cases (r.lot.id == m)) [
  | inl e ↦
      let same : r.lot.id ≡ m = ground (arith, e) in
      rw (e, update_row-store codec m f g rows h)
        (ap (λ x. x ∷ map (store codec) (update_lot m f rows)) (h r same))
  | inr e ↦ rw (e, update_row-store codec m f g rows h) refl
]

insert-store :
    (codec : Codec) (lot : Lot) (is_backfill : Bool) (rows : List LotRow)
    → map (store codec) rows ++ insert_values codec lot is_backfill ∷ []
      ≡ map (store codec) (
          rows
          ++ (record { lot = columns lot; is_backfill = is_backfill; enrichment_retries = 0 }) ∷ [])
unfolding insert_values columns
insert-store codec lot is_backfill [] = refl
insert-store codec lot is_backfill (r ∷ rows) =
    ap (λ rest. store codec r ∷ rest) (insert-store codec lot is_backfill rows)

write_row-store :
    (codec : Codec) (old : Option Lot) (lot : Lot) (is_backfill : Bool) (rows : List LotRow)
    → write_row codec old lot is_backfill (map (store codec) rows)
      ≡ map (store codec) (write_lot old lot is_backfill rows)
unfolding write_row write_lot
write_row-store codec none lot is_backfill rows = insert-store codec lot is_backfill rows
write_row-store codec (some old) lot is_backfill rows =
    update_row-store codec lot.id _ (update_values codec old lot) rows
      (λ r same. unfold update_values columns in rw same refl)

read_inactive-read_reason : (o : Option String) → read_inactive o ≡ returned (read_reason o)
unfolding read_inactive read_reason
read_inactive-read_reason none = refl
read_inactive-read_reason (some raw) = elim (Option-cases (parse_reason raw)) [
  | inl other ↦ rw (read_reason, other) refl
  | inr (r, e) ↦ rw (read_reason, e) refl
]

row_to_lot_lem :
    (codec : Codec) (law : IsCodec codec) (r : LotRow)
    → row_to_lot codec (store codec r)
      ≡ (returned (read_reason r.lot.inactive_reason) >>= λ reason. some (with_reason r.lot reason))
unfolding row_to_lot
row_to_lot_lem codec law r =
    rw
      (
        read_json-dumps codec law r.lot.raw_json,
        parse_text-isoformat codec law r.lot.date_create,
        parse_dt-iso codec law r.lot.date_update,
        parse_dt-iso codec law r.lot.date_registry,
        parse_text-isoformat codec law r.lot.first_seen,
        parse_text-isoformat codec law r.lot.last_seen,
        parse_dt-iso codec law r.lot.detail_fetched_at,
        read_enrichment_lem codec law r.lot.enrichment_status,
        parse_dt-iso codec law r.lot.last_seen_at,
        read_inactive-read_reason r.lot.inactive_reason,
        parse_dt-iso codec law r.lot.inactive_since,
        parse_dt-iso codec law r.lot.inactive_confirmed_at,
        boundaries_lem codec law r.lot.has_boundaries,
        to_bool-to_int codec law r.lot.is_active,
      )
      refl

row_to_lot-store :
    (codec : Codec) (law : IsCodec codec) (r : LotRow)
    → row_to_lot codec (store codec r) ≡ returned (read_lot r)
unfolding read_lot
row_to_lot-store codec law r =
    row_to_lot_lem codec law r ∙ by_reason (read_reason r.lot.inactive_reason) refl
  where
    by_reason :
        (y : Result (Option InactiveReason))
        → read_reason r.lot.inactive_reason ≡ y
        → (returned (read_reason r.lot.inactive_reason) >>= λ reason.
            some (with_reason r.lot reason))
          ≡ returned (read_lot r)
    by_reason (raise _) e = rw (read_lot, e) refl
    by_reason (ok o) e = rw (read_lot, e) refl

read_row-some :
    (codec : Codec) (law : IsCodec codec) (r : LotRow) (old : Option Lot)
    → read_old (some r) ≡ ok old
    → read_row codec (some (store codec r)) ≡ some old
unfolding read_row read_old
read_row-some codec law r old h = by_lot (read_lot r) refl
  where
    by_lot : (y : Result Lot) → read_lot r ≡ y → read_row codec (some (store codec r)) ≡ some old
    by_lot (raise p) e =
        let k : ◌≡◌ {A = Result (Option Lot)} (read_old (some r)) (raise p) =
          rw (read_old, e) refl in
        cc (k, h)
    by_lot (ok l) e =
        let k : ◌≡◌ {A = Result (Option Lot)} (read_old (some r)) (ok (some l)) =
          rw (read_old, e) refl in
        let same : ◌≡◌ {A = Option Lot} (some l) old = cc (k, h) in
        rw (row_to_lot-store codec law r, e) (ap (λ o. some o) same)

read_row-store :
    (codec : Codec) (law : IsCodec codec) (m : ℕ) (rows : List LotRow) (old : Option Lot)
    → read_old (find_lot m rows) ≡ ok old
    → read_row codec (find_row m (map (store codec) rows)) ≡ some old
unfolding read_row read_old
read_row-store codec law m rows old e = elim (Option-cases (find_lot m rows)) [
  | inl absent ↦
      rw (find_row-store codec m rows, absent) (cc (subst (λ o. read_old o ≡ ok old) absent e))
  | inr (r, there) ↦
      let found : find_row m (map (store codec) rows) ≡ some (store codec r) =
        find_row-store codec m rows ∙ rw there refl in
      ap (read_row codec) found
      ∙ read_row-some codec law r old (subst (λ o. read_old o ≡ ok old) there e)
]

-- The rows of `Lots` stand for the columns: a successful `upsert` of a lot in a database does to the
-- columns of its rows what `upsert` on the columns does, and both read the same old lot.
upsert_row-upsert :
    (codec : Codec) (lot : Lot) (tracked : List TrackedField) (is_backfill : Bool) (now : Instant)
    (db : Database) (result : UpsertResult) (db' : Database)
    → IsCodec codec
    → upsert lot tracked is_backfill now db ≡ ok (result, db')
    → (old : Option Lot) × (get lot.id db ≡ ok old)
      × (upsert_row codec lot is_backfill (map (store codec) db.lots)
          ≡ some (old, map (store codec) db'.lots))
unfolding get upsert_row
upsert_row-upsert codec lot tracked is_backfill now db result db' law e =
    let u = upsert-Upserted lot tracked is_backfill now db e in
    let same : write_lot u.old lot is_backfill db.lots ≡ db'.lots =
      sym (ap (λ (d : Database). d.lots) u.after) in
    (
      u.old,
      u.read,
      rw
          (
            upsert_row,
            read_row-store codec law lot.id db.lots u.old u.read,
            write_row-store codec u.old lot is_backfill db.lots,
          )
          (ap (λ rows. some (u.old, map (store codec) rows)) same),
    )
