-- ===== src/Lots.antt =====
-- The lot repository of src/fis_monitor/infra/sqlite/repositories/lots.py: the tables `lots`,
-- `lots_history` and `lots_rtree` as lists of rows, and the `state` keys of the last known lots. A
-- method that raises has rolled its transaction back, so its result then holds no new tables. Of the
-- columns only the reason of an inactive lot may fail to be read here; times, Booleans and JSON stand as
-- they are read, and their conversions are in Lots/Columns.
pub mod Rows
pub mod Columns
pub mod Queries
pub mod Upsert
pub mod Geo
pub mod Reasons
pub mod Total
use gektar_monitor.Prelude.{
  ℕ, String, Bool, true, false, ◌&&◌, map, Option, none, some, List, [], ◌∷◌, ◌++◌, ◌==◌,
  if◌then◌else◌, str_eq, take, drop, select, leb, contains, length,
}
use gektar_monitor.Domain.{
  Instant, Coordinate, EnrichmentStatus, InactiveReason, status_changed, hard_removed, list_absent,
  LotData, Lot,
}
use gektar_monitor.Diff.{
  TrackedField, FieldChange, DiffError, value_error, not_implemented, DiffResult, compute_changes,
}

-- A row of `lots`: the columns of a lot, with any text as the reason, and the two columns that the
-- domain lot does not have and that this class writes.
pub record LotRow : Type 0 where
  pub lot : LotData String
  pub is_backfill : Bool
  pub enrichment_retries : ℕ

pub record Point : Type 0 where
  pub lat : Coordinate
  pub lon : Coordinate

pub record HistoryRow : Type 0 where
  pub lot_id : ℕ
  pub change : FieldChange
  pub changed_at : Instant

pub record Database : Type 0 where
  pub lots : List LotRow
  pub history : List HistoryRow
  pub rtree : List (ℕ × Point)
  pub last_known : List (ℕ × ℕ)

pub data Error : Type 0 where
  refused : DiffError → Error
  validation_error : Error
  integrity_error : Error

-- What a method returns, or the exception that leaves it.
pub data Result (A : Type 0) : Type 0 where
  raise : Error → Result A
  ok : A → Result A

infixl 5 ◌>>=◌ ◌>>◌
abbrev pub ◌>>=◌ : {B C : Type 0} → Result B → (B → Result C) → Result C
raise problem >>= rest = raise problem
ok value >>= rest = rest value

-- A check that returns nothing, and the rest.
abbrev pub ◌>>◌ : {C : Type 0} → Result (Unit {0}) → Result C → Result C
step >> rest = step >>= λ _. rest

abbrev pub reason_text : InactiveReason → String
reason_text status_changed = "status_changed"
reason_text hard_removed = "hard_removed"
reason_text list_absent = "list_absent"

-- The `Literal` type of `Lot.inactive_reason`: any other text is a ValidationError.
unfoldable pub parse_reason : String → Option InactiveReason
parse_reason s =
    if str_eq s "status_changed"
    then some status_changed
    else if str_eq s "hard_removed"
    then some hard_removed
    else if str_eq s "list_absent"
    then some list_absent
    else none

unfoldable pub read_reason : Option String → Result (Option InactiveReason)
read_reason none = ok none
read_reason (some s) = elim (parse_reason s) [
  | none ↦ raise validation_error
  | some r ↦ ok (some r)
]

abbrev pub with_reason : {R S : Type 0} → LotData R → Option S → LotData S
with_reason l reason = record {
  id = l.id;
  cadastral_no = l.cadastral_no;
  area_sqm = l.area_sqm;
  region = l.region;
  municipality = l.municipality;
  land_category = l.land_category;
  permitted_use = l.permitted_use;
  ogv = l.ogv;
  status = l.status;
  date_create = l.date_create;
  date_update = l.date_update;
  date_registry = l.date_registry;
  lat = l.lat;
  lon = l.lon;
  has_boundaries = l.has_boundaries;
  raw_json = l.raw_json;
  parser_version = l.parser_version;
  first_seen = l.first_seen;
  last_seen = l.last_seen;
  detail_fetched_at = l.detail_fetched_at;
  enrichment_status = l.enrichment_status;
  last_seen_at = l.last_seen_at;
  is_active = l.is_active;
  inactive_reason = reason;
  inactive_since = l.inactive_since;
  inactive_confirmed_at = l.inactive_confirmed_at;
  region_id = l.region_id;
}

-- `row_to_lot` on a row whose times, JSON and other columns this class has written.
unfoldable pub row_to_lot : LotRow → Result Lot
row_to_lot r = do reason ← read_reason r.lot.inactive_reason; ok (with_reason r.lot reason)

-- The reason, and the lot with it, as they are written.
abbrev pub stored_reason : Option InactiveReason → Option String
stored_reason none = none
stored_reason (some r) = some (reason_text r)

unfoldable pub columns : Lot → LotData String
columns l = with_reason l (stored_reason l.inactive_reason)

-- SELECT … WHERE id = ?
unfoldable pub find_row : ℕ → List LotRow → Option LotRow
find_row n [] = none
find_row n (r ∷ rs) = if r.lot.id == n then some r else find_row n rs

-- UPDATE lots SET f WHERE id = ?
unfoldable pub update_row : ℕ → (LotRow → LotRow) → List LotRow → List LotRow
update_row n f [] = []
update_row n f (r ∷ rs) = (if r.lot.id == n then f r else r) ∷ update_row n f rs

-- The entry of the R-tree for an id.
unfoldable pub find_point : ℕ → List (ℕ × Point) → Option Point
find_point n [] = none
find_point n ((m, p) ∷ t) = if m == n then some p else find_point n t

unfoldable pub remove_point : ℕ → List (ℕ × Point) → List (ℕ × Point)
remove_point n [] = []
remove_point n ((m, p) ∷ t) = let rest = remove_point n t in if m == n then rest else (m, p) ∷ rest

unfoldable pub flag_same : Bool → Bool → Bool
flag_same true b = b
flag_same false true = false
flag_same false false = true

unfoldable pub coordinate_eq : Coordinate → Coordinate → Bool
unfolding flag_same
coordinate_eq a b = flag_same a.is_negative b.is_negative && a.magnitude == b.magnitude

unfoldable pub point_eq : Point → Point → Bool
unfolding coordinate_eq
point_eq a b = coordinate_eq a.lat b.lat && coordinate_eq a.lon b.lon

-- The point of a pair of coordinates: both must be there.
unfoldable pub point_of : Option Coordinate → Option Coordinate → Option Point
point_of none lon = none
point_of (some lat) none = none
point_of (some lat) (some lon) = some (record { lat = lat; lon = lon })

-- INSERT into the R-tree: the id must be new.
unfoldable pub insert_point : ℕ → Point → List (ℕ × Point) → Result (List (ℕ × Point))
insert_point n p t = elim (find_point n t) [
  | none ↦ ok ((n, p) ∷ t)
  | some _ ↦ raise integrity_error
]

-- _sync_geo, its five cases.
unfoldable pub sync_geo :
    ℕ → Option Point → Option Point → List (ℕ × Point) → Result (List (ℕ × Point))
sync_geo n none none t = ok t
sync_geo n none (some new) t = insert_point n new t
sync_geo n (some old) none t = ok (remove_point n t)
sync_geo n (some old) (some new) t =
    if point_eq old new then ok t else ok ((n, new) ∷ remove_point n t)

pub record UpsertResult : Type 0 where
  pub was_new : Bool
  pub changes : List FieldChange

-- The early guard: a name outside the literal type.
unfoldable pub guard_tracked : List TrackedField → Result (Unit {0})
guard_tracked [] = ok tt
guard_tracked (TrackedField.unknown _ ∷ fs) = raise (refused value_error)
guard_tracked (f ∷ fs) = guard_tracked fs

unfoldable pub lift_diff : {A : Type 0} → DiffResult A → Result A
lift_diff (DiffResult.ok a) = ok a
lift_diff (DiffResult.raise e) = raise (refused e)

-- The old lot, if the id has a row.
unfoldable pub read_old : Option LotRow → Result (Option Lot)
read_old none = ok none
read_old (some r) = do l ← row_to_lot r; ok (some l)

-- INSERT, or UPDATE of all columns but the time of discovery and the backfill mark.
unfoldable pub write_lot : Option Lot → Lot → Bool → List LotRow → List LotRow
write_lot none lot is_backfill rows =
    rows ++ (record { lot = columns lot; is_backfill = is_backfill; enrichment_retries = 0 }) ∷ []
write_lot (some old) lot is_backfill rows =
    update_row lot.id (λ r. record r { lot = record (columns lot) { first_seen = old.first_seen } })
      rows

abbrev pub history_rows : ℕ → Instant → List FieldChange → List HistoryRow
history_rows n now [] = []
history_rows n now (c ∷ cs) =
    (record { lot_id = n; change = c; changed_at = now }) ∷ history_rows n now cs

abbrev pub old_point : Option Lot → Option Point
old_point none = none
old_point (some l) = point_of l.lat l.lon

abbrev pub is_new : Option Lot → Bool
is_new none = true
is_new (some _) = false

unfoldable pub upsert :
    Lot → List TrackedField → Bool → Instant → Database → Result (UpsertResult × Database)
upsert lot tracked is_backfill now db = do
  guard_tracked tracked
  old ← read_old (find_row lot.id db.lots)
  changes ← lift_diff (compute_changes old lot tracked)
  rtree ← sync_geo lot.id (old_point old) (point_of lot.lat lot.lon) db.rtree
  ok (
    record { was_new = is_new old; changes = changes },
    record db {
      lots = write_lot old lot is_backfill db.lots;
      history = db.history ++ history_rows lot.id now changes;
      rtree = rtree;
    },
  )

-- get
unfoldable pub get : ℕ → Database → Result (Option Lot)
get n db = read_old (find_row n db.lots)

-- UPDATE lots SET last_seen = ?, last_seen_at = ? WHERE id IN (…)
unfoldable pub seen_rows : List ℕ → Instant → List LotRow → List LotRow
seen_rows ids now [] = []
seen_rows ids now (r ∷ rs) =
    (if contains r.lot.id ids
      then record r { lot = record r.lot { last_seen = now; last_seen_at = some now } }
      else r)
    ∷ seen_rows ids now rs

abbrev pub deactivated : String → Instant → LotRow → LotRow
deactivated reason now r = record r {
  lot = record r.lot {
    is_active = false;
    inactive_reason = some reason;
    inactive_since = some now;
    inactive_confirmed_at = some now;
  };
}

-- mark_seen; nothing happens for no ids.
unfoldable pub mark_seen : List ℕ → Instant → Database → Database
mark_seen [] now db = db
mark_seen (n ∷ ns) now db = record db { lots = seen_rows (n ∷ ns) now db.lots }

unfoldable pub mark_inactive : ℕ → String → Instant → Database → Database
mark_inactive n reason now db = record db { lots = update_row n (deactivated reason now) db.lots }
