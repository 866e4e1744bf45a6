-- ===== src/Lots/Columns.antt =====
-- The columns of the table `lots` as SQLite keeps them, with the conversions of
-- src/fis_monitor/infra/sqlite/repositories/lots.py: times as ISO-8601 texts, Booleans as 0 and 1, JSON
-- and the two enumerations as texts. The columns that this class never writes are left out.
pub mod Laws
pub mod Agrees
use gektar_monitor.Prelude.{
  ℕ, String, Bool, true, false, not, Option, none, some, List, [], ◌∷◌, ◌++◌, ◌==◌, if◌then◌else◌,
  str_eq, is_empty, codes,
}
use gektar_monitor.Domain.{
  Instant, Coordinate, EnrichmentStatus, pending, done, failed, permanent_fail, InactiveReason, Lot,
}
use gektar_monitor.Lots.{parse_reason, stored_reason}

-- A text of a time, as its code points.
abbrev pub Text : Type 0
Text = List ℕ

-- A datetime with an offset, or one without, as the count that it has when it is taken for UTC.
pub data Moment : Type 0 where
  aware naive : Instant → Moment

-- `datetime.isoformat` and `fromisoformat`, `json.dumps` and `loads`; none is a ValueError.
pub record Codec : Type 0 where
  pub isoformat : Instant → Text
  pub fromisoformat : Text → Option Moment
  pub dumps : String → String
  pub loads : String → Option String

pub record StoredRow : Type 0 where
  pub id : ℕ
  pub cadastral_no : String
  pub area_sqm : Option ℕ
  pub region : String
  pub municipality : Option String
  pub land_category : Option String
  pub permitted_use : Option String
  pub ogv : Option String
  pub status : String
  pub date_create : Text
  pub date_update : Option Text
  pub date_registry : Option Text
  pub lat : Option Coordinate
  pub lon : Option Coordinate
  pub has_boundaries : Option ℕ
  pub raw_json : String
  pub parser_version : ℕ
  pub first_seen : Text
  pub last_seen : Text
  pub detail_fetched_at : Option Text
  pub enrichment_status : Option String
  pub enrichment_retries : ℕ
  pub last_seen_at : Option Text
  pub is_active : ℕ
  pub inactive_reason : Option String
  pub inactive_since : Option Text
  pub inactive_confirmed_at : Option Text
  pub region_id : Option ℕ
  pub is_backfill : ℕ

infixl 5 ◌>>=◌
abbrev pub ◌>>=◌ : {A B : Type 0} → Option A → (A → Option B) → Option B
none >>= rest = none
some x >>= rest = rest x

-- `_iso`
abbrev pub iso : Codec → Option Instant → Option Text
iso codec none = none
iso codec (some t) = some (codec.isoformat t)

-- `replace(tzinfo=UTC)` of a datetime without an offset
abbrev pub as_utc : Moment → Instant
as_utc (aware t) = t
as_utc (naive t) = t

-- `_parse_dt` of a text that is there; none is the exception.
unfoldable pub parse_text : Codec → Text → Option Instant
parse_text codec raw = do parsed ← codec.fromisoformat raw; some (as_utc parsed)

-- `_parse_dt`
unfoldable pub parse_dt : Codec → Option Text → Option (Option Instant)
parse_dt codec none = some none
parse_dt codec (some raw) = do t ← parse_text codec raw; some (some t)

-- `1 if value else 0` and `bool(value)`
abbrev pub to_int : Bool → ℕ
to_int true = 1
to_int false = 0

abbrev pub to_bool : ℕ → Bool
to_bool n = not (n == 0)

-- `_bool_to_int` and its inverse
abbrev pub bool_to_int : Option Bool → Option ℕ
bool_to_int none = none
bool_to_int (some b) = some (to_int b)

abbrev pub boundaries : Option ℕ → Option Bool
boundaries none = none
boundaries (some n) = some (to_bool n)

-- An empty text is the empty object.
unfoldable pub read_json : Codec → String → Option String
read_json codec raw = if is_empty (codes raw) then some "{}" else codec.loads raw

abbrev pub enrichment_text : EnrichmentStatus → String
enrichment_text pending = "pending"
enrichment_text done = "done"
enrichment_text failed = "failed"
enrichment_text permanent_fail = "permanent_fail"

abbrev pub stored_enrichment : Option EnrichmentStatus → Option String
stored_enrichment none = none
stored_enrichment (some e) = some (enrichment_text e)

-- The `Literal` types of the model: another text is a ValidationError.
unfoldable pub parse_enrichment : String → Option EnrichmentStatus
parse_enrichment raw =
    if str_eq raw "pending"
    then some pending
    else if str_eq raw "done"
    then some done
    else if str_eq raw "failed"
    then some failed
    else if str_eq raw "permanent_fail"
    then some permanent_fail
    else none

unfoldable pub read_enrichment : Option String → Option (Option EnrichmentStatus)
read_enrichment none = some none
read_enrichment (some raw) = do e ← parse_enrichment raw; some (some e)

unfoldable pub read_inactive : Option String → Option (Option InactiveReason)
read_inactive none = some none
read_inactive (some raw) = do r ← parse_reason raw; some (some r)

-- `row_to_lot`; none is the exception of a text that cannot be read.
unfoldable pub row_to_lot : Codec → StoredRow → Option Lot
row_to_lot codec r = do
  raw_json ← read_json codec r.raw_json
  date_create ← parse_text codec r.date_create
  date_update ← parse_dt codec r.date_update
  date_registry ← parse_dt codec r.date_registry
  first_seen ← parse_text codec r.first_seen
  last_seen ← parse_text codec r.last_seen
  detail_fetched_at ← parse_dt codec r.detail_fetched_at
  enrichment_status ← read_enrichment r.enrichment_status
  last_seen_at ← parse_dt codec r.last_seen_at
  inactive_reason ← read_inactive r.inactive_reason
  inactive_since ← parse_dt codec r.inactive_since
  inactive_confirmed_at ← parse_dt codec r.inactive_confirmed_at
  some (record {
    id = r.id;
    cadastral_no = r.cadastral_no;
    area_sqm = r.area_sqm;
    region = r.region;
    municipality = r.municipality;
    land_category = r.land_category;
    permitted_use = r.permitted_use;
    ogv = r.ogv;
    status = r.status;
    date_create = date_create;
    date_update = date_update;
    date_registry = date_registry;
    lat = r.lat;
    lon = r.lon;
    has_boundaries = boundaries r.has_boundaries;
    raw_json = raw_json;
    parser_version = r.parser_version;
    first_seen = first_seen;
    last_seen = last_seen;
    detail_fetched_at = detail_fetched_at;
    enrichment_status = enrichment_status;
    last_seen_at = last_seen_at;
    is_active = to_bool r.is_active;
    inactive_reason = inactive_reason;
    inactive_since = inactive_since;
    inactive_confirmed_at = inactive_confirmed_at;
    region_id = r.region_id;
  })

-- The values of the INSERT, in the order of its columns.
unfoldable pub insert_values : Codec → Lot → Bool → StoredRow
insert_values codec lot is_backfill = record {
  id = lot.id;
  cadastral_no = lot.cadastral_no;
  area_sqm = lot.area_sqm;
  region = lot.region;
  municipality = lot.municipality;
  land_category = lot.land_category;
  permitted_use = lot.permitted_use;
  ogv = lot.ogv;
  status = lot.status;
  date_create = codec.isoformat lot.date_create;
  date_update = iso codec lot.date_update;
  date_registry = iso codec lot.date_registry;
  lat = lot.lat;
  lon = lot.lon;
  has_boundaries = bool_to_int lot.has_boundaries;
  raw_json = codec.dumps lot.raw_json;
  parser_version = lot.parser_version;
  first_seen = codec.isoformat lot.first_seen;
  last_seen = codec.isoformat lot.last_seen;
  detail_fetched_at = iso codec lot.detail_fetched_at;
  enrichment_status = stored_enrichment lot.enrichment_status;
  enrichment_retries = 0;
  last_seen_at = iso codec lot.last_seen_at;
  is_active = to_int lot.is_active;
  inactive_reason = stored_reason lot.inactive_reason;
  inactive_since = iso codec lot.inactive_since;
  inactive_confirmed_at = iso codec lot.inactive_confirmed_at;
  region_id = lot.region_id;
  is_backfill = to_int is_backfill;
}

-- The SET clause of the UPDATE: its row keeps the id, the retries and the mark of the backfill.
unfoldable pub update_values : Codec → Lot → Lot → StoredRow → StoredRow
update_values codec old lot r = record r {
  cadastral_no = lot.cadastral_no;
  area_sqm = lot.area_sqm;
  region = lot.region;
  municipality = lot.municipality;
  land_category = lot.land_category;
  permitted_use = lot.permitted_use;
  ogv = lot.ogv;
  status = lot.status;
  date_create = codec.isoformat lot.date_create;
  date_update = iso codec lot.date_update;
  date_registry = iso codec lot.date_registry;
  lat = lot.lat;
  lon = lot.lon;
  has_boundaries = bool_to_int lot.has_boundaries;
  raw_json = codec.dumps lot.raw_json;
  parser_version = lot.parser_version;
  first_seen = codec.isoformat old.first_seen;
  last_seen = codec.isoformat lot.last_seen;
  detail_fetched_at = iso codec lot.detail_fetched_at;
  enrichment_status = stored_enrichment lot.enrichment_status;
  last_seen_at = iso codec lot.last_seen_at;
  is_active = to_int lot.is_active;
  inactive_reason = stored_reason lot.inactive_reason;
  inactive_since = iso codec lot.inactive_since;
  inactive_confirmed_at = iso codec lot.inactive_confirmed_at;
  region_id = lot.region_id;
}

-- SELECT … WHERE id = ?
unfoldable pub find_row : ℕ → List StoredRow → Option StoredRow
find_row n [] = none
find_row n (r ∷ rows) = let rest = find_row n rows in if r.id == n then some r else rest

-- UPDATE lots SET … WHERE id = ?
unfoldable pub update_row : ℕ → (StoredRow → StoredRow) → List StoredRow → List StoredRow
update_row n f [] = []
update_row n f (r ∷ rows) = (if r.id == n then f r else r) ∷ update_row n f rows

-- `get`: none is an exception, `some none` a row that is not there.
unfoldable pub read_row : Codec → Option StoredRow → Option (Option Lot)
read_row codec none = some none
read_row codec (some r) = do lot ← row_to_lot codec r; some (some lot)

unfoldable pub write_row : Codec → Option Lot → Lot → Bool → List StoredRow → List StoredRow
write_row codec none lot is_backfill rows = rows ++ insert_values codec lot is_backfill ∷ []
write_row codec (some old) lot is_backfill rows =
    update_row lot.id (update_values codec old lot) rows

-- What `upsert` does with the table `lots`: the lot that was stored, and the table behind it.
unfoldable pub upsert_row :
    Codec → Lot → Bool → List StoredRow → Option (Option Lot × List StoredRow)
upsert_row codec lot is_backfill rows = do
  old ← read_row codec (find_row lot.id rows)
  some (old, write_row codec old lot is_backfill rows)
