-- ===== src/Domain/Parsed.antt =====
-- What the two parsers hand on: `ParsedListRow`, `ParsedListPage` and `ParsedDetail` of
-- src/fis_monitor/domain/models.py, and `parsed_row_to_lot`, which makes a lot of a row.
use gektar_monitor.Prelude.{ℕ, String, Bool, true, Option, none, some, List}
use gektar_monitor.Domain.{Instant, Coordinate, EnrichmentStatus, Lot}

pub record ParsedListRow : Type 0 where
  pub id : ℕ
  pub cadastral_no : String
  pub area_sqm : Option ℕ
  pub region : String
  pub municipality : Option String
  pub land_category : Option String
  pub permitted_use : Option String
  pub ogv : Option String
  pub status : String
  pub date_create : Instant
  pub date_update : Option Instant

pub record ParsedListPage : Type 0 where
  pub rows : List ParsedListRow
  pub total_count : Option ℕ

pub record ParsedDetail : Type 0 where
  pub lat : Option Coordinate
  pub lon : Option Coordinate
  pub has_boundaries : Option Bool
  pub date_update : Option Instant
  pub date_registry : Option Instant
  pub raw_json : String
  pub parser_version : ℕ

-- `raw_json` is kept as text: the empty object is `{}`.
unfoldable pub parsed_row_to_lot : ParsedListRow → Instant → Option ℕ → Lot
parsed_row_to_lot row now region_id = record {
  id = row.id;
  cadastral_no = row.cadastral_no;
  area_sqm = row.area_sqm;
  region = row.region;
  municipality = row.municipality;
  land_category = row.land_category;
  permitted_use = row.permitted_use;
  ogv = row.ogv;
  status = row.status;
  date_create = row.date_create;
  date_update = row.date_update;
  date_registry = none;
  lat = none;
  lon = none;
  has_boundaries = none;
  raw_json = "{}";
  parser_version = 1;
  first_seen = now;
  last_seen = now;
  detail_fetched_at = none;
  enrichment_status = some EnrichmentStatus.pending;
  last_seen_at = some now;
  is_active = true;
  inactive_reason = none;
  inactive_since = none;
  inactive_confirmed_at = none;
  region_id = region_id;
}
