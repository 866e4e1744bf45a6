-- ===== src/Domain.antt =====
-- The domain records of src/fis_monitor/domain/models.py that the services share. A datetime is a
-- count of microseconds since the epoch in UTC, so `.date()` is a division. A coordinate is a
-- fixed-point number of degrees; the program only stores it and compares it.
pub mod Cutoff
pub mod Regions
pub mod Parsed
pub mod Failures
use gektar_monitor.Prelude.{ℕ, String, ◌/◌, Bool, Option}

-- `datetime`
abbrev pub Instant : Type 0
Instant = ℕ

abbrev pub day_length : ℕ
day_length = 86400000000

-- `t.date()`
abbrev pub date : Instant → ℕ
date t = t / day_length

pub data InactiveReason : Type 0 where
  status_changed hard_removed list_absent : InactiveReason

pub data EnrichmentStatus : Type 0 where
  pending done failed permanent_fail : EnrichmentStatus

pub record Coordinate : Type 0 where
  pub is_negative : Bool
  pub magnitude : ℕ

-- `Lot`, over the type of `inactive_reason`: the column holds any text, the model three values.
pub record LotData (R : Type 0) : Type 0 where
  pub id : ℕ
  pub cadastral_no : String
  pub area_sqm : Option ℕ
  pub region : String
  pub municipality : Option String
  pub land_category : Option String
  pub permitted_use : Option String
  pub ogv : Option String
  pub status : String
  pub date_create : Instant
  pub date_update : Option Instant
  pub date_registry : Option Instant
  pub lat : Option Coordinate
  pub lon : Option Coordinate
  pub has_boundaries : Option Bool
  pub raw_json : String
  pub parser_version : ℕ
  pub first_seen : Instant
  pub last_seen : Instant
  pub detail_fetched_at : Option Instant
  pub enrichment_status : Option EnrichmentStatus
  pub last_seen_at : Option Instant
  pub is_active : Bool
  pub inactive_reason : Option R
  pub inactive_since : Option Instant
  pub inactive_confirmed_at : Option Instant
  pub region_id : Option ℕ

abbrev pub Lot : Type 0
Lot = LotData InactiveReason

pub data Tier : Type 0 where
  match silent gone : Tier

pub data Freshness : Type 0 where
  hot warm cool cold : Freshness

pub record LotPublicDto : Type 0 where
  pub lot : Lot
  pub open lot use *
  pub age_seconds : ℕ
  pub tier : Tier
  pub freshness : Freshness

unfoldable pub lot_to_public_dto : Lot → LotPublicDto
lot_to_public_dto lot = record { lot = lot; age_seconds = 0; tier = match; freshness = hot }

pub data ErrorCategory : Type 0 where
  network http_5xx http_4xx redirect_login timeout parse_bug schema_anomaly : ErrorCategory
  internal_error : ErrorCategory

-- `NotifyResult`
pub record NotifyResult : Type 0 where
  pub is_ok : Bool
  pub detail : String
  pub retryable : Bool
