-- ===== src/Enrichment.antt =====
-- `EnrichmentService.enrich_lots` of src/fis_monitor/services/enrichment.py. The lots are enriched
-- in parallel and collected in the order of the input, so what the site answers for a lot and the
-- time of its answer are functions of the lot's position. Only `ParserVersionMismatch` leaves the
-- service; it is `none` here.
pub mod Laws
use gektar_monitor.Prelude.{ℕ, ◌+◌, Option, none, some, List, [], ◌∷◌, if◌then◌else◌}
use gektar_monitor.Domain.{Instant, EnrichmentStatus, Lot}
use gektar_monitor.Domain.Failures.{Failure, is_version_mismatch}
use gektar_monitor.Domain.Parsed.{ParsedDetail}

-- `http.get` and the detail parser: the detail, or what either raised.
pub data Answer : Type 0 where
  detail : ParsedDetail → Answer
  refused : Failure → Answer

abbrev pub or_else : Option Instant → Option Instant → Option Instant
or_else none old = old
or_else (some t) old = some t

unfoldable pub enriched : ParsedDetail → Instant → Lot → Lot
enriched d fetched_at lot = record lot {
  lat = d.lat;
  lon = d.lon;
  has_boundaries = d.has_boundaries;
  date_registry = or_else d.date_registry lot.date_registry;
  date_update = or_else d.date_update lot.date_update;
  raw_json = d.raw_json;
  parser_version = d.parser_version;
  detail_fetched_at = some fetched_at;
  enrichment_status = some EnrichmentStatus.done;
}

unfoldable pub unenriched : Lot → Lot
unenriched lot = record lot { enrichment_status = some EnrichmentStatus.failed }

-- _enrich_one
unfoldable pub enrich_one : Answer → Instant → Lot → Option Lot
enrich_one (detail d) fetched_at lot = some (enriched d fetched_at lot)
enrich_one (refused e) fetched_at lot =
    if is_version_mismatch e.kind then none else some (unenriched lot)

-- The site's answers for the lots of one call, and their times.
pub record Site : Type 0 where
  pub answer : ℕ → Answer
  pub fetched_at : ℕ → Instant

-- The first exception leaves the collection.
abbrev pub in_front : Option Lot → Option (List Lot) → Option (List Lot)
in_front none rest = none
in_front (some lot) none = none
in_front (some lot) (some lots) = some (lot ∷ lots)

-- `[future.result() for future in futures]` from a position on.
unfoldable pub collect : Site → ℕ → List Lot → Option (List Lot)
collect site i [] = some []
collect site i (lot ∷ lots) =
    in_front (enrich_one (site.answer i) (site.fetched_at i) lot) (collect site (i + 1) lots)

unfoldable pub enrich_lots : Site → List Lot → Option (List Lot)
enrich_lots site lots = collect site 0 lots
