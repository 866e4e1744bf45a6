-- ===== src/Cycle.antt =====
-- `MonitorCycleService` of src/fis_monitor/services/monitor_cycle.py: one pass over the newest lots
-- of a region, on the repositories of Lots.antt and Cycles.antt, with the enrichment of
-- Enrichment.antt and the producer side of Dispatcher.antt. The clock and the settings are functions
-- of the number of readings made so far, which `World.tick` counts. The events are logged in the
-- order in which they are handed to the bus, which takes them without raising.
pub mod Run
pub mod Pending
pub mod Closing
pub mod Once
pub mod Newcomers
pub mod Success
pub mod Ids
pub mod SameStore
pub mod Repeats
pub mod Broken
pub mod Scheduler
use gektar_monitor.Prelude.{
  ℕ, ◌+◌, ◌-◌, ◌/◌, String, codes, decimal, Bool, true, false, Option, none, some, List, [], ◌∷◌,
  ◌++◌, ◌==◌, leb, ltb, length, if◌then◌else◌,
}
use gektar_monitor.Domain.{Instant, Lot, ErrorCategory, internal_error, lot_to_public_dto}
use gektar_monitor.Domain.Regions.{subject_id_by_title}
use gektar_monitor.Domain.Parsed.{ParsedListRow, ParsedListPage, parsed_row_to_lot}
use gektar_monitor.Domain.Failures.{
  Text, other, Failure, safe_error_str, upstream_to_error_category,
}
use gektar_monitor.Diff.{
  TrackedField, status, area_sqm, date_update, auction, is_active, list_presence, unknown, Value,
  FieldChange, default_tracked_fields,
}
use gektar_monitor.Lots.{Database, ok, raise, UpsertResult, upsert}
use gektar_monitor.Lots.Queries.{count_active, latest_new_first_seen}
use gektar_monitor.Lots.{Error as LotError}
use gektar_monitor.Cycles.{CycleStatus, CycleResult, Cycles, open_cycle, close_cycle}
use gektar_monitor.Enrichment.{Site, enrich_lots}
use gektar_monitor.Dispatcher.{Options, World as DispatcherWorld, dispatch}

-- What a cycle reads of the settings; `local_hhmm` is `none` if the time zone does not exist.
pub record Settings : Type 0 where
  pub interval_minutes : ℕ
  pub regions : List ℕ
  pub local_hhmm : Option (Instant → String)

-- `list_parser.parse(response.text)`
pub data Parsed : Type 0 where
  parsed : ParsedListPage → Parsed
  refused : Failure → Parsed

-- `http.get(url)`: the status, and what the parser makes of the text; or the exception.
pub data Fetched : Type 0 where
  response : ℕ → Parsed → Fetched
  failed : Failure → Fetched

-- `maybe_start` is there if the service has both a backfill and a stop event; its arguments are
-- the region, the total of the site, the count of the database and the rows of the page.
-- `converts` tells the rows of which a `Lot` is made without a ValidationError, and `describe` gives
-- the class and the text of what the repository raises.
pub record Env : Type 0 where
  pub now : ℕ → Instant
  pub settings : ℕ → Option Settings
  pub get : ℕ → Fetched
  pub enrichment : Site
  pub maybe_start : Option (ℕ → ℕ → ℕ → ℕ → Bool)
  pub converts : ParsedListRow → Bool
  pub describe : LotError → Text × Text
  pub dispatcher : Options

pub data MonitorState : Type 0 where
  active error checking awaiting_backfill : MonitorState

-- What `cycle.done` says of the result.
pub record Summary : Type 0 where
  pub cycle_id : ℕ
  pub status : CycleStatus
  pub lots_fetched : ℕ
  pub new_lots : ℕ

abbrev pub summary_of : CycleResult → Summary
summary_of result = record {
  cycle_id = result.id;
  status = result.status;
  lots_fetched = result.lots_fetched;
  new_lots = result.new_lots;
}

-- The events that the service publishes. The header's text on the last new lot is made of the
-- time in `last_new`, and `new_status` is the value whose text is published.
pub data Event : Type 0 where
  cycle_started : (timestamp : Instant) (cycle_id : ℕ) → Event
  cycle_error : (timestamp : Instant) (cycle_id : ℕ) (category : ErrorCategory) → Event
  session_expired : (timestamp : Instant) → Event
  lot_status : (lot_id : ℕ) (new_status : Value) → Event
  cycle_done :
      (timestamp : Instant) (summary : Summary) (duration_ms : ℕ) (finished_at_hhmm : String)
      → Event
  monitor_status :
      (timestamp : Instant) (state : MonitorState) (interval_minutes : ℕ)
      (last_new : Option Instant)
      → Event

pub data BusCall : Type 0 where
  publishes : Event → BusCall
  evicts_normal_replay : String → BusCall

-- 'skip_none', 'skip' and 'trigger'
pub data Decision : Type 0 where
  skip_none skip trigger : Decision

pub record DeltaCheck : Type 0 where
  pub region : ℕ
  pub site_total : ℕ
  pub db_count : ℕ
  pub len_parsed_hint : ℕ

pub record World : Type 0 where
  pub db : Database
  pub cycles : Cycles
  pub bus : List BusCall
  pub dispatcher : DispatcherWorld
  pub parse_misses : ℕ → ℕ
  pub last_delta_decision : ℕ → Option Decision
  pub delta_checks : List DeltaCheck
  pub in_progress : Bool
  pub terminal_status_published : Bool
  pub tick : ℕ

-- A method returns a result, or raises.
pub data Ended : Type 0 where
  returned : CycleResult → World → Ended
  raised : Failure → World → Ended

abbrev pub world_of : Ended → World
world_of (returned r w) = w
world_of (raised e w) = w

-- A dictionary with one key written.
abbrev pub written {ℓ} : {A : Type ℓ} → ℕ → A → (ℕ → A) → ℕ → A
written key value f k = if k == key then value else f k

abbrev pub observed : World → World
observed w = record w { tick = w.tick + 1 }

abbrev pub publish : Event → World → World
publish e w = record w { bus = w.bus ++ publishes e ∷ [] }

abbrev pub zone_fields :
    Settings → Option Instant → Option (Instant → String) → Option (ℕ × Option Instant)
zone_fields s last none = none
zone_fields s last (some zone) = some (s.interval_minutes, last)

-- _build_status_fields; `none` if the settings or the zone raise.
unfoldable pub build_status_fields : Env → World → Option (ℕ × Option Instant)
build_status_fields env w = elim (env.settings w.tick) [
  | none ↦ none
  | some s ↦ zone_fields s (latest_new_first_seen w.db) s.local_hhmm
]

-- The replay of the checking status is evicted at once.
abbrev pub announce_checking : Instant → World → Option (ℕ × Option Instant) → World
announce_checking now w none = w
announce_checking now w (some fields) =
    let sent = publish (monitor_status now checking fields.0 fields.1) w in
    record sent { bus = sent.bus ++ evicts_normal_replay "status" ∷ [] }

unfoldable pub publish_checking_status : Env → World → World
publish_checking_status env w =
    let w1 = observed w in
    announce_checking (env.now w1.tick) (observed w1) (build_status_fields env w)

abbrev pub state_of : CycleStatus → MonitorState
state_of CycleStatus.error = error
state_of CycleStatus.still_open = active
state_of CycleStatus.ok = active
state_of CycleStatus.aborted = active

abbrev pub announce_status : Instant → CycleResult → World → Option (ℕ × Option Instant) → World
announce_status now result w none = w
announce_status now result w (some fields) =
    record (publish (monitor_status now (state_of result.status) fields.0 fields.1) w) {
      terminal_status_published = true;
    }

unfoldable pub publish_status : Env → CycleResult → World → World
publish_status env result w =
    let w1 = observed w in
    announce_status (env.now w1.tick) result (observed w1) (build_status_fields env w)

abbrev pub hhmm_of : Instant → Option Settings → String
hhmm_of now none = ""
hhmm_of now (some s) = elim s.local_hhmm [ none ↦ "" | some zone ↦ zone now ]

-- A negative duration becomes 0, as does a difference of natural numbers.
abbrev pub duration_ms : CycleResult → ℕ
duration_ms result = (result.finished_at - result.started_at) / 1000

unfoldable pub publish_cycle_done : Env → CycleResult → World → World
publish_cycle_done env result w =
    let now = env.now w.tick in
    let hhmm = hhmm_of now (env.settings w.tick) in
    publish_status env result
      (publish (cycle_done now (summary_of result) (duration_ms result) hhmm) (observed w))

-- The cycle that runs, as its row was opened.
pub record Running : Type 0 where
  pub id : ℕ
  pub region : ℕ
  pub started_at : Instant

abbrev pub result_of : Running → Instant → CycleStatus → ℕ → ℕ → Option Text → CycleResult
result_of c finished_at state lots_fetched new_lots problem = record {
  id = c.id;
  region = c.region;
  started_at = c.started_at;
  finished_at = finished_at;
  status = state;
  lots_fetched = lots_fetched;
  new_lots = new_lots;
  error = problem;
}

-- `RuntimeError(f"cycle not found: id={cycle_id}")`
abbrev pub cycle_not_found : ℕ → Failure
cycle_not_found n = record {
  kind = other;
  type_name = codes "RuntimeError";
  message = codes "cycle not found: id=" ++ decimal n;
}

-- The end of every cycle that closes its row.
unfoldable pub close_and_announce : Env → CycleResult → World → Ended
close_and_announce env result w = elim (close_cycle result.id result w.cycles) [
  | none ↦ raised (cycle_not_found result.id) w
  | some cycles ↦ returned result (publish_cycle_done env result (record w { cycles = cycles }))
]

-- What the three helpers share.
unfoldable pub close_with_error : ErrorCategory → Env → Running → Failure → World → Ended
close_with_error category env c e w =
    let w1 = publish (cycle_error (env.now w.tick) c.id category) (observed w) in
    close_and_announce env
      (result_of c (env.now w1.tick) CycleStatus.error 0 0 (some (safe_error_str e))) (observed w1)

abbrev pub close_with_upstream_error : String → Env → Running → Failure → World → Ended
close_with_upstream_error category = close_with_error (upstream_to_error_category category)

abbrev pub close_with_parse_bug : Env → Running → Failure → World → Ended
close_with_parse_bug = close_with_error ErrorCategory.parse_bug

abbrev pub close_with_unexpected_error : Env → Running → Failure → World → Ended
close_with_unexpected_error = close_with_error internal_error

-- The branch of an expired session.
unfoldable pub close_expired : Env → Running → World → Ended
close_expired env c w =
    let w1 = publish (session_expired (env.now w.tick)) (observed w) in
    close_and_announce env
      (result_of c (env.now w1.tick) CycleStatus.error 0 0 (some (codes "session_expired")))
      (observed w1)
