-- ===== src/Backfill.antt =====
-- `BackfillService` of src/fis_monitor/services/backfill.py, on the pages of Fetcher.antt and the
-- repository of Lots.antt. The generator of the fetcher runs as far as the loop of the service asks
-- for rows, so the loop here takes the pages from `on_response` one by one. The two events that stop
-- a run are seen through the observations of `Env`; the thread that a start creates is its run.
pub mod Region
pub mod Bounds
pub mod Window
pub mod Runs
pub mod Trigger
use gektar_monitor.Prelude.{ℕ, ◌+◌, Bool, Option, List, ◌∷◌, [], ◌++◌}
use gektar_monitor.Domain.{Instant, LotPublicDto, ErrorCategory}
use gektar_monitor.Domain.Parsed.{ParsedListRow}
use gektar_monitor.Lots.{Database}
use gektar_monitor.Fetcher.{Response}

-- What a run finds. `halted` is what the fetcher sees of the stop event, `stopped` what the loop
-- over the rows sees, and `stopped_before` and `cancelled` what `_run` sees before and behind the
-- region. `row` gives the rows that the fetcher passes on by their numbers, and `converts` the rows
-- of which a `Lot` is made without an exception.
pub record Env : Type 0 where
  pub now : ℕ → Instant
  pub regions : List ℕ
  pub get : ℕ → Response
  pub halted : ℕ → Bool
  pub stopped : ℕ → Bool
  pub stopped_before : Bool
  pub cancelled : Bool
  pub row : ℕ → ParsedListRow
  pub converts : ParsedListRow → Bool

pub data Event : Type 0 where
  lot_new : LotPublicDto → Event
  cycle_error : (timestamp : Instant) (category : ErrorCategory) → Event
  session_expired : (timestamp : Instant) → Event

-- `_Progress`
pub record Progress : Type 0 where
  pub is_active : Bool
  pub current_region : Option ℕ
  pub current_page : Option ℕ
  pub regions_total : ℕ
  pub started_at : Option Instant
  pub updated_at : Option Instant
  pub is_done : Bool

-- `done_flag` and `total_last` are the two keys of the state table; `requested` are the pages that
-- were asked for, and `queued` the sentinels of the monitor cycle's trigger queue.
pub record World : Type 0 where
  pub db : Database
  pub done_flag : Bool
  pub total_last : Option ℕ
  pub events : List Event
  pub progress : Progress
  pub is_running : Bool
  pub stop_set : Bool
  pub regions_in_backfill : List ℕ
  pub queued : ℕ
  pub requested : List ℕ
  pub tick : ℕ

abbrev pub publish : Event → World → World
publish e w = record w { events = w.events ++ e ∷ [] }

abbrev pub observed : World → World
observed w = record w { tick = w.tick + 1 }
