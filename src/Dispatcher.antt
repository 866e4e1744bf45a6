-- ===== src/Dispatcher.antt =====
-- `NotifierDispatcher` of src/fis_monitor/services/notifier_dispatcher.py: its collaborators, its
-- state and the producer side. Whatever the program observes from outside (the clock, the stop
-- event, the answers of a channel, the live settings, the lot table, the stored window of silence)
-- is a function of the number of observations made so far, which `World.tick` counts; so a theorem
-- for every `Env` covers every behaviour of the surroundings.
mod Text
pub mod Delivery
pub mod Consumer
pub mod Ledger
pub mod Keeps
pub mod Bounds
pub mod Final
pub mod Shutdown
pub mod Silence
pub mod Reserved
pub mod Retried
pub mod Totality
use gektar_monitor.Prelude.{
  ℕ, ◌+◌, String, Bool, true, false, ◌&&◌, Option, none, some, List, [], ◌∷◌, ◌++◌, length,
  contains, ltb, leb, if◌then◌else◌,
}
use gektar_monitor.Domain.{
  Instant, Lot, LotPublicDto, ErrorCategory, network, http_4xx, http_5xx, timeout, NotifyResult,
}
use gektar_monitor.Notifications.{Key, Table}
use gektar_monitor.Notifiers.{Notifier, Scope}
use gektar_monitor.Dnd.{StoredStamp}
use Text.{has_text}

-- The constructor's arguments.
pub record Options : Type 0 where
  pub registry : List Notifier
  pub retry_attempts : ℕ
  pub retry_backoff : List ℕ
  pub max_queue_size : ℕ
  pub recovery_age : ℕ

pub record Env : Type 0 where
  pub now : ℕ → Instant
  pub stop : ℕ → Bool
  pub answer : ℕ → NotifyResult
  pub scope : ℕ → Scope
  pub lot_at : ℕ → ℕ → Option Lot
  pub dnd_until : ℕ → Option StoredStamp

-- One call of `notifier.send`, and whether its result was ok.
pub record Call : Type 0 where
  pub key : Key
  pub is_ok : Bool

-- `SseSmtpFailed`
pub record SmtpFailed : Type 0 where
  pub timestamp : Instant
  pub channel_id : String
  pub attempt_no : ℕ
  pub error_category : ErrorCategory

pub record World : Type 0 where
  pub rows : Table
  pub calls : List Call
  pub events : List SmtpFailed
  pub waits : List ℕ
  pub queue : List LotPublicDto
  pub warned : List ℕ
  pub tick : ℕ

-- A method returns, or the thread dies of an exception that nothing catches.
pub data Outcome : Type 0 where
  returned : World → Outcome
  raised : World → Outcome

abbrev pub world_of : Outcome → World
world_of (returned w) = w
world_of (raised w) = w

abbrev pub and_then : Outcome → (World → Outcome) → Outcome
and_then (returned w) f = f w
and_then (raised w) f = raised w

abbrev pub observed : World → World
observed w = record w { tick = w.tick + 1 }

-- _classify_error
unfoldable pub classify_error : NotifyResult → ErrorCategory
classify_error result =
    if result.retryable
    then network
    else if has_text "timeout" result.detail
    then timeout
    else if has_text "5xx" result.detail
    then http_5xx
    else if has_text "server error" result.detail
    then http_5xx
    else http_4xx

-- The lots for which the warning on a missing region was given.
unfoldable pub warn_null_region : LotPublicDto → List ℕ → List ℕ
warn_null_region lot warned = elim lot.region_id [
  | none ↦ if contains lot.id warned then warned else lot.id ∷ warned
  | some _ ↦ warned
]

-- `Queue.put_nowait`: a lot that does not fit is dropped; a capacity of 0 is no limit.
unfoldable pub put_nowait : ℕ → LotPublicDto → List LotPublicDto → List LotPublicDto
put_nowait capacity lot queue =
    if ltb 0 capacity && leb capacity (length queue) then queue else queue ++ lot ∷ []

unfoldable pub dispatch : Options → LotPublicDto → World → World
dispatch d lot w = record w {
  queue = put_nowait d.max_queue_size lot w.queue;
  warned = warn_null_region lot w.warned;
}
