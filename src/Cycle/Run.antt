-- ===== src/Cycle/Run.antt =====
-- `run_cycle` and `_run_cycle_inner` of src/fis_monitor/services/monitor_cycle.py.
use gektar_monitor.Prelude.{
  ℕ, ◌+◌, Bool, true, false, Option, none, some, List, [], ◌∷◌, ◌++◌, leb, ltb, ◌&&◌, length,
  if◌then◌else◌,
}
use gektar_monitor.Domain.{Instant, Lot, lot_to_public_dto}
use gektar_monitor.Domain.Regions.{subject_id_by_title}
use gektar_monitor.Domain.Parsed.{ParsedListRow, ParsedListPage, parsed_row_to_lot}
use gektar_monitor.Domain.Failures.{
  Failure, Kind, upstream, parse_bug, parser_version_mismatch, other, conversion_failure,
}
use gektar_monitor.Diff.{
  TrackedField, status, area_sqm, date_update, auction, is_active, list_presence, unknown, Value,
  FieldChange, default_tracked_fields,
}
use gektar_monitor.Lots.{ok, raise, UpsertResult, upsert}
use gektar_monitor.Lots.Queries.{count_active}
use gektar_monitor.Lots.{Error as LotError}
use gektar_monitor.Cycles.{CycleStatus, open_cycle}
use gektar_monitor.Enrichment.{enrich_lots}
use gektar_monitor.Dispatcher.{dispatch}
use gektar_monitor.Cycle.{
  Env, Parsed, parsed, refused, Fetched, response, failed, cycle_started, lot_status,
  monitor_status, error, skip_none, skip, trigger, World, Ended, returned, raised, written,
  observed, publish, publish_checking_status, Running, result_of, close_and_announce,
  close_with_upstream_error, close_with_parse_bug, close_with_unexpected_error, close_expired,
}

abbrev pub decided : ℕ → Bool → World → World
decided region triggered w = record w {
  last_delta_decision =
      written region (some (if triggered then trigger else skip)) w.last_delta_decision;
}

-- The check against the backfill, if there is one; it counts all active lots.
abbrev pub ask_backfill : ℕ → ℕ → ℕ → World → Option (ℕ → ℕ → ℕ → ℕ → Bool) → World
ask_backfill region total hint w none = w
ask_backfill region total hint w (some maybe_start) =
    let count = count_active [] w.db in
    let asked = record w {
      delta_checks =
          w.delta_checks
          ++ (record {
            region = region;
            site_total = total;
            db_count = count;
            len_parsed_hint = hint;
          })
            ∷ [];
    } in
    decided region (maybe_start region total count hint) asked

-- Step 2c: the delta trigger.
unfoldable pub check_delta : Env → ℕ → ℕ → Option ℕ → World → World
check_delta env region hint none w = record w {
  parse_misses = written region (w.parse_misses region + 1) w.parse_misses;
  last_delta_decision = written region (some skip_none) w.last_delta_decision;
}
check_delta env region hint (some total) w =
    ask_backfill region total hint (record w { parse_misses = written region 0 w.parse_misses })
      env.maybe_start

pub data Converted : Type 0 where
  converted : List Lot → Converted
  rejected : ℕ → Converted

abbrev pub converted_after : Lot → Converted → Converted
converted_after l (converted ls) = converted (l ∷ ls)
converted_after l (rejected index) = rejected index

-- Step 3, from an index on: the first row that is refused ends it.
unfoldable pub convert : (ParsedListRow → Bool) → Instant → ℕ → List ParsedListRow → Converted
convert converts now index [] = converted []
convert converts now index (row ∷ rows) =
    let rest = convert converts now (index + 1) rows in
    if converts row
    then converted_after (parsed_row_to_lot row now (subject_id_by_title row.region)) rest
    else rejected index

-- Step 4: after a `ParserVersionMismatch` the lots stay as they are.
abbrev pub enriched_or : List Lot → Option (List Lot) → List Lot
enriched_or lots none = lots
enriched_or lots (some enriched) = enriched

abbrev pub is_status : TrackedField → Bool
is_status status = true
is_status area_sqm = false
is_status date_update = false
is_status auction = false
is_status is_active = false
is_status list_presence = false
is_status (unknown _) = false

-- The new value of the first change of the status.
unfoldable pub status_change : List FieldChange → Option Value
status_change [] = none
status_change (c ∷ cs) =
    let rest = status_change cs in if is_status c.field then some c.new_value else rest

-- What follows an `upsert` that returned.
unfoldable pub on_upserted : Env → Lot → UpsertResult → World → World
on_upserted env lot result w =
    if result.was_new
    then record w { dispatcher = dispatch env.dispatcher (lot_to_public_dto lot) w.dispatcher }
    else elim (status_change result.changes) [
      | none ↦ w
      | some value ↦ publish (lot_status lot.id value) w
    ]

pub data Stored : Type 0 where
  stored : ℕ → World → Stored
  broken : LotError → World → Stored

-- Step 5, with the number of new lots so far.
unfoldable pub store_lots : Env → List Lot → ℕ → World → Stored
store_lots env [] new_lots w = stored new_lots w
store_lots env (lot ∷ lots) new_lots w =
    elim (upsert lot default_tracked_fields false (env.now w.tick) w.db) [
      | raise e ↦ broken e w
      | ok answer ↦
          store_lots env lots (new_lots + (if answer.0.was_new then 1 else 0))
            (on_upserted env lot answer.0 (record (observed w) { db = answer.1 }))
    ]

abbrev pub repository_failure : Env → LotError → Failure
repository_failure env e = record {
  kind = other;
  type_name = (env.describe e).0;
  message = (env.describe e).1;
}

abbrev pub set_progress : World → World
set_progress w = record w { in_progress = true }

abbrev pub clear_progress : World → World
clear_progress w = record w { in_progress = false }

-- Step 6, or the exception that left step 5.
unfoldable pub on_stored : Env → Running → ℕ → Stored → Ended
on_stored env c lots_fetched (broken e w) = raised (repository_failure env e) w
on_stored env c lots_fetched (stored new_lots w) =
    close_and_announce env (result_of c (env.now w.tick) CycleStatus.ok lots_fetched new_lots none)
      (observed w)

-- Steps 4 to 6.
unfoldable pub on_converted : Env → Running → Converted → World → Ended
on_converted env c (rejected index) w = close_with_parse_bug env c (conversion_failure index) w
on_converted env c (converted lots) w =
    let enriched = enriched_or lots (enrich_lots env.enrichment lots) in
    on_stored env c (length enriched) (store_lots env enriched 0 (clear_progress (set_progress w)))

-- Steps 2c to 6.
unfoldable pub on_page : Env → Running → ParsedListPage → World → Ended
on_page env c page w =
    let w1 = check_delta env c.region (length page.rows) page.total_count w in
    on_converted env c (convert env.converts (env.now w1.tick) 0 page.rows) (observed w1)

-- The handlers around the parser.
unfoldable pub on_parsed : Env → Running → Parsed → World → Ended
on_parsed env c (parsed page) w = on_page env c page w
on_parsed env c (refused e) w = elim e.kind [
  | upstream category ↦ close_with_upstream_error category env c e w
  | Kind.session_expired ↦ close_expired env c w
  | parse_bug ↦ close_with_parse_bug env c e w
  | parser_version_mismatch ↦ raised e w
  | other ↦ raised e w
]

-- The handler around the request, and the check for a redirect.
unfoldable pub on_fetched : Env → Running → Fetched → World → Ended
on_fetched env c (failed e) w = elim e.kind [
  | upstream category ↦ close_with_upstream_error category env c e w
  | Kind.session_expired ↦ raised e w
  | parse_bug ↦ raised e w
  | parser_version_mismatch ↦ raised e w
  | other ↦ raised e w
]
on_fetched env c (response code page) w =
    if leb 300 code && ltb code 400 then close_expired env c w else on_parsed env c page w

unfoldable pub run_cycle_inner : Env → Running → World → Ended
run_cycle_inner env c w =
    on_fetched env c (env.get c.region)
      (clear_progress (set_progress (publish_checking_status env w)))

-- The four classes that `run_cycle` does not close the cycle for.
abbrev pub is_domain_error : Kind → Bool
is_domain_error (upstream _) = true
is_domain_error Kind.session_expired = true
is_domain_error parse_bug = true
is_domain_error parser_version_mismatch = true
is_domain_error other = false

-- The terminal guard.
abbrev pub guard_terminal : Env → World → World
guard_terminal env w =
    if w.terminal_status_published
    then w
    else publish (monitor_status (env.now w.tick) error 0 none) (observed w)

-- The exception goes on behind the closed cycle, unless closing raised one of its own.
abbrev pub raising : Failure → Ended → Ended
raising e (returned result w) = raised e w
raising e (raised problem w) = raised problem w

-- The handlers of `run_cycle`.
unfoldable pub on_ended : Env → Running → Ended → Ended
on_ended env c (returned result w) = returned result w
on_ended env c (raised e w) =
    if is_domain_error e.kind
    then raised e (guard_terminal env w)
    else raising e (close_with_unexpected_error env c e w)

-- The cycle that opens its row at this moment.
abbrev pub running : Env → ℕ → World → Running
running env region w = record {
  id = w.cycles.next_id;
  region = region;
  started_at = env.now w.tick;
}

-- The row is opened and `cycle.started` published.
unfoldable pub opening : Env → ℕ → World → World
opening env region w =
    let (id, cycles) = open_cycle region (env.now w.tick) w.cycles in
    record (publish (cycle_started (env.now w.tick) id) (record (observed w) { cycles = cycles })) {
      terminal_status_published = false;
    }

unfoldable pub run_cycle : Env → ℕ → World → Ended
run_cycle env region w =
    let c = running env region w in on_ended env c (run_cycle_inner env c (opening env region w))
