-- ===== src/Backfill/Region.antt =====
-- `_process_region` and `_run` of src/fis_monitor/services/backfill.py.
use gektar_monitor.Prelude.{
  ℕ, zero, suc, ◌+◌, ◌-◌, ◌*◌, Bool, true, false, not, ◌&&◌, Option, none, some, List, [], ◌∷◌,
  ◌++◌, ltb, if◌then◌else◌,
}
use gektar_monitor.Domain.{Instant, day_length, Lot, lot_to_public_dto, ErrorCategory, network}
use gektar_monitor.Domain.Regions.{subject_id_by_title}
use gektar_monitor.Domain.Parsed.{ParsedListRow, parsed_row_to_lot}
use gektar_monitor.Diff.{default_tracked_fields}
use gektar_monitor.Lots.{Database, Result, ok, raise, UpsertResult, upsert}
use gektar_monitor.Fetcher.{
  Error, session_expired, upstream_error, parse_bug, other_error, Arguments, Ending, returned,
  raised, Next, stop, go, on_response, page_limit, totals_of,
}
use gektar_monitor.Cycle.Scheduler.{
  mark_region_in_backfill, clear_region_in_backfill, request_run_now,
}
use gektar_monitor.Backfill.{Env, Event, lot_new, cycle_error, World, publish, observed}

-- The arguments that `_process_region` gives to the fetcher.
abbrev pub max_pages : ℕ
max_pages = 5

abbrev pub five_pages : Arguments
five_pages = record {
  max_pages = some max_pages;
  page_start = 1;
  raise_on_network_error = true;
  raise_on_parse_error = true;
}

abbrev pub window : ℕ
window = 30 * day_length

-- What follows the `upsert` of a lot: an exception skips the lot.
unfoldable pub on_upserted : Env → Lot → Result (UpsertResult × Database) → World → World
on_upserted env lot (raise e) w = w
on_upserted env lot (ok answer) w =
    let stored = record w { db = answer.1 } in
    if answer.0.was_new && not (env.stopped w.tick)
    then publish (lot_new (lot_to_public_dto lot)) (observed stored)
    else observed stored

-- A row within the window: a row that makes no lot is skipped.
unfoldable pub store_row : Env → ParsedListRow → World → World
store_row env row w =
    let now = env.now w.tick in
    let lot = parsed_row_to_lot row now (subject_id_by_title row.region) in
    let w1 = observed w in
    if env.converts row
    then on_upserted env lot (upsert lot default_tracked_fields true (env.now w1.tick) w.db)
        (observed w1)
    else w1

-- The loop over the rows of a page, and whether it was left: by a stop, or at the first row that is
-- older than the window.
pub data Consumed : Type 0 where
  ran_out : World → Consumed
  broke : (date_stopped : Bool) → World → Consumed

unfoldable pub consume : Env → Instant → List ℕ → World → Consumed
consume env cutoff [] w = ran_out w
consume env cutoff (i ∷ is) w =
    let rest = consume env cutoff is (store_row env (env.row i) (observed w)) in
    if env.stopped w.tick
    then broke false w
    else if ltb (env.row i).date_create cutoff
    then broke true w
    else rest

-- `_on_total`: the first total counts.
abbrev pub on_totals : Option ℕ → List ℕ → Option ℕ
on_totals (some t) ts = some t
on_totals none [] = none
on_totals none (t ∷ ts) = some t

-- `_on_page`
abbrev pub on_page : Env → ℕ → World → World
on_page env n w = record (observed w) {
  progress = record w.progress { current_page = some n; updated_at = some (env.now w.tick) };
}

abbrev pub on_pages : Env → List (ℕ × ℕ) → World → World
on_pages env [] w = w
on_pages env (p ∷ ps) w = on_page env p.0 w

-- How the loop ended: with the first total, and whether the window ended it.
pub data Region : Type 0 where
  finished : (date_stopped : Bool) (total_seen : Option ℕ) → World → Region
  aborted : Error → World → Region

abbrev pub ended_by : Option ℕ → Ending → World → Region
ended_by total returned w = finished false total w
ended_by total (raised e) w = aborted e w

-- Behind the last page of the fetcher.
abbrev pub on_last : Option ℕ → Ending → Consumed → Region
on_last total ending (ran_out w) = ended_by total ending w
on_last total ending (broke date_stopped w) = finished date_stopped total w

-- Behind a page that is not the last one.
abbrev pub on_more : Option ℕ → Consumed → (World → Option Region) → Option Region
on_more total (ran_out w) go_on = go_on w
on_more total (broke date_stopped w) go_on = some (finished date_stopped total w)

unfoldable pub on_next :
    Env → Instant → ℕ → Option ℕ → Next → World → (Option ℕ → World → Option Region) → Option Region
on_next env cutoff n total (stop walk) w go_on = some (
    on_last (on_totals total walk.totals) walk.ending
      (consume env cutoff walk.rows (on_pages env walk.pages w)))
on_next env cutoff n total (go p) w go_on =
    let first = on_totals total (totals_of p.total_count) in
    on_more first (consume env cutoff p.rows (on_page env n w)) (go_on first)

-- The pages from `n` on, after `walked` pages and `k` observations of the fetcher; `none` means that
-- the fuel ran out.
unfoldable pub process_pages : Env → Instant → ℕ → ℕ → ℕ → ℕ → Option ℕ → World → Option Region
process_pages env cutoff zero n walked k total w = none
process_pages env cutoff (suc fuel) n walked k total w =
    if env.halted k
    then some (finished false total w)
    else if ltb page_limit n
    then some (finished false total w)
    else on_next env cutoff n total
        (on_response five_pages n walked (env.halted (k + 1)) (env.get n))
        (record w { requested = w.requested ++ n ∷ [] })
        (λ first v. process_pages env cutoff fuel (n + 1) (walked + 1) (k + 2) first v)

-- The handlers of `_process_region`; each passes the exception on.
abbrev pub on_aborted : Env → Region → Region
on_aborted env (finished d total w) = finished d total w
on_aborted env (aborted session_expired w) =
    aborted session_expired (publish (Event.session_expired (env.now w.tick)) (observed w))
on_aborted env (aborted parse_bug w) = aborted parse_bug w
on_aborted env (aborted upstream_error w) =
    aborted upstream_error (publish (cycle_error (env.now w.tick) network) (observed w))
on_aborted env (aborted other_error w) =
    aborted other_error (publish (cycle_error (env.now w.tick) network) (observed w))

abbrev pub handled : Env → Option Region → Option Region
handled env none = none
handled env (some r) = some (on_aborted env r)

-- One page more than the cap on the pages.
unfoldable pub process_region : Env → ℕ → Instant → World → Option Region
process_region env region cutoff w = handled env (
    process_pages env cutoff (max_pages + 1) 1 0 0 none (record w {
      progress = record w.progress { current_region = some region; current_page = none };
    }))

-- `(errored, total_seen)` behind the handlers of `_run` and its `finally`.
abbrev pub Swept : Type 0
Swept = (Bool × Option ℕ) × World

abbrev pub no_region : World → World
no_region w = record w {
  progress = record w.progress { current_region = none; current_page = none };
}

abbrev pub swept : Env → ℕ → Region → Swept
swept env region (finished d total w) = (
  (false, total),
  no_region
      (record w { regions_in_backfill = clear_region_in_backfill region w.regions_in_backfill }),
)
swept env region (aborted e w) =
    let reported : World = elim e [
      | session_expired ↦ w
      | parse_bug ↦ publish (cycle_error (env.now w.tick) ErrorCategory.parse_bug) (observed w)
      | upstream_error ↦ w
      | other_error ↦ w
    ] in
    (
      (true, none),
      no_region (record reported {
        regions_in_backfill = clear_region_in_backfill region reported.regions_in_backfill;
      }),
    )

-- What is written when nothing went wrong.
unfoldable pub persist_done : Env → Option ℕ → World → World
persist_done env total w = record (observed w) {
  progress = record w.progress { is_done = true; updated_at = some (env.now w.tick) };
  done_flag = true;
  total_last = elim total [ none ↦ w.total_last | some t ↦ some t ];
  queued = request_run_now w.queued;
}

unfoldable pub conclude : Env → Swept → World
conclude env ((errored, total), w) =
    let done = persist_done env total w in
    record (if not env.cancelled && not errored then done else w) { stop_set = true }

abbrev pub first_region : List ℕ → ℕ
first_region [] = 1
first_region (region ∷ _) = region

abbrev pub begun : Env → World → World
begun env w = record (observed (observed w)) {
  progress = record {
    is_active = true;
    current_region = none;
    current_page = none;
    regions_total = 1;
    started_at = some (env.now w.tick);
    updated_at = some (env.now w.tick);
    is_done = false;
  };
}

abbrev pub concluded : Env → ℕ → Option Region → Option World
concluded env region none = none
concluded env region (some r) = some (conclude env (swept env region r))

-- A run that finds itself stopped before it begins touches no region.
abbrev pub unless_stopped : Bool → World → Option World → Option World
unless_stopped true untouched swept_up = some untouched
unless_stopped false untouched swept_up = swept_up

-- _run
unfoldable pub run : Env → List ℕ → World → Option World
run env regions w =
    let region = first_region regions in
    let cutoff = env.now (w.tick + 1) - window in
    let start = begun env w in
    let marked = record start {
      regions_in_backfill = mark_region_in_backfill region start.regions_in_backfill;
    } in
    unless_stopped env.stopped_before (conclude env ((false, none), start))
      (concluded env region (process_region env region cutoff marked))
