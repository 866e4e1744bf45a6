-- ===== src/Tests/Polling.antt =====
-- The monitor cycle, its enrichment and its scheduler at concrete inputs.
use gektar_monitor.Prelude.{
  ℕ, ◌+◌, ◌≡◌, refl, codes, Bool, true, false, none, some, [], ◌∷◌, ◌==◌, leb, if◌then◌else◌, arith,
}
use gektar_monitor.Domain.{Lot}
use gektar_monitor.Domain.Failures.{Failure, Kind, upstream}
use gektar_monitor.Domain.Parsed.{ParsedListRow, ParsedListPage, ParsedDetail}
use gektar_monitor.Lots.{
  LotRow, Database, raise, validation_error, columns, get, read_old, row_to_lot, read_reason,
  parse_reason, find_row, find_point,
}
use gektar_monitor.Lots.Total.{Sound, upsert-Succeeds, upsert-Sound}
use gektar_monitor.Enrichment.{
  detail, refused, Site, enrich_lots, enrich_one, enriched, unenriched, collect,
}
use gektar_monitor.Enrichment.Laws.{EnrichesAll, enrich_lots-EnrichesAll}
use gektar_monitor.Dispatcher.{World as DispatcherWorld}
use gektar_monitor.Cycle.{Settings, Env, parsed, response, failed, Fetched, World, raised}
use gektar_monitor.Cycle.Run.{run_cycle}
use gektar_monitor.Cycle.Once.{ClosesOnce, StaysOpen, run_cycle-ClosesOnce, run_cycle-StaysOpen}
use gektar_monitor.Cycle.Success.{Reads, Succeeded, run_cycle-Succeeded}
use gektar_monitor.Cycle.Repeats.{run_cycle-twice}
use gektar_monitor.Cycle.Broken.{run_cycle-broken}
use gektar_monitor.Cycle.Scheduler.{Surroundings, Scheduler, Finished, run_forever}
use gektar_monitor.Cycle.Scheduler.Ends.{run_forever_ends}
use gektar_monitor.Cycle.Scheduler.Gate.{end_of, run_forever_gated}
use gektar_monitor.Tests.Fixtures.{sample_lot, options, degrees}

abbrev pub row : ℕ → ParsedListRow
row n = record {
  id = n;
  cadastral_no = "25:01";
  area_sqm = some 10000;
  region = "Чукотский автономный округ";
  municipality = none;
  land_category = none;
  permitted_use = none;
  ogv = none;
  status = "open";
  date_create = 100;
  date_update = none;
}

abbrev list_page : ParsedListPage
list_page = record { rows = row 7 ∷ row 5 ∷ []; total_count = some 40 }

abbrev first_detail : ParsedDetail
first_detail = record {
  lat = some (degrees 43);
  lon = some (degrees 131);
  has_boundaries = some true;
  date_update = none;
  date_registry = some 90;
  raw_json = "{}";
  parser_version = 2;
}

-- The first detail page is read, the other ones time out.
abbrev details : Site
details = record {
  answer = λ i.
      if i == 0
      then detail first_detail
      else refused (record {
        kind = upstream "timeout";
        type_name = codes "UpstreamError";
        message = codes "timeout";
      });
  fetched_at = λ i. 1000 + i;
}

abbrev settings : Settings
settings = record { interval_minutes = 5; regions = 1 ∷ []; local_hhmm = none }

abbrev answering : Fetched → Env
answering answer = record {
  now = λ tick. tick;
  settings = λ tick. some settings;
  get = λ region. answer;
  enrichment = details;
  maybe_start = some (λ region total count hint. true);
  converts = λ r. true;
  describe = λ e. (codes "ValidationError", codes "1 validation error for Lot");
  dispatcher = options;
}

abbrev env : Env
env = answering (response 200 (parsed list_page))

abbrev pub no_lots : Database
no_lots = record { lots = []; history = []; rtree = []; last_known = [] }

abbrev idle : DispatcherWorld
idle = record { rows = []; calls = []; events = []; waits = []; queue = []; warned = []; tick = 0 }

abbrev with_lots : Database → World
with_lots db = record {
  db = db;
  cycles = record { rows = []; next_id = 1 };
  bus = [];
  dispatcher = idle;
  parse_misses = λ region. 0;
  last_delta_decision = λ region. none;
  delta_checks = [];
  in_progress = false;
  terminal_status_published = false;
  tick = 0;
}

no_lots-Sound : Sound no_lots
unfolding find_row find_point get read_old
no_lots-Sound = record { synced = λ m. refl; readable = λ m. (none, refl) }

reads : Reads env 1 list_page
reads = record { code = 200; got = refl; direct = refl; makes_lots = (refl, (refl, tt)) }

run_cycle-ClosesOnce_example :
    ClosesOnce env 1 (with_lots no_lots) (run_cycle env 1 (with_lots no_lots))
run_cycle-ClosesOnce_example = run_cycle-ClosesOnce env 1 (with_lots no_lots) tt refl

run_cycle-Succeeded_example : Succeeded env 1 list_page.rows (with_lots no_lots)
run_cycle-Succeeded_example =
    run_cycle-Succeeded env 1 (with_lots no_lots) list_page tt no_lots-Sound reads

run_cycle-twice_example :
    (s : Succeeded env 1 list_page.rows (with_lots no_lots)) × (t : Succeeded env 1 list_page.rows
      s.after)
    × (t.result.new_lots ≡ 0)
    × (t.after.dispatcher ≡ s.after.dispatcher)
run_cycle-twice_example =
    run_cycle-twice env env 1 (with_lots no_lots) list_page list_page tt no_lots-Sound reads reads
      refl

abbrev expired : Failure
expired = record {
  kind = Kind.session_expired;
  type_name = codes "SessionExpiredError";
  message = codes "login page";
}

run_cycle-StaysOpen_example :
    StaysOpen
      (answering (failed expired))
      1
      (with_lots no_lots)
      (run_cycle (answering (failed expired)) 1 (with_lots no_lots))
run_cycle-StaysOpen_example =
    run_cycle-StaysOpen (answering (failed expired)) 1 (with_lots no_lots) refl

-- Lot 5 as the full scan leaves a lot that it misses.
abbrev gone : LotRow
gone = record {
  lot = record (columns (record sample_lot { id = 5 })) {
    is_active = false;
    inactive_reason = some "full_scan_missing";
  };
  is_backfill = false;
  enrichment_retries = 0;
}

abbrev one_gone : Database
one_gone = record no_lots { lots = gone ∷ [] }

gone_unreadable : get 5 one_gone ≡ raise validation_error
unfolding get find_row read_old row_to_lot read_reason parse_reason columns
gone_unreadable = refl

run_cycle-broken_example :
    (e : Failure) × (w' : World) × (run_cycle env 1 (with_lots one_gone) ≡ raised e w')
    × ClosesOnce env 1 (with_lots one_gone) (raised e w')
    × (get 5 w'.db ≡ raise validation_error)
run_cycle-broken_example =
    run_cycle-broken env 1 (with_lots one_gone) list_page 5 validation_error tt reads refl
      gone_unreadable

upsert-Sound_example : Sound (upsert-Succeeds sample_lot 9 no_lots no_lots-Sound).1
upsert-Sound_example =
    upsert-Sound sample_lot 9 no_lots (upsert-Succeeds sample_lot 9 no_lots no_lots-Sound).0
      (upsert-Succeeds sample_lot 9 no_lots no_lots-Sound).1 no_lots-Sound
      (upsert-Succeeds sample_lot 9 no_lots no_lots-Sound).2

abbrev lot_9 : Lot
lot_9 = record sample_lot { id = 9 }

both_collected :
    enrich_lots details (sample_lot ∷ lot_9 ∷ [])
    ≡ some (enriched first_detail 1000 sample_lot ∷ unenriched lot_9 ∷ [])
unfolding enrich_lots collect enrich_one
both_collected = refl

enrich_lots-EnrichesAll_example :
    EnrichesAll details 0
      (sample_lot ∷ lot_9 ∷ [])
      (enriched first_detail 1000 sample_lot ∷ unenriched lot_9 ∷ [])
enrich_lots-EnrichesAll_example =
    enrich_lots-EnrichesAll details (sample_lot ∷ lot_9 ∷ [])
      (enriched first_detail 1000 sample_lot ∷ unenriched lot_9 ∷ []) both_collected

-- The stop event is set from the sixth observation on; a request comes at each.
abbrev threads : Bool → Surroundings
threads complete = record {
  cycle = λ k. env;
  stopped = λ k. leb 6 k;
  monotonic = λ k. k;
  requests = λ k. 1;
  settings = λ k. some settings;
  backfill_done = λ k. complete;
  regions_in_backfill = λ k. [];
  now = λ k. k;
}

abbrev scheduler : Scheduler
scheduler = record { world = with_lots no_lots; awaiting_published = false; queued = 0; tick = 0 }

run_forever_ends_example : (f : Finished) × (run_forever (threads true) 7 scheduler ≡ some f)
run_forever_ends_example =
    run_forever_ends (threads true) 6 7 scheduler (λ k le. ground arith) (omega arith)

run_forever_gated_example :
    (f : Finished) × (run_forever (threads false) 7 scheduler ≡ some f)
    × ((end_of f).world.db ≡ no_lots)
    × ((end_of f).world.cycles ≡ record { rows = []; next_id = 1 })
    × ((end_of f).world.dispatcher ≡ idle)
run_forever_gated_example =
    run_forever_gated (threads false) 6 7 scheduler (λ k le. ground arith) (omega arith) (λ k. refl)
