-- ===== src/FullScan.antt =====
-- `FullScanService.run_once` of src/fis_monitor/services/full_scan.py, on the walk of Fetcher.antt
-- and the repository of Lots.antt. The configuration, the clock, the HTTP client with the parser,
-- and the stop event are the surroundings. Sets of ids are lists with the ids in the order of
-- their first sight; only whether an id is in them is asked. The times of log records are left
-- out, and so is the scheduler (`run_forever`).
pub mod Laws
pub mod Batches
pub mod Effects
use gektar_monitor.Prelude.{
  ℕ, zero, suc, ◌+◌, String, Bool, true, false, not, map, Option, none, some, List, [], ◌∷◌,
  if◌then◌else◌, select, contains, length,
}
use gektar_monitor.Domain.{Instant, LotData, Lot}
use gektar_monitor.Lots.{Database, Error, Result, ok, raise, mark_seen, mark_inactive}
use gektar_monitor.Lots.Queries.{list_active}
use gektar_monitor.Fetcher.{
  Page, page, refused, session_expired, upstream_error, parse_bug, other_error, Parsed, Response,
  response, failed, Site, Arguments, Walk, Ending, returned, raised, iterate,
}

-- `regions` are the configured ones; `pages` answers the requests of the paginated fetcher, if one
-- was given, and `list_page` the request of the single-page fetch.
pub record Env : Type 0 where
  pub regions : List ℕ
  pub pages : Option (ℕ → ℕ → Response)
  pub list_page : ℕ → Response
  pub batch_size : ℕ
  pub fetch_stopped : ℕ → Bool
  pub stopped : ℕ → Bool
  pub now : Instant

-- `(ids, pagination_completed)`, or `SessionExpiredError` behind a published `SseSessionExpired`.
pub data Fetched : Type 0 where
  fetched : List ℕ → Bool → Fetched
  expired : Fetched

-- The arguments that `_fetch_region_ids_paginated` leaves at their defaults.
abbrev pub full_walk : Arguments
full_walk = record {
  max_pages = none;
  page_start = 1;
  raise_on_network_error = false;
  raise_on_parse_error = false;
}

abbrev pub collected : List ℕ → Ending → Fetched
collected ids returned = fetched ids true
collected ids (raised session_expired) = expired
collected ids (raised upstream_error) = fetched ids false
collected ids (raised parse_bug) = fetched ids false
collected ids (raised other_error) = fetched ids false

abbrev pub ids_of_walk : Option Walk → Option Fetched
ids_of_walk none = none
ids_of_walk (some w) = some (collected w.rows w.ending)

unfoldable pub fetch_region_ids_paginated : (ℕ → Response) → (ℕ → Bool) → Option Fetched
fetch_region_ids_paginated answers stopped =
    ids_of_walk (iterate full_walk (record { get = answers; stopped = stopped }))

abbrev pub ids_of_parsed : Parsed → Fetched
ids_of_parsed (page p) = fetched p.rows true
ids_of_parsed (refused session_expired) = expired
ids_of_parsed (refused upstream_error) = fetched [] true
ids_of_parsed (refused parse_bug) = fetched [] true
ids_of_parsed (refused other_error) = fetched [] true

-- The flag is the `True` of `_fetch_region_ids`.
unfoldable pub fetch_region_ids_single_page : Response → Fetched
fetch_region_ids_single_page (failed e) = fetched [] true
fetch_region_ids_single_page (response status parsed) = ids_of_parsed parsed

abbrev pub fetch_by : Env → ℕ → Option (ℕ → ℕ → Response) → Option Fetched
fetch_by env region none = some (fetch_region_ids_single_page (env.list_page region))
fetch_by env region (some pages) = fetch_region_ids_paginated (pages region) env.fetch_stopped

unfoldable pub fetch_region_ids : Env → ℕ → Option Fetched
fetch_region_ids env region = fetch_by env region env.pages

-- `for lot_id in missing_in_batch`
unfoldable pub mark_missing : List ℕ → Instant → Database → Database
mark_missing [] now db = db
mark_missing (n ∷ ns) now db = mark_missing ns now (mark_inactive n "full_scan_missing" now db)

abbrev pub ids : List Lot → List ℕ
ids = map (λ (l : Lot). l.id)

-- What is written for one batch.
unfoldable pub process_batch : List ℕ → Bool → Instant → List Lot → Database → Database
process_batch seen_ids enabled now batch db =
    let seen = select (λ n. contains n seen_ids) (ids batch) in
    let missing = select (λ n. not (contains n seen_ids)) (ids batch) in
    let marked = mark_seen seen now db in
    if enabled then mark_missing missing now marked else marked

-- The tables behind the scan, and the exception that left it, if any. Each call of the repository
-- has committed its own transaction.
pub record Scan : Type 0 where
  pub db : Database
  pub error : Option Error

abbrev pub done : Database → Scan
done db = record { db = db; error = none }

-- The rest of a round, when `list_active` has answered; `go_on` is the loop behind it.
unfoldable pub on_batch :
    List ℕ
    → Bool
    → Instant
    → Bool
    → Result (List Lot)
    → Database
    → (Database → Option Scan)
    → Option Scan
on_batch seen_ids enabled now halted (raise e) db go_on = some (record { db = db; error = some e })
on_batch seen_ids enabled now halted (ok []) db go_on = some (done db)
on_batch seen_ids enabled now halted (ok (l ∷ ls)) db go_on =
    let after = process_batch seen_ids enabled now (l ∷ ls) db in
    let answer = go_on after in if halted then some (done after) else answer

-- `_process_batches` from an offset on, after `tick` observations of the stop event; `none` means
-- that the fuel ran out.
unfoldable pub process_batches : Env → List ℕ → Bool → ℕ → ℕ → ℕ → Database → Option Scan
process_batches env seen_ids enabled zero offset tick db = none
process_batches env seen_ids enabled (suc fuel) offset tick db =
    let answer =
      on_batch seen_ids enabled env.now (env.stopped (tick + 1))
        (list_active env.batch_size offset db) db
        (λ after.
          process_batches env seen_ids enabled fuel (offset + env.batch_size) (tick + 2) after) in
    if env.stopped tick then some (done db) else answer

-- No round is left when the offset has passed all lots.
abbrev pub batch_fuel : Database → ℕ
batch_fuel db = length db.lots + 1

-- Steps 3 and 4 of `run_once`; an empty set of ids ends the scan.
unfoldable pub scan_ids : Env → Database → List ℕ → Bool → Option Scan
scan_ids env db [] completed = some (done db)
scan_ids env db (n ∷ ns) completed = process_batches env (n ∷ ns) completed (batch_fuel db) 0 0 db

unfoldable pub on_fetched : Env → Database → Option Fetched → Option Scan
on_fetched env db none = none
on_fetched env db (some expired) = scan_ids env db [] false
on_fetched env db (some (fetched seen completed)) = scan_ids env db seen completed

-- Only the first region is fetched.
abbrev pub scan_regions : Env → Database → List ℕ → Option Scan
scan_regions env db [] = scan_ids env db [] true
scan_regions env db (region ∷ _) = on_fetched env db (fetch_region_ids env region)

unfoldable pub run_once : Env → Database → Option Scan
run_once env db = scan_regions env db env.regions
