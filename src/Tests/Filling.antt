-- ===== src/Tests/Filling.antt =====
-- The backfill at concrete inputs.
use gektar_monitor.Prelude.{
  arith, ℕ, ◌+◌, ◌*◌, ◌<◌, ◌≡◌, ◌↔◌, refl, true, false, none, some, [], ◌∷◌,
}
use gektar_monitor.Domain.{day_length}
use gektar_monitor.Fetcher.{Response, response, page, refused, other_error}
use gektar_monitor.Backfill.{Env, World}
use gektar_monitor.Backfill.Region.{run}
use gektar_monitor.Backfill.Runs.{Ran, run-Ran, run-swallows}
use gektar_monitor.Backfill.Trigger.{maybe_start, maybe_start_iff}
use gektar_monitor.Tests.Polling.{row, no_lots}

-- Two pages with the lots 7 and 5, of which the second one is older than the window.
abbrev pages : ℕ → Response
pages n = response 200 (page (record { rows = 7 ∷ 5 ∷ []; total_count = some 40 }))

abbrev filling : (ℕ → Response) → Env
filling answers = record {
  now = λ tick. 60 * day_length + tick;
  regions = 1 ∷ [];
  get = answers;
  halted = λ k. false;
  stopped = λ k. false;
  stopped_before = false;
  cancelled = false;
  row = λ i. record (row i) { date_create = i * 8 * day_length };
  converts = λ r. true;
}

abbrev resting : World
resting = record {
  db = no_lots;
  done_flag = false;
  total_last = none;
  events = [];
  progress = record {
    is_active = false;
    current_region = none;
    current_page = none;
    regions_total = 0;
    started_at = none;
    updated_at = none;
    is_done = false;
  };
  is_running = false;
  stop_set = false;
  regions_in_backfill = [];
  queued = 0;
  requested = [];
  tick = 0;
}

run-Ran_example :
    (w' : World) × (run (filling pages) (1 ∷ []) resting ≡ some w')
    × Ran (filling pages) 1 resting w'
run-Ran_example = run-Ran (filling pages) (1 ∷ []) resting

abbrev garbled : ℕ → Response
garbled n = response 200 (refused other_error)

run-swallows_example :
    (w' : World) × (run (filling garbled) (1 ∷ []) resting ≡ some w')
    × (w'.done_flag ≡ true)
    × (w'.db ≡ no_lots)
    × (w'.requested ≡ 1 ∷ [])
run-swallows_example =
    run-swallows (filling garbled) (1 ∷ []) resting
      (record {
        status = 200;
        error = other_error;
        got = refl;
        no_expiry = λ e. absurd (ground (arith, e));
        no_bug = λ e. absurd (ground (arith, e));
        direct = refl;
      })
      refl refl refl

maybe_start_iff_example :
    ((maybe_start (some 30) 5 20 resting).0 ≡ true)
    ↔ ((false ≡ false) × ((total : ℕ) × (some 30 ≡ some total) × (5 + (20 + 3) < total)))
maybe_start_iff_example = maybe_start_iff (some 30) 5 20 resting
