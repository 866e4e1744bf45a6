-- ===== src/Backfill/Runs.antt =====
-- `_run` of the backfill as a whole.
use gektar_monitor.Prelude.{
  ℕ, ◌+◌, ◌-◌, ◌≤◌, ◌≡◌, ◌≢◌, refl, ap, subst, ◌∙◌, Bool, true, false, not, ◌&&◌, Option, none,
  some, List, [], ◌∷◌, ◌++◌, length, contains, if◌then◌else◌, arith, Bool-cases, inl, inr,
}
use gektar_monitor.Domain.{Instant}
use gektar_monitor.Lots.{find_row}
use gektar_monitor.Fetcher
use gektar_monitor.Fetcher.{
  session_expired, parse_bug, upstream_error, other_error, refused, response, stop, stopping,
  Ending, is_redirect, on_response, on_parsed, parse_failure,
}
use gektar_monitor.Cycle.Scheduler.{mark_region_in_backfill, clear_region_in_backfill}
use gektar_monitor.Backfill.{Env, World}
use gektar_monitor.Backfill.Region.{
  window, Region, finished, aborted, process_pages, on_next, consume, process_region, Swept, swept,
  persist_done, conclude, first_region, begun, run, concluded, unless_stopped, five_pages,
}
use gektar_monitor.Backfill.Bounds.{world_of, process_region-bounded}
use gektar_monitor.Backfill.Window.{IsOld, Keeps, process_region-Keeps}

unless_stopped-true :
    (b : Bool) (x : World) (y : Option World) → b ≡ true → unless_stopped b x y ≡ some x
unless_stopped-true b x y e = ap (λ c. unless_stopped c x y) e

unless_stopped-false :
    (b : Bool) (x : World) (y : Option World) → b ≡ false → unless_stopped b x y ≡ y
unless_stopped-false b x y e = ap (λ c. unless_stopped c x y) e

clear_lem :
    (region : ℕ) (set : List ℕ) → contains region (clear_region_in_backfill region set) ≡ false
unfolding clear_region_in_backfill
clear_lem region [] = refl
clear_lem region (r ∷ rs) = ground (arith, clear_lem region rs)

-- What a run for the regions leaves.
pub record Ran (env : Env) (region : ℕ) (w w' : World) : Type 0 where
  pub bounded : length w'.requested ≤ length w.requested + 5
  pub stopped : w'.stop_set ≡ true
  pub unmarked :
      contains region w.regions_in_backfill ≡ false → contains region w'.regions_in_backfill ≡ false
  pub window_kept :
      (m : ℕ)
      → IsOld env (env.now (w.tick + 1) - window) m
      → find_row m w'.db.lots ≡ find_row m w.db.lots

-- `conclude` changes neither the lots, nor the skip-set, nor the log of the pages.
abbrev Frame : World → World → Type 0
Frame v w' =
    (w'.requested ≡ v.requested)
    × (w'.regions_in_backfill ≡ v.regions_in_backfill)
    × (w'.db ≡ v.db)
    × (w'.stop_set ≡ true)

conclude-Frame : (env : Env) (s : Swept) → Frame s.1 (conclude env s)
unfolding conclude persist_done
conclude-Frame env ((errored, total), w) = elim (Bool-cases (not env.cancelled && not errored)) [
  | inl q ↦ rw q (refl, refl, refl, refl)
  | inr q ↦ rw q (refl, refl, refl, refl)
]

swept-Frame :
    (env : Env) (region : ℕ) (r : Region)
    → ((swept env region r).1.requested ≡ (world_of r).requested)
      × ((swept env region r).1.db ≡ (world_of r).db)
      × (contains region (swept env region r).1.regions_in_backfill ≡ false)
swept-Frame env region (finished d total w) = (refl, refl, clear_lem region w.regions_in_backfill)
swept-Frame env region (aborted session_expired w) =
    (refl, refl, clear_lem region w.regions_in_backfill)
swept-Frame env region (aborted parse_bug w) = (refl, refl, clear_lem region w.regions_in_backfill)
swept-Frame env region (aborted upstream_error w) =
    (refl, refl, clear_lem region w.regions_in_backfill)
swept-Frame env region (aborted other_error w) =
    (refl, refl, clear_lem region w.regions_in_backfill)

-- Every run of the backfill ends, whatever the site answers and whenever it is stopped: it asks for
-- at most five pages, its stop event is set, the region is not left in the skip-set if it was not
-- there before, and the row of a lot all of whose rows are older than thirty days is as it was.
pub run-Ran :
    (env : Env) (regions : List ℕ) (w : World)
    → (w' : World) × (run env regions w ≡ some w') × Ran env (first_region regions) w w'
unfolding run
run-Ran env regions w = elim (Bool-cases env.stopped_before) [
  | inl q ↦
      let (asked, marks, db, halted) = conclude-Frame env ((false, none), begun env w) in
      (
        conclude env ((false, none), begun env w),
        unless_stopped-true env.stopped_before _ _ q,
        record {
          bounded = omega (arith, ap length asked);
          stopped = halted;
          unmarked = λ h. ap (contains (first_region regions)) marks ∙ h;
          window_kept = λ m old. ap (λ d. find_row m d.lots) db;
        },
      )
  | inr q ↦
      let region = first_region regions in
      let cutoff = env.now (w.tick + 1) - window in
      let marked = record (begun env w) {
        regions_in_backfill = mark_region_in_backfill region w.regions_in_backfill;
      } in
      let (r, e, le) = process_region-bounded env region cutoff marked in
      let s = swept env region r in
      let (asked, marks, db, halted) = conclude-Frame env s in
      let (asked2, db2, cleared) = swept-Frame env region r in
      (
        conclude env s,
        unless_stopped-false env.stopped_before _ _ q ∙ ap (concluded env region) e,
        record {
          bounded = omega (arith, le, ap length asked, ap length asked2);
          stopped = halted;
          unmarked = λ h. ap (contains region) marks ∙ cleared;
          window_kept = λ m old.
              ap (λ d. find_row m d.lots) (db ∙ db2)
              ∙ subst (Keeps env cutoff m old marked) e
                  (process_region-Keeps env cutoff m old region marked);
        },
      )
]

-- The first page has no redirect, and its parser raises an exception, an UpstreamError or one of no
-- named class, that is neither a SessionExpiredError nor a ParseBugError.
pub record Unparsed (env : Env) : Type 0 where
  pub status : ℕ
  pub error : Fetcher.Error
  pub got : env.get 1 ≡ response status (refused error)
  pub no_expiry : error ≢ session_expired
  pub no_bug : error ≢ parse_bug
  pub direct : is_redirect status ≡ false

swallowed :
    (e : Fetcher.Error)
    → e ≢ session_expired
    → e ≢ parse_bug
    → parse_failure five_pages e ≡ Ending.returned
swallowed session_expired no_expiry no_bug = absurd (no_expiry refl)
swallowed parse_bug no_expiry no_bug = absurd (no_bug refl)
swallowed upstream_error no_expiry no_bug = refl
swallowed other_error no_expiry no_bug = refl

first_page-ends :
    (env : Env) (halted : Bool)
    → Unparsed env
    → on_response five_pages 1 0 halted (env.get 1) ≡ stop (stopping 1 [] Ending.returned)
unfolding on_response on_parsed
first_page-ends env halted u =
    ap (on_response five_pages 1 0 halted) u.got
    ∙ (rw (on_response, u.direct) refl
        ∙ ap (λ x. stop (stopping 1 [] x)) (swallowed u.error u.no_expiry u.no_bug))

process_region-swallows :
    (env : Env) (region : ℕ) (cutoff : Instant) (w : World)
    → Unparsed env
    → env.halted 0 ≡ false
    → (v : World) × (process_region env region cutoff w ≡ some (finished false none v))
      × (v.db ≡ w.db)
      × (v.requested ≡ w.requested ++ 1 ∷ [])
unfolding process_region process_pages on_next consume
process_region-swallows env region cutoff w u runs = (
  record w {
    progress = record w.progress { current_region = some region; current_page = none };
    requested = w.requested ++ 1 ∷ [];
  },
  rw (process_region, process_pages, runs, first_page-ends env (env.halted 1) u) refl,
  refl,
  refl,
)

conclude-done :
    (env : Env) (total : Option ℕ) (w : World)
    → env.cancelled ≡ false
    → conclude env ((false, total), w) ≡ record (persist_done env total w) { stop_set = true }
unfolding conclude
conclude-done env total w kept =
    ap
      (λ b. record (if not b && not false then persist_done env total w else w) { stop_set = true })
      kept

-- If the parser raises, on a first page without a redirect, any exception but SessionExpiredError and
-- ParseBugError, and the run is neither stopped nor cancelled, then the run returns with the catalogue
-- marked as complete, with the lots as they were, and with no page asked for but this one.
pub run-swallows :
    (env : Env) (regions : List ℕ) (w : World)
    → Unparsed env
    → env.halted 0 ≡ false
    → env.stopped_before ≡ false
    → env.cancelled ≡ false
    → (w' : World) × (run env regions w ≡ some w')
      × (w'.done_flag ≡ true)
      × (w'.db ≡ w.db)
      × (w'.requested ≡ w.requested ++ 1 ∷ [])
unfolding run persist_done
run-swallows env regions w u runs before kept =
    let region = first_region regions in
    let cutoff = env.now (w.tick + 1) - window in
    let marked = record (begun env w) {
      regions_in_backfill = mark_region_in_backfill region w.regions_in_backfill;
    } in
    let (v, e, db, asked) = process_region-swallows env region cutoff marked u runs in
    let s = swept env region (finished false none v) in
    (
      record (persist_done env none s.1) { stop_set = true },
      unless_stopped-false env.stopped_before _ _ before
          ∙ ap (concluded env region) e
          ∙ ap (λ x. some x) (conclude-done env none s.1 kept),
      refl,
      db,
      asked,
    )
