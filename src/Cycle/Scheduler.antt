-- ===== src/Cycle/Scheduler.antt =====
-- `run_forever` and `_wait_for_next_pass` of src/fis_monitor/services/monitor_cycle.py, with the
-- calls by which other threads reach the scheduler. What these threads do is seen at an observation:
-- `Surroundings` says what observation `k` of the stop event, the clock, the queue, the settings, the
-- state table and the skip-set finds. Times are in milliseconds.
pub mod Ends
pub mod Gate
use gektar_monitor.Prelude.{
  ℕ, zero, suc, ◌+◌, ◌-◌, ◌*◌, Bool, true, false, Option, none, some, List, [], ◌∷◌, ◌++◌, not,
  ◌==◌, leb, ltb, select, if◌then◌else◌, contains,
}
use gektar_monitor.Domain.{Instant}
use gektar_monitor.Cycle.{
  Env, Settings, monitor_status, awaiting_backfill, World, Ended, returned, raised, publish,
}
use gektar_monitor.Cycle.Run.{is_domain_error, run_cycle}

-- `cycle` gives the surroundings of a cycle that starts behind observation `k`.
pub record Surroundings : Type 0 where
  pub cycle : ℕ → Env
  pub stopped : ℕ → Bool
  pub monotonic : ℕ → ℕ
  pub requests : ℕ → ℕ
  pub settings : ℕ → Option Settings
  pub backfill_done : ℕ → Bool
  pub regions_in_backfill : ℕ → List ℕ
  pub now : ℕ → Instant

-- The skip-set under its two calls.
unfoldable pub mark_region_in_backfill : ℕ → List ℕ → List ℕ
mark_region_in_backfill region set = if contains region set then set else region ∷ set

unfoldable pub clear_region_in_backfill : ℕ → List ℕ → List ℕ
clear_region_in_backfill region set = select (λ r. not (r == region)) set

-- The sentinels in `_trigger_q`, whose capacity is 1: a second one is dropped.
unfoldable pub request_run_now : ℕ → ℕ
request_run_now queued = if ltb queued 1 then queued + 1 else queued

unfoldable pub requested : ℕ → ℕ → ℕ
requested zero queued = queued
requested (suc n) queued = requested n (request_run_now queued)

pub data Woken : Type 0 where
  stop_set timed_out triggered : Woken

-- The wait ended behind observation `tick`.
pub record Waited : Type 0 where
  pub woken : Woken
  pub tick : ℕ
  pub queued : ℕ

abbrev pub waited : Woken → ℕ → ℕ → Waited
waited woken tick queued = record { woken = woken; tick = tick; queued = queued }

-- The slices of the wait from an observation on; the requests at an observation are those that have
-- come since the one before; `none` means that the fuel ran out.
unfoldable pub wait_slices : Surroundings → ℕ → ℕ → ℕ → ℕ → Option Waited
wait_slices env deadline zero k queued = none
wait_slices env deadline (suc fuel) k queued =
    let now_queued = requested (env.requests k) queued in
    let later = wait_slices env deadline fuel (k + 1) now_queued in
    if env.stopped k
    then some (waited stop_set (k + 1) now_queued)
    else if leb deadline (env.monotonic k)
    then some (waited timed_out (k + 1) now_queued)
    else if ltb 0 now_queued
    then some (waited triggered (k + 1) (now_queued - 1))
    else later

-- The fuel is the number of slices.
unfoldable pub wait_for_next_pass : Surroundings → ℕ → ℕ → ℕ → ℕ → Option Waited
wait_for_next_pass env fuel timeout k queued =
    wait_slices env (env.monotonic k + timeout) fuel k queued

pub record Scheduler : Type 0 where
  pub world : World
  pub awaiting_published : Bool
  pub queued : ℕ
  pub tick : ℕ

-- The loop was left, or an exception of the settings has left it.
pub data Finished : Type 0 where
  finished : Scheduler → Finished
  died : Scheduler → Finished

abbrev pub poll_interval : Settings → ℕ
poll_interval s = if ltb 0 s.interval_minutes then s.interval_minutes * 60000 else 60000

abbrev pub seen : Scheduler → Scheduler
seen s = record s { tick = s.tick + 1 }

-- What a pass did before its wait: it goes on, a stop was seen before the cycle, or the settings
-- raised.
pub data Worked : Type 0 where
  goes_on : Scheduler → Worked
  stops dies : Worked

abbrev pub awaiting : Surroundings → Scheduler → Option Settings → Worked
awaiting env s none = dies
awaiting env s (some settings) = goes_on (record s {
  world =
      publish (monitor_status (env.now s.tick) awaiting_backfill settings.interval_minutes none)
        s.world;
  awaiting_published = true;
})

-- The branch of a catalogue that is not complete: the status is published once in a row, with the
-- settings as they are read then.
abbrev pub await_backfill : Surroundings → Scheduler → Worked
await_backfill env s =
    if s.awaiting_published then goes_on s else awaiting env s (env.settings s.tick)

-- An exception that is none of the domain's costs a pause, which observes the stop event.
abbrev pub behind_cycle : Scheduler → Ended → Scheduler
behind_cycle s (returned r w) = record s { world = w }
behind_cycle s (raised e w) =
    if is_domain_error e.kind then record s { world = w } else seen (record s { world = w })

-- The region is not being backfilled, or the cycle is skipped.
unfoldable pub try_cycle : Surroundings → ℕ → Scheduler → Scheduler
try_cycle env region s =
    if contains region (env.regions_in_backfill s.tick)
    then s
    else behind_cycle s (run_cycle (env.cycle s.tick) region s.world)

-- Only the first region is polled.
abbrev pub work : Surroundings → List ℕ → Scheduler → Worked
work env [] s = goes_on s
work env (region ∷ _) s =
    if env.stopped s.tick then stops else goes_on (try_cycle env region (seen s))

unfoldable pub pass_work : Surroundings → Settings → Scheduler → Worked
pass_work env settings s =
    if env.backfill_done s.tick
    then work env settings.regions (record s { awaiting_published = false })
    else await_backfill env s

abbrev pub woken_up : Scheduler → Waited → Scheduler
woken_up s w = record s { queued = w.queued; tick = w.tick }

-- The wait, and the loop behind it.
unfoldable pub on_waited :
    Scheduler → Option Waited → (Scheduler → Option Finished) → Option Finished
on_waited s none go_on = none
on_waited s (some w) go_on = go_on (woken_up s w)

unfoldable pub on_worked :
    Surroundings
    → ℕ
    → Settings
    → Scheduler
    → Worked
    → (Scheduler → Option Finished)
    → Option Finished
on_worked env fuel settings before stops go_on = some (finished before)
on_worked env fuel settings before dies go_on = some (died before)
on_worked env fuel settings before (goes_on s) go_on =
    if env.stopped s.tick
    then some (finished s)
    else on_waited s (wait_for_next_pass env fuel (poll_interval settings) (s.tick + 1) s.queued)
        go_on

unfoldable pub on_settings :
    Surroundings → ℕ → Scheduler → Option Settings → (Scheduler → Option Finished) → Option Finished
on_settings env fuel s none go_on = some (died s)
on_settings env fuel s (some settings) go_on =
    on_worked env fuel settings s (pass_work env settings s) go_on

-- The loop; `none` means that the fuel ran out. The wait of a pass has the fuel of the passes behind
-- it.
unfoldable pub run_forever : Surroundings → ℕ → Scheduler → Option Finished
run_forever env zero s = none
run_forever env (suc fuel) s =
    if env.stopped s.tick
    then some (finished s)
    else on_settings env fuel (seen s) (env.settings s.tick) (λ t. run_forever env fuel t)
