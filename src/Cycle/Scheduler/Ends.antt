-- ===== src/Cycle/Scheduler/Ends.antt =====
-- The end of the scheduler's wait and of its loop.
use gektar_monitor.Prelude.{
  ℕ, zero, suc, ◌+◌, ◌-◌, ◌≤◌, ◌<◌, ◌≡◌, refl, true, false, Option, none, some, List, [], ◌∷◌, leb,
  ltb, arith, Bool-cases, Option-cases, inl, inr, contains,
}
use gektar_monitor.Cycle.{Settings, Ended, returned, raised}
use gektar_monitor.Cycle.Run.{is_domain_error, run_cycle}
use gektar_monitor.Cycle.Scheduler.{
  Worked, goes_on, stops, dies, Surroundings, requested, Waited, wait_slices, wait_for_next_pass,
  Scheduler, Finished, poll_interval, seen, on_waited, on_worked, on_settings, pass_work,
  behind_cycle, try_cycle, woken_up, work, await_backfill, run_forever,
}

-- The stop event reads as set from the observation `last` on.
abbrev pub Halts : Surroundings → ℕ → Type 0
Halts env last = (k : ℕ) → last ≤ k → env.stopped k ≡ true

-- Each slice observes the stop event.
wait_slices-ends :
    (env : Surroundings) (last deadline fuel k queued : ℕ)
    → Halts env last
    → last - k < fuel
    → (w : Waited) × (wait_slices env deadline fuel k queued ≡ some w) × (k < w.tick)
unfolding wait_slices
wait_slices-ends env last deadline zero k queued h lt = absurd (omega (arith, lt))
wait_slices-ends env last deadline (suc fuel) k queued h lt = elim (Bool-cases (env.stopped k)) [
  | inl e ↦ rw e (_, refl, omega arith)
  | inr e ↦ elim (Bool-cases (leb deadline (env.monotonic k))) [
    | inl q ↦ rw (e, q) (_, refl, omega arith)
    | inr q ↦ elim (Bool-cases (ltb 0 (requested (env.requests k) queued))) [
      | inl p ↦ rw (e, q, p) (_, refl, omega arith)
      | inr p ↦
          let early : k < last = ground (arith, h k) in
          let (w, same, later) =
            wait_slices-ends env last deadline fuel (k + 1) (requested (env.requests k) queued) h
              (omega (arith, early, lt)) in
          rw (e, q, p) (w, same, omega (arith, later))
    ]
  ]
]

abbrev Ends : Option Finished → Type 0
Ends o = (f : Finished) × (o ≡ some f)

-- The loop goes on behind an observation later than `k`.
abbrev GoesOn : ℕ → (Scheduler → Option Finished) → Type 0
GoesOn k go_on = (t : Scheduler) → k < t.tick → Ends (go_on t)

behind_cycle-tick : (s : Scheduler) (x : Ended) → s.tick ≤ (behind_cycle s x).tick
behind_cycle-tick s (returned r w) = omega arith
behind_cycle-tick s (raised e w) = elim (Bool-cases (is_domain_error e.kind)) [
  | inl q ↦ rw q (omega arith)
  | inr q ↦ rw q (omega arith)
]

-- A pass that goes on is no earlier than `k`.
abbrev NoEarlier : ℕ → Worked → Type 0
NoEarlier k (goes_on s) = k ≤ s.tick
NoEarlier k stops = Unit
NoEarlier k dies = Unit

try_cycle-tick :
    (env : Surroundings) (region : ℕ) (s : Scheduler) → s.tick ≤ (try_cycle env region s).tick
unfolding try_cycle
try_cycle-tick env region s = elim (Bool-cases (contains region (env.regions_in_backfill s.tick))) [
  | inl e ↦ rw e (omega arith)
  | inr e ↦ rw e (behind_cycle-tick s (run_cycle (env.cycle s.tick) region s.world))
]

work-tick :
    (env : Surroundings) (regions : List ℕ) (s : Scheduler) → NoEarlier s.tick (work env regions s)
work-tick env [] s = omega arith
work-tick env (region ∷ rest) s = elim (Bool-cases (env.stopped s.tick)) [
  | inl q ↦ rw q tt
  | inr q ↦ rw q (omega (arith, try_cycle-tick env region (seen s)))
]

await_backfill-tick : (env : Surroundings) (s : Scheduler) → NoEarlier s.tick (await_backfill env s)
await_backfill-tick env s = elim (Bool-cases s.awaiting_published) [
  | inl q ↦ rw q (omega arith)
  | inr q ↦ elim (Option-cases (env.settings s.tick)) [
    | inl p ↦ rw (q, p) tt
    | inr (settings, p) ↦ rw (q, p) (omega arith)
  ]
]

pass_work-tick :
    (env : Surroundings) (settings : Settings) (s : Scheduler)
    → NoEarlier s.tick (pass_work env settings s)
unfolding pass_work
pass_work-tick env settings s = elim (Bool-cases (env.backfill_done s.tick)) [
  | inl q ↦
      rw (pass_work, q) (work-tick env settings.regions (record s { awaiting_published = false }))
  | inr q ↦ rw (pass_work, q) (await_backfill-tick env s)
]

on_worked-Ends :
    (env : Surroundings) (last fuel : ℕ) (settings : Settings) (before : Scheduler) (o : Worked)
    (k : ℕ) (go_on : Scheduler → Option Finished)
    → Halts env last
    → last - k ≤ fuel
    → 0 < fuel
    → NoEarlier k o
    → GoesOn k go_on
    → Ends (on_worked env fuel settings before o go_on)
unfolding on_worked on_waited wait_for_next_pass
on_worked-Ends env last fuel settings before stops k go_on h lt some_fuel late on = (_, refl)
on_worked-Ends env last fuel settings before dies k go_on h lt some_fuel late on = (_, refl)
on_worked-Ends env last fuel settings before (goes_on s) k go_on h lt some_fuel late on =
    elim (Bool-cases (env.stopped s.tick)) [
      | inl e ↦ rw e (_, refl)
      | inr e ↦
          let early : s.tick < last = ground (arith, h s.tick) in
          let (w, q, later) =
            wait_slices-ends env last (env.monotonic (s.tick + 1) + poll_interval settings) fuel
              (s.tick + 1) s.queued h (omega (arith, lt, late, early, some_fuel)) in
          rw (e, on_waited, q) (on (woken_up s w) (omega (arith, later, late)))
    ]

on_settings-Ends :
    (env : Surroundings) (last fuel : ℕ) (s : Scheduler) (o : Option Settings)
    (go_on : Scheduler → Option Finished)
    → Halts env last
    → last - s.tick ≤ fuel
    → 0 < fuel
    → GoesOn s.tick go_on
    → Ends (on_settings env fuel s o go_on)
unfolding on_settings
on_settings-Ends env last fuel s none go_on h lt some_fuel on = (_, refl)
on_settings-Ends env last fuel s (some settings) go_on h lt some_fuel on =
    on_worked-Ends env last fuel settings s (pass_work env settings s) s.tick go_on h lt some_fuel
      (pass_work-tick env settings s) on

-- If the stop event reads as set from the observation `last` on, then the scheduler ends, whatever
-- the clock and the other threads do: fuel for one pass more than the observations that are left
-- until then is enough for the passes and for the slices of each wait.
pub run_forever_ends :
    (env : Surroundings) (last fuel : ℕ) (s : Scheduler)
    → ((k : ℕ) → last ≤ k → env.stopped k ≡ true)
    → last - s.tick < fuel
    → (f : Finished) × (run_forever env fuel s ≡ some f)
unfolding run_forever
run_forever_ends env last zero s halts lt = absurd (omega (arith, lt))
run_forever_ends env last (suc fuel) s halts lt = elim (Bool-cases (env.stopped s.tick)) [
  | inl e ↦ rw e (_, refl)
  | inr e ↦
      let left : s.tick < last = ground (arith, halts s.tick) in
      rw e (
        on_settings-Ends env last fuel (seen s) (env.settings s.tick) (λ t. run_forever env fuel t)
          halts (omega (arith, lt, left)) (omega (arith, lt, left))
          (λ t later. run_forever_ends env last fuel t halts (omega (arith, later, lt, left))))
]
