-- ===== src/Cycle/Scheduler/Gate.antt =====
-- What a run of the scheduler leaves as it was.
use gektar_monitor.Prelude.{
  ℕ, zero, suc, ◌+◌, ◌-◌, ◌≤◌, ◌<◌, ◌≡◌, refl, sym, subst, true, false, Option, none, some, List,
  [], ◌∷◌, Bool-cases, Option-cases, inl, inr, contains,
}
use gektar_monitor.Domain.{Instant}
use gektar_monitor.Cycles.{open_cycle}
use gektar_monitor.Cycles.Laws.{WellFormed, open-WellFormed, closed-WellFormed}
use gektar_monitor.Cycle.{
  Env, Settings, monitor_status, awaiting_backfill, World, Ended, returned, raised, world_of,
  publish,
}
use gektar_monitor.Cycle.Run.{is_domain_error, run_cycle}
use gektar_monitor.Cycle.Closing.{escapes}
use gektar_monitor.Cycle.Once.{ClosesOnce, StaysOpen, run_cycle-ClosesOnce, run_cycle-StaysOpen}
use gektar_monitor.Cycle.Scheduler.Ends.{run_forever_ends}
use gektar_monitor.Cycle.Scheduler.{
  Worked, goes_on, stops, dies, Surroundings, wait_for_next_pass, Scheduler, Finished, finished,
  died, poll_interval, seen, on_waited, on_worked, on_settings, pass_work, behind_cycle, try_cycle,
  woken_up, work, run_forever,
}

-- A property of the state that the scheduler's own event and every cycle that it may run preserve:
-- a cycle behind observation `j`, when the catalogue was complete at `k` and the region is not in
-- the skip-set at `j`.
pub record Kept (env : Surroundings) (P : World → Type 0) : Type 0 where
  pub awaiting :
      (t : Instant) (minutes : ℕ) (w : World)
      → P w
      → P (publish (monitor_status t awaiting_backfill minutes none) w)
  pub cycling :
      (k j region : ℕ) (w : World)
      → env.backfill_done k ≡ true
      → contains region (env.regions_in_backfill j) ≡ false
      → P w
      → P (world_of (run_cycle (env.cycle j) region w))

module _ (env : Surroundings) (P : World → Type 0) (kept : Kept env P) where
  -- If the run ends, it ends in such a state.
  abbrev Holds : Option Finished → Type 0
  Holds none = Unit
  Holds (some (finished s)) = P s.world
  Holds (some (died s)) = P s.world

  abbrev Works : Worked → Type 0
  Works stops = Unit
  Works dies = Unit
  Works (goes_on s) = P s.world

  behind_cycle-P : (s : Scheduler) (x : Ended) → P (world_of x) → P (behind_cycle s x).world
  behind_cycle-P s (returned r w) h = h
  behind_cycle-P s (raised e w) h = elim (Bool-cases (is_domain_error e.kind)) [
    | inl q ↦ rw q h
    | inr q ↦ rw q h
  ]

  work-Works :
      (k : ℕ) (regions : List ℕ) (s : Scheduler)
      → env.backfill_done k ≡ true
      → P s.world
      → Works (work env regions s)
  unfolding try_cycle
  work-Works k [] s done h = h
  work-Works k (region ∷ rest) s done h = elim (Bool-cases (env.stopped s.tick)) [
    | inl e ↦ rw e tt
    | inr e ↦ elim (Bool-cases (contains region (env.regions_in_backfill (s.tick + 1)))) [
      | inl q ↦ rw (e, try_cycle, q) h
      | inr q ↦
          rw (e, try_cycle, q)
            (behind_cycle-P (seen s) (run_cycle (env.cycle (s.tick + 1)) region s.world)
              (kept.cycling k (s.tick + 1) region s.world done q h))
    ]
  ]

  pass_work-Works :
      (settings : Settings) (s : Scheduler) → P s.world → Works (pass_work env settings s)
  unfolding pass_work
  pass_work-Works settings s h = elim (Bool-cases (env.backfill_done s.tick)) [
    | inl e ↦
        rw (pass_work, e)
          (work-Works s.tick settings.regions (record s { awaiting_published = false }) e h)
    | inr e ↦ elim (Bool-cases s.awaiting_published) [
      | inl q ↦ rw (pass_work, e, q) h
      | inr q ↦ elim (Option-cases (env.settings s.tick)) [
        | inl p ↦ rw (pass_work, e, q, p) tt
        | inr (read, p) ↦
            rw (pass_work, e, q, p) (kept.awaiting (env.now s.tick) read.interval_minutes s.world h)
      ]
    ]
  ]

  on_worked-Holds :
      (fuel : ℕ) (settings : Settings) (before : Scheduler) (o : Worked)
      (go_on : Scheduler → Option Finished)
      → P before.world
      → Works o
      → ((t : Scheduler) → P t.world → Holds (go_on t))
      → Holds (on_worked env fuel settings before o go_on)
  unfolding on_worked on_waited
  on_worked-Holds fuel settings before stops go_on h works on = h
  on_worked-Holds fuel settings before dies go_on h works on = h
  on_worked-Holds fuel settings before (goes_on s) go_on h works on =
      let wait = wait_for_next_pass env fuel (poll_interval settings) (s.tick + 1) s.queued in
      elim (Bool-cases (env.stopped s.tick)) [
        | inl e ↦ rw (on_worked, e) works
        | inr e ↦ elim (Option-cases wait) [
          | inl q ↦ rw (on_worked, e, on_waited, q) tt
          | inr (w, q) ↦ rw (on_worked, e, on_waited, q) (on (woken_up s w) works)
        ]
      ]

  on_settings-Holds :
      (fuel : ℕ) (s : Scheduler) (o : Option Settings) (go_on : Scheduler → Option Finished)
      → P s.world
      → ((t : Scheduler) → P t.world → Holds (go_on t))
      → Holds (on_settings env fuel s o go_on)
  unfolding on_settings
  on_settings-Holds fuel s none go_on h on = h
  on_settings-Holds fuel s (some settings) go_on h on =
      on_worked-Holds fuel settings s (pass_work env settings s) go_on h
        (pass_work-Works settings s h) on

  pub run_forever-Holds : (fuel : ℕ) (s : Scheduler) → P s.world → Holds (run_forever env fuel s)
  unfolding run_forever
  run_forever-Holds zero s h = tt
  run_forever-Holds (suc fuel) s h = elim (Bool-cases (env.stopped s.tick)) [
    | inl e ↦ rw e h
    | inr e ↦ rw e (
        on_settings-Holds fuel (seen s) (env.settings s.tick) (λ t. run_forever env fuel t) h
          (λ t later. run_forever-Holds fuel t later))
  ]

-- The state in which the run ended.
abbrev pub end_of : Finished → Scheduler
end_of (finished s) = s
end_of (died s) = s

ended_in :
    (env : Surroundings) (P : World → Type 0) (f : Finished) (o : Option Finished)
    (kept : Kept env P)
    → o ≡ some f
    → Holds env P kept o
    → P (end_of f).world
ended_in env P f none kept e h = cc e
ended_in env P f (some (finished s)) kept e h = subst (λ x. P (end_of x).world) (finish_inj e) h
  where
    finish_inj : some (finished s) ≡ some f → finished s ≡ f
    finish_inj q = cc q
ended_in env P f (some (died s)) kept e h = subst (λ x. P (end_of x).world) (died_inj e) h
  where
    died_inj : some (died s) ≡ some f → died s ≡ f
    died_inj q = cc q

-- While the catalogue is not complete no cycle runs: if no observation finds the backfill done, then
-- the scheduler ends, under the conditions of `run_forever_ends`, with the lots, the cycles and the
-- dispatcher as they were.
pub run_forever_gated :
    (env : Surroundings) (last fuel : ℕ) (s : Scheduler)
    → ((k : ℕ) → last ≤ k → env.stopped k ≡ true)
    → last - s.tick < fuel
    → ((k : ℕ) → env.backfill_done k ≡ false)
    → (f : Finished) × (run_forever env fuel s ≡ some f)
      × ((end_of f).world.db ≡ s.world.db)
      × ((end_of f).world.cycles ≡ s.world.cycles)
      × ((end_of f).world.dispatcher ≡ s.world.dispatcher)
run_forever_gated env last fuel s halts lt shut =
    let P : World → Type 0 = λ w.
      (w.db ≡ s.world.db) × (w.cycles ≡ s.world.cycles) × (w.dispatcher ≡ s.world.dispatcher) in
    let kept : Kept env P = record {
      awaiting = λ t minutes w p. p;
      cycling = λ k j region w done off p. absurd (cc (done, shut k));
    } in
    let (f, e) = run_forever_ends env last fuel s halts lt in
    let p =
      ended_in env P f (run_forever env fuel s) kept e
        (run_forever-Holds env P kept fuel s (refl, refl, refl)) in
    (f, e, p.0, p.1, p.2)

StaysOpen-WellFormed :
    (env : Env) (region : ℕ) (w : World) (x : Ended)
    → WellFormed w.cycles
    → StaysOpen env region w x
    → WellFormed (world_of x).cycles
unfolding open_cycle
StaysOpen-WellFormed env region w (returned r w') h o = absurd o
StaysOpen-WellFormed env region w (raised e w') h o =
    subst WellFormed (sym o.1) (open-WellFormed region (env.now w.tick) w.cycles h)

ClosesOnce-WellFormed :
    (env : Env) (region : ℕ) (w : World) (x : Ended)
    → WellFormed w.cycles
    → ClosesOnce env region w x
    → WellFormed (world_of x).cycles
ClosesOnce-WellFormed env region w (returned r w') h c =
    subst WellFormed (sym c.cycles) (closed-WellFormed region (env.now w.tick) r w.cycles h)
ClosesOnce-WellFormed env region w (raised e w') h (r, c, _, _) =
    subst WellFormed (sym c.cycles) (closed-WellFormed region (env.now w.tick) r w.cycles h)

-- A cycle leaves a table of cycles in which every id was handed out, however it ends.
pub run_cycle-WellFormed :
    (env : Env) (region : ℕ) (w : World)
    → WellFormed w.cycles
    → WellFormed (world_of (run_cycle env region w)).cycles
run_cycle-WellFormed env region w h = elim (Bool-cases (escapes (env.get region))) [
  | inl e ↦ StaysOpen-WellFormed env region w _ h (run_cycle-StaysOpen env region w e)
  | inr e ↦ ClosesOnce-WellFormed env region w _ h (run_cycle-ClosesOnce env region w h e)
]

-- Under the conditions of `run_forever_ends`, a scheduler that starts with a table of cycles in
-- which every id was handed out ends with such a table, whatever its cycles meet.
pub run_forever-WellFormed :
    (env : Surroundings) (last fuel : ℕ) (s : Scheduler)
    → ((k : ℕ) → last ≤ k → env.stopped k ≡ true)
    → last - s.tick < fuel
    → WellFormed s.world.cycles
    → (f : Finished) × (run_forever env fuel s ≡ some f) × WellFormed (end_of f).world.cycles
run_forever-WellFormed env last fuel s halts lt well =
    let kept : Kept env (λ w. WellFormed w.cycles) = record {
      awaiting = λ t minutes w p. p;
      cycling = λ k j region w done off p. run_cycle-WellFormed (env.cycle j) region w p;
    } in
    let (f, e) = run_forever_ends env last fuel s halts lt in
    (
      f,
      e,
      ended_in env (λ w. WellFormed w.cycles) f (run_forever env fuel s) kept e
          (run_forever-Holds env (λ w. WellFormed w.cycles) kept fuel s well),
    )
