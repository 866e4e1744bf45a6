-- ===== src/Cycle/Pending.antt =====
-- What a cycle does between the opening of its row and its end: neither the table of cycles nor the
-- `cycle.done` events change.
use mathlib.Core.List.{append-nil, append_assoc}
use gektar_monitor.Prelude.{
  String, ℕ, ◌+◌, ◌≡◌, refl, ap, sym, ◌∙◌, Bool, false, Option, none, some, List, [], ◌∷◌, ◌++◌,
  if◌then◌else◌, Bool-cases, Option-cases, inl, inr,
}
use gektar_monitor.Domain.{Instant, Lot}
use gektar_monitor.Diff.{default_tracked_fields}
use gektar_monitor.Lots.{Result, ok, raise, UpsertResult, Database, upsert}
use gektar_monitor.Lots.{Error as LotError}
use gektar_monitor.Lots.Rows.{Result-cases}
use gektar_monitor.Cycles.{CycleResult, Cycles}
use gektar_monitor.Cycle.{
  Env, Event, cycle_started, cycle_error, session_expired, lot_status, cycle_done, monitor_status,
  checking, duration_ms, hhmm_of, state_of, written, BusCall, publishes, evicts_normal_replay,
  Summary, summary_of, World, observed, publish, build_status_fields, announce_checking,
  publish_checking_status, announce_status, publish_status, publish_cycle_done,
}
use gektar_monitor.Cycle.Run.{
  ask_backfill, check_delta, status_change, on_upserted, Stored, stored, broken, store_lots,
}

abbrev pub done_of : Event → List Summary
done_of (cycle_started t n) = []
done_of (cycle_error t n c) = []
done_of (session_expired t) = []
done_of (lot_status n v) = []
done_of (cycle_done t s d h) = s ∷ []
done_of (monitor_status t s i l) = []

-- The `cycle.done` events among the calls of the bus.
abbrev pub dones : List BusCall → List Summary
dones [] = []
dones (publishes e ∷ bs) = done_of e ++ dones bs
dones (evicts_normal_replay key ∷ bs) = dones bs

pub dones-append : (bs cs : List BusCall) → dones (bs ++ cs) ≡ dones bs ++ dones cs
dones-append [] cs = refl
dones-append (publishes b ∷ bs) cs =
    ap (λ ds. done_of b ++ ds) (dones-append bs cs)
    ∙ sym (append_assoc (done_of b) (dones bs) (dones cs))
dones-append (evicts_normal_replay key ∷ bs) cs = dones-append bs cs

-- The cycle runs: the table of cycles and the `cycle.done` events are still these.
abbrev pub Pending : Cycles → List Summary → World → Type 0
Pending t ds w = (w.cycles ≡ t) × (dones w.bus ≡ ds)

-- One `upsert` of step 5, and what follows.
abbrev pub store_one : Env → Lot → World → Result (UpsertResult × Database)
store_one env lot w = upsert lot default_tracked_fields false (env.now w.tick) w.db

abbrev pub one_stored : Env → Lot → UpsertResult × Database → World → World
one_stored env lot answer w = on_upserted env lot answer.0 (record (observed w) { db = answer.1 })

pub store_lots_breaks :
    (env : Env) (lot : Lot) (lots : List Lot) (n : ℕ) (w : World) (e : LotError)
    → store_one env lot w ≡ raise e
    → store_lots env (lot ∷ lots) n w ≡ broken e w
unfolding store_lots
store_lots_breaks env lot lots n w e q = rw (store_lots, q) refl

pub store_lots_goes_on :
    (env : Env) (lot : Lot) (lots : List Lot) (n : ℕ) (w : World) (answer : UpsertResult × Database)
    → store_one env lot w ≡ ok answer
    → store_lots env (lot ∷ lots) n w
      ≡ store_lots env lots (n + (if answer.0.was_new then 1 else 0)) (one_stored env lot answer w)
unfolding store_lots
store_lots_goes_on env lot lots n w answer q = rw (store_lots, q) refl

module _ (t : Cycles) (ds : List Summary) where
  pub publish-Pending :
      (e : Event) (w : World) → done_of e ≡ [] → Pending t ds w → Pending t ds (publish e w)
  publish-Pending e w quiet h = (
    h.0,
    dones-append w.bus (publishes e ∷ [])
        ∙ ap (λ d. dones w.bus ++ (d ++ [])) quiet
        ∙ append-nil (dones w.bus)
        ∙ h.1,
  )

  evict-Pending :
      (key : String) (w : World)
      → Pending t ds w
      → Pending t ds (record w { bus = w.bus ++ evicts_normal_replay key ∷ [] })
  evict-Pending key w h =
      (h.0, dones-append w.bus (evicts_normal_replay key ∷ []) ∙ append-nil (dones w.bus) ∙ h.1)

  pub publish_checking-Pending :
      (env : Env) (w : World) → Pending t ds w → Pending t ds (publish_checking_status env w)
  unfolding publish_checking_status
  publish_checking-Pending env w h = by_fields (build_status_fields env w)
    where
      by_fields :
          (o : Option (ℕ × Option Instant))
          → Pending t ds (announce_checking (env.now (w.tick + 1)) (observed (observed w)) o)
      by_fields none = h
      by_fields (some f) =
          let e = monitor_status (env.now (w.tick + 1)) checking f.0 f.1 in
          evict-Pending "status" (publish e (observed (observed w)))
            (publish-Pending e (observed (observed w)) refl h)

  publish_status-Pending :
      (env : Env) (result : CycleResult) (w : World)
      → Pending t ds w
      → Pending t ds (publish_status env result w)
  unfolding publish_status
  publish_status-Pending env result w h = by_fields (build_status_fields env w)
    where
      by_fields :
          (o : Option (ℕ × Option Instant))
          → Pending t ds (announce_status (env.now (w.tick + 1)) result (observed (observed w)) o)
      by_fields none = h
      by_fields (some f) =
          publish-Pending (monitor_status (env.now (w.tick + 1)) (state_of result.status) f.0 f.1)
            (observed (observed w)) refl h

  pub check_delta-Pending :
      (env : Env) (region hint : ℕ) (total : Option ℕ) (w : World)
      → Pending t ds w
      → Pending t ds (check_delta env region hint total w)
  unfolding check_delta
  check_delta-Pending env region hint none w h = h
  check_delta-Pending env region hint (some total) w h = by_handle env.maybe_start
    where
      by_handle :
          (o : Option (ℕ → ℕ → ℕ → ℕ → Bool))
          → Pending t ds (
              ask_backfill region total hint
                (record w { parse_misses = written region 0 w.parse_misses })
                o)
      by_handle none = h
      by_handle (some f) = h

  on_upserted-Pending :
      (env : Env) (lot : Lot) (result : UpsertResult) (w : World)
      → Pending t ds w
      → Pending t ds (on_upserted env lot result w)
  unfolding on_upserted
  on_upserted-Pending env lot result w h = elim (Bool-cases result.was_new) [
    | inl e ↦ rw e h
    | inr e ↦ elim (Option-cases (status_change result.changes)) [
      | inl q ↦ rw (e, q) h
      | inr (v, q) ↦ rw (e, q) (publish-Pending (lot_status lot.id v) w refl h)
    ]
  ]

  abbrev pub StoredPending : Stored → Type 0
  StoredPending (stored n w) = Pending t ds w
  StoredPending (broken e w) = Pending t ds w

  pub store_lots-Pending :
      (env : Env) (lots : List Lot) (n : ℕ) (w : World)
      → Pending t ds w
      → StoredPending (store_lots env lots n w)
  store_lots-Pending env [] n w h = unfold store_lots in h
  store_lots-Pending env (lot ∷ lots) n w h = elim (Result-cases (store_one env lot w)) [
    | inl (e, q) ↦ rw (store_lots_breaks env lot lots n w e q) h
    | inr (answer, q) ↦ rw (store_lots_goes_on env lot lots n w answer q) (
        store_lots-Pending env lots _ _
          (on_upserted-Pending env lot answer.0 (record (observed w) { db = answer.1 }) h))
  ]

pub done-Pending :
    (t : Cycles) (ds : List Summary) (env : Env) (r : CycleResult) (w : World)
    → Pending t ds w
    → Pending t (ds ++ summary_of r ∷ []) (publish_cycle_done env r w)
unfolding publish_cycle_done
done-Pending t ds env r w h =
    let hhmm = hhmm_of (env.now w.tick) (env.settings w.tick) in
    let e = cycle_done (env.now w.tick) (summary_of r) (duration_ms r) hhmm in
    publish_status-Pending t (ds ++ summary_of r ∷ []) env r (publish e (observed w))
      (h.0, dones-append w.bus (publishes e ∷ []) ∙ ap (λ d. d ++ summary_of r ∷ []) h.1)
