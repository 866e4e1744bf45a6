-- ===== src/Cycle/SameStore.antt =====
-- The steps of a cycle that touch neither the lots nor the dispatcher.
use gektar_monitor.Prelude.{ℕ, ◌+◌, ◌≡◌, refl, ◌∙◌, Bool, Option, none, some}
use gektar_monitor.Domain.{Instant}
use gektar_monitor.Cycles.{CycleResult}
use gektar_monitor.Cycle.{
  Env, World, observed, build_status_fields, announce_checking, publish_checking_status,
  announce_status, publish_status, publish_cycle_done, written,
}
use gektar_monitor.Cycle.Run.{ask_backfill, check_delta, opening}

-- Neither the lots nor the dispatcher have changed.
unfoldable pub SameStore : World → World → Type 0
SameStore w w' = (w'.db ≡ w.db) × (w'.dispatcher ≡ w.dispatcher)

pub checking-SameStore : (env : Env) (w : World) → SameStore w (publish_checking_status env w)
unfolding SameStore publish_checking_status
checking-SameStore env w = by_fields (build_status_fields env w)
  where
    by_fields :
        (o : Option (ℕ × Option Instant))
        → SameStore w (announce_checking (env.now (w.tick + 1)) (observed (observed w)) o)
    by_fields none = (refl, refl)
    by_fields (some f) = (refl, refl)

pub delta-SameStore :
    (env : Env) (region hint : ℕ) (total : Option ℕ) (w : World)
    → SameStore w (check_delta env region hint total w)
unfolding SameStore check_delta
delta-SameStore env region hint none w = (refl, refl)
delta-SameStore env region hint (some total) w = by_handle env.maybe_start
  where
    by_handle :
        (o : Option (ℕ → ℕ → ℕ → ℕ → Bool))
        → SameStore w (
            ask_backfill region total hint
              (record w { parse_misses = written region 0 w.parse_misses })
              o)
    by_handle none = (refl, refl)
    by_handle (some f) = (refl, refl)

status-SameStore : (env : Env) (r : CycleResult) (w : World) → SameStore w (publish_status env r w)
unfolding SameStore publish_status
status-SameStore env r w = by_fields (build_status_fields env w)
  where
    by_fields :
        (o : Option (ℕ × Option Instant))
        → SameStore w (announce_status (env.now (w.tick + 1)) r (observed (observed w)) o)
    by_fields none = (refl, refl)
    by_fields (some f) = (refl, refl)

pub done-SameStore :
    (env : Env) (r : CycleResult) (w : World) → SameStore w (publish_cycle_done env r w)
unfolding SameStore publish_cycle_done
done-SameStore env r w = status-SameStore env r _

pub opening-SameStore : (env : Env) (region : ℕ) (w : World) → SameStore w (opening env region w)
unfolding SameStore opening
opening-SameStore env region w = (refl, refl)

pub trans-SameStore : (a b c : World) → SameStore a b → SameStore b c → SameStore a c
unfolding SameStore
trans-SameStore a b c h k = (k.0 ∙ h.0, k.1 ∙ h.1)
