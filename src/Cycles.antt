-- ===== src/Cycles.antt =====
-- `SqliteCyclesRepository` of src/fis_monitor/infra/sqlite/repositories/cycles.py: the table
-- `cycles`, whose ids are handed out in order and never again, with `CycleResult` of
-- src/fis_monitor/domain/models.py.
pub mod Laws
use gektar_monitor.Prelude.{
  ℕ, zero, suc, ◌+◌, ◌-◌, Bool, true, false, not, Option, none, some, List, [], ◌∷◌, ◌++◌, ◌==◌,
  leb, ltb, take, select, contains, length, map, if◌then◌else◌,
}
use gektar_monitor.Domain.{Instant}
use gektar_monitor.Domain.Failures.{Text}

pub data CycleStatus : Type 0 where
  still_open ok error aborted : CycleStatus

pub record CycleResult : Type 0 where
  pub id : ℕ
  pub region : ℕ
  pub started_at : Instant
  pub finished_at : Instant
  pub status : CycleStatus
  pub lots_fetched : ℕ
  pub new_lots : ℕ
  pub error : Option Text

pub record CycleRow : Type 0 where
  pub id : ℕ
  pub region : ℕ
  pub started_at : Instant
  pub finished_at : Option Instant
  pub status : CycleStatus
  pub lots_fetched : ℕ
  pub new_lots : ℕ
  pub error : Option Text

-- The rows, and the id of the next one.
pub record Cycles : Type 0 where
  pub rows : List CycleRow
  pub next_id : ℕ

abbrev pub opened : ℕ → ℕ → Instant → CycleRow
opened n region at_time = record {
  id = n;
  region = region;
  started_at = at_time;
  finished_at = none;
  status = still_open;
  lots_fetched = 0;
  new_lots = 0;
  error = none;
}

-- INSERT … RETURNING id
unfoldable pub open_cycle : ℕ → Instant → Cycles → ℕ × Cycles
open_cycle region at_time t = (
  t.next_id,
  record { rows = t.rows ++ opened t.next_id region at_time ∷ []; next_id = t.next_id + 1 },
)

abbrev pub closed : CycleResult → CycleRow → CycleRow
closed result row = record row {
  finished_at = some result.finished_at;
  status = result.status;
  lots_fetched = result.lots_fetched;
  new_lots = result.new_lots;
  error = result.error;
}

unfoldable pub find_cycle : ℕ → List CycleRow → Option CycleRow
find_cycle n [] = none
find_cycle n (r ∷ rs) = if r.id == n then some r else find_cycle n rs

-- UPDATE cycles SET … WHERE id = ?
unfoldable pub update_cycle : ℕ → CycleResult → List CycleRow → List CycleRow
update_cycle n result [] = []
update_cycle n result (r ∷ rs) =
    (if r.id == n then closed result r else r) ∷ update_cycle n result rs

-- `none` is the RuntimeError of an id that has no row.
unfoldable pub close_cycle : ℕ → CycleResult → Cycles → Option Cycles
close_cycle n result t = elim (find_cycle n t.rows) [
  | none ↦ none
  | some _ ↦ some (record t { rows = update_cycle n result t.rows })
]
