-- ===== src/Supervisor.antt =====
-- `ThreadSupervisor` of src/fis_monitor/infra/thread_supervisor.py: `start` and `shutdown`. Times are
-- in microseconds. The log records and the dump of the stacks are left out.
pub mod Laws
use gektar_monitor.Prelude.{
  ℕ, ◌+◌, ◌-◌, String, Bool, true, false, List, [], ◌∷◌, ◌++◌, leb, if◌then◌else◌,
}

-- What one call of `shutdown` observes: `monotonic` is the clock when the deadline is set and then
-- ahead of each thread, and `alive` is `is_alive` of the thread at that place.
pub record Env : Type 0 where
  pub monotonic : ℕ → ℕ
  pub alive : ℕ → Bool

-- A `join` that was made, the time of the clock ahead of it, and its timeout.
pub record Join : Type 0 where
  pub name : String
  pub at_time : ℕ
  pub timeout : ℕ

pub record ShutdownReport : Type 0 where
  pub clean : Bool
  pub pending : List String

-- The threads by their names, in the order in which they were started.
pub record Supervisor : Type 0 where
  pub threads : List String
  pub stop_set : Bool
  pub shutdown_called : Bool

abbrev pub new_supervisor : Supervisor
new_supervisor = record { threads = []; stop_set = false; shutdown_called = false }

unfoldable pub start : String → Supervisor → Supervisor
start name s = record s { threads = s.threads ++ name ∷ [] }

abbrev pub note_alive : Bool → String → List String → List String
note_alive alive name pending = if alive then pending ++ name ∷ [] else pending

-- The loop over the threads from place `i` on, with the names and the joins so far.
unfoldable pub join_all :
    Env → ℕ → ℕ → List String → List String → List Join → List String × List Join
join_all env deadline i [] pending joins = (pending, joins)
join_all env deadline i (name ∷ threads) pending joins =
    let now = env.monotonic (i + 1) in
    let pending' = note_alive (env.alive i) name pending in
    if leb deadline now
    then join_all env deadline (i + 1) threads pending' joins
    else join_all env deadline (i + 1) threads pending'
        (joins ++ record { name = name; at_time = now; timeout = deadline - now } ∷ [])

abbrev pub is_empty : List String → Bool
is_empty [] = true
is_empty (name ∷ names) = false

-- The report, the joins, and the supervisor behind the call.
unfoldable pub shutdown : Env → ℕ → Supervisor → (ShutdownReport × List Join) × Supervisor
shutdown env grace_timeout s =
    if s.shutdown_called
    then ((record { clean = true; pending = [] }, []), s)
    else let (pending, joins) = join_all env (env.monotonic 0 + grace_timeout) 0 s.threads [] [] in
      (
        (record { clean = is_empty pending; pending = pending }, joins),
        record s { stop_set = true; shutdown_called = true },
      )
