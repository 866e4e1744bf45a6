-- ===== src/Supervisor/Laws.antt =====
-- What a shutdown reports, and how long it waits.
use gektar_monitor.Prelude.{
  ℕ, ◌+◌, ◌≤◌, ◌≡◌, refl, ap, sym, ◌∙◌, String, Bool, true, false, List, [], ◌∷◌, ◌++◌, leb, arith,
  Bool-cases, inl, inr, if◌then◌else◌,
}
use gektar_monitor.Supervisor.{
  Env, Join, Supervisor, start, is_empty, join_all, note_alive, shutdown,
}

-- The threads that were alive at their place.
abbrev pub alive_at : Env → ℕ → List String → List String
alive_at env i [] = []
alive_at env i (name ∷ threads) =
    if env.alive i then name ∷ alive_at env (i + 1) threads else alive_at env (i + 1) threads

-- Each join ends by the deadline if it keeps to its timeout.
abbrev pub WithinDeadline : ℕ → List Join → Type 0
WithinDeadline deadline [] = Unit
WithinDeadline deadline (j ∷ joins) =
    (j.at_time + j.timeout ≤ deadline) × WithinDeadline deadline joins

-- Further starts.
abbrev pub starts : List String → Supervisor → Supervisor
starts [] s = s
starts (name ∷ names) s = starts names (start name s)

append_nil : (xs : List String) → xs ++ [] ≡ xs
append_nil [] = refl
append_nil (x ∷ xs) = ap (◌∷◌ x) (append_nil xs)

append_one :
    (xs : List String) (y : String) (ys : List String) → (xs ++ y ∷ []) ++ ys ≡ xs ++ y ∷ ys
append_one [] y ys = refl
append_one (x ∷ xs) y ys = ap (◌∷◌ x) (append_one xs y ys)

WithinDeadline-append :
    (deadline : ℕ) (joins : List Join) (j : Join)
    → WithinDeadline deadline joins
    → j.at_time + j.timeout ≤ deadline
    → WithinDeadline deadline (joins ++ j ∷ [])
WithinDeadline-append deadline [] j h le = (le, tt)
WithinDeadline-append deadline (k ∷ joins) j h le =
    (h.0, WithinDeadline-append deadline joins j h.1 le)

note_alive-append :
    (b : Bool) (name : String) (pending rest : List String)
    → note_alive b name pending ++ rest ≡ pending ++ (if b then name ∷ rest else rest)
note_alive-append true name pending rest = append_one pending name rest
note_alive-append false name pending rest = refl

join_all-pending :
    (env : Env) (deadline i : ℕ) (threads pending : List String) (joins : List Join)
    → (join_all env deadline i threads pending joins).0 ≡ pending ++ alive_at env i threads
unfolding join_all
join_all-pending env deadline i [] pending joins = sym (append_nil pending)
join_all-pending env deadline i (name ∷ threads) pending joins =
    elim (Bool-cases (leb deadline (env.monotonic (i + 1)))) [
      | inl late ↦
          rw (join_all, late)
            (join_all-pending env deadline (i + 1) threads _ _
              ∙ note_alive-append (env.alive i) name pending (alive_at env (i + 1) threads))
      | inr early ↦
          rw (join_all, early)
            (join_all-pending env deadline (i + 1) threads _ _
              ∙ note_alive-append (env.alive i) name pending (alive_at env (i + 1) threads))
    ]

join_all-WithinDeadline :
    (env : Env) (deadline i : ℕ) (threads pending : List String) (joins : List Join)
    → WithinDeadline deadline joins
    → WithinDeadline deadline (join_all env deadline i threads pending joins).1
unfolding join_all
join_all-WithinDeadline env deadline i [] pending joins h = h
join_all-WithinDeadline env deadline i (name ∷ threads) pending joins h =
    elim (Bool-cases (leb deadline (env.monotonic (i + 1)))) [
      | inl late ↦
          rw (join_all, late) (join_all-WithinDeadline env deadline (i + 1) threads _ joins h)
      | inr early ↦
          rw (join_all, early)
            (join_all-WithinDeadline env deadline (i + 1) threads _ _
              (WithinDeadline-append deadline joins _ h (ground (arith, early))))
    ]

starts-called :
    (names : List String) (s : Supervisor) → (starts names s).shutdown_called ≡ s.shutdown_called
unfolding start
starts-called [] s = refl
starts-called (name ∷ names) s = starts-called names (start name s)

shutdown-again :
    (env : Env) (grace_timeout : ℕ) (s : Supervisor)
    → s.shutdown_called ≡ true
    → shutdown env grace_timeout s ≡ ((record { clean = true; pending = [] }, []), s)
unfolding shutdown
shutdown-again env grace_timeout s called = rw (shutdown, called) refl

-- The first shutdown sets the stop event. It reports the threads that are still alive at their
-- place, in the order in which they were started, as pending, and it is clean exactly if there are
-- none. Each join that it makes would end by the one deadline for all threads. Whatever threads are
-- started after it, a second shutdown changes nothing, makes no join and reports a clean stop, also
-- if the first one did not.
pub shutdown-Stops :
    (env again : Env) (grace_timeout later : ℕ) (s : Supervisor) (names : List String)
    → s.shutdown_called ≡ false
    → ((shutdown env grace_timeout s).1.stop_set ≡ true)
      × (((shutdown env grace_timeout s).0.0.pending ≡ alive_at env 0 s.threads)
          × (((shutdown env grace_timeout s).0.0.clean ≡ is_empty (alive_at env 0 s.threads))
              × (WithinDeadline (env.monotonic 0 + grace_timeout) (shutdown env grace_timeout s).0.1
                  × (shutdown again later (starts names (shutdown env grace_timeout s).1) ≡ (
                    (record { clean = true; pending = [] }, []),
                    starts names (shutdown env grace_timeout s).1,
                  )))))
unfolding shutdown
shutdown-Stops env again grace_timeout later s names fresh =
    let deadline = env.monotonic 0 + grace_timeout in
    let reported = join_all-pending env deadline 0 s.threads [] [] in
    (
      rw (shutdown, fresh) refl,
      (
        rw (shutdown, fresh) reported,
        (
          rw (shutdown, fresh) (ap is_empty reported),
          (
            rw (shutdown, fresh) (join_all-WithinDeadline env deadline 0 s.threads [] [] tt),
            shutdown-again again later _
                (starts-called names (shutdown env grace_timeout s).1 ∙ rw (shutdown, fresh) refl),
          ),
        ),
      ),
    )
