-- ===== src/Tests/Limits.antt =====
-- The rate limiter and the thread supervisor on concrete inputs.
use gektar_monitor.Prelude.{
  ℕ, ◌≡◌, ◌≤◌, refl, true, false, String, List, [], ◌∷◌, ltb, leb, if◌then◌else◌, ◌+◌, arith,
}
use gektar_monitor.Supervisor.{
  Env, Join, Supervisor, new_supervisor, start, shutdown, is_empty, join_all,
}
use gektar_monitor.Supervisor.Laws.{shutdown-Stops, alive_at, WithinDeadline, starts}
use gektar_monitor.RateLimiter.{RateLimiter, new_limiter, acquire, run_calls}
use gektar_monitor.RateLimiter.Laws.{acquire-Bounded}
use gektar_monitor.RateLimiter.Windows.{allowed_in, last_time}

abbrev two_a_minute : RateLimiter
two_a_minute = record { max_requests = 2; window = 60; windows = λ key. [] }

abbrev three_calls : List (String × ℕ)
three_calls = ("10.0.0.1", 5) ∷ ("10.0.0.1", 10) ∷ ("10.0.0.1", 20) ∷ []

-- The third call within a minute is refused, and a call a minute behind the first is allowed again.
third_refused :
    ((run_calls three_calls two_a_minute []).1 ≡ ("10.0.0.1", 10) ∷ ("10.0.0.1", 5) ∷ [])
    × ((acquire "10.0.0.1" 65 (run_calls three_calls two_a_minute []).0).0 ≡ true)
unfolding run_calls acquire
third_refused = (refl, refl)

acquire-Bounded_example :
    ((acquire "10.0.0.1" 30 (run_calls three_calls two_a_minute []).0).0
      ≡ ltb (allowed_in 60 "10.0.0.1" 30 (run_calls three_calls two_a_minute []).1) 2)
    × ((x : ℕ)
        → last_time 0 three_calls ≤ x
        → allowed_in 60 "10.0.0.1" x (run_calls three_calls two_a_minute []).1 ≤ 2)
unfolding new_limiter
acquire-Bounded_example =
    acquire-Bounded 2 60 0 30 "10.0.0.1" two_a_minute three_calls refl
      (omega arith, (omega arith, (omega arith, tt))) (omega arith)

-- The second of two threads does not stop, and its join takes the time that was left.
abbrev stuck_second : Env
stuck_second = record { monotonic = λ n. if leb n 1 then 100 else 150; alive = λ i. leb 1 i }

abbrev two_threads : Supervisor
two_threads = start "notifier" (start "full-scan" new_supervisor)

abbrev stuck_joins : List Join
stuck_joins = record { name = "full-scan"; at_time = 100; timeout = 35 } ∷ []

-- The thread behind the deadline is not joined, only asked whether it is alive.
stuck_reported :
    (shutdown stuck_second 35 two_threads).0
    ≡ (record { clean = false; pending = "notifier" ∷ [] }, stuck_joins)
unfolding start shutdown join_all
stuck_reported = refl

shutdown-Stops_example :
    ((shutdown stuck_second 35 two_threads).1.stop_set ≡ true)
    × (((shutdown stuck_second 35 two_threads).0.0.pending
          ≡ alive_at stuck_second 0 two_threads.threads)
        × (((shutdown stuck_second 35 two_threads).0.0.clean
              ≡ is_empty (alive_at stuck_second 0 two_threads.threads))
            × (WithinDeadline
                  (stuck_second.monotonic 0 + 35)
                  (shutdown stuck_second 35 two_threads).0.1
                × (shutdown stuck_second 35
                      (starts ("session" ∷ []) (shutdown stuck_second 35 two_threads).1)
                    ≡ (
                      (record { clean = true; pending = [] }, []),
                      starts ("session" ∷ []) (shutdown stuck_second 35 two_threads).1,
                    )))))
unfolding start
shutdown-Stops_example =
    shutdown-Stops stuck_second stuck_second 35 35 two_threads ("session" ∷ []) refl
