-- ===== src/RateLimiter.antt =====
-- `RateLimiter` of src/fis_monitor/web/rate_limit.py. Times are in microseconds; `t > now - window`
-- is written without a subtraction. The lock makes one call after the other.
pub mod Laws
pub mod Windows
use gektar_monitor.Prelude.{
  ℕ, ◌+◌, String, Bool, true, false, Option, none, some, List, [], ◌∷◌, ◌++◌, leb, ltb, length,
  select, if◌then◌else◌, str_eq,
}

-- `windows` is the dictionary: a key that is missing has no timestamps.
pub record RateLimiter : Type 0 where
  pub max_requests : ℕ
  pub window : ℕ
  pub windows : String → List ℕ

-- `none` is a ValueError of the constructor.
unfoldable pub new_limiter : ℕ → ℕ → Option RateLimiter
new_limiter max_requests window =
    if ltb max_requests 1
    then none
    else if leb window 0
    then none
    else some (record { max_requests = max_requests; window = window; windows = λ key. [] })

abbrev pub written : String → List ℕ → (String → List ℕ) → String → List ℕ
written key timestamps windows k = if str_eq key k then timestamps else windows k

-- The timestamps that are left of a window at `now`.
abbrev pub within : ℕ → ℕ → List ℕ → List ℕ
within window now = select (λ t. ltb now (t + window))

unfoldable pub acquire : String → ℕ → RateLimiter → Bool × RateLimiter
acquire key now l =
    let timestamps = within l.window now (l.windows key) in
    if leb l.max_requests (length timestamps)
    then (false, record l { windows = written key timestamps l.windows })
    else (true, record l { windows = written key (timestamps ++ now ∷ []) l.windows })

-- A sequence of calls, and those that were allowed, the last one first.
unfoldable pub run_calls :
    List (String × ℕ) → RateLimiter → List (String × ℕ) → RateLimiter × List (String × ℕ)
run_calls [] l allowed = (l, allowed)
run_calls (call ∷ calls) l allowed =
    let answer = acquire call.0 call.1 l in
    run_calls calls answer.1 (if answer.0 then call ∷ allowed else allowed)
