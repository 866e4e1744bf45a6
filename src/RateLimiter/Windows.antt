-- ===== src/RateLimiter/Windows.antt =====
-- The timestamps that the rate limiter keeps are the calls that it allowed.
use gektar_monitor.Prelude.{
  ℕ, ◌+◌, ◌≤◌, ◌≡◌, refl, sym, subst, ◌∙◌, String, Bool, true, false, ◌&&◌, List, [], ◌∷◌, ◌++◌,
  leb, ltb, length, length-append, length-select-le, count_if, if◌then◌else◌, str_eq, eq_iff, arith,
  Bool-cases, inl, inr,
}
use gektar_monitor.RateLimiter.{RateLimiter, within, acquire, run_calls}

-- The calls come in the order of their times, from `since` on.
abbrev pub InOrder : ℕ → List (String × ℕ) → Type 0
InOrder since [] = Unit
InOrder since (call ∷ calls) = (since ≤ call.1) × InOrder call.1 calls

-- The time of the last call.
abbrev pub last_time : ℕ → List (String × ℕ) → ℕ
last_time since [] = since
last_time since (call ∷ calls) = last_time call.1 calls

-- Whether a timestamp is in the window that ends at `x`.
abbrev pub counts : ℕ → ℕ → ℕ → Bool
counts window x t = ltb x (t + window)

-- The calls for a key that were allowed in the window that ends at `x`.
abbrev pub allowed_in : ℕ → String → ℕ → List (String × ℕ) → ℕ
allowed_in window key x = count_if (λ (a : String × ℕ). str_eq a.0 key && counts window x a.1)

count_within :
    (window now x : ℕ) (ts : List ℕ)
    → now ≤ x
    → count_if (counts window x) (within window now ts) ≡ count_if (counts window x) ts
count_within window now x [] le = refl
count_within window now x (t ∷ ts) le = ground (arith, count_within window now x ts le)

count_append :
    (p : ℕ → Bool) (ts : List ℕ) (t : ℕ)
    → count_if p (ts ++ t ∷ []) ≡ count_if p ts + (if p t then 1 else 0)
count_append p [] t = omega arith
count_append p (s ∷ ts) t = omega (arith, count_append p ts t)

pub count_le : (p : ℕ → Bool) (ts : List ℕ) → count_if p ts ≤ length ts
count_le p [] = omega arith
count_le p (t ∷ ts) = ground (arith, count_le p ts)

-- For each window that ends at `since` or later, the timestamps of the key are the calls that were
-- allowed, and they are no more than the limit.
pub record Faithful (key : String) (since : ℕ) (l : RateLimiter) (allowed : List (String × ℕ))
    : Type 0 where
  pub same :
      (x : ℕ)
      → since ≤ x
      → allowed_in l.window key x allowed ≡ count_if (counts l.window x) (l.windows key)
  pub few : length (l.windows key) ≤ l.max_requests

few_within : (window now m : ℕ) (ts : List ℕ) → length ts ≤ m → length (within window now ts) ≤ m
few_within window now m ts h = omega (arith, h, length-select-le (λ t. ltb now (t + window)) ts)

-- A call for the key itself.
own-Faithful :
    (key : String) (since now : ℕ) (l : RateLimiter) (allowed : List (String × ℕ))
    → since ≤ now
    → str_eq key key ≡ true
    → Faithful key since l allowed
    → Faithful key now
        (acquire key now l).1
        (if (acquire key now l).0 then (key, now) ∷ allowed else allowed)
unfolding acquire
own-Faithful key since now l allowed le self f =
    let ts = within l.window now (l.windows key) in
    let shrunk : (x : ℕ)
        → now ≤ x
        → allowed_in l.window key x allowed ≡ count_if (counts l.window x) ts =
      λ x later.
        f.same x (omega (arith, le, later))
        ∙ sym (count_within l.window now x (l.windows key) later) in
    elim (Bool-cases (leb l.max_requests (length ts))) [
      | inl full ↦
          rw (acquire, full)
            (record {
              same = λ x later. rw self (shrunk x later);
              few = rw self (few_within l.window now l.max_requests (l.windows key) f.few);
            })
      | inr room ↦
          rw (acquire, room)
            (record {
              same = λ x later.
                  rw self (omega (arith, shrunk x later, count_append (counts l.window x) ts now));
              few = rw self (ground (arith, length-append ts (now ∷ [])));
            })
    ]

-- A call for another key.
other-Faithful :
    (key k : String) (since now : ℕ) (l : RateLimiter) (allowed : List (String × ℕ))
    → since ≤ now
    → str_eq k key ≡ false
    → Faithful key since l allowed
    → Faithful key now
        (acquire k now l).1
        (if (acquire k now l).0 then (k, now) ∷ allowed else allowed)
unfolding acquire
other-Faithful key k since now l allowed le ne f =
    let ts = within l.window now (l.windows k) in
    elim (Bool-cases (leb l.max_requests (length ts))) [
      | inl full ↦
          rw (acquire, full)
            (record {
              same = λ x later. rw ne (f.same x (omega (arith, le, later)));
              few = rw ne f.few;
            })
      | inr room ↦
          rw (acquire, room)
            (record {
              same = λ x later. rw ne (omega (arith, f.same x (omega (arith, le, later))));
              few = rw ne f.few;
            })
    ]

acquire-Faithful :
    (key k : String) (since now : ℕ) (l : RateLimiter) (allowed : List (String × ℕ))
    → since ≤ now
    → Faithful key since l allowed
    → Faithful key now
        (acquire k now l).1
        (if (acquire k now l).0 then (k, now) ∷ allowed else allowed)
acquire-Faithful key k since now l allowed le f = elim (Bool-cases (str_eq k key)) [
  | inl e ↦
      let same : k ≡ key = (eq_iff k key).0 e in
      subst
        (λ j.
          Faithful key now (acquire j now l).1
            (if (acquire j now l).0 then (j, now) ∷ allowed else allowed))
        (sym same) (own-Faithful key since now l allowed le ((eq_iff key key).1 refl) f)
  | inr ne ↦ other-Faithful key k since now l allowed le ne f
]

acquire-same :
    (k : String) (now : ℕ) (l : RateLimiter)
    → ((acquire k now l).1.max_requests ≡ l.max_requests) × ((acquire k now l).1.window ≡ l.window)
unfolding acquire
acquire-same k now l =
    elim (Bool-cases (leb l.max_requests (length (within l.window now (l.windows k))))) [
      | inl e ↦ rw (acquire, e) (refl, refl)
      | inr e ↦ rw (acquire, e) (refl, refl)
    ]

-- Behind any calls in the order of their times the timestamps are those that were allowed.
pub run_calls-Faithful :
    (key : String) (since : ℕ) (calls : List (String × ℕ)) (l : RateLimiter)
    (allowed : List (String × ℕ))
    → InOrder since calls
    → Faithful key since l allowed
    → Faithful key
        (last_time since calls)
        (run_calls calls l allowed).0
        (run_calls calls l allowed).1
unfolding run_calls
run_calls-Faithful key since [] l allowed ordered f = f
run_calls-Faithful key since (call ∷ calls) l allowed ordered f =
    run_calls-Faithful key call.1 calls (acquire call.0 call.1 l).1 _ ordered.1
      (acquire-Faithful key call.0 since call.1 l allowed ordered.0 f)

pub run_calls-same :
    (calls : List (String × ℕ)) (l : RateLimiter) (allowed : List (String × ℕ))
    → ((run_calls calls l allowed).0.max_requests ≡ l.max_requests)
      × ((run_calls calls l allowed).0.window ≡ l.window)
unfolding run_calls
run_calls-same [] l allowed = (refl, refl)
run_calls-same (call ∷ calls) l allowed =
    let rest = run_calls-same calls (acquire call.0 call.1 l).1 _ in
    let one = acquire-same call.0 call.1 l in (rest.0 ∙ one.0, rest.1 ∙ one.1)
