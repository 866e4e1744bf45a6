-- ===== src/RateLimiter/Laws.antt =====
-- The bound of the rate limiter.
use gektar_monitor.Prelude.{
  not, none, some, ℕ, ◌≤◌, ◌≡◌, refl, sym, subst, ◌∙◌, String, Bool, true, false, List, [], ◌∷◌,
  leb, ltb, length, count_if, if◌then◌else◌, arith, Bool-cases, inl, inr,
}
use gektar_monitor.RateLimiter.{RateLimiter, new_limiter, within, acquire, run_calls}
use gektar_monitor.RateLimiter.Windows.{
  InOrder, last_time, counts, allowed_in, count_le, Faithful, run_calls-Faithful, run_calls-same,
}

past_guards :
    (a b : Bool) (x l : RateLimiter)
    → (if a then none else if b then none else some x) ≡ some l
    → x ≡ l
past_guards true b x l e = cc e
past_guards false true x l e = cc e
past_guards false false x l e = cc e

new_limiter-windows :
    (max_requests window : ℕ) (l : RateLimiter)
    → new_limiter max_requests window ≡ some l
    → (l.max_requests ≡ max_requests)
      × ((l.window ≡ window) × ((key : String) → l.windows key ≡ []))
unfolding new_limiter
new_limiter-windows max_requests window l e =
    subst
      (λ (r : RateLimiter).
        (r.max_requests ≡ max_requests)
        × ((r.window ≡ window) × ((key : String) → r.windows key ≡ [])))
      (past_guards (ltb max_requests 1) (leb window 0) _ l e) (refl, (refl, λ key. refl))

length-within :
    (window now : ℕ) (ts : List ℕ) → length (within window now ts) ≡ count_if (counts window now) ts
length-within window now [] = refl
length-within window now (t ∷ ts) = ground (arith, length-within window now ts)

acquire-answer :
    (key : String) (now : ℕ) (l : RateLimiter)
    → (acquire key now l).0
      ≡ not (leb l.max_requests (length (within l.window now (l.windows key))))
unfolding acquire
acquire-answer key now l =
    elim (Bool-cases (leb l.max_requests (length (within l.window now (l.windows key))))) [
      | inl e ↦ rw (acquire, e) refl
      | inr e ↦ rw (acquire, e) refl
    ]

not-leb : (m c : ℕ) → not (leb m c) ≡ ltb c m
not-leb m c = ground arith

-- What a faithful limiter answers, and the bound that it keeps.
Faithful-Bounded :
    (key : String) (since now : ℕ) (l : RateLimiter) (allowed : List (String × ℕ))
    → Faithful key since l allowed
    → since ≤ now
    → ((acquire key now l).0 ≡ ltb (allowed_in l.window key now allowed) l.max_requests)
      × ((x : ℕ) → since ≤ x → allowed_in l.window key x allowed ≤ l.max_requests)
Faithful-Bounded key since now l allowed f later = (
  rw (acquire-answer key now l, length-within l.window now (l.windows key), f.same now later)
      (not-leb l.max_requests (count_if (counts l.window now) (l.windows key))),
  λ x le. omega (arith, f.same x le, f.few, count_le (counts l.window x) (l.windows key)),
)

-- A limiter that was built without an error has been asked by calls in the order of their times. A
-- further call, not before the last of them, is allowed exactly if fewer calls for its key than the
-- limit were allowed in the window that ends with it; and for each key and each window that ends
-- with the last call or later, no more calls than the limit were allowed.
pub acquire-Bounded :
    (max_requests window since now : ℕ) (key : String) (l : RateLimiter) (calls : List (String × ℕ))
    → new_limiter max_requests window ≡ some l
    → InOrder since calls
    → last_time since calls ≤ now
    → ((acquire key now (run_calls calls l []).0).0
        ≡ ltb (allowed_in window key now (run_calls calls l []).1) max_requests)
      × ((x : ℕ)
          → last_time since calls ≤ x
          → allowed_in window key x (run_calls calls l []).1 ≤ max_requests)
acquire-Bounded max_requests window since now key l calls built ordered later =
    let begin = new_limiter-windows max_requests window l built in
    let f =
      run_calls-Faithful key since calls l [] ordered (record {
        same = λ x le. rw (begin.1.1 key) refl;
        few = rw (begin.1.1 key) (omega arith);
      }) in
    let kept = run_calls-same calls l [] in
    subst
      (λ w.
        ((acquire key now (run_calls calls l []).0).0
          ≡ ltb (allowed_in w key now (run_calls calls l []).1) max_requests)
        × ((x : ℕ)
            → last_time since calls ≤ x
            → allowed_in w key x (run_calls calls l []).1 ≤ max_requests))
      (kept.1 ∙ begin.1.0) (rw (sym (kept.0 ∙ begin.0)) (Faithful-Bounded key _ now _ _ f later))
