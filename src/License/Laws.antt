-- ===== src/License/Laws.antt =====
-- The end of the thread that watches over the license, and the time of its next check.
use gektar_monitor.Prelude.{
  ℕ, zero, suc, ◌+◌, ◌%◌, ◌≤◌, ◌<◌, ◌≡◌, ◌⊎◌, refl, sym, subst, String, true, false, Option, none,
  some, List, [], ◌∷◌, ltb, arith, Bool-cases, inl, inr, if◌then◌else◌,
}
use gektar_monitor.License.{
  Env, World, Action, check_valid, check_expired, check_error, crashed, LicenseResult,
  LicenseStatus, valid, expired, invalid, Loaded, loaded, os_error, raising, Pass, ended, again,
  logged, banner, license_expired, publish_failed, watchdog_armed, shutdown_requested,
  handle_expiry, on_verified, check_once, on_checked, wait_and_check, watch, run_forever,
  next_check_at, day, one_minute, five_seconds,
}

-- The next check is at one minute past midnight, behind `now` and at most a day behind it.
next_check_at-follows :
    (now : ℕ)
    → (now < next_check_at now)
      × ((next_check_at now ≤ now + day) × (next_check_at now % day ≡ one_minute))
unfolding next_check_at
next_check_at-follows now = ground arith

-- What the check at a reading of the clock finds: whether the license is valid then.
abbrev pub Finds : Env → ℕ → Option LicenseResult → Type 0
Finds env t found =
    (key : String) × (env.load_key t ≡ loaded key)
    × (env.secret_raises t ≡ false)
    × (some (env.verify key (env.now t)) ≡ found)

-- The log of checks that each found the license valid, the last one first.
abbrev pub AllValid : Env → List Action → Type 0
AllValid env [] = Unit
AllValid env (a ∷ log) =
    (a ≡ check_valid)
    × ((t : ℕ) × (r : LicenseResult) × Finds env t (some r) × (r.status ≡ valid))
    × AllValid env log

-- Why a check does not let the thread go on, the record of it, and the day that is told.
pub data Fails (env : Env) (t : ℕ) : Action → Option ℕ → Type 0 where
  has_expired :
      (r : LicenseResult)
      → Finds env t (some r)
      → r.status ≡ expired
      → Fails env t check_expired r.expires_at
  is_invalid :
      (r : LicenseResult)
      → Finds env t (some r)
      → r.status ≡ invalid
      → Fails env t check_error r.expires_at
  no_file : env.load_key t ≡ os_error → Fails env t check_error none
  key_raises : env.load_key t ≡ raising → Fails env t crashed none
  secret_raises :
      (key : String)
      → env.load_key t ≡ loaded key
      → env.secret_raises t ≡ true
      → Fails env t crashed none

record Quiet (env : Env) (w : World) : Type 0 where
  only_valid : AllValid env w.log
  unhandled : w.expiry_handled ≡ false

-- What the event of the expiry becomes.
abbrev pub Announced : Env → Option ℕ → Action → Type 0
Announced env expires_at a =
    ((env.publish_raises ≡ false) × (a ≡ license_expired expires_at))
    ⊎ ((env.publish_raises ≡ true) × (a ≡ publish_failed))

-- Either the stop event was found set and each check found the license valid, or the first check that
-- did not is followed by the actions of one expiry.
pub data Ended (env : Env) (w : World) : Type 0 where
  stopped :
      (t : ℕ)
      → (env.stop_set t ≡ true) ⊎ (env.wait_stopped t ≡ true)
      → AllValid env w.log
      → w.expiry_handled ≡ false
      → Ended env w
  expiry :
      (t : ℕ) (cause event : Action) (expires_at : Option ℕ) (before : List Action)
      → Fails env t cause expires_at
      → AllValid env before
      → Announced env expires_at event
      → w.log ≡ shutdown_requested ∷ watchdog_armed ∷ event ∷ banner expires_at ∷ cause ∷ before
      → w.expiry_handled ≡ true
      → Ended env w

abbrev Passed : Env → ℕ → Pass → Type 0
Passed env t (ended w) = Ended env w
Passed env t (again w) = Quiet env w × (t < w.tick)

announced_lem :
    (env : Env) (expires_at : Option ℕ)
    → Announced env expires_at
        (if env.publish_raises then publish_failed else license_expired expires_at)
announced_lem env expires_at = elim (Bool-cases env.publish_raises) [
  | inl r ↦ inr (r, ground (arith, r))
  | inr r ↦ inl (r, ground (arith, r))
]

expires :
    (env : Env) (t : ℕ) (expires_at : Option ℕ) (a : Action) (w : World)
    → Fails env t a expires_at
    → Quiet env w
    → Ended env (handle_expiry env expires_at (logged a w))
unfolding handle_expiry
expires env t expires_at a w fails q =
    rw (handle_expiry, q.unhandled)
      (expiry t a _ expires_at w.log fails q.only_valid (announced_lem env expires_at) refl refl)

verified-Passed :
    (env : Env) (s t : ℕ) (result : LicenseResult) (w : World)
    → Finds env t (some result)
    → s < w.tick
    → Quiet env w
    → Passed env s (on_checked env (on_verified env result w))
unfolding on_verified
verified-Passed env s t result w found lt q = by_status result.status refl
  where
    by_status :
        (status : LicenseStatus)
        → result.status ≡ status
        → Passed env s (on_checked env (on_verified env result w))
    by_status valid e =
        rw (on_verified, e)
          (
            record {
              only_valid = (refl, (t, result, found, e), q.only_valid);
              unhandled = q.unhandled;
            },
            lt,
          )
    by_status expired e =
        rw (on_verified, e)
          (expires env t result.expires_at check_expired w (has_expired result found e) q)
    by_status invalid e =
        rw (on_verified, e)
          (expires env t result.expires_at check_error w (is_invalid result found e) q)

ticked : (env : Env) (w : World) (n : ℕ) → Quiet env w → Quiet env (record w { tick = n })
ticked env w n q = record { only_valid = q.only_valid; unhandled = q.unhandled }

check_once-Passed :
    (env : Env) (t : ℕ) (w : World)
    → t ≤ w.tick
    → Quiet env w
    → Passed env t (on_checked env (check_once env w))
unfolding check_once
check_once-Passed env t w le q = by_key (env.load_key w.tick) refl
  where
    w' : World
    w' = record w { tick = w.tick + 1 }

    by_key :
        (k : Loaded) → env.load_key w.tick ≡ k → Passed env t (on_checked env (check_once env w))
    by_key os_error e =
        rw (check_once, e)
          (expires env w.tick none check_error _ (no_file e) (ticked env w (w.tick + 1) q))
    by_key raising e =
        rw (check_once, e)
          (expires env w.tick none crashed _ (key_raises e) (ticked env w (w.tick + 1) q))
    by_key (loaded key) e = elim (Bool-cases (env.secret_raises w.tick)) [
      | inl r ↦
          rw (check_once, e, r)
            (expires env w.tick none crashed _ (secret_raises key e r)
              (ticked env w (w.tick + 1) q))
      | inr r ↦
          rw (check_once, e, r)
            (verified-Passed env t w.tick (env.verify key (env.now w.tick)) _ (key, e, r, refl)
              (omega (arith, le)) (ticked env w (w.tick + 1) q))
    ]

wait_and_check-Passed :
    (env : Env) (w : World) → Quiet env w → Passed env w.tick (wait_and_check env w)
unfolding wait_and_check
wait_and_check-Passed env w q = elim (Bool-cases (env.wait_stopped (w.tick + 1))) [
  | inl s ↦ rw (wait_and_check, s) (stopped (w.tick + 1) (inr s) q.only_valid q.unhandled)
  | inr s ↦
      elim (Bool-cases
        (ltb (env.now (w.tick + 2) + five_seconds) (next_check_at (env.now w.tick)))) [
          | inl early ↦ rw (wait_and_check, s, early) (ticked env w (w.tick + 3) q, omega arith)
          | inr late ↦
              rw (wait_and_check, s, late)
                (check_once-Passed env w.tick _ (omega arith) (ticked env w (w.tick + 3) q))
        ]
]

-- The stop event is set at the reading `last` and stays so.
abbrev pub StopsBy : Env → ℕ → Type 0
StopsBy env last = (t : ℕ) → last ≤ t → env.stop_set t ≡ true

abbrev pub Ends : Env → Option World → Type 0
Ends env o = (w : World) × (o ≡ some w) × Ended env w

behind_pass-Ends :
    (env : Env) (t fuel : ℕ) (p : Pass)
    → Passed env t p
    → ((w : World) → Quiet env w → t < w.tick → Ends env (watch env fuel w))
    → Ends env (elim p [ ended w ↦ some w | again w ↦ watch env fuel w ])
behind_pass-Ends env t fuel (ended w) h k = (w, refl, h)
behind_pass-Ends env t fuel (again w) h k = k w h.0 h.1

not_stopped : (env : Env) (last t : ℕ) → StopsBy env last → env.stop_set t ≡ false → t < last
not_stopped env last t stops s = elim (Bool-cases (ltb t last)) [
  | inl e ↦ ground (arith, e)
  | inr e ↦ cc (s, stops t (ground (arith, e)))
]

watch-Ends :
    (env : Env) (last fuel : ℕ) (w : World)
    → StopsBy env last
    → last < fuel + w.tick
    → 0 < fuel
    → Quiet env w
    → Ends env (watch env fuel w)
unfolding watch
watch-Ends env last zero w stops enough some_fuel q = absurd (omega (arith, some_fuel))
watch-Ends env last (suc fuel) w stops enough some_fuel q =
    elim (Bool-cases (env.stop_set w.tick)) [
      | inl s ↦ (w, rw (watch, s) refl, stopped w.tick (inl s) q.only_valid q.unhandled)
      | inr s ↦
          let early : w.tick < last = not_stopped env last w.tick stops s in
          rw (watch, s)
            (behind_pass-Ends env w.tick fuel (wait_and_check env w) (wait_and_check-Passed env w q)
              (λ w' q' later.
                watch-Ends env last fuel w' stops (omega (arith, enough, later))
                  (omega (arith, enough, early)) q'))
    ]

-- A thread that has handled no expiry and whose stop event is set at some time returns. Then it found
-- that event set, each of its checks read a key and a secret and the verifier called the license valid,
-- and nothing else was done; or the first check for which this does not hold is followed by one expiry:
-- the banner, the event or the record of its failure, the watchdog and the request to shut down, in
-- this order and once. Such a check is recorded as expired when the verifier says so, as an error when
-- the license is invalid or the file of the key cannot be read, and as a crash when a provider raises;
-- the day that is told is the one of the verifier, or none.
pub run_forever-Ended :
    (env : Env) (last : ℕ) (w : World)
    → StopsBy env last
    → w.log ≡ []
    → w.expiry_handled ≡ false
    → Ends env (run_forever env (suc last) w)
unfolding run_forever
run_forever-Ended env last w stops fresh unhandled =
    behind_pass-Ends env 0 (suc last) (on_checked env (check_once env w))
      (check_once-Passed env 0 w (omega arith)
        (record { only_valid = subst (AllValid env) (sym fresh) tt; unhandled = unhandled }))
      (λ w' q later. watch-Ends env last (suc last) w' stops (omega arith) (omega arith) q)
