-- ===== src/Session/Laws.antt =====
-- One job at a time.
use gektar_monitor.Prelude.{
  ◌≡◌, ◌≢◌, ◌↔◌, refl, ap, subst, sym, ◌∙◌, Bool, true, false, ◌&&◌, Option, none, some, List, [],
  ◌∷◌, if◌then◌else◌, arith, Bool-cases, inl, inr,
}
use gektar_monitor.Session.{
  Callback, callback_of, announces, handle, check, LoginOutcome, LoginService, Started, job_handle,
  browser_unavailable, login_busy, no_executor, submit_failed, start, outcome_of, on_done,
  mark_browser_unavailable, bind_executor, on_login_or_refresh_success, World, Event, starts,
  finishes, probes, binds, loses_browser, Seen, answered, ended, nothing, hook_due, handled, step,
  run,
}

abbrev pub is_job : Option Callback → Bool
is_job none = false
is_job (some callback) = true

-- The lock is held while a job runs.
abbrev pub IsLocked : LoginService → Type 0
IsLocked s = s.lock_held ≡ is_job s.active_job

-- The callback of the job that runs: a headed login or a refresh.
abbrev pub attached : Option Bool → Option Callback
attached none = none
attached (some headed) = some (callback_of headed)

abbrev pub Succeeds : Option LoginOutcome → Type 0
Succeeds none = ⊥
Succeeds (some outcome) = outcome.success ≡ true

-- From the job that runs first to the one that runs last, each one headed or not: a job starts when
-- none runs, the one that runs ends, and the hook is called at its end exactly when it was headed and
-- succeeded.
abbrev pub Flight : Option Bool → List (Event × Seen) → Option Bool → Type 0
Flight job [] last = job ≡ last
Flight job ((starts headed submits, answered job_handle) ∷ xs) last =
    (job ≡ none) × Flight (some headed) xs last
Flight job ((finishes result reaches, ended hook) ∷ xs) last =
    (headed : Bool) × (job ≡ some headed)
    × ((hook ≡ true) ↔ ((headed ≡ true) × Succeeds result))
    × Flight none xs last
Flight job (x ∷ xs) last = Flight job xs last

hook_due_iff :
    (headed : Bool) (result : Option LoginOutcome)
    → (hook_due (callback_of headed) result ≡ true) ↔ ((headed ≡ true) × Succeeds result)
hook_due_iff true none = (λ e. absurd (ground (arith, e)), λ h. absurd h.1)
hook_due_iff true (some outcome) = (λ e. (refl, e), λ h. h.1)
hook_due_iff false none = (λ e. absurd (ground (arith, e)), λ h. absurd h.1)
hook_due_iff false (some outcome) =
    (λ e. absurd (ground (arith, e)), λ h. absurd (ground (arith, h.0)))

-- What a start leads to.
pub data StartCase (headed : Bool) (s : LoginService) (r : Started × LoginService) : Type 0 where
  launched :
      s.active_job ≡ none
      → r.0 ≡ job_handle
      → r.1.active_job ≡ some (callback_of headed)
      → IsLocked r.1
      → StartCase headed s r
  refused : r.0 ≢ job_handle → r.1.active_job ≡ s.active_job → IsLocked r.1 → StartCase headed s r

not_job : (o : Option Callback) → is_job o ≡ false → o ≡ none
not_job none e = refl
not_job (some b) e = absurd (ground (arith, e))

start-StartCase :
    (headed submits : Bool) (s : LoginService)
    → IsLocked s
    → StartCase headed s (start headed submits s)
unfolding start
start-StartCase headed submits s h = elim (Bool-cases s.browser_available) [
  | inr missing ↦ rw (start, missing) (refused (λ e. absurd (ground (arith, e))) refl h)
  | inl present ↦ elim (Bool-cases s.lock_held) [
    | inl held ↦
        rw (start, present, held) (refused (λ e. absurd (ground (arith, e))) refl (sym held ∙ h))
    | inr open_lock ↦
        let idle = not_job s.active_job (sym h ∙ open_lock) in
        elim (Bool-cases s.executor_bound) [
          | inr unbound ↦
              rw (start, present, open_lock, unbound)
                (refused (λ e. absurd (ground (arith, e))) refl (sym open_lock ∙ h))
          | inl bound ↦ elim (Bool-cases submits) [
            | inl taken ↦
                rw (start, present, open_lock, bound, taken) (launched idle refl refl refl)
            | inr full ↦
                rw (start, present, open_lock, bound, full)
                  (refused (λ e. absurd (ground (arith, e))) refl (sym open_lock ∙ h))
          ]
        ]
  ]
]

launched-Flight :
    (headed submits : Bool) (job last : Option Bool) (x : Started) (xs : List (Event × Seen))
    → x ≡ job_handle
    → job ≡ none
    → Flight (some headed) xs last
    → Flight job ((starts headed submits, answered x) ∷ xs) last
launched-Flight headed submits job last x xs e idle h =
    subst (λ y. Flight job ((starts headed submits, answered y) ∷ xs) last) (sym e) (idle, h)

refused-Flight :
    (headed submits : Bool) (job last : Option Bool) (x : Started) (xs : List (Event × Seen))
    → x ≢ job_handle
    → Flight job xs last
    → Flight job ((starts headed submits, answered x) ∷ xs) last
refused-Flight headed submits job last job_handle xs other h = absurd (other refl)
refused-Flight headed submits job last browser_unavailable xs other h = h
refused-Flight headed submits job last login_busy xs other h = h
refused-Flight headed submits job last no_executor xs other h = h
refused-Flight headed submits job last submit_failed xs other h = h

attached-none : (job : Option Bool) → attached job ≡ none → job ≡ none
attached-none none e = refl
attached-none (some headed) e = absurd (ground (arith, e))

-- The end of a job, when one runs.
abbrev pub finished : Callback → Option LoginOutcome → Bool → World → Seen × World
finished callback result reaches w = (
  ended (hook_due callback result),
  record {
    login = on_done result w.login;
    table =
        if (outcome_of result).success && reaches
        then on_login_or_refresh_success w.table
        else w.table;
  },
)

pub finishes_lem :
    (result : Option LoginOutcome) (reaches : Bool) (w : World) (o : Option Callback)
    → w.login.active_job ≡ o
    → step (finishes result reaches) w
      ≡ (elim o [ none ↦ (nothing, w) | some callback ↦ finished callback result reaches w ])
unfolding step
finishes_lem result reaches w o e =
    ap
      (λ (x : Option Callback). elim x [
        | none ↦ (nothing, w)
        | some callback ↦ finished callback result reaches w
      ])
      e

-- The flight behind one event.
abbrev Flown : Option Bool → Event → List Event → Seen × World → Type 0
Flown job e events r =
    (last : Option Bool) × Flight job ((e, r.0) ∷ (run events r.1).0) last
    × ((run events r.1).1.login.active_job ≡ attached last)
    × IsLocked (run events r.1).1.login

-- Over any sequence of operations, at most one job of the two kinds is in flight: a login or a refresh
-- starts only when none runs and the last one has ended, whatever its end was, and at the end of each
-- the hook of the headed login is called exactly when the job was a headed login and its future holds
-- an outcome that is a success. The callback that is attached at the end is the one of the last job,
-- and the lock is held at the end exactly while a job runs, also behind refusals and failures to
-- submit. At the start the lock agrees with the job that runs, if any.
pub run-Flight :
    (events : List Event) (w : World) (job : Option Bool)
    → IsLocked w.login
    → w.login.active_job ≡ attached job
    → (last : Option Bool) × Flight job (run events w).0 last
      × ((run events w).1.login.active_job ≡ attached last)
      × IsLocked (run events w).1.login
unfolding run step bind_executor mark_browser_unavailable on_done
run-Flight [] w job h a = (job, refl, a, h)
run-Flight (starts headed submits ∷ events) w job h a =
    let w' : World = record w { login = (start headed submits w.login).1 } in
    elim (start-StartCase headed submits w.login h) [
      | launched idle e now_there k ↦
          let (last, flight, kept, locked) = run-Flight events w' (some headed) k now_there in
          (
            last,
            launched-Flight headed submits job last _ _ e (attached-none job (sym a ∙ idle)) flight,
            kept,
            locked,
          )
      | refused other unchanged k ↦
          let (last, flight, kept, locked) = run-Flight events w' job k (unchanged ∙ a) in
          (last, refused-Flight headed submits job last _ _ other flight, kept, locked)
    ]
run-Flight (finishes result reaches ∷ events) w none h a =
    subst (Flown none (finishes result reaches) events) (sym (finishes_lem result reaches w none a))
      (run-Flight events w none h a)
run-Flight (finishes result reaches ∷ events) w (some headed) h a =
    let (last, flight, kept, locked) =
      run-Flight events (finished (callback_of headed) result reaches w).1 none refl refl in
    subst (Flown (some headed) (finishes result reaches) events)
      (sym (finishes_lem result reaches w (some (callback_of headed)) a))
      (last, (headed, refl, hook_due_iff headed result, flight), kept, locked)
run-Flight (probes resp env ∷ events) w job h a =
    run-Flight events (record w { table = (handled (check resp) env w.table).1 }) job h a
run-Flight (announces env ∷ events) w job h a =
    run-Flight events (record w { table = (handle env w.table).1 }) job h a
run-Flight (binds ∷ events) w job h a =
    run-Flight events (record w { login = bind_executor w.login }) job h a
run-Flight (loses_browser ∷ events) w job h a =
    run-Flight events (record w { login = mark_browser_unavailable w.login }) job h a
