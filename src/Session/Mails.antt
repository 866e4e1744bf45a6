-- ===== src/Session/Mails.antt =====
-- One round of mails between two successful logins.
use gektar_monitor.Prelude.{
  some, none, map, ◌≡◌, refl, subst, sym, ◌∙◌, String, Bool, true, false, not, ◌&&◌, ◌||◌, List, [],
  ◌∷◌, ◌==◌, is_empty, if◌then◌else◌, arith, Bool-cases, Option-cases, inl, inr,
}
use gektar_monitor.Dnd.{is_active}
use gektar_monitor.StateTable.{Table, get, set}
use gektar_monitor.StateTable.Laws.{get-set, get-delete}
use gektar_monitor.Session.{
  announces, announced, HttpResponse, check, start, outcome_of, mark_browser_unavailable,
  bind_executor, sent_key, Mailing, Mails, send_all, any_sent, is_some, handle,
  on_login_or_refresh_success, World, Event, starts, finishes, probes, binds, loses_browser, Seen,
  ended, mailed, handled, step, run,
}
use gektar_monitor.Session.Laws.{finished, finishes_lem}

-- The site does not show the cabinet.
abbrev pub is_lost : HttpResponse → Bool
is_lost resp = resp.at_login || not (resp.status == 200)

-- Whether a round of mails is due; `sent` says that one was made since the last success.
abbrev pub round_due : Bool → Mailing → Bool
round_due sent env = env.enabled && (not sent && not (is_active env.dnd_until env.now))

abbrev pub is_due : Bool → HttpResponse → Mailing → Bool
is_due sent resp env = is_lost resp && round_due sent env

abbrev pub due_mails : Bool → Mailing → Mails
due_mails due env =
    if due then map (λ recipient. (recipient, env.delivers recipient)) env.recipients else []

abbrev pub Rounds : Bool → List (Event × Seen) → Type 0
Rounds sent [] = Unit
Rounds sent ((probes resp env, mailed status mails) ∷ xs) =
    (mails ≡ due_mails (is_due sent resp env) env) × Rounds (sent || is_due sent resp env) xs
Rounds sent ((announces env, announced mails) ∷ xs) =
    (mails ≡ due_mails (round_due sent env) env) × Rounds (sent || round_due sent env) xs
Rounds sent ((finishes result reaches, ended hook) ∷ xs) =
    Rounds (sent && not ((outcome_of result).success && reaches)) xs
Rounds sent (x ∷ xs) = Rounds sent xs

or_false : (b : Bool) → (b || false) ≡ b
or_false true = refl
or_false false = refl

or_true : (b : Bool) → (b || true) ≡ true
or_true true = refl
or_true false = refl

send_all_none :
    (delivers : String → Bool) (rs : List String) → is_empty rs ≡ true → [] ≡ send_all delivers rs
send_all_none delivers [] e = refl
send_all_none delivers (r ∷ rs) e = absurd (ground (arith, e))

stored : (t : Table) → is_some (get sent_key (set sent_key "1" t)) ≡ true
stored t = rw (get-set sent_key "1" t) refl

handle_lem :
    (env : Mailing) (t : Table) (sent : Bool)
    → is_some (get sent_key t) ≡ sent
    → ((handle env t).0
        ≡ due_mails (env.enabled && (not sent && not (is_active env.dnd_until env.now))) env)
      × (is_some (get sent_key (handle env t).1)
          ≡ (sent || (env.enabled && (not sent && not (is_active env.dnd_until env.now)))))
unfolding handle
handle_lem env t sent h = elim (Bool-cases env.enabled) [
  | inr off ↦ rw (handle, off) (refl, h ∙ sym (or_false sent))
  | inl on ↦ elim (Bool-cases sent) [
    | inl already ↦ rw (handle, on, h, already) (refl, h ∙ already)
    | inr first ↦ elim (Bool-cases (is_active env.dnd_until env.now)) [
      | inl silent ↦ rw (handle, on, h, first, silent) (refl, h ∙ first)
      | inr loud ↦ elim (Bool-cases (is_empty env.recipients)) [
        | inl nobody ↦
            rw (handle, on, h, first, loud, nobody)
              (send_all_none env.delivers env.recipients nobody, stored t)
        | inr somebody ↦
            rw
              (
                handle,
                on,
                h,
                first,
                loud,
                somebody,
                or_true (any_sent (send_all env.delivers env.recipients)),
              )
              (refl, stored t)
      ]
    ]
  ]
]

handled_lem :
    (resp : HttpResponse) (env : Mailing) (t : Table) (sent : Bool)
    → is_some (get sent_key t) ≡ sent
    → ((handled (check resp) env t).0 ≡ due_mails (is_due sent resp env) env)
      × (is_some (get sent_key (handled (check resp) env t).1) ≡ (sent || is_due sent resp env))
unfolding check
handled_lem resp env t sent h = elim (Bool-cases resp.at_login) [
  | inl redirected ↦ rw redirected (handle_lem env t sent h)
  | inr shown ↦ elim (Bool-cases (resp.status == 200)) [
    | inl fine ↦ rw (shown, fine) (refl, h ∙ sym (or_false sent))
    | inr odd ↦ rw (shown, odd) (handle_lem env t sent h)
  ]
]

-- The key behind the end of a job.
reset :
    (c : Bool) (t : Table) (sent : Bool)
    → is_some (get sent_key t) ≡ sent
    → is_some (get sent_key (if c then on_login_or_refresh_success t else t)) ≡ (sent && not c)
unfolding on_login_or_refresh_success
reset true t sent h = rw (get-delete sent_key t) (sym (and_false sent))
  where
    and_false : (b : Bool) → (b && false) ≡ false
    and_false true = refl
    and_false false = refl
reset false t sent h = h ∙ sym (and_true sent)
  where
    and_true : (b : Bool) → (b && true) ≡ b
    and_true true = refl
    and_true false = refl

abbrev Mailed : Bool → Event → List Event → Seen × World → Type 0
Mailed sent e events r = Rounds sent ((e, r.0) ∷ (run events r.1).0)

-- Over any sequence of operations, a probe of the session, or an event of an expired session that a
-- cycle, the full scan or the backfill publishes, sends one mail to each recipient, in their order,
-- exactly when the probe finds the session lost, mails are enabled, the window of silence is over, and
-- no such probe or event with mails enabled and outside the window came since the last login or
-- refresh that succeeded and whose hook reached the table; in every other case it sends none. A round
-- counts as made whatever its deliveries led to, and also when there was no recipient. At the start
-- `sent` says whether the key of the mails is in the table.
pub run-Rounds :
    (events : List Event) (w : World) (sent : Bool)
    → is_some (get sent_key w.table) ≡ sent
    → Rounds sent (run events w).0
unfolding run step bind_executor mark_browser_unavailable
run-Rounds [] w sent h = tt
run-Rounds (starts headed submits ∷ events) w sent h =
    run-Rounds events (record w { login = (start headed submits w.login).1 }) sent h
run-Rounds (finishes result reaches ∷ events) w sent h = elim (Option-cases w.login.active_job) [
  | inl idle ↦
      subst (Mailed sent (finishes result reaches) events)
        (sym (finishes_lem result reaches w none idle)) (run-Rounds events w sent h)
  | inr (callback, busy) ↦
      subst (Mailed sent (finishes result reaches) events)
        (sym (finishes_lem result reaches w (some callback) busy))
        (run-Rounds events (finished callback result reaches w).1
          (sent && not ((outcome_of result).success && reaches))
          (reset ((outcome_of result).success && reaches) w.table sent h))
]
run-Rounds (announces env ∷ events) w sent h =
    let (mails, key) = handle_lem env w.table sent h in
    (
      mails,
      run-Rounds events (record w { table = (handle env w.table).1 }) (sent || round_due sent env)
          key,
    )
run-Rounds (probes resp env ∷ events) w sent h =
    let (mails, key) = handled_lem resp env w.table sent h in
    (
      mails,
      run-Rounds events (record w { table = (handled (check resp) env w.table).1 })
          (sent || is_due sent resp env) key,
    )
run-Rounds (binds ∷ events) w sent h =
    run-Rounds events (record w { login = bind_executor w.login }) sent h
run-Rounds (loses_browser ∷ events) w sent h =
    run-Rounds events (record w { login = mark_browser_unavailable w.login }) sent h
