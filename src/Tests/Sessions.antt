-- ===== src/Tests/Sessions.antt =====
-- The login service and the mail of an expired session on concrete inputs.
use gektar_monitor.Prelude.{Option, Bool, ◌≡◌, refl, true, false, none, some, List, [], ◌∷◌, str_eq}
use gektar_monitor.StateTable.{get, set, delete}
use gektar_monitor.Dnd.{is_active, until}
use gektar_monitor.Session.{
  announces, announced, HttpResponse, LoginOutcome, new_login, Mailing, World, Event, starts,
  finishes, probes, binds, Seen, answered, job_handle, login_busy, ended, mailed, nothing, expired,
  run, step, start, on_done, bind_executor, check, handle, on_login_or_refresh_success,
}
use gektar_monitor.Session.Laws.{Flight, IsLocked, attached, run-Flight}
use gektar_monitor.Session.Mails.{Rounds, run-Rounds}

abbrev redirected : HttpResponse
redirected = record { at_login = true; status = 200 }

abbrev succeeded : LoginOutcome
succeeded = record { success = true; cookies_updated = true; error = none }

abbrev two_people : Mailing
two_people = record {
  enabled = true;
  recipients = "a@example.org" ∷ "b@example.org" ∷ [];
  dnd_until = none;
  now = 0;
  delivers = λ r. str_eq r "a@example.org";
}

abbrev expired_twice : List Event
expired_twice =
    binds
    ∷ probes redirected two_people
    ∷ probes redirected two_people
    ∷ announces two_people
    ∷ starts true true
    ∷ starts false true
    ∷ finishes (some succeeded) true
    ∷ probes redirected two_people
    ∷ []

abbrev fresh : World
fresh = record { login = new_login; table = [] }

abbrev round : Seen
round = mailed expired (("a@example.org", true) ∷ ("b@example.org", false) ∷ [])

what_is_seen :
    (run expired_twice fresh).0
    ≡ (binds, nothing)
      ∷ (probes redirected two_people, round)
      ∷ (probes redirected two_people, mailed expired [])
      ∷ (announces two_people, announced [])
      ∷ (starts true true, answered job_handle)
      ∷ (starts false true, answered login_busy)
      ∷ (finishes (some succeeded) true, ended true)
      ∷ (probes redirected two_people, round)
      ∷ []
unfolding run step start on_done bind_executor check handle on_login_or_refresh_success get set
    delete is_active until
what_is_seen = refl

run-Flight_example :
    (last : Option Bool) × Flight none (run expired_twice fresh).0 last
    × ((run expired_twice fresh).1.login.active_job ≡ attached last)
    × IsLocked (run expired_twice fresh).1.login
run-Flight_example = run-Flight expired_twice fresh none refl refl

run-Rounds_example : Rounds false (run expired_twice fresh).0
unfolding get
run-Rounds_example = run-Rounds expired_twice fresh false refl
