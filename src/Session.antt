-- ===== src/Session.antt =====
-- `LoginService` of src/fis_monitor/services/login.py, `SessionMonitor` of session_monitor.py and
-- `SessionExpiredEmailService` of session_expired_email.py, joined as composition.py joins them. The
-- operations run one after the other, and a job is done when its callback runs. What the browser, the
-- site and the mail channel answer is a parameter; the waiting of `consumer_loop` is left out.
pub mod Laws
pub mod Mails
use gektar_monitor.Prelude.{
  ℕ, ◌+◌, String, Bool, true, false, not, ◌&&◌, ◌||◌, Option, none, some, List, [], ◌∷◌, ◌++◌, ◌==◌,
  map, is_empty, if◌then◌else◌,
}
use gektar_monitor.Domain.{Instant}
use gektar_monitor.Dnd.{StoredStamp, is_active}
use gektar_monitor.StateTable.{Table, get, set, delete}

pub data SessionStatus : Type 0 where
  active expired : SessionStatus

-- `final_url` is kept as the answer to whether it contains `/login`.
pub record HttpResponse : Type 0 where
  pub at_login : Bool
  pub status : ℕ

-- `check`: the status, and whether `SseSessionExpired` is published.
unfoldable pub check : HttpResponse → SessionStatus × Bool
check resp =
    if resp.at_login
    then (expired, true)
    else if resp.status == 200
    then (active, false)
    else (expired, true)

pub record LoginOutcome : Type 0 where
  pub success : Bool
  pub cookies_updated : Bool
  pub error : Option String

-- What `add_done_callback` gets: `start_login` attaches `_on_login_done`, `start_refresh` `_on_done`.
pub data Callback : Type 0 where
  calls_on_login_done calls_on_done : Callback

abbrev pub callback_of : Bool → Callback
callback_of true = calls_on_login_done
callback_of false = calls_on_done

-- `_active_future` is known by the callback that is attached to it.
pub record LoginService : Type 0 where
  pub browser_available : Bool
  pub executor_bound : Bool
  pub lock_held : Bool
  pub active_job : Option Callback
  pub last_outcome : Option LoginOutcome

abbrev pub new_login : LoginService
new_login = record {
  browser_available = true;
  executor_bound = false;
  lock_held = false;
  active_job = none;
  last_outcome = none;
}

pub data Started : Type 0 where
  job_handle browser_unavailable login_busy no_executor submit_failed : Started

-- `start_login` and `start_refresh`; `submits` is whether the executor takes the job.
unfoldable pub start : Bool → Bool → LoginService → Started × LoginService
start headed submits s =
    if not s.browser_available
    then (browser_unavailable, s)
    else if s.lock_held
    then (login_busy, s)
    else if not s.executor_bound
    then (no_executor, record s { lock_held = false })
    else if submits
    then (job_handle, record s { lock_held = true; active_job = some (callback_of headed) })
    else (submit_failed, record s { lock_held = false })

-- What the future holds; `none` is an exception of the worker.
abbrev pub outcome_of : Option LoginOutcome → LoginOutcome
outcome_of (some outcome) = outcome
outcome_of none = record {
  success = false;
  cookies_updated = false;
  error = some "playwright_other";
}

-- `_on_done`, without its hook
unfoldable pub on_done : Option LoginOutcome → LoginService → LoginService
on_done result s = record s {
  last_outcome = some (outcome_of result);
  active_job = none;
  lock_held = false;
}

unfoldable pub mark_browser_unavailable : LoginService → LoginService
mark_browser_unavailable s = record s { browser_available = false }

unfoldable pub bind_executor : LoginService → LoginService
bind_executor s = record s { executor_bound = true }

abbrev pub sent_key : String
sent_key = "session_expired_email_sent"

-- What `_handle` reads besides the table, and the answer of the channel for each recipient.
pub record Mailing : Type 0 where
  pub enabled : Bool
  pub recipients : List String
  pub dnd_until : Option StoredStamp
  pub now : Instant
  pub delivers : String → Bool

-- The mails that are tried, with their results.
abbrev pub Mails : Type 0
Mails = List (String × Bool)

abbrev pub send_all : (String → Bool) → List String → Mails
send_all delivers = map (λ recipient. (recipient, delivers recipient))

abbrev pub any_sent : Mails → Bool
any_sent [] = false
any_sent ((recipient, ok) ∷ mails) = ok || any_sent mails

abbrev pub is_some : Option String → Bool
is_some none = false
is_some (some v) = true

unfoldable pub handle : Mailing → Table → Mails × Table
handle env t =
    if not env.enabled
    then ([], t)
    else if is_some (get sent_key t)
    then ([], t)
    else if is_active env.dnd_until env.now
    then ([], t)
    else if is_empty env.recipients
    then ([], set sent_key "1" t)
    else let mails = send_all env.delivers env.recipients in
      (mails, if any_sent mails || not (is_empty env.recipients) then set sent_key "1" t else t)

unfoldable pub on_login_or_refresh_success : Table → Table
on_login_or_refresh_success t = delete sent_key t

pub record World : Type 0 where
  pub login : LoginService
  pub table : Table

-- `finishes` is the end of the job, with whether the hook of `on_any_success` gets to the table;
-- `probes` is a check of the session with the mail that its event leads to, and `announces` is the
-- same event as the cycles, the full scan and the backfill publish it.
pub data Event : Type 0 where
  starts : Bool → Bool → Event
  finishes : Option LoginOutcome → Bool → Event
  probes : HttpResponse → Mailing → Event
  announces : Mailing → Event
  binds loses_browser : Event

-- What is seen of an event: the answer to a start, the end of a job with whether the hook of a headed
-- login is called, and the mails of a probe or of another event.
pub data Seen : Type 0 where
  answered : Started → Seen
  ended : Bool → Seen
  mailed : SessionStatus → Mails → Seen
  announced : Mails → Seen
  nothing : Seen

-- Whether the callback calls `on_login_success`: `_on_login_done` asks the future again, and an
-- exception of it is caught there.
abbrev pub hook_due : Callback → Option LoginOutcome → Bool
hook_due calls_on_done result = false
hook_due calls_on_login_done none = false
hook_due calls_on_login_done (some outcome) = outcome.success

abbrev pub handled : SessionStatus × Bool → Mailing → Table → Mails × Table
handled (status, false) env t = ([], t)
handled (status, true) env t = handle env t

unfoldable pub step : Event → World → Seen × World
step (starts headed submits) w = (
  answered (start headed submits w.login).0,
  record w { login = (start headed submits w.login).1 },
)
step (finishes result reaches) w = elim w.login.active_job [
  | none ↦ (nothing, w)
  | some callback ↦ (
    ended (hook_due callback result),
    record {
      login = on_done result w.login;
      table =
          if (outcome_of result).success && reaches
          then on_login_or_refresh_success w.table
          else w.table;
    },
  )
]
step (probes resp env) w = (
  mailed (check resp).0 (handled (check resp) env w.table).0,
  record w { table = (handled (check resp) env w.table).1 },
)
step (announces env) w =
    (announced (handle env w.table).0, record w { table = (handle env w.table).1 })
step binds w = (nothing, record w { login = bind_executor w.login })
step loses_browser w = (nothing, record w { login = mark_browser_unavailable w.login })

unfoldable pub run : List Event → World → List (Event × Seen) × World
run [] w = ([], w)
run (e ∷ events) w = ((e, (step e w).0) ∷ (run events (step e w).1).0, (run events (step e w).1).1)
