-- ===== src/Onboarding.antt =====
-- `OnboardingService` of src/fis_monitor/services/onboarding.py, with the writes of
-- src/fis_monitor/services/smtp_test.py that its guards read. Times are in microseconds. A call of
-- `advance` reads the state, checks the guard and writes the state without a transaction around the
-- three, so the calls of several threads are interleaved at these statements.
pub mod Guards
pub mod Laws
pub mod Gate
use gektar_monitor.Prelude.{
  ℕ, ◌+◌, String, Bool, true, false, not, ◌||◌, Option, none, some, List, [], ◌∷◌, ◌++◌, leb, ◌==◌,
  is_empty, if◌then◌else◌, str_eq,
}
use gektar_monitor.Domain.{Instant}
use gektar_monitor.StateTable.{
  Table, get, set, delete, OnboardingState, not_started, regions_set, smtp_configured,
  recipients_set, completed, value, get_onboarding, set_onboarding,
}

-- The settings of one call, the clock, and `datetime.fromisoformat` with a text without an offset
-- read as UTC.
pub record Env : Type 0 where
  pub regions : List ℕ
  pub recipients : List String
  pub now : Instant
  pub fromisoformat : String → Option Instant

unfoldable pub next_state : OnboardingState → Option OnboardingState
next_state not_started = some regions_set
next_state regions_set = some smtp_configured
next_state smtp_configured = some recipients_set
next_state recipients_set = some completed
next_state completed = none

unfoldable pub state_url : OnboardingState → String
state_url not_started = "/onboarding/regions"
state_url regions_set = "/onboarding/smtp"
state_url smtp_configured = "/onboarding/recipients"
state_url recipients_set = "/onboarding/test-email"
state_url completed = "/"

abbrev pub five_minutes : ℕ
five_minutes = 300000000

-- `self._repo.get(key) == s`
abbrev pub is_text : String → Option String → Bool
is_text s none = false
is_text s (some t) = str_eq t s

unfoldable pub is_email_skipped : Table → Bool
is_email_skipped t = is_text "true" (get "email_skipped" t)

abbrev pub within_ttl : Instant → Option Instant → Bool
within_ttl now none = false
within_ttl now (some recorded_at) = leb now (recorded_at + five_minutes)

abbrev pub recorded : Env → Option String → Bool
recorded env none = false
recorded env (some raw_at) =
    if str_eq raw_at "" then false else within_ttl env.now (env.fromisoformat raw_at)

unfoldable pub smtp_test_ok_within_ttl : Env → Table → Bool
smtp_test_ok_within_ttl env t =
    if not (is_text "true" (get "smtp_test_last_result_ok" t))
    then false
    else recorded env (get "smtp_test_last_result_at" t)

unfoldable pub guard_satisfied : Env → OnboardingState → Table → Bool
guard_satisfied env regions_set t = not (is_empty env.regions)
guard_satisfied env smtp_configured t = smtp_test_ok_within_ttl env t || is_email_skipped t
guard_satisfied env recipients_set t = not (is_empty env.recipients) || is_email_skipped t
guard_satisfied env completed t =
    is_text "true" (get "onboarding_test_email_ok" t) || is_email_skipped t
guard_satisfied env not_started t = false

-- The states are compared as the texts that they are.
abbrev pub same_state : OnboardingState → OnboardingState → Bool
same_state s t = str_eq (value s) (value t)

unfoldable pub can_advance : Env → OnboardingState → OnboardingState → Table → Bool
can_advance env from_state to_state t = elim (next_state from_state) [
  | none ↦ false
  | some s ↦ if not (same_state s to_state) then false else guard_satisfied env to_state t
]

-- A call returns, or raises an InvalidTransitionError with the current state, or the ValueError of a
-- stored text that is no state.
pub data Outcome : Type 0 where
  done : Table → Outcome
  invalid_transition : OnboardingState → Outcome
  value_error : Outcome

-- A call of `advance` from one of its statements to the next, as it goes on or raises. The guard is
-- read in one step.
pub record Call : Type 0 where
  pub env : Env
  pub from_state : OnboardingState
  pub to_state : OnboardingState

-- What threads can see of a call: none, its read of the state is behind it, or its check too; the
-- tables are those of the read and of the check.
pub data Pending : Type 0 where
  no_call : Pending
  has_read : Call → Table → Pending
  has_checked : Call → Table → Table → Pending

-- `curr != from_state`; the call ends when it raises.
unfoldable pub advance_read : Call → Table → Pending
advance_read c t = elim (get_onboarding t) [
  | none ↦ no_call
  | some curr ↦ if not (same_state curr c.from_state) then no_call else has_read c t
]

-- `self.can_advance(from_state, to_state)`
unfoldable pub advance_check : Call → Table → Table → Pending
advance_check c read t =
    if not (can_advance c.env c.from_state c.to_state t) then no_call else has_checked c read t

abbrev pub may_skip : OnboardingState → Bool
may_skip not_started = false
may_skip regions_set = true
may_skip smtp_configured = true
may_skip recipients_set = true
may_skip completed = false

unfoldable pub skip_email : Table → Outcome
skip_email t = elim (get_onboarding t) [
  | none ↦ value_error
  | some curr ↦
      if not (may_skip curr) then invalid_transition curr else done (set "email_skipped" "true" t)
]

unfoldable pub url_for_current_step : Table → Option String
url_for_current_step t = elim (get_onboarding t) [ none ↦ none | some curr ↦ some (state_url curr) ]

-- `test_send` behind the sending, with the time as it is stored.
unfoldable pub test_send : Bool → String → Table → Table
test_send ok now_iso t =
    if ok
    then set "onboarding_test_email_ok" "true"
        (set "smtp_test_last_result_at" now_iso (set "smtp_test_last_result_ok" "true" t))
    else set "smtp_test_last_result_at" now_iso (set "smtp_test_last_result_ok" "false" t)

-- What threads do, one statement at a time: `reads`, `checks` and `commits` are the three statements of
-- a call of `advance` in the thread that is named; `writes` and `deletes` are the other services that
-- use the table.
pub data Action : Type 0 where
  reads : ℕ → Call → Action
  checks commits : ℕ → Action
  skips : Action
  tests : Bool → String → Action
  writes : String → String → Action
  deletes : String → Action

pub record World : Type 0 where
  pub table : Table
  pub pending : ℕ → Pending

-- A transition that was made: its call, and the tables of its read, its check and its write.
pub record Transition : Type 0 where
  pub call : Call
  pub read : Table
  pub checked : Table
  pub written : Table

abbrev pub after : Outcome → Table → Table
after (done t') t = t'
after (invalid_transition curr) t = t
after value_error t = t

abbrev pub set_pending : ℕ → Pending → (ℕ → Pending) → ℕ → Pending
set_pending i p pending j = if j == i then p else pending j

abbrev pub checking : Pending → Table → Pending
checking no_call t = no_call
checking (has_read c read) t = advance_check c read t
checking (has_checked c read checked) t = has_checked c read checked

abbrev pub committing : ℕ → Pending → World → List Transition × World
committing i no_call w = ([], w)
committing i (has_read c read) w = ([], w)
committing i (has_checked c read checked) w = (
  record { call = c; read = read; checked = checked; written = w.table } ∷ [],
  record { table = set_onboarding c.to_state w.table; pending = set_pending i no_call w.pending },
)

unfoldable pub act : Action → World → List Transition × World
act (reads i c) w = ([], record w { pending = set_pending i (advance_read c w.table) w.pending })
act (checks i) w =
    ([], record w { pending = set_pending i (checking (w.pending i) w.table) w.pending })
act (commits i) w = committing i (w.pending i) w
act skips w = ([], record w { table = after (skip_email w.table) w.table })
act (tests ok now_iso) w = ([], record w { table = test_send ok now_iso w.table })
act (writes key v) w = ([], record w { table = set key v w.table })
act (deletes key) w = ([], record w { table = delete key w.table })

unfoldable pub run : List Action → World → List Transition × World
run [] w = ([], w)
run (a ∷ actions) w = ((act a w).0 ++ (run actions (act a w).1).0, (run actions (act a w).1).1)

-- No call is in flight.
abbrev pub at_rest : Table → World
at_rest t = record { table = t; pending = λ i. no_call }
