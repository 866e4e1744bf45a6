-- ===== src/StateTable.antt =====
-- The key/value table `state`: `SqliteStateRepository` of
-- src/fis_monitor/infra/sqlite/repositories/state.py and `SqliteSettingsRepository` of settings.py.
-- A key has one row at most; `updated_at` is never read and is left out.
pub mod Laws
use gektar_monitor.Prelude.{
  String, Bool, true, false, Option, none, some, List, [], ◌∷◌, if◌then◌else◌, str_eq,
}

abbrev pub Table : Type 0
Table = List (String × String)

unfoldable pub get : String → Table → Option String
get key [] = none
get key ((k, v) ∷ t) = let rest = get key t in if str_eq k key then some v else rest

-- INSERT … ON CONFLICT(key) DO UPDATE
unfoldable pub set : String → String → Table → Table
set key value [] = (key, value) ∷ []
set key value ((k, v) ∷ t) =
    let rest = set key value t in if str_eq k key then (k, value) ∷ t else (k, v) ∷ rest

unfoldable pub delete : String → Table → Table
delete key [] = []
delete key ((k, v) ∷ t) = let rest = delete key t in if str_eq k key then rest else (k, v) ∷ rest

pub data OnboardingState : Type 0 where
  not_started regions_set smtp_configured recipients_set completed : OnboardingState

unfoldable pub value : OnboardingState → String
value not_started = "not_started"
value regions_set = "regions_set"
value smtp_configured = "smtp_configured"
value recipients_set = "recipients_set"
value completed = "completed"

-- `OnboardingState(raw)`; `none` is a ValueError.
unfoldable pub of_value : String → Option OnboardingState
of_value raw =
    if str_eq raw "not_started"
    then some not_started
    else if str_eq raw "regions_set"
    then some regions_set
    else if str_eq raw "smtp_configured"
    then some smtp_configured
    else if str_eq raw "recipients_set"
    then some recipients_set
    else if str_eq raw "completed"
    then some completed
    else none

abbrev pub onboarding_key : String
onboarding_key = "onboarding_state"

unfoldable pub get_onboarding : Table → Option OnboardingState
get_onboarding t = elim (get onboarding_key t) [ none ↦ some not_started | some raw ↦ of_value raw ]

unfoldable pub set_onboarding : OnboardingState → Table → Table
set_onboarding st t = set onboarding_key (value st) t
