-- ===== src/Notifiers.antt =====
-- The notifiers of src/fis_monitor/services/notifier_dispatcher.py with their filters, and the
-- matchers of src/fis_monitor/services/filter_matcher.py. A channel that delivers (SMTP, browser,
-- heartbeat) is a parameter: it is known by its `channel_id`, and what it answers comes from the
-- environment. The two filters wrap another notifier.
pub mod Laws
use gektar_monitor.Prelude.{
  ℕ, String, Bool, true, false, not, ◌&&◌, Option, none, some, List, [], ◌∷◌, contains,
  if◌then◌else◌,
}
use gektar_monitor.Domain.{Instant, LotPublicDto, NotifyResult}
use gektar_monitor.Domain.Cutoff.{passes_subscription_cutoff}

-- What `config_source.current()` holds for the dispatcher.
pub record Settings : Type 0 where
  pub rf_subjects : List ℕ
  pub recipients : List String

-- RfSubjectFilterMatcher.matches
unfoldable pub matches : LotPublicDto → List ℕ → Bool
matches lot [] = true
matches lot (r ∷ rs) = elim lot.region_id [ none ↦ true | some region ↦ contains region (r ∷ rs) ]

-- AllFiltersMatcher.matches
unfoldable pub all_match : List (LotPublicDto → List ℕ → Bool) → LotPublicDto → List ℕ → Bool
all_match [] lot rf_subjects = true
all_match (m ∷ ms) lot rf_subjects = m lot rf_subjects && all_match ms lot rf_subjects

pub data Notifier : Type 0 where
  channel : String → Notifier
  subscribed_at_filtered : Notifier → Notifier
  rf_subject_filtered : Notifier → Notifier

unfoldable pub channel_id : Notifier → String
channel_id (channel name) = name
channel_id (subscribed_at_filtered inner) = "email"
channel_id (rf_subject_filtered inner) = "email"

-- What the filters read: the settings, and `get_subscribed_at` of each region.
pub record Scope : Type 0 where
  pub settings : Settings
  pub subscribed_at : ℕ → Option Instant

-- SubscribedAtFilteredNotifier.should_suppress
unfoldable pub before_subscription : Scope → LotPublicDto → Bool
before_subscription s lot = elim lot.region_id [
  | none ↦ false
  | some region ↦ elim (s.subscribed_at region) [
    | none ↦ true
    | some at_time ↦ not (passes_subscription_cutoff lot.date_create (some at_time) (some region))
  ]
]

-- `none` where the notifier has no `should_suppress`.
unfoldable pub should_suppress : Scope → Notifier → LotPublicDto → Option Bool
should_suppress s (channel name) lot = none
should_suppress s (subscribed_at_filtered inner) lot = some (before_subscription s lot)
should_suppress s (rf_subject_filtered inner) lot =
    let inner_check = should_suppress s inner lot in
    if not (matches lot s.settings.rf_subjects)
    then some true
    else elim inner_check [ none ↦ some false | some b ↦ some b ]

-- `callable(should_suppress) and should_suppress(lot)`
unfoldable pub is_suppressed : Scope → Notifier → LotPublicDto → Bool
is_suppressed s n lot = elim (should_suppress s n lot) [ none ↦ false | some b ↦ b ]

abbrev suppressed_subscribed_at : NotifyResult
suppressed_subscribed_at = record {
  is_ok = true;
  detail = "suppressed (subscribed_at)";
  retryable = false;
}

abbrev suppressed_rf_subjects : NotifyResult
suppressed_rf_subjects = record {
  is_ok = true;
  detail = "suppressed (rf_subjects)";
  retryable = false;
}

-- `send`: each filter checks again before it delegates; `answer` is what the channel answers.
unfoldable pub send : Scope → Notifier → LotPublicDto → NotifyResult → NotifyResult
send s (channel name) lot answer = answer
send s (subscribed_at_filtered inner) lot answer =
    let rest = send s inner lot answer in
    if before_subscription s lot then suppressed_subscribed_at else rest
send s (rf_subject_filtered inner) lot answer =
    let rest = send s inner lot answer in
    if is_suppressed s (rf_subject_filtered inner) lot then suppressed_rf_subjects else rest
