-- ===== src/Tests/Fixtures.antt =====
-- A lot, its rows, and the surroundings of a dispatcher with an email and a browser channel.
use gektar_monitor.Prelude.{ℕ, ◌*◌, ◌%◌, ◌==◌, leb, true, false, none, some, List, [], ◌∷◌}
use gektar_monitor.Domain.{
  Coordinate, EnrichmentStatus, Lot, LotPublicDto, Tier, Freshness, day_length,
}
use gektar_monitor.Notifiers.{Notifier, channel, subscribed_at_filtered, rf_subject_filtered, Scope}
use gektar_monitor.Dispatcher.{Options, Env}
use gektar_monitor.Notifications.{Key, NotificationRecord, sent, fresh_row}

abbrev pub degrees : ℕ → Coordinate
degrees n = record { is_negative = false; magnitude = n }

abbrev pub sample_lot : Lot
sample_lot = record {
  id = 31;
  cadastral_no = "25:01:000001:31";
  area_sqm = some 10000;
  region = "Primorye";
  municipality = none;
  land_category = none;
  permitted_use = none;
  ogv = none;
  status = "open";
  date_create = 100 * day_length;
  date_update = none;
  date_registry = none;
  lat = some (degrees 431);
  lon = some (degrees 1319);
  has_boundaries = some true;
  raw_json = "{}";
  parser_version = 3;
  first_seen = 7;
  last_seen = 7;
  detail_fetched_at = none;
  enrichment_status = some EnrichmentStatus.pending;
  last_seen_at = none;
  is_active = true;
  inactive_reason = none;
  inactive_since = none;
  inactive_confirmed_at = none;
  region_id = some 25;
}

abbrev pub sample_dto : LotPublicDto
sample_dto = record {
  lot = sample_lot;
  age_seconds = 0;
  tier = Tier.match;
  freshness = Freshness.hot;
}

abbrev pub email : Notifier
email = rf_subject_filtered (subscribed_at_filtered (channel "email"))

abbrev pub options : Options
options = record {
  registry = email ∷ channel "browser" ∷ [];
  retry_attempts = 3;
  retry_backoff = 30 ∷ 60 ∷ [];
  max_queue_size = 100;
  recovery_age = 300000000;
}

-- The regions with these subjects are in scope, and all were subscribed to on day 50.
abbrev pub scope_of : List ℕ → Scope
scope_of subjects = record {
  settings = record { rf_subjects = subjects; recipients = "a@example.org" ∷ [] };
  subscribed_at = λ region. some (50 * day_length);
}

-- A channel that answers every third observation, and a stop event that is set at the fortieth.
abbrev pub surroundings : List ℕ → Env
surroundings subjects = record {
  now = λ tick. tick * 1000000;
  stop = λ tick. leb 40 tick;
  answer =
      λ tick. record { is_ok = (tick % 3) == 0; detail = "connection timeout"; retryable = true };
  scope = λ tick. scope_of subjects;
  lot_at = λ tick n. some sample_lot;
  dnd_until = λ tick. none;
}

abbrev pub email_key : Key
email_key = record { lot_id = 31; channel = "email"; recipient = "a@example.org" }

abbrev pub sent_row : NotificationRecord
sent_row = record (fresh_row email_key) { status = sent; attempt_no = 2; sent_at = some 5 }

-- A pair that stands for a proof about the head and one about the rest of a list.
abbrev pub also : {A B : Type 0} → A → B → A × B
also a b = (a, b)
