-- ===== src/Domain/Cutoff.antt =====
-- The day-precision cutoff of src/fis_monitor/domain/subscription_cutoff.py.
use gektar_monitor.Prelude.{ℕ, Bool, true, Option, none, some, leb}
use gektar_monitor.Domain.{Instant, date}

unfoldable pub passes_subscription_cutoff : Instant → Option Instant → Option ℕ → Bool
passes_subscription_cutoff date_create none region_id = true
passes_subscription_cutoff date_create (some subscribed_at) none = true
passes_subscription_cutoff date_create (some subscribed_at) (some _) =
    leb (date subscribed_at) (date date_create)
