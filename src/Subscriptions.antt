-- ===== src/Subscriptions.antt =====
-- `SqliteRegionSubscriptionRepository` of
-- src/fis_monitor/infra/sqlite/repositories/region_subscriptions.py: the table `region_subscriptions`,
-- with at most one row for a region.
use gektar_monitor.Prelude.{
  ℕ, ◌≡◌, refl, Bool, true, false, not, Option, none, some, List, [], ◌∷◌, ◌++◌, ◌==◌, contains,
  if◌then◌else◌, arith,
}
use gektar_monitor.Domain.{Instant}
use gektar_monitor.LotQuery.{is_none}

unfoldable pub get_subscribed_at : ℕ → List (ℕ × Instant) → Option Instant
get_subscribed_at region [] = none
get_subscribed_at region ((g, t) ∷ rows) =
    if g == region then some t else get_subscribed_at region rows

-- INSERT OR IGNORE
unfoldable pub set_if_absent : ℕ → Instant → List (ℕ × Instant) → Bool × List (ℕ × Instant)
set_if_absent region at_time rows = elim (get_subscribed_at region rows) [
  | none ↦ (true, rows ++ (region, at_time) ∷ [])
  | some _ ↦ (false, rows)
]

unfoldable pub delete : ℕ → List (ℕ × Instant) → List (ℕ × Instant)
delete region [] = []
delete region ((g, t) ∷ rows) =
    let rest = delete region rows in if g == region then rest else (g, t) ∷ rest

unfoldable pub list_subscribed_region_ids : List (ℕ × Instant) → List ℕ
list_subscribed_region_ids [] = []
list_subscribed_region_ids ((g, t) ∷ rows) = g ∷ list_subscribed_region_ids rows

-- A region is listed exactly if it has a time.
pub contains-list_subscribed_region_ids :
    (region : ℕ) (rows : List (ℕ × Instant))
    → contains region (list_subscribed_region_ids rows)
      ≡ not (is_none (get_subscribed_at region rows))
unfolding list_subscribed_region_ids get_subscribed_at
contains-list_subscribed_region_ids region [] = refl
contains-list_subscribed_region_ids region ((g, t) ∷ rows) =
    ground (arith, contains-list_subscribed_region_ids region rows)
