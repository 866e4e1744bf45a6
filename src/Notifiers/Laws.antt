-- ===== src/Notifiers/Laws.antt =====
-- The composite verdict of the email chain of the composition root.
use gektar_monitor.Prelude.{
  ℕ, String, ◌≡◌, refl, true, false, not, ◌||◌, Option, none, some, List, [], ◌∷◌, contains, arith,
  ◌≤◌, ◌↔◌,
}
use gektar_monitor.Domain.{Instant, date, LotPublicDto}
use gektar_monitor.Domain.Cutoff.{passes_subscription_cutoff}
use gektar_monitor.Notifiers.{
  Scope, channel, subscribed_at_filtered, rf_subject_filtered, matches, before_subscription,
  should_suppress, is_suppressed,
}

matches_unknown :
    (lot : LotPublicDto) (subjects : List ℕ) → lot.region_id ≡ none → matches lot subjects ≡ true
unfolding matches
matches_unknown lot [] e = refl
matches_unknown lot (r ∷ rs) e = ground arith

-- In scope: no subjects are chosen, or the region is one of them.
abbrev pub InScope : ℕ → List ℕ → Type 0
InScope region [] = Unit
InScope region (r ∷ rs) = contains region (r ∷ rs) ≡ true

-- Subscribed on or before the day of the lot.
abbrev pub Subscribed : Option Instant → LotPublicDto → Type 0
Subscribed none lot = ⊥
Subscribed (some at_time) lot = date at_time ≤ date lot.date_create

-- An unknown region passes; a known one when it is in scope and subscribed in time.
abbrev pub Passes : Scope → LotPublicDto → Option ℕ → Type 0
Passes s lot none = Unit
Passes s lot (some region) =
    InScope region s.settings.rf_subjects × Subscribed (s.subscribed_at region) lot

passes_known :
    (subjects : List ℕ) (at_time : Option Instant) (region : ℕ) (lot : LotPublicDto)
    → lot.region_id ≡ some region
    → (InScope region subjects × Subscribed at_time lot) ↔ (
        (not (matches lot subjects) || elim at_time [
          | none ↦ true
          | some t ↦ not (passes_subscription_cutoff lot.date_create (some t) (some region))
        ])
        ≡ false)
unfolding matches passes_subscription_cutoff
passes_known [] none region lot e = ground arith
passes_known [] (some t) region lot e = ground arith
passes_known (r ∷ rs) none region lot e = ground arith
passes_known (r ∷ rs) (some t) region lot e = ground arith

verdict_of_region :
    (s : Scope) (name : String) (lot : LotPublicDto) (o : Option ℕ)
    → lot.region_id ≡ o
    → (is_suppressed s (rf_subject_filtered (subscribed_at_filtered (channel name))) lot ≡ false)
      ↔ Passes s lot o
unfolding is_suppressed should_suppress before_subscription
verdict_of_region s name lot none e = ground (arith, matches_unknown lot s.settings.rf_subjects e)
verdict_of_region s name lot (some region) e =
    ground (arith, passes_known s.settings.rf_subjects (s.subscribed_at region) region lot e)

-- The email chain of the composition root, Rf -> Subscribed -> channel, lets a lot through exactly
-- when its region is unknown, or is both in the chosen scope and subscribed to on or before the
-- day of the lot.
pub is_suppressed-Passes :
    (s : Scope) (name : String) (lot : LotPublicDto)
    → (is_suppressed s (rf_subject_filtered (subscribed_at_filtered (channel name))) lot ≡ false)
      ↔ Passes s lot lot.region_id
is_suppressed-Passes s name lot = verdict_of_region s name lot lot.region_id refl
