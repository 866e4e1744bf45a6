-- ===== src/StateTable/Laws.antt =====
-- What is read back from the table `state`.
use gektar_monitor.Prelude.{
  none, String, ◌≡◌, refl, ap, false, some, [], ◌∷◌, if◌then◌else◌, str_eq, eq_iff, Bool-cases, inl,
  inr,
}
use gektar_monitor.StateTable.{
  Table, get, set, delete, OnboardingState, not_started, regions_set, smtp_configured,
  recipients_set, completed, value, of_value, onboarding_key, get_onboarding, set_onboarding,
}

pub get-set : (key v : String) (t : Table) → get key (set key v t) ≡ some v
unfolding get set
get-set key v [] = rw ((eq_iff key key).1 refl) refl
get-set key v ((k, w) ∷ t) = elim (Bool-cases (str_eq k key)) [
  | inl e ↦ rw (e, e) refl
  | inr ne ↦ rw (ne, ne) (get-set key v t)
]

pub get-set_other :
    (key j v : String) (t : Table) → str_eq key j ≡ false → get j (set key v t) ≡ get j t
unfolding get set
get-set_other key j v [] ne = rw ne refl
get-set_other key j v ((k, w) ∷ t) ne = elim (Bool-cases (str_eq k key)) [
  | inl e ↦ rw (e, (eq_iff k key).0 e, ne) refl
  | inr other ↦
      rw other (ap (λ rest. if str_eq k j then some w else rest) (get-set_other key j v t ne))
]

pub get-delete_other :
    (key j : String) (t : Table) → str_eq key j ≡ false → get j (delete key t) ≡ get j t
unfolding get delete
get-delete_other key j [] ne = refl
get-delete_other key j ((k, w) ∷ t) ne = elim (Bool-cases (str_eq k key)) [
  | inl e ↦ rw (e, (eq_iff k key).0 e, ne) (get-delete_other key j t ne)
  | inr other ↦
      rw other (ap (λ rest. if str_eq k j then some w else rest) (get-delete_other key j t ne))
]

pub of_value-value : (s : OnboardingState) → of_value (value s) ≡ some s
unfolding of_value value
of_value-value not_started = refl
of_value-value regions_set = refl
of_value-value smtp_configured = refl
of_value-value recipients_set = refl
of_value-value completed = refl

pub get_onboarding-set_onboarding :
    (s : OnboardingState) (t : Table) → get_onboarding (set_onboarding s t) ≡ some s
unfolding get_onboarding set_onboarding
get_onboarding-set_onboarding s t =
    rw (get_onboarding, get-set onboarding_key (value s) t) (of_value-value s)

pub get-delete : (key : String) (t : Table) → get key (delete key t) ≡ none
unfolding get delete
get-delete key [] = refl
get-delete key ((k, w) ∷ t) = elim (Bool-cases (str_eq k key)) [
  | inl e ↦ rw e (get-delete key t)
  | inr other ↦ rw (other, other) (get-delete key t)
]
