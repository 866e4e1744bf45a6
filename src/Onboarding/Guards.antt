-- ===== src/Onboarding/Guards.antt =====
-- What the guards of the onboarding ask for.
use gektar_monitor.Prelude.{
  ◌+◌, ◌≤◌, ◌≡◌, ◌⊎◌, refl, ap, sym, ◌∙◌, String, Bool, true, false, not, ◌||◌, Option, none, some,
  is_empty, if◌then◌else◌, str_eq, eq_iff, arith, Bool-cases, inl, inr,
}
use gektar_monitor.Domain.{Instant}
use gektar_monitor.StateTable.{
  Table, get, OnboardingState, not_started, regions_set, smtp_configured, recipients_set, completed,
  value, of_value,
}
use gektar_monitor.StateTable.Laws.{of_value-value}
use gektar_monitor.Onboarding.{
  Env, next_state, five_minutes, is_text, is_email_skipped, within_ttl, recorded,
  smtp_test_ok_within_ttl, guard_satisfied, same_state, can_advance,
}

-- A test of the mail that ended well, at most five minutes ago.
pub record IsTested (env : Env) (t : Table) : Type 0 where
  went_well : get "smtp_test_last_result_ok" t ≡ some "true"
  stored : String
  at_key : get "smtp_test_last_result_at" t ≡ some stored
  recorded_at : Instant
  read : env.fromisoformat stored ≡ some recorded_at
  recent : env.now ≤ recorded_at + five_minutes

-- What must hold when a state is entered.
abbrev pub Allows : Env → OnboardingState → Table → Type 0
Allows env not_started t = ⊥
Allows env regions_set t = is_empty env.regions ≡ false
Allows env smtp_configured t = IsTested env t ⊎ (get "email_skipped" t ≡ some "true")
Allows env recipients_set t =
    (is_empty env.recipients ≡ false) ⊎ (get "email_skipped" t ≡ some "true")
Allows env completed t =
    (get "onboarding_test_email_ok" t ≡ some "true") ⊎ (get "email_skipped" t ≡ some "true")

is_text_eq : (s : String) (o : Option String) → is_text s o ≡ true → o ≡ some s
is_text_eq s none e = absurd (ground (arith, e))
is_text_eq s (some t) e = ap (λ u. some u) ((eq_iff t s).0 e)

either : (a b : Bool) → (a || b) ≡ true → (a ≡ true) ⊎ (b ≡ true)
either true b e = inl refl
either false b e = inr e

not_empty : (b : Bool) → not b ≡ true → b ≡ false
not_empty true e = absurd (ground (arith, e))
not_empty false e = refl

within_ttl-some :
    (now : Instant) (o : Option Instant)
    → within_ttl now o ≡ true
    → (recorded_at : Instant) × (o ≡ some recorded_at) × (now ≤ recorded_at + five_minutes)
within_ttl-some now none e = absurd (ground (arith, e))
within_ttl-some now (some recorded_at) e = (recorded_at, refl, ground (arith, e))

recorded-some :
    (env : Env) (o : Option String)
    → recorded env o ≡ true
    → (stored : String) × (o ≡ some stored) × (within_ttl env.now (env.fromisoformat stored) ≡ true)
recorded-some env none e = absurd (ground (arith, e))
recorded-some env (some raw_at) e = elim (Bool-cases (str_eq raw_at "")) [
  | inl empty ↦ absurd (ground (arith, empty, e))
  | inr full ↦ (raw_at, refl, sym (rw full refl) ∙ e)
]

unguarded : (a b : Bool) → (if not a then false else b) ≡ true → (a ≡ true) × (b ≡ true)
unguarded true b e = (refl, e)
unguarded false b e = absurd (ground (arith, e))

tested : (env : Env) (t : Table) → smtp_test_ok_within_ttl env t ≡ true → IsTested env t
unfolding smtp_test_ok_within_ttl
tested env t e =
    let (ok, at_time) = unguarded _ _ e in
    let (stored, at_key, fresh) = recorded-some env (get "smtp_test_last_result_at" t) at_time in
    let (recorded_at, read, recent) = within_ttl-some env.now (env.fromisoformat stored) fresh in
    record {
      went_well = is_text_eq "true" (get "smtp_test_last_result_ok" t) ok;
      stored = stored;
      at_key = at_key;
      recorded_at = recorded_at;
      read = read;
      recent = recent;
    }

guard_satisfied-Allows :
    (env : Env) (s : OnboardingState) (t : Table) → guard_satisfied env s t ≡ true → Allows env s t
unfolding guard_satisfied is_email_skipped
guard_satisfied-Allows env not_started t e = absurd (ground (arith, e))
guard_satisfied-Allows env regions_set t e = not_empty (is_empty env.regions) e
guard_satisfied-Allows env smtp_configured t e = elim (either _ _ e) [
  | inl ok ↦ inl (tested env t ok)
  | inr skipped ↦ inr (is_text_eq "true" (get "email_skipped" t) skipped)
]
guard_satisfied-Allows env recipients_set t e = elim (either _ _ e) [
  | inl ok ↦ inl (not_empty (is_empty env.recipients) ok)
  | inr skipped ↦ inr (is_text_eq "true" (get "email_skipped" t) skipped)
]
guard_satisfied-Allows env completed t e = elim (either _ _ e) [
  | inl ok ↦ inl (is_text_eq "true" (get "onboarding_test_email_ok" t) ok)
  | inr skipped ↦ inr (is_text_eq "true" (get "email_skipped" t) skipped)
]

pub same_state_eq : (s r : OnboardingState) → same_state s r ≡ true → s ≡ r
same_state_eq s r e =
    let same : ◌≡◌ {A = Option OnboardingState} (some s) (some r) =
      sym (of_value-value s)
      ∙ (ap of_value ((eq_iff (value s) (value r)).0 e) ∙ of_value-value r) in
    cc same

on_next :
    (o : Option OnboardingState) (to_state : OnboardingState) (g : Bool)
    → (elim o [ none ↦ false | some s ↦ if not (same_state s to_state) then false else g ]) ≡ true
    → (o ≡ some to_state) × (g ≡ true)
on_next none to_state g e = absurd (ground (arith, e))
on_next (some s) to_state g e =
    let (same, ok) = unguarded _ _ e in (ap (λ r. some r) (same_state_eq s to_state same), ok)

pub can_advance-Allows :
    (env : Env) (s r : OnboardingState) (t : Table)
    → can_advance env s r t ≡ true
    → (next_state s ≡ some r) × Allows env r t
unfolding can_advance
can_advance-Allows env s r t e =
    let (next, ok) = on_next (next_state s) r (guard_satisfied env r t) e in
    (next, guard_satisfied-Allows env r t ok)
