-- ===== src/Onboarding/Gate/Safe.antt =====
-- Which requests the gate lets through.
use gektar_monitor.Prelude.{
  ℕ, ◌+◌, ◌<◌, ◌≡◌, ◌⊎◌, refl, ap, sym, ◌∙◌, String, true, false, none, some, List, [], ◌∷◌, ◌++◌,
  ltb, ◌==◌, codes, str_eq, arith, Bool-cases, Option-cases, inl, inr, subst, if◌then◌else◌,
}
use gektar_monitor.StateTable.{
  Table, OnboardingState, not_started, regions_set, smtp_configured, recipients_set, completed,
  value, get_onboarding,
}
use gektar_monitor.Onboarding.{url_for_current_step}
use gektar_monitor.Onboarding.Gate.{
  Scope, Cached, Gate, passes, re_read, used_entry, respond, on_cache, on_entry, on_read, is_gated,
  call, starts_with, is_whitelisted, Event, arrives, has_read, Seen, reading, answer, Waiting,
  World, step, serve, at_rest,
}

abbrev pub StartsWith : String → String → Type 0
StartsWith p path = (rest : List ℕ) × (codes path ≡ codes p ++ rest)

-- The requests that must wait for the end of the onboarding: HTTP but for OPTIONS, off the pages of the
-- onboarding and of the log-in, the static files, the stream, the health and the mail suggestion.
pub record MustWait (scope : Scope) : Type 0 where
  pub http : str_eq scope.type "http" ≡ true
  pub not_options : str_eq scope.method "OPTIONS" ≡ false
  pub not_onboarding : str_eq scope.path "/onboarding" ≡ false
  pub not_step : ¬ StartsWith "/onboarding/" scope.path
  pub not_auth : ¬ StartsWith "/auth/" scope.path
  pub not_static : ¬ StartsWith "/static/" scope.path
  pub not_events : ¬ StartsWith "/events" scope.path
  pub not_health : ¬ StartsWith "/api/health" scope.path
  pub not_suggest : ¬ StartsWith "/settings/smtp/suggest" scope.path

-- A reading that was begun less than a second before `now`, or at that time, found the onboarding
-- completed.
abbrev pub Recent : ℕ → List (ℕ × Table) → Type 0
Recent now [] = ⊥
Recent now ((begun, t) ∷ readings) =
    ((get_onboarding t ≡ some completed) × (now < begun + 1000000)) ⊎ Recent now readings

-- `readings` holds the readings before, the last one first.
abbrev pub IsSafe : List (ℕ × Table) → List Seen → Type 0
IsSafe readings [] = Unit
IsSafe readings (reading begun t ∷ seen) = IsSafe ((begun, t) ∷ readings) seen
IsSafe readings (answer scope now response ∷ seen) =
    (MustWait scope → response ≡ passes → Recent now readings) × IsSafe readings seen

-- A cached end of the onboarding was read less than a second ago as long as it counts.
abbrev Backed : Gate → List (ℕ × Table) → Type 0
Backed none readings = Unit
Backed (some c) readings =
    c.state ≡ completed → (now : ℕ) → now < c.expires_at → Recent now readings

starts_with-StartsWith :
    (p path : List ℕ) → starts_with p path ≡ true → (rest : List ℕ) × (path ≡ p ++ rest)
starts_with-StartsWith [] path e = (path, refl)
starts_with-StartsWith (c ∷ p) [] e = absurd (ground (arith, e))
starts_with-StartsWith (c ∷ p) (d ∷ path) e = elim (Bool-cases (c == d)) [
  | inr other ↦ absurd (ground (arith, other, e))
  | inl same ↦
      let (rest, eq) = starts_with-StartsWith p path (ground (arith, same, e)) in
      let cd : d ≡ c = ground (arith, same) in (rest, rw (cd, eq) refl)
]

no_prefix : (p path : String) → ¬ StartsWith p path → starts_with (codes p) (codes path) ≡ false
no_prefix p path h = elim (Bool-cases (starts_with (codes p) (codes path))) [
  | inl e ↦ absurd (h (starts_with-StartsWith (codes p) (codes path) e))
  | inr e ↦ e
]

is_whitelisted-MustWait : (scope : Scope) → MustWait scope → is_whitelisted scope.path ≡ false
unfolding is_whitelisted
is_whitelisted-MustWait scope h =
    rw
      (
        is_whitelisted,
        h.not_onboarding,
        no_prefix "/static/" scope.path h.not_static,
        no_prefix "/events" scope.path h.not_events,
        no_prefix "/api/health" scope.path h.not_health,
        no_prefix "/onboarding/" scope.path h.not_step,
        no_prefix "/auth/" scope.path h.not_auth,
        no_prefix "/settings/smtp/suggest" scope.path h.not_suggest,
      )
      refl

is_gated-MustWait : (scope : Scope) → MustWait scope → is_gated scope ≡ true
unfolding is_gated
is_gated-MustWait scope h =
    rw (is_gated, h.http, h.not_options, is_whitelisted-MustWait scope h) refl

value_completed : (s : OnboardingState) → str_eq (value s) "completed" ≡ true → s ≡ completed
unfolding value
value_completed not_started e = absurd (ground (arith, e))
value_completed regions_set e = absurd (ground (arith, e))
value_completed smtp_configured e = absurd (ground (arith, e))
value_completed recipients_set e = absurd (ground (arith, e))
value_completed completed e = refl

-- What is kept by a step: its part of the trace is safe, and so is what follows a backed cache.
abbrev StepIsSafe : List (ℕ × Table) → List Seen × World → Type 0
StepIsSafe readings r =
    (rest : List Seen)
    → ((later : List (ℕ × Table)) → Backed r.1.cache later → IsSafe later rest)
    → IsSafe readings (r.0 ++ rest)

respond-Recent :
    (c : Cached) (now : ℕ) (readings : List (ℕ × Table))
    → Backed (some c) readings
    → now < c.expires_at
    → respond c ≡ passes
    → Recent now readings
unfolding respond
respond-Recent c now readings h lt e = elim (Bool-cases (str_eq (value c.state) "completed")) [
  | inl ended ↦ h (value_completed c.state ended) now lt
  | inr other ↦ absurd (ground (arith, other, e))
]

on_cache-IsSafe :
    (i : ℕ) (scope : Scope) (now : ℕ) (g : Gate) (w : World) (readings : List (ℕ × Table))
    → Backed g readings
    → ((c : Cached) → g ≡ some c → now < c.expires_at)
    → Backed w.cache readings
    → StepIsSafe readings (on_cache i scope now g w)
on_cache-IsSafe i scope now none w readings h counts k rest after = after readings k
on_cache-IsSafe i scope now (some c) w readings h counts k rest after =
    (λ waits e. respond-Recent c now readings h (counts c refl) e, after readings k)

used_entry-Backed :
    (now : ℕ) (g : Gate) (readings : List (ℕ × Table))
    → Backed g readings
    → Backed (used_entry now g) readings
used_entry-Backed now none readings h = tt
used_entry-Backed now (some c) readings h = elim (Bool-cases (ltb now c.expires_at)) [
  | inl fresh ↦ rw fresh h
  | inr stale ↦ rw stale tt
]

Counts : ℕ → Gate → Type 0
Counts now g = elim g [ none ↦ Unit | some c ↦ now < c.expires_at ]

used_entry-Counts :
    (now : ℕ) (g : Gate) (c : Cached) → used_entry now g ≡ some c → now < c.expires_at
unfolding Counts
used_entry-Counts now none c e = absurd (ground (arith, e))
used_entry-Counts now (some d) c e = elim (Bool-cases (ltb now d.expires_at)) [
  | inl fresh ↦
      let same : some d ≡ some c = subst (λ b. (if b then some d else none) ≡ some c) fresh e in
      subst (Counts now) same (ground (arith, fresh))
  | inr stale ↦ absurd (ground (arith, stale, e))
]

call-IsSafe :
    (i : ℕ) (scope : Scope) (now : ℕ) (w : World) (readings : List (ℕ × Table))
    → Backed w.cache readings
    → StepIsSafe readings (call i scope now w)
unfolding call
call-IsSafe i scope now w readings k = elim (Bool-cases (is_gated scope)) [
  | inl gated ↦
      rw (call, gated)
        (on_cache-IsSafe i scope now (used_entry now w.cache) w readings
          (used_entry-Backed now w.cache readings k) (used_entry-Counts now w.cache) k)
  | inr open_to_all ↦
      rw (call, open_to_all)
        (λ rest after. (
          λ waits. absurd (ground (arith, open_to_all, is_gated-MustWait scope waits)),
          after readings k,
        ))
]

later-Backed :
    (g : Gate) (begun : ℕ) (t : Table) (readings : List (ℕ × Table))
    → Backed g readings
    → Backed g ((begun, t) ∷ readings)
later-Backed none begun t readings h = tt
later-Backed (some c) begun t readings h = λ e now lt. inr (h e now lt)

-- A new entry counts at once, and its state is the one that was read.
abbrev IsRead : ℕ → Table → Gate → Type 0
IsRead now t none = Unit
IsRead now t (some c) = (get_onboarding t ≡ some c.state) × (c.expires_at ≡ now + 1000000)

re_read-IsRead : (now : ℕ) (t url_table : Table) → IsRead now t (re_read now t url_table)
unfolding re_read
re_read-IsRead now t url_table = elim (Option-cases (get_onboarding t)) [
  | inl unread ↦ rw (re_read, unread) tt
  | inr (s, h) ↦ elim (Option-cases (url_for_current_step url_table)) [
    | inl unread ↦ rw (re_read, h, unread) tt
    | inr (url, e) ↦ rw (re_read, h, e) (h, refl)
  ]
]

on_entry-IsSafe :
    (r : Waiting) (t : Table) (g : Gate) (w : World) (readings : List (ℕ × Table))
    → IsRead r.now t g
    → Backed w.cache readings
    → StepIsSafe readings (on_entry r t g w)
on_entry-IsSafe r t none w readings h k rest after =
    (λ waits e. absurd (ground (arith, e)), after _ (later-Backed w.cache r.now t readings k))
on_entry-IsSafe r t (some c) w readings h k rest after =
    let backed : Backed (some c) ((r.now, t) ∷ readings) =
      λ e now lt. inl (h.0 ∙ ap (λ x. some x) e, rw (sym h.1) lt) in
    (
      λ waits e. respond-Recent c r.now ((r.now, t) ∷ readings) backed (rw h.1 (omega arith)) e,
      after _ backed,
    )

on_read-IsSafe :
    (i : ℕ) (t url_table : Table) (w : World) (readings : List (ℕ × Table))
    → Backed w.cache readings
    → StepIsSafe readings (on_read i t url_table w)
unfolding on_read
on_read-IsSafe i t url_table w readings k = elim (Option-cases (w.waiting i)) [
  | inl idle ↦ rw (on_read, idle) (λ rest after. after readings k)
  | inr (r, e) ↦
      rw (on_read, e)
        (on_entry-IsSafe r t (re_read r.now t url_table) _ readings
          (re_read-IsRead r.now t url_table) k)
]

step-IsSafe :
    (e : Event) (w : World) (readings : List (ℕ × Table))
    → Backed w.cache readings
    → StepIsSafe readings (step e w)
step-IsSafe (arrives i scope now) w readings k = call-IsSafe i scope now w readings k
step-IsSafe (has_read i t url_table) w readings k = on_read-IsSafe i t url_table w readings k

serve-Backed :
    (events : List Event) (w : World) (readings : List (ℕ × Table))
    → Backed w.cache readings
    → IsSafe readings (serve events w)
unfolding serve
serve-Backed [] w readings k = tt
serve-Backed (e ∷ events) w readings k =
    step-IsSafe e w readings k (serve events (step e w).1)
      (λ later h. serve-Backed events (step e w).1 later h)

-- The gate opens only to a completed onboarding: however the requests and their readings of the table
-- are interleaved, and however the table changes between them, a request over HTTP other than OPTIONS
-- and off the white list passes only when a reading before its answer found the onboarding completed,
-- and less than a second lies, by the monotonic clock, between the arrival of the request that the
-- reading was made for and its own arrival. The white list is the page of the onboarding and six
-- prefixes of paths. The cache is empty at first and no request waits.
pub serve-IsSafe : (events : List Event) → IsSafe [] (serve events at_rest)
serve-IsSafe events = serve-Backed events at_rest [] tt
