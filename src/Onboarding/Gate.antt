-- ===== src/Onboarding/Gate.antt =====
-- `OnboardingGateMiddleware` of src/fis_monitor/web/onboarding_gate.py. `now` is the monotonic clock in
-- microseconds. A request that misses the cache waits for a thread that reads the table, so that other
-- requests come in between, read too and set the cache.
pub mod Safe
use gektar_monitor.Prelude.{
  ℕ, ◌+◌, String, Bool, true, false, not, ◌&&◌, ◌||◌, Option, none, some, List, [], ◌∷◌, ◌++◌, ltb,
  ◌==◌, codes, if◌then◌else◌, str_eq,
}
use gektar_monitor.StateTable.{Table, OnboardingState, value, get_onboarding}
use gektar_monitor.Onboarding.{url_for_current_step}

-- The ASGI scope, with its defaults filled in and the method in upper case.
pub record Scope : Type 0 where
  pub type : String
  pub method : String
  pub path : String

pub record Cached : Type 0 where
  pub state : OnboardingState
  pub url : String
  pub expires_at : ℕ

-- The cache is none at first.
abbrev pub Gate : Type 0
Gate = Option Cached

-- `server_error` is the ValueError of a stored text that is no state.
pub data Response : Type 0 where
  passes : Response
  redirects : String → Response
  server_error : Response

abbrev pub starts_with : List ℕ → List ℕ → Bool
starts_with [] path = true
starts_with (c ∷ prefix) [] = false
starts_with (c ∷ prefix) (d ∷ path) = c == d && starts_with prefix path

abbrev pub whitelist_prefixes : List String
whitelist_prefixes =
    "/static/" ∷ "/events" ∷ "/api/health" ∷ "/onboarding/" ∷ "/auth/" ∷ "/settings/smtp/suggest"
    ∷ []

abbrev pub any_prefix : List String → String → Bool
any_prefix [] path = false
any_prefix (p ∷ ps) path = starts_with (codes p) (codes path) || any_prefix ps path

unfoldable pub is_whitelisted : String → Bool
is_whitelisted path = str_eq path "/onboarding" || any_prefix whitelist_prefixes path

abbrev pub cache_ttl : ℕ
cache_ttl = 1000000

-- `now < self._cache[2]`
abbrev pub used_entry : ℕ → Gate → Gate
used_entry now none = none
used_entry now (some c) = if ltb now c.expires_at then some c else none

-- `_read` and the new entry, whose time is the one of the arrival of the request. The state and the
-- address are read one behind the other, so each has its table; none is the ValueError.
unfoldable pub re_read : ℕ → Table → Table → Gate
re_read now t url_table = elim (get_onboarding t) [
  | none ↦ none
  | some state ↦ elim (url_for_current_step url_table) [
    | none ↦ none
    | some url ↦ some (record { state = state; url = url; expires_at = now + cache_ttl })
  ]
]

-- Whether a request reaches the reading of the state.
unfoldable pub is_gated : Scope → Bool
is_gated scope =
    if not (str_eq scope.type "http")
    then false
    else if str_eq scope.method "OPTIONS"
    then false
    else not (is_whitelisted scope.path)

unfoldable pub respond : Cached → Response
respond c = if not (str_eq (value c.state) "completed") then redirects c.url else passes

-- What happens in the event loop: a request comes at a time and has a number; a reading that it has
-- given to a thread is over. Between these the table may become any other.
pub data Event : Type 0 where
  arrives : ℕ → Scope → ℕ → Event
  has_read : ℕ → Table → Table → Event

-- What can be seen: the reading of the table for a request of that time, and the response to a request
-- of that time.
pub data Seen : Type 0 where
  reading : ℕ → Table → Seen
  answer : Scope → ℕ → Response → Seen

-- A request that waits for its reading, with its time.
pub record Waiting : Type 0 where
  pub scope : Scope
  pub now : ℕ

pub record World : Type 0 where
  pub cache : Gate
  pub waiting : ℕ → Option Waiting

abbrev pub set_waiting : ℕ → Option Waiting → (ℕ → Option Waiting) → ℕ → Option Waiting
set_waiting i x waiting j = if j == i then x else waiting j

-- `__call__` up to its first wait: the cached entry is used, or the table is read.
abbrev pub on_cache : ℕ → Scope → ℕ → Gate → World → List Seen × World
on_cache i scope now (some c) w = (answer scope now (respond c) ∷ [], w)
on_cache i scope now none w = (
  [],
  record w { waiting = set_waiting i (some (record { scope = scope; now = now })) w.waiting },
)

unfoldable pub call : ℕ → Scope → ℕ → World → List Seen × World
call i scope now w =
    if is_gated scope
    then on_cache i scope now (used_entry now w.cache) w
    else (answer scope now passes ∷ [], w)

-- `__call__` behind its wait. A reading that raises leaves the cache alone.
abbrev pub on_entry : Waiting → Table → Gate → World → List Seen × World
on_entry r t none w = (reading r.now t ∷ answer r.scope r.now server_error ∷ [], w)
on_entry r t (some c) w =
    (reading r.now t ∷ answer r.scope r.now (respond c) ∷ [], record w { cache = some c })

unfoldable pub on_read : ℕ → Table → Table → World → List Seen × World
on_read i t url_table w = elim (w.waiting i) [
  | none ↦ ([], w)
  | some r ↦
      on_entry r t (re_read r.now t url_table) (record w { waiting = set_waiting i none w.waiting })
]

abbrev pub step : Event → World → List Seen × World
step (arrives i scope now) w = call i scope now w
step (has_read i t url_table) w = on_read i t url_table w

unfoldable pub serve : List Event → World → List Seen
serve [] w = []
serve (e ∷ events) w = (step e w).0 ++ serve events (step e w).1

-- The cache is empty and no request waits.
abbrev pub at_rest : World
at_rest = record { cache = none; waiting = λ i. none }
