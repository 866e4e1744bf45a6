-- ===== src/Dnd.antt =====
-- The do-not-disturb window of src/fis_monitor/services/dnd.py. The state is the text under the key
-- `dnd_until`: none, an ISO datetime (one without an offset is read as UTC), or a text that
-- `datetime.fromisoformat` refuses.
pub mod Laws
use gektar_monitor.Prelude.{
  ℕ, ◌+◌, ◌*◌, Bool, true, false, ◌||◌, Option, none, some, ltb, if◌then◌else◌,
}
use gektar_monitor.Prelude.Int.{ℤ, pos, negsuc}
use gektar_monitor.Domain.{Instant}

pub data StoredStamp : Type 0 where
  iso : Instant → StoredStamp
  malformed : StoredStamp

abbrev pub min_minutes : ℕ
min_minutes = 1

abbrev pub max_minutes : ℕ
max_minutes = 1440 * 7

abbrev pub minute : ℕ
minute = 60000000

-- `none` is the ValueError; otherwise the value that is stored.
unfoldable pub set_dnd_until : Instant → ℤ → Option StoredStamp
set_dnd_until now (negsuc n) = none
set_dnd_until now (pos minutes) =
    if ltb minutes min_minutes || ltb max_minutes minutes
    then none
    else some (iso (now + minutes * minute))

unfoldable pub until : Option StoredStamp → Instant → Option Instant
until none now = none
until (some malformed) now = none
until (some (iso expiry)) now = if ltb now expiry then some expiry else none

unfoldable pub is_active : Option StoredStamp → Instant → Bool
is_active stored now = elim (until stored now) [ none ↦ false | some expiry ↦ ltb now expiry ]
