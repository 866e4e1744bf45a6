-- ===== src/Dnd/Laws.antt =====
-- What a window that was set does.
use gektar_monitor.Prelude.{
  ℕ, ◌+◌, ◌*◌, ◌<◌, ◌≤◌, ◌≡◌, ◌↔◌, ◌⊎◌, none, some, ltb, arith, if◌then◌else◌,
}
use gektar_monitor.Prelude.Int.{ℤ, pos, negsuc}
use gektar_monitor.Domain.{Instant}
use gektar_monitor.Dnd.{minute, set_dnd_until, until, is_active}

-- A window of 1 to 10080 minutes is active exactly before its end, and its end is what `until`
-- reports up to then.
set_dnd_until-is_active :
    (now later : Instant) (minutes : ℕ)
    → 1 ≤ minutes
    → minutes ≤ 10080
    → (is_active (set_dnd_until now (pos minutes)) later ≡ ltb later (now + minutes * minute))
      × (until (set_dnd_until now (pos minutes)) later
          ≡ (if ltb later (now + minutes * minute) then some (now + minutes * minute) else none))
unfolding set_dnd_until is_active until
set_dnd_until-is_active now later minutes lo hi = ground arith

-- Exactly the numbers of minutes outside 1 to 10080 are refused.
pub set_dnd_until-eq-none :
    (now : Instant) (minutes : ℤ)
    → (set_dnd_until now minutes ≡ none)
      ↔ elim minutes [ pos m ↦ (m < 1) ⊎ (10080 < m) | negsuc _ ↦ Unit {0} ]
unfolding set_dnd_until
set_dnd_until-eq-none now (pos m) = ground arith
set_dnd_until-eq-none now (negsuc m) = ground arith
