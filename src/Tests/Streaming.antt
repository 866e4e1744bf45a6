-- ===== src/Tests/Streaming.antt =====
-- The event bus at concrete inputs.
use gektar_monitor.Prelude.{ℕ, ◌≡◌, refl, Bool, false, some, List, [], ◌∷◌}
use gektar_monitor.Bus.{
  Event, Bus, Action, subscribes, publishes, waits, new_bus, run, publish, last_critical,
}
use gektar_monitor.Bus.Laws.{WellFormed, Received, Reached, publish_delivers, publish_insists}
use gektar_monitor.Bus.Invariant.{run-WellFormed, new_bus-WellFormed}

abbrev lot_new : Event
lot_new = record { class = "SseLotNew"; event = "lot.new"; priority = "normal"; payload = 31 }

abbrev session_expired : Event
session_expired = record {
  class = "SseSessionExpired";
  event = "session.expired";
  priority = "critical";
  payload = 0;
}

abbrev nobody_reads : ℕ → Bool
nobody_reads i = false

-- Two subscribers, an event, and one of them reads it.
abbrev operations : List Action
operations = subscribes 0 ∷ subscribes 10 ∷ publishes nobody_reads 20 lot_new ∷ waits 0 ∷ []

abbrev busy : Bus
busy = run operations new_bus

run-WellFormed_example : WellFormed (run operations new_bus)
run-WellFormed_example = run-WellFormed operations new_bus new_bus-WellFormed

busy-WellFormed : WellFormed busy
busy-WellFormed = run-WellFormed operations new_bus new_bus-WellFormed

publish_delivers_example :
    Received lot_new (busy.handles 1) ((publish nobody_reads 30 lot_new busy).handles 1)
publish_delivers_example = publish_delivers nobody_reads 30 lot_new busy busy-WellFormed refl 1

publish_insists_example :
    ((j : ℕ)
      → Reached false session_expired
          (busy.handles j)
          ((publish nobody_reads 30 session_expired busy).handles j))
    × (last_critical "SseSessionExpired" (publish nobody_reads 30 session_expired busy)
        ≡ some session_expired)
publish_insists_example = publish_insists nobody_reads 30 session_expired busy busy-WellFormed refl
