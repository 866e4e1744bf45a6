-- ===== src/Bus/Replay.antt =====
-- What a new subscriber of Bus.antt is told of the past.
use gektar_monitor.Prelude.{
  ℕ, zero, suc, ◌+◌, ◌≤◌, ◌<◌, ◌≡◌, refl, sym, ap, ◌∙◌, String, Bool, true, false, some, List, [],
  ◌∷◌, ◌++◌, ltb, length, take, arith, Bool-cases, inl, inr, length-append, str_eq, get_elem?,
  lt→ltb,
}
use mathlib.Core.List.{append-nil, append_assoc}
use gektar_monitor.Bus.{
  Event, Subscription, Bus, queue_maxsize, put_nowait, publish_normal, publish, replay, fresh_slots,
  is_stale, subscribe, Stamped, Slots, set_slot, replay_ttl,
}
use gektar_monitor.Bus.Loops.{set_handle-same}

-- The events of the slots, in the order of the dict.
abbrev pub events_of : Slots Stamped → List Event
events_of [] = []
events_of ((k, s) ∷ slots) = s.value ∷ events_of slots

take-nil : (n : ℕ) → take {A = Event} n [] ≡ []
take-nil zero = refl
take-nil (suc n) = refl

full : (q : List Event) → length q ≡ queue_maxsize → ltb (length q) queue_maxsize ≡ false
full q h = ground arith

replay-fresh :
    (now : ℕ) (slots : Slots Stamped) (room : ℕ) (q : List Event)
    → length q + room ≡ queue_maxsize
    → replay now slots q ≡ q ++ take room (events_of (fresh_slots now slots))
unfolding replay fresh_slots put_nowait
replay-fresh now [] room q h = sym (ap (λ l. q ++ l) (take-nil room) ∙ append-nil q)
replay-fresh now ((k, s) ∷ slots) zero q h = elim (Bool-cases (is_stale now s)) [
  | inl e ↦ rw e (replay-fresh now slots 0 q h)
  | inr e ↦ rw (e, full q (omega (arith, h))) (replay-fresh now slots 0 q h)
]
replay-fresh now ((k, s) ∷ slots) (suc room) q h = elim (Bool-cases (is_stale now s)) [
  | inl e ↦ rw e (replay-fresh now slots (suc room) q h)
  | inr e ↦
      rw (e, lt→ltb (length q) queue_maxsize (omega (arith, h)))
        (replay-fresh now slots room (q ++ (s.value ∷ []))
            (omega (arith, h, length-append q (s.value ∷ [])))
          ∙ append_assoc q (s.value ∷ []) (take room (events_of (fresh_slots now slots))))
]

-- A new subscriber finds in its queue the events of the slots that are younger than 30 s, in the
-- order of the slots and as many as fit, and the other slots are gone.
subscribe_replays :
    (now : ℕ) (b : Bus)
    → (((subscribe now b).1.handles (subscribe now b).0).queue
        ≡ take queue_maxsize (events_of (fresh_slots now b.last_normal)))
      × ((subscribe now b).1.last_normal ≡ fresh_slots now b.last_normal)
unfolding subscribe
subscribe_replays now b = (
  ap (λ (s : Subscription). s.queue)
        (set_handle-same b.created (record { alive = true; queue = replay now b.last_normal [] })
          b.handles)
      ∙ replay-fresh now b.last_normal 100 [] refl,
  refl,
)

get_elem?-take :
    {A : Type 0} (n i : ℕ) (xs : List A) → i < n → get_elem? (take n xs) i ≡ get_elem? xs i
get_elem?-take zero i xs h = ground arith
get_elem?-take (suc n) i [] h = refl
get_elem?-take (suc n) zero (x ∷ xs) h = refl
get_elem?-take (suc n) (suc i) (x ∷ xs) h = get_elem?-take n i xs (omega (arith, h))

-- Where a fresh event stands among those that are replayed.
set_slot_position :
    (now at : ℕ) (key : String) (e : Event) (slots : Slots Stamped)
    → now < at + replay_ttl
    → (i : ℕ) × (get_elem?
          (events_of (fresh_slots now (set_slot key (record { value = e; at = at }) slots)))
          i
        ≡ some e)
      × (i ≤ length slots)
unfolding set_slot fresh_slots
set_slot_position now at key e [] h = (0, ground arith, omega arith)
set_slot_position now at key e ((k, s) ∷ slots) h = elim (Bool-cases (str_eq k key)) [
  | inl g ↦ (0, rw g (ground arith), omega arith)
  | inr g ↦
      let (i, found, bound) = set_slot_position now at key e slots h in
      elim (Bool-cases (is_stale now s)) [
        | inl old ↦ (i, rw (g, old) found, omega (arith, bound))
        | inr new ↦ (suc i, rw (g, new) found, omega (arith, bound))
      ]
]

last_normal-publish :
    (taken : ℕ → Bool) (at : ℕ) (e : Event) (b : Bus)
    → str_eq e.priority "critical" ≡ false
    → (publish taken at e b).last_normal
      ≡ set_slot e.event (record { value = e; at = at }) b.last_normal
unfolding publish publish_normal
last_normal-publish taken at e b normal = rw normal refl

-- An event that is not critical, published while fewer than a hundred kinds of event have a slot,
-- is in the queue of a handle that subscribes right after it and within 30 s.
publish_then_subscribe :
    (taken : ℕ → Bool) (at now : ℕ) (e : Event) (b : Bus)
    → str_eq e.priority "critical" ≡ false
    → now < at + replay_ttl
    → length b.last_normal < queue_maxsize
    → (i : ℕ) × (get_elem?
          ((subscribe now (publish taken at e b)).1.handles
            (subscribe now (publish taken at e b)).0).queue
          i
        ≡ some e)
publish_then_subscribe taken at now e b normal young few =
    let (i, found, bound) = set_slot_position now at e.event e b.last_normal young in
    (
      i,
      ap (λ q. get_elem? q i) (subscribe_replays now (publish taken at e b)).0
          ∙ ap (λ slots. get_elem? (take queue_maxsize (events_of (fresh_slots now slots))) i)
              (last_normal-publish taken at e b normal)
          ∙ get_elem?-take queue_maxsize i
              (events_of
                (fresh_slots now (set_slot e.event (record { value = e; at = at }) b.last_normal)))
              (omega (arith, bound, few))
          ∙ found,
    )
