-- ===== src/Bus/Laws.antt =====
-- What the operations of Bus.antt promise to the subscribers.
use gektar_monitor.Prelude.{
  ℕ, ◌+◌, ◌-◌, ◌≤◌, ◌<◌, ◌≡◌, refl, sym, ap, subst, ◌∙◌, String, Bool, true, false, ◌&&◌, ◌||◌,
  none, some, List, [], ◌∷◌, ◌++◌, ltb, length, drop, if◌then◌else◌, arith, Bool-cases, inl, inr,
  length-append, contains, str_eq, lt→ltb, ◌⊎◌, eq_iff,
}
use gektar_monitor.Bus.{
  Event, Subscription, Bus, queue_maxsize, put_nowait, or_else, put_evicting, offer_normal,
  put_within, offer_critical, is_slow, for_each, slow_ones, publish_normal, publish_critical,
  publish, Slots, set_slot, get_slot, pop_slot, last_critical,
}
use gektar_monitor.Bus.Loops.{
  occurrences, for_each-absent, for_each-once, slow_ones-absent, slow_ones-once, remove_all-queue,
  remove_all-alive, remove_all-rest, contains_iff,
}

-- A handle is listed once while it is alive and never when it is dead; live handles were created;
-- no queue holds more than its maximum.
pub record WellFormed (b : Bus) : Type 0 where
  pub listed : (i : ℕ) → occurrences i b.subscribers ≡ (if (b.handles i).alive then 1 else 0)
  pub small : (i : ℕ) → length (b.handles i).queue ≤ queue_maxsize
  pub named : (i : ℕ) → (b.handles i).alive ≡ true → i < b.created

pub length-drop-1 : (q : List Event) → length (drop 1 q) ≡ length q - 1
length-drop-1 [] = refl
length-drop-1 (e ∷ q) = omega arith

-- The events that a queue holds after one more: the newest, as many as fit.
abbrev pub newest : List Event → List Event
newest q = drop (length q - queue_maxsize) q

excess :
    (q : List Event) (e : Event) (n : ℕ)
    → (length q + 1 ≤ queue_maxsize) × (n ≡ 0) ⊎ (length q + 1 ≡ n + queue_maxsize)
    → n ≡ length (q ++ (e ∷ [])) - queue_maxsize
excess q e n h = ground (arith, length-append q (e ∷ []))

put_evicting-newest :
    (q : List Event) (e : Event)
    → length q ≤ queue_maxsize
    → put_evicting q e (put_nowait q e) ≡ newest (q ++ (e ∷ []))
unfolding put_nowait
put_evicting-newest [] e h = refl
put_evicting-newest (x ∷ q) e h = elim (Bool-cases (ltb (length (x ∷ q)) queue_maxsize)) [
  | inl g ↦
      rw g (ap (λ n. drop n (x ∷ (q ++ (e ∷ [])))) (excess (x ∷ q) e 0 (inl (ground arith, refl))))
  | inr g ↦
      rw (g, lt→ltb (length q) queue_maxsize (omega (arith, h)))
        (ap (λ n. drop n (x ∷ (q ++ (e ∷ [])))) (excess (x ∷ q) e 1 (inr (ground arith))))
]

pub put_evicting-small :
    (q : List Event) (e : Event)
    → length q ≤ queue_maxsize
    → length (put_evicting q e (put_nowait q e)) ≤ queue_maxsize
unfolding put_nowait
put_evicting-small q e h =
    ground (arith, length-append (drop 1 q) (e ∷ []), length-append q (e ∷ []), length-drop-1 q)

pub put_within-small :
    (taken : Bool) (q : List Event) (e : Event)
    → length q ≤ queue_maxsize
    → length (or_else q (put_within taken q e)) ≤ queue_maxsize
unfolding put_nowait put_within
put_within-small taken q e h =
    ground (arith, length-append (drop 1 q) (e ∷ []), length-append q (e ∷ []), length-drop-1 q)

module _ (b : Bus) (w : WellFormed b) (j : ℕ) where
  for_each-listed :
      (f : ℕ → Subscription → Subscription)
      → ((b.handles j).alive ≡ false → f j (b.handles j) ≡ b.handles j)
      → for_each f b.subscribers b.handles j ≡ f j (b.handles j)
  for_each-listed f idle = elim (Bool-cases (b.handles j).alive) [
    | inl e ↦ for_each-once f j b.subscribers b.handles (ground (arith, w.listed j))
    | inr e ↦
        for_each-absent f j b.subscribers b.handles (ground (arith, w.listed j)) ∙ sym (idle e)
  ]

  pub normal-handle :
      (e : Event)
      → for_each (λ i. offer_normal e) b.subscribers b.handles j ≡ offer_normal e (b.handles j)
  unfolding offer_normal
  normal-handle e = for_each-listed (λ i. offer_normal e) (λ dead. rw dead refl)

  pub critical-handle :
      (taken : ℕ → Bool) (e : Event)
      → for_each (λ i. offer_critical (taken i) e) b.subscribers b.handles j
        ≡ offer_critical (taken j) e (b.handles j)
  unfolding offer_critical
  critical-handle taken e = for_each-listed (λ i. offer_critical (taken i) e) (λ dead. rw dead refl)

  pub slow-listed :
      (taken : ℕ → Bool) (e : Event)
      → contains j (slow_ones taken e b.subscribers b.handles) ≡ is_slow (taken j) e (b.handles j)
  unfolding is_slow
  slow-listed taken e = ground (
    arith,
    contains_iff j (slow_ones taken e b.subscribers b.handles),
    w.listed j,
    slow_ones-absent taken e j b.subscribers b.handles,
    slow_ones-once taken e j b.subscribers b.handles,
  )

-- After a publication that is not critical.
abbrev pub Received : Event → Subscription → Subscription → Type 0
Received e s t =
    (t.alive ≡ s.alive) × (t.queue ≡ (if s.alive then newest (s.queue ++ (e ∷ [])) else s.queue))

offer_normal-Received :
    (e : Event) (s : Subscription)
    → length s.queue ≤ queue_maxsize
    → Received e s (offer_normal e s)
unfolding offer_normal
offer_normal-Received e s h = elim (Bool-cases s.alive) [
  | inl a ↦ rw a (refl, put_evicting-newest s.queue e h)
  | inr a ↦ rw a (refl, refl)
]

-- On a well-formed bus, an event that is not critical reaches every live handle, dead handles
-- keep their queues, and no handle dies: the queue of a live handle becomes the newest hundred of
-- its events and the new one.
pub publish_delivers :
    (taken : ℕ → Bool) (now : ℕ) (e : Event) (b : Bus)
    → WellFormed b
    → str_eq e.priority "critical" ≡ false
    → (j : ℕ) → Received e (b.handles j) ((publish taken now e b).handles j)
unfolding publish publish_normal
publish_delivers taken now e b w normal j =
    rw (normal, normal-handle b w j e) (offer_normal-Received e (b.handles j) (w.small j))

-- After a critical publication, if an event is `taken` from a full queue in time or not.
abbrev pub Reached : Bool → Event → Subscription → Subscription → Type 0
Reached taken e s t =
    (t.alive ≡ (s.alive && (ltb (length s.queue) queue_maxsize || taken)))
    × (t.queue ≡ (if t.alive then newest (s.queue ++ (e ∷ [])) else s.queue))

put_within-evicting :
    (taken : Bool) (q : List Event) (e : Event)
    → length q ≤ queue_maxsize
    → (ltb (length q) queue_maxsize || taken) ≡ true
    → put_within taken q e ≡ some (put_evicting q e (put_nowait q e))
unfolding put_within put_nowait
put_within-evicting taken q e h g = ground (arith, length-drop-1 q)

put_within-some :
    (taken : Bool) (q : List Event) (e : Event)
    → length q ≤ queue_maxsize
    → (ltb (length q) queue_maxsize || taken) ≡ true
    → put_within taken q e ≡ some (newest (q ++ (e ∷ [])))
put_within-some taken q e h g =
    put_within-evicting taken q e h g ∙ ap some (put_evicting-newest q e h)

put_within-none :
    (taken : Bool) (q : List Event) (e : Event)
    → (ltb (length q) queue_maxsize || taken) ≡ false
    → put_within taken q e ≡ none
unfolding put_within
put_within-none taken q e g = ground arith

pub set_slot-get_slot :
    {A : Type 0} (key : String) (x : A) (slots : Slots A)
    → get_slot key (set_slot key x slots) ≡ some x
unfolding get_slot set_slot
set_slot-get_slot key x [] = ground (arith, eq_iff key key)
set_slot-get_slot key x ((k, y) ∷ slots) =
    ground (arith, eq_iff key key, eq_iff k key, set_slot-get_slot key x slots)

pub pop_slot-get_slot :
    {A : Type 0} (key : String) (slots : Slots A) → get_slot key (pop_slot key slots) ≡ none
unfolding get_slot pop_slot
pop_slot-get_slot key [] = refl
pop_slot-get_slot key ((k, y) ∷ slots) = ground (arith, pop_slot-get_slot key slots)

-- One subscriber of the loop, with its removal.
abbrev pub critically : Bool → Event → Subscription → Subscription
critically taken e s = record (offer_critical taken e s) {
  alive = if is_slow taken e s then false else (offer_critical taken e s).alive;
}

pub critically-Reached :
    (taken : Bool) (e : Event) (s : Subscription)
    → length s.queue ≤ queue_maxsize
    → Reached taken e s (critically taken e s)
unfolding offer_critical is_slow
critically-Reached taken e s h = elim (Bool-cases s.alive) [
  | inr a ↦ rw a (refl, refl)
  | inl a ↦ elim (Bool-cases (ltb (length s.queue) queue_maxsize || taken)) [
    | inl g ↦ rw (a, g, put_within-some taken s.queue e h g) (refl, refl)
    | inr g ↦ rw (a, g, put_within-none taken s.queue e g) (refl, refl)
  ]
]

pub publish_critical-handle :
    (taken : ℕ → Bool) (e : Event) (b : Bus)
    → WellFormed b
    → (j : ℕ)
    → (publish_critical taken e b.subscribers b).handles j ≡ critically (taken j) e (b.handles j)
unfolding publish_critical
publish_critical-handle taken e b w j =
    let slow = slow_ones taken e b.subscribers b.handles in
    let offered = record b {
      handles = for_each (λ i. offer_critical (taken i) e) b.subscribers b.handles;
      last_critical = set_slot e.class e b.last_critical;
    } in
    let alive =
      remove_all-alive j slow offered
      ∙ ap (λ c. if c then false else (offered.handles j).alive) (slow-listed b w j taken e)
      ∙ ap (λ (s : Subscription). if is_slow (taken j) e (b.handles j) then false else s.alive)
          (critical-handle b w j taken e) in
    let queue =
      remove_all-queue j slow offered
      ∙ ap (λ (s : Subscription). s.queue) (critical-handle b w j taken e) in
    λ i. record { alive = alive i; queue = queue i }

last_critical-publish_critical :
    (taken : ℕ → Bool) (e : Event) (b : Bus)
    → last_critical e.class (publish_critical taken e b.subscribers b) ≡ some e
unfolding last_critical publish_critical
last_critical-publish_critical taken e b =
    ap (get_slot e.class)
      (remove_all-rest (slow_ones taken e b.subscribers b.handles) (record b {
        handles = for_each (λ i. offer_critical (taken i) e) b.subscribers b.handles;
        last_critical = set_slot e.class e b.last_critical;
      })).2
    ∙ set_slot-get_slot e.class e b.last_critical

-- On a well-formed bus, a critical event reaches every live handle whose queue has room or is
-- read from in time, and this handle stays alive; a live handle with a full queue that nobody
-- reads dies and keeps its queue. Dead handles stay as they are, and the event is the last one of
-- its class.
pub publish_insists :
    (taken : ℕ → Bool) (now : ℕ) (e : Event) (b : Bus)
    → WellFormed b
    → str_eq e.priority "critical" ≡ true
    → ((j : ℕ) → Reached (taken j) e (b.handles j) ((publish taken now e b).handles j))
      × (last_critical e.class (publish taken now e b) ≡ some e)
unfolding publish
publish_insists taken now e b w critical = rw critical (
  (λ j.
      subst (λ t. Reached (taken j) e (b.handles j) t) (sym (publish_critical-handle taken e b w j))
        (critically-Reached (taken j) e (b.handles j) (w.small j))),
  last_critical-publish_critical taken e b,
)
