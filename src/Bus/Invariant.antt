-- ===== src/Bus/Invariant.antt =====
-- The subscriber list of Bus.antt against its live handles, and the lengths of the queues.
use gektar_monitor.Prelude.{
  ℕ, ◌≤◌, ◌<◌, ◌≡◌, refl, sym, ap, subst, ◌∙◌, Bool, true, false, List, [], ◌∷◌, ◌==◌, length, drop,
  if◌then◌else◌, arith, Bool-cases, inl, inr, length-append, ==_iff, str_eq,
}
use gektar_monitor.Bus.{
  Event, Subscription, Bus, queue_maxsize, put_nowait, or_else, offer_normal, offer_critical,
  set_handle, for_each, slow_ones, remove_subscriber, remove_all, publish_normal, publish_critical,
  publish, replay, is_stale, subscribe, evict_normal_replay, iter, wait_one, Action, publishes,
  subscribes, unsubscribes, iterates, waits, evicts, act, run, new_bus, Stamped, Slots, set_slot,
}
use gektar_monitor.Bus.Loops.{
  occurrences, set_handle-other, occurrences-append, remove_subscriber-queue,
  remove_subscriber-alive, remove_subscriber-occurrences,
}
use gektar_monitor.Bus.Laws.{
  WellFormed, length-drop-1, put_evicting-small, put_within-small, normal-handle, critical-handle,
}

-- An operation that keeps the list, and each handle's liveness, and does not let a queue outgrow.
keeps_list :
    (b c : Bus)
    → WellFormed b
    → c.subscribers ≡ b.subscribers
    → c.created ≡ b.created
    → ((j : ℕ) → (c.handles j).alive ≡ (b.handles j).alive)
    → ((j : ℕ) → length (c.handles j).queue ≤ queue_maxsize)
    → WellFormed c
keeps_list b c w subscribers created alive small = record {
  listed = λ i.
      ap (occurrences i) subscribers ∙ w.listed i ∙ ap (λ a. if a then 1 else 0) (sym (alive i));
  small = small;
  named = λ i e. subst (λ n. i < n) (sym created) (w.named i (sym (alive i) ∙ e));
}

offer_normal-alive : (e : Event) (s : Subscription) → (offer_normal e s).alive ≡ s.alive
unfolding offer_normal
offer_normal-alive e s = elim (Bool-cases s.alive) [ inl a ↦ rw a refl | inr a ↦ rw a refl ]

offer_critical-alive :
    (taken : Bool) (e : Event) (s : Subscription) → (offer_critical taken e s).alive ≡ s.alive
unfolding offer_critical
offer_critical-alive taken e s = elim (Bool-cases s.alive) [ inl a ↦ rw a refl | inr a ↦ rw a refl ]

offer_normal-small :
    (e : Event) (s : Subscription)
    → length s.queue ≤ queue_maxsize
    → length (offer_normal e s).queue ≤ queue_maxsize
unfolding offer_normal
offer_normal-small e s h = elim (Bool-cases s.alive) [
  | inl a ↦ rw a (put_evicting-small s.queue e h)
  | inr a ↦ rw a h
]

offer_critical-small :
    (taken : Bool) (e : Event) (s : Subscription)
    → length s.queue ≤ queue_maxsize
    → length (offer_critical taken e s).queue ≤ queue_maxsize
unfolding offer_critical
offer_critical-small taken e s h = elim (Bool-cases s.alive) [
  | inl a ↦ rw a (put_within-small taken s.queue e h)
  | inr a ↦ rw a h
]

publish_normal-WellFormed :
    (now : ℕ) (e : Event) (b : Bus)
    → WellFormed b
    → WellFormed (publish_normal now e b.subscribers b)
unfolding publish_normal
publish_normal-WellFormed now e b w =
    keeps_list b (publish_normal now e b.subscribers b) w refl refl
      (λ j.
        ap (λ (s : Subscription). s.alive) (normal-handle b w j e)
        ∙ offer_normal-alive e (b.handles j))
      (λ j.
        subst (λ (s : Subscription). length s.queue ≤ queue_maxsize) (sym (normal-handle b w j e))
          (offer_normal-small e (b.handles j) (w.small j)))

remove_subscriber-named :
    (i j : ℕ) (b : Bus)
    → WellFormed b
    → ((remove_subscriber i b).handles j).alive ≡ true
    → j < (remove_subscriber i b).created
unfolding remove_subscriber
remove_subscriber-named i j b w e = w.named j (ground (arith, remove_subscriber-alive i j b, e))

remove_subscriber-WellFormed : (i : ℕ) (b : Bus) → WellFormed b → WellFormed (remove_subscriber i b)
remove_subscriber-WellFormed i b w = record {
  listed = λ j.
      remove_subscriber-occurrences i j b (ground (arith, w.listed j))
      ∙ ground (arith, w.listed j, remove_subscriber-alive i j b);
  small =
      λ j. subst (λ q. length q ≤ queue_maxsize) (sym (remove_subscriber-queue i j b)) (w.small j);
  named = λ j e. remove_subscriber-named i j b w e;
}

remove_all-WellFormed : (slow : List ℕ) (b : Bus) → WellFormed b → WellFormed (remove_all slow b)
unfolding remove_all
remove_all-WellFormed [] b w = w
remove_all-WellFormed (i ∷ slow) b w =
    remove_all-WellFormed slow (remove_subscriber i b) (remove_subscriber-WellFormed i b w)

publish_critical-WellFormed :
    (taken : ℕ → Bool) (e : Event) (b : Bus)
    → WellFormed b
    → WellFormed (publish_critical taken e b.subscribers b)
unfolding publish_critical
publish_critical-WellFormed taken e b w =
    let offered =
      keeps_list b
        (record b {
          handles = for_each (λ i. offer_critical (taken i) e) b.subscribers b.handles;
          last_critical = set_slot e.class e b.last_critical;
        })
        w refl refl
        (λ j.
          ap (λ (s : Subscription). s.alive) (critical-handle b w j taken e)
          ∙ offer_critical-alive (taken j) e (b.handles j))
        (λ j.
          subst (λ (s : Subscription). length s.queue ≤ queue_maxsize)
            (sym (critical-handle b w j taken e))
            (offer_critical-small (taken j) e (b.handles j) (w.small j))) in
    remove_all-WellFormed (slow_ones taken e b.subscribers b.handles)
      (record b {
        handles = for_each (λ i. offer_critical (taken i) e) b.subscribers b.handles;
        last_critical = set_slot e.class e b.last_critical;
      })
      offered

replayed_small :
    (now : ℕ) (s : Stamped) (q : List Event)
    → length q ≤ queue_maxsize
    → length (if is_stale now s then q else or_else q (put_nowait q s.value)) ≤ queue_maxsize
unfolding put_nowait
replayed_small now s q h = ground (arith, length-append q (s.value ∷ []))

replay-small :
    (now : ℕ) (slots : Slots Stamped) (q : List Event)
    → length q ≤ queue_maxsize
    → length (replay now slots q) ≤ queue_maxsize
unfolding replay
replay-small now [] q h = h
replay-small now ((k, s) ∷ slots) q h =
    replay-small now slots (if is_stale now s then q else or_else q (put_nowait q s.value))
      (replayed_small now s q h)

-- Nothing is listed under a number that was not given out.
unnamed : (b : Bus) (j : ℕ) → WellFormed b → j ≡ b.created → (b.handles j).alive ≡ false
unnamed b j w e = elim (Bool-cases (b.handles j).alive) [
  | inl a ↦ ground (arith, w.named j a, e)
  | inr a ↦ a
]

subscribe-WellFormed : (now : ℕ) (b : Bus) → WellFormed b → WellFormed (subscribe now b).1
unfolding subscribe
subscribe-WellFormed now b w = record {
  listed = λ j. elim (Bool-cases (j == b.created)) [
    | inl e ↦ rw e (
        ground
          (arith, occurrences-append j b.subscribers (b.created ∷ []), w.listed j, unnamed b j w))
    | inr e ↦ rw e (ground (arith, occurrences-append j b.subscribers (b.created ∷ []), w.listed j))
  ];
  small = λ j. elim (Bool-cases (j == b.created)) [
    | inl e ↦ rw e (replay-small now b.last_normal [] (omega arith))
    | inr e ↦ rw e (w.small j)
  ];
  named = λ j e. elim (Bool-cases (j == b.created)) [
    | inl f ↦ ground arith
    | inr f ↦ omega (
      arith,
      w.named j (
          ap (λ (s : Subscription). s.alive) (sym (set_handle-other b.created j _ b.handles f))
          ∙ e),
    )
  ];
}

-- The queue of one handle shrinks.
take_out-WellFormed :
    (i : ℕ) (q : List Event) (b : Bus)
    → length q ≤ length (b.handles i).queue
    → WellFormed b
    → WellFormed
        (record b { handles = set_handle i (record (b.handles i) { queue = q }) b.handles })
take_out-WellFormed i q b h w =
    keeps_list b
      (record b { handles = set_handle i (record (b.handles i) { queue = q }) b.handles }) w refl
      refl
      (λ j. elim (Bool-cases (j == i)) [
        | inl e ↦ rw e (ap (λ k. (b.handles k).alive) (sym ((==_iff j i).0 e)))
        | inr e ↦ rw e refl
      ])
      (λ j. elim (Bool-cases (j == i)) [
        | inl e ↦ rw e (omega (arith, h, w.small i))
        | inr e ↦ rw e (w.small j)
      ])

wait_one-WellFormed : (i : ℕ) (b : Bus) → WellFormed b → WellFormed (wait_one i b).1
unfolding wait_one
wait_one-WellFormed i b w = elim (Bool-cases (b.handles i).alive) [
  | inl e ↦
      let h =
        take_out-WellFormed i (drop 1 (b.handles i).queue) b
          (omega (arith, length-drop-1 (b.handles i).queue)) w in
      rw e (rw e at h)
  | inr e ↦ rw e w
]

publish-WellFormed :
    (taken : ℕ → Bool) (now : ℕ) (e : Event) (b : Bus)
    → WellFormed b
    → WellFormed (publish taken now e b)
unfolding publish
publish-WellFormed taken now e b w = elim (Bool-cases (str_eq e.priority "critical")) [
  | inl c ↦ rw c (publish_critical-WellFormed taken e b w)
  | inr c ↦ rw c (publish_normal-WellFormed now e b w)
]

act-WellFormed : (x : Action) (b : Bus) → WellFormed b → WellFormed (act x b)
unfolding act iter evict_normal_replay
act-WellFormed (publishes taken now e) b w = publish-WellFormed taken now e b w
act-WellFormed (subscribes now) b w = subscribe-WellFormed now b w
act-WellFormed (unsubscribes i) b w = remove_subscriber-WellFormed i b w
act-WellFormed (iterates i) b w = take_out-WellFormed i [] b (omega arith) w
act-WellFormed (waits i) b w = wait_one-WellFormed i b w
act-WellFormed (evicts key) b w =
    keeps_list b (evict_normal_replay key b) w refl refl (λ j. refl) w.small

-- A well-formed bus stays so, whatever is published, subscribed, unsubscribed, read or evicted in
-- whatever order: a handle is a subscriber of the bus exactly while it is alive, and only once; live
-- handles were given out; and no queue ever holds more than a hundred events.
pub run-WellFormed : (actions : List Action) (b : Bus) → WellFormed b → WellFormed (run actions b)
unfolding run
run-WellFormed [] b w = w
run-WellFormed (x ∷ actions) b w = run-WellFormed actions (act x b) (act-WellFormed x b w)

pub new_bus-WellFormed : WellFormed new_bus
new_bus-WellFormed = record {
  listed = λ i. refl;
  small = λ i. omega arith;
  named = λ i e. ground arith;
}
