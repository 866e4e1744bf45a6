-- ===== src/Bus.antt =====
-- `ThreadEventBus` of src/fis_monitor/infra/sse/bus.py and its subscription handles
-- (`ThreadEventSubscription` of subscriptions.py). A handle is named by a number, and the objects
-- themselves stand in a store that the bus and the holders of the handles share. A publication
-- runs to its end before the next operation; the one thing other threads do meanwhile is to take
-- an event from a full queue while a critical publication waits for room, which is a function of
-- the handle. The monotonic clock is read in milliseconds, as an argument of the operations.
pub mod Loops
pub mod Laws
pub mod Invariant
pub mod Replay
use gektar_monitor.Prelude.{
  ℕ, zero, suc, ◌+◌, String, Bool, true, false, not, ◌&&◌, Option, none, some, List, [], ◌∷◌, ◌++◌,
  leb, ltb, ◌==◌, length, drop, if◌then◌else◌, str_eq,
}

-- `SseEvent`: the class, the two class variables, and a number for the rest.
pub record Event : Type 0 where
  pub class : String
  pub event : String
  pub priority : String
  pub payload : ℕ

pub record Subscription : Type 0 where
  pub alive : Bool
  pub queue : List Event

pub record Stamped : Type 0 where
  pub value : Event
  pub at : ℕ

-- A dict with keys in the order of their insertion.
abbrev pub Slots : Type 0 → Type 0
Slots A = List (String × A)

pub record Bus : Type 0 where
  pub handles : ℕ → Subscription
  pub created : ℕ
  pub subscribers : List ℕ
  pub last_critical : Slots Event
  pub last_normal : Slots Stamped

module _ {A : Type 0} where
  -- `slots[key] = x`
  unfoldable pub set_slot : String → A → Slots A → Slots A
  set_slot key x [] = (key, x) ∷ []
  set_slot key x ((k, y) ∷ slots) =
      let rest = set_slot key x slots in if str_eq k key then (k, x) ∷ slots else (k, y) ∷ rest

  -- `slots.get(key)`
  unfoldable pub get_slot : String → Slots A → Option A
  get_slot key [] = none
  get_slot key ((k, y) ∷ slots) =
      let rest = get_slot key slots in if str_eq k key then some y else rest

  -- `slots.pop(key, None)`
  unfoldable pub pop_slot : String → Slots A → Slots A
  pop_slot key [] = []
  pop_slot key ((k, y) ∷ slots) =
      let rest = pop_slot key slots in if str_eq k key then rest else (k, y) ∷ rest

abbrev pub queue_maxsize : ℕ
queue_maxsize = 100

abbrev pub replay_ttl : ℕ
replay_ttl = 30000

-- `Queue.put_nowait`; `none` is `queue.Full`.
unfoldable pub put_nowait : List Event → Event → Option (List Event)
put_nowait q e = if ltb (length q) queue_maxsize then some (q ++ (e ∷ [])) else none

-- `with contextlib.suppress(queue.Full)`
abbrev pub or_else : List Event → Option (List Event) → List Event
or_else q none = q
or_else q (some r) = r

-- The oldest event makes room for the new one.
abbrev pub put_evicting : List Event → Event → Option (List Event) → List Event
put_evicting q e (some r) = r
put_evicting q e none = or_else (drop 1 q) (put_nowait (drop 1 q) e)

unfoldable pub offer_normal : Event → Subscription → Subscription
offer_normal e s =
    if s.alive then record s { queue = put_evicting s.queue e (put_nowait s.queue e) } else s

-- `Queue.put(event, timeout)`: with no room, it succeeds if an event is taken meanwhile.
unfoldable pub put_within : Bool → List Event → Event → Option (List Event)
put_within taken q e =
    if ltb (length q) queue_maxsize
    then some (q ++ (e ∷ []))
    else if taken
    then put_nowait (drop 1 q) e
    else none

abbrev pub is_none : Option (List Event) → Bool
is_none none = true
is_none (some q) = false

unfoldable pub offer_critical : Bool → Event → Subscription → Subscription
offer_critical taken e s =
    if s.alive then record s { queue = or_else s.queue (put_within taken s.queue e) } else s

-- Whether the waiting ends in `queue.Full`.
unfoldable pub is_slow : Bool → Event → Subscription → Bool
is_slow taken e s = s.alive && is_none (put_within taken s.queue e)

abbrev pub set_handle : ℕ → Subscription → (ℕ → Subscription) → ℕ → Subscription
set_handle i s handles j = if j == i then s else handles j

-- `for sub in snapshot`
unfoldable pub for_each :
    (ℕ → Subscription → Subscription) → List ℕ → (ℕ → Subscription) → ℕ → Subscription
for_each f [] handles = handles
for_each f (i ∷ snapshot) handles = for_each f snapshot (set_handle i (f i (handles i)) handles)

-- The handles that `_publish_critical` collects for removal.
unfoldable pub slow_ones : (ℕ → Bool) → Event → List ℕ → (ℕ → Subscription) → List ℕ
slow_ones taken e [] handles = []
slow_ones taken e (i ∷ snapshot) handles =
    let rest =
      slow_ones taken e snapshot (set_handle i (offer_critical (taken i) e (handles i)) handles) in
    if is_slow (taken i) e (handles i) then i ∷ rest else rest

-- `list.remove`, with `ValueError` suppressed.
unfoldable pub remove : ℕ → List ℕ → List ℕ
remove i [] = []
remove i (j ∷ js) = let rest = remove i js in if i == j then js else j ∷ rest

-- `_force_remove` and `_remove_subscriber`, which is also `unsubscribe` of the handle.
unfoldable pub remove_subscriber : ℕ → Bus → Bus
remove_subscriber i b = record b {
  handles = set_handle i (record (b.handles i) { alive = false }) b.handles;
  subscribers = remove i b.subscribers;
}

unfoldable pub remove_all : List ℕ → Bus → Bus
remove_all [] b = b
remove_all (i ∷ slow) b = remove_all slow (remove_subscriber i b)

unfoldable pub publish_normal : ℕ → Event → List ℕ → Bus → Bus
publish_normal now e snapshot b = record b {
  handles = for_each (λ i. offer_normal e) snapshot b.handles;
  last_normal = set_slot e.event (record { value = e; at = now }) b.last_normal;
}

unfoldable pub publish_critical : (ℕ → Bool) → Event → List ℕ → Bus → Bus
publish_critical taken e snapshot b = remove_all (slow_ones taken e snapshot b.handles) (record b {
  handles = for_each (λ i. offer_critical (taken i) e) snapshot b.handles;
  last_critical = set_slot e.class e b.last_critical;
})

unfoldable pub publish : (ℕ → Bool) → ℕ → Event → Bus → Bus
publish taken now e b =
    if str_eq e.priority "critical"
    then publish_critical taken e b.subscribers b
    else publish_normal now e b.subscribers b

abbrev pub is_stale : ℕ → Stamped → Bool
is_stale now s = leb (s.at + replay_ttl) now

-- The slots that `subscribe` keeps.
unfoldable pub fresh_slots : ℕ → Slots Stamped → Slots Stamped
fresh_slots now [] = []
fresh_slots now ((k, s) ∷ slots) =
    let rest = fresh_slots now slots in if is_stale now s then rest else (k, s) ∷ rest

-- What `subscribe` puts into the new queue `q`.
unfoldable pub replay : ℕ → Slots Stamped → List Event → List Event
replay now [] q = q
replay now ((k, s) ∷ slots) q =
    replay now slots (if is_stale now s then q else or_else q (put_nowait q s.value))

unfoldable pub subscribe : ℕ → Bus → ℕ × Bus
subscribe now b = (
  b.created,
  record b {
    handles =
        set_handle b.created (record { alive = true; queue = replay now b.last_normal [] })
          b.handles;
    created = b.created + 1;
    subscribers = b.subscribers ++ (b.created ∷ []);
    last_normal = fresh_slots now b.last_normal;
  },
)

unfoldable pub evict_normal_replay : String → Bus → Bus
evict_normal_replay key b = record b { last_normal = pop_slot key b.last_normal }

unfoldable pub last_critical : String → Bus → Option Event
last_critical class b = get_slot class b.last_critical

-- `iter`: all events of the queue.
unfoldable pub iter : ℕ → Bus → List Event × Bus
iter i b = (
  (b.handles i).queue,
  record b { handles = set_handle i (record (b.handles i) { queue = [] }) b.handles },
)

abbrev pub head : List Event → Option Event
head [] = none
head (e ∷ es) = some e

-- `wait_one`, when nothing is published before its timeout.
unfoldable pub wait_one : ℕ → Bus → Option Event × Bus
wait_one i b =
    if (b.handles i).alive
    then (
      head (b.handles i).queue,
      record b {
        handles =
            set_handle i (record (b.handles i) { queue = drop 1 (b.handles i).queue }) b.handles;
      },
    )
    else (none, b)

pub data Action : Type 0 where
  publishes : (ℕ → Bool) → ℕ → Event → Action
  subscribes : ℕ → Action
  unsubscribes iterates waits : ℕ → Action
  evicts : String → Action

unfoldable pub act : Action → Bus → Bus
act (publishes taken now e) b = publish taken now e b
act (subscribes now) b = (subscribe now b).1
act (unsubscribes i) b = remove_subscriber i b
act (iterates i) b = (iter i b).1
act (waits i) b = (wait_one i b).1
act (evicts key) b = evict_normal_replay key b

-- The operations in the order in which the threads enter them.
unfoldable pub run : List Action → Bus → Bus
run [] b = b
run (x ∷ xs) b = run xs (act x b)

abbrev pub new_bus : Bus
new_bus = record {
  handles = λ i. record { alive = false; queue = [] };
  created = 0;
  subscribers = [];
  last_critical = [];
  last_normal = [];
}
