-- ===== src/Dispatcher/Consumer.antt =====
-- The consumer side of src/fis_monitor/services/notifier_dispatcher.py: `consumer_loop`,
-- `_dispatch_all_channels`, `_recipients_of` and `_retry_one`.
use gektar_monitor.Prelude.{
  ℕ, zero, suc, String, Option, none, some, List, [], ◌∷◌, if◌then◌else◌, str_eq,
}
use gektar_monitor.Domain.{LotPublicDto, lot_to_public_dto}
use gektar_monitor.Notifications.{NotificationRecord, mark_permanent_fail, list_pending_older_than}
use gektar_monitor.Notifiers.{Notifier, Scope, channel_id}
use gektar_monitor.Dnd.{is_active}
use gektar_monitor.Dispatcher.{
  Options, Env, World, Outcome, returned, raised, and_then, observed, dispatch,
}
use gektar_monitor.Dispatcher.Delivery.{send_one}

-- _recipients_of
unfoldable pub recipients_of : Scope → Notifier → List String
recipients_of s notifier =
    if str_eq (channel_id notifier) "email"
    then s.settings.recipients
    else if str_eq (channel_id notifier) "browser"
    then "local" ∷ []
    else if str_eq (channel_id notifier) "heartbeat"
    then "local" ∷ []
    else []

unfoldable pub send_all : Options → Env → LotPublicDto → Notifier → List String → World → Outcome
send_all d env lot notifier [] w = returned w
send_all d env lot notifier (r ∷ rs) w =
    and_then (send_one d env lot notifier r w) (λ w'. send_all d env lot notifier rs w')

unfoldable pub send_channels : Options → Env → LotPublicDto → List Notifier → World → Outcome
send_channels d env lot [] w = returned w
send_channels d env lot (n ∷ ns) w =
    and_then (send_all d env lot n (recipients_of (env.scope w.tick) n) (observed w))
      (λ w'. send_channels d env lot ns w')

-- _dispatch_all_channels
unfoldable pub dispatch_all_channels : Options → Env → LotPublicDto → World → Outcome
dispatch_all_channels d env lot w =
    let rest = send_channels d env lot d.registry (observed w) in
    if is_active (env.dnd_until w.tick) (env.now w.tick) then returned (observed w) else rest

-- `registry.has` and `registry.get`
unfoldable pub registered : String → List Notifier → Option Notifier
registered name [] = none
registered name (n ∷ ns) = if str_eq (channel_id n) name then some n else registered name ns

-- _retry_one
unfoldable pub retry_one : Options → Env → NotificationRecord → World → Outcome
retry_one d env p w = elim (registered p.key.channel d.registry) [
  | none ↦ returned w
  | some notifier ↦ elim (env.lot_at w.tick p.key.lot_id) [
    | none ↦ returned (record (observed w) { rows = mark_permanent_fail p.key w.rows })
    | some lot ↦ send_one d env (lot_to_public_dto lot) notifier p.key.recipient (observed w)
  ]
]

-- The recovery sweep: whether the stop event ended it, and the state.
pub data Sweep : Type 0 where
  swept : World → Sweep
  stopped : World → Sweep
  died : World → Sweep

abbrev pub swept_world : Sweep → World
swept_world (swept w) = w
swept_world (stopped w) = w
swept_world (died w) = w

abbrev pub continue_sweep : Outcome → (World → Sweep) → Sweep
continue_sweep (returned w) f = f w
continue_sweep (raised w) f = died w

unfoldable pub recover : Options → Env → List NotificationRecord → World → Sweep
recover d env [] w = swept w
recover d env (p ∷ ps) w =
    let rest = continue_sweep (retry_one d env p (observed w)) (λ w'. recover d env ps w') in
    if env.stop w.tick then stopped (observed w) else rest

-- `queue.get(timeout=1.0)` and the delivery of what it returned.
unfoldable pub drain_one : Options → Env → List LotPublicDto → World → Outcome
drain_one d env [] w = returned w
drain_one d env (lot ∷ lots) w = dispatch_all_channels d env lot (record w { queue = lots })

unfoldable pub sweep : Options → Env → World → Sweep
sweep d env w =
    recover d env (list_pending_older_than (env.now w.tick) d.recovery_age w.rows) (observed w)

-- The body of the `while` of `consumer_loop`.
unfoldable pub consumer_round : Options → Env → World → Sweep
unfolding sweep
consumer_round d env w = continue_sweep (drain_one d env w.queue w) (λ w'. sweep d env w')

abbrev pub next_round : Sweep → (World → Option World) → Option World
next_round (swept w) f = f w
next_round (stopped w) f = some w
next_round (died w) f = some w

-- consumer_loop, on fuel; `none` means that the fuel ran out.
unfoldable pub consumer_loop : Options → Env → ℕ → World → Option World
consumer_loop d env zero w = none
consumer_loop d env (suc fuel) w =
    let rest = next_round (consumer_round d env (observed w)) (λ w'. consumer_loop d env fuel w') in
    if env.stop w.tick then some (observed w) else rest

-- What the two threads do, in some order: the producer dispatches a lot, the consumer makes a
-- round.
pub data Action : Type 0 where
  produce : LotPublicDto → Action
  round : Action

unfoldable pub run : Options → Env → List Action → World → World
run d env [] w = w
run d env (produce lot ∷ rest) w = run d env rest (dispatch d lot w)
run d env (round ∷ rest) w = run d env rest (swept_world (consumer_round d env w))
