-- ===== src/Dispatcher/Keeps.antt =====
-- A property of the state, from the elementary changes of the dispatcher to its methods and to every
-- interleaving of its two threads.
use gektar_monitor.Prelude.{
  ℕ, zero, suc, ◌≡◌, refl, String, Option, none, some, List, [], ◌∷◌, arith, Bool-cases, inl, inr,
}
use gektar_monitor.Domain.{Lot, LotPublicDto, NotifyResult, lot_to_public_dto}
use gektar_monitor.Notifications.{
  Key, Status, pending, sent, permanent_fail, NotificationRecord, row_of, reserve, status_of,
  mark_permanent_fail, list_pending_older_than,
}
use gektar_monitor.Notifiers.{Notifier, is_suppressed}
use gektar_monitor.Dnd.{is_active}
use gektar_monitor.Dispatcher.{
  Options, Env, World, Outcome, returned, raised, world_of, and_then, observed, dispatch,
}
use gektar_monitor.Dispatcher.Delivery.{
  Verdict, finished, again, index_error, attempt, exhausted, publish_smtp_failed, follow,
  retry_loop, deliver, suppress, fail_row, key_of, send_one,
}
use gektar_monitor.Dispatcher.Consumer.{
  send_all, send_channels, dispatch_all_channels, registered, retry_one, Sweep, swept_world,
  continue_sweep, recover, drain_one, sweep, consumer_round, Action, produce, round, run,
  recipients_of,
}

-- The ways in which the dispatcher changes its state.
pub record Keeps (P : World → Type 0) : Type 0 where
  pub by_observation : (w : World) → P w → P (observed w)
  pub by_attempt :
      (d : Options) (env : Env) (notifier : Notifier) (lot : LotPublicDto) (k : Key) (w : World)
      → P w
      → P (attempt d env notifier lot k w).1
  pub by_event :
      (env : Env) (channel : String) (n : ℕ) (result : NotifyResult) (w : World)
      → P w
      → P (publish_smtp_failed env channel n result w)
  pub by_reserve :
      (k : Key) (w : World)
      → row_of k w.rows ≡ none
      → P w
      → P (record w { rows = (reserve k w.rows).1 })
  pub by_failure : (k : Key) (w : World) → P w → P (fail_row k w)
  pub by_dispatch : (d : Options) (lot : LotPublicDto) (w : World) → P w → P (dispatch d lot w)
  pub by_drain :
      (lot : LotPublicDto) (lots : List LotPublicDto) (w : World)
      → w.queue ≡ lot ∷ lots
      → P w
      → P (record w { queue = lots })

module _ (P : World → Type 0) (keeps : Keeps P) where
  exhausted-Holds :
      (d : Options) (env : Env) (k : Key) (o : Option NotifyResult) (w : World)
      → P w
      → P (exhausted d env k o w)
  exhausted-Holds d env k none w h = h
  exhausted-Holds d env k (some result) w h =
      keeps.by_event env k.channel d.retry_attempts result w h

  and_then-Holds :
      (o : Outcome) (f : World → Outcome)
      → P (world_of o)
      → ((w : World) → P w → P (world_of (f w)))
      → P (world_of (and_then o f))
  and_then-Holds (returned w) f h keep = keep w h
  and_then-Holds (raised w) f h keep = h

  follow-Holds :
      (o : Verdict × World) (f : NotifyResult → World → Outcome)
      → P o.1
      → ((result : NotifyResult) (w : World) → P w → P (world_of (f result w)))
      → P (world_of (follow o f))
  follow-Holds (finished, w) f h keep = h
  follow-Holds (again result, w) f h keep = keep result w h
  follow-Holds (index_error, w) f h keep = h

  retry_loop-Holds :
      (d : Options) (env : Env) (notifier : Notifier) (lot : LotPublicDto) (k : Key) (n : ℕ)
      (last : Option NotifyResult) (w : World)
      → P w
      → P (world_of (retry_loop d env notifier lot k n last w))
  unfolding retry_loop
  retry_loop-Holds d env notifier lot k zero last w h = exhausted-Holds d env k last w h
  retry_loop-Holds d env notifier lot k (suc n) last w h =
      follow-Holds (attempt d env notifier lot k w)
        (λ result w'. retry_loop d env notifier lot k n (some result) w')
        (keeps.by_attempt d env notifier lot k w h)
        (λ result w'. retry_loop-Holds d env notifier lot k n (some result) w')

  deliver-Holds :
      (d : Options) (env : Env) (notifier : Notifier) (lot : LotPublicDto) (k : Key)
      (o : Option Status) (w : World)
      → status_of k w.rows ≡ o
      → P w
      → P (world_of (deliver d env notifier lot k o w))
  unfolding deliver
  deliver-Holds d env notifier lot k none w e h =
      retry_loop-Holds d env notifier lot k d.retry_attempts none
        (record w { rows = (reserve k w.rows).1 })
        (keeps.by_reserve k w (unfold status_of in ground arith) h)
  deliver-Holds d env notifier lot k (some pending) w e h =
      retry_loop-Holds d env notifier lot k d.retry_attempts none w h
  deliver-Holds d env notifier lot k (some sent) w e h = h
  deliver-Holds d env notifier lot k (some permanent_fail) w e h = h

  suppress-Holds : (k : Key) (o : Option Status) (w : World) → P w → P (suppress k o w)
  suppress-Holds k none w h = h
  suppress-Holds k (some pending) w h = keeps.by_failure k w h
  suppress-Holds k (some sent) w h = h
  suppress-Holds k (some permanent_fail) w h = h

  pub send_one-Holds :
      (d : Options) (env : Env) (lot : LotPublicDto) (notifier : Notifier) (recipient : String)
      (w : World)
      → P w
      → P (world_of (send_one d env lot notifier recipient w))
  unfolding send_one
  send_one-Holds d env lot notifier recipient w h =
      elim (Bool-cases (is_suppressed (env.scope w.tick) notifier lot)) [
        | inl e ↦ rw e (suppress-Holds k (status_of k w.rows) (observed w) hw)
        | inr e ↦
            rw e (deliver-Holds d env notifier lot k (status_of k w.rows) (observed w) refl hw)
      ]
    where
      hw : P (observed w)
      hw = keeps.by_observation w h

      k : Key
      k = key_of lot notifier recipient

  send_all-Holds :
      (d : Options) (env : Env) (lot : LotPublicDto) (notifier : Notifier) (rs : List String)
      (w : World)
      → P w
      → P (world_of (send_all d env lot notifier rs w))
  unfolding send_all
  send_all-Holds d env lot notifier [] w h = h
  send_all-Holds d env lot notifier (r ∷ rs) w h =
      and_then-Holds (send_one d env lot notifier r w) (λ w'. send_all d env lot notifier rs w')
        (send_one-Holds d env lot notifier r w h) (λ w'. send_all-Holds d env lot notifier rs w')

  send_channels-Holds :
      (d : Options) (env : Env) (lot : LotPublicDto) (ns : List Notifier) (w : World)
      → P w
      → P (world_of (send_channels d env lot ns w))
  unfolding send_channels
  send_channels-Holds d env lot [] w h = h
  send_channels-Holds d env lot (n ∷ ns) w h =
      let rs = recipients_of (env.scope w.tick) n in
      and_then-Holds (send_all d env lot n rs (observed w)) (λ w'. send_channels d env lot ns w')
        (send_all-Holds d env lot n rs (observed w) (keeps.by_observation w h))
        (λ w'. send_channels-Holds d env lot ns w')

  pub dispatch_all_channels-Holds :
      (d : Options) (env : Env) (lot : LotPublicDto) (w : World)
      → P w
      → P (world_of (dispatch_all_channels d env lot w))
  unfolding dispatch_all_channels
  dispatch_all_channels-Holds d env lot w h =
      elim (Bool-cases (is_active (env.dnd_until w.tick) (env.now w.tick))) [
        | inl e ↦ rw e (keeps.by_observation w h)
        | inr e ↦
            rw e (send_channels-Holds d env lot d.registry (observed w) (keeps.by_observation w h))
      ]

  pub retry_one-Holds :
      (d : Options) (env : Env) (p : NotificationRecord) (w : World)
      → P w
      → P (world_of (retry_one d env p w))
  unfolding retry_one
  retry_one-Holds d env p w h = by_channel (registered p.key.channel d.registry)
    where
      by_lot :
          (n : Notifier) (o : Option Lot)
          → P (
              world_of (elim o [
                | none ↦ returned (record (observed w) { rows = mark_permanent_fail p.key w.rows })
                | some lot ↦ send_one d env (lot_to_public_dto lot) n p.key.recipient (observed w)
              ]))
      by_lot n none = keeps.by_failure p.key (observed w) (keeps.by_observation w h)
      by_lot n (some lot) =
          send_one-Holds d env (lot_to_public_dto lot) n p.key.recipient (observed w)
            (keeps.by_observation w h)

      by_channel :
          (o : Option Notifier)
          → P (
              world_of (elim o [
                | none ↦ returned w
                | some notifier ↦ elim (env.lot_at w.tick p.key.lot_id) [
                  | none ↦
                      returned (record (observed w) { rows = mark_permanent_fail p.key w.rows })
                  | some lot ↦
                      send_one d env (lot_to_public_dto lot) notifier p.key.recipient (observed w)
                ]
              ]))
      by_channel none = h
      by_channel (some n) = by_lot n (env.lot_at w.tick p.key.lot_id)

  continue-Holds :
      (o : Outcome) (f : World → Sweep)
      → P (world_of o)
      → ((w : World) → P w → P (swept_world (f w)))
      → P (swept_world (continue_sweep o f))
  continue-Holds (returned w) f h keep = keep w h
  continue-Holds (raised w) f h keep = h

  recover-Holds :
      (d : Options) (env : Env) (ps : List NotificationRecord) (w : World)
      → P w
      → P (swept_world (recover d env ps w))
  unfolding recover
  recover-Holds d env [] w h = h
  recover-Holds d env (p ∷ ps) w h = elim (Bool-cases (env.stop w.tick)) [
    | inl e ↦ rw e (keeps.by_observation w h)
    | inr e ↦ rw e (
        continue-Holds (retry_one d env p (observed w)) (λ w'. recover d env ps w')
          (retry_one-Holds d env p (observed w) (keeps.by_observation w h))
          (λ w'. recover-Holds d env ps w'))
  ]

  drain_one-Holds :
      (d : Options) (env : Env) (lots : List LotPublicDto) (w : World)
      → w.queue ≡ lots
      → P w
      → P (world_of (drain_one d env lots w))
  unfolding drain_one
  drain_one-Holds d env [] w e h = h
  drain_one-Holds d env (lot ∷ lots) w e h =
      dispatch_all_channels-Holds d env lot (record w { queue = lots })
        (keeps.by_drain lot lots w e h)

  pub consumer_round-Holds :
      (d : Options) (env : Env) (w : World) → P w → P (swept_world (consumer_round d env w))
  unfolding consumer_round
  consumer_round-Holds d env w h =
      continue-Holds (drain_one d env w.queue w) (λ w'. sweep d env w')
        (drain_one-Holds d env w.queue w refl h)
        (λ w' h'. recover-Holds d env (stale d env w') (observed w') (keeps.by_observation w' h'))
    where
      stale : Options → Env → World → List NotificationRecord
      stale d env w' = list_pending_older_than (env.now w'.tick) d.recovery_age w'.rows

  pub run-Holds :
      (d : Options) (env : Env) (actions : List Action) (w : World) → P w → P (run d env actions w)
  unfolding run
  run-Holds d env [] w h = h
  run-Holds d env (produce lot ∷ rest) w h =
      run-Holds d env rest (dispatch d lot w) (keeps.by_dispatch d lot w h)
  run-Holds d env (round ∷ rest) w h =
      run-Holds d env rest (swept_world (consumer_round d env w)) (consumer_round-Holds d env w h)
