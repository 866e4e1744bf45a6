-- ===== src/Dispatcher/Shutdown.antt =====
-- The end of the consumer loop.
use gektar_monitor.Prelude.{
  ℕ, zero, suc, ◌+◌, ◌≤◌, ◌≡◌, refl, true, false, Option, none, some, ap, ◌∙◌, arith, Bool-cases,
  inl, inr, ltb,
}
use gektar_monitor.Domain.{LotPublicDto, NotifyResult}
use gektar_monitor.Notifications.{Key}
use gektar_monitor.Notifiers.{Notifier}
use gektar_monitor.Dispatcher.{Options, Env, World, dispatch, observed}
use gektar_monitor.Dispatcher.Delivery.{
  max_total_attempts, publish_smtp_failed, attempt, try_send, call_notifier, conclude, back_off,
}
use gektar_monitor.Dispatcher.Consumer.{
  Sweep, swept, stopped, died, swept_world, consumer_round, consumer_loop, next_round,
}
use gektar_monitor.Dispatcher.Keeps.{Keeps, consumer_round-Holds}

module _ (t : ℕ) where
  -- At least `t` observations were made.
  abbrev Reached : World → Type 0
  Reached w = t ≤ w.tick

  conclude-Reached :
      (d : Options) (env : Env) (j : Key) (m : ℕ) (result : NotifyResult) (w : World)
      → Reached w
      → Reached (conclude d env j m result w).1
  unfolding conclude publish_smtp_failed back_off
  conclude-Reached d env j m result w h = ground arith

  try_send-Reached :
      (d : Options) (env : Env) (notifier : Notifier) (lot : LotPublicDto) (j : Key) (o : Option ℕ)
      (w : World)
      → Reached w
      → Reached (try_send d env notifier lot j o w).1
  unfolding try_send call_notifier
  try_send-Reached d env notifier lot j none w h = h
  try_send-Reached d env notifier lot j (some m) w h =
      elim (Bool-cases (ltb max_total_attempts m)) [
        | inl e ↦ rw e h
        | inr e ↦ rw e (conclude-Reached d env j m _ _ (unfold call_notifier in omega arith))
      ]

  attempt-Reached :
      (d : Options) (env : Env) (notifier : Notifier) (lot : LotPublicDto) (j : Key) (w : World)
      → Reached w
      → Reached (attempt d env notifier lot j w).1
  unfolding attempt
  attempt-Reached d env notifier lot j w h = try_send-Reached d env notifier lot j _ _ (omega arith)

  Reached-keeps : Keeps Reached
  unfolding dispatch publish_smtp_failed
  Reached-keeps = record {
    by_observation = λ w h. omega arith;
    by_attempt = attempt-Reached;
    by_event = λ env channel m result w h. omega arith;
    by_reserve = λ j w e h. h;
    by_failure = λ j w h. h;
    by_dispatch = λ d lot w h. h;
    by_drain = λ lot lots w e h. h;
  }

round_advances :
    (d : Options) (env : Env) (w : World) → w.tick ≤ (swept_world (consumer_round d env w)).tick
round_advances d env w =
    consumer_round-Holds (Reached w.tick) (Reached-keeps w.tick) d env w (omega arith)

stop_returns :
    (d : Options) (env : Env) (fuel : ℕ) (w : World)
    → env.stop w.tick ≡ true
    → consumer_loop d env (suc fuel) w ≡ some (observed w)
unfolding consumer_loop
stop_returns d env fuel w e = rw e

round_goes_on :
    (d : Options) (env : Env) (fuel : ℕ) (w : World)
    → env.stop w.tick ≡ false
    → consumer_loop d env (suc fuel) w
      ≡ next_round (consumer_round d env (observed w)) (λ v. consumer_loop d env fuel v)
unfolding consumer_loop
round_goes_on d env fuel w e = rw e

next_round-some :
    (s : Sweep) (f : World → Option World)
    → ((w : World) → swept_world s ≡ w → (w' : World) × (f w ≡ some w'))
    → (w' : World) × (next_round s f ≡ some w')
next_round-some (swept w) f h = h w refl
next_round-some (stopped w) f h = (w, refl)
next_round-some (died w) f h = (w, refl)

-- If the stop event reads as set from the observation `last` on, the consumer loop ends: fuel for
-- one round more than the observations that are left until then is enough.
pub consumer_loop_ends :
    (d : Options) (env : Env) (last fuel : ℕ) (w : World)
    → ((t : ℕ) → last ≤ t → env.stop t ≡ true)
    → last ≤ w.tick + fuel
    → (w' : World) × (consumer_loop d env (suc fuel) w ≡ some w')
consumer_loop_ends d env last zero w set enough =
    (observed w, stop_returns d env zero w (set w.tick (omega arith)))
consumer_loop_ends d env last (suc fuel) w set enough = elim (Bool-cases (env.stop w.tick)) [
  | inl e ↦ (observed w, stop_returns d env (suc fuel) w e)
  | inr e ↦
      let (w', ends) =
        next_round-some (consumer_round d env (observed w)) (λ v. consumer_loop d env (suc fuel) v)
          (λ v at_v.
            consumer_loop_ends d env last fuel v set (
              omega (arith, round_advances d env (observed w), ap (λ (u : World). u.tick) at_v))) in
      (w', round_goes_on d env (suc fuel) w e ∙ ends)
]
