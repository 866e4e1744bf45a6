-- ===== src/Dispatcher/Silence.antt =====
-- What suppression and the window of silence do to a delivery.
use gektar_monitor.Prelude.{
  ℕ, zero, suc, ◌+◌, ◌≡◌, refl, String, true, Option, none, some, arith, if◌then◌else◌, ap,
}
use gektar_monitor.Domain.{LotPublicDto, NotifyResult, lot_to_public_dto}
use gektar_monitor.Notifications.{
  Key, Status, pending, sent, permanent_fail, NotificationRecord, reserve, row_of, status_of,
  abandoned, same_key, mark_permanent_fail, mark_attempt,
}
use gektar_monitor.Notifications.Laws.{
  same_key_iff, when_pending, row_of-mark_permanent_fail, status_of-row_of,
}
use gektar_monitor.Notifiers.{Notifier, is_suppressed}
use gektar_monitor.Dnd.{StoredStamp}
use gektar_monitor.Dispatcher.{Options, Env, World, returned, world_of, observed}
use gektar_monitor.Dispatcher.Delivery.{
  key_of, suppress, send_one, attempt, try_send, call_notifier, conclude, back_off, backoff,
  publish_smtp_failed, exhausted, follow, retry_loop, deliver,
}
use gektar_monitor.Dispatcher.Consumer.{registered, retry_one}

suppress-row :
    (k j : Key) (w : World)
    → ((suppress k (status_of k w.rows) w).calls ≡ w.calls)
      × (row_of j (suppress k (status_of k w.rows) w).rows
          ≡ (if same_key k j then when_pending abandoned (row_of j w.rows) else row_of j w.rows))
suppress-row k j w =
    ground
      (arith, same_key_iff k j, row_of-mark_permanent_fail k j w.rows, status_of-row_of k w.rows)

-- A delivery that the filters suppress calls no notifier, makes no row, turns a pending row of its
-- key into `permanent_fail`, and changes no other row.
send_one_suppressed :
    (d : Options) (env : Env) (lot : LotPublicDto) (notifier : Notifier) (recipient : String)
    (w : World) (j : Key)
    → is_suppressed (env.scope w.tick) notifier lot ≡ true
    → ((world_of (send_one d env lot notifier recipient w)).calls ≡ w.calls)
      × (row_of j (world_of (send_one d env lot notifier recipient w)).rows ≡ (
          if same_key (key_of lot notifier recipient) j
          then when_pending abandoned (row_of j w.rows)
          else row_of j w.rows))
unfolding send_one
send_one_suppressed d env lot notifier recipient w j e =
    rw e (suppress-row (key_of lot notifier recipient) j (observed w))

module _ (dnd : ℕ → Option StoredStamp) where
  -- The same surroundings, with another window of silence.
  abbrev silenced : Env → Env
  silenced env = record env { dnd_until = dnd }

  back_off-silenced :
      (env : Env) (o : Option ℕ) (result : NotifyResult) (w : World)
      → back_off (silenced env) o result w ≡ back_off env o result w
  unfolding back_off
  back_off-silenced env none result w = refl
  back_off-silenced env (some b) result w = refl

  conclude-silenced :
      (d : Options) (env : Env) (k : Key) (n : ℕ) (result : NotifyResult) (w : World)
      → conclude d (silenced env) k n result w ≡ conclude d env k n result w
  unfolding conclude publish_smtp_failed
  conclude-silenced d env k n result w =
      rw (back_off-silenced env (backoff n d.retry_backoff) result w)

  try_send-silenced :
      (d : Options) (env : Env) (notifier : Notifier) (lot : LotPublicDto) (k : Key) (o : Option ℕ)
      (w : World)
      → try_send d (silenced env) notifier lot k o w ≡ try_send d env notifier lot k o w
  unfolding try_send call_notifier
  try_send-silenced d env notifier lot k none w = refl
  try_send-silenced d env notifier lot k (some n) w = rw conclude-silenced

  attempt-silenced :
      (d : Options) (env : Env) (notifier : Notifier) (lot : LotPublicDto) (k : Key) (w : World)
      → attempt d (silenced env) notifier lot k w ≡ attempt d env notifier lot k w
  unfolding attempt
  attempt-silenced d env notifier lot k w =
      try_send-silenced d env notifier lot k (mark_attempt k (env.now w.tick) w.rows).0
        (record w { rows = (mark_attempt k (env.now w.tick) w.rows).1; tick = w.tick + 1 })

  exhausted-silenced :
      (d : Options) (env : Env) (k : Key) (o : Option NotifyResult) (w : World)
      → exhausted d (silenced env) k o w ≡ exhausted d env k o w
  unfolding publish_smtp_failed
  exhausted-silenced d env k none w = refl
  exhausted-silenced d env k (some result) w = refl

  retry_loop-silenced :
      (d : Options) (env : Env) (notifier : Notifier) (lot : LotPublicDto) (k : Key) (n : ℕ)
      (last : Option NotifyResult) (w : World)
      → retry_loop d (silenced env) notifier lot k n last w
        ≡ retry_loop d env notifier lot k n last w
  unfolding retry_loop
  retry_loop-silenced d env notifier lot k zero last w =
      ap returned (exhausted-silenced d env k last w)
  retry_loop-silenced d env notifier lot k (suc n) last w = λ i.
      follow (attempt-silenced d env notifier lot k w i)
        (λ result w'. retry_loop-silenced d env notifier lot k n (some result) w' i)

  deliver-silenced :
      (d : Options) (env : Env) (notifier : Notifier) (lot : LotPublicDto) (k : Key)
      (o : Option Status) (w : World)
      → deliver d (silenced env) notifier lot k o w ≡ deliver d env notifier lot k o w
  unfolding deliver
  deliver-silenced d env notifier lot k none w =
      retry_loop-silenced d env notifier lot k d.retry_attempts none
        (record w { rows = (reserve k w.rows).1 })
  deliver-silenced d env notifier lot k (some pending) w =
      retry_loop-silenced d env notifier lot k d.retry_attempts none w
  deliver-silenced d env notifier lot k (some sent) w = refl
  deliver-silenced d env notifier lot k (some permanent_fail) w = refl

  send_one-silenced :
      (d : Options) (env : Env) (lot : LotPublicDto) (notifier : Notifier) (recipient : String)
      (w : World)
      → send_one d (silenced env) lot notifier recipient w ≡ send_one d env lot notifier recipient w
  unfolding send_one
  send_one-silenced d env lot notifier recipient w = rw deliver-silenced

-- The recovery of a pending notification takes no notice of the window of silence: whatever the
-- stored window, it does the same.
retry_one_silenced :
    (dnd : ℕ → Option StoredStamp) (d : Options) (env : Env) (p : NotificationRecord) (w : World)
    → retry_one d (record env { dnd_until = dnd }) p w ≡ retry_one d env p w
unfolding retry_one
retry_one_silenced dnd d env p w = λ i. elim (registered p.key.channel d.registry) [
  | none ↦ returned w
  | some notifier ↦ elim (env.lot_at w.tick p.key.lot_id) [
    | none ↦ returned (record (observed w) { rows = mark_permanent_fail p.key w.rows })
    | some lot ↦
        send_one-silenced dnd d env (lot_to_public_dto lot) notifier p.key.recipient (observed w) i
  ]
]
