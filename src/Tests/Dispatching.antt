-- ===== src/Tests/Dispatching.antt =====
-- The notifications, the dispatcher, its filters and the window of silence at concrete inputs.
use gektar_monitor.Prelude.{
  ℕ, suc, ◌≤◌, ◌≡◌, ◌↔◌, refl, leb, ltb, true, false, none, some, List, [], ◌∷◌, arith,
}
use gektar_monitor.Notifications.{NotificationRecord, row_of, status_of, sent, same_key, fresh_row}
use gektar_monitor.Notifiers.{
  channel, is_suppressed, should_suppress, matches, rf_subject_filtered, subscribed_at_filtered,
  send, before_subscription,
}
use gektar_monitor.Notifiers.Laws.{Passes, is_suppressed-Passes}
use gektar_monitor.Domain.Cutoff.{passes_subscription_cutoff}
use gektar_monitor.Dispatcher.Retried.{FailsFirst, send_one_delivers}
use gektar_monitor.Dispatcher.{Env, World, returned}
use gektar_monitor.Dispatcher.Delivery.{send_one, key_of}
use gektar_monitor.Dispatcher.Consumer.{Action, produce, round, run, consumer_loop}
use gektar_monitor.Dispatcher.Ledger.{calls_for, successes_for}
use gektar_monitor.Dispatcher.Bounds.{fresh, run_bounds}
use gektar_monitor.Dispatcher.Final.{run_final}
use gektar_monitor.Dispatcher.Shutdown.{consumer_loop_ends}
use gektar_monitor.Tests.Fixtures.{
  sample_dto, email, options, scope_of, surroundings, email_key, sent_row,
}

abbrev actions : List Action
actions = produce sample_dto ∷ round ∷ produce sample_dto ∷ round ∷ round ∷ []

abbrev in_scope : Env
in_scope = surroundings (25 ∷ [])

abbrev out_of_scope : Env
out_of_scope = surroundings (77 ∷ [])

run_bounds_example :
    (calls_for email_key (run options in_scope actions fresh).calls ≤ 10)
    × (successes_for email_key (run options in_scope actions fresh).calls ≤ 1)
    × ((status_of email_key (run options in_scope actions fresh).rows ≡ some sent)
        ↔ (successes_for email_key (run options in_scope actions fresh).calls ≡ 1))
run_bounds_example = run_bounds options in_scope actions email_key

-- A dispatcher that has delivered the email before.
abbrev after_delivery : World
after_delivery = record fresh { rows = sent_row ∷ [] }

sent_row_found : row_of email_key (after_delivery.rows) ≡ some sent_row
unfolding row_of same_key
sent_row_found = refl

run_final_example :
    (row_of email_key (run options in_scope actions after_delivery).rows ≡ some sent_row)
    × (calls_for email_key (run options in_scope actions after_delivery).calls
        ≡ calls_for email_key after_delivery.calls)
run_final_example =
    run_final options in_scope actions email_key sent_row after_delivery sent_row_found refl

stop_stays : (t : ℕ) → 40 ≤ t → leb 40 t ≡ true
stop_stays t h = ground arith

consumer_loop_ends_example :
    (w' : World) × (consumer_loop options in_scope (suc 40) fresh ≡ some w')
consumer_loop_ends_example =
    consumer_loop_ends options in_scope 40 40 fresh stop_stays (omega arith)

abbrev pending_before : World
pending_before = record fresh { rows = fresh_row email_key ∷ [] }

out_of_scope_suppressed : is_suppressed (scope_of (77 ∷ [])) email sample_dto ≡ true
unfolding is_suppressed should_suppress matches
out_of_scope_suppressed = refl

is_suppressed-Passes_example :
    (is_suppressed
        (scope_of (25 ∷ []))
        (rf_subject_filtered (subscribed_at_filtered (channel "email")))
        sample_dto
      ≡ false)
    ↔ Passes (scope_of (25 ∷ [])) sample_dto sample_dto.region_id
is_suppressed-Passes_example = is_suppressed-Passes (scope_of (25 ∷ [])) "email" sample_dto

-- A channel that always answers.
-- The first answer is a failure that may be retried.
abbrev answering : Env
answering = record in_scope {
  answer = λ tick. record { is_ok = ltb 3 tick; detail = ""; retryable = true };
  stop = λ tick. false;
}

in_scope_passes : is_suppressed (scope_of (25 ∷ [])) email sample_dto ≡ false
unfolding is_suppressed should_suppress matches before_subscription passes_subscription_cutoff
in_scope_passes = refl

nothing_reserved_for_key : row_of (key_of sample_dto email "a@example.org") fresh.rows ≡ none
unfolding row_of
nothing_reserved_for_key = refl

fails_once : FailsFirst answering email sample_dto 1 1
unfolding send is_suppressed should_suppress matches before_subscription passes_subscription_cutoff
fails_once = (refl, refl, refl, refl)

send_one_delivers_example :
    (w' : World) × (send_one options answering sample_dto email "a@example.org" fresh ≡ returned w')
    × ((r : NotificationRecord) × (row_of (key_of sample_dto email "a@example.org") w'.rows
          ≡ some r)
        × (r.status ≡ sent)
        × (r.attempt_no ≡ 2))
    × (w'.calls
        ≡ (record { key = key_of sample_dto email "a@example.org"; is_ok = true })
          ∷ (record { key = key_of sample_dto email "a@example.org"; is_ok = false })
          ∷ [])
send_one_delivers_example =
    send_one_delivers options answering sample_dto email "a@example.org" 1 fresh in_scope_passes
      nothing_reserved_for_key (omega arith) (omega arith) (omega arith) fails_once
