-- ===== src/Tests/Onboarding.antt =====
-- The onboarding and its gate on concrete inputs.
use gektar_monitor.Prelude.{
  ℕ, ◌≡◌, refl, String, true, Option, none, some, List, [], ◌∷◌, All, if◌then◌else◌, str_eq,
}
use gektar_monitor.Tests.Fixtures.{also}
use gektar_monitor.StateTable.{
  Table, get, set, OnboardingState, not_started, regions_set, smtp_configured, recipients_set,
  completed, value, of_value, get_onboarding, set_onboarding,
}
use gektar_monitor.Onboarding.{
  Env, Call, Action, reads, checks, commits, skips, tests, writes, deletes, run, act, at_rest,
  advance_read, advance_check, can_advance, next_state, guard_satisfied, smtp_test_ok_within_ttl,
  is_email_skipped, test_send, skip_email, state_url, url_for_current_step,
}
use gektar_monitor.Onboarding.Laws.{Undisturbed, Chain, run-Chain}
use gektar_monitor.Onboarding.Gate.{
  Scope, Event, arrives, has_read, Seen, reading, answer, redirects, passes, serve, call, on_read,
  respond, re_read, is_gated, is_whitelisted,
}
use gektar_monitor.Onboarding.Gate.Safe.{IsSafe, serve-IsSafe}

abbrev stamp_of : String → Option ℕ
stamp_of raw = if str_eq raw "early" then some 1000000 else none

abbrev at_time : ℕ → Env
at_time now = record {
  regions = 1 ∷ [];
  recipients = "a@example.org" ∷ [];
  now = now;
  fromisoformat = stamp_of;
}

abbrev advances : ℕ → ℕ → OnboardingState → OnboardingState → List Action → List Action
advances i now from_state to_state rest =
    reads i (record { env = at_time now; from_state = from_state; to_state = to_state })
    ∷ checks i
    ∷ commits i
    ∷ rest

-- A step is asked for twice, and one when the test of the mail is too old.
abbrev two_tabs : List Action
two_tabs = advances 0 0 not_started regions_set (
    advances 1 0 not_started regions_set (
      tests true "early"
      ∷ writes "dnd_until" "x"
      ∷ advances 0 301000001 regions_set smtp_configured
          (advances 1 301000000 regions_set smtp_configured (deletes "dnd_until" ∷ []))))

reaches_smtp : get_onboarding (run two_tabs (at_rest [])).1.table ≡ some smtp_configured
unfolding get_onboarding run act advance_read advance_check can_advance next_state guard_satisfied
    smtp_test_ok_within_ttl is_email_skipped test_send get set value of_value set_onboarding
    gektar_monitor.StateTable.delete
reaches_smtp = refl

-- The first tab has read and checked its step, and writes it behind the end of the other's.
abbrev slow_tab : List Action
slow_tab =
    skips
    ∷ reads 0 (record { env = at_time 0; from_state = regions_set; to_state = smtp_configured })
    ∷ checks 0
    ∷ advances 1 0 regions_set smtp_configured (
        advances 1 0 smtp_configured recipients_set
          (advances 1 0 recipients_set completed (commits 0 ∷ [])))

abbrev after_regions : Table
after_regions = ("onboarding_state", "regions_set") ∷ []

-- So a completed onboarding is undone.
undone : get_onboarding (run slow_tab (at_rest after_regions)).1.table ≡ some smtp_configured
unfolding get_onboarding run act advance_read advance_check can_advance next_state guard_satisfied
    smtp_test_ok_within_ttl is_email_skipped skip_email get set value of_value set_onboarding
undone = refl

nothing_stored : get_onboarding [] ≡ some not_started
unfolding get_onboarding get
nothing_stored = refl

two_tabs-Undisturbed : All Undisturbed (run two_tabs (at_rest [])).0
unfolding get_onboarding run act advance_read advance_check can_advance next_state guard_satisfied
    smtp_test_ok_within_ttl is_email_skipped test_send get set value of_value set_onboarding
    gektar_monitor.StateTable.delete
two_tabs-Undisturbed = also refl (also refl tt)

run-Chain_example :
    (r : OnboardingState) × (get_onboarding (run two_tabs (at_rest [])).1.table ≡ some r)
    × Chain not_started (run two_tabs (at_rest [])).0 r
run-Chain_example =
    run-Chain two_tabs (at_rest []) not_started
      (also tt (
        also tt (
          also tt (
            also tt (
              also tt (
                also tt (
                  also tt (
                    also refl (
                      also tt
                        (also tt (also tt (also tt (also tt (also tt (also refl tt)))))))))))))))
      (λ i. tt) two_tabs-Undisturbed nothing_stored

abbrev lots_page : Scope
lots_page = record { type = "http"; method = "GET"; path = "/lots" }

abbrev ended : Table
ended = ("onboarding_state", "completed") ∷ []

-- A request reads before the end of the onboarding and one behind it.
abbrev visits : List Event
visits =
    arrives 0 lots_page 0
    ∷ arrives 1 lots_page 400000
    ∷ has_read 1 ended ended
    ∷ has_read 0 after_regions after_regions
    ∷ arrives 2 lots_page 900000
    ∷ arrives 3 lots_page 1000000
    ∷ has_read 3 ended ended
    ∷ []

visits_seen :
    serve visits gektar_monitor.Onboarding.Gate.at_rest
    ≡ reading 400000 ended
      ∷ answer lots_page 400000 passes
      ∷ reading 0 after_regions
      ∷ answer lots_page 0 (redirects "/onboarding/smtp")
      ∷ answer lots_page 900000 (redirects "/onboarding/smtp")
      ∷ reading 1000000 ended
      ∷ answer lots_page 1000000 passes
      ∷ []
unfolding serve call on_read respond re_read is_gated is_whitelisted url_for_current_step state_url
    get_onboarding get of_value value
visits_seen = refl

serve-IsSafe_example : IsSafe [] (serve visits gektar_monitor.Onboarding.Gate.at_rest)
serve-IsSafe_example = serve-IsSafe visits
