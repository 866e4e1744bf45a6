-- ===== src/Tests/Licensing.antt =====
-- The watch over the license on concrete inputs.
use gektar_monitor.Prelude.{
  ℕ, ◌*◌, ◌≤◌, ◌≡◌, refl, true, false, some, [], ◌∷◌, leb, arith, if◌then◌else◌,
}
use gektar_monitor.License.{
  Env, World, valid, expired, loaded, check_valid, check_expired, banner, license_expired,
  watchdog_armed, shutdown_requested, run_forever, watch, wait_and_check, check_once, on_verified,
  handle_expiry, next_check_at, day,
}
use gektar_monitor.License.Laws.{run_forever-Ended, Ends}

-- Each reading of the clock is half a day behind the one before; the license ends behind the first.
abbrev ends_next_day : Env
ends_next_day = record {
  now = λ t. t * 43200000000;
  load_key = λ t. loaded "key";
  secret_raises = λ t. false;
  verify = λ key now.
      if leb now day
      then record { status = valid; expires_at = some 1 }
      else record { status = expired; expires_at = some 1 };
  stop_set = λ t. leb 10 t;
  wait_stopped = λ t. false;
  publish_raises = false;
}

abbrev started : World
started = record { expiry_handled = false; log = []; tick = 0 }

-- The second check finds the license expired, and one expiry follows.
expired_on_second :
    run_forever ends_next_day 11 started
    ≡ some (record {
      expiry_handled = true;
      log =
          shutdown_requested
          ∷ watchdog_armed
          ∷ license_expired (some 1)
          ∷ banner (some 1)
          ∷ check_expired
          ∷ check_valid
          ∷ [];
      tick = 7;
    })
unfolding run_forever watch wait_and_check check_once on_verified handle_expiry next_check_at
expired_on_second = refl

stop_stays : (t : ℕ) → 10 ≤ t → leb 10 t ≡ true
stop_stays t h = ground arith

run_forever-Ended_example : Ends ends_next_day (run_forever ends_next_day 11 started)
run_forever-Ended_example = run_forever-Ended ends_next_day 10 started stop_stays refl refl
