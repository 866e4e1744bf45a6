-- ===== src/License.antt =====
-- `LicenseExpirySupervisor` of src/fis_monitor/services/license_expiry.py. A time is the count of
-- microseconds since a midnight in UTC. The providers of the key and of the secret, the verifier and
-- the stop event are functions of the number of readings of the clock made so far, which `World.tick`
-- counts. The log records of a check are kept with the actions; those of the thread are not.
pub mod Laws
pub mod Keys
use gektar_monitor.Prelude.{
  ℕ, zero, suc, ◌+◌, ◌*◌, ◌/◌, String, Bool, true, false, Option, none, some, List, [], ◌∷◌, ◌++◌,
  leb, ltb, if◌then◌else◌,
}

pub data LicenseStatus : Type 0 where
  valid expired invalid : LicenseStatus

-- `expires_at` is the day; the name of the licensee is never read.
pub record LicenseResult : Type 0 where
  pub status : LicenseStatus
  pub expires_at : Option ℕ

-- What `load_key` answers: a key, an OSError, or another exception.
pub data Loaded : Type 0 where
  loaded : String → Loaded
  os_error raising : Loaded

pub record Env : Type 0 where
  pub now : ℕ → ℕ
  pub load_key : ℕ → Loaded
  pub secret_raises : ℕ → Bool
  pub verify : String → ℕ → LicenseResult
  pub stop_set : ℕ → Bool
  pub wait_stopped : ℕ → Bool
  pub publish_raises : Bool

pub data Action : Type 0 where
  check_valid check_expired check_error crashed : Action
  banner : Option ℕ → Action
  license_expired : Option ℕ → Action
  publish_failed : Action
  watchdog_armed : Action
  shutdown_requested : Action

-- The last action comes first.
pub record World : Type 0 where
  pub expiry_handled : Bool
  pub log : List Action
  pub tick : ℕ

abbrev pub day : ℕ
day = 86400000000

abbrev pub one_minute : ℕ
one_minute = 60000000

-- The next 00:01 in UTC.
unfoldable pub next_check_at : ℕ → ℕ
next_check_at now =
    let candidate = now / day * day + one_minute in
    if leb candidate now then candidate + day else candidate

abbrev pub logged : Action → World → World
logged a w = record w { log = a ∷ w.log }

-- The actions of an expiry, the last one first.
abbrev pub expiry_actions : Env → Option ℕ → List Action
expiry_actions env day =
    shutdown_requested
    ∷ watchdog_armed
    ∷ (if env.publish_raises then publish_failed else license_expired day)
    ∷ banner day
    ∷ []

unfoldable pub handle_expiry : Env → Option ℕ → World → World
handle_expiry env day w =
    if w.expiry_handled
    then w
    else record { expiry_handled = true; log = expiry_actions env day ++ w.log; tick = w.tick + 2 }

-- A check raises, or answers whether the thread ends.
pub data Checked : Type 0 where
  raised : World → Checked
  answered : Bool → World → Checked

unfoldable pub on_verified : Env → LicenseResult → World → Checked
on_verified env result w = elim result.status [
  | valid ↦ answered false (logged check_valid w)
  | expired ↦ answered true (handle_expiry env result.expires_at (logged check_expired w))
  | invalid ↦ answered true (handle_expiry env result.expires_at (logged check_error w))
]

unfoldable pub check_once : Env → World → Checked
check_once env w =
    let w' = record w { tick = w.tick + 1 } in
    elim (env.load_key w.tick) [
      | os_error ↦ answered true (handle_expiry env none (logged check_error w'))
      | raising ↦ raised w'
      | loaded key ↦
          if env.secret_raises w.tick
          then raised w'
          else on_verified env (env.verify key (env.now w.tick)) w'
    ]

-- `except Exception` of `run_forever`.
abbrev pub crash : Env → World → World
crash env w = handle_expiry env none (logged crashed w)

-- A pass of the loop: the thread ends, or it loops back.
pub data Pass : Type 0 where
  ended : World → Pass
  again : World → Pass

abbrev pub on_checked : Env → Checked → Pass
on_checked env (raised w) = ended (crash env w)
on_checked env (answered true w) = ended w
on_checked env (answered false w) = again w

abbrev pub five_seconds : ℕ
five_seconds = 5000000

-- The body of the loop behind the test of the stop event.
unfoldable pub wait_and_check : Env → World → Pass
wait_and_check env w =
    let target = next_check_at (env.now w.tick) in
    if env.wait_stopped (w.tick + 1)
    then ended (record w { tick = w.tick + 2 })
    else if ltb (env.now (w.tick + 2) + five_seconds) target
    then again (record w { tick = w.tick + 3 })
    else on_checked env (check_once env (record w { tick = w.tick + 3 }))

unfoldable pub watch : Env → ℕ → World → Option World
watch env zero w = none
watch env (suc fuel) w =
    if env.stop_set w.tick
    then some w
    else elim (wait_and_check env w) [ ended w' ↦ some w' | again w' ↦ watch env fuel w' ]

-- `none` is a loop that ran out of fuel.
unfoldable pub run_forever : Env → ℕ → World → Option World
run_forever env fuel w = elim (on_checked env (check_once env w)) [
  | ended w' ↦ some w'
  | again w' ↦ watch env fuel w'
]
