-- ===== src/UserState.antt =====
-- `SqliteUserStateRepository` of src/fis_monitor/infra/sqlite/repositories/user_state.py, the table
-- `lot_user_state`, and `LotUserStateService` of src/fis_monitor/services/lot_user_state.py. A text
-- is the list of its code points where its length counts. `now` is what the clock answers.
pub mod Laws
use gektar_monitor.Prelude.{
  ℕ, Bool, true, false, not, Option, none, some, List, [], ◌∷◌, ◌++◌, ◌==◌, ltb, length, take, drop,
  select, contains, if◌then◌else◌, suc, zero,
}
use gektar_monitor.Domain.{Instant, Lot}
use gektar_monitor.Lots.{Database}
use gektar_monitor.Lots

pub record LotUserState : Type 0 where
  pub lot_id : ℕ
  pub submitted : Bool
  pub submitted_at : Option Instant
  pub note : Option (List ℕ)
  pub seen_at : Option Instant
  pub updated_at : Instant

-- A row with the defaults of the columns.
abbrev pub untouched : ℕ → Instant → LotUserState
untouched n now = record {
  lot_id = n;
  submitted = false;
  submitted_at = none;
  note = none;
  seen_at = none;
  updated_at = now;
}

-- get
unfoldable pub get : ℕ → List LotUserState → Option LotUserState
get n [] = none
get n (s ∷ t) = if s.lot_id == n then some s else get n t

-- INSERT … ON CONFLICT(lot_id) DO UPDATE SET f
unfoldable pub put :
    ℕ → Instant → (LotUserState → LotUserState) → List LotUserState → List LotUserState
put n now f [] = f (untouched n now) ∷ []
put n now f (s ∷ t) = if s.lot_id == n then f s ∷ t else s ∷ put n now f t

abbrev pub submitting : Bool → Option Instant → Instant → LotUserState → LotUserState
submitting value at_time now s = record s {
  submitted = value;
  submitted_at = at_time;
  updated_at = now;
}

abbrev pub noting : Option (List ℕ) → Instant → LotUserState → LotUserState
noting note now s = record s { note = note; updated_at = now }

unfoldable pub set_submitted :
    ℕ → Bool → Option Instant → Instant → List LotUserState → List LotUserState
set_submitted n value at_time now = put n now (submitting value at_time now)

unfoldable pub set_note : ℕ → Option (List ℕ) → Instant → List LotUserState → List LotUserState
set_note n note now = put n now (noting note now)

abbrev pub chunk_size : ℕ
chunk_size = 500

-- SELECT … WHERE lot_id IN (…)
abbrev pub rows_in : List ℕ → List LotUserState → List LotUserState
rows_in ids = select (λ (s : LotUserState). contains s.lot_id ids)

-- The loop over the chunks, with the dictionary so far; its last entry for a lot comes first.
unfoldable pub get_chunks : ℕ → List ℕ → List LotUserState → List LotUserState → List LotUserState
get_chunks zero ids table result = result
get_chunks (suc fuel) [] table result = result
get_chunks (suc fuel) (n ∷ ns) table result =
    get_chunks fuel (drop chunk_size (n ∷ ns)) table
      (rows_in (take chunk_size (n ∷ ns)) table ++ result)

-- get_many: a chunk for each id is more than enough.
unfoldable pub get_many : List ℕ → List LotUserState → List LotUserState
get_many ids table = get_chunks (length ids) ids table []

abbrev pub note_max_length : ℕ
note_max_length = 4096

pub data Failure : Type 0 where
  lot_not_found : ℕ → Failure
  value_error : Failure
  unreadable : Lots.Error → Failure

-- What a method of the service answers, or the exception that leaves it.
pub data Answer (A : Type 0) : Type 0 where
  raise : Failure → Answer A
  ok : A → Answer A

abbrev require : {A : Type 0} → ℕ → Lots.Result (Option Lot) → A → Answer A
require n (Lots.Result.raise e) a = raise (unreadable e)
require n (Lots.Result.ok none) a = raise (lot_not_found n)
require n (Lots.Result.ok (some lot)) a = ok a

-- _require_lot, and what comes behind it.
unfoldable pub require_lot : {A : Type 0} → ℕ → Database → A → Answer A
require_lot n db a = require n (Lots.get n db) a

abbrev pub toggled : Option LotUserState → Bool
toggled none = true
toggled (some s) = not s.submitted

unfoldable pub toggle_archive :
    ℕ → Instant → Database → List LotUserState → Answer (List LotUserState)
toggle_archive n now db table =
    require_lot n db (set_submitted n (toggled (get n table)) none now table)

abbrev pub too_long : Option (List ℕ) → Bool
too_long none = false
too_long (some note) = ltb note_max_length (length note)

-- LotUserStateService.set_note
unfoldable pub store_note :
    ℕ → Option (List ℕ) → Instant → Database → List LotUserState → Answer (List LotUserState)
store_note n note now db table =
    if too_long note then raise value_error else require_lot n db (set_note n note now table)

abbrev detailed :
    Lots.Result (Option Lot) → Option LotUserState → Answer (Option (Lot × Option LotUserState))
detailed (Lots.Result.raise e) s = raise (unreadable e)
detailed (Lots.Result.ok none) s = ok none
detailed (Lots.Result.ok (some lot)) s = ok (some (lot, s))

unfoldable pub details :
    ℕ → Database → List LotUserState → Answer (Option (Lot × Option LotUserState))
details n db table = detailed (Lots.get n db) (get n table)
