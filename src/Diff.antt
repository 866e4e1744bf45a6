-- ===== src/Diff.antt =====
-- `compute_changes` of src/fis_monitor/domain/diff.py, with `FieldChange` and
-- `DEFAULT_TRACKED_FIELDS` of src/fis_monitor/domain/models.py.
pub mod Laws
use gektar_monitor.Prelude.{
  ℕ, String, Bool, true, false, Option, none, some, List, [], ◌∷◌, ◌==◌, if◌then◌else◌, str_eq,
}
use gektar_monitor.Domain.{Lot}

-- A field name: one of the literal type, or any other text that a caller passes.
pub data TrackedField : Type 0 where
  status area_sqm date_update auction is_active list_presence : TrackedField
  unknown : String → TrackedField

-- A value of `getattr`.
pub data Value : Type 0 where
  text : String → Value
  number : Option ℕ → Value
  instant : Option ℕ → Value
  flag : Bool → Value
  missing : Value

pub data DiffError : Type 0 where
  value_error not_implemented : DiffError

pub data DiffResult {ℓ} (A : Type ℓ) : Type ℓ where
  ok : A → DiffResult A
  raise : DiffError → DiffResult A

pub record FieldChange : Type 0 where
  pub field : TrackedField
  pub old_value : Value
  pub new_value : Value

unfoldable pub optional_eq : Option ℕ → Option ℕ → Bool
optional_eq none none = true
optional_eq none (some b) = false
optional_eq (some a) none = false
optional_eq (some a) (some b) = a == b

unfoldable pub flag_eq : Bool → Bool → Bool
flag_eq true b = b
flag_eq false true = false
flag_eq false false = true

-- `==` on the values of one field.
unfoldable pub value_eq : Value → Value → Bool
unfolding optional_eq flag_eq
value_eq (text a) (text b) = str_eq a b
value_eq (number a) (number b) = optional_eq a b
value_eq (instant a) (instant b) = optional_eq a b
value_eq (flag a) (flag b) = flag_eq a b
value_eq missing missing = true
value_eq _ _ = false

-- `getattr(lot, field)`; the two reserved names and the unknown ones are refused before.
unfoldable pub get_value : Lot → TrackedField → Value
get_value lot status = text lot.status
get_value lot area_sqm = number lot.area_sqm
get_value lot date_update = instant lot.date_update
get_value lot is_active = flag lot.is_active
get_value lot auction = missing
get_value lot list_presence = missing
get_value lot (unknown _) = missing

-- The check of one name.
unfoldable pub refusal : TrackedField → Option DiffError
refusal (unknown _) = some value_error
refusal auction = some not_implemented
refusal list_presence = some not_implemented
refusal status = none
refusal area_sqm = none
refusal date_update = none
refusal is_active = none

-- The first name that is refused decides.
unfoldable pub check_tracked : List TrackedField → Option DiffError
check_tracked [] = none
check_tracked (f ∷ fs) =
    let rest = check_tracked fs in elim (refusal f) [ none ↦ rest | some e ↦ some e ]

unfoldable pub changes_of : Lot → Lot → List TrackedField → List FieldChange
changes_of old new [] = []
changes_of old new (f ∷ fs) =
    let rest = changes_of old new fs in
    if value_eq (get_value old f) (get_value new f)
    then rest
    else (record { field = f; old_value = get_value old f; new_value = get_value new f }) ∷ rest

-- After the check: no history for a lot that is new.
abbrev pub changes_from : Option Lot → Lot → List TrackedField → List FieldChange
changes_from none new tracked = []
changes_from (some old) new tracked = changes_of old new tracked

unfoldable pub compute_changes :
    Option Lot → Lot → List TrackedField → DiffResult (List FieldChange)
compute_changes old new tracked = elim (check_tracked tracked) [
  | some e ↦ raise e
  | none ↦ ok (changes_from old new tracked)
]

abbrev pub default_tracked_fields : List TrackedField
default_tracked_fields = status ∷ area_sqm ∷ date_update ∷ is_active ∷ []
