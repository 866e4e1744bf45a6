-- ===== src/Diff/Laws.antt =====
-- `compute_changes` against a description of a diff that does not compute.
use gektar_monitor.Prelude.{
  ◌≡◌, ◌≢◌, ◌↔◌, refl, Bool, true, false, none, some, List, [], ◌∷◌, arith, if◌then◌else◌, eq_iff,
  All,
}
use gektar_monitor.Domain.{Lot}
use gektar_monitor.Diff.{
  TrackedField, Value, text, number, instant, flag, missing, ok, FieldChange, value_eq, get_value,
  refusal, check_tracked, changes_of, compute_changes,
}

value_eq_iff : (a b : Value) → (value_eq a b ≡ true) ↔ (a ≡ b)
unfolding value_eq
value_eq_iff (text a) (text b) = ground (arith, eq_iff a b)
value_eq_iff (number a) (number b) = ground arith
value_eq_iff (instant a) (instant b) = ground arith
value_eq_iff (flag a) (flag b) = ground arith
value_eq_iff missing missing = ground arith
value_eq_iff a b = ground arith

-- The changes between two lots, in the order of the fields: one for each field whose values
-- differ, and none for the others.
pub data ChangesBetween (old new : Lot) : List TrackedField → List FieldChange → Type 0 where
  done : ChangesBetween old new [] []
  same :
      {f : TrackedField} {fs : List TrackedField} {cs : List FieldChange}
      → get_value old f ≡ get_value new f
      → ChangesBetween old new fs cs
      → ChangesBetween old new (f ∷ fs) cs
  differs :
      {f : TrackedField} {fs : List TrackedField} {cs : List FieldChange}
      → get_value old f ≢ get_value new f
      → ChangesBetween old new fs cs
      → ChangesBetween old new
          (f ∷ fs)
          ((record { field = f; old_value = get_value old f; new_value = get_value new f }) ∷ cs)

pub changes_of-ChangesBetween :
    (old new : Lot) (fs : List TrackedField) → ChangesBetween old new fs (changes_of old new fs)
unfolding changes_of
changes_of-ChangesBetween old new [] = done
changes_of-ChangesBetween old new (f ∷ fs) =
    by_test (value_eq (get_value old f) (get_value new f)) refl
      (changes_of-ChangesBetween old new fs)
  where
    c : FieldChange
    c = record { field = f; old_value = get_value old f; new_value = get_value new f }

    by_test :
        (b : Bool)
        → value_eq (get_value old f) (get_value new f) ≡ b
        → ChangesBetween old new fs (changes_of old new fs)
        → ChangesBetween old new
            (f ∷ fs)
            (if b then changes_of old new fs else c ∷ changes_of old new fs)
    by_test true e h = same ((value_eq_iff (get_value old f) (get_value new f)).0 e) h
    by_test false e h =
        differs (λ p. cc (e, (value_eq_iff (get_value old f) (get_value new f)).1 p)) h

-- A name that is a field of a lot.
abbrev pub IsImplemented : TrackedField → Type 0
IsImplemented f = refusal f ≡ none

pub check_tracked-none : (fs : List TrackedField) → All IsImplemented fs → check_tracked fs ≡ none
unfolding check_tracked
check_tracked-none [] h = refl
check_tracked-none (f ∷ fs) h = rw (h.0, check_tracked) (check_tracked-none fs h.1)

-- For fields that a lot has, the result lists exactly the fields whose values differ, in the order
-- asked for, each with its old and its new value.
pub compute_changes-ChangesBetween :
    (old new : Lot) (tracked : List TrackedField)
    → All IsImplemented tracked
    → (cs : List FieldChange) × (compute_changes (some old) new tracked ≡ ok cs)
      × ChangesBetween old new tracked cs
unfolding compute_changes
compute_changes-ChangesBetween old new tracked h = (
  changes_of old new tracked,
  rw (check_tracked-none tracked h, compute_changes),
  changes_of-ChangesBetween old new tracked,
)
