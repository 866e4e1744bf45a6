-- ===== src/Tests/Storage.antt =====
-- The comparison of lots and the lot repository at concrete inputs.
use gektar_monitor.Prelude.{
  ℕ, String, Option, ◌≡◌, refl, true, false, none, some, List, [], ◌∷◌, ◌++◌, All, arith,
}
use gektar_monitor.Domain.{Lot}
use gektar_monitor.Diff.{
  TrackedField, status, is_active, DiffResult, FieldChange, text, compute_changes, check_tracked,
  refusal, changes_of, value_eq, get_value,
}
use gektar_monitor.Diff.Laws.{IsImplemented, ChangesBetween, compute_changes-ChangesBetween}
use gektar_monitor.Lots.{
  LotRow, Point, Database, ok, raise, validation_error, UpsertResult, upsert, get, find_row,
  find_point, sync_geo, mark_inactive, history_rows, columns, guard_tracked, read_old, row_to_lot,
  read_reason, lift_diff, point_of, write_lot, update_row, remove_point, parse_reason,
}
use gektar_monitor.Lots.Upsert.{upsert-Reports, Reports}
use gektar_monitor.Lots.Geo.{IsSynced, upsert-IsSynced}
use gektar_monitor.Lots.Reasons.{mark_inactive-unreadable}
use gektar_monitor.Lots.Columns.{
  Codec, Moment, aware, StoredRow, insert_values, read_row, parse_text, parse_dt, read_json,
  find_row as find_stored, row_to_lot as row_to_lot_sql,
}
use gektar_monitor.Tests.Fixtures.{sample_lot, degrees}

abbrev point : Point
point = record { lat = degrees 431; lon = degrees 1319 }

abbrev stored : LotRow
stored = record { lot = columns sample_lot; is_backfill = true; enrichment_retries = 2 }

abbrev before : Database
before = record { lots = stored ∷ []; history = []; rtree = (31, point) ∷ []; last_known = [] }

-- The lot as it comes back from the site: another status, and no coordinates.
abbrev updated : Lot
updated = record sample_lot {
  status = "rented";
  lat = none;
  lon = none;
  first_seen = 90;
  last_seen = 90;
}

abbrev status_change : FieldChange
status_change = record { field = status; old_value = text "open"; new_value = text "rented" }

abbrev outcome : UpsertResult
outcome = record { was_new = false; changes = status_change ∷ [] }

abbrev behind : Database
behind = record {
  lots = (record stored { lot = record (columns updated) { first_seen = 7 } }) ∷ [];
  history = (record { lot_id = 31; change = status_change; changed_at = 99 }) ∷ [];
  rtree = [];
  last_known = [];
}

abbrev fields : List TrackedField
fields = status ∷ is_active ∷ []

stored_before : get 31 before ≡ ok (some sample_lot)
unfolding get find_row read_old row_to_lot read_reason columns
stored_before = refl

second_write : upsert updated fields false 99 before ≡ ok (outcome, behind)
unfolding upsert guard_tracked find_row read_old row_to_lot read_reason columns lift_diff
    compute_changes check_tracked refusal changes_of value_eq get_value sync_geo point_of
    remove_point write_lot update_row
second_write = refl

two_columns : All IsImplemented fields
unfolding refusal
two_columns = (refl, (refl, tt))

fields_known : guard_tracked fields ≡ ok tt
unfolding guard_tracked
fields_known = refl

full_scan_missing_unknown : parse_reason "full_scan_missing" ≡ none
unfolding parse_reason
full_scan_missing_unknown = refl

stored_found : find_row 31 before.lots ≡ some stored
unfolding find_row columns
stored_found = refl

before_point : find_point 31 before.rtree ≡ some point
unfolding find_point
before_point = refl

compute_changes-ChangesBetween_example :
    (cs : List FieldChange) × (compute_changes (some sample_lot) updated fields ≡ DiffResult.ok cs)
    × ChangesBetween sample_lot updated fields cs
compute_changes-ChangesBetween_example =
    compute_changes-ChangesBetween sample_lot updated fields two_columns

upsert-Reports_example :
    Reports (some sample_lot) updated fields outcome
    × (behind.history ≡ before.history ++ history_rows updated.id 99 outcome.changes)
upsert-Reports_example =
    upsert-Reports updated fields false 99 before (some sample_lot) outcome behind two_columns
      stored_before second_write

before-IsSynced : IsSynced before
unfolding find_point find_row columns point_of
before-IsSynced m = ground arith

upsert-IsSynced_example : IsSynced behind
upsert-IsSynced_example =
    upsert-IsSynced updated fields false 99 before outcome behind before-IsSynced second_write

mark_inactive-unreadable_example :
    (get 31 (mark_inactive 31 "full_scan_missing" 50 before) ≡ raise validation_error)
    × (upsert updated fields false 99 (mark_inactive 31 "full_scan_missing" 50 before)
        ≡ raise validation_error)
mark_inactive-unreadable_example =
    mark_inactive-unreadable 31 "full_scan_missing" 50 before stored updated fields false 99
      full_scan_missing_unknown stored_found refl fields_known

-- A time is one code point, and a JSON value has a space before it.
abbrev one_point : List ℕ → Option Moment
one_point [] = none
one_point (t ∷ _) = some (aware t)

abbrev behind_space : String → Option String
behind_space String.[] = none
behind_space (String.◌∷◌ c s) = some s

abbrev plain : Codec
plain = record {
  isoformat = λ t. t ∷ [];
  fromisoformat = one_point;
  dumps = λ j. String.◌∷◌ " " j;
  loads = behind_space;
}

-- A stored row of the lot whose time of discovery can be read, and one whose time cannot.
abbrev legacy : StoredRow
legacy = record (insert_values plain sample_lot true) { date_update = some [] }

unread_before : read_row plain (find_stored 31 (legacy ∷ [])) ≡ none
unfolding read_row find_stored row_to_lot_sql read_json parse_text parse_dt insert_values
unread_before = refl

abbrev table : List StoredRow
table = insert_values plain sample_lot true ∷ []
