-- ===== src/Lots/Reasons.antt =====
-- `mark_inactive` with a reason that the domain model does not know.
use gektar_monitor.Prelude.{ℕ, String, ◌≡◌, refl, Bool, none, some, List, ==_refl}
use gektar_monitor.Domain.{Instant, Lot}
use gektar_monitor.Diff.{TrackedField}
use gektar_monitor.Lots.{
  LotRow, Database, validation_error, ok, raise, parse_reason, read_reason, row_to_lot, find_row,
  update_row, deactivated, mark_inactive, read_old, get, guard_tracked, upsert,
}
use gektar_monitor.Lots.Rows.{find_row-update_row}

unreadable :
    (n : ℕ) (reason : String) (at_time : Instant) (rows : List LotRow) (r : LotRow)
    → parse_reason reason ≡ none
    → find_row n rows ≡ some r
    → read_old (find_row n (update_row n (deactivated reason at_time) rows))
      ≡ raise validation_error
unfolding read_old row_to_lot read_reason
unreadable n reason at_time rows r unknown found =
    rw
      (
        find_row-update_row n n (deactivated reason at_time) rows (λ q e. e),
        found,
        ==_refl n,
        unknown,
        read_old,
        row_to_lot,
        read_reason,
      )
      refl

-- After `mark_inactive` of a lot that has a row, with a reason that is none of the three that the
-- domain model knows, `get` raises for the lot, and so does every `upsert` of it with known field
-- names: the lot can neither be read nor written.
pub mark_inactive-unreadable :
    (n : ℕ) (reason : String) (at_time : Instant) (db : Database) (r : LotRow) (lot : Lot)
    (tracked : List TrackedField) (is_backfill : Bool) (now : Instant)
    → parse_reason reason ≡ none
    → find_row n db.lots ≡ some r
    → lot.id ≡ n
    → guard_tracked tracked ≡ ok tt
    → (get n (mark_inactive n reason at_time db) ≡ raise validation_error)
      × (upsert lot tracked is_backfill now (mark_inactive n reason at_time db)
          ≡ raise validation_error)
unfolding get upsert mark_inactive
mark_inactive-unreadable n reason at_time db r lot tracked is_backfill now unknown found same
      known =
    let broken = unreadable n reason at_time db.lots r unknown found in
    (broken, rw (known, same, broken))
