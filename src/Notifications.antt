-- ===== src/Notifications.antt =====
-- The `notifications` table of src/fis_monitor/infra/sqlite/repositories/notifications.py, as the
-- list of its rows. Each method is one short transaction, so it is one function on the table. A
-- time is a count of microseconds since the epoch; the ISO texts of the columns keep its order.
pub mod Laws
use gektar_monitor.Prelude.{
  ℕ, ◌+◌, String, Bool, true, false, ◌&&◌, Option, none, some, List, [], ◌∷◌, ◌++◌, ltb, ◌==◌,
  if◌then◌else◌, str_eq, select,
}

-- The columns of the primary key.
pub record Key : Type 0 where
  pub lot_id : ℕ
  pub channel : String
  pub recipient : String

pub data Status : Type 0 where
  pending sent permanent_fail : Status

pub record NotificationRecord : Type 0 where
  pub key : Key
  pub status : Status
  pub attempt_no : ℕ
  pub last_attempt_at : Option ℕ
  pub sent_at : Option ℕ

abbrev pub Table : Type 0
Table = List NotificationRecord

-- `lot_id = ? AND channel = ? AND recipient = ?`
unfoldable pub same_key : Key → Key → Bool
same_key a b =
    a.lot_id == b.lot_id && (str_eq a.channel b.channel && str_eq a.recipient b.recipient)

abbrev pub is_pending : Status → Bool
is_pending pending = true
is_pending sent = false
is_pending permanent_fail = false

abbrev pub is_sent : Status → Bool
is_sent pending = false
is_sent sent = true
is_sent permanent_fail = false

-- The row that the primary key selects.
unfoldable pub row_of : Key → Table → Option NotificationRecord
row_of k [] = none
row_of k (r ∷ t) = if same_key r.key k then some r else row_of k t

abbrev pub fresh_row : Key → NotificationRecord
fresh_row k = record {
  key = k;
  status = pending;
  attempt_no = 0;
  last_attempt_at = none;
  sent_at = none;
}

-- INSERT OR IGNORE: whether a row was made, and the table.
unfoldable pub reserve : Key → Table → Bool × Table
reserve k t = elim (row_of k t) [ none ↦ (true, t ++ fresh_row k ∷ []) | some _ ↦ (false, t) ]

unfoldable pub status_of : Key → Table → Option Status
status_of k t = elim (row_of k t) [ none ↦ none | some r ↦ some r.status ]

-- UPDATE … SET f WHERE the key is k AND status = 'pending'
unfoldable pub update_pending : Key → (NotificationRecord → NotificationRecord) → Table → Table
update_pending k f [] = []
update_pending k f (r ∷ t) =
    (if same_key r.key k && is_pending r.status then f r else r) ∷ update_pending k f t

abbrev pub attempted : ℕ → NotificationRecord → NotificationRecord
attempted now r = record r { attempt_no = r.attempt_no + 1; last_attempt_at = some now }

-- The new `attempt_no` that RETURNING gives, `none` if no row was updated.
unfoldable pub mark_attempt : Key → ℕ → Table → Option ℕ × Table
mark_attempt k now t = elim (row_of k t) [
  | none ↦ (none, t)
  | some r ↦
      if is_pending r.status
      then (some (r.attempt_no + 1), update_pending k (attempted now) t)
      else (none, t)
]

abbrev pub delivered : ℕ → NotificationRecord → NotificationRecord
delivered now r = record r { status = sent; sent_at = some now }

unfoldable pub mark_sent : Key → ℕ → Table → Table
mark_sent k now t = update_pending k (delivered now) t

abbrev pub abandoned : NotificationRecord → NotificationRecord
abandoned r = record r { status = permanent_fail }

unfoldable pub mark_permanent_fail : Key → Table → Table
mark_permanent_fail k t = update_pending k abandoned t

-- `last_attempt_at IS NULL OR last_attempt_at < now - age`
abbrev pub is_stale : ℕ → ℕ → Option ℕ → Bool
is_stale now age none = true
is_stale now age (some at_time) = ltb (at_time + age) now

unfoldable pub list_pending_older_than : ℕ → ℕ → Table → List NotificationRecord
list_pending_older_than now age =
    select (λ r. is_pending r.status && is_stale now age r.last_attempt_at)
