-- ===== src/Dispatcher/Reserved.antt =====
-- The row of a key behind its reservation.
use gektar_monitor.Prelude.{◌≡◌, none, some, arith}
use gektar_monitor.Notifications.{Key, Table, row_of, status_of, reserve, fresh_row}
use gektar_monitor.Notifications.Laws.{same_key_refl, row_of-reserve, status_of-row_of}

pub reserved :
    (k : Key) (t : Table) → row_of k t ≡ none → row_of k (reserve k t).1 ≡ some (fresh_row k)
reserved k t new = ground (arith, row_of-reserve k k t, new, same_key_refl k)

pub row-none : (k : Key) (t : Table) → row_of k t ≡ none → status_of k t ≡ none
row-none k t new = ground (arith, status_of-row_of k t, new)
