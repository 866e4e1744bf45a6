-- ===== src/FullScan/Batches.antt =====
-- The batches of FullScan.antt: the number of lots, and the end of the loop.
use gektar_monitor.Prelude.{
  ℕ, zero, suc, ◌+◌, ◌≤◌, ◌≡◌, refl, ap, ◌∙◌, Bool, true, false, not, Option, some, List, [], ◌∷◌,
  select, contains, length, arith, Bool-cases, inl, inr, drop, take, length-select-le,
}
use gektar_monitor.Domain.{Instant, Lot}
use gektar_monitor.Lots.{
  Database, LotRow, Result, ok, raise, mark_seen, mark_inactive, seen_rows, update_row, deactivated,
}
use gektar_monitor.Lots.Queries.{list_active, newest_first, insert_newest, active_rows, read_all}
use gektar_monitor.FullScan.{
  Env, mark_missing, process_batch, Scan, done, on_batch, process_batches, ids,
}

length-update_row :
    (n : ℕ) (f : LotRow → LotRow) (rows : List LotRow) → length (update_row n f rows) ≡ length rows
unfolding update_row
length-update_row n f [] = refl
length-update_row n f (r ∷ rs) = ground (arith, length-update_row n f rs)

length-seen_rows :
    (ns : List ℕ) (now : Instant) (rows : List LotRow)
    → length (seen_rows ns now rows) ≡ length rows
unfolding seen_rows
length-seen_rows ns now [] = refl
length-seen_rows ns now (r ∷ rs) = omega (arith, length-seen_rows ns now rs)

-- No lot is added or removed.
abbrev pub lot_count : Database → ℕ
lot_count db = length db.lots

lot_count-mark_seen :
    (ns : List ℕ) (now : Instant) (db : Database) → lot_count (mark_seen ns now db) ≡ lot_count db
unfolding mark_seen
lot_count-mark_seen [] now db = refl
lot_count-mark_seen (n ∷ ns) now db = length-seen_rows (n ∷ ns) now db.lots

lot_count-mark_missing :
    (ns : List ℕ) (now : Instant) (db : Database)
    → lot_count (mark_missing ns now db) ≡ lot_count db
unfolding mark_missing mark_inactive
lot_count-mark_missing [] now db = refl
lot_count-mark_missing (n ∷ ns) now db =
    lot_count-mark_missing ns now (mark_inactive n "full_scan_missing" now db)
    ∙ length-update_row n (deactivated "full_scan_missing" now) db.lots

lot_count-process_batch :
    (seen_ids : List ℕ) (enabled : Bool) (now : Instant) (batch : List Lot) (db : Database)
    → lot_count (process_batch seen_ids enabled now batch db) ≡ lot_count db
unfolding process_batch
lot_count-process_batch seen_ids true now batch db =
    lot_count-mark_missing (select (λ n. not (contains n seen_ids)) (ids batch)) now _
    ∙ lot_count-mark_seen (select (λ n. contains n seen_ids) (ids batch)) now db
lot_count-process_batch seen_ids false now batch db =
    lot_count-mark_seen (select (λ n. contains n seen_ids) (ids batch)) now db

length-insert_newest :
    (r : LotRow) (rows : List LotRow) → length (insert_newest r rows) ≡ length rows + 1
unfolding insert_newest
length-insert_newest r [] = omega arith
length-insert_newest r (q ∷ qs) = ground (arith, length-insert_newest r qs)

length-newest_first : (rows : List LotRow) → length (newest_first rows) ≡ length rows
unfolding newest_first
length-newest_first [] = refl
length-newest_first (r ∷ rs) =
    omega (arith, length-insert_newest r (newest_first rs), length-newest_first rs)

drop-past : {A : Type 0} (n : ℕ) (xs : List A) → length xs ≤ n → drop n xs ≡ []
drop-past zero [] h = refl
drop-past zero (x ∷ xs) h = ground arith
drop-past (suc n) [] h = refl
drop-past (suc n) (x ∷ xs) h = drop-past n xs (omega (arith, h))

take-empty : {A : Type 0} (n : ℕ) → take {A = A} n [] ≡ []
take-empty zero = refl
take-empty (suc n) = refl

list_active-past :
    (limit offset : ℕ) (db : Database) → lot_count db ≤ offset → list_active limit offset db ≡ ok []
unfolding list_active read_all active_rows
list_active-past limit offset db h =
    ap (λ rows. read_all (take limit rows))
      (drop-past offset (newest_first (active_rows db.lots)) (
        omega (
          arith,
          h,
          length-newest_first (active_rows db.lots),
          length-select-le (λ (r : LotRow). r.lot.is_active) db.lots,
        )))
    ∙ ap read_all (take-empty limit)

module _ (env : Env) (seen : List ℕ) (enabled : Bool) where
  batches_stop :
      (fuel offset tick : ℕ) (db : Database)
      → env.stopped tick ≡ true
      → process_batches env seen enabled (suc fuel) offset tick db ≡ some (done db)
  unfolding process_batches
  batches_stop fuel offset tick db e = rw e refl

  batches_go_on :
      (fuel offset tick : ℕ) (db : Database)
      → env.stopped tick ≡ false
      → process_batches env seen enabled (suc fuel) offset tick db
        ≡ on_batch seen enabled env.now
            (env.stopped (tick + 1))
            (list_active env.batch_size offset db)
            db
            (λ after.
              process_batches env seen enabled fuel (offset + env.batch_size) (tick + 2) after)
  unfolding process_batches
  batches_go_on fuel offset tick db e = rw e refl

  -- A property of the tables that every batch keeps.
  module _ (P : Database → Type 0)
      (keeps : (batch : List Lot) (db : Database)
        → P db
        → P (process_batch seen enabled env.now batch db)) where
    abbrev pub Ends : Option Scan → Type 0
    Ends answer = (s : Scan) × (answer ≡ some s) × P s.db

    on_batch-Ends :
        (halted : Bool) (r : Result (List Lot)) (db : Database) (go_on : Database → Option Scan)
        → P db
        → ((after : Database) → lot_count after ≡ lot_count db → P after → Ends (go_on after))
        → Ends (on_batch seen enabled env.now halted r db go_on)
    unfolding on_batch
    on_batch-Ends halted (raise e) db go_on p h = (record { db = db; error = some e }, refl, p)
    on_batch-Ends halted (ok []) db go_on p h = (done db, refl, p)
    on_batch-Ends halted (ok (l ∷ ls)) db go_on p h =
        let after = process_batch seen enabled env.now (l ∷ ls) db in
        elim (Bool-cases halted) [
          | inl e ↦ (done after, rw e refl, keeps (l ∷ ls) db p)
          | inr e ↦
              let (s, ends, q) =
                h after (lot_count-process_batch seen enabled env.now (l ∷ ls) db)
                  (keeps (l ∷ ls) db p) in
              (s, rw (e, ends) refl, q)
        ]

    pub batches-Ends :
        (fuel offset tick : ℕ) (db : Database)
        → 1 ≤ env.batch_size
        → lot_count db ≤ offset + fuel
        → P db
        → Ends (process_batches env seen enabled (suc fuel) offset tick db)
    unfolding on_batch
    batches-Ends zero offset tick db size enough p = elim (Bool-cases (env.stopped tick)) [
      | inl e ↦ (done db, batches_stop 0 offset tick db e, p)
      | inr e ↦ (
        done db,
        batches_go_on 0 offset tick db e
            ∙ ap
                (λ r. on_batch seen enabled env.now (env.stopped (tick + 1)) r db (λ after.
                  process_batches env seen enabled 0 (offset + env.batch_size) (tick + 2) after))
                (list_active-past env.batch_size offset db (omega (arith, enough))),
        p,
      )
    ]
    batches-Ends (suc fuel) offset tick db size enough p = elim (Bool-cases (env.stopped tick)) [
      | inl e ↦ (done db, batches_stop (suc fuel) offset tick db e, p)
      | inr e ↦
          let (s, ends, q) =
            on_batch-Ends (env.stopped (tick + 1)) (list_active env.batch_size offset db) db
              (λ after.
                process_batches env seen enabled (suc fuel) (offset + env.batch_size) (tick + 2)
                  after)
              p
              (λ after same p'.
                batches-Ends fuel (offset + env.batch_size) (tick + 2) after size
                  (omega (arith, same, enough, size)) p') in
          (s, batches_go_on (suc fuel) offset tick db e ∙ ends, q)
    ]
