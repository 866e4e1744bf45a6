-- ===== src/FullScan/Effects.antt =====
-- What a batch of FullScan.antt does to the rows of its lots.
use gektar_monitor.Prelude.{
  ℕ, ◌≡◌, refl, sym, ap, ◌∙◌, String, Bool, true, false, not, none, some, List, [], ◌∷◌,
  if◌then◌else◌, select, contains, arith, Bool-cases, inl, inr, ◌==◌, ==_iff,
}
use gektar_monitor.Domain.{Instant, Lot}
use gektar_monitor.Lots.{
  Database, LotRow, mark_seen, mark_inactive, seen_rows, find_row, deactivated,
}
use gektar_monitor.Lots.Rows.{find_row-update_row}
use gektar_monitor.FullScan.{mark_missing, process_batch, ids}

abbrev pub sighted : Instant → LotRow → LotRow
sighted now r = record r { lot = record r.lot { last_seen = now; last_seen_at = some now } }

find_row-seen_rows :
    (n : ℕ) (ns : List ℕ) (now : Instant) (rows : List LotRow) (r : LotRow)
    → find_row n rows ≡ some r
    → find_row n (seen_rows ns now rows) ≡ some (if contains n ns then sighted now r else r)
unfolding find_row seen_rows
find_row-seen_rows n ns now [] r h = cc
find_row-seen_rows n ns now (q ∷ rows) r h = elim (Bool-cases (q.lot.id == n)) [
  | inl e ↦ elim (Bool-cases (contains q.lot.id ns)) [
    | inl c ↦
        rw (c, e, ap (λ k. contains k ns) (sym ((==_iff q.lot.id n).0 e)) ∙ c)
          (ap (λ o. elim o [ none ↦ none | some x ↦ some (sighted now x) ]) (rw e at h))
    | inr c ↦ rw (c, e, ap (λ k. contains k ns) (sym ((==_iff q.lot.id n).0 e)) ∙ c) (rw e at h)
  ]
  | inr e ↦
      let rest = find_row-seen_rows n ns now rows r (rw e at h) in
      elim (Bool-cases (contains q.lot.id ns)) [ inl c ↦ rw (c, e) rest | inr c ↦ rw (c, e) rest ]
]

find_row-mark_seen :
    (n : ℕ) (ns : List ℕ) (now : Instant) (db : Database) (r : LotRow)
    → find_row n db.lots ≡ some r
    → find_row n (mark_seen ns now db).lots ≡ some (if contains n ns then sighted now r else r)
unfolding mark_seen
find_row-mark_seen n [] now db r h = h
find_row-mark_seen n (m ∷ ms) now db r h = find_row-seen_rows n (m ∷ ms) now db.lots r h

-- A row that `mark_inactive` reaches, and one that it does not.
find_row-mark_inactive :
    (n m : ℕ) (reason : String) (now : Instant) (db : Database) (r : LotRow)
    → find_row n db.lots ≡ some r
    → find_row n (mark_inactive m reason now db).lots
      ≡ some (if m == n then deactivated reason now r else r)
unfolding mark_inactive
find_row-mark_inactive n m reason now db r h =
    find_row-update_row m n (deactivated reason now) db.lots (λ q e. e)
    ∙ ap
        (λ o. elim o [
          | none ↦ none
          | some q ↦ some (if m == n then deactivated reason now q else q)
        ])
        h

contains-select :
    (p : ℕ → Bool) (n : ℕ) (xs : List ℕ)
    → contains n (select p xs) ≡ (if p n then contains n xs else false)
contains-select p n [] = ground arith
contains-select p n (x ∷ xs) = elim (Bool-cases (n == x)) [
  | inl e ↦ ground (arith, contains-select p n xs, ap p ((==_iff n x).0 e))
  | inr e ↦ ground (arith, contains-select p n xs)
]

either_way : {A : Type 0} (b : Bool) (x : A) → some (if b then x else x) ≡ some x
either_way true x = refl
either_way false x = refl

flipped : (n m : ℕ) (b : Bool) → (n == m) ≡ b → (m == n) ≡ b
flipped n m b e = ground arith

-- A row that is deactivated stays so.
find_row-mark_missing :
    (n : ℕ) (ms : List ℕ) (now : Instant) (db : Database) (r : LotRow)
    → find_row n db.lots ≡ some (deactivated "full_scan_missing" now r)
    → find_row n (mark_missing ms now db).lots ≡ some (deactivated "full_scan_missing" now r)
unfolding mark_missing
find_row-mark_missing n [] now db r h = h
find_row-mark_missing n (m ∷ ms) now db r h =
    find_row-mark_missing n ms now (mark_inactive m "full_scan_missing" now db) r (
      find_row-mark_inactive n m "full_scan_missing" now db (deactivated "full_scan_missing" now r)
        h
      ∙ either_way (m == n) (deactivated "full_scan_missing" now r))

mark_missing-reaches :
    (n : ℕ) (ms : List ℕ) (now : Instant) (db : Database) (r : LotRow)
    → find_row n db.lots ≡ some r
    → find_row n (mark_missing ms now db).lots
      ≡ some (if contains n ms then deactivated "full_scan_missing" now r else r)
unfolding mark_missing
mark_missing-reaches n [] now db r h = h
mark_missing-reaches n (m ∷ ms) now db r h = elim (Bool-cases (n == m)) [
  | inl e ↦ rw e (
      find_row-mark_missing n ms now (mark_inactive m "full_scan_missing" now db) r (
        find_row-mark_inactive n m "full_scan_missing" now db r h
        ∙ ap (λ (b : Bool). some (if b then deactivated "full_scan_missing" now r else r))
            (flipped n m true e)))
  | inr e ↦ rw e (
      mark_missing-reaches n ms now (mark_inactive m "full_scan_missing" now db) r (
        find_row-mark_inactive n m "full_scan_missing" now db r h
        ∙ ap (λ (b : Bool). some (if b then deactivated "full_scan_missing" now r else r))
            (flipped n m false e)))
]

selected :
    (p : ℕ → Bool) (n : ℕ) (xs : List ℕ) → contains n xs ≡ true → contains n (select p xs) ≡ p n
selected p n xs there = ground (arith, contains-select p n xs)

find_row-marked :
    (seen_ids : List ℕ) (now : Instant) (ns : List ℕ) (db : Database) (n : ℕ) (r : LotRow)
    → contains n ns ≡ true
    → find_row n db.lots ≡ some r
    → find_row n (mark_seen (select (λ m. contains m seen_ids) ns) now db).lots
      ≡ some (if contains n seen_ids then sighted now r else r)
find_row-marked seen_ids now ns db n r there found =
    find_row-mark_seen n (select (λ m. contains m seen_ids) ns) now db r found
    ∙ ap (λ (b : Bool). some (if b then sighted now r else r))
        (selected (λ m. contains m seen_ids) n ns there)

one_of_two :
    (b : Bool) (now : Instant) (r : LotRow)
    → some (
        if not b
        then deactivated "full_scan_missing" now (if b then sighted now r else r)
        else if b
        then sighted now r
        else r)
      ≡ some (if b then sighted now r else deactivated "full_scan_missing" now r)
one_of_two true now r = refl
one_of_two false now r = refl

-- For each lot of a batch that has a row: if it was seen, its row has the time of the scan as the
-- time of the last sight and is otherwise as it was; if it was not, and deactivation is enabled,
-- its row is inactive from this time on with the reason of the scan, and otherwise as it was; if it
-- was not, and deactivation is disabled, its row is unchanged.
process_batch_lem :
    (seen_ids : List ℕ) (enabled : Bool) (now : Instant) (batch : List Lot) (db : Database) (n : ℕ)
    (r : LotRow)
    → contains n (ids batch) ≡ true
    → find_row n db.lots ≡ some r
    → find_row n (process_batch seen_ids enabled now batch db).lots
      ≡ some (
          if contains n seen_ids
          then sighted now r
          else if enabled
          then deactivated "full_scan_missing" now r
          else r)
unfolding process_batch
process_batch_lem seen_ids false now batch db n r there found =
    find_row-marked seen_ids now (ids batch) db n r there found
process_batch_lem seen_ids true now batch db n r there found =
    mark_missing-reaches n (select (λ m. not (contains m seen_ids)) (ids batch)) now
      (mark_seen (select (λ m. contains m seen_ids) (ids batch)) now db)
      (if contains n seen_ids then sighted now r else r)
      (find_row-marked seen_ids now (ids batch) db n r there found)
    ∙ ap
        (λ (b : Bool). some (
          if b
          then deactivated "full_scan_missing" now
              (if contains n seen_ids then sighted now r else r)
          else if contains n seen_ids
          then sighted now r
          else r))
        (selected (λ m. not (contains m seen_ids)) n (ids batch) there)
    ∙ one_of_two (contains n seen_ids) now r
