-- ===== src/FullScan/Laws.antt =====
-- The scan of FullScan.antt: its end, and the lots that it leaves active.
use gektar_monitor.Prelude.{
  ℕ, ◌≤◌, ◌≡◌, refl, ap, subst, ◌∙◌, String, Bool, true, false, not, Option, none, some, List, [],
  ◌∷◌, if◌then◌else◌, select, contains, arith, Bool-cases, inl, inr, ◌⊎◌, ◌==◌, ==_iff, All,
}
use gektar_monitor.Domain.{Instant, Lot}
use gektar_monitor.Lots.{
  Database, LotRow, mark_seen, mark_inactive, seen_rows, find_row, deactivated,
}
use gektar_monitor.Lots.Rows.{find_row-update_row}
use gektar_monitor.Fetcher.{session_expired, Response, Walk, returned, raised}
use gektar_monitor.Fetcher.Laws.{iterate_walks}
use gektar_monitor.FullScan.{
  Env, Fetched, fetched, expired, full_walk, fetch_region_ids_paginated, fetch_region_ids,
  fetch_region_ids_single_page, mark_missing, process_batch, Scan, done, process_batches, ids,
  scan_ids, on_fetched, scan_regions, run_once, collected, fetch_by,
}
use gektar_monitor.FullScan.Batches.{lot_count, batches-Ends}

abbrev pub active_in : Option LotRow → Option Bool
active_in none = none
active_in (some r) = some r.lot.is_active

-- Whether the lot is active; `none` without a row.
abbrev pub active_of : ℕ → Database → Option Bool
active_of n db = active_in (find_row n db.lots)

active_of-seen_rows :
    (n : ℕ) (ns : List ℕ) (now : Instant) (rows : List LotRow)
    → active_in (find_row n (seen_rows ns now rows)) ≡ active_in (find_row n rows)
unfolding find_row seen_rows
active_of-seen_rows n ns now [] = refl
active_of-seen_rows n ns now (r ∷ rs) = ground (arith, active_of-seen_rows n ns now rs)

active_of-mark_seen :
    (n : ℕ) (ns : List ℕ) (now : Instant) (db : Database)
    → active_of n (mark_seen ns now db) ≡ active_of n db
unfolding mark_seen
active_of-mark_seen n [] now db = refl
active_of-mark_seen n (m ∷ ms) now db = active_of-seen_rows n (m ∷ ms) now db.lots

active_in-other :
    (same : Bool) (f : LotRow → LotRow) (o : Option LotRow)
    → same ≡ false
    → active_in (elim o [ none ↦ none | some r ↦ some (if same then f r else r) ]) ≡ active_in o
active_in-other same f none e = refl
active_in-other same f (some r) e = rw e refl

active_of-mark_inactive :
    (n m : ℕ) (reason : String) (now : Instant) (db : Database)
    → (m == n) ≡ false
    → active_of n (mark_inactive m reason now db) ≡ active_of n db
unfolding mark_inactive
active_of-mark_inactive n m reason now db e =
    ap active_in (find_row-update_row m n (deactivated reason now) db.lots (λ r h. h))
    ∙ active_in-other (m == n) (deactivated reason now) (find_row n db.lots) e

active_of-mark_missing :
    (n : ℕ) (ms : List ℕ) (now : Instant) (db : Database)
    → All (λ m. (m == n) ≡ false) ms
    → active_of n (mark_missing ms now db) ≡ active_of n db
unfolding mark_missing
active_of-mark_missing n [] now db h = refl
active_of-mark_missing n (m ∷ ms) now db (e, h) =
    active_of-mark_missing n ms now (mark_inactive m "full_scan_missing" now db) h
    ∙ active_of-mark_inactive n m "full_scan_missing" now db e

unseen-ne-seen :
    (n m : ℕ) (seen : List ℕ) → contains n seen ≡ true → contains m seen ≡ false → (m == n) ≡ false
unseen-ne-seen n m seen h c = elim (Bool-cases (m == n)) [
  | inl e ↦ ground (arith, ap (λ k. contains k seen) ((==_iff m n).0 e), h, c)
  | inr e ↦ e
]

missing-ne-seen :
    (n : ℕ) (seen ms : List ℕ)
    → contains n seen ≡ true
    → All (λ m. (m == n) ≡ false) (select (λ m. not (contains m seen)) ms)
missing-ne-seen n seen [] h = tt
missing-ne-seen n seen (m ∷ ms) h = elim (Bool-cases (contains m seen)) [
  | inl c ↦ rw c (missing-ne-seen n seen ms h)
  | inr c ↦ rw c (unseen-ne-seen n m seen h c, missing-ne-seen n seen ms h)
]

process_batch-active_of :
    (n : ℕ) (seen : List ℕ) (enabled : Bool) (now : Instant) (batch : List Lot) (db : Database)
    → (contains n seen ≡ true) ⊎ (enabled ≡ false)
    → active_of n (process_batch seen enabled now batch db) ≡ active_of n db
unfolding process_batch
process_batch-active_of n seen true now batch db (inl h) =
    active_of-mark_missing n (select (λ m. not (contains m seen)) (ids batch)) now _
      (missing-ne-seen n seen (ids batch) h)
    ∙ active_of-mark_seen n (select (λ m. contains m seen) (ids batch)) now db
process_batch-active_of n seen true now batch db (inr h) = cc
process_batch-active_of n seen false now batch db h =
    active_of-mark_seen n (select (λ m. contains m seen) (ids batch)) now db

scan_ids-keeps :
    (P : Database → Type 0) (env : Env) (db : Database) (seen : List ℕ) (completed : Bool)
    → ((batch : List Lot) (db : Database)
        → P db
        → P (process_batch seen completed env.now batch db))
    → 1 ≤ env.batch_size
    → P db
    → (s : Scan) × (scan_ids env db seen completed ≡ some s) × P s.db
unfolding scan_ids
scan_ids-keeps P env db [] completed keeps size p = (done db, refl, p)
scan_ids-keeps P env db (n ∷ ns) completed keeps size p =
    subst
      (λ fuel. (s : Scan) × (process_batches env (n ∷ ns) completed fuel 0 0 db ≡ some s) × P s.db)
      (omega arith)
      (batches-Ends env (n ∷ ns) completed P keeps (lot_count db) 0 0 db size (omega arith) p)

-- With a positive batch size, the scan of a fetched list of ids ends, on every database; no lot in
-- the list becomes active or inactive by it, and no lot at all if the fetch was incomplete.
pub scan_ids_spares :
    (env : Env) (db : Database) (seen : List ℕ) (completed : Bool) (n : ℕ)
    → 1 ≤ env.batch_size
    → (contains n seen ≡ true) ⊎ (completed ≡ false)
    → (s : Scan) × (scan_ids env db seen completed ≡ some s) × (active_of n s.db ≡ active_of n db)
scan_ids_spares env db seen completed n size h =
    scan_ids-keeps (λ d. active_of n d ≡ active_of n db) env db seen completed
      (λ batch d same. process_batch-active_of n seen completed env.now batch d h ∙ same) size refl

walked_completes :
    (w : Walk)
    → (w.ending ≡ returned ⊎ (w.ending ≡ raised session_expired) ⊎ (false ≡ true) ⊎ (false ≡ true))
    → (some (collected w.rows w.ending) ≡ some expired)
      ⊎ ((seen : List ℕ) × (some (collected w.rows w.ending) ≡ some (fetched seen true)))
walked_completes w (inl e) = inr (w.rows, rw e refl)
walked_completes w (inr (inl e)) = inl (rw e refl)
walked_completes w (inr (inr (inl e))) = cc
walked_completes w (inr (inr (inr e))) = cc

-- The paginated fetch always has a result, and never the result `pagination_completed = False`:
-- either the session has expired, or the pages count as completed, whatever failed on the way.
pub paginated_completes :
    (answers : ℕ → Response) (stopped : ℕ → Bool)
    → (fetch_region_ids_paginated answers stopped ≡ some expired)
      ⊎ ((seen : List ℕ) × (fetch_region_ids_paginated answers stopped ≡ some (fetched seen true)))
unfolding fetch_region_ids_paginated
paginated_completes answers stopped =
    let (w, ends, walked) = iterate_walks full_walk (record { get = answers; stopped = stopped }) in
    rw ends (walked_completes w walked.4)

fetch_by-some :
    (env : Env) (region : ℕ) (o : Option (ℕ → ℕ → Response))
    → (f : Fetched) × (fetch_by env region o ≡ some f)
fetch_by-some env region none = (fetch_region_ids_single_page (env.list_page region), refl)
fetch_by-some env region (some pages) =
    elim (paginated_completes (pages region) env.fetch_stopped) [
      | inl e ↦ (expired, e)
      | inr (seen, e) ↦ (fetched seen true, e)
    ]

scan_ids_ends :
    (env : Env) (db : Database) (seen : List ℕ) (completed : Bool)
    → 1 ≤ env.batch_size
    → (s : Scan) × (scan_ids env db seen completed ≡ some s)
scan_ids_ends env db seen completed size =
    let (s, ends, _) =
      scan_ids-keeps (λ d. Unit {0}) env db seen completed (λ batch d p. tt) size tt in
    (s, ends)

on_fetched_ends :
    (env : Env) (db : Database) (f : Fetched)
    → 1 ≤ env.batch_size
    → (s : Scan) × (on_fetched env db (some f) ≡ some s)
unfolding on_fetched
on_fetched_ends env db expired size = scan_ids_ends env db [] false size
on_fetched_ends env db (fetched seen completed) size = scan_ids_ends env db seen completed size

scan_regions_ends :
    (env : Env) (db : Database) (regions : List ℕ)
    → 1 ≤ env.batch_size
    → (s : Scan) × (scan_regions env db regions ≡ some s)
unfolding fetch_region_ids
scan_regions_ends env db [] size = scan_ids_ends env db [] true size
scan_regions_ends env db (region ∷ _) size =
    let (f, fetched_f) = fetch_by-some env region env.pages in
    let (s, ends) = on_fetched_ends env db f size in (s, ap (on_fetched env db) fetched_f ∙ ends)

-- With a positive batch size, the scan ends, on every database and whatever the site answers.
run_once_ends :
    (env : Env) (db : Database) → 1 ≤ env.batch_size → (s : Scan) × (run_once env db ≡ some s)
unfolding run_once
run_once_ends env db size = scan_regions_ends env db env.regions size

-- If the session has expired, or the fetch of the first region gave no ids, the scan ends without
-- a change of the tables.
run_once_harmless :
    (env : Env) (db : Database) (region : ℕ) (rest : List ℕ) (completed : Bool)
    → env.regions ≡ region ∷ rest
    → (fetch_region_ids env region ≡ some expired)
      ⊎ (fetch_region_ids env region ≡ some (fetched [] completed))
    → run_once env db ≡ some (done db)
unfolding run_once on_fetched scan_ids fetch_region_ids
run_once_harmless env db region rest completed regions (inl e) = rw (regions, e) refl
run_once_harmless env db region rest completed regions (inr e) = rw (regions, e) refl
