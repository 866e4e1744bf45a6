-- ===== src/Lots/Queries.antt =====
-- The reads of the lot repository, and the last known lot of a region.
use gektar_monitor.Prelude.{
  ℕ, Bool, true, false, map, Option, none, some, List, [], ◌∷◌, ◌==◌, if◌then◌else◌, take, drop,
  select, leb, contains, length,
}
use gektar_monitor.Domain.{Instant, EnrichmentStatus, Lot}
use gektar_monitor.Lots.{LotRow, Database, Result, ok, ◌>>=◌, row_to_lot}

-- The ORDER BY of `list_active`: newest `date_create` first.
unfoldable pub insert_newest : LotRow → List LotRow → List LotRow
insert_newest r [] = r ∷ []
insert_newest r (q ∷ qs) =
    let rest = insert_newest r qs in
    if leb q.lot.date_create r.lot.date_create then r ∷ q ∷ qs else q ∷ rest

unfoldable pub newest_first : List LotRow → List LotRow
newest_first [] = []
newest_first (r ∷ rs) = insert_newest r (newest_first rs)

unfoldable pub active_rows : List LotRow → List LotRow
active_rows = select (λ r. r.lot.is_active)

unfoldable pub read_all : List LotRow → Result (List Lot)
read_all [] = ok []
read_all (r ∷ rs) = do l ← row_to_lot r; ls ← read_all rs; ok (l ∷ ls)

unfoldable pub list_active : ℕ → ℕ → Database → Result (List Lot)
list_active limit offset db =
    read_all (take limit (drop offset (newest_first (active_rows db.lots))))

unfoldable pub lookup_known : ℕ → List (ℕ × ℕ) → Option ℕ
lookup_known region [] = none
lookup_known region ((r, v) ∷ t) = if r == region then some v else lookup_known region t

unfoldable pub put_known : ℕ → ℕ → List (ℕ × ℕ) → List (ℕ × ℕ)
put_known region v [] = (region, v) ∷ []
put_known region v ((r, u) ∷ t) = if r == region then (r, v) ∷ t else (r, u) ∷ put_known region v t

unfoldable pub get_last_known_id : ℕ → Database → Option ℕ
get_last_known_id region db = lookup_known region db.last_known

unfoldable pub set_last_known_id : ℕ → ℕ → Database → Database
set_last_known_id region v db = record db { last_known = put_known region v db.last_known }

-- `MAX(first_seen)` over the rows that no backfill wrote.
abbrev pub later : Option Instant → Instant → Option Instant
later none t = some t
later (some s) t = if leb s t then some t else some s

unfoldable pub latest_of : List LotRow → Option Instant
latest_of [] = none
latest_of (r ∷ rs) =
    let rest = latest_of rs in if r.is_backfill then rest else later rest r.lot.first_seen

unfoldable pub latest_new_first_seen : Database → Option Instant
latest_new_first_seen db = latest_of db.lots

abbrev pub in_regions : Option ℕ → List ℕ → Bool
in_regions none regions = false
in_regions (some region) regions = contains region regions

unfoldable pub count_active : List ℕ → Database → ℕ
count_active [] db = length (active_rows db.lots)
count_active (g ∷ gs) db =
    length (select (λ r. in_regions r.lot.region_id (g ∷ gs)) (active_rows db.lots))

abbrev pub awaits_enrichment : Option EnrichmentStatus → Option Instant → Bool
awaits_enrichment none none = true
awaits_enrichment (some EnrichmentStatus.pending) none = true
awaits_enrichment _ _ = false

unfoldable pub needing_enrichment : ℕ → Database → List ℕ
needing_enrichment limit db =
    map (λ r. r.lot.id)
      (take limit
        (select (λ r. awaits_enrichment r.lot.enrichment_status r.lot.detail_fetched_at) db.lots))
