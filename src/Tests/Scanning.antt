-- ===== src/Tests/Scanning.antt =====
-- The paginated walk and the full scan at concrete inputs.
use gektar_monitor.Prelude.{
  ℕ, ◌≡◌, refl, true, false, none, some, List, [], ◌∷◌, ◌==◌, if◌then◌else◌, ◌⊎◌, inl, arith,
}
use gektar_monitor.Domain.{Lot}
use gektar_monitor.Lots.{LotRow, Database, columns, find_row}
use gektar_monitor.Fetcher.{
  Page, page, upstream_error, Response, response, failed, Site, Walk, first_page, iterate,
}
use gektar_monitor.Fetcher.Laws.{Walked, iterate_walks}
use gektar_monitor.FullScan.{
  Env, fetched, expired, full_walk, fetch_region_ids_paginated, fetch_region_ids,
  fetch_region_ids_single_page, Scan, scan_ids,
}
use gektar_monitor.FullScan.Laws.{active_of, scan_ids_spares, paginated_completes}
use gektar_monitor.Tests.Fixtures.{sample_lot}

abbrev two_rows : Page
two_rows = record { rows = 31 ∷ 32 ∷ []; total_count = some 4 }

-- The first page has two rows; the request of any other fails.
abbrev answers : ℕ → Response
answers n = if n == 1 then response 200 (page two_rows) else failed upstream_error

abbrev site : Site
site = record { get = answers; stopped = λ tick. false }

iterate_walks_example :
    (w : Walk) × (iterate full_walk site ≡ some w) × Walked full_walk site (first_page full_walk) w
iterate_walks_example = iterate_walks full_walk site

abbrev unseen_lot : Lot
unseen_lot = record sample_lot { id = 33 }

abbrev unseen : LotRow
unseen = record { lot = columns unseen_lot; is_backfill = false; enrichment_retries = 0 }

abbrev database : Database
database = record {
  lots =
      (record { lot = columns sample_lot; is_backfill = false; enrichment_retries = 0 })
      ∷ unseen
      ∷ [];
  history = [];
  rtree = [];
  last_known = [];
}

abbrev scan_env : Env
scan_env = record {
  regions = 1 ∷ 2 ∷ [];
  pages = some (λ region. answers);
  list_page = λ region. failed upstream_error;
  batch_size = 1;
  fetch_stopped = λ tick. false;
  stopped = λ tick. false;
  now = 500;
}

scan_ids_spares_example :
    (s : Scan) × (scan_ids scan_env database (31 ∷ 32 ∷ []) true ≡ some s)
    × (active_of 31 s.db ≡ active_of 31 database)
scan_ids_spares_example =
    scan_ids_spares scan_env database (31 ∷ 32 ∷ []) true 31 (omega arith) (inl refl)

paginated_completes_example :
    (fetch_region_ids_paginated answers (λ tick. false) ≡ some expired)
    ⊎ ((seen : List ℕ) × (fetch_region_ids_paginated answers (λ tick. false)
          ≡ some (fetched seen true)))
paginated_completes_example = paginated_completes answers (λ tick. false)

-- Without the paginated fetcher, the one request fails.
abbrev single : Env
single = record scan_env { pages = none }

nothing_fetched : fetch_region_ids single 1 ≡ some (fetched [] true)
unfolding fetch_region_ids fetch_region_ids_single_page
nothing_fetched = refl

row_there : find_row 33 database.lots ≡ some unseen
unfolding find_row columns
row_there = refl
