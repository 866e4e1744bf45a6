-- ===== src/Backfill/Window.antt =====
-- What a run of the backfill writes.
use gektar_monitor.Prelude.{
  ℕ, zero, suc, ◌+◌, ◌≡◌, ◌≢◌, refl, sym, ◌∙◌, true, false, not, ◌&&◌, Option, none, some, List, [],
  ◌∷◌, ◌++◌, ltb, Bool-cases, inl, inr,
}
use gektar_monitor.Domain.{Instant, Lot}
use gektar_monitor.Domain.Regions.{subject_id_by_title}
use gektar_monitor.Domain.Parsed.{parsed_row_to_lot}
use gektar_monitor.Diff.{default_tracked_fields}
use gektar_monitor.Lots.{Database, Result, ok, raise, UpsertResult, upsert, find_row}
use gektar_monitor.Lots.Upsert.{upsert-other}
use gektar_monitor.Fetcher.{
  session_expired, parse_bug, upstream_error, other_error, Ending, returned, raised, Next, stop, go,
  page_limit, totals_of,
}
use gektar_monitor.Backfill.{Env, World, observed}
use gektar_monitor.Backfill.Region.{
  max_pages, on_upserted, store_row, Consumed, ran_out, broke, consume, on_totals, on_page,
  on_pages, Region, finished, aborted, on_last, on_more, on_next, process_pages, handled,
  process_region,
}
use gektar_monitor.Backfill.Bounds.{world_of, consumed_world}

-- Each row of lot `m` is older than the window.
abbrev pub IsOld : Env → Instant → ℕ → Type 0
IsOld env cutoff m = (i : ℕ) → (env.row i).id ≡ m → ltb (env.row i).date_create cutoff ≡ true

module _ (env : Env) (cutoff : Instant) (m : ℕ) (old : IsOld env cutoff m) where
  abbrev pub Same : World → World → Type 0
  Same w w' = find_row m w'.db.lots ≡ find_row m w.db.lots

  upserted-Same :
      (lot : Lot) (now : Instant) (w : World) (x : Result (UpsertResult × Database))
      → upsert lot default_tracked_fields true now w.db ≡ x
      → m ≢ lot.id
      → Same w (on_upserted env lot x w)
  unfolding on_upserted
  upserted-Same lot now w (raise e) q ne = refl
  upserted-Same lot now w (ok answer) q ne =
      let kept = upsert-other lot default_tracked_fields true now w.db answer.0 answer.1 m q ne in
      elim (Bool-cases (answer.0.was_new && not (env.stopped w.tick))) [
        | inl p ↦ rw p kept
        | inr p ↦ rw p kept
      ]

  store_row-Same :
      (i : ℕ) (w : World)
      → ltb (env.row i).date_create cutoff ≡ false
      → Same w (store_row env (env.row i) w)
  unfolding store_row parsed_row_to_lot
  store_row-Same i w young =
      let row = env.row i in
      let lot = parsed_row_to_lot row (env.now w.tick) (subject_id_by_title row.region) in
      let ne : m ≢ row.id = λ e. cc (young, old i (sym e)) in
      elim (Bool-cases (env.converts row)) [
        | inl q ↦ rw q (upserted-Same lot (env.now (w.tick + 1)) (observed (observed w)) _ refl ne)
        | inr q ↦ rw q refl
      ]

  consume-Same : (is : List ℕ) (w : World) → Same w (consumed_world (consume env cutoff is w))
  unfolding consume
  consume-Same [] w = refl
  consume-Same (i ∷ is) w =
      let later = consume-Same is (store_row env (env.row i) (observed w)) in
      elim (Bool-cases (env.stopped w.tick)) [
        | inl q ↦ rw q refl
        | inr q ↦ elim (Bool-cases (ltb (env.row i).date_create cutoff)) [
          | inl p ↦ rw (q, p) refl
          | inr p ↦ rw (q, p) (later ∙ store_row-Same i (observed w) p)
        ]
      ]

  abbrev pub Keeps : World → Option Region → Type 0
  Keeps w none = Unit
  Keeps w (some r) = Same w (world_of r)

  last-Same :
      (w : World) (total : Option ℕ) (ending : Ending) (c : Consumed)
      → Same w (consumed_world c)
      → Same w (world_of (on_last total ending c))
  last-Same w total returned (ran_out v) h = h
  last-Same w total (raised e) (ran_out v) h = h
  last-Same w total ending (broke d v) h = h

  more-Keeps :
      (w : World) (total : Option ℕ) (c : Consumed) (go_on : World → Option Region)
      → Same w (consumed_world c)
      → ((v : World) → Same w v → Keeps w (go_on v))
      → Keeps w (on_more total c go_on)
  more-Keeps w total (ran_out v) go_on h on = on v h
  more-Keeps w total (broke d v) go_on h on = h

  pages-Same : (ps : List (ℕ × ℕ)) (w : World) → Same w (on_pages env ps w)
  pages-Same [] w = refl
  pages-Same (p ∷ ps) w = refl

  next-Keeps :
      (n : ℕ) (total : Option ℕ) (w asked : World) (x : Next)
      (go_on : Option ℕ → World → Option Region)
      → Same w asked
      → ((first : Option ℕ) (v : World) → Same w v → Keeps w (go_on first v))
      → Keeps w (on_next env cutoff n total x asked go_on)
  unfolding on_next
  next-Keeps n total w asked (stop walk) go_on h on =
      last-Same w (on_totals total walk.totals) walk.ending
        (consume env cutoff walk.rows (on_pages env walk.pages asked))
        (consume-Same walk.rows (on_pages env walk.pages asked) ∙ pages-Same walk.pages asked ∙ h)
  next-Keeps n total w asked (go p) go_on h on =
      let first = on_totals total (totals_of p.total_count) in
      more-Keeps w first (consume env cutoff p.rows (on_page env n asked)) (go_on first)
        (consume-Same p.rows (on_page env n asked) ∙ h) (on first)

  from_here : (w v : World) (o : Option Region) → Same w v → Keeps v o → Keeps w o
  from_here w v none h k = tt
  from_here w v (some r) h k = k ∙ h

  process_pages-Keeps :
      (fuel n walked k : ℕ) (total : Option ℕ) (w : World)
      → Keeps w (process_pages env cutoff fuel n walked k total w)
  unfolding process_pages
  process_pages-Keeps zero n walked k total w = tt
  process_pages-Keeps (suc fuel) n walked k total w = elim (Bool-cases (env.halted k)) [
    | inl q ↦ rw q refl
    | inr q ↦ elim (Bool-cases (ltb page_limit n)) [
      | inl p ↦ rw (q, p) refl
      | inr p ↦
          rw (q, p)
            (next-Keeps n total w (record w { requested = w.requested ++ n ∷ [] }) _
              (λ first v. process_pages env cutoff fuel (n + 1) (walked + 1) (k + 2) first v) refl
              (λ first v h.
                from_here w v _ h (process_pages-Keeps fuel (n + 1) (walked + 1) (k + 2) first v)))
    ]
  ]

  handled-Keeps : (w : World) (o : Option Region) → Keeps w o → Keeps w (handled env o)
  handled-Keeps w none h = tt
  handled-Keeps w (some (finished d total v)) h = h
  handled-Keeps w (some (aborted session_expired v)) h = h
  handled-Keeps w (some (aborted parse_bug v)) h = h
  handled-Keeps w (some (aborted upstream_error v)) h = h
  handled-Keeps w (some (aborted other_error v)) h = h

  pub process_region-Keeps : (region : ℕ) (w : World) → Keeps w (process_region env region cutoff w)
  unfolding process_region
  process_region-Keeps region w =
      let v = record w {
        progress = record w.progress { current_region = some region; current_page = none };
      } in
      handled-Keeps w (process_pages env cutoff (max_pages + 1) 1 0 0 none v) (
        from_here w v (process_pages env cutoff (max_pages + 1) 1 0 0 none v) refl
          (process_pages-Keeps (max_pages + 1) 1 0 0 none v))
