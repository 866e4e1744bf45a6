-- ===== src/Cycle/Success.antt =====
-- A cycle whose page was read, on a sound database.
use gektar_monitor.Prelude.{
  ℕ, ◌+◌, ◌≡◌, refl, ap, sym, subst, ◌∙◌, true, false, ◌||◌, ◌&&◌, leb, ltb, none, List, length,
  map, arith, contains, All,
}
use gektar_monitor.Domain.{Lot}
use gektar_monitor.Domain.Parsed.{ParsedListRow, ParsedListPage}
use gektar_monitor.Lots.Total.{Sound, has_row}
use gektar_monitor.Enrichment.{enrich_lots}
use gektar_monitor.Cycles.{CycleStatus, CycleResult}
use gektar_monitor.Cycles.Laws.{WellFormed}
use gektar_monitor.Cycle.{
  Env, parsed, response, World, returned, observed, publish_checking_status, Running, result_of,
}
use gektar_monitor.Cycle.Run.{
  check_delta, converted, convert, enriched_or, store_lots, set_progress, clear_progress, on_stored,
  on_converted, on_page, on_parsed, on_fetched, run_cycle_inner, on_ended, running, opening,
  run_cycle,
}
use gektar_monitor.Cycle.Pending.{
  Pending, dones, store_lots-Pending, StoredPending, publish_checking-Pending, check_delta-Pending,
}
use gektar_monitor.Cycle.Closing.{closing-returns}
use gektar_monitor.Cycle.Once.{can_close, opening-Pending, opened_cycles}
use gektar_monitor.Cycle.Newcomers.{newcomers, dispatch_all, Stores, store_lots-Stores}
use gektar_monitor.Cycle.SameStore.{
  SameStore, checking-SameStore, delta-SameStore, done-SameStore, opening-SameStore,
  trans-SameStore,
}
use gektar_monitor.Cycle.Ids.{
  lot_ids, row_ids, converted_ids, enriched_ids, length-ids, length-row_ids,
}

-- The page of a cycle was read, and each of its rows makes a lot.
pub record Reads (env : Env) (region : ℕ) (page : ParsedListPage) : Type 0 where
  pub code : ℕ
  pub got : env.get region ≡ response code (parsed page)
  pub direct : leb 300 code && ltb code 400 ≡ false
  pub makes_lots : All (λ row. env.converts row ≡ true) page.rows

-- The cycle succeeded: `lots` are the lots of the page as the enrichment left them.
pub record Succeeded (env : Env) (region : ℕ) (rows : List ParsedListRow) (w : World) : Type 0 where
  pub lots : List Lot
  pub result : CycleResult
  pub after : World
  pub same_ids : map (λ (l : Lot). l.id) lots ≡ row_ids rows
  pub returns : run_cycle env region w ≡ returned result after
  pub status : result.status ≡ CycleStatus.ok
  pub lots_fetched : result.lots_fetched ≡ length rows
  pub new_lots : result.new_lots ≡ length (newcomers (has_row w.db) lots)
  pub dispatched :
      after.dispatcher ≡ dispatch_all env.dispatcher (newcomers (has_row w.db) lots) w.dispatcher
  pub sound : Sound after.db
  pub rows_after : (m : ℕ) → has_row after.db m ≡ (contains m (row_ids rows) || has_row w.db m)

-- The lots of the page behind the enrichment, and what is left of the cycle.
module _ (env : Env) (region : ℕ) (w : World) (well : WellFormed w.cycles) where
  -- From steps 4 on.
  stored_lem :
      (lots : List Lot) (v : World)
      → Sound v.db
      → SameStore w v
      → Pending (opened_cycles env region w) (dones w.bus) v
      → (k : ℕ) × (after : World) × (on_stored env
            (running env region w)
            (length lots)
            (store_lots env lots 0 v)
          ≡ returned
              (result_of
                (running env region w)
                (env.now k)
                CycleStatus.ok
                (length lots)
                (0 + length (newcomers (has_row w.db) lots))
                none)
              after)
        × Stores env (has_row w.db) lots w after
  unfolding on_stored SameStore
  stored_lem lots v sound same pending =
      let known = has_row w.db in
      let c = running env region w in
      let (v2, q, s) =
        store_lots-Stores env known lots 0 v sound (λ m. ap (λ d. has_row d m) same.0) in
      let pending2 =
        subst (StoredPending _ _) q
          (store_lots-Pending (opened_cycles env region w) (dones w.bus) env lots 0 v pending) in
      let (w', closes, _, (t', at_end)) =
        closing-returns _ _ c env
          (result_of c (env.now v2.tick) CycleStatus.ok (length lots)
            (0 + length (newcomers known lots)) none)
          (observed v2) (can_close env region w well) refl pending2 in
      let (at_db, at_dispatcher) =
        done-SameStore env
          (result_of c (env.now v2.tick) CycleStatus.ok (length lots)
            (0 + length (newcomers known lots)) none)
          (record (observed v2) { cycles = t' }) in
      let db_after = ap (λ (x : World). x.db) at_end ∙ at_db in
      (
        v2.tick,
        w',
        ap (on_stored env c (length lots)) q ∙ closes,
        record {
          sound = subst Sound (sym db_after) s.sound;
          dispatched =
              ap (λ (x : World). x.dispatcher) at_end
              ∙ at_dispatcher
              ∙ s.dispatched
              ∙ ap (dispatch_all env.dispatcher (newcomers known lots)) same.1;
          rows = λ m. ap (λ d. has_row d m) db_after ∙ s.rows m;
        },
      )

-- The state in which the rows of the page are stored.
unfoldable pub before_storing : Env → ℕ → ParsedListPage → World → World
before_storing env region page w =
    let w2 = clear_progress (set_progress (publish_checking_status env (opening env region w))) in
    clear_progress
      (set_progress (observed (check_delta env region (length page.rows) page.total_count w2)))

pub before_storing-SameStore :
    (env : Env) (region : ℕ) (page : ParsedListPage) (w : World)
    → SameStore w (before_storing env region page w)
unfolding before_storing SameStore
before_storing-SameStore env region page w =
    let w1 = opening env region w in
    let w2 = clear_progress (set_progress (publish_checking_status env w1)) in
    let w4 = before_storing env region page w in
    trans-SameStore w w1 w4 (opening-SameStore env region w) (
      trans-SameStore w1 w2 w4 (checking-SameStore env w1)
        (delta-SameStore env region (length page.rows) page.total_count w2))

before_storing-Pending :
    (env : Env) (region : ℕ) (page : ParsedListPage) (w : World)
    → Pending (opened_cycles env region w) (dones w.bus) (before_storing env region page w)
unfolding before_storing
before_storing-Pending env region page w =
    let w1 = opening env region w in
    check_delta-Pending _ _ env region (length page.rows) page.total_count
      (clear_progress (set_progress (publish_checking_status env w1)))
      (publish_checking-Pending _ _ env w1 (opening-Pending env region w))

module _ (env : Env) (c : Running) (page : ParsedListPage) (v : World) where
  on_fetched_page :
      (code : ℕ)
      → leb 300 code && ltb code 400 ≡ false
      → on_fetched env c (response code (parsed page)) v ≡ on_page env c page v
  unfolding on_fetched on_parsed
  on_fetched_page code direct = rw (on_fetched, direct) refl

  on_page_stores :
      (lots : List Lot)
      → (let w3 = check_delta env c.region (length page.rows) page.total_count v in
          convert env.converts (env.now w3.tick) 0 page.rows ≡ converted lots)
      → (let w3 = check_delta env c.region (length page.rows) page.total_count v in
          let enriched = enriched_or lots (enrich_lots env.enrichment lots) in
          on_page env c page v
          ≡ on_stored env c
              (length enriched)
              (store_lots env enriched 0 (clear_progress (set_progress (observed w3)))))
  unfolding on_page on_converted
  on_page_stores lots q =
      let w3 = check_delta env c.region (length page.rows) page.total_count v in
      ap (λ x. on_converted env c x (observed w3)) q

-- What the cycle computes once the page was read.
pub reaches_storing :
    (env : Env) (region : ℕ) (w : World) (code : ℕ) (page : ParsedListPage)
    → env.get region ≡ response code (parsed page)
    → leb 300 code && ltb code 400 ≡ false
    → All (λ row. env.converts row ≡ true) page.rows
    → (lots : List Lot) × (lot_ids lots ≡ row_ids page.rows)
      × (run_cycle_inner env (running env region w) (opening env region w)
          ≡ on_stored env
              (running env region w)
              (length lots)
              (store_lots env lots 0 (before_storing env region page w)))
unfolding run_cycle_inner before_storing
reaches_storing env region w code page got direct all =
    let c = running env region w in
    let v = clear_progress (set_progress (publish_checking_status env (opening env region w))) in
    let w3 = check_delta env region (length page.rows) page.total_count v in
    let (lots, q, ids) = converted_ids env.converts (env.now w3.tick) 0 page.rows all in
    (
      enriched_or lots (enrich_lots env.enrichment lots),
      enriched_ids env.enrichment lots ∙ ids,
      ap (λ a. on_fetched env c a v) got
          ∙ on_fetched_page env c page v code direct
          ∙ on_page_stores env c page v lots q,
    )

-- If the page is read and each of its rows makes a lot, then a cycle on a sound database, with a
-- table of cycles in which every id was handed out, returns with the status `ok`; it has dispatched
-- exactly the lots that had no row, each once and in the order of the page, and counted them; the
-- database is sound again, and exactly the lots of the page have rows in addition to those before.
pub run_cycle-Succeeded :
    (env : Env) (region : ℕ) (w : World) (page : ParsedListPage)
    → WellFormed w.cycles
    → Sound w.db
    → Reads env region page
    → Succeeded env region page.rows w
unfolding run_cycle SameStore
run_cycle-Succeeded env region w page well sound r =
    let (lots, ids, inner) = reaches_storing env region w r.code page r.got r.direct r.makes_lots in
    let same = before_storing-SameStore env region page w in
    let (k, after, ends, s) =
      stored_lem env region w well lots (before_storing env region page w)
        (subst Sound (sym same.0) sound) same (before_storing-Pending env region page w) in
    record {
      lots = lots;
      result =
          result_of (running env region w) (env.now k) CycleStatus.ok (length lots)
            (0 + length (newcomers (has_row w.db) lots)) none;
      after = after;
      same_ids = ids;
      returns = ap (on_ended env (running env region w)) (inner ∙ ends) ∙ unfold on_ended in refl;
      status = refl;
      lots_fetched = sym (length-ids lots) ∙ ap length ids ∙ length-row_ids page.rows;
      new_lots = omega arith;
      dispatched = s.dispatched;
      sound = s.sound;
      rows_after = λ m. s.rows m ∙ ap (λ ns. contains m ns || has_row w.db m) ids;
    }
