-- ===== src/Cycle/Repeats.antt =====
-- A second cycle over the same lots.
use gektar_monitor.Prelude.{
  ℕ, ◌≡◌, refl, ap, sym, subst, ◌∙◌, Bool, true, false, ◌||◌, List, [], ◌∷◌, ◌==◌, length, map,
  arith, contains, ==_refl,
}
use gektar_monitor.Domain.{Lot}
use gektar_monitor.Domain.Parsed.{ParsedListRow, ParsedListPage}
use gektar_monitor.Lots.Total.{Sound, has_row}
use gektar_monitor.Cycles.Laws.{WellFormed, closed-WellFormed}
use gektar_monitor.Cycle.{Env, World}
use gektar_monitor.Cycle.Closing.{escapes}
use gektar_monitor.Cycle.Once.{ClosesOnce, page_stays, run_cycle-ClosesOnce}
use gektar_monitor.Cycle.Newcomers.{newcomers, dispatch_all}
use gektar_monitor.Cycle.Success.{Reads, Succeeded, run_cycle-Succeeded}
use gektar_monitor.Cycle.Ids.{row_ids}

newcomers-none :
    (known : ℕ → Bool) (lots : List Lot)
    → ((m : ℕ) → contains m (map (λ (l : Lot). l.id) lots) ≡ true → known m ≡ true)
    → newcomers known lots ≡ []
newcomers-none known [] h = refl
newcomers-none known (l ∷ ls) h =
    let old : known l.id ≡ true =
      h l.id (ap (λ b. b || contains l.id (map (λ (l : Lot). l.id) ls)) (==_refl l.id)) in
    rw old (newcomers-none (λ m. m == l.id || known m) ls (λ m e. ground (arith, h m)))

or_left : (a b : Bool) → a ≡ true → (a || b) ≡ true
or_left a b e = ap (λ c. c || b) e

after-WellFormed :
    (env : Env) (region : ℕ) (w : World) (rows : List ParsedListRow)
    → WellFormed w.cycles
    → escapes (env.get region) ≡ false
    → (s : Succeeded env region rows w) → WellFormed s.after.cycles
after-WellFormed env region w rows h stays s =
    let closes =
      subst (ClosesOnce env region w) s.returns (run_cycle-ClosesOnce env region w h stays) in
    subst WellFormed (sym closes.cycles)
      (closed-WellFormed region (env.now w.tick) s.result w.cycles h)

-- If two cycles in a row read pages that list the same lots, from a sound database and a table of
-- cycles in which every id was handed out, then both succeed, and the second counts no new lot and
-- dispatches none.
pub run_cycle-twice :
    (env again : Env) (region : ℕ) (w : World) (page page2 : ParsedListPage)
    → WellFormed w.cycles
    → Sound w.db
    → Reads env region page
    → Reads again region page2
    → row_ids page2.rows ≡ row_ids page.rows
    → (s : Succeeded env region page.rows w) × (t : Succeeded again region page2.rows s.after)
      × (t.result.new_lots ≡ 0)
      × (t.after.dispatcher ≡ s.after.dispatcher)
run_cycle-twice env again region w page page2 well sound r r2 same =
    let s = run_cycle-Succeeded env region w page well sound r in
    let well2 =
      after-WellFormed env region w page.rows well
        (page_stays env region r.code page r.got r.direct) s in
    let t = run_cycle-Succeeded again region s.after page2 well2 s.sound r2 in
    let none_new =
      newcomers-none (has_row s.after.db) t.lots
        (λ m e. s.rows_after m ∙ or_left _ _ (ap (contains m) (sym (t.same_ids ∙ same)) ∙ e)) in
    (
      s,
      t,
      t.new_lots ∙ ap length none_new,
      t.dispatched ∙ ap (λ ls. dispatch_all again.dispatcher ls s.after.dispatcher) none_new,
    )
