-- ===== src/Cycle/Broken.antt =====
-- A page that lists a lot which cannot be read.
use gektar_monitor.Prelude.{
  ℕ, ◌+◌, ◌≡◌, refl, ap, sym, subst, ◌∙◌, true, ◌||◌, Option-cases, List, [], ◌∷◌, ◌==◌, length,
  map, if◌then◌else◌, contains, Bool-cases, inl, inr, ==_iff,
}
use gektar_monitor.Domain.{Lot}
use gektar_monitor.Domain.Parsed.{ParsedListPage}
use gektar_monitor.Domain.Failures.{Failure}
use gektar_monitor.Lots.{get, raise}
use gektar_monitor.Lots.{Error as LotError}
use gektar_monitor.Lots.Rows.{Result-cases}
use gektar_monitor.Lots.Total.{unreadable-raises, unreadable-stays}
use gektar_monitor.Cycles.{CycleResult, close_cycle}
use gektar_monitor.Cycles.Laws.{WellFormed}
use gektar_monitor.Cycle.{
  Env, World, Ended, world_of, returned, raised, Running, close_and_announce, close_with_error,
  close_with_unexpected_error,
}
use gektar_monitor.Cycle.Run.{
  broken, on_stored, on_ended, raising, repository_failure, running, store_lots, run_cycle,
}
use gektar_monitor.Cycle.Pending.{store_one, one_stored, store_lots_breaks, store_lots_goes_on}
use gektar_monitor.Cycle.Newcomers.{one_stored-db}
use gektar_monitor.Cycle.Once.{ClosesOnce, run_cycle-ClosesOnce, page_stays}
use gektar_monitor.Cycle.Ids.{row_ids}
use gektar_monitor.Cycle.SameStore.{SameStore, done-SameStore}
use gektar_monitor.Cycle.Success.{before_storing, before_storing-SameStore, reaches_storing, Reads}

-- Step 5 raises at the latest at the lot that cannot be read, which stays so.
pub store_lots-broken :
    (env : Env) (lots : List Lot) (n : ℕ) (w : World) (m : ℕ) (x : LotError)
    → contains m (map (λ (l : Lot). l.id) lots) ≡ true
    → get m w.db ≡ raise x
    → (y : LotError) × (w' : World) × (store_lots env lots n w ≡ broken y w')
      × (get m w'.db ≡ raise x)
store_lots-broken env [] n w m x listed bad = cc listed
store_lots-broken env (lot ∷ lots) n w m x listed bad = elim (Result-cases (store_one env lot w)) [
  | inl (y, e) ↦ (y, w, store_lots_breaks env lot lots n w y e, bad)
  | inr (answer, e) ↦ elim (Bool-cases (m == lot.id)) [
    | inl q ↦
        let here = ap (λ k. get k w.db) (sym ((==_iff m lot.id).0 q)) ∙ bad in
        absurd (cc (e, unreadable-raises lot (env.now w.tick) w.db x here))
    | inr q ↦
        let w1 = one_stored env lot answer w in
        let later : contains m (map (λ (l : Lot). l.id) lots) ≡ true =
          subst (λ b. (b || contains m (map (λ (l : Lot). l.id) lots)) ≡ true) q listed in
        let still =
          ap (get m) (one_stored-db env lot answer w)
          ∙ unreadable-stays lot (env.now w.tick) w.db answer.0 answer.1 m x bad e in
        let (y, w', broke, bad') =
          store_lots-broken env lots (n + (if answer.0.was_new then 1 else 0)) w1 m x later still in
        (y, w', store_lots_goes_on env lot lots n w answer e ∙ broke, bad')
  ]
]

closing-db :
    (env : Env) (r : CycleResult) (w : World) → (world_of (close_and_announce env r w)).db ≡ w.db
unfolding close_and_announce SameStore
closing-db env r w = elim (Option-cases (close_cycle r.id r w.cycles)) [
  | inl q ↦ rw (close_and_announce, q) refl
  | inr (t, q) ↦ rw (close_and_announce, q) ((done-SameStore env r (record w { cycles = t })).0)
]

raising-db :
    (e : Failure) (x : Ended)
    → (f : Failure) × (w : World) × (raising e x ≡ raised f w) × (w.db ≡ (world_of x).db)
raising-db e (returned r w) = (e, w, refl, refl)
raising-db e (raised f w) = (f, w, refl, refl)

-- The exception of the repository leaves the cycle with the tables as they are.
broken-raises :
    (env : Env) (c : Running) (n : ℕ) (y : LotError) (w : World)
    → (f : Failure) × (w' : World) × (on_ended env c (on_stored env c n (broken y w)) ≡ raised f w')
      × (w'.db ≡ w.db)
unfolding on_ended on_stored close_with_error
broken-raises env c n y w =
    let e = repository_failure env y in
    let (f, w', q, same) = raising-db e (close_with_unexpected_error env c e w) in
    (f, w', q, same ∙ closing-db env _ _)

-- If a cycle reads a page that lists a lot which the repository cannot read, then, from a table of
-- cycles in which every id was handed out, `run_cycle` raises an exception that is none of the
-- domain's, behind a row that is closed with `error`, and the lot still cannot be read; so the next
-- cycle that lists it raises as well.
pub run_cycle-broken :
    (env : Env) (region : ℕ) (w : World) (page : ParsedListPage) (m : ℕ) (x : LotError)
    → WellFormed w.cycles
    → Reads env region page
    → contains m (row_ids page.rows) ≡ true
    → get m w.db ≡ raise x
    → (e : Failure) × (w' : World) × (run_cycle env region w ≡ raised e w')
      × ClosesOnce env region w (raised e w')
      × (get m w'.db ≡ raise x)
unfolding run_cycle SameStore
run_cycle-broken env region w page m x well r listed bad =
    let c = running env region w in
    let v = before_storing env region page w in
    let (lots, ids, inner) = reaches_storing env region w r.code page r.got r.direct r.makes_lots in
    let same = before_storing-SameStore env region page w in
    let (y, w1, broke, still) =
      store_lots-broken env lots 0 v m x (ap (contains m) ids ∙ listed) (ap (get m) same.0 ∙ bad) in
    let (e, w', ends, same_db) = broken-raises env c (length lots) y w1 in
    let whole = ap (on_ended env c) (inner ∙ ap (on_stored env c (length lots)) broke) ∙ ends in
    (
      e,
      w',
      whole,
      subst (ClosesOnce env region w) whole (
          run_cycle-ClosesOnce env region w well
            (page_stays env region r.code page r.got r.direct)),
      ap (get m) same_db ∙ still,
    )
