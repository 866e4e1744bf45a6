-- ===== src/Backfill/Bounds.antt =====
-- How much of the catalogue a run of the backfill asks for.
use gektar_monitor.Prelude.{
  ℕ, zero, suc, ◌+◌, ◌-◌, ◌≤◌, ◌<◌, ◌≡◌, refl, ap, ◌∙◌, Bool, false, not, ◌&&◌, Option, none, some,
  List, [], ◌∷◌, ◌++◌, leb, ltb, length, length-append, arith, Bool-cases, inl, inr,
}
use gektar_monitor.Domain.{Instant, Lot}
use gektar_monitor.Domain.Parsed.{ParsedListRow}
use gektar_monitor.Lots.{Database, Result, ok, raise, UpsertResult}
use gektar_monitor.Fetcher.{
  session_expired, parse_bug, upstream_error, other_error, Page, page, refused, Response, response,
  failed, Ending, returned, raised, Next, stop, go, on_page as fetcher_page, on_parsed, on_response,
  is_redirect, page_limit, totals_of,
}
use gektar_monitor.Backfill.{Env, World, observed}
use gektar_monitor.Backfill.Region.{
  five_pages, on_upserted, store_row, Consumed, ran_out, broke, consume, on_totals, on_page,
  on_pages, Region, finished, aborted, on_last, on_more, on_next, process_pages, on_aborted,
  handled, process_region,
}

abbrev pub world_of : Region → World
world_of (finished d total w) = w
world_of (aborted e w) = w

abbrev pub consumed_world : Consumed → World
consumed_world (ran_out w) = w
consumed_world (broke d w) = w

-- The fetcher goes on only while the cap on the pages is not reached.
next-below :
    (n walked : ℕ) (halted : Bool) (p q : Page) (rows : List ℕ)
    → fetcher_page five_pages n walked halted p rows ≡ go q
    → walked + 1 < 5
unfolding fetcher_page
next-below n walked halted p q [] e = cc e
next-below n walked halted p q (r ∷ rs) e = elim (Bool-cases (leb 5 (walked + 1))) [
  | inl h ↦ cc (rw h at e)
  | inr h ↦ ground arith
]

go-below :
    (n walked : ℕ) (halted : Bool) (r : Response) (q : Page)
    → on_response five_pages n walked halted r ≡ go q
    → walked + 1 < 5
unfolding on_response on_parsed
go-below n walked halted (failed e) q h = cc h
go-below n walked halted (response status (refused e)) q h =
    elim (Bool-cases (is_redirect status)) [ inl r ↦ cc (rw r at h) | inr r ↦ cc (rw r at h) ]
go-below n walked halted (response status (page p)) q h = elim (Bool-cases (is_redirect status)) [
  | inl r ↦ cc (rw r at h)
  | inr r ↦ next-below n walked halted p q p.rows (rw r at h)
]

on_upserted-requested :
    (env : Env) (lot : Lot) (x : Result (UpsertResult × Database)) (w : World)
    → (on_upserted env lot x w).requested ≡ w.requested
unfolding on_upserted
on_upserted-requested env lot (raise e) w = refl
on_upserted-requested env lot (ok answer) w =
    elim (Bool-cases (answer.0.was_new && not (env.stopped w.tick))) [
      | inl q ↦ rw q refl
      | inr q ↦ rw q refl
    ]

store_row-requested :
    (env : Env) (row : ParsedListRow) (w : World) → (store_row env row w).requested ≡ w.requested
unfolding store_row
store_row-requested env row w = elim (Bool-cases (env.converts row)) [
  | inl q ↦ rw q (on_upserted-requested env _ _ (observed (observed w)))
  | inr q ↦ rw q refl
]

consume-requested :
    (env : Env) (cutoff : Instant) (is : List ℕ) (w : World)
    → (consumed_world (consume env cutoff is w)).requested ≡ w.requested
unfolding consume
consume-requested env cutoff [] w = refl
consume-requested env cutoff (i ∷ is) w =
    let later = consume-requested env cutoff is (store_row env (env.row i) (observed w)) in
    elim (Bool-cases (env.stopped w.tick)) [
      | inl q ↦ rw q refl
      | inr q ↦ elim (Bool-cases (ltb (env.row i).date_create cutoff)) [
        | inl p ↦ rw (q, p) refl
        | inr p ↦ rw (q, p) (later ∙ store_row-requested env (env.row i) (observed w))
      ]
    ]

on_pages-requested :
    (env : Env) (ps : List (ℕ × ℕ)) (w : World) → (on_pages env ps w).requested ≡ w.requested
on_pages-requested env [] w = refl
on_pages-requested env (p ∷ ps) w = refl

-- A result in which `k` more pages than in `w` were asked for, at most.
abbrev AtMost : ℕ → World → Option Region → Type 0
AtMost k w o =
    (r : Region) × (o ≡ some r) × (length (world_of r).requested ≤ length w.requested + k)

last-requested :
    (total : Option ℕ) (ending : Ending) (c : Consumed)
    → (world_of (on_last total ending c)).requested ≡ (consumed_world c).requested
last-requested total returned (ran_out w) = refl
last-requested total (raised e) (ran_out w) = refl
last-requested total ending (broke d w) = refl

more-AtMost :
    (k : ℕ) (w : World) (total : Option ℕ) (c : Consumed) (go_on : World → Option Region)
    → length (consumed_world c).requested ≤ length w.requested + k
    → ((v : World) → c ≡ ran_out v → AtMost k w (go_on v))
    → AtMost k w (on_more total c go_on)
more-AtMost k w total (ran_out v) go_on le on = on v refl
more-AtMost k w total (broke d v) go_on le on = (finished d total v, refl, le)

next-AtMost :
    (env : Env) (cutoff : Instant) (n walked : ℕ) (total : Option ℕ) (w asked : World) (x : Next)
    (go_on : Option ℕ → World → Option Region)
    → length asked.requested ≡ length w.requested + 1
    → walked < 5
    → ((q : Page) → x ≡ go q → walked + 1 < 5)
    → ((first : Option ℕ) (v : World)
        → walked + 1 < 5
        → length v.requested ≡ length w.requested + 1
        → AtMost (5 - walked) w (go_on first v))
    → AtMost (5 - walked) w (on_next env cutoff n total x asked go_on)
unfolding on_next
next-AtMost env cutoff n walked total w asked (stop walk) go_on one lt below on =
    let c = consume env cutoff walk.rows (on_pages env walk.pages asked) in
    let same = ap length (
      last-requested (on_totals total walk.totals) walk.ending c
      ∙ consume-requested env cutoff walk.rows (on_pages env walk.pages asked)
      ∙ on_pages-requested env walk.pages asked) in
    (_, refl, omega (arith, same, one, lt))
next-AtMost env cutoff n walked total w asked (go p) go_on one lt below on =
    let first = on_totals total (totals_of p.total_count) in
    let c = consume env cutoff p.rows (on_page env n asked) in
    let same = ap length (consume-requested env cutoff p.rows (on_page env n asked)) in
    more-AtMost (5 - walked) w first c (go_on first) (omega (arith, same, one, lt)) (λ v e.
      on first v (below p refl)
        (omega (arith, same, one, ap (λ (d : Consumed). length (consumed_world d).requested) e)))

process_pages-AtMost :
    (env : Env) (cutoff : Instant) (fuel n walked k : ℕ) (total : Option ℕ) (w : World)
    → walked < 5
    → 5 - walked < fuel
    → AtMost (5 - walked) w (process_pages env cutoff fuel n walked k total w)
unfolding process_pages
process_pages-AtMost env cutoff zero n walked k total w lt f = absurd (omega (arith, f))
process_pages-AtMost env cutoff (suc fuel) n walked k total w lt f =
    let asked = record w { requested = w.requested ++ n ∷ [] } in
    let x = on_response five_pages n walked (env.halted (k + 1)) (env.get n) in
    elim (Bool-cases (env.halted k)) [
      | inl q ↦ rw q (finished false total w, refl, omega arith)
      | inr q ↦ elim (Bool-cases (ltb page_limit n)) [
        | inl p ↦ rw (q, p) (finished false total w, refl, omega arith)
        | inr p ↦
            rw (q, p)
              (next-AtMost env cutoff n walked total w asked x
                (λ first v. process_pages env cutoff fuel (n + 1) (walked + 1) (k + 2) first v)
                (length-append w.requested (n ∷ [])) lt
                (λ g e. go-below n walked (env.halted (k + 1)) (env.get n) g e)
                (λ first v small one.
                  let (r, e, le) =
                    process_pages-AtMost env cutoff fuel (n + 1) (walked + 1) (k + 2) first v small
                      (omega (arith, f, lt)) in
                  (r, e, omega (arith, le, one, small))))
      ]
    ]

aborted-requested :
    (env : Env) (r : Region) → (world_of (on_aborted env r)).requested ≡ (world_of r).requested
aborted-requested env (finished d total w) = refl
aborted-requested env (aborted session_expired w) = refl
aborted-requested env (aborted parse_bug w) = refl
aborted-requested env (aborted upstream_error w) = refl
aborted-requested env (aborted other_error w) = refl

-- Whatever the site answers and whenever it is stopped, `_process_region` ends, and asks for at
-- most five pages.
pub process_region-bounded :
    (env : Env) (region : ℕ) (cutoff : Instant) (w : World)
    → (r : Region) × (process_region env region cutoff w ≡ some r)
      × (length (world_of r).requested ≤ length w.requested + 5)
unfolding process_region
process_region-bounded env region cutoff w =
    let begun = record w {
      progress = record w.progress { current_region = some region; current_page = none };
    } in
    let (r, e, le) =
      process_pages-AtMost env cutoff 6 1 0 0 none begun (omega arith) (omega arith) in
    (on_aborted env r, ap (handled env) e, omega (arith, le, ap length (aborted-requested env r)))
