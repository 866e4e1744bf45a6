-- ===== src/Cycle/Once.antt =====
-- `run_cycle` as a whole: one row and one `cycle.done`.
use mathlib.Core.List.{append-nil}
use gektar_monitor.Prelude.{
  ℕ, ◌+◌, ◌≡◌, refl, ap, sym, subst, ◌∙◌, true, false, not, none, List, [], ◌∷◌, ◌++◌, leb, ltb,
  ◌&&◌, Bool-cases, inl, inr,
}
use gektar_monitor.Domain.{internal_error}
use gektar_monitor.Domain.Parsed.{ParsedListPage}
use gektar_monitor.Domain.Failures.{
  Failure, Kind, upstream, is_upstream, is_version_mismatch, parse_bug, parser_version_mismatch,
  other,
}
use gektar_monitor.Cycles.{
  CycleStatus, still_open, CycleResult, Cycles, opened, closed, open_cycle, close_cycle,
}
use gektar_monitor.Cycles.Laws.{WellFormed, close-open}
use gektar_monitor.Cycle.{
  Env, Parsed, parsed, refused, Fetched, response, failed, monitor_status, error, Summary,
  summary_of, World, Ended, returned, raised, observed, publish_checking_status, Running,
}
use gektar_monitor.Cycle.Run.{
  on_parsed, on_fetched, run_cycle_inner, is_domain_error, set_progress, clear_progress,
  guard_terminal, on_ended, running, opening, run_cycle,
}
use gektar_monitor.Cycle.Pending.{
  dones, dones-append, Pending, publish-Pending, publish_checking-Pending,
}
use gektar_monitor.Cycle.Closing.{
  parser_escapes, escapes, CanClose, Inner, error-returns, on_fetched-Inner,
}

-- From `w` to `w'` one cycle with the result `r` has come and gone: its row is the last one and
-- closed with the result, the other rows are as they were, and one `cycle.done` was published, with
-- what the result says.
pub record Closes (env : Env) (region : ℕ) (w : World) (r : CycleResult) (w' : World) : Type 0 where
  pub id : r.id ≡ w.cycles.next_id
  pub cycles : w'.cycles ≡ record {
    rows = w.cycles.rows ++ closed r (opened w.cycles.next_id region (env.now w.tick)) ∷ [];
    next_id = w.cycles.next_id + 1;
  }
  pub done : dones w'.bus ≡ dones w.bus ++ summary_of r ∷ []

-- Whether the method returns or raises.
abbrev pub ClosesOnce : Env → ℕ → World → Ended → Type 0
ClosesOnce env region w (returned r w') = Closes env region w r w'
ClosesOnce env region w (raised e w') =
    (r : CycleResult) × Closes env region w r w'
    × (r.status ≡ CycleStatus.error)
    × (is_domain_error e.kind ≡ false)

unfoldable pub opened_cycles : Env → ℕ → World → Cycles
opened_cycles env region w = (open_cycle region (env.now w.tick) w.cycles).1

pub can_close :
    (env : Env) (region : ℕ) (w : World)
    → WellFormed w.cycles
    → CanClose (opened_cycles env region w) (dones w.bus) (running env region w)
unfolding opened_cycles
can_close env region w h r same = (
  _,
  ap (λ n. close_cycle n r (open_cycle region (env.now w.tick) w.cycles).1) same
      ∙ close-open region (env.now w.tick) r w.cycles h,
)

pub opening-Pending :
    (env : Env) (region : ℕ) (w : World)
    → Pending (opened_cycles env region w) (dones w.bus) (opening env region w)
unfolding opening opened_cycles open_cycle
opening-Pending env region w = (refl, dones-append w.bus _ ∙ append-nil (dones w.bus))

Inner-Closes :
    (env : Env) (region : ℕ) (w : World) (r : CycleResult) (w' : World)
    → WellFormed w.cycles
    → Inner (opened_cycles env region w) (dones w.bus) (running env region w) (returned r w')
    → Closes env region w r w'
unfolding opened_cycles
Inner-Closes env region w r w' h (same, shut, done) =
    let known =
      ap (λ n. close_cycle n r (open_cycle region (env.now w.tick) w.cycles).1) same
      ∙ close-open region (env.now w.tick) r w.cycles h in
    record { id = same; cycles = cc (shut, known); done = done }

on_ended-ClosesOnce :
    (env : Env) (region : ℕ) (w : World) (x : Ended)
    → WellFormed w.cycles
    → Inner (opened_cycles env region w) (dones w.bus) (running env region w) x
    → ClosesOnce env region w (on_ended env (running env region w) x)
unfolding on_ended
on_ended-ClosesOnce env region w (returned r w') h inner = Inner-Closes env region w r w' h inner
on_ended-ClosesOnce env region w (raised e w') h (pending, stays) =
    let (r, w2, q, inner, err) =
      error-returns _ _ internal_error env (running env region w) e w' (can_close env region w h)
        pending in
    rw (on_ended, stays, q) (r, Inner-Closes env region w r w2 h inner, err, stays)

-- A page that was read, without a redirect, stays in the inner part.
pub page_stays :
    (env : Env) (region code : ℕ) (page : ParsedListPage)
    → env.get region ≡ response code (parsed page)
    → leb 300 code && ltb code 400 ≡ false
    → escapes (env.get region) ≡ false
page_stays env region code page got direct = ap escapes got ∙ rw direct refl

-- Unless the request raises a ParseBugError, a ParserVersionMismatch or a SessionExpiredError, or
-- the parser a ParserVersionMismatch: from a table of cycles in which every id was handed out,
-- every cycle ends with its own row closed and exactly one `cycle.done`, both with the same result,
-- whether it returns this result or raises; it raises only exceptions that are not the domain's,
-- and then the result says `error`.
pub run_cycle-ClosesOnce :
    (env : Env) (region : ℕ) (w : World)
    → WellFormed w.cycles
    → escapes (env.get region) ≡ false
    → ClosesOnce env region w (run_cycle env region w)
unfolding run_cycle run_cycle_inner
run_cycle-ClosesOnce env region w h stays =
    let c = running env region w in
    on_ended-ClosesOnce env region w _ h (
      on_fetched-Inner _ _ env c (env.get region) _ stays (can_close env region w h)
        (publish_checking-Pending _ _ env (opening env region w) (opening-Pending env region w)))

guard_terminal-Pending :
    (t : Cycles) (ds : List Summary) (env : Env) (w : World)
    → Pending t ds w
    → Pending t ds (guard_terminal env w)
guard_terminal-Pending t ds env w h = elim (Bool-cases w.terminal_status_published) [
  | inl e ↦ rw e h
  | inr e ↦
      rw e (publish-Pending t ds (monitor_status (env.now w.tick) error 0 none) (observed w) refl h)
]

-- What the request or the parser raised.
pub data Raises (e : Failure) : Fetched → Type 0 where
  by_request : Raises e (failed e)
  by_parser : (code : ℕ) → Raises e (response code (refused e))

-- The exception of the request or the parser goes on, the one new row stays open, and there is no
-- `cycle.done`.
abbrev pub StaysOpen : Env → ℕ → World → Ended → Type 0
StaysOpen env region w (returned r w') = ⊥
StaysOpen env region w (raised e w') =
    Raises e (env.get region)
    × (w'.cycles ≡ record {
      rows =
          w.cycles.rows
          ++ record {
            id = w.cycles.next_id;
            region = region;
            started_at = env.now w.tick;
            finished_at = none;
            status = still_open;
            lots_fetched = 0;
            new_lots = 0;
            error = none;
          }
            ∷ [];
      next_id = w.cycles.next_id + 1;
    })
    × (dones w'.bus ≡ dones w.bus)

escaping :
    (env : Env) (region : ℕ) (w w1 : World) (e : Failure)
    → is_domain_error e.kind ≡ true
    → Raises e (env.get region)
    → Pending (opened_cycles env region w) (dones w.bus) w1
    → StaysOpen env region w (on_ended env (running env region w) (raised e w1))
unfolding on_ended opened_cycles open_cycle
escaping env region w w1 e domain from h =
    let (same_rows, same_dones) = guard_terminal-Pending _ _ env w1 h in
    rw (on_ended, domain) (from, same_rows, same_dones)

-- Such an answer is handed on as it is.
module _ (env : Env) (c : Running) (w : World) where
  Leaves : Fetched → Ended → Type 0
  Leaves a x = (e : Failure) × (x ≡ raised e w) × (is_domain_error e.kind ≡ true) × Raises e a

  parser-Leaves :
      (code : ℕ) (p : Parsed)
      → parser_escapes p ≡ true
      → Leaves (response code p) (on_parsed env c p w)
  unfolding Leaves on_parsed
  parser-Leaves code (parsed page) leaves = cc leaves
  parser-Leaves code (refused e) leaves = by_kind e.kind e refl leaves
    where
      by_kind :
          (k : Kind) (f : Failure)
          → f.kind ≡ k
          → is_version_mismatch k ≡ true
          → Leaves (response code (refused f)) (on_parsed env c (refused f) w)
      by_kind parser_version_mismatch f q leaves =
          (f, simp (on_parsed, q), ap is_domain_error q, by_parser code)
      by_kind (upstream s) f q leaves = cc leaves
      by_kind Kind.session_expired f q leaves = cc leaves
      by_kind parse_bug f q leaves = cc leaves
      by_kind other f q leaves = cc leaves

  fetched-Leaves : (a : Fetched) → escapes a ≡ true → Leaves a (on_fetched env c a w)
  unfolding Leaves on_fetched
  fetched-Leaves (failed e) leaves = by_kind e.kind e refl leaves
    where
      by_kind :
          (k : Kind) (f : Failure)
          → f.kind ≡ k
          → is_domain_error k && not (is_upstream k) ≡ true
          → Leaves (failed f) (on_fetched env c (failed f) w)
      by_kind (upstream s) f q leaves = cc leaves
      by_kind Kind.session_expired f q leaves =
          (f, simp (on_fetched, q), ap is_domain_error q, by_request)
      by_kind parse_bug f q leaves = (f, simp (on_fetched, q), ap is_domain_error q, by_request)
      by_kind parser_version_mismatch f q leaves =
          (f, simp (on_fetched, q), ap is_domain_error q, by_request)
      by_kind other f q leaves = cc leaves
  fetched-Leaves (response code p) leaves = elim (Bool-cases (leb 300 code && ltb code 400)) [
    | inl q ↦ cc (subst (λ b. not b && parser_escapes p ≡ true) q leaves)
    | inr q ↦
        rw (on_fetched, q)
          (parser-Leaves code p (subst (λ b. not b && parser_escapes p ≡ true) q leaves))
  ]

-- If the request raises a ParseBugError, a ParserVersionMismatch or a SessionExpiredError, or the
-- parser of an answer that is no redirect a ParserVersionMismatch, then this exception leaves
-- `run_cycle`, the cycle has left one new row, which is still open and has neither an end nor counts,
-- and no `cycle.done` is published.
pub run_cycle-StaysOpen :
    (env : Env) (region : ℕ) (w : World)
    → escapes (env.get region) ≡ true
    → StaysOpen env region w (run_cycle env region w)
unfolding run_cycle run_cycle_inner Leaves
run_cycle-StaysOpen env region w leaves =
    let c = running env region w in
    let w1 = clear_progress (set_progress (publish_checking_status env (opening env region w))) in
    let (e, q, domain, from) = fetched-Leaves env c w1 (env.get region) leaves in
    subst (λ x. StaysOpen env region w (on_ended env c x)) (sym q)
      (escaping env region w w1 e domain from
        (publish_checking-Pending _ _ env (opening env region w) (opening-Pending env region w)))
