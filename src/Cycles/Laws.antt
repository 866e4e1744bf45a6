-- ===== src/Cycles/Laws.antt =====
-- The table of cycles under `open` and `close`.
use gektar_monitor.Prelude.{
  ℕ, ◌+◌, ◌<◌, ◌≤◌, ◌≡◌, refl, none, some, List, [], ◌∷◌, ◌++◌, arith, ==_refl, All,
}
use gektar_monitor.Domain.{Instant}
use gektar_monitor.Cycles.{
  CycleResult, CycleRow, Cycles, opened, closed, open_cycle, close_cycle, find_cycle, update_cycle,
}

-- Every id was handed out.
abbrev pub WellFormed : Cycles → Type 0
WellFormed t = All (λ (r : CycleRow). r.id < t.next_id) t.rows

abbrev Below : ℕ → List CycleRow → Type 0
Below n = All (λ (r : CycleRow). r.id < n)

Below-append :
    (n k : ℕ) (rows : List CycleRow) (row : CycleRow)
    → n ≤ k
    → row.id < k
    → Below n rows
    → Below k (rows ++ row ∷ [])
Below-append n k [] row le lt h = (lt, tt)
Below-append n k (r ∷ rs) row le lt h = (omega (arith, h.0, le), Below-append n k rs row le lt h.1)

pub open-WellFormed :
    (region : ℕ) (at_time : Instant) (t : Cycles)
    → WellFormed t
    → WellFormed (open_cycle region at_time t).1
unfolding open_cycle
open-WellFormed region at_time t h =
    Below-append t.next_id (t.next_id + 1) t.rows (opened t.next_id region at_time) (omega arith)
      (omega arith) h

find-append :
    (n : ℕ) (rows : List CycleRow) (row : CycleRow)
    → Below n rows
    → row.id ≡ n
    → find_cycle n (rows ++ row ∷ []) ≡ some row
unfolding find_cycle
find-append n [] row h e = ground (arith, ==_refl n)
find-append n (r ∷ rs) row h e = ground (arith, find-append n rs row h.1 e)

find-absent : (n : ℕ) (rows : List CycleRow) → Below n rows → find_cycle n rows ≡ none
unfolding find_cycle
find-absent n [] h = refl
find-absent n (r ∷ rs) h = ground (arith, find-absent n rs h.1)

update-append :
    (n : ℕ) (rows : List CycleRow) (row : CycleRow) (result : CycleResult)
    → Below n rows
    → row.id ≡ n
    → update_cycle n result (rows ++ row ∷ []) ≡ rows ++ closed result row ∷ []
unfolding update_cycle
update-append n [] row result h e = ground (arith, ==_refl n)
update-append n (r ∷ rs) row result h e = ground (arith, update-append n rs row result h.1 e)

-- A row that was opened and then closed is the last row, and the others are as they were.
pub close-open :
    (region : ℕ) (at_time : Instant) (result : CycleResult) (t : Cycles)
    → WellFormed t
    → close_cycle t.next_id result (open_cycle region at_time t).1
      ≡ some (record {
        rows = t.rows ++ closed result (opened t.next_id region at_time) ∷ [];
        next_id = t.next_id + 1;
      })
unfolding close_cycle open_cycle
close-open region at_time result t h =
    let row = opened t.next_id region at_time in
    rw
      (
        close_cycle,
        open_cycle,
        find-append t.next_id t.rows row h refl,
        update-append t.next_id t.rows row result h refl,
      )
      refl

-- The table behind a cycle that was closed.
pub closed-WellFormed :
    (region : ℕ) (at_time : Instant) (result : CycleResult) (t : Cycles)
    → WellFormed t
    → WellFormed (record {
      rows = t.rows ++ closed result (opened t.next_id region at_time) ∷ [];
      next_id = t.next_id + 1;
    })
closed-WellFormed region at_time result t h =
    Below-append t.next_id (t.next_id + 1) t.rows _ (omega arith) (omega arith) h
