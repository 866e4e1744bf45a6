-- ===== src/Backfill/Trigger.antt =====
-- `start`, `maybe_start`, `cancel` and `status` of src/fis_monitor/services/backfill.py. A start that
-- succeeds makes a thread, whose work is `worker`; one decision is taken under the lock.
use gektar_monitor.Prelude.{
  ℕ, ◌+◌, ◌-◌, ◌<◌, ◌≡◌, ◌↔◌, refl, sym, subst, Bool, true, false, Option, none, some, List, leb,
  ltb, if◌then◌else◌, arith, Bool-cases, inl, inr,
}
use gektar_monitor.Backfill.{Env, World}
use gektar_monitor.Backfill.Region.{run}

pub data Decision : Type 0 where
  skip_none skip_running skip_negative skip_threshold trigger : Decision

abbrev pub delta_threshold : ℕ
delta_threshold = 3

-- The total of the last backfill, or the count of the database when there was none.
abbrev pub reference : World → ℕ → ℕ
reference w db_count = elim w.total_last [ none ↦ db_count | some t ↦ t ]

unfoldable pub decide : World → Option ℕ → ℕ → ℕ → Decision
decide w none db_count hint = skip_none
decide w (some total) db_count hint =
    if w.is_running
    then skip_running
    else if ltb total (reference w db_count)
    then skip_negative
    else if leb (total - reference w db_count) (hint + delta_threshold)
    then skip_threshold
    else trigger

-- A new stop event takes the place of the old one.
abbrev pub launched : World → World
launched w = record w { is_running = true; stop_set = false }

abbrev pub written_total : Option ℕ → World → World
written_total none w = w
written_total (some total) w = record w { total_last = some total }

abbrev pub act : Decision → Option ℕ → World → Bool × World
act skip_none total w = (false, w)
act skip_running total w = (false, w)
act skip_negative total w = (false, written_total total w)
act skip_threshold total w = (false, w)
act trigger total w = (true, launched w)

unfoldable pub maybe_start : Option ℕ → ℕ → ℕ → World → Bool × World
maybe_start site_total db_count hint w = act (decide w site_total db_count hint) site_total w

unfoldable pub start : World → Bool × World
start w = if w.is_running then (false, w) else (true, launched w)

unfoldable pub cancel : World → World
cancel w = record w { stop_set = true }

pub data Status : Type 0 where
  running done idle : Status

unfoldable pub status : World → Status
status w = if w.progress.is_active then running else if w.progress.is_done then done else idle

abbrev pub rested : Option World → Option World
rested none = none
rested (some w) =
    some (record w { is_running = false; progress = record w.progress { is_active = false } })

-- The regions that were asked for, or those of the settings.
abbrev pub configured : Env → Option (List ℕ) → List ℕ
configured env none = env.regions
configured env (some regions) = regions

-- The thread: the run, and its `finally`.
unfoldable pub worker : Env → Option (List ℕ) → World → Option World
worker env regions w = rested (run env (configured env regions) w)

-- The decision on a total, from the two facts that it rests on.
module _ (total hint : ℕ) (w : World) where
  abbrev Exceeds : ℕ → Type 0
  Exceeds known = (t : ℕ) × (some total ≡ some t) × (known + (hint + 3) < t)

  Exceeds-lt : (known : ℕ) → Exceeds known → known + (hint + 3) < total
  Exceeds-lt known (t, same, lt) =
      subst (λ (o : Option ℕ). known + (hint + 3) < elim o [ none ↦ total | some n ↦ n ]) (sym same)
        lt

  abbrev chosen : Bool → ℕ → Decision
  chosen active known =
      if active
      then skip_running
      else if ltb total known
      then skip_negative
      else if leb (total - known) (hint + 3)
      then skip_threshold
      else trigger

  decided_iff :
      (active : Bool) (known : ℕ)
      → ((act (chosen active known) (some total) w).0 ≡ true) ↔ ((active ≡ false) × Exceeds known)
  decided_iff true known = (λ e. cc e, λ h. cc h.0)
  decided_iff false known = elim (Bool-cases (ltb total known)) [
    | inl q ↦ rw q (λ e. cc e, λ h. absurd (ground (arith, Exceeds-lt known h.1)))
    | inr q ↦ elim (Bool-cases (leb (total - known) (hint + 3))) [
      | inl p ↦ rw (q, p) (λ e. cc e, λ h. absurd (ground (arith, Exceeds-lt known h.1)))
      | inr p ↦ rw (q, p) (λ e. (refl, (total, refl, ground arith)), λ h. refl)
    ]
  ]

-- `maybe_start` starts a backfill exactly if none is running and the site has reported a total that
-- exceeds the total of the last backfill, or the count of the database when there was none, by more
-- than the number of rows of the page and three.
pub maybe_start_iff :
    (site_total : Option ℕ) (db_count hint : ℕ) (w : World)
    → ((maybe_start site_total db_count hint w).0 ≡ true) ↔ (
        (w.is_running ≡ false)
        × ((total : ℕ) × (site_total ≡ some total) × (reference w db_count + (hint + 3) < total)))
unfolding maybe_start decide
maybe_start_iff none db_count hint w = (λ e. cc e, λ h. cc h.1.1)
maybe_start_iff (some total) db_count hint w =
    decided_iff total hint w w.is_running (reference w db_count)

-- While a backfill runs, neither call starts another one or changes anything.
pub single_flight :
    (site_total : Option ℕ) (db_count hint : ℕ) (w : World)
    → w.is_running ≡ true
    → (maybe_start site_total db_count hint w ≡ (false, w)) × (start w ≡ (false, w))
unfolding maybe_start decide start
single_flight none db_count hint w e = (refl, rw e refl)
single_flight (some total) db_count hint w e = (rw e refl, rw e refl)
