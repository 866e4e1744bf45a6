-- ===== src/Fetcher/Failures.antt =====
-- What a failed request does to the walk of Fetcher.antt.
use gektar_monitor.Prelude.{
  ℕ, suc, ◌+◌, ◌≡◌, refl, ap, ◌∙◌, false, none, some, List, [], ◌∷◌, ◌++◌, ltb,
}
use gektar_monitor.Fetcher.{
  upstream_error, Page, page, response, failed, Site, Arguments, returned, Walk, page_limit,
  after_page, stopping, is_redirect, on_page, on_parsed, on_response, stop, go, continue, walk,
  page_fuel, first_page, iterate,
}
use gektar_monitor.Fetcher.Laws.{walk_goes_on}

first_go :
    (a : Arguments) (status : ℕ) (p : Page) (x : ℕ) (xs : List ℕ)
    → a.max_pages ≡ none
    → is_redirect status ≡ false
    → p.rows ≡ x ∷ xs
    → on_response a 1 0 false (response status (page p)) ≡ go p
unfolding on_response on_parsed on_page
first_go a status p x xs pages plain rows = rw (plain, rows, pages) refl

second_stop :
    (a : Arguments)
    → a.raise_on_network_error ≡ false
    → on_response a 2 1 false (failed upstream_error) ≡ stop (stopping 2 [] returned)
unfolding on_response
second_stop a quiet = rw quiet refl

walk_stops_at :
    (a : Arguments) (s : Site) (fuel n walked tick : ℕ) (w : Walk)
    → s.stopped tick ≡ false
    → ltb page_limit n ≡ false
    → on_response a n walked (s.stopped (tick + 1)) (s.get n) ≡ stop w
    → walk a s (suc fuel) n walked tick ≡ some w
walk_stops_at a s fuel n walked tick w e f g =
    walk_goes_on a s fuel n walked tick e f
    ∙ ap (λ next. continue n next (walk a s fuel (n + 1) (walked + 1) (tick + 2))) g

walk_goes_to :
    (a : Arguments) (s : Site) (fuel n walked tick : ℕ) (p : Page) (w : Walk)
    → s.stopped tick ≡ false
    → ltb page_limit n ≡ false
    → on_response a n walked (s.stopped (tick + 1)) (s.get n) ≡ go p
    → walk a s fuel (n + 1) (walked + 1) (tick + 2) ≡ some w
    → walk a s (suc fuel) n walked tick ≡ some (after_page n p w)
walk_goes_to a s fuel n walked tick p w e f g h =
    walk_goes_on a s fuel n walked tick e f
    ∙ ap (λ rest. continue n (on_response a n walked (s.stopped (tick + 1)) (s.get n)) rest) h
    ∙ ap (λ next. continue n next (some w)) g

first_two :
    (a : Arguments) (s : Site) (fuel : ℕ) (p : Page)
    → ((tick : ℕ) → s.stopped tick ≡ false)
    → on_response a 1 0 false (s.get 1) ≡ go p
    → on_response a 2 1 false (s.get 2) ≡ stop (stopping 2 [] returned)
    → walk a s (suc (suc fuel)) 1 0 0 ≡ some (after_page 1 p (stopping 2 [] returned))
first_two a s fuel p running one two =
    walk_goes_to a s (suc fuel) 1 0 0 p (stopping 2 [] returned) (running 0) refl
      (ap (λ halted. on_response a 1 0 halted (s.get 1)) (running 1) ∙ one)
      (walk_stops_at a s fuel 2 1 2 (stopping 2 [] returned) (running 2) refl
        (ap (λ halted. on_response a 2 1 halted (s.get 2)) (running 3) ∙ two))

-- If the walk starts at page 1 with no cap on the pages and without `raise_on_network_error`, the
-- first page has rows and is no redirect, the request of the second fails with `UpstreamError`, and
-- the stop event stays clear, then the walk returns as after a last page, with the rows of the first
-- page only.
iterate_swallows :
    (a : Arguments) (s : Site) (status : ℕ) (p : Page) (x : ℕ) (xs : List ℕ)
    → a.raise_on_network_error ≡ false
    → a.max_pages ≡ none
    → first_page a ≡ 1
    → ((tick : ℕ) → s.stopped tick ≡ false)
    → s.get 1 ≡ response status (page p)
    → is_redirect status ≡ false
    → p.rows ≡ x ∷ xs
    → s.get 2 ≡ failed upstream_error
    → (w : Walk) × (iterate a s ≡ some w) × (w.rows ≡ p.rows ++ []) × (w.ending ≡ returned)
unfolding iterate
iterate_swallows a s status p x xs quiet pages first running one plain rows two = (
  after_page 1 p (stopping 2 [] returned),
  ap (λ n. walk a s page_fuel n 0 0) first
      ∙ first_two a s 999 p running
          (ap (λ r. on_response a 1 0 false r) one ∙ first_go a status p x xs pages plain rows)
          (ap (λ r. on_response a 2 1 false r) two ∙ second_stop a quiet),
  refl,
  refl,
)
