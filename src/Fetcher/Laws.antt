-- ===== src/Fetcher/Laws.antt =====
-- The walk of Fetcher.antt: its end, its limits, and the pages that it yields.
use gektar_monitor.Prelude.{
  ℕ, zero, suc, ◌+◌, ◌≤◌, ◌<◌, ◌≡◌, refl, ap, sym, ◌∙◌, Bool, true, false, some, List, [], ◌∷◌,
  ◌++◌, ltb, if◌then◌else◌, arith, Bool-cases, inl, inr, ◌⊎◌,
}
use gektar_monitor.Fetcher.{
  Error, session_expired, upstream_error, parse_bug, other_error, Page, Parsed, page, refused,
  Response, response, failed, Site, Arguments, returned, raised, Walk, page_limit, ended,
  after_page, is_redirect, is_last, on_page, on_parsed, on_response, Next, stop, go, continue, walk,
  first_page, iterate, parse_failure,
}

-- What page `n` holds; nothing, if the request or the parser fails.
abbrev pub parsed_rows : Parsed → List ℕ
parsed_rows (page p) = p.rows
parsed_rows (refused e) = []

abbrev pub response_rows : Response → List ℕ
response_rows (failed e) = []
response_rows (response status parsed) = if is_redirect status then [] else parsed_rows parsed

unfoldable pub rows_at : Site → ℕ → List ℕ
rows_at s n = response_rows (s.get n)

-- The rows of `count` pages from page `n` on.
unfoldable pub rows_between : Site → ℕ → ℕ → List ℕ
rows_between s n zero = []
rows_between s n (suc count) = rows_at s n ++ rows_between s (n + 1) count

unfoldable pub range : ℕ → ℕ → List ℕ
range n zero = []
range n (suc count) = n ∷ range (n + 1) count

-- A walk that asks for the pages from page `n` on, in order and up to the limit, and yields their
-- rows.
abbrev pub Walked : Arguments → Site → ℕ → Walk → Type 0
Walked a s n w =
    (count : ℕ) × (w.requested ≡ range n count)
    × (w.rows ≡ rows_between s n count)
    × ((n + count ≤ page_limit + 1) ⊎ (count ≡ 0))
    × (w.ending ≡ returned
        ⊎ (w.ending ≡ raised session_expired)
        ⊎ (a.raise_on_network_error ≡ true)
        ⊎ (a.raise_on_parse_error ≡ true))

walk_halts :
    (a : Arguments) (s : Site) (fuel n walked tick : ℕ)
    → (s.stopped tick ≡ true) ⊎ (ltb page_limit n ≡ true)
    → walk a s (suc fuel) n walked tick ≡ some (ended returned)
unfolding walk
walk_halts a s fuel n walked tick (inl e) = rw e
walk_halts a s fuel n walked tick (inr e) = elim (Bool-cases (s.stopped tick)) [
  | inl f ↦ rw f
  | inr f ↦ rw (f, e)
]

pub walk_goes_on :
    (a : Arguments) (s : Site) (fuel n walked tick : ℕ)
    → s.stopped tick ≡ false
    → ltb page_limit n ≡ false
    → walk a s (suc fuel) n walked tick
      ≡ continue n
          (on_response a n walked (s.stopped (tick + 1)) (s.get n))
          (walk a s fuel (n + 1) (walked + 1) (tick + 2))
unfolding walk
walk_goes_on a s fuel n walked tick e f = rw (e, f)

-- What a page that ends the walk adds to it.
abbrev Stops : Arguments → ℕ → List ℕ → Walk → Type 0
Stops a n rows w =
    (w.requested ≡ n ∷ [])
    × (w.rows ≡ rows ++ [])
    × (w.ending ≡ returned
        ⊎ (w.ending ≡ raised session_expired)
        ⊎ (a.raise_on_network_error ≡ true)
        ⊎ (a.raise_on_parse_error ≡ true))

abbrev Follows : Arguments → ℕ → List ℕ → Next → Type 0
Follows a n rows (stop w) = Stops a n rows w
Follows a n rows (go p) = p.rows ≡ rows

on_page-Follows :
    (a : Arguments) (n walked : ℕ) (halted : Bool) (p : Page) (xs : List ℕ)
    → p.rows ≡ xs
    → Follows a n p.rows (on_page a n walked halted p xs)
unfolding on_page
on_page-Follows a n walked halted p [] e = (refl, ap (λ rows. rows ++ []) (sym e), inl refl)
on_page-Follows a n walked halted p (x ∷ xs) e =
    elim (Bool-cases (is_last a.max_pages (walked + 1))) [
      | inl g ↦ rw g (refl, refl, inl refl)
      | inr g ↦ elim (Bool-cases halted) [
        | inl h ↦ rw (g, h) (refl, refl, inl refl)
        | inr h ↦ rw (g, h) refl
      ]
    ]

parse_failure_endings :
    (a : Arguments) (e : Error)
    → (parse_failure a e ≡ returned)
      ⊎ (parse_failure a e ≡ raised session_expired)
      ⊎ (a.raise_on_network_error ≡ true)
      ⊎ (a.raise_on_parse_error ≡ true)
parse_failure_endings a session_expired = inr (inl refl)
parse_failure_endings a parse_bug = elim (Bool-cases a.raise_on_parse_error) [
  | inl f ↦ inr (inr (inr f))
  | inr f ↦ rw f (inl refl)
]
parse_failure_endings a upstream_error = inl refl
parse_failure_endings a other_error = inl refl

on_parsed-Follows :
    (a : Arguments) (n walked : ℕ) (halted : Bool) (parsed : Parsed)
    → Follows a n (parsed_rows parsed) (on_parsed a n walked halted parsed)
unfolding on_parsed
on_parsed-Follows a n walked halted (refused e) = (refl, refl, parse_failure_endings a e)
on_parsed-Follows a n walked halted (page p) = on_page-Follows a n walked halted p p.rows refl

on_response-Follows :
    (a : Arguments) (n walked : ℕ) (halted : Bool) (r : Response)
    → Follows a n (response_rows r) (on_response a n walked halted r)
unfolding on_response
on_response-Follows a n walked halted (failed e) = (
  refl,
  refl,
  elim (Bool-cases a.raise_on_network_error) [
    | inl f ↦ inr (inr (inl f))
    | inr f ↦ rw f (inl refl)
  ],
)
on_response-Follows a n walked halted (response status parsed) =
    elim (Bool-cases (is_redirect status)) [
      | inl e ↦ rw e (refl, refl, inr (inl refl))
      | inr e ↦ rw e (on_parsed-Follows a n walked halted parsed)
    ]

continue-Walked :
    (a : Arguments) (s : Site) (n : ℕ) (next : Next) (w : Walk)
    → n ≤ page_limit
    → Follows a n (rows_at s n) next
    → Walked a s (n + 1) w
    → (w' : Walk) × (continue n next (some w) ≡ some w') × Walked a s n w'
unfolding range rows_between
continue-Walked a s n (stop v) w bound (r, x, e) ih =
    (v, refl, (1, r, x, inl (omega (arith, bound)), e))
continue-Walked a s n (go p) w bound e (count, r, x, c, end) = (
  after_page n p w,
  refl,
  (suc count, ap (λ l. n ∷ l) r, rw (e, x) refl, ground (arith, bound, c), end),
)

walk-Walked :
    (a : Arguments) (s : Site) (fuel n walked tick : ℕ)
    → page_limit < n + fuel
    → (w : Walk) × (walk a s (suc fuel) n walked tick ≡ some w) × Walked a s n w
unfolding range rows_between rows_at
walk-Walked a s zero n walked tick h = (
  ended returned,
  walk_halts a s 0 n walked tick (inr (ground arith)),
  (0, refl, refl, inr refl, inl refl),
)
walk-Walked a s (suc fuel) n walked tick h = elim (Bool-cases (s.stopped tick)) [
  | inl e ↦ (
    ended returned,
    walk_halts a s (suc fuel) n walked tick (inl e),
    (0, refl, refl, inr refl, inl refl),
  )
  | inr e ↦ elim (Bool-cases (ltb page_limit n)) [
    | inl f ↦ (
      ended returned,
      walk_halts a s (suc fuel) n walked tick (inr f),
      (0, refl, refl, inr refl, inl refl),
    )
    | inr f ↦
        let next = on_response a n walked (s.stopped (tick + 1)) (s.get n) in
        let (w, ih, walked_w) =
          walk-Walked a s fuel (n + 1) (walked + 1) (tick + 2) (omega arith) in
        let (w', c, walked_w') =
          continue-Walked a s n next w (ground arith)
            (on_response-Follows a n walked (s.stopped (tick + 1)) (s.get n)) walked_w in
        (w', walk_goes_on a s (suc fuel) n walked tick e f ∙ ap (continue n next) ih ∙ c, walked_w')
  ]
]

first_page_positive : (a : Arguments) → 1 ≤ first_page a
first_page_positive a = ground arith

-- For every client, parser and stop event, the walk ends: it requests consecutive pages from the
-- first one on, none beyond page 1000, and yields the rows of these pages in order, a page that
-- failed counting as empty. Without the two flags it returns, or raises `SessionExpired`.
pub iterate_walks :
    (a : Arguments) (s : Site) → (w : Walk) × (iterate a s ≡ some w) × Walked a s (first_page a) w
unfolding iterate
iterate_walks a s =
    walk-Walked a s page_limit (first_page a) 0 0 (omega (arith, first_page_positive a))
