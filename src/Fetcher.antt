-- ===== src/Fetcher.antt =====
-- `PaginatedListFetcher.iterate` of src/fis_monitor/services/paginated_list_fetcher.py. The HTTP
-- client, the list parser and the stop event are the surroundings: what they answer is a function
-- of the page asked for and of the number of observations of the stop event. The generator is run
-- to its end, and its result is what it yielded, what it passed to the callbacks and how it ended.
-- The texts of log records are left out.
pub mod Laws
pub mod Failures
use gektar_monitor.Prelude.{
  ℕ, zero, suc, ◌+◌, ◌-◌, Bool, true, false, ◌&&◌, Option, none, some, List, [], ◌∷◌, ◌++◌, leb,
  ltb, length, if◌then◌else◌,
}

pub data Error : Type 0 where
  session_expired upstream_error parse_bug other_error : Error

-- `ParsedListPage`: the ids of its rows stand for the rows.
pub record Page : Type 0 where
  pub rows : List ℕ
  pub total_count : Option ℕ

-- `list_parser.parse(response.text)`
pub data Parsed : Type 0 where
  page : Page → Parsed
  refused : Error → Parsed

-- `http.get(url)`: the status, and what the parser makes of the text; or the exception.
pub data Response : Type 0 where
  response : ℕ → Parsed → Response
  failed : Error → Response

pub record Site : Type 0 where
  pub get : ℕ → Response
  pub stopped : ℕ → Bool

pub record Arguments : Type 0 where
  pub max_pages : Option ℕ
  pub page_start : ℕ
  pub raise_on_network_error : Bool
  pub raise_on_parse_error : Bool

pub data Ending : Type 0 where
  returned : Ending
  raised : Error → Ending

-- The rows that were yielded, the pages that were requested, and the calls of the two callbacks.
pub record Walk : Type 0 where
  pub rows : List ℕ
  pub requested : List ℕ
  pub totals : List ℕ
  pub pages : List (ℕ × ℕ)
  pub ending : Ending

abbrev pub page_limit : ℕ
page_limit = 1000

abbrev pub ended : Ending → Walk
ended e = record { rows = []; requested = []; totals = []; pages = []; ending = e }

-- `except UpstreamError` and `except Exception` around the request have the same effect.
abbrev pub network_failure : Arguments → Error → Ending
network_failure a e = if a.raise_on_network_error then raised e else returned

-- The handlers around the parser.
abbrev pub parse_failure : Arguments → Error → Ending
parse_failure a session_expired = raised session_expired
parse_failure a parse_bug = if a.raise_on_parse_error then raised parse_bug else returned
parse_failure a upstream_error = returned
parse_failure a other_error = returned

abbrev pub totals_of : Option ℕ → List ℕ
totals_of none = []
totals_of (some n) = n ∷ []

-- One more page in front of a walk.
abbrev pub after_page : ℕ → Page → Walk → Walk
after_page n p w = record {
  rows = p.rows ++ w.rows;
  requested = n ∷ w.requested;
  totals = totals_of p.total_count ++ w.totals;
  pages = (n, length p.rows) ∷ w.pages;
  ending = w.ending;
}

abbrev pub is_last : Option ℕ → ℕ → Bool
is_last none walked = false
is_last (some m) walked = leb m walked

abbrev pub is_redirect : ℕ → Bool
is_redirect status = leb 300 status && ltb status 400

-- A page that ends the walk: what was requested, and the total that it reported.
abbrev pub stopping : ℕ → List ℕ → Ending → Walk
stopping n totals e = record {
  rows = [];
  requested = n ∷ [];
  totals = totals;
  pages = [];
  ending = e;
}

-- The walk ends here, or goes on behind a page.
pub data Next : Type 0 where
  stop : Walk → Next
  go : Page → Next

-- What follows the request of page `n`; `halted` is whether the stop event is set during the pause
-- before the next page.
unfoldable pub on_page : Arguments → ℕ → ℕ → Bool → Page → List ℕ → Next
on_page a n walked halted p [] = stop (stopping n (totals_of p.total_count) returned)
on_page a n walked halted p (_ ∷ _) =
    if is_last a.max_pages (walked + 1)
    then stop (after_page n p (ended returned))
    else if halted
    then stop (after_page n p (ended returned))
    else go p

unfoldable pub on_parsed : Arguments → ℕ → ℕ → Bool → Parsed → Next
on_parsed a n walked halted (refused e) = stop (stopping n [] (parse_failure a e))
on_parsed a n walked halted (page p) = on_page a n walked halted p p.rows

unfoldable pub on_response : Arguments → ℕ → ℕ → Bool → Response → Next
on_response a n walked halted (failed e) = stop (stopping n [] (network_failure a e))
on_response a n walked halted (response status parsed) =
    if is_redirect status
    then stop (stopping n [] (raised session_expired))
    else on_parsed a n walked halted parsed

abbrev pub continue : ℕ → Next → Option Walk → Option Walk
continue n (stop w) rest = some w
continue n (go p) none = none
continue n (go p) (some w) = some (after_page n p w)

-- The loop from page `n` on, after `walked` pages and `tick` observations of the stop event; `none`
-- means that the fuel ran out.
unfoldable pub walk : Arguments → Site → ℕ → ℕ → ℕ → ℕ → Option Walk
walk a s zero n walked tick = none
walk a s (suc fuel) n walked tick =
    let rest = walk a s fuel (n + 1) (walked + 1) (tick + 2) in
    let next = on_response a n walked (s.stopped (tick + 1)) (s.get n) in
    let answer = continue n next rest in
    if s.stopped tick
    then some (ended returned)
    else if ltb page_limit n
    then some (ended returned)
    else answer

-- Fuel for the pages up to the limit and one round more.
abbrev pub page_fuel : ℕ
page_fuel = page_limit + 1

abbrev pub first_page : Arguments → ℕ
first_page a = if leb 1 a.page_start then a.page_start else 1

unfoldable pub iterate : Arguments → Site → Option Walk
iterate a s = walk a s page_fuel (first_page a) 0 0
