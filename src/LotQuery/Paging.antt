-- ===== src/LotQuery/Paging.antt =====
-- The cursor of a page, and the rows that it leaves.
use gektar_monitor.Prelude.{
  ℕ, zero, suc, ◌+◌, ◌/◌, ◌≡◌, ◌≢◌, refl, ap, subst, Bool, true, ◌&&◌, Option, none, some, List, [],
  ◌∷◌, ◌++◌, ◌==◌, ltb, length, take, drop, select, All, decimal, arith, Bool-cases, inl, inr,
}
use gektar_monitor.Prelude.Texts.{digits_of}
use gektar_monitor.Prelude.Int.{pos}
use gektar_monitor.Domain.{Instant}
use gektar_monitor.Lots.{LotRow}
use gektar_monitor.LotQuery.{Key, key_of, before, text_before}
use gektar_monitor.Prelude.{same_text}
use gektar_monitor.LotQuery.Search.{Codec, encode_cursor, decode_cursor, split_last, beyond}
use gektar_monitor.LotQuery.Order.{Strict, before_trans, before_asym, before_irrefl}

-- Base64 and `int` are read back, and the texts of `isoformat` are in the order of the times, as
-- they are for the times of the list page, which are midnights in UTC.
pub record Faithful (codec : Codec) : Type 0 where
  pub b64 : (s : List ℕ) → codec.b64decode (codec.b64encode s) ≡ some s
  pub int_decimal : (n : ℕ) → codec.int_of (decimal n) ≡ some (pos n)
  pub in_order : (a b : Instant) → text_before (codec.isoformat a) (codec.isoformat b) ≡ ltb a b
  pub same : (a b : Instant) → same_text (codec.isoformat a) (codec.isoformat b) ≡ (a == b)

abbrev NoColon : List ℕ → Type 0
NoColon = All (λ (c : ℕ). c ≢ b':')

NoColon-append : (s t : List ℕ) → NoColon s → NoColon t → NoColon (s ++ t)
NoColon-append [] t h k = k
NoColon-append (c ∷ s) t h k = (h.0, NoColon-append s t h.1 k)

digits_of-NoColon : (fuel n : ℕ) → NoColon (digits_of fuel n)
digits_of-NoColon zero n = tt
digits_of-NoColon (suc fuel) n = elim (Bool-cases (ltb n 10)) [
  | inl e ↦ rw e (omega arith, tt)
  | inr e ↦ rw e (
      NoColon-append (digits_of fuel (n / 10)) _ (digits_of-NoColon fuel (n / 10))
        (omega arith, tt))
]

split_last-NoColon : (s : List ℕ) → NoColon s → split_last s ≡ none
unfolding split_last
split_last-NoColon [] h = refl
split_last-NoColon (c ∷ s) h = rw (split_last-NoColon s h.1) (ground (arith, h.0))

split_last-append : (s t : List ℕ) → NoColon t → split_last (s ++ b':' ∷ t) ≡ some (s, t)
unfolding split_last
split_last-append [] t h = rw (split_last-NoColon t h) refl
split_last-append (c ∷ s) t h = rw (split_last-append s t h) refl

pub decode_cursor-encode_cursor :
    (codec : Codec) (k : Key)
    → Faithful codec
    → decode_cursor codec (encode_cursor codec k) ≡ some (codec.isoformat k.0, pos k.1)
unfolding decode_cursor encode_cursor
decode_cursor-encode_cursor codec k f =
    rw
      (
        decode_cursor,
        encode_cursor,
        f.b64 (codec.isoformat k.0 ++ b':' ∷ decimal k.1),
        split_last-append (codec.isoformat k.0) (decimal k.1) (digits_of-NoColon (k.1 + 1) k.1),
        f.int_decimal k.1,
      )
      refl

same_times : (a b : ℕ) → (a == b) ≡ (b == a)
same_times a b = ground arith

pub beyond-before :
    (codec : Codec) (k : Key) (r : LotRow)
    → Faithful codec
    → beyond codec (some (codec.isoformat k.0, pos k.1)) r ≡ before k (key_of r)
unfolding beyond
beyond-before codec k r f =
    rw
      (
        f.in_order r.lot.date_create k.0,
        f.same r.lot.date_create k.0,
        same_times r.lot.date_create k.0,
      )
      refl

-- The rows behind a key.
abbrev pub behind : Option Key → List LotRow → List LotRow
behind none rows = rows
behind (some k) rows = select (λ r. before k (key_of r)) rows

abbrev pub last_row : List LotRow → Option LotRow
last_row [] = none
last_row (r ∷ []) = some r
last_row (r ∷ q ∷ qs) = last_row (q ∷ qs)

pub All-last :
    (P : LotRow → Type 0) (m : ℕ) (rows : List LotRow) (x : LotRow)
    → All P rows
    → last_row (take (suc m) rows) ≡ some x
    → P x
All-last P m [] x h e = absurd (ground (arith, e))
All-last P zero (r ∷ rows) x h e = let same : r ≡ x = cc e in subst P same h.0
All-last P (suc m) (r ∷ []) x h e = let same : r ≡ x = cc e in subst P same h.0
All-last P (suc m) (r ∷ q ∷ rows) x h e = All-last P m (q ∷ rows) x h.1 e

select-all :
    (p : LotRow → Bool) (rows : List LotRow) → All (λ r. p r ≡ true) rows → select p rows ≡ rows
select-all p [] h = refl
select-all p (r ∷ rows) h = rw (h.0) (ap (λ l. r ∷ l) (select-all p rows h.1))

-- Of rows in order, those behind the last row of a page are the rows that the page leaves.
pub behind-page :
    (m : ℕ) (rows : List LotRow) (x : LotRow)
    → Strict rows
    → last_row (take (suc m) rows) ≡ some x
    → behind (some (key_of x)) rows ≡ drop (suc m) rows
behind-page m [] x h e = absurd (ground (arith, e))
behind-page zero (r ∷ rows) x h e =
    let same : r ≡ x = cc e in
    subst (λ y. behind (some (key_of y)) (r ∷ rows) ≡ rows) same
      (rw (before_irrefl (key_of r)) (select-all _ rows h.0))
behind-page (suc m) (r ∷ []) x h e =
    let same : r ≡ x = cc e in
    subst (λ y. behind (some (key_of y)) (r ∷ []) ≡ []) same (rw (before_irrefl (key_of r)) refl)
behind-page (suc m) (r ∷ q ∷ rows) x h e =
    let later : before (key_of r) (key_of x) ≡ true =
      All-last (λ y. before (key_of r) (key_of y) ≡ true) m (q ∷ rows) x h.0 e in
    rw (before_asym (key_of r) (key_of x) later) (behind-page m (q ∷ rows) x h.1 e)

pub select-and :
    (p q : LotRow → Bool) (rows : List LotRow)
    → select (λ r. p r && q r) rows ≡ select q (select p rows)
select-and p q [] = refl
select-and p q (r ∷ rows) = ground (arith, select-and p q rows)

pub All-selected : (p : LotRow → Bool) (rows : List LotRow) → All (λ r. p r ≡ true) (select p rows)
All-selected p [] = tt
All-selected p (r ∷ rows) = elim (Bool-cases (p r)) [
  | inl e ↦ rw e (e, All-selected p rows)
  | inr e ↦ rw e (All-selected p rows)
]

-- A selection that a second one implies makes no difference to it.
pub behind-behind :
    (k : Option Key) (x : LotRow) (rows : List LotRow)
    → ((c : Key) → k ≡ some c → before c (key_of x) ≡ true)
    → behind (some (key_of x)) (behind k rows) ≡ behind (some (key_of x)) rows
behind-behind none x rows h = refl
behind-behind (some c) x [] h = refl
behind-behind (some c) x (r ∷ rows) h =
    let rest = behind-behind (some c) x rows h in
    elim (Bool-cases (before (key_of x) (key_of r))) [
      | inl e ↦ rw (before_trans c (key_of x) (key_of r) (h c refl) e, e) (ap (λ l. r ∷ l) rest)
      | inr e ↦ elim (Bool-cases (before c (key_of r))) [
        | inl i ↦ rw (i, e) rest
        | inr i ↦ rw (i, e) rest
      ]
    ]

pub take-take : (n : ℕ) (rows : List LotRow) → take n (take (suc n) rows) ≡ take n rows
take-take zero rows = refl
take-take (suc n) [] = refl
take-take (suc n) (r ∷ rows) = ap (λ l. r ∷ l) (take-take n rows)

-- The one row more that the query asks for shows whether there is a next page.
pub more-take :
    (n : ℕ) (rows : List LotRow) → ltb n (length (take (suc n) rows)) ≡ ltb n (length rows)
more-take zero [] = refl
more-take zero (r ∷ rows) = ground arith
more-take (suc n) [] = refl
more-take (suc n) (r ∷ rows) = ground (arith, more-take n rows)
