-- ===== src/Bus/Loops.antt =====
-- What the loops of Bus.antt over the subscribers do to one handle.
use gektar_monitor.Prelude.{
  ℕ, ◌+◌, ◌≤◌, ◌≡◌, refl, sym, ap, ◌∙◌, Bool, true, false, List, [], ◌∷◌, ◌++◌, ◌==◌, if◌then◌else◌,
  arith, Bool-cases, inl, inr, ==_iff, ==_refl, contains, ◌↔◌,
}
use gektar_monitor.Bus.{
  Event, Subscription, Bus, offer_critical, is_slow, set_handle, for_each, slow_ones, remove,
  remove_subscriber, remove_all,
}

-- How often a handle is listed.
abbrev pub occurrences : ℕ → List ℕ → ℕ
occurrences j [] = 0
occurrences j (i ∷ is) = (if j == i then 1 else 0) + occurrences j is

pub set_handle-same : (i : ℕ) (s : Subscription) (h : ℕ → Subscription) → set_handle i s h i ≡ s
set_handle-same i s h = rw (==_refl i) refl

pub set_handle-other :
    (i j : ℕ) (s : Subscription) (h : ℕ → Subscription)
    → (j == i) ≡ false
    → set_handle i s h j ≡ h j
set_handle-other i j s h e = rw e refl

module _ (f : ℕ → Subscription → Subscription) (j : ℕ) where
  pub for_each-absent :
      (snapshot : List ℕ) (h : ℕ → Subscription)
      → occurrences j snapshot ≡ 0
      → for_each f snapshot h j ≡ h j
  unfolding for_each
  for_each-absent [] h e = refl
  for_each-absent (i ∷ snapshot) h e = elim (Bool-cases (j == i)) [
    | inl g ↦ ground arith
    | inr g ↦
        for_each-absent snapshot (set_handle i (f i (h i)) h) (ground arith)
        ∙ set_handle-other i j (f i (h i)) h g
  ]

  pub for_each-once :
      (snapshot : List ℕ) (h : ℕ → Subscription)
      → occurrences j snapshot ≡ 1
      → for_each f snapshot h j ≡ f j (h j)
  unfolding for_each
  for_each-once [] h e = ground arith
  for_each-once (i ∷ snapshot) h e = elim (Bool-cases (j == i)) [
    | inl g ↦
        for_each-absent snapshot (set_handle i (f i (h i)) h) (ground arith)
        ∙ rw g (ap (λ k. f k (h k)) (sym ((==_iff j i).0 g)))
    | inr g ↦
        for_each-once snapshot (set_handle i (f i (h i)) h) (ground arith)
        ∙ ap (f j) (set_handle-other i j (f i (h i)) h g)
  ]

pub occurrences-append :
    (j : ℕ) (xs ys : List ℕ) → occurrences j (xs ++ ys) ≡ occurrences j xs + occurrences j ys
occurrences-append j [] ys = omega arith
occurrences-append j (i ∷ xs) ys = omega (arith, occurrences-append j xs ys)

pub occurrences-remove :
    (i j : ℕ) (xs : List ℕ)
    → occurrences j xs ≤ 1
    → occurrences j (remove i xs) ≡ (if j == i then 0 else occurrences j xs)
unfolding remove
occurrences-remove i j [] h = ground arith
occurrences-remove i j (k ∷ xs) h = ground (arith, occurrences-remove i j xs)

module _ (taken : ℕ → Bool) (e : Event) (j : ℕ) where
  pub slow_ones-absent :
      (snapshot : List ℕ) (h : ℕ → Subscription)
      → occurrences j snapshot ≡ 0
      → occurrences j (slow_ones taken e snapshot h) ≡ 0
  unfolding slow_ones
  slow_ones-absent [] h g = refl
  slow_ones-absent (i ∷ snapshot) h g =
      ground (arith, slow_ones-absent snapshot (set_handle i (offer_critical (taken i) e (h i)) h))

  pub slow_ones-once :
      (snapshot : List ℕ) (h : ℕ → Subscription)
      → occurrences j snapshot ≡ 1
      → occurrences j (slow_ones taken e snapshot h) ≡ (if is_slow (taken j) e (h j) then 1 else 0)
  unfolding slow_ones
  slow_ones-once [] h g = ground arith
  slow_ones-once (i ∷ snapshot) h g = elim (Bool-cases (j == i)) [
    | inl eq ↦ ground (
      arith,
      slow_ones-absent snapshot (set_handle i (offer_critical (taken i) e (h i)) h),
      ap (λ k. is_slow (taken k) e (h k)) ((==_iff j i).0 eq),
    )
    | inr eq ↦ ground (
      arith,
      slow_ones-once snapshot (set_handle i (offer_critical (taken i) e (h i)) h),
      ap (is_slow (taken j) e) (set_handle-other i j (offer_critical (taken i) e (h i)) h eq),
    )
  ]

pub remove_subscriber-queue :
    (i j : ℕ) (b : Bus) → ((remove_subscriber i b).handles j).queue ≡ (b.handles j).queue
unfolding remove_subscriber
remove_subscriber-queue i j b = elim (Bool-cases (j == i)) [
  | inl e ↦ rw e (ap (λ k. (b.handles k).queue) (sym ((==_iff j i).0 e)))
  | inr e ↦ rw e refl
]

-- Removal leaves the queues alone.
pub remove_all-queue :
    (j : ℕ) (slow : List ℕ) (b : Bus) → ((remove_all slow b).handles j).queue ≡ (b.handles j).queue
unfolding remove_all
remove_all-queue j [] b = refl
remove_all-queue j (i ∷ slow) b =
    remove_all-queue j slow (remove_subscriber i b) ∙ remove_subscriber-queue i j b

pub remove_subscriber-alive :
    (i j : ℕ) (b : Bus)
    → ((remove_subscriber i b).handles j).alive ≡ (if j == i then false else (b.handles j).alive)
unfolding remove_subscriber
remove_subscriber-alive i j b = elim (Bool-cases (j == i)) [ inl e ↦ rw e refl | inr e ↦ rw e refl ]

pub remove_all-alive :
    (j : ℕ) (slow : List ℕ) (b : Bus)
    → ((remove_all slow b).handles j).alive
      ≡ (if contains j slow then false else (b.handles j).alive)
unfolding remove_all
remove_all-alive j [] b = refl
remove_all-alive j (i ∷ slow) b =
    ground (arith, remove_all-alive j slow (remove_subscriber i b), remove_subscriber-alive i j b)

pub remove_subscriber-occurrences :
    (i j : ℕ) (b : Bus)
    → occurrences j b.subscribers ≤ 1
    → occurrences j (remove_subscriber i b).subscribers
      ≡ (if j == i then 0 else occurrences j b.subscribers)
unfolding remove_subscriber
remove_subscriber-occurrences i j b h = occurrences-remove i j b.subscribers h

pub remove_all-subscribers :
    (j : ℕ) (slow : List ℕ) (b : Bus)
    → occurrences j b.subscribers ≤ 1
    → occurrences j (remove_all slow b).subscribers
      ≡ (if contains j slow then 0 else occurrences j b.subscribers)
unfolding remove_all
remove_all-subscribers j [] b h = refl
remove_all-subscribers j (i ∷ slow) b h = ground (
  arith,
  remove_all-subscribers j slow (remove_subscriber i b),
  remove_subscriber-occurrences i j b h,
)

pub remove_all-rest :
    (slow : List ℕ) (b : Bus)
    → ((remove_all slow b).created ≡ b.created)
      × ((remove_all slow b).last_normal ≡ b.last_normal)
      × ((remove_all slow b).last_critical ≡ b.last_critical)
unfolding remove_all remove_subscriber
remove_all-rest [] b = (refl, refl, refl)
remove_all-rest (i ∷ slow) b = remove_all-rest slow (remove_subscriber i b)

pub contains_iff : (j : ℕ) (xs : List ℕ) → (contains j xs ≡ true) ↔ (1 ≤ occurrences j xs)
contains_iff j [] = ground arith
contains_iff j (i ∷ xs) = ground (arith, contains_iff j xs)
