-- ===== src/Deckmaster/Dealing/Counted.antt =====
-- apps/server/src/deckmaster.ts: a shuffle keeps what it shuffles, and the signs and zones of a
-- deck are in their proportions.
use flicky.Prelude.{
  ℕ, zero, suc, ◌+◌, ◌-◌, ◌*◌, ◌≤◌, ◌≡◌, refl, ap, ◌∙◌, inl, inr, Bool, true, some, List, [], ◌∷◌,
  ◌++◌, arith, ◌==◌, if◌then◌else◌, Bool-cases, Option-cases,
}
use flicky.Prelude.{length, get_elem?, replicate, count_if}
use flicky.Deckmaster.{SignBias, above, below, is_above, is_below, Zone}
use flicky.Deckmaster.Dealing.{
  draw_below, set_at, swap_at, shuffle_from, shuffle, sign_pattern, up_count_of,
  allocate_sign_balance, repeat_pattern, zone_pattern, allocate_zones,
}
use flicky.Prelude.{times}

module _ {ℓ} {A : Type ℓ} (p : A → Bool) where
  set_at-count :
      (i : ℕ) (x y : A) (xs : List A)
      → get_elem? xs i ≡ some x
      → count_if p (set_at i y xs) + times (p x) ≡ count_if p xs + times (p y)
  unfolding set_at
  set_at-count i x y [] e = cc
  set_at-count zero x y (z ∷ xs) e = ground arith
  set_at-count (suc i) x y (z ∷ xs) e = ground (arith, set_at-count i x y xs e)

  set_at-get :
      (i j : ℕ) (x y z : A) (xs : List A)
      → get_elem? xs i ≡ some x
      → get_elem? xs j ≡ some y
      → get_elem? (set_at i z xs) j ≡ (if i == j then some z else some y)
  unfolding set_at
  set_at-get i j x y z [] e f = cc
  set_at-get zero zero x y z (w ∷ xs) e f = ground arith
  set_at-get zero (suc j) x y z (w ∷ xs) e f = ground arith
  set_at-get (suc i) zero x y z (w ∷ xs) e f = ground arith
  set_at-get (suc i) (suc j) x y z (w ∷ xs) e f = ground (arith, set_at-get i j x y z xs e f)

  swap_at-count : (i j : ℕ) (xs : List A) → count_if p (swap_at i j xs) ≡ count_if p xs
  unfolding swap_at
  swap_at-count i j xs = elim (Option-cases (get_elem? xs i)) [
    | inl e ↦ rw (e, swap_at) refl
    | inr (x, e) ↦ elim (Option-cases (get_elem? xs j)) [
      | inl f ↦ rw (e, f, swap_at) refl
      | inr (y, f) ↦
          rw (e, f, swap_at)
            (ground (
              arith,
              set_at-count i x y xs e,
              set_at-get i j x y y xs e f,
              set_at-count j y x (set_at i y xs),
            ))
    ]
  ]

  shuffle_from-count :
      (i : ℕ) (xs out : List A) (bytes rest : List ℕ)
      → shuffle_from i xs bytes ≡ some (out, rest)
      → count_if p out ≡ count_if p xs
  unfolding shuffle_from
  shuffle_from-count zero xs out bytes rest e = ground arith
  shuffle_from-count (suc i) xs out bytes rest e =
      elim (Option-cases (draw_below (suc (suc i)) bytes)) [
        | inl f ↦ ground arith
        | inr ((j, left), f) ↦
            shuffle_from-count i (swap_at (suc i) j xs) out left rest (ground arith)
            ∙ swap_at-count (suc i) j xs
      ]

  -- A shuffle that has enough bytes keeps how many elements have any property.
  pub shuffle-count :
      (xs out : List A) (bytes rest : List ℕ)
      → shuffle xs bytes ≡ some (out, rest)
      → count_if p out ≡ count_if p xs
  unfolding shuffle
  shuffle-count xs out bytes rest e = shuffle_from-count (length xs - 1) xs out bytes rest e

replicate-count :
    {A : Type 0} (p : A → Bool) (n : ℕ) (x : A) (xs : List A)
    → count_if p (replicate n x ++ xs) ≡ n * times (p x) + count_if p xs
replicate-count p zero x xs = ground arith
replicate-count p (suc n) x xs = ground (arith, replicate-count p n x xs)

replicate-count_alone :
    {A : Type 0} (p : A → Bool) (n : ℕ) (x : A) → count_if p (replicate n x) ≡ n * times (p x)
replicate-count_alone p zero x = ground arith
replicate-count_alone p (suc n) x = ground (arith, replicate-count_alone p n x)

-- The number of the cards above spot and of those below.
sign_pattern-counts :
    (n u : ℕ)
    → (count_if is_above (sign_pattern n u) ≡ u) × (count_if is_below (sign_pattern n u) ≡ n - u)
unfolding sign_pattern
sign_pattern-counts n u = (
  ground (
    arith,
    replicate-count is_above u above (replicate (n - u) below),
    replicate-count_alone is_above (n - u) below,
  ),
  ground (
    arith,
    replicate-count is_below u above (replicate (n - u) below),
    replicate-count_alone is_below (n - u) below,
  ),
)

pub up_count_of-bound :
    (n u : ℕ) (bytes rest : List ℕ)
    → up_count_of n bytes ≡ some (u, rest)
    → (2 * u ≤ n + 1) × (n ≤ 2 * u + 1)
unfolding up_count_of
up_count_of-bound n u [] rest e = ground arith
up_count_of-bound n u (b ∷ bytes) rest e = ground arith

-- The signs of a deck are as many as its cards, and those above spot and those below it differ by
-- one at most.
pub allocate_sign_balance-fair :
    (n : ℕ) (signs : List SignBias) (bytes rest : List ℕ)
    → allocate_sign_balance n bytes ≡ some (signs, rest)
    → let up = count_if is_above signs in
      let down = count_if is_below signs in (up + down ≡ n) × ((up ≤ down + 1) × (down ≤ up + 1))
unfolding allocate_sign_balance
allocate_sign_balance-fair n signs bytes rest e = elim (Bool-cases (n == 0)) [
  | inl z ↦ ground arith
  | inr z ↦ elim (Option-cases (up_count_of n bytes)) [
    | inl f ↦ ground arith
    | inr ((u, left), f) ↦
        let bound = up_count_of-bound n u bytes left f in
        let dealt : shuffle (sign_pattern n u) left ≡ some (signs, rest) = ground arith in
        ground (
          arith,
          bound,
          sign_pattern-counts n u,
          shuffle-count is_above (sign_pattern n u) signs left rest dealt,
          shuffle-count is_below (sign_pattern n u) signs left rest dealt,
        )
  ]
]

-- A deck has the zones of its pattern, in some order: as many of each.
allocate_zones-count :
    (p : Zone → Bool) (n : ℕ) (zones : List Zone) (bytes rest : List ℕ)
    → allocate_zones n bytes ≡ some (zones, rest)
    → count_if p zones ≡ (if n == 0 then 0 else count_if p (zone_pattern n))
unfolding allocate_zones
allocate_zones-count p n zones bytes rest e = elim (Bool-cases (n == 0)) [
  | inl z ↦ ground arith
  | inr z ↦
      let dealt : shuffle (zone_pattern n) bytes ≡ some (zones, rest) = ground arith in
      rw z (shuffle-count p (zone_pattern n) zones bytes rest dealt)
]

abbrev always {ℓ} : {A : Type ℓ} → A → Bool
always a = true

length_of_count {ℓ} : {A : Type ℓ} (xs : List A) → count_if always xs ≡ length xs
length_of_count [] = refl
length_of_count (x ∷ xs) = ground (arith, length_of_count xs)

pub length_of_signs :
    (signs : List SignBias) → count_if is_above signs + count_if is_below signs ≡ length signs
length_of_signs [] = ground arith
length_of_signs (above ∷ signs) = ground (arith, length_of_signs signs)
length_of_signs (below ∷ signs) = ground (arith, length_of_signs signs)

length-repeat_pattern : (i n : ℕ) → length (repeat_pattern i n) ≡ n
unfolding repeat_pattern
length-repeat_pattern i zero = refl
length-repeat_pattern i (suc n) = ap suc (length-repeat_pattern (suc i) n)

pub length-zone_pattern : (n : ℕ) → length (zone_pattern n) ≡ n
unfolding zone_pattern
length-zone_pattern n = ground (arith, length-repeat_pattern 0 n)

-- A deck has as many zones as cards.
pub length-zones :
    (n : ℕ) (zones : List Zone) (bytes rest : List ℕ)
    → allocate_zones n bytes ≡ some (zones, rest)
    → length zones ≡ n
length-zones n zones bytes rest e =
    let kept = allocate_zones-count always n zones bytes rest e in
    ground
      (arith, kept, length_of_count zones, length_of_count (zone_pattern n), length-zone_pattern n)
