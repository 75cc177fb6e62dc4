-- ===== src/Deckmaster/Dealing/Enough.antt =====
-- apps/server/src/deckmaster.ts: how many bytes of the seed a shuffle needs.
use flicky.Prelude.{
  ℕ, zero, suc, ◌+◌, ◌-◌, ◌*◌, ◌/◌, ◌%◌, ◌≤◌, ◌<◌, ◌≡◌, refl, inl, inr, some, List, [], ◌∷◌, arith,
  ltb, ◌==◌, if◌then◌else◌, Bool-cases,
}
use native.Mathlib.Nat.{mod-lt}
use flicky.Prelude.{length, times, replicate}
use flicky.Prelude.{length-append, length-replicate}
use flicky.Deckmaster.{SignBias, Zone, above, below}
use flicky.Deckmaster.Dealing.Counted.{length-zone_pattern, up_count_of-bound}
use flicky.Deckmaster.Dealing.{
  sign_pattern, up_count_of, allocate_sign_balance, zone_pattern, allocate_zones, draw_below,
  swap_at, shuffle_from, shuffle,
}

-- The bytes that no draw below 128 rejects.
abbrev pub low : List ℕ → ℕ
low [] = 0
low (b ∷ bytes) = times (ltb b 128) + low bytes

draw_below-low :
    (n : ℕ) (bytes : List ℕ)
    → 0 < n
    → n ≤ 128
    → 0 < low bytes
    → (j : ℕ) × ((rest : List ℕ) × ((draw_below n bytes ≡ some (j, rest))
          × ((j < n) × (low bytes ≤ low rest + 1))))
unfolding draw_below
draw_below-low n [] p h l = ground arith
draw_below-low n (b ∷ bytes) p h l = elim (Bool-cases (ltb b (256 - 256 % n))) [
  | inl e ↦ (b % n, (bytes, (rw (e, draw_below) refl, (mod-lt b p, ground arith))))
  | inr e ↦
      let small = mod-lt 256 p in
      let (j, (rest, (f, (g, k)))) = draw_below-low n bytes p h (ground arith) in
      (j, (rest, (rw (e, f, draw_below) refl, (g, ground arith))))
]

shuffle_from-enough {ℓ} :
    {A : Type ℓ} (i : ℕ) (xs : List A) (bytes : List ℕ)
    → i ≤ 127
    → i ≤ low bytes
    → (out : List A) × ((rest : List ℕ) × ((shuffle_from i xs bytes ≡ some (out, rest))
          × (low bytes ≤ low rest + i)))
unfolding shuffle_from
shuffle_from-enough zero xs bytes h l = (xs, (bytes, (refl, ground arith)))
shuffle_from-enough (suc i) xs bytes h l =
    let (j, (left, (e, (g, k)))) =
      draw_below-low (suc (suc i)) bytes (ground arith) (ground arith) (ground arith) in
    let (out, (rest, (f, m))) =
      shuffle_from-enough i (swap_at (suc i) j xs) left (ground arith) (ground arith) in
    (out, (rest, (rw (e, f, shuffle_from) refl, ground arith)))

shuffle-enough {ℓ} :
    {A : Type ℓ} (n : ℕ) (xs : List A) (bytes : List ℕ)
    → length xs ≤ n
    → n ≤ 128
    → n - 1 ≤ low bytes
    → (out : List A) × ((rest : List ℕ) × ((shuffle xs bytes ≡ some (out, rest))
          × (low bytes ≤ low rest + (n - 1))))
unfolding shuffle
shuffle-enough n xs bytes h m l =
    let (out, (rest, (e, k))) =
      shuffle_from-enough (length xs - 1) xs bytes (ground arith) (ground arith) in
    (out, (rest, (e, ground arith)))

length-sign_pattern : (n u : ℕ) → u ≤ n → length (sign_pattern n u) ≡ n
unfolding sign_pattern
length-sign_pattern n u h = ground (
  arith,
  length-append (replicate u above) (replicate (n - u) below),
  length-replicate u above,
  length-replicate (n - u) below,
)

up_count_of-enough :
    (n : ℕ) (bytes : List ℕ)
    → 0 < low bytes
    → (u : ℕ) × ((rest : List ℕ) × ((up_count_of n bytes ≡ some (u, rest))
          × (low bytes ≤ low rest + 1)))
unfolding up_count_of
up_count_of-enough n [] l = ground arith
up_count_of-enough n (b ∷ bytes) l = elim (Bool-cases (n - 2 * (n / 2) == 0)) [
  | inl e ↦ (n / 2, (b ∷ bytes, (rw (e, up_count_of) refl, ground arith)))
  | inr e ↦
      (n / 2 + (if ltb b 128 then 1 else 0), (bytes, (rw (e, up_count_of) refl, ground arith)))
]

signs-enough :
    (n : ℕ) (bytes : List ℕ)
    → n ≤ 128
    → n ≤ low bytes
    → (signs : List SignBias) × ((rest : List ℕ) × ((allocate_sign_balance n bytes
            ≡ some (signs, rest))
          × (low bytes ≤ low rest + n)))
unfolding allocate_sign_balance
signs-enough n bytes m l = elim (Bool-cases (n == 0)) [
  | inl z ↦ ([], (bytes, (rw (z, allocate_sign_balance) refl, ground arith)))
  | inr z ↦
      let (u, (left, (e, k))) = up_count_of-enough n bytes (ground arith) in
      let bound = up_count_of-bound n u bytes left e in
      let len : length (sign_pattern n u) ≤ n =
        ground (arith, length-sign_pattern n u (ground arith)) in
      let (signs, (rest, (f, j))) = shuffle-enough n (sign_pattern n u) left len m (ground arith) in
      (signs, (rest, (rw (z, e, f, allocate_sign_balance) refl, ground arith)))
]

-- For a deck of at most 128 cards, twice as many bytes below 128 among those of the seed are enough
-- for its signs and its zones.
pub deal-enough :
    (n : ℕ) (bytes : List ℕ)
    → n ≤ 128
    → 2 * n ≤ low bytes
    → (signs : List SignBias) × ((rest : List ℕ) × ((zones : List Zone) × ((last : List ℕ)
            × ((allocate_sign_balance n bytes ≡ some (signs, rest))
                × (allocate_zones n rest ≡ some (zones, last))))))
unfolding allocate_zones
deal-enough n bytes m l =
    let (signs, (rest, (e, k))) = signs-enough n bytes m (ground arith) in
    elim (Bool-cases (n == 0)) [
      | inl z ↦ (signs, (rest, ([], (rest, (e, rw (z, allocate_zones) refl)))))
      | inr z ↦
          let len : length (zone_pattern n) ≤ n = ground (arith, length-zone_pattern n) in
          let (zones, (last, (f, j))) =
            shuffle-enough n (zone_pattern n) rest len m (ground arith) in
          (signs, (rest, (zones, (last, (e, rw (z, f, allocate_zones) refl)))))
    ]
