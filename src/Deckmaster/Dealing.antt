-- ===== src/Deckmaster/Dealing.antt =====
-- apps/server/src/deckmaster.ts: what a deck draws from its seed. The bytes that `prgStream` makes
-- by sha-256 are a list here, as long as is needed; a list that is too short gives nothing.
pub mod Counted
pub mod Enough
use flicky.Prelude.{
  ℕ, zero, suc, ◌+◌, ◌-◌, ◌*◌, ◌/◌, ◌%◌, ◌^◌, ◌≤◌, ◌<◌, String, ◌≡◌, refl, sym, ap, ◌∙◌, ◌≢◌, ◌↔◌,
  ◌⊎◌, inl, inr, Bool, true, false, not, ◌&&◌, ◌||◌, Option, none, some, List, [], ◌∷◌, ◌++◌, map,
  arith, eq_iff, ltb, leb, ◌==◌, str_eq, str_eq_refl, if◌then◌else◌, Bool-cases, Option-cases,
  ==_iff, ==_refl, ltb→lt, leb→le, le→leb,
}
use flicky.Prelude.{length, get_elem?, replicate}
use flicky.Deckmaster.{SignBias, above, below, Zone, close, mid, edge}

-- Bytes from `cap` on are rejected: a number below `n` without bias, and the bytes left.
unfoldable pub draw_below : ℕ → List ℕ → Option (ℕ × List ℕ)
draw_below n [] = none
draw_below n (b ∷ bytes) =
    let later = draw_below n bytes in if ltb b (256 - 256 % n) then some (b % n, bytes) else later

module _ {ℓ} {A : Type ℓ} where
  unfoldable pub set_at : ℕ → A → List A → List A
  set_at i y [] = []
  set_at zero y (x ∷ xs) = y ∷ xs
  set_at (suc i) y (x ∷ xs) = x ∷ set_at i y xs

  -- `[out[i], out[j]] = [out[j], out[i]]`, for indices of the array
  unfoldable pub swap_at : ℕ → ℕ → List A → List A
  unfolding set_at
  swap_at i j xs = elim (get_elem? xs i) [
    | none ↦ xs
    | some x ↦ elim (get_elem? xs j) [ none ↦ xs | some y ↦ set_at j x (set_at i y xs) ]
  ]

  -- The loop from index `i` down to 1.
  unfoldable pub shuffle_from : ℕ → List A → List ℕ → Option (List A × List ℕ)
  shuffle_from zero out bytes = some (out, bytes)
  shuffle_from (suc i) out bytes = elim (draw_below (suc (suc i)) bytes) [
    | none ↦ none
    | some (j, rest) ↦ shuffle_from i (swap_at (suc i) j out) rest
  ]

  unfoldable pub shuffle : List A → List ℕ → Option (List A × List ℕ)
  unfolding shuffle_from
  shuffle arr bytes = shuffle_from (length arr - 1) arr bytes

-- The signs before they are shuffled.
unfoldable pub sign_pattern : (deck_size up_count : ℕ) → List SignBias
sign_pattern deck_size up_count = replicate up_count above ++ replicate (deck_size - up_count) below

-- For an odd size one byte says which sign gets the extra card.
unfoldable pub up_count_of : ℕ → List ℕ → Option (ℕ × List ℕ)
up_count_of deck_size bytes =
    let half = deck_size / 2 in
    if deck_size - 2 * half == 0
    then some (half, bytes)
    else elim bytes [ [] ↦ none | b ∷ rest ↦ some (half + (if ltb b 128 then 1 else 0), rest) ]

unfoldable pub allocate_sign_balance : ℕ → List ℕ → Option (List SignBias × List ℕ)
unfolding sign_pattern up_count_of
allocate_sign_balance deck_size bytes =
    if deck_size == 0 then some ([], bytes) else elim (up_count_of deck_size bytes) [
      | none ↦ none
      | some (up_count, rest) ↦ shuffle (sign_pattern deck_size up_count) rest
    ]

-- `ZONE_PATTERN[i % 5]` for each index from `i` on.
unfoldable pub repeat_pattern : ℕ → ℕ → List Zone
repeat_pattern i zero = []
repeat_pattern i (suc n) =
    (if i % 5 == 0 || i % 5 == 1 then close else if i % 5 == 4 then edge else mid)
    ∷ repeat_pattern (suc i) n

unfoldable pub zone_pattern : ℕ → List Zone
unfolding repeat_pattern
zone_pattern n =
    if n == 1
    then close ∷ []
    else if n == 2
    then close ∷ mid ∷ []
    else if n == 3
    then close ∷ mid ∷ edge ∷ []
    else if n == 4
    then close ∷ mid ∷ mid ∷ edge ∷ []
    else repeat_pattern 0 n

unfoldable pub allocate_zones : ℕ → List ℕ → Option (List Zone × List ℕ)
unfolding zone_pattern
allocate_zones deck_size bytes =
    if deck_size == 0 then some ([], bytes) else shuffle (zone_pattern deck_size) bytes
