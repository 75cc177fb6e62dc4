-- ===== src/Season/Tests.antt =====
-- A board, and the theorem at it.
use flicky.Prelude.{
  ℕ, ◌+◌, ◌≤◌, ◌≡◌, refl, ◌↔◌, inl, inr, Bool, true, some, List, [], ◌∷◌, arith, if◌then◌else◌,
  Bool-cases, leb→le,
}
use flicky.Prelude.{take, get_elem?, count_if, All, All-map, times}
use flicky.Prelude.Int.{ℤ, pos, ◌≤ℤ◌, leb_ℤ}
use flicky.Mmr.Ladder.{PlayerRating}
use flicky.Season.{Row, leaderboard, is_above, player_rank}
use flicky.Season.Ranks.{Descending, player_rank-position}

-- An order by rating: insertion.
unfoldable place : Row → List Row → List Row
place x [] = x ∷ []
place (a, r) ((b, o) ∷ xs) =
    let rest = place (a, r) xs in
    if leb_ℤ o.rating r.rating then (a, r) ∷ (b, o) ∷ xs else (b, o) ∷ rest

unfoldable by_rating : List Row → List Row
unfolding place
by_rating [] = []
by_rating (x ∷ xs) = place x (by_rating xs)

count_if-place :
    (p : Row → Bool) (x : Row) (xs : List Row)
    → count_if p (place x xs) ≡ times (p x) + count_if p xs
unfolding place
count_if-place p x [] = refl
count_if-place p (a, r) ((b, o) ∷ xs) = ground (arith, count_if-place p (a, r) xs)

count_if-by_rating : (p : Row → Bool) (xs : List Row) → count_if p (by_rating xs) ≡ count_if p xs
unfolding by_rating
count_if-by_rating p [] = refl
count_if-by_rating p (x ∷ xs) =
    omega (arith, count_if-place p x (by_rating xs), count_if-by_rating p xs)

abbrev Under : ℤ → Row → Type 0
Under z (address, o) = o.rating ≤ℤ z

place-Under :
    (z : ℤ) (x : Row) (xs : List Row) → Under z x → All (Under z) xs → All (Under z) (place x xs)
unfolding place
place-Under z x [] h k = (h, tt)
place-Under z (a, r) ((b, o) ∷ xs) h (k, l) = elim (Bool-cases (leb_ℤ o.rating r.rating)) [
  | inl e ↦ rw e (h, (k, l))
  | inr e ↦ rw e (k, place-Under z (a, r) xs h l)
]

place-Descending : (x : Row) (xs : List Row) → Descending xs → Descending (place x xs)
unfolding place
place-Descending x [] d = (tt, tt)
place-Descending (a, r) ((b, o) ∷ xs) (h, d) = elim (Bool-cases (leb_ℤ o.rating r.rating)) [
  | inl e ↦
      let below : o.rating ≤ℤ r.rating = leb→le _ _ e in
      rw e ((below, All-map xs (λ (c, q) k. omega (arith, k, below)) h), (h, d))
  | inr e ↦
      rw e (place-Under o.rating (a, r) xs (ground (arith, e)) h, place-Descending (a, r) xs d)
]

by_rating-Descending : (xs : List Row) → Descending (by_rating xs)
unfolding by_rating
by_rating-Descending [] = tt
by_rating-Descending (x ∷ xs) = place-Descending x (by_rating xs) (by_rating-Descending xs)

abbrev rated : ℕ → PlayerRating
rated n = record {
  rating = pos n;
  games_played = 3;
  wins = 1;
  losses = 1;
  ties = 1;
  last_updated_ms = 0;
}

-- Two players share the highest rating.
abbrev table : List Row
table = ("0xa", rated 1000) ∷ ("0xb", rated 1200) ∷ ("0xc", rated 1200) ∷ []

-- The second of them is told of rank 1 and stands at position 2.
told_first : player_rank "0xc" table ≡ some 1
unfolding player_rank
told_first = refl

listed_second : get_elem? (leaderboard by_rating 20 table) 1 ≡ some ("0xc", rated 1200)
unfolding leaderboard by_rating place
listed_second = refl

player_rank-position_example :
    (rank : ℕ) × ((player_rank "0xc" table ≡ some rank)
      × ((rank ≤ 2)
          × ((rank ≡ 2)
              ↔ All (λ o. is_above (pos 1200) o ≡ true) (take 1 (leaderboard by_rating 20 table)))))
player_rank-position_example =
    player_rank-position by_rating
      (record { same = count_if-by_rating; descends = by_rating-Descending }) table 20 1 "0xc"
      (rated 1200) listed_second refl
