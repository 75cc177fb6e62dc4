-- ===== src/Season/Ranks.antt =====
-- The position of a player on the board and the rank that `playerRank` gives it.
use flicky.Prelude.{
  ℕ, zero, suc, ◌+◌, ◌≤◌, String, ◌≡◌, refl, sym, ap, ◌∙◌, ◌↔◌, inl, inr, Bool, true, ◌&&◌, some,
  List, [], ◌∷◌, arith, Bool-cases,
}
use flicky.Prelude.{get_elem?, take, count_if, keep, find, All, times}
use flicky.Prelude.Int.{ℤ, ◌≤ℤ◌}
use mathlib.Core.Path.{subst}
use mathlib.Core.Option.{none-ne-some}
use mathlib.Core.Bool.{false≢true}
use flicky.Mmr.Ladder.{PlayerRating}
use flicky.Season.{Row, is_ranked, leaderboard, is_above, rank_of, is_of, player_rank}

-- The ratings of a board never rise.
abbrev pub Descending : List Row → Type 0
Descending [] = Unit
Descending ((address, r) ∷ rest) =
    All (λ (address', o). o.rating ≤ℤ r.rating) rest × Descending rest

-- What the database does for `ORDER BY rating DESC`: the same rows in that order.
pub record IsOrder (order : List Row → List Row) : Type 0 where
  pub same : (p : Row → Bool) (xs : List Row) → count_if p (order xs) ≡ count_if p xs
  pub descends : (xs : List Row) → Descending (order xs)

count_if-keep :
    (p q : Row → Bool) (xs : List Row) → count_if q (keep p xs) ≡ count_if (λ o. p o && q o) xs
count_if-keep p q [] = refl
count_if-keep p q (x ∷ xs) = ground (arith, count_if-keep p q xs)

none_above :
    (z : ℤ) (xs : List Row) → All (λ (address, o). o.rating ≤ℤ z) xs → count_if (is_above z) xs ≡ 0
none_above z [] h = refl
none_above z ((address, o) ∷ xs) (h, k) = ground (arith, none_above z xs k)

-- Nobody from a position on is above who stands there.
count_if-take :
    (xs : List Row) (i : ℕ) (address : String) (r : PlayerRating)
    → Descending xs
    → get_elem? xs i ≡ some (address, r)
    → count_if (is_above r.rating) xs ≡ count_if (is_above r.rating) (take i xs)
count_if-take [] i address r d e = cc
count_if-take ((a, o) ∷ xs) zero address r (h, d) e =
    let same : o.rating ≡ r.rating = cc in
    subst (λ z. count_if (is_above z) ((a, o) ∷ xs) ≡ 0) same
      (none_above o.rating ((a, o) ∷ xs) (omega arith, h))
count_if-take ((a, o) ∷ xs) (suc i) address r (h, d) e =
    ap (λ k. times (is_above r.rating (a, o)) + k) (count_if-take xs i address r d e)

count_if-full :
    (p : Row → Bool) (xs : List Row) (i : ℕ) (x : Row)
    → get_elem? xs i ≡ some x
    → (count_if p (take i xs) ≤ i)
      × ((count_if p (take i xs) ≡ i) ↔ All (λ o. p o ≡ true) (take i xs))
count_if-full p [] i x e = absurd (none-ne-some x e)
count_if-full p (y ∷ xs) zero x e = (omega arith, (λ h. tt, λ h. refl))
count_if-full p (y ∷ xs) (suc i) x e =
    let (below, full) = count_if-full p xs i x e in
    let (all, count) = full in
    elim (Bool-cases (p y)) [
      | inl t ↦ rw t (
        omega (arith, below),
        (λ h. (refl, all (omega (arith, h))), λ (h, k). omega (arith, count k)),
      )
      | inr f ↦ rw f (
        omega (arith, below),
        (λ h. absurd (omega (arith, h, below)), λ (h, k). absurd (false≢true h)),
      )
    ]

get_elem?-take :
    (limit i : ℕ) (xs : List Row) (x : Row)
    → get_elem? (take limit xs) i ≡ some x
    → (get_elem? xs i ≡ some x) × (take i (take limit xs) ≡ take i xs)
get_elem?-take zero i xs x e = absurd (none-ne-some x e)
get_elem?-take (suc limit) i [] x e = absurd (none-ne-some x e)
get_elem?-take (suc limit) zero (y ∷ xs) x e = (e, refl)
get_elem?-take (suc limit) (suc i) (y ∷ xs) x e =
    let (at, same) = get_elem?-take limit i xs x e in (at, ap (λ zs. y ∷ zs) same)

-- Where the database gives the rows in the order of their ratings, the rank that a player is told
-- of is never behind its position on the board, and is that position exactly where every player
-- before it has a higher rating: of players with equal ratings, who share a rank, all but the
-- first are listed further down.
pub player_rank-position :
    (order : List Row → List Row)
    → IsOrder order
    → (table : List Row) (limit i : ℕ) (own : String) (r : PlayerRating)
    → get_elem? (leaderboard order limit table) i ≡ some (own, r)
    → find (is_of own) table ≡ some (own, r)
    → (rank : ℕ) × ((player_rank own table ≡ some rank)
        × ((rank ≤ i + 1)
            × ((rank ≡ i + 1)
                ↔ All (λ o. is_above r.rating o ≡ true) (take i (leaderboard order limit table)))))
unfolding leaderboard player_rank
player_rank-position order h table limit i own r e f =
    let board = order (keep is_ranked table) in
    let above = is_above r.rating in
    let (at, same) = get_elem?-take limit i board (own, r) e in
    let (below, full) = count_if-full above board i (own, r) at in
    let (all, count) = full in
    let ranked : rank_of r.rating table ≡ count_if above (take i board) + 1 =
      ap (λ k. k + 1)
        (sym (count_if-keep is_ranked above table)
          ∙ (sym (h.same above (keep is_ranked table))
              ∙ count_if-take board i own r (h.descends (keep is_ranked table)) at)) in
    (
      rank_of r.rating table,
      (
        rw (f, player_rank) refl,
        (
          omega (arith, ranked, below),
          rw same (λ g. all (omega (arith, g, ranked)), λ g. omega (arith, count g, ranked)),
        ),
      ),
    )
