-- ===== src/Mmr/Closest.antt =====
-- What `findClosestOpponent` of apps/server/src/mmr.ts chooses.
use flicky.Prelude.{
  ℕ, ◌≤◌, ◌<◌, ◌≡◌, refl, ap, ◌⊎◌, inl, inr, true, false, ◌&&◌, Option, none, some, List, [], ◌∷◌,
  ◌++◌, arith, Bool-cases,
}
use flicky.Prelude.{All, All-map}
use flicky.Prelude.Int.{ℤ}
use flicky.Env.{Env}
use flicky.Mmr.{Rated, gap_of, within_window, closer, better, closest_from, find_closest_opponent}

module _ (env : Env) (now : ℕ) (my_rating : ℤ) (my_queued_at_ms : ℕ) where
  abbrev pub Eligible : Rated → Type 0
  Eligible r = within_window env now my_rating my_queued_at_ms r ≡ true

  abbrev pub Further : Rated → Rated → Type 0
  Further best r = Eligible r → gap_of my_rating best < gap_of my_rating r

  abbrev pub NoCloser : Rated → Rated → Type 0
  NoCloser best r = Eligible r → gap_of my_rating best ≤ gap_of my_rating r

  -- `best` is the first of the closest among the eligible candidates.
  pub record IsFirstClosest (pool : List Rated) (best : Rated) : Type 0 where
    pub earlier : List Rated
    pub later : List Rated
    pub split : pool ≡ earlier ++ best ∷ later
    pub eligible : Eligible best
    pub earlier_further : All (Further best) earlier
    pub later_no_closer : All (NoCloser best) later

  abbrev Passed : Option Rated → Rated → Type 0
  Passed best r =
      (within_window env now my_rating my_queued_at_ms r && closer my_rating best r) ≡ false

  -- The loop keeps what it has, or ends on a closer candidate of the pool.
  abbrev Picks : Option Rated → List Rated → Option Rated → Type 0
  Picks best pool pick =
      ((pick ≡ best) × All (Passed best) pool)
      ⊎ ((c : Rated) × (pick ≡ some c) × (closer my_rating best c ≡ true) × IsFirstClosest pool c)

  replaced :
      (best : Option Rated) (r : Rated) (pool : List Rated) (pick : Option Rated)
      → Eligible r
      → closer my_rating best r ≡ true
      → Picks (some r) pool pick
      → Picks best (r ∷ pool) pick
  replaced best r pool pick e c (inl (same, passed)) = inr (
    r,
    same,
    c,
    record {
      earlier = [];
      later = pool;
      split = refl;
      eligible = e;
      earlier_further = tt;
      later_no_closer = All-map pool (λ x p q. ground arith) passed;
    },
  )
  replaced best r pool pick e c (inr (d, same, nearer, f)) = inr (
    d,
    same,
    ground arith,
    record {
      earlier = r ∷ f.earlier;
      later = f.later;
      split = ap (◌∷◌ r) f.split;
      eligible = f.eligible;
      earlier_further = (λ _. ground arith, f.earlier_further);
      later_no_closer = f.later_no_closer;
    },
  )

  retained :
      (best : Option Rated) (r : Rated) (pool : List Rated) (pick : Option Rated)
      → Passed best r
      → Picks best pool pick
      → Picks best (r ∷ pool) pick
  retained best r pool pick p (inl (same, passed)) = inl (same, (p, passed))
  retained best r pool pick p (inr (d, same, nearer, f)) = inr (
    d,
    same,
    nearer,
    record {
      earlier = r ∷ f.earlier;
      later = f.later;
      split = ap (◌∷◌ r) f.split;
      eligible = f.eligible;
      earlier_further = (λ q. ground arith, f.earlier_further);
      later_no_closer = f.later_no_closer;
    },
  )

  better-new :
      (best : Option Rated) (r : Rated)
      → (within_window env now my_rating my_queued_at_ms r && closer my_rating best r) ≡ true
      → better env now my_rating my_queued_at_ms best r ≡ some r
  unfolding better
  better-new best r h = rw h

  better-old :
      (best : Option Rated) (r : Rated)
      → Passed best r
      → better env now my_rating my_queued_at_ms best r ≡ best
  unfolding better
  better-old best r h = rw h

  closest_from-Picks :
      (best : Option Rated) (pool : List Rated)
      → Picks best pool (closest_from env now my_rating my_queued_at_ms best pool)
  unfolding closest_from
  closest_from-Picks best [] = inl (refl, tt)
  closest_from-Picks best (r ∷ pool) =
      elim (Bool-cases
        (within_window env now my_rating my_queued_at_ms r && closer my_rating best r)) [
          | inl t ↦ rw (better-new best r t) (
              replaced best r pool _ (ground arith) (ground arith)
                (closest_from-Picks (some r) pool))
          | inr f ↦
              rw (better-old best r f) (retained best r pool _ f (closest_from-Picks best pool))
        ]

  abbrev pub IsChoice : List Rated → Option Rated → Type 0
  IsChoice pool none = All (λ r. ¬ Eligible r) pool
  IsChoice pool (some best) = IsFirstClosest pool best

  IsChoice-of_Picks :
      (pool : List Rated) (pick : Option Rated) → Picks none pool pick → IsChoice pool pick
  IsChoice-of_Picks pool none (inl (_, passed)) = All-map pool (λ r p q. ground arith) passed
  IsChoice-of_Picks pool (some c) (inl (same, _)) = cc
  IsChoice-of_Picks pool none (inr (c, same, _, _)) = cc
  IsChoice-of_Picks pool (some d) (inr (c, same, _, f)) = let e : c ≡ d = cc in rw (← e) f

-- The opponent that is found is within the wider of the two match windows, no candidate within it
-- is closer in rating, and among equals it is the first of the pool; and
-- none is found only if nobody in the pool is within the wider of the two windows.
pub find_closest_opponent-IsChoice :
    (env : Env) (now : ℕ) (my_rating : ℤ) (my_queued_at_ms : ℕ) (pool : List Rated)
    → IsChoice env now my_rating my_queued_at_ms pool
        (find_closest_opponent env now my_rating my_queued_at_ms pool)
unfolding find_closest_opponent
find_closest_opponent-IsChoice env now my_rating my_queued_at_ms pool =
    IsChoice-of_Picks env now my_rating my_queued_at_ms pool _
      (closest_from-Picks env now my_rating my_queued_at_ms none pool)
