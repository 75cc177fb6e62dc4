-- ===== src/Mmr.antt =====
-- apps/server/src/mmr.ts: the choice of an opponent. Ratings are whole numbers, of either sign.
-- A match window has fractions there, of a second's share of the expansion: here gaps and windows
-- are compared in thousandths of a rating point, which is exact.
pub mod Closest
pub mod Ladder
mod Tests
use flicky.Prelude.{
  ℕ, zero, suc, ◌+◌, ◌-◌, ◌*◌, ◌/◌, ◌%◌, ◌^◌, ◌≤◌, ◌<◌, String, ◌≡◌, refl, sym, ap, ◌∙◌, ◌≢◌, ◌↔◌,
  ◌⊎◌, inl, inr, Bool, true, false, not, ◌&&◌, ◌||◌, Option, none, some, List, [], ◌∷◌, ◌++◌, map,
  arith, eq_iff, ltb, leb, ◌==◌, str_eq, str_eq_refl, if◌then◌else◌, Bool-cases, Option-cases,
  ==_iff, ==_refl, ltb→lt, leb→le, le→leb,
}
use flicky.Prelude.Int.{ℤ, ◌-ℤ◌, abs}
use flicky.Env.{Env}

pub record Candidate : Type 0 where
  pub address : String
  pub queued_at_ms : ℕ

-- A candidate with the rating that `getPlayerRating` gave.
pub record Rated : Type 0 where
  pub c : Candidate
  pub rating : ℤ

-- `Math.max(0, waitMs / 1000)` is the truncated difference.
unfoldable pub match_window : Env → ℕ → ℕ → ℕ
match_window env now queued_at_ms =
    env.mmr_match_window_initial * 1000 + (now - queued_at_ms) * env.mmr_match_window_expand_per_sec

unfoldable pub gap_of : ℤ → Rated → ℕ
unfolding ◌-ℤ◌
gap_of my_rating r = abs (r.rating -ℤ my_rating)

abbrev pub max : ℕ → ℕ → ℕ
max a b = if ltb a b then b else a

-- `gap > window` is not the case.
unfoldable pub within_window : Env → ℕ → ℤ → ℕ → Rated → Bool
unfolding match_window
within_window env now my_rating my_queued_at_ms r =
    leb (gap_of my_rating r * 1000)
      (max (match_window env now r.c.queued_at_ms) (match_window env now my_queued_at_ms))

abbrev pub closer : ℤ → Option Rated → Rated → Bool
closer my_rating none r = true
closer my_rating (some best) r = ltb (gap_of my_rating r) (gap_of my_rating best)

-- One round of the loop.
unfoldable pub better : Env → ℕ → ℤ → ℕ → Option Rated → Rated → Option Rated
better env now my_rating my_queued_at_ms best r =
    if within_window env now my_rating my_queued_at_ms r && closer my_rating best r
    then some r
    else best

unfoldable pub closest_from : Env → ℕ → ℤ → ℕ → Option Rated → List Rated → Option Rated
closest_from env now my_rating my_queued_at_ms best [] = best
closest_from env now my_rating my_queued_at_ms best (r ∷ pool) =
    closest_from env now my_rating my_queued_at_ms (better env now my_rating my_queued_at_ms best r)
      pool

unfoldable pub find_closest_opponent : Env → ℕ → ℤ → ℕ → List Rated → Option Rated
unfolding closest_from better
find_closest_opponent env now my_rating my_queued_at_ms pool =
    closest_from env now my_rating my_queued_at_ms none pool
