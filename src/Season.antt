-- ===== src/Season.antt =====
-- The board of a season: the queries `leaderboard` and `playerRank` of apps/server/src/db.ts.
pub mod Ranks
mod Tests
use flicky.Prelude.{
  ℕ, zero, suc, ◌+◌, ◌-◌, ◌*◌, ◌/◌, ◌%◌, ◌^◌, ◌≤◌, ◌<◌, String, ◌≡◌, refl, sym, ap, ◌∙◌, ◌≢◌, ◌↔◌,
  ◌⊎◌, inl, inr, Bool, true, false, not, ◌&&◌, ◌||◌, Option, none, some, List, [], ◌∷◌, ◌++◌, map,
  arith, eq_iff, ltb, leb, ◌==◌, str_eq, str_eq_refl, if◌then◌else◌, Bool-cases, Option-cases,
  ==_iff, ==_refl, ltb→lt, leb→le, le→leb,
}
use flicky.Prelude.{count_if, keep, take, find}
use flicky.Prelude.Int.{ℤ, pos, ◌+ℤ◌, ◌-ℤ◌, ltb_ℤ}
use flicky.Mmr.Ladder.{PlayerRating}

-- A row of `player_rating` of one network.
abbrev pub Row : Type 0
Row = String × PlayerRating

abbrev pub is_ranked : Row → Bool
is_ranked (address, r) = ltb 0 r.games_played

-- `SELECT … WHERE games_played > 0 ORDER BY rating DESC LIMIT`: the order is the database's.
unfoldable pub leaderboard : (List Row → List Row) → ℕ → List Row → List Row
leaderboard order limit table = take limit (order (keep is_ranked table))

abbrev pub is_above : ℤ → Row → Bool
is_above rating (address, o) = ltb_ℤ rating o.rating

abbrev pub rank_of : ℤ → List Row → ℕ
rank_of rating table = count_if (λ o. is_ranked o && is_above rating o) table + 1

abbrev pub is_of : String → Row → Bool
is_of own (address, r) = str_eq address own && ltb 0 r.games_played

unfoldable pub player_rank : String → List Row → Option ℕ
player_rank own table = elim (find (is_of own) table) [
  | none ↦ none
  | some (address, r) ↦ some (rank_of r.rating table)
]
