-- ===== src/Mmr/Ladder.antt =====
-- apps/server/src/mmr.ts: the outcome of a duel, and the players' rows, which `applyDuelOutcome`
-- updates and `recomputeRatingsFromMirror` builds anew. The ELO step itself is floating-point
-- arithmetic with `Math.pow`: `new_rating` stands for `Math.round(self + k * (score - expected))`,
-- with the score doubled.
pub mod Rules
pub mod Replay
use flicky.Prelude.{
  ℕ, zero, suc, ◌+◌, ◌-◌, ◌*◌, ◌/◌, ◌%◌, ◌^◌, ◌≤◌, ◌<◌, String, ◌≡◌, refl, sym, ap, ◌∙◌, ◌≢◌, ◌↔◌,
  ◌⊎◌, inl, inr, Bool, true, false, not, ◌&&◌, ◌||◌, Option, none, some, List, [], ◌∷◌, ◌++◌, map,
  arith, eq_iff, ltb, leb, ◌==◌, str_eq, str_eq_refl, if◌then◌else◌, Bool-cases, Option-cases,
  ==_iff, ==_refl, ltb→lt, leb→le, le→leb,
}
use flicky.Prelude.Int.{ℤ, sub_ℕ, ltb_ℤ, pos}
use flicky.Prelude.Maps.{lookup, insert}
use flicky.Duel.{DuelRow, DuelWinner, p0, p1, tie}
use flicky.Env.{Env}

pub data DuelOutcome : Type 0 where
  p0_win p1_win tied : DuelOutcome

pub record PlayerRating : Type 0 where
  pub rating : ℤ
  pub games_played : ℕ
  pub wins : ℕ
  pub losses : ℕ
  pub ties : ℕ
  pub last_updated_ms : ℕ

abbrev pub Table : Type 0
Table = List (String × PlayerRating)

-- A player without a row.
abbrev pub unrated : Env → PlayerRating
unrated env = record {
  rating = pos env.mmr_initial_rating;
  games_played = 0;
  wins = 0;
  losses = 0;
  ties = 0;
  last_updated_ms = 0;
}

unfoldable pub get_player_rating : Env → String → Table → PlayerRating
get_player_rating env address table = elim (lookup address table) [
  | none ↦ unrated env
  | some row ↦ row
]

abbrev pub outcome_by_net : ℤ → ℤ → DuelOutcome
outcome_by_net p0_net p1_net =
    if ltb_ℤ p1_net p0_net then p0_win else if ltb_ℤ p0_net p1_net then p1_win else tied

unfoldable pub outcome_from_duel : DuelRow → DuelOutcome
outcome_from_duel d = elim d.winner [
  | some p0 ↦ p0_win
  | some p1 ↦ p1_win
  | some tie ↦ tied
  | none ↦ outcome_by_net (sub_ℕ d.p0_payout d.p0_premium) (sub_ℕ d.p1_payout d.p1_premium)
]

-- Twice the score of the first player, and of the second.
abbrev pub score0 : DuelOutcome → ℕ
score0 p0_win = 2
score0 p1_win = 0
score0 tied = 1

abbrev pub score1 : DuelOutcome → ℕ
score1 o = 2 - score0 o

abbrev pub won0 : DuelOutcome → ℕ
won0 p0_win = 1
won0 p1_win = 0
won0 tied = 0

abbrev pub won1 : DuelOutcome → ℕ
won1 p0_win = 0
won1 p1_win = 1
won1 tied = 0

abbrev pub drew : DuelOutcome → ℕ
drew p0_win = 0
drew p1_win = 0
drew tied = 1

-- `reverse()`, onto the rows that are reversed already
unfoldable pub reversed_onto : List DuelRow → List DuelRow → List DuelRow
reversed_onto [] done = done
reversed_onto (d ∷ ds) done = reversed_onto ds (d ∷ done)

-- A row without both players is skipped.
abbrev pub complete_row : DuelRow → Bool
complete_row d = not (str_eq d.creator "") && not (str_eq d.challenger "")

module _ (env : Env) (new_rating : ℤ → ℤ → ℕ → ℤ) where
  -- Both rows are read first, and the second player's is written last.
  unfoldable pub apply_duel_outcome : String → String → DuelOutcome → ℕ → Table → Table
  unfolding get_player_rating
  apply_duel_outcome player0 player1 o now table =
      let a = get_player_rating env player0 table in
      let b = get_player_rating env player1 table in
      insert player1
        (record {
          rating = new_rating b.rating a.rating (score1 o);
          games_played = b.games_played + 1;
          wins = b.wins + won1 o;
          losses = b.losses + won0 o;
          ties = b.ties + drew o;
          last_updated_ms = now;
        })
        (insert player0
          (record {
            rating = new_rating a.rating b.rating (score0 o);
            games_played = a.games_played + 1;
            wins = a.wins + won0 o;
            losses = a.losses + won1 o;
            ties = a.ties + drew o;
            last_updated_ms = now;
          })
          table)

  -- The loop, over the rows from the oldest on.
  unfoldable pub replay : List DuelRow → ℕ → Table → Table
  unfolding apply_duel_outcome outcome_from_duel
  replay [] now table = table
  replay (d ∷ ds) now table =
      let applied = apply_duel_outcome d.creator d.challenger (outcome_from_duel d) now table in
      replay ds now (if complete_row d then applied else table)

  -- The mirror gives the newest first; the table is cleared.
  unfoldable pub recompute_ratings_from_mirror : List DuelRow → ℕ → Table
  unfolding replay
  recompute_ratings_from_mirror newest_first now = replay (reversed_onto newest_first []) now []
