-- ===== src/Mmr/Tests.antt =====
-- Runs of apps/server/src/mmr.ts, and each theorem at a concrete input.
use flicky.Prelude.{ℕ, String, ◌≡◌, refl, true, Option, none, some, List, [], ◌∷◌, arith, eq_iff}
use flicky.Prelude.Int.{ℤ, pos, ◌-ℤ◌}
use flicky.Env.{default_env}
use flicky.Duel.{DuelRow, DuelWinner, p1, tie, complete}
use flicky.Mmr.{
  Rated, match_window, gap_of, within_window, better, closest_from, find_closest_opponent,
}
use flicky.Mmr.Closest.{find_closest_opponent-IsChoice, IsChoice}
use flicky.Mmr.Ladder.{recompute_ratings_from_mirror}
use flicky.Mmr.Ladder.Replay.{row, total, games_of, wins_in, losses_in, ties_in, recompute-exact}

chooser : Unit {0}
unfolding find_closest_opponent closest_from better within_window gap_of match_window ◌-ℤ◌
chooser = tt

abbrev rated_at : String → ℕ → ℕ → Rated
rated_at a queued_at_ms r = record {
  c = record { address = a; queued_at_ms = queued_at_ms };
  rating = pos r;
}

abbrev pool : List Rated
pool = rated_at "0xa" 9000 1300 ∷ rated_at "0xb" 9000 1150 ∷ rated_at "0xc" 9000 850 ∷ []

-- The window has grown from 200 to 220 points: the first is too far, the third no closer.
second_found :
    find_closest_opponent default_env 10000 (pos 1000) 10000 pool ≡ some (rated_at "0xb" 9000 1150)
unfolding chooser
second_found = refl

-- After five seconds the one who waits has a window of 300 points.
waiting_helps :
    find_closest_opponent default_env 14000 (pos 1000) 14000 (rated_at "0xa" 9000 1300 ∷ [])
    ≡ some (rated_at "0xa" 9000 1300)
unfolding chooser
waiting_helps = refl

find_closest_opponent-IsChoice_example :
    IsChoice default_env 10000
      (pos 1000)
      10000
      pool
      (find_closest_opponent default_env 10000 (pos 1000) 10000 pool)
find_closest_opponent-IsChoice_example =
    find_closest_opponent-IsChoice default_env 10000 (pos 1000) 10000 pool

abbrev side : String → String → Option DuelWinner → DuelRow
side creator challenger winner = record {
  id = "0xd";
  status = complete;
  stake_coin_type = "dusdc";
  creator = creator;
  challenger = challenger;
  cards_revealed = true;
  card_count = 5;
  settled_count = 5;
  winner = winner;
  p0_payout = 12;
  p0_premium = 15;
  p1_payout = 6;
  p1_premium = 16;
  started_at_ms = 0;
  card_outcomes = [];
  swipes = [];
  cards = [];
  last_updated_ms = 0;
}

abbrev mirror : List DuelRow
mirror = side "0xa" "0xb" (some tie) ∷ side "0xb" "0xc" (some p1) ∷ side "0xa" "0xb" none ∷ []

-- Any ELO step will do here.
abbrev no_step : ℤ → ℤ → ℕ → ℤ
no_step self opp score = self

recompute-exact_example :
    let r =
      row default_env no_step "0xb" (recompute_ratings_from_mirror default_env no_step mirror 7) in
    (r.games_played ≡ total (games_of default_env no_step "0xb") mirror)
    × ((r.wins ≡ total (wins_in default_env no_step "0xb") mirror)
        × ((r.losses ≡ total (losses_in default_env no_step "0xb") mirror)
            × (r.ties ≡ total (ties_in default_env no_step "0xb") mirror)))
recompute-exact_example = recompute-exact default_env no_step "0xb" mirror 7 (
  (λ e. ground (arith, eq_iff "0xa" "0xb")),
  ((λ e. ground (arith, eq_iff "0xb" "0xc")), ((λ e. ground (arith, eq_iff "0xa" "0xb")), tt)),
)
