-- ===== src/DuelResult/Agrees.antt =====
-- The results that apps/web/src/lib/duel-result.ts shows, and the outcome that
-- apps/server/src/mmr.ts rates.
use flicky.Prelude.{
  ◌≤◌, String, ◌≡◌, refl, ◌≢◌, Bool, true, false, List, [], ◌∷◌, arith, eq_iff, str_eq, str_eq_refl,
}
use flicky.Prelude.{length, count_if}
use flicky.Duel.{DuelWinner, p0, p1, tie, DuelRow}
use flicky.Mmr.Ladder.{DuelOutcome, p0_win, p1_win, tied}
use flicky.DuelResult
use flicky.DuelResult.{
  PlayerResult, win, loss, winner_side_of, result_for, player_duel_result, hit_of,
  summarize_duel_result,
}

-- The outcome of a side that won.
abbrev pub outcome_of : DuelWinner → DuelOutcome
outcome_of p0 = p0_win
outcome_of p1 = p1_win
outcome_of tie = tied

abbrev pub opposite : PlayerResult → PlayerResult
opposite win = loss
opposite loss = win
opposite DuelResult.tied = DuelResult.tied

result_for-opposite : (w : DuelWinner) → result_for w false ≡ opposite (result_for w true)
unfolding result_for
result_for-opposite p0 = refl
result_for-opposite p1 = refl
result_for-opposite tie = refl

-- The two players of a duel see opposite results, where their addresses differ also in lower case:
-- one has won what the other has lost, or both have tied.
player_duel_result-opposite :
    (lower : String → String) (d : DuelRow)
    → lower d.creator ≢ lower d.challenger
    → player_duel_result lower d d.challenger ≡ opposite (player_duel_result lower d d.creator)
unfolding player_duel_result
player_duel_result-opposite lower d h =
    let other : str_eq (lower d.creator) (lower d.challenger) ≡ false =
      ground (arith, h, eq_iff (lower d.creator) (lower d.challenger)) in
    rw (other, str_eq_refl) (result_for-opposite (winner_side_of d))

count_if-length : {A : Type 0} (p : A → Bool) (xs : List A) → count_if p xs ≤ length xs
count_if-length p [] = ground arith
count_if-length p (x ∷ xs) = ground (arith, count_if-length p xs)

-- The card of a finished duel shows the result that the tiles show for the same player, and never
-- more hits than cards.
summary-agrees :
    (lower : String → String) (d : DuelRow) (me : String)
    → let s = summarize_duel_result d (str_eq (lower d.creator) (lower me)) in
      (s.outcome ≡ player_duel_result lower d me) × (s.hits ≤ s.total_cards)
unfolding summarize_duel_result player_duel_result
summary-agrees lower d me = (
  refl,
  ground (arith, count_if-length (hit_of (str_eq (lower d.creator) (lower me))) d.card_outcomes),
)
