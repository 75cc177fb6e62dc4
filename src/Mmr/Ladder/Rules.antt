-- ===== src/Mmr/Ladder/Rules.antt =====
-- apps/server/src/mmr.ts: the fallback of `outcomeFromDuel`.
use flicky.Prelude.{ℕ, ◌+◌, ◌≡◌, none, arith, ltb, if◌then◌else◌}
use flicky.Duel.{DuelRow}
use flicky.Mmr.Ladder.{DuelOutcome, p0_win, p1_win, tied, outcome_from_duel}

-- The contract's comparison of the two sides' sums.
abbrev pub by_sums : ℕ → ℕ → DuelOutcome
by_sums val0 val1 = if ltb val1 val0 then p0_win else if ltb val0 val1 then p1_win else tied

-- For a duel whose winner was not recorded the comparison of the two nets is the contract's rule:
-- the first player's payout and the second's premium against the second's payout and the first's
-- premium.
outcome_from_duel-rule :
    (d : DuelRow)
    → d.winner ≡ none
    → outcome_from_duel d ≡ by_sums (d.p0_payout + d.p1_premium) (d.p1_payout + d.p0_premium)
unfolding outcome_from_duel
outcome_from_duel-rule d e = ground arith
