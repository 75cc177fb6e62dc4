-- ===== src/DuelState/Tests.antt =====
-- The theorem on apps/web/src/lib/duel-state.ts at a concrete input.
use flicky.Prelude.{String, Bool, true, false, [], ◌∷◌, str_eq}
use flicky.Duel.{active}
use flicky.DuelState.{LiveDuel}

abbrev stuck : LiveDuel
stuck = record {
  status = active;
  cards = "0xm" ∷ "0xn" ∷ [];
  swipes = record { card_idx = 0; p0_swipe = true; p1_swipe = false } ∷ [];
}

abbrev first_settled : String → Bool
first_settled market = str_eq market "0xm"
