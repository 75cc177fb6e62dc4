-- ===== src/DuelResult/Tests.antt =====
-- Each theorem on apps/web/src/lib/duel-result.ts at a concrete input.
use flicky.Prelude.{true, none, []}
use flicky.Duel.{DuelRow, complete}

abbrev close_duel : DuelRow
close_duel = record {
  id = "0xd";
  status = complete;
  stake_coin_type = "dusdc";
  creator = "0xa";
  challenger = "0xb";
  cards_revealed = true;
  card_count = 5;
  settled_count = 5;
  winner = none;
  p0_payout = 12;
  p0_premium = 15;
  p1_payout = 6;
  p1_premium = 16;
  started_at_ms = 0;
  card_outcomes = [];
  swipes = [];
  cards = [];
  last_updated_ms = 0;
}
