-- ===== src/Duel.antt =====
-- The rows of apps/server/src/db.ts that mirror a duel: `DuelRow`, `CardOutcome`, `PendingSwipe`.
-- Amounts that the source keeps as decimal strings are the numbers that the strings denote.
use flicky.Prelude.{ℕ, String, Bool, Option, List}
use flicky.Prelude.Int.{ℤ}

pub data Status : Type 0 where
  pending active complete : Status

pub data DuelWinner : Type 0 where
  p0 p1 tie : DuelWinner

pub record Card : Type 0 where
  pub expiry_market_id : String
  pub strike : ℕ

pub record Swipe : Type 0 where
  pub is_up : Bool
  pub quantity : ℕ
  pub order_id : ℕ

pub record PendingSwipe : Type 0 where
  pub card_idx : ℕ
  pub p0_swipe : Option Swipe
  pub p1_swipe : Option Swipe
  -- `premium` of the two sides, where it is known
  pub p0_premium : Option ℕ
  pub p1_premium : Option ℕ

pub record CardOutcome : Type 0 where
  pub card_idx : ℕ
  pub settlement_price : ℕ
  pub strike : ℕ
  pub up_won : Bool
  pub p0_pnl : Option ℤ
  pub p1_pnl : Option ℤ
  pub p0_swipe : Option Swipe
  pub p1_swipe : Option Swipe

pub record DuelRow : Type 0 where
  pub id : String
  pub status : Status
  pub stake_coin_type : String
  pub creator : String
  pub challenger : String
  pub cards_revealed : Bool
  pub card_count : ℕ
  pub settled_count : ℕ
  pub winner : Option DuelWinner
  pub p0_payout : ℕ
  pub p0_premium : ℕ
  pub p1_payout : ℕ
  pub p1_premium : ℕ
  pub started_at_ms : ℕ
  pub card_outcomes : List CardOutcome
  pub swipes : List PendingSwipe
  pub cards : List Card
  pub last_updated_ms : ℕ
