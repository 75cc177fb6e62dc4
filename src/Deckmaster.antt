-- ===== src/Deckmaster.antt =====
-- apps/server/src/deckmaster.ts: which markets a deck is made of, and its cards. Prices and ticks
-- are natural numbers, of which a price below 0, which the source lifts to 0, is none.
pub mod Selection
pub mod Strike
pub mod Dealing
pub mod Deck
pub mod Size
mod Tests
use flicky.Prelude.{
  ℕ, zero, suc, ◌+◌, ◌-◌, ◌*◌, ◌/◌, ◌%◌, ◌^◌, ◌≤◌, ◌<◌, String, ◌≡◌, refl, sym, ap, ◌∙◌, ◌≢◌, ◌↔◌,
  ◌⊎◌, inl, inr, Bool, true, false, not, ◌&&◌, ◌||◌, Option, none, some, List, [], ◌∷◌, ◌++◌, map,
  arith, eq_iff, ltb, leb, ◌==◌, str_eq, str_eq_refl, if◌then◌else◌, Bool-cases, Option-cases,
  ==_iff, ==_refl, ltb→lt, leb→le, le→leb,
}

pub record MarketRow : Type 0 where
  pub expiry_market_id : String
  pub propbook_underlying_id : ℕ
  pub expiry : ℕ
  pub tick_size : ℕ
  pub admission_tick_size : ℕ
  pub kind : String
  pub checkpoint_timestamp_ms : Option ℕ

pub record MarketSnapshot : Type 0 where
  pub expiry_market_id : String
  pub expiry : ℕ
  pub tick_size : ℕ
  pub admission_tick_size : ℕ

pub data SignBias : Type 0 where
  above below : SignBias

abbrev pub is_below : SignBias → Bool
is_below above = false
is_below below = true

abbrev pub is_above : SignBias → Bool
is_above sign = not (is_below sign)

pub data Zone : Type 0 where
  close mid edge : Zone

pub record DeckCardOut : Type 0 where
  pub expiry_market_id : String
  pub strike : ℕ
  pub lower_tick : ℕ
  pub higher_tick : ℕ
  pub is_up_favored : Bool
