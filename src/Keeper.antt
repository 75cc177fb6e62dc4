-- ===== src/Keeper.antt =====
-- apps/server/src/keeper.ts: the process that reveals, settles and finalizes duels. What the chain,
-- the deck store and the indexer answer is a `Chain` of replies; a reply may be an exception. One
-- pass of `tryClose` is a function of them, which gives the transactions that it sent.
pub mod Errors
pub mod Cards
pub mod Revealing
pub mod Batch
pub mod Closing
pub mod Ready
pub mod Ordering
pub mod Settling
pub mod Passes
mod Tests
use flicky.Prelude.{
  ℕ, zero, suc, ◌+◌, ◌-◌, ◌*◌, ◌/◌, ◌%◌, ◌^◌, ◌≤◌, ◌<◌, String, ◌≡◌, refl, sym, ap, ◌∙◌, ◌≢◌, ◌↔◌,
  ◌⊎◌, inl, inr, Bool, true, false, not, ◌&&◌, ◌||◌, Option, none, some, List, [], ◌∷◌, ◌++◌, map,
  arith, eq_iff, ltb, leb, ◌==◌, str_eq, str_eq_refl, if◌then◌else◌, Bool-cases, Option-cases,
  ==_iff, ==_refl, ltb→lt, leb→le, le→leb,
}

-- What a read gave, or the text of the exception that it threw.
pub data Reply (A : Type 0) : Type 0 where
  got : A → Reply A
  threw : String → Reply A

pub record SwipeLite : Type 0 where
  pub is_up : Bool
  pub quantity : ℕ
  pub order_id : ℕ

pub record Card : Type 0 where
  pub expiry_market_id : String
  pub strike : ℕ

pub data DuelStatus : Type 0 where
  pending active complete : DuelStatus

pub record DuelLite : Type 0 where
  pub id : String
  pub status : DuelStatus
  pub deck_hash_hex : String
  pub creator : String
  pub challenger : String
  pub cards : List Card
  pub p0_swipes : List (Option SwipeLite)
  pub p1_swipes : List (Option SwipeLite)
  pub p0_next_card_idx : ℕ
  pub p1_next_card_idx : ℕ
  pub cards_settled : List Bool

-- `STATUS_MAP[String(f.status)] ?? "PENDING"`
abbrev pub status_map : ℕ → DuelStatus
status_map n = if n == 2 then active else if n == 3 then complete else pending

-- The price of an `ExpiryMarket` object, at its root or under `strike_exposure`.
pub record MarketJson : Type 0 where
  pub settlement_price : Option ℕ
  pub strike_exposure_price : Option ℕ

-- A premium, and whether it was found.
pub record Premium : Type 0 where
  pub value : ℕ
  pub resolved : Bool

-- The Move calls of the transactions.
pub data Call : Type 0 where
  new_card : (expiry_market_id : String) → (strike : ℕ) → Call
  reveal_deck : (duel_id : String) → Call
  settle_card :
      (duel_id p0_wrapper p1_wrapper : String)
      → (i settlement_price p0_premium p1_premium : ℕ) → Call
  finalize : (duel_id : String) → Call
  redeem_settled_permissionless : (expiry_market_id wrapper_id : String) → (order_id : ℕ) → Call

pub data TxResult : Type 0 where
  success : TxResult
  failed : (reason : String) → TxResult
  tx_threw : (msg : String) → TxResult

-- What the outside answers during one pass. `cashflow` is the predict indexer's answer, none where
-- no such host is configured or the request fails.
pub record Chain : Type 0 where
  pub fetch_duel : String → Reply (Option DuelLite)
  pub fetch_deck : String → Reply (Option (List Card))
  pub market : String → Reply (Option MarketJson)
  pub derive_wrapper_for : String → Reply (Option String)
  pub get_order_premium : String → ℕ → Reply (Option ℕ)
  pub cashflow : String → ℕ → Option ℕ
  pub execute : List Call → TxResult

-- The three sets of the class.
pub record Keeper : Type 0 where
  pub finalized : List String
  pub revealed : List String
  pub in_flight : List String

-- A part of a pass: the sets after it, the transactions sent, the exception if one left it, and
-- whether the pass goes on.
pub record Attempt : Type 0 where
  pub keeper : Keeper
  pub sent : List (List Call)
  pub thrown : Option String
