-- ===== src/Protocol.antt =====
-- apps/server/src/ws/protocol.ts: the stake tiers and the messages from the server to a client.
-- `room_state` carries the row that the source copies field by field.
use flicky.Prelude.{ℕ, String, Bool, Option, none, some, List, str_eq, if◌then◌else◌}
use flicky.Duel.{Status, DuelRow}

pub data Tier : Type 0 where
  practice casual standard high_roller starter : Tier

-- dUSDC, with 6 decimals
abbrev pub stake_tiers : Tier → ℕ
stake_tiers practice = 0
stake_tiers casual = 3_000_000
stake_tiers standard = 5_000_000
stake_tiers high_roller = 10_000_000
stake_tiers starter = 1_000_000

-- `isValidTier`: the tier that a text names
unfoldable pub valid_tier : String → Option Tier
valid_tier s =
    if str_eq s "practice"
    then some practice
    else if str_eq s "casual"
    then some casual
    else if str_eq s "standard"
    then some standard
    else if str_eq s "high_roller"
    then some high_roller
    else if str_eq s "starter"
    then some starter
    else none

pub data Role : Type 0 where
  creator challenger : Role

pub record ChatMessage : Type 0 where
  pub id : ℕ
  pub from_address : String
  pub text : String
  pub timestamp_ms : ℕ

pub record PracticeCard : Type 0 where
  pub strike : ℕ
  pub expiry_offset_ms : ℕ
  pub p_up : ℕ

-- The optional `detail` of an error.
pub data Detail : Type 0 where
  no_detail : Detail
  retry_after : (retry_ms : ℕ) → Detail
  balance : (need have : ℕ) → Detail
  markets : (available required : ℕ) → Detail

pub data ServerMsg : Type 0 where
  hello : (address : String) → ServerMsg
  queue_status : Tier → (size wait_ms : ℕ) → ServerMsg
  queue_left : ServerMsg
  match_found : Tier → Role → (opponent deck_hash : String) → (deck_size : ℕ) → ServerMsg
  duel_assigned : (duel_id creator : String) → ServerMsg
  room_state : DuelRow → ServerMsg
  room_settled : (duel_id winner payout_to : String) → ServerMsg
  peer_left : (duel_id address : String) → (grace_period_ms : ℕ) → ServerMsg
  peer_rejoined : (duel_id address : String) → ServerMsg
  peer_forfeit : (duel_id address : String) → ServerMsg
  practice_session : List PracticeCard → (bot_swipes : List Bool) → ServerMsg
  chat_history : List ChatMessage → ServerMsg
  chat_message : ChatMessage → ServerMsg
  chat_reaction : (duel_id from emoji : String) → (timestamp_ms : ℕ) → ServerMsg
  oracle_tick :
      (expiry_market_id : String)
      → (spot expiry : ℕ) → (settlement_price : Option ℕ) → (timestamp_ms : ℕ) → ServerMsg
  spot_tick : (spot timestamp_ms : ℕ) → ServerMsg
  match_tick : (duel_id : String) → (server_now_ms : ℕ) → Status → ServerMsg
  pong : ServerMsg
  error : (code message : String) → Detail → ServerMsg
