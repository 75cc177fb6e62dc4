-- ===== src/Indexer/Events.antt =====
-- apps/server/src/indexer.ts: what one event of a tracker does. A field is none where it is
-- missing or of another type (an id also where it is empty); numbers have been read.
use flicky.Prelude.{ℕ, String, Bool, if◌then◌else◌, Option, none, some, List, [], ◌∷◌, ◌++◌}
use flicky.Prelude.Maps.{lookup, insert, put}
use flicky.Duel.{DuelRow}
use flicky.Protocol.{duel_assigned}
use flicky.Matchmaking.{World}
use flicky.Matchmaking.Registry.{send_to_addresses}
use flicky.Matchmaking.Pairing.{take_matched_pair}
use flicky.Indexer.{Db, MarketSettlementRow, PredictMarketRow, save_order_premium}

pub data Tracker : Type 0 where
  duel_created duel_joined deck_revealed swipe_recorded : Tracker
  card_settled duel_finalized duel_refunded duel_forfeited : Tracker

-- The trackers of the duel package, in the order in which a tick drains them.
abbrev pub trackers : List Tracker
trackers =
    duel_created ∷ duel_joined ∷ deck_revealed ∷ swipe_recorded ∷ card_settled ∷ duel_finalized
    ∷ duel_refunded ∷ duel_forfeited ∷ []

pub record DuelEvent : Type 0 where
  pub duel_id : Option String
  pub creator : Option String
  pub winner : Option String
  pub primary_settlement_price : Option ℕ

pub record Finalized : Type 0 where
  pub duel_id : String
  pub p0 : Option String
  pub p1 : Option String
  pub winner : String
  pub settlement_price : Option ℕ

-- What a tick collects from the duel trackers, with the rooms and queues that it speaks to.
pub record Touching : Type 0 where
  pub touched : List String
  pub finalized : List Finalized
  pub world : World

abbrev creator_of : Option DuelRow → Option String
creator_of none = none
creator_of (some row) = some row.creator

abbrev challenger_of : Option DuelRow → Option String
challenger_of none = none
challenger_of (some row) = some row.challenger

-- The challenger that was announced to the creator is told of the duel.
unfoldable pub assign_duel : String → Option String → World → World
assign_duel duel_id none w = w
assign_duel duel_id (some creator) w =
    let taken = take_matched_pair creator w in
    elim taken.1 [
      | none ↦ taken.0
      | some challenger_addr ↦
          (send_to_addresses (challenger_addr ∷ []) (duel_assigned duel_id creator) taken.0).0
    ]

-- The players are those of the mirrored row, as it is now.
unfoldable pub note_finalized :
    String → Option DuelRow → DuelEvent → List Finalized → List Finalized
note_finalized duel_id row e found = elim e.winner [
  | none ↦ found
  | some winner ↦
      found
      ++ record {
        duel_id = duel_id;
        p0 = creator_of row;
        p1 = challenger_of row;
        winner = winner;
        settlement_price = e.primary_settlement_price;
      }
        ∷ []
]

unfoldable pub dispatch : Tracker → String → Option DuelRow → DuelEvent → Touching → Touching
unfolding assign_duel note_finalized
dispatch duel_created duel_id row e t = record t { world = assign_duel duel_id e.creator t.world }
dispatch duel_finalized duel_id row e t = record t {
  finalized = note_finalized duel_id row e t.finalized;
}
dispatch _ duel_id row e t = t

-- `read_row` is `getDuel`: none also where it throws.
unfoldable pub on_event :
    (normalize : String → String) (read_row : String → Option DuelRow)
    → Tracker
    → DuelEvent
    → Touching
    → Touching
unfolding dispatch
on_event normalize read_row tracker e t = elim e.duel_id [
  | none ↦ t
  | some id ↦
      let duel_id = normalize id in
      dispatch tracker duel_id (read_row duel_id) e (record t { touched = put duel_id t.touched })
]

pub record OrderMinted : Type 0 where
  pub expiry_market_id : Option String
  pub order_id : Option ℕ
  pub premium : Option ℕ
  pub net_premium : Option ℕ

-- `a ?? b`
abbrev pub or_else {ℓ} : {A : Type ℓ} → Option A → Option A → Option A
or_else none b = b
or_else (some a) b = some a

unfoldable pub parse_order_minted_event : OrderMinted → Option ((String × ℕ) × ℕ)
parse_order_minted_event e = elim e.expiry_market_id [
  | none ↦ none
  | some market ↦ elim e.order_id [
    | none ↦ none
    | some order ↦ elim (or_else e.premium e.net_premium) [
      | none ↦ none
      | some premium ↦ some ((market, order), premium)
    ]
  ]
]

-- `written` is whether the database takes the row; where it throws, the event is passed over.
unfoldable pub on_order_minted :
    (String → String) → (written : String × ℕ → Bool) → OrderMinted → Db → Db
unfolding parse_order_minted_event
on_order_minted normalize written e db = elim (parse_order_minted_event e) [
  | none ↦ db
  | some ((market, order), premium) ↦
      let key : String × ℕ = (normalize market, order) in
      if written key
      then record db { order_premiums = save_order_premium key premium db.order_premiums }
      else db
]

pub record MarketSettled : Type 0 where
  pub expiry_market_id : Option String
  pub settlement_price : Option ℕ
  pub onchain_timestamp_ms : Option ℕ
  pub settled_at_ms : Option ℕ

abbrev pub or_now : Option ℕ → ℕ → ℕ
or_now none now = now
or_now (some t) now = t

unfoldable pub on_market_settled :
    (String → String) → (written : String → Bool) → ℕ → MarketSettled → Db → Db
on_market_settled normalize written now e db = elim e.expiry_market_id [
  | none ↦ db
  | some market ↦ elim e.settlement_price [
    | none ↦ db
    | some price ↦
        let id = normalize market in
        let row : MarketSettlementRow = record {
          settlement_price = price;
          settled_at_ms = or_now (or_else e.onchain_timestamp_ms e.settled_at_ms) now;
        } in
        if written id
        then record db { market_settlements = insert id row db.market_settlements }
        else db
  ]
]

pub record MarketCreated : Type 0 where
  pub expiry_market_id : Option String
  pub expiry : Option ℕ
  pub propbook_underlying_id : Option ℕ
  pub tick_size : Option ℕ
  pub admission_tick_size : Option ℕ
  -- of the event's node
  pub timestamp_ms : Option ℕ

-- An insert where the id is there already keeps the underlying, and the time of creation where
-- the new one is missing.
unfoldable pub merge_market : Option PredictMarketRow → PredictMarketRow → PredictMarketRow
merge_market none row = row
merge_market (some old) row = record row {
  propbook_underlying_id = old.propbook_underlying_id;
  created_at_ms = or_else row.created_at_ms old.created_at_ms;
}

unfoldable pub on_market_created :
    (String → String) → (written : String → Bool) → MarketCreated → Db → Db
unfolding merge_market
on_market_created normalize written e db = elim e.expiry_market_id [
  | none ↦ db
  | some market ↦ elim e.expiry [
    | none ↦ db
    | some expiry ↦
        let id = normalize market in
        let row : PredictMarketRow = record {
          propbook_underlying_id = or_now e.propbook_underlying_id 0;
          expiry = expiry;
          tick_size = or_now e.tick_size 0;
          admission_tick_size = or_now e.admission_tick_size 0;
          created_at_ms = e.timestamp_ms;
        } in
        if written id
        then record db {
          predict_markets =
              insert id (merge_market (lookup id db.predict_markets) row) db.predict_markets;
        }
        else db
  ]
]
