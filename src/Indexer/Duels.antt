-- ===== src/Indexer/Duels.antt =====
-- apps/server/src/indexer.ts: `fetchDuel`, the row of a duel that is mirrored, and the two writes of
-- the mirror in apps/server/src/db.ts.
use flicky.Prelude.{
  ℕ, zero, suc, ◌+◌, String, Bool, true, false, ◌||◌, Option, none, some, List, [], ◌∷◌, map, ltb,
  if◌then◌else◌, ◌==◌, str_eq,
}
use flicky.Prelude.{length, get_or, get_elem?}
use flicky.Prelude.Maps.{lookup, insert}
use flicky.Duel.{DuelRow, DuelWinner, Status, Card, Swipe, PendingSwipe, CardOutcome, complete}
use flicky.Indexer.{Db, premium_of}
use flicky.Indexer.Outcomes.{
  CardOutcomeInput, compute_card_outcomes, read_expiry_market_settlements,
  read_order_premiums_for_cards, status_of,
}
use flicky.Indexer.Events.{or_now}

pub record CardRaw : Type 0 where
  pub expiry_market_id : Option String
  pub strike : Option ℕ

pub record SwipeRaw : Type 0 where
  pub is_up : Option Bool
  pub quantity : Option ℕ
  pub order_id : Option ℕ

-- A duel object as it is on the chain.
pub record DuelObject : Type 0 where
  pub status : String
  pub stake_coin_type : Option String
  pub creator : String
  pub challenger : String
  pub cards : List CardRaw
  pub p0_payout : Option ℕ
  pub p0_premium : Option ℕ
  pub p1_payout : Option ℕ
  pub p1_premium : Option ℕ
  pub started_at_ms : Option ℕ
  pub p0_swipes : List (Option SwipeRaw)
  pub p1_swipes : List (Option SwipeRaw)

unfoldable pub parse_swipe_raw : Option SwipeRaw → Option Swipe
parse_swipe_raw none = none
parse_swipe_raw (some s) = elim s.is_up [
  | none ↦ none
  | some is_up ↦
      some
        (record { is_up = is_up; quantity = or_now s.quantity 0; order_id = or_now s.order_id 0 })
]

abbrev pub is_swiped : Option Swipe → Bool
is_swiped none = false
is_swiped (some s) = true

-- The swipes of the slots from `i` on, `left` of them; a slot that nobody swiped is left out.
unfoldable pub swipes_from : List (Option Swipe) → List (Option Swipe) → ℕ → ℕ → List PendingSwipe
swipes_from p0s p1s zero i = []
swipes_from p0s p1s (suc left) i =
    let a = get_or p0s i none in
    let b = get_or p1s i none in
    let rest = swipes_from p0s p1s left (i + 1) in
    if is_swiped a || is_swiped b
    then record { card_idx = i; p0_swipe = a; p1_swipe = b; p0_premium = none; p1_premium = none }
      ∷ rest
    else rest

-- The premium that was paid for a swipe on a market; order 0 was never minted.
abbrev pub premium_for : List ((String × ℕ) × ℕ) → String → Option Swipe → Option ℕ
premium_for premiums market none = none
premium_for premiums market (some s) =
    if s.order_id == 0 then none else premium_of (market, s.order_id) premiums

-- A slot with no card, or a card with no market, is left as it is.
unfoldable pub attach_premiums : List Card → List ((String × ℕ) × ℕ) → PendingSwipe → PendingSwipe
attach_premiums cards premiums s = elim (get_elem? cards s.card_idx) [
  | none ↦ s
  | some card ↦
      let market = card.expiry_market_id in
      if str_eq market "" then s else record s {
        p0_premium = premium_for premiums market s.p0_swipe;
        p1_premium = premium_for premiums market s.p1_swipe;
      }
]

abbrev pub greater : ℕ → ℕ → ℕ
greater a b = if ltb a b then b else a

-- An id that is missing is the empty text.
abbrev pub card_lite : (String → String) → CardRaw → Card
card_lite normalize c = record {
  expiry_market_id = elim c.expiry_market_id [ none ↦ "" | some id ↦ normalize id ];
  strike = or_now c.strike 0;
}

abbrev pub price_of : Db → String → Option ℕ
price_of db id = elim (lookup id db.market_settlements) [
  | none ↦ none
  | some row ↦ some row.settlement_price
]

abbrev pub outcomes_of : Option DuelRow → List CardOutcome
outcomes_of none = []
outcomes_of (some row) = row.card_outcomes

abbrev pub is_complete : Status → Bool
is_complete complete = true
is_complete _ = false

-- A complete duel with no outcome of its own keeps those of its mirrored row.
abbrev pub or_mirrored : Status → Option DuelRow → List CardOutcome → List CardOutcome
or_mirrored status row [] = if is_complete status then outcomes_of row else []
or_mirrored status row (o ∷ os) = o ∷ os

abbrev pub has_cards : List Card → Bool
has_cards [] = false
has_cards (c ∷ cs) = true

abbrev pub coin_of : Option String → String
coin_of none = "0x2::sui::SUI"
coin_of (some t) = t

-- `fetchDuel`, once the object is there: the row that is mirrored and broadcast.
unfoldable pub duel_row : (String → String) → Db → (now : ℕ) → String → DuelObject → DuelRow
unfolding parse_swipe_raw swipes_from attach_premiums
duel_row normalize db now id f =
    let status = status_of f.status in
    let cards = map (card_lite normalize) f.cards in
    let p0s = map parse_swipe_raw f.p0_swipes in
    let p1s = map parse_swipe_raw f.p1_swipes in
    let slots = greater (greater (length p0s) (length p1s)) (length cards) in
    let ids = map (λ (c : Card). c.expiry_market_id) cards in
    let premiums =
      read_order_premiums_for_cards (λ k. premium_of k db.order_premiums) cards p0s p1s in
    let input : CardOutcomeInput = record {
      cards = cards;
      p0_swipes = p0s;
      p1_swipes = p1s;
      expiry_market_settlements = read_expiry_market_settlements (price_of db) ids;
      order_premiums = premiums;
    } in
    let outcomes =
      or_mirrored status (lookup (normalize id) db.duels) (compute_card_outcomes input) in
    record {
      id = normalize id;
      status = status;
      stake_coin_type = coin_of f.stake_coin_type;
      creator = f.creator;
      challenger = f.challenger;
      cards_revealed = has_cards cards;
      card_count = length cards;
      settled_count = length outcomes;
      winner = none;
      p0_payout = or_now f.p0_payout 0;
      p0_premium = or_now f.p0_premium 0;
      p1_payout = or_now f.p1_payout 0;
      p1_premium = or_now f.p1_premium 0;
      started_at_ms = or_now f.started_at_ms 0;
      card_outcomes = outcomes;
      swipes = map (attach_premiums cards premiums) (swipes_from p0s p1s slots 0);
      cards = cards;
      last_updated_ms = now;
    }

abbrev pub winner_of : Option DuelRow → Option DuelWinner
winner_of none = none
winner_of (some row) = row.winner

-- `upsertDuel` writes every column but the winner.
unfoldable pub upsert_duel : DuelRow → Db → Db
upsert_duel row db = record db {
  duels = insert row.id (record row { winner = winner_of (lookup row.id db.duels) }) db.duels;
}

-- `setDuelWinner`: an update, of a row that is there.
unfoldable pub set_duel_winner : String → DuelWinner → Db → Db
set_duel_winner id w db = elim (lookup id db.duels) [
  | none ↦ db
  | some row ↦ record db { duels = insert id (record row { winner = some w }) db.duels }
]
