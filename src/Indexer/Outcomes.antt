-- ===== src/Indexer/Outcomes.antt =====
-- apps/server/src/indexer.ts: the outcome of every card whose market has settled, from the swipes
-- of the two players and the mirrored settlements and premiums.
use flicky.Prelude.{
  ℕ, ◌+◌, String, Bool, not, Option, none, some, List, [], ◌∷◌, ltb, ◌==◌, str_eq, if◌then◌else◌,
}
use flicky.Prelude.{get_or}
use flicky.Prelude.Int.{ℤ, sub_ℕ}
use flicky.Prelude.Maps.{lookup, insert}
use flicky.Duel.{Card, Swipe, CardOutcome, Status, pending, active, complete}
use flicky.Indexer.{premium_of, save_order_premium}

-- `!!is_up === upWon`
abbrev pub same_side : Bool → Bool → Bool
same_side a b = if a then b else not b

abbrev pub or_zero : Option ℕ → ℕ
or_zero none = 0
or_zero (some n) = n

unfoldable pub compute_pnl : Option Swipe → Bool → String → List ((String × ℕ) × ℕ) → Option ℤ
compute_pnl none up_won market premiums = none
compute_pnl (some s) up_won market premiums =
    let payout = if same_side s.is_up up_won then s.quantity else 0 in
    some (sub_ℕ payout (or_zero (premium_of (market, s.order_id) premiums)))

pub record CardOutcomeInput : Type 0 where
  pub cards : List Card
  pub p0_swipes : List (Option Swipe)
  pub p1_swipes : List (Option Swipe)
  pub expiry_market_settlements : List (String × ℕ)
  pub order_premiums : List ((String × ℕ) × ℕ)

-- The outcome of one card, at the price of its market.
unfoldable pub outcome_of : CardOutcomeInput → ℕ → Card → ℕ → CardOutcome
unfolding compute_pnl
outcome_of input i card price =
    let up_won = ltb card.strike price in
    let p0_swipe = get_or input.p0_swipes i none in
    let p1_swipe = get_or input.p1_swipes i none in
    record {
      card_idx = i;
      settlement_price = price;
      strike = card.strike;
      up_won = up_won;
      p0_pnl = compute_pnl p0_swipe up_won card.expiry_market_id input.order_premiums;
      p1_pnl = compute_pnl p1_swipe up_won card.expiry_market_id input.order_premiums;
      p0_swipe = p0_swipe;
      p1_swipe = p1_swipe;
    }

-- The loop, from the card of index `i` on.
unfoldable pub outcomes_from : CardOutcomeInput → ℕ → List Card → List CardOutcome
unfolding outcome_of
outcomes_from input i [] = []
outcomes_from input i (card ∷ cards) =
    let rest = outcomes_from input (i + 1) cards in
    elim (lookup card.expiry_market_id input.expiry_market_settlements) [
      | none ↦ rest
      | some price ↦ outcome_of input i card price ∷ rest
    ]

unfoldable pub compute_card_outcomes : CardOutcomeInput → List CardOutcome
unfolding outcomes_from
compute_card_outcomes input = outcomes_from input 0 input.cards

-- `getMarketSettlement` answers with a price, or with none; ids that are empty are left out.
unfoldable pub read_expiry_market_settlements :
    (String → Option ℕ) → List String → List (String × ℕ)
read_expiry_market_settlements settlement [] = []
read_expiry_market_settlements settlement (id ∷ ids) =
    let rest = read_expiry_market_settlements settlement ids in
    if str_eq id ""
    then rest
    else elim (settlement id) [ none ↦ rest | some price ↦ insert id price rest ]

-- One swipe's premium; an order of number 0 was never minted.
unfoldable pub read_premium :
    (String × ℕ → Option ℕ)
    → String
    → Option Swipe
    → List ((String × ℕ) × ℕ)
    → List ((String × ℕ) × ℕ)
read_premium premium market none out = out
read_premium premium market (some s) out =
    if s.order_id == 0 then out else elim (premium (market, s.order_id)) [
      | none ↦ out
      | some p ↦ save_order_premium (market, s.order_id) p out
    ]

-- The premiums of the swipes on the cards from index `i` on.
unfoldable pub premiums_from :
    (String × ℕ → Option ℕ)
    → List (Option Swipe)
    → List (Option Swipe)
    → ℕ
    → List Card
    → List ((String × ℕ) × ℕ)
unfolding read_premium
premiums_from premium p0s p1s i [] = []
premiums_from premium p0s p1s i (card ∷ cards) =
    let market = card.expiry_market_id in
    read_premium premium market (get_or p0s i none) (
      read_premium premium market (get_or p1s i none) (premiums_from premium p0s p1s (i + 1) cards))

unfoldable pub read_order_premiums_for_cards :
    (String × ℕ → Option ℕ)
    → List Card
    → List (Option Swipe)
    → List (Option Swipe)
    → List ((String × ℕ) × ℕ)
unfolding premiums_from
read_order_premiums_for_cards premium cards p0s p1s = premiums_from premium p0s p1s 0 cards

-- `STATUS_MAP[String(f.status)] ?? "PENDING"`
unfoldable pub status_of : String → Status
status_of s = if str_eq s "2" then active else if str_eq s "3" then complete else pending
