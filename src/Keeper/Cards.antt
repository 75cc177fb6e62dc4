-- ===== src/Keeper/Cards.antt =====
-- apps/server/src/keeper.ts: what is read for the cards of a duel, and which of them can be
-- settled.
use flicky.Prelude.{
  ℕ, zero, suc, String, Bool, true, false, not, ◌&&◌, ◌||◌, Option, none, some, List, [], ◌∷◌,
  if◌then◌else◌,
}
use flicky.Prelude.Maps.{insert, has}
use flicky.Keeper.{got, threw, Card, SwipeLite, Premium, Chain}

pub data Settlement : Type 0 where
  unsettled : Settlement
  settled_at : (settlement_price : ℕ) → Settlement

-- `raw`, where it is a number; 0 is no price.
priced : Option ℕ → Settlement
priced none = unsettled
priced (some zero) = unsettled
priced (some (suc n)) = settled_at (suc n)

-- `??`
abbrev or_else : Option ℕ → Option ℕ → Option ℕ
or_else none b = b
or_else (some a) b = some a

-- Any failure of the read is caught.
unfoldable pub read_market_settlement : Chain → String → Settlement
unfolding priced
read_market_settlement chain expiry_market_id = elim (chain.market expiry_market_id) [
  | threw msg ↦ unsettled
  | got none ↦ unsettled
  | got (some json) ↦ priced (or_else json.settlement_price json.strike_exposure_price)
]

unresolved : Premium
unresolved = record { value = 0; resolved = false }

abbrev found : ℕ → Premium
found n = record { value = n; resolved = true }

fallback : Chain → String → ℕ → Premium
unfolding unresolved
fallback chain expiry_market_id order_id = elim (chain.cashflow expiry_market_id order_id) [
  | none ↦ unresolved
  | some n ↦ found n
]

unfoldable pub read_order_premium : Chain → String → ℕ → Premium
unfolding fallback
read_order_premium chain expiry_market_id order_id =
    elim (chain.get_order_premium expiry_market_id order_id) [
      | threw msg ↦ fallback chain expiry_market_id order_id
      | got none ↦ fallback chain expiry_market_id order_id
      | got (some n) ↦ found n
    ]

-- The premium of one player's swipe; a card that was not swiped cost nothing.
unfoldable pub swipe_premium : Chain → String → Option SwipeLite → Premium
swipe_premium chain expiry_market_id none = found 0
swipe_premium chain expiry_market_id (some s) = read_order_premium chain expiry_market_id s.order_id

unfoldable pub resolve_card_premiums : Premium → Premium → ℕ × ℕ
resolve_card_premiums p0 p1 =
    if not p0.resolved || not p1.resolved then (0, 0) else (p0.value, p1.value)

-- `Array.from(new Set(cards.map((c) => c.expiryMarketId)))` is read in the order of the cards.
unfoldable pub settlement_by_market : Chain → List Card → List (String × ℕ) → List (String × ℕ)
settlement_by_market chain [] m = m
settlement_by_market chain (c ∷ cards) m =
    settlement_by_market chain cards (elim (read_market_settlement chain c.expiry_market_id) [
      | unsettled ↦ m
      | settled_at p ↦ insert c.expiry_market_id p m
    ])

-- `cardsSettled[i]`, which is undefined beyond the end
abbrev pub is_settled : List Bool → Bool
is_settled [] = false
is_settled (b ∷ bs) = b

abbrev pub rest_of : List Bool → List Bool
rest_of [] = []
rest_of (b ∷ bs) = bs

-- The loop from index `i` on.
unfoldable pub ready_from : ℕ → List Card → List Bool → List (String × ℕ) → List ℕ
ready_from i [] settled m = []
ready_from i (c ∷ cards) settled m =
    let later = ready_from (suc i) cards (rest_of settled) m in
    if not (is_settled settled) && has c.expiry_market_id m then i ∷ later else later

unfoldable pub ready_card_indices : List Card → List Bool → List (String × ℕ) → List ℕ
unfolding ready_from
ready_card_indices cards cards_settled m = ready_from 0 cards cards_settled m
