-- ===== src/Deckmaster/Deck.antt =====
-- apps/server/src/deckmaster.ts: `buildDeck` with strikes at fixed offsets from the spot price, and
-- the part of `commitDeck` before the hash. `normalizeSuiAddress` is a parameter.
pub mod Shape
pub mod Distinct
pub mod Total
use flicky.Prelude.{
  ℕ, zero, suc, ◌+◌, ◌-◌, ◌*◌, ◌/◌, ◌%◌, ◌^◌, ◌≤◌, ◌<◌, String, ◌≡◌, refl, sym, ap, ◌∙◌, ◌≢◌, ◌↔◌,
  ◌⊎◌, inl, inr, Bool, true, false, not, ◌&&◌, ◌||◌, Option, none, some, List, [], ◌∷◌, ◌++◌, map,
  arith, eq_iff, ltb, leb, ◌==◌, str_eq, str_eq_refl, if◌then◌else◌, Bool-cases, Option-cases,
  ==_iff, ==_refl, ltb→lt, leb→le, le→leb,
}
use flicky.Prelude.{length, get_elem?}
use flicky.Deckmaster.{
  MarketSnapshot, SignBias, above, below, is_below, Zone, close, mid, edge, DeckCardOut,
}
use flicky.Deckmaster.Strike.{snap_to_admission_tick}
use flicky.Deckmaster.Dealing.{allocate_sign_balance, allocate_zones}

-- `(1n << 30n) - 1n`
abbrev pub pos_inf_tick : ℕ
pos_inf_tick = 1_073_741_823

abbrev pub zone_offset_bps : Zone → ℕ
zone_offset_bps close = 2
zone_offset_bps mid = 4
zone_offset_bps edge = 6

abbrev pub raw_strike_of : SignBias → ℕ → ℕ → ℕ
raw_strike_of above spot offset = spot + offset
raw_strike_of below spot offset = spot - offset

-- The tick for an offset of so many basis points.
unfoldable pub tick_at : MarketSnapshot → ℕ → SignBias → ℕ → Option ℕ
tick_at m spot sign offset_bps =
    snap_to_admission_tick (raw_strike_of sign spot (spot * offset_bps / 10_000)) m.tick_size
      m.admission_tick_size

-- A pair of a market and a tick, instead of the text `${marketId}:${strikeTick}`.
unfoldable pub seen_before : String → ℕ → List (String × ℕ) → Bool
seen_before market tick [] = false
seen_before market tick ((m, t) ∷ seen) =
    str_eq m market && t == tick || seen_before market tick seen

-- The loop over the bump, which stops at 8 (`DEDUP_MAX_BUMP_BPS`) after steps of 2: `left` steps
-- are left from here.
unfoldable pub place_from :
    (left : ℕ)
    → (bump : ℕ) → MarketSnapshot
    → String
    → ℕ
    → SignBias
    → Zone
    → List (String × ℕ)
    → Option ℕ
unfolding tick_at
place_from zero bump m market spot sign zone seen =
    tick_at m spot sign (zone_offset_bps zone + bump)
place_from (suc left) bump m market spot sign zone seen =
    let later = place_from left (bump + 2) m market spot sign zone seen in
    elim (tick_at m spot sign (zone_offset_bps zone + bump)) [
      | none ↦ none
      | some tick ↦ if seen_before market tick seen then later else some tick
    ]

unfoldable pub place : MarketSnapshot → String → ℕ → SignBias → Zone → List (String × ℕ) → Option ℕ
unfolding place_from
place m market spot sign zone seen = place_from 4 0 m market spot sign zone seen

abbrev pub card_of : String → MarketSnapshot → SignBias → ℕ → DeckCardOut
card_of market m sign tick = record {
  expiry_market_id = market;
  strike = tick * m.tick_size;
  lower_tick = if is_below sign then tick else 0;
  higher_tick = if is_below sign then pos_inf_tick else tick;
  is_up_favored = is_below sign;
}

abbrev pub cons_card : DeckCardOut → Option (List DeckCardOut) → Option (List DeckCardOut)
cons_card c none = none
cons_card c (some cards) = some (c ∷ cards)

-- The cards from index `i` on, one for each sign and zone that is left.
unfoldable pub cards_from :
    (String → String)
    → List MarketSnapshot
    → ℕ
    → ℕ
    → List SignBias
    → List Zone
    → List (String × ℕ)
    → Option (List DeckCardOut)
unfolding place
cards_from normalize markets spot i [] zones seen = some []
cards_from normalize markets spot i (sign ∷ signs) [] seen = some []
cards_from normalize markets spot i (sign ∷ signs) (zone ∷ zones) seen =
    elim (get_elem? markets (i % length markets)) [
      | none ↦ none
      | some m ↦
          let market = normalize m.expiry_market_id in
          elim (place m market spot sign zone seen) [
            | none ↦ none
            | some tick ↦
                cons_card (card_of market m sign tick)
                  (cards_from normalize markets spot (suc i) signs zones ((market, tick) ∷ seen))
          ]
    ]

-- None stands for an exception, or for a list of bytes that is too short.
unfoldable pub build_deck :
    (String → String) → List MarketSnapshot → ℕ → List ℕ → ℕ → Option (List DeckCardOut)
unfolding cards_from
build_deck normalize [] spot bytes deck_size = none
build_deck normalize (m ∷ ms) spot bytes deck_size = elim (allocate_sign_balance deck_size bytes) [
  | none ↦ none
  | some (signs, rest) ↦ elim (allocate_zones deck_size rest) [
    | none ↦ none
    | some (zones, last) ↦ cards_from normalize (m ∷ ms) spot 0 signs zones []
  ]
]

-- What is stored and hashed.
unfoldable pub stored_cards : List DeckCardOut → List (String × ℕ)
stored_cards [] = []
stored_cards (c ∷ cards) = (c.expiry_market_id, c.strike) ∷ stored_cards cards
