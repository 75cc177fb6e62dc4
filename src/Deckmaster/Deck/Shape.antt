-- ===== src/Deckmaster/Deck/Shape.antt =====
-- apps/server/src/deckmaster.ts: how many cards `buildDeck` makes, and which side they favour.
use flicky.Prelude.{
  ℕ, suc, ◌+◌, ◌%◌, ◌≤◌, String, ◌≡◌, refl, ap, inl, inr, Bool, not, Option, none, some, List, [],
  ◌∷◌, arith, Option-cases,
}
use flicky.Prelude.{length, get_elem?, times, count_if}
use flicky.Deckmaster.{MarketSnapshot, is_above, is_below, SignBias, Zone, DeckCardOut}
use flicky.Deckmaster.Dealing.{allocate_sign_balance, allocate_zones}
use flicky.Deckmaster.Dealing.Counted.{length_of_signs, length-zones, allocate_sign_balance-fair}
use flicky.Deckmaster.Deck.{card_of, cons_card, place, cards_from, build_deck}

abbrev pub favors_up : DeckCardOut → Bool
favors_up c = c.is_up_favored

abbrev pub favors_down : DeckCardOut → Bool
favors_down c = not c.is_up_favored

cons_card-some :
    (c : DeckCardOut) (r : Option (List DeckCardOut)) (cards : List DeckCardOut)
    → cons_card c r ≡ some cards
    → (tail : List DeckCardOut) × ((r ≡ some tail) × (c ∷ tail ≡ cards))
cons_card-some c none cards e = cc
cons_card-some c (some tail) cards e = (tail, (refl, ground arith))

cards_from-count :
    (normalize : String → String) (markets : List MarketSnapshot) (spot i : ℕ)
    (signs : List SignBias) (zones : List Zone) (seen : List (String × ℕ))
    (cards : List DeckCardOut)
    → length zones ≡ length signs
    → cards_from normalize markets spot i signs zones seen ≡ some cards
    → (count_if favors_up cards ≡ count_if is_below signs)
      × (count_if favors_down cards ≡ count_if is_above signs)
unfolding cards_from
cards_from-count normalize markets spot i [] zones seen cards l e = ground arith
cards_from-count normalize markets spot i (sign ∷ signs) [] seen cards l e = ground arith
cards_from-count normalize markets spot i (sign ∷ signs) (zone ∷ zones) seen cards l e =
    elim (Option-cases (get_elem? markets (i % length markets))) [
      | inl f ↦ ground arith
      | inr (m, f) ↦
          let market = normalize m.expiry_market_id in
          elim (Option-cases (place m market spot sign zone seen)) [
            | inl g ↦ ground arith
            | inr (tick, g) ↦
                let made : cons_card (card_of market m sign tick) (
                      cards_from normalize markets spot (suc i) signs zones ((market, tick) ∷ seen))
                    ≡ some cards =
                  ground arith in
                let (tail, (h, same)) = cons_card-some _ _ cards made in
                let ih =
                  cards_from-count normalize markets spot (suc i) signs zones
                    ((market, tick) ∷ seen) tail (ground arith) h in
                rw (← same) (
                  ap (λ n. times (is_below sign) + n) ih.0,
                  ap (λ n. times (is_above sign) + n) ih.1,
                )
          ]
    ]

-- A deck that is built has as many cards as it was asked for, and the cards that favour UP and
-- those that do not differ by one at most.
pub build_deck-fair :
    (normalize : String → String) (markets : List MarketSnapshot) (spot n : ℕ) (bytes : List ℕ)
    (cards : List DeckCardOut)
    → build_deck normalize markets spot bytes n ≡ some cards
    → let up = count_if favors_up cards in
      let down = count_if favors_down cards in (up + down ≡ n) × ((up ≤ down + 1) × (down ≤ up + 1))
unfolding build_deck
build_deck-fair normalize [] spot n bytes cards e = cc
build_deck-fair normalize (m ∷ ms) spot n bytes cards e =
    elim (Option-cases (allocate_sign_balance n bytes)) [
      | inl f ↦ ground arith
      | inr ((signs, rest), f) ↦ elim (Option-cases (allocate_zones n rest)) [
        | inl g ↦ ground arith
        | inr ((zones, last), g) ↦
            let fair = allocate_sign_balance-fair n signs bytes rest f in
            let dealt : cards_from normalize (m ∷ ms) spot 0 signs zones [] ≡ some cards =
              ground arith in
            let counts =
              cards_from-count normalize (m ∷ ms) spot 0 signs zones [] cards
                (ground (arith, length-zones n zones rest last g, length_of_signs signs, fair.0))
                dealt in
            ground (arith, fair, counts)
      ]
    ]
