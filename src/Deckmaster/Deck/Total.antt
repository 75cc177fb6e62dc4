-- ===== src/Deckmaster/Deck/Total.antt =====
-- apps/server/src/deckmaster.ts: `buildDeck` gives a deck.
use flicky.Prelude.{
  ℕ, zero, suc, ◌+◌, ◌*◌, ◌/◌, ◌%◌, ◌≤◌, ◌<◌, String, ◌≡◌, refl, inl, inr, Option, some, List, [],
  ◌∷◌, arith, ◌==◌, Bool-cases,
}
use native.Mathlib.Nat.{mod-lt}
use flicky.Prelude.{length, get_elem?, All}
use flicky.Deckmaster.{MarketSnapshot, SignBias, Zone}
use flicky.Deckmaster.Strike.{snap_to_admission_tick}
use flicky.Deckmaster.Dealing.Enough.{low, deal-enough}
use flicky.Deckmaster.Deck.{
  raw_strike_of, tick_at, zone_offset_bps, seen_before, place_from, place, card_of, cards_from,
  build_deck,
}

abbrev pub Gives {ℓ} : {A : Type ℓ} → Option A → Type ℓ
Gives {A = A} o = (a : A) × (o ≡ some a)

tick_at-Gives :
    (m : MarketSnapshot) (spot : ℕ) (sign : SignBias) (bps : ℕ)
    → 0 < m.tick_size
    → Gives (tick_at m spot sign bps)
unfolding tick_at snap_to_admission_tick
tick_at-Gives m spot sign bps h = elim (Bool-cases (m.admission_tick_size == 0)) [
  | inl e ↦ (raw_strike_of sign spot (spot * bps / 10_000) / m.tick_size, ground arith)
  | inr e ↦ (
    (raw_strike_of sign spot (spot * bps / 10_000) + m.admission_tick_size / 2)
        / m.admission_tick_size
        * m.admission_tick_size
        / m.tick_size,
    ground arith,
  )
]

place_from-Gives :
    (left bump : ℕ) (m : MarketSnapshot) (market : String) (spot : ℕ) (sign : SignBias)
    (zone : Zone) (seen : List (String × ℕ))
    → 0 < m.tick_size
    → Gives (place_from left bump m market spot sign zone seen)
unfolding place_from
place_from-Gives zero bump m market spot sign zone seen h =
    tick_at-Gives m spot sign (zone_offset_bps zone + bump) h
place_from-Gives (suc left) bump m market spot sign zone seen h =
    let (t, e) = tick_at-Gives m spot sign (zone_offset_bps zone + bump) h in
    let (t', f) = place_from-Gives left (bump + 2) m market spot sign zone seen h in
    elim (Bool-cases (seen_before market t seen)) [
      | inl b ↦ (t', rw (e, b, f, place_from) refl)
      | inr b ↦ (t, rw (e, b, place_from) refl)
    ]

abbrev pub Ticking : MarketSnapshot → Type 0
Ticking m = 0 < m.tick_size

get_elem-Ticking :
    (i : ℕ) (markets : List MarketSnapshot)
    → i < length markets
    → All Ticking markets
    → (m : MarketSnapshot) × ((get_elem? markets i ≡ some m) × Ticking m)
get_elem-Ticking i [] h a = ground arith
get_elem-Ticking zero (m ∷ ms) h (p, a) = (m, (refl, p))
get_elem-Ticking (suc i) (m ∷ ms) h (p, a) = get_elem-Ticking i ms (ground arith) a

cards_from-Gives :
    (normalize : String → String) (markets : List MarketSnapshot) (spot i : ℕ)
    (signs : List SignBias) (zones : List Zone) (seen : List (String × ℕ))
    → 0 < length markets
    → All Ticking markets
    → Gives (cards_from normalize markets spot i signs zones seen)
unfolding cards_from place
cards_from-Gives normalize markets spot i [] zones seen p a = ([], refl)
cards_from-Gives normalize markets spot i (sign ∷ signs) [] seen p a = ([], refl)
cards_from-Gives normalize markets spot i (sign ∷ signs) (zone ∷ zones) seen p a =
    let (m, (e, h)) = get_elem-Ticking (i % length markets) markets (mod-lt i p) a in
    let market = normalize m.expiry_market_id in
    let (tick, f) = place_from-Gives 4 0 m market spot sign zone seen h in
    let (cards, g) =
      cards_from-Gives normalize markets spot (suc i) signs zones ((market, tick) ∷ seen) p a in
    (card_of market m sign tick ∷ cards, rw (e, f, g, cards_from) refl)

-- With one market at least, all of them with a positive tick size, and twice as many bytes below
-- 128 as cards, a deck of at most 128 cards is built.
pub build_deck-Gives :
    (normalize : String → String) (m : MarketSnapshot) (ms : List MarketSnapshot) (spot n : ℕ)
    (bytes : List ℕ)
    → All Ticking (m ∷ ms)
    → n ≤ 128
    → 2 * n ≤ low bytes
    → Gives (build_deck normalize (m ∷ ms) spot bytes n)
unfolding build_deck
build_deck-Gives normalize m ms spot n bytes a h l =
    let (signs, (rest, (zones, (last, (e, f))))) = deal-enough n bytes h l in
    let (cards, g) = cards_from-Gives normalize (m ∷ ms) spot 0 signs zones [] (ground arith) a in
    (cards, rw (e, f, g, build_deck) refl)
