-- ===== src/Deckmaster/Deck/Distinct.antt =====
-- apps/server/src/deckmaster.ts: when a card of `buildDeck` repeats an earlier one.
use flicky.Prelude.{
  ℕ, zero, suc, ◌+◌, ◌*◌, ◌≤◌, String, ◌≡◌, ap, ◌∙◌, inl, inr, false, some, List, arith, Bool-cases,
  Option-cases,
}
use flicky.Deckmaster.{MarketSnapshot, SignBias, Zone}
use flicky.Deckmaster.Deck.{tick_at, zone_offset_bps, seen_before, place_from, place}

at_zero :
    (bump : ℕ) (m : MarketSnapshot) (spot : ℕ) (sign : SignBias) (zone : Zone) (t : ℕ)
    → tick_at m spot sign (zone_offset_bps zone + (bump + 2 * 0)) ≡ some t
    → tick_at m spot sign (zone_offset_bps zone + bump) ≡ some t
at_zero bump m spot sign zone t e =
    let same : bump ≡ bump + 2 * 0 = omega arith in
    ap (λ b. tick_at m spot sign (zone_offset_bps zone + b)) same ∙ e

at_later :
    (bump k : ℕ) (m : MarketSnapshot) (spot : ℕ) (sign : SignBias) (zone : Zone) (t : ℕ)
    → tick_at m spot sign (zone_offset_bps zone + (bump + 2 * suc k)) ≡ some t
    → tick_at m spot sign (zone_offset_bps zone + (bump + 2 + 2 * k)) ≡ some t
at_later bump k m spot sign zone t e =
    let same : bump + 2 + 2 * k ≡ bump + 2 * suc k = omega arith in
    ap (λ b. tick_at m spot sign (zone_offset_bps zone + b)) same ∙ e

place_from-fresh :
    (left bump k : ℕ) (m : MarketSnapshot) (market : String) (spot : ℕ) (sign : SignBias)
    (zone : Zone) (seen : List (String × ℕ)) (t tick : ℕ)
    → k ≤ left
    → tick_at m spot sign (zone_offset_bps zone + (bump + 2 * k)) ≡ some t
    → seen_before market t seen ≡ false
    → place_from left bump m market spot sign zone seen ≡ some tick
    → seen_before market tick seen ≡ false
unfolding place_from
place_from-fresh zero bump zero m market spot sign zone seen t tick h e f g =
    let here = at_zero bump m spot sign zone t e in ground arith
place_from-fresh zero bump (suc k) m market spot sign zone seen t tick h e f g = ground arith
place_from-fresh (suc left) bump zero m market spot sign zone seen t tick h e f g =
    let here = at_zero bump m spot sign zone t e in ground arith
place_from-fresh (suc left) bump (suc k) m market spot sign zone seen t tick h e f g =
    elim (Option-cases (tick_at m spot sign (zone_offset_bps zone + bump))) [
      | inl a ↦ ground arith
      | inr (first, a) ↦ elim (Bool-cases (seen_before market first seen)) [
        | inr b ↦ ground arith
        | inl b ↦
            place_from-fresh left (bump + 2) k m market spot sign zone seen t tick (ground arith)
              (at_later bump k m spot sign zone t e) f (ground arith)
      ]
    ]

-- A card is placed on a tick that no earlier card of its market has, if one of the five offsets
-- that are tried (the zone's, and up to 8 basis points more in steps of 2) gives such a tick.
place-fresh :
    (k : ℕ) (m : MarketSnapshot) (market : String) (spot : ℕ) (sign : SignBias) (zone : Zone)
    (seen : List (String × ℕ)) (t tick : ℕ)
    → k ≤ 4
    → tick_at m spot sign (zone_offset_bps zone + 2 * k) ≡ some t
    → seen_before market t seen ≡ false
    → place m market spot sign zone seen ≡ some tick
    → seen_before market tick seen ≡ false
unfolding place
place-fresh k m market spot sign zone seen t tick h e f g =
    let same : 0 + 2 * k ≡ 2 * k = omega arith in
    place_from-fresh 4 0 k m market spot sign zone seen t tick h
      (ap (λ b. tick_at m spot sign (zone_offset_bps zone + b)) same ∙ e) f g
