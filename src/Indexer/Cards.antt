-- ===== src/Indexer/Cards.antt =====
-- apps/server/src/indexer.ts: which cards have an outcome, and what the PnLs of a side add up to.
use flicky.Prelude.{
  ℕ, zero, suc, ◌+◌, ◌≤◌, ◌<◌, String, ◌≡◌, refl, inl, inr, Bool, true, Option, none, some, List,
  [], ◌∷◌, arith, ltb, ◌==◌, if◌then◌else◌, Bool-cases, Option-cases,
}
use flicky.Prelude.{get_elem?, get_or, find, count_if}
use flicky.Prelude.Int.{ltb_ℤ, ℤ, pos, pos_part, neg_part, sub_ℕ, ◌+ℤ◌, +ℤ_parts, eq_of_parts}
use flicky.Prelude.Maps.{lookup}
use flicky.Duel.{Card, Swipe, CardOutcome, DuelRow}
use flicky.Mmr.Ladder.{DuelOutcome, p0_win, p1_win, tied, outcome_by_net, outcome_from_duel}
use flicky.Indexer.{premium_of}
use flicky.Indexer.Outcomes.{
  CardOutcomeInput, same_side, or_zero, compute_pnl, outcome_of, outcomes_from,
  compute_card_outcomes,
}

-- Whether an outcome is that of the card of an index.
abbrev pub of_card : ℕ → CardOutcome → Bool
of_card i o = o.card_idx == i

-- The outcome that the card of an index has by its market's price, if there is such a card.
abbrev pub by_price : CardOutcomeInput → ℕ → Option Card → Option CardOutcome
by_price input i none = none
by_price input i (some card) = elim (lookup card.expiry_market_id input.expiry_market_settlements) [
  | none ↦ none
  | some price ↦ some (outcome_of input i card price)
]

none_before :
    (input : CardOutcomeInput) (i k : ℕ) (cards : List Card)
    → i < k
    → (find (of_card i) (outcomes_from input k cards) ≡ none)
      × (count_if (of_card i) (outcomes_from input k cards) ≡ 0)
unfolding outcomes_from outcome_of
none_before input i k [] h = (refl, refl)
none_before input i k (card ∷ cards) h = (
  ground (arith, (none_before input i (k + 1) cards (omega arith)).0),
  ground (arith, (none_before input i (k + 1) cards (omega arith)).1),
)

found_from :
    (input : CardOutcomeInput) (j k : ℕ) (cards : List Card)
    → find (of_card (k + j)) (outcomes_from input k cards)
      ≡ by_price input (k + j) (get_elem? cards j)
unfolding outcomes_from outcome_of
found_from input j k [] = refl
found_from input zero k (card ∷ cards) =
    let e : k + 0 ≡ k = omega arith in
    rw e (ground (arith, (none_before input k (k + 1) cards (omega arith)).0))
found_from input (suc j) k (card ∷ cards) =
    let e : k + suc j ≡ k + 1 + j = omega arith in
    rw e (ground (arith, found_from input j (k + 1) cards))

once_from :
    (input : CardOutcomeInput) (i k : ℕ) (cards : List Card)
    → count_if (of_card i) (outcomes_from input k cards) ≤ 1
unfolding outcomes_from outcome_of
once_from input i k [] = omega arith
once_from input i k (card ∷ cards) = elim (Bool-cases (k == i)) [
  | inl e ↦ ground (arith, (none_before input i (k + 1) cards (ground arith)).1)
  | inr e ↦ ground (arith, once_from input i (k + 1) cards)
]

-- The card of an index has an outcome exactly when there is such a card and its market has settled;
-- it has one only, at the price of its market.
compute_card_outcomes-exact :
    (input : CardOutcomeInput) (i : ℕ)
    → (find (of_card i) (compute_card_outcomes input) ≡ by_price input i (get_elem? input.cards i))
      × (count_if (of_card i) (compute_card_outcomes input) ≤ 1)
unfolding compute_card_outcomes
compute_card_outcomes-exact input i =
    let e : 0 + i ≡ i = omega arith in
    (rw e at (found_from input i 0 input.cards), once_from input i 0 input.cards)

-- What the contract adds up for one side, over the cards that have settled.
abbrev pub scored :
    CardOutcomeInput → List (Option Swipe) → (Swipe → Bool → String → ℕ) → ℕ → List Card → ℕ
scored input swipes amount i [] = 0
scored input swipes amount i (card ∷ cards) =
    scored input swipes amount (i + 1) cards
    + elim (lookup card.expiry_market_id input.expiry_market_settlements) [
      | none ↦ 0
      | some price ↦ elim (get_or swipes i none) [
        | none ↦ 0
        | some s ↦ amount s (ltb card.strike price) card.expiry_market_id
      ]
    ]

-- The payout of a swipe, and its premium.
abbrev pub payout_amount : Swipe → Bool → String → ℕ
payout_amount s up_won market = if same_side s.is_up up_won then s.quantity else 0

abbrev pub premium_amount : CardOutcomeInput → Swipe → Bool → String → ℕ
premium_amount input s up_won market =
    or_zero (premium_of (market, s.order_id) input.order_premiums)

abbrev pub or_nothing : Option ℤ → ℤ
or_nothing none = pos 0
or_nothing (some n) = n

abbrev pub sum_of : (CardOutcome → Option ℤ) → List CardOutcome → ℤ
sum_of pnl [] = pos 0
sum_of pnl (o ∷ os) = or_nothing (pnl o) +ℤ sum_of pnl os

module _ (input : CardOutcomeInput) (swipes : List (Option Swipe)) (pnl : CardOutcome → Option ℤ)
    (reads : (i : ℕ) (card : Card) (price : ℕ)
      → pnl (outcome_of input i card price)
        ≡ compute_pnl
            (get_or swipes i none)
            (ltb card.strike price)
            card.expiry_market_id
            input.order_premiums) where
  sum-parts :
      (i : ℕ) (cards : List Card)
      → pos_part (sum_of pnl (outcomes_from input i cards))
          + scored input swipes (premium_amount input) i cards
        ≡ neg_part (sum_of pnl (outcomes_from input i cards))
          + scored input swipes payout_amount i cards
  unfolding outcomes_from compute_pnl
  sum-parts i [] = refl
  sum-parts i (card ∷ cards) =
      elim (Option-cases (lookup card.expiry_market_id input.expiry_market_settlements)) [
        | inl e ↦ rw (e, outcomes_from) (omega (arith, sum-parts (i + 1) cards))
        | inr (price, e) ↦
            let o = outcome_of input i card price in
            let rest = sum_of pnl (outcomes_from input (i + 1) cards) in
            rw (e, outcomes_from)
              (ground (
                arith,
                reads i card price,
                +ℤ_parts (or_nothing (pnl o)) rest,
                sum-parts (i + 1) cards,
              ))
      ]

  sum-net :
      (cards : List Card)
      → sum_of pnl (outcomes_from input 0 cards)
        ≡ sub_ℕ
            (scored input swipes payout_amount 0 cards)
            (scored input swipes (premium_amount input) 0 cards)
  sum-net cards =
      let p = scored input swipes payout_amount 0 cards in
      let q = scored input swipes (premium_amount input) 0 cards in
      eq_of_parts (sum_of pnl (outcomes_from input 0 cards)) (sub_ℕ p q)
        (ground (arith, sum-parts 0 cards))

-- The outcome that two sums of PnLs mean.
abbrev pub IsOutcome : DuelOutcome → ℤ → ℤ → Type 0
IsOutcome p0_win a b = ltb_ℤ b a ≡ true
IsOutcome p1_win a b = ltb_ℤ a b ≡ true
IsOutcome tied a b = a ≡ b

outcome_by_net-IsOutcome : (a b : ℤ) → IsOutcome (outcome_by_net a b) a b
outcome_by_net-IsOutcome a b = elim (Bool-cases (ltb_ℤ b a)) [
  | inl e ↦ rw e e
  | inr e ↦ elim (Bool-cases (ltb_ℤ a b)) [
    | inl f ↦ rw (e, f) f
    | inr f ↦ rw (e, f) (eq_of_parts a b (ground (arith, e, f)))
  ]
]

-- The PnLs that are shown for the cards of a duel add up to the result that is rated: for a duel
-- without a recorded winner whose payouts and premiums are those of its settled cards, the creator
-- wins only with the larger sum, the challenger only with the larger sum, and a tie is of equal
-- sums.
pub shown_pnls-rated :
    (input : CardOutcomeInput) (d : DuelRow)
    → d.winner ≡ none
    → d.p0_payout ≡ scored input input.p0_swipes payout_amount 0 input.cards
    → d.p0_premium ≡ scored input input.p0_swipes (premium_amount input) 0 input.cards
    → d.p1_payout ≡ scored input input.p1_swipes payout_amount 0 input.cards
    → d.p1_premium ≡ scored input input.p1_swipes (premium_amount input) 0 input.cards
    → IsOutcome
        (outcome_from_duel d)
        (sum_of (λ o. o.p0_pnl) (compute_card_outcomes input))
        (sum_of (λ o. o.p1_pnl) (compute_card_outcomes input))
unfolding compute_card_outcomes outcome_of outcome_from_duel
shown_pnls-rated input d w p0 q0 p1 q1 =
    rw
      (
        w,
        p0,
        q0,
        p1,
        q1,
        sum-net input input.p0_swipes (λ o. o.p0_pnl) (λ i card price. refl) input.cards,
        sum-net input input.p1_swipes (λ o. o.p1_pnl) (λ i card price. refl) input.cards,
      )
      (outcome_by_net-IsOutcome
        (sub_ℕ (scored input input.p0_swipes payout_amount 0 input.cards)
          (scored input input.p0_swipes (premium_amount input) 0 input.cards))
        (sub_ℕ (scored input input.p1_swipes payout_amount 0 input.cards)
          (scored input input.p1_swipes (premium_amount input) 0 input.cards)))
