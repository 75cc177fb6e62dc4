-- ===== src/Keeper/Ready.antt =====
-- apps/server/src/keeper.ts: which cards a pass settles, and when it finalizes the duel.
use flicky.Prelude.{
  ◌++◌, ◌∙◌, inl, inr, Bool-cases, str_eq, str_eq_refl, ℕ, suc, ◌+◌, ◌-◌, ◌≤◌, String, ◌≡◌, refl,
  Bool, true, false, not, ◌&&◌, ◌||◌, Option, none, some, List, [], ◌∷◌, arith, ltb, ◌==◌,
  if◌then◌else◌,
}
use flicky.Prelude.{times, length, get_elem?, get_or, count}
use flicky.Prelude.Maps.{has}
use flicky.Keeper.{
  Card, SwipeLite, DuelLite, Chain, Call, new_card, reveal_deck, settle_card, finalize,
  redeem_settled_permissionless,
}
use flicky.Prelude.{any}
use flicky.Keeper.Cards.{is_settled, rest_of, ready_from, ready_card_indices}
use flicky.Keeper.Batch.{
  ReadyCard, ready_cards, count_true, redeem_of, settle_calls, redeem_calls, will_finalize,
  close_calls,
}

-- A card can be settled: it is there, it is not settled, and its market has a price.
abbrev pub can_settle : Option Card → Bool → List (String × ℕ) → Bool
can_settle none settled m = false
can_settle (some c) settled m = not settled && has c.expiry_market_id m

ready_from-count :
    (i j : ℕ) (cards : List Card) (settled : List Bool) (m : List (String × ℕ))
    → count j (ready_from i cards settled m) ≡ (
        if ltb j i
        then 0
        else times (can_settle (get_elem? cards (j - i)) (get_or settled (j - i) false) m))
unfolding ready_from
ready_from-count i j [] settled m = ground arith
ready_from-count i j (c ∷ cards) [] m = ground (arith, ready_from-count (suc i) j cards [] m)
ready_from-count i j (c ∷ cards) (b ∷ settled) m =
    ground (arith, ready_from-count (suc i) j cards settled m)

-- A pass settles the card of an index once where the index is that of a card of the deck which is
-- not settled yet and whose market has a price, and no card otherwise.
pub ready_card_indices-exact :
    (cards : List Card) (settled : List Bool) (m : List (String × ℕ)) (j : ℕ)
    → count j (ready_card_indices cards settled m)
      ≡ times (can_settle (get_elem? cards j) (get_or settled j false) m)
unfolding ready_card_indices
ready_card_indices-exact cards settled m j = ground (arith, ready_from-count 0 j cards settled m)

-- Every card is settled, or will be by this pass.
abbrev pub all_covered : List Card → List Bool → List (String × ℕ) → Bool
all_covered [] settled m = true
all_covered (c ∷ cards) settled m =
    (is_settled settled || has c.expiry_market_id m) && all_covered cards (rest_of settled) m

covered_bound :
    (i : ℕ) (cards : List Card) (settled : List Bool) (m : List (String × ℕ))
    → length settled ≡ length cards
    → (count_true settled + length (ready_from i cards settled m) ≤ length cards)
      × ((count_true settled + length (ready_from i cards settled m) == length cards)
          ≡ all_covered cards settled m)
unfolding ready_from
covered_bound i [] [] m e = (ground arith, refl)
covered_bound i [] (b ∷ settled) m e = ground arith
covered_bound i (c ∷ cards) [] m e = ground arith
covered_bound i (c ∷ cards) (b ∷ settled) m e =
    let ih = covered_bound (suc i) cards settled m (ground arith) in
    (ground (arith, ih.0), ground (arith, ih.0, ih.1))

will_finalize-exact :
    (duel : DuelLite) (m : List (String × ℕ))
    → length duel.cards_settled ≡ length duel.cards
    → will_finalize duel (ready_card_indices duel.cards duel.cards_settled m)
      ≡ all_covered duel.cards duel.cards_settled m
unfolding will_finalize ready_card_indices
will_finalize-exact duel m e = (covered_bound 0 duel.cards duel.cards_settled m e).1

-- `finalize` of this duel.
abbrev pub is_finalize : String → Call → Bool
is_finalize id (finalize d) = str_eq d id
is_finalize id (new_card m s) = false
is_finalize id (reveal_deck d) = false
is_finalize id (settle_card d a b i p x y) = false
is_finalize id (redeem_settled_permissionless m a o) = false

settle_calls-any :
    (id : String) (p0 p1 : String) (chain : Chain) (rs : List ReadyCard) (after : List Call)
    → any (is_finalize id) (settle_calls id p0 p1 chain rs ++ after) ≡ any (is_finalize id) after
unfolding settle_calls
settle_calls-any id p0 p1 chain [] after = refl
settle_calls-any id p0 p1 chain (r ∷ rs) after =
    ground (arith, settle_calls-any id p0 p1 chain rs after)

redeem_of-any :
    (id market wrapper : String) (s : Option SwipeLite) (after : List Call)
    → any (is_finalize id) (redeem_of market wrapper s ++ after) ≡ any (is_finalize id) after
unfolding redeem_of
redeem_of-any id market wrapper none after = refl
redeem_of-any id market wrapper (some s) after = elim (Bool-cases (s.quantity == 0)) [
  | inl e ↦ rw (e, redeem_of) refl
  | inr e ↦ rw (e, redeem_of) refl
]

redeem_calls-any :
    (id p0 p1 : String) (rs : List ReadyCard) → any (is_finalize id) (redeem_calls p0 p1 rs) ≡ false
unfolding redeem_calls
redeem_calls-any id p0 p1 [] = refl
redeem_calls-any id p0 p1 (r ∷ rs) =
    redeem_of-any id r.card.expiry_market_id p0 r.p0 _
    ∙ redeem_of-any id r.card.expiry_market_id p1 r.p1 _
    ∙ redeem_calls-any id p0 p1 rs

pub close_calls-any :
    (id : String) (duel : DuelLite) (p0 p1 : String) (chain : Chain) (m : List (String × ℕ))
    (is : List ℕ)
    → any (is_finalize id) (close_calls id duel p0 p1 chain m is) ≡ will_finalize duel is
unfolding close_calls
close_calls-any id duel p0 p1 chain m is =
    let rs = ready_cards duel m is in
    settle_calls-any id p0 p1 chain rs _ ∙ elim (Bool-cases (will_finalize duel is)) [
      | inl e ↦ rw e (ground (arith, str_eq_refl id))
      | inr e ↦ rw e (redeem_calls-any id p0 p1 rs)
    ]

-- The transaction that a pass builds for the cards that are ready finalizes the duel exactly when
-- no card is left that is neither settled nor settled by the transaction itself, where the chain has
-- one mark for every card.
pub close_calls-finalize :
    (id : String) (duel : DuelLite) (p0 p1 : String) (chain : Chain) (m : List (String × ℕ))
    → length duel.cards_settled ≡ length duel.cards
    → any
        (is_finalize id)
        (close_calls id duel p0 p1 chain m (ready_card_indices duel.cards duel.cards_settled m))
      ≡ all_covered duel.cards duel.cards_settled m
close_calls-finalize id duel p0 p1 chain m e =
    close_calls-any id duel p0 p1 chain m (ready_card_indices duel.cards duel.cards_settled m)
    ∙ will_finalize-exact duel m e
