-- ===== src/Keeper/Batch.antt =====
-- apps/server/src/keeper.ts: the one transaction that `tryClose` builds for the cards that can be
-- settled.
use flicky.Prelude.{
  ℕ, suc, ◌+◌, String, Bool, Option, none, some, List, [], ◌∷◌, ◌++◌, ◌==◌, if◌then◌else◌,
}
use flicky.Prelude.{length, get_elem?}
use flicky.Prelude.Maps.{lookup}
use flicky.Keeper.{
  Card, SwipeLite, DuelLite, Call, settle_card, finalize, redeem_settled_permissionless, Chain,
}
use flicky.Keeper.Cards.{swipe_premium, resolve_card_premiums}

-- `cards[i]`, `p0Swipes[i]`: what a card that is ready has at its index.
pub record ReadyCard : Type 0 where
  pub i : ℕ
  pub card : Card
  pub settlement_price : ℕ
  pub p0 : Option SwipeLite
  pub p1 : Option SwipeLite

abbrev pub flat {ℓ} : {A : Type ℓ} → Option (Option A) → Option A
flat none = none
flat (some o) = o

-- The card of an index, unless it has no price.
unfoldable pub ready_card :
    DuelLite → List (String × ℕ) → ℕ → Option Card → List ReadyCard → List ReadyCard
ready_card duel m i none rest = rest
ready_card duel m i (some card) rest = elim (lookup card.expiry_market_id m) [
  | none ↦ rest
  | some price ↦
      record {
        i = i;
        card = card;
        settlement_price = price;
        p0 = flat (get_elem? duel.p0_swipes i);
        p1 = flat (get_elem? duel.p1_swipes i);
      }
      ∷ rest
]

unfoldable pub ready_cards : DuelLite → List (String × ℕ) → List ℕ → List ReadyCard
unfolding ready_card
ready_cards duel m [] = []
ready_cards duel m (i ∷ is) = ready_card duel m i (get_elem? duel.cards i) (ready_cards duel m is)

unfoldable pub settle_call : String → String → String → Chain → ReadyCard → Call
unfolding resolve_card_premiums
settle_call id p0_wrapper p1_wrapper chain r =
    let market = r.card.expiry_market_id in
    let premiums =
      resolve_card_premiums (swipe_premium chain market r.p0) (swipe_premium chain market r.p1) in
    settle_card id p0_wrapper p1_wrapper r.i r.settlement_price premiums.0 premiums.1

unfoldable pub settle_calls : String → String → String → Chain → List ReadyCard → List Call
unfolding settle_call
settle_calls id p0_wrapper p1_wrapper chain [] = []
settle_calls id p0_wrapper p1_wrapper chain (r ∷ rs) =
    settle_call id p0_wrapper p1_wrapper chain r ∷ settle_calls id p0_wrapper p1_wrapper chain rs

-- A swipe without a position has nothing to redeem.
unfoldable pub redeem_of : String → String → Option SwipeLite → List Call
redeem_of market wrapper none = []
redeem_of market wrapper (some s) =
    if s.quantity == 0 then [] else redeem_settled_permissionless market wrapper s.order_id ∷ []

unfoldable pub redeem_calls : String → String → List ReadyCard → List Call
unfolding redeem_of
redeem_calls p0_wrapper p1_wrapper [] = []
redeem_calls p0_wrapper p1_wrapper (r ∷ rs) =
    redeem_of r.card.expiry_market_id p0_wrapper r.p0
    ++ (redeem_of r.card.expiry_market_id p1_wrapper r.p1 ++ redeem_calls p0_wrapper p1_wrapper rs)

abbrev pub count_true : List Bool → ℕ
count_true [] = 0
count_true (b ∷ bs) = if b then suc (count_true bs) else count_true bs

unfoldable pub will_finalize : DuelLite → List ℕ → Bool
will_finalize duel ready_idx = count_true duel.cards_settled + length ready_idx == length duel.cards

abbrev pub finalize_calls : String → Bool → List Call
finalize_calls id b = if b then finalize id ∷ [] else []

unfoldable pub close_calls :
    String → DuelLite → String → String → Chain → List (String × ℕ) → List ℕ → List Call
unfolding settle_calls redeem_calls will_finalize ready_cards
close_calls id duel p0_wrapper p1_wrapper chain m ready_idx =
    let rs = ready_cards duel m ready_idx in
    settle_calls id p0_wrapper p1_wrapper chain rs
    ++ (finalize_calls id (will_finalize duel ready_idx) ++ redeem_calls p0_wrapper p1_wrapper rs)
