-- ===== src/Keeper/Ordering.antt =====
-- apps/server/src/keeper.ts: the order and the arguments of the calls that one pass sends.
use flicky.Prelude.{
  ℕ, ◌≤◌, String, inl, inr, Option, none, some, List, [], ◌∷◌, ◌++◌, arith, ◌==◌, Bool-cases,
}
use flicky.Keeper.{
  SwipeLite, DuelLite, Chain, Call, new_card, reveal_deck, settle_card, finalize,
  redeem_settled_permissionless,
}
use flicky.Keeper.Batch.{
  ReadyCard, ready_cards, redeem_of, settle_calls, redeem_calls, will_finalize, close_calls,
}

-- The phases of a transaction: 0 settles, 1 finalizes, 2 redeems.
abbrev pub phase : Call → ℕ
phase (settle_card d a b i p x y) = 0
phase (finalize d) = 1
phase (redeem_settled_permissionless m a o) = 2
phase (new_card m s) = 3
phase (reveal_deck d) = 3

-- The phases never go back.
abbrev pub Phased : ℕ → List Call → Type 0
Phased n [] = Unit
Phased n (c ∷ cs) = (n ≤ phase c) × ((phase c ≤ 2) × Phased (phase c) cs)

settle_calls-Phased :
    (id p0 p1 : String) (chain : Chain) (rs : List ReadyCard) (after : List Call)
    → Phased 0 after
    → Phased 0 (settle_calls id p0 p1 chain rs ++ after)
unfolding settle_calls
settle_calls-Phased id p0 p1 chain [] after h = h
settle_calls-Phased id p0 p1 chain (r ∷ rs) after h =
    (ground arith, (ground arith, settle_calls-Phased id p0 p1 chain rs after h))

redeem_of-Phased :
    (market wrapper : String) (s : Option SwipeLite) (after : List Call)
    → Phased 2 after
    → Phased 2 (redeem_of market wrapper s ++ after)
unfolding redeem_of
redeem_of-Phased market wrapper none after h = h
redeem_of-Phased market wrapper (some s) after h = elim (Bool-cases (s.quantity == 0)) [
  | inl e ↦ rw (e, redeem_of) h
  | inr e ↦ rw (e, redeem_of) (ground arith, (ground arith, h))
]

redeem_calls-Phased : (p0 p1 : String) (rs : List ReadyCard) → Phased 2 (redeem_calls p0 p1 rs)
unfolding redeem_calls
redeem_calls-Phased p0 p1 [] = tt
redeem_calls-Phased p0 p1 (r ∷ rs) =
    redeem_of-Phased r.card.expiry_market_id p0 r.p0 _
      (redeem_of-Phased r.card.expiry_market_id p1 r.p1 _ (redeem_calls-Phased p0 p1 rs))

weaker : (m n : ℕ) (cs : List Call) → m ≤ n → Phased n cs → Phased m cs
weaker m n [] l h = tt
weaker m n (c ∷ cs) l (a, h) = (ground arith, h)

-- In the transaction of a pass every `settle_card` stands before `finalize`, and both before every
-- redemption; it holds no other calls.
pub close_calls-Phased :
    (id : String) (duel : DuelLite) (p0 p1 : String) (chain : Chain) (m : List (String × ℕ))
    (ready_idx : List ℕ)
    → Phased 0 (close_calls id duel p0 p1 chain m ready_idx)
unfolding close_calls
close_calls-Phased id duel p0 p1 chain m ready_idx =
    let rs = ready_cards duel m ready_idx in
    let redeems = redeem_calls-Phased p0 p1 rs in
    settle_calls-Phased id p0 p1 chain rs _ (elim (Bool-cases (will_finalize duel ready_idx)) [
      | inl e ↦ rw e (ground arith, (ground arith, weaker 1 2 _ (ground arith) redeems))
      | inr e ↦ rw e (weaker 0 2 _ (ground arith) redeems)
    ])
