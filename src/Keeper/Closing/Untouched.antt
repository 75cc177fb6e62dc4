-- ===== src/Keeper/Closing/Untouched.antt =====
-- apps/server/src/keeper.ts: `tryReveal` leaves the set of finalized duels as it is.
use flicky.Prelude.{String, ◌≡◌, refl, ◌⊎◌, inl, inr, none, some, List, [], ◌∷◌, arith}
use flicky.Keeper.{
  Reply, got, threw, Card, DuelStatus, pending, active, complete, DuelLite, Call, TxResult, success,
  failed, tx_threw, Chain, Keeper,
}
use flicky.Keeper.Revealing.{
  try_reveal, reveal_cards, reveal_active, send_reveal, reveal_outcome, reveal_calls,
}

pub Reply-cases :
    {A : Type 0} (r : Reply A) → ((msg : String) × (r ≡ threw msg)) ⊎ ((a : A) × (r ≡ got a))
Reply-cases (threw msg) = inl (msg, refl)
Reply-cases (got a) = inr (a, refl)

reveal_outcome-same :
    (duel : DuelLite) (tx : List Call) (r : TxResult) (k : Keeper)
    → (reveal_outcome duel tx r k).keeper.finalized ≡ k.finalized
unfolding reveal_outcome
reveal_outcome-same duel tx success k = refl
reveal_outcome-same duel tx (failed reason) k = ground arith
reveal_outcome-same duel tx (tx_threw msg) k = refl

send_reveal-same :
    (chain : Chain) (duel : DuelLite) (k : Keeper)
    → (send_reveal chain duel k).keeper.finalized ≡ k.finalized
unfolding send_reveal
send_reveal-same chain duel k = elim (Reply-cases (chain.fetch_deck duel.deck_hash_hex)) [
  | inl (msg, e) ↦ rw (e, send_reveal) refl
  | inr (none, e) ↦ rw (e, send_reveal) refl
  | inr (some plaintext, e) ↦
      let tx = reveal_calls duel.id plaintext in
      rw (e, send_reveal) (reveal_outcome-same duel tx (chain.execute tx) k)
]

reveal_active-same :
    (chain : Chain) (st : DuelStatus) (duel : DuelLite) (k : Keeper)
    → (reveal_active chain st duel k).keeper.finalized ≡ k.finalized
unfolding reveal_active
reveal_active-same chain active duel k = send_reveal-same chain duel k
reveal_active-same chain pending duel k = refl
reveal_active-same chain complete duel k = refl

reveal_cards-same :
    (chain : Chain) (cards : List Card) (duel : DuelLite) (k : Keeper)
    → (reveal_cards chain cards duel k).keeper.finalized ≡ k.finalized
unfolding reveal_cards
reveal_cards-same chain [] duel k = reveal_active-same chain duel.status duel k
reveal_cards-same chain (c ∷ cards) duel k = refl

pub try_reveal-same :
    (chain : Chain) (duel : DuelLite) (k : Keeper)
    → (try_reveal chain duel k).keeper.finalized ≡ k.finalized
unfolding try_reveal
try_reveal-same chain duel k = ground (arith, reveal_cards-same chain duel.cards duel k)
