-- ===== src/Keeper/Closing/Reasons.antt =====
-- apps/server/src/keeper.ts: a settled duel that nobody has finalized is left alone.
use flicky.Prelude.{
  ℕ, suc, ◌≤◌, String, ◌≡◌, refl, inl, inr, Bool, true, ◌||◌, none, some, List, [], ◌∷◌, arith,
  Bool-cases,
}
use flicky.Prelude.{length, All}
use flicky.Prelude.Maps.{mem, put}
use flicky.Keeper.{
  got, Card, DuelStatus, pending, active, complete, DuelLite, Chain, Keeper, Attempt,
}
use flicky.Keeper.Cards.{ready_from, ready_card_indices, settlement_by_market}
use flicky.Keeper.Revealing.{quiet, try_reveal, reveal_cards}
use flicky.Keeper.Closing.{
  go_on, after_reveal, close_by_status, settle_ready, close_active, close_body, begin_close,
  end_close, try_close,
}

ready_from-none :
    (i : ℕ) (cards : List Card) (settled : List Bool) (m : List (String × ℕ))
    → All (λ b. b ≡ true) settled
    → length cards ≤ length settled
    → ready_from i cards settled m ≡ []
unfolding ready_from
ready_from-none i [] settled m a l = refl
ready_from-none i (c ∷ cards) [] m a l = ground arith
ready_from-none i (c ∷ cards) (b ∷ settled) m (p, a) l =
    ground (arith, ready_from-none (suc i) cards settled m a (ground arith))

settle_ready-none :
    (chain : Chain) (id : String) (duel : DuelLite) (k : Keeper)
    → All (λ b. b ≡ true) duel.cards_settled
    → length duel.cards ≤ length duel.cards_settled
    → settle_ready chain id duel k ≡ quiet k
unfolding settle_ready ready_card_indices
settle_ready-none chain id duel k a l =
    rw
      (ready_from-none 0 duel.cards duel.cards_settled (settlement_by_market chain duel.cards []) a
        l)
      refl

-- Nothing was sent, nothing was thrown, and no duel was taken for finalized.
record Silent (k : Keeper) (a : Attempt) : Type 0 where
  sent : a.sent ≡ []
  thrown : a.thrown ≡ none
  finalized : a.keeper.finalized ≡ k.finalized

try_reveal-Silent :
    (chain : Chain) (duel : DuelLite) (c : Card) (cards : List Card) (k : Keeper)
    → duel.cards ≡ c ∷ cards
    → Silent k (try_reveal chain duel k)
unfolding try_reveal reveal_cards
try_reveal-Silent chain duel c cards k e =
    rw (e, try_reveal)
      (elim (Bool-cases (mem duel.id k.revealed)) [
        | inl h ↦ rw h (record { sent = refl; thrown = refl; finalized = refl })
        | inr h ↦ rw h (record { sent = refl; thrown = refl; finalized = refl })
      ])

after_reveal-Silent :
    (chain : Chain) (id : String) (duel : DuelLite) (k : Keeper) (a : Attempt)
    → All (λ b. b ≡ true) duel.cards_settled
    → length duel.cards ≤ length duel.cards_settled
    → Silent k a
    → Silent k (after_reveal chain id duel a)
unfolding after_reveal
after_reveal-Silent chain id duel k a h l s =
    rw (s.thrown, settle_ready-none chain id duel a.keeper h l, go_on)
      (record {
        sent = ground (arith, s.sent);
        thrown = ground (arith, s.thrown);
        finalized = ground (arith, s.finalized);
      })

pub close_by_status-active :
    (chain : Chain) (id : String) (st : DuelStatus) (duel : DuelLite) (k : Keeper)
    → st ≡ active
    → close_by_status chain id st duel k ≡ close_active chain id duel k
unfolding close_by_status
close_by_status-active chain id active duel k e = refl
close_by_status-active chain id pending duel k e = cc
close_by_status-active chain id complete duel k e = cc

close_body-Silent :
    (chain : Chain) (id : String) (duel : DuelLite) (c : Card) (cards : List Card) (k : Keeper)
    → chain.fetch_duel id ≡ got (some duel)
    → duel.status ≡ active
    → duel.cards ≡ c ∷ cards
    → All (λ b. b ≡ true) duel.cards_settled
    → length duel.cards ≤ length duel.cards_settled
    → Silent k (close_body chain id k)
unfolding close_body close_active
close_body-Silent chain id duel c cards k f s e h l =
    rw (f, close_body, close_by_status-active chain id duel.status duel k s)
      (after_reveal-Silent chain id duel k _ h l (try_reveal-Silent chain duel c cards k e))

-- A duel whose cards are all settled, and which nobody has finalized, is left as it is by every
-- pass: the keeper sends nothing, and does not finalize it.
pub settled_never_finalized :
    (chain : Chain) (id : String) (duel : DuelLite) (c : Card) (cards : List Card) (k : Keeper)
    → chain.fetch_duel id ≡ got (some duel)
    → duel.status ≡ active
    → duel.cards ≡ c ∷ cards
    → All (λ b. b ≡ true) duel.cards_settled
    → length duel.cards ≤ length duel.cards_settled
    → ((try_close chain id k).1 ≡ []) × ((try_close chain id k).0.finalized ≡ k.finalized)
unfolding try_close begin_close end_close
settled_never_finalized chain id duel c cards k f s e a l =
    let started : Keeper = record k { in_flight = put id k.in_flight } in
    let silent = close_body-Silent chain id duel c cards started f s e a l in
    elim (Bool-cases (mem id k.finalized || mem id k.in_flight)) [
      | inl h ↦ rw (h, try_close) (refl, refl)
      | inr h ↦ rw (h, try_close) (silent.sent, ground (arith, silent.thrown, silent.finalized))
    ]
