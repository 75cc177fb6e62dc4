-- ===== src/Keeper/Closing/Unrevealed.antt =====
-- apps/server/src/keeper.ts: a duel that is taken for revealed and is not.
use flicky.Prelude.{
  String, ◌≡◌, refl, ap, ◌∙◌, inl, inr, true, false, ◌||◌, Option, none, some, List, [], ◌∷◌, arith,
  str_eq_refl, Bool-cases,
}
use flicky.Prelude.Maps.{mem, put, mem-put}
use flicky.Keeper.Closing.Revealed.{after_throw-revealed, passes, passes-revealed}
use flicky.Keeper.{
  got, Card, DuelStatus, pending, active, complete, DuelLite, failed, Chain, Keeper, Attempt,
}
use flicky.Keeper.Errors.{includes}
use flicky.Keeper.Revealing.{
  quiet, mark_revealed, try_reveal, reveal_cards, reveal_active, send_reveal, reveal_outcome,
  reveal_calls, already_revealed,
}
use flicky.Keeper.Closing.{
  go_on, after_reveal, close_active, close_body, begin_close, end_close, try_close,
}
use flicky.Keeper.Closing.Reasons.{close_by_status-active}

reveal_cards-active :
    (chain : Chain) (cards : List Card) (st : DuelStatus) (duel : DuelLite) (k : Keeper)
    → cards ≡ []
    → st ≡ active
    → duel.status ≡ st
    → reveal_cards chain cards duel k ≡ send_reveal chain duel k
unfolding reveal_cards reveal_active
reveal_cards-active chain [] active duel k e f g = rw (g, reveal_cards) refl
reveal_cards-active chain [] pending duel k e f g = cc
reveal_cards-active chain [] complete duel k e f g = cc
reveal_cards-active chain (c ∷ cards) st duel k e f g = cc

go_on-stops :
    (chain : Chain) (id : String) (duel : DuelLite) (a : Attempt) (thrown : Option String)
    → duel.cards ≡ []
    → go_on chain id duel a thrown ≡ a
unfolding go_on
go_on-stops chain id duel a none e = ground arith
go_on-stops chain id duel a (some msg) e = refl

revealed_already :
    (chain : Chain) (id : String) (duel : DuelLite) (k : Keeper)
    → duel.cards ≡ []
    → mem duel.id k.revealed ≡ true
    → close_active chain id duel k ≡ quiet k
unfolding close_active after_reveal try_reveal
revealed_already chain id duel k e h =
    go_on-stops chain id duel (try_reveal chain duel k) (try_reveal chain duel k).thrown e
    ∙ rw (h, try_reveal) refl

failed_reveal :
    (chain : Chain) (duel : DuelLite) (plaintext : List Card) (reason : String) (k : Keeper)
    → mem duel.id k.revealed ≡ false
    → duel.cards ≡ []
    → duel.status ≡ active
    → chain.fetch_deck duel.deck_hash_hex ≡ got (some plaintext)
    → chain.execute (reveal_calls duel.id plaintext) ≡ failed reason
    → includes "16" reason ≡ true
    → (try_reveal chain duel k).keeper ≡ mark_revealed duel.id k
unfolding try_reveal send_reveal reveal_outcome already_revealed
failed_reveal chain duel plaintext reason k n e s d x i =
    ground (arith, reveal_cards-active chain duel.cards duel.status duel k e s refl)

abbrev pub started : String → Keeper → Keeper
started id k = record k { in_flight = put id k.in_flight }

-- A pass whose `reveal_deck` fails with such a text remembers the deck as revealed.
pass-failed_reveal :
    (chain : Chain) (id : String) (duel : DuelLite) (plaintext : List Card) (reason : String)
    (k : Keeper)
    → (mem id k.finalized || mem id k.in_flight) ≡ false
    → chain.fetch_duel id ≡ got (some duel)
    → mem duel.id k.revealed ≡ false
    → duel.cards ≡ []
    → duel.status ≡ active
    → chain.fetch_deck duel.deck_hash_hex ≡ got (some plaintext)
    → chain.execute (reveal_calls duel.id plaintext) ≡ failed reason
    → includes "16" reason ≡ true
    → mem duel.id (try_close chain id k).0.revealed ≡ true
unfolding try_close begin_close end_close close_body close_active after_reveal
pass-failed_reveal chain id duel plaintext reason k h f n e s d x i =
    let a = try_reveal chain duel (started id k) in
    let same : (close_active chain id duel (started id k)).keeper
        ≡ mark_revealed duel.id (started id k) =
      ap (λ v. v.keeper) (go_on-stops chain id duel a a.thrown e)
      ∙ failed_reveal chain duel plaintext reason (started id k) n e s d x i in
    rw (h, try_close, f, close_body, close_by_status-active chain id duel.status duel _ s)
      (after_throw-revealed id duel.id (close_active chain id duel (started id k)).thrown
        (close_active chain id duel (started id k)).keeper
        (rw same (ground (arith, mem-put duel.id duel.id k.revealed, str_eq_refl duel.id))))

-- A duel without cards that is remembered so is asked for, and nothing is sent.
pass-quiet :
    (chain : Chain) (id : String) (duel : DuelLite) (k : Keeper)
    → chain.fetch_duel id ≡ got (some duel)
    → duel.cards ≡ []
    → duel.status ≡ active
    → mem duel.id k.revealed ≡ true
    → (try_close chain id k).1 ≡ []
unfolding try_close begin_close end_close close_body
pass-quiet chain id duel k f e s r = elim (Bool-cases (mem id k.finalized || mem id k.in_flight)) [
  | inl h ↦ rw (h, try_close) refl
  | inr h ↦
      rw
        (
          h,
          try_close,
          f,
          close_body,
          close_by_status-active chain id duel.status duel _ s,
          revealed_already chain id duel (started id k) e r,
        )
        refl
]

-- A duel whose `reveal_deck` failed with any text in which "16" stands is taken for revealed:
-- whatever passes follow, for this duel or others and with whatever answers, a later pass for it
-- sends nothing as long as the chain gives it without cards.
pub unrevealed_forever :
    (chain last : Chain) (history : List (Chain × String)) (id : String) (duel : DuelLite)
    (plaintext : List Card) (reason : String) (k : Keeper)
    → (mem id k.finalized || mem id k.in_flight) ≡ false
    → chain.fetch_duel id ≡ got (some duel)
    → mem duel.id k.revealed ≡ false
    → duel.cards ≡ []
    → duel.status ≡ active
    → chain.fetch_deck duel.deck_hash_hex ≡ got (some plaintext)
    → chain.execute (reveal_calls duel.id plaintext) ≡ failed reason
    → includes "16" reason ≡ true
    → last.fetch_duel id ≡ got (some duel)
    → (try_close last id (passes history (try_close chain id k).0)).1 ≡ []
unrevealed_forever chain last history id duel plaintext reason k h f n e s d x i g =
    pass-quiet last id duel (passes history (try_close chain id k).0) g e s (
      passes-revealed history duel.id (try_close chain id k).0
        (pass-failed_reveal chain id duel plaintext reason k h f n e s d x i))
