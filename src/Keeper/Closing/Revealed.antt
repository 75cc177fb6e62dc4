-- ===== src/Keeper/Closing/Revealed.antt =====
-- apps/server/src/keeper.ts: the set of revealed duels only grows.
use flicky.Prelude.{
  ℕ, String, ◌≡◌, inl, inr, Bool, true, false, not, ◌||◌, Option, none, some, List, [], ◌∷◌, arith,
  Bool-cases,
}
use flicky.Prelude.Maps.{mem, put, mem-put}
use flicky.Keeper.{
  Reply, got, threw, Card, DuelStatus, pending, active, complete, DuelLite, Call, TxResult, success,
  failed, tx_threw, Chain, Keeper, Attempt,
}
use flicky.Keeper.Revealing.{
  try_reveal, reveal_cards, reveal_active, send_reveal, reveal_outcome, reveal_calls,
}
use flicky.Keeper.Batch.{will_finalize, close_calls}
use flicky.Keeper.Closing.Untouched.{Reply-cases}
use flicky.Keeper.Closing.{
  both_done, is_empty, go_on, after_reveal, close_by_status, after_throw, close_outcome, send_batch,
  with_wrappers, unless_empty, settle_ready, close_active, close_body, begin_close, end_close,
  try_close,
}

-- The keeper after a history of passes, each with the answers of the chain and its duel.
unfoldable pub passes : List (Chain × String) → Keeper → Keeper
unfolding try_close
passes [] k = k
passes ((chain, id) ∷ rest) k = passes rest (try_close chain id k).0

pub after_throw-revealed :
    (id d : String) (thrown : Option String) (k : Keeper)
    → mem d k.revealed ≡ true
    → mem d (after_throw id thrown k).revealed ≡ true
unfolding after_throw
after_throw-revealed id d none k h = h
after_throw-revealed id d (some msg) k h = ground (arith, h)

module _ (d : String) where
  abbrev Grows : Keeper → Attempt → Type 0
  Grows k a = mem d k.revealed ≡ true → mem d a.keeper.revealed ≡ true

  marked : (id : String) (k : Keeper) → mem d k.revealed ≡ true → mem d (put id k.revealed) ≡ true
  marked id k h = ground (arith, mem-put id d k.revealed, h)

  reveal_outcome-Grows :
      (duel : DuelLite) (tx : List Call) (r : TxResult) (k : Keeper)
      → Grows k (reveal_outcome duel tx r k)
  unfolding reveal_outcome
  reveal_outcome-Grows duel tx success k h = marked duel.id k h
  reveal_outcome-Grows duel tx (failed reason) k h = ground (arith, h, marked duel.id k h)
  reveal_outcome-Grows duel tx (tx_threw msg) k h = h

  send_reveal-Grows :
      (chain : Chain) (duel : DuelLite) (k : Keeper) → Grows k (send_reveal chain duel k)
  unfolding send_reveal
  send_reveal-Grows chain duel k h = elim (Reply-cases (chain.fetch_deck duel.deck_hash_hex)) [
    | inl (msg, e) ↦ rw (e, send_reveal) h
    | inr (none, e) ↦ rw (e, send_reveal) h
    | inr (some plaintext, e) ↦
        let tx = reveal_calls duel.id plaintext in
        rw (e, send_reveal) (reveal_outcome-Grows duel tx (chain.execute tx) k h)
  ]

  reveal_active-Grows :
      (chain : Chain) (st : DuelStatus) (duel : DuelLite) (k : Keeper)
      → Grows k (reveal_active chain st duel k)
  unfolding reveal_active
  reveal_active-Grows chain active duel k h = send_reveal-Grows chain duel k h
  reveal_active-Grows chain pending duel k h = h
  reveal_active-Grows chain complete duel k h = h

  reveal_cards-Grows :
      (chain : Chain) (cards : List Card) (duel : DuelLite) (k : Keeper)
      → Grows k (reveal_cards chain cards duel k)
  unfolding reveal_cards
  reveal_cards-Grows chain [] duel k h = reveal_active-Grows chain duel.status duel k h
  reveal_cards-Grows chain (c ∷ cards) duel k h = marked duel.id k h

  try_reveal-Grows :
      (chain : Chain) (duel : DuelLite) (k : Keeper) → Grows k (try_reveal chain duel k)
  unfolding try_reveal
  try_reveal-Grows chain duel k h = ground (arith, reveal_cards-Grows chain duel.cards duel k h, h)

  close_outcome-Grows :
      (id : String) (b : Bool) (tx : List Call) (r : TxResult) (k : Keeper)
      → Grows k (close_outcome id b tx r k)
  unfolding close_outcome
  close_outcome-Grows id true tx success k h = h
  close_outcome-Grows id false tx success k h = h
  close_outcome-Grows id b tx (failed reason) k h = h
  close_outcome-Grows id b tx (tx_threw msg) k h = h

  with_wrappers-Grows :
      (chain : Chain) (id : String) (duel : DuelLite) (m : List (String × ℕ)) (is : List ℕ)
      (p0 p1 : Reply (Option String)) (k : Keeper)
      → Grows k (with_wrappers chain id duel m is p0 p1 k)
  unfolding with_wrappers send_batch
  with_wrappers-Grows chain id duel m is (threw msg) p1 k h = h
  with_wrappers-Grows chain id duel m is (got p0) (threw msg) k h = h
  with_wrappers-Grows chain id duel m is (got none) (got p1) k h = h
  with_wrappers-Grows chain id duel m is (got (some p0)) (got none) k h = h
  with_wrappers-Grows chain id duel m is (got (some p0)) (got (some p1)) k h =
      let tx = close_calls id duel p0 p1 chain m is in
      close_outcome-Grows id (will_finalize duel is) tx (chain.execute tx) k h

  unless_empty-Grows :
      (chain : Chain) (id : String) (duel : DuelLite) (m : List (String × ℕ)) (is : List ℕ)
      (k : Keeper)
      → Grows k (unless_empty chain id duel m is k)
  unfolding unless_empty
  unless_empty-Grows chain id duel m [] k h = h
  unless_empty-Grows chain id duel m (i ∷ is) k h =
      with_wrappers-Grows chain id duel m (i ∷ is) _ _ k h

  go_on-Grows :
      (chain : Chain) (id : String) (duel : DuelLite) (a : Attempt) (thrown : Option String)
      → Grows a.keeper (go_on chain id duel a thrown)
  unfolding go_on settle_ready
  go_on-Grows chain id duel a (some msg) h = h
  go_on-Grows chain id duel a none h =
      elim (Bool-cases (is_empty duel.cards || not (both_done duel))) [
        | inl e ↦ rw (e, go_on) h
        | inr e ↦ rw (e, go_on) (unless_empty-Grows chain id duel _ _ a.keeper h)
      ]

  by_status-Grows :
      (chain : Chain) (id : String) (st : DuelStatus) (duel : DuelLite) (k : Keeper)
      → Grows k (close_by_status chain id st duel k)
  unfolding close_by_status close_active after_reveal
  by_status-Grows chain id complete duel k h = h
  by_status-Grows chain id pending duel k h = h
  by_status-Grows chain id active duel k h =
      let a = try_reveal chain duel k in
      go_on-Grows chain id duel a a.thrown (try_reveal-Grows chain duel k h)

  close_body-Grows : (chain : Chain) (id : String) (k : Keeper) → Grows k (close_body chain id k)
  unfolding close_body
  close_body-Grows chain id k h = elim (Reply-cases (chain.fetch_duel id)) [
    | inl (msg, e) ↦ rw (e, close_body) h
    | inr (none, e) ↦ rw (e, close_body) h
    | inr (some duel, e) ↦ rw (e, close_body) (by_status-Grows chain id duel.status duel k h)
  ]

  try_close-revealed :
      (chain : Chain) (id : String) (k : Keeper)
      → mem d k.revealed ≡ true
      → mem d (try_close chain id k).0.revealed ≡ true
  unfolding try_close begin_close end_close
  try_close-revealed chain id k h = elim (Bool-cases (mem id k.finalized || mem id k.in_flight)) [
    | inl e ↦ rw (e, try_close) h
    | inr e ↦
        let k' : Keeper = record k { in_flight = put id k.in_flight } in
        let a = close_body chain id k' in
        rw (e, try_close)
          (after_throw-revealed id d a.thrown a.keeper (close_body-Grows chain id k' h))
  ]

pub passes-revealed :
    (history : List (Chain × String)) (d : String) (k : Keeper)
    → mem d k.revealed ≡ true
    → mem d (passes history k).revealed ≡ true
unfolding passes
passes-revealed [] d k h = h
passes-revealed ((chain, id) ∷ rest) d k h =
    passes-revealed rest d (try_close chain id k).0 (try_close-revealed d chain id k h)
