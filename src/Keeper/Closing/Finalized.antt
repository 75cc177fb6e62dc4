-- ===== src/Keeper/Closing/Finalized.antt =====
-- apps/server/src/keeper.ts: what must have happened for a duel to be taken for finalized.
use flicky.Prelude.{
  ℕ, String, ◌≡◌, refl, ◌∙◌, ◌⊎◌, inl, inr, Bool, true, false, not, ◌||◌, Option, none, some, List,
  [], ◌∷◌, arith, Bool-cases,
}
use flicky.Prelude.{any}
use flicky.Prelude.{◌&&◌, ap}
use flicky.Keeper.Ready.{is_finalize, close_calls-any}
use flicky.Prelude.Maps.{mem, put}
use flicky.Keeper.{
  Reply, got, threw, DuelStatus, pending, active, complete, DuelLite, Call, TxResult, success,
  failed, tx_threw, Chain, Keeper, Attempt,
}
use flicky.Keeper.Errors.{is_terminal_settle_error}
use flicky.Keeper.Revealing.{try_reveal}
use flicky.Keeper.Batch.{will_finalize, close_calls}
use flicky.Keeper.Closing.Untouched.{Reply-cases, try_reveal-same}
use flicky.Keeper.Closing.{
  both_done, is_empty, go_on, after_reveal, close_by_status, after_throw, close_outcome, send_batch,
  with_wrappers, unless_empty, settle_ready, close_active, close_body, begin_close, end_close,
  try_close,
}

abbrev pub succeeded : TxResult → Bool
succeeded success = true
succeeded (failed reason) = false
succeeded (tx_threw msg) = false

-- One of these transactions holds `finalize` of this duel, and goes through on the chain.
abbrev pub paid_out : Chain → String → List (List Call) → Bool
paid_out chain id sent = any (λ tx. any (is_finalize id) tx && succeeded (chain.execute tx)) sent

-- What an attempt leaves of the set: all of it, or the duel is added to it with such a transaction.
abbrev pub Keeps : Chain → String → Keeper → Attempt → Type 0
Keeps chain id k a =
    (a.keeper.finalized ≡ k.finalized)
    ⊎ ((a.thrown ≡ none)
        × ((a.keeper.finalized ≡ put id k.finalized) × (paid_out chain id a.sent ≡ true)))

close_outcome-Keeps :
    (chain : Chain) (id : String) (b : Bool) (tx : List Call) (r : TxResult) (k : Keeper)
    → chain.execute tx ≡ r
    → any (is_finalize id) tx ≡ b
    → Keeps chain id k (close_outcome id b tx r k)
unfolding close_outcome
close_outcome-Keeps chain id true tx success k e h = inr (refl, (refl, ground (arith, h, e)))
close_outcome-Keeps chain id false tx success k e h = inl refl
close_outcome-Keeps chain id b tx (failed reason) k e h = inl refl
close_outcome-Keeps chain id b tx (tx_threw msg) k e h = inl refl

send_batch-Keeps :
    (chain : Chain) (id : String) (duel : DuelLite) (m : List (String × ℕ)) (is : List ℕ)
    (p0 p1 : Option String) (k : Keeper)
    → Keeps chain id k (send_batch chain id duel m is p0 p1 k)
unfolding send_batch
send_batch-Keeps chain id duel m is none p1 k = inl refl
send_batch-Keeps chain id duel m is (some p0) none k = inl refl
send_batch-Keeps chain id duel m is (some p0) (some p1) k =
    close_outcome-Keeps chain id (will_finalize duel is) (close_calls id duel p0 p1 chain m is) _ k
      refl (close_calls-any id duel p0 p1 chain m is)

with_wrappers-Keeps :
    (chain : Chain) (id : String) (duel : DuelLite) (m : List (String × ℕ)) (is : List ℕ)
    (p0 p1 : Reply (Option String)) (k : Keeper)
    → Keeps chain id k (with_wrappers chain id duel m is p0 p1 k)
unfolding with_wrappers
with_wrappers-Keeps chain id duel m is (threw msg) p1 k = inl refl
with_wrappers-Keeps chain id duel m is (got p0) (threw msg) k = inl refl
with_wrappers-Keeps chain id duel m is (got p0) (got p1) k =
    send_batch-Keeps chain id duel m is p0 p1 k

unless_empty-Keeps :
    (chain : Chain) (id : String) (duel : DuelLite) (m : List (String × ℕ)) (is : List ℕ)
    (k : Keeper)
    → Keeps chain id k (unless_empty chain id duel m is k)
unfolding unless_empty
unless_empty-Keeps chain id duel m [] k = inl refl
unless_empty-Keeps chain id duel m (i ∷ is) k = with_wrappers-Keeps chain id duel m (i ∷ is) _ _ k

settle_ready-Keeps :
    (chain : Chain) (id : String) (duel : DuelLite) (k : Keeper)
    → Keeps chain id k (settle_ready chain id duel k)
unfolding settle_ready
settle_ready-Keeps chain id duel k = unless_empty-Keeps chain id duel _ _ k

go_on-Keeps :
    (chain : Chain) (id : String) (duel : DuelLite) (k : Keeper) (a : Attempt)
    (thrown : Option String)
    → a.keeper.finalized ≡ k.finalized
    → Keeps chain id k (go_on chain id duel a thrown)
unfolding go_on
go_on-Keeps chain id duel k a (some msg) e = inl e
go_on-Keeps chain id duel k a none e =
    elim (Bool-cases (is_empty duel.cards || not (both_done duel))) [
      | inl h ↦ rw (h, go_on) (inl e)
      | inr h ↦
          rw (h, go_on)
            (elim (settle_ready-Keeps chain id duel a.keeper) [
              | inl same ↦ inl (same ∙ e)
              | inr (t, (p, q)) ↦ inr (t, (p ∙ ap (λ s. put id s) e, q))
            ])
    ]

close_active-Keeps :
    (chain : Chain) (id : String) (duel : DuelLite) (k : Keeper)
    → Keeps chain id k (close_active chain id duel k)
unfolding close_active after_reveal
close_active-Keeps chain id duel k =
    go_on-Keeps chain id duel k (try_reveal chain duel k) (try_reveal chain duel k).thrown
      (try_reveal-same chain duel k)

-- The chain says that the duel is complete.
abbrev pub Complete : Chain → String → Type 0
Complete chain id =
    (duel : DuelLite) × ((chain.fetch_duel id ≡ got (some duel)) × (duel.status ≡ complete))

-- The same, or the duel is added and the chain says that it is complete.
abbrev Settles : Chain → String → Keeper → Attempt → Type 0
Settles chain id k a =
    Keeps chain id k a
    ⊎ ((a.thrown ≡ none) × ((a.keeper.finalized ≡ put id k.finalized) × Complete chain id))

by_status-Settles :
    (chain : Chain) (id : String) (st : DuelStatus) (duel : DuelLite) (k : Keeper)
    → Keeps chain id k (close_by_status chain id st duel k)
      ⊎ (((close_by_status chain id st duel k).thrown ≡ none)
          × (((close_by_status chain id st duel k).keeper.finalized ≡ put id k.finalized)
              × (st ≡ complete)))
unfolding close_by_status
by_status-Settles chain id active duel k = inl (close_active-Keeps chain id duel k)
by_status-Settles chain id pending duel k = inl (inl refl)
by_status-Settles chain id complete duel k = inr (refl, (refl, refl))

close_body-Settles :
    (chain : Chain) (id : String) (k : Keeper) → Settles chain id k (close_body chain id k)
unfolding close_body
close_body-Settles chain id k = elim (Reply-cases (chain.fetch_duel id)) [
  | inl (msg, e) ↦ rw (e, close_body) (inl (inl refl))
  | inr (none, e) ↦ rw (e, close_body) (inl (inl refl))
  | inr (some duel, e) ↦
      rw (e, close_body)
        (elim (by_status-Settles chain id duel.status duel k) [
          | inl h ↦ inl h
          | inr (t, (p, h)) ↦ inr (t, (p, (duel, (refl, h))))
        ])
]

-- The pass ended in an exception that no repetition avoids.
abbrev pub Terminal : Chain → String → Keeper → Type 0
Terminal chain id k =
    (msg : String) × (((close_body chain id k).thrown ≡ some msg)
      × (is_terminal_settle_error msg ≡ true))

-- After an exception the set is as it was, or the duel is added to it.
caught :
    (id : String) (thrown : Option String) (k : Keeper)
    → ((after_throw id thrown k).finalized ≡ k.finalized)
      ⊎ (((after_throw id thrown k).finalized ≡ put id k.finalized)
          × ((msg : String) × ((thrown ≡ some msg) × (is_terminal_settle_error msg ≡ true))))
unfolding after_throw
caught id none k = inl refl
caught id (some msg) k = elim (Bool-cases (is_terminal_settle_error msg)) [
  | inl h ↦ inr (rw (h, after_throw) refl, (msg, (refl, h)))
  | inr h ↦ inl (rw (h, after_throw) refl)
]

abbrev pub under_way : String → Keeper → Keeper
under_way id k = record k { in_flight = put id k.in_flight }

-- Why a pass added the duel: the chain says that it is complete, or a transaction that the pass
-- sent finalized it, or the pass ended in a terminal error.
abbrev pub Because : Chain → String → Keeper → List (List Call) → Type 0
Because chain id k sent =
    Complete chain id ⊎ ((paid_out chain id sent ≡ true) ⊎ Terminal chain id (under_way id k))

-- The set of finalized duels after a pass, and what the pass sent.
abbrev pub Justified : Chain → String → Keeper → Keeper × List (List Call) → Type 0
Justified chain id k (k', sent) =
    (k'.finalized ≡ k.finalized) ⊎ ((k'.finalized ≡ put id k.finalized) × Because chain id k sent)

end_close-Justified :
    (chain : Chain) (id : String) (k : Keeper)
    → Justified chain id k (end_close chain id (under_way id k))
unfolding end_close
end_close-Justified chain id k =
    let a = close_body chain id (under_way id k) in
    elim (close_body-Settles chain id (under_way id k)) [
      | inl (inl same) ↦ elim (caught id a.thrown a.keeper) [
        | inl c ↦ inl (c ∙ same)
        | inr (c, t) ↦ inr (c ∙ ap (λ s. put id s) same, inr (inr t))
      ]
      | inl (inr (n, (e, p))) ↦
          inr (ap (λ t. (after_throw id t a.keeper).finalized) n ∙ ground (arith, e), inr (inl p))
      | inr (n, (e, c)) ↦
          inr (ap (λ t. (after_throw id t a.keeper).finalized) n ∙ ground (arith, e), inl c)
    ]

-- A pass leaves the set of finalized duels as it was, or it adds its own duel to the set, and then
-- the chain says that this duel is complete, or one of the transactions that the pass sent holds a
-- `finalize` of this duel and went through, or the pass ended in a terminal error.
pub finalized_for_a_reason :
    (chain : Chain) (id : String) (k : Keeper) → Justified chain id k (try_close chain id k)
unfolding try_close begin_close
finalized_for_a_reason chain id k = elim (Bool-cases (mem id k.finalized || mem id k.in_flight)) [
  | inl h ↦ rw (h, try_close) (inl refl)
  | inr h ↦ rw (h, try_close) (end_close-Justified chain id k)
]
