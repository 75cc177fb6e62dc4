-- ===== src/Keeper/Closing.antt =====
-- apps/server/src/keeper.ts: `tryClose` and `sweep`. A pass waits for its replies while other
-- passes run; they touch only the entries of their own duels, so a pass is one step here.
pub mod Untouched
pub mod Revealed
pub mod Unrevealed
pub mod Reasons
pub mod Finalized
use flicky.Prelude.{
  ℕ, zero, suc, ◌+◌, ◌-◌, ◌*◌, ◌/◌, ◌%◌, ◌^◌, ◌≤◌, ◌<◌, String, ◌≡◌, refl, sym, ap, ◌∙◌, ◌≢◌, ◌↔◌,
  ◌⊎◌, inl, inr, Bool, true, false, not, ◌&&◌, ◌||◌, Option, none, some, List, [], ◌∷◌, ◌++◌, map,
  arith, eq_iff, ltb, leb, ◌==◌, str_eq, str_eq_refl, if◌then◌else◌, Bool-cases, Option-cases,
  ==_iff, ==_refl, ltb→lt, leb→le, le→leb,
}
use flicky.Prelude.{length, get_elem?, count}
use flicky.Prelude.Maps.{lookup, mem, put, take_out}
use flicky.Keeper
use flicky.Keeper.{
  Reply, got, threw, Card, SwipeLite, DuelStatus, pending, active, complete, DuelLite, Premium,
  Call, settle_card, finalize, redeem_settled_permissionless, TxResult, success, failed, tx_threw,
  Chain, Keeper, Attempt,
}
use flicky.Keeper.Errors.{includes, is_terminal_settle_error}
use flicky.Keeper.Cards.{
  swipe_premium, resolve_card_premiums, settlement_by_market, ready_card_indices,
}
use flicky.Keeper.Revealing.{quiet, thrown_by, mark_revealed, mark_finalized, try_reveal}
use flicky.Keeper.Batch.{will_finalize, close_calls}

unfoldable pub close_outcome : String → Bool → List Call → TxResult → Keeper → Attempt
close_outcome id final tx success k = record {
  keeper = if final then mark_finalized id k else k;
  sent = tx ∷ [];
  thrown = none;
}
close_outcome id final tx (failed reason) k = record { keeper = k; sent = tx ∷ []; thrown = none }
close_outcome id final tx (tx_threw msg) k = record {
  keeper = k;
  sent = tx ∷ [];
  thrown = some msg;
}

-- Both wrappers are known, or the pass ends.
unfoldable pub send_batch :
    Chain
    → String
    → DuelLite
    → List (String × ℕ)
    → List ℕ
    → Option String
    → Option String
    → Keeper
    → Attempt
unfolding close_outcome
send_batch chain id duel m ready_idx (some p0) (some p1) k =
    let tx = close_calls id duel p0 p1 chain m ready_idx in
    close_outcome id (will_finalize duel ready_idx) tx (chain.execute tx) k
send_batch chain id duel m ready_idx p0 p1 k = quiet k

-- A failing look-up is caught: the next poll tries again.
unfoldable pub with_wrappers :
    Chain
    → String
    → DuelLite
    → List (String × ℕ)
    → List ℕ
    → Reply (Option String)
    → Reply (Option String)
    → Keeper
    → Attempt
unfolding send_batch
with_wrappers chain id duel m ready_idx (got p0) (got p1) k =
    send_batch chain id duel m ready_idx p0 p1 k
with_wrappers chain id duel m ready_idx p0 p1 k = quiet k

unfoldable pub unless_empty :
    Chain → String → DuelLite → List (String × ℕ) → List ℕ → Keeper → Attempt
unfolding with_wrappers
unless_empty chain id duel m [] k = quiet k
unless_empty chain id duel m (i ∷ is) k =
    with_wrappers chain id duel m (i ∷ is) (chain.derive_wrapper_for duel.creator)
      (chain.derive_wrapper_for duel.challenger) k

abbrev pub both_done : DuelLite → Bool
both_done duel =
    duel.p0_next_card_idx == length duel.cards && duel.p1_next_card_idx == length duel.cards

unfoldable pub settle_ready : Chain → String → DuelLite → Keeper → Attempt
unfolding unless_empty
settle_ready chain id duel k =
    let m = settlement_by_market chain duel.cards [] in
    unless_empty chain id duel m (ready_card_indices duel.cards duel.cards_settled m) k

abbrev pub is_empty : List Card → Bool
is_empty [] = true
is_empty (c ∷ cards) = false

-- An exception of `tryReveal` leaves the pass; without cards there is nothing to settle.
unfoldable pub go_on : Chain → String → DuelLite → Attempt → Option String → Attempt
unfolding settle_ready
go_on chain id duel a (some msg) = a
go_on chain id duel a none =
    if is_empty duel.cards || not (both_done duel) then a else settle_ready chain id duel a.keeper

unfoldable pub after_reveal : Chain → String → DuelLite → Attempt → Attempt
unfolding go_on
after_reveal chain id duel a = go_on chain id duel a a.thrown

unfoldable pub close_active : Chain → String → DuelLite → Keeper → Attempt
unfolding after_reveal try_reveal
close_active chain id duel k = after_reveal chain id duel (try_reveal chain duel k)

unfoldable pub close_by_status : Chain → String → DuelStatus → DuelLite → Keeper → Attempt
unfolding close_active
close_by_status chain id complete duel k = quiet (mark_finalized id k)
close_by_status chain id active duel k = close_active chain id duel k
close_by_status chain id pending duel k = quiet k

-- The body of the `try`.
unfoldable pub close_body : Chain → String → Keeper → Attempt
unfolding close_by_status
close_body chain id k = elim (chain.fetch_duel id) [
  | threw msg ↦ thrown_by k msg
  | got none ↦ quiet k
  | got (some duel) ↦ close_by_status chain id duel.status duel k
]

-- The `catch`.
unfoldable pub after_throw : String → Option String → Keeper → Keeper
after_throw id none k = k
after_throw id (some msg) k = if is_terminal_settle_error msg then mark_finalized id k else k

-- A pass that may begin, with its id among those in flight.
unfoldable pub begin_close : String → Keeper → Option Keeper
begin_close id k =
    if mem id k.finalized || mem id k.in_flight
    then none
    else some (record k { in_flight = put id k.in_flight })

-- The rest of the pass, with its `finally`.
unfoldable pub end_close : Chain → String → Keeper → Keeper × List (List Call)
unfolding close_body after_throw
end_close chain id k =
    let a = close_body chain id k in
    let k' = after_throw id a.thrown a.keeper in
    (record k' { in_flight = take_out id k'.in_flight }, a.sent)

unfoldable pub try_close : Chain → String → Keeper → Keeper × List (List Call)
unfolding begin_close end_close
try_close chain id k = elim (begin_close id k) [ none ↦ (k, []) | some k' ↦ end_close chain id k' ]

-- `sweep` starts a pass for every duel that the query names, and waits for none of them.
unfoldable pub sweep : List String → Keeper → Keeper × List String
unfolding begin_close
sweep [] k = (k, [])
sweep (id ∷ ids) k = elim (begin_close id k) [
  | none ↦ sweep ids k
  | some k' ↦ let (k'', started) = sweep ids k' in (k'', id ∷ started)
]
