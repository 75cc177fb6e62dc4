-- ===== src/Keeper/Revealing.antt =====
-- apps/server/src/keeper.ts: `tryReveal`.
use flicky.Prelude.{String, Bool, ◌||◌, none, some, List, [], ◌∷◌, if◌then◌else◌}
use flicky.Prelude.Maps.{mem, put}
use flicky.Keeper
use flicky.Keeper.{
  Reply, got, threw, Card, SwipeLite, DuelStatus, pending, active, complete, DuelLite, Premium,
  Call, settle_card, finalize, redeem_settled_permissionless, TxResult, success, failed, tx_threw,
  Chain, Keeper, Attempt,
}
use flicky.Keeper.Errors.{includes}

-- Nothing is sent and the sets stay.
abbrev pub quiet : Keeper → Attempt
quiet k = record { keeper = k; sent = []; thrown = none }

abbrev pub thrown_by : Keeper → String → Attempt
thrown_by k msg = record { keeper = k; sent = []; thrown = some msg }

abbrev pub mark_revealed : String → Keeper → Keeper
mark_revealed id k = record k { revealed = put id k.revealed }

abbrev pub mark_finalized : String → Keeper → Keeper
mark_finalized id k = record k { finalized = put id k.finalized }

unfoldable pub reveal_calls : String → List Card → List Call
reveal_calls id [] = Keeper.reveal_deck id ∷ []
reveal_calls id (c ∷ cards) = Keeper.new_card c.expiry_market_id c.strike ∷ reveal_calls id cards

-- How a failed transaction is read.
unfoldable pub already_revealed : String → Bool
already_revealed reason = includes "16" reason || includes "EDeckAlreadyRevealed" reason

unfoldable pub reveal_outcome : DuelLite → List Call → TxResult → Keeper → Attempt
unfolding already_revealed
reveal_outcome duel tx success k = record {
  keeper = mark_revealed duel.id k;
  sent = tx ∷ [];
  thrown = none;
}
reveal_outcome duel tx (failed reason) k = record {
  keeper = if already_revealed reason then mark_revealed duel.id k else k;
  sent = tx ∷ [];
  thrown = none;
}
reveal_outcome duel tx (tx_threw msg) k = record { keeper = k; sent = tx ∷ []; thrown = some msg }

unfoldable pub send_reveal : Chain → DuelLite → Keeper → Attempt
unfolding reveal_outcome reveal_calls
send_reveal chain duel k = elim (chain.fetch_deck duel.deck_hash_hex) [
  | threw msg ↦ thrown_by k msg
  | got none ↦ quiet k
  | got (some plaintext) ↦
      let tx = reveal_calls duel.id plaintext in reveal_outcome duel tx (chain.execute tx) k
]

unfoldable pub reveal_active : Chain → DuelStatus → DuelLite → Keeper → Attempt
unfolding send_reveal
reveal_active chain active duel k = send_reveal chain duel k
reveal_active chain status duel k = quiet k

unfoldable pub reveal_cards : Chain → List Card → DuelLite → Keeper → Attempt
unfolding reveal_active
reveal_cards chain [] duel k = reveal_active chain duel.status duel k
reveal_cards chain (c ∷ cards) duel k = quiet (mark_revealed duel.id k)

unfoldable pub try_reveal : Chain → DuelLite → Keeper → Attempt
unfolding reveal_cards
try_reveal chain duel k =
    if mem duel.id k.revealed then quiet k else reveal_cards chain duel.cards duel k
