-- ===== src/Keeper/Tests.antt =====
-- Runs of apps/server/src/keeper.ts, and each theorem at a concrete input.
use flicky.Prelude.{
  ℕ, String, ◌≡◌, refl, Bool, true, false, Option, none, some, List, [], ◌∷◌, arith, ◌==◌,
  if◌then◌else◌,
}
use flicky.Prelude.{length}
use flicky.Prelude.Maps.{lookup, insert, mem, put, take_out}
use flicky.Keeper.{
  got, Card, SwipeLite, active, DuelLite, settle_card, finalize, redeem_settled_permissionless,
  TxResult, success, failed, Chain, Keeper,
}
use flicky.Keeper.Errors.{rest_after, includes, matches_word, is_terminal_settle_error}
use flicky.Keeper.Cards.{
  read_market_settlement, read_order_premium, swipe_premium, resolve_card_premiums,
  settlement_by_market, ready_from, ready_card_indices,
}
use flicky.Keeper.Revealing.{
  try_reveal, reveal_cards, reveal_active, send_reveal, reveal_outcome, reveal_calls,
  already_revealed,
}
use flicky.Keeper.Batch.{
  ready_card, ready_cards, settle_call, settle_calls, redeem_of, redeem_calls, will_finalize,
  close_calls,
}
use flicky.Keeper.Closing.{
  close_outcome, send_batch, with_wrappers, unless_empty, settle_ready, go_on, after_reveal,
  close_active, close_by_status, close_body, after_throw, begin_close, end_close, try_close, sweep,
}
use flicky.Keeper.Ordering.{Phased, close_calls-Phased}
use flicky.Keeper.Passes.{starts, idle, sweep-exact}
use flicky.Prelude.{times, ◌&&◌}
use flicky.Keeper.Ready.{is_finalize, all_covered, close_calls-finalize}
use flicky.Prelude.{any, ◌||◌}
use flicky.Keeper.Closing.Revealed.{passes}
use flicky.Keeper.Closing.Reasons.{settled_never_finalized}
use flicky.Keeper.Closing.Unrevealed.{unrevealed_forever}
use flicky.Keeper.Closing.Finalized.{Justified, paid_out, finalized_for_a_reason}

keeper : Unit {0}
unfolding rest_after includes matches_word is_terminal_settle_error read_market_settlement
    read_order_premium swipe_premium resolve_card_premiums settlement_by_market ready_from
    ready_card_indices try_reveal reveal_cards reveal_active send_reveal reveal_outcome reveal_calls
    already_revealed ready_card ready_cards settle_call settle_calls redeem_of redeem_calls
    will_finalize close_calls close_outcome send_batch with_wrappers unless_empty settle_ready go_on
    after_reveal close_active close_by_status close_body after_throw begin_close end_close try_close
    sweep lookup insert mem put take_out
keeper = tt

terminal : is_terminal_settle_error "MoveAbort … abort code: 2, in command 0" ≡ true
unfolding keeper
terminal = refl

another_code : is_terminal_settle_error "MoveAbort … abort code: 21 (12)" ≡ false
unfolding keeper
another_code = refl

abbrev swiped : ℕ → Option SwipeLite
swiped order_id = some (record { is_up = true; quantity = 6; order_id = order_id })

abbrev duel_of : List Card → List Bool → DuelLite
duel_of cards settled = record {
  id = "0xd";
  status = active;
  deck_hash_hex = "0xhash";
  creator = "0xa";
  challenger = "0xb";
  cards = cards;
  p0_swipes = swiped 1 ∷ swiped 2 ∷ [];
  p1_swipes = swiped 3 ∷ none ∷ [];
  p0_next_card_idx = length cards;
  p1_next_card_idx = length cards;
  cards_settled = settled;
}

abbrev card : String → Card
card m = record { expiry_market_id = m; strike = 64_000 }

abbrev two_cards : List Card
two_cards = card "0xm" ∷ card "0xn" ∷ []

-- Both markets have a price, and no premium but that of order 2 is known.
abbrev answering : DuelLite → TxResult → Chain
answering duel result = record {
  fetch_duel = λ id. got (some duel);
  fetch_deck = λ h. got (some two_cards);
  market =
      λ m. got (some (record { settlement_price = some 65_000; strike_exposure_price = none }));
  derive_wrapper_for = λ a. got (some a);
  get_order_premium = λ m o. if o == 2 then got (some 7) else got none;
  cashflow = λ m o. none;
  execute = λ tx. result;
}

abbrev fresh : Keeper
fresh = record { finalized = []; revealed = []; in_flight = [] }

abbrev open_duel : DuelLite
open_duel = duel_of two_cards (true ∷ false ∷ [])

-- The second card is settled, with the one premium that counts, and the duel is finalized.
closed : try_close (answering open_duel success) "0xd" fresh ≡ (
  record { finalized = "0xd" ∷ []; revealed = "0xd" ∷ []; in_flight = [] },
  (settle_card "0xd" "0xa" "0xb" 1 65_000 7 0
        ∷ finalize "0xd"
        ∷ redeem_settled_permissionless "0xn" "0xa" 2
        ∷ [])
      ∷ [],
)
unfolding keeper
closed = refl

-- The transaction of that pass finalizes the duel.
paid :
    paid_out
      (answering open_duel success)
      "0xd"
      (try_close (answering open_duel success) "0xd" fresh).1
    ≡ true
unfolding keeper
paid = refl

abbrev prices : List (String × ℕ)
prices = ("0xn", 65_000) ∷ []

close_calls-finalize_example :
    any (is_finalize "0xd") (
      close_calls "0xd" open_duel "0xa" "0xb"
        (answering open_duel success)
        prices
        (ready_card_indices open_duel.cards open_duel.cards_settled prices))
    ≡ all_covered open_duel.cards open_duel.cards_settled prices
close_calls-finalize_example =
    close_calls-finalize "0xd" open_duel "0xa" "0xb" (answering open_duel success) prices refl

close_calls-Phased_example :
    Phased 0 (close_calls "0xd" open_duel "0xa" "0xb" (answering open_duel success) prices (1 ∷ []))
close_calls-Phased_example =
    close_calls-Phased "0xd" open_duel "0xa" "0xb" (answering open_duel success) prices (1 ∷ [])

sweep-exact_example :
    starts "0xd" (sweep ("0xd" ∷ "0xe" ∷ "0xd" ∷ []) fresh).1
    ≡ times (idle "0xd" fresh && mem "0xd" ("0xd" ∷ "0xe" ∷ "0xd" ∷ []))
sweep-exact_example = sweep-exact ("0xd" ∷ "0xe" ∷ "0xd" ∷ []) fresh "0xd"

finalized_for_a_reason_example :
    Justified
      (answering open_duel success)
      "0xd"
      fresh
      (try_close (answering open_duel success) "0xd" fresh)
finalized_for_a_reason_example = finalized_for_a_reason (answering open_duel success) "0xd" fresh

abbrev settled_duel : DuelLite
settled_duel = duel_of two_cards (true ∷ true ∷ [])

settled_never_finalized_example :
    ((try_close (answering settled_duel success) "0xd" fresh).1 ≡ [])
    × ((try_close (answering settled_duel success) "0xd" fresh).0.finalized ≡ fresh.finalized)
settled_never_finalized_example =
    settled_never_finalized (answering settled_duel success) "0xd" settled_duel (card "0xm")
      (card "0xn" ∷ []) fresh refl refl refl (refl, (refl, tt)) (ground arith)

abbrev hidden : DuelLite
hidden = duel_of [] []

abbrev out_of_gas : String
out_of_gas = "InsufficientGas { needed: 1160000 }"

not_revealed : mem "0xd" fresh.revealed ≡ false
unfolding keeper
not_revealed = refl

names_sixteen : includes "16" out_of_gas ≡ true
unfolding keeper
names_sixteen = refl

idle_duel : (mem "0xd" fresh.finalized || mem "0xd" fresh.in_flight) ≡ false
unfolding keeper
idle_duel = refl

-- Between the two passes another duel is settled.
abbrev history : List (Chain × String)
history = (answering open_duel success, "0xe") ∷ []

unrevealed_forever_example :
    (try_close
      (answering hidden success)
      "0xd"
      (passes history (try_close (answering hidden (failed out_of_gas)) "0xd" fresh).0)).1
    ≡ []
unrevealed_forever_example =
    unrevealed_forever (answering hidden (failed out_of_gas)) (answering hidden success) history
      "0xd" hidden two_cards out_of_gas fresh idle_duel refl not_revealed refl refl refl refl
      names_sixteen refl
