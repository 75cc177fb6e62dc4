-- ===== src/Indexer/Tests.antt =====
-- Runs of apps/server/src/indexer.ts, and its theorems at concrete inputs.
use flicky.Prelude.{ℕ, String, ◌≡◌, refl, Bool, true, false, Option, none, some, List, [], ◌∷◌}
use flicky.Prelude.{differ, All}
use flicky.Prelude.Int.{ℤ, pos, ◌+ℤ◌}
use flicky.Prelude.Maps.{lookup, put}
use flicky.Prelude.Buckets.{members}
use flicky.Duel.{Swipe, DuelRow, pending}
use flicky.Env.{default_env}
use flicky.Protocol.{duel_assigned}
use flicky.Matchmaking.{World, initial_world, send_each}
use flicky.Matchmaking.Events.Handshakes.{Timed}
use flicky.Mmr.Ladder.{outcome_from_duel}
use flicky.Indexer.{Db, premium_of}
use flicky.Indexer.Outcomes.{
  CardOutcomeInput, compute_card_outcomes, compute_pnl, outcomes_from, outcome_of,
}
use flicky.Indexer.Cards.{sum_of, IsOutcome, shown_pnls-rated}
use flicky.Indexer.Drain.{Replies, drain, drain_pages}
use flicky.Indexer.Events.{
  DuelEvent, Finalized, Touching, Tracker, duel_created, on_event, dispatch, note_finalized,
}
use flicky.Indexer.Tick.{TickReplies, Indexer, drain_trackers, tick, zero_address}
use flicky.Indexer.Winners.{collected, winner_at, tick-keeps_winner}
use flicky.Indexer.Rated.{OfTwo, tick-rates, Tallied, row_of}
use flicky.Indexer.Told.{created-told_once, Kept, tick-Kept}

abbrev same : String → String
same s = s

abbrev no_tables : Db
no_tables = record {
  duels = [];
  order_premiums = [];
  market_settlements = [];
  predict_markets = [];
  player_ratings = [];
}

-- Two cards, the first settled above its strike.
abbrev swiped : Bool → ℕ → Option Swipe
swiped up id = some (record { is_up = up; quantity = 100; order_id = id })

abbrev cards_input : CardOutcomeInput
cards_input = record {
  cards =
      record { expiry_market_id = "0xm"; strike = 50 }
      ∷ record { expiry_market_id = "0xn"; strike = 60 }
      ∷ [];
  p0_swipes = swiped true 1 ∷ swiped true 3 ∷ [];
  p1_swipes = swiped false 2 ∷ [];
  expiry_market_settlements = ("0xm", 51) ∷ [];
  order_premiums = (("0xm", 1), 30) ∷ (("0xm", 2), 40) ∷ [];
}

abbrev settled_row : DuelRow
settled_row = record {
  id = "0xd";
  status = pending;
  stake_coin_type = "";
  creator = "0xa";
  challenger = zero_address;
  cards_revealed = true;
  card_count = 2;
  settled_count = 1;
  winner = none;
  p0_payout = 100;
  p0_premium = 30;
  p1_payout = 0;
  p1_premium = 40;
  started_at_ms = 0;
  card_outcomes = [];
  swipes = [];
  cards = [];
  last_updated_ms = 0;
}

shown_pnls-rated_example :
    IsOutcome
      (outcome_from_duel settled_row)
      (sum_of (λ o. o.p0_pnl) (compute_card_outcomes cards_input))
      (sum_of (λ o. o.p1_pnl) (compute_card_outcomes cards_input))
shown_pnls-rated_example =
    shown_pnls-rated cards_input settled_row refl (unfold lookup in refl)
      (unfold lookup premium_of in refl) (unfold lookup in refl) (unfold lookup premium_of in refl)

shown_pnl : sum_of (λ o. o.p0_pnl) (compute_card_outcomes cards_input) ≡ pos 70
unfolding compute_card_outcomes outcomes_from outcome_of compute_pnl lookup premium_of ◌+ℤ◌
shown_pnl = refl

abbrev event : Option String → Option String → DuelEvent
event creator winner = record {
  duel_id = some "0xd";
  creator = creator;
  winner = winner;
  primary_settlement_price = none;
}

abbrev one_page : DuelEvent → Replies DuelEvent
one_page e = record {
  loads = true;
  ask = λ n c. elim c [
    | none ↦ some (record { nodes = e ∷ []; end_cursor = some "end"; has_next_page = false })
    | some end ↦ some (record { nodes = []; end_cursor = none; has_next_page = false })
  ];
  saved = λ n. true;
}

abbrev silent {ℓ} : {E : Type ℓ} → Replies E
silent = record { loads = false; ask = λ n c. none; saved = λ n. false }

abbrev events_of : Tracker → Replies DuelEvent
events_of Tracker.duel_finalized = one_page (event none (some "0xb"))
events_of _ = silent

abbrev replies : TickReplies
replies = record {
  now = 9;
  duel_events = events_of;
  orders = silent;
  settlements = silent;
  markets = silent;
  readable = λ id. true;
  fetched = λ id. none;
  premium_written = λ id. true;
  settlement_written = λ id. true;
  market_written = λ id. true;
  upserted = λ id. true;
  winner_written = λ id. true;
  rating_written = λ id. true;
}

-- The duel is mirrored with its challenger.
abbrev start : Indexer
start = record {
  cursors = record { of_tracker = λ k. none; orders = none; settlements = none; markets = none };
  db = record no_tables { duels = ("0xd", record settled_row { challenger = "0xb" }) ∷ [] };
  world = initial_world;
}

abbrev step_rating : ℤ → ℤ → ℕ → ℤ
step_rating own other score = own

abbrev found : List Finalized
found =
    record {
      duel_id = "0xd";
      p0 = some "0xa";
      p1 = some "0xb";
      winner = "0xb";
      settlement_price = none;
    }
    ∷ []

start-found : (collected default_env step_rating same replies start).finalized ≡ found
unfolding collected drain_trackers drain drain_pages on_event dispatch note_finalized lookup put
start-found = refl

OfTwo-found : All OfTwo found
OfTwo-found = (λ a b h k e. differ "0xa" "0xb" refl (cc (h, k, e)), tt)

tick-rates_example :
    Tallied default_env step_rating same "0xb"
      (row_of default_env step_rating same "0xb"
        (tick default_env step_rating same replies start).db)
      (row_of default_env step_rating same "0xb" start.db)
      (collected default_env step_rating same replies start).finalized
tick-rates_example =
    tick-rates default_env step_rating same "0xb" replies start (λ id. refl)
      (rw start-found OfTwo-found)

tick-keeps_winner_example :
    winner_at "0xe" (tick default_env step_rating same replies start).db ≡ winner_at "0xe" start.db
tick-keeps_winner_example =
    tick-keeps_winner default_env step_rating same replies start "0xe"
      (rw start-found (differ "0xd" "0xe" refl, tt))

initial-Timed : Timed initial_world
unfolding initial_world lookup
initial-Timed = record { timed = λ a. refl }

tick-Kept_example : Kept start.world (tick default_env step_rating same replies start).world
tick-Kept_example = tick-Kept default_env step_rating same replies start initial-Timed

-- Socket 2 is bound to the challenger that was announced to the creator.
abbrev paired : World
paired = record initial_world {
  sockets_by_address = ("0xb", 2 ∷ []) ∷ [];
  pending_pairs = ("0xa", "0xb") ∷ [];
  pending_pair_timers = ("0xa", (1, 2)) ∷ [];
}

abbrev before : Touching
before = record { touched = []; finalized = []; world = paired }

created-told_once_example :
    let e = event (some "0xa") none in
    let once = on_event same (λ id. none) duel_created e before in
    let twice = on_event same (λ id. none) duel_created e once in
    (once.world.outbox
      ≡ send_each
          (members "0xb" paired.sockets_by_address)
          (duel_assigned "0xd" "0xa")
          paired.outbox)
    × ((lookup "0xa" once.world.pending_pairs ≡ none) × (twice.world.outbox ≡ once.world.outbox))
created-told_once_example =
    created-told_once same (λ id. none) (event (some "0xa") none) "0xd" "0xa" "0xb" before refl refl
      (unfold lookup in refl)
