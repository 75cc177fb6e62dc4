-- ===== src/Chat/Tests.antt =====
-- The theorem on apps/server/src/ws/chat.ts at a concrete input.
use flicky.Prelude.{◌≡◌, refl, true, none, some, List, [], ◌∷◌, arith, eq_iff}
use flicky.Duel.{DuelRow, active}
use flicky.Env.{default_env}
use flicky.Matchmaking.{World, initial_world, new_socket_state}
use flicky.Matchmaking.Registry.{register_address, unregister_address}
use flicky.Matchmaking.Events.{Event, hello, step, run}
use flicky.Matchmaking.Events.Registered.{run-Registered}
use flicky.Chat.{handle_chat_react}
use flicky.Chat.Audience.{received, react-private}

abbrev duel : DuelRow
duel = record {
  id = "0xd";
  status = active;
  stake_coin_type = "dusdc";
  creator = "0xa";
  challenger = "0xb";
  cards_revealed = true;
  card_count = 5;
  settled_count = 0;
  winner = none;
  p0_payout = 0;
  p0_premium = 0;
  p1_payout = 0;
  p1_premium = 0;
  started_at_ms = 0;
  card_outcomes = [];
  swipes = [];
  cards = [];
  last_updated_ms = 0;
}

abbrev arrivals : List Event
arrivals = hello 1 "0xa" ∷ hello 2 "0xb" ∷ hello 3 "0xc" ∷ []

abbrev three : World
three = run default_env initial_world arrivals

third : (three.sockets 3).address ≡ some "0xc"
unfolding run step register_address unregister_address initial_world new_socket_state
third = refl

react-private_example :
    received 3 (handle_chat_react 1 true 1 (some duel) "0xd" "!" 9 three).outbox
    ≡ received 3 three.outbox
react-private_example =
    react-private 1 3 true 1 duel "0xd" "!" 9 three (run-Registered default_env arrivals)
      (λ e. ground (arith, eq_iff "0xa" "")) (λ e. ground (arith, eq_iff "0xb" "")) (rw third refl)
      (rw third refl)
