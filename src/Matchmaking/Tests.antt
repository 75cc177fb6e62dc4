-- ===== src/Matchmaking/Tests.antt =====
-- Runs of apps/server/src/ws/matchmaking.ts, and each theorem at a concrete input.
use flicky.Prelude.{String, ◌≡◌, refl, none, some, List, [], ◌∷◌, ◌++◌}
use flicky.Prelude.{count}
use flicky.Prelude.Int.{ℤ, pos, ◌-ℤ◌}
use flicky.Prelude.Maps.{lookup, insert, delete, contains, add, remove, mem, put}
use flicky.Prelude.Buckets.{members, enter, leave}
use flicky.Env.{default_env}
use flicky.Protocol.{casual, creator, challenger, match_found}
use flicky.Mmr.{match_window, gap_of, within_window, better, closest_from, find_closest_opponent}
use flicky.Matchmaking.{World, initial_world, new_socket_state, broadcast_room}
use flicky.Matchmaking.Registry.{register_address, unregister_address}
use flicky.Matchmaking.Rooms.{
  address_still_in_room, subscribe_room, unsubscribe_room, arm_forfeit_timer, forfeit_fires,
}
use flicky.Matchmaking.Closing.{
  on_socket_close, close_rooms, close_room, clear_duels, forfeit_if_gone,
}
use flicky.Matchmaking.Leaving.{remove_first, drop_last, splice_out, leave_queue}
use flicky.Matchmaking.Pairing.{
  Matching, match_pair, or_blank, is_queued, requeue, deck_ready, handshake_fires,
  take_matched_pair, deck_failed, retry_pair, retry_fires,
}
use flicky.Matchmaking.Joining.{
  Choosing, waiters, opponent, candidates_now, wait_in_queue, pair_with, enter_queue, join_named,
  join_finish, join_queue, join_at_once,
}
use flicky.Matchmaking.Joining.Queued.{once}
use flicky.Matchmaking.Joining.Turns.{Turn, turn, turns, idle}
use flicky.Matchmaking.Joining.Turns
use flicky.Matchmaking.Joining.Undisturbed.{queued_once}
use flicky.Matchmaking.Joining.Races.{matched_with_nobody}
use flicky.Prelude.{count}
use flicky.Matchmaking.Events.{Event, hello, closed, room_subscribe, deck_made, step, run}
use flicky.Matchmaking.Events.Registered.{Registered, run-Registered}
use flicky.Matchmaking.Events.Subscribed.{Subscribed}
use flicky.Matchmaking.Events.RoomsLeft.{run-Subscribed}
use flicky.Matchmaking.Events.Handshakes.{Timed, run-Timed}

server : Unit {0}
unfolding put leave enter remove add address_still_in_room initial_world new_socket_state
    broadcast_room register_address unregister_address subscribe_room unsubscribe_room
    arm_forfeit_timer forfeit_fires on_socket_close close_rooms close_room clear_duels
    forfeit_if_gone remove_first drop_last splice_out leave_queue match_pair requeue deck_ready
    handshake_fires take_matched_pair deck_failed retry_pair retry_fires waiters opponent
    candidates_now wait_in_queue pair_with enter_queue join_named join_finish join_queue
    join_at_once turn turns step run lookup insert delete contains mem members find_closest_opponent
    closest_from better within_window gap_of match_window ◌-ℤ◌
server = tt

abbrev even : String → ℤ
even a = pos 1000

abbrev two_join : List Turn
two_join =
    Turns.hello 1 "0xa"
    ∷ Turns.hello 2 "0xb"
    ∷ Turns.hello 3 "0xc"
    ∷ Turns.queue_join even 1 casual 1000
    ∷ Turns.queue_join even 2 casual 2000
    ∷ Turns.queue_join even 3 casual 3000
    ∷ []

-- The second player is paired with the first, and the third waits.
third_waits : (turns default_env idle two_join).world.queues casual ≡ 3 ∷ []
unfolding server
third_waits = refl

-- The deck is refused: both are put back, and the timer pairs them again.
abbrev refused : List Turn
refused = two_join ++ Turns.deck_refused 0 "no oracle" 4000 ∷ []

both_back : (turns default_env idle refused).world.queues casual ≡ 3 ∷ 1 ∷ 2 ∷ []
unfolding server
both_back = refl

paired_again :
    (turns default_env idle (refused ++ Turns.retry_timer ∷ [])).world.queues casual ≡ 3 ∷ []
unfolding server
paired_again = refl

queued_once_example :
    count 3 ((turns default_env idle refused).world.queues casual)
    ≡ once (is_queued ((turns default_env idle refused).world.sockets 3).queued_tier casual)
queued_once_example = queued_once default_env refused casual 3

-- Socket 2 waits for an opponent, and socket 1 asks for one and closes during its last wait.
abbrev named : World
named = register_address 2 "0xb" (register_address 1 "0xa" initial_world)

abbrev second_waits : World
second_waits =
    let asked = (join_queue 2 casual 500 named).0 in
    (join_finish default_env
      (candidates_now (record { ws = 2; tier = casual }) (pos 1000) 500 asked) even asked).0

abbrev first_asks : World
first_asks = (join_queue 1 casual 1000 second_waits).0

abbrev first_player : Choosing
first_player = candidates_now (record { ws = 1; tier = casual }) (pos 1000) 1000 first_asks

abbrev first_gone : World
first_gone = on_socket_close default_env 1 first_asks

abbrev met : Matching
met = record {
  creator_ws = 2;
  challenger_ws = 1;
  tier = casual;
  creator_addr = some "0xb";
  challenger_addr = none;
}

finds_second : opponent default_env first_player even ≡ some 2
unfolding server
finds_second = refl

nameless : (first_gone.sockets 1).address ≡ none
unfolding server
nameless = refl

stands_once : count 2 (first_gone.queues casual) ≡ 1
unfolding server
stands_once = refl

meets_second : (join_finish default_env first_player even first_gone).1 ≡ some met
unfolding server
meets_second = refl

matched_with_nobody_example :
    let w' = deck_ready met "0xdeck" 5 (join_finish default_env first_player even first_gone).0 in
    ((count 2 (w'.queues casual) ≡ 0) × ((w'.sockets 2).queued_tier ≡ none))
    × (((w'.pending_pairs ≡ first_gone.pending_pairs)
          × (w'.pending_pair_timers ≡ first_gone.pending_pair_timers))
        × (w'.outbox
            ≡ (
              1,
              match_found casual challenger (or_blank (first_gone.sockets 2).address) "0xdeck" 5,
            )
              ∷ (2, match_found casual creator "" "0xdeck" 5)
              ∷ first_gone.outbox))
unfolding candidates_now
matched_with_nobody_example =
    matched_with_nobody default_env first_player even first_gone 2 met "0xdeck" 5 finds_second
      nameless stands_once meets_second

abbrev known : String → Matching
known challenger_addr = record met {
  creator_addr = some "0xb";
  challenger_addr = some challenger_addr;
}

abbrev rematched : Matching
rematched = record (known "0xc") { challenger_ws = 3 }

abbrev history : List Event
history =
    hello 1 "0xa"
    ∷ hello 2 "0xb"
    ∷ room_subscribe 1 "0xd"
    ∷ room_subscribe 2 "0xd"
    ∷ deck_made (known "0xa") "0xdeck" 5
    ∷ closed 1
    ∷ hello 2 "0xe"
    ∷ []

run-Registered_example : Registered (run default_env initial_world history)
run-Registered_example = run-Registered default_env history

run-Subscribed_example : Subscribed (run default_env initial_world history)
run-Subscribed_example = run-Subscribed default_env history

run-Timed_example : Timed (run default_env initial_world history)
run-Timed_example = run-Timed default_env history

one_left : members "0xd" (run default_env initial_world history).room_subscribers ≡ 2 ∷ []
unfolding server
one_left = refl
