-- ===== src/Matchmaking/Closing.antt =====
-- apps/server/src/ws/matchmaking.ts: `onSocketClose`.
use flicky.Prelude.{ℕ, String, Option, none, some, List, [], ◌∷◌, if◌then◌else◌}
use flicky.Env.{Env}
use flicky.Prelude.Buckets.{leave}
use flicky.Matchmaking.{World, set_socket}
use flicky.Matchmaking.Registry.{unregister_address}
use flicky.Matchmaking.Leaving.{leave_queue}
use flicky.Matchmaking.Rooms.{address_still_in_room, arm_forfeit_timer}

-- The room is left without a timer for a nameless socket, or while its address has another tab.
unfoldable pub forfeit_if_gone : Env → ℕ → Option String → String → World → World
forfeit_if_gone env ws none duel_id w = w
forfeit_if_gone env ws (some addr) duel_id w =
    if address_still_in_room duel_id addr ws w then w else arm_forfeit_timer env duel_id addr w

-- One round of the loop over `subscribedDuels`.
unfoldable pub close_room : Env → ℕ → Option String → String → World → World
unfolding forfeit_if_gone
close_room env ws addr duel_id w =
    forfeit_if_gone env ws addr duel_id
      (record w { room_subscribers = leave duel_id ws w.room_subscribers })

unfoldable pub close_rooms : Env → ℕ → Option String → List String → World → World
unfolding close_room
close_rooms env ws addr [] w = w
close_rooms env ws addr (d ∷ ds) w = close_rooms env ws addr ds (close_room env ws addr d w)

unfoldable pub clear_duels : ℕ → World → World
clear_duels ws w = set_socket ws (record (w.sockets ws) { subscribed_duels = [] }) w

unfoldable pub on_socket_close : Env → ℕ → World → World
unfolding close_rooms clear_duels leave_queue
on_socket_close env ws w =
    let w' = leave_queue ws w in
    unregister_address ws (
      clear_duels ws
        (close_rooms env ws (w'.sockets ws).address (w'.sockets ws).subscribed_duels w'))
