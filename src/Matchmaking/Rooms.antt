-- ===== src/Matchmaking/Rooms.antt =====
-- apps/server/src/ws/matchmaking.ts: the subscriptions of the duel rooms, with the timers that
-- forfeit a player who left.
use flicky.Prelude.{
  ℕ, String, Bool, true, false, not, ◌&&◌, ◌||◌, Option, none, some, List, [], ◌∷◌, ◌==◌,
  if◌then◌else◌,
}
use flicky.Prelude.{length}
use flicky.Prelude.Maps.{lookup, insert, delete, mem, put, take_out, keys}
use flicky.Prelude.Buckets.{members, enter, leave}
use flicky.Duel.{DuelRow}
use flicky.Env.{Env}
use flicky.Protocol.{room_state, peer_left, peer_rejoined, peer_forfeit}
use flicky.Matchmaking.{
  World, SocketState, set_socket, send, broadcast_room, has_address, forfeit_key,
}

abbrev is_nil : List ℕ → Bool
is_nil [] = true
is_nil (x ∷ xs) = false

enter_room : ℕ → String → World → World
enter_room ws duel_id w =
    set_socket ws
      (record (w.sockets ws) { subscribed_duels = put duel_id (w.sockets ws).subscribed_duels })
      (record w { room_subscribers = enter duel_id ws w.room_subscribers })

-- A player who is back within the grace period.
cancel_forfeit : String → String → Bool → World → World
cancel_forfeit duel_id addr was_empty w =
    let key = forfeit_key duel_id addr in
    let w' = record w { forfeit_timers = delete key w.forfeit_timers } in
    elim (lookup key w.forfeit_timers) [
      | none ↦ w
      | some timer ↦
          if was_empty then w' else broadcast_room duel_id (peer_rejoined duel_id addr) w'
    ]

-- The part of `subscribeRoom` that runs at once; `room_snapshot` is what it leaves behind.
unfoldable pub subscribe_room : ℕ → String → World → World
unfolding enter_room cancel_forfeit
subscribe_room ws duel_id w =
    let was_empty = is_nil (members duel_id w.room_subscribers) in
    let entered = enter_room ws duel_id w in
    elim (w.sockets ws).address [
      | none ↦ entered
      | some addr ↦ cancel_forfeit duel_id addr was_empty entered
    ]

-- `sendRoomSnapshot`, once `getDuel` has answered with a row, with none, or by throwing.
unfoldable pub room_snapshot : Option DuelRow → ℕ → String → World → World
room_snapshot none ws duel_id w = w
room_snapshot (some d) ws duel_id w =
    if mem duel_id (w.sockets ws).subscribed_duels then send ws (room_state d) w else w

unfoldable pub unsubscribe_room : ℕ → String → World → World
unsubscribe_room ws duel_id w =
    set_socket ws
      (record (w.sockets ws) {
        subscribed_duels = take_out duel_id (w.sockets ws).subscribed_duels;
      })
      (record w { room_subscribers = leave duel_id ws w.room_subscribers })

-- Whether another socket of the address is among the subscribers.
unfoldable pub another_of : (ℕ → SocketState) → String → ℕ → List ℕ → Bool
another_of sockets address exclude [] = false
another_of sockets address exclude (k ∷ bucket) =
    not (k == exclude) && has_address address (sockets k).address
    || another_of sockets address exclude bucket

unfoldable pub address_still_in_room : String → String → ℕ → World → Bool
unfolding another_of
address_still_in_room duel_id address exclude w =
    another_of w.sockets address exclude (members duel_id w.room_subscribers)

unfoldable pub arm_forfeit_timer : Env → String → String → World → World
arm_forfeit_timer env duel_id address w =
    let told = broadcast_room duel_id (peer_left duel_id address env.peer_forfeit_grace_ms) w in
    record told {
      forfeit_timers = insert (forfeit_key duel_id address) (duel_id, address) w.forfeit_timers;
    }

-- The callback of the timer under `key`, which runs only while the entry is there.
unfoldable pub forfeit_fires : String → World → World
forfeit_fires key w = elim (lookup key w.forfeit_timers) [
  | none ↦ w
  | some (duel_id, address) ↦
      broadcast_room duel_id (peer_forfeit duel_id address)
        (record w { forfeit_timers = delete key w.forfeit_timers })
]

abbrev pub room_count : World → ℕ
room_count w = length w.room_subscribers

abbrev pub subscribed_room_ids : World → List String
subscribed_room_ids w = keys w.room_subscribers
