-- ===== src/Matchmaking/Events/Oracles.antt =====
-- apps/server/src/ws/matchmaking.ts: nothing here touches the markets that a socket watches.
use flicky.Prelude.{ℕ, String, ◌≡◌, refl, ◌∙◌, inl, inr, Option, none, some, arith, Option-cases}
use flicky.Prelude.Int.{ℤ}
use flicky.Env.{Env}
use flicky.Duel.{DuelRow}
use flicky.Protocol.{Tier}
use flicky.Matchmaking.{World, broadcast_room}
use flicky.Matchmaking.Events.{
  Event, hello, closed, room_subscribe, room_unsubscribe, snapshot, queue_join, ratings_read,
  queue_leave, deck_made, deck_refused, retry_timer, handshake_timer, forfeit_timer, duel_created,
  step,
}
use flicky.Matchmaking.Registry.{register_address, unregister_address}
use flicky.Matchmaking.Leaving.{leave_queue}
use flicky.Matchmaking.Rooms.{subscribe_room, room_snapshot, unsubscribe_room, forfeit_fires}
use flicky.Matchmaking.Closing.{on_socket_close, close_rooms, clear_duels}
use flicky.Matchmaking.Pairing.{
  Matching, deck_ready, deck_failed, handshake_fires, take_matched_pair, retry_fires, retry_pair,
  requeue,
}
use flicky.Matchmaking.Joining.{Choosing, join_queue, join_finish, opponent}
use flicky.Matchmaking.Events.RoomsLeft.{close_rooms-sockets}

-- Every socket watches what it did.
abbrev pub SameOracles : World → World → Type 0
SameOracles w w' = (k : ℕ) → (w'.sockets k).subscribed_oracles ≡ (w.sockets k).subscribed_oracles

leave_queue-oracles : (ws : ℕ) (w : World) → SameOracles w (leave_queue ws w)
unfolding leave_queue
leave_queue-oracles ws w k = ground arith

unregister_address-oracles : (ws : ℕ) (w : World) → SameOracles w (unregister_address ws w)
unfolding unregister_address
unregister_address-oracles ws w k = ground arith

register_address-oracles :
    (ws : ℕ) (address : String) (w : World) → SameOracles w (register_address ws address w)
unfolding register_address unregister_address
register_address-oracles ws address w k = ground arith

on_socket_close-oracles :
    (env : Env) (ws : ℕ) (w : World) → SameOracles w (on_socket_close env ws w)
unfolding on_socket_close clear_duels
on_socket_close-oracles env ws w k =
    let w' = leave_queue ws w in
    let left = close_rooms env ws (w'.sockets ws).address (w'.sockets ws).subscribed_duels w' in
    let same = λ (j : ℕ).
      close_rooms-sockets env ws (w'.sockets ws).address (w'.sockets ws).subscribed_duels w' j in
    unregister_address-oracles ws (clear_duels ws left) k
    ∙ ground (arith, same k, same ws, leave_queue-oracles ws w k, leave_queue-oracles ws w ws)

join_queue-oracles :
    (ws : ℕ) (tier : Tier) (now : ℕ) (w : World) → SameOracles w (join_queue ws tier now w).0
unfolding join_queue
join_queue-oracles ws tier now w k =
    ground (arith, leave_queue-oracles ws w k, leave_queue-oracles ws w ws)

join_finish-oracles :
    (env : Env) (ch : Choosing) (rating_of : String → ℤ) (w : World)
    → SameOracles w (join_finish env ch rating_of w).0
unfolding join_finish
join_finish-oracles env ch rating_of w k = elim (Option-cases (opponent env ch rating_of)) [
  | inl e ↦ rw (e, join_finish) (ground arith)
  | inr (o, e) ↦ rw (e, join_finish) (ground arith)
]

requeue-oracles :
    (ws : ℕ) (tier : Tier) (now : ℕ) (w : World) → SameOracles w (requeue ws tier now w)
unfolding requeue
requeue-oracles ws tier now w k = ground arith

deck_failed-oracles :
    (m : Matching) (msg : String) (now : ℕ) (w : World) → SameOracles w (deck_failed m msg now w)
unfolding deck_failed
deck_failed-oracles m msg now w k =
    requeue-oracles m.challenger_ws m.tier now (requeue m.creator_ws m.tier now w) k
    ∙ requeue-oracles m.creator_ws m.tier now w k

deck_ready-oracles :
    (m : Matching) (h : String) (n : ℕ) (w : World) → SameOracles w (deck_ready m h n w)
unfolding deck_ready
deck_ready-oracles m h n w k = ground arith

retry_fires-oracles : (w : World) → SameOracles w (retry_fires w).0
unfolding retry_fires retry_pair
retry_fires-oracles w k = ground arith

handshake_fires-oracles : (key : String) (w : World) → SameOracles w (handshake_fires key w)
unfolding handshake_fires
handshake_fires-oracles key w k = ground arith

forfeit_fires-oracles : (key : String) (w : World) → SameOracles w (forfeit_fires key w)
unfolding forfeit_fires broadcast_room
forfeit_fires-oracles key w k = ground arith

subscribe_room-oracles : (ws : ℕ) (d : String) (w : World) → SameOracles w (subscribe_room ws d w)
unfolding subscribe_room broadcast_room
subscribe_room-oracles ws d w k = ground arith

unsubscribe_room-oracles :
    (ws : ℕ) (d : String) (w : World) → SameOracles w (unsubscribe_room ws d w)
unfolding unsubscribe_room
unsubscribe_room-oracles ws d w k = ground arith

room_snapshot-oracles :
    (row : Option DuelRow) (ws : ℕ) (d : String) (w : World)
    → SameOracles w (room_snapshot row ws d w)
unfolding room_snapshot
room_snapshot-oracles none ws d w k = refl
room_snapshot-oracles (some row) ws d w k = ground arith

pub step-oracles : (env : Env) (w : World) (e : Event) → SameOracles w (step env w e)
unfolding step take_matched_pair
step-oracles env w (hello ws address) = register_address-oracles ws address w
step-oracles env w (closed ws) = on_socket_close-oracles env ws w
step-oracles env w (room_subscribe ws d) = subscribe_room-oracles ws d w
step-oracles env w (room_unsubscribe ws d) = unsubscribe_room-oracles ws d w
step-oracles env w (snapshot row ws d) = room_snapshot-oracles row ws d w
step-oracles env w (queue_join ws tier now) = join_queue-oracles ws tier now w
step-oracles env w (ratings_read ch rating_of) = join_finish-oracles env ch rating_of w
step-oracles env w (queue_leave ws) = leave_queue-oracles ws w
step-oracles env w (deck_made m h n) = deck_ready-oracles m h n w
step-oracles env w (deck_refused m msg now) = deck_failed-oracles m msg now w
step-oracles env w retry_timer = retry_fires-oracles w
step-oracles env w (handshake_timer key) = handshake_fires-oracles key w
step-oracles env w (forfeit_timer key) = forfeit_fires-oracles key w
step-oracles env w (duel_created a) = λ k. refl
