-- ===== src/Matchmaking/Joining/Undisturbed.antt =====
-- apps/server/src/ws/matchmaking.ts: the queues after any undisturbed history.
use flicky.Prelude.{ℕ, String, ◌≡◌, refl, Option, none, some, List, [], ◌∷◌, arith}
use flicky.Prelude.{count}
use flicky.Env.{Env}
use flicky.Duel.{DuelRow}
use flicky.Protocol.{Tier}
use flicky.Matchmaking.{World, broadcast_room, initial_world, new_socket_state}
use flicky.Matchmaking.Registry.{register_address}
use flicky.Matchmaking.Rooms.{subscribe_room, unsubscribe_room, room_snapshot, forfeit_fires}
use flicky.Matchmaking.Closing.{on_socket_close}
use flicky.Matchmaking.Leaving.{leave_queue}
use flicky.Matchmaking.Pairing.{
  Matching, is_queued, deck_ready, handshake_fires, take_matched_pair, deck_failed,
}
use flicky.Matchmaking.Joining.{join_at_once}
use flicky.Matchmaking.Joining.Queued.{Queued, once, leave_queue-Queued, deck_failed-Queued}
use flicky.Matchmaking.Joining.Gone.{on_socket_close-Queued, register_address-Queued}
use flicky.Matchmaking.Joining.Serial.{join_at_once-Queued}
use flicky.Matchmaking.Joining.Turns.{
  Serving, Turn, hello, closed, room_subscribe, room_unsubscribe, snapshot, queue_join, queue_leave,
  deck_made, deck_refused, retry_timer, handshake_timer, forfeit_timer, duel_created, turn, turns,
  idle, Orderly,
}
use flicky.Matchmaking.Joining.Kept.{
  settled, Keeps, Keeps-Queued, Keeps-Orderly, also-Orderly, with_taken-Orderly,
  deck_failed-retries, retry_fires-Orderly, join_at_once-retries, on_socket_close-retries,
  register_address-retries, leave_queue-retries,
}

room_subscribe-Queued :
    (ws : ℕ) (d : String) (w : World) → Queued w → Queued (subscribe_room ws d w)
unfolding subscribe_room broadcast_room
room_subscribe-Queued ws d w q = record {
  agree = λ t k. ground (arith, q.agree t k);
  named = λ k a. ground (arith, q.named k);
}

room_unsubscribe-Queued :
    (ws : ℕ) (d : String) (w : World) → Queued w → Queued (unsubscribe_room ws d w)
unfolding unsubscribe_room
room_unsubscribe-Queued ws d w q = record {
  agree = λ t k. ground (arith, q.agree t k);
  named = λ k a. ground (arith, q.named k);
}

subscribe_room-retries :
    (ws : ℕ) (d : String) (w : World) → (subscribe_room ws d w).retries ≡ w.retries
unfolding subscribe_room broadcast_room
subscribe_room-retries ws d w = ground arith

unsubscribe_room-retries :
    (ws : ℕ) (d : String) (w : World) → (unsubscribe_room ws d w).retries ≡ w.retries
unfolding unsubscribe_room
unsubscribe_room-retries ws d w = ground arith

deck_ready-Keeps : (m : Matching) (h : String) (n : ℕ) (w : World) → Keeps w (deck_ready m h n w)
unfolding deck_ready
deck_ready-Keeps m h n w = ground arith

room_snapshot-Keeps :
    (row : Option DuelRow) (ws : ℕ) (d : String) (w : World) → Keeps w (room_snapshot row ws d w)
unfolding room_snapshot
room_snapshot-Keeps none ws d w = (refl, (refl, refl))
room_snapshot-Keeps (some r) ws d w = ground arith

handshake_fires-Keeps : (key : String) (w : World) → Keeps w (handshake_fires key w)
unfolding handshake_fires
handshake_fires-Keeps key w = ground arith

forfeit_fires-Keeps : (key : String) (w : World) → Keeps w (forfeit_fires key w)
unfolding forfeit_fires broadcast_room
forfeit_fires-Keeps key w = ground arith

take_matched_pair-Keeps : (a : String) (w : World) → Keeps w (take_matched_pair a w).0
unfolding take_matched_pair
take_matched_pair-Keeps a w = (refl, (refl, refl))

turn-Orderly : (env : Env) (s : Serving) (t : Turn) → Orderly s → Orderly (turn env s t)
unfolding turn
turn-Orderly env s (hello ws address) o =
    settled s (register_address ws address s.world)
      (register_address-Queued ws address s.world o.queued)
      (register_address-retries ws address s.world) o
turn-Orderly env s (closed ws) o =
    settled s (on_socket_close env ws s.world) (on_socket_close-Queued env ws s.world o.queued)
      (on_socket_close-retries env ws s.world) o
turn-Orderly env s (room_subscribe ws duel_id) o =
    settled s (subscribe_room ws duel_id s.world)
      (room_subscribe-Queued ws duel_id s.world o.queued)
      (subscribe_room-retries ws duel_id s.world) o
turn-Orderly env s (room_unsubscribe ws duel_id) o =
    settled s (unsubscribe_room ws duel_id s.world)
      (room_unsubscribe-Queued ws duel_id s.world o.queued)
      (unsubscribe_room-retries ws duel_id s.world) o
turn-Orderly env s (snapshot row ws duel_id) o =
    Keeps-Orderly s (room_snapshot row ws duel_id s.world)
      (room_snapshot-Keeps row ws duel_id s.world) o
turn-Orderly env s (queue_join rating_of ws tier now) o =
    let (q, a) = join_at_once-Queued env rating_of ws tier now s.world o.queued in
    also-Orderly s.making (join_at_once env rating_of ws tier now s.world).0
      (join_at_once env rating_of ws tier now s.world).1 q a o.making
      (rw (join_at_once-retries env rating_of ws tier now s.world) o.retries)
turn-Orderly env s (queue_leave ws) o =
    settled s (leave_queue ws s.world) (leave_queue-Queued ws s.world o.queued)
      (leave_queue-retries ws s.world) o
turn-Orderly env s (deck_made n deck_hash deck_size) o =
    with_taken-Orderly n (λ m w. deck_ready m deck_hash deck_size w) s
      (λ m a.
        let k = deck_ready-Keeps m deck_hash deck_size s.world in
        (
          Keeps-Queued s.world (deck_ready m deck_hash deck_size s.world) k o.queued,
          rw (k.1.1) o.retries,
        ))
      o
turn-Orderly env s (deck_refused n msg now) o =
    with_taken-Orderly n (λ m w. deck_failed m msg now w) s
      (λ m a. (
        deck_failed-Queued m msg now s.world o.queued,
        deck_failed-retries m msg now s.world a o.retries,
      ))
      o
turn-Orderly env s retry_timer o = retry_fires-Orderly s o
turn-Orderly env s (handshake_timer key) o =
    Keeps-Orderly s (handshake_fires key s.world) (handshake_fires-Keeps key s.world) o
turn-Orderly env s (forfeit_timer key) o =
    Keeps-Orderly s (forfeit_fires key s.world) (forfeit_fires-Keeps key s.world) o
turn-Orderly env s (duel_created creator_addr) o =
    Keeps-Orderly s (take_matched_pair creator_addr s.world).0
      (take_matched_pair-Keeps creator_addr s.world) o

turns-Orderly : (env : Env) (s : Serving) (ts : List Turn) → Orderly s → Orderly (turns env s ts)
unfolding turns
turns-Orderly env s [] o = o
turns-Orderly env s (t ∷ ts) o = turns-Orderly env (turn env s t) ts (turn-Orderly env s t o)

idle-Orderly : Orderly idle
unfolding initial_world new_socket_state
idle-Orderly = record {
  queued = record { agree = λ t k. refl; named = λ k a. refl };
  making = tt;
  retries = tt;
}

-- After any history from the start in which nothing runs during the waits of a `joinQueue`, every
-- socket stands in the queue of the tier that it is marked with exactly once, and in no other
-- queue.
pub queued_once :
    (env : Env) (ts : List Turn) (tier : Tier) (ws : ℕ)
    → let w = (turns env idle ts).world in
      count ws (w.queues tier) ≡ once (is_queued (w.sockets ws).queued_tier tier)
queued_once env ts tier ws = (turns-Orderly env idle ts idle-Orderly).queued.agree tier ws
