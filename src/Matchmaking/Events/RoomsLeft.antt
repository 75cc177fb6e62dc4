-- ===== src/Matchmaking/Events/RoomsLeft.antt =====
-- apps/server/src/ws/matchmaking.ts: the subscribers of the rooms after any history, and a socket
-- that closes.
use flicky.Prelude.{
  ℕ, String, ◌≡◌, refl, ◌∙◌, false, ◌&&◌, Option, none, some, List, [], ◌∷◌, arith, eq_iff, ◌==◌,
  if◌then◌else◌,
}
use flicky.Prelude.Maps.{contains, lookup, mem}
use flicky.Prelude.Buckets.{members, leave, contains-leave, NoneEmpty, leave-NoneEmpty}
use flicky.Env.{Env}
use flicky.Matchmaking.{World, initial_world}
use flicky.Matchmaking.{broadcast_room}
use flicky.Matchmaking.Events.{
  Event, hello, closed, room_subscribe, room_unsubscribe, snapshot, queue_join, ratings_read,
  queue_leave, deck_made, deck_refused, retry_timer, handshake_timer, forfeit_timer, duel_created,
  step, run, run_keeps,
}
use flicky.Matchmaking.Registry.{unregister_address}
use flicky.Matchmaking.Leaving.{leave_queue}
use flicky.Matchmaking.Rooms.{arm_forfeit_timer}
use flicky.Matchmaking.Closing.{on_socket_close, close_room, close_rooms, clear_duels}
use flicky.Matchmaking.Pairing.{take_matched_pair}
use flicky.Matchmaking.Events.Subscribed.{
  Subscribed, SameRooms, Subscribed-of_same, subscribe_room-Subscribed, unsubscribe_room-Subscribed,
  leave_queue-same, register_address-same, join_queue-same, join_finish-same, deck_failed-same,
  deck_ready-same, retry_fires-same, handshake_fires-same, room_snapshot-same, forfeit_fires-same,
}

-- A round of the loop takes the socket out of one room.
close_room-rooms :
    (env : Env) (ws : ℕ) (addr : Option String) (d : String) (w : World)
    → ((close_room env ws addr d w).room_subscribers ≡ leave d ws w.room_subscribers)
      × ((k : ℕ) → (close_room env ws addr d w).sockets k ≡ w.sockets k)
unfolding close_room arm_forfeit_timer broadcast_room
close_room-rooms env ws none d w = (refl, λ k. refl)
close_room-rooms env ws (some a) d w = (ground arith, λ k. ground arith)

pub close_rooms-sockets :
    (env : Env) (ws : ℕ) (addr : Option String) (ds : List String) (w : World) (k : ℕ)
    → (close_rooms env ws addr ds w).sockets k ≡ w.sockets k
unfolding close_rooms
close_rooms-sockets env ws addr [] w k = refl
close_rooms-sockets env ws addr (d ∷ ds) w k =
    close_rooms-sockets env ws addr ds (close_room env ws addr d w) k
    ∙ (close_room-rooms env ws addr d w).1 k

close_rooms-contains :
    (env : Env) (ws : ℕ) (addr : Option String) (ds : List String) (w : World) (j : String) (k : ℕ)
    → contains k (members j (close_rooms env ws addr ds w).room_subscribers)
      ≡ (if ws == k && mem j ds then false else contains k (members j w.room_subscribers))
unfolding close_rooms mem
close_rooms-contains env ws addr [] w j k = ground arith
close_rooms-contains env ws addr (d ∷ ds) w j k = ground (
  arith,
  close_rooms-contains env ws addr ds (close_room env ws addr d w) j k,
  (close_room-rooms env ws addr d w).0,
  contains-leave d j ws k w.room_subscribers,
  eq_iff d j,
)

close_rooms-NoneEmpty :
    (env : Env) (ws : ℕ) (addr : Option String) (ds : List String) (w : World)
    → NoneEmpty w.room_subscribers
    → NoneEmpty (close_rooms env ws addr ds w).room_subscribers
unfolding close_rooms
close_rooms-NoneEmpty env ws addr [] w h = h
close_rooms-NoneEmpty env ws addr (d ∷ ds) w h =
    close_rooms-NoneEmpty env ws addr ds (close_room env ws addr d w)
      (rw ((close_room-rooms env ws addr d w).0) (leave-NoneEmpty d ws w.room_subscribers h))

pub unregister_address-same : (ws : ℕ) (w : World) → SameRooms w (unregister_address ws w)
unfolding unregister_address
unregister_address-same ws w = (ground arith, λ k. ground arith)

pub on_socket_close-Subscribed :
    (env : Env) (ws : ℕ) (w : World) → Subscribed w → Subscribed (on_socket_close env ws w)
unfolding on_socket_close mem
on_socket_close-Subscribed env ws w r =
    let w' = leave_queue ws w in
    let r' : Subscribed w' = Subscribed-of_same w w' (leave_queue-same ws w) r in
    let addr = (w'.sockets ws).address in
    let duels = (w'.sockets ws).subscribed_duels in
    let left = close_rooms env ws addr duels w' in
    let cleared = clear_duels ws left in
    Subscribed-of_same cleared (unregister_address ws cleared) (unregister_address-same ws cleared)
      (record {
        agree = λ d k. ground (
          arith,
          close_rooms-contains env ws addr duels w' d k,
          close_rooms-sockets env ws addr duels w' k,
          r'.agree d k,
          r'.agree d ws,
        );
        none_empty = close_rooms-NoneEmpty env ws addr duels w' r'.none_empty;
      })

step-Subscribed : (env : Env) (w : World) (e : Event) → Subscribed w → Subscribed (step env w e)
unfolding step take_matched_pair
step-Subscribed env w (hello ws address) r =
    Subscribed-of_same w _ (register_address-same ws address w) r
step-Subscribed env w (closed ws) r = on_socket_close-Subscribed env ws w r
step-Subscribed env w (room_subscribe ws d) r = subscribe_room-Subscribed ws d w r
step-Subscribed env w (room_unsubscribe ws d) r = unsubscribe_room-Subscribed ws d w r
step-Subscribed env w (snapshot row ws d) r =
    Subscribed-of_same w _ (room_snapshot-same row ws d w) r
step-Subscribed env w (queue_join ws tier now) r =
    Subscribed-of_same w _ (join_queue-same ws tier now w) r
step-Subscribed env w (ratings_read ch rating_of) r =
    Subscribed-of_same w _ (join_finish-same env ch rating_of w) r
step-Subscribed env w (queue_leave ws) r = Subscribed-of_same w _ (leave_queue-same ws w) r
step-Subscribed env w (deck_made m h n) r = Subscribed-of_same w _ (deck_ready-same m h n w) r
step-Subscribed env w (deck_refused m msg now) r =
    Subscribed-of_same w _ (deck_failed-same m msg now w) r
step-Subscribed env w retry_timer r = Subscribed-of_same w _ (retry_fires-same w) r
step-Subscribed env w (handshake_timer key) r =
    Subscribed-of_same w _ (handshake_fires-same key w) r
step-Subscribed env w (forfeit_timer key) r = Subscribed-of_same w _ (forfeit_fires-same key w) r
step-Subscribed env w (duel_created a) r = Subscribed-of_same w _ (refl, λ k. refl) r

-- After any history of events, from the initial state, the subscribers of a room are exactly the
-- sockets that hold its duel among their subscriptions, and no room without a subscriber is kept.
pub run-Subscribed : (env : Env) (es : List Event) → Subscribed (run env initial_world es)
unfolding initial_world contains members lookup mem
run-Subscribed env es =
    run_keeps Subscribed env (step-Subscribed env) initial_world es
      (record { agree = λ d k. refl; none_empty = λ j. λ e. cc })
