-- ===== src/Matchmaking/Events/Handshakes.antt =====
-- apps/server/src/ws/matchmaking.ts: a pairing that waits for the creator's duel always has the
-- timer that will tear it down.
use flicky.Prelude.{
  ℕ, String, ◌≡◌, refl, ◌∙◌, inl, inr, Option, none, some, List, [], ◌∷◌, arith, eq_iff,
  Option-cases,
}
use flicky.Prelude.Maps.{lookup, has, lookup-insert, lookup-delete}
use flicky.Env.{Env}
use flicky.Protocol.{Tier}
use flicky.Duel.{DuelRow}
use flicky.Prelude.Int.{ℤ}
use flicky.Matchmaking.{World, initial_world, broadcast_room}
use flicky.Matchmaking.Events.{
  Event, hello, closed, room_subscribe, room_unsubscribe, snapshot, queue_join, ratings_read,
  queue_leave, deck_made, deck_refused, retry_timer, handshake_timer, forfeit_timer, duel_created,
  step, run, run_keeps,
}
use flicky.Matchmaking.Registry.{register_address, unregister_address}
use flicky.Matchmaking.Leaving.{leave_queue}
use flicky.Matchmaking.Rooms.{
  subscribe_room, room_snapshot, unsubscribe_room, forfeit_fires, arm_forfeit_timer,
}
use flicky.Matchmaking.Closing.{on_socket_close, close_room, close_rooms, clear_duels}
use flicky.Matchmaking.Pairing.{
  Matching, deck_ready, deck_failed, handshake_fires, take_matched_pair, retry_fires, retry_pair,
  requeue,
}
use flicky.Matchmaking.Joining.{Choosing, join_queue, join_finish, opponent}

pub record Timed (w : World) : Type 0 where
  pub timed : (a : String) → has a w.pending_pair_timers ≡ has a w.pending_pairs

abbrev SamePairs : World → World → Type 0
SamePairs w w' =
    (w'.pending_pairs ≡ w.pending_pairs) × (w'.pending_pair_timers ≡ w.pending_pair_timers)

Timed-of_same : (w w' : World) → SamePairs w w' → Timed w → Timed w'
Timed-of_same w w' (e, f) t = record { timed = λ a. rw (e, f) (t.timed a) }

same_trans : (u v w : World) → SamePairs u v → SamePairs v w → SamePairs u w
same_trans u v w (e, f) (e', f') = (e' ∙ e, f' ∙ f)

deck_ready-timed :
    (m : Matching) (h : String) (n : ℕ) (w : World) (a : String)
    → has a w.pending_pair_timers ≡ has a w.pending_pairs
    → has a (deck_ready m h n w).pending_pair_timers ≡ has a (deck_ready m h n w).pending_pairs
unfolding deck_ready
deck_ready-timed m h n w a t = elim (Option-cases m.creator_addr) [
  | inl e ↦ rw (e, deck_ready) t
  | inr (c, e) ↦ elim (Option-cases m.challenger_addr) [
    | inl e' ↦ rw (e, e', deck_ready) t
    | inr (d, e') ↦
        rw (e, e', deck_ready)
          (ground (
            arith,
            lookup-insert c a d w.pending_pairs,
            lookup-insert c a (m.creator_ws, m.challenger_ws) w.pending_pair_timers,
          ))
  ]
]

deck_ready-Timed :
    (m : Matching) (h : String) (n : ℕ) (w : World) → Timed w → Timed (deck_ready m h n w)
deck_ready-Timed m h n w t = record { timed = λ a. deck_ready-timed m h n w a (t.timed a) }

take_matched_pair-Timed : (c : String) (w : World) → Timed w → Timed (take_matched_pair c w).0
unfolding take_matched_pair
take_matched_pair-Timed c w t = record {
  timed = λ a. ground (
    arith,
    t.timed a,
    lookup-delete c a w.pending_pairs,
    lookup-delete c a w.pending_pair_timers,
  );
}

handshake_fires-Timed : (c : String) (w : World) → Timed w → Timed (handshake_fires c w)
unfolding handshake_fires
handshake_fires-Timed c w t = record {
  timed = λ a. ground (
    arith,
    t.timed a,
    t.timed c,
    lookup-delete c a w.pending_pairs,
    lookup-delete c a w.pending_pair_timers,
    eq_iff c a,
  );
}

leave_queue-same : (ws : ℕ) (w : World) → SamePairs w (leave_queue ws w)
unfolding leave_queue
leave_queue-same ws w = (ground arith, ground arith)

unregister_address-same : (ws : ℕ) (w : World) → SamePairs w (unregister_address ws w)
unfolding unregister_address
unregister_address-same ws w = (ground arith, ground arith)

join_queue-same :
    (ws : ℕ) (tier : Tier) (now : ℕ) (w : World) → SamePairs w (join_queue ws tier now w).0
unfolding join_queue
join_queue-same ws tier now w =
    (ground (arith, (leave_queue-same ws w).0), ground (arith, (leave_queue-same ws w).1))

join_finish-same :
    (env : Env) (ch : Choosing) (rating_of : String → ℤ) (w : World)
    → SamePairs w (join_finish env ch rating_of w).0
unfolding join_finish
join_finish-same env ch rating_of w = elim (Option-cases (opponent env ch rating_of)) [
  | inl e ↦ rw (e, join_finish) (ground arith, ground arith)
  | inr (o, e) ↦ rw (e, join_finish) (refl, refl)
]

requeue-same : (ws : ℕ) (tier : Tier) (now : ℕ) (w : World) → SamePairs w (requeue ws tier now w)
unfolding requeue
requeue-same ws tier now w = (ground arith, ground arith)

deck_failed-same :
    (m : Matching) (msg : String) (now : ℕ) (w : World) → SamePairs w (deck_failed m msg now w)
unfolding deck_failed
deck_failed-same m msg now w =
    let w' = requeue m.creator_ws m.tier now w in
    same_trans w w' (requeue m.challenger_ws m.tier now w') (requeue-same m.creator_ws m.tier now w)
      (requeue-same m.challenger_ws m.tier now w')

retry_fires-same : (w : World) → SamePairs w (retry_fires w).0
unfolding retry_fires retry_pair
retry_fires-same w = (ground arith, ground arith)

subscribe_room-same : (ws : ℕ) (d : String) (w : World) → SamePairs w (subscribe_room ws d w)
unfolding subscribe_room broadcast_room
subscribe_room-same ws d w = (ground arith, ground arith)

room_snapshot-same :
    (row : Option DuelRow) (ws : ℕ) (d : String) (w : World)
    → SamePairs w (room_snapshot row ws d w)
unfolding room_snapshot
room_snapshot-same none ws d w = (refl, refl)
room_snapshot-same (some r) ws d w = (ground arith, ground arith)

forfeit_fires-same : (key : String) (w : World) → SamePairs w (forfeit_fires key w)
unfolding forfeit_fires broadcast_room
forfeit_fires-same key w = (ground arith, ground arith)

close_room-same :
    (env : Env) (ws : ℕ) (addr : Option String) (d : String) (w : World)
    → SamePairs w (close_room env ws addr d w)
unfolding close_room arm_forfeit_timer broadcast_room
close_room-same env ws none d w = (refl, refl)
close_room-same env ws (some a) d w = (ground arith, ground arith)

close_rooms-same :
    (env : Env) (ws : ℕ) (addr : Option String) (ds : List String) (w : World)
    → SamePairs w (close_rooms env ws addr ds w)
unfolding close_rooms
close_rooms-same env ws addr [] w = (refl, refl)
close_rooms-same env ws addr (d ∷ ds) w =
    let w' = close_room env ws addr d w in
    same_trans w w' (close_rooms env ws addr ds w') (close_room-same env ws addr d w)
      (close_rooms-same env ws addr ds w')

on_socket_close-same : (env : Env) (ws : ℕ) (w : World) → SamePairs w (on_socket_close env ws w)
unfolding on_socket_close
on_socket_close-same env ws w =
    let w' = leave_queue ws w in
    let addr = (w'.sockets ws).address in
    let duels = (w'.sockets ws).subscribed_duels in
    let left = close_rooms env ws addr duels w' in
    let cleared = clear_duels ws left in
    same_trans w w' (unregister_address ws cleared) (leave_queue-same ws w) (
      same_trans w' left (unregister_address ws cleared) (close_rooms-same env ws addr duels w')
        (unregister_address-same ws cleared))

step-Timed : (env : Env) (w : World) (e : Event) → Timed w → Timed (step env w e)
unfolding step register_address unsubscribe_room
step-Timed env w (hello ws address) t = Timed-of_same w _ (unregister_address-same ws w) t
step-Timed env w (closed ws) t = Timed-of_same w _ (on_socket_close-same env ws w) t
step-Timed env w (room_subscribe ws d) t = Timed-of_same w _ (subscribe_room-same ws d w) t
step-Timed env w (room_unsubscribe ws d) t = Timed-of_same w _ (refl, refl) t
step-Timed env w (snapshot row ws d) t = Timed-of_same w _ (room_snapshot-same row ws d w) t
step-Timed env w (queue_join ws tier now) t = Timed-of_same w _ (join_queue-same ws tier now w) t
step-Timed env w (ratings_read ch rating_of) t =
    Timed-of_same w _ (join_finish-same env ch rating_of w) t
step-Timed env w (queue_leave ws) t = Timed-of_same w _ (leave_queue-same ws w) t
step-Timed env w (deck_made m h n) t = deck_ready-Timed m h n w t
step-Timed env w (deck_refused m msg now) t = Timed-of_same w _ (deck_failed-same m msg now w) t
step-Timed env w retry_timer t = Timed-of_same w _ (retry_fires-same w) t
step-Timed env w (handshake_timer c) t = handshake_fires-Timed c w t
step-Timed env w (forfeit_timer key) t = Timed-of_same w _ (forfeit_fires-same key w) t
step-Timed env w (duel_created c) t = take_matched_pair-Timed c w t

-- After any history of events, from the initial state, a creator has a pending pairing exactly
-- when the timer that tears it down is running.
pub run-Timed : (env : Env) (es : List Event) → Timed (run env initial_world es)
unfolding initial_world lookup
run-Timed env es =
    run_keeps Timed env (step-Timed env) initial_world es (record { timed = λ a. refl })
