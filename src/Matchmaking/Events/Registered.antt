-- ===== src/Matchmaking/Events/Registered.antt =====
-- apps/server/src/ws/matchmaking.ts: the registry of addresses and the sockets agree.
use flicky.Prelude.{
  ℕ, String, ◌≡◌, refl, ◌∙◌, inl, inr, Option, none, some, List, [], ◌∷◌, arith, eq_iff,
  Option-cases, ==_iff,
}
use flicky.Prelude.Maps.{contains, lookup}
use flicky.Prelude.Buckets.{
  members, contains-enter, contains-leave, NoneEmpty, enter-NoneEmpty, leave-NoneEmpty,
}
use flicky.Env.{Env}
use flicky.Protocol.{Tier}
use flicky.Matchmaking.{World, initial_world, has_address}
use flicky.Matchmaking.{broadcast_room}
use flicky.Prelude.Int.{ℤ}
use flicky.Duel.{DuelRow}
use flicky.Matchmaking.Events.{
  Event, hello, closed, room_subscribe, room_unsubscribe, snapshot, queue_join, ratings_read,
  queue_leave, deck_made, deck_refused, retry_timer, handshake_timer, forfeit_timer, duel_created,
  step, run, run_keeps,
}
use flicky.Matchmaking.Registry.{register_address, unregister_address}
use flicky.Matchmaking.Leaving.{leave_queue}
use flicky.Matchmaking.Rooms.{
  subscribe_room, room_snapshot, unsubscribe_room, forfeit_fires, arm_forfeit_timer,
}
use flicky.Matchmaking.Closing.{on_socket_close, close_room, close_rooms}
use flicky.Matchmaking.Pairing.{
  Matching, deck_ready, deck_failed, handshake_fires, take_matched_pair, retry_fires, retry_pair,
  requeue,
}
use flicky.Matchmaking.Joining.{Choosing, join_queue, join_finish, opponent}

pub record Registered (w : World) : Type 0 where
  pub agree :
      (a : String) (k : ℕ)
      → contains k (members a w.sockets_by_address) ≡ has_address a (w.sockets k).address
  pub none_empty : NoneEmpty w.sockets_by_address

unregister_address-Registered :
    (ws : ℕ) (w : World) → Registered w → Registered (unregister_address ws w)
unfolding unregister_address
unregister_address-Registered ws w r = elim (Option-cases (w.sockets ws).address) [
  | inl e ↦ rw (e, unregister_address) r
  | inr (b, e) ↦
      rw (e, unregister_address)
        (record {
          agree = λ a k. ground (
            arith,
            contains-leave b a ws k w.sockets_by_address,
            r.agree a k,
            eq_iff b a,
            ==_iff ws k,
            ==_iff k ws,
          );
          none_empty = leave-NoneEmpty b ws w.sockets_by_address r.none_empty;
        })
]

register_address-Registered :
    (ws : ℕ) (address : String) (w : World)
    → Registered w
    → Registered (register_address ws address w)
unfolding register_address
register_address-Registered ws address w r =
    let w' = unregister_address ws w in
    let r' = unregister_address-Registered ws w r in
    record {
      agree = λ a k. ground (
        arith,
        contains-enter address a ws k w'.sockets_by_address,
        r'.agree a k,
        r'.agree a ws,
        eq_iff address a,
      );
      none_empty = enter-NoneEmpty address ws w'.sockets_by_address r'.none_empty;
    }

-- What neither binds nor unbinds an address.
abbrev pub SameRegistry : World → World → Type 0
SameRegistry w w' =
    (w'.sockets_by_address ≡ w.sockets_by_address)
    × ((k : ℕ) → (w'.sockets k).address ≡ (w.sockets k).address)

pub Registered-of_same : (w w' : World) → SameRegistry w w' → Registered w → Registered w'
Registered-of_same w w' (e, f) r = record {
  agree = λ a k. rw (e, f k) (r.agree a k);
  none_empty = rw e r.none_empty;
}

same_trans : (u v w : World) → SameRegistry u v → SameRegistry v w → SameRegistry u w
same_trans u v w (e, f) (e', f') = (e' ∙ e, λ k. f' k ∙ f k)

leave_queue-same : (ws : ℕ) (w : World) → SameRegistry w (leave_queue ws w)
unfolding leave_queue
leave_queue-same ws w = (ground arith, λ k. ground arith)

join_queue-same :
    (ws : ℕ) (tier : Tier) (now : ℕ) (w : World) → SameRegistry w (join_queue ws tier now w).0
unfolding join_queue
join_queue-same ws tier now w = (
  ground (arith, (leave_queue-same ws w).0),
  λ k. ground (arith, (leave_queue-same ws w).1 k, (leave_queue-same ws w).1 ws),
)

join_finish-same :
    (env : Env) (ch : Choosing) (rating_of : String → ℤ) (w : World)
    → SameRegistry w (join_finish env ch rating_of w).0
unfolding join_finish
join_finish-same env ch rating_of w = elim (Option-cases (opponent env ch rating_of)) [
  | inl e ↦ rw (e, join_finish) (ground arith, λ k. ground arith)
  | inr (o, e) ↦ rw (e, join_finish) (ground arith, λ k. ground arith)
]

requeue-same : (ws : ℕ) (tier : Tier) (now : ℕ) (w : World) → SameRegistry w (requeue ws tier now w)
unfolding requeue
requeue-same ws tier now w = (ground arith, λ k. ground arith)

deck_failed-same :
    (m : Matching) (msg : String) (now : ℕ) (w : World) → SameRegistry w (deck_failed m msg now w)
unfolding deck_failed
deck_failed-same m msg now w =
    let w' = requeue m.creator_ws m.tier now w in
    same_trans w w' (requeue m.challenger_ws m.tier now w') (requeue-same m.creator_ws m.tier now w)
      (requeue-same m.challenger_ws m.tier now w')

deck_ready-same :
    (m : Matching) (deck_hash : String) (deck_size : ℕ) (w : World)
    → SameRegistry w (deck_ready m deck_hash deck_size w)
unfolding deck_ready
deck_ready-same m deck_hash deck_size w = (ground arith, λ k. ground arith)

retry_fires-same : (w : World) → SameRegistry w (retry_fires w).0
unfolding retry_fires retry_pair
retry_fires-same w = (ground arith, λ k. ground arith)

handshake_fires-same : (key : String) (w : World) → SameRegistry w (handshake_fires key w)
unfolding handshake_fires
handshake_fires-same key w = (ground arith, λ k. ground arith)

take_matched_pair-same : (key : String) (w : World) → SameRegistry w (take_matched_pair key w).0
unfolding take_matched_pair
take_matched_pair-same key w = (refl, λ k. refl)

subscribe_room-same :
    (ws : ℕ) (duel_id : String) (w : World) → SameRegistry w (subscribe_room ws duel_id w)
unfolding subscribe_room broadcast_room
subscribe_room-same ws duel_id w = (ground arith, λ k. ground arith)

room_snapshot-same :
    (row : Option DuelRow) (ws : ℕ) (duel_id : String) (w : World)
    → SameRegistry w (room_snapshot row ws duel_id w)
unfolding room_snapshot
room_snapshot-same none ws duel_id w = (refl, λ k. refl)
room_snapshot-same (some d) ws duel_id w = (ground arith, λ k. ground arith)

unsubscribe_room-same :
    (ws : ℕ) (duel_id : String) (w : World) → SameRegistry w (unsubscribe_room ws duel_id w)
unfolding unsubscribe_room
unsubscribe_room-same ws duel_id w = (refl, λ k. ground arith)

forfeit_fires-same : (key : String) (w : World) → SameRegistry w (forfeit_fires key w)
unfolding forfeit_fires broadcast_room
forfeit_fires-same key w = (ground arith, λ k. ground arith)

close_room-same :
    (env : Env) (ws : ℕ) (addr : Option String) (d : String) (w : World)
    → SameRegistry w (close_room env ws addr d w)
unfolding close_room arm_forfeit_timer broadcast_room
close_room-same env ws none d w = (refl, λ k. refl)
close_room-same env ws (some a) d w = (ground arith, λ k. ground arith)

close_rooms-same :
    (env : Env) (ws : ℕ) (addr : Option String) (ds : List String) (w : World)
    → SameRegistry w (close_rooms env ws addr ds w)
unfolding close_rooms
close_rooms-same env ws addr [] w = (refl, λ k. refl)
close_rooms-same env ws addr (d ∷ ds) w =
    let w' = close_room env ws addr d w in
    same_trans w w' (close_rooms env ws addr ds w') (close_room-same env ws addr d w)
      (close_rooms-same env ws addr ds w')

pub on_socket_close-Registered :
    (env : Env) (ws : ℕ) (w : World) → Registered w → Registered (on_socket_close env ws w)
unfolding on_socket_close
on_socket_close-Registered env ws w r =
    let w' = leave_queue ws w in
    let addr = (w'.sockets ws).address in
    let duels = (w'.sockets ws).subscribed_duels in
    let left = close_rooms env ws addr duels w' in
    let same : SameRegistry w left =
      same_trans w w' left (leave_queue-same ws w) (close_rooms-same env ws addr duels w') in
    unregister_address-Registered ws _
      (Registered-of_same w _ (same.0, λ k. ground (arith, same.1 k, same.1 ws)) r)

step-Registered : (env : Env) (w : World) (e : Event) → Registered w → Registered (step env w e)
unfolding step
step-Registered env w (hello ws address) r = register_address-Registered ws address w r
step-Registered env w (closed ws) r = on_socket_close-Registered env ws w r
step-Registered env w (room_subscribe ws d) r =
    Registered-of_same w _ (subscribe_room-same ws d w) r
step-Registered env w (room_unsubscribe ws d) r =
    Registered-of_same w _ (unsubscribe_room-same ws d w) r
step-Registered env w (snapshot row ws d) r =
    Registered-of_same w _ (room_snapshot-same row ws d w) r
step-Registered env w (queue_join ws tier now) r =
    Registered-of_same w _ (join_queue-same ws tier now w) r
step-Registered env w (ratings_read ch rating_of) r =
    Registered-of_same w _ (join_finish-same env ch rating_of w) r
step-Registered env w (queue_leave ws) r = Registered-of_same w _ (leave_queue-same ws w) r
step-Registered env w (deck_made m h n) r = Registered-of_same w _ (deck_ready-same m h n w) r
step-Registered env w (deck_refused m msg now) r =
    Registered-of_same w _ (deck_failed-same m msg now w) r
step-Registered env w retry_timer r = Registered-of_same w _ (retry_fires-same w) r
step-Registered env w (handshake_timer key) r =
    Registered-of_same w _ (handshake_fires-same key w) r
step-Registered env w (forfeit_timer key) r = Registered-of_same w _ (forfeit_fires-same key w) r
step-Registered env w (duel_created a) r = Registered-of_same w _ (take_matched_pair-same a w) r

-- After any history of events, from the initial state, the bucket of an address holds exactly the
-- sockets that are bound to it, and no address has an empty bucket.
pub run-Registered : (env : Env) (es : List Event) → Registered (run env initial_world es)
unfolding initial_world contains members lookup
run-Registered env es =
    run_keeps Registered env (step-Registered env) initial_world es
      (record { agree = λ a k. refl; none_empty = λ j. λ e. cc })
