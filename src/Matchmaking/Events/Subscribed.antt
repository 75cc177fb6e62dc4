-- ===== src/Matchmaking/Events/Subscribed.antt =====
-- apps/server/src/ws/matchmaking.ts: the subscribers of the rooms and the sockets agree.
use flicky.Prelude.{
  ℕ, String, ◌≡◌, refl, ◌∙◌, inl, inr, Option, none, some, arith, eq_iff, Option-cases,
}
use flicky.Prelude.Maps.{contains, mem, mem-put, mem-take_out}
use flicky.Prelude.Buckets.{
  members, contains-enter, contains-leave, NoneEmpty, enter-NoneEmpty, leave-NoneEmpty,
}
use flicky.Env.{Env}
use flicky.Protocol.{Tier}
use flicky.Matchmaking.{World}
use flicky.Matchmaking.{broadcast_room}
use flicky.Prelude.Int.{ℤ}
use flicky.Duel.{DuelRow}
use flicky.Matchmaking.Registry.{register_address, unregister_address}
use flicky.Matchmaking.Leaving.{leave_queue}
use flicky.Matchmaking.Rooms.{subscribe_room, room_snapshot, unsubscribe_room, forfeit_fires}
use flicky.Matchmaking.Pairing.{
  Matching, deck_ready, deck_failed, handshake_fires, retry_fires, retry_pair, requeue,
}
use flicky.Matchmaking.Joining.{Choosing, join_queue, join_finish, opponent}

pub record Subscribed (w : World) : Type 0 where
  pub agree :
      (d : String) (k : ℕ)
      → contains k (members d w.room_subscribers) ≡ mem d (w.sockets k).subscribed_duels
  pub none_empty : NoneEmpty w.room_subscribers

-- What neither enters nor leaves a room.
abbrev pub SameRooms : World → World → Type 0
SameRooms w w' =
    (w'.room_subscribers ≡ w.room_subscribers)
    × ((k : ℕ) → (w'.sockets k).subscribed_duels ≡ (w.sockets k).subscribed_duels)

pub Subscribed-of_same : (w w' : World) → SameRooms w w' → Subscribed w → Subscribed w'
Subscribed-of_same w w' (e, f) r = record {
  agree = λ d k. rw (e, f k) (r.agree d k);
  none_empty = rw e r.none_empty;
}

pub same_trans : (u v w : World) → SameRooms u v → SameRooms v w → SameRooms u w
same_trans u v w (e, f) (e', f') = (e' ∙ e, λ k. f' k ∙ f k)

pub subscribe_room-Subscribed :
    (ws : ℕ) (duel_id : String) (w : World)
    → Subscribed w
    → Subscribed (subscribe_room ws duel_id w)
unfolding subscribe_room broadcast_room
subscribe_room-Subscribed ws duel_id w r = record {
  agree = λ d k. ground (
    arith,
    contains-enter duel_id d ws k w.room_subscribers,
    r.agree d k,
    mem-put duel_id d (w.sockets ws).subscribed_duels,
    eq_iff duel_id d,
  );
  none_empty = ground (arith, enter-NoneEmpty duel_id ws w.room_subscribers r.none_empty);
}

pub unsubscribe_room-Subscribed :
    (ws : ℕ) (duel_id : String) (w : World)
    → Subscribed w
    → Subscribed (unsubscribe_room ws duel_id w)
unfolding unsubscribe_room
unsubscribe_room-Subscribed ws duel_id w r = record {
  agree = λ d k. ground (
    arith,
    contains-leave duel_id d ws k w.room_subscribers,
    r.agree d k,
    mem-take_out duel_id d (w.sockets ws).subscribed_duels,
    eq_iff duel_id d,
  );
  none_empty = leave-NoneEmpty duel_id ws w.room_subscribers r.none_empty;
}

pub leave_queue-same : (ws : ℕ) (w : World) → SameRooms w (leave_queue ws w)
unfolding leave_queue
leave_queue-same ws w = (ground arith, λ k. ground arith)

pub register_address-same :
    (ws : ℕ) (address : String) (w : World) → SameRooms w (register_address ws address w)
unfolding register_address unregister_address
register_address-same ws address w = (ground arith, λ k. ground arith)

pub join_queue-same :
    (ws : ℕ) (tier : Tier) (now : ℕ) (w : World) → SameRooms w (join_queue ws tier now w).0
unfolding join_queue
join_queue-same ws tier now w = (
  ground (arith, (leave_queue-same ws w).0),
  λ k. ground (arith, (leave_queue-same ws w).1 k, (leave_queue-same ws w).1 ws),
)

pub join_finish-same :
    (env : Env) (ch : Choosing) (rating_of : String → ℤ) (w : World)
    → SameRooms w (join_finish env ch rating_of w).0
unfolding join_finish
join_finish-same env ch rating_of w = elim (Option-cases (opponent env ch rating_of)) [
  | inl e ↦ rw (e, join_finish) (ground arith, λ k. ground arith)
  | inr (o, e) ↦ rw (e, join_finish) (ground arith, λ k. ground arith)
]

requeue-same : (ws : ℕ) (tier : Tier) (now : ℕ) (w : World) → SameRooms w (requeue ws tier now w)
unfolding requeue
requeue-same ws tier now w = (ground arith, λ k. ground arith)

pub deck_failed-same :
    (m : Matching) (msg : String) (now : ℕ) (w : World) → SameRooms w (deck_failed m msg now w)
unfolding deck_failed
deck_failed-same m msg now w =
    let w' = requeue m.creator_ws m.tier now w in
    same_trans w w' (requeue m.challenger_ws m.tier now w') (requeue-same m.creator_ws m.tier now w)
      (requeue-same m.challenger_ws m.tier now w')

pub deck_ready-same :
    (m : Matching) (deck_hash : String) (deck_size : ℕ) (w : World)
    → SameRooms w (deck_ready m deck_hash deck_size w)
unfolding deck_ready
deck_ready-same m deck_hash deck_size w = (ground arith, λ k. ground arith)

pub retry_fires-same : (w : World) → SameRooms w (retry_fires w).0
unfolding retry_fires retry_pair
retry_fires-same w = (ground arith, λ k. ground arith)

pub handshake_fires-same : (key : String) (w : World) → SameRooms w (handshake_fires key w)
unfolding handshake_fires
handshake_fires-same key w = (ground arith, λ k. ground arith)

pub room_snapshot-same :
    (row : Option DuelRow) (ws : ℕ) (duel_id : String) (w : World)
    → SameRooms w (room_snapshot row ws duel_id w)
unfolding room_snapshot
room_snapshot-same none ws duel_id w = (refl, λ k. refl)
room_snapshot-same (some d) ws duel_id w = (ground arith, λ k. ground arith)

pub forfeit_fires-same : (key : String) (w : World) → SameRooms w (forfeit_fires key w)
unfolding forfeit_fires broadcast_room
forfeit_fires-same key w = (ground arith, λ k. ground arith)
