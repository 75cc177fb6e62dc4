-- ===== src/Matchmaking/Joining/Gone.antt =====
-- apps/server/src/ws/matchmaking.ts: a socket that closes, or that says who it is, and the queues.
use flicky.Prelude.{
  ℕ, String, ◌≡◌, refl, sym, ap, ◌∙◌, inl, inr, Option, none, some, List, [], ◌∷◌, arith,
  Bool-cases,
}
use flicky.Env.{Env}
use flicky.Matchmaking.{World, broadcast_room}
use flicky.Matchmaking.Registry.{register_address, unregister_address}
use flicky.Prelude.Buckets.{leave}
use flicky.Matchmaking.Rooms.{address_still_in_room, arm_forfeit_timer}
use flicky.Matchmaking.Closing.{on_socket_close, close_rooms, close_room, clear_duels}
use flicky.Matchmaking.Leaving.{leave_queue}
use flicky.Matchmaking.Joining.Queued.{Queued, SameQueues, Queued-of_same, leave_queue-Queued}

close_room-same :
    (env : Env) (ws : ℕ) (addr : Option String) (d : String) (w : World)
    → (((close_room env ws addr d w).queues ≡ w.queues)
        × ((close_room env ws addr d w).sockets ≡ w.sockets))
      × ((close_room env ws addr d w).retries ≡ w.retries)
unfolding close_room arm_forfeit_timer broadcast_room
close_room-same env ws none d w = ((refl, refl), refl)
close_room-same env ws (some a) d w =
    elim (Bool-cases (
      address_still_in_room d a ws
        (record w { room_subscribers = leave d ws w.room_subscribers }))) [
          | inl e ↦ rw (e, close_room) ((refl, refl), refl)
          | inr e ↦ rw (e, close_room) ((refl, refl), refl)
        ]

pub close_rooms-same :
    (env : Env) (ws : ℕ) (addr : Option String) (ds : List String) (w : World)
    → (((close_rooms env ws addr ds w).queues ≡ w.queues)
        × ((close_rooms env ws addr ds w).sockets ≡ w.sockets))
      × ((close_rooms env ws addr ds w).retries ≡ w.retries)
unfolding close_rooms
close_rooms-same env ws addr [] w = ((refl, refl), refl)
close_rooms-same env ws addr (d ∷ ds) w =
    let ((a, b), c) = close_rooms-same env ws addr ds (close_room env ws addr d w) in
    let ((a', b'), c') = close_room-same env ws addr d w in ((a ∙ a', b ∙ b'), c ∙ c')

pub unqueued-none : (ws : ℕ) (w : World) → ((leave_queue ws w).sockets ws).queued_tier ≡ none
unfolding leave_queue
unqueued-none ws w = ground arith

unregister_address-Queued :
    (ws : ℕ) (w : World)
    → (w.sockets ws).queued_tier ≡ none
    → Queued w
    → Queued (unregister_address ws w)
unfolding unregister_address
unregister_address-Queued ws w h q = record {
  agree = λ t k. ground (arith, q.agree t k);
  named = λ k a. ground (arith, h, q.named k);
}

clear_duels-same : (ws : ℕ) (w : World) → SameQueues w (clear_duels ws w)
unfolding clear_duels
clear_duels-same ws w = record {
  queues = λ t. refl;
  queued = λ k. ground arith;
  named = λ k a. inl (ground arith);
}

pub on_socket_close-Queued :
    (env : Env) (ws : ℕ) (w : World) → Queued w → Queued (on_socket_close env ws w)
unfolding on_socket_close
on_socket_close-Queued env ws w q =
    let left = leave_queue ws w in
    let qleft = leave_queue-Queued ws w q in
    let addr = (left.sockets ws).address in
    let ds = (left.sockets ws).subscribed_duels in
    let gone = close_rooms env ws addr ds left in
    let ((a, b), c) = close_rooms-same env ws addr ds left in
    let same : SameQueues left gone = record {
      queues = λ t. ap (λ f. f t) a;
      queued = λ k. ap (λ f. (f k).queued_tier) b;
      named = λ k h. inl (sym (ap (λ f. (f k).address) b) ∙ h);
    } in
    unregister_address-Queued ws (clear_duels ws gone)
      ((clear_duels-same ws gone).queued ws ∙ same.queued ws ∙ unqueued-none ws w)
      (Queued-of_same gone (clear_duels ws gone) (clear_duels-same ws gone)
        (Queued-of_same left gone same qleft))

pub register_address-Queued :
    (ws : ℕ) (address : String) (w : World) → Queued w → Queued (register_address ws address w)
unfolding register_address unregister_address
register_address-Queued ws address w q = record {
  agree = λ t k. ground (arith, q.agree t k);
  named = λ k a. ground (arith, q.named k);
}
