-- ===== src/Matchmaking/Events.antt =====
-- apps/server/src/ws/matchmaking.ts: every part of a handler or of a timer's callback that runs
-- without a wait, as an event. The server is single-threaded: a history is a list of events. What
-- a part carries over a wait (`Choosing`, `Matching`) may be anything here, so the histories are
-- more than those of the program.
pub mod Registered
pub mod Subscribed
pub mod RoomsLeft
pub mod Handshakes
pub mod Oracles
use flicky.Prelude.{
  ℕ, zero, suc, ◌+◌, ◌-◌, ◌*◌, ◌/◌, ◌%◌, ◌^◌, ◌≤◌, ◌<◌, String, ◌≡◌, refl, sym, ap, ◌∙◌, ◌≢◌, ◌↔◌,
  ◌⊎◌, inl, inr, Bool, true, false, not, ◌&&◌, ◌||◌, Option, none, some, List, [], ◌∷◌, ◌++◌, map,
  arith, eq_iff, ltb, leb, ◌==◌, str_eq, str_eq_refl, if◌then◌else◌, Bool-cases, Option-cases,
  ==_iff, ==_refl, ltb→lt, leb→le, le→leb,
}
use flicky.Prelude.Int.{ℤ}
use flicky.Env.{Env}
use flicky.Duel.{DuelRow}
use flicky.Protocol.{Tier}
use flicky.Matchmaking.{World, initial_world}
use flicky.Matchmaking.Registry.{register_address}
use flicky.Matchmaking.Leaving.{leave_queue}
use flicky.Matchmaking.Rooms.{subscribe_room, room_snapshot, unsubscribe_room, forfeit_fires}
use flicky.Matchmaking.Closing.{on_socket_close}
use flicky.Matchmaking.Pairing.{
  Matching, deck_ready, deck_failed, handshake_fires, take_matched_pair, retry_fires,
}
use flicky.Matchmaking.Joining.{Choosing, join_queue, join_finish}

pub data Event : Type 0 where
  hello : (ws : ℕ) → (address : String) → Event
  closed : (ws : ℕ) → Event
  room_subscribe room_unsubscribe : (ws : ℕ) → (duel_id : String) → Event
  snapshot : Option DuelRow → (ws : ℕ) → (duel_id : String) → Event
  queue_join : (ws : ℕ) → Tier → (now : ℕ) → Event
  ratings_read : Choosing → (String → ℤ) → Event
  queue_leave : (ws : ℕ) → Event
  deck_made : Matching → (deck_hash : String) → (deck_size : ℕ) → Event
  deck_refused : Matching → (msg : String) → (now : ℕ) → Event
  retry_timer : Event
  handshake_timer forfeit_timer : (key : String) → Event
  duel_created : (creator_addr : String) → Event

unfoldable pub step : Env → World → Event → World
step env w (hello ws address) = register_address ws address w
step env w (closed ws) = on_socket_close env ws w
step env w (room_subscribe ws duel_id) = subscribe_room ws duel_id w
step env w (room_unsubscribe ws duel_id) = unsubscribe_room ws duel_id w
step env w (snapshot row ws duel_id) = room_snapshot row ws duel_id w
step env w (queue_join ws tier now) = (join_queue ws tier now w).0
step env w (ratings_read ch rating_of) = (join_finish env ch rating_of w).0
step env w (queue_leave ws) = leave_queue ws w
step env w (deck_made m deck_hash deck_size) = deck_ready m deck_hash deck_size w
step env w (deck_refused m msg now) = deck_failed m msg now w
step env w retry_timer = (retry_fires w).0
step env w (handshake_timer key) = handshake_fires key w
step env w (forfeit_timer key) = forfeit_fires key w
step env w (duel_created creator_addr) = (take_matched_pair creator_addr w).0

unfoldable pub run : Env → World → List Event → World
run env w [] = w
run env w (e ∷ es) = run env (step env w e) es

-- What every event keeps, every history keeps.
pub run_keeps {ℓ} :
    (P : World → Type ℓ) (env : Env)
    → ((w : World) (e : Event) → P w → P (step env w e))
    → (w : World) (es : List Event) → P w
    → P (run env w es)
unfolding run
run_keeps P env keep w [] h = h
run_keeps P env keep w (e ∷ es) h = run_keeps P env keep (step env w e) es (keep w e h)
