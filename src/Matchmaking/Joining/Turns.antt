-- ===== src/Matchmaking/Joining/Turns.antt =====
-- apps/server/src/ws/matchmaking.ts: histories in which nothing runs during the waits of a
-- `joinQueue`. Decks are made or refused, and timers fire, in any order; the pairings whose deck
-- is being made are part of the state.
use flicky.Prelude.{ℕ, zero, suc, String, Option, none, some, List, [], ◌∷◌}
use flicky.Prelude.{All}
use flicky.Prelude.Int.{ℤ}
use flicky.Env.{Env}
use flicky.Duel.{DuelRow}
use flicky.Protocol.{Tier}
use flicky.Matchmaking.{World, initial_world}
use flicky.Matchmaking.Registry.{register_address}
use flicky.Matchmaking.Rooms.{subscribe_room, unsubscribe_room, room_snapshot, forfeit_fires}
use flicky.Matchmaking.Closing.{on_socket_close}
use flicky.Matchmaking.Leaving.{leave_queue}
use flicky.Matchmaking.Pairing.{
  Matching, deck_ready, handshake_fires, take_matched_pair, deck_failed, retry_fires,
}
use flicky.Matchmaking.Joining.{join_at_once}
use flicky.Matchmaking.Joining.Queued.{Queued, Distinct}
use flicky.Matchmaking.Joining.Serial.{Apart}

pub record Serving : Type 0 where
  pub world : World
  pub making : List Matching

abbrev pub idle : Serving
idle = record { world = initial_world; making = [] }

pub data Turn : Type 0 where
  hello : (ws : ℕ) → (address : String) → Turn
  closed : (ws : ℕ) → Turn
  room_subscribe room_unsubscribe : (ws : ℕ) → (duel_id : String) → Turn
  snapshot : Option DuelRow → (ws : ℕ) → (duel_id : String) → Turn
  queue_join : (String → ℤ) → (ws : ℕ) → Tier → (now : ℕ) → Turn
  queue_leave : (ws : ℕ) → Turn
  deck_made : (place : ℕ) → (deck_hash : String) → (deck_size : ℕ) → Turn
  deck_refused : (place : ℕ) → (msg : String) → (now : ℕ) → Turn
  retry_timer : Turn
  handshake_timer forfeit_timer : (key : String) → Turn
  duel_created : (creator_addr : String) → Turn

-- A pairing leaves the list when its deck is there, or is not to be.
abbrev pub taken : ℕ → List Matching → Option (Matching × List Matching)
taken n [] = none
taken zero (m ∷ ms) = some (m, ms)
taken (suc n) (m ∷ ms) = elim (taken n ms) [ none ↦ none | some p ↦ some (p.0, m ∷ p.1) ]

abbrev pub also : List Matching → World × Option Matching → Serving
also ms (w, none) = record { world = w; making = ms }
also ms (w, some m) = record { world = w; making = m ∷ ms }

abbrev pub with_taken : ℕ → (Matching → World → World) → Serving → Serving
with_taken n go s = elim (taken n s.making) [
  | none ↦ s
  | some p ↦ record { world = go p.0 s.world; making = p.1 }
]

unfoldable pub turn : Env → Serving → Turn → Serving
turn env s (hello ws address) = record s { world = register_address ws address s.world }
turn env s (closed ws) = record s { world = on_socket_close env ws s.world }
turn env s (room_subscribe ws duel_id) = record s { world = subscribe_room ws duel_id s.world }
turn env s (room_unsubscribe ws duel_id) = record s { world = unsubscribe_room ws duel_id s.world }
turn env s (snapshot row ws duel_id) = record s { world = room_snapshot row ws duel_id s.world }
turn env s (queue_join rating_of ws tier now) =
    also s.making (join_at_once env rating_of ws tier now s.world)
turn env s (queue_leave ws) = record s { world = leave_queue ws s.world }
turn env s (deck_made n deck_hash deck_size) =
    with_taken n (λ m. deck_ready m deck_hash deck_size) s
turn env s (deck_refused n msg now) = with_taken n (λ m. deck_failed m msg now) s
turn env s retry_timer = also s.making (retry_fires s.world)
turn env s (handshake_timer key) = record s { world = handshake_fires key s.world }
turn env s (forfeit_timer key) = record s { world = forfeit_fires key s.world }
turn env s (duel_created creator_addr) = record s {
  world = (take_matched_pair creator_addr s.world).0;
}

unfoldable pub turns : Env → Serving → List Turn → Serving
turns env s [] = s
turns env s (t ∷ ts) = turns env (turn env s t) ts

-- The queues agree with the sockets, and no pairing and no retry is of a socket with itself.
pub record Orderly (s : Serving) : Type 0 where
  pub queued : Queued s.world
  pub making : All Apart s.making
  pub retries : All Distinct s.world.retries
