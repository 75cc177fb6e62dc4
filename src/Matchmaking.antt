-- ===== src/Matchmaking.antt =====
-- apps/server/src/ws/matchmaking.ts: the state that the queue and the rooms share. A socket is
-- a number, and `sockets` gives the `data` of each. Where the source holds a timer's handle, the
-- table here holds what the timer's callback has captured, so that the timers that are live are
-- the entries. An address is never the empty text: `hello` refuses any that does not begin "0x".
pub mod Registry
pub mod Leaving
pub mod Rooms
pub mod Closing
pub mod Pairing
pub mod Joining
pub mod Events
pub mod Handshake
mod Tests
use flicky.Prelude.{
  ℕ, zero, suc, ◌+◌, ◌-◌, ◌*◌, ◌/◌, ◌%◌, ◌^◌, ◌≤◌, ◌<◌, String, ◌≡◌, refl, sym, ap, ◌∙◌, ◌≢◌, ◌↔◌,
  ◌⊎◌, inl, inr, Bool, true, false, not, ◌&&◌, ◌||◌, Option, none, some, List, [], ◌∷◌, ◌++◌, map,
  arith, eq_iff, ltb, leb, ◌==◌, str_eq, str_eq_refl, if◌then◌else◌, Bool-cases, Option-cases,
  ==_iff, ==_refl, ltb→lt, leb→le, le→leb,
}
use flicky.Prelude.Maps.{lookup, mem}
use flicky.Prelude.Buckets.{Buckets, members}
use flicky.Protocol.{Tier, ServerMsg}
use Prim.Native.String

pub record SocketState : Type 0 where
  pub address : Option String
  pub queued_tier : Option Tier
  pub queued_at : ℕ
  pub subscribed_duels : List String
  pub subscribed_oracles : List String

unfoldable pub new_socket_state : SocketState
new_socket_state = record {
  address = none;
  queued_tier = none;
  queued_at = 0;
  subscribed_duels = [];
  subscribed_oracles = [];
}

-- A pair whose deck could not be made, to be tried again.
pub record Retry : Type 0 where
  pub a : ℕ
  pub b : ℕ
  pub tier : Tier

pub record World : Type 0 where
  pub sockets : ℕ → SocketState
  pub sockets_by_address : Buckets
  pub queues : Tier → List ℕ
  pub room_subscribers : Buckets
  -- `${duelId}|${address}` to the duel and the address
  pub forfeit_timers : List (String × (String × String))
  -- the creator's address to the challenger's
  pub pending_pairs : List (String × String)
  -- the creator's address to the two sockets
  pub pending_pair_timers : List (String × (ℕ × ℕ))
  pub retries : List Retry
  -- every message that was handed to a socket, the newest first
  pub outbox : List (ℕ × ServerMsg)

-- The module's state when it is loaded, and after `__resetForTests`.
unfoldable pub initial_world : World
unfolding new_socket_state
initial_world = record {
  sockets = λ ws. new_socket_state;
  sockets_by_address = [];
  queues = λ tier. [];
  room_subscribers = [];
  forfeit_timers = [];
  pending_pairs = [];
  pending_pair_timers = [];
  retries = [];
  outbox = [];
}

-- `ws.data.… = …`
abbrev pub set_socket : ℕ → SocketState → World → World
set_socket ws s w = record w { sockets = λ k. if k == ws then s else w.sockets k }

-- A failing `ws.send` is caught: it changes nothing.
abbrev pub send : ℕ → ServerMsg → World → World
send ws msg w = record w { outbox = (ws, msg) ∷ w.outbox }

abbrev pub send_each : List ℕ → ServerMsg → List (ℕ × ServerMsg) → List (ℕ × ServerMsg)
send_each [] msg out = out
send_each (ws ∷ wss) msg out = send_each wss msg ((ws, msg) ∷ out)

abbrev pub send_all : List ℕ → ServerMsg → World → World
send_all wss msg w = record w { outbox = send_each wss msg w.outbox }

unfoldable pub broadcast_room : String → ServerMsg → World → World
broadcast_room duel_id msg w = send_all (members duel_id w.room_subscribers) msg w

abbrev pub has_address : String → Option String → Bool
has_address a none = false
has_address a (some b) = str_eq b a

abbrev pub forfeit_key : String → String → String
forfeit_key duel_id address = String.◌++◌ duel_id (String.◌++◌ "|" address)
