-- ===== src/MatchClock.antt =====
-- apps/server/src/ws/match-clock.ts: the clock that the server pushes to the rooms of the duels.
pub mod Ticks
mod Tests
use flicky.Prelude.{
  ℕ, zero, suc, ◌+◌, ◌-◌, ◌*◌, ◌/◌, ◌%◌, ◌^◌, ◌≤◌, ◌<◌, String, ◌≡◌, refl, sym, ap, ◌∙◌, ◌≢◌, ◌↔◌,
  ◌⊎◌, inl, inr, Bool, true, false, not, ◌&&◌, ◌||◌, Option, none, some, List, [], ◌∷◌, ◌++◌, map,
  arith, eq_iff, ltb, leb, ◌==◌, str_eq, str_eq_refl, if◌then◌else◌, Bool-cases, Option-cases,
  ==_iff, ==_refl, ltb→lt, leb→le, le→leb,
}
use flicky.Duel.{Status, pending, complete}
use flicky.Protocol.{match_tick}
use flicky.Matchmaking.{World, broadcast_room}
use flicky.Matchmaking.Rooms.{subscribed_room_ids}

-- The mirrored status of a duel: pending where there is no row or the read throws.
abbrev pub or_pending : Option Status → Status
or_pending none = pending
or_pending (some status) = status

abbrev pub is_settled : Status → Bool
is_settled complete = true
is_settled _ = false

unfoldable pub tick_room : (String → Option Status) → ℕ → String → World → World
tick_room read now duel_id w =
    let status = or_pending (read duel_id) in
    if is_settled status then w else broadcast_room duel_id (match_tick duel_id now status) w

-- The rooms in the order of their reads: a broadcast changes nothing that another one looks at.
unfoldable pub tick_rooms : (String → Option Status) → ℕ → List String → World → World
unfolding tick_room
tick_rooms read now [] w = w
tick_rooms read now (duel_id ∷ rest) w = tick_rooms read now rest (tick_room read now duel_id w)

unfoldable pub tick : (String → Option Status) → ℕ → World → World
unfolding tick_rooms
tick read now w = tick_rooms read now (subscribed_room_ids w) w

-- `_interval`: whether the clock runs.
unfoldable pub start_match_clock : Option ℕ → ℕ → Option ℕ
start_match_clock (some running) interval = some running
start_match_clock none interval = some interval

unfoldable pub stop_match_clock : Option ℕ → Option ℕ
stop_match_clock running = none
