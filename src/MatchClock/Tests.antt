-- ===== src/MatchClock/Tests.antt =====
-- Runs of apps/server/src/ws/match-clock.ts, and its theorem at two rooms.
use flicky.Prelude.{◌+◌, ◌*◌, String, ◌≡◌, refl, Option, some, [], ◌∷◌, str_eq, if◌then◌else◌}
use flicky.Prelude.{count, count_if}
use flicky.Prelude.Buckets.{members}
use flicky.Prelude.Maps.{lookup}
use flicky.Duel.{Status, active, complete}
use flicky.Protocol.{match_tick}
use flicky.Matchmaking.{World, initial_world, broadcast_room}
use flicky.Matchmaking.Rooms.{subscribed_room_ids}
use flicky.MatchClock.{or_pending, is_settled, tick_room, tick_rooms, tick}
use flicky.MatchClock.Ticks.{ticks_to, tick-told}

-- Sockets 1 and 2 watch a duel that is active, socket 3 one that is settled.
abbrev watched : World
watched = record initial_world { room_subscribers = ("d", 1 ∷ 2 ∷ []) ∷ ("e", 3 ∷ []) ∷ [] }

abbrev mirror : String → Option Status
mirror d = if str_eq d "e" then some complete else some active

two_told :
    (tick mirror 90 watched).outbox
    ≡ (2, match_tick "d" 90 active) ∷ (1, match_tick "d" 90 active) ∷ []
unfolding tick tick_rooms tick_room broadcast_room members initial_world lookup
two_told = refl

tick-told_example :
    (ticks_to 2 "d" 90 (tick mirror 90 watched)
      ≡ ticks_to 2 "d" 90 watched
        + count_if (λ d. str_eq d "d") (subscribed_room_ids watched)
          * (if is_settled (or_pending (mirror "d"))
              then 0
              else count 2 (members "d" watched.room_subscribers)))
    × (tick mirror 90 watched ≡ record watched { outbox = (tick mirror 90 watched).outbox })
tick-told_example = tick-told mirror 90 2 "d" watched
