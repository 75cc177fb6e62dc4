-- ===== src/MatchClock/Ticks.antt =====
-- apps/server/src/ws/match-clock.ts: who is told of the time.
use flicky.Prelude.{
  ℕ, ◌+◌, ◌*◌, String, ◌≡◌, refl, ap, ◌∙◌, inl, inr, Bool, false, ◌&&◌, Option, List, [], ◌∷◌,
  arith, eq_iff, ◌==◌, str_eq, if◌then◌else◌, Bool-cases, ==_refl,
}
use native.Mathlib.Nat
use flicky.Prelude.{count, count_if, times}
use flicky.Prelude.Buckets.{members}
use flicky.Duel.{Status}
use flicky.Protocol.{ServerMsg, match_tick}
use flicky.Matchmaking.{World, send_each, broadcast_room}
use flicky.Matchmaking.Rooms.{subscribed_room_ids}
use flicky.MatchClock.{or_pending, is_settled, tick_room, tick_rooms, tick}

-- Whether a message is the time `now` of a duel, to the socket `ws`.
abbrev pub is_tick : ℕ → String → ℕ → (ℕ × ServerMsg) → Bool
is_tick ws duel_id now (k, match_tick d t status) = (k == ws) && (str_eq d duel_id && (t == now))
is_tick ws duel_id now (k, _) = false

abbrev pub ticks_to : ℕ → String → ℕ → World → ℕ
ticks_to ws duel_id now w = count_if (is_tick ws duel_id now) w.outbox

module _ (ws : ℕ) (duel_id : String) (now : ℕ) where
  ticks-send_each :
      (wss : List ℕ) (d : String) (status : Status) (out : List (ℕ × ServerMsg))
      → count_if (is_tick ws duel_id now) (send_each wss (match_tick d now status) out)
        ≡ count_if (is_tick ws duel_id now) out + times (str_eq d duel_id) * count ws wss
  ticks-send_each [] d status out = ground arith
  ticks-send_each (k ∷ wss) d status out =
      ground (arith, ticks-send_each wss d status ((k, match_tick d now status) ∷ out), ==_refl now)

  -- How often the clock of a duel goes to the socket, where its room is looked at once.
  abbrev pub due : (String → Option Status) → World → String → ℕ
  due read w d =
      if is_settled (or_pending (read d)) then 0 else count ws (members d w.room_subscribers)

  due-same :
      (read : String → Option Status) (d : String) (w : World)
      → times (str_eq d duel_id) * due read w d ≡ times (str_eq d duel_id) * due read w duel_id
  due-same read d w = elim (Bool-cases (str_eq d duel_id)) [
    | inl e ↦ ap (λ x. times (str_eq d duel_id) * due read w x) (ground (arith, eq_iff d duel_id))
    | inr e ↦ rw e (omega arith)
  ]

  ticks-tick_room :
      (read : String → Option Status) (d : String) (w : World)
      → ticks_to ws duel_id now (tick_room read now d w)
        ≡ ticks_to ws duel_id now w + times (str_eq d duel_id) * due read w d
  unfolding tick_room broadcast_room
  ticks-tick_room read d w = elim (Bool-cases (is_settled (or_pending (read d)))) [
    | inl s ↦ rw (s, tick_room) (omega arith)
    | inr s ↦
        rw (s, tick_room)
          (ticks-send_each (members d w.room_subscribers) d (or_pending (read d)) w.outbox)
  ]

module _ (read : String → Option Status) (now : ℕ) where
  tick_room-outbox :
      (d : String) (w : World)
      → tick_room read now d w ≡ record w { outbox = (tick_room read now d w).outbox }
  unfolding tick_room broadcast_room
  tick_room-outbox d w = elim (Bool-cases (is_settled (or_pending (read d)))) [
    | inl s ↦ rw (s, tick_room) refl
    | inr s ↦ rw (s, tick_room) refl
  ]

  rooms-outbox :
      (ds : List String) (w : World)
      → tick_rooms read now ds w ≡ record w { outbox = (tick_rooms read now ds w).outbox }
  unfolding tick_rooms
  rooms-outbox [] w = refl
  rooms-outbox (d ∷ ds) w =
      let after = tick_room read now d w in
      let sends : World → World =
        λ v. record v { outbox = (tick_rooms read now ds after).outbox } in
      rooms-outbox ds after ∙ ap sends (tick_room-outbox d w)

  ticks-rooms :
      (ws : ℕ) (duel_id : String) (ds : List String) (w : World)
      → ticks_to ws duel_id now (tick_rooms read now ds w)
        ≡ ticks_to ws duel_id now w
          + count_if (λ d. str_eq d duel_id) ds * due ws duel_id now read w duel_id
  unfolding tick_rooms
  ticks-rooms ws duel_id [] w = omega arith
  ticks-rooms ws duel_id (d ∷ ds) w =
      let after = tick_room read now d w in
      let owed = due ws duel_id now read w duel_id in
      let kept : due ws duel_id now read after duel_id ≡ owed =
        ap (λ v. due ws duel_id now read v duel_id) (tick_room-outbox d w) in
      let first =
        ticks-tick_room ws duel_id now read d w
        ∙ ap (λ k. ticks_to ws duel_id now w + k) (due-same ws duel_id now read d w) in
      let others =
        ticks-rooms ws duel_id ds after
        ∙ ap (λ k. ticks_to ws duel_id now after + count_if (λ d. str_eq d duel_id) ds * k) kept in
      let shared =
        Nat.add-mul (times (str_eq d duel_id)) (count_if (λ d. str_eq d duel_id) ds) owed in
      omega (arith, first, others, shared)

-- A tick tells every socket the time of a duel as often as the socket stands among the subscribers
-- of its room and the room among the rooms, once where both do once, but not at all where the
-- mirror has the duel settled; it sends, and changes nothing else.
pub tick-told :
    (read : String → Option Status) (now ws : ℕ) (duel_id : String) (w : World)
    → (ticks_to ws duel_id now (tick read now w)
        ≡ ticks_to ws duel_id now w
          + count_if (λ d. str_eq d duel_id) (subscribed_room_ids w)
            * (if is_settled (or_pending (read duel_id))
                then 0
                else count ws (members duel_id w.room_subscribers)))
      × (tick read now w ≡ record w { outbox = (tick read now w).outbox })
unfolding tick
tick-told read now ws duel_id w = (
  ticks-rooms read now ws duel_id (subscribed_room_ids w) w,
  rooms-outbox read now (subscribed_room_ids w) w,
)
