-- ===== src/Handlers/Messages.antt =====
-- apps/server/src/ws/handlers.ts: one message of a socket, and its close, over the whole server.
-- A message is what `JSON.parse` gives; a field that is no text is none. What a `queue_join` waits
-- for, and what `joinQueue` still has to do after its own first wait, is given back.
pub mod Spent
pub mod Closed
mod Tests
use flicky.Prelude.{
  ℕ, zero, suc, ◌+◌, ◌-◌, ◌*◌, ◌/◌, ◌%◌, ◌^◌, ◌≤◌, ◌<◌, String, ◌≡◌, refl, sym, ap, ◌∙◌, ◌≢◌, ◌↔◌,
  ◌⊎◌, inl, inr, Bool, true, false, not, ◌&&◌, ◌||◌, Option, none, some, List, [], ◌∷◌, ◌++◌, map,
  arith, eq_iff, ltb, leb, ◌==◌, str_eq, str_eq_refl, if◌then◌else◌, Bool-cases, Option-cases,
  ==_iff, ==_refl, ltb→lt, leb→le, le→leb,
}
use flicky.Env.{Env}
use flicky.Duel.{DuelRow}
use flicky.Protocol.{
  Tier, ServerMsg, ChatMessage, PracticeCard, chat_history, practice_session, pong, error,
  no_detail, retry_after,
}
use flicky.Ratelimit.{Limiter, Outcome, ok, denied, consume}
use flicky.Matchmaking.{World, send}
use flicky.Matchmaking.Registry.{register_address}
use flicky.Matchmaking.Leaving.{leave_queue}
use flicky.Matchmaking.Joining.{Joining, join_queue}
use flicky.Matchmaking.Rooms.{subscribe_room, unsubscribe_room}
use flicky.Matchmaking.Closing.{on_socket_close}
use flicky.Chat.{handle_chat_send, handle_chat_react}
use flicky.OracleStream.{
  Stream, starts_with_0x, subscribe_oracles, unsubscribe_oracles, subscribe_spot, unsubscribe_spot,
  on_socket_close_oracle_stream,
}
use flicky.Handlers.{Replies, Texts, Next, done, join, rate_key, handle_queue_join, resume}

pub record Server : Type 0 where
  pub world : World
  pub stream : Stream
  pub limiter : Limiter

pub data ClientMsg : Type 0 where
  hello : (address : Option String) → ClientMsg
  queue_join : (tier : String) → ClientMsg
  queue_leave practice_start : ClientMsg
  room_subscribe room_unsubscribe : (duel_id : Option String) → ClientMsg
  chat_send : (text : String) → ClientMsg
  chat_react : (duel_id emoji : String) → ClientMsg
  oracle_subscribe oracle_unsubscribe : (market_ids : Option (List (Option String))) → ClientMsg
  spot_subscribe spot_unsubscribe ping unknown : ClientMsg

-- What a practice session is made of, or the text of the exception.
pub data Practice : Type 0 where
  dealt : List PracticeCard → (bot_swipes : List Bool) → Practice
  failed : (message : String) → Practice

-- What the outside answers to one message, and what the clock says.
pub record Outside : Type 0 where
  pub now : ℕ
  pub texts : Texts
  pub queue : Replies
  -- none: the query throws
  pub recent_chat_messages : Option (List ChatMessage)
  pub practice : Practice
  pub shortened : String → String
  pub insert_chat_message : String → String → Option ChatMessage
  pub emoji_length : ℕ
  pub duel : Option DuelRow

abbrev pub on_world : (World → World) → Server → Server
on_world f s = record s { world = f s.world }

abbrev pub on_stream : (Stream × World → Stream × World) → Server → Server
on_stream f s = let (st, w) = f (s.stream, s.world) in record s { world = w; stream = st }

unfoldable pub send_chat_history : ℕ → Option (List ChatMessage) → World → World
send_chat_history ws none w = w
send_chat_history ws (some rows) w = send ws (chat_history rows) w

-- apps/server/src/ws/practice.ts
unfoldable pub handle_practice_start : ℕ → Practice → World → World
handle_practice_start ws practice w = elim (w.sockets ws).address [
  | none ↦ send ws (error "no_address" "send `hello` with your address first" no_detail) w
  | some address ↦ elim practice [
    | dealt cards bot_swipes ↦ send ws (practice_session cards bot_swipes) w
    | failed message ↦ send ws (error "practice_failed" message no_detail) w
  ]
]

unfoldable pub admit : Outside → ℕ → (Server → Server) → Outcome → Server → Server
admit o ws handle ok s = handle s
admit o ws handle (denied retry_ms) s =
    on_world (send ws (error "rate_limited" (o.texts.slow_down retry_ms) (retry_after retry_ms))) s

-- `consume(route, ws.data.address ?? "anon")`, and the handler where it lets the message through.
unfoldable pub limited : Outside → String → ℕ → (Server → Server) → Server → Server
unfolding admit
limited o route ws handle s =
    let (limiter, gate) = consume route (rate_key (s.world.sockets ws).address) o.now s.limiter in
    admit o ws handle gate (record s { limiter = limiter })

unfoldable pub say_hello : Outside → ℕ → Option String → World → World
unfolding send_chat_history
say_hello o ws none w = send ws (error "bad_address" "address must be a 0x… string" no_detail) w
say_hello o ws (some address) w =
    if starts_with_0x address
    then send_chat_history ws o.recent_chat_messages (register_address ws address w)
    else send ws (error "bad_address" "address must be a 0x… string" no_detail) w

unfoldable pub enter_room_of : ℕ → Option String → World → World
enter_room_of ws none w = send ws (error "bad_duel_id" "duelId must be a 0x… string" no_detail) w
enter_room_of ws (some duel_id) w =
    if starts_with_0x duel_id
    then subscribe_room ws duel_id w
    else send ws (error "bad_duel_id" "duelId must be a 0x… string" no_detail) w

unfoldable pub leave_room_of : ℕ → Option String → World → World
leave_room_of ws none w = w
leave_room_of ws (some duel_id) w = unsubscribe_room ws duel_id w

-- The world, what the handler still waits for, and what `joinQueue` does after its first wait.
abbrev pub Progress : Type 0
Progress = World × (Next × Option Joining)

-- The first part of `joinQueue`, where the message was let through.
unfoldable pub begin_join : ℕ → ℕ → Next → World → Progress
begin_join ws now (join tier) w =
    let (w', joining) = join_queue ws tier now w in (w', (done, joining))
begin_join ws now next w = (w, (next, none))

-- `queue_join` up to its first wait.
unfoldable pub ask_queue : Outside → ℕ → String → Server → Server × (Next × Option Joining)
unfolding begin_join
ask_queue o ws tier s =
    let (limiter, (w, next)) = handle_queue_join o.texts ws tier o.now s.limiter s.world in
    let (w', left) = begin_join ws o.now next w in
    (record s { world = w'; limiter = limiter }, left)

-- `queue_join` after a wait, on the server as it is then.
unfoldable pub resume_queue : Outside → ℕ → Next → Server → Server × (Next × Option Joining)
unfolding begin_join
resume_queue o ws next s =
    let (w, next') = resume o.texts o.queue ws next s.world in
    let (w', left) = begin_join ws o.now next' w in (record s { world = w' }, left)

module _ (normalize : String → String) where
  -- Every message but `queue_join`.
  unfoldable pub answer : Outside → ℕ → ClientMsg → Server → Server
  unfolding say_hello enter_room_of leave_room_of limited handle_practice_start
  answer o ws (hello address) s = on_world (say_hello o ws address) s
  answer o ws (queue_join tier) s = s
  answer o ws queue_leave s = on_world (leave_queue ws) s
  answer o ws practice_start s =
      limited o "ws:practice_start" ws (on_world (handle_practice_start ws o.practice)) s
  answer o ws (room_subscribe duel_id) s = on_world (enter_room_of ws duel_id) s
  answer o ws (room_unsubscribe duel_id) s = on_world (leave_room_of ws duel_id) s
  answer o ws (chat_send text) s =
      limited o "ws:chat_send" ws
        (on_world (handle_chat_send ws o.shortened o.insert_chat_message text)) s
  answer o ws (chat_react duel_id emoji) s =
      limited o "ws:chat_react" ws
        (on_world
          (handle_chat_react ws (starts_with_0x duel_id) o.emoji_length o.duel duel_id emoji o.now))
        s
  answer o ws (oracle_subscribe ids) s = on_stream (subscribe_oracles normalize ws ids) s
  answer o ws (oracle_unsubscribe ids) s = on_stream (unsubscribe_oracles normalize ws ids) s
  answer o ws spot_subscribe s =
      limited o "ws:spot_subscribe" ws (λ v. record v { stream = subscribe_spot ws v.stream }) s
  answer o ws spot_unsubscribe s = record s { stream = unsubscribe_spot ws s.stream }
  answer o ws ping s = on_world (send ws pong) s
  answer o ws unknown s =
      on_world (send ws (error "unknown_type" "unknown message type" no_detail)) s

  -- none is a text that `parseClientMsg` refuses.
  unfoldable pub message :
      Outside → ℕ → Option ClientMsg → Server → Server × (Next × Option Joining)
  unfolding ask_queue answer
  message o ws none s = (
    on_world (send ws (error "bad_message" "invalid JSON or missing `type`" no_detail)) s,
    (done, none),
  )
  message o ws (some (queue_join tier)) s = ask_queue o ws tier s
  message o ws (some msg) s = (answer o ws msg s, (done, none))

unfoldable pub close : Env → ℕ → Server → Server
close env ws s =
    let (st, w) = on_socket_close_oracle_stream ws (s.stream, s.world) in
    record s { world = on_socket_close env ws w; stream = st }
