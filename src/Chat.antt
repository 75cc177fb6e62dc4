-- ===== src/Chat.antt =====
-- apps/server/src/ws/chat.ts: messages of the global chat, and the reactions of a room. The texts
-- have been read from a message already; `trim` and `slice` are the parameter `shortened`, and
-- what the database answers is an argument.
pub mod Audience
mod Tests
use flicky.Prelude.{
  ℕ, zero, suc, ◌+◌, ◌-◌, ◌*◌, ◌/◌, ◌%◌, ◌^◌, ◌≤◌, ◌<◌, String, ◌≡◌, refl, sym, ap, ◌∙◌, ◌≢◌, ◌↔◌,
  ◌⊎◌, inl, inr, Bool, true, false, not, ◌&&◌, ◌||◌, Option, none, some, List, [], ◌∷◌, ◌++◌, map,
  arith, eq_iff, ltb, leb, ◌==◌, str_eq, str_eq_refl, if◌then◌else◌, Bool-cases, Option-cases,
  ==_iff, ==_refl, ltb→lt, leb→le, le→leb,
}
use flicky.Prelude.{length}
use flicky.Duel.{DuelRow}
use flicky.Protocol.{ServerMsg, chat_message, chat_reaction, error, no_detail, ChatMessage}
use flicky.Matchmaking.{World, send, broadcast_room}
use flicky.Matchmaking.Registry.{send_to_addresses, broadcast_all}

-- `insertChatMessage`: the row, or none where it throws.
unfoldable pub store_and_tell : ℕ → Option ChatMessage → World → World
store_and_tell ws none w = send ws (error "chat_failed" "could not store message" no_detail) w
store_and_tell ws (some row) w = broadcast_all (chat_message row) w

unfoldable pub chat_from :
    ℕ → String → (String → String) → (String → String → Option ChatMessage) → String → World → World
unfolding store_and_tell
chat_from ws address shortened insert_chat_message text w =
    let trimmed = shortened text in
    let told = store_and_tell ws (insert_chat_message address trimmed) w in
    if str_eq text ""
    then send ws (error "bad_chat_text" "text must be a non-empty string" no_detail) w
    else if str_eq trimmed ""
    then w
    else told

unfoldable pub handle_chat_send :
    ℕ → (String → String) → (String → String → Option ChatMessage) → String → World → World
unfolding chat_from
handle_chat_send ws shortened insert_chat_message text w = elim (w.sockets ws).address [
  | none ↦ send ws (error "no_address" "send `hello` with your address first" no_detail) w
  | some address ↦ chat_from ws address shortened insert_chat_message text w
]

-- The mirror's row names both players, or the room is told.
unfoldable pub react_to : Option DuelRow → String → ServerMsg → World → World
react_to none duel_id msg w = broadcast_room duel_id msg w
react_to (some d) duel_id msg w =
    let told = (send_to_addresses (d.creator ∷ d.challenger ∷ []) msg w).0 in
    if str_eq d.creator "" || str_eq d.challenger "" then broadcast_room duel_id msg w else told

-- `valid_id` is `duelId.startsWith("0x")`, `emoji_length` the emoji's length in UTF-16 units.
unfoldable pub react_from :
    ℕ
    → String
    → (valid_id : Bool) → (emoji_length : ℕ) → Option DuelRow
    → String
    → String
    → ℕ
    → World
    → World
unfolding react_to
react_from ws address valid_id emoji_length duel duel_id emoji now w =
    if not valid_id
    then send ws (error "bad_duel_id" "duelId must be 0x…" no_detail) w
    else if emoji_length == 0 || ltb 16 emoji_length
    then send ws (error "bad_emoji" "emoji must be 1..16 chars" no_detail) w
    else react_to duel duel_id (chat_reaction duel_id address emoji now) w

unfoldable pub handle_chat_react :
    ℕ
    → (valid_id : Bool) → (emoji_length : ℕ) → Option DuelRow
    → String
    → String
    → ℕ
    → World
    → World
unfolding react_from
handle_chat_react ws valid_id emoji_length duel duel_id emoji now w = elim (w.sockets ws).address [
  | none ↦ send ws (error "no_address" "say hello first" no_detail) w
  | some address ↦ react_from ws address valid_id emoji_length duel duel_id emoji now w
]
