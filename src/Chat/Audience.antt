-- ===== src/Chat/Audience.antt =====
-- apps/server/src/ws/chat.ts: who gets a reaction.
use flicky.Prelude.{
  ℕ, ◌+◌, String, ◌≡◌, refl, ◌≢◌, inl, inr, Bool, true, false, ◌&&◌, some, List, [], ◌∷◌, arith,
  eq_iff, ◌==◌, Option-cases,
}
use flicky.Prelude.{times, count}
use flicky.Prelude.Buckets.{members}
use flicky.Duel.{DuelRow}
use flicky.Protocol.{ServerMsg, chat_reaction}
use flicky.Matchmaking.{World, send_each, has_address}
use flicky.Matchmaking.Registry.{send_to_addresses}
use flicky.Matchmaking.Events.Registered.{Registered}
use flicky.Matchmaking.Joining.Counts.{contains-count}
use flicky.Chat.{react_to, react_from, handle_chat_react}

abbrev pub is_reaction : ServerMsg → Bool
is_reaction (chat_reaction d from emoji t) = true
is_reaction _ = false

reaction : (d from emoji : String) (t : ℕ) → is_reaction (chat_reaction d from emoji t) ≡ true
reaction d from emoji t = refl

-- How many reactions a socket was sent.
abbrev pub received : ℕ → List (ℕ × ServerMsg) → ℕ
received k [] = 0
received k ((ws, msg) ∷ out) = times (ws == k && is_reaction msg) + received k out

send_each-received :
    (k : ℕ) (wss : List ℕ) (msg : ServerMsg) (out : List (ℕ × ServerMsg))
    → is_reaction msg ≡ true
    → received k (send_each wss msg out) ≡ count k wss + received k out
send_each-received k [] msg out h = ground arith
send_each-received k (ws ∷ wss) msg out h =
    ground (arith, h, send_each-received k wss msg ((ws, msg) ∷ out) h)

-- What is sent by address reaches each socket as often as it stands in the two buckets.
two_addresses :
    (k : ℕ) (a b : String) (msg : ServerMsg) (w : World)
    → is_reaction msg ≡ true
    → received k (send_to_addresses (a ∷ b ∷ []) msg w).0.outbox
      ≡ count k (members b w.sockets_by_address)
        + (count k (members a w.sockets_by_address) + received k w.outbox)
unfolding send_to_addresses
two_addresses k a b msg w h = ground (
  arith,
  send_each-received k (members a w.sockets_by_address) msg w.outbox h,
  send_each-received k (members b w.sockets_by_address) msg
      (send_each (members a w.sockets_by_address) msg w.outbox) h,
)

unbound :
    (w : World) (a : String) (k : ℕ)
    → Registered w
    → has_address a (w.sockets k).address ≡ false
    → count k (members a w.sockets_by_address) ≡ 0
unbound w a k r h =
    ground (arith, r.agree a k, h, contains-count k (members a w.sockets_by_address))

-- A reaction in a duel whose players are known reaches nobody but the sockets that are bound to one
-- of the two addresses: any other socket, the sender included, gets no reaction.
pub react-private :
    (ws k : ℕ) (valid_id : Bool) (emoji_length : ℕ) (d : DuelRow) (duel_id emoji : String) (now : ℕ)
    (w : World)
    → Registered w
    → d.creator ≢ ""
    → d.challenger ≢ ""
    → has_address d.creator (w.sockets k).address ≡ false
    → has_address d.challenger (w.sockets k).address ≡ false
    → received k (handle_chat_react ws valid_id emoji_length (some d) duel_id emoji now w).outbox
      ≡ received k w.outbox
unfolding handle_chat_react react_from react_to
react-private ws k valid_id emoji_length d duel_id emoji now w r p q a b =
    elim (Option-cases (w.sockets ws).address) [
      | inl e ↦ rw (e, handle_chat_react) (ground arith)
      | inr (address, e) ↦
          rw (e, handle_chat_react)
            (ground (
              arith,
              eq_iff d.creator "",
              eq_iff d.challenger "",
              p,
              q,
              two_addresses k d.creator d.challenger (chat_reaction duel_id address emoji now) w
                  (reaction duel_id address emoji now),
              unbound w d.creator k r a,
              unbound w d.challenger k r b,
            ))
    ]
