-- ===== src/Handlers/Messages/Spent.antt =====
-- apps/server/src/ws/handlers.ts: what a message takes from the rate limiter.
use flicky.Prelude.{
  ℕ, String, ◌≡◌, refl, ap, ◌∙◌, ◌≢◌, inl, inr, Option, none, some, arith, eq_iff, Option-cases,
}
use flicky.Prelude.Maps.{lookup, lookup-insert}
use flicky.Protocol.{valid_tier}
use flicky.Ratelimit.{Limiter, Bucket, Outcome, ok, denied, bucket_key, use_bucket, consume}
use flicky.Handlers.{Next, rate_key, handle_queue_join}
use flicky.Handlers.Messages.{
  Server, ClientMsg, hello, queue_join, queue_leave, practice_start, room_subscribe,
  room_unsubscribe, chat_send, chat_react, oracle_subscribe, oracle_unsubscribe, spot_subscribe,
  spot_unsubscribe, ping, unknown, Outside, admit, limited, ask_queue, resume_queue, answer,
  message,
}

-- The limit that a message is under.
abbrev pub route_of : Option ClientMsg → Option String
route_of (some (queue_join tier)) = some "ws:queue_join"
route_of (some practice_start) = some "ws:practice_start"
route_of (some (chat_send text)) = some "ws:chat_send"
route_of (some (chat_react duel_id emoji)) = some "ws:chat_react"
route_of (some spot_subscribe) = some "ws:spot_subscribe"
route_of _ = none

-- The bucket of `key` is not that of the limit and the client.
abbrev pub Another : Option String → String → String → Type 0
Another none who key = Unit
Another (some route) who key = bucket_key route who ≢ key

-- The bucket that is stored for a key.
abbrev pub bucket_of : String → Server → Option Bucket
bucket_of key s = lookup key s.limiter.buckets

consume-another :
    (route who key : String) (now : ℕ) (l : Limiter)
    → bucket_key route who ≢ key
    → lookup key (consume route who now l).0.buckets ≡ lookup key l.buckets
unfolding consume
consume-another route who key now l n = elim (Option-cases (lookup route l.configs)) [
  | inl e ↦ rw (e, consume) refl
  | inr (cfg, e) ↦
      let own = bucket_key route who in
      rw (e, consume)
        (ground (
          arith,
          n,
          eq_iff own key,
          lookup-insert own key (use_bucket cfg now (lookup own l.buckets)).0 l.buckets,
        ))
]

module _ (o : Outside) (ws : ℕ) (key : String) where
  abbrev Kept : Server → Server → Type 0
  Kept s t = bucket_of key t ≡ bucket_of key s

  admit-Kept :
      (handle : Server → Server)
      → ((s : Server) → (handle s).limiter ≡ s.limiter)
      → (gate : Outcome) (s : Server) → (admit o ws handle gate s).limiter ≡ s.limiter
  unfolding admit
  admit-Kept handle h ok s = h s
  admit-Kept handle h (denied retry_ms) s = refl

  limited-Kept :
      (route : String) (handle : Server → Server)
      → ((s : Server) → (handle s).limiter ≡ s.limiter)
      → (s : Server) → bucket_key route (rate_key (s.world.sockets ws).address) ≢ key
      → Kept s (limited o route ws handle s)
  unfolding limited
  limited-Kept route handle h s n =
      let who = rate_key (s.world.sockets ws).address in
      let used = consume route who o.now s.limiter in
      ap (λ l. lookup key l.buckets) (admit-Kept handle h used.1 (record s { limiter = used.0 }))
      ∙ consume-another route who key o.now s.limiter n

  ask_queue-Kept :
      (tier : String) (s : Server)
      → bucket_key "ws:queue_join" (rate_key (s.world.sockets ws).address) ≢ key
      → Kept s (ask_queue o ws tier s).0
  unfolding ask_queue handle_queue_join
  ask_queue-Kept tier s n = elim (Option-cases (valid_tier tier)) [
    | inl e ↦ rw (e, handle_queue_join) refl
    | inr (t, e) ↦
        rw (e, handle_queue_join)
          (consume-another "ws:queue_join" (rate_key (s.world.sockets ws).address) key o.now
            s.limiter n)
  ]

message-spends :
    (normalize : String → String) (o : Outside) (ws : ℕ) (msg : Option ClientMsg) (s : Server)
    (key : String)
    → Another (route_of msg) (rate_key (s.world.sockets ws).address) key
    → bucket_of key (message normalize o ws msg s).0 ≡ bucket_of key s
unfolding message answer
message-spends normalize o ws none s key n = refl
message-spends normalize o ws (some (hello address)) s key n = refl
message-spends normalize o ws (some (queue_join tier)) s key n = ask_queue-Kept o ws key tier s n
message-spends normalize o ws (some queue_leave) s key n = refl
message-spends normalize o ws (some practice_start) s key n =
    limited-Kept o ws key "ws:practice_start" _ (λ t. refl) s n
message-spends normalize o ws (some (room_subscribe duel_id)) s key n = refl
message-spends normalize o ws (some (room_unsubscribe duel_id)) s key n = refl
message-spends normalize o ws (some (chat_send text)) s key n =
    limited-Kept o ws key "ws:chat_send" _ (λ t. refl) s n
message-spends normalize o ws (some (chat_react duel_id emoji)) s key n =
    limited-Kept o ws key "ws:chat_react" _ (λ t. refl) s n
message-spends normalize o ws (some (oracle_subscribe ids)) s key n = refl
message-spends normalize o ws (some (oracle_unsubscribe ids)) s key n = refl
message-spends normalize o ws (some spot_subscribe) s key n =
    limited-Kept o ws key "ws:spot_subscribe" _ (λ t. refl) s n
message-spends normalize o ws (some spot_unsubscribe) s key n = refl
message-spends normalize o ws (some ping) s key n = refl
message-spends normalize o ws (some unknown) s key n = refl

-- A message, of any kind and with any answers, leaves every bucket of the rate limiter as it is,
-- but the one whose key is made of its own limit and its sender's address; the senders without an
-- address share the key of `anon`. The parts of a `queue_join` after its waits take nothing.
pub message-spends_own :
    (normalize : String → String) (o : Outside) (ws : ℕ) (msg : Option ClientMsg) (s : Server)
    (key : String)
    → Another (route_of msg) (rate_key (s.world.sockets ws).address) key
    → (bucket_of key (message normalize o ws msg s).0 ≡ bucket_of key s)
      × ((next : Next) (t : Server) → bucket_of key (resume_queue o ws next t).0 ≡ bucket_of key t)
unfolding resume_queue
message-spends_own normalize o ws msg s key n =
    (message-spends normalize o ws msg s key n, λ next t. refl)
