-- ===== src/Matchmaking/Pairing.antt =====
-- apps/server/src/ws/matchmaking.ts: what happens to two sockets that were taken out of the queue
-- for one another. `matchPair` waits once, for the deck: `match_pair` is what runs before, and
-- `deck_ready` and `deck_failed` are the two ways in which it goes on.
use flicky.Prelude.{
  ℕ, ◌-◌, String, Bool, false, ◌&&◌, Option, none, some, List, [], ◌∷◌, ◌++◌, ◌==◌, if◌then◌else◌,
}
use flicky.Prelude.{length}
use flicky.Prelude.Maps.{lookup, insert, delete, contains}
use flicky.Protocol.{Tier, creator, challenger, queue_status, match_found, error, no_detail}
use flicky.Matchmaking.{World, Retry, set_socket, send}
use flicky.Matchmaking.Leaving.{same_tier, set_queue, splice_out}

-- A pairing that waits for its deck, with the addresses that it read at its start.
pub record Matching : Type 0 where
  pub creator_ws : ℕ
  pub challenger_ws : ℕ
  pub tier : Tier
  pub creator_addr : Option String
  pub challenger_addr : Option String

abbrev pub unqueued : ℕ → World → World
unqueued ws w = set_socket ws (record (w.sockets ws) { queued_tier = none }) w

unfoldable pub match_pair : ℕ → ℕ → Tier → World → World × Matching
match_pair creator_ws challenger_ws tier w =
    let w' = unqueued challenger_ws (unqueued creator_ws w) in
    (
      w',
      record {
        creator_ws = creator_ws;
        challenger_ws = challenger_ws;
        tier = tier;
        creator_addr = (w'.sockets creator_ws).address;
        challenger_addr = (w'.sockets challenger_ws).address;
      },
    )

-- `ws.data.queuedAt` is falsy when it is 0.
abbrev queued_since : ℕ → ℕ → ℕ
queued_since now queued_at = if queued_at == 0 then now else queued_at

push_once : ℕ → List ℕ → List ℕ
push_once ws q = if contains ws q then q else q ++ ws ∷ []

put_in_queue : ℕ → Tier → ℕ → World → World
unfolding push_once
put_in_queue ws tier now w =
    let since = queued_since now (w.sockets ws).queued_at in
    let q = push_once ws (w.queues tier) in
    send ws (queue_status tier (length q) (now - since)) (
      set_socket ws (record (w.sockets ws) { queued_tier = some tier; queued_at = since })
        (set_queue tier q w))

abbrev requeue_unless : Option Tier → ℕ → Tier → ℕ → World → World
requeue_unless none ws tier now w = put_in_queue ws tier now w
requeue_unless (some t) ws tier now w = w

unfoldable pub requeue : ℕ → Tier → ℕ → World → World
unfolding put_in_queue
requeue ws tier now w = elim (w.sockets ws).address [
  | none ↦ w
  | some addr ↦ requeue_unless (w.sockets ws).queued_tier ws tier now w
]

-- `msg` is the text that the source builds from the exception.
unfoldable pub deck_failed : Matching → (msg : String) → (now : ℕ) → World → World
unfolding requeue
deck_failed m msg now w =
    let a = m.creator_ws in
    let b = m.challenger_ws in
    let w' = requeue b m.tier now (requeue a m.tier now w) in
    let told =
      send b (error "match_setup_failed" msg no_detail)
        (send a (error "match_setup_failed" msg no_detail) w') in
    record told { retries = w'.retries ++ record { a = a; b = b; tier = m.tier } ∷ [] }

abbrev pub or_blank : Option String → String
or_blank none = ""
or_blank (some addr) = addr

-- The pairing is remembered, and torn down later, only where both addresses are known.
-- `armHandshakeTimeout` clears the creator's timer and sets a new one.
abbrev remember_pair : Option String → Option String → ℕ → ℕ → World → World
remember_pair none b creator_ws challenger_ws w = w
remember_pair (some a) none creator_ws challenger_ws w = w
remember_pair (some a) (some b) creator_ws challenger_ws w = record w {
  pending_pairs = insert a b w.pending_pairs;
  pending_pair_timers = insert a (creator_ws, challenger_ws) w.pending_pair_timers;
}

unfoldable pub deck_ready : Matching → (deck_hash : String) → (deck_size : ℕ) → World → World
deck_ready m deck_hash deck_size w =
    let a = m.creator_addr in
    let b = m.challenger_addr in
    send m.challenger_ws (match_found m.tier challenger (or_blank a) deck_hash deck_size) (
      send m.creator_ws (match_found m.tier creator (or_blank b) deck_hash deck_size)
        (remember_pair a b m.creator_ws m.challenger_ws w))

abbrev pub abandoned : String
abandoned = "the other player never confirmed the match — head back and queue again"

-- The callback of the creator's timer, which runs only while the entry is there.
unfoldable pub handshake_fires : String → World → World
handshake_fires creator_addr w = elim (lookup creator_addr w.pending_pair_timers) [
  | none ↦ w
  | some (a, b) ↦
      let w' = record w { pending_pair_timers = delete creator_addr w.pending_pair_timers } in
      elim (lookup creator_addr w.pending_pairs) [
        | none ↦ w'
        | some challenger_addr ↦ send b (error "match_abandoned" abandoned no_detail) (
            send a (error "match_abandoned" abandoned no_detail)
              (record w' { pending_pairs = delete creator_addr w.pending_pairs }))
      ]
]

unfoldable pub take_matched_pair : String → World → World × Option String
take_matched_pair creator_addr w = (
  record w {
    pending_pairs = delete creator_addr w.pending_pairs;
    pending_pair_timers = delete creator_addr w.pending_pair_timers;
  },
  lookup creator_addr w.pending_pairs,
)

abbrev pub is_queued : Option Tier → Tier → Bool
is_queued none tier = false
is_queued (some t) tier = same_tier t tier

-- The callback of `scheduleRetryPair`: the pair is matched again if both still wait.
unfoldable pub retry_pair : Retry → World → World × Option Matching
unfolding match_pair
retry_pair r w =
    let q = w.queues r.tier in
    let taken = set_queue r.tier (splice_out r.b (splice_out r.a q)) w in
    let matched = match_pair r.a r.b r.tier taken in
    if is_queued (w.sockets r.a).queued_tier r.tier
      && is_queued (w.sockets r.b).queued_tier r.tier
      && contains r.a q
      && contains r.b q
    then (matched.0, some matched.1)
    else (w, none)

-- All these timers run for as long: the first that was set fires first, and once.
unfoldable pub retry_fires : World → World × Option Matching
retry_fires w = elim w.retries [
  | [] ↦ (w, none)
  | r ∷ rest ↦ retry_pair r (record w { retries = rest })
]
