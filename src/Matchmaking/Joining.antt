-- ===== src/Matchmaking/Joining.antt =====
-- apps/server/src/ws/matchmaking.ts: `joinQueue`. It waits twice, for the player's own rating and
-- for those of the candidates, and other handlers run in between: `join_queue`, `candidates_now`
-- and `join_finish` are the three parts, and what is carried over a wait is a record.
pub mod Counts
pub mod Queued
pub mod Gone
pub mod Serial
pub mod Turns
pub mod Kept
pub mod Undisturbed
pub mod Races
use flicky.Prelude.{
  ℕ, zero, suc, ◌+◌, ◌-◌, ◌*◌, ◌/◌, ◌%◌, ◌^◌, ◌≤◌, ◌<◌, String, ◌≡◌, refl, sym, ap, ◌∙◌, ◌≢◌, ◌↔◌,
  ◌⊎◌, inl, inr, Bool, true, false, not, ◌&&◌, ◌||◌, Option, none, some, List, [], ◌∷◌, ◌++◌, map,
  arith, eq_iff, ltb, leb, ◌==◌, str_eq, str_eq_refl, if◌then◌else◌, Bool-cases, Option-cases,
  ==_iff, ==_refl, ltb→lt, leb→le, le→leb,
}
use flicky.Prelude.{length, find}
use flicky.Prelude.Int.{ℤ, pos}
use flicky.Env.{Env}
use flicky.Mmr.{Candidate, Rated, find_closest_opponent}
use flicky.Protocol.{Tier, practice, queue_status, error, no_detail}
use flicky.Matchmaking.{World, SocketState, set_socket, send}
use flicky.Matchmaking.Leaving.{same_tier, set_queue, splice_out, leave_queue}
use flicky.Matchmaking.Pairing.{Matching, match_pair}

-- A player whose own rating is being read.
pub record Joining : Type 0 where
  pub ws : ℕ
  pub tier : Tier

-- A socket of the queue that may be paired.
pub record Waiter : Type 0 where
  pub ws : ℕ
  pub c : Candidate

-- A player for whom the ratings of the candidates are being read.
pub record Choosing : Type 0 where
  pub ws : ℕ
  pub tier : Tier
  pub my_rating : ℤ
  pub my_queued_at_ms : ℕ
  pub now : ℕ
  pub candidates : List Waiter

pub no_address_text : String
no_address_text = "send `hello` with your address first"

pub practice_text : String
practice_text = "use `practice_start` for solo-vs-bot practice; the queue is human-vs-human"

unfoldable pub enter_queue : ℕ → Tier → ℕ → World → World × Option Joining
enter_queue ws tier now w =
    let left = leave_queue ws w in
    let s = record (left.sockets ws) { queued_tier = some tier; queued_at = now } in
    (set_socket ws s left, some (record { ws = ws; tier = tier }))

unfoldable pub join_named : ℕ → Tier → ℕ → World → World × Option Joining
unfolding enter_queue
join_named ws practice now w = (send ws (error "practice_no_queue" practice_text no_detail) w, none)
join_named ws tier now w = enter_queue ws tier now w

unfoldable pub join_queue : ℕ → Tier → ℕ → World → World × Option Joining
unfolding join_named
join_queue ws tier now w = elim (w.sockets ws).address [
  | none ↦ (send ws (error "no_address" no_address_text no_detail) w, none)
  | some addr ↦ join_named ws tier now w
]

abbrev differs : Option String → String → Bool
differs none a = true
differs (some own) a = not (str_eq a own)

-- `filter` by an address that is not the player's own, and `map`
unfoldable pub waiters : Option String → (ℕ → SocketState) → List ℕ → List Waiter
waiters own sockets [] = []
waiters own sockets (k ∷ q) =
    let rest = waiters own sockets q in
    elim (sockets k).address [
      | none ↦ rest
      | some a ↦
          let c : Candidate = record { address = a; queued_at_ms = (sockets k).queued_at } in
          if differs own a then record { ws = k; c = c } ∷ rest else rest
    ]

-- The part between the two waits; it changes nothing.
unfoldable pub candidates_now : Joining → (my_rating : ℤ) → (now : ℕ) → World → Choosing
unfolding waiters
candidates_now j my_rating now w = record {
  ws = j.ws;
  tier = j.tier;
  my_rating = my_rating;
  my_queued_at_ms = (w.sockets j.ws).queued_at;
  now = now;
  candidates = waiters (w.sockets j.ws).address w.sockets (w.queues j.tier);
}

-- The candidates with the ratings that were read.
abbrev pub rated : (String → ℤ) → List Waiter → List Rated
rated rating_of [] = []
rated rating_of (x ∷ xs) = record { c = x.c; rating = rating_of x.c.address } ∷ rated rating_of xs

-- `candidates.find((c) => c.address === pick.address)?.ws`
abbrev pub opponent_of : List Waiter → Option Rated → Option ℕ
opponent_of candidates none = none
opponent_of candidates (some pick) =
    elim (find (λ x. str_eq x.c.address pick.c.address) candidates) [
      | none ↦ none
      | some x ↦ some x.ws
    ]

unfoldable pub opponent : Env → Choosing → (String → ℤ) → Option ℕ
opponent env ch rating_of = opponent_of ch.candidates (
    find_closest_opponent env ch.now ch.my_rating ch.my_queued_at_ms
      (rated rating_of ch.candidates))

abbrev pub still_joining : SocketState → Tier → Bool
still_joining s tier = elim s.address [
  | none ↦ false
  | some a ↦ elim s.queued_tier [ none ↦ false | some t ↦ same_tier t tier ]
]

-- Nobody is close enough yet: the player waits, unless the socket has closed or left meanwhile.
unfoldable pub wait_in_queue : Choosing → World → World
wait_in_queue ch w =
    let q = w.queues ch.tier ++ ch.ws ∷ [] in
    if still_joining (w.sockets ch.ws) ch.tier
    then send ch.ws (queue_status ch.tier (length q) 0) (set_queue ch.tier q w)
    else w

-- The opponent is taken out of the queue as it is now.
unfoldable pub pair_with : ℕ → Choosing → World → World × Option Matching
unfolding match_pair
pair_with k ch w =
    let (w', m) =
      match_pair k ch.ws ch.tier (set_queue ch.tier (splice_out k (w.queues ch.tier)) w) in
    (w', some m)

unfoldable pub join_finish : Env → Choosing → (String → ℤ) → World → World × Option Matching
unfolding opponent wait_in_queue pair_with
join_finish env ch rating_of w = elim (opponent env ch rating_of) [
  | none ↦ (wait_in_queue ch w, none)
  | some k ↦ pair_with k ch w
]

-- `ws.data.address ? (await getPlayerRating(ws.data.address)).rating : env.mmrInitialRating`
abbrev pub own_rating : Env → (String → ℤ) → Option String → ℤ
own_rating env rating_of none = pos env.mmr_initial_rating
own_rating env rating_of (some a) = rating_of a

-- The three parts with nothing in between, as they run when no other handler is active.
unfoldable pub join_at_once : Env → (String → ℤ) → ℕ → Tier → ℕ → World → World × Option Matching
unfolding join_queue candidates_now
join_at_once env rating_of ws tier now w =
    let started = join_queue ws tier now w in
    let own = own_rating env rating_of (w.sockets ws).address in
    elim started.1 [
      | none ↦ (started.0, none)
      | some j ↦ join_finish env (candidates_now j own now started.0) rating_of started.0
    ]
