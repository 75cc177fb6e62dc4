-- ===== src/Matchmaking/Joining/Serial.antt =====
-- apps/server/src/ws/matchmaking.ts: a `joinQueue` during whose waits nothing runs.
use flicky.Prelude.{
  ℕ, String, ◌≡◌, refl, ◌≢◌, ◌⊎◌, inl, inr, true, Option, none, some, [], ◌∷◌, arith, Option-cases,
}
use flicky.Prelude.{count, count-append}
use flicky.Prelude.Int.{ℤ}
use flicky.Prelude.Maps.{contains}
use flicky.Env.{Env}
use flicky.Protocol.{Tier, practice, casual, standard, high_roller, starter}
use flicky.Mmr.{find_closest_opponent}
use flicky.Matchmaking.{World}
use flicky.Matchmaking.Leaving.{leave_queue}
use flicky.Matchmaking.Pairing.{Matching, match_pair, is_queued}
use flicky.Matchmaking.Joining.{
  Choosing, waiters, rated, opponent, candidates_now, still_joining, wait_in_queue, pair_with,
  enter_queue, join_named, join_finish, join_queue, join_at_once, own_rating,
}
use flicky.Matchmaking.Joining.Counts.{
  contains-count, count-splice_out, waiters-Stands, opponent_of-contains,
}
use flicky.Matchmaking.Joining.Queued.{
  Queued, once, same_tier_refl, same_tier_eq, leave_queue-Queued,
}
use flicky.Matchmaking.Joining.Gone.{unqueued-none}

-- What a player who has left every queue and asked for `tier` finds.
record Asking (ws : ℕ) (tier : Tier) (w : World) : Type 0 where
  agree :
      (t : Tier) (k : ℕ)
      → k ≢ ws
      → count k (w.queues t) ≡ once (is_queued (w.sockets k).queued_tier t)
  gone : (t : Tier) → count ws (w.queues t) ≡ 0
  asked : (w.sockets ws).queued_tier ≡ some tier
  named : (k : ℕ) → (w.sockets k).address ≡ none → (w.sockets k).queued_tier ≡ none

enter-Asking :
    (ws : ℕ) (tier : Tier) (now : ℕ) (w : World) (a : String)
    → (w.sockets ws).address ≡ some a
    → Queued w
    → Asking ws tier (enter_queue ws tier now w).0
unfolding enter_queue leave_queue
enter-Asking ws tier now w a e q =
    let left = leave_queue-Queued ws w q in
    record {
      agree = λ t k d. ground (arith, left.agree t k, d);
      gone = λ t. ground (arith, left.agree t ws, unqueued-none ws w);
      asked = ground arith;
      named = λ k h. ground (arith, left.named k);
    }

here :
    (ch : Choosing) (w : World)
    → Asking ch.ws ch.tier w
    → still_joining (w.sockets ch.ws) ch.tier ≡ true
here ch w q = ground (arith, q.asked, q.named ch.ws, same_tier_refl ch.tier)

wait_in_queue-Queued :
    (ch : Choosing) (w : World) → Asking ch.ws ch.tier w → Queued (wait_in_queue ch w)
unfolding wait_in_queue
wait_in_queue-Queued ch w q =
    rw (here ch w q, wait_in_queue)
      (record {
        agree = λ t k. ground (
          arith,
          q.agree t k,
          q.gone t,
          q.asked,
          count-append k (w.queues ch.tier) (ch.ws ∷ []),
          same_tier_eq t ch.tier,
          same_tier_eq ch.tier t,
          same_tier_refl t,
        );
        named = λ k a. q.named k a;
      })

pair_with-Queued :
    (k : ℕ) (ch : Choosing) (w : World)
    → contains k (w.queues ch.tier) ≡ true
    → Asking ch.ws ch.tier w
    → Queued (pair_with k ch w).0
unfolding pair_with match_pair
pair_with-Queued k ch w h q = record {
  agree = λ t j. ground (
    arith,
    q.agree t j,
    q.gone t,
    h,
    contains-count k (w.queues ch.tier),
    count-splice_out k j (w.queues ch.tier),
    q.agree ch.tier k,
    q.gone ch.tier,
    same_tier_eq t ch.tier,
    same_tier_eq ch.tier t,
    same_tier_refl t,
  );
  named = λ j a. ground (arith, q.named j);
}

abbrev pub Apart : Matching → Type 0
Apart m = m.creator_ws ≢ m.challenger_ws

abbrev pub AllApart : Option Matching → Type 0
AllApart none = Unit
AllApart (some m) = Apart m

pair_with-Apart :
    (k : ℕ) (ch : Choosing) (w : World)
    → contains k (w.queues ch.tier) ≡ true
    → Asking ch.ws ch.tier w
    → AllApart (pair_with k ch w).1
unfolding pair_with match_pair
pair_with-Apart k ch w h q =
    λ same. ground (arith, q.gone ch.tier, same, h, contains-count k (w.queues ch.tier))

join_named-Asking :
    (ws : ℕ) (tier : Tier) (now : ℕ) (w : World) (a : String)
    → (w.sockets ws).address ≡ some a
    → Queued w
    → (Queued (join_named ws tier now w).0 × ((join_named ws tier now w).1 ≡ none))
      ⊎ (Asking ws tier (join_named ws tier now w).0
          × ((join_named ws tier now w).1 ≡ some (record { ws = ws; tier = tier })))
unfolding join_named
join_named-Asking ws practice now w a e q = inl (record { agree = q.agree; named = q.named }, refl)
join_named-Asking ws casual now w a e q = inr (enter-Asking ws casual now w a e q, refl)
join_named-Asking ws standard now w a e q = inr (enter-Asking ws standard now w a e q, refl)
join_named-Asking ws high_roller now w a e q = inr (enter-Asking ws high_roller now w a e q, refl)
join_named-Asking ws starter now w a e q = inr (enter-Asking ws starter now w a e q, refl)

join_queue-Asking :
    (ws : ℕ) (tier : Tier) (now : ℕ) (w : World)
    → Queued w
    → (Queued (join_queue ws tier now w).0 × ((join_queue ws tier now w).1 ≡ none))
      ⊎ (Asking ws tier (join_queue ws tier now w).0
          × ((join_queue ws tier now w).1 ≡ some (record { ws = ws; tier = tier })))
unfolding join_queue enter_queue
join_queue-Asking ws tier now w q = elim (Option-cases (w.sockets ws).address) [
  | inl e ↦ rw (e, join_queue) (inl (record { agree = q.agree; named = q.named }, refl))
  | inr (a, e) ↦ rw (e, join_queue) (join_named-Asking ws tier now w a e q)
]

opponent-contains :
    (env : Env) (ch : Choosing) (rating_of : String → ℤ) (own : Option String) (w : World) (k : ℕ)
    → ch.candidates ≡ waiters own w.sockets (w.queues ch.tier)
    → opponent env ch rating_of ≡ some k
    → contains k (w.queues ch.tier) ≡ true
unfolding opponent
opponent-contains env ch rating_of own w k c e =
    opponent_of-contains w.sockets (w.queues ch.tier) ch.candidates
      (find_closest_opponent env ch.now ch.my_rating ch.my_queued_at_ms
        (rated rating_of ch.candidates))
      k (rw c (waiters-Stands own w.sockets (w.queues ch.tier))) e

join_finish-Queued :
    (env : Env) (ch : Choosing) (rating_of : String → ℤ) (own : Option String) (w : World)
    → ch.candidates ≡ waiters own w.sockets (w.queues ch.tier)
    → Asking ch.ws ch.tier w
    → Queued (join_finish env ch rating_of w).0 × AllApart (join_finish env ch rating_of w).1
unfolding join_finish
join_finish-Queued env ch rating_of own w c q = elim (Option-cases (opponent env ch rating_of)) [
  | inl e ↦ rw (e, join_finish) (wait_in_queue-Queued ch w q, tt)
  | inr (k, e) ↦
      let there = opponent-contains env ch rating_of own w k c e in
      rw (e, join_finish) (pair_with-Queued k ch w there q, pair_with-Apart k ch w there q)
]

pub join_at_once-Queued :
    (env : Env) (rating_of : String → ℤ) (ws : ℕ) (tier : Tier) (now : ℕ) (w : World)
    → Queued w
    → Queued (join_at_once env rating_of ws tier now w).0
      × AllApart (join_at_once env rating_of ws tier now w).1
unfolding join_at_once candidates_now
join_at_once-Queued env rating_of ws tier now w q = elim (join_queue-Asking ws tier now w q) [
  | inl (s, e) ↦ rw (e, join_at_once) (s, tt)
  | inr (s, e) ↦
      let w' = (join_queue ws tier now w).0 in
      let own = own_rating env rating_of (w.sockets ws).address in
      rw (e, join_at_once)
        (join_finish-Queued env (candidates_now (record { ws = ws; tier = tier }) own now w')
          rating_of (w'.sockets ws).address w' refl s)
]
