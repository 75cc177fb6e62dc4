-- ===== src/Matchmaking/Joining/Races.antt =====
-- apps/server/src/ws/matchmaking.ts: what a `joinQueue` does when other handlers have run during
-- its waits.
use flicky.Prelude.{ℕ, suc, String, ◌≡◌, refl, ap, ◌∙◌, true, none, some, [], ◌∷◌, arith}
use flicky.Prelude.{count, count-append}
use flicky.Prelude.Int.{ℤ}
use flicky.Env.{Env}
use flicky.Protocol.{Tier, creator, challenger, match_found}
use flicky.Matchmaking.{World}
use flicky.Matchmaking.Joining.Counts.{contains-count, count-splice_out}
use flicky.Prelude.{==_refl}
use flicky.Matchmaking.Pairing.{Matching, match_pair, or_blank, deck_ready}
use flicky.Matchmaking.Joining.{
  Choosing, opponent, still_joining, wait_in_queue, pair_with, join_finish,
}
use flicky.Matchmaking.Joining.Queued.{same_tier_refl}

join_finish-waits :
    (env : Env) (ch : Choosing) (rating_of : String → ℤ) (w : World)
    → opponent env ch rating_of ≡ none
    → join_finish env ch rating_of w ≡ (wait_in_queue ch w, none)
unfolding join_finish
join_finish-waits env ch rating_of w e = rw (e, join_finish) refl

join_finish-pairs :
    (env : Env) (ch : Choosing) (rating_of : String → ℤ) (w : World) (k : ℕ)
    → opponent env ch rating_of ≡ some k
    → join_finish env ch rating_of w ≡ pair_with k ch w
unfolding join_finish
join_finish-pairs env ch rating_of w k e = rw (e, join_finish) refl

wait_in_queue-count :
    (ch : Choosing) (ws : ℕ) (tier : Tier) (w : World)
    → ch.ws ≡ ws
    → ch.tier ≡ tier
    → still_joining (w.sockets ws) tier ≡ true
    → (count ws ((wait_in_queue ch w).queues tier) ≡ suc (count ws (w.queues tier)))
      × ((wait_in_queue ch w).sockets ≡ w.sockets)
unfolding wait_in_queue
wait_in_queue-count ch ws tier w s t h =
    rw (s, t, wait_in_queue, h)
      (ground (arith, same_tier_refl tier, count-append ws (w.queues tier) (ws ∷ [])), refl)

-- Two `joinQueue`s of one socket, neither of which finds an opponent, put it in the queue twice.
queued_twice :
    (env : Env) (ch ch' : Choosing) (rating_of rating_of' : String → ℤ) (w : World)
    → opponent env ch rating_of ≡ none
    → opponent env ch' rating_of' ≡ none
    → ch'.ws ≡ ch.ws
    → ch'.tier ≡ ch.tier
    → still_joining (w.sockets ch.ws) ch.tier ≡ true
    → let w' = (join_finish env ch' rating_of' (join_finish env ch rating_of w).0).0 in
      count ch.ws (w'.queues ch.tier) ≡ suc (suc (count ch.ws (w.queues ch.tier)))
queued_twice env ch ch' rating_of rating_of' w e e' s t h =
    let (n, same) = wait_in_queue-count ch ch.ws ch.tier w refl refl h in
    let (n', _) = wait_in_queue-count ch' ch.ws ch.tier (wait_in_queue ch w) s t (rw same h) in
    rw
      (
        join_finish-waits env ch rating_of w e,
        join_finish-waits env ch' rating_of' (wait_in_queue ch w) e',
      )
      (n' ∙ ap suc n)

pair_with-outcome :
    (k : ℕ) (ch : Choosing) (w : World)
    → ((pair_with k ch w).0.pending_pair_timers ≡ w.pending_pair_timers)
      × (((pair_with k ch w).0.outbox ≡ w.outbox)
          × ((pair_with k ch w).1
              ≡ some (record {
                creator_ws = k;
                challenger_ws = ch.ws;
                tier = ch.tier;
                creator_addr = (w.sockets k).address;
                challenger_addr = (w.sockets ch.ws).address;
              })))
unfolding pair_with match_pair
pair_with-outcome k ch w = (refl, (refl, ground arith))

-- The opponent that stands in the queue once leaves it, with its mark, and no pair is remembered.
pair_with-leaves :
    (k : ℕ) (ch : Choosing) (w : World)
    → count k (w.queues ch.tier) ≡ 1
    → (count k ((pair_with k ch w).0.queues ch.tier) ≡ 0)
      × ((((pair_with k ch w).0.sockets k).queued_tier ≡ none)
          × ((pair_with k ch w).0.pending_pairs ≡ w.pending_pairs))
unfolding pair_with match_pair
pair_with-leaves k ch w h = (
  ground (
    arith,
    count-splice_out k k (w.queues ch.tier)
        (ground (arith, contains-count k (w.queues ch.tier), h)),
    ==_refl k,
    h,
    same_tier_refl ch.tier,
  ),
  (ground (arith, ==_refl k), refl),
)

-- A player whose socket closed during the waits is paired all the same, with an opponent that
-- stands in the queue once: the opponent is out of the queue, without its mark, and is told of a
-- match with nobody, while no pair and no timer is added, so that nothing ends it.
pub matched_with_nobody :
    (env : Env) (ch : Choosing) (rating_of : String → ℤ) (w : World) (k : ℕ) (m : Matching)
    (hash : String) (n : ℕ)
    → opponent env ch rating_of ≡ some k
    → (w.sockets ch.ws).address ≡ none
    → count k (w.queues ch.tier) ≡ 1
    → (join_finish env ch rating_of w).1 ≡ some m
    → let w' = deck_ready m hash n (join_finish env ch rating_of w).0 in
      ((count k (w'.queues ch.tier) ≡ 0) × ((w'.sockets k).queued_tier ≡ none))
      × (((w'.pending_pairs ≡ w.pending_pairs) × (w'.pending_pair_timers ≡ w.pending_pair_timers))
          × (w'.outbox
              ≡ (ch.ws, match_found ch.tier challenger (or_blank (w.sockets k).address) hash n)
                ∷ (k, match_found ch.tier creator "" hash n)
                ∷ w.outbox))
unfolding deck_ready
matched_with_nobody env ch rating_of w k m hash n e gone once p =
    let pairs = join_finish-pairs env ch rating_of w k e in
    let told = pair_with-outcome k ch w in
    let left = pair_with-leaves k ch w once in
    (
      (ground (arith, told, left, pairs), ground (arith, told, left, pairs)),
      (
        (ground (arith, told, left, pairs), ground (arith, told, left, pairs)),
        ground (arith, told, pairs),
      ),
    )
