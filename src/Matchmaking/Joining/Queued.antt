-- ===== src/Matchmaking/Joining/Queued.antt =====
-- The queues of apps/server/src/ws/matchmaking.ts agree with the sockets: what the handlers that
-- do not wait keep, and `joinQueue` where nothing runs during its waits.
use flicky.Prelude.{
  ℕ, String, ◌≡◌, refl, ◌∙◌, ◌≢◌, ◌⊎◌, inl, inr, Bool, true, none, [], ◌∷◌, arith, if◌then◌else◌,
  Option-cases,
}
use flicky.Prelude.{count, count-append}
use flicky.Protocol.{Tier, practice, casual, standard, high_roller, starter}
use flicky.Matchmaking.{World, Retry}
use flicky.Matchmaking.Leaving.{same_tier, splice_out, leave_queue}
use flicky.Matchmaking.Pairing.{Matching, match_pair, is_queued, requeue, deck_failed, retry_pair}
use flicky.Matchmaking.Joining.Counts.{contains-count, count-remove_first, count-splice_out}

abbrev pub once : Bool → ℕ
once b = if b then 1 else 0

-- A socket stands in the queue of its `queuedTier`, once, and in no other; it has an address.
pub record Queued (w : World) : Type 0 where
  pub agree :
      (t : Tier) (k : ℕ) → count k (w.queues t) ≡ once (is_queued (w.sockets k).queued_tier t)
  pub named : (k : ℕ) → (w.sockets k).address ≡ none → (w.sockets k).queued_tier ≡ none

pub same_tier_refl : (t : Tier) → same_tier t t ≡ true
same_tier_refl practice = refl
same_tier_refl casual = refl
same_tier_refl standard = refl
same_tier_refl high_roller = refl
same_tier_refl starter = refl

pub same_tier_eq : (t u : Tier) → same_tier t u ≡ true → t ≡ u
same_tier_eq practice practice h = refl
same_tier_eq casual casual h = refl
same_tier_eq standard standard h = refl
same_tier_eq high_roller high_roller h = refl
same_tier_eq starter starter h = refl
same_tier_eq t u h = cc

pub leave_queue-Queued : (ws : ℕ) (w : World) → Queued w → Queued (leave_queue ws w)
unfolding leave_queue
leave_queue-Queued ws w q = elim (Option-cases (w.sockets ws).queued_tier) [
  | inl e ↦ rw (e, leave_queue) q
  | inr (tier, e) ↦
      rw (e, leave_queue)
        (record {
          agree = λ t k. ground (
            arith,
            q.agree t k,
            q.agree tier ws,
            count-remove_first ws k (w.queues tier),
            same_tier_eq t tier,
            same_tier_eq tier t,
            same_tier_refl t,
          );
          named = λ k a. ground (arith, q.named k);
        })
]

-- What moves no socket in or out of a queue.
pub record SameQueues (w w' : World) : Type 0 where
  pub queues : (t : Tier) → w'.queues t ≡ w.queues t
  pub queued : (k : ℕ) → (w'.sockets k).queued_tier ≡ (w.sockets k).queued_tier
  pub named :
      (k : ℕ)
      → (w'.sockets k).address ≡ none
      → (w.sockets k).address ≡ none ⊎ (w.sockets k).queued_tier ≡ none

pub Queued-of_same : (w w' : World) → SameQueues w w' → Queued w → Queued w'
Queued-of_same w w' s q = record {
  agree = λ t k. rw (s.queues t, s.queued k) (q.agree t k);
  named = λ k a. elim (s.named k a) [ inl n ↦ s.queued k ∙ q.named k n | inr n ↦ s.queued k ∙ n ];
}

-- A socket without a tier stands in no queue, and `requeue` puts it at one's end.
requeue-Queued :
    (ws : ℕ) (tier : Tier) (now : ℕ) (w : World) → Queued w → Queued (requeue ws tier now w)
unfolding requeue
requeue-Queued ws tier now w q = elim (Option-cases (w.sockets ws).address) [
  | inl e ↦ rw (e, requeue) q
  | inr (addr, e) ↦ elim (Option-cases (w.sockets ws).queued_tier) [
    | inr (t, f) ↦ rw (e, f, requeue) q
    | inl f ↦
        rw (e, f, requeue)
          (record {
            agree = λ t k. ground (
              arith,
              q.agree t k,
              q.agree tier ws,
              contains-count ws (w.queues tier),
              count-append k (w.queues tier) (ws ∷ []),
              same_tier_eq t tier,
              same_tier_eq tier t,
              same_tier_refl t,
            );
            named = λ k a. ground (arith, q.named k);
          })
  ]
]

pub deck_failed-Queued :
    (m : Matching) (msg : String) (now : ℕ) (w : World)
    → Queued w
    → Queued (deck_failed m msg now w)
unfolding deck_failed
deck_failed-Queued m msg now w q =
    let once_more = requeue-Queued m.creator_ws m.tier now w q in
    let twice =
      requeue-Queued m.challenger_ws m.tier now (requeue m.creator_ws m.tier now w) once_more in
    record { agree = twice.agree; named = twice.named }

abbrev pub Distinct : Retry → Type 0
Distinct r = r.a ≢ r.b

pub retry_pair-Queued : (r : Retry) (w : World) → Distinct r → Queued w → Queued (retry_pair r w).0
unfolding retry_pair match_pair
retry_pair-Queued r w d q = record {
  agree = λ t k. ground (
    arith,
    q.agree t k,
    q.agree r.tier r.a,
    q.agree r.tier r.b,
    d,
    count-splice_out r.a k (w.queues r.tier),
    count-splice_out r.b k (splice_out r.a (w.queues r.tier)),
    contains-count r.b (splice_out r.a (w.queues r.tier)),
    contains-count r.b (w.queues r.tier),
    count-splice_out r.a r.b (w.queues r.tier),
    same_tier_eq t r.tier,
    same_tier_eq r.tier t,
    same_tier_refl t,
  );
  named = λ k a. ground (arith, q.named k);
}
