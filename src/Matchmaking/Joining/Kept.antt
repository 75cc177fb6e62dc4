-- ===== src/Matchmaking/Joining/Kept.antt =====
-- apps/server/src/ws/matchmaking.ts: every turn of an undisturbed history keeps the queues in
-- agreement with the sockets.
use flicky.Prelude.{
  ℕ, zero, suc, String, ◌≡◌, refl, sym, ap, ◌∙◌, inl, inr, ◌&&◌, Option, none, some, List, [], ◌∷◌,
  arith, Bool-cases, Option-cases,
}
use flicky.Prelude.{All}
use flicky.Prelude.Int.{ℤ}
use flicky.Prelude.Maps.{contains}
use flicky.Env.{Env}
use flicky.Protocol.{Tier}
use flicky.Matchmaking.{World, Retry}
use flicky.Matchmaking.Registry.{register_address, unregister_address}
use flicky.Matchmaking.Closing.{on_socket_close, clear_duels}
use flicky.Matchmaking.Leaving.{leave_queue}
use flicky.Matchmaking.Pairing.{
  Matching, match_pair, is_queued, requeue, deck_failed, retry_pair, retry_fires,
}
use flicky.Matchmaking.Joining.{Choosing, join_finish, join_queue, join_at_once}
use flicky.Matchmaking.Joining.Queued.{
  Queued, SameQueues, Queued-of_same, retry_pair-Queued, Distinct,
}
use flicky.Matchmaking.Joining.Gone.{close_rooms-same}
use flicky.Matchmaking.Joining.Serial.{Apart, AllApart}
use mathlib.Core.Path.{subst}
use flicky.Prelude.{All-append, List-cases}
use flicky.Matchmaking.Joining.Turns.{Serving, taken, also, with_taken, Orderly}

-- A handler that only moves sockets about, and leaves the retries as they are.
pub settled :
    (s : Serving) (w : World)
    → Queued w
    → w.retries ≡ s.world.retries
    → Orderly s
    → Orderly (record s { world = w })
settled s w q e o = record { queued = q; making = o.making; retries = rw e o.retries }

pub also-Orderly :
    (ms : List Matching) (w : World) (m : Option Matching)
    → Queued w
    → AllApart m
    → All Apart ms
    → All Distinct w.retries
    → Orderly (also ms (w, m))
also-Orderly ms w none q a h r = record { queued = q; making = h; retries = r }
also-Orderly ms w (some m) q a h r = record { queued = q; making = (a, h); retries = r }

taken-All :
    (n : ℕ) (ms : List Matching) (p : Matching × List Matching)
    → taken n ms ≡ some p
    → All Apart ms
    → Apart p.0 × All Apart p.1
taken-All n [] p e h = cc
taken-All zero (m ∷ ms) p e h =
    let same : (m, ms) ≡ p = ground arith in subst (λ x. Apart x.0 × All Apart x.1) same h
taken-All (suc n) (m ∷ ms) p e h = elim (Option-cases (taken n ms)) [
  | inl f ↦ ground arith
  | inr (r, f) ↦
      let (a, k) = taken-All n ms r f h.1 in
      let same : (r.0, m ∷ r.1) ≡ p = ground arith in
      subst (λ x. Apart x.0 × All Apart x.1) same (a, (h.0, k))
]

pub with_taken-Orderly :
    (n : ℕ) (go : Matching → World → World) (s : Serving)
    → ((m : Matching) → Apart m → Queued (go m s.world) × All Distinct (go m s.world).retries)
    → Orderly s
    → Orderly (with_taken n go s)
with_taken-Orderly n go s keep o = elim (Option-cases (taken n s.making)) [
  | inl e ↦ rw (e, with_taken) o
  | inr (p, e) ↦
      let (a, h) = taken-All n s.making p e o.making in
      rw (e, with_taken) (record { queued = (keep p.0 a).0; making = h; retries = (keep p.0 a).1 })
]

requeue-retries :
    (ws : ℕ) (tier : Tier) (now : ℕ) (w : World) → (requeue ws tier now w).retries ≡ w.retries
unfolding requeue
requeue-retries ws tier now w = ground arith

pub deck_failed-retries :
    (m : Matching) (msg : String) (now : ℕ) (w : World)
    → Apart m
    → All Distinct w.retries
    → All Distinct (deck_failed m msg now w).retries
unfolding deck_failed
deck_failed-retries m msg now w a h =
    let w' = requeue m.creator_ws m.tier now w in
    rw (requeue-retries m.challenger_ws m.tier now w', requeue-retries m.creator_ws m.tier now w)
      (All-append Distinct w.retries _ h (a, tt))

retry_pair-retries : (r : Retry) (w : World) → (retry_pair r w).0.retries ≡ w.retries
unfolding retry_pair match_pair
retry_pair-retries r w = ground arith

retry_pair-AllApart : (r : Retry) (w : World) → Distinct r → AllApart (retry_pair r w).1
unfolding retry_pair match_pair
retry_pair-AllApart r w d =
    elim (Bool-cases (
      is_queued (w.sockets r.a).queued_tier r.tier
      && is_queued (w.sockets r.b).queued_tier r.tier
      && contains r.a (w.queues r.tier)
      && contains r.b (w.queues r.tier))) [
        | inl e ↦ rw (e, retry_pair) d
        | inr e ↦ rw (e, retry_pair) tt
      ]

pub retry_fires-Orderly : (s : Serving) → Orderly s → Orderly (also s.making (retry_fires s.world))
unfolding retry_fires
retry_fires-Orderly s o = elim (List-cases s.world.retries) [
  | inl e ↦ rw (e, retry_fires) (settled s s.world o.queued refl o)
  | inr (r, (rest, e)) ↦
      let w = record s.world { retries = rest } in
      let (d, ds) : Distinct r × All Distinct rest = subst (All Distinct) e o.retries in
      let q : Queued w = record { agree = o.queued.agree; named = o.queued.named } in
      rw (e, retry_fires)
        (also-Orderly s.making (retry_pair r w).0 (retry_pair r w).1 (retry_pair-Queued r w d q)
          (retry_pair-AllApart r w d) o.making (rw (retry_pair-retries r w) ds))
]

join_queue-retries :
    (ws : ℕ) (tier : Tier) (now : ℕ) (w : World) → (join_queue ws tier now w).0.retries ≡ w.retries
unfolding join_queue leave_queue
join_queue-retries ws tier now w = ground arith

join_finish-retries :
    (env : Env) (ch : Choosing) (rating_of : String → ℤ) (w : World)
    → (join_finish env ch rating_of w).0.retries ≡ w.retries
unfolding join_finish
join_finish-retries env ch rating_of w = ground arith

pub join_at_once-retries :
    (env : Env) (rating_of : String → ℤ) (ws : ℕ) (tier : Tier) (now : ℕ) (w : World)
    → (join_at_once env rating_of ws tier now w).0.retries ≡ w.retries
unfolding join_at_once
join_at_once-retries env rating_of ws tier now w =
    elim (Option-cases (join_queue ws tier now w).1) [
      | inl e ↦ rw (e, join_at_once) (join_queue-retries ws tier now w)
      | inr (j, e) ↦
          rw (e, join_at_once)
            (join_finish-retries env _ rating_of (join_queue ws tier now w).0
              ∙ join_queue-retries ws tier now w)
    ]

pub on_socket_close-retries :
    (env : Env) (ws : ℕ) (w : World) → (on_socket_close env ws w).retries ≡ w.retries
unfolding on_socket_close unregister_address clear_duels leave_queue
on_socket_close-retries env ws w =
    let left = leave_queue ws w in
    ground (
      arith,
      (close_rooms-same env ws (left.sockets ws).address (left.sockets ws).subscribed_duels left).1,
    )

pub register_address-retries :
    (ws : ℕ) (address : String) (w : World) → (register_address ws address w).retries ≡ w.retries
unfolding register_address unregister_address
register_address-retries ws address w = ground arith

pub leave_queue-retries : (ws : ℕ) (w : World) → (leave_queue ws w).retries ≡ w.retries
unfolding leave_queue
leave_queue-retries ws w = ground arith

abbrev pub Keeps : World → World → Type 0
Keeps w w' = (w'.queues ≡ w.queues) × ((w'.sockets ≡ w.sockets) × (w'.retries ≡ w.retries))

pub Keeps-Queued : (w w' : World) → Keeps w w' → Queued w → Queued w'
Keeps-Queued w w' (a, (b, e)) q = Queued-of_same w w' same q
  where
    same : SameQueues w w'
    same = record {
      queues = λ t. ap (λ f. f t) a;
      queued = λ k. ap (λ f. (f k).queued_tier) b;
      named = λ k h. inl (sym (ap (λ f. (f k).address) b) ∙ h);
    }

pub Keeps-Orderly :
    (s : Serving) (w : World) → Keeps s.world w → Orderly s → Orderly (record s { world = w })
Keeps-Orderly s w h o = settled s w (Keeps-Queued s.world w h o.queued) h.1.1 o
