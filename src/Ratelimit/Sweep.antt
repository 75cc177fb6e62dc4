-- ===== src/Ratelimit/Sweep.antt =====
-- The periodic sweep of apps/server/src/ratelimit.ts: which buckets it may drop unseen, and which
-- it drops although they still constrain a client.
use flicky.Prelude.{
  ℕ, ◌≤◌, String, ◌≡◌, refl, ap, ◌∙◌, ◌≢◌, ◌⊎◌, inl, inr, Option, none, some, List, [], ◌∷◌, arith,
  eq_iff, if◌then◌else◌,
}
use Prim.Native.Char.{code}
use Prim.Native.String
use text.Mathlib.TextLemmas.{nil-append, cons-append}
use flicky.Prelude.Maps.{lookup, IsMap}
use flicky.Ratelimit.{
  Bucket, RateLimitConfig, Limiter, ok, bucket_key, bucket_or_full, refill, take_token, use_bucket,
  consume, first_segment, survives, sweep_buckets, sweep,
}
use flicky.Ratelimit.Bounds.{Within, level}

-- What the sweep makes of one key.
abbrev kept : List (String × RateLimitConfig) → String → Option Bucket → Option Bucket
kept configs key none = none
kept configs key (some b) = if survives configs key b then some b else none

lookup-sweep_buckets :
    (configs : List (String × RateLimitConfig)) (key : String) (bs : List (String × Bucket))
    → IsMap bs
    → lookup key (sweep_buckets configs bs) ≡ kept configs key (lookup key bs)
unfolding lookup sweep_buckets
lookup-sweep_buckets configs key [] h = refl
lookup-sweep_buckets configs key ((j, b) ∷ bs) (h, hs) =
    ground (arith, lookup-sweep_buckets configs key bs hs, eq_iff j key)

-- Where the segment before the first colon names no limit, every bucket of the key is dropped.
lookup-sweep_none :
    (configs : List (String × RateLimitConfig)) (key : String) (bs : List (String × Bucket))
    → lookup (first_segment key) configs ≡ none
    → lookup key (sweep_buckets configs bs) ≡ none
unfolding lookup sweep_buckets survives
lookup-sweep_none configs key [] h = refl
lookup-sweep_none configs key ((j, b) ∷ bs) h =
    ground (arith, lookup-sweep_none configs key bs h, eq_iff j key)

abbrev pub HasColon : String → Type 0
HasColon String.[] = ⊥
HasColon (String.◌∷◌ c s) = (code c ≡ b':') ⊎ HasColon s

first_segment-append :
    (s t : String) → HasColon s → first_segment (String.◌++◌ s t) ≡ first_segment s
unfolding first_segment
first_segment-append String.[] t h = elim h [ ]
first_segment-append (String.◌∷◌ c s) t (inl e) = rw cons-append (ground arith)
first_segment-append (String.◌∷◌ c s) t (inr h) =
    rw cons-append (ground (arith, first_segment-append s t h))

abbrev pub NoColon : String → Type 0
NoColon String.[] = Unit
NoColon (String.◌∷◌ c s) = (code c ≢ b':') × NoColon s

first_segment_key :
    (route_key who : String)
    → NoColon route_key
    → first_segment (bucket_key route_key who) ≡ route_key
unfolding first_segment
first_segment_key String.[] who h = rw nil-append (rw cons-append refl)
first_segment_key (String.◌∷◌ c s) who (h, hs) =
    rw (cons-append c s (String.◌++◌ ":" who)) (ground (arith, first_segment_key s who hs))

-- Two buckets at the same level answer a call alike.
use_bucket_of_level :
    (cfg : RateLimitConfig) (now : ℕ) (found found' : Option Bucket)
    → level cfg now found ≡ level cfg now found'
    → (use_bucket cfg now found).1 ≡ (use_bucket cfg now found').1
unfolding use_bucket take_token level
use_bucket_of_level cfg now found found' e = ground arith

consume_outcome :
    (cfg : RateLimitConfig) (route_key who : String) (now : ℕ) (s : Limiter)
    → lookup route_key s.configs ≡ some cfg
    → (consume route_key who now s).1
      ≡ (use_bucket cfg now (lookup (bucket_key route_key who) s.buckets)).1
unfolding consume
consume_outcome cfg route_key who now s e = rw (e, consume)

-- A dropped bucket was full, and a missing one counts as full.
level-kept :
    (cfg : RateLimitConfig) (configs : List (String × RateLimitConfig)) (key : String) (now : ℕ)
    (found : Option Bucket)
    → lookup (first_segment key) configs ≡ some cfg
    → Within cfg found
    → level cfg now (kept configs key found) ≡ level cfg now found
unfolding level survives refill bucket_or_full
level-kept cfg configs key now none e w = refl
level-kept cfg configs key now (some b) e w = ground arith

-- For a route whose name holds no colon, the sweep cannot be noticed: every later call has the
-- same outcome, if the bucket holds no more than its capacity and no key stands twice.
sweep_invisible :
    (cfg : RateLimitConfig) (route_key who : String) (now : ℕ) (s : Limiter)
    → NoColon route_key
    → lookup route_key s.configs ≡ some cfg
    → IsMap s.buckets
    → Within cfg (lookup (bucket_key route_key who) s.buckets)
    → (consume route_key who now (sweep s)).1 ≡ (consume route_key who now s).1
unfolding sweep
sweep_invisible cfg route_key who now s n e m w =
    let key = bucket_key route_key who in
    let e' = ap (λ r. lookup r s.configs) (first_segment_key route_key who n) ∙ e in
    rw
      (
        consume_outcome cfg route_key who now s e,
        consume_outcome cfg route_key who now (sweep s) e,
        lookup-sweep_buckets s.configs key s.buckets m,
      )
      (use_bucket_of_level cfg now _ _ (level-kept cfg s.configs key now _ e' w))

-- For a route with a colon in its name, whose first segment is no registered route, the sweep
-- drops every client's bucket, whatever it holds: the next call is let through, also right after
-- a refusal, if the capacity is one at least.
pub sweep_resets :
    (cfg : RateLimitConfig) (route_key who : String) (now : ℕ) (s : Limiter)
    → HasColon route_key
    → lookup route_key s.configs ≡ some cfg
    → lookup (first_segment route_key) s.configs ≡ none
    → 1 ≤ cfg.capacity
    → (consume route_key who now (sweep s)).1 ≡ ok
unfolding sweep use_bucket take_token refill bucket_or_full
sweep_resets cfg route_key who now s c e missing room =
    let key = bucket_key route_key who in
    let missing' = ap (λ r. lookup r s.configs) (first_segment-append route_key _ c) ∙ missing in
    rw
      (
        consume_outcome cfg route_key who now (sweep s) e,
        lookup-sweep_none s.configs key s.buckets missing',
      )
      (ground arith)
