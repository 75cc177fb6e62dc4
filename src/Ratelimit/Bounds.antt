-- ===== src/Ratelimit/Bounds.antt =====
-- How many requests a bucket of apps/server/src/ratelimit.ts lets through.
use flicky.Prelude.{
  ℕ, ◌+◌, ◌-◌, ◌*◌, ◌≤◌, String, ◌≡◌, ap, ◌∙◌, Bool, ◌&&◌, Option, none, some, List, [], ◌∷◌, arith,
  eq_iff, str_eq, if◌then◌else◌,
}
use flicky.Prelude.Maps.{lookup, lookup-insert}
use flicky.Ratelimit.{
  Bucket, RateLimitConfig, Limiter, Outcome, ok, denied, is_ok, full, unit, bucket_key,
  bucket_or_full, refill, take_token, use_bucket, consume,
}

-- What a bucket holds when it is read at a time: a missing bucket counts as full.
unfoldable pub level : RateLimitConfig → ℕ → Option Bucket → ℕ
level cfg now found = (refill cfg now (bucket_or_full cfg now found)).tokens

-- No bucket holds more than its capacity.
abbrev pub Within : RateLimitConfig → Option Bucket → Type 0
Within cfg none = Unit
Within cfg (some b) = b.tokens ≤ full cfg

level-le-full :
    (cfg : RateLimitConfig) (now : ℕ) (found : Option Bucket)
    → Within cfg found
    → level cfg now found ≤ full cfg
unfolding level refill bucket_or_full
level-le-full cfg now none h = ground arith
level-le-full cfg now (some b) h = ground arith

use_bucket-Within :
    (cfg : RateLimitConfig) (now : ℕ) (found : Option Bucket)
    → Within cfg found
    → Within cfg (some (use_bucket cfg now found).0)
unfolding use_bucket refill take_token
use_bucket-Within cfg now none h = ground arith
use_bucket-Within cfg now (some b) h = ground arith

abbrev pub spent : Outcome → ℕ
spent ok = unit
spent (denied retry_ms) = 0

-- A call takes a token from the level, or nothing.
level-use_bucket :
    (cfg : RateLimitConfig) (now : ℕ) (found : Option Bucket)
    → spent (use_bucket cfg now found).1 + level cfg now (some (use_bucket cfg now found).0)
      ≡ level cfg now found
unfolding use_bucket refill take_token level
level-use_bucket cfg now none = ground arith
level-use_bucket cfg now (some b) = ground arith

-- Time passing refills the level by at most the rate.
elapsed_split : (a b c r : ℕ) → a ≤ b → b ≤ c → (c - a) * r ≡ (b - a) * r + (c - b) * r
elapsed_split a b c r h k = let p : c - a ≡ (b - a) + (c - b) = omega arith in rw p (omega arith)

elapsed_mono : (a b c r : ℕ) → b ≤ a → a ≤ c → (c - a) * r ≤ (c - b) * r
elapsed_mono a b c r h k = let p : c - b ≡ (c - a) + (a - b) = omega arith in rw p (omega arith)

level_later :
    (cfg : RateLimitConfig) (now later : ℕ) (found : Option Bucket)
    → now ≤ later
    → level cfg later found ≤ level cfg now found + (later - now) * cfg.refill_per_ms
unfolding level refill bucket_or_full
level_later cfg now later none h = ground arith
level_later cfg now later (some b) h = ground (
  arith,
  elapsed_split b.last_refill_ms now later cfg.refill_per_ms,
  elapsed_mono b.last_refill_ms now later cfg.refill_per_ms,
)

-- A history of one route's calls, each with its client and its time; counted are the calls that
-- use one bucket and are let through.
abbrev pub counted : String → String → Bool → ℕ
counted key k admitted = if str_eq k key && admitted then 1 else 0

unfoldable pub admitted : String → String → Limiter → List (String × ℕ) → ℕ
admitted route_key key s [] = 0
admitted route_key key s ((who, now) ∷ calls) =
    let (s', outcome) = consume route_key who now s in
    counted key (bucket_key route_key who) (is_ok outcome) + admitted route_key key s' calls

-- The calls come in the order of their times, the first not before `from`.
abbrev pub InOrder : ℕ → List (String × ℕ) → Type 0
InOrder from [] = Unit
InOrder from ((who, now) ∷ calls) = (from ≤ now) × InOrder now calls

abbrev pub last_time : ℕ → List (String × ℕ) → ℕ
last_time from [] = from
last_time from ((who, now) ∷ calls) = last_time now calls

from-le-last_time :
    (from : ℕ) (calls : List (String × ℕ)) → InOrder from calls → from ≤ last_time from calls
from-le-last_time from [] h = omega arith
from-le-last_time from ((who, now) ∷ calls) (h, k) = omega (arith, from-le-last_time now calls k)

module _ (cfg : RateLimitConfig) (route_key key : String) where
  -- What one call does to the level of the bucket `key`.
  consume-level :
      (who : String) (now : ℕ) (s : Limiter)
      → lookup route_key s.configs ≡ some cfg
      → counted key (bucket_key route_key who) (is_ok (consume route_key who now s).1) * unit
          + level cfg now (lookup key (consume route_key who now s).0.buckets)
        ≡ level cfg now (lookup key s.buckets)
  unfolding consume
  consume-level who now s e =
      let k = bucket_key route_key who in
      let found = lookup k s.buckets in
      rw (e, consume)
        (ground (
          arith,
          level-use_bucket cfg now found,
          lookup-insert k key (use_bucket cfg now found).0 s.buckets,
          eq_iff k key,
        ))

consume-configs :
    (route_key who : String) (now : ℕ) (s : Limiter)
    → (consume route_key who now s).0.configs ≡ s.configs
unfolding consume
consume-configs route_key who now s = ground arith

admitted-level :
    (cfg : RateLimitConfig) (route_key key : String) (s : Limiter) (from : ℕ)
    (calls : List (String × ℕ))
    → lookup route_key s.configs ≡ some cfg
    → InOrder from calls
    → admitted route_key key s calls * unit
      ≤ level cfg from (lookup key s.buckets) + (last_time from calls - from) * cfg.refill_per_ms
unfolding admitted
admitted-level cfg route_key key s from [] e h = omega arith
admitted-level cfg route_key key s from ((who, now) ∷ calls) e (h, k) =
    let s' = (consume route_key who now s).0 in
    let e' = ap (lookup route_key) (consume-configs route_key who now s) ∙ e in
    omega (
      arith,
      admitted-level cfg route_key key s' now calls e' k,
      consume-level cfg route_key key who now s e,
      level_later cfg from now (lookup key s.buckets) h,
      elapsed_split from now (last_time now calls) cfg.refill_per_ms h
          (from-le-last_time now calls k),
    )

-- Over any history of a route's calls, in the order of their times and mixed with the calls of
-- other clients, the requests that one bucket lets through are at most its capacity plus what the
-- refill rate yields in the time that passes, if the bucket holds no more than its capacity at
-- the start.
pub admitted_bound :
    (cfg : RateLimitConfig) (route_key key : String) (s : Limiter) (from : ℕ)
    (calls : List (String × ℕ))
    → lookup route_key s.configs ≡ some cfg
    → Within cfg (lookup key s.buckets)
    → InOrder from calls
    → admitted route_key key s calls * unit
      ≤ cfg.capacity * unit + (last_time from calls - from) * cfg.refill_per_ms
admitted_bound cfg route_key key s from calls e w h = omega (
  arith,
  admitted-level cfg route_key key s from calls e h,
  level-le-full cfg from (lookup key s.buckets) w,
)
