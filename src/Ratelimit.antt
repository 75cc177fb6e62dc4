-- ===== src/Ratelimit.antt =====
-- apps/server/src/ratelimit.ts: the token buckets of the HTTP and WebSocket routes.
-- `tokens` is a floating-point number there. Here it is exact: a token is `unit` = 30,000 units,
-- and each refill rate of the source's table is then a whole number of units per millisecond
-- (`refillPerSec` = r is 30 r units). The clock is an argument of each call.
pub mod Bounds
pub mod Sweep
mod Tests
use flicky.Prelude.{
  ℕ, zero, suc, ◌+◌, ◌-◌, ◌*◌, ◌/◌, ◌%◌, ◌^◌, ◌≤◌, ◌<◌, String, ◌≡◌, refl, sym, ap, ◌∙◌, ◌≢◌, ◌↔◌,
  ◌⊎◌, inl, inr, Bool, true, false, not, ◌&&◌, ◌||◌, Option, none, some, List, [], ◌∷◌, ◌++◌, map,
  arith, eq_iff, ltb, leb, ◌==◌, str_eq, str_eq_refl, if◌then◌else◌, Bool-cases, Option-cases,
  ==_iff, ==_refl, ltb→lt, leb→le, le→leb,
}
use flicky.Prelude.Maps.{lookup, insert}
use Prim.Native.Char.{code}
use Prim.Native.String

abbrev pub unit : ℕ
unit = 30000

pub record Bucket : Type 0 where
  pub tokens : ℕ
  pub last_refill_ms : ℕ

pub record RateLimitConfig : Type 0 where
  pub capacity : ℕ
  pub refill_per_ms : ℕ

pub record Limiter : Type 0 where
  pub buckets : List (String × Bucket)
  pub configs : List (String × RateLimitConfig)

pub data Outcome : Type 0 where
  ok : Outcome
  denied : (retry_ms : ℕ) → Outcome

abbrev pub is_ok : Outcome → Bool
is_ok ok = true
is_ok (denied retry_ms) = false

unfoldable pub register_limit : String → RateLimitConfig → Limiter → Limiter
register_limit route_key cfg s = record s { configs = insert route_key cfg s.configs }

abbrev pub full : RateLimitConfig → ℕ
full cfg = cfg.capacity * unit

-- `${routeKey}:${who}`
abbrev pub bucket_key : String → String → String
bucket_key route_key who = String.◌++◌ route_key (String.◌++◌ ":" who)

abbrev pub min : ℕ → ℕ → ℕ
min a b = if leb a b then a else b

-- The bucket that a call finds or makes.
unfoldable pub bucket_or_full : RateLimitConfig → ℕ → Option Bucket → Bucket
bucket_or_full cfg now none = record { tokens = full cfg; last_refill_ms = now }
bucket_or_full cfg now (some b) = b

unfoldable pub refill : RateLimitConfig → ℕ → Bucket → Bucket
refill cfg now b =
    if ltb b.last_refill_ms now
    then record {
      tokens = min (full cfg) (b.tokens + (now - b.last_refill_ms) * cfg.refill_per_ms);
      last_refill_ms = now;
    }
    else b

-- `Math.ceil(needed / rate)`; the rate is positive in every registered limit
abbrev pub div_ceil : ℕ → ℕ → ℕ
div_ceil a b = (a + (b - 1)) / b

unfoldable pub take_token : RateLimitConfig → Bucket → Bucket × Outcome
take_token cfg b =
    if leb unit b.tokens
    then (record b { tokens = b.tokens - unit }, ok)
    else (b, denied (div_ceil (unit - b.tokens) cfg.refill_per_ms))

unfoldable pub use_bucket : RateLimitConfig → ℕ → Option Bucket → Bucket × Outcome
unfolding bucket_or_full
use_bucket cfg now found = take_token cfg (refill cfg now (bucket_or_full cfg now found))

unfoldable pub consume : String → String → ℕ → Limiter → Limiter × Outcome
consume route_key who now s = elim (lookup route_key s.configs) [
  | none ↦ (s, ok)
  | some cfg ↦
      let key = bucket_key route_key who in
      let used = use_bucket cfg now (lookup key s.buckets) in
      (record s { buckets = insert key used.0 s.buckets }, used.1)
]

-- `key.split(":")[0]`
unfoldable pub first_segment : String → String
first_segment String.[] = String.[]
first_segment (String.◌∷◌ c s) =
    if code c == b':' then String.[] else String.◌∷◌ c (first_segment s)

-- Whether the sweep leaves the bucket in place.
unfoldable pub survives : List (String × RateLimitConfig) → String → Bucket → Bool
survives configs key b = elim (lookup (first_segment key) configs) [
  | none ↦ false
  | some cfg ↦ ltb b.tokens (full cfg)
]

unfoldable pub sweep_buckets :
    List (String × RateLimitConfig) → List (String × Bucket) → List (String × Bucket)
sweep_buckets configs [] = []
sweep_buckets configs ((key, b) ∷ bs) =
    if survives configs key b then (key, b) ∷ sweep_buckets configs bs else sweep_buckets configs bs

-- The callback of `setInterval`, every 60 s.
unfoldable pub sweep : Limiter → Limiter
sweep s = record s { buckets = sweep_buckets s.configs s.buckets }

abbrev limit : ℕ → ℕ → RateLimitConfig
limit capacity refill_per_ms = record { capacity = capacity; refill_per_ms = refill_per_ms }

-- The module's table of limits.
unfoldable pub default_limits : Limiter
default_limits = register_limit "deckmaster:generate" (limit 3 6) (
    register_limit "sponsor" (limit 200 60) (
      register_limit "ws:practice_start" (limit 2 3) (
        register_limit "ws:queue_join" (limit 3 15) (
          register_limit "ws:spot_subscribe" (limit 4 15) (
            register_limit "ws:chat_send" (limit 4 20) (
              register_limit "ws:chat_react" (limit 6 30) (
                register_limit "avatar:write" (limit 5 10) (
                  register_limit "avatar:read" (limit 30 150)
                    (record { buckets = []; configs = [] })))))))))
