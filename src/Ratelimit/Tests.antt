-- ===== src/Ratelimit/Tests.antt =====
-- Runs of apps/server/src/ratelimit.ts, and each theorem at a concrete input.
use flicky.Prelude.{◌+◌, ◌-◌, ◌*◌, ◌≤◌, ◌≡◌, refl, inl, inr, [], ◌∷◌, arith}
use flicky.Prelude.Maps.{lookup, insert}
use flicky.Ratelimit.{
  RateLimitConfig, Limiter, ok, denied, unit, default_limits, consume, first_segment, sweep,
  register_limit, use_bucket, refill, take_token, bucket_or_full, survives, sweep_buckets,
}
use flicky.Ratelimit.Bounds.{admitted, admitted_bound}
use flicky.Ratelimit.Sweep.{sweep_resets}

limiter : Unit {0}
unfolding default_limits register_limit insert lookup consume use_bucket refill take_token
    bucket_or_full sweep sweep_buckets survives first_segment admitted
limiter = tt

abbrev queue_join : RateLimitConfig
queue_join = record { capacity = 3; refill_per_ms = 15 }

-- A client that joins the queue three times at once has no token left.
abbrev drained : Limiter
drained = record {
  buckets = ("ws:queue_join:0xa", record { tokens = 0; last_refill_ms = 5000 }) ∷ [];
  configs =
      ("ws:queue_join", queue_join)
      ∷ ("sponsor", record { capacity = 200; refill_per_ms = 60 })
      ∷ [];
}

refused_at_once : (consume "ws:queue_join" "0xa" 5000 drained).1 ≡ denied 2000
unfolding limiter
refused_at_once = refl

burst :
    admitted "ws:queue_join" "ws:queue_join:0xa" default_limits
      (("0xa", 0) ∷ ("0xb", 0) ∷ ("0xa", 1) ∷ ("0xa", 2) ∷ ("0xa", 3) ∷ ("0xa", 2500) ∷ [])
    ≡ 4
unfolding limiter
burst = refl

admitted_bound_example :
    admitted "ws:queue_join" "ws:queue_join:0xa" drained
        (("0xa", 5000) ∷ ("0xb", 5500) ∷ ("0xa", 7000) ∷ [])
      * unit
    ≤ 3 * unit + (7000 - 5000) * 15
unfolding limiter
admitted_bound_example =
    admitted_bound queue_join "ws:queue_join" "ws:queue_join:0xa" drained 5000
      (("0xa", 5000) ∷ ("0xb", 5500) ∷ ("0xa", 7000) ∷ []) refl (omega arith) (omega arith)

abbrev sponsored : Limiter
sponsored = record drained {
  buckets = ("sponsor:1.2.3.4", record { tokens = 6000000; last_refill_ms = 10 }) ∷ [];
}

sweep_resets_example : (consume "ws:queue_join" "0xa" 5000 (sweep drained)).1 ≡ ok
unfolding limiter
sweep_resets_example =
    sweep_resets queue_join "ws:queue_join" "0xa" 5000 drained (inr (inr (inl refl))) refl refl
      (omega arith)
