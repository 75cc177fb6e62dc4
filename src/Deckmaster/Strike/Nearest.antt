-- ===== src/Deckmaster/Strike/Nearest.antt =====
-- apps/server/src/deckmaster.ts: a strike that is snapped is the nearest that can be admitted.
use flicky.Prelude.{ℕ, ◌+◌, ◌*◌, ◌/◌, ◌≤◌, ◌<◌, ◌≡◌, some, arith}
use native.Mathlib.Nat.{mul-div_cancel}
use flicky.Deckmaster.Strike.{snap_to_admission_tick}

div-cancel : (q k t : ℕ) → 0 < t → q * (k * t) / t ≡ q * k
div-cancel q k t h =
    let same : q * (k * t) ≡ q * k * t = grind arith in rw same (mul-div_cancel (q * k) h)

rounded_low : (r a : ℕ) → 0 < a → 2 * r ≤ 2 * ((r + a / 2) / a * a) + a
rounded_low r a h = grind arith

rounded_high : (r a : ℕ) → 0 < a → 2 * ((r + a / 2) / a * a) ≤ 2 * r + a
rounded_high r a h = grind arith

snapped :
    (raw tick k : ℕ)
    → 0 < tick
    → 0 < k * tick
    → snap_to_admission_tick raw tick (k * tick) ≡ some ((raw + k * tick / 2) / (k * tick) * k)
unfolding snap_to_admission_tick
snapped raw tick k h h' = ground (arith, div-cancel ((raw + k * tick / 2) / (k * tick)) k tick h)

-- Where the admission tick is a multiple k of the tick, the strike that `snapToAdmissionTick` gives
-- is a multiple of the admission tick, and no further than half of it from the raw strike.
snap-nearest :
    (raw tick k : ℕ)
    → 0 < tick
    → 0 < k
    → (t q : ℕ) × ((snap_to_admission_tick raw tick (k * tick) ≡ some t)
        × ((t * tick ≡ q * (k * tick))
            × ((2 * raw ≤ 2 * (t * tick) + k * tick) × (2 * (t * tick) ≤ 2 * raw + k * tick))))
snap-nearest raw tick k h h' =
    let a = k * tick in
    let q = (raw + a / 2) / a in
    let positive : 0 < a = grind arith in
    let same : q * k * tick ≡ q * a = grind arith in
    (
      q * k,
      q,
      (
        snapped raw tick k h positive,
        (same, rw same (rounded_low raw a positive, rounded_high raw a positive)),
      ),
    )
