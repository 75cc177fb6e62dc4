-- ===== src/Keeper/Passes.antt =====
-- apps/server/src/keeper.ts: which passes a `sweep` starts.
use flicky.Prelude.{
  ℕ, ◌+◌, String, ◌≡◌, inl, inr, Bool, not, ◌&&◌, ◌||◌, List, [], ◌∷◌, arith, eq_iff, str_eq,
  Bool-cases,
}
use flicky.Prelude.Maps.{mem, put, mem-put}
use flicky.Keeper.{Keeper}
use flicky.Keeper.Closing.{begin_close, sweep}
use flicky.Prelude.{times}

abbrev pub starts : String → List String → ℕ
starts id [] = 0
starts id (x ∷ xs) = times (str_eq x id) + starts id xs

-- Neither done nor under way.
abbrev pub idle : String → Keeper → Bool
idle id k = not (mem id k.finalized) && not (mem id k.in_flight)

-- A sweep starts one pass for a duel that it is given, however often, and that is neither finalized
-- nor in flight, and none for any other duel.
pub sweep-exact :
    (ids : List String) (k : Keeper) (id : String)
    → starts id (sweep ids k).1 ≡ times (idle id k && mem id ids)
unfolding sweep begin_close mem
sweep-exact [] k id = ground arith
sweep-exact (x ∷ ids) k id =
    let k' : Keeper = record k { in_flight = put x k.in_flight } in
    elim (Bool-cases (mem x k.finalized || mem x k.in_flight)) [
      | inl e ↦ rw (e, sweep) (ground (arith, sweep-exact ids k id, eq_iff x id, eq_iff id x))
      | inr e ↦
          rw (e, sweep)
            (ground
              (arith, sweep-exact ids k' id, mem-put x id k.in_flight, eq_iff x id, eq_iff id x))
    ]
