-- ===== src/Funding/Tests.antt =====
-- Each theorem on the funding of a duel at a concrete input.
use flicky.Prelude.{ℕ, ◌≤◌, ◌≡◌, refl, true, Option, some, arith, ◌==◌, if◌then◌else◌}
use flicky.Protocol.{casual, stake_tiers}
use flicky.Funding.{required_queue_balance, check_queue_balance_gate, required_manager_balance}
use flicky.Funding.Lockstep.{is_passed, deposit-passes}

-- The balance shows at the third read.
abbrev lagging : ℕ → Option ℕ
lagging attempt = if attempt == 3 then some 33_000_000 else some 0

needed : required_manager_balance (stake_tiers casual) ≤ 33_000_000
unfolding required_manager_balance
needed = ground arith

deposit-passes_example :
    is_passed (
      check_queue_balance_gate
        (λ owner. some (some "0xw"))
        (λ owner wrapper. lagging)
        "0xa"
        (required_queue_balance casual))
    ≡ true
deposit-passes_example =
    deposit-passes casual "0xa" "0xw" (λ owner. some (some "0xw")) (λ owner wrapper. lagging) 0 0
      33_000_000 refl refl refl refl needed
