-- ===== src/Funding/Lockstep.antt =====
-- The gate of apps/server/src/predict.ts and the target of apps/web/src/lib/funding.ts.
use flicky.Prelude.{
  ℕ, ◌≤◌, String, ◌≡◌, refl, Bool, true, false, not, ◌&&◌, ◌||◌, Option, none, some, arith, leb,
  le→leb,
}
use flicky.Protocol.{Tier, practice, casual, standard, high_roller, starter, stake_tiers}
use flicky.Funding.{
  BalanceGateResult, passed, no_manager, insufficient_balance, rpc_failed, required_queue_balance,
  after_read, read_balance, after_wrapper, check_queue_balance_gate, required_manager_balance,
}

abbrev pub is_passed : BalanceGateResult → Bool
is_passed (passed wrapper balance) = true
is_passed no_manager = false
is_passed (insufficient_balance wrapper balance) = false
is_passed rpc_failed = false

-- The read of an attempt was enough, or was too low; it did neither where it threw.
abbrev pub enough : ℕ → Option ℕ → Bool
enough required none = false
enough required (some balance) = leb required balance

abbrev pub too_low : ℕ → Option ℕ → Bool
too_low required none = false
too_low required (some balance) = not (leb required balance)

after_read-passed :
    (r : Option ℕ) (wrapper : String) (required : ℕ) (later : ℕ → BalanceGateResult) (b : Bool)
    → ((balance : ℕ) → is_passed (later balance) ≡ b)
    → is_passed (after_read r wrapper required later)
      ≡ (enough required r || (too_low required r && b))
unfolding after_read
after_read-passed none wrapper required later b h = refl
after_read-passed (some balance) wrapper required later b h = ground (arith, h balance)

-- A wrapper passes the gate exactly when one of three reads of its balance is enough, and those
-- before it were too low; a read that throws ends the attempts.
gate-exact :
    (wrapper : String) (read : ℕ → Option ℕ) (required : ℕ)
    → is_passed (after_wrapper (some (some wrapper)) (λ w. read) required) ≡ (
        enough required (read 1)
        || (too_low required (read 1)
            && (enough required (read 2)
                || (too_low required (read 2) && enough required (read 3)))))
unfolding after_wrapper read_balance
gate-exact wrapper read required =
    let third =
      after_read-passed (read 3) wrapper required (λ balance. insufficient_balance wrapper balance)
        false (λ balance. refl) in
    let second =
      after_read-passed (read 2) wrapper required
        (λ balance.
          after_read (read 3) wrapper required (λ balance'. insufficient_balance wrapper balance'))
        _ (λ balance. third) in
    let first = after_read-passed (read 1) wrapper required _ _ (λ balance. second) in
    ground (arith, first)

required-lockstep :
    (tier : Tier) → required_manager_balance (stake_tiers tier) ≡ required_queue_balance tier
unfolding required_manager_balance required_queue_balance
required-lockstep practice = refl
required-lockstep casual = refl
required-lockstep standard = refl
required-lockstep high_roller = refl
required-lockstep starter = refl

-- A player who has deposited what the web client asks for at the stake of a tier passes the
-- server's gate of the tier, also where the first two of its reads do not show the deposit yet, if
-- they do not fail.
pub deposit-passes :
    (tier : Tier) (owner wrapper : String) (derive_wrapper_for : String → Option (Option String))
    (read_account_balance : String → String → ℕ → Option ℕ) (early late deposit : ℕ)
    → derive_wrapper_for owner ≡ some (some wrapper)
    → read_account_balance owner wrapper 1 ≡ some early
    → read_account_balance owner wrapper 2 ≡ some late
    → read_account_balance owner wrapper 3 ≡ some deposit
    → required_manager_balance (stake_tiers tier) ≤ deposit
    → is_passed (
        check_queue_balance_gate derive_wrapper_for read_account_balance owner
          (required_queue_balance tier))
      ≡ true
unfolding check_queue_balance_gate after_wrapper
deposit-passes tier owner wrapper derive_wrapper_for read_account_balance early late deposit w e f g
      h =
    let read = read_account_balance owner wrapper in
    let required = required_queue_balance tier in
    let reached : leb required deposit ≡ true =
      le→leb required deposit (rw (← required-lockstep tier) h) in
    rw (w, after_wrapper) (ground (arith, gate-exact wrapper read required, e, f, g, reached))
