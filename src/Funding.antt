-- ===== src/Funding.antt =====
-- What a player's account must hold before it can queue: the gate of the server
-- (apps/server/src/predict.ts) and the target of the web client (apps/web/src/lib/funding.ts).
pub mod Lockstep
mod Tests
use flicky.Prelude.{
  ℕ, zero, suc, ◌+◌, ◌-◌, ◌*◌, ◌/◌, ◌%◌, ◌^◌, ◌≤◌, ◌<◌, String, ◌≡◌, refl, sym, ap, ◌∙◌, ◌≢◌, ◌↔◌,
  ◌⊎◌, inl, inr, Bool, true, false, not, ◌&&◌, ◌||◌, Option, none, some, List, [], ◌∷◌, ◌++◌, map,
  arith, eq_iff, ltb, leb, ◌==◌, str_eq, str_eq_refl, if◌then◌else◌, Bool-cases, Option-cases,
  ==_iff, ==_refl, ltb→lt, leb→le, le→leb,
}
use flicky.Protocol.{Tier, practice, casual, standard, high_roller, starter, stake_tiers}

-- The reads of the chain: what they gave, or none where they threw.
pub data BalanceGateResult : Type 0 where
  passed : (wrapper : String) → (balance : ℕ) → BalanceGateResult
  no_manager : BalanceGateResult
  insufficient_balance : (wrapper : String) → (balance : ℕ) → BalanceGateResult
  rpc_failed : BalanceGateResult

abbrev pub min_balance_for_queue : ℕ
min_balance_for_queue = 5_000_000

abbrev pub swipe_quantity_mist : ℕ
swipe_quantity_mist = 6_000_000

abbrev pub max_deck_size : ℕ
max_deck_size = 5

abbrev pub floored : ℕ → ℕ → ℕ
floored floor required = if ltb floor required then required else floor

unfoldable pub required_queue_balance : Tier → ℕ
required_queue_balance tier =
    floored min_balance_for_queue (stake_tiers tier + max_deck_size * swipe_quantity_mist)

-- What one attempt gives, where `later` is what the attempts after it give.
unfoldable pub after_read : Option ℕ → String → ℕ → (ℕ → BalanceGateResult) → BalanceGateResult
after_read none wrapper required later = rpc_failed
after_read (some balance) wrapper required later =
    if leb required balance then passed wrapper balance else later balance

-- The loop over the attempts, of which `left` follow the one at hand: `read i` is what the read of
-- attempt i gives, none where it throws.
unfoldable pub read_balance :
    (left : ℕ)
    → (attempt : ℕ) → (ℕ → Option ℕ)
    → (wrapper : String) → (required : ℕ) → BalanceGateResult
unfolding after_read
read_balance zero attempt read wrapper required =
    after_read (read attempt) wrapper required (λ balance. insufficient_balance wrapper balance)
read_balance (suc left) attempt read wrapper required =
    let later = read_balance left (attempt + 1) read wrapper required in
    after_read (read attempt) wrapper required (λ balance. later)

-- What the look-up of the wrapper gave: none where it threw, and some none where there is none.
unfoldable pub after_wrapper :
    Option (Option String) → (String → ℕ → Option ℕ) → (required : ℕ) → BalanceGateResult
unfolding read_balance
after_wrapper none read required = rpc_failed
after_wrapper (some none) read required = no_manager
after_wrapper (some (some wrapper)) read required = read_balance 2 1 (read wrapper) wrapper required

-- `read_account_balance owner wrapper i` is what the read of attempt i gives.
unfoldable pub check_queue_balance_gate :
    (derive_wrapper_for : String → Option (Option String))
    → (read_account_balance : String → String → ℕ → Option ℕ) → (owner : String) → (required : ℕ)
    → BalanceGateResult
unfolding after_wrapper
check_queue_balance_gate derive_wrapper_for read_account_balance owner required =
    after_wrapper (derive_wrapper_for owner) (read_account_balance owner) required

-- apps/web/src/lib/funding.ts, over the same numbers
abbrev pub swipe_quantity : ℕ
swipe_quantity = 6_000_000

abbrev pub default_deck_size : ℕ
default_deck_size = 5

abbrev pub min_manager_balance : ℕ
min_manager_balance = 5_000_000

abbrev pub max_premium_budget : ℕ
max_premium_budget = default_deck_size * swipe_quantity

unfoldable pub required_manager_balance : ℕ → ℕ
required_manager_balance stake = floored min_manager_balance (stake + max_premium_budget)
