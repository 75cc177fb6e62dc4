-- ===== src/Handlers.antt =====
-- apps/server/src/ws/handlers.ts: what a `queue_join` passes before `joinQueue` runs, and the rate
-- limit of the chat messages. The replies of the chain and of the market index are arguments: none
-- is an exception. `slow_down` and `too_little` are the texts with numbers in them. The handler
-- waits for the gate and for the looks at the markets; each part between two waits is a function
-- of the world that it finds, since other handlers run during the waits.
pub mod Admitted
pub mod Messages
mod Tests
use flicky.Prelude.{
  ℕ, zero, suc, ◌+◌, ◌-◌, ◌*◌, ◌/◌, ◌%◌, ◌^◌, ◌≤◌, ◌<◌, String, ◌≡◌, refl, sym, ap, ◌∙◌, ◌≢◌, ◌↔◌,
  ◌⊎◌, inl, inr, Bool, true, false, not, ◌&&◌, ◌||◌, Option, none, some, List, [], ◌∷◌, ◌++◌, map,
  arith, eq_iff, ltb, leb, ◌==◌, str_eq, str_eq_refl, if◌then◌else◌, Bool-cases, Option-cases,
  ==_iff, ==_refl, ltb→lt, leb→le, le→leb,
}
use flicky.Ratelimit.{Limiter, Outcome, ok, denied, consume}
use flicky.Funding.{
  BalanceGateResult, passed, no_manager, insufficient_balance, rpc_failed, required_queue_balance,
  check_queue_balance_gate,
}
use flicky.Protocol.{
  Tier, practice, casual, standard, high_roller, starter, valid_tier, ServerMsg, error, no_detail,
  retry_after, balance, markets,
}
use flicky.Matchmaking.{World, send}

-- What the outside answers to one `queue_join`.
pub record Replies : Type 0 where
  -- none: the look-up threw; some none: there is no wrapper
  pub derive_wrapper_for : String → Option (Option String)
  pub read_account_balance : String → String → ℕ → Option ℕ
  -- the number of markets that an attempt finds
  pub find_deck_markets : ℕ → Option ℕ

pub record Texts : Type 0 where
  pub unknown_tier : String → String
  pub slow_down : ℕ → String
  pub too_little : ℕ → String

-- What a handler goes on with: nothing, the call of `joinQueue`, the wait for the gate of an owner,
-- or the wait for the looks at the markets.
pub data Next : Type 0 where
  done : Next
  join : Tier → Next
  ask_gate : Tier → (owner : String) → Next
  ask_markets : Tier → Next

abbrev pub Verdict : Type 0
Verdict = World × Next

-- `ws.data.address ?? "anon"`
abbrev pub rate_key : Option String → String
rate_key none = "anon"
rate_key (some address) = address

abbrev pub refuse : ℕ → ServerMsg → World → Verdict
refuse ws msg w = (send ws msg w, done)

-- The loop of the preflight: the attempts stop at the first that finds a market. `left` attempts
-- follow the one at hand.
unfoldable pub preflight : (left : ℕ) → (attempt : ℕ) → (ℕ → Option ℕ) → Option ℕ
preflight zero attempt find = find attempt
preflight (suc left) attempt find =
    let later = preflight left (attempt + 1) find in
    elim (find attempt) [
      | none ↦ none
      | some available ↦ if leb 1 available then some available else later
    ]

unfoldable pub after_preflight : ℕ → Tier → Option ℕ → World → Verdict
after_preflight ws tier none w =
    refuse ws
      (error "oracles_unavailable" "couldn't check oracle availability; try again shortly"
        no_detail)
      w
after_preflight ws tier (some available) w =
    if leb 1 available
    then (w, join tier)
    else refuse ws
        (error "oracles_unavailable"
          "No BTC markets live right now — try again in a couple of minutes." (markets available 1))
        w

unfoldable pub after_gate : Texts → ℕ → Tier → BalanceGateResult → World → Verdict
after_gate texts ws tier (passed wrapper have) w = (w, ask_markets tier)
after_gate texts ws tier no_manager w =
    refuse ws
      (error "no_wrapper"
        "no funding account found for this address — sign in completes the bootstrap on first run"
        no_detail)
      w
after_gate texts ws tier (insufficient_balance wrapper have) w =
    let need = required_queue_balance tier in
    refuse ws (error "insufficient_balance" (texts.too_little need) (balance need have)) w
after_gate texts ws tier rpc_failed w =
    refuse ws
      (error "balance_check_failed" "could not verify account balance; retry shortly" no_detail) w

-- The gate is asked for the address that the socket has now.
abbrev pub after_name : ℕ → Tier → Option String → World → Verdict
after_name ws tier none w =
    refuse ws (error "no_address" "send `hello` with your address first" no_detail) w
after_name ws tier (some address) w = (w, ask_gate tier address)

-- `joinQueue` itself refuses practice.
unfoldable pub after_limit : Texts → ℕ → Tier → Outcome → World → Verdict
after_limit texts ws tier (denied retry_ms) w =
    refuse ws (error "rate_limited" (texts.slow_down retry_ms) (retry_after retry_ms)) w
after_limit texts ws practice ok w = (w, join practice)
after_limit texts ws tier ok w = after_name ws tier (w.sockets ws).address w

-- The part before the first wait.
unfoldable pub handle_queue_join :
    Texts → ℕ → String → (now : ℕ) → Limiter → World → Limiter × Verdict
unfolding after_limit
handle_queue_join texts ws tier_name now limiter w = elim (valid_tier tier_name) [
  | none ↦ (limiter, refuse ws (error "bad_tier" (texts.unknown_tier tier_name) no_detail) w)
  | some tier ↦
      let limited = consume "ws:queue_join" (rate_key (w.sockets ws).address) now limiter in
      (limited.0, after_limit texts ws tier limited.1 w)
]

-- The part after a wait, in the world that it finds. Practice and what is done do not wait.
unfoldable pub resume : Texts → Replies → ℕ → Next → World → Verdict
unfolding after_gate after_preflight preflight
resume texts replies ws (ask_gate tier owner) w =
    after_gate texts ws tier
      (check_queue_balance_gate replies.derive_wrapper_for replies.read_account_balance owner
        (required_queue_balance tier))
      w
resume texts replies ws (ask_markets tier) w =
    after_preflight ws tier (preflight 2 1 replies.find_deck_markets) w
resume texts replies ws next w = (w, next)
