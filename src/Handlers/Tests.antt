-- ===== src/Handlers/Tests.antt =====
-- A run of apps/server/src/ws/handlers.ts, and the theorem at a concrete input.
use flicky.Prelude.{◌≡◌, refl, some, ◌==◌, if◌then◌else◌}
use flicky.Prelude.Maps.{lookup, insert}
use flicky.Ratelimit.{
  default_limits, register_limit, bucket_or_full, refill, take_token, use_bucket, consume,
}
use flicky.Funding.{
  required_queue_balance, after_read, read_balance, after_wrapper, check_queue_balance_gate,
}
use flicky.Protocol.{casual, valid_tier}
use flicky.Matchmaking.{World, initial_world, new_socket_state}
use flicky.Matchmaking.Registry.{register_address, unregister_address}
use flicky.Handlers.{
  Replies, Texts, preflight, after_preflight, after_gate, after_limit, handle_queue_join, resume,
  join,
}
use flicky.Handlers.Admitted.{whole, Admitted}

abbrev texts : Texts
texts = record {
  unknown_tier = λ name. name;
  slow_down = λ n. "slow down";
  too_little = λ n. "too little";
}

-- The third look finds a market.
abbrev replies : Replies
replies = record {
  derive_wrapper_for = λ a. some (some "0xw");
  read_account_balance = λ a w attempt. some 40_000_000;
  find_deck_markets = λ attempt. if attempt == 3 then some 2 else some 0;
}

abbrev named : World
named = register_address 1 "0xa" initial_world

-- While the handler waits for the gate another socket says hello, and then its own closes.
abbrev arrives : World → World
arrives w = register_address 2 "0xb" w

abbrev leaves : World → World
leaves w = unregister_address 1 w

admitted :
    whole texts replies 1 arrives leaves
      (handle_queue_join texts 1 "casual" 5000 default_limits named).1
    ≡ (leaves (arrives named), join casual)
unfolding handle_queue_join after_limit resume after_gate after_preflight preflight consume
    use_bucket refill take_token bucket_or_full default_limits register_limit lookup insert
    valid_tier required_queue_balance after_read read_balance after_wrapper check_queue_balance_gate
    register_address unregister_address initial_world new_socket_state
admitted = refl
