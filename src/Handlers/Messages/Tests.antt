-- ===== src/Handlers/Messages/Tests.antt =====
-- Runs of apps/server/src/ws/handlers.ts, and its theorems at a server with one socket.
use flicky.Prelude.{
  String, ◌≡◌, refl, false, none, some, [], ◌∷◌, arith, eq_iff, ◌==◌, if◌then◌else◌, ==_iff,
}
use flicky.Prelude.{differ}
use flicky.Prelude.Maps.{contains, lookup, mem}
use flicky.Prelude.Buckets.{members}
use flicky.Env.{default_env}
use flicky.Protocol.{pong}
use flicky.Ratelimit.{default_limits}
use flicky.Matchmaking.{World, SocketState}
use flicky.Matchmaking.Events.Registered.{Registered}
use flicky.Matchmaking.Events.Subscribed.{Subscribed}
use flicky.OracleStream.{Stream}
use flicky.OracleStream.Watching.{Watching}
use flicky.Handlers.Messages.{
  Server, chat_send, ping, Outside, failed, message, resume_queue, answer, close,
}
use flicky.Handlers.{Next}
use flicky.Handlers.Messages.Spent.{bucket_of, message-spends_own}
use flicky.Handlers.Messages.Closed.{close-forgotten}

abbrev same : String → String
same s = s

-- Socket 1 has a name, a room, a market and the spot; the others are new.
abbrev busy : SocketState
busy = record {
  address = some "0xa";
  queued_tier = none;
  queued_at = 0;
  subscribed_duels = "0xd" ∷ [];
  subscribed_oracles = "0xm" ∷ [];
}

abbrev fresh : SocketState
fresh = record {
  address = none;
  queued_tier = none;
  queued_at = 0;
  subscribed_duels = [];
  subscribed_oracles = [];
}

abbrev world : World
world = record {
  sockets = λ k. if k == 1 then busy else fresh;
  sockets_by_address = ("0xa", 1 ∷ []) ∷ [];
  queues = λ tier. [];
  room_subscribers = ("0xd", 1 ∷ []) ∷ [];
  forfeit_timers = [];
  pending_pairs = [];
  pending_pair_timers = [];
  retries = [];
  outbox = [];
}

abbrev stream : Stream
stream = record {
  market_subscribers = ("0xm", 1 ∷ []) ∷ [];
  spot_subscribers = 1 ∷ [];
  last_btc_spot = none;
}

abbrev server : Server
server = record { world = world; stream = stream; limiter = default_limits }

world-Registered : Registered world
unfolding members lookup contains
world-Registered = record {
  agree = λ a k. ground (arith, eq_iff a "0xa", eq_iff "0xa" a, ==_iff k 1, ==_iff 1 k);
  none_empty = λ a e. ground (arith, e);
}

world-Subscribed : Subscribed world
unfolding members lookup contains mem
world-Subscribed = record {
  agree = λ d k. ground (arith, eq_iff d "0xd", eq_iff "0xd" d, ==_iff k 1, ==_iff 1 k);
  none_empty = λ d e. ground (arith, e);
}

server-Watching : Watching (stream, world)
unfolding members lookup contains mem
server-Watching = record {
  agree = λ d k. ground (arith, eq_iff d "0xm", eq_iff "0xm" d, ==_iff k 1, ==_iff 1 k);
  none_empty = λ d e. ground (arith, e);
}

abbrev outside : Outside
outside = record {
  now = 5;
  texts = record {
    unknown_tier = same;
    slow_down = λ n. "slow down";
    too_little = λ n. "too little";
  };
  queue = record {
    derive_wrapper_for = λ a. none;
    read_account_balance = λ a w n. none;
    find_deck_markets = λ n. none;
  };
  recent_chat_messages = none;
  practice = failed "no spot";
  shortened = same;
  insert_chat_message = λ a t. none;
  emoji_length = 1;
  duel = none;
}

pinged : (message same outside 1 (some ping) server).0.world.outbox ≡ (1, pong) ∷ []
unfolding message answer
pinged = refl

close-forgotten_example :
    ((a : String)
      → contains 1 (members a (close default_env 1 server).world.sockets_by_address) ≡ false)
    × (((d : String)
          → contains 1 (members d (close default_env 1 server).world.room_subscribers) ≡ false)
        × (((id : String)
              → contains 1 (members id (close default_env 1 server).stream.market_subscribers)
                ≡ false)
            × (contains 1 (close default_env 1 server).stream.spot_subscribers ≡ false)))
close-forgotten_example =
    close-forgotten default_env 1 server world-Registered world-Subscribed server-Watching

message-spends_own_example :
    (bucket_of "ws:chat_send:0xb" (message same outside 1 (some (chat_send "hi")) server).0
      ≡ bucket_of "ws:chat_send:0xb" server)
    × ((next : Next) (t : Server)
        → bucket_of "ws:chat_send:0xb" (resume_queue outside 1 next t).0
          ≡ bucket_of "ws:chat_send:0xb" t)
message-spends_own_example =
    message-spends_own same outside 1 (some (chat_send "hi")) server "ws:chat_send:0xb"
      (differ "ws:chat_send:0xa" "ws:chat_send:0xb" refl)
