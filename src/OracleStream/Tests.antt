-- ===== src/OracleStream/Tests.antt =====
-- A run of apps/server/src/ws/oracle-stream.ts, and its theorem at a history.
use flicky.Prelude.{ℕ, String, ◌≡◌, refl, true, false, none, some, List, [], ◌∷◌}
use flicky.Prelude.Maps.{contains}
use flicky.Prelude.Buckets.{members}
use flicky.Env.{default_env}
use flicky.Matchmaking.{initial_world}
use flicky.Matchmaking.Events.{Event}
use flicky.OracleStream.{initial_stream, starts_with_0x}
use flicky.OracleStream.Watching.{Watching}
use flicky.OracleStream.Refines.{StreamEvent, stream_run, watches_after, stream_run-refines}

abbrev same : String → String
same s = s

-- Two sockets watch a market, a tick is sent, and the first gives the market up.
abbrev history : List StreamEvent
history =
    StreamEvent.oracle_subscribe 1 (some (some "0xm" ∷ some "m" ∷ []))
    ∷ StreamEvent.oracle_subscribe 2 (some (some "0xm" ∷ []))
    ∷ StreamEvent.ticked (some 7)
        (λ id. some (some (record { settlement_price = none; expiry = 9 }))) 5
    ∷ StreamEvent.other (Event.hello 2 "0xb")
    ∷ StreamEvent.oracle_unsubscribe 1 (some (some "0xm" ∷ []))
    ∷ []

stream_run-refines_example :
    let s = stream_run default_env same (initial_stream, initial_world) history in
    ((d : String) (k : ℕ)
      → contains k (members d s.0.market_subscribers) ≡ watches_after same k d false history)
    × Watching s
stream_run-refines_example = stream_run-refines default_env same history

second_watches : watches_after same 2 "0xm" false history ≡ true
unfolding starts_with_0x
second_watches = refl

first_gave_up : watches_after same 1 "0xm" false history ≡ false
unfolding starts_with_0x
first_gave_up = refl
