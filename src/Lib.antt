-- ===== src/Lib.antt =====
-- Flicky: the game server of a duelling game on price predictions (apps/server), and the parts of
-- its rules that the web client shares (apps/web).
--
-- The parts and the files that model them:
--   Ratelimit  apps/server/src/ratelimit.ts: `consume`, `registerLimit` and the sweep of idle buckets.
--   Mmr  apps/server/src/mmr.ts: `findClosestOpponent`, and under Mmr.Ladder `outcomeFromDuel`,
--     `applyDuelOutcome` and `recomputeRatingsFromMirror` over the table of the players' rows.
--   Matchmaking  apps/server/src/ws/matchmaking.ts: the tier queues, pairing, the handshake of a
--     pairing, the duel rooms and the forfeit timers, over one `World` record. Registry binds
--     sockets to addresses, Leaving, Joining and Pairing work the queues, Rooms and Closing the
--     rooms. Events makes every part of a handler that runs without a wait one event; a history
--     is a list of events. Joining.Turns are the histories in which a `joinQueue` is not disturbed.
--   Keeper  apps/server/src/keeper.ts: `tryReveal`, `tryClose` and `sweep`, over the three sets of
--     the class. What the chain and the indexer answer is the parameter `Chain`.
--   Deckmaster  apps/server/src/deckmaster.ts: the markets of a deck (Selection), strikes (Strike),
--     the seeded shuffle (Dealing), `buildDeck` (Deck) and the size of a deck (Size).
--   Funding  the gate of apps/server/src/predict.ts and the target of apps/web/src/lib/funding.ts.
--   Handlers  apps/server/src/ws/handlers.ts: what a `queue_join` passes before `joinQueue`, and
--     under Messages every message and the close of a socket, over `Server`: the world of
--     Matchmaking, the stream of OracleStream and the limiter.
--   Chat  apps/server/src/ws/chat.ts: messages and reactions, over Matchmaking's `World`.
--   Indexer  apps/server/src/indexer.ts over the tables of apps/server/src/db.ts: Drain the pages and
--     cursors of a tracker, Events its handlers, Outcomes and Duels the mirrored row of a duel, Tick
--     one tick over the mirror, the ratings of Mmr.Ladder and Matchmaking's `World`.
--   OracleStream  apps/server/src/ws/oracle-stream.ts: who watches which market, and the ticks.
--   MatchClock  apps/server/src/ws/match-clock.ts: the time that the rooms of duels are told.
--   Sponsor  apps/server/src/sponsor.ts: the allowlist, its validator, origins, and the handler.
--   NetworkEnv  apps/server/src/network-env.ts: the settings of each network, which give Sponsor its
--     packages.
--   Season  the queries of the leaderboard in apps/server/src/db.ts.
--   PnlHistory  apps/web/src/lib/pnl-history.ts: the history of a chart, trimmed, stored and read.
--   DuelState, DuelResult  apps/web/src/lib/duel-state.ts and apps/web/src/lib/duel-result.ts.
--   Duel, Protocol, Env  the rows of apps/server/src/db.ts, the messages of
--     apps/server/src/ws/protocol.ts, the settings of apps/server/src/env.ts.
--
-- How the parts interact: Handlers lets a `queue_join` message through by Ratelimit and the gate
-- of Funding; it makes Matchmaking read ratings and choose by Mmr, and ends in a deck of the
-- Deckmaster and a duel on the chain, which the Keeper reveals, settles card by card, and
-- finalizes; the result is rated by Mmr.Ladder and shown by DuelResult. The Indexer follows the
-- events of the chain: it tells a challenger of its duel by the pairings of Matchmaking, mirrors
-- the duel and broadcasts it to its room, and has the ratings written; MatchClock reads the
-- mirror. The Sponsor pays for the transactions, on what NetworkEnv configures, through the
-- limiter of Ratelimit.
--
-- Numbers: amounts and times are natural numbers, ratings are integers; all that are modelled so
-- are integers or whole numbers of milliseconds in the source. Tokens of the limiter are exact
-- where the source has floating-point numbers, so that its rounding is not modelled. Loops run
-- over lists, and a loop with a bound has the steps that are left as its argument: the ten pages
-- of a drain, for which Indexer.Drain.Caught counts the ticks that catch up. The bytes of a
-- deck's seed are a list, whose length Deckmaster.Deck.Total bounds. Only the digits of a numeral
-- take fuel, the number itself, which PnlHistory.Decimal reads back.
--
-- Waits: `queue_join` is cut at its waits for the gate and for the markets into parts that each
-- find the world that other handlers leave (Handlers.Next); the reads behind one wait are its
-- replies. A pass of the Keeper is one step. A tick of the Indexer, the OracleStream or the
-- MatchClock runs as one step; what the chain and the database answer in it are its arguments,
-- failures included. The library that signs for the Sponsor is a parameter, assumed to refuse
-- where the validator raises an issue. The order in which the database gives rows of equal
-- ratings is a parameter. The text of a stored history is kept as its JSON value.
--
-- Not modelled: the prizes of a season, which are floating-point amounts, SQL beyond the rows
-- that it reads and writes, HTTP routing, timers that repeat a tick, decoding of JSON from the
-- chain, rendering, the contracts, and the strikes of the `svi_quote` mode, which are
-- floating-point quantiles.
pub mod PnlHistory
pub mod Prelude
pub mod Ratelimit
pub mod Duel
pub mod Protocol
pub mod Env
pub mod Matchmaking
pub mod Mmr
pub mod Keeper
pub mod Deckmaster
pub mod Funding
pub mod DuelState
pub mod DuelResult
pub mod Chat
pub mod Handlers
pub mod Indexer
pub mod OracleStream
pub mod Sponsor
pub mod NetworkEnv
pub mod Season
pub mod MatchClock
