-- ===== src/Indexer/Tick.antt =====
-- apps/server/src/indexer.ts: `refreshDuel`, `tick`, and the first cursors. A tick drains the
-- trackers, then reads every duel that they touched anew, then rates those that were finalized.
use flicky.Prelude.{
  ℕ, String, Bool, true, false, ◌||◌, Option, none, some, List, [], ◌∷◌, str_eq, if◌then◌else◌,
}
use flicky.Prelude.Int.{ℤ}
use flicky.Prelude.Maps.{lookup}
use flicky.Duel.{DuelRow, DuelWinner, p0, p1, tie}
use flicky.Env.{Env}
use flicky.Protocol.{room_state}
use flicky.Matchmaking.{World, broadcast_room}
use flicky.Mmr.Ladder.{DuelOutcome, p0_win, p1_win, tied, apply_duel_outcome}
use flicky.Indexer.{Db}
use flicky.Indexer.Drain.{Replies, drain}
use flicky.Indexer.Drain.Ordered.{handle_all}
use flicky.Indexer.Events.{
  Tracker, trackers, DuelEvent, Finalized, Touching, on_event, OrderMinted, on_order_minted,
  MarketSettled, on_market_settled, MarketCreated, on_market_created,
}
use flicky.Indexer.Duels.{DuelObject, duel_row, upsert_duel, set_duel_winner}

-- What the chain and the database answer in one tick. `fetched` is none where it throws, and
-- some none where there is no such object; a write that is not `written` is caught.
pub record TickReplies : Type 0 where
  pub now : ℕ
  pub duel_events : Tracker → Replies DuelEvent
  pub orders : Replies OrderMinted
  pub settlements : Replies MarketSettled
  pub markets : Replies MarketCreated
  pub readable : String → Bool
  pub fetched : String → Option (Option DuelObject)
  pub premium_written : String × ℕ → Bool
  pub settlement_written : String → Bool
  pub market_written : String → Bool
  pub upserted : String → Bool
  pub winner_written : String → Bool
  pub rating_written : String → Bool

pub record Cursors : Type 0 where
  pub of_tracker : Tracker → Option String
  pub orders : Option String
  pub settlements : Option String
  pub markets : Option String

abbrev pub same_tracker : Tracker → Tracker → Bool
same_tracker Tracker.duel_created Tracker.duel_created = true
same_tracker Tracker.duel_joined Tracker.duel_joined = true
same_tracker Tracker.deck_revealed Tracker.deck_revealed = true
same_tracker Tracker.swipe_recorded Tracker.swipe_recorded = true
same_tracker Tracker.card_settled Tracker.card_settled = true
same_tracker Tracker.duel_finalized Tracker.duel_finalized = true
same_tracker Tracker.duel_refunded Tracker.duel_refunded = true
same_tracker Tracker.duel_forfeited Tracker.duel_forfeited = true
same_tracker _ _ = false

pub record Indexer : Type 0 where
  pub cursors : Cursors
  pub db : Db
  pub world : World

abbrev pub zero_address : String
zero_address = "0x0000000000000000000000000000000000000000000000000000000000000000"

-- `winner` of a finalized duel, against the first player.
unfoldable pub outcome_by_winner : String → String → DuelOutcome
outcome_by_winner winner player0 =
    if str_eq winner zero_address || str_eq winner "0x0"
    then tied
    else if str_eq winner player0
    then p0_win
    else p1_win

abbrev pub winner_column : DuelOutcome → DuelWinner
winner_column p0_win = p0
winner_column p1_win = p1
winner_column tied = tie

abbrev pub row_if : Bool → Option DuelRow → Option DuelRow
row_if true row = row
row_if false row = none

module _ (env : Env) (new_rating : ℤ → ℤ → ℕ → ℤ) (normalize : String → String) where
  -- The loop over the trackers; an exception ends its tracker only.
  unfoldable pub drain_trackers :
      (String → Option DuelRow)
      → (Tracker → Replies DuelEvent)
      → List Tracker
      → (Tracker → Option String)
      → Touching
      → (Tracker → Option String) × Touching
  drain_trackers read_row events [] at t = (at, t)
  drain_trackers read_row events (k ∷ ks) at t =
      let d = drain (handle_all (on_event normalize read_row k)) (events k) (at k) t in
      drain_trackers read_row events ks (λ j. if same_tracker j k then d.cursor else at j) d.state

  unfoldable pub refresh_duel : TickReplies → String → Db × World → Db × World
  unfolding duel_row upsert_duel
  refresh_duel r duel_id (db, w) = elim (r.fetched duel_id) [
    | none ↦ (db, w)
    | some none ↦ (db, w)
    | some (some f) ↦
        let row = duel_row normalize db r.now duel_id f in
        (
          (if r.upserted duel_id then upsert_duel row db else db),
          broadcast_room duel_id (room_state row) w,
        )
  ]

  unfoldable pub refresh_all : TickReplies → List String → Db × World → Db × World
  unfolding refresh_duel
  refresh_all r [] s = s
  refresh_all r (id ∷ ids) s = refresh_all r ids (refresh_duel r id s)

  -- One finalized duel of known players: its winner, then the ratings.
  unfoldable pub rate_players : TickReplies → Finalized → String → String → Db → Db
  unfolding outcome_by_winner set_duel_winner apply_duel_outcome
  rate_players r f a b db =
      let o = outcome_by_winner f.winner a in
      let db' =
        if r.winner_written f.duel_id then set_duel_winner f.duel_id (winner_column o) db else db in
      let table = apply_duel_outcome env new_rating a b o r.now db'.player_ratings in
      if r.rating_written f.duel_id then record db' { player_ratings = table } else db'

  unfoldable pub rate_one : TickReplies → Finalized → Db → Db
  unfolding rate_players
  rate_one r f db = elim f.p0 [
    | none ↦ db
    | some a ↦ elim f.p1 [
      | none ↦ db
      | some b ↦ if str_eq a "" || str_eq b "" then db else rate_players r f a b db
    ]
  ]

  unfoldable pub rate_all : TickReplies → List Finalized → Db → Db
  unfolding rate_one
  rate_all r [] db = db
  rate_all r (f ∷ fs) db = rate_all r fs (rate_one r f db)

  unfoldable pub tick : TickReplies → Indexer → Indexer
  unfolding drain_trackers refresh_all rate_all
  tick r s =
      let read_row = λ (id : String). row_if (r.readable id) (lookup id s.db.duels) in
      let none_touched : Touching = record { touched = []; finalized = []; world = s.world } in
      let drained =
        drain_trackers read_row r.duel_events trackers s.cursors.of_tracker none_touched in
      let t = drained.1 in
      let orders =
        drain (handle_all (on_order_minted normalize r.premium_written)) r.orders s.cursors.orders
          s.db in
      let settlements =
        drain (handle_all (on_market_settled normalize r.settlement_written r.now)) r.settlements
          s.cursors.settlements orders.state in
      let markets =
        drain (handle_all (on_market_created normalize r.market_written)) r.markets
          s.cursors.markets settlements.state in
      let refreshed = refresh_all r t.touched (markets.state, t.world) in
      record {
        cursors = record {
          of_tracker = drained.0;
          orders = orders.cursor;
          settlements = settlements.cursor;
          markets = markets.cursor;
        };
        db = rate_all r t.finalized refreshed.0;
        world = refreshed.1;
      }

  unfoldable pub ticks : List TickReplies → Indexer → Indexer
  unfolding tick
  ticks [] s = s
  ticks (r ∷ rs) s = ticks rs (tick r s)

-- `seedCursor`: a tracker without a cursor starts behind the latest event. `latest` is none where
-- the query throws or finds no event.
unfoldable pub seed_cursor : Option String → Option String → Option String
seed_cursor none latest = latest
seed_cursor (some c) latest = some c

-- `start` seeds every tracker but that of the markets.
unfoldable pub seed_cursors :
    Cursors → (Tracker → Option String) → Option String → Option String → Cursors
unfolding seed_cursor
seed_cursors c latest latest_order latest_settlement = record c {
  of_tracker = λ k. seed_cursor (c.of_tracker k) (latest k);
  orders = seed_cursor c.orders latest_order;
  settlements = seed_cursor c.settlements latest_settlement;
}
