-- ===== src/Indexer/Told.antt =====
-- apps/server/src/indexer.ts: what a tick does to the queues, the rooms and the pending pairings,
-- and whom it tells of a duel.
use flicky.Prelude.{
  ℕ, String, ◌≡◌, refl, inl, inr, Option, none, some, List, [], ◌∷◌, arith, if◌then◌else◌,
  Option-cases,
}
use flicky.Prelude.Int.{ℤ}
use flicky.Prelude.Maps.{lookup, put, lookup-delete, lookup-delete_self}
use flicky.Prelude.Buckets.{members}
use flicky.Duel.{DuelRow}
use flicky.Env.{Env}
use flicky.Protocol.{duel_assigned, room_state}
use flicky.Matchmaking.{World, send_each, broadcast_room}
use flicky.Matchmaking.Registry.{send_to_addresses}
use flicky.Matchmaking.Pairing.{take_matched_pair}
use flicky.Matchmaking.Events.Handshakes.{Timed}
use flicky.Indexer.{Db}
use flicky.Indexer.Drain.{drain, Replies}
use flicky.Indexer.Drain.Ordered.{handle_all}
use flicky.Indexer.Drain.Kept.{drain-keeps, handle_all-keeps}
use flicky.Indexer.Events.{
  Tracker, DuelEvent, Touching, duel_created, trackers, assign_duel, dispatch, on_event,
}
use flicky.Indexer.Tick.{
  TickReplies, Indexer, same_tracker, row_if, drain_trackers, refresh_duel, refresh_all, tick,
}

-- The event of the duel that a matched creator made tells every socket of the challenger that was
-- announced, and takes the pairing out; the same event tells nobody a second time.
pub created-told_once :
    (normalize : String → String) (read_row : String → Option DuelRow) (e : DuelEvent)
    (id creator challenger : String) (t : Touching)
    → e.duel_id ≡ some id
    → e.creator ≡ some creator
    → lookup creator t.world.pending_pairs ≡ some challenger
    → let once = on_event normalize read_row duel_created e t in
      let twice = on_event normalize read_row duel_created e once in
      (once.world.outbox
        ≡ send_each
            (members challenger t.world.sockets_by_address)
            (duel_assigned (normalize id) creator)
            t.world.outbox)
      × ((lookup creator once.world.pending_pairs ≡ none)
          × (twice.world.outbox ≡ once.world.outbox))
unfolding on_event dispatch assign_duel take_matched_pair send_to_addresses
created-told_once normalize read_row e id creator challenger t i c p = (
  ground (arith, i, c, p),
  (
    ground (arith, i, c, p, lookup-delete_self creator t.world.pending_pairs),
    ground (arith, i, c, p, lookup-delete_self creator t.world.pending_pairs),
  ),
)

-- Who is connected, waits, watches or is about to forfeit stays as it was.
pub record Quiet (w w' : World) : Type 0 where
  pub sockets : w'.sockets ≡ w.sockets
  pub sockets_by_address : w'.sockets_by_address ≡ w.sockets_by_address
  pub queues : w'.queues ≡ w.queues
  pub room_subscribers : w'.room_subscribers ≡ w.room_subscribers
  pub forfeit_timers : w'.forfeit_timers ≡ w.forfeit_timers
  pub retries : w'.retries ≡ w.retries

-- Only what is sent, and the pending pairings with their timers, may differ.
pub record Kept (w₀ w : World) : Type 0 where
  pub quiet : Quiet w₀ w
  pub still_timed : Timed w

assign-Kept :
    (w₀ : World) (id : String) (creator : Option String) (w : World)
    → Kept w₀ w
    → Kept w₀ (assign_duel id creator w)
unfolding assign_duel take_matched_pair send_to_addresses
assign-Kept w₀ id none w k = k
assign-Kept w₀ id (some creator) w k = record {
  quiet = record {
    sockets = ground (arith, k.quiet.sockets);
    sockets_by_address = ground (arith, k.quiet.sockets_by_address);
    queues = ground (arith, k.quiet.queues);
    room_subscribers = ground (arith, k.quiet.room_subscribers);
    forfeit_timers = ground (arith, k.quiet.forfeit_timers);
    retries = ground (arith, k.quiet.retries);
  };
  still_timed = record {
    timed = λ a. ground (
      arith,
      k.still_timed.timed a,
      lookup-delete creator a w.pending_pairs,
      lookup-delete creator a w.pending_pair_timers,
    );
  };
}

-- What is sent aside, nothing changes.
Kept-of_sent :
    (w₀ w : World) (id : String) (row : DuelRow)
    → Kept w₀ w
    → Kept w₀ (broadcast_room id (room_state row) w)
unfolding broadcast_room
Kept-of_sent w₀ w id row k = record {
  quiet = record {
    sockets = k.quiet.sockets;
    sockets_by_address = k.quiet.sockets_by_address;
    queues = k.quiet.queues;
    room_subscribers = k.quiet.room_subscribers;
    forfeit_timers = k.quiet.forfeit_timers;
    retries = k.quiet.retries;
  };
  still_timed = record { timed = k.still_timed.timed };
}

dispatch-Kept :
    (w₀ : World) (k : Tracker) (id : String) (row : Option DuelRow) (e : DuelEvent) (t : Touching)
    → Kept w₀ t.world
    → Kept w₀ (dispatch k id row e t).world
unfolding dispatch
dispatch-Kept w₀ Tracker.duel_created id row e t h = assign-Kept w₀ id e.creator t.world h
dispatch-Kept w₀ Tracker.duel_finalized id row e t h = h
dispatch-Kept w₀ Tracker.duel_joined id row e t h = h
dispatch-Kept w₀ Tracker.deck_revealed id row e t h = h
dispatch-Kept w₀ Tracker.swipe_recorded id row e t h = h
dispatch-Kept w₀ Tracker.card_settled id row e t h = h
dispatch-Kept w₀ Tracker.duel_refunded id row e t h = h
dispatch-Kept w₀ Tracker.duel_forfeited id row e t h = h

module _ (normalize : String → String) (read_row : String → Option DuelRow) (w₀ : World) where
  on_event-Kept :
      (k : Tracker) (e : DuelEvent) (t : Touching)
      → Kept w₀ t.world
      → Kept w₀ (on_event normalize read_row k e t).world
  unfolding on_event
  on_event-Kept k e t h = elim (Option-cases e.duel_id) [
    | inl i ↦ rw (i, on_event) h
    | inr (id, i) ↦
        rw (i, on_event)
          (dispatch-Kept w₀ k (normalize id) (read_row (normalize id)) e
            (record t { touched = put (normalize id) t.touched }) h)
  ]

module _ (env : Env) (new_rating : ℤ → ℤ → ℕ → ℤ) (normalize : String → String) where
  drain_trackers-Kept :
      (read_row : String → Option DuelRow) (events : Tracker → Replies DuelEvent) (w₀ : World)
      (ks : List Tracker) (at : Tracker → Option String) (t : Touching)
      → Kept w₀ t.world
      → Kept w₀ (drain_trackers env new_rating normalize read_row events ks at t).1.world
  unfolding drain_trackers
  drain_trackers-Kept read_row events w₀ [] at t h = h
  drain_trackers-Kept read_row events w₀ (k ∷ ks) at t h =
      let on = on_event normalize read_row k in
      let d = drain (handle_all on) (events k) (at k) t in
      drain_trackers-Kept read_row events w₀ ks (λ j. if same_tracker j k then d.cursor else at j)
        d.state
        (drain-keeps (λ (u : Touching). Kept w₀ u.world) (handle_all on)
          (handle_all-keeps (λ (u : Touching). Kept w₀ u.world) on
            (on_event-Kept normalize read_row w₀ k))
          (events k) (at k) t h)

  refresh_duel-Kept :
      (r : TickReplies) (k : String) (w₀ : World) (db : Db) (w : World)
      → Kept w₀ w
      → Kept w₀ (refresh_duel env new_rating normalize r k (db, w)).1
  unfolding refresh_duel
  refresh_duel-Kept r k w₀ db w h = elim (Option-cases (r.fetched k)) [
    | inl e ↦ rw (e, refresh_duel) h
    | inr (none, e) ↦ rw (e, refresh_duel) h
    | inr (some f, e) ↦ rw (e, refresh_duel) (Kept-of_sent w₀ w k _ h)
  ]

  refresh_all-Kept :
      (r : TickReplies) (ids : List String) (w₀ : World) (db : Db) (w : World)
      → Kept w₀ w
      → Kept w₀ (refresh_all env new_rating normalize r ids (db, w)).1
  unfolding refresh_all
  refresh_all-Kept r [] w₀ db w h = h
  refresh_all-Kept r (k ∷ ks) w₀ db w h =
      let (db', w') = refresh_duel env new_rating normalize r k (db, w) in
      refresh_all-Kept r ks w₀ db' w' (refresh_duel-Kept r k w₀ db w h)

  -- A tick leaves the sockets, the queues, the rooms, the forfeit timers and the pairs that wait for
  -- a deck as they are; and if every pending pairing had its timer, it still has.
  pub tick-Kept :
      (r : TickReplies) (s : Indexer)
      → Timed s.world
      → Kept s.world (tick env new_rating normalize r s).world
  unfolding tick
  tick-Kept r s h =
      let read_row = λ (id : String). row_if (r.readable id) (lookup id s.db.duels) in
      let start : Touching = record { touched = []; finalized = []; world = s.world } in
      let same : Kept s.world s.world = record {
        quiet = record {
          sockets = refl;
          sockets_by_address = refl;
          queues = refl;
          room_subscribers = refl;
          forfeit_timers = refl;
          retries = refl;
        };
        still_timed = h;
      } in
      let t =
        (drain_trackers env new_rating normalize read_row r.duel_events trackers
          s.cursors.of_tracker start).1 in
      refresh_all-Kept r t.touched s.world _ t.world (
        drain_trackers-Kept read_row r.duel_events s.world trackers s.cursors.of_tracker start same)
