-- ===== src/Indexer/Winners.antt =====
-- apps/server/src/indexer.ts: what a tick does to the tables beside the ratings.
use flicky.Prelude.{
  Bool, ℕ, String, ◌≡◌, refl, ap, ◌∙◌, ◌≢◌, inl, inr, Option, none, some, List, [], ◌∷◌, arith,
  eq_iff, Bool-cases, Option-cases,
}
use flicky.Prelude.{All}
use flicky.Prelude.Int.{ℤ}
use flicky.Prelude.Maps.{lookup, lookup-insert}
use flicky.Duel.{DuelRow, DuelWinner}
use flicky.Env.{Env}
use flicky.Matchmaking.{World}
use flicky.Indexer.{Db}
use flicky.Indexer.Drain.{drain}
use flicky.Indexer.Drain.Ordered.{handle_all}
use flicky.Indexer.Drain.Kept.{drain-keeps, handle_all-keeps}
use flicky.Indexer.Events.{
  Finalized, Touching, trackers, OrderMinted, MarketSettled, MarketCreated, on_order_minted,
  on_market_settled, on_market_created,
}
use flicky.Indexer.Duels.{winner_of, duel_row, upsert_duel, set_duel_winner}
use flicky.Indexer.Tick.{
  row_if, TickReplies, Indexer, drain_trackers, refresh_duel, refresh_all, rate_players, rate_one,
  rate_all, tick,
}

-- The winner that is recorded for a duel.
abbrev pub winner_at : String → Db → Option DuelWinner
winner_at id db = winner_of (lookup id db.duels)

upsert-winner :
    (id : String) (row : DuelRow) (db : Db) → winner_at id (upsert_duel row db) ≡ winner_at id db
unfolding upsert_duel
upsert-winner id row db = ground (
  arith,
  lookup-insert row.id id (record row { winner = winner_of (lookup row.id db.duels) }) db.duels,
  eq_iff row.id id,
)

set-winner_other :
    (k id : String) (w : DuelWinner) (db : Db)
    → k ≢ id
    → winner_at id (set_duel_winner k w db) ≡ winner_at id db
unfolding set_duel_winner
set-winner_other k id w db d = elim (Option-cases (lookup k db.duels)) [
  | inl e ↦ rw (e, set_duel_winner)
  | inr (row, e) ↦
      rw (e, set_duel_winner)
        (ground
          (arith, d, lookup-insert k id (record row { winner = some w }) db.duels, eq_iff k id))
]

-- What neither the ratings nor the duels notice.
abbrev pub SameTables : Db → Db → Type 0
SameTables db db' = (db'.player_ratings ≡ db.player_ratings) × (db'.duels ≡ db.duels)

order-same :
    (normalize : String → String) (written : String × ℕ → Bool) (db₀ : Db) (e : OrderMinted)
    (db : Db)
    → SameTables db₀ db
    → SameTables db₀ (on_order_minted normalize written e db)
unfolding on_order_minted
order-same normalize written db₀ e db h = (ground (arith, h), ground (arith, h))

settled-same :
    (normalize : String → String) (written : String → Bool) (now : ℕ) (db₀ : Db) (e : MarketSettled)
    (db : Db)
    → SameTables db₀ db
    → SameTables db₀ (on_market_settled normalize written now e db)
unfolding on_market_settled
settled-same normalize written now db₀ e db h = (ground (arith, h), ground (arith, h))

created-same :
    (normalize : String → String) (written : String → Bool) (db₀ : Db) (e : MarketCreated) (db : Db)
    → SameTables db₀ db
    → SameTables db₀ (on_market_created normalize written e db)
unfolding on_market_created
created-same normalize written db₀ e db h = (ground (arith, h), ground (arith, h))

module _ (env : Env) (new_rating : ℤ → ℤ → ℕ → ℤ) (normalize : String → String) where
  -- What a tick's duel trackers collect.
  unfoldable pub collected : TickReplies → Indexer → Touching
  unfolding drain_trackers
  collected r s =
      (drain_trackers env new_rating normalize (λ id. row_if (r.readable id) (lookup id s.db.duels))
        r.duel_events trackers s.cursors.of_tracker
        (record { touched = []; finalized = []; world = s.world })).1

  -- The tables after the drains of orders, settlements and markets.
  unfoldable pub mirrored : TickReplies → Indexer → Db
  mirrored r s =
      let orders =
        drain (handle_all (on_order_minted normalize r.premium_written)) r.orders s.cursors.orders
          s.db in
      let settlements =
        drain (handle_all (on_market_settled normalize r.settlement_written r.now)) r.settlements
          s.cursors.settlements orders.state in
      (drain (handle_all (on_market_created normalize r.market_written)) r.markets s.cursors.markets
        settlements.state).state

  pub mirrored-same : (r : TickReplies) (s : Indexer) → SameTables s.db (mirrored r s)
  unfolding mirrored
  mirrored-same r s =
      let P = SameTables s.db in
      let a =
        drain-keeps P (handle_all (on_order_minted normalize r.premium_written))
          (handle_all-keeps P (on_order_minted normalize r.premium_written)
            (order-same normalize r.premium_written s.db))
          r.orders s.cursors.orders s.db (refl, refl) in
      let b =
        drain-keeps P (handle_all (on_market_settled normalize r.settlement_written r.now))
          (handle_all-keeps P (on_market_settled normalize r.settlement_written r.now)
            (settled-same normalize r.settlement_written r.now s.db))
          r.settlements s.cursors.settlements _ a in
      drain-keeps P (handle_all (on_market_created normalize r.market_written))
        (handle_all-keeps P (on_market_created normalize r.market_written)
          (created-same normalize r.market_written s.db))
        r.markets s.cursors.markets _ b

  -- A tick, in its parts.
  pub tick-parts :
      (r : TickReplies) (s : Indexer)
      → let t = collected r s in
        (tick env new_rating normalize r s).db
        ≡ rate_all env new_rating normalize r t.finalized
            (refresh_all env new_rating normalize r t.touched (mirrored r s, t.world)).0
  unfolding tick collected mirrored
  tick-parts r s = refl

  refresh_duel-winner :
      (r : TickReplies) (k id : String) (db : Db) (w : World)
      → winner_at id (refresh_duel env new_rating normalize r k (db, w)).0 ≡ winner_at id db
  unfolding refresh_duel
  refresh_duel-winner r k id db w = elim (Option-cases (r.fetched k)) [
    | inl e ↦ rw (e, refresh_duel)
    | inr (none, e) ↦ rw (e, refresh_duel)
    | inr (some f, e) ↦ elim (Bool-cases (r.upserted k)) [
      | inl u ↦ rw (e, refresh_duel, u) (upsert-winner id (duel_row normalize db r.now k f) db)
      | inr u ↦ rw (e, refresh_duel, u)
    ]
  ]

  refresh_all-winner :
      (r : TickReplies) (ids : List String) (id : String) (db : Db) (w : World)
      → winner_at id (refresh_all env new_rating normalize r ids (db, w)).0 ≡ winner_at id db
  unfolding refresh_all
  refresh_all-winner r [] id db w = refl
  refresh_all-winner r (k ∷ ks) id db w =
      let (db', w') = refresh_duel env new_rating normalize r k (db, w) in
      refresh_all-winner r ks id db' w' ∙ refresh_duel-winner r k id db w

  rate_one-winner :
      (r : TickReplies) (f : Finalized) (id : String) (db : Db)
      → f.duel_id ≢ id
      → winner_at id (rate_one env new_rating normalize r f db) ≡ winner_at id db
  unfolding rate_one rate_players
  rate_one-winner r f id db d =
      let other = λ (w : DuelWinner). set-winner_other f.duel_id id w db d in
      ground (arith, other DuelWinner.p0, other DuelWinner.p1, other DuelWinner.tie)

  rate_all-winner :
      (r : TickReplies) (fs : List Finalized) (id : String) (db : Db)
      → All (λ f. f.duel_id ≢ id) fs
      → winner_at id (rate_all env new_rating normalize r fs db) ≡ winner_at id db
  unfolding rate_all
  rate_all-winner r [] id db h = refl
  rate_all-winner r (f ∷ fs) id db (d, h) =
      rate_all-winner r fs id (rate_one env new_rating normalize r f db) h
      ∙ rate_one-winner r f id db d

  -- A tick leaves the recorded winner of a duel as it is, however often the duel is read anew, if
  -- no finalized event of the duel was drained.
  pub tick-keeps_winner :
      (r : TickReplies) (s : Indexer) (id : String)
      → All (λ f. f.duel_id ≢ id) (collected r s).finalized
      → winner_at id (tick env new_rating normalize r s).db ≡ winner_at id s.db
  tick-keeps_winner r s id h =
      let t = collected r s in
      let refreshed = refresh_all env new_rating normalize r t.touched (mirrored r s, t.world) in
      rw (tick-parts r s) (
        rate_all-winner r t.finalized id refreshed.0 h
        ∙ refresh_all-winner r t.touched id (mirrored r s) t.world
        ∙ ap (λ d. winner_of (lookup id d)) (mirrored-same r s).1)
