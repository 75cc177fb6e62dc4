-- ===== src/Indexer/Rated.antt =====
-- apps/server/src/indexer.ts: which players a tick rates.
use flicky.Prelude.{
  ℕ, ◌+◌, String, ◌≡◌, refl, ap, ◌∙◌, ◌≢◌, inl, inr, Bool, true, false, not, ◌&&◌, ◌||◌, none, some,
  List, [], ◌∷◌, arith, eq_iff, str_eq, if◌then◌else◌, Bool-cases, Option-cases,
}
use flicky.Prelude.{All, times}
use flicky.Prelude.Int.{ℤ}
use flicky.Duel.{DuelWinner}
use flicky.Env.{Env}
use flicky.Matchmaking.{World}
use flicky.Mmr.Ladder.{PlayerRating, get_player_rating, apply_duel_outcome}
use flicky.Mmr.Ladder.Replay.{involves, wins_of, losses_of, apply-Counts}
use flicky.Indexer.{Db}
use flicky.Indexer.Events.{Finalized}
use flicky.Indexer.Duels.{set_duel_winner, upsert_duel}
use flicky.Indexer.Tick.{
  TickReplies, Indexer, outcome_by_winner, refresh_duel, refresh_all, rate_players, rate_one,
  rate_all, tick, zero_address,
}
use flicky.Indexer.Winners.{collected, mirrored, mirrored-same, tick-parts}

-- What a finalized duel adds to a player's row, if both of its players are known.
abbrev pub of_players : (String → String → ℕ) → Finalized → ℕ
of_players amount f = elim f.p0 [
  | none ↦ 0
  | some a ↦ elim f.p1 [ none ↦ 0 | some b ↦ if str_eq a "" || str_eq b "" then 0 else amount a b ]
]

abbrev pub tally : (Finalized → String → String → ℕ) → List Finalized → ℕ
tally amount [] = 0
tally amount (f ∷ fs) = of_players (amount f) f + tally amount fs

-- No duel is of a player with itself.
abbrev pub OfTwo : Finalized → Type 0
OfTwo f = (a b : String) → f.p0 ≡ some a → f.p1 ≡ some b → a ≢ b

abbrev pub AllWritten : TickReplies → Type 0
AllWritten r = (id : String) → r.rating_written id ≡ true

set_winner-ratings :
    (id : String) (w : DuelWinner) (db : Db)
    → (set_duel_winner id w db).player_ratings ≡ db.player_ratings
unfolding set_duel_winner
set_winner-ratings id w db = ground arith

-- The event names no winner: the zero address, in its full or its short form.
abbrev pub is_tie : String → Bool
is_tie winner = str_eq winner "0x0" || str_eq winner zero_address

module _ (env : Env) (new_rating : ℤ → ℤ → ℕ → ℤ) (normalize : String → String) (x : String) where
  abbrev pub row_of : Db → PlayerRating
  row_of db = get_player_rating env x db.player_ratings

  abbrev pub game : Finalized → String → String → ℕ
  game f a b = times (involves env new_rating x a b)

  abbrev pub win : Finalized → String → String → ℕ
  win f a b =
      if is_tie f.winner
      then 0
      else times ((str_eq a x && str_eq f.winner a) || (str_eq b x && not (str_eq f.winner a)))

  abbrev pub loss : Finalized → String → String → ℕ
  loss f a b =
      if is_tie f.winner
      then 0
      else times ((str_eq a x && not (str_eq f.winner a)) || (str_eq b x && str_eq f.winner a))

  rated_as_named :
      (f : Finalized) (a b : String)
      → a ≢ b
      → (wins_of env new_rating x a b (outcome_by_winner f.winner a) ≡ win f a b)
        × (losses_of env new_rating x a b (outcome_by_winner f.winner a) ≡ loss f a b)
  unfolding outcome_by_winner
  rated_as_named f a b two =
      let apart : (str_eq a x && str_eq b x) ≡ false =
        ground (arith, two, eq_iff a x, eq_iff b x) in
      (ground (arith, apart), ground (arith, apart))

  -- What a row holds over another one.
  abbrev pub Tallied : PlayerRating → PlayerRating → List Finalized → Type 0
  Tallied new old fs =
      (new.games_played ≡ old.games_played + tally game fs)
      × ((new.wins ≡ old.wins + tally win fs) × (new.losses ≡ old.losses + tally loss fs))

  rate_players-table :
      (r : TickReplies) (f : Finalized) (a b : String) (db : Db)
      → r.rating_written f.duel_id ≡ true
      → (rate_players env new_rating normalize r f a b db).player_ratings
        ≡ apply_duel_outcome env new_rating a b
            (outcome_by_winner f.winner a)
            r.now
            db.player_ratings
  unfolding rate_players set_duel_winner
  rate_players-table r f a b db written = elim (Bool-cases (r.winner_written f.duel_id)) [
    | inl e ↦
        rw (written, e)
          (ap (λ t. apply_duel_outcome env new_rating a b (outcome_by_winner f.winner a) r.now t)
            (set_winner-ratings f.duel_id _ db))
    | inr e ↦ rw (written, e)
  ]

  -- One finalized duel of known players is rated once.
  rate_one-Tallied :
      (r : TickReplies) (f : Finalized) (db : Db)
      → AllWritten r
      → OfTwo f
      → Tallied (row_of (rate_one env new_rating normalize r f db)) (row_of db) (f ∷ [])
  unfolding rate_one
  rate_one-Tallied r f db written two = elim (Option-cases f.p0) [
    | inl e ↦ rw (e, rate_one) (ground arith, (ground arith, ground arith))
    | inr (a, e) ↦ elim (Option-cases f.p1) [
      | inl e' ↦ rw (e, e', rate_one) (ground arith, (ground arith, ground arith))
      | inr (b, e') ↦ elim (Bool-cases (str_eq a "" || str_eq b "")) [
        | inl blank ↦ rw (e, e', rate_one, blank) (ground arith, (ground arith, ground arith))
        | inr known ↦
            let (games, (wins, (losses, ties))) =
              apply-Counts env new_rating x a b (outcome_by_winner f.winner a) r.now
                db.player_ratings (two a b e e') in
            let (won, lost) = rated_as_named f a b (two a b e e') in
            rw (e, e', rate_one, known, rate_players-table r f a b db (written f.duel_id))
              (ground (arith, games), (omega (arith, wins, won), omega (arith, losses, lost)))
      ]
    ]
  ]

  rate_all-Tallied :
      (r : TickReplies) (fs : List Finalized) (db : Db)
      → AllWritten r
      → All OfTwo fs
      → Tallied (row_of (rate_all env new_rating normalize r fs db)) (row_of db) fs
  unfolding rate_all
  rate_all-Tallied r [] db written two = (ground arith, (ground arith, ground arith))
  rate_all-Tallied r (f ∷ fs) db written (p, two) =
      let (g, (w, l)) = rate_one-Tallied r f db written p in
      let (gs, (ws, ls)) =
        rate_all-Tallied r fs (rate_one env new_rating normalize r f db) written two in
      (omega (arith, g, gs), (omega (arith, w, ws), omega (arith, l, ls)))

  refresh_all-ratings :
      (r : TickReplies) (ids : List String) (db : Db) (w : World)
      → (refresh_all env new_rating normalize r ids (db, w)).0.player_ratings ≡ db.player_ratings
  unfolding refresh_all refresh_duel upsert_duel
  refresh_all-ratings r [] db w = refl
  refresh_all-ratings r (k ∷ ks) db w =
      let (db', w') = refresh_duel env new_rating normalize r k (db, w) in
      refresh_all-ratings r ks db' w' ∙ ground arith

  -- A tick rates every duel whose finalized event it drained once, if both players are known and
  -- the ratings can be written, where no such duel is of a player with itself: the row of a player
  -- counts these games, those won and those lost. The winner is the address that the event names:
  -- the creator's is a win of the creator, the zero address a tie, and any other one a win of the
  -- challenger.
  pub tick-rates :
      (r : TickReplies) (s : Indexer)
      → AllWritten r
      → All OfTwo (collected env new_rating normalize r s).finalized
      → Tallied
          (row_of (tick env new_rating normalize r s).db)
          (row_of s.db)
          (collected env new_rating normalize r s).finalized
  tick-rates r s written two =
      let t = collected env new_rating normalize r s in
      let before = mirrored env new_rating normalize r s in
      let refreshed = refresh_all env new_rating normalize r t.touched (before, t.world) in
      let same =
        refresh_all-ratings r t.touched before t.world
        ∙ (mirrored-same env new_rating normalize r s).0 in
      let row_same = ap (λ table. get_player_rating env x table) same in
      rw (tick-parts env new_rating normalize r s, ← row_same)
        (rate_all-Tallied r t.finalized refreshed.0 written two)
