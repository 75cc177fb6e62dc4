-- ===== src/Mmr/Ladder/Replay.antt =====
-- apps/server/src/mmr.ts: what the players' rows count.
use flicky.Prelude.{
  ℕ, ◌+◌, String, ◌≡◌, refl, ap, ◌≢◌, ◌⊎◌, inl, inr, Bool, true, false, ◌||◌, List, [], ◌∷◌, arith,
  eq_iff, str_eq, if◌then◌else◌, Bool-cases,
}
use flicky.Prelude.{times, All, not, ◌&&◌, Option, none, some, ltb, ◌==◌}
use flicky.Prelude.Int.{ℤ}
use flicky.Prelude.Maps.{lookup, insert, lookup-insert}
use flicky.Duel.{DuelRow, DuelWinner, p0, p1, tie}
use flicky.Env.{Env}
use flicky.Mmr.Ladder.{
  DuelOutcome, PlayerRating, Table, get_player_rating, outcome_from_duel, won0, won1, drew,
  reversed_onto, complete_row, apply_duel_outcome, replay, recompute_ratings_from_mirror,
}

winner-cases : (w : Option DuelWinner) → (w ≡ none) ⊎ ((v : DuelWinner) × (w ≡ some v))
winner-cases none = inl refl
winner-cases (some v) = inr (v, refl)

-- Both players of the row are known.
abbrev pub has_players : DuelRow → Bool
has_players d = if str_eq d.creator "" then false else not (str_eq d.challenger "")

-- A sum over the rows whose players are known.
abbrev pub total : (DuelRow → ℕ) → List DuelRow → ℕ
total f [] = 0
total f (d ∷ ds) = (if has_players d then f d else 0) + total f ds

-- Who won: by the winner that is recorded, and without one by the contract's comparison of each
-- side's payout and the other side's premium.
abbrev pub creator_won : DuelRow → Bool
creator_won d = elim d.winner [
  | some p0 ↦ true
  | some p1 ↦ false
  | some tie ↦ false
  | none ↦ ltb (d.p1_payout + d.p0_premium) (d.p0_payout + d.p1_premium)
]

abbrev pub challenger_won : DuelRow → Bool
challenger_won d = elim d.winner [
  | some p0 ↦ false
  | some p1 ↦ true
  | some tie ↦ false
  | none ↦ ltb (d.p0_payout + d.p1_premium) (d.p1_payout + d.p0_premium)
]

abbrev pub nobody_won : DuelRow → Bool
nobody_won d = elim d.winner [
  | some p0 ↦ false
  | some p1 ↦ false
  | some tie ↦ true
  | none ↦ d.p0_payout + d.p1_premium == d.p1_payout + d.p0_premium
]

-- The outcome that is rated is that of these.
outcome_from_duel-said :
    (d : DuelRow)
    → (won0 (outcome_from_duel d) ≡ times (creator_won d))
      × ((won1 (outcome_from_duel d) ≡ times (challenger_won d))
          × (drew (outcome_from_duel d) ≡ times (nobody_won d)))
unfolding outcome_from_duel
outcome_from_duel-said d = elim (winner-cases d.winner) [
  | inl e ↦ rw (e, outcome_from_duel) (ground arith, (ground arith, ground arith))
  | inr (p0, e) ↦ rw (e, outcome_from_duel) (refl, (refl, refl))
  | inr (p1, e) ↦ rw (e, outcome_from_duel) (refl, (refl, refl))
  | inr (tie, e) ↦ rw (e, outcome_from_duel) (refl, (refl, refl))
]

total-reversed_onto :
    (f : DuelRow → ℕ) (ds done : List DuelRow)
    → total f (reversed_onto ds done) ≡ total f ds + total f done
unfolding reversed_onto
total-reversed_onto f [] done = ground arith
total-reversed_onto f (d ∷ ds) done = ground (arith, total-reversed_onto f ds (d ∷ done))

abbrev pub TwoPlayers : DuelRow → Type 0
TwoPlayers d = d.creator ≢ d.challenger

TwoPlayers-reversed_onto :
    (ds done : List DuelRow)
    → All TwoPlayers ds
    → All TwoPlayers done
    → All TwoPlayers (reversed_onto ds done)
unfolding reversed_onto
TwoPlayers-reversed_onto [] done h k = k
TwoPlayers-reversed_onto (d ∷ ds) done (p, h) k = TwoPlayers-reversed_onto ds (d ∷ done) h (p, k)

module _ (env : Env) (new_rating : ℤ → ℤ → ℕ → ℤ) (x : String) where
  -- The row of a player, as the source reads it.
  abbrev pub row : Table → PlayerRating
  row table = get_player_rating env x table

  abbrev pub involves : String → String → Bool
  involves a b = str_eq a x || str_eq b x

  -- What the duel of two players adds to the wins and the losses of this one.
  abbrev pub wins_of : String → String → DuelOutcome → ℕ
  wins_of a b o = if str_eq a x then won0 o else if str_eq b x then won1 o else 0

  abbrev pub losses_of : String → String → DuelOutcome → ℕ
  losses_of a b o = if str_eq a x then won1 o else if str_eq b x then won0 o else 0

  abbrev pub Counts : PlayerRating → PlayerRating → String → String → DuelOutcome → Type 0
  Counts new old a b o =
      (new.games_played ≡ old.games_played + times (involves a b))
      × ((new.wins ≡ old.wins + wins_of a b o)
          × ((new.losses ≡ old.losses + losses_of a b o)
              × (new.ties ≡ old.ties + (if involves a b then drew o else 0))))

  two_rows :
      (a b : String) (new_a new_b : PlayerRating) (table : Table)
      → row (insert b new_b (insert a new_a table))
        ≡ (if str_eq b x then new_b else if str_eq a x then new_a else row table)
  unfolding get_player_rating
  two_rows a b new_a new_b table =
      ground (arith, lookup-insert b x new_b (insert a new_a table), lookup-insert a x new_a table)

  row_of :
      (k : String) (table : Table) → str_eq k x ≡ true → get_player_rating env k table ≡ row table
  row_of k table e =
      let same : k ≡ x = ground (arith, eq_iff k x) in ap (λ j. get_player_rating env j table) same

  pub apply-Counts :
      (a b : String) (o : DuelOutcome) (now : ℕ) (table : Table)
      → a ≢ b
      → Counts (row (apply_duel_outcome env new_rating a b o now table)) (row table) a b o
  unfolding apply_duel_outcome
  apply-Counts a b o now table d = elim (Bool-cases (str_eq b x)) [
    | inl e ↦
        let other : str_eq a x ≡ false = ground (arith, d, eq_iff a x, eq_iff b x) in
        rw (two_rows a b _ _ table, e, other, row_of b table e) (refl, (refl, (refl, refl)))
    | inr e ↦ elim (Bool-cases (str_eq a x)) [
      | inl f ↦ rw (two_rows a b _ _ table, e, f, row_of a table f) (refl, (refl, (refl, refl)))
      | inr f ↦
          rw (two_rows a b _ _ table, e, f)
            (ground arith, (ground arith, (ground arith, ground arith)))
    ]
  ]

  abbrev pub games_of : DuelRow → ℕ
  games_of d = times (involves d.creator d.challenger)

  -- A duel that this player won, lost, or tied.
  abbrev pub wins_in : DuelRow → ℕ
  wins_in d =
      times ((str_eq d.creator x && creator_won d) || (str_eq d.challenger x && challenger_won d))

  abbrev pub losses_in : DuelRow → ℕ
  losses_in d =
      times ((str_eq d.creator x && challenger_won d) || (str_eq d.challenger x && creator_won d))

  abbrev pub ties_in : DuelRow → ℕ
  ties_in d = times (involves d.creator d.challenger && nobody_won d)

  one_row :
      (d : DuelRow)
      → TwoPlayers d
      → (wins_of d.creator d.challenger (outcome_from_duel d) ≡ wins_in d)
        × ((losses_of d.creator d.challenger (outcome_from_duel d) ≡ losses_in d)
            × ((if involves d.creator d.challenger then drew (outcome_from_duel d) else 0)
                ≡ ties_in d))
  one_row d two =
      let (a, (b, c)) = outcome_from_duel-said d in
      let apart : (str_eq d.creator x && str_eq d.challenger x) ≡ false =
        ground (arith, two, eq_iff d.creator x, eq_iff d.challenger x) in
      (ground (arith, a, b, apart), (ground (arith, a, b, apart), ground (arith, c)))

  -- What a row holds over another one.
  abbrev pub Tallied : PlayerRating → PlayerRating → List DuelRow → Type 0
  Tallied new old ds =
      (new.games_played ≡ old.games_played + total games_of ds)
      × ((new.wins ≡ old.wins + total wins_in ds)
          × ((new.losses ≡ old.losses + total losses_in ds)
              × (new.ties ≡ old.ties + total ties_in ds)))

  replay-Tallied :
      (ds : List DuelRow) (now : ℕ) (table : Table)
      → All TwoPlayers ds
      → Tallied (row (replay env new_rating ds now table)) (row table) ds
  unfolding replay
  replay-Tallied [] now table h = (ground arith, (ground arith, (ground arith, ground arith)))
  replay-Tallied (d ∷ ds) now table (p, h) = elim (Bool-cases (complete_row d)) [
    | inl e ↦
        let one = apply-Counts d.creator d.challenger (outcome_from_duel d) now table p in
        let next =
          apply_duel_outcome env new_rating d.creator d.challenger (outcome_from_duel d) now
            table in
        let (a, (b, (c, t))) = replay-Tallied ds now next h in
        let (wins, (losses, ties)) = one_row d p in
        let known : has_players d ≡ true = ground (arith, e) in
        rw (e, replay, known)
          (
            omega (arith, a, one.0),
            (
              omega (arith, b, one.1.0, wins),
              (omega (arith, c, one.1.1.0, losses), omega (arith, t, one.1.1.1, ties)),
            ),
          )
    | inr e ↦
        let (a, (b, (c, t))) = replay-Tallied ds now table h in
        let unknown : has_players d ≡ false = ground (arith, e) in
        rw (e, replay, unknown)
          (ground (arith, a), (ground (arith, b), (ground (arith, c), ground (arith, t))))
  ]

  -- After the table is built anew, the row of every player counts the duels of the mirror that the
  -- player was in, those won, lost and tied, each once, where no duel is of a player with itself.
  -- Who won is the winner that is recorded, or else the side whose payout and whose opponent's
  -- premium add up to more; a duel without both players does not count.
  pub recompute-exact :
      (newest_first : List DuelRow) (now : ℕ)
      → All TwoPlayers newest_first
      → let r = row (recompute_ratings_from_mirror env new_rating newest_first now) in
        (r.games_played ≡ total games_of newest_first)
        × ((r.wins ≡ total wins_in newest_first)
            × ((r.losses ≡ total losses_in newest_first) × (r.ties ≡ total ties_in newest_first)))
  unfolding recompute_ratings_from_mirror get_player_rating lookup
  recompute-exact newest_first now h =
      let ds = reversed_onto newest_first [] in
      let (a, (b, (c, t))) =
        replay-Tallied ds now [] (TwoPlayers-reversed_onto newest_first [] h tt) in
      (
        ground (arith, a, total-reversed_onto games_of newest_first []),
        (
          ground (arith, b, total-reversed_onto wins_in newest_first []),
          (
            ground (arith, c, total-reversed_onto losses_in newest_first []),
            ground (arith, t, total-reversed_onto ties_in newest_first []),
          ),
        ),
      )
