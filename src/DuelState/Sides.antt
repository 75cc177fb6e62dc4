-- ===== src/DuelState/Sides.antt =====
-- The two functions of apps/web/src/lib/duel-state.ts agree.
use flicky.Prelude.{
  ℕ, suc, String, ◌≡◌, refl, inl, inr, Bool, false, ◌&&◌, ◌||◌, Option, none, some, List, [], ◌∷◌,
  arith, Bool-cases,
}
use flicky.DuelState.{
  SwipeRowLite, LiveDuel, find_row, p0_missing, p1_missing, row_open, is_active, some_open,
  duel_unsettleable, each_missing, missing_sides,
}

abbrev either : Bool × Bool → Bool
either flags = flags.0 || flags.1

row_open-sides : (r : Option SwipeRowLite) → row_open r ≡ (p0_missing r || p1_missing r)
row_open-sides none = refl
row_open-sides (some row) = refl

each_missing-either :
    (settled : String → Bool) (swipes : List SwipeRowLite) (i : ℕ) (cards : List String)
    (flags : Bool × Bool)
    → either (each_missing settled swipes i cards flags)
      ≡ (either flags || some_open settled swipes i cards)
unfolding each_missing some_open
each_missing-either settled swipes i [] flags = ground arith
each_missing-either settled swipes i (market ∷ cards) flags = elim (Bool-cases (settled market)) [
  | inl e ↦
      rw (e, each_missing, some_open)
        (ground (
          arith,
          row_open-sides (find_row i swipes),
          each_missing-either settled swipes (suc i) cards (
            flags.0 || p0_missing (find_row i swipes),
            flags.1 || p1_missing (find_row i swipes),
          ),
        ))
  | inr e ↦ rw (e, each_missing, some_open) (each_missing-either settled swipes (suc i) cards flags)
]

-- A duel can no longer be settled exactly when it is active and one of the sides is missing a swipe
-- on a card whose market has settled: the banner that says so has a side to name.
unsettleable-sides :
    (duel : LiveDuel) (settled : String → Bool)
    → duel_unsettleable duel settled ≡ (
        is_active duel.status && ((missing_sides duel settled).0 || (missing_sides duel settled).1))
unfolding duel_unsettleable missing_sides
unsettleable-sides duel settled =
    ground (arith, each_missing-either settled duel.swipes 0 duel.cards (false, false))
