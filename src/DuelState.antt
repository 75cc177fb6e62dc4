-- ===== src/DuelState.antt =====
-- apps/web/src/lib/duel-state.ts: whether a duel can still be settled, as the client sees it.
pub mod Sides
mod Tests
use flicky.Prelude.{
  ℕ, zero, suc, ◌+◌, ◌-◌, ◌*◌, ◌/◌, ◌%◌, ◌^◌, ◌≤◌, ◌<◌, String, ◌≡◌, refl, sym, ap, ◌∙◌, ◌≢◌, ◌↔◌,
  ◌⊎◌, inl, inr, Bool, true, false, not, ◌&&◌, ◌||◌, Option, none, some, List, [], ◌∷◌, ◌++◌, map,
  arith, eq_iff, ltb, leb, ◌==◌, str_eq, str_eq_refl, if◌then◌else◌, Bool-cases, Option-cases,
  ==_iff, ==_refl, ltb→lt, leb→le, le→leb,
}
use flicky.Duel.{Status, pending, active, complete}

-- Whether each player has swiped the card of a row.
pub record SwipeRowLite : Type 0 where
  pub card_idx : ℕ
  pub p0_swipe : Bool
  pub p1_swipe : Bool

pub record LiveDuel : Type 0 where
  pub status : Status
  pub cards : List String
  pub swipes : List SwipeRowLite

-- `swipes.find((s) => s.cardIdx === i)`
unfoldable pub find_row : ℕ → List SwipeRowLite → Option SwipeRowLite
find_row i [] = none
find_row i (row ∷ rows) = if row.card_idx == i then some row else find_row i rows

abbrev pub p0_missing : Option SwipeRowLite → Bool
p0_missing none = true
p0_missing (some row) = not row.p0_swipe

abbrev pub p1_missing : Option SwipeRowLite → Bool
p1_missing none = true
p1_missing (some row) = not row.p1_swipe

abbrev pub row_open : Option SwipeRowLite → Bool
row_open none = true
row_open (some row) = not row.p0_swipe || not row.p1_swipe

abbrev pub is_active : Status → Bool
is_active pending = false
is_active active = true
is_active complete = false

-- `cards.some(…)`, from index `i` on
unfoldable pub some_open : (String → Bool) → List SwipeRowLite → ℕ → List String → Bool
unfolding find_row
some_open settled swipes i [] = false
some_open settled swipes i (market ∷ cards) =
    settled market && row_open (find_row i swipes) || some_open settled swipes (suc i) cards

unfoldable pub duel_unsettleable : LiveDuel → (String → Bool) → Bool
unfolding some_open
duel_unsettleable duel settled = is_active duel.status && some_open settled duel.swipes 0 duel.cards

-- `cards.forEach(…)`, from index `i` on, over the two flags
unfoldable pub each_missing :
    (String → Bool) → List SwipeRowLite → ℕ → List String → Bool × Bool → Bool × Bool
unfolding find_row
each_missing settled swipes i [] flags = flags
each_missing settled swipes i (market ∷ cards) flags =
    let row = find_row i swipes in
    let flags' : Bool × Bool = (flags.0 || p0_missing row, flags.1 || p1_missing row) in
    each_missing settled swipes (suc i) cards (if settled market then flags' else flags)

unfoldable pub missing_sides : LiveDuel → (String → Bool) → Bool × Bool
unfolding each_missing
missing_sides duel settled = each_missing settled duel.swipes 0 duel.cards (false, false)
