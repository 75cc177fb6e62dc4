-- ===== src/PnlHistory.antt =====
-- apps/web/src/lib/pnl-history.ts: the history behind the chart of a duel, its window and its
-- frame. Times are whole milliseconds.
pub mod Decimal
pub mod Stored
pub mod Window
pub mod Frame
use flicky.Prelude.{
  ℕ, zero, suc, ◌+◌, ◌-◌, ◌*◌, ◌/◌, ◌%◌, ◌^◌, ◌≤◌, ◌<◌, String, ◌≡◌, refl, sym, ap, ◌∙◌, ◌≢◌, ◌↔◌,
  ◌⊎◌, inl, inr, Bool, true, false, not, ◌&&◌, ◌||◌, Option, none, some, List, [], ◌∷◌, ◌++◌, map,
  arith, eq_iff, ltb, leb, ◌==◌, str_eq, str_eq_refl, if◌then◌else◌, Bool-cases, Option-cases,
  ==_iff, ==_refl, ltb→lt, leb→le, le→leb,
}
use flicky.Prelude.{length, drop, keep}
use flicky.Prelude.Int.{ℤ, abs}

pub record Sample : Type 0 where
  pub t : ℕ
  pub p0 : ℤ
  pub p1 : ℤ

pub record Boundary : Type 0 where
  pub t : ℕ
  pub idx : ℕ

abbrev pub max_samples : ℕ
max_samples = 1800

abbrev pub max_age_ms : ℕ
max_age_ms = 30 * 60 * 1000

abbrev pub y_floor_micro : ℕ
y_floor_micro = 50_000

abbrev pub larger : ℕ → ℕ → ℕ
larger a b = if ltb b a then a else b

-- The larger of the bound so far and the two amounts of a sample.
abbrev pub framed : Bool → Sample → ℕ → ℕ
framed my_is_p0 s abs_max =
    let you = if my_is_p0 then s.p0 else s.p1 in
    let opp = if my_is_p0 then s.p1 else s.p0 in larger (abs opp) (larger (abs you) abs_max)

unfoldable pub abs_max_of : Bool → List Sample → ℕ → ℕ
abs_max_of my_is_p0 [] abs_max = abs_max
abs_max_of my_is_p0 (s ∷ rest) abs_max = abs_max_of my_is_p0 rest (framed my_is_p0 s abs_max)

unfoldable pub y_amp_for : List Sample → Bool → ℕ
unfolding abs_max_of
y_amp_for samples my_is_p0 =
    let abs_max = abs_max_of my_is_p0 samples 0 in larger abs_max y_floor_micro * 115 / 100

-- `samples[samples.length - 1].t`; the second argument is the one before.
unfoldable pub last_t : ℕ → List Sample → ℕ
last_t t [] = t
last_t t (s ∷ rest) = last_t s.t rest

-- `s.t >= latest - range`, for times that are not negative.
abbrev pub within : ℕ → ℕ → ℕ → Bool
within range latest t = leb latest (t + range)

unfoldable pub find_index : (Sample → Bool) → List Sample → Option ℕ
find_index p [] = none
find_index p (s ∷ rest) =
    let later = find_index p rest in
    if p s then some 0 else elim later [ none ↦ none | some i ↦ some (suc i) ]

abbrev pub slice_from : Option ℕ → List Sample → List Sample
slice_from none samples = samples
slice_from (some i) samples = drop i samples

unfoldable pub newest : List Sample → List Sample
newest samples =
    if ltb max_samples (length samples)
    then drop (length samples - max_samples) samples
    else samples

unfoldable pub fresh : List Sample → List Sample
unfolding last_t find_index
fresh samples =
    slice_from (find_index (λ s. within max_age_ms (last_t 0 samples) s.t) samples) samples

abbrev pub first_t : List Sample → ℕ
first_t [] = 0
first_t (s ∷ rest) = s.t

pub record History : Type 0 where
  pub samples : List Sample
  pub boundaries : List Boundary
  pub first_t : ℕ

unfoldable pub trim_history : List Sample → List Boundary → History
unfolding newest fresh
trim_history samples boundaries =
    let trimmed = fresh (newest samples) in
    record {
      samples = trimmed;
      boundaries = keep (λ b. leb (first_t trimmed) b.t) boundaries;
      first_t = first_t trimmed;
    }

unfoldable pub slice_to_range : List Sample → Option ℕ → List Sample
unfolding last_t
slice_to_range samples none = samples
slice_to_range samples (some range) = keep (λ s. within range (last_t 0 samples) s.t) samples
