-- ===== src/PnlHistory/Window.antt =====
-- apps/web/src/lib/pnl-history.ts: what the trimmed history keeps.
use flicky.Prelude.{
  ℕ, zero, suc, ◌+◌, ◌-◌, ◌≤◌, ◌<◌, ◌≡◌, refl, sym, ap, ◌∙◌, inl, inr, Bool, true, some, List, [],
  ◌∷◌, arith, leb, Bool-cases, Option-cases, leb→le, le→leb,
}
use mathlib.Core.Path.{subst}
use flicky.Prelude.{length, drop, keep, All, length-drop}
use flicky.PnlHistory.{
  Sample, Boundary, max_samples, max_age_ms, within, last_t, find_index, slice_from, newest, fresh,
  first_t, trim_history,
}

-- A search and the slice from what it finds.
module _ (p : Sample → Bool) where
  abbrev from_first : List Sample → List Sample
  from_first xs = slice_from (find_index p xs) xs

  from_first-from_first : (xs : List Sample) → from_first (from_first xs) ≡ from_first xs
  unfolding find_index
  from_first-from_first [] = refl
  from_first-from_first (s ∷ rest) = elim (Bool-cases (p s)) [
    | inl e ↦ rw (e, find_index, e) refl
    | inr e ↦ elim (Option-cases (find_index p rest)) [
      | inl n ↦ rw (e, n, find_index, e, n) refl
      | inr (i, f) ↦
          rw (e, f)
            (subst (λ o. from_first (slice_from o rest) ≡ slice_from o rest) f
              (from_first-from_first rest))
    ]
  ]

  -- What a search gives whose result passes the test, the last sample being kept.
  abbrev Found : (ℕ → Bool) → Sample → List Sample → Type 0
  Found passes s rest =
      (i : ℕ) × ((find_index p (s ∷ rest) ≡ some i)
        × ((passes (first_t (drop i (s ∷ rest))) ≡ true)
            × (last_t 0 (drop i (s ∷ rest)) ≡ last_t s.t rest)))

  module _ (passes : ℕ → Bool) (same : (a : Sample) → p a ≡ passes a.t) where
    here : (s : Sample) (rest : List Sample) → p s ≡ true → Found passes s rest
    unfolding find_index last_t
    here s rest e = (0, (rw (e, find_index) refl, (sym (same s) ∙ e, refl)))

    -- The last sample passes, so something is found.
    found :
        (s : Sample) (rest : List Sample) → passes (last_t s.t rest) ≡ true → Found passes s rest
    unfolding find_index last_t
    found s [] h = here s [] (same s ∙ h)
    found s (s' ∷ rest) h = elim (Bool-cases (p s)) [
      | inl e ↦ here s (s' ∷ rest) e
      | inr e ↦ let (i, (f, kept)) = found s' rest h in (suc i, (rw (e, f, find_index) refl, kept))
    ]

last_t-drop : (k t : ℕ) (xs : List Sample) → k < length xs → last_t t (drop k xs) ≡ last_t t xs
unfolding last_t
last_t-drop zero t xs h = refl
last_t-drop (suc k) t [] h = absurd (omega arith)
last_t-drop (suc k) t (x ∷ []) h = absurd (omega arith)
last_t-drop (suc k) t (x ∷ (y ∷ xs)) h = last_t-drop k t (y ∷ xs) (omega arith)

newest-length : (xs : List Sample) → length (newest xs) ≤ max_samples
unfolding newest
newest-length xs = ground (arith, length-drop (length xs - max_samples) xs)

newest-latest : (xs : List Sample) → last_t 0 (newest xs) ≡ last_t 0 xs
unfolding newest
newest-latest xs = ground (arith, last_t-drop (length xs - max_samples) 0 xs)

newest-few : (xs : List Sample) → length xs ≤ max_samples → newest xs ≡ xs
unfolding newest
newest-few xs h = ground arith

-- What `fresh` gives of a history: the latest sample, and no first one that is too old.
fresh-found :
    (xs : List Sample)
    → (length (fresh xs) ≤ length xs)
      × ((last_t 0 (fresh xs) ≡ last_t 0 xs) × (last_t 0 xs ≤ first_t (fresh xs) + max_age_ms))
unfolding fresh last_t find_index
fresh-found [] = (omega arith, (refl, omega arith))
fresh-found (s ∷ rest) =
    let latest = last_t s.t rest in
    let (i, (f, (g, l))) =
      found (λ a. within max_age_ms latest a.t) (within max_age_ms latest) (λ a. refl) s rest
        (le→leb latest (latest + max_age_ms) (omega arith)) in
    let fewer = length-drop i (s ∷ rest) in rw (f, fresh) (omega (arith, fewer), (l, leb→le _ _ g))

fresh-fresh : (xs : List Sample) → fresh (fresh xs) ≡ fresh xs
unfolding fresh
fresh-fresh xs =
    let (fewer, (latest, near)) = fresh-found xs in
    ap (λ l. slice_from (find_index (λ s. within max_age_ms l s.t) (fresh xs)) (fresh xs)) latest
    ∙ from_first-from_first (λ s. within max_age_ms (last_t 0 xs) s.t) xs

after : (t : ℕ) (bs : List Boundary) → All (λ b. t ≤ b.t) (keep (λ b. leb t b.t) bs)
after t [] = tt
after t (b ∷ bs) = elim (Bool-cases (leb t b.t)) [
  | inl e ↦ rw e (leb→le t b.t e, after t bs)
  | inr e ↦ rw e (after t bs)
]

keep-keep {ℓ} : {A : Type ℓ} (p : A → Bool) (xs : List A) → keep p (keep p xs) ≡ keep p xs
keep-keep p [] = refl
keep-keep p (x ∷ xs) = ground (arith, keep-keep p xs)

trimmed-newest : (xs : List Sample) → newest (fresh (newest xs)) ≡ fresh (newest xs)
trimmed-newest xs =
    let (fewer, kept) = fresh-found (newest xs) in
    newest-few (fresh (newest xs)) (omega (arith, newest-length xs, fewer))

-- A trimmed history is left as it is.
pub trim_history-trimmed :
    (samples : List Sample) (boundaries : List Boundary)
    → trim_history
        (trim_history samples boundaries).samples
        (trim_history samples boundaries).boundaries
      ≡ trim_history samples boundaries
unfolding trim_history
trim_history-trimmed samples boundaries =
    let kept = fresh (newest samples) in
    let same = ap fresh (trimmed-newest samples) ∙ fresh-fresh (newest samples) in
    rw (same, keep-keep (λ b. leb (first_t kept) b.t) boundaries)

-- A trimmed history has at most 1800 samples, of which the latest is the latest of all that were
-- taken and the first is at most thirty minutes older; no boundary before it is kept.
trim_history-bounded :
    (samples : List Sample) (boundaries : List Boundary)
    → let h = trim_history samples boundaries in
      (length h.samples ≤ max_samples)
      × ((last_t 0 h.samples ≡ last_t 0 samples)
          × ((last_t 0 samples ≤ h.first_t + max_age_ms) × All (λ b. h.first_t ≤ b.t) h.boundaries))
unfolding trim_history
trim_history-bounded samples boundaries =
    let (fewer, (latest, near)) = fresh-found (newest samples) in
    let few = newest-length samples in
    let same = newest-latest samples in
    (
      omega (arith, few, fewer),
      (
        latest ∙ same,
        (
          subst (λ l. l ≤ first_t (fresh (newest samples)) + max_age_ms) same near,
          after (first_t (fresh (newest samples))) boundaries,
        ),
      ),
    )
