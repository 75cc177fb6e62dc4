-- ===== src/PnlHistory/Frame.antt =====
-- apps/web/src/lib/pnl-history.ts: the frame of the chart.
use flicky.Prelude.{ℕ, ◌*◌, ◌/◌, ◌≤◌, ◌≡◌, refl, ap, ◌∙◌, Bool, true, false, List, [], ◌∷◌, arith}
use flicky.Prelude.{All, All-map}
use flicky.Prelude.Int.{abs}
use flicky.PnlHistory.{Sample, framed, abs_max_of, y_amp_for}

abbrev Below : ℕ → Sample → Type 0
Below m s = (abs s.p0 ≤ m) × (abs s.p1 ≤ m)

le-abs_max_of : (b : Bool) (xs : List Sample) (m : ℕ) → m ≤ abs_max_of b xs m
unfolding abs_max_of
le-abs_max_of b [] m = omega arith
le-abs_max_of b (s ∷ rest) m = ground (arith, le-abs_max_of b rest (framed b s m))

abs_max_of-Below : (b : Bool) (xs : List Sample) (m : ℕ) → All (Below (abs_max_of b xs m)) xs
unfolding abs_max_of
abs_max_of-Below b [] m = tt
abs_max_of-Below b (s ∷ rest) m =
    let over = le-abs_max_of b rest (framed b s m) in
    (ground (arith, over), abs_max_of-Below b rest (framed b s m))

framed_either : (s : Sample) (m : ℕ) → framed true s m ≡ framed false s m
framed_either s m = ground arith

abs_max_of_either : (xs : List Sample) (m : ℕ) → abs_max_of true xs m ≡ abs_max_of false xs m
unfolding abs_max_of
abs_max_of_either [] m = refl
abs_max_of_either (s ∷ rest) m =
    ap (abs_max_of true rest) (framed_either s m) ∙ abs_max_of_either rest (framed false s m)

-- The frame is the same whichever player one is, and leaves fifteen percent above the amounts of
-- both players in every sample, of either sign.
y_amp_for-frames :
    (xs : List Sample)
    → (y_amp_for xs true ≡ y_amp_for xs false)
      × All
          (λ s.
            (abs s.p0 * 115 / 100 ≤ y_amp_for xs true) × (abs s.p1 * 115 / 100 ≤ y_amp_for xs true))
          xs
unfolding y_amp_for
y_amp_for-frames xs =
    let m = abs_max_of true xs 0 in
    (
      rw (abs_max_of_either xs 0) refl,
      All-map xs (λ s (a, b). (ground (arith, a), ground (arith, b))) (abs_max_of-Below true xs 0),
    )
