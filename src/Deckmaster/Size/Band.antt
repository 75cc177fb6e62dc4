-- ===== src/Deckmaster/Size/Band.antt =====
-- apps/server/src/deckmaster.ts: the sizes that a deck can have.
use flicky.Prelude.{ℕ, ◌≤◌, ◌≡◌, refl, not, arith, ◌==◌}
use flicky.Deckmaster.Size.{SizeRequest, resolve_deck_bounds, decide_deck_size}

-- Whatever a request asks for, the band is within the contract's 1 to 20 cards and not empty, and
-- the size that is decided on is its upper end, refused only where no market is live.
deck_size-within :
    (body : SizeRequest) (live_count : ℕ)
    → let b = resolve_deck_bounds body in
      let d = decide_deck_size live_count b in
      ((1 ≤ b.min) × ((b.min ≤ b.max) × (b.max ≤ 20)))
      × ((d.1 ≡ b.max) × (d.0 ≡ not (live_count == 0)))
unfolding resolve_deck_bounds decide_deck_size
deck_size-within body live_count = (ground arith, (refl, ground arith))
