-- ===== src/PnlHistory/Stored/Tests.antt =====
-- Runs of apps/web/src/lib/pnl-history.ts, and its theorems at a concrete history.
use flicky.Prelude.{ℕ, ◌*◌, ◌/◌, ◌≡◌, refl, true, Option, none, some, List, [], ◌∷◌}
use flicky.Prelude.{length}
use flicky.Prelude.Int.{ℤ, pos, negsuc}
use flicky.PnlHistory.{
  Sample, Boundary, last_t, find_index, newest, fresh, trim_history, slice_to_range, y_amp_for,
  abs_max_of,
}
use flicky.PnlHistory.Stored.{Json, null, serialize_history, parse_history}
use flicky.PnlHistory.Stored.Resumed.{parse_history-serialize_history}

-- One sample is too old, and one boundary with it.
abbrev samples : List Sample
samples =
    record { t = 1000; p0 = pos 7; p1 = negsuc 0 }
    ∷ record { t = 2_000_000; p0 = pos 9_007_199_254_740_993; p1 = negsuc 9_007_199_254_740_992 }
    ∷ record { t = 2_001_000; p0 = pos 0; p1 = pos 3 }
    ∷ []

abbrev boundaries : List Boundary
boundaries = record { t = 1500; idx = 0 } ∷ record { t = 2_000_500; idx = 1 } ∷ []

abbrev no_number : Option Json → ℕ
no_number j = 0

abbrev no_big : Option Json → Option ℤ
no_big j = none

two_kept : length (trim_history samples boundaries).samples ≡ 2
unfolding trim_history newest fresh last_t find_index
two_kept = refl

one_within : length (slice_to_range samples (some 500)) ≡ 1
unfolding slice_to_range last_t
one_within = refl

framed : y_amp_for samples true ≡ 9_007_199_254_740_993 * 115 / 100
unfolding y_amp_for abs_max_of
framed = refl

refused : parse_history no_number no_big (some null) ≡ none
unfolding parse_history
refused = refl

parse_history-serialize_history_example :
    (parse_history no_number no_big (some (serialize_history [] samples boundaries))
      ≡ some (record { duel_id = []; history = trim_history samples boundaries }))
    × (serialize_history []
          (trim_history samples boundaries).samples
          (trim_history samples boundaries).boundaries
        ≡ serialize_history [] samples boundaries)
parse_history-serialize_history_example =
    parse_history-serialize_history no_number no_big [] samples boundaries
