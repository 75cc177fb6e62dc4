-- ===== src/PnlHistory/Stored/Resumed.antt =====
-- apps/web/src/lib/pnl-history.ts: a stored history is read back.
use flicky.Prelude.{ℕ, ◌≡◌, refl, ap, Option, some, List, [], ◌∷◌}
use flicky.Prelude.Int.{ℤ}
use flicky.PnlHistory.{Sample, Boundary, History, trim_history}
use flicky.PnlHistory.Decimal.{Text, of_text-to_text}
use flicky.PnlHistory.Window.{trim_history-trimmed}
use flicky.PnlHistory.Stored.{
  Json, items, each, sample_json, boundary_json, history_json, serialize_history, get, prop,
  number_of, big_int_of, parse_sample, parse_boundary, parse_lists, parse_value, parse_history,
}

each-items {ℓ} :
    {A : Type ℓ} (f : A → Json) (g : Json → Option A)
    → ((a : A) → g (f a) ≡ some a)
    → (xs : List A) → each g (items f xs) ≡ some xs
unfolding each
each-items f g h [] = refl
each-items f g h (x ∷ xs) = rw (h x, each-items f g h xs)

module _ (other_number : Option Json → ℕ) (other_big : Option Json → Option ℤ) where
  parse_sample-json : (s : Sample) → parse_sample other_number other_big (sample_json s) ≡ some s
  unfolding parse_sample sample_json prop get number_of big_int_of
  parse_sample-json s = rw (of_text-to_text s.p0, of_text-to_text s.p1)

  parse_boundary-json :
      (b : Boundary) → parse_boundary other_number other_big (boundary_json b) ≡ some b
  unfolding parse_boundary boundary_json prop get number_of
  parse_boundary-json b = refl

  parse_history-json :
      (duel_id : Text) (h : History)
      → parse_history other_number other_big (some (history_json duel_id h))
        ≡ some (record { duel_id = duel_id; history = h })
  unfolding parse_history parse_value parse_lists history_json prop get
  parse_history-json duel_id h = rw (
    each-items sample_json (parse_sample other_number other_big) parse_sample-json h.samples,
    each-items boundary_json (parse_boundary other_number other_big) parse_boundary-json
        h.boundaries,
  )

-- A history that was stored is read back as it was trimmed, whatever `Number` and `BigInt` make of
-- malformed values, with amounts of any size exact; storing what was read stores the same again.
pub parse_history-serialize_history :
    (other_number : Option Json → ℕ) (other_big : Option Json → Option ℤ) (duel_id : Text)
    (samples : List Sample) (boundaries : List Boundary)
    → let h = trim_history samples boundaries in
      (parse_history other_number other_big (some (serialize_history duel_id samples boundaries))
        ≡ some (record { duel_id = duel_id; history = h }))
      × (serialize_history duel_id h.samples h.boundaries
          ≡ serialize_history duel_id samples boundaries)
unfolding serialize_history
parse_history-serialize_history other_number other_big duel_id samples boundaries = (
  parse_history-json other_number other_big duel_id (trim_history samples boundaries),
  ap (history_json duel_id) (trim_history-trimmed samples boundaries),
)
