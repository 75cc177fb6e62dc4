-- ===== src/Deckmaster/Size.antt =====
-- apps/server/src/deckmaster.ts: `resolveDeckBounds` and `decideDeckSize`. The sizes of a request
-- are whole numbers here, and one below 0 is 0.
pub mod Band
use flicky.Prelude.{
  ℕ, zero, suc, ◌+◌, ◌-◌, ◌*◌, ◌/◌, ◌%◌, ◌^◌, ◌≤◌, ◌<◌, String, ◌≡◌, refl, sym, ap, ◌∙◌, ◌≢◌, ◌↔◌,
  ◌⊎◌, inl, inr, Bool, true, false, not, ◌&&◌, ◌||◌, Option, none, some, List, [], ◌∷◌, ◌++◌, map,
  arith, eq_iff, ltb, leb, ◌==◌, str_eq, str_eq_refl, if◌then◌else◌, Bool-cases, Option-cases,
  ==_iff, ==_refl, ltb→lt, leb→le, le→leb,
}

pub record Bounds : Type 0 where
  pub min : ℕ
  pub max : ℕ

pub record SizeRequest : Type 0 where
  pub deck_size : Option ℕ
  pub min_deck_size : Option ℕ
  pub max_deck_size : Option ℕ

abbrev pub clamp : ℕ → ℕ
clamp n = if n == 0 then 1 else if ltb 20 n then 20 else n

abbrev pub or_default : ℕ → Option ℕ → ℕ
or_default d none = d
or_default d (some n) = n

abbrev pub lesser : ℕ → ℕ → ℕ
lesser a b = if leb a b then a else b

unfoldable pub resolve_deck_bounds : SizeRequest → Bounds
resolve_deck_bounds body = elim body.deck_size [
  | some n ↦ record { min = clamp n; max = clamp n }
  | none ↦
      let max = clamp (or_default 5 body.max_deck_size) in
      record { min = lesser (clamp (or_default 3 body.min_deck_size)) max; max = max }
]

unfoldable pub decide_deck_size : ℕ → Bounds → Bool × ℕ
decide_deck_size live_count bounds = (leb 1 live_count, bounds.max)
