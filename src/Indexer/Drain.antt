-- ===== src/Indexer/Drain.antt =====
-- apps/server/src/indexer.ts: a tracker's pages, drained from the stored cursor on. The query and
-- `saveCursor` may throw; `ask` and `saved` say what the n-th of them does.
pub mod Ordered
pub mod Caught
pub mod Kept
mod Tests
use flicky.Prelude.{
  ℕ, zero, suc, ◌+◌, ◌-◌, ◌*◌, ◌/◌, ◌%◌, ◌^◌, ◌≤◌, ◌<◌, String, ◌≡◌, refl, sym, ap, ◌∙◌, ◌≢◌, ◌↔◌,
  ◌⊎◌, inl, inr, Bool, true, false, not, ◌&&◌, ◌||◌, Option, none, some, List, [], ◌∷◌, ◌++◌, map,
  arith, eq_iff, ltb, leb, ◌==◌, str_eq, str_eq_refl, if◌then◌else◌, Bool-cases, Option-cases,
  ==_iff, ==_refl, ltb→lt, leb→le, le→leb,
}

pub record Page {ℓ} (E : Type ℓ) : Type ℓ where
  pub nodes : List E
  pub end_cursor : Option String
  pub has_next_page : Bool

-- What a drain leaves: what its pages were handed to, the cursor that is stored, and whether it
-- ended by an exception.
pub record Drained {ℓ} (S : Type ℓ) : Type ℓ where
  pub state : S
  pub cursor : Option String
  pub threw : Bool

-- What one tracker's queries answer in one tick; none: the call throws.
pub record Replies {ℓ} (E : Type ℓ) : Type ℓ where
  pub loads : Bool
  pub ask : ℕ → Option String → Option (Page E)
  pub saved : ℕ → Bool

module _ {ℓ κ} {E : Type ℓ} {S : Type κ} (on_page : List E → S → S) where
  -- The loop, with `left` pages to go and the n-th query next. A page is handed on before its
  -- cursor is stored.
  unfoldable pub drain_pages : Replies E → ℕ → ℕ → Option String → S → Drained S
  drain_pages r zero n cursor s = record { state = s; cursor = cursor; threw = false }
  drain_pages r (suc left) n cursor s = elim (r.ask n cursor) [
    | none ↦ record { state = s; cursor = cursor; threw = true }
    | some p ↦ elim p.nodes [
      | [] ↦ record { state = s; cursor = cursor; threw = false }
      | x ∷ xs ↦
          let s' = on_page (x ∷ xs) s in
          elim p.end_cursor [
            | none ↦ elim p.has_next_page [
              | false ↦ record { state = s'; cursor = cursor; threw = false }
              | true ↦ drain_pages r left (n + 1) cursor s'
            ]
            | some end ↦ elim (r.saved n) [
              | false ↦ record { state = s'; cursor = cursor; threw = true }
              | true ↦ elim p.has_next_page [
                | false ↦ record { state = s'; cursor = some end; threw = false }
                | true ↦ drain_pages r left (n + 1) (some end) s'
              ]
            ]
          ]
    ]
  ]

  -- Ten pages at most in one tick.
  unfoldable pub drain : Replies E → Option String → S → Drained S
  unfolding drain_pages
  drain r stored s =
      if r.loads
      then drain_pages r 10 0 stored s
      else record { state = s; cursor = stored; threw = true }
