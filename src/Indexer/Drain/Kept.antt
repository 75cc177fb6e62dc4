-- ===== src/Indexer/Drain/Kept.antt =====
-- apps/server/src/indexer.ts: what every page of a drain keeps.
use flicky.Prelude.{
  ℕ, zero, suc, ◌+◌, String, ◌≡◌, ◌≢◌, ◌⊎◌, inl, inr, Option, some, List, [], ◌∷◌, arith,
  Bool-cases, Option-cases,
}
use flicky.Prelude.{List-cases}
use flicky.Indexer.Drain.{Page, Replies, drain_pages, drain}
use flicky.Indexer.Drain.Ordered.{handle_all, drain_pages-empty}

pub handle_all-keeps {ℓ κ μ} :
    {E : Type ℓ} {S : Type κ} (P : S → Type μ) (handle : E → S → S)
    → ((e : E) (s : S) → P s → P (handle e s))
    → (es : List E) (s : S) → P s
    → P (handle_all handle es s)
handle_all-keeps P handle keep [] s h = h
handle_all-keeps P handle keep (e ∷ es) s h =
    handle_all-keeps P handle keep es (handle e s) (keep e s h)

-- A page with nodes is handed on once, and the loop ends or goes on from some cursor.
drain_pages-cases {ℓ κ} :
    {E : Type ℓ} {S : Type κ} (on_page : List E → S → S) (r : Replies E) (left n : ℕ)
    (c : Option String) (s : S) (p : Page E)
    → r.ask n c ≡ some p
    → p.nodes ≢ []
    → let d = drain_pages on_page r (suc left) n c s in
      (d.state ≡ on_page p.nodes s)
      ⊎ ((c' : Option String) × (d.state
            ≡ (drain_pages on_page r left (n + 1) c' (on_page p.nodes s)).state))
unfolding drain_pages
drain_pages-cases on_page r left n c s p asked nodes = elim (Bool-cases p.has_next_page) [
  | inr last ↦ inl (ground arith)
  | inl more ↦ elim (Option-cases p.end_cursor) [
    | inl e ↦ inr (c, ground arith)
    | inr (end, e) ↦ elim (Bool-cases (r.saved n)) [
      | inl saved ↦ inr (some end, ground arith)
      | inr lost ↦ inl (ground arith)
    ]
  ]
]

module _ {ℓ κ μ} {E : Type ℓ} {S : Type κ} (P : S → Type μ) (on_page : List E → S → S) where
  drain_pages-keeps :
      ((es : List E) (s : S) → P s → P (on_page es s))
      → (r : Replies E) (left n : ℕ) (c : Option String) (s : S) → P s
      → P (drain_pages on_page r left n c s).state
  unfolding drain_pages
  drain_pages-keeps keep r zero n c s h = h
  drain_pages-keeps keep r (suc left) n c s h = elim (Option-cases (r.ask n c)) [
    | inl e ↦ rw (e, drain_pages) h
    | inr (p, e) ↦ elim (List-cases p.nodes) [
      | inl empty ↦ rw (drain_pages-empty on_page r left n c s p e empty) h
      | inr (x, (xs, nodes)) ↦
          let kept = keep p.nodes s h in
          elim (drain_pages-cases on_page r left n c s p e (λ empty. cc)) [
            | inl same ↦ rw same kept
            | inr (c', same) ↦
                rw same (drain_pages-keeps keep r left (n + 1) c' (on_page p.nodes s) kept)
          ]
    ]
  ]

  pub drain-keeps :
      ((es : List E) (s : S) → P s → P (on_page es s))
      → (r : Replies E) (c : Option String) (s : S) → P s
      → P (drain on_page r c s).state
  unfolding drain
  drain-keeps keep r c s h = elim (Bool-cases r.loads) [
    | inl e ↦ rw (e, drain) (drain_pages-keeps keep r 10 0 c s h)
    | inr e ↦ rw (e, drain) h
  ]
