-- ===== src/Indexer/Drain/Ordered.antt =====
-- apps/server/src/indexer.ts: what the drains of a tracker hand on, over any number of ticks.
use flicky.Prelude.{
  ℕ, zero, suc, ◌+◌, String, ◌≡◌, refl, ap, ◌≢◌, inl, inr, true, false, Option, some, List, [], ◌∷◌,
  ◌++◌, arith, Bool-cases, Option-cases,
}
use flicky.Prelude.{length, take, drop, List-cases, All}
use flicky.Indexer.Drain.{Page, Replies, drain_pages, drain}

-- The node-wise handling of a page.
abbrev pub handle_all {ℓ κ} : {E : Type ℓ} {S : Type κ} → (E → S → S) → List E → S → S
handle_all handle [] s = s
handle_all handle (e ∷ es) s = handle_all handle es (handle e s)

module _ {ℓ} {E : Type ℓ} where
  -- The documented pagination over the log of a tracker's events: a cursor stands behind the
  -- events up to its position, a page continues from there, and its end cursor stands behind it.
  -- A page may stop anywhere, and the log may go on: pages are windows of what it will become.
  pub record Paginates (log : List E) (position : Option String → ℕ) (r : Replies E) : Type ℓ where
    pub window :
        (n : ℕ) (c : Option String) (p : Page E)
        → r.ask n c ≡ some p
        → p.nodes ≡ take (length p.nodes) (drop (position c) log)
    pub ends :
        (n : ℕ) (c : Option String) (p : Page E)
        → r.ask n c ≡ some p
        → p.nodes ≢ []
        → (e : String) × (p.end_cursor ≡ some e) × (position (some e) ≡ position c + length p.nodes)

  handle-append {κ} :
      {S : Type κ} (handle : E → S → S) (xs ys : List E) (s : S)
      → handle_all handle (xs ++ ys) s ≡ handle_all handle ys (handle_all handle xs s)
  handle-append handle [] ys s = refl
  handle-append handle (x ∷ xs) ys s = handle-append handle xs ys (handle x s)

  drop-drop : (a b : ℕ) (xs : List E) → drop (a + b) xs ≡ drop b (drop a xs)
  drop-drop zero b xs = let e : 0 + b ≡ b = omega arith in rw e
  drop-drop (suc a) zero xs = let e : suc a + 0 ≡ suc a = omega arith in rw e
  drop-drop (suc a) (suc b) [] = let e : suc a + suc b ≡ suc (a + suc b) = omega arith in rw e
  drop-drop (suc a) (suc b) (x ∷ xs) =
      let e : suc a + suc b ≡ suc (a + suc b) = omega arith in rw e (drop-drop a (suc b) xs)

  take-add : (a b : ℕ) (xs : List E) → take (a + b) xs ≡ take a xs ++ take b (drop a xs)
  take-add zero b xs = let e : 0 + b ≡ b = omega arith in rw e
  take-add (suc a) zero [] = let e : suc a + 0 ≡ suc a = omega arith in rw e
  take-add (suc a) (suc b) [] = let e : suc a + suc b ≡ suc (a + suc b) = omega arith in rw e
  take-add (suc a) b (x ∷ xs) =
      let e : suc a + b ≡ suc (a + b) = omega arith in rw (e, take-add a b xs)

  -- One page that has nodes, and whose cursor is stored.
  pub drain_pages-page {κ} :
      {S : Type κ} (on_page : List E → S → S) (r : Replies E) (left n : ℕ) (c : Option String)
      (s : S) (p : Page E) (end : String)
      → r.ask n c ≡ some p
      → p.nodes ≢ []
      → p.end_cursor ≡ some end
      → r.saved n ≡ true
      → drain_pages on_page r (suc left) n c s ≡ elim p.has_next_page [
        | false ↦ record { state = on_page p.nodes s; cursor = some end; threw = false }
        | true ↦ drain_pages on_page r left (n + 1) (some end) (on_page p.nodes s)
      ]
  unfolding drain_pages
  drain_pages-page on_page r left n c s p end asked nodes ended saved = ground arith

  pub drain_pages-empty {κ} :
      {S : Type κ} (on_page : List E → S → S) (r : Replies E) (left n : ℕ) (c : Option String)
      (s : S) (p : Page E)
      → r.ask n c ≡ some p
      → p.nodes ≡ []
      → drain_pages on_page r (suc left) n c s ≡ record { state = s; cursor = c; threw = false }
  unfolding drain_pages
  drain_pages-empty on_page r left n c s p asked nodes = ground arith

  module _ {κ} {S : Type κ} (handle : E → S → S) (log : List E) (position : Option String → ℕ) where
    -- The events between the two cursors were handled, each once and in their order.
    abbrev pub Handled : Option String → S → Option String → S → Type κ
    Handled c s c' s' =
        (m : ℕ) × ((s' ≡ handle_all handle (take m (drop (position c) log)) s)
          × (position c' ≡ position c + m))

    Handled-none : (c : Option String) (s : S) → Handled c s c s
    Handled-none c s = (0, (refl, omega arith))

    pub Handled-trans :
        (a b c : Option String) (s t u : S) → Handled a s b t → Handled b t c u → Handled a s c u
    Handled-trans a b c s t u (m, (e, p)) (m', (e', p')) = (
      m + m',
      (
        rw (
          e',
          e,
          p,
          take-add m m' (drop (position a) log),
          handle-append handle (take m (drop (position a) log))
              (take m' (drop m (drop (position a) log))) s,
          drop-drop (position a) m log,
        ),
        omega arith,
      ),
    )

    drain_pages-Handled :
        (r : Replies E)
        → Paginates log position r
        → ((n : ℕ) → r.saved n ≡ true)
        → (left n : ℕ) (c : Option String) (s : S)
        → let d = drain_pages (handle_all handle) r left n c s in Handled c s d.cursor d.state
    unfolding drain_pages
    drain_pages-Handled r pages saved zero n c s = Handled-none c s
    drain_pages-Handled r pages saved (suc left) n c s = elim (Option-cases (r.ask n c)) [
      | inl e ↦ rw (e, drain_pages) (Handled-none c s)
      | inr (p, e) ↦ elim (List-cases p.nodes) [
        | inl empty ↦
            rw (drain_pages-empty (handle_all handle) r left n c s p e empty) (Handled-none c s)
        | inr (x, (xs, nodes)) ↦
            let some_nodes : p.nodes ≢ [] = λ empty. cc in
            let (end, ended, at_end) = pages.ends n c p e some_nodes in
            let s' = handle_all handle p.nodes s in
            let this : Handled c s (some end) s' = (
              length p.nodes,
              (ap (λ es. handle_all handle es s) (pages.window n c p e), at_end),
            ) in
            let page =
              drain_pages-page (handle_all handle) r left n c s p end e some_nodes ended
                (saved n) in
            elim (Bool-cases p.has_next_page) [
              | inl more ↦
                  rw (page, more)
                    (Handled-trans c (some end) _ s s' _ this
                      (drain_pages-Handled r pages saved left (n + 1) (some end) s'))
              | inr last ↦ rw (page, last) this
            ]
      ]
    ]

    pub drain-Handled :
        (r : Replies E)
        → Paginates log position r
        → ((n : ℕ) → r.saved n ≡ true)
        → (c : Option String) (s : S)
        → let d = drain (handle_all handle) r c s in Handled c s d.cursor d.state
    unfolding drain
    drain-Handled r pages saved c s = elim (Bool-cases r.loads) [
      | inl e ↦ rw (e, drain) (drain_pages-Handled r pages saved 10 0 c s)
      | inr e ↦ rw (e, drain) (Handled-none c s)
    ]

-- The drains of one tracker in the ticks of a history, each from the cursor that is stored.
unfoldable pub drains {ℓ κ} :
    {E : Type ℓ} {S : Type κ}
    → (List E → S → S)
    → List (Replies E)
    → Option String
    → S
    → Option String × S
unfolding drain
drains on_page [] c s = (c, s)
drains on_page (r ∷ rs) c s = let d = drain on_page r c s in drains on_page rs d.cursor d.state

-- Over any history of drains, in which queries may fail and pages may stop anywhere, and every
-- cursor is stored, the events that were handed on are those between the first cursor and the last,
-- in the order of the log, each of them once.
pub drains-in_order {ℓ κ} :
    {E : Type ℓ} {S : Type κ} (handle : E → S → S) (log : List E) (position : Option String → ℕ)
    (rs : List (Replies E)) (c : Option String) (s : S)
    → All (λ r. Paginates log position r × ((n : ℕ) → r.saved n ≡ true)) rs
    → let after = drains (handle_all handle) rs c s in
      Handled handle log position c s after.0 after.1
unfolding drains
drains-in_order handle log position [] c s h = (0, (refl, omega arith))
drains-in_order handle log position (r ∷ rs) c s ((pages, saved), h) =
    let d = drain (handle_all handle) r c s in
    Handled-trans handle log position c d.cursor _ s d.state _
      (drain-Handled handle log position r pages saved c s)
      (drains-in_order handle log position rs d.cursor d.state h)
