-- ===== src/Indexer/Drain/Caught.antt =====
-- apps/server/src/indexer.ts: a tracker that is behind catches up.
use flicky.Prelude.{
  ℕ, zero, suc, ◌+◌, ◌-◌, ◌*◌, ◌≤◌, String, ◌≡◌, refl, ap, ◌∙◌, ◌≢◌, inl, inr, true, Option, none,
  some, List, [], ◌∷◌, arith, ltb, Bool-cases, Option-cases,
}
use flicky.Prelude.{length, take, drop, length-drop, List-cases, All}
use flicky.Indexer.Drain.{Page, Replies, drain_pages, drain}
use flicky.Indexer.Drain.Ordered.{
  Paginates, handle_all, drain_pages-page, drain_pages-empty, drains, drains-in_order,
}
use Prim.Native.Nat.{min}

module _ {ℓ} {E : Type ℓ} where
  -- A tick in which nothing fails and every page is as long as it can be.
  pub record Full (log : List E) (position : Option String → ℕ) (r : Replies E) : Type ℓ where
    pub paginates : Paginates log position r
    pub loads : r.loads ≡ true
    pub saved : (n : ℕ) → r.saved n ≡ true
    pub answers : (n : ℕ) (c : Option String) → r.ask n c ≢ none
    pub full_page :
        (n : ℕ) (c : Option String) (p : Page E)
        → r.ask n c ≡ some p
        → length p.nodes ≡ min 50 (length log - position c)
    pub next_page :
        (n : ℕ) (c : Option String) (p : Page E)
        → r.ask n c ≡ some p
        → p.has_next_page ≡ ltb (position c + length p.nodes) (length log)

  take-all : (m : ℕ) (xs : List E) → length xs ≤ m → take m xs ≡ xs
  take-all zero [] h = refl
  take-all zero (x ∷ xs) h = absurd (omega arith)
  take-all (suc m) [] h = refl
  take-all (suc m) (x ∷ xs) h = rw (take-all m xs (omega arith))

  module _ {κ} {S : Type κ} (on_page : List E → S → S) (log : List E)
      (position : Option String → ℕ) where
    pages-reach :
        (r : Replies E)
        → Full log position r
        → (left n : ℕ) (c : Option String) (s : S) → position c ≤ length log
        → position (drain_pages on_page r left n c s).cursor
          ≡ min (position c + left * 50) (length log)
    unfolding drain_pages
    pages-reach r f zero n c s h = omega arith
    pages-reach r f (suc left) n c s h = elim (Option-cases (r.ask n c)) [
      | inl e ↦ absurd (f.answers n c e)
      | inr (p, e) ↦ elim (List-cases p.nodes) [
        | inl empty ↦
            let size = f.full_page n c p e in
            let none_left : length p.nodes ≡ 0 = ap length empty in
            rw (drain_pages-empty on_page r left n c s p e empty) (omega arith)
        | inr (x, (xs, nodes)) ↦
            let some_nodes : p.nodes ≢ [] = λ empty. cc in
            let (end, ended, at_end) = f.paginates.ends n c p e some_nodes in
            let s' = on_page p.nodes s in
            let size = f.full_page n c p e in
            let page = drain_pages-page on_page r left n c s p end e some_nodes ended (f.saved n) in
            let next = f.next_page n c p e in
            elim (Bool-cases p.has_next_page) [
              | inl more ↦
                  let here : position (some end) ≤ length log = omega arith in
                  rw (page, more) (ground (arith, pages-reach r f left (n + 1) (some end) s' here))
              | inr last ↦ rw (page, last) (ground arith)
            ]
      ]
    ]

    pub drain-reach :
        (r : Replies E)
        → Full log position r
        → (c : Option String) (s : S) → position c ≤ length log
        → position (drain on_page r c s).cursor ≡ min (position c + 500) (length log)
    unfolding drain
    drain-reach r f c s h = rw (f.loads) (pages-reach r f 10 0 c s h)

    drains-reach :
        (rs : List (Replies E))
        → All (Full log position) rs
        → (c : Option String) (s : S) → position c ≤ length log
        → position (drains on_page rs c s).0 ≡ min (position c + length rs * 500) (length log)
    unfolding drains
    drains-reach [] f c s h = omega arith
    drains-reach (r ∷ rs) (f, fs) c s h =
        let d = drain on_page r c s in
        let here = drain-reach r f c s h in
        let bound : position d.cursor ≤ length log = omega arith in
        omega (arith, drains-reach rs fs d.cursor d.state bound)

  of-Paginates :
      (log : List E) (position : Option String → ℕ) (rs : List (Replies E))
      → All (Full log position) rs
      → All (λ r. Paginates log position r × ((n : ℕ) → r.saved n ≡ true)) rs
  of-Paginates log position [] h = tt
  of-Paginates log position (r ∷ rs) (f, fs) =
      ((f.paginates, f.saved), of-Paginates log position rs fs)

-- A tracker that is behind catches up: after as many ticks in which nothing fails as there are
-- lots of 500 events behind the stored cursor, all these events were handled, in the order of the
-- log and each once.
pub drains-catch_up {ℓ κ} :
    {E : Type ℓ} {S : Type κ} (handle : E → S → S) (log : List E) (position : Option String → ℕ)
    (rs : List (Replies E)) (c : Option String) (s : S)
    → All (Full log position) rs
    → position c ≤ length log
    → length log - position c ≤ length rs * 500
    → (drains (handle_all handle) rs c s).1 ≡ handle_all handle (drop (position c) log) s
drains-catch_up handle log position rs c s f h enough =
    let (m, (e, p)) = drains-in_order handle log position rs c s (of-Paginates log position rs f) in
    let reached = drains-reach (handle_all handle) log position rs f c s h in
    let size = length-drop (position c) log in
    e ∙ ap (λ es. handle_all handle es s) (take-all m (drop (position c) log) (omega arith))
