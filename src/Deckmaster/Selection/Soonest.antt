-- ===== src/Deckmaster/Selection/Soonest.antt =====
-- apps/server/src/deckmaster.ts: `selectMarketRows` takes the live markets that expire first.
use flicky.Prelude.{
  ℕ, zero, suc, ◌+◌, ◌≤◌, String, ◌≡◌, refl, sym, ap, ◌∙◌, inl, inr, Bool, true, not, List, [], ◌∷◌,
  ◌++◌, arith, eq_iff, leb, str_eq, Bool-cases, leb→le,
}
use Prim.Native.Nat.{min}
use flicky.Prelude.{length, length-take, take, drop, All, All-take, times, count_if}
use flicky.Prelude.Maps.{mem}
use flicky.Deckmaster.{MarketRow, MarketSnapshot}
use flicky.Deckmaster.Selection.{
  insert_by, sort_by, first_rows, in_window, windowed, select_market_rows,
}

module _ {ℓ} {A : Type ℓ} (key : A → ℕ) where
  -- Every key is `low` at least, and none is less than the one before.
  abbrev pub Rising : ℕ → List A → Type 0
  Rising low [] = Unit
  Rising low (a ∷ as') = (low ≤ key a) × Rising (key a) as'

  pub insert_by-Rising :
      (low : ℕ) (a : A) (xs : List A)
      → low ≤ key a
      → Rising low xs
      → Rising low (insert_by key a xs)
  unfolding insert_by
  insert_by-Rising low a [] h r = (h, tt)
  insert_by-Rising low a (b ∷ bs) h (k, r) = elim (Bool-cases (leb (key a) (key b))) [
    | inl e ↦ rw (e, insert_by) (h, (leb→le (key a) (key b) e, r))
    | inr e ↦ rw (e, insert_by) (k, insert_by-Rising (key b) a bs (ground arith) r)
  ]

  pub sort_by-Rising : (xs : List A) → Rising 0 (sort_by key xs)
  unfolding sort_by
  sort_by-Rising [] = tt
  sort_by-Rising (a ∷ xs) = insert_by-Rising 0 a (sort_by key xs) (ground arith) (sort_by-Rising xs)

  insert_by-count :
      (p : A → Bool) (a : A) (xs : List A)
      → count_if p (insert_by key a xs) ≡ times (p a) + count_if p xs
  unfolding insert_by
  insert_by-count p a [] = refl
  insert_by-count p a (b ∷ bs) = ground (arith, insert_by-count p a bs)

  pub sort_by-count : (p : A → Bool) (xs : List A) → count_if p (sort_by key xs) ≡ count_if p xs
  unfolding sort_by
  sort_by-count p [] = refl
  sort_by-count p (a ∷ xs) =
      insert_by-count p a (sort_by key xs) ∙ ap (λ n. times (p a) + n) (sort_by-count p xs)

  insert_by-length : (a : A) (xs : List A) → length (insert_by key a xs) ≡ suc (length xs)
  unfolding insert_by
  insert_by-length a [] = refl
  insert_by-length a (b ∷ bs) = ground (arith, insert_by-length a bs)

  pub sort_by-length : (xs : List A) → length (sort_by key xs) ≡ length xs
  unfolding sort_by
  sort_by-length [] = refl
  sort_by-length (a ∷ xs) = insert_by-length a (sort_by key xs) ∙ ap suc (sort_by-length xs)

  insert_by-All {κ} :
      (P : A → Type κ) (a : A) (xs : List A) → P a → All P xs → All P (insert_by key a xs)
  unfolding insert_by
  insert_by-All P a [] p h = (p, tt)
  insert_by-All P a (b ∷ bs) p (q, h) = elim (Bool-cases (leb (key a) (key b))) [
    | inl e ↦ rw (e, insert_by) (p, (q, h))
    | inr e ↦ rw (e, insert_by) (q, insert_by-All P a bs p h)
  ]

  pub sort_by-All {κ} : (P : A → Type κ) (xs : List A) → All P xs → All P (sort_by key xs)
  unfolding sort_by
  sort_by-All P [] h = tt
  sort_by-All P (a ∷ xs) (p, h) = insert_by-All P a (sort_by key xs) p (sort_by-All P xs h)

take-drop {ℓ} : {A : Type ℓ} (n : ℕ) (xs : List A) → take n xs ++ drop n xs ≡ xs
take-drop zero xs = refl
take-drop (suc n) [] = refl
take-drop (suc n) (x ∷ xs) = ap (λ q. x ∷ q) (take-drop n xs)

count_if-append {ℓ} :
    {A : Type ℓ} (p : A → Bool) (xs ys : List A)
    → count_if p (xs ++ ys) ≡ count_if p xs + count_if p ys
count_if-append p [] ys = ground arith
count_if-append p (x ∷ xs) ys = ground (arith, count_if-append p xs ys)

-- The live markets: the first row of each BTC market, if it expires in the window.
abbrev pub live : (String → String) → List MarketRow → ℕ → ℕ → ℕ → List MarketSnapshot
live normalize rows now headroom horizon =
    windowed now headroom horizon (first_rows normalize [] rows)

-- The markets that are selected are `count` of the live ones, or all where there are fewer; they
-- stand in the order of their expiry, and none of the live markets that are left over expires
-- before any of them.
pub select-soonest :
    (normalize : String → String) (rows : List MarketRow) (now headroom horizon n : ℕ)
    → let chosen = select_market_rows normalize rows now headroom horizon n in
      let all = live normalize rows now headroom horizon in
      (left : List MarketSnapshot) × ((Rising (λ m. m.expiry) 0 (chosen ++ left))
        × (((p : MarketSnapshot → Bool) → count_if p chosen + count_if p left ≡ count_if p all)
            × (length chosen ≡ min n (length all))))
unfolding select_market_rows
select-soonest normalize rows now headroom horizon n =
    let all = live normalize rows now headroom horizon in
    let sorted = sort_by (λ m. m.expiry) all in
    let split = take-drop n sorted in
    (
      drop n sorted,
      (
        rw split (sort_by-Rising (λ m. m.expiry) all),
        (
          λ p.
              sym (count_if-append p (take n sorted) (drop n sorted))
              ∙ ap (count_if p) split
              ∙ sort_by-count (λ m. m.expiry) p all,
          length-take n sorted ∙ ap (min n) (sort_by-length (λ m. m.expiry) all),
        ),
      ),
    )

abbrev pub id_is : String → MarketSnapshot → Bool
id_is id m = str_eq m.expiry_market_id id

windowed-id :
    (normalize : String → String) (now headroom horizon : ℕ) (id : String) (seen : List String)
    (rows : List MarketRow)
    → count_if (id_is id) (windowed now headroom horizon (first_rows normalize seen rows))
      ≤ times (not (mem id seen))
unfolding windowed first_rows mem
windowed-id normalize now headroom horizon id seen [] = ground arith
windowed-id normalize now headroom horizon id seen (r ∷ rows) =
    let k = normalize r.expiry_market_id in
    ground (
      arith,
      windowed-id normalize now headroom horizon id seen rows,
      windowed-id normalize now headroom horizon id (k ∷ seen) rows,
      eq_iff k id,
    )

abbrev pub InWindow : ℕ → ℕ → ℕ → MarketSnapshot → Type 0
InWindow now headroom horizon m = in_window now headroom horizon m.expiry ≡ true

windowed-All :
    (now headroom horizon : ℕ) (rows : List (String × MarketRow))
    → All (InWindow now headroom horizon) (windowed now headroom horizon rows)
unfolding windowed
windowed-All now headroom horizon [] = tt
windowed-All now headroom horizon ((id, r) ∷ rows) =
    elim (Bool-cases (in_window now headroom horizon r.expiry)) [
      | inl e ↦ rw (e, windowed) (e, windowed-All now headroom horizon rows)
      | inr e ↦ rw (e, windowed) (windowed-All now headroom horizon rows)
    ]

-- Every market that is selected expires within the window, and none is selected twice.
select_sound :
    (normalize : String → String) (rows : List MarketRow) (now headroom horizon n : ℕ) (id : String)
    → let chosen = select_market_rows normalize rows now headroom horizon n in
      All (InWindow now headroom horizon) chosen × (count_if (id_is id) chosen ≤ 1)
unfolding select_market_rows mem
select_sound normalize rows now headroom horizon n id =
    let all = live normalize rows now headroom horizon in
    let sorted = sort_by (λ m. m.expiry) all in
    (
      All-take (InWindow now headroom horizon) n sorted (
          sort_by-All (λ m. m.expiry) (InWindow now headroom horizon) all
            (windowed-All now headroom horizon (first_rows normalize [] rows))),
      ground (
        arith,
        windowed-id normalize now headroom horizon id [] rows,
        sort_by-count (λ m. m.expiry) (id_is id) all,
        count_if-append (id_is id) (take n sorted) (drop n sorted),
        ap (count_if (id_is id)) (take-drop n sorted),
      ),
    )
