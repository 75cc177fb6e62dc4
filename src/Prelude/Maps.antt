-- ===== src/Prelude/Maps.antt =====
-- JavaScript's `Map` with text keys, as an association list in insertion order, and its `Set`
-- of sockets, as a list of socket numbers.
use flicky.Prelude.Tests.{str_eq, str_eq_refl, if◌then◌else◌, ◌==◌}
use Prim.Native.Nat.{ℕ}
use Prim.Native.String.{String}
use mathlib.Core.Path.{◌≡◌, refl}
use mathlib.Core.Bool.{Bool, true, false}
use mathlib.Core.Option.{Option, none, some}
use mathlib.Core.List.{List, [], ◌∷◌}
use native.Mathlib.Omega.{arith}
use text.Mathlib.TextEquality.{eq_iff}

module _ {ℓ} {V : Type ℓ} where
  -- `m.get(k)`
  unfoldable pub lookup : String → List (String × V) → Option V
  lookup k [] = none
  lookup k ((j, v) ∷ m) = if str_eq j k then some v else lookup k m

  -- `m.has(k)`
  abbrev pub has : String → List (String × V) → Bool
  has k m = elim (lookup k m) [ none ↦ false | some v ↦ true ]

  -- `m.set(k, v)`: in place, or a new last entry
  unfoldable pub insert : String → V → List (String × V) → List (String × V)
  insert key value [] = (key, value) ∷ []
  insert key value ((other, old) ∷ entries) =
      if str_eq other key then (key, value) ∷ entries else (other, old) ∷ insert key value entries

  -- `m.delete(k)`
  unfoldable pub delete : String → List (String × V) → List (String × V)
  delete k [] = []
  delete k ((j, w) ∷ m) = if str_eq j k then delete k m else (j, w) ∷ delete k m

  abbrev pub keys : List (String × V) → List String
  keys [] = []
  keys ((k, v) ∷ m) = k ∷ keys m

  pub lookup-insert :
      (key at : String) (value : V) (entries : List (String × V))
      → lookup at (insert key value entries)
        ≡ (if str_eq key at then some value else lookup at entries)
  unfolding lookup insert
  lookup-insert key at value [] = refl
  lookup-insert key at value ((other, old) ∷ entries) =
      ground (
        arith,
        lookup-insert key at value entries,
        eq_iff key at,
        eq_iff other key,
        eq_iff other at,
      )

  pub lookup-delete :
      (k j : String) (m : List (String × V))
      → lookup j (delete k m) ≡ (if str_eq k j then none else lookup j m)
  unfolding lookup delete
  lookup-delete k j [] = ground arith
  lookup-delete k j ((i, w) ∷ m) =
      ground (arith, eq_iff k j, eq_iff i k, eq_iff i j, lookup-delete k j m)

  pub lookup-insert_self :
      (k : String) (v : V) (m : List (String × V)) → lookup k (insert k v m) ≡ some v
  lookup-insert_self k v m = simp (lookup-insert, str_eq_refl)

  pub lookup-delete_self : (k : String) (m : List (String × V)) → lookup k (delete k m) ≡ none
  lookup-delete_self k m = simp (lookup-delete, str_eq_refl)

-- No key stands twice, as in every `Map`.
module _ {ℓ} {V : Type ℓ} where
  abbrev pub IsMap : List (String × V) → Type ℓ
  IsMap [] = Unit
  IsMap ((k, v) ∷ m) = (lookup k m ≡ none) × IsMap m

  pub insert-IsMap : (k : String) (v : V) (m : List (String × V)) → IsMap m → IsMap (insert k v m)
  unfolding insert lookup
  insert-IsMap k v [] h = (refl, tt)
  insert-IsMap k v ((j, w) ∷ m) (h, hs) =
      ground (arith, insert-IsMap k v m hs, lookup-insert k j v m, eq_iff j k, eq_iff k j)

  pub delete-IsMap : (k : String) (m : List (String × V)) → IsMap m → IsMap (delete k m)
  unfolding delete lookup
  delete-IsMap k [] h = tt
  delete-IsMap k ((j, w) ∷ m) (h, hs) =
      ground (arith, delete-IsMap k m hs, lookup-delete k j m, eq_iff j k, eq_iff k j)

-- `s.has(x)`, `s.add(x)` and `s.delete(x)` of a `Set` of sockets
unfoldable pub contains : ℕ → List ℕ → Bool
contains n [] = false
contains n (x ∷ xs) = if x == n then true else contains n xs

unfoldable pub add : ℕ → List ℕ → List ℕ
add n [] = n ∷ []
add n (x ∷ xs) = if x == n then x ∷ xs else x ∷ add n xs

unfoldable pub remove : ℕ → List ℕ → List ℕ
remove n [] = []
remove n (x ∷ xs) = if x == n then remove n xs else x ∷ remove n xs

pub contains-add :
    (n k : ℕ) (xs : List ℕ) → contains k (add n xs) ≡ (if n == k then true else contains k xs)
unfolding contains add
contains-add n k [] = refl
contains-add n k (x ∷ xs) = ground (arith, contains-add n k xs)

pub contains-remove :
    (n k : ℕ) (xs : List ℕ) → contains k (remove n xs) ≡ (if n == k then false else contains k xs)
unfolding contains remove
contains-remove n k [] = ground arith
contains-remove n k (x ∷ xs) = ground (arith, contains-remove n k xs)

-- The same of a `Set` of texts.
unfoldable pub mem : String → List String → Bool
mem n [] = false
mem n (x ∷ xs) = if str_eq x n then true else mem n xs

unfoldable pub put : String → List String → List String
put n [] = n ∷ []
put n (x ∷ xs) = if str_eq x n then x ∷ xs else x ∷ put n xs

unfoldable pub take_out : String → List String → List String
take_out n [] = []
take_out n (x ∷ xs) = if str_eq x n then take_out n xs else x ∷ take_out n xs

pub mem-put :
    (n k : String) (xs : List String) → mem k (put n xs) ≡ (if str_eq n k then true else mem k xs)
unfolding mem put
mem-put n k [] = refl
mem-put n k (x ∷ xs) = ground (arith, mem-put n k xs, eq_iff x n, eq_iff x k, eq_iff n k)

pub mem-take_out :
    (n k : String) (xs : List String)
    → mem k (take_out n xs) ≡ (if str_eq n k then false else mem k xs)
unfolding mem take_out
mem-take_out n k [] = ground arith
mem-take_out n k (x ∷ xs) = ground (arith, mem-take_out n k xs, eq_iff x n, eq_iff x k, eq_iff n k)
