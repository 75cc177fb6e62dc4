-- ===== src/Prelude/Buckets.antt =====
-- A `Map` from texts to `Set`s of sockets whose empty buckets are dropped, as the source keeps
-- them for addresses, rooms and markets.
use flicky.Prelude.Tests.{str_eq, if◌then◌else◌, ◌==◌, Option-cases}
use flicky.Prelude.Maps.{
  lookup, insert, delete, contains, add, remove, lookup-insert, lookup-delete, contains-add,
  contains-remove,
}
use Prim.Native.Nat.{ℕ}
use Prim.Native.String.{String}
use mathlib.Core.Path.{◌≡◌}
use mathlib.Core.Logic.{◌≢◌, inl, inr}
use mathlib.Core.Bool.{true, false, ◌&&◌}
use mathlib.Core.Option.{Option, none, some}
use mathlib.Core.List.{List, [], ◌∷◌}
use native.Mathlib.Omega.{arith}
use text.Mathlib.TextEquality.{eq_iff}

abbrev pub Buckets : Type 0
Buckets = List (String × List ℕ)

abbrev or_empty : Option (List ℕ) → List ℕ
or_empty none = []
or_empty (some b) = b

-- `m.get(key) ?? new Set()`
unfoldable pub members : String → Buckets → List ℕ
members key m = or_empty (lookup key m)

-- Make the bucket where it is missing, and add the socket.
unfoldable pub enter : String → ℕ → Buckets → Buckets
unfolding members
enter key n m = insert key (add n (members key m)) m

abbrev put_back : String → List ℕ → Buckets → Buckets
put_back key [] m = delete key m
put_back key (x ∷ xs) m = insert key (x ∷ xs) m

-- Take the socket out of the bucket, if there is one, and drop the bucket when it is empty.
unfoldable pub leave : String → ℕ → Buckets → Buckets
leave key n m = elim (lookup key m) [ none ↦ m | some bucket ↦ put_back key (remove n bucket) m ]

members-enter :
    (key j : String) (n : ℕ) (m : Buckets)
    → members j (enter key n m) ≡ (if str_eq key j then add n (members key m) else members j m)
unfolding members enter
members-enter key j n m = ground (arith, lookup-insert key j (add n (members key m)) m)

members-put_back :
    (key j : String) (xs : List ℕ) (m : Buckets)
    → members j (put_back key xs m) ≡ (if str_eq key j then xs else members j m)
unfolding members
members-put_back key j [] m = ground (arith, lookup-delete key j m)
members-put_back key j (x ∷ xs) m = ground (arith, lookup-insert key j (x ∷ xs) m)

members-leave :
    (key j : String) (n : ℕ) (m : Buckets)
    → members j (leave key n m) ≡ (if str_eq key j then remove n (members key m) else members j m)
unfolding members leave remove
members-leave key j n m = elim (Option-cases (lookup key m)) [
  | inl e ↦ rw (e, leave) (ground (arith, eq_iff key j))
  | inr (b, e) ↦ rw (e, leave) (ground (arith, members-put_back key j (remove n b) m))
]

pub contains-enter :
    (key j : String) (n k : ℕ) (m : Buckets)
    → contains k (members j (enter key n m))
      ≡ (if str_eq key j && n == k then true else contains k (members j m))
contains-enter key j n k m =
    ground (arith, members-enter key j n m, contains-add n k (members key m), eq_iff key j)

pub contains-leave :
    (key j : String) (n k : ℕ) (m : Buckets)
    → contains k (members j (leave key n m))
      ≡ (if str_eq key j && n == k then false else contains k (members j m))
contains-leave key j n k m =
    ground (arith, members-leave key j n m, contains-remove n k (members key m), eq_iff key j)

-- No bucket is empty.
abbrev pub NoneEmpty : Buckets → Type 0
NoneEmpty m = (j : String) → lookup j m ≢ some []

add-ne-nil : (n : ℕ) (xs : List ℕ) → add n xs ≢ []
unfolding add
add-ne-nil n [] = cc
add-ne-nil n (x ∷ xs) = ground arith

pub enter-NoneEmpty : (key : String) (n : ℕ) (m : Buckets) → NoneEmpty m → NoneEmpty (enter key n m)
unfolding enter
enter-NoneEmpty key n m h j =
    let added = add n (members key m) in
    ground (arith, h j, lookup-insert key j added m, add-ne-nil n (members key m))

put_back-NoneEmpty :
    (key : String) (xs : List ℕ) (m : Buckets) → NoneEmpty m → NoneEmpty (put_back key xs m)
put_back-NoneEmpty key [] m h j = ground (arith, h j, lookup-delete key j m)
put_back-NoneEmpty key (x ∷ xs) m h j = ground (arith, h j, lookup-insert key j (x ∷ xs) m)

pub leave-NoneEmpty : (key : String) (n : ℕ) (m : Buckets) → NoneEmpty m → NoneEmpty (leave key n m)
unfolding leave
leave-NoneEmpty key n m h = elim (Option-cases (lookup key m)) [
  | inl e ↦ rw (e, leave) h
  | inr (b, e) ↦ rw (e, leave) (put_back-NoneEmpty key (remove n b) m h)
]
