-- ===== src/Matchmaking/Joining/Counts.antt =====
-- How often a socket stands in a tier's queue of apps/server/src/ws/matchmaking.ts.
use flicky.Prelude.{
  ℕ, ◌-◌, String, ◌≡◌, refl, inl, inr, Bool, true, Option, none, some, List, [], ◌∷◌, arith, ltb,
  ◌==◌, str_eq, if◌then◌else◌, Bool-cases, Option-cases, ==_refl,
}
use flicky.Prelude.{count, find, All, All-map}
use mathlib.Core.Path.{subst}
use flicky.Prelude.Maps.{contains}
use flicky.Mmr.{Rated}
use flicky.Matchmaking.{SocketState}
use flicky.Matchmaking.Leaving.{remove_first, splice_out}
use flicky.Matchmaking.Joining.{Waiter, waiters, opponent_of, differs}

pub contains-count : (k : ℕ) (q : List ℕ) → contains k q ≡ ltb 0 (count k q)
unfolding contains
contains-count k [] = refl
contains-count k (x ∷ q) = ground (arith, contains-count k q)

pub count-remove_first :
    (k j : ℕ) (q : List ℕ) → count j (remove_first k q) ≡ count j q - (if k == j then 1 else 0)
unfolding remove_first
count-remove_first k j [] = ground arith
count-remove_first k j (x ∷ q) = ground (arith, count-remove_first k j q, count-remove_first k k q)

pub count-splice_out :
    (k j : ℕ) (q : List ℕ)
    → contains k q ≡ true
    → count j (splice_out k q) ≡ count j q - (if k == j then 1 else 0)
unfolding splice_out
count-splice_out k j q h = rw h (count-remove_first k j q)

-- A candidate stands in the queue, under the address that it is known by.
abbrev pub Stands : (ℕ → SocketState) → List ℕ → Waiter → Type 0
Stands sockets q x = (contains x.ws q ≡ true) × ((sockets x.ws).address ≡ some x.c.address)

Stands-later :
    (sockets : ℕ → SocketState) (k : ℕ) (q : List ℕ) (x : Waiter)
    → Stands sockets q x
    → Stands sockets (k ∷ q) x
unfolding contains
Stands-later sockets k q x (h, e) = (ground arith, e)

pub waiters-Stands :
    (own : Option String) (sockets : ℕ → SocketState) (q : List ℕ)
    → All (Stands sockets q) (waiters own sockets q)
unfolding waiters contains
waiters-Stands own sockets [] = tt
waiters-Stands own sockets (k ∷ q) =
    let later =
      All-map (waiters own sockets q) (Stands-later sockets k q) (waiters-Stands own sockets q) in
    elim (Option-cases (sockets k).address) [
      | inl e ↦ rw (e, waiters) later
      | inr (a, e) ↦ elim (Bool-cases (differs own a)) [
        | inl d ↦ rw (e, d, waiters) ((rw ==_refl refl, e), later)
        | inr d ↦ rw (e, d, waiters) later
      ]
    ]

find-All {ℓ κ} :
    {A : Type ℓ} (P : A → Type κ) (p : A → Bool) (xs : List A) (x : A)
    → All P xs
    → find p xs ≡ some x
    → P x
find-All P p [] x h e = cc
find-All P p (y ∷ ys) x (q, h) e = elim (Bool-cases (p y)) [
  | inl t ↦ let same : y ≡ x = ground arith in subst P same q
  | inr f ↦ find-All P p ys x h (ground arith)
]

pub opponent_of-contains :
    (sockets : ℕ → SocketState) (q : List ℕ) (xs : List Waiter) (pick : Option Rated) (k : ℕ)
    → All (Stands sockets q) xs
    → opponent_of xs pick ≡ some k
    → contains k q ≡ true
opponent_of-contains sockets q xs none k h e = cc
opponent_of-contains sockets q xs (some pick) k h e =
    elim (Option-cases (find (λ x. str_eq x.c.address pick.c.address) xs)) [
      | inl missing ↦ ground arith
      | inr (x, found) ↦
          let same : x.ws ≡ k = ground arith in
          rw (← same) ((find-All (Stands sockets q) _ xs x h found).0)
    ]
