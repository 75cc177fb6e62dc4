-- ===== src/Sponsor/Named.antt =====
-- apps/server/src/sponsor.ts: what the guards of the handler let through, origins and networks.
use flicky.Prelude.{
  String, ◌≡◌, refl, ◌≢◌, inl, inr, Bool, true, Option, none, some, List, [], Bool-cases,
}
use flicky.Prelude.{any, ap, ◌⊎◌, ◌++◌, ◌∷◌, arith, eq_iff, str_eq, if◌then◌else◌}
use mathlib.Core.Path.{subst}
use flicky.Sponsor.{SponsorNetwork, testnet, mainnet, unnamed}
use flicky.Sponsor.Origins.{is_sponsor_origin_allowed}
use flicky.Sponsor.Requests.{Deploy, sponsorable, same_network}
use flicky.Sponsor.Kept.{same_network→≡}

-- One of a list.
abbrev pub Member {ℓ} : {A : Type ℓ} → A → List A → Type ℓ
Member {A = A} x xs = (before : List A) × ((after : List A) × (xs ≡ before ++ x ∷ after))

pub any-Member {ℓ} :
    {A : Type ℓ} (p : A → Bool) (x : A)
    → ((y : A) → p y ≡ true → y ≡ x)
    → (ys : List A) → any p ys ≡ true
    → Member x ys
any-Member p x h [] e = absurd (cc (e))
any-Member p x h (y ∷ ys) e = elim (Bool-cases (p y)) [
  | inl f ↦ ([], (ys, ap (λ v. v ∷ ys) (h y f)))
  | inr f ↦
      let (before, (after, same)) = any-Member p x h ys (ground (arith, e, f)) in
      (y ∷ before, (after, ap (λ v. y ∷ v) same))
]

-- Every origin where no list is set, or else a named one of the list.
abbrev pub FromAllowed : Option (List String) → Option String → Type 0
FromAllowed none origin = Unit
FromAllowed (some allowed) origin =
    (o : String) × ((origin ≡ some o) × ((o ≢ "") × Member o allowed))

pub origin-FromAllowed :
    (allowed : Option (List String)) (origin : Option String)
    → is_sponsor_origin_allowed allowed origin ≡ true
    → FromAllowed allowed origin
unfolding is_sponsor_origin_allowed
origin-FromAllowed none origin h = tt
origin-FromAllowed (some allowed) none h = absurd (cc (h))
origin-FromAllowed (some allowed) (some o) h = (
  o,
  (
    refl,
    (
      λ e. ground (arith, eq_iff o "", e, h),
      any-Member (λ x. str_eq x o) o (λ y e. ground (arith, eq_iff y o, e)) allowed
          (ground (arith, h)),
    ),
  ),
)

abbrev pub text_of : SponsorNetwork → String
text_of testnet = "testnet"
text_of mainnet = "mainnet"
text_of unnamed = ""

-- The network of a request: the default one where none is named, the unnamed one where the empty
-- text is, and otherwise one that is enabled, by its name.
abbrev pub Names : Deploy → Option String → SponsorNetwork → Type 0
Names deploy none n = n ≡ deploy.default_network
Names deploy (some v) n =
    ((v ≡ "") × (n ≡ unnamed)) ⊎ ((v ≡ text_of n) × Member n deploy.enabled_networks)

pub enabled-Member :
    (deploy : Deploy) (n m : SponsorNetwork)
    → (if any (λ k. same_network k n) deploy.enabled_networks then some n else none) ≡ some m
    → (n ≡ m) × Member n deploy.enabled_networks
enabled-Member deploy n m h =
    elim (Bool-cases (any (λ k. same_network k n) deploy.enabled_networks)) [
      | inl e ↦
          let found : some n ≡ some m = rw e at h in
          (
            cc (found),
            any-Member (λ k. same_network k n) n (λ k f. same_network→≡ k n f)
                deploy.enabled_networks e,
          )
      | inr e ↦ absurd (cc (rw e at h))
    ]

pub sponsorable-Names :
    (deploy : Deploy) (v : String) (m : SponsorNetwork)
    → sponsorable deploy v ≡ some m
    → (v ≡ text_of m) × Member m deploy.enabled_networks
unfolding sponsorable
sponsorable-Names deploy v m h = elim (Bool-cases (str_eq v "testnet")) [
  | inl e ↦
      let (same, found) = enabled-Member deploy testnet m (rw (e, sponsorable) at h) in
      subst (λ n. (v ≡ text_of n) × Member n deploy.enabled_networks) same
        (ground (arith, eq_iff v "testnet", e), found)
  | inr e ↦ elim (Bool-cases (str_eq v "mainnet")) [
    | inl f ↦
        let (same, found) = enabled-Member deploy mainnet m (rw (e, f, sponsorable) at h) in
        subst (λ n. (v ≡ text_of n) × Member n deploy.enabled_networks) same
          (ground (arith, eq_iff v "mainnet", f), found)
    | inr f ↦ absurd (cc (rw (e, f, sponsorable) at h))
  ]
]
