-- ===== src/Sponsor/Kept.antt =====
-- apps/server/src/sponsor.ts: every sponsor that is kept is bound to its network.
use flicky.Prelude.{
  ℕ, String, ◌≡◌, refl, ◌⊎◌, inl, inr, true, Option, none, some, List, [], ◌∷◌, map, Bool-cases,
  Option-cases,
}
use mathlib.Core.Path.{subst}
use flicky.Ratelimit.{Limiter, Outcome, ok, denied, consume}
use flicky.Sponsor.{SponsorNetwork, Target, build_allowed_targets, normalized}
use flicky.Sponsor.Origins.{is_sponsor_origin_allowed}
use flicky.Sponsor.Requests.{
  Deploy, Sponsor, Service, Request, Body, Result, Answer, not_available, no_secret_key, answer_of,
  Method, options, get, post, other_method, same_network, cached, make_from, make_sponsor,
  get_sponsor, list_networks, answer_get, execute_for, answer_body, answer_post, answer_method,
  handle_sponsor_request, fresh_service, named_or_default,
}

pub outcome-cases : (o : Outcome) → (o ≡ ok) ⊎ ((ms : ℕ) × (o ≡ denied ms))
outcome-cases ok = inl refl
outcome-cases (denied ms) = inr (ms, refl)

module _ (normalize : String → String) (deploy : Deploy) where
  -- A sponsor that is kept for a network has that network's allowlist.
  abbrev pub IsOf : SponsorNetwork → Sponsor → Type 0
  IsOf n s =
      (s.network ≡ n)
      × ((ts : List Target) × ((build_allowed_targets (deploy.packages n) ≡ some ts)
            × (s.allowed ≡ map (normalized normalize) ts)))

  pub record Bound (sv : Service) : Type 0 where
    pub bound : (n : SponsorNetwork) (s : Sponsor) → sv.sponsors n ≡ some (some s) → IsOf n s

pub same_network→≡ : (m n : SponsorNetwork) → same_network m n ≡ true → m ≡ n
same_network→≡ SponsorNetwork.testnet SponsorNetwork.testnet h = refl
same_network→≡ SponsorNetwork.testnet SponsorNetwork.mainnet h = cc
same_network→≡ SponsorNetwork.testnet SponsorNetwork.unnamed h = cc
same_network→≡ SponsorNetwork.mainnet SponsorNetwork.testnet h = cc
same_network→≡ SponsorNetwork.mainnet SponsorNetwork.mainnet h = refl
same_network→≡ SponsorNetwork.mainnet SponsorNetwork.unnamed h = cc
same_network→≡ SponsorNetwork.unnamed SponsorNetwork.testnet h = cc
same_network→≡ SponsorNetwork.unnamed SponsorNetwork.mainnet h = cc
same_network→≡ SponsorNetwork.unnamed SponsorNetwork.unnamed h = refl

module _ (normalize : String → String) (address_of : String → Option String)
    (sign_and_execute : Sponsor → String → String → Option Result) (deploy : Deploy) where
  cached-Bound :
      (n : SponsorNetwork) (o : Option Sponsor) (sv : Service)
      → ((s : Sponsor) → o ≡ some s → IsOf normalize deploy n s)
      → Bound normalize deploy sv
      → Bound normalize deploy (cached n o sv)
  cached-Bound n o sv k h = record {
    bound = λ m s e. elim (Bool-cases (same_network m n)) [
      | inl same ↦
          let at = same_network→≡ m n same in
          let found : some o ≡ some (some s) = rw same at e in rw at (k s (cc (found)))
      | inr other ↦ h.bound m s (rw other at e)
    ];
  }

  abbrev pub Gives : SponsorNetwork → Service × Option (Option Sponsor) → Type 0
  Gives n (sv, found) =
      Bound normalize deploy sv
      × ((s : Sponsor) → found ≡ some (some s) → IsOf normalize deploy n s)

  make_from-Gives :
      (n : SponsorNetwork) (key : Option String) (targets : Option (List Target)) (sv : Service)
      → build_allowed_targets (deploy.packages n) ≡ targets
      → Bound normalize deploy sv
      → Gives n (make_from normalize address_of sign_and_execute deploy n key address_of targets sv)
  unfolding make_from
  make_from-Gives n none targets sv b h =
      (cached-Bound n none sv (λ s f. absurd (cc (f))) h, λ s f. absurd (cc (f)))
  make_from-Gives n (some key) none sv b h = (h, λ s f. absurd (cc (f)))
  make_from-Gives n (some key) (some ts) sv b h = elim (Option-cases (address_of key)) [
    | inl e ↦ rw (e, make_from) (h, λ s f. absurd (cc (f)))
    | inr (a, e) ↦
        let made : Sponsor = record {
          network = n;
          secret_key = key;
          address = a;
          allowed = map (normalized normalize) ts;
        } in
        let is_of : IsOf normalize deploy n made = (refl, (ts, (b, refl))) in
        let only : (s : Sponsor) → some made ≡ some s → IsOf normalize deploy n s =
          λ s f. (let e : made ≡ s = cc (f) in subst (IsOf normalize deploy n) e is_of) in
        rw (e, make_from) (cached-Bound n (some made) sv only h, λ s f. only s (cc (f)))
  ]

  -- What `getSponsor` gives is of its network, and so is what it keeps.
  pub get_sponsor-Gives :
      (n : SponsorNetwork) (sv : Service)
      → Bound normalize deploy sv
      → Gives n (get_sponsor normalize address_of sign_and_execute deploy n sv)
  unfolding get_sponsor make_sponsor
  get_sponsor-Gives n sv h = elim (Option-cases (sv.sponsors n)) [
    | inr (hit, e) ↦ rw (e, get_sponsor) (h, λ s f. h.bound n s (cc (e, f)))
    | inl e ↦
        let p = deploy.packages n in
        rw (e, get_sponsor)
          (make_from-Gives n p.sponsor_secret_key (build_allowed_targets p) sv refl h)
  ]

  list_networks-Bound :
      (ns : List SponsorNetwork) (sv : Service)
      → Bound normalize deploy sv
      → Bound normalize deploy (list_networks normalize address_of sign_and_execute deploy ns sv).0
  unfolding list_networks
  list_networks-Bound [] sv h = h
  list_networks-Bound (n ∷ ns) sv h =
      list_networks-Bound ns (get_sponsor normalize address_of sign_and_execute deploy n sv).0
        (get_sponsor-Gives n sv h).0

  execute_for-Bound :
      (n : SponsorNetwork) (tx signature : String) (sv : Service)
      → Bound normalize deploy sv
      → Bound normalize deploy
          (execute_for normalize address_of sign_and_execute deploy n tx signature sv).0
  unfolding execute_for
  execute_for-Bound n tx signature sv h =
      let (sv', found) = get_sponsor normalize address_of sign_and_execute deploy n sv in
      let kept = (get_sponsor-Gives n sv h).0 in
      elim (Option-cases found) [
        | inl e ↦ rw (e, execute_for) kept
        | inr (none, e) ↦ rw (e, execute_for) kept
        | inr (some s, e) ↦ rw (e, execute_for) kept
      ]

  answer_body-Bound :
      (b : Option Body) (sv : Service)
      → Bound normalize deploy sv
      → Bound normalize deploy (answer_body normalize address_of sign_and_execute deploy b sv).0
  unfolding answer_body
  answer_body-Bound none sv h = h
  answer_body-Bound (some b) sv h = elim (Option-cases b.transaction) [
    | inl e ↦ rw (e, answer_body) h
    | inr (tx, e) ↦ elim (Option-cases b.user_signature) [
      | inl e' ↦ rw (e, e', answer_body) h
      | inr (signature, e') ↦
          elim (Option-cases
            (named_or_default normalize address_of sign_and_execute deploy b.network)) [
              | inl e'' ↦ rw (e, e', e'', answer_body) h
              | inr (n, e'') ↦ rw (e, e', e'', answer_body) (execute_for-Bound n tx signature sv h)
            ]
    ]
  ]

  pub limited-Bound :
      (limiter : Limiter) (sv : Service)
      → Bound normalize deploy sv
      → Bound normalize deploy (record sv { limiter = limiter })
  limited-Bound limiter sv h = record { bound = h.bound }

  answer_method-Bound :
      (m : Method) (req : Request) (now : ℕ) (sv : Service)
      → Bound normalize deploy sv
      → Bound normalize deploy
          (answer_method normalize address_of sign_and_execute deploy m req now sv).0
  unfolding answer_method answer_get answer_post
  answer_method-Bound options req now sv h = h
  answer_method-Bound other_method req now sv h = h
  answer_method-Bound get req now sv h =
      elim (Option-cases
        (named_or_default normalize address_of sign_and_execute deploy req.network_param)) [
          | inl e ↦ rw (e, answer_get) h
          | inr (n, e) ↦ rw (e, answer_get) (list_networks-Bound deploy.enabled_networks sv h)
        ]
  answer_method-Bound post req now sv h =
      let (limiter, gate) = consume "sponsor" req.client_ip now sv.limiter in
      let limited = limited-Bound limiter sv h in
      elim (outcome-cases gate) [
        | inl e ↦
            rw (e, answer_post)
              (answer_body-Bound req.body (record sv { limiter = limiter }) limited)
        | inr (ms, e) ↦ rw (e, answer_post) limited
      ]

  pub handle-Bound :
      (req : Request) (now : ℕ) (sv : Service)
      → Bound normalize deploy sv
      → Bound normalize deploy
          (handle_sponsor_request normalize address_of sign_and_execute deploy req now sv).0
  unfolding handle_sponsor_request
  handle-Bound req now sv h =
      elim (Bool-cases (is_sponsor_origin_allowed deploy.allowed_origins req.origin)) [
        | inl e ↦ rw e (answer_method-Bound req.method req now sv h)
        | inr e ↦ rw e h
      ]

  -- The service after a run of requests, each with its time.
  unfoldable pub serve : List (Request × ℕ) → Service → Service
  unfolding handle_sponsor_request
  serve [] sv = sv
  serve ((req, now) ∷ reqs) sv =
      serve reqs (handle_sponsor_request normalize address_of sign_and_execute deploy req now sv).0

  serve_from-Bound :
      (reqs : List (Request × ℕ)) (sv : Service)
      → Bound normalize deploy sv
      → Bound normalize deploy (serve reqs sv)
  unfolding serve
  serve_from-Bound [] sv h = h
  serve_from-Bound ((req, now) ∷ reqs) sv h =
      serve_from-Bound reqs
        (handle_sponsor_request normalize address_of sign_and_execute deploy req now sv).0
        (handle-Bound req now sv h)

  -- The answer to a transaction for a network: that network has no sponsor, or the library was
  -- given one that is bound to it.
  abbrev pub SignedFor : SponsorNetwork → String → String → Answer → Type 0
  SignedFor n tx signature answer =
      ((answer ≡ not_available) ⊎ (answer ≡ no_secret_key n))
      ⊎ ((s : Sponsor) × (IsOf normalize deploy n s
            × (answer ≡ answer_of (sign_and_execute s tx signature))))

  execute_for-signed :
      (n : SponsorNetwork) (tx signature : String) (sv : Service)
      → Bound normalize deploy sv
      → SignedFor n tx signature
          (execute_for normalize address_of sign_and_execute deploy n tx signature sv).1
  unfolding execute_for
  execute_for-signed n tx signature sv h =
      let (sv', found) = get_sponsor normalize address_of sign_and_execute deploy n sv in
      let is_of = (get_sponsor-Gives n sv h).1 in
      elim (Option-cases found) [
        | inl e ↦ rw (e, execute_for) (inl (inl refl))
        | inr (none, e) ↦ rw (e, execute_for) (inl (inr refl))
        | inr (some s, e) ↦ rw (e, execute_for) (inr (s, (is_of s e, refl)))
      ]

  -- After any run of requests, of any kind and with any answers, each sponsor that is kept has the
  -- allowlist of the network that it is kept for, and a transaction for a network is signed by a
  -- sponsor with that network and its allowlist, or by none.
  pub serve-Bound :
      (limiter : Limiter) (reqs : List (Request × ℕ))
      → let sv = serve reqs (fresh_service limiter) in
        Bound normalize deploy sv
        × ((n : SponsorNetwork) (tx signature : String)
            → SignedFor n tx signature
                (execute_for normalize address_of sign_and_execute deploy n tx signature sv).1)
  serve-Bound limiter reqs =
      let bound =
        serve_from-Bound reqs (fresh_service limiter)
          (record { bound = λ n s e. absurd (cc (e)) }) in
      (
        bound,
        λ n tx signature.
            execute_for-signed n tx signature (serve reqs (fresh_service limiter)) bound,
      )
