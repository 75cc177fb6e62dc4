-- ===== src/Sponsor/Paid.antt =====
-- apps/server/src/sponsor.ts: what a request that costs the sponsor gas has passed.
use flicky.Prelude.{
  ℕ, String, ◌≡◌, refl, sym, ◌∙◌, ◌≢◌, inl, inr, Bool, true, false, Option, none, some, List, [],
  Bool-cases, Option-cases,
}
use flicky.Prelude.{All, All-map, arith, eq_iff, str_eq}
use flicky.Ratelimit.{is_ok, consume}
use flicky.Sponsor.{SponsorNetwork, unnamed, Command, issues}
use flicky.Sponsor.Origins.{is_sponsor_origin_allowed}
use flicky.Sponsor.Allowed.{permitted, calls, allowed-permitted, issues-passed}
use flicky.Sponsor.Requests.{
  Deploy, Sponsor, Service, Request, Body, Result, rejected, failed_transaction, transaction,
  Answer, executed, failed_on_chain, Method, options, get, post, other_method, answer_of,
  get_sponsor, answer_get, execute_for, answer_body, answer_post, answer_method, refused_origin,
  handle_sponsor_request, named_or_default,
}
use flicky.Sponsor.Named.{FromAllowed, origin-FromAllowed, Names, sponsorable-Names}
use flicky.Sponsor.Kept.{Bound, IsOf, get_sponsor-Gives, limited-Bound, outcome-cases}

-- The sponsor paid for gas: its transaction was executed, with success or not.
abbrev pub charges : Answer → Bool
charges (executed digest) = true
charges (failed_on_chain digest) = true
charges _ = false

abbrev pub is_rejected : Result → Bool
is_rejected (rejected reason) = true
is_rejected _ = false

refused-free : (m : Method) → charges (refused_origin m) ≢ true
unfolding refused_origin
refused-free options = cc
refused-free get = cc
refused-free post = cc
refused-free other_method = cc

module _ (normalize : String → String) (address_of : String → Option String)
    (sign_and_execute : Sponsor → String → String → Option Result) (deploy : Deploy) where
  -- What an answer that charges the sponsor means.
  abbrev pub Passed : (String → List Command) → Request → ℕ → Service → Type 0
  Passed commands req now sv =
      (b : Body) × ((tx : String) × ((n : SponsorNetwork) × ((req.body ≡ some b)
            × ((b.transaction ≡ some tx)
                × (Names deploy b.network n
                    × (FromAllowed deploy.allowed_origins req.origin
                        × ((is_ok (consume "sponsor" req.client_ip now sv.limiter).1 ≡ true)
                            × All (λ t. permitted normalize (deploy.packages n) t ≡ true)
                                (calls normalize (commands tx)))))))))

  named-Names :
      (requested : Option String) (n : SponsorNetwork)
      → named_or_default normalize address_of sign_and_execute deploy requested ≡ some n
      → Names deploy requested n
  named-Names none n h = cc (h)
  named-Names (some v) n h = elim (Bool-cases (str_eq v "")) [
    | inl e ↦
        let found : some unnamed ≡ some n = rw e at h in
        inl (ground (arith, eq_iff v "", e), cc (found))
    | inr e ↦ inr (sponsorable-Names deploy v n (rw e at h))
  ]

  module _ (commands : String → List Command)
      (documented : (s : Sponsor) (tx signature : String) (r : Result)
        → sign_and_execute s tx signature ≡ some r
        → is_rejected r ≡ false
        → issues normalize s.allowed (commands tx) ≡ []) where
    -- A transaction that the library executed calls what the network's policy permits.
    ran-permitted :
        (n : SponsorNetwork) (s : Sponsor) (tx signature : String) (r : Result)
        → IsOf normalize deploy n s
        → sign_and_execute s tx signature ≡ some r
        → is_rejected r ≡ false
        → All
            (λ t. permitted normalize (deploy.packages n) t ≡ true)
            (calls normalize (commands tx))
    ran-permitted n s tx signature r (at, (ts, (b, same))) e ran =
        All-map (calls normalize (commands tx))
          (λ t p. sym (allowed-permitted normalize (deploy.packages n) ts t b) ∙ rw same at p)
          (issues-passed normalize s.allowed (commands tx) (documented s tx signature r e ran))

    execute_for-permitted :
        (n : SponsorNetwork) (tx signature : String) (sv : Service)
        → Bound normalize deploy sv
        → charges (execute_for normalize address_of sign_and_execute deploy n tx signature sv).1
          ≡ true
        → All
            (λ t. permitted normalize (deploy.packages n) t ≡ true)
            (calls normalize (commands tx))
    unfolding execute_for answer_of
    execute_for-permitted n tx signature sv h c =
        let (sv', found) = get_sponsor normalize address_of sign_and_execute deploy n sv in
        let is_of = (get_sponsor-Gives normalize address_of sign_and_execute deploy n sv h).1 in
        elim (Option-cases found) [
          | inl e ↦ absurd (cc (e, c))
          | inr (none, e) ↦ absurd (cc (e, c))
          | inr (some s, e) ↦ elim (Option-cases (sign_and_execute s tx signature)) [
            | inl x ↦ absurd (cc (e, x, c))
            | inr (rejected reason, x) ↦ absurd (cc (e, x, c))
            | inr (failed_transaction digest, x) ↦
                ran-permitted n s tx signature (failed_transaction digest) (is_of s e) x refl
            | inr (transaction digest, x) ↦
                ran-permitted n s tx signature (transaction digest) (is_of s e) x refl
          ]
        ]

    abbrev Calls : Option Body → Type 0
    Calls body =
        (b : Body) × ((tx : String) × ((n : SponsorNetwork) × ((body ≡ some b)
              × ((b.transaction ≡ some tx)
                  × ((named_or_default normalize address_of sign_and_execute deploy b.network
                        ≡ some n)
                      × All (λ t. permitted normalize (deploy.packages n) t ≡ true)
                          (calls normalize (commands tx)))))))

    answer_body-Calls :
        (body : Option Body) (sv : Service)
        → Bound normalize deploy sv
        → charges (answer_body normalize address_of sign_and_execute deploy body sv).1 ≡ true
        → Calls body
    unfolding answer_body
    answer_body-Calls none sv h c = absurd (cc (c))
    answer_body-Calls (some b) sv h c = elim (Option-cases b.transaction) [
      | inl e ↦ absurd (cc (rw (e, answer_body) at c))
      | inr (tx, e) ↦ elim (Option-cases b.user_signature) [
        | inl e' ↦ absurd (cc (rw (e, e', answer_body) at c))
        | inr (signature, e') ↦
            elim (Option-cases
              (named_or_default normalize address_of sign_and_execute deploy b.network)) [
                | inl e'' ↦ absurd (cc (rw (e, e', e'', answer_body) at c))
                | inr (n, e'') ↦
                    let ran = rw (e, e', e'', answer_body) at c in
                    (
                      b,
                      (tx, (n, (refl, (e, (e'', execute_for-permitted n tx signature sv h ran))))),
                    )
              ]
      ]
    ]

    answer_method-charged :
        (m : Method) (req : Request) (now : ℕ) (sv : Service)
        → charges (answer_method normalize address_of sign_and_execute deploy m req now sv).1 ≡ true
        → (is_ok (consume "sponsor" req.client_ip now sv.limiter).1 ≡ true)
          × (charges
                (answer_body normalize address_of sign_and_execute deploy req.body
                  (record sv { limiter = (consume "sponsor" req.client_ip now sv.limiter).0 })).1
              ≡ true)
    unfolding answer_method answer_get answer_post
    answer_method-charged options req now sv c = absurd (cc (c))
    answer_method-charged other_method req now sv c = absurd (cc (c))
    answer_method-charged get req now sv c =
        elim (Option-cases
          (named_or_default normalize address_of sign_and_execute deploy req.network_param)) [
            | inl e ↦ absurd (cc (rw (e, answer_get) at c))
            | inr (n, e) ↦ absurd (cc (rw (e, answer_get) at c))
          ]
    answer_method-charged post req now sv c =
        elim (outcome-cases (consume "sponsor" req.client_ip now sv.limiter).1) [
          | inl e ↦ (rw e, rw (e, answer_post) at c)
          | inr (ms, e) ↦ absurd (cc (rw (e, answer_post) at c))
        ]

    -- A request is charged to the sponsor only if no list of origins is set or its origin is one of
    -- the list, the rate limit let it through, it named a network that is enabled, none (for the
    -- default one), or the empty text (for the network without a name), and every call of its
    -- transaction is of the Sui framework or a listed function of that network's packages; where the
    -- library executes nothing that the validator raises an issue on.
    pub charged-permitted :
        (req : Request) (now : ℕ) (sv : Service)
        → Bound normalize deploy sv
        → charges (handle_sponsor_request normalize address_of sign_and_execute deploy req now sv).1
          ≡ true
        → Passed commands req now sv
    unfolding handle_sponsor_request refused_origin
    charged-permitted req now sv h c =
        elim (Bool-cases (is_sponsor_origin_allowed deploy.allowed_origins req.origin)) [
          | inr e ↦ absurd (refused-free req.method (rw e at c))
          | inl e ↦
              let (through, paid) = answer_method-charged req.method req now sv (rw e at c) in
              let limiter = (consume "sponsor" req.client_ip now sv.limiter).0 in
              let (b, (tx, (n, (body, (has_tx, (network, all)))))) =
                answer_body-Calls req.body (record sv { limiter = limiter })
                  (limited-Bound normalize address_of sign_and_execute deploy limiter sv h) paid in
              (
                b,
                (
                  tx,
                  (
                    n,
                    (
                      body,
                      (
                        has_tx,
                        (
                          named-Names b.network n network,
                          (origin-FromAllowed deploy.allowed_origins req.origin e, (through, all)),
                        ),
                      ),
                    ),
                  ),
                ),
              )
        ]
