-- ===== src/Sponsor/Requests.antt =====
-- apps/server/src/sponsor.ts: the handler of `/sponsor`. The library that validates, signs and
-- executes is a parameter; none is an exception.
use flicky.Prelude.{
  ℕ, String, Bool, true, false, Option, none, some, List, [], ◌∷◌, map, str_eq, if◌then◌else◌,
}
use flicky.Prelude.{any}
use flicky.Sponsor.Origins.{is_sponsor_origin_allowed}
use flicky.Ratelimit.{Limiter, Outcome, ok, denied, consume}
use flicky.Sponsor.{
  SponsorNetwork, testnet, mainnet, unnamed, Packages, Target, build_allowed_targets, normalized,
}

-- The settings that the handler reads.
pub record Deploy : Type 0 where
  pub allowed_origins : Option (List String)
  pub default_network : SponsorNetwork
  pub enabled_networks : List SponsorNetwork
  pub packages : SponsorNetwork → Packages

abbrev pub same_network : SponsorNetwork → SponsorNetwork → Bool
same_network testnet testnet = true
same_network mainnet mainnet = true
same_network unnamed unnamed = true
same_network _ _ = false

-- `isSponsorableNetwork`, with the network that the text names.
unfoldable pub sponsorable : Deploy → String → Option SponsorNetwork
sponsorable deploy v =
    let enabled = λ (n : SponsorNetwork).
      if any (λ m. same_network m n) deploy.enabled_networks then some n else none in
    if str_eq v "testnet"
    then enabled testnet
    else if str_eq v "mainnet"
    then enabled mainnet
    else none

-- A sponsor that was made: its network's allowlist, normalized, and the address of its key.
pub record Sponsor : Type 0 where
  pub network : SponsorNetwork
  pub secret_key : String
  pub address : String
  pub allowed : List Target

-- The map of sponsors: none is no entry, some none an entry of a network without a key.
pub record Service : Type 0 where
  pub sponsors : SponsorNetwork → Option (Option Sponsor)
  pub limiter : Limiter

pub data Method : Type 0 where
  options get post other_method : Method

pub record Body : Type 0 where
  pub transaction : Option String
  pub user_signature : Option String
  pub network : Option String

-- A request to the path; the body is none where it is no JSON, and a transaction or a signature that
-- is falsy is none. A network is none where it is missing; it may be the empty text.
pub record Request : Type 0 where
  pub method : Method
  pub origin : Option String
  pub network_param : Option String
  pub client_ip : String
  pub body : Option Body

pub data Result : Type 0 where
  rejected : (reason : String) → Result
  failed_transaction : (digest : String) → Result
  transaction : (digest : String) → Result

pub data Answer : Type 0 where
  preflight : Answer
  origin_not_allowed : Answer
  network_not_enabled : String → Answer
  config : SponsorNetwork → List (SponsorNetwork × (Option String × Bool)) → Answer
  get_or_post_only : Answer
  rate_limited : (retry_ms : ℕ) → Answer
  invalid_json : Answer
  missing_fields : Answer
  not_available : Answer
  no_secret_key : SponsorNetwork → Answer
  policy_rejected : (reason : String) → Answer
  failed_on_chain : (digest : String) → Answer
  executed : (digest : String) → Answer
  call_failed : Answer

unfoldable pub status : Answer → ℕ
status preflight = 204
status origin_not_allowed = 403
status (network_not_enabled v) = 400
status (config n ns) = 200
status get_or_post_only = 405
status (rate_limited ms) = 429
status invalid_json = 400
status missing_fields = 400
status not_available = 503
status (no_secret_key n) = 503
status (policy_rejected reason) = 403
status (failed_on_chain digest) = 502
status (executed digest) = 200
status call_failed = 502

-- `OPTIONS` is answered before the origin is looked at.
unfoldable pub refused_origin : Method → Answer
refused_origin options = preflight
refused_origin get = origin_not_allowed
refused_origin post = origin_not_allowed
refused_origin other_method = origin_not_allowed

abbrev pub cached : SponsorNetwork → Option Sponsor → Service → Service
cached n s sv = record sv { sponsors = λ m. if same_network m n then some s else sv.sponsors m }

unfoldable pub answer_of : Option Result → Answer
answer_of none = call_failed
answer_of (some (rejected reason)) = policy_rejected reason
answer_of (some (failed_transaction digest)) = failed_on_chain digest
answer_of (some (transaction digest)) = executed digest

-- `address_of` is the address of the pair that `decodeKeypair` makes of a key; none where it throws.
module _ (normalize : String → String) (address_of : String → Option String)
    (sign_and_execute : Sponsor → String → String → Option Result) (deploy : Deploy) where
  -- From the secret key, its address, and the allowlist. none: the key cannot be decoded, or the
  -- allowlist cannot be built, which throws and stores nothing.
  unfoldable pub make_from :
      SponsorNetwork
      → Option String
      → (String → Option String)
      → Option (List Target)
      → Service
      → Service × Option (Option Sponsor)
  make_from n none address targets sv = (cached n none sv, some none)
  make_from n (some key) address none sv = (sv, none)
  make_from n (some key) address (some ts) sv = elim (address key) [
    | none ↦ (sv, none)
    | some a ↦
        let s : Sponsor = record {
          network = n;
          secret_key = key;
          address = a;
          allowed = map (normalized normalize) ts;
        } in
        (cached n (some s) sv, some (some s))
  ]

  unfoldable pub make_sponsor : SponsorNetwork → Service → Service × Option (Option Sponsor)
  unfolding make_from
  make_sponsor n sv =
      let p = deploy.packages n in
      make_from n p.sponsor_secret_key address_of (build_allowed_targets p) sv

  unfoldable pub get_sponsor : SponsorNetwork → Service → Service × Option (Option Sponsor)
  unfolding make_sponsor
  get_sponsor n sv = elim (sv.sponsors n) [ none ↦ make_sponsor n sv | some hit ↦ (sv, some hit) ]

  -- What `GET` lists of one network: its address, and whether it is ready.
  abbrev pub listed : SponsorNetwork → Option (Option Sponsor) → Option String × Bool
  listed n none = (none, false)
  listed n (some none) = (none, false)
  listed n (some (some s)) = elim (build_allowed_targets (deploy.packages n)) [
    | none ↦ (some s.address, false)
    | some ts ↦ (some s.address, true)
  ]

  unfoldable pub list_networks :
      List SponsorNetwork → Service → Service × List (SponsorNetwork × (Option String × Bool))
  unfolding get_sponsor
  list_networks [] sv = (sv, [])
  list_networks (n ∷ ns) sv =
      let (sv', found) = get_sponsor n sv in
      let (sv'', rest) = list_networks ns sv' in (sv'', (n, listed n found) ∷ rest)

  -- The empty text is falsy, so that it is not checked, and no nullish value, so that it stays.
  abbrev pub named_or_default : Option String → Option SponsorNetwork
  named_or_default none = some deploy.default_network
  named_or_default (some v) = if str_eq v "" then some unnamed else sponsorable deploy v

  abbrev pub or_blank : Option String → String
  or_blank none = ""
  or_blank (some v) = v

  unfoldable pub answer_get : Option String → Service → Service × Answer
  unfolding list_networks
  answer_get requested sv = elim (named_or_default requested) [
    | none ↦ (sv, network_not_enabled (or_blank requested))
    | some n ↦ let (sv', ns) = list_networks deploy.enabled_networks sv in (sv', config n ns)
  ]

  unfoldable pub execute_for : SponsorNetwork → String → String → Service → Service × Answer
  unfolding get_sponsor answer_of
  execute_for n tx signature sv =
      let (sv', found) = get_sponsor n sv in
      elim found [
        | none ↦ (sv', not_available)
        | some none ↦ (sv', no_secret_key n)
        | some (some s) ↦ (sv', answer_of (sign_and_execute s tx signature))
      ]

  unfoldable pub answer_body : Option Body → Service → Service × Answer
  unfolding execute_for
  answer_body none sv = (sv, invalid_json)
  answer_body (some b) sv = elim b.transaction [
    | none ↦ (sv, missing_fields)
    | some tx ↦ elim b.user_signature [
      | none ↦ (sv, missing_fields)
      | some signature ↦ elim (named_or_default b.network) [
        | none ↦ (sv, network_not_enabled (or_blank b.network))
        | some n ↦ execute_for n tx signature sv
      ]
    ]
  ]

  unfoldable pub answer_post : Request → Outcome → Service → Service × Answer
  unfolding answer_body
  answer_post req (denied retry_ms) sv = (sv, rate_limited retry_ms)
  answer_post req ok sv = answer_body req.body sv

  unfoldable pub answer_method : Method → Request → (now : ℕ) → Service → Service × Answer
  unfolding answer_get answer_post
  answer_method options req now sv = (sv, preflight)
  answer_method get req now sv = answer_get req.network_param sv
  answer_method other_method req now sv = (sv, get_or_post_only)
  answer_method post req now sv =
      let (limiter, gate) = consume "sponsor" req.client_ip now sv.limiter in
      answer_post req gate (record sv { limiter = limiter })

  unfoldable pub handle_sponsor_request : Request → (now : ℕ) → Service → Service × Answer
  unfolding answer_method refused_origin
  handle_sponsor_request req now sv =
      if is_sponsor_origin_allowed deploy.allowed_origins req.origin
      then answer_method req.method req now sv
      else (sv, refused_origin req.method)

abbrev pub fresh_service : Limiter → Service
fresh_service limiter = record { sponsors = λ n. none; limiter = limiter }
