-- ===== src/Sponsor/Tests.antt =====
-- Runs of apps/server/src/sponsor.ts, and its theorems at concrete inputs.
use flicky.Prelude.{
  String, ◌≡◌, refl, ap, false, Option, none, some, List, [], ◌∷◌, arith, str_eq, if◌then◌else◌,
}
use flicky.Prelude.Maps.{lookup, insert}
use flicky.Ratelimit.{
  default_limits, register_limit, bucket_or_full, refill, take_token, use_bucket, consume,
}
use flicky.Sponsor.{
  SponsorNetwork, testnet, Target, Command, move_call, other_command, all_targets,
  build_allowed_targets, issues,
}
use flicky.Sponsor.Origins.{is_sponsor_origin_allowed}
use flicky.Sponsor.Requests.{
  Deploy, Sponsor, Service, Request, Result, rejected, transaction, executed, policy_rejected, post,
  sponsorable, make_from, make_sponsor, get_sponsor, execute_for, answer_of, answer_body,
  answer_post, answer_method, handle_sponsor_request, fresh_service,
}
use flicky.Sponsor.Kept.{Bound, SignedFor, serve, serve-Bound}
use flicky.Sponsor.Paid.{charges, is_rejected, Passed, charged-permitted}

abbrev same : String → String
same s = s

abbrev address_of : String → Option String
address_of key = some "0xsponsor"

abbrev deploy : Deploy
deploy = record {
  allowed_origins = none;
  default_network = testnet;
  enabled_networks = testnet ∷ [];
  packages = λ n. record {
    flicky = some "0xf";
    account = some "0xacc";
    deepbook_predict = some "0xdb";
    swap = none;
    sponsor_secret_key = some "key";
  };
}

abbrev call : String → String → String → Command
call p m f = move_call (record { package_id = p; module_name = m; function_name = f })

-- What the bytes of a transaction hold: one swipes, the others call an unknown package.
abbrev commands : String → List Command
commands tx =
    if str_eq tx "swipe"
    then call "0x2" "coin" "split" ∷ call "0xf" "duel" "record_swipe" ∷ other_command ∷ []
    else call "0xevil" "duel" "record_swipe" ∷ []

-- A library that refuses where the validator raises an issue, and executes the rest.
abbrev verdict : List Target → Option Result
verdict [] = some (transaction "digest")
verdict (t ∷ ts) = some (rejected "policy")

abbrev library : Sponsor → String → String → Option Result
library s tx signature = verdict (issues same s.allowed (commands tx))

verdict-refuses :
    (ts : List Target) (r : Result) → verdict ts ≡ some r → is_rejected r ≡ false → ts ≡ []
verdict-refuses [] r e ran = refl
verdict-refuses (t ∷ ts) r e ran = absurd (ground (arith, e, ran))

abbrev request : String → Request
request tx = record {
  method = post;
  origin = some "https://flicky.app";
  network_param = none;
  client_ip = "10.0.0.1";
  body =
      some
        (record { transaction = some tx; user_signature = some "sig"; network = some "testnet" });
}

abbrev service : Service
service = fresh_service default_limits

swipe_paid :
    (handle_sponsor_request same address_of library deploy (request "swipe") 5000 service).1
    ≡ executed "digest"
unfolding handle_sponsor_request is_sponsor_origin_allowed answer_method answer_post answer_body
    execute_for get_sponsor make_sponsor make_from build_allowed_targets all_targets answer_of
    issues sponsorable consume use_bucket refill take_token bucket_or_full default_limits
    register_limit lookup insert
swipe_paid = refl

evil_refused :
    (handle_sponsor_request same address_of library deploy (request "evil") 5000 service).1
    ≡ policy_rejected "policy"
unfolding handle_sponsor_request is_sponsor_origin_allowed answer_method answer_post answer_body
    execute_for get_sponsor make_sponsor make_from build_allowed_targets all_targets answer_of
    issues sponsorable consume use_bucket refill take_token bucket_or_full default_limits
    register_limit lookup insert
evil_refused = refl

-- The empty text is no enabled network, and the transaction is paid for.
unnamed_paid :
    (handle_sponsor_request same address_of library deploy
      (record (request "swipe") {
        body =
            some (record {
              transaction = some "swipe";
              user_signature = some "sig";
              network = some "";
            });
      })
      5000
      service).1
    ≡ executed "digest"
unfolding handle_sponsor_request is_sponsor_origin_allowed answer_method answer_post answer_body
    execute_for get_sponsor make_sponsor make_from build_allowed_targets all_targets answer_of
    issues sponsorable consume use_bucket refill take_token bucket_or_full default_limits
    register_limit lookup insert
unnamed_paid = refl

abbrev served : Service
served =
    serve same address_of library deploy ((request "swipe", 5000) ∷ (request "evil", 5001) ∷ [])
      (fresh_service default_limits)

serve-Bound_example :
    Bound same deploy served
    × ((n : SponsorNetwork) (tx signature : String)
        → SignedFor same address_of library deploy n tx signature
            (execute_for same address_of library deploy n tx signature served).1)
serve-Bound_example =
    serve-Bound same address_of library deploy default_limits
      ((request "swipe", 5000) ∷ (request "evil", 5001) ∷ [])

fresh-Bound : Bound same deploy service
fresh-Bound = record { bound = λ n s e. absurd (cc (e)) }

charged-permitted_example :
    Passed same address_of library deploy commands (request "swipe") 5000 service
charged-permitted_example =
    charged-permitted same address_of library deploy commands
      (λ s tx signature r e ran. verdict-refuses (issues same s.allowed (commands tx)) r e ran)
      (request "swipe") 5000 service fresh-Bound (ap charges swipe_paid)
