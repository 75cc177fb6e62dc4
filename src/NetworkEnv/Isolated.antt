-- ===== src/NetworkEnv/Isolated.antt =====
-- apps/server/src/network-env.ts: what the configuration of mainnet depends on.
use flicky.Prelude.{
  String, ◌≡◌, refl, ap, ◌≢◌, inl, inr, Option, none, some, List, [], ◌∷◌, arith, eq_iff,
  Option-cases,
}
use mathlib.Core.Path.{fun_ext}
use flicky.Sponsor.{build_allowed_targets}
use flicky.NetworkEnv.{
  mainnet, Variables, suffixed, first_suffixed, pick, aliases, DeployedJson, deployed_package,
  build, network_env, packages_of, network_name,
}

-- The two environments give the same value to every variable that is named for mainnet.
abbrev pub AgreeOnMainnet : Variables → Variables → Type 0
AgreeOnMainnet env env' =
    (name : String) → env (suffixed name mainnet) ≡ env' (suffixed name mainnet)

-- The file of the last publish records another network, or is not there.
abbrev pub ForAnother : Option DeployedJson → Type 0
ForAnother none = Unit
ForAnother (some d) =
    (recorded : String) × ((d.network ≡ some recorded) × (recorded ≢ network_name mainnet))

first_suffixed-agree :
    (env env' : Variables) (names : List String)
    → AgreeOnMainnet env env'
    → first_suffixed env mainnet names ≡ first_suffixed env' mainnet names
unfolding first_suffixed
first_suffixed-agree env env' [] h = refl
first_suffixed-agree env env' (name ∷ names) h =
    let same = h name in
    elim (Option-cases (env' (suffixed name mainnet))) [
      | inl e ↦ rw (same, e, first_suffixed) (first_suffixed-agree env env' names h)
      | inr (v, e) ↦ rw (same, e, first_suffixed)
    ]

pick-agree :
    (env env' : Variables)
    → AgreeOnMainnet env env'
    → (key : String) → pick env mainnet key ≡ pick env' mainnet key
unfolding pick
pick-agree env env' h key =
    let same = first_suffixed-agree env env' (key ∷ aliases key) h in
    elim (Option-cases (first_suffixed env' mainnet (key ∷ aliases key))) [
      | inl e ↦ rw (same, e, pick)
      | inr (v, e) ↦ rw (same, e, pick)
    ]

deployed-another : (d : Option DeployedJson) → ForAnother d → deployed_package d mainnet ≡ none
unfolding deployed_package
deployed-another none h = refl
deployed-another (some d) (recorded, (e, n)) =
    rw (e, deployed_package) (ground (arith, n, eq_iff recorded (network_name mainnet)))

-- The whole configuration of mainnet, and with it the list of the targets that the sponsor pays for
-- there, depends on the variables that are named for mainnet alone, where the file of the last
-- publish records another network or is missing: no value or default of a testnet deploy gets in.
pub mainnet_isolated :
    (default_of default_of' : String → String) (env env' : Variables) (d d' : Option DeployedJson)
    → AgreeOnMainnet env env'
    → ForAnother d
    → ForAnother d'
    → (network_env default_of env d mainnet ≡ network_env default_of' env' d' mainnet)
      × (build_allowed_targets (packages_of (network_env default_of env d mainnet))
          ≡ build_allowed_targets (packages_of (network_env default_of' env' d' mainnet)))
unfolding network_env build
mainnet_isolated default_of default_of' env env' d d' h a a' =
    let picked = fun_ext (pick-agree env env' h) in
    let same : network_env default_of env d mainnet ≡ network_env default_of' env' d' mainnet =
      rw (picked, deployed-another d a, deployed-another d' a') in
    (same, ap (λ e. build_allowed_targets (packages_of e)) same)
