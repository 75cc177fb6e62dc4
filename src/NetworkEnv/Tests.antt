-- ===== src/NetworkEnv/Tests.antt =====
-- Runs of apps/server/src/network-env.ts, and its theorem at concrete environments.
use flicky.Prelude.{
  ℕ, String, ◌≡◌, refl, Option, none, some, arith, eq_iff, ◌==◌, str_eq, if◌then◌else◌,
}
use Prim.Native.Char.{code}
use Prim.Native.String.append.{cons}
use flicky.Sponsor.{build_allowed_targets}
use flicky.NetworkEnv.{
  mainnet, testnet, Variables, suffixed, aliases, first_suffixed, first_bare, pick, DeployedJson,
  deployed_package, build, network_env, packages_of,
}
use flicky.NetworkEnv.Isolated.{AgreeOnMainnet, ForAnother, mainnet_isolated}

-- The code of a text's last character.
unfoldable last_or : ℕ → String → ℕ
last_or n String.[] = n
last_or n (String.◌∷◌ c s) = last_or (code c) s

for_mainnet : (n : ℕ) (name : String) → last_or n (suffixed name mainnet) ≡ 84
unfolding last_or
for_mainnet n String.[] = refl
for_mainnet n (String.◌∷◌ c s) = rw (cons c s "_MAINNET") (for_mainnet (code c) s)

-- An environment with one variable for mainnet.
abbrev one : Variables
one name = if str_eq name "DEEPBOOK_PREDICT_PACKAGE_ID_MAINNET" then some "0xdb" else none

-- The same with one of a testnet deploy, which does not end in T.
abbrev both : Variables
both name =
    if last_or 0 name == 84
    then one name
    else if str_eq name "FLICKY_PACKAGE_ID"
    then some "0xtest"
    else none

abbrev default_of : String → String
default_of key = "0xdefault"

abbrev published : Option DeployedJson
published = some (record { network = some "testnet"; package_id = some "0xpublished" })

alias_read : pick both mainnet "DEEPBOOK_PREDICT_PACKAGE" ≡ some "0xdb"
unfolding pick first_suffixed first_bare aliases last_or
alias_read = refl

bare_not_for_mainnet : pick both mainnet "FLICKY_PACKAGE" ≡ none
unfolding pick first_suffixed first_bare aliases last_or
bare_not_for_mainnet = refl

bare_for_testnet : pick both testnet "FLICKY_PACKAGE" ≡ some "0xtest"
unfolding pick first_suffixed first_bare aliases last_or
bare_for_testnet = refl

published_for_testnet :
    (network_env default_of one published testnet).flicky_package_id ≡ some "0xpublished"
unfolding network_env build pick first_suffixed first_bare deployed_package aliases last_or
published_for_testnet = refl

agree : AgreeOnMainnet both one
agree name = rw (for_mainnet 0 name)

another : ForAnother published
another = ("testnet", (refl, λ e. ground (arith, eq_iff "testnet" "mainnet", e)))

mainnet_isolated_example :
    (network_env default_of both published mainnet ≡ network_env default_of one none mainnet)
    × (build_allowed_targets (packages_of (network_env default_of both published mainnet))
        ≡ build_allowed_targets (packages_of (network_env default_of one none mainnet)))
mainnet_isolated_example =
    mainnet_isolated default_of default_of both one published none agree another tt
