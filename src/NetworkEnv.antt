-- ===== src/NetworkEnv.antt =====
-- apps/server/src/network-env.ts: what is configured for a network, from the environment's
-- variables and the file that a publish leaves. A variable that is empty counts as unset.
pub mod Isolated
mod Tests
use flicky.Prelude.{
  ℕ, zero, suc, ◌+◌, ◌-◌, ◌*◌, ◌/◌, ◌%◌, ◌^◌, ◌≤◌, ◌<◌, String, ◌≡◌, refl, sym, ap, ◌∙◌, ◌≢◌, ◌↔◌,
  ◌⊎◌, inl, inr, Bool, true, false, not, ◌&&◌, ◌||◌, Option, none, some, List, [], ◌∷◌, ◌++◌, map,
  arith, eq_iff, ltb, leb, ◌==◌, str_eq, str_eq_refl, if◌then◌else◌, Bool-cases, Option-cases,
  ==_iff, ==_refl, ltb→lt, leb→le, le→leb,
}
use Prim.Native.String
use flicky.Sponsor.{Packages}

pub data Network : Type 0 where
  mainnet testnet devnet localnet : Network

abbrev pub unset_id : String
unset_id = "0x0"

abbrev pub unset_url : String
unset_url = "https://unconfigured.invalid"

abbrev pub suffix : Network → String
suffix mainnet = "MAINNET"
suffix testnet = "TESTNET"
suffix devnet = "DEVNET"
suffix localnet = "LOCALNET"

unfoldable pub aliases : String → List String
aliases key =
    if str_eq key "FLICKY_PACKAGE"
    then "FLICKY_PACKAGE_ID" ∷ []
    else if str_eq key "DEEPBOOK_PREDICT_PACKAGE"
    then "DEEPBOOK_PREDICT_PACKAGE_ID" ∷ []
    else if str_eq key "ACCOUNT_PACKAGE"
    then "ACCOUNT_PACKAGE_ID" ∷ []
    else if str_eq key "SWAP_PACKAGE"
    then "SWAP_PACKAGE_ID" ∷ []
    else []

-- `process.env`; none is unset or empty.
abbrev pub Variables : Type 0
Variables = String → Option String

abbrev pub suffixed : String → Network → String
suffixed name net = String.◌++◌ name (String.◌++◌ "_" (suffix net))

unfoldable pub first_suffixed : Variables → Network → List String → Option String
first_suffixed env net [] = none
first_suffixed env net (name ∷ names) =
    let rest = first_suffixed env net names in
    elim (env (suffixed name net)) [ none ↦ rest | some v ↦ some v ]

unfoldable pub first_bare : Variables → List String → Option String
first_bare env [] = none
first_bare env (name ∷ names) =
    let rest = first_bare env names in elim (env name) [ none ↦ rest | some v ↦ some v ]

abbrev pub bare_unless_mainnet : Variables → Network → List String → Option String
bare_unless_mainnet env mainnet names = none
bare_unless_mainnet env testnet names = first_bare env names
bare_unless_mainnet env devnet names = first_bare env names
bare_unless_mainnet env localnet names = first_bare env names

unfoldable pub pick : Variables → Network → String → Option String
unfolding first_suffixed first_bare
pick env net key =
    let names = key ∷ aliases key in
    elim (first_suffixed env net names) [
      | some v ↦ some v
      | none ↦ bare_unless_mainnet env net names
    ]

-- `deployed.json`, where it can be read; an empty `network` is none.
pub record DeployedJson : Type 0 where
  pub network : Option String
  pub package_id : Option String

abbrev pub network_name : Network → String
network_name mainnet = "mainnet"
network_name testnet = "testnet"
network_name devnet = "devnet"
network_name localnet = "localnet"

-- A file that records another network is not for this one; one that records none is for every one.
unfoldable pub deployed_package : Option DeployedJson → Network → Option String
deployed_package none net = none
deployed_package (some d) net = elim d.network [
  | none ↦ d.package_id
  | some recorded ↦ if str_eq recorded (network_name net) then d.package_id else none
]

abbrev pub or_else : Option String → Option String → Option String
or_else none b = b
or_else (some a) b = some a

abbrev pub or_text : Option String → String → String
or_text none b = b
or_text (some a) b = a

abbrev pub unless_mainnet : Network → String → String → String
unless_mainnet mainnet unset default = unset
unless_mainnet testnet unset default = default
unless_mainnet devnet unset default = default
unless_mainnet localnet unset default = default

abbrev pub grpc_default : Network → String
grpc_default mainnet = "https://fullnode.mainnet.sui.io:443"
grpc_default testnet = "https://fullnode.testnet.sui.io:443"
grpc_default devnet = "https://fullnode.devnet.sui.io:443"
grpc_default localnet = "http://127.0.0.1:9000"

abbrev pub graphql_default : Network → String
graphql_default mainnet = "https://graphql.mainnet.sui.io/graphql"
graphql_default testnet = "https://graphql.testnet.sui.io/graphql"
graphql_default devnet = "https://graphql.devnet.sui.io/graphql"
graphql_default localnet = "http://127.0.0.1:9125/graphql"

pub record NetworkEnv : Type 0 where
  pub network : Network
  pub rpc_url : Option String
  pub grpc_url : String
  pub graphql_url : String
  pub flicky_package_id : Option String
  pub deepbook_predict_package_id : String
  pub protocol_config_id : String
  pub pool_vault_id : String
  pub predict_registry_id : String
  pub account_package_id : String
  pub account_registry_id : String
  pub propbook_package_id : String
  pub oracle_registry_id : String
  pub pyth_feed_id : String
  pub bs_value_store_id : String
  pub bs_svi_store_id : String
  pub accumulator_root_id : String
  pub predict_indexer_url : String
  pub propbook_indexer_url : String
  pub dusdc_coin_type : String
  pub swap_package_id : String
  pub probe_wrapper_id : Option String
  pub season_package_id : Option String
  pub season_pool_id : Option String
  pub season_admin_cap_id : Option String
  pub keeper_secret_key : Option String
  pub sponsor_secret_key : Option String
  pub predict_available : Bool

abbrev pub is_set : Option String → Bool
is_set none = false
is_set (some v) = true

-- `TESTNET_DEFAULTS` is the parameter `default_of`: a table of constants.
module _ (default_of : String → String) where
  abbrev pub id_from : (String → Option String) → Network → String → String
  id_from picked net key = or_text (picked key) (unless_mainnet net unset_id (default_of key))

  abbrev pub url_from : (String → Option String) → Network → String → String
  url_from picked net key = or_text (picked key) (unless_mainnet net unset_url (default_of key))

  -- From what `pick` gives for the network, and the file's package.
  unfoldable pub build : (String → Option String) → Option String → Network → NetworkEnv
  build picked deployed net =
      let deepbook = id_from picked net "DEEPBOOK_PREDICT_PACKAGE" in
      let flicky = or_else (picked "FLICKY_PACKAGE") deployed in
      record {
        network = net;
        rpc_url = picked "SUI_RPC_URL";
        grpc_url = or_text (picked "SUI_GRPC_URL") (grpc_default net);
        graphql_url = or_text (picked "SUI_GRAPHQL_URL") (graphql_default net);
        flicky_package_id = flicky;
        deepbook_predict_package_id = deepbook;
        protocol_config_id = id_from picked net "PROTOCOL_CONFIG_ID";
        pool_vault_id = id_from picked net "POOL_VAULT_ID";
        predict_registry_id = id_from picked net "PREDICT_REGISTRY_ID";
        account_package_id = id_from picked net "ACCOUNT_PACKAGE";
        account_registry_id = id_from picked net "ACCOUNT_REGISTRY_ID";
        propbook_package_id = id_from picked net "PROPBOOK_PACKAGE_ID";
        oracle_registry_id = id_from picked net "ORACLE_REGISTRY_ID";
        pyth_feed_id = id_from picked net "BTC_PYTH_FEED_ID";
        bs_value_store_id = id_from picked net "BTC_BS_VALUE_STORE_ID";
        bs_svi_store_id = id_from picked net "BTC_BS_SVI_STORE_ID";
        accumulator_root_id = id_from picked net "ACCUMULATOR_ROOT_ID";
        predict_indexer_url = url_from picked net "PREDICT_INDEXER_URL";
        propbook_indexer_url = url_from picked net "PROPBOOK_INDEXER_URL";
        dusdc_coin_type = id_from picked net "DUSDC_COIN_TYPE";
        swap_package_id = id_from picked net "SWAP_PACKAGE";
        probe_wrapper_id = picked "PROBE_WRAPPER_ID";
        season_package_id = picked "SEASON_PACKAGE_ID";
        season_pool_id = picked "SEASON_POOL_ID";
        season_admin_cap_id = picked "SEASON_ADMIN_CAP_ID";
        keeper_secret_key = or_else (picked "KEEPER_SECRET_KEY") (picked "BOT_SECRET_KEY");
        sponsor_secret_key = picked "SPONSOR_SECRET_KEY";
        predict_available = not (str_eq deepbook unset_id) && is_set flicky;
      }

  unfoldable pub network_env : Variables → Option DeployedJson → Network → NetworkEnv
  unfolding build pick
  network_env env deployed net = build (pick env net) (deployed_package deployed net) net

abbrev unless_unset : String → Option String
unless_unset v = if str_eq v unset_id then none else some v

-- apps/server/src/sponsor.ts: `resolveFlickyPackage` and its kin, over the configuration.
unfoldable pub packages_of : NetworkEnv → Packages
packages_of e = record {
  flicky = e.flicky_package_id;
  account = unless_unset e.account_package_id;
  deepbook_predict = unless_unset e.deepbook_predict_package_id;
  swap = unless_unset e.swap_package_id;
  sponsor_secret_key = e.sponsor_secret_key;
}
