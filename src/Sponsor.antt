-- ===== src/Sponsor.antt =====
-- apps/server/src/sponsor.ts: which transactions the server pays for. A target is kept in its
-- three parts, where the source joins and splits them at "::". `normalize` is
-- `normalizeSuiObjectId`; the packages of a network (`networkEnv`) and the sponsor's library are
-- parameters.
pub mod Origins
pub mod Requests
pub mod Allowed
pub mod Kept
pub mod Named
pub mod Paid
mod Tests
use flicky.Prelude.{
  ℕ, zero, suc, ◌+◌, ◌-◌, ◌*◌, ◌/◌, ◌%◌, ◌^◌, ◌≤◌, ◌<◌, String, ◌≡◌, refl, sym, ap, ◌∙◌, ◌≢◌, ◌↔◌,
  ◌⊎◌, inl, inr, Bool, true, false, not, ◌&&◌, ◌||◌, Option, none, some, List, [], ◌∷◌, ◌++◌, map,
  arith, eq_iff, ltb, leb, ◌==◌, str_eq, str_eq_refl, if◌then◌else◌, Bool-cases, Option-cases,
  ==_iff, ==_refl, ltb→lt, leb→le, le→leb,
}
use flicky.Prelude.{any}

pub record Target : Type 0 where
  pub package_id : String
  pub module_name : String
  pub function_name : String

abbrev fn : String → String → String × String
fn m f = (m, f)

abbrev pub flicky_fns : List (String × String)
flicky_fns =
    fn "duel" "new_card"
    ∷ fn "duel" "create_duel"
    ∷ fn "duel" "create_duel_free"
    ∷ fn "duel" "join_duel"
    ∷ fn "duel" "join_duel_free"
    ∷ fn "duel" "reveal_deck"
    ∷ fn "duel" "record_swipe"
    ∷ fn "duel" "record_swipe_free"
    ∷ fn "duel" "claim_reveal_timeout"
    ∷ fn "duel" "refund_duel"
    ∷ fn "duel" "settle_card"
    ∷ fn "duel" "settle_card_free"
    ∷ fn "duel" "finalize"
    ∷ fn "duel" "finalize_free"
    ∷ fn "duel" "finalize_test_one_price"
    ∷ []

abbrev pub swap_fns : List (String × String)
swap_fns = fn "swap" "swap_x_for_y" ∷ fn "swap" "swap_y_for_x" ∷ []

abbrev pub account_fns : List (String × String)
account_fns =
    fn "account_registry" "new"
    ∷ fn "account" "share"
    ∷ fn "account" "generate_auth"
    ∷ fn "account" "deposit_funds"
    ∷ fn "account" "withdraw_funds"
    ∷ []

abbrev pub deepbook_predict_fns : List (String × String)
deepbook_predict_fns =
    fn "expiry_market" "load_live_pricer"
    ∷ fn "expiry_market" "mint_exact_quantity"
    ∷ fn "expiry_market" "mint_exact_amount"
    ∷ fn "expiry_market" "redeem_live"
    ∷ []

-- `unnamed` is the empty text, which a request may name and no check replaces.
pub data SponsorNetwork : Type 0 where
  testnet mainnet unnamed : SponsorNetwork

-- What `networkEnv` gives for one network; none is an id that is not set.
pub record Packages : Type 0 where
  pub flicky : Option String
  pub account : Option String
  pub deepbook_predict : Option String
  pub swap : Option String
  pub sponsor_secret_key : Option String

abbrev pub at_package : String → List (String × String) → List Target
at_package pkg [] = []
at_package pkg ((m, f) ∷ fs) =
    record { package_id = pkg; module_name = m; function_name = f } ∷ at_package pkg fs

abbrev swap_targets : Option String → List Target
swap_targets none = []
swap_targets (some pkg) = at_package pkg swap_fns

unfoldable pub all_targets : (flicky account deepbook : String) → Option String → List Target
all_targets flicky account deepbook swap =
    at_package flicky flicky_fns
    ++ (at_package account account_fns
        ++ (at_package deepbook deepbook_predict_fns ++ swap_targets swap))

-- none: a package is not configured, which throws; swap may be missing.
unfoldable pub build_allowed_targets : Packages → Option (List Target)
build_allowed_targets p = elim p.flicky [
  | none ↦ none
  | some flicky ↦ elim p.account [
    | none ↦ none
    | some account ↦ elim p.deepbook_predict [
      | none ↦ none
      | some deepbook ↦ some (all_targets flicky account deepbook p.swap)
    ]
  ]
]

-- One command of a transaction.
pub data Command : Type 0 where
  move_call : Target → Command
  other_command : Command

abbrev pub same_target : Target → Target → Bool
same_target a b =
    str_eq a.package_id b.package_id
    && (str_eq a.module_name b.module_name && str_eq a.function_name b.function_name)

abbrev pub has_target : List Target → Target → Bool
has_target ts t = any (λ a. same_target a t) ts

module _ (normalize : String → String) where
  abbrev pub normalized : Target → Target
  normalized t = record t { package_id = normalize t.package_id }

  unfoldable pub move_call_targets : List Command → List Target
  move_call_targets [] = []
  move_call_targets (move_call t ∷ cs) = normalized t ∷ move_call_targets cs
  move_call_targets (other_command ∷ cs) = move_call_targets cs

  abbrev pub system_framework : String → Bool
  system_framework pkg =
      str_eq pkg (normalize "0x1") || (str_eq pkg (normalize "0x2") || str_eq pkg (normalize "0x3"))

  -- The first target that throws, if there is one.
  unfoldable pub first_refused : List Target → List Target → Option Target
  first_refused allowed [] = none
  first_refused allowed (t ∷ ts) =
      if system_framework t.package_id
      then first_refused allowed ts
      else if has_target allowed t
      then first_refused allowed ts
      else some t

  -- none: the allowlist cannot be built; some none: every target is allowed.
  unfoldable pub assert_self_sponsor_targets_allowed :
      Packages → List Command → Option (Option Target)
  unfolding first_refused move_call_targets
  assert_self_sponsor_targets_allowed p cs = elim (build_allowed_targets p) [
    | none ↦ none
    | some ts ↦ some (first_refused (map normalized ts) (move_call_targets cs))
  ]

  -- The issues that the validator raises, each with its target.
  unfoldable pub issues : List Target → List Command → List Target
  issues allowed [] = []
  issues allowed (other_command ∷ cs) = issues allowed cs
  issues allowed (move_call t ∷ cs) =
      let rest = issues allowed cs in
      if system_framework (normalize t.package_id)
      then rest
      else if has_target allowed (normalized t)
      then rest
      else t ∷ rest
