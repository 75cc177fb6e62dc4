-- ===== src/Sponsor/Allowed.antt =====
-- apps/server/src/sponsor.ts: what the allowlist lets through.
use flicky.Prelude.{
  String, ◌≡◌, refl, ◌∙◌, ◌↔◌, inl, inr, Bool, true, false, ◌&&◌, ◌||◌, Option, none, some, List,
  [], ◌∷◌, ◌++◌, map, arith, str_eq, Bool-cases, Option-cases,
}
use flicky.Prelude.{All}
use flicky.Sponsor.{
  Target, Packages, Command, move_call, other_command, flicky_fns, account_fns,
  deepbook_predict_fns, swap_fns, at_package, all_targets, build_allowed_targets, has_target,
  normalized, move_call_targets, system_framework, first_refused, issues,
}

abbrev pub named_in : List (String × String) → Target → Bool
named_in [] t = false
named_in ((m, f) ∷ fs) t = (str_eq m t.module_name && str_eq f t.function_name) || named_in fs t

module _ (normalize : String → String) where
  -- A function of a list, in the package of an id that is configured.
  abbrev pub of_package : Option String → List (String × String) → Target → Bool
  of_package none fs t = false
  of_package (some pkg) fs t = str_eq (normalize pkg) (normalize t.package_id) && named_in fs t

  -- The policy, in words: the Sui framework, and the listed functions of the four packages.
  abbrev pub permitted : Packages → Target → Bool
  permitted p t =
      system_framework normalize (normalize t.package_id)
      || (of_package p.flicky flicky_fns t
          || (of_package p.account account_fns t
              || (of_package p.deepbook_predict deepbook_predict_fns t
                  || of_package p.swap swap_fns t)))

  -- The calls of a transaction.
  abbrev pub calls : List Command → List Target
  calls [] = []
  calls (move_call t ∷ cs) = t ∷ calls cs
  calls (other_command ∷ cs) = calls cs

  any-append :
      (ts us : List Target) (t : Target)
      → has_target (map (normalized normalize) (ts ++ us)) t ≡ (
          has_target (map (normalized normalize) ts) t
          || has_target (map (normalized normalize) us) t)
  any-append [] us t = refl
  any-append (x ∷ ts) us t = ground (arith, any-append ts us t)

  at_package-has :
      (pkg : String) (fs : List (String × String)) (t : Target)
      → has_target (map (normalized normalize) (at_package pkg fs)) (normalized normalize t)
        ≡ (str_eq (normalize pkg) (normalize t.package_id) && named_in fs t)
  at_package-has pkg [] t = ground arith
  at_package-has pkg ((m, f) ∷ fs) t = ground (arith, at_package-has pkg fs t)

  abbrev at_optional : Option String → List (String × String) → List Target
  at_optional none fs = []
  at_optional (some pkg) fs = at_package pkg fs

  at_optional-has :
      (pkg : Option String) (fs : List (String × String)) (t : Target)
      → has_target (map (normalized normalize) (at_optional pkg fs)) (normalized normalize t)
        ≡ of_package pkg fs t
  at_optional-has none fs t = refl
  at_optional-has (some pkg) fs t = at_package-has pkg fs t

  -- Four packages with any lists of functions.
  four-has :
      (f a d s : Option String) (fs as' ds ss : List (String × String)) (t : Target)
      → has_target
          (map
            (normalized normalize)
            (at_optional f fs ++ (at_optional a as' ++ (at_optional d ds ++ at_optional s ss))))
          (normalized normalize t)
        ≡ (of_package f fs t || (of_package a as' t || (of_package d ds t || of_package s ss t)))
  four-has f a d s fs as' ds ss t =
      let n = normalized normalize t in
      any-append (at_optional f fs) (at_optional a as' ++ (at_optional d ds ++ at_optional s ss)) n
      ∙ rw (
        any-append (at_optional a as') (at_optional d ds ++ at_optional s ss) n,
        any-append (at_optional d ds) (at_optional s ss) n,
        at_optional-has f fs t,
        at_optional-has a as' t,
        at_optional-has d ds t,
        at_optional-has s ss t,
      )

  all_targets-has :
      (f a d : String) (s : Option String) (t : Target)
      → has_target (map (normalized normalize) (all_targets f a d s)) (normalized normalize t) ≡ (
          of_package (some f) flicky_fns t
          || (of_package (some a) account_fns t
              || (of_package (some d) deepbook_predict_fns t || of_package s swap_fns t)))
  unfolding all_targets
  all_targets-has f a d none t =
      four-has (some f) (some a) (some d) none flicky_fns account_fns deepbook_predict_fns swap_fns
        t
  all_targets-has f a d (some s) t =
      four-has (some f) (some a) (some d) (some s) flicky_fns account_fns deepbook_predict_fns
        swap_fns t

  -- An allowlist is built where the three packages that must be there are.
  pub build-cases :
      (p : Packages) (ts : List Target)
      → build_allowed_targets p ≡ some ts
      → (f : String) × ((a : String) × ((d : String) × ((p.flicky ≡ some f)
              × ((p.account ≡ some a)
                  × ((p.deepbook_predict ≡ some d) × (ts ≡ all_targets f a d p.swap))))))
  unfolding build_allowed_targets
  build-cases p ts e = elim (Option-cases p.flicky) [
    | inl f ↦ absurd (cc (f, e))
    | inr (f, ef) ↦ elim (Option-cases p.account) [
      | inl a ↦ absurd (cc (ef, a, e))
      | inr (a, ea) ↦ elim (Option-cases p.deepbook_predict) [
        | inl d ↦ absurd (cc (ef, ea, d, e))
        | inr (d, ed) ↦ (f, (a, (d, (ef, (ea, (ed, cc (ef, ea, ed, e)))))))
      ]
    ]
  ]

  -- The allowlist of a network, with the framework, lets a target through exactly when it is of the
  -- policy.
  pub allowed-permitted :
      (p : Packages) (ts : List Target) (t : Target)
      → build_allowed_targets p ≡ some ts
      → (system_framework normalize (normalize t.package_id)
          || has_target (map (normalized normalize) ts) (normalized normalize t))
        ≡ permitted p t
  allowed-permitted p ts t e =
      let (f, (a, (d, (ef, (ea, (ed, same)))))) = build-cases p ts e in
      rw (same, ef, ea, ed, all_targets-has f a d p.swap t)

  pub issues-passed :
      (allowed : List Target) (cs : List Command)
      → issues normalize allowed cs ≡ []
      → All
          (λ t.
            (system_framework normalize (normalize t.package_id)
              || has_target allowed (normalized normalize t))
            ≡ true)
          (calls cs)
  unfolding issues
  issues-passed allowed [] h = tt
  issues-passed allowed (other_command ∷ cs) h = issues-passed allowed cs h
  issues-passed allowed (move_call t ∷ cs) h =
      (ground (arith, h), issues-passed allowed cs (ground (arith, h)))

  -- The validator of the sponsor raises no issue exactly when the offline check passes: they apply
  -- one policy.
  pub issues-first_refused :
      (allowed : List Target) (cs : List Command)
      → (issues normalize allowed cs ≡ [])
        ↔ (first_refused normalize allowed (move_call_targets normalize cs) ≡ none)
  unfolding issues first_refused move_call_targets
  issues-first_refused allowed [] = (λ h. refl, λ h. refl)
  issues-first_refused allowed (other_command ∷ cs) = issues-first_refused allowed cs
  issues-first_refused allowed (move_call t ∷ cs) =
      elim (Bool-cases (system_framework normalize (normalize t.package_id))) [
        | inl e ↦ rw (e, issues, first_refused) (issues-first_refused allowed cs)
        | inr e ↦ elim (Bool-cases (has_target allowed (normalized normalize t))) [
          | inl h ↦ rw (e, h, issues, first_refused) (issues-first_refused allowed cs)
          | inr h ↦ rw (e, h, issues, first_refused) (λ x. cc, λ x. cc)
        ]
      ]
