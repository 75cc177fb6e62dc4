-- ===== src/Sponsor/Origins.antt =====
-- apps/server/src/sponsor.ts: the origins that `/sponsor` answers. `trim`, `split` and `filter` have
-- been applied to the setting: none is no list, or "*".
use flicky.Prelude.{
  String, Bool, true, false, not, ◌&&◌, Option, none, some, List, [], ◌∷◌, str_eq, if◌then◌else◌,
}
use flicky.Prelude.{any}

abbrev pub includes : List String → String → Bool
includes xs a = any (λ x. str_eq x a) xs

-- `Access-Control-Allow-Origin`; none where the list of the setting is empty.
unfoldable pub sponsor_cors_origin : Option (List String) → Option String → Option String
sponsor_cors_origin none none = some "*"
sponsor_cors_origin none (some origin) = some (if str_eq origin "" then "*" else origin)
sponsor_cors_origin (some []) origin = none
sponsor_cors_origin (some (a ∷ allowed)) none = some a
sponsor_cors_origin (some (a ∷ allowed)) (some origin) =
    some (if not (str_eq origin "") && includes (a ∷ allowed) origin then origin else a)

unfoldable pub is_sponsor_origin_allowed : Option (List String) → Option String → Bool
is_sponsor_origin_allowed none origin = true
is_sponsor_origin_allowed (some allowed) none = false
is_sponsor_origin_allowed (some allowed) (some origin) =
    not (str_eq origin "") && includes allowed origin
