-- ===== src/PnlHistory/Stored.antt =====
-- apps/web/src/lib/pnl-history.ts: the history as it is kept in the browser's storage. The text of
-- a JSON value is kept as the value.
pub mod Resumed
mod Tests
use flicky.Prelude.{
  ℕ, zero, suc, ◌+◌, ◌-◌, ◌*◌, ◌/◌, ◌%◌, ◌^◌, ◌≤◌, ◌<◌, String, ◌≡◌, refl, sym, ap, ◌∙◌, ◌≢◌, ◌↔◌,
  ◌⊎◌, inl, inr, Bool, true, false, not, ◌&&◌, ◌||◌, Option, none, some, List, [], ◌∷◌, ◌++◌, map,
  arith, eq_iff, ltb, leb, ◌==◌, str_eq, str_eq_refl, if◌then◌else◌, Bool-cases, Option-cases,
  ==_iff, ==_refl, ltb→lt, leb→le, le→leb,
}
use flicky.Prelude.Int.{ℤ}
use flicky.PnlHistory.{Sample, Boundary, History, first_t, trim_history}
use flicky.PnlHistory.Decimal.{Text, to_text, of_text}

mutual
  pub data Json : Type 0 where
    null : Json
    boolean : Bool → Json
    number : ℕ → Json
    text : Text → Json
    array : Items → Json
    object : Fields → Json

  pub data Items : Type 0 where
    nil : Items
    cons : Json → Items → Items

  pub data Fields : Type 0 where
    end : Fields
    field : String → Json → Fields → Fields

abbrev persist_version : ℕ
persist_version = 2

sample_json : Sample → Json
sample_json s = object (
    field "t" (number s.t)
      (field "p0" (text (to_text s.p0)) (field "p1" (text (to_text s.p1)) end)))

boundary_json : Boundary → Json
boundary_json b = object (field "t" (number b.t) (field "idx" (number b.idx) end))

abbrev items {ℓ} : {A : Type ℓ} → (A → Json) → List A → Items
items f [] = nil
items f (a ∷ rest) = cons (f a) (items f rest)

unfoldable pub history_json : Text → History → Json
unfolding sample_json boundary_json
history_json duel_id h = object (
    field "v" (number persist_version) (
      field "duelId" (text duel_id) (
        field "firstT" (number h.first_t) (
          field "samples" (array (items sample_json h.samples))
            (field "boundaries" (array (items boundary_json h.boundaries)) end)))))

unfoldable pub serialize_history : Text → List Sample → List Boundary → Json
unfolding history_json
serialize_history duel_id samples boundaries =
    history_json duel_id (trim_history samples boundaries)

-- An exception ends the reading: all of them are caught.
infixl 5 ◌>>=◌
abbrev ◌>>=◌ {ℓ κ} : {A : Type ℓ} {B : Type κ} → Option A → (A → Option B) → Option B
none >>= f = none
some a >>= f = f a

-- A property of an object, the last one of its name; none is `undefined`.
get : String → Fields → Option Json
get name end = none
get name (field n v rest) = elim (get name rest) [
  | some w ↦ some w
  | none ↦ if str_eq name n then some v else none
]

-- `value.name`: none where it throws.
prop : String → Json → Option (Option Json)
unfolding get
prop name null = none
prop name (boolean b) = some none
prop name (number n) = some none
prop name (text s) = some none
prop name (array xs) = some none
prop name (object fields) = some (get name fields)

each {ℓ} : {A : Type ℓ} → (Json → Option A) → Items → Option (List A)
each f nil = some []
each f (cons j rest) = do a ← f j; later ← each f rest; some (a ∷ later)

pub record Parsed : Type 0 where
  pub duel_id : Text
  pub history : History

abbrev or_else : Option ℤ → Option ℤ → Option ℤ
or_else none b = b
or_else (some a) b = some a

-- What `Number` and `BigInt` give for anything but an integral JSON number and a decimal numeral.
module _ (other_number : Option Json → ℕ) (other_big : Option Json → Option ℤ) where
  number_of : Option Json → ℕ
  number_of (some (number n)) = n
  number_of j = other_number j

  big_int_of : Option Json → Option ℤ
  big_int_of (some (text s)) = or_else (of_text s) (other_big (some (text s)))
  big_int_of j = other_big j

  parse_sample : Json → Option Sample
  unfolding prop number_of big_int_of
  parse_sample j = do
    t ← prop "t" j
    p0_json ← prop "p0" j
    p0 ← big_int_of p0_json
    p1_json ← prop "p1" j
    p1 ← big_int_of p1_json
    some (record { t = number_of t; p0 = p0; p1 = p1 })

  parse_boundary : Json → Option Boundary
  unfolding prop number_of
  parse_boundary j = do
    t ← prop "t" j
    idx ← prop "idx" j
    some (record { t = number_of t; idx = number_of idx })

  abbrev first_t_of : Option Json → List Sample → ℕ
  first_t_of (some (number n)) samples = n
  first_t_of j samples = first_t samples

  parse_lists : Text → Option Json → Option Json → Option Json → Option Parsed
  unfolding each parse_sample parse_boundary
  parse_lists duel_id first (some (array xs)) (some (array ys)) = do
    samples ← each parse_sample xs
    boundaries ← each parse_boundary ys
    some (record {
      duel_id = duel_id;
      history = record {
        samples = samples;
        boundaries = boundaries;
        first_t = first_t_of first samples;
      };
    })
  parse_lists duel_id first xs ys = none

  abbrev is_version : Option Json → Bool
  is_version (some (number n)) = n == persist_version
  is_version j = false

  parse_value : Json → Option Parsed
  unfolding prop parse_lists
  parse_value j = do
    v ← prop "v" j
    duel_id ← prop "duelId" j
    first ← prop "firstT" j
    xs ← prop "samples" j
    ys ← prop "boundaries" j
    if is_version v
        then elim duel_id [ some (text d) ↦ parse_lists d first xs ys | _ ↦ none ]
        else none

  -- `raw`: none where nothing is stored or `JSON.parse` refuses it.
  unfoldable pub parse_history : Option Json → Option Parsed
  unfolding parse_value
  parse_history none = none
  parse_history (some j) = parse_value j
