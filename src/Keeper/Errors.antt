-- ===== src/Keeper/Errors.antt =====
-- apps/server/src/keeper.ts: `isTerminalSettleError`, and the patterns that it looks for in the
-- text of an error.
use flicky.Prelude.{
  ℕ, String, Bool, true, false, not, ◌&&◌, ◌||◌, Option, none, some, leb, ◌==◌, if◌then◌else◌,
}
use Prim.Native.Char.{code}

-- `text.startsWith(pattern)`; `rest` is what follows the pattern.
unfoldable pub rest_after : String → String → Option String
rest_after String.[] s = some s
rest_after (String.◌∷◌ c pattern) String.[] = none
rest_after (String.◌∷◌ c pattern) (String.◌∷◌ d s) =
    let rest = rest_after pattern s in if code c == code d then rest else none

is_some {ℓ} : {A : Type ℓ} → Option A → Bool
is_some none = false
is_some (some x) = true

-- `text.includes(pattern)`
unfoldable pub includes : String → String → Bool
unfolding rest_after is_some
includes pattern String.[] = is_some (rest_after pattern String.[])
includes pattern (String.◌∷◌ c s) =
    is_some (rest_after pattern (String.◌∷◌ c s)) || includes pattern s

between : ℕ → ℕ → ℕ → Bool
between a b n = leb a n && leb n b

-- `\w`
is_word : ℕ → Bool
unfolding between
is_word n = between 48 57 n || between 65 90 n || between 97 122 n || n == 95

-- The text goes on with no word character.
ends_word : Option String → Bool
unfolding is_word
ends_word none = false
ends_word (some String.[]) = true
ends_word (some (String.◌∷◌ c s)) = not (is_word (code c))

-- A match of `\b`, the pattern, and `\b` where `closed` is true; the pattern begins with a word
-- character. `after_word` says whether the text before ends with one.
unfoldable pub matches_word : (closed : Bool) → (after_word : Bool) → String → String → Bool
unfolding rest_after ends_word is_some is_word
matches_word closed after_word pattern String.[] = false
matches_word closed after_word pattern (String.◌∷◌ c s) =
    let here = rest_after pattern (String.◌∷◌ c s) in
    (not after_word && (if closed then ends_word here else is_some here))
    || matches_word closed (is_word (code c)) pattern s

unfoldable pub is_terminal_settle_error : String → Bool
unfolding includes matches_word
is_terminal_settle_error msg =
    includes "EDuelNotActive" msg
    || matches_word true false "abort code: 2" msg
    || matches_word false false "2)" msg
    || includes "decrease_position" msg
