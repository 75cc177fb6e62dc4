-- ===== src/PnlHistory/Decimal.antt =====
-- `BigInt.prototype.toString` and `BigInt` of a text, as apps/web/src/lib/pnl-history.ts uses them:
-- a decimal numeral with a sign. A text is the list of its characters' codes.
use flicky.Prelude.{
  ℕ, zero, suc, ◌+◌, ◌-◌, ◌*◌, ◌/◌, ◌%◌, ◌≤◌, ◌≡◌, ap, ◌∙◌, ◌&&◌, Option, none, some, List, [], ◌∷◌,
  arith, leb, ◌==◌, if◌then◌else◌,
}
use mathlib.Core.Option
use flicky.Prelude.Int.{ℤ, pos, negsuc}

abbrev pub Text : Type 0
Text = List ℕ

-- A round as long as the number is positive, the last digit first; the number is fuel enough.
emit : ℕ → ℕ → Text → Text
emit zero n out = out
emit (suc k) n out =
    let rest = emit k (n / 10) ((b'0' + n % 10) ∷ out) in if n == 0 then out else rest

digits : ℕ → Text
unfolding emit
digits n = emit n (n / 10) ((b'0' + n % 10) ∷ [])

unfoldable pub to_text : ℤ → Text
unfolding digits
to_text (pos n) = digits n
to_text (negsuc n) = b'-' ∷ digits (suc n)

scan : Text → ℕ → Option ℕ
scan [] n = some n
scan (c ∷ s) n =
    let rest = scan s (n * 10 + (c - b'0')) in if leb b'0' c && leb c b'9' then rest else none

natural : Text → Option ℕ
unfolding scan
natural [] = none
natural (c ∷ s) = scan (c ∷ s) 0

abbrev minus : ℕ → ℤ
minus zero = pos 0
minus (suc n) = negsuc n

-- The value of a decimal numeral; none for every other text.
unfoldable pub of_text : Text → Option ℤ
unfolding natural
of_text [] = none
of_text (c ∷ s) =
    if c == b'-' then Option.map minus (natural s) else Option.map pos (natural (c ∷ s))

scan_last : (n : ℕ) (out : Text) → scan ((b'0' + n % 10) ∷ out) (n / 10) ≡ scan out n
unfolding scan
scan_last n out = ground arith

natural-emit : (k n c : ℕ) (s : Text) → n ≤ k → natural (emit k n (c ∷ s)) ≡ scan (c ∷ s) n
unfolding natural emit
natural-emit zero n c s h = ground arith
natural-emit (suc k) n c s h =
    ground (arith, natural-emit k (n / 10) (b'0' + n % 10) (c ∷ s), scan_last n (c ∷ s))

natural-digits : (n : ℕ) → natural (digits n) ≡ some n
unfolding digits scan
natural-digits n = natural-emit n (n / 10) (b'0' + n % 10) [] (omega arith) ∙ scan_last n []

of_text-emit :
    (k n c : ℕ) (s : Text)
    → b'0' ≤ c
    → of_text (emit k n (c ∷ s)) ≡ Option.map pos (natural (emit k n (c ∷ s)))
unfolding of_text emit
of_text-emit zero n c s h = ground arith
of_text-emit (suc k) n c s h = ground (arith, of_text-emit k (n / 10) (b'0' + n % 10) (c ∷ s))

-- A number is read back from the text that it is written as.
pub of_text-to_text : (z : ℤ) → of_text (to_text z) ≡ some z
unfolding to_text digits of_text
of_text-to_text (pos n) =
    of_text-emit n (n / 10) (b'0' + n % 10) [] (omega arith)
    ∙ ap (Option.map pos) (natural-digits n)
of_text-to_text (negsuc n) = ap (Option.map minus) (natural-digits (suc n))
