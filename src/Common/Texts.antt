-- ===== src/Common/Texts.antt =====
-- Texts as lists of code points, with the operations of JavaScript strings that the program uses.
use Prim.Native.Nat.{ℕ, zero, suc, ◌+◌, ◌-◌, ◌/◌, ◌%◌}
use Prim.Native.Char.{code}
use Prim.Native.String.{String}
use mathlib.Core.Path.{◌≡◌, refl}
use mathlib.Core.Bool.{Bool, true, false, ◌&&◌, ◌||◌}
use mathlib.Core.List.{List, [], ◌∷◌, ◌++◌, reverse}
use native.Mathlib.Omega.{arith}
use netcheck.Common.Tests.{ltb, leb, ◌==◌, if◌then◌else◌}
use netcheck.Common.Lists.{length}

abbrev pub Text : Type 0
Text = List ℕ

-- The code points of a literal.
abbrev pub codes : String → Text
codes String.[] = []
codes (String.◌∷◌ c s) = code c ∷ codes s

-- `===` on texts.
abbrev pub text_eq : Text → Text → Bool
text_eq [] [] = true
text_eq (a ∷ s) (b ∷ t) = a == b && text_eq s t
text_eq _ _ = false

pub eq_of_text_eq : (s t : Text) → text_eq s t ≡ true → s ≡ t
eq_of_text_eq [] [] h = refl
eq_of_text_eq [] (b ∷ t) h = cc
eq_of_text_eq (a ∷ s) [] h = cc
eq_of_text_eq (a ∷ s) (b ∷ t) h = ground (arith, eq_of_text_eq s t)

pub text_eq_refl : (s : Text) → text_eq s s ≡ true
text_eq_refl [] = refl
text_eq_refl (a ∷ s) = ground (arith, text_eq_refl s)

-- `String.prototype.startsWith`.
abbrev pub starts_with : Text → Text → Bool
starts_with s [] = true
starts_with [] (b ∷ t) = false
starts_with (a ∷ s) (b ∷ t) = a == b && starts_with s t

-- `String.prototype.includes`.
unfoldable pub includes : Text → Text → Bool
includes [] t = starts_with [] t
includes (a ∷ s) t = starts_with (a ∷ s) t || includes s t

-- The code points that `\s` and `trim` take for white space.
abbrev pub is_space : ℕ → Bool
is_space c =
    (leb 9 c && leb c 13)
    || c == 32
    || c == 160
    || c == 5760
    || (leb 8192 c && leb c 8202)
    || c == 8232
    || c == 8233
    || c == 8239
    || c == 8287
    || c == 12288
    || c == 65279

abbrev pub is_digit : ℕ → Bool
is_digit c = leb b'0' c && leb c b'9'

unfoldable pub trim_start : Text → Text
trim_start [] = []
trim_start (c ∷ s) = if is_space c then trim_start s else c ∷ s

-- `String.prototype.trim`.
unfoldable pub trim : Text → Text
unfolding trim_start
trim s = reverse (trim_start (reverse (trim_start s)))

-- `s.split(c, 1)[0]`, and `s.split(c)[0]`: what stands before the first `c`.
unfoldable pub before : ℕ → Text → Text
before c [] = []
before c (a ∷ s) = if a == c then [] else a ∷ before c s

-- The next character joins the first piece.
abbrev pub push_head : ℕ → List Text → List Text
push_head b [] = (b ∷ []) ∷ []
push_head b (p ∷ ps) = (b ∷ p) ∷ ps

-- `String.prototype.split` at a non-empty text; the number counts the characters of a separator
-- that are still to be passed over.
unfoldable pub split_from : Text → ℕ → Text → List Text
split_from sep k [] = [] ∷ []
split_from sep (suc k) (a ∷ s) = split_from sep k s
split_from sep zero (a ∷ s) =
    let here = [] ∷ split_from sep (length sep - 1) s in
    let later = push_head a (split_from sep zero s) in
    if starts_with (a ∷ s) sep then here else later

unfoldable pub split : Text → Text → List Text
unfolding split_from
split sep s = split_from sep 0 s

-- `Array.prototype.join`.
abbrev pub join : Text → List Text → Text
join sep [] = []
join sep (p ∷ []) = p
join sep (p ∷ q ∷ ps) = p ++ (sep ++ join sep (q ∷ ps))

-- `toLowerCase` on the ASCII letters.
abbrev pub to_lower : ℕ → ℕ
to_lower c = if leb b'A' c && leb c b'Z' then c + 32 else c

-- `String(n)` for a natural number: its decimal digits.
unfoldable pub decimal_from : ℕ → ℕ → Text → Text
decimal_from zero n out = out
decimal_from (suc fuel) n out =
    let digits = (b'0' + n % 10) ∷ out in
    let rest = decimal_from fuel (n / 10) digits in if ltb n 10 then digits else rest

unfoldable pub decimal : ℕ → Text
unfolding decimal_from
decimal n = decimal_from (suc n) n []
