-- ===== src/Html/Template/Context.antt =====
-- How markup is read: where a character stands, and which characters make the structure.
use netcheck.Common.{ℕ, Bool, true, false, ◌++◌, ◌≡◌, refl, Text, ◌==◌, if◌then◌else◌, ◌≢◌, arith}
use mathlib.Core.List.{[], ◌∷◌}
use netcheck.Html.Escape.{IsInert}

-- In a text, in a tag, or in an attribute value between double or single quotes.
pub data Context : Type 0 where
  in_text in_tag in_double in_single : Context

-- The context behind a character.
unfoldable pub step : Context → ℕ → Context
step in_text c = if c == b'<' then in_tag else in_text
step in_tag c =
    if c == b'>'
    then in_text
    else if c == b'"'
    then in_double
    else if c == b'\''
    then in_single
    else in_tag
step in_double c = if c == b'"' then in_tag else in_double
step in_single c = if c == b'\'' then in_tag else in_single

-- Tags and quotes belong to the structure; texts and attribute values do not.
unfoldable pub in_structure : Context → ℕ → Bool
in_structure in_text c = c == b'<'
in_structure in_tag c = true
in_structure in_double c = c == b'"'
in_structure in_single c = c == b'\''

unfoldable pub run : Context → Text → Context
run x [] = x
run x (c ∷ s) = run (step x c) s

-- The structure of a piece of markup: its tags, without the values of their attributes.
unfoldable pub structure : Context → Text → Text
structure x [] = []
structure x (c ∷ s) =
    let rest = structure (step x c) s in if in_structure x c then c ∷ rest else rest

pub run-append : (x : Context) (s t : Text) → run x (s ++ t) ≡ run (run x s) t
unfolding run
run-append x [] t = refl
run-append x (c ∷ s) t = run-append (step x c) s t

pub structure-append :
    (x : Context) (s t : Text) → structure x (s ++ t) ≡ structure x s ++ structure (run x s) t
unfolding structure run
structure-append x [] t = refl
structure-append x (c ∷ s) t = ground (arith, structure-append (step x c) s t)

-- Where a value may be put.
unfoldable pub holds_values : Context → Bool
holds_values in_tag = false
holds_values _ = true

step-inert :
    (x : Context) (c : ℕ)
    → holds_values x ≡ true
    → (c ≢ b'<') × (c ≢ b'>') × (c ≢ b'"') × (c ≢ b'\'')
    → (step x c ≡ x) × (in_structure x c ≡ false)
unfolding step in_structure holds_values
step-inert in_text c h k = ground arith
step-inert in_tag c h k = cc
step-inert in_double c h k = ground arith
step-inert in_single c h k = ground arith

-- A text with no mark of its own stays in its context and adds nothing to the structure.
pub run-inert :
    (x : Context) (s : Text)
    → holds_values x ≡ true
    → IsInert s
    → (run x s ≡ x) × (structure x s ≡ [])
unfolding run structure
run-inert x [] h k = (refl, refl)
run-inert x (c ∷ s) h (k, ks) =
    let (same, out) = step-inert x c h k in
    let (ends, empty) = run-inert x s h ks in (rw same ends, rw (out, same) empty)

-- Equality of contexts.
unfoldable pub same : Context → Context → Bool
same in_text in_text = true
same in_tag in_tag = true
same in_double in_double = true
same in_single in_single = true
same _ _ = false

pub eq_of_same : (x y : Context) → same x y ≡ true → x ≡ y
unfolding same
eq_of_same in_text in_text h = refl
eq_of_same in_tag in_tag h = refl
eq_of_same in_double in_double h = refl
eq_of_same in_single in_single h = refl
eq_of_same _ _ h = cc
