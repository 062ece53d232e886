-- ===== src/Html/Escape.antt =====
-- What `esc` guards and what it does not.
use netcheck.Common.{
  ℕ, zero, suc, [], ◌∷◌, ◌++◌, ◌≡◌, refl, sym, ap, ◌∙◌, ◌≢◌, Text, codes, starts_with, All,
  All-append, if◌then◌else◌, arith, append_assoc, append-nil,
}
use netcheck.Html.{esc_char, esc, guide_onclick}

-- No character that ends a text, a quoted attribute value, or a tag.
abbrev pub IsInert : Text → Type 0
IsInert = All (λ c. (c ≢ b'<') × (c ≢ b'>') × (c ≢ b'"') × (c ≢ b'\''))

esc_char-IsInert : (c : ℕ) → IsInert (esc_char c)
unfolding esc_char
esc_char-IsInert c = ground arith

-- An escaped text holds none of < > " ', whatever it was made from: in an element or in a quoted
-- attribute value it neither opens a tag nor ends the value.
pub esc-IsInert : (s : Text) → IsInert (esc s)
unfolding esc
esc-IsInert [] = tt
esc-IsInert (c ∷ s) = All-append _ (esc_char c) (esc s) (esc_char-IsInert c) (esc-IsInert s)

-- How a browser reads the five references that `esc` writes; the number counts the characters of a
-- reference that are still to be passed over.
pub decode_from : ℕ → Text → Text
decode_from k [] = []
decode_from (suc k) (c ∷ s) = decode_from k s
decode_from zero (c ∷ s) =
    let amp = b'&' ∷ decode_from 4 s in
    let lt = b'<' ∷ decode_from 3 s in
    let gt = b'>' ∷ decode_from 3 s in
    let quot = b'"' ∷ decode_from 5 s in
    let apos = b'\'' ∷ decode_from 4 s in
    let plain = c ∷ decode_from 0 s in
    if starts_with (c ∷ s) (codes "&amp;")
    then amp
    else if starts_with (c ∷ s) (codes "&lt;")
    then lt
    else if starts_with (c ∷ s) (codes "&gt;")
    then gt
    else if starts_with (c ∷ s) (codes "&quot;")
    then quot
    else if starts_with (c ∷ s) (codes "&#39;")
    then apos
    else plain

pub decode : Text → Text
decode s = decode_from 0 s

decode-esc_char : (c : ℕ) (s : Text) → decode_from 0 (esc_char c ++ s) ≡ c ∷ decode_from 0 s
unfolding decode_from esc_char
decode-esc_char c s = ground arith

decode-esc_append : (s r : Text) → decode_from 0 (esc s ++ r) ≡ s ++ decode_from 0 r
unfolding esc
decode-esc_append [] r = refl
decode-esc_append (c ∷ s) r =
    ap (decode_from 0) (append_assoc (esc_char c) (esc s) r)
    ∙ decode-esc_char c (esc s ++ r)
    ∙ ap (λ x. c ∷ x) (decode-esc_append s r)

-- A browser that decodes an escaped text gets the text back.
pub decode-esc : (s : Text) → decode (esc s) ≡ s
unfolding decode decode_from
decode-esc s = ap (decode_from 0) (sym (append-nil (esc s))) ∙ decode-esc_append s [] ∙ append-nil s

-- The script that a browser runs for the guide button is made of the bare texts: the attribute is
-- decoded before it is read as a script, so a quote in the name or in the reason ends its literal.
guide_onclick-decode :
    (name reason : Text)
    → decode (guide_onclick name reason)
      ≡ codes "openGuide('" ++ (name ++ (codes "','" ++ (reason ++ codes "')")))
unfolding decode decode_from guide_onclick
guide_onclick-decode name reason =
    let second = decode-esc_append reason (codes "')") in
    let first = decode-esc_append name (codes "','" ++ (esc reason ++ codes "')")) in
    ap (λ x. codes "openGuide('" ++ x) (first ∙ ap (λ x. name ++ (codes "','" ++ x)) second)
