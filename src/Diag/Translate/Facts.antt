-- ===== src/Diag/Translate/Facts.antt =====
-- Technical values pass through the translation.
use mathlib.Core.List.{reverse, reverse_aux}
use netcheck.Common.{
  ℕ, Bool, true, false, ◌&&◌, ◌||◌, none, List, [], ◌∷◌, ◌++◌, String, ◌≡◌, refl, sym, ap, ◌∙◌, inl,
  inr, Text, codes, text_eq, eq_of_text_eq, starts_with, includes, trim_start, trim, before,
  is_space, any, any-append, all, leb, ◌==◌, arith, Bool-cases, Option-cases, and-true, or-false,
}
use netcheck.I18n.Catalog.{Catalog}
use netcheck.Diag.Pattern.{Token, lit, group, Pattern, match}
use netcheck.Diag.Pattern.Reading.{Reads, done, text, field}
use netcheck.Diag.Pattern.Sound.{match_sound}
use netcheck.Diag.Tables.{diag_exact_keys, diag_code_keys, diag_class_keys}
use netcheck.Diag.Rules.{Rule, on_match, on_text, on_prefix, on_part, first_rules, later_rules}
use netcheck.Diag.Translate.{key_of, apply_rule, apply_rules, translate_diag_text}

abbrev pub is_letter : ℕ → Bool
is_letter c = (leb b'a' c && leb c b'z') || (leb b'A' c && leb c b'Z')

abbrev pub has_letter : Text → Bool
has_letter s = any is_letter s

has_letter-append : (s t : Text) → has_letter (s ++ t) ≡ (has_letter s || has_letter t)
has_letter-append s t = any-append is_letter s t

reverse_aux-letterless :
    (s t : Text)
    → has_letter s ≡ false
    → has_letter t ≡ false
    → has_letter (reverse_aux s t) ≡ false
reverse_aux-letterless [] t h k = k
reverse_aux-letterless (c ∷ s) t h k =
    reverse_aux-letterless s (c ∷ t) (ground arith) (ground arith)

trim_start-letterless : (s : Text) → has_letter s ≡ false → has_letter (trim_start s) ≡ false
unfolding trim_start
trim_start-letterless [] h = h
trim_start-letterless (c ∷ s) h = elim (Bool-cases (is_space c)) [
  | inl e ↦ rw e (trim_start-letterless s (or-false (is_letter c) (any is_letter s) h).1)
  | inr e ↦ rw e h
]

trim-letterless : (s : Text) → has_letter s ≡ false → has_letter (trim s) ≡ false
unfolding trim
trim-letterless s h =
    let front = trim_start-letterless s h in
    let back =
      trim_start-letterless (reverse (trim_start s))
        (reverse_aux-letterless (trim_start s) [] front refl) in
    reverse_aux-letterless (trim_start (reverse (trim_start s))) [] back refl

before-letterless : (b : ℕ) (s : Text) → has_letter s ≡ false → has_letter (before b s) ≡ false
unfolding before
before-letterless b [] h = refl
before-letterless b (c ∷ s) h = elim (Bool-cases (c == b)) [
  | inl e ↦ rw e
  | inr e ↦ rw e (
      let (one, more) = or-false (is_letter c) (has_letter s) h in
      rw one (before-letterless b s more))
]

-- A text with a letter in it differs from one that has none, and is no part of it.
text_eq-letterless : (k s : Text) → has_letter k ≡ true → has_letter s ≡ false → text_eq k s ≡ false
text_eq-letterless k s h n = elim (Bool-cases (text_eq k s)) [
  | inl e ↦ cc (eq_of_text_eq k s e)
  | inr e ↦ e
]

text_eq-letterless_right :
    (s k : Text) → has_letter k ≡ true → has_letter s ≡ false → text_eq s k ≡ false
text_eq-letterless_right s k h n = elim (Bool-cases (text_eq s k)) [
  | inl e ↦ cc (eq_of_text_eq s k e)
  | inr e ↦ e
]

starts_with-letters : (s k : Text) → starts_with s k ≡ true → (r : Text) × (s ≡ k ++ r)
starts_with-letters s [] h = (s, refl)
starts_with-letters [] (b ∷ k) h = cc
starts_with-letters (a ∷ s) (b ∷ k) h =
    let (same, more) = and-true (a == b) (starts_with s k) h in
    let (r, e) = starts_with-letters s k more in (r, ground arith)

starts_with-letterless :
    (s k : Text) → has_letter k ≡ true → has_letter s ≡ false → starts_with s k ≡ false
starts_with-letterless s k h n = elim (Bool-cases (starts_with s k)) [
  | inl e ↦
      let (r, split) = starts_with-letters s k e in
      let parts =
        or-false (has_letter k) (has_letter r)
          (sym (has_letter-append k r) ∙ sym (ap has_letter split) ∙ n) in
      cc (parts.0)
  | inr e ↦ e
]

includes-letterless :
    (s k : Text) → has_letter k ≡ true → has_letter s ≡ false → includes s k ≡ false
unfolding includes
includes-letterless [] k h n = starts_with-letterless [] k h n
includes-letterless (a ∷ s) k h n =
    rw (starts_with-letterless (a ∷ s) k h n)
      (includes-letterless s k h (or-false (is_letter a) (has_letter s) n).1)

key_letters : List (String × String) → Bool
key_letters table = all (λ e. has_letter (codes e.0)) table

key_of-letterless :
    (table : List (String × String)) (s : Text)
    → key_letters table ≡ true
    → has_letter s ≡ false
    → key_of table s ≡ none
unfolding key_letters key_of
key_of-letterless [] s h n = refl
key_of-letterless ((k, key) ∷ table) s h n =
    let (one, more) = and-true (has_letter (codes k)) (all (λ e. has_letter (codes e.0)) table) h in
    rw (text_eq-letterless (codes k) s one n) (key_of-letterless table s more n)

token_letters : Token → Bool
token_letters (lit l) = has_letter (codes l)
token_letters (group g) = false

Reads-letterless :
    {p : Pattern} {s : Text} {gs : List Text}
    → Reads p s gs
    → has_letter s ≡ false
    → any token_letters p ≡ false
unfolding token_letters
Reads-letterless done n = refl
Reads-letterless (text {l} {p} {s} {r} split later) n =
    let parts =
      or-false (has_letter (codes l)) (has_letter r)
        (sym (has_letter-append (codes l) r) ∙ sym (ap has_letter split) ∙ n) in
    rw parts.0 (Reads-letterless later parts.1)
Reads-letterless (field {g} {p} {s} {x} {r} split fits later) n =
    let parts =
      or-false (has_letter x) (has_letter r)
        (sym (has_letter-append x r) ∙ sym (ap has_letter split) ∙ n) in
    Reads-letterless later parts.1

match-letterless :
    (p : Pattern) (s : Text) → any token_letters p ≡ true → has_letter s ≡ false → match p s ≡ none
match-letterless p s h n = elim (Option-cases (match p s)) [
  | inl e ↦ e
  | inr (gs, e) ↦ cc (Reads-letterless (match_sound p s gs e) n)
]

rule_letters : Rule → Bool
unfolding token_letters
rule_letters (on_match p key) = any token_letters p
rule_letters (on_text s key) = has_letter (codes s)
rule_letters (on_prefix s key) = has_letter (codes s)
rule_letters (on_part s key) = has_letter (codes s)

module _ (c : Catalog) (lang : Text) where
  apply_rule-letterless :
      (r : Rule) (s : Text)
      → rule_letters r ≡ true
      → has_letter s ≡ false
      → apply_rule c lang r s ≡ none
  unfolding rule_letters apply_rule
  apply_rule-letterless (on_match p key) s h n = rw (match-letterless p s h n, apply_rule)
  apply_rule-letterless (on_text k key) s h n = rw (text_eq-letterless_right s (codes k) h n)
  apply_rule-letterless (on_prefix k key) s h n = rw (starts_with-letterless s (codes k) h n)
  apply_rule-letterless (on_part k key) s h n = rw (includes-letterless s (codes k) h n)

  apply_rules-letterless :
      (rs : List Rule) (s : Text)
      → all rule_letters rs ≡ true
      → has_letter s ≡ false
      → apply_rules c lang rs s ≡ s
  unfolding apply_rules
  apply_rules-letterless [] s h n = refl
  apply_rules-letterless (r ∷ rs) s h n =
      let (one, more) = and-true (rule_letters r) (all rule_letters rs) h in
      rw (apply_rule-letterless r s one n, apply_rules) (apply_rules-letterless rs s more n)

all_rules_letters : all rule_letters (first_rules ++ later_rules) ≡ true
unfolding rule_letters first_rules later_rules
all_rules_letters = refl

tables_letters :
    (key_letters diag_exact_keys ≡ true)
    × (key_letters diag_code_keys ≡ true)
    × (key_letters diag_class_keys ≡ true)
unfolding key_letters diag_exact_keys diag_code_keys diag_class_keys
tables_letters = (refl, refl, refl)

-- A value with no Latin letter, such as an IPv4 address, a ratio or a percentage, is shown as it
-- is, without the white space around it, in every language and with every catalog.
translate_diag_text-fact :
    (c : Catalog) (lang value : Text)
    → has_letter value ≡ false
    → translate_diag_text c lang value ≡ trim value
unfolding translate_diag_text
translate_diag_text-fact c lang value n =
    let s = trim value in
    let ns = trim-letterless value n in
    let exact = key_of-letterless diag_exact_keys s tables_letters.0 ns in
    let first = trim-letterless (before b':' s) (before-letterless b':' s ns) in
    let by_code = key_of-letterless diag_code_keys (trim (before b':' s)) tables_letters.1 first in
    let by_class = key_of-letterless diag_class_keys s tables_letters.2 ns in
    elim (Bool-cases (text_eq s [])) [
      | inl e ↦ rw e (sym (eq_of_text_eq s [] e))
      | inr e ↦ rw e (
          rw (exact, by_code, by_class)
            (apply_rules-letterless c lang (first_rules ++ later_rules) s all_rules_letters ns))
    ]
