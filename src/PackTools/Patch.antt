-- ===== src/PackTools/Patch.antt =====
-- The messages of a pack that patch_compliance_i18n.js has patched.
use netcheck.Common.{
  Bool, true, false, Option, none, some, List, [], ◌∷◌, ◌++◌, ◌≡◌, refl, inl, inr, arith, String,
  Text, codes, text_eq, eq_of_text_eq, Bool-cases, if◌then◌else◌, ap, ◌∙◌, sym,
}
use netcheck.I18n.Catalog.{Pack, message}
use netcheck.PackTools.{Translations, translation, delete, patch_pack}

abbrev pub or_message : Option Text → Option Text → Option Text
or_message none later = later
or_message (some m) later = some m

-- What the table has for a key in a language: its last entry.
abbrev pub patched : List (String × Translations) → String → Text → Option Text
patched [] code key = none
patched ((k, entry) ∷ keys) code key =
    or_message (patched keys code key)
      (if text_eq (codes k) key then some (codes (translation entry code)) else none)

pub text_eq-other : (a b c : Text) → text_eq a b ≡ true → text_eq a c ≡ text_eq b c
text_eq-other a b c h = ap (λ x. text_eq x c) (eq_of_text_eq a b h)

pub text_eq-behind : (a b c : Text) → text_eq b c ≡ true → text_eq a b ≡ text_eq a c
text_eq-behind a b c h = ap (text_eq a) (eq_of_text_eq b c h)

message-delete :
    (key : Text) (pack : Pack) (k : Text)
    → message (delete key pack) k ≡ (if text_eq key k then none else message pack k)
unfolding delete message
message-delete key [] k = ground arith
message-delete key ((name, m) ∷ pack) k =
    let rest = message-delete key pack k in
    elim (Bool-cases (text_eq key k)) [
      | inl at ↦
          let same = text_eq-behind (codes name) key k at in
          elim (Bool-cases (text_eq (codes name) key)) [
            | inl e ↦ ground arith
            | inr e ↦ ground arith
          ]
      | inr out ↦ elim (Bool-cases (text_eq (codes name) key)) [
        | inl e ↦ let same = text_eq-other (codes name) key k e in ground arith
        | inr e ↦ ground arith
      ]
    ]

message-append :
    (pack : Pack) (name m : String) (k : Text)
    → message (pack ++ ((name, m) ∷ [])) k
      ≡ or_message (message pack k) (if text_eq (codes name) k then some (codes m) else none)
unfolding message
message-append [] name m k = refl
message-append ((n, v) ∷ pack) name m k = ground (arith, message-append pack name m k)

or_swap :
    (o m : Option Text) (v : Text) (b : Bool)
    → or_message o (or_message (if b then none else m) (if b then some v else none))
      ≡ or_message (or_message o (if b then some v else none)) m
or_swap (some x) m v b = refl
or_swap none m v true = refl
or_swap none none v false = refl
or_swap none (some y) v false = refl

or_same : (o m : Option Text) → or_message o (or_message o m) ≡ or_message o m
or_same none m = refl
or_same (some x) m = refl

-- A patched pack has for a key what the table has in the pack's language, or the English text of the
-- table, the last entry counting, and for every other key the message that it had.
pub patch_pack-message :
    (keys : List (String × Translations)) (code : String) (pack : Pack) (key : Text)
    → message (patch_pack keys code pack) key
      ≡ or_message (patched keys code key) (message pack key)
unfolding patch_pack
patch_pack-message [] code pack key = refl
patch_pack-message ((k, entry) ∷ keys) code pack key =
    let pack' = delete (codes k) pack ++ ((k, translation entry code) ∷ []) in
    let rest = patch_pack-message keys code pack' key in
    let set = message-append (delete (codes k) pack) k (translation entry code) key in
    let gone = message-delete (codes k) pack key in
    rest
    ∙ ap (or_message (patched keys code key)) set
    ∙ ap
        (λ x. or_message (patched keys code key) (
          or_message x
            (if text_eq (codes k) key then some (codes (translation entry code)) else none)))
        gone
    ∙ or_swap (patched keys code key) (message pack key) (codes (translation entry code))
        (text_eq (codes k) key)

-- Patching once more changes no message.
pub patch_pack_twice :
    (keys : List (String × Translations)) (code : String) (pack : Pack) (key : Text)
    → message (patch_pack keys code (patch_pack keys code pack)) key
      ≡ message (patch_pack keys code pack) key
patch_pack_twice keys code pack key =
    patch_pack-message keys code (patch_pack keys code pack) key
    ∙ ap (or_message (patched keys code key)) (patch_pack-message keys code pack key)
    ∙ or_same (patched keys code key) (message pack key)
    ∙ sym (patch_pack-message keys code pack key)
