-- ===== src/I18n/Catalog.antt =====
-- webui/assets/i18n.js, `t`: looking a message up and filling its placeholders in.
-- A catalog is the table `I18N`, whose pack "en-US" is always there; a message is a text over
-- code points.
pub mod Lookup
pub mod Filling
use netcheck.Common.{
  ℕ, ◌+◌, Bool, Option, none, some, List, [], ◌∷◌, ◌++◌, String, Text, codes, text_eq, split, join,
  decimal, if◌then◌else◌,
}

abbrev pub Pack : Type 0
Pack = List (String × String)

pub record Catalog : Type 0 where
  pub english : Pack  -- I18N["en-US"]
  pub others : List (String × Pack)

-- `pack[key]`, where `none` stands for `undefined`.
unfoldable pub message : Pack → Text → Option Text
message [] key = none
message ((k, v) ∷ pack) key =
    let rest = message pack key in if text_eq (codes k) key then some (codes v) else rest

unfoldable pub find_pack : List (String × Pack) → Text → Option Pack
find_pack [] code = none
find_pack ((k, p) ∷ packs) code =
    let rest = find_pack packs code in if text_eq (codes k) code then some p else rest

or_english : Catalog → Option Pack → Pack
or_english c (some p) = p
or_english c none = c.english

-- `I18N[curLang] || I18N["en-US"]`
unfoldable pub pack_for : Catalog → Text → Pack
unfolding find_pack or_english
pack_for c lang =
    if text_eq (codes "en-US") lang then c.english else or_english c (find_pack c.others lang)

or_else : Option Text → Text → Text
or_else (some s) d = s
or_else none d = d

-- The text before its placeholders are filled in: the pack's, else the English one, else the key.
unfoldable pub template : Catalog → Text → Text → Text
unfolding or_else
template c lang key = or_else (message (pack_for c lang) key) (or_else (message c.english key) key)

-- `{${index + 1}}`
abbrev pub placeholder : ℕ → Text
placeholder n = codes "{" ++ decimal n ++ codes "}"

-- `text.split(sep).join(value)`
unfoldable pub replace_all : Text → Text → Text → Text
replace_all sep value text = join value (split sep text)

-- The rounds of `values.forEach`, from the placeholder `{n}` on.
unfoldable pub fill_from : ℕ → List Text → Text → Text
unfolding replace_all
fill_from n [] text = text
fill_from n (value ∷ values) text =
    fill_from (n + 1) values (replace_all (placeholder n) value text)

unfoldable pub t : Catalog → Text → Text → List Text → Text
unfolding template
t c lang key values = fill_from 1 values (template c lang key)
