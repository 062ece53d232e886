-- ===== src/PackTools.antt =====
-- webui/tools: what check_i18n.js reports of the packs, and what patch_compliance_i18n.js makes of them
-- before it writes them. Packs are tables under their codes; a table is searched for its own keys.
pub mod Keys
pub mod Parity
pub mod Patch
pub mod Patched
mod Tests
use netcheck.Common.{
  ℕ, ◌==◌, Bool, true, false, not, Option, none, some, List, [], ◌∷◌, ◌++◌, map, filter, length,
  String, Text, codes, text_eq, if◌then◌else◌,
}
use netcheck.I18n.Catalog.{Pack, message, find_pack}

abbrev pub Packs : Type 0
Packs = List (String × Pack)

pub data Problem : Type 0 where
  missing_pack : String → Problem
  missing extra : String → List Text → Problem

-- `key in pack`
unfoldable pub has_key : Pack → Text → Bool
has_key pack key = elim (message pack key) [ none ↦ false | some m ↦ true ]

-- `Object.keys(pack)`
abbrev pub keys_of : Pack → List Text
keys_of [] = []
keys_of ((key, m) ∷ pack) = codes key ∷ keys_of pack

-- `if (keys.length) errors.push(…)`
report_keys : (List Text → Problem) → List Text → List Problem
report_keys problem [] = []
report_keys problem (key ∷ keys) = problem (key ∷ keys) ∷ []

unfoldable pub check_pack : Pack → String → Pack → List Problem
unfolding report_keys has_key
check_pack reference code pack =
    report_keys (missing code) (filter (λ key. not (has_key pack key)) (keys_of reference))
    ++ report_keys (extra code) (filter (λ key. not (has_key reference key)) (keys_of pack))

unfoldable pub check_packs : Pack → Packs → List String → List Problem
unfolding check_pack find_pack
check_packs reference packs [] = []
check_packs reference packs (code ∷ locales) =
    elim (find_pack packs (codes code)) [
      | none ↦ missing_pack code ∷ []
      | some pack ↦ check_pack reference code pack
    ]
    ++ check_packs reference packs locales

-- check_i18n.js, up to printing; `none` is the TypeError without an English pack.
unfoldable pub check_i18n : Packs → List String → Option (List Problem)
unfolding check_packs find_pack
check_i18n packs locales = elim (find_pack packs (codes "en-US")) [
  | none ↦ none
  | some reference ↦ some (check_packs reference packs locales)
]

-- An entry of `KEYS`, with its English text apart.
pub record Translations : Type 0 where
  pub english : String
  pub others : List (String × String)

find_text : List (String × String) → String → String → String
find_text [] code default = default
find_text ((k, text) ∷ texts) code default =
    let later = find_text texts code default in
    if text_eq (codes k) (codes code)
    then if text_eq (codes text) [] then default else text
    else later

-- `KEYS[key][code] || KEYS[key]["en-US"]`
unfoldable pub translation : Translations → String → String
unfolding find_text
translation entry code = find_text entry.others code entry.english

-- `delete pack[key]`
unfoldable pub delete : Text → Pack → Pack
delete key pack = filter (λ entry. not (text_eq (codes entry.0) key)) pack

-- The loop over the keys, for one pack: a key is deleted and set anew.
unfoldable pub patch_pack : List (String × Translations) → String → Pack → Pack
unfolding translation delete
patch_pack [] code pack = pack
patch_pack ((key, entry) ∷ keys) code pack =
    patch_pack keys code (delete (codes key) pack ++ ((key, translation entry code) ∷ []))

-- `I18N[code]` is written to.
unfoldable pub update : Text → Pack → Packs → Packs
update code pack [] = []
update code pack ((k, p) ∷ packs) =
    let later = update code pack packs in
    if text_eq (codes k) code then (k, pack) ∷ packs else (k, p) ∷ later

-- The loop over the codes; `none` is the error for a missing pack.
unfoldable pub patch_packs : List (String × Translations) → List String → Packs → Option Packs
unfolding patch_pack update find_pack
patch_packs keys [] packs = some packs
patch_packs keys (code ∷ locales) packs = elim (find_pack packs (codes code)) [
  | none ↦ none
  | some pack ↦ patch_packs keys locales (update (codes code) (patch_pack keys code pack) packs)
]

-- patch_compliance_i18n.js, with its error unless there are 23 packs.
unfoldable pub patch_i18n : List (String × Translations) → List String → Packs → Option Packs
unfolding patch_packs
patch_i18n keys locales packs = elim (patch_packs keys locales packs) [
  | none ↦ none
  | some packs' ↦ if length locales == 23 then some packs' else none
]
