-- ===== src/I18n/Browser.antt =====
-- webui/assets/i18n.js, `resolveBrowserLang`: the pack for the browser's languages. A missing
-- candidate is the empty text, and so is what `String(raw || "")` makes of one that is null.
-- `toLowerCase` is modelled on the ASCII letters, of which language tags consist.
-- The keys of `I18N` and the table `LANG_VARIANTS` are arguments; `resolve_shipped` has the shipped
-- ones.
pub mod Chain
use netcheck.Common.{
  ℕ, Bool, true, false, ◌&&◌, Option, none, some, List, [], ◌∷◌, ◌++◌, map, String, Text, codes,
  text_eq, starts_with, trim, before, to_lower, any, if◌then◌else◌,
}
use netcheck.I18n.Locales.{pack_codes, lang_variants}

-- `I18N[code]` is there.
unfoldable pub has_pack : List String → Text → Bool
has_pack packs code = any (λ p. text_eq (codes p) code) packs

-- `LANG_VARIANTS[tag]`
unfoldable pub variant : List (String × String) → Text → Option Text
variant [] tag = none
variant ((k, v) ∷ vs) tag =
    let rest = variant vs tag in if text_eq (codes k) tag then some (codes v) else rest

-- `LANG_VARIANTS[tag] && I18N[LANG_VARIANTS[tag]]`, with its value.
unfoldable pub variant_pack : List String → List (String × String) → Text → Option Text
unfolding has_pack variant
variant_pack packs variants tag = elim (variant variants tag) [
  | none ↦ none
  | some code ↦ if has_pack packs code then some code else none
]

-- `Object.keys(I18N).filter(k => k.toLowerCase().startsWith(base + "-"))`
unfoldable pub by_prefix : List String → Text → List Text
by_prefix [] base = []
by_prefix (p ∷ ps) base =
    let rest = by_prefix ps base in
    if starts_with (map to_lower (codes p)) (base ++ codes "-") then codes p ∷ rest else rest

only_one : List Text → Option Text
only_one (code ∷ []) = some code
only_one _ = none

or_try : Option Text → Option Text → Option Text
or_try (some code) later = some code
or_try none later = later

-- One round of the loop; `none` goes on with the next candidate.
unfoldable pub resolve_tag : List String → List (String × String) → Text → Option Text
unfolding has_pack variant_pack by_prefix only_one or_try
resolve_tag packs variants raw =
    let tag = trim raw in
    let lower = map to_lower tag in
    let base = before b'-' lower in
    if text_eq tag []
    then none
    else if has_pack packs tag
    then some tag
    else or_try (variant_pack packs variants lower)
        (or_try (variant_pack packs variants base) (only_one (by_prefix packs base)))

unfoldable pub resolve_list : List String → List (String × String) → List Text → Text
unfolding resolve_tag
resolve_list packs variants [] = codes "en-US"
resolve_list packs variants (raw ∷ list) =
    let rest = resolve_list packs variants list in
    elim (resolve_tag packs variants raw) [ some code ↦ code | none ↦ rest ]

-- `candidates && candidates.length ? candidates : [navigator.language]`
candidate_list : Text → List Text → List Text
candidate_list navigator_language [] = navigator_language ∷ []
candidate_list navigator_language (c ∷ cs) = c ∷ cs

unfoldable pub resolve_browser_lang : List String → List (String × String) → Text → List Text → Text
unfolding resolve_list candidate_list
resolve_browser_lang packs variants navigator_language candidates =
    resolve_list packs variants (candidate_list navigator_language candidates)

abbrev pub resolve_shipped : Text → List Text → Text
resolve_shipped = resolve_browser_lang pack_codes lang_variants
