-- ===== src/I18n/Browser/Chain.antt =====
-- What the resolution chain answers.
use netcheck.Common.{
  Bool, true, Option, none, some, List, [], ◌∷◌, ◌++◌, map, String, ◌≡◌, refl, ◌≢◌, inl, inr, Text,
  codes, eq_of_text_eq, trim, before, to_lower, all, All, arith, Bool-cases, Option-cases,
  starts_with, text_eq_refl, All-imp, and-true,
}
use mathlib.Core.Path.{subst}
use netcheck.I18n.Locales.{pack_codes, lang_variants}
use netcheck.I18n.Browser.{
  has_pack, variant, variant_pack, by_prefix, only_one, or_try, resolve_tag, resolve_list,
  candidate_list, resolve_browser_lang,
}

abbrev IsPack : List String → Text → Type 0
IsPack packs code = has_pack packs code ≡ true

IsPack-cons : (p : String) (ps : List String) (code : Text) → IsPack ps code → IsPack (p ∷ ps) code
unfolding has_pack
IsPack-cons p ps code h = ground arith

IsPack-head : (p : String) (ps : List String) → IsPack (p ∷ ps) (codes p)
unfolding has_pack
IsPack-head p ps = rw text_eq_refl

by_prefix-IsPack : (packs : List String) (base : Text) → All (IsPack packs) (by_prefix packs base)
unfolding by_prefix
by_prefix-IsPack [] base = tt
by_prefix-IsPack (p ∷ ps) base =
    let later =
      All-imp (IsPack ps) (IsPack (p ∷ ps)) (IsPack-cons p ps) (by_prefix ps base)
        (by_prefix-IsPack ps base) in
    elim (Bool-cases (starts_with (map to_lower (codes p)) (base ++ codes "-"))) [
      | inl h ↦ rw h (IsPack-head p ps, later)
      | inr h ↦ rw h later
    ]

only_one-IsPack :
    (packs : List String) (found : List Text) (code : Text)
    → All (IsPack packs) found
    → only_one found ≡ some code
    → IsPack packs code
unfolding only_one
only_one-IsPack packs (c ∷ []) code (h, _) e =
    let same : c ≡ code = ground arith in subst (IsPack packs) same h
only_one-IsPack packs [] code h e = cc
only_one-IsPack packs (c ∷ d ∷ found) code h e = cc

variant_pack-IsPack :
    (packs : List String) (variants : List (String × String)) (tag code : Text)
    → variant_pack packs variants tag ≡ some code
    → IsPack packs code
unfolding variant_pack
variant_pack-IsPack packs variants tag code e = ground arith

or_try-IsPack :
    (packs : List String) (a b : Option Text) (code : Text)
    → (a ≡ some code → IsPack packs code)
    → (b ≡ some code → IsPack packs code)
    → or_try a b ≡ some code
    → IsPack packs code
unfolding or_try
or_try-IsPack packs (some c) b code h k e = h e
or_try-IsPack packs none b code h k e = k e

chain-IsPack :
    (packs : List String) (variants : List (String × String)) (lower base code : Text)
    → or_try
        (variant_pack packs variants lower)
        (or_try (variant_pack packs variants base) (only_one (by_prefix packs base)))
      ≡ some code
    → IsPack packs code
chain-IsPack packs variants lower base code =
    or_try-IsPack packs _ _ code (variant_pack-IsPack packs variants lower code) (
      or_try-IsPack packs _ _ code (variant_pack-IsPack packs variants base code)
        (only_one-IsPack packs _ code (by_prefix-IsPack packs base)))

resolve_tag-IsPack :
    (packs : List String) (variants : List (String × String)) (raw code : Text)
    → resolve_tag packs variants raw ≡ some code
    → IsPack packs code
unfolding resolve_tag
resolve_tag-IsPack packs variants raw code e =
    let lower = map to_lower (trim raw) in
    ground (arith, chain-IsPack packs variants lower (before b'-' lower) code)

resolve_list-IsPack :
    (packs : List String) (variants : List (String × String)) (list : List Text)
    → IsPack packs (codes "en-US")
    → IsPack packs (resolve_list packs variants list)
unfolding resolve_list
resolve_list-IsPack packs variants [] h = h
resolve_list-IsPack packs variants (raw ∷ list) h =
    elim (Option-cases (resolve_tag packs variants raw)) [
      | inl e ↦ rw (e, resolve_list) (resolve_list-IsPack packs variants list h)
      | inr (code, e) ↦ rw (e, resolve_list) (resolve_tag-IsPack packs variants raw code e)
    ]

-- Where the table of packs has "en-US", the chosen language is the code of a pack, whatever the
-- browser's languages and the table of variants are.
pub resolve-IsPack :
    (packs : List String) (variants : List (String × String)) (navigator_language : Text)
    (candidates : List Text)
    → has_pack packs (codes "en-US") ≡ true
    → has_pack packs (resolve_browser_lang packs variants navigator_language candidates) ≡ true
unfolding resolve_browser_lang
resolve-IsPack packs variants navigator_language candidates =
    resolve_list-IsPack packs variants (candidate_list navigator_language candidates)

-- A first candidate that, white space aside, is the code of a pack is chosen as it is: neither the
-- variants nor the later candidates are asked.
resolve-exact :
    (packs : List String) (variants : List (String × String)) (navigator_language raw : Text)
    (candidates : List Text)
    → trim raw ≢ []
    → has_pack packs (trim raw) ≡ true
    → resolve_browser_lang packs variants navigator_language (raw ∷ candidates) ≡ trim raw
unfolding resolve_browser_lang
resolve-exact packs variants navigator_language raw candidates h k =
    ground (arith, eq_of_text_eq (trim raw) [])

target_ok : List String → String × String → Bool
target_ok packs v = has_pack packs (codes v.1)

variant-target :
    (packs : List String) (vs : List (String × String)) (tag code : Text)
    → all (target_ok packs) vs ≡ true
    → variant vs tag ≡ some code
    → has_pack packs code ≡ true
unfolding variant target_ok
variant-target packs [] tag code h e = cc
variant-target packs ((k, v) ∷ vs) tag code h e =
    let both = and-true (target_ok packs (k, v)) (all (target_ok packs) vs) h in
    ground (arith, both.0, both.1, variant-target packs vs tag code both.1)

shipped_targets : all (target_ok pack_codes) lang_variants ≡ true
unfolding target_ok has_pack pack_codes lang_variants
shipped_targets = refl

variant_pack_of_targets :
    (packs : List String) (vs : List (String × String)) (tag : Text)
    → all (target_ok packs) vs ≡ true
    → variant_pack packs vs tag ≡ variant vs tag
unfolding variant_pack
variant_pack_of_targets packs vs tag h = elim (Option-cases (variant vs tag)) [
  | inl e ↦ rw (e, variant_pack)
  | inr (code, e) ↦ rw (e, variant_pack, variant-target packs vs tag code h e)
]

-- Every entry of the shipped table of variants leads to a shipped pack, so the second half of
-- `LANG_VARIANTS[x] && I18N[LANG_VARIANTS[x]]` never turns an entry down.
variant_pack-shipped :
    (tag : Text) → variant_pack pack_codes lang_variants tag ≡ variant lang_variants tag
variant_pack-shipped tag = variant_pack_of_targets pack_codes lang_variants tag shipped_targets
