-- ===== src/PackTools/Tests.antt =====
-- The tools at small packs and at the table that is shipped.
use netcheck.Common.{some, [], ◌∷◌, ◌≡◌, ◌↔◌, refl, map, codes}
use netcheck.I18n.Catalog.{Pack, message}
use netcheck.I18n.Locales.{pack_codes}
use netcheck.PackTools.{Packs, missing, check_i18n, patch_pack, patch_i18n}
use netcheck.PackTools.Keys.{compliance_keys}
use netcheck.PackTools.Parity.{HasParity, check_i18n-HasParity}
use netcheck.PackTools.Patched.{patch_i18n-check}

abbrev small_pack : Pack
small_pack = ("app.title", "NetCheck") ∷ ("about.compliance", "old") ∷ []

abbrev small_packs : Packs
small_packs = map (λ code. (code, small_pack)) pack_codes

abbrev uneven_packs : Packs
uneven_packs = ("en-US", small_pack) ∷ ("de-DE", ("app.title", "NetCheck") ∷ []) ∷ []

one_missing :
    check_i18n uneven_packs ("en-US" ∷ "de-DE" ∷ [])
    ≡ some (missing "de-DE" (codes "about.compliance" ∷ []) ∷ [])
unfolding check_i18n message
one_missing = refl

small_packs-clean : check_i18n small_packs pack_codes ≡ some []
unfolding check_i18n message pack_codes
small_packs-clean = refl

check_i18n-HasParity_example :
    (check_i18n uneven_packs ("en-US" ∷ []) ≡ some []) ↔ HasParity uneven_packs ("en-US" ∷ [])
check_i18n-HasParity_example = check_i18n-HasParity uneven_packs ("en-US" ∷ [])

german :
    message (patch_pack compliance_keys "de-DE" small_pack) (codes "about.compliance")
    ≡ some (codes "Compliance & Richtlinien")
unfolding patch_pack message compliance_keys
german = refl

patch_i18n-check_example :
    (packs' : Packs) × (patch_i18n compliance_keys pack_codes small_packs ≡ some packs')
    × (check_i18n packs' pack_codes ≡ some [])
unfolding pack_codes
patch_i18n-check_example =
    patch_i18n-check compliance_keys pack_codes small_packs small_packs-clean refl refl
