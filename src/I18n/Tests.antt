-- ===== src/I18n/Tests.antt =====
-- The theorems on languages and messages at concrete inputs.
use netcheck.Common.{true, none, some, List, [], ◌∷◌, ◌≡◌, refl, codes, trim, arith, Text}
use netcheck.I18n.Catalog.{fill_from}
use netcheck.I18n.Catalog.Filling.{Piece, lit, hole, show, fill_once, fill_from-show}
use netcheck.I18n.Locales.{pack_codes, lang_variants}
use netcheck.I18n.Browser.{has_pack, resolve_browser_lang, resolve_shipped}
use netcheck.I18n.Browser.Chain.{resolve-IsPack}
use netcheck.I18n.Direction.{fresh, run_script, or_resolved}
use netcheck.I18n.Direction.Startup.{run_script-direction_unset}
use netcheck.I18n.Catalog.{message, pack_for, template}
use netcheck.I18n.Packs.{i18n}
use netcheck.I18n.Packs.EnUs.{en_us}
use netcheck.I18n.Packs.DeDe.{de_de}
use netcheck.I18n.Packs.Parity.{has_place, template-shipped, message-has_place}

austrian : resolve_shipped (codes "en-US") (codes "de-AT" ∷ []) ≡ codes "de-DE"
unfolding resolve_browser_lang trim pack_codes lang_variants
austrian = refl

-- "{1} up, {2} down ({3})" with two values.
abbrev summary : List Piece
summary =
    hole 1 ∷ lit (codes " up, ") ∷ hole 2 ∷ lit (codes " down (") ∷ hole 3 ∷ lit (codes ")") ∷ []

fill_from-show_example :
    fill_from 1 (codes "3" ∷ codes "1" ∷ []) (show summary)
    ≡ fill_once 1 (codes "3" ∷ codes "1" ∷ []) summary
fill_from-show_example =
    fill_from-show 1 (codes "3" ∷ codes "1" ∷ []) summary (ground arith) (ground arith)
      (omega arith)

resolve-IsPack_example :
    has_pack pack_codes
      (resolve_browser_lang pack_codes lang_variants (codes "xx") (codes "zh-Hant-HK" ∷ []))
    ≡ true
unfolding has_pack pack_codes
resolve-IsPack_example =
    resolve-IsPack pack_codes lang_variants (codes "xx") (codes "zh-Hant-HK" ∷ []) refl

run_script-direction_unset_example :
    ((run_script (fresh (some (codes "ar-SA"))) (codes "en-US")).document_dir ≡ none)
    × ((run_script (fresh (some (codes "ar-SA"))) (codes "en-US")).document_lang ≡ [])
    × ((run_script (fresh (some (codes "ar-SA"))) (codes "en-US")).cur_lang
        ≡ or_resolved (some (codes "ar-SA")) (codes "en-US"))
run_script-direction_unset_example =
    run_script-direction_unset (some (codes "ar-SA")) (codes "en-US")

template-shipped_example :
    ((e : Text)
      → message en_us (codes "btn.close") ≡ some e
      → (m : Text) × (message (pack_for i18n (codes "de-DE")) (codes "btn.close") ≡ some m)
        × (template i18n (codes "de-DE") (codes "btn.close") ≡ m))
    × (message en_us (codes "btn.close") ≡ none
        → (message (pack_for i18n (codes "de-DE")) (codes "btn.close") ≡ none)
          × (template i18n (codes "de-DE") (codes "btn.close") ≡ codes "btn.close"))
template-shipped_example = template-shipped (codes "de-DE") (codes "btn.close")

message-has_place_example :
    has_place 1 (codes "Vorgang fehlgeschlagen: {1}") ≡ has_place 1 (codes "Operation failed: {1}")
unfolding message pack_for i18n en_us de_de
message-has_place_example =
    message-has_place (codes "de-DE") (codes "common.operationFailed")
      (codes "Vorgang fehlgeschlagen: {1}") (codes "Operation failed: {1}") 1 refl refl
