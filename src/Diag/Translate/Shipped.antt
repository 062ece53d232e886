-- ===== src/Diag/Translate/Shipped.antt =====
-- The shipped packs serve the translation of the diagnosis texts.
use netcheck.Common.{true, ◌≡◌, refl, Text, includes, decimal, trim}
use netcheck.I18n.Catalog.{message}
use netcheck.I18n.Catalog.Lookup.{pack_for-P}
use netcheck.I18n.Packs.{i18n}
use netcheck.I18n.Packs.EnUs.{en_us}
use netcheck.I18n.Packs.DeDe.{de_de}
use netcheck.I18n.Packs.FrFr.{fr_fr}
use netcheck.I18n.Packs.ZhCn.{zh_cn}
use netcheck.Diag.Tables.{diag_exact_keys, diag_code_keys, diag_class_keys}
use netcheck.Diag.Rules.{first_rules, later_rules}
use netcheck.Diag.Translate.{translate_diag_text}
use netcheck.Diag.Translate.Keys.{
  served, no_place_above, diag_complete, Said, translate_diag_text-said,
}

runs : Unit {0}
unfolding diag_complete served no_place_above message diag_exact_keys diag_code_keys diag_class_keys
    first_rules later_rules includes decimal
runs = tt

en_us_complete : diag_complete en_us ≡ true
unfolding runs en_us
en_us_complete = refl

de_de_complete : diag_complete de_de ≡ true
unfolding runs de_de
de_de_complete = refl

fr_fr_complete : diag_complete fr_fr ≡ true
unfolding runs fr_fr
fr_fr_complete = refl

zh_cn_complete : diag_complete zh_cn ≡ true
unfolding runs zh_cn
zh_cn_complete = refl

-- In every language, a pack that is not modelled here being absent from the table, the translation
-- answers the value itself without the white space around it, or a message of the pack that is in
-- force, with a value for each of its places.
pub translate_diag_text-shipped :
    (lang value : Text) → Said i18n lang (trim value) (translate_diag_text i18n lang value)
unfolding i18n
translate_diag_text-shipped lang value = translate_diag_text-said i18n lang value (
    pack_for-P (λ p. diag_complete p ≡ true) i18n lang en_us_complete
      (de_de_complete, (fr_fr_complete, (zh_cn_complete, tt))))
