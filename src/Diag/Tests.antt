-- ===== src/Diag/Tests.antt =====
-- Runs of the diagnosis texts, and the theorems at concrete inputs.
use netcheck.Common.{true, ◌≡◌, refl, ◌⊎◌, codes, trim, before, split, includes, decimal}
use netcheck.I18n.Catalog.{message, pack_for, replace_all, fill_from, t}
use netcheck.I18n.Packs.{i18n}
use netcheck.I18n.Packs.EnUs.{en_us}
use netcheck.I18n.Packs.DeDe.{de_de}
use netcheck.I18n.Packs.FrFr.{fr_fr}
use netcheck.I18n.Packs.ZhCn.{zh_cn}
use netcheck.Diag.Pattern.{match}
use netcheck.Diag.Tables.{diag_exact_keys, diag_code_keys, diag_class_keys}
use netcheck.Diag.Rules.{first_rules, later_rules}
use netcheck.Diag.Translate.{key_of, apply_rules, apply_rule, translate_diag_text}
use netcheck.Diag.Translate.Keys.{
  served, no_place_above, diag_complete, IsMessage, Said, translate_diag_text-said,
}
use netcheck.Diag.Translate.Shipped.{translate_diag_text-shipped}
use netcheck.Diag.Labels.{own_label, with_port, check_name}

everything : Unit {0}
unfolding translate_diag_text key_of apply_rules apply_rule diag_exact_keys diag_code_keys
    diag_class_keys first_rules later_rules match t fill_from replace_all message pack_for trim
    before split decimal includes i18n en_us de_de fr_fr zh_cn
everything = tt

links_up :
    translate_diag_text i18n (codes "de-DE") (codes " all 3 up ")
    ≡ codes "All 3 Physical Links Are Up"
unfolding everything
links_up = refl

english_complete : diag_complete (pack_for i18n (codes "en-US")) ≡ true
unfolding everything diag_complete served no_place_above
english_complete = refl

translate_diag_text-said_example :
    (translate_diag_text i18n (codes "en-US") (codes "3 routes same gw")
      ≡ trim (codes "3 routes same gw"))
    ⊎ IsMessage
        (pack_for i18n (codes "en-US"))
        (translate_diag_text i18n (codes "en-US") (codes "3 routes same gw"))
translate_diag_text-said_example =
    translate_diag_text-said i18n (codes "en-US") (codes "3 routes same gw") english_complete

translate_diag_text-shipped_example :
    Said i18n
      (codes "fr-FR")
      (trim (codes "HTTP 404 "))
      (translate_diag_text i18n (codes "fr-FR") (codes "HTTP 404 "))
translate_diag_text-shipped_example =
    translate_diag_text-shipped (codes "fr-FR") (codes "HTTP 404 ")

port_named :
    check_name i18n (codes "en-US") (codes "custom:eth0") (codes "eth0") ≡ codes "custom · eth0"
unfolding everything check_name own_label with_port
port_named = refl
