-- ===== src/I18n/Packs.antt =====
-- webui/assets/i18n.js, the table `I18N`: four of its twenty-three packs, the English one and the
-- German, French and simplified Chinese ones.
pub mod EnUs
pub mod DeDe
pub mod FrFr
pub mod ZhCn
pub mod Parity
use netcheck.Common.{List, [], ◌∷◌}
use netcheck.I18n.Catalog.{Catalog}
use EnUs.{en_us}
use DeDe.{de_de}
use FrFr.{fr_fr}
use ZhCn.{zh_cn}

unfoldable pub i18n : Catalog
i18n = record {
  english = en_us;
  others = ("de-DE", de_de) ∷ ("fr-FR", fr_fr) ∷ ("zh-CN", zh_cn) ∷ [];
}
