-- ===== src/I18n/Locales.antt =====
-- webui/assets/i18n.js, `LOCALES` and `LANG_VARIANTS`. The keys of `I18N` are the codes of
-- `LOCALES`, in the same order.
use netcheck.Common.{String, List, [], ◌∷◌, map}

unfoldable pub locales : List (String × String)
locales =
    ("en-US", "English")
    ∷ ("de-DE", "Deutsch")
    ∷ ("fr-FR", "Français")
    ∷ ("es-ES", "Español")
    ∷ ("it-IT", "Italiano")
    ∷ ("tr-TR", "Türkçe")
    ∷ ("pt-PT", "Português")
    ∷ ("hu-HU", "Magyar")
    ∷ ("nb-NO", "Norsk")
    ∷ ("sv-SE", "Svenska")
    ∷ ("nl-NL", "Nederlands")
    ∷ ("cs-CZ", "Čeština")
    ∷ ("pl-PL", "Polski")
    ∷ ("ru-RU", "Русский")
    ∷ ("zh-CN", "简体中文")
    ∷ ("zh-HK", "繁體中文")
    ∷ ("ja-JP", "日本語")
    ∷ ("ko-KR", "한국어")
    ∷ ("vi-VN", "Tiếng Việt")
    ∷ ("id-ID", "Bahasa Indonesia")
    ∷ ("th-TH", "ไทย")
    ∷ ("ar-SA", "\u{627}\u{644}\u{639}\u{631}\u{628}\u{64a}\u{629}")
    ∷ ("he-IL", "\u{5e2}\u{5d1}\u{5e8}\u{5d9}\u{5ea}")
    ∷ []

-- `Object.keys(I18N)`
unfoldable pub pack_codes : List String
unfolding locales
pack_codes = map (λ l. l.0) locales

unfoldable pub lang_variants : List (String × String)
lang_variants =
    ("zh-tw", "zh-HK")
    ∷ ("zh-hant", "zh-HK")
    ∷ ("zh-mo", "zh-HK")
    ∷ ("zh-sg", "zh-CN")
    ∷ ("zh-hans", "zh-CN")
    ∷ ("en-gb", "en-US")
    ∷ ("en-au", "en-US")
    ∷ ("en-ca", "en-US")
    ∷ ("en-nz", "en-US")
    ∷ ("en-za", "en-US")
    ∷ ("en-in", "en-US")
    ∷ ("fr-ca", "fr-FR")
    ∷ ("fr-be", "fr-FR")
    ∷ ("fr-ch", "fr-FR")
    ∷ ("de-at", "de-DE")
    ∷ ("de-ch", "de-DE")
    ∷ ("pt-br", "pt-PT")
    ∷ ("es-mx", "es-ES")
    ∷ ("es-ar", "es-ES")
    ∷ ("es-cl", "es-ES")
    ∷ ("es-co", "es-ES")
    ∷ ("nb", "nb-NO")
    ∷ ("no", "nb-NO")
    ∷ ("nn", "nb-NO")
    ∷ ("id", "id-ID")
    ∷ ("vi", "vi-VN")
    ∷ ("th", "th-TH")
    ∷ []
