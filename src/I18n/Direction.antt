-- ===== src/I18n/Direction.antt =====
-- webui/assets/i18n.js, `localeDir`, `applyDocumentDir`, `setLang` and the script's own run, from
-- `let curLang` on. `RTL_LOCALES` is a `const` that stands behind its first use: `none` is the
-- binding that is not yet initialised, and reading it throws.
pub mod Startup
use netcheck.Common.{
  ℕ, Bool, true, false, Option, none, some, List, [], ◌∷◌, map, Text, codes, text_eq, before,
  to_lower, any, if◌then◌else◌,
}

pub data Dir : Type 0 where
  ltr rtl : Dir

pub record Script : Type 0 where
  pub cur_lang : Text
  pub rtl_locales : Option (List Text)
  pub stored_lang : Option Text  -- localStorage "nc-lang"
  pub document_dir : Option Dir  -- none: the attribute was never written
  pub document_lang : Text

-- `String(lang || "").split("-")[0].toLowerCase()`
unfoldable pub base_of : Text → Text
base_of lang = map to_lower (before b'-' lang)

-- `none` is the ReferenceError.
unfoldable pub locale_dir : Script → Text → Option Dir
unfolding base_of
locale_dir s lang = elim s.rtl_locales [
  | none ↦ none
  | some tags ↦ some (if any (text_eq (base_of lang)) tags then rtl else ltr)
]

unfoldable pub apply_document_dir : Script → Text → Option Script
unfolding locale_dir
apply_document_dir s lang = elim (locale_dir s lang) [
  | none ↦ none
  | some dir ↦ some (record s { document_dir = some dir; document_lang = lang })
]

-- `setLang`; the first two writes stay when the third statement throws.
unfoldable pub set_lang : Script → Text → Script
unfolding apply_document_dir
set_lang s code =
    let s' = record s { cur_lang = code; stored_lang = some code } in
    elim (apply_document_dir s' code) [ some done ↦ done | none ↦ s' ]

-- `localStorage.getItem("nc-lang") || …`
pub or_resolved : Option Text → Text → Text
or_resolved none resolved = resolved
or_resolved (some []) resolved = resolved
or_resolved (some (c ∷ cs)) resolved = c ∷ cs

-- `let curLang = …`, given what `resolveBrowserLang` answers.
choose_lang : Script → Text → Script
unfolding or_resolved
choose_lang s resolved = record s { cur_lang = or_resolved s.stored_lang resolved }

-- `try { applyDocumentDir(curLang); } catch (e) {}`
try_apply_dir : Script → Script
unfolding apply_document_dir
try_apply_dir s = elim (apply_document_dir s s.cur_lang) [ some done ↦ done | none ↦ s ]

-- `const RTL_LOCALES = ["ar", "he"];`
define_rtl_locales : Script → Script
define_rtl_locales s = record s { rtl_locales = some (codes "ar" ∷ codes "he" ∷ []) }

-- The statements of the script in their order.
unfoldable pub run_script : Script → Text → Script
unfolding choose_lang try_apply_dir define_rtl_locales
run_script s resolved = define_rtl_locales (try_apply_dir (choose_lang s resolved))

-- The state in which the browser starts the script.
unfoldable pub fresh : Option Text → Script
fresh stored = record {
  cur_lang = [];
  rtl_locales = none;
  stored_lang = stored;
  document_dir = none;
  document_lang = [];
}
