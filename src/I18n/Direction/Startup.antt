-- ===== src/I18n/Direction/Startup.antt =====
-- The writing direction after the script's run and after a choice of language.
use netcheck.Common.{
  Bool, Option, none, some, [], ◌∷◌, ◌≡◌, refl, Text, codes, text_eq, any, if◌then◌else◌,
}
use netcheck.I18n.Direction.{
  ltr, rtl, base_of, apply_document_dir, set_lang, or_resolved, run_script, fresh,
}

-- The languages that are written from right to left.
abbrev pub is_rtl : Text → Bool
is_rtl lang = any (text_eq (base_of lang)) (codes "ar" ∷ codes "he" ∷ [])

-- Whatever language was stored and whatever the browser's languages resolve to, the script's run
-- writes neither the direction nor the language of the document, although it sets the current
-- language: a stored "ar-SA" or "he-IL" is shown from left to right until it is chosen again.
pub run_script-direction_unset :
    (stored : Option Text) (resolved : Text)
    → ((run_script (fresh stored) resolved).document_dir ≡ none)
      × ((run_script (fresh stored) resolved).document_lang ≡ [])
      × ((run_script (fresh stored) resolved).cur_lang ≡ or_resolved stored resolved)
unfolding run_script apply_document_dir fresh
run_script-direction_unset stored resolved = (refl, refl, refl)

-- Once the script has run, choosing a language sets the current and the stored language, and the
-- document's direction, which is from right to left exactly for Arabic and Hebrew.
set_lang-direction :
    (stored : Option Text) (resolved code : Text)
    → let s = set_lang (run_script (fresh stored) resolved) code in
      (s.cur_lang ≡ code)
      × (s.stored_lang ≡ some code)
      × (s.document_lang ≡ code)
      × (s.document_dir ≡ some (if is_rtl code then rtl else ltr))
unfolding set_lang run_script fresh
set_lang-direction stored resolved code = (refl, refl, refl, refl)
