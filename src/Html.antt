-- ===== src/Html.antt =====
-- webui/assets/app.js, `esc` and the texts that the views build with it.
pub mod Escape
pub mod Template
mod Tests
use netcheck.Common.{
  ℕ, zero, suc, List, [], ◌∷◌, ◌++◌, String, Text, codes, starts_with, ◌==◌, if◌then◌else◌,
}

-- The replacement of one character by `/[&<>"']/g`.
unfoldable pub esc_char : ℕ → Text
esc_char c =
    if c == b'&'
    then codes "&amp;"
    else if c == b'<'
    then codes "&lt;"
    else if c == b'>'
    then codes "&gt;"
    else if c == b'"'
    then codes "&quot;"
    else if c == b'\''
    then codes "&#39;"
    else c ∷ []

unfoldable pub esc : Text → Text
unfolding esc_char
esc [] = []
esc (c ∷ s) = esc_char c ++ esc s

-- `openGuide('${esc(checkName(c))}','${esc(diagReason(c))}')`, the value of an `onclick` attribute.
unfoldable pub guide_onclick : Text → Text → Text
guide_onclick name reason =
    codes "openGuide('" ++ (esc name ++ (codes "','" ++ (esc reason ++ codes "')")))
