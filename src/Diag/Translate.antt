-- ===== src/Diag/Translate.antt =====
-- webui/assets/app.js, `translateDiagText` with `translateProxyLabel`, in the current language.
-- `DIAG_EXACT_KEYS[text]` is a search of the table: the names that every JavaScript object inherits
-- (`constructor`, `toString`, …) are left out.
pub mod Keys
pub mod Facts
pub mod Shipped
use netcheck.Common.{
  ℕ, Bool, true, false, not, Option, none, some, List, [], ◌∷◌, ◌++◌, map, String, Text, codes,
  text_eq, starts_with, includes, trim, before, split, join, drop, length, if◌then◌else◌,
}
use mathlib.Core.List.{filter}
use netcheck.I18n.Catalog.{Catalog, t}
use netcheck.Diag.Pattern.{Pattern, lit, number, match}
use netcheck.Diag.Tables.{diag_exact_keys, diag_code_keys, diag_class_keys}
use netcheck.Diag.Rules.{Rule, on_match, on_text, on_prefix, on_part, first_rules, later_rules}

unfoldable pub key_of : List (String × String) → Text → Option Text
key_of [] text = none
key_of ((k, key) ∷ table) text =
    let later = key_of table text in if text_eq (codes k) text then some (codes key) else later

-- `.map(part => part.trim()).filter(Boolean)`
unfoldable pub parts_of : List Text → List Text
parts_of [] = []
parts_of (p ∷ ps) = let later = parts_of ps in if text_eq (trim p) [] then later else trim p ∷ later

env_pattern : Pattern
env_pattern = number ∷ lit " environment variable(s)" ∷ []

-- `text.slice("…".length)` behind a prefix that is there.
pub after_prefix : String → Text → Text
after_prefix p text = drop (length (codes p)) text

-- `if ((match = …)) return t(…)`
unfoldable pub with_groups : (List Text → Text) → Option (List Text) → Option Text
with_groups say none = none
with_groups say (some gs) = some (say gs)

module _ (c : Catalog) (lang : Text) where
  translate_proxy_part : Text → Text
  unfolding env_pattern match after_prefix
  translate_proxy_part part = elim (match env_pattern part) [
    | some env ↦ t c lang (codes "diagmsg.environmentProxy") env
    | none ↦
        if text_eq part (codes "TOS proxy configured")
        then t c lang (codes "diagmsg.tosProxyConfigured") []
        else if text_eq part (codes "TOS proxy state unavailable")
        then t c lang (codes "diagmsg.proxyStateUnavailable") []
        else if text_eq part (codes "no proxy in environment or TOS settings")
        then t c lang (codes "diagmsg.noProxyConfigured") []
        else if text_eq part (codes "no proxy in environment")
        then t c lang (codes "diagmsg.noProxyConfigured") []
        else if starts_with part (codes "TOS advanced ")
        then t c lang (codes "diagmsg.tosAdvancedProxy") (after_prefix "TOS advanced " part ∷ [])
        else part
  ]

  pub translate_proxy_label : Text → Text
  unfolding translate_proxy_part split parts_of
  translate_proxy_label label =
      join (codes "; ") (map translate_proxy_part (parts_of (split (codes ";") label)))

  -- One statement; `none` goes on with the next.
  unfoldable pub apply_rule : Rule → Text → Option Text
  unfolding with_groups
  apply_rule (on_match p key) text = with_groups (t c lang (codes key)) (match p text)
  apply_rule (on_text s key) text =
      if text_eq text (codes s) then some (t c lang (codes key) []) else none
  apply_rule (on_prefix s key) text =
      if starts_with text (codes s)
      then some (t c lang (codes key) (translate_proxy_label (after_prefix s text) ∷ []))
      else none
  apply_rule (on_part s key) text =
      if includes text (codes s) then some (t c lang (codes key) []) else none

  unfoldable pub apply_rules : List Rule → Text → Text
  unfolding apply_rule
  apply_rules [] text = text
  apply_rules (r ∷ rs) text =
      let later = apply_rules rs text in elim (apply_rule r text) [ some s ↦ s | none ↦ later ]

  -- `if (key) return t(key);`, and what follows.
  unfoldable pub said_or : Option Text → Text → Text
  said_or none later = later
  said_or (some key) later = t c lang key []

  unfoldable pub translate_diag_text : Text → Text
  unfolding said_or
  translate_diag_text value =
      let text = trim value in
      if text_eq text []
      then []
      else said_or (key_of diag_exact_keys text) (
          said_or (key_of diag_code_keys (trim (before b':' text)))
            (said_or (key_of diag_class_keys text) (apply_rules (first_rules ++ later_rules) text)))
