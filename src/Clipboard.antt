-- ===== src/Clipboard.antt =====
-- webui/assets/clipboard.js: `copyText`, whose answers of the browser are given, and
-- `copyRecoveryCode`, cut at its await, with its timer.
pub mod Copy
pub mod Label
mod Tests
use netcheck.Common.{
  ℕ, Bool, true, false, ◌&&◌, Option, none, some, List, [], ◌∷◌, ◌++◌, Text, codes, text_eq,
  if◌then◌else◌, get_elem?, remove_at,
}

-- What the browser does: whether its clipboard may be used, whether `writeText` is fulfilled, what
-- `execCommand("copy")` gives, `none` where it throws.
pub record Browser : Type 0 where
  pub has_clipboard : Bool
  pub writes : Bool
  pub commands : Option Bool

-- Where the focus is; `body` is what `document.activeElement` is when no element has it.
pub data Focus : Type 0 where
  body textarea : Focus
  element : ℕ → Focus

-- The textareas that were added to the body, the focus, and what the clipboard holds.
pub record Page : Type 0 where
  pub textareas : List Text
  pub focus : Focus
  pub clipboard : Text

add_textarea : Text → Page → Page
add_textarea value page = record page { textareas = value ∷ page.textareas }

-- `textarea.focus(); textarea.select(); …; document.execCommand("copy")`
command : Browser → Text → Page → Option Bool × Page
command b value page = elim b.commands [
  | none ↦ (none, record page { focus = textarea })
  | some ok ↦
      (some ok, record page { focus = textarea; clipboard = if ok then value else page.clipboard })
]

-- The `finally`; a focus that is removed with its element goes to the body.
clean_up : Focus → Page → Page
clean_up body page = record page {
  focus = body;
  textareas = elim page.textareas [ [] ↦ [] | area ∷ areas ↦ areas ];
}
clean_up textarea page = record page {
  focus = body;
  textareas = elim page.textareas [ [] ↦ [] | area ∷ areas ↦ areas ];
}
clean_up (element n) page = record page {
  focus = element n;
  textareas = elim page.textareas [ [] ↦ [] | area ∷ areas ↦ areas ];
}

copied_or : Option Bool → Bool
copied_or none = false
copied_or (some ok) = ok

-- The path with the textarea.
copy_by_command : Browser → Text → Page → Bool × Page
unfolding add_textarea command clean_up copied_or
copy_by_command b value page =
    let added = add_textarea value page in
    let (ok, page') = command b value added in (copied_or ok, clean_up added.focus page')

-- `copyText`, of a value that is a text.
unfoldable pub copy_text : Browser → Text → Page → Bool × Page
unfolding copy_by_command
copy_text b value page =
    if text_eq value []
    then (false, page)
    else if b.has_clipboard && b.writes
    then (true, record page { clipboard = value })
    else copy_by_command b value page

-- The button of `copyRecoveryCode`.
pub record Button : Type 0 where
  pub text : Text
  pub disabled : Bool
  pub original : Option Text  -- dataset.originalLabel
  pub copying : List Text  -- the labels of the calls that wait for copyText
  pub timers : List Text  -- the labels of those that wait for their timer

-- `button.dataset.originalLabel || button.textContent`
unfoldable pub label_of : Button → Text
label_of b = elim b.original [
  | none ↦ b.text
  | some label ↦ if text_eq label [] then b.text else label
]

-- `copyRecoveryCode` up to its await.
unfoldable pub press : Button → Button
unfolding label_of
press b = record b {
  text = codes "copying…";
  disabled = true;
  original = some (label_of b);
  copying = b.copying ++ (label_of b ∷ []);
}

-- Behind it, for the call at place `n`.
unfoldable pub told : ℕ → Bool → Button → Button
told n copied b = elim (get_elem? b.copying n) [
  | none ↦ b
  | some label ↦ record b {
    text = if copied then codes "copied ✓" else codes "copy failed — select the code manually";
    copying = remove_at n b.copying;
    timers = b.timers ++ (label ∷ []);
  }
]

-- The timer at place `n` goes off.
unfoldable pub restore : ℕ → Button → Button
restore n b = elim (get_elem? b.timers n) [
  | none ↦ b
  | some label ↦ record b { text = label; disabled = false; timers = remove_at n b.timers }
]
