-- ===== src/Clipboard/Copy.antt =====
-- What `copyText` promises.
use netcheck.Common.{
  Bool, true, false, ◌&&◌, [], ◌∷◌, ◌≡◌, ◌≢◌, refl, inl, inr, arith, Text, text_eq, if◌then◌else◌,
  Bool-cases, Option-cases, sym,
}
use netcheck.Clipboard.{
  Browser, Focus, body, textarea, element, Page, add_textarea, command, clean_up, copied_or,
  copy_by_command, copy_text,
}

-- The page is as before but for the clipboard, which holds the value if the answer is that it was
-- copied, and what it held otherwise.
pub record IsHonest (value : Text) (before : Page) (copied : Bool) (after : Page) : Type 0 where
  pub textareas : after.textareas ≡ before.textareas
  pub focus : after.focus ≡ before.focus
  pub clipboard : after.clipboard ≡ (if copied then value else before.clipboard)

clean_up-IsHonest :
    (f : Focus) (value : Text) (copied : Bool) (before page : Page)
    → f ≢ textarea
    → before.focus ≡ f
    → page.textareas ≡ value ∷ before.textareas
    → page.clipboard ≡ (if copied then value else before.clipboard)
    → IsHonest value before copied (clean_up f page)
unfolding clean_up
clean_up-IsHonest body value copied before page out at added clip = record {
  textareas = rw added refl;
  focus = sym at;
  clipboard = clip;
}
clean_up-IsHonest (element n) value copied before page out at added clip = record {
  textareas = rw added refl;
  focus = sym at;
  clipboard = clip;
}
clean_up-IsHonest textarea value copied before page out at added clip = absurd (out refl)

copy_by_command-IsHonest :
    (b : Browser) (value : Text) (page : Page)
    → page.focus ≢ textarea
    → IsHonest value page (copy_by_command b value page).0 (copy_by_command b value page).1
unfolding copy_by_command add_textarea command copied_or
copy_by_command-IsHonest b value page out = elim (Option-cases b.commands) [
  | inl thrown ↦
      rw (thrown, copy_by_command, command)
        (clean_up-IsHonest page.focus value false page _ out refl refl refl)
  | inr (ok, said) ↦
      rw (said, copy_by_command, command)
        (clean_up-IsHonest page.focus value ok page _ out refl refl refl)
]

-- Whatever the browser allows and however its two ways to copy end, a refusal and an exception too:
-- after the answer true the clipboard holds the value and after false what it held, no textarea is left,
-- and the focus is where it was, if that was not a textarea of `copyText`. The empty value is never
-- copied.
pub copy_text-IsHonest :
    (b : Browser) (value : Text) (page : Page)
    → page.focus ≢ textarea
    → IsHonest value page (copy_text b value page).0 (copy_text b value page).1
      × (text_eq value [] ≡ true → (copy_text b value page).0 ≡ false)
unfolding copy_text
copy_text-IsHonest b value page out = elim (Bool-cases (text_eq value [])) [
  | inl e ↦
      rw (e, copy_text) (record { textareas = refl; focus = refl; clipboard = refl }, λ _. refl)
  | inr e ↦ elim (Bool-cases (b.has_clipboard && b.writes)) [
    | inl w ↦
        rw (e, w, copy_text)
          (record { textareas = refl; focus = refl; clipboard = refl }, λ h. ground arith)
    | inr w ↦ rw (e, w, copy_text) (copy_by_command-IsHonest b value page out, λ h. ground arith)
  ]
]
