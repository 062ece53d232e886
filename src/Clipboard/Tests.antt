-- ===== src/Clipboard/Tests.antt =====
-- Copying in a concrete browser, and the button of the recovery code.
use netcheck.Common.{true, false, none, some, [], ◌≡◌, ◌≢◌, refl, inl, codes, text_eq}
use netcheck.Clipboard.{
  Browser, textarea, element, Page, copy_text, Button, press, told, restore, label_of,
}
use netcheck.Clipboard.Copy.{IsHonest, copy_text-IsHonest}
use netcheck.Clipboard.Label.{
  Phase, rest, IsIn, at_rest, here, next, presses, tells, restores, Reach-IsIn,
}

-- An insecure page, where the command is the only way.
abbrev insecure : Browser
insecure = record { has_clipboard = false; writes = false; commands = some true }

abbrev some_page : Page
some_page = record { textareas = []; focus = element 3; clipboard = codes "old" }

other_focus : some_page.focus ≢ textarea
other_focus = cc

copied : (copy_text insecure (codes "A-B") some_page).1.clipboard ≡ codes "A-B"
unfolding copy_text
copied = refl

copy_text-IsHonest_example :
    IsHonest
      (codes "A-B")
      some_page
      (copy_text insecure (codes "A-B") some_page).0
      (copy_text insecure (codes "A-B") some_page).1
    × (text_eq (codes "A-B") [] ≡ true → (copy_text insecure (codes "A-B") some_page).0 ≡ false)
copy_text-IsHonest_example = copy_text-IsHonest insecure (codes "A-B") some_page other_focus

abbrev copy_button : Button
copy_button = record {
  text = codes "Copy";
  disabled = false;
  original = none;
  copying = [];
  timers = [];
}

copy_button-IsIn : IsIn (codes "Copy") rest copy_button
copy_button-IsIn = at_rest copy_button (refl, refl, refl, refl) (inl refl)

abbrev failed : Button
failed = told 0 false (press copy_button)

restored : (restore 0 failed).text ≡ codes "Copy"
unfolding restore told press label_of
restored = refl

Reach-IsIn_example : (phase : Phase) × IsIn (codes "Copy") phase (restore 0 failed)
Reach-IsIn_example = Reach-IsIn (codes "Copy") copy_button-IsIn (
    next (next (next here (presses copy_button refl)) (tells 0 false (press copy_button)))
      (restores 0 failed))
