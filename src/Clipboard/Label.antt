-- ===== src/Clipboard/Label.antt =====
-- The button that copies the recovery code, as a machine of three states.
use netcheck.Common.{
  ℕ, zero, suc, Bool, true, false, Option, none, some, [], ◌∷◌, ◌++◌, ◌≡◌, ◌⊎◌, refl, inl, inr,
  arith, Text, text_eq, Bool-cases, get_elem?, remove_at, ◌∙◌, ap,
}
use netcheck.Clipboard.{Button, label_of, press, told, restore}

-- At rest, copying, and telling how that ended.
pub data Phase : Type 0 where
  rest copying telling : Phase

-- `dataset.originalLabel` is missing or the label.
abbrev Keeps : Text → Option Text → Type 0
Keeps label original = (original ≡ none) ⊎ (original ≡ some label)

-- The button is in this state: at rest it is enabled and has its label, and nothing waits; in the two
-- other states it is disabled, and one call with this label waits.
pub data IsIn (label : Text) : Phase → Button → Type 0 where
  at_rest :
      (b : Button)
      → (b.text ≡ label) × (b.disabled ≡ false) × (b.copying ≡ []) × (b.timers ≡ [])
      → Keeps label b.original
      → IsIn label rest b
  in_copying :
      (b : Button)
      → (b.original ≡ some label) × (b.disabled ≡ true) × (b.copying ≡ label ∷ []) × (b.timers ≡ [])
      → IsIn label copying b
  in_telling :
      (b : Button)
      → (b.original ≡ some label) × (b.disabled ≡ true) × (b.copying ≡ []) × (b.timers ≡ label ∷ [])
      → IsIn label telling b

-- The user presses the button, if it is enabled; a call to copyText ends; a timer goes off.
pub data Step : Button → Button → Type 0 where
  presses : (b : Button) → b.disabled ≡ false → Step b (press b)
  tells : (n : ℕ) (copied : Bool) (b : Button) → Step b (told n copied b)
  restores : (n : ℕ) (b : Button) → Step b (restore n b)

pub data Reach (b : Button) : Button → Type 0 where
  here : Reach b b
  next : {c d : Button} → Reach b c → Step c d → Reach b d

label_of-lem :
    (label : Text) (b : Button) → b.text ≡ label → Keeps label b.original → label_of b ≡ label
unfolding label_of
label_of-lem label b h (inl e) = rw (e, label_of) h
label_of-lem label b h (inr e) = elim (Bool-cases (text_eq label [])) [
  | inl empty ↦ rw (e, empty, label_of) h
  | inr filled ↦ rw (e, filled, label_of) refl
]

press-IsIn :
    (label : Text) (b : Button)
    → b.disabled ≡ false
    → (phase : Phase) × IsIn label phase b
    → (phase : Phase) × IsIn label phase (press b)
unfolding press
press-IsIn label b on (_, at_rest _ (text, _, copies, timers) keeps) =
    let same = label_of-lem label b text keeps in
    (
      copying,
      in_copying (press b) (
        ap some same,
        refl,
        ap (λ l. l ++ (label_of b ∷ [])) copies ∙ ap (λ x. x ∷ []) same,
        timers,
      ),
    )
press-IsIn label b on (_, in_copying _ (_, off, _, _)) = absurd (ground (arith, on, off))
press-IsIn label b on (_, in_telling _ (_, off, _, _)) = absurd (ground (arith, on, off))

told-none :
    (n : ℕ) (copied : Bool) (b : Button) → get_elem? b.copying n ≡ none → told n copied b ≡ b
unfolding told
told-none n copied b h = rw (h, told) refl

restore-none : (n : ℕ) (b : Button) → get_elem? b.timers n ≡ none → restore n b ≡ b
unfolding restore
restore-none n b h = rw (h, restore) refl

told-IsIn :
    (label : Text) (n : ℕ) (copied : Bool) (b : Button)
    → (phase : Phase) × IsIn label phase b
    → (phase : Phase) × IsIn label phase (told n copied b)
unfolding told
told-IsIn label n copied b (_, at_rest _ facts keeps) =
    (rest, rw (told-none n copied b (ap (λ l. get_elem? l n) facts.2)) (at_rest b facts keeps))
told-IsIn label zero copied b (_, in_copying _ (kept, off, copies, timers)) = (
  telling,
  rw (ap (λ l. get_elem? l 0) copies, told)
      (in_telling _ (kept, off, ap (remove_at 0) copies, ap (λ l. l ++ (label ∷ [])) timers)),
)
told-IsIn label (suc n) copied b (_, in_copying _ facts) = (
  copying,
  rw (told-none (suc n) copied b (ap (λ l. get_elem? l (suc n)) facts.2)) (in_copying b facts),
)
told-IsIn label n copied b (_, in_telling _ facts) =
    (telling, rw (told-none n copied b (ap (λ l. get_elem? l n) facts.2)) (in_telling b facts))

restore-IsIn :
    (label : Text) (n : ℕ) (b : Button)
    → (phase : Phase) × IsIn label phase b
    → (phase : Phase) × IsIn label phase (restore n b)
unfolding restore
restore-IsIn label n b (_, at_rest _ facts keeps) =
    (rest, rw (restore-none n b (ap (λ l. get_elem? l n) facts.3)) (at_rest b facts keeps))
restore-IsIn label n b (_, in_copying _ facts) =
    (copying, rw (restore-none n b (ap (λ l. get_elem? l n) facts.3)) (in_copying b facts))
restore-IsIn label zero b (_, in_telling _ (kept, off, copies, timers)) = (
  rest,
  rw (ap (λ l. get_elem? l 0) timers, restore)
      (at_rest _ (refl, refl, copies, ap (remove_at 0) timers) (inr kept)),
)
restore-IsIn label (suc n) b (_, in_telling _ facts) = (
  telling,
  rw (restore-none (suc n) b (ap (λ l. get_elem? l (suc n)) facts.3)) (in_telling b facts),
)

Step-IsIn :
    (label : Text) {b b' : Button}
    → Step b b'
    → (phase : Phase) × IsIn label phase b
    → (phase : Phase) × IsIn label phase b'
Step-IsIn label (presses b on) h = press-IsIn label b on h
Step-IsIn label (tells n copied b) h = told-IsIn label n copied b h
Step-IsIn label (restores n b) h = restore-IsIn label n b h

-- However often the button is pressed, however copying ends and whenever the timers go off: a button
-- that starts at rest with a label is at rest with that label, or is disabled while one call of its
-- own, which holds this label to put back, copies or waits for its timer.
pub Reach-IsIn :
    (label : Text) {b b' : Button}
    → IsIn label rest b
    → Reach b b'
    → (phase : Phase) × IsIn label phase b'
Reach-IsIn label h here = (rest, h)
Reach-IsIn label h (next r step) = Step-IsIn label step (Reach-IsIn label h r)
