-- ===== src/Diag/Pattern/Sound.antt =====
-- What the matcher of the patterns answers.
use netcheck.Common.{
  Bool, true, false, ◌&&◌, Option, none, some, List, [], ◌∷◌, ◌++◌, String, ◌≡◌, refl, sym, ap, ◌∙◌,
  ◌⊎◌, inl, inr, Text, codes, ◌==◌, if◌then◌else◌, arith, Option-cases, and-true, ==_iff,
}
use mathlib.Core.Path.{subst}
use netcheck.Diag.Pattern.{
  Group, lit, group, Pattern, Found, strip, longer, first_of_two, match_run, match_group,
  keep_group, match,
}
use netcheck.Diag.Pattern.Reading.{Fits, run, signed, Reads, done, text, field}
use netcheck.Diag.Pattern.Runs.{strip_sound, longer_sound, RunFits-IsRun, match_run_sound}

signed-cases :
    (b : Bool) (a p : Found) {f : Text × List Text}
    → (if b then first_of_two a p else p) ≡ some f
    → ((b ≡ true) × (a ≡ some f)) ⊎ (p ≡ some f)
unfolding first_of_two
signed-cases true none p e = inr e
signed-cases true (some g) p e = inl (refl, e)
signed-cases false a p e = inr e

match_group_sound :
    (behind : Text → Option (List Text)) (g : Group) (s x : Text) (gs : List Text)
    → match_group behind g s ≡ some (x, gs)
    → (r : Text) × (s ≡ x ++ r) × (behind r ≡ some gs) × Fits g x
unfolding match_group
match_group_sound behind g [] x gs e =
    let (r, split, later, fits) = match_run_sound behind g g.least [] x gs e in
    (r, split, later, run (RunFits-IsRun g g.least x fits))
match_group_sound behind g (c ∷ s) x gs e =
    elim (signed-cases (g.minus && c == b'-') (longer c (match_run behind g g.least s))
      (match_run behind g g.least (c ∷ s)) e) [
        | inl (test, taken) ↦
            let (minus, is_minus) = and-true g.minus (c == b'-') test in
            let (y, _, found, same) =
              longer_sound true c (match_run behind g g.least s) x gs taken in
            let (r, split, later, fits) = match_run_sound behind g g.least s y gs found in
            let sign : c ≡ b'-' = (==_iff c b'-').0 is_minus in
            let whole : b'-' ∷ y ≡ x = rw same (ap (λ d. d ∷ y) (sym sign)) in
            (
              r,
              rw (same, split),
              later,
              subst (Fits g) whole (signed minus (RunFits-IsRun g g.least y fits)),
            )
        | inr plain ↦
            let (r, split, later, fits) = match_run_sound behind g g.least (c ∷ s) x gs plain in
            (r, split, later, run (RunFits-IsRun g g.least x fits))
      ]

keep_group_sound :
    (f : Found) (gs : List Text)
    → keep_group f ≡ some gs
    → (x : Text) × (hs : List Text) × (f ≡ some (x, hs)) × (gs ≡ x ∷ hs)
unfolding keep_group
keep_group_sound none gs e = cc
keep_group_sound (some (x, hs)) gs e = (x, hs, refl, ground arith)

-- The two recursive clauses of `match`.
match-lit :
    (l : String) (p : Pattern) (s r : Text)
    → strip (codes l) s ≡ some r
    → match (lit l ∷ p) s ≡ match p r
unfolding match
match-lit l p s r e = rw (e, match)

match-lit_none :
    (l : String) (p : Pattern) (s : Text) → strip (codes l) s ≡ none → match (lit l ∷ p) s ≡ none
unfolding match
match-lit_none l p s e = rw (e, match)

match-group :
    (g : Group) (p : Pattern) (s : Text)
    → match (group g ∷ p) s ≡ keep_group (match_group (match p) g s)
unfolding match
match-group g p s = refl

match-nil : (s : Text) (gs : List Text) → match [] s ≡ some gs → Reads [] s gs
unfolding match
match-nil [] [] e = done
match-nil [] (g ∷ gs) e = cc
match-nil (c ∷ s) gs e = cc

-- What the matcher answers is a reading of the text.
pub match_sound : (p : Pattern) (s : Text) (gs : List Text) → match p s ≡ some gs → Reads p s gs
match_sound [] s gs e = match-nil s gs e
match_sound (lit l ∷ p) s gs e = elim (Option-cases (strip (codes l) s)) [
  | inl miss ↦ cc (match-lit_none l p s miss)
  | inr (r, hit) ↦
      text (strip_sound (codes l) s r hit) (match_sound p r gs (sym (match-lit l p s r hit) ∙ e))
]
match_sound (group g ∷ p) s gs e =
    let (x, hs, found, same) =
      keep_group_sound (match_group (match p) g s) gs (sym (match-group g p s) ∙ e) in
    let (r, split, later, fits) = match_group_sound (match p) g s x hs found in
    subst (Reads (group g ∷ p) s) (sym same) (field split fits (match_sound p r hs later))
