-- ===== src/Diag/Pattern/Reading.antt =====
-- What a pattern describes, stated without the matcher.
use netcheck.Common.{◌≤◌, true, List, [], ◌∷◌, ◌++◌, String, ◌≡◌, Text, codes, length, All}
use netcheck.Diag.Pattern.{Group, lit, group, Pattern}

-- A run of characters of the group's class, at least as long as it asks for.
abbrev pub IsRun : Group → Text → Type 0
IsRun g x =
    All (λ c. g.class c ≡ true) x × (g.least ≤ length x) × (g.exact ≡ true → length x ≡ g.least)

-- What a group may hold: a run, or a run behind a minus sign where the group allows one.
pub data Fits (g : Group) : Text → Type 0 where
  run : {x : Text} → IsRun g x → Fits g x
  signed : {x : Text} → g.minus ≡ true → IsRun g x → Fits g (b'-' ∷ x)

-- The text `s` reads as the pattern, with the groups' texts in a row.
pub data Reads : Pattern → Text → List Text → Type 0 where
  done : Reads [] [] []
  text :
      {l : String} {p : Pattern} {s r : Text} {gs : List Text}
      → s ≡ codes l ++ r
      → Reads p r gs
      → Reads (lit l ∷ p) s gs
  field :
      {g : Group} {p : Pattern} {s x r : Text} {gs : List Text}
      → s ≡ x ++ r
      → Fits g x
      → Reads p r gs
      → Reads (group g ∷ p) s (x ∷ gs)
