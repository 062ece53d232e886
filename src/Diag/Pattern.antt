-- ===== src/Diag/Pattern.antt =====
-- The regular expressions of webui/assets/app.js that read diagnosis texts: anchored at both ends,
-- a row of literals and of groups that each repeat one class of characters. Matching is greedy with
-- backtracking, as JavaScript does it, and the answer is the row of the groups' texts.
pub mod Reading
mod Runs
pub mod Sound
use netcheck.Common.{
  ℕ, zero, suc, ◌-◌, Bool, true, false, not, ◌&&◌, ◌||◌, Option, none, some, List, [], ◌∷◌, String,
  Text, codes, is_space, is_digit, ◌==◌, if◌then◌else◌,
}

-- `-?` in front or not, the class, the least number of its characters, and whether that is also the
-- greatest.
pub record Group : Type 0 where
  pub minus : Bool
  pub class : ℕ → Bool
  pub least : ℕ
  pub exact : Bool

pub data Token : Type 0 where
  lit : String → Token
  group : Group → Token

abbrev pub Pattern : Type 0
Pattern = List Token

-- What `.` matches: anything but the line terminators.
abbrev pub not_newline : ℕ → Bool
not_newline c = not (c == 10 || c == 13 || c == 8232 || c == 8233)

abbrev pub plain_group : (ℕ → Bool) → ℕ → Token
plain_group class least =
    group (record { minus = false; class = class; least = least; exact = false })

-- `(\d+)`, `(\S+)`, `(.+)`, `(.*)`, `([\d.]+)`, `([-\d.]+)`, `(-?\d+)`, `(\d{3})`
abbrev pub number : Token
number = plain_group is_digit 1

abbrev pub word : Token
word = plain_group (λ c. not (is_space c)) 1

abbrev pub line : Token
line = plain_group not_newline 1

abbrev pub rest : Token
rest = plain_group not_newline 0

abbrev pub decimal_number : Token
decimal_number = plain_group (λ c. is_digit c || c == b'.') 1

abbrev pub signed_decimal : Token
signed_decimal = plain_group (λ c. c == b'-' || (is_digit c || c == b'.')) 1

abbrev pub integer : Token
integer = group (record { minus = true; class = is_digit; least = 1; exact = false })

abbrev pub three_digits : Token
three_digits = group (record { minus = false; class = is_digit; least = 3; exact = true })

-- What stands behind a literal.
unfoldable pub strip : Text → Text → Option Text
strip [] s = some s
strip (a ∷ t) [] = none
strip (a ∷ t) (c ∷ s) = let more = strip t s in if a == c then more else none

-- The text of a group, and what the tokens behind it captured.
abbrev Found : Type 0
Found = Option (Text × List Text)

pub longer : ℕ → Found → Found
longer c none = none
longer c (some (g, gs)) = some (c ∷ g, gs)

stop : Option (List Text) → Found
stop none = none
stop (some gs) = some ([], gs)

pub first_of_two : Found → Found → Found
first_of_two (some f) later = some f
first_of_two none later = later

-- May the group take one more character, and may it end?
pub may_take : Group → ℕ → ℕ → Bool
may_take g zero c = not g.exact && g.class c
may_take g (suc least) c = g.class c

pub may_stop : ℕ → Bool
may_stop zero = true
may_stop (suc least) = false

-- The longest run first, then shorter ones; `behind` matches the tokens behind the group, and
-- `least` characters are still wanted.
unfoldable pub match_run : (Text → Option (List Text)) → Group → ℕ → Text → Found
unfolding longer stop first_of_two may_take may_stop
match_run behind g least [] = if may_stop least then stop (behind []) else none
match_run behind g least (c ∷ s) =
    let more = longer c (match_run behind g (least - 1) s) in
    let here = if may_stop least then stop (behind (c ∷ s)) else none in
    first_of_two (if may_take g least c then more else none) here

match_group : (Text → Option (List Text)) → Group → Text → Found
match_group behind g [] = match_run behind g g.least []
match_group behind g (c ∷ s) =
    let signed = longer c (match_run behind g g.least s) in
    let plain = match_run behind g g.least (c ∷ s) in
    if g.minus && c == b'-' then first_of_two signed plain else plain

keep_group : Found → Option (List Text)
keep_group none = none
keep_group (some (g, gs)) = some (g ∷ gs)

unfoldable pub match : Pattern → Text → Option (List Text)
unfolding strip match_run match_group keep_group
match [] [] = some []
match [] (c ∷ s) = none
match (lit t ∷ p) s = elim (strip (codes t) s) [ none ↦ none | some later ↦ match p later ]
match (group g ∷ p) s = keep_group (match_group (match p) g s)
