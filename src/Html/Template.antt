-- ===== src/Html/Template.antt =====
-- The templates of webui/assets/app.js: a text in backquotes with interpolations. An interpolation
-- is named by its expression in the source. What the expressions are worth is the environment's.
pub mod Context
pub mod Outline
pub mod Sound
pub mod Trust
use netcheck.Common.{Bool, String, Text, codes, if◌then◌else◌, ℕ, List, take}
use mathlib.Core.List.{◌++◌}
use netcheck.Html.{esc}

infixr 67 ◌∷◌
mutual
  pub data Piece : Type 0 where
    lit : String → Piece  -- the text between interpolations
    esc_of : String → Piece  -- `${esc(…)}`
    esc_take : ℕ → String → Piece  -- `${esc(…).slice(0, n)}`
    raw : String → Piece  -- `${…}` with no `esc`
    choice : String → Template → Template → Piece  -- `${… ? … : …}`
    each : String → Template → Piece  -- `${….map(… => …).join("")}`
    each_or : String → Template → Template → Piece  -- the same with `|| …` behind it
    part : Template → Piece  -- the call of a function that gives a template

  pub data Template : Type 0 where
    [] : Template
    ◌∷◌ : Piece → Template → Template

-- What the expressions are worth in one scope; `lists` has a scope for each element.
mutual
  pub data Scope : Type 0 where
    scope : (String → Text) → (String → Bool) → (String → Scopes) → Scope

  pub data Scopes : Type 0 where
    none : Scopes
    more : Scope → Scopes → Scopes

abbrev pub value : Scope → String → Text
value (scope values tests lists) = values

abbrev pub test : Scope → String → Bool
test (scope values tests lists) = tests

abbrev pub elements : Scope → String → Scopes
elements (scope values tests lists) = lists

abbrev pub join_with : (Scope → Text) → Scopes → Text
join_with f none = List.[]
join_with f (more e es) = f e ++ join_with f es

abbrev pub join_or : (Scope → Text) → Text → Scopes → Text
join_or f empty none = empty
join_or f empty (more e es) = f e ++ join_with f es

-- The text that a template gives.
unfoldable mutual
  unfolding esc

  pub render_piece : Scope → Piece → Text
  render_piece e (lit s) = codes s
  render_piece e (esc_of name) = esc (value e name)
  render_piece e (esc_take n name) = take n (esc (value e name))
  render_piece e (raw name) = value e name
  render_piece e (choice name a b) = if test e name then render e a else render e b
  render_piece e (each name body) = join_with (λ e'. render e' body) (elements e name)
  render_piece e (each_or name body empty) =
      join_or (λ e'. render e' body) (render e empty) (elements e name)
  render_piece e (part p) = render e p

  pub render : Scope → Template → Text
  render e [] = List.[]
  render e (p ∷ ps) = render_piece e p ++ render e ps
