-- ===== src/Html/Template/Outline.antt =====
-- The outline of a template is what its structure is whatever its values are. A template that fits
-- its context gives its outline.
use netcheck.Common.{Bool, true, ◌&&◌, List, ◌++◌, String, Text, codes, if◌then◌else◌}
use netcheck.Html.Escape.{IsInert}
use netcheck.Html.Template.{
  Piece, lit, esc_of, esc_take, raw, choice, each, each_or, part, Template, Scope, scope, Scopes,
  value, elements,
}
use netcheck.Html.Template.Context.{Context, run, structure, holds_values, same}

-- The outcomes of the tests and the numbers of the elements: a scope without its values.
mutual
  pub data Shape : Type 0 where
    shape : (String → Bool) → (String → Shapes) → Shape

  pub data Shapes : Type 0 where
    none : Shapes
    more : Shape → Shapes → Shapes

unfoldable mutual
  pub shape_of : Scope → Shape
  shape_of (scope values tests lists) = shape tests (λ name. shapes_of (lists name))

  pub shapes_of : Scopes → Shapes
  shapes_of Scopes.none = Shapes.none
  shapes_of (Scopes.more e es) = Shapes.more (shape_of e) (shapes_of es)

-- The context behind a template, whose branches agree on it.
unfoldable mutual
  unfolding run

  pub after_piece : Context → Piece → Context
  after_piece x (lit s) = run x (codes s)
  after_piece x (choice name a b) = after x a
  after_piece x (part p) = after x p
  after_piece x _ = x

  pub after : Context → Template → Context
  after x Template.[] = x
  after x (Template.◌∷◌ p ps) = after (after_piece x p) ps

-- Values stand in texts and in quoted attribute values only, branches end in one context, and what is
-- repeated ends where it starts.
unfoldable mutual
  unfolding after holds_values same

  pub fits_piece : Context → Piece → Bool
  fits_piece x (lit s) = true
  fits_piece x (esc_of name) = holds_values x
  fits_piece x (esc_take n name) = holds_values x
  fits_piece x (raw name) = holds_values x
  fits_piece x (choice name a b) = (fits x a && fits x b) && same (after x b) (after x a)
  fits_piece x (each name body) = fits x body && same (after x body) x
  fits_piece x (each_or name body empty) =
      (fits x body && same (after x body) x) && (fits x empty && same (after x empty) x)
  fits_piece x (part p) = fits x p

  pub fits : Context → Template → Bool
  fits x Template.[] = true
  fits x (Template.◌∷◌ p ps) = fits_piece x p && fits (after_piece x p) ps

abbrev pub shape_test : Shape → String → Bool
shape_test (shape tests lists) = tests

abbrev pub shape_elements : Shape → String → Shapes
shape_elements (shape tests lists) = lists

abbrev pub join_outlines : (Shape → Text) → Text → Shapes → Text
join_outlines f empty Shapes.none = empty
join_outlines f empty (Shapes.more e es) = f e ++ join_outlines f List.[] es

unfoldable mutual
  unfolding structure after

  pub outline_piece : Shape → Context → Piece → Text
  outline_piece e x (lit s) = structure x (codes s)
  outline_piece e x (esc_of name) = List.[]
  outline_piece e x (esc_take n name) = List.[]
  outline_piece e x (raw name) = List.[]
  outline_piece e x (choice name a b) = if shape_test e name then outline e x a else outline e x b
  outline_piece e x (each name body) =
      join_outlines (λ e'. outline e' x body) List.[] (shape_elements e name)
  outline_piece e x (each_or name body empty) =
      join_outlines (λ e'. outline e' x body) (outline e x empty) (shape_elements e name)
  outline_piece e x (part p) = outline e x p

  pub outline : Shape → Context → Template → Text
  outline e x Template.[] = List.[]
  outline e x (Template.◌∷◌ p ps) = outline_piece e x p ++ outline e (after_piece x p) ps

abbrev pub AllScopes : (Scope → Type 0) → Scopes → Type 0
AllScopes P Scopes.none = Unit
AllScopes P (Scopes.more e es) = P e × AllScopes P es

-- The values that are put in with no `esc` hold no mark.
unfoldable mutual
  pub IsTamePiece : Scope → Piece → Type 0
  IsTamePiece e (lit s) = Unit
  IsTamePiece e (esc_of name) = Unit
  IsTamePiece e (esc_take n name) = Unit
  IsTamePiece e (raw name) = IsInert (value e name)
  IsTamePiece e (choice name a b) = IsTame e a × IsTame e b
  IsTamePiece e (each name body) = AllScopes (λ e'. IsTame e' body) (elements e name)
  IsTamePiece e (each_or name body empty) =
      AllScopes (λ e'. IsTame e' body) (elements e name) × IsTame e empty
  IsTamePiece e (part p) = IsTame e p

  pub IsTame : Scope → Template → Type 0
  IsTame e Template.[] = Unit
  IsTame e (Template.◌∷◌ p ps) = IsTamePiece e p × IsTame e ps
