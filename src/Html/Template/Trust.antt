-- ===== src/Html/Template/Trust.antt =====
-- Which interpolations a template puts in with no `esc`, by their names.
use netcheck.Common.{Bool, true, false, ◌&&◌, ◌||◌, ◌≡◌, List, String, codes, text_eq, and-true}
use netcheck.Html.Escape.{IsInert}
use netcheck.Html.Template.{
  Piece, lit, esc_of, esc_take, raw, choice, each, each_or, part, Template, Scope, scope, Scopes,
  value, elements,
}
use netcheck.Html.Template.Outline.{AllScopes, IsTame, IsTamePiece}

abbrev pub is_among : List String → String → Bool
is_among List.[] name = false
is_among (List.◌∷◌ n names) name = text_eq (codes name) (codes n) || is_among names name

-- A template puts nothing in with no `esc` but interpolations of these names.
unfoldable mutual
  pub raws_among_piece : List String → Piece → Bool
  raws_among_piece names (lit s) = true
  raws_among_piece names (esc_of name) = true
  raws_among_piece names (esc_take n name) = true
  raws_among_piece names (raw name) = is_among names name
  raws_among_piece names (choice name a b) = raws_among names a && raws_among names b
  raws_among_piece names (each name body) = raws_among names body
  raws_among_piece names (each_or name body empty) = raws_among names body && raws_among names empty
  raws_among_piece names (part p) = raws_among names p

  pub raws_among : List String → Template → Bool
  raws_among names Template.[] = true
  raws_among names (Template.◌∷◌ p ps) = raws_among_piece names p && raws_among names ps

-- In a scope and in the scopes of its elements, the values of these names hold no mark; nothing is
-- said of the values of other names.
unfoldable mutual
  pub IsClean : List String → Scope → Type 0
  IsClean names (scope values tests lists) =
      ((name : String) → is_among names name ≡ true → IsInert (values name))
      × ((name : String) → AreClean names (lists name))

  pub AreClean : List String → Scopes → Type 0
  AreClean names Scopes.none = Unit
  AreClean names (Scopes.more e es) = IsClean names e × AreClean names es

value-IsInert :
    (names : List String) (e : Scope) (name : String)
    → IsClean names e
    → is_among names name ≡ true
    → IsInert (value e name)
unfolding IsClean
value-IsInert names (scope values tests lists) name (here, inside) h = here name h

elements-AreClean :
    (names : List String) (e : Scope) (name : String)
    → IsClean names e
    → AreClean names (elements e name)
unfolding IsClean
elements-AreClean names (scope values tests lists) name (here, inside) = inside name

AreClean-AllScopes :
    (names : List String) (P : Scope → Type 0)
    → ((e : Scope) → IsClean names e → P e)
    → (es : Scopes) → AreClean names es
    → AllScopes P es
unfolding IsClean
AreClean-AllScopes names P f Scopes.none c = tt
AreClean-AllScopes names P f (Scopes.more e es) (c, cs) =
    (f e c, AreClean-AllScopes names P f es cs)

mutual
  unfolding IsTame raws_among

  IsClean-IsTamePiece :
      (names : List String) (p : Piece) (e : Scope)
      → IsClean names e
      → raws_among_piece names p ≡ true
      → IsTamePiece e p
  IsClean-IsTamePiece names (lit s) e c h = tt
  IsClean-IsTamePiece names (esc_of name) e c h = tt
  IsClean-IsTamePiece names (esc_take n name) e c h = tt
  IsClean-IsTamePiece names (raw name) e c h = value-IsInert names e name c h
  IsClean-IsTamePiece names (choice name a b) e c h =
      let (ha, hb) = and-true (raws_among names a) (raws_among names b) h in
      (IsClean-IsTame names a e c ha, IsClean-IsTame names b e c hb)
  IsClean-IsTamePiece names (each name body) e c h =
      AreClean-AllScopes names (λ e'. IsTame e' body) (λ e' c'. IsClean-IsTame names body e' c' h)
        (elements e name) (elements-AreClean names e name c)
  IsClean-IsTamePiece names (each_or name body empty) e c h =
      let (hb, he) = and-true (raws_among names body) (raws_among names empty) h in
      (
        AreClean-AllScopes names (λ e'. IsTame e' body)
            (λ e' c'. IsClean-IsTame names body e' c' hb) (elements e name)
            (elements-AreClean names e name c),
        IsClean-IsTame names empty e c he,
      )
  IsClean-IsTamePiece names (part p) e c h = IsClean-IsTame names p e c h

  -- A template that puts in only values of these names with no `esc` is tame where they are clean.
  pub IsClean-IsTame :
      (names : List String) (t : Template) (e : Scope)
      → IsClean names e
      → raws_among names t ≡ true
      → IsTame e t
  IsClean-IsTame names Template.[] e c h = tt
  IsClean-IsTame names (Template.◌∷◌ p ps) e c h =
      let (first, later) = and-true (raws_among_piece names p) (raws_among names ps) h in
      (IsClean-IsTamePiece names p e c first, IsClean-IsTame names ps e c later)
