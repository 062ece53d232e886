-- ===== src/Html/Template/Sound.antt =====
-- A template that fits its context gives its outline.
use netcheck.Common.{
  Bool, true, false, ◌&&◌, List, ◌++◌, ◌≡◌, refl, ◌∙◌, String, Text, codes, if◌then◌else◌, and-true,
  subst, take, ℕ, zero, suc, [], ◌∷◌,
}
use netcheck.Html.{esc}
use netcheck.Html.Escape.{IsInert, esc-IsInert}
use netcheck.Html.Template.{
  Piece, lit, esc_of, esc_take, raw, choice, each, each_or, part, Template, Scope, scope, Scopes,
  value, test, elements, join_with, join_or, render, render_piece,
}
use netcheck.Html.Template.Context.{
  Context, in_text, run, structure, run-append, structure-append, run-inert, holds_values, same,
  eq_of_same,
}
use netcheck.Html.Template.Outline.{
  Shape, shape_of, shapes_of, after, after_piece, fits, fits_piece, outline, outline_piece,
  join_outlines, shape_test, shape_elements, AllScopes, IsTame, IsTamePiece,
}

-- A text has this structure, and leads from one context to another.
Gives : Context → Text → Text → Context → Type 0
Gives x s o y = (structure x s ≡ o) × (run x s ≡ y)

Gives-append :
    (x y z : Context) (s t o r : Text) → Gives x s o y → Gives y t r z → Gives x (s ++ t) (o ++ r) z
unfolding Gives
Gives-append x y z s t o r (a, b) (c, d) =
    (structure-append x s t ∙ rw (a, b, c) refl, run-append x s t ∙ rw (b, d) refl)

Gives-inert : (x : Context) (s : Text) → holds_values x ≡ true → IsInert s → Gives x s List.[] x
unfolding Gives
Gives-inert x s h k = let (stays, empty) = run-inert x s h k in (empty, stays)

take-IsInert : (n : ℕ) (s : Text) → IsInert s → IsInert (take n s)
take-IsInert zero s h = tt
take-IsInert (suc n) [] h = tt
take-IsInert (suc n) (c ∷ s) (h, hs) = (h, take-IsInert n s hs)

Gives-nil : (x : Context) → Gives x List.[] List.[] x
unfolding Gives structure run
Gives-nil x = (refl, refl)

-- What is repeated, given that each element gives its outline and ends where it starts.
Gives-join :
    (x : Context) (P : Scope → Type 0) (f : Scope → Text) (g : Shape → Text)
    → ((e : Scope) → P e → Gives x (f e) (g (shape_of e)) x)
    → (es : Scopes) → AllScopes P es
    → Gives x (join_with f es) (join_outlines g List.[] (shapes_of es)) x
unfolding shape_of
Gives-join x P f g each_gives Scopes.none h = Gives-nil x
Gives-join x P f g each_gives (Scopes.more e es) (h, hs) =
    Gives-append x x x (f e) (join_with f es) (g (shape_of e))
      (join_outlines g List.[] (shapes_of es)) (each_gives e h)
      (Gives-join x P f g each_gives es hs)

Gives-join_or :
    (x : Context) (P : Scope → Type 0) (f : Scope → Text) (g : Shape → Text) (s o : Text)
    → ((e : Scope) → P e → Gives x (f e) (g (shape_of e)) x)
    → Gives x s o x
    → (es : Scopes) → AllScopes P es
    → Gives x (join_or f s es) (join_outlines g o (shapes_of es)) x
unfolding shape_of
Gives-join_or x P f g s o each_gives h Scopes.none k = h
Gives-join_or x P f g s o each_gives h (Scopes.more e es) k =
    Gives-join x P f g each_gives (Scopes.more e es) k

Gives-choice :
    (x y : Context) (b : Bool) (s t o r : Text)
    → Gives x s o y
    → Gives x t r y
    → Gives x (if b then s else t) (if b then o else r) y
Gives-choice x y true s t o r h k = h
Gives-choice x y false s t o r h k = k

test-shape_of : (e : Scope) (name : String) → shape_test (shape_of e) name ≡ test e name
unfolding shape_of
test-shape_of (scope values tests lists) name = refl

elements-shape_of :
    (e : Scope) (name : String) → shape_elements (shape_of e) name ≡ shapes_of (elements e name)
unfolding shape_of
elements-shape_of (scope values tests lists) name = refl

Gives-self : (x : Context) (s : Text) → Gives x s (structure x s) (run x s)
unfolding Gives
Gives-self x s = (refl, refl)

Gives-to : (x y z : Context) (s o : Text) → same y z ≡ true → Gives x s o y → Gives x s o z
Gives-to x y z s o h = subst (Gives x s o) (eq_of_same y z h)

mutual
  unfolding render fits outline after IsTame

  Gives-piece :
      (p : Piece) (x : Context) (e : Scope)
      → fits_piece x p ≡ true
      → IsTamePiece e p
      → Gives x (render_piece e p) (outline_piece (shape_of e) x p) (after_piece x p)
  Gives-piece (lit s) x e h k = Gives-self x (codes s)
  Gives-piece (esc_of name) x e h k =
      Gives-inert x (esc (value e name)) h (esc-IsInert (value e name))
  Gives-piece (esc_take n name) x e h k =
      Gives-inert x (take n (esc (value e name))) h
        (take-IsInert n (esc (value e name)) (esc-IsInert (value e name)))
  Gives-piece (raw name) x e h k = Gives-inert x (value e name) h k
  Gives-piece (choice name a b) x e h (ka, kb) =
      let (fit, agree) = and-true (fits x a && fits x b) (same (after x b) (after x a)) h in
      let (fit_a, fit_b) = and-true (fits x a) (fits x b) fit in
      rw (test-shape_of e name) (
        Gives-choice x (after x a) (test e name) (render e a) (render e b)
          (outline (shape_of e) x a) (outline (shape_of e) x b) (gives a x e fit_a ka)
          (Gives-to x (after x b) (after x a) (render e b) (outline (shape_of e) x b) agree
            (gives b x e fit_b kb)))
  Gives-piece (each name body) x e h k =
      let (fit, back) = and-true (fits x body) (same (after x body) x) h in
      rw (elements-shape_of e name) (
        Gives-join x (λ e'. IsTame e' body) (λ e'. render e' body) (λ e'. outline e' x body)
          (λ e' k.
            Gives-to x (after x body) x (render e' body) (outline (shape_of e') x body) back
              (gives body x e' fit k))
          (elements e name) k)
  Gives-piece (each_or name body empty) x e h (k, k') =
      let (body_fit, empty_fit) =
        and-true (fits x body && same (after x body) x) (fits x empty && same (after x empty) x)
          h in
      let (fit, back) = and-true (fits x body) (same (after x body) x) body_fit in
      let (fit', back') = and-true (fits x empty) (same (after x empty) x) empty_fit in
      rw (elements-shape_of e name) (
        Gives-join_or x (λ e'. IsTame e' body) (λ e'. render e' body) (λ e'. outline e' x body)
          (render e empty) (outline (shape_of e) x empty)
          (λ e' k.
            Gives-to x (after x body) x (render e' body) (outline (shape_of e') x body) back
              (gives body x e' fit k))
          (Gives-to x (after x empty) x (render e empty) (outline (shape_of e) x empty) back'
            (gives empty x e fit' k'))
          (elements e name) k)
  Gives-piece (part p) x e h k = gives p x e h k

  gives :
      (t : Template) (x : Context) (e : Scope)
      → fits x t ≡ true
      → IsTame e t
      → Gives x (render e t) (outline (shape_of e) x t) (after x t)
  gives Template.[] x e h k = Gives-nil x
  gives (Template.◌∷◌ p ps) x e h (k, ks) =
      let (fit, fit_rest) = and-true (fits_piece x p) (fits (after_piece x p) ps) h in
      Gives-append x (after_piece x p) (after (after_piece x p) ps) (render_piece e p) (render e ps)
        (outline_piece (shape_of e) x p) (outline (shape_of e) (after_piece x p) ps)
        (Gives-piece p x e fit k) (gives ps (after_piece x p) e fit_rest ks)

-- A template that fits a text: what it renders has the outline of its shape, whatever its values are,
-- and ends outside of every tag, if the values put in with no `esc` hold no mark.
pub structure-render :
    (t : Template) (e : Scope)
    → fits in_text t && same (after in_text t) in_text ≡ true
    → IsTame e t
    → (structure in_text (render e t) ≡ outline (shape_of e) in_text t)
      × (run in_text (render e t) ≡ in_text)
unfolding Gives
structure-render t e h k =
    let (fit, back) = and-true (fits in_text t) (same (after in_text t) in_text) h in
    Gives-to in_text (after in_text t) in_text (render e t) (outline (shape_of e) in_text t) back
      (gives t in_text e fit k)
