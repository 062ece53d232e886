-- ===== src/Diag/Pattern/Runs.antt =====
-- The greedy run of one group, and the literal in front of a text.
use netcheck.Common.{
  ℕ, zero, suc, ◌-◌, ◌≤◌, Bool, true, false, not, Option, none, some, List, [], ◌∷◌, ◌++◌, ◌≡◌,
  refl, ap, ◌⊎◌, inl, inr, Text, length, All, if◌then◌else◌, arith, and-true,
}
use mathlib.Core.Path.{subst}
use netcheck.Diag.Pattern.{
  Group, Found, strip, longer, stop, first_of_two, may_take, may_stop, match_run,
}

pub strip_sound : (l s r : Text) → strip l s ≡ some r → s ≡ l ++ r
unfolding strip
strip_sound [] s r e = ground arith
strip_sound (a ∷ l) [] r e = cc
strip_sound (a ∷ l) (c ∷ s) r e = ground (arith, strip_sound l s r)

-- The run as the loop sees it, with the number still wanted.
abbrev pub RunFits : Group → ℕ → Text → Type 0
RunFits g least [] = may_stop least ≡ true
RunFits g least (c ∷ x) = (may_take g least c ≡ true) × RunFits g (least - 1) x

pub first_of_two-cases :
    (a b : Found) {f : Text × List Text} → first_of_two a b ≡ some f → (a ≡ some f) ⊎ (b ≡ some f)
unfolding first_of_two
first_of_two-cases none b e = inr e
first_of_two-cases (some g) b e = inl e

stop_sound :
    (b : Bool) (o : Option (List Text)) (x : Text) (gs : List Text)
    → (if b then stop o else none) ≡ some (x, gs)
    → (b ≡ true) × (o ≡ some gs) × (x ≡ [])
unfolding stop
stop_sound true none x gs e = cc
stop_sound true (some hs) x gs e = ground arith
stop_sound false o x gs e = cc

pub longer_sound :
    (b : Bool) (c : ℕ) (f : Found) (x : Text) (gs : List Text)
    → (if b then longer c f else none) ≡ some (x, gs)
    → (y : Text) × (b ≡ true) × (f ≡ some (y, gs)) × (x ≡ c ∷ y)
unfolding longer
longer_sound true c none x gs e = cc
longer_sound true c (some (y, hs)) x gs e = (y, refl, ground arith, ground arith)
longer_sound false c f x gs e = cc

module _ (behind : Text → Option (List Text)) (g : Group) where
  stop-RunFits :
      (least : ℕ) (s x : Text) (gs : List Text)
      → (if may_stop least then stop (behind s) else none) ≡ some (x, gs)
      → (r : Text) × (s ≡ x ++ r) × (behind r ≡ some gs) × RunFits g least x
  stop-RunFits least s x gs e =
      let (may, found, empty) = stop_sound (may_stop least) (behind s) x gs e in
      (s, rw empty, found, rw empty may)

  pub match_run_sound :
      (least : ℕ) (s x : Text) (gs : List Text)
      → match_run behind g least s ≡ some (x, gs)
      → (r : Text) × (s ≡ x ++ r) × (behind r ≡ some gs) × RunFits g least x
  unfolding match_run
  match_run_sound least [] x gs e = stop-RunFits least [] x gs e
  match_run_sound least (c ∷ s) x gs e =
      elim (first_of_two-cases
        (if may_take g least c then longer c (match_run behind g (least - 1) s) else none)
        (if may_stop least then stop (behind (c ∷ s)) else none) e) [
          | inl taken ↦
              let (y, may, found, same) =
                longer_sound (may_take g least c) c (match_run behind g (least - 1) s) x gs taken in
              let (r, split, later, fits) = match_run_sound (least - 1) s y gs found in
              (r, rw (same, split), later, rw same (may, fits))
          | inr stopped ↦ stop-RunFits least (c ∷ s) x gs stopped
        ]

-- The two readings of a run.
pub RunFits-IsRun :
    (g : Group) (least : ℕ) (x : Text)
    → RunFits g least x
    → All (λ c. g.class c ≡ true) x × (least ≤ length x) × (g.exact ≡ true → length x ≡ least)
unfolding may_take may_stop
RunFits-IsRun g zero [] h = (tt, omega arith, λ _. refl)
RunFits-IsRun g (suc least) [] h = cc
RunFits-IsRun g zero (c ∷ x) (h, hs) =
    let (free, fits) = and-true (not g.exact) (g.class c) h in
    let (class, long, exact) = RunFits-IsRun g zero x hs in
    ((fits, class), omega arith, λ e. ground arith)
RunFits-IsRun g (suc least) (c ∷ x) (h, hs) =
    let (class, long, exact) =
      RunFits-IsRun g least x
        (let down : suc least - 1 ≡ least = omega arith in subst (λ n. RunFits g n x) down hs) in
    ((h, class), omega arith, λ e. ap suc (exact e))
