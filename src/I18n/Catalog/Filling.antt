-- ===== src/I18n/Catalog/Filling.antt =====
-- Filling the placeholders one after another is filling them all at once.
use netcheck.Common.{
  ℕ, zero, suc, ◌+◌, ◌-◌, ◌<◌, ◌≤◌, true, false, Option, none, some, List, [], ◌∷◌, ◌++◌, ◌≡◌, refl,
  sym, ap, ◌∙◌, ◌≢◌, Text, starts_with, split, split_from, push_head, join, decimal, length, All,
  ◌==◌, if◌then◌else◌, arith, Bool-cases, inl, inr,
}
use netcheck.I18n.Catalog.{placeholder, replace_all, fill_from}

-- A message read as literal texts and numbered places.
pub data Piece : Type 0 where
  lit : Text → Piece
  hole : ℕ → Piece

abbrev pub show : List Piece → Text
show [] = []
show (lit s ∷ ps) = s ++ show ps
show (hole n ∷ ps) = placeholder n ++ show ps

-- No opening brace.
abbrev pub IsPlain : Text → Type 0
IsPlain = All (λ c. c ≢ b'{')

-- Literals have no opening brace, and places have one digit.
abbrev pub IsTemplate : List Piece → Type 0
IsTemplate [] = Unit
IsTemplate (lit s ∷ ps) = IsPlain s × IsTemplate ps
IsTemplate (hole n ∷ ps) = (n < 10) × IsTemplate ps

-- The value for the place `n`, where the first value is for the place `k`.
abbrev pub value_at : ℕ → List Text → ℕ → Option Text
value_at k [] n = none
value_at k (v ∷ vs) n = if n == k then some v else value_at (k + 1) vs n

abbrev shown : Option Text → ℕ → Text
shown (some v) n = v
shown none n = placeholder n

-- Every place filled at once; one with no value stays.
abbrev pub fill_once : ℕ → List Text → List Piece → Text
fill_once k vs [] = []
fill_once k vs (lit s ∷ ps) = s ++ fill_once k vs ps
fill_once k vs (hole n ∷ ps) = shown (value_at k vs n) n ++ fill_once k vs ps

decimal_digit : (n : ℕ) → n < 10 → decimal n ≡ (b'0' + n) ∷ []
unfolding decimal
decimal_digit n h = ground arith

abbrev Mark : ℕ → Text
Mark n = b'{' ∷ (b'0' + n) ∷ b'}' ∷ []

placeholder_lem : (n : ℕ) → n < 10 → placeholder n ≡ Mark n
placeholder_lem n h = rw (decimal_digit n h)

split_from-cons :
    (sep : Text) (k : ℕ) (s : Text) → (p : Text) × (ps : List Text) × (split_from sep k s ≡ p ∷ ps)
unfolding split_from
split_from-cons sep k [] = ([], [], refl)
split_from-cons sep (suc k) (a ∷ s) = split_from-cons sep k s
split_from-cons sep zero (a ∷ s) =
    let (p, ps, e) = split_from-cons sep zero s in
    elim (Bool-cases (starts_with (a ∷ s) sep)) [
      | inl h ↦ ([], split_from sep (length sep - 1) s, rw h)
      | inr h ↦ (a ∷ p, ps, rw (h, e))
    ]

join-push_head :
    (v : Text) (c : ℕ) (p : Text) (ps : List Text)
    → join v (push_head c (p ∷ ps)) ≡ c ∷ join v (p ∷ ps)
join-push_head v c p [] = refl
join-push_head v c p (q ∷ ps) = refl

-- The two steps of `replace_all`.
replace_all-skip :
    (sep v : Text) (c : ℕ) (s : Text)
    → starts_with (c ∷ s) sep ≡ false
    → replace_all sep v (c ∷ s) ≡ c ∷ replace_all sep v s
unfolding replace_all split
replace_all-skip sep v c s h =
    let (p, ps, e) = split_from-cons sep zero s in rw h (rw e (join-push_head v c p ps))

Mark-starts : (n : ℕ) (s : Text) → starts_with (Mark n ++ s) (Mark n) ≡ true
Mark-starts n s = ground arith

replace_all-mark :
    (n : ℕ) (v s : Text) → replace_all (Mark n) v (Mark n ++ s) ≡ v ++ replace_all (Mark n) v s
unfolding replace_all split
replace_all-mark n v s =
    let (p, ps, e) = split_from-cons (Mark n) zero s in rw (Mark-starts n s) (rw e)

-- A text with no opening brace is passed over.
replace_all-plain :
    (n : ℕ) (v s rest : Text)
    → IsPlain s
    → replace_all (Mark n) v (s ++ rest) ≡ s ++ replace_all (Mark n) v rest
replace_all-plain n v [] rest h = refl
replace_all-plain n v (c ∷ s) rest (h, hs) =
    rw (replace_all-skip (Mark n) v c (s ++ rest) (ground arith))
      (ap (λ x. c ∷ x) (replace_all-plain n v s rest hs))

replace_all-other :
    (n k : ℕ) (v rest : Text)
    → n ≢ k
    → k < 10
    → replace_all (Mark n) v (Mark k ++ rest) ≡ Mark k ++ replace_all (Mark n) v rest
replace_all-other n k v rest h small =
    rw (replace_all-skip (Mark n) v b'{' ((b'0' + k) ∷ b'}' ∷ rest) (ground arith)) (
      rw (replace_all-skip (Mark n) v (b'0' + k) (b'}' ∷ rest) (ground arith))
        (rw (replace_all-skip (Mark n) v b'}' rest (ground arith))))

-- One round of `forEach` on a template.
abbrev assign : ℕ → Text → List Piece → List Piece
assign k v [] = []
assign k v (lit s ∷ ps) = lit s ∷ assign k v ps
assign k v (hole n ∷ ps) = (if n == k then lit v else hole n) ∷ assign k v ps

replace_all-show :
    (k : ℕ) (v : Text) (ps : List Piece)
    → k < 10
    → IsTemplate ps
    → replace_all (Mark k) v (show ps) ≡ show (assign k v ps)
unfolding replace_all split split_from
replace_all-show k v [] small h = refl
replace_all-show k v (lit s ∷ ps) small (plain, h) =
    rw (replace_all-plain k v s (show ps) plain)
      (ap (λ x. s ++ x) (replace_all-show k v ps small h))
replace_all-show k v (hole n ∷ ps) small (digit, h) =
    let ih = replace_all-show k v ps small h in
    let marked = ap (λ x. replace_all (Mark k) v (x ++ show ps)) (placeholder_lem n digit) in
    elim (Bool-cases (n == k)) [
      | inl e ↦
          let same : n ≡ k = ground arith in
          rw e (
            marked
            ∙ ap (λ x. replace_all (Mark k) v (Mark x ++ show ps)) same
            ∙ replace_all-mark k v (show ps)
            ∙ ap (λ x. v ++ x) ih)
      | inr e ↦ rw e (
          marked
          ∙ replace_all-other k n v (show ps) (ground arith) digit
          ∙ ap (λ x. Mark n ++ x) ih
          ∙ ap (λ x. x ++ show (assign k v ps)) (sym (placeholder_lem n digit)))
    ]

assign-IsTemplate :
    (k : ℕ) (v : Text) (ps : List Piece) → IsPlain v → IsTemplate ps → IsTemplate (assign k v ps)
assign-IsTemplate k v [] plain h = tt
assign-IsTemplate k v (lit s ∷ ps) plain (p, h) = (p, assign-IsTemplate k v ps plain h)
assign-IsTemplate k v (hole n ∷ ps) plain (p, h) =
    let ih = assign-IsTemplate k v ps plain h in
    elim (Bool-cases (n == k)) [ inl e ↦ rw e (plain, ih) | inr e ↦ rw e (p, ih) ]

fill_once-assign :
    (k : ℕ) (v : Text) (vs : List Text) (ps : List Piece)
    → fill_once (k + 1) vs (assign k v ps) ≡ fill_once k (v ∷ vs) ps
fill_once-assign k v vs [] = refl
fill_once-assign k v vs (lit s ∷ ps) = ap (λ x. s ++ x) (fill_once-assign k v vs ps)
fill_once-assign k v vs (hole n ∷ ps) =
    let ih = fill_once-assign k v vs ps in
    elim (Bool-cases (n == k)) [
      | inl e ↦ rw e (ap (λ x. v ++ x) ih)
      | inr e ↦ rw e (ap (λ x. shown (value_at (k + 1) vs n) n ++ x) ih)
    ]

fill_once-nil : (k : ℕ) (ps : List Piece) → show ps ≡ fill_once k [] ps
fill_once-nil k [] = refl
fill_once-nil k (lit s ∷ ps) = ap (λ x. s ++ x) (fill_once-nil k ps)
fill_once-nil k (hole n ∷ ps) = ap (λ x. placeholder n ++ x) (fill_once-nil k ps)

-- On a message that is made of literals with no opening brace and of the places {0} to {9}, and
-- with at most nine values that hold no opening brace, the rounds of `t` fill every place with its
-- value, as if at once: no value is searched for places, and a place with no value stays.
pub fill_from-show :
    (k : ℕ) (vs : List Text) (ps : List Piece)
    → IsTemplate ps
    → All IsPlain vs
    → k + length vs ≤ 10
    → fill_from k vs (show ps) ≡ fill_once k vs ps
unfolding fill_from
fill_from-show k [] ps h plain room = fill_once-nil k ps
fill_from-show k (v ∷ vs) ps h (p, plain) room =
    let small : k < 10 = omega arith in
    rw (placeholder_lem k small) (
      rw (replace_all-show k v ps small h) (
        fill_from-show (k + 1) vs (assign k v ps) (assign-IsTemplate k v ps p h) plain (omega arith)
        ∙ fill_once-assign k v vs ps))
