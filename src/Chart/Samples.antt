-- ===== src/Chart/Samples.antt =====
-- The samples that the chart takes: the newest ones, in the order of their times.
use netcheck.Common.{
  ℤ, ◌≤ℤ◌, leb_ℤ, ℕ, zero, suc, ◌-◌, ◌≤◌, leb, Bool, Option, List, [], ◌∷◌, ◌++◌, ◌≡◌, refl, arith,
  Bool-cases, inl, inr, All, count, filter, length, drop, take, ◌⊎◌, sym, ap, ◌∙◌, subst,
}
use netcheck.Json.{Json}
use netcheck.Chart.{has_time, time, insert, sort, chart_samples}

module _ {ℓ} {A : Type ℓ} where
  take-drop : (n : ℕ) (xs : List A) → take n xs ++ drop n xs ≡ xs
  take-drop zero xs = refl
  take-drop (suc n) [] = refl
  take-drop (suc n) (x ∷ xs) = ap (λ ys. x ∷ ys) (take-drop n xs)

  length-drop : (n : ℕ) (xs : List A) → length (drop n xs) ≡ length xs - n
  length-drop zero xs = omega arith
  length-drop (suc n) [] = omega arith
  length-drop (suc n) (x ∷ xs) = omega (arith, length-drop n xs)

  none-or-full :
      (n : ℕ) (xs : List A)
      → (take (length xs - n) xs ≡ []) ⊎ (length (drop (length xs - n) xs) ≡ n)
  none-or-full n xs = elim (Bool-cases (leb (length xs) n)) [
    | inl e ↦ let nothing : length xs - n ≡ 0 = ground arith in inl (ap (λ m. take m xs) nothing)
    | inr e ↦ inr (length-drop (length xs - n) xs ∙ ground arith)
  ]

module _ (read : Json → Option ℤ) where
  abbrev pub IsSorted : List Json → Type 0
  IsSorted [] = Unit
  IsSorted (s ∷ ss) = All (λ s'. time read s ≤ℤ time read s') ss × IsSorted ss

  insert-All :
      (P : Json → Type 0) (s : Json) (ss : List Json) → P s → All P ss → All P (insert read s ss)
  unfolding insert
  insert-All P s [] h k = (h, tt)
  insert-All P s (s' ∷ ss) h (k, ks) = elim (Bool-cases (leb_ℤ (time read s) (time read s'))) [
    | inl e ↦ rw (e, insert) (h, (k, ks))
    | inr e ↦ rw (e, insert) (k, insert-All P s ss h ks)
  ]

  All-later :
      (m n : ℤ) (ss : List Json)
      → m ≤ℤ n
      → All (λ s. n ≤ℤ time read s) ss
      → All (λ s. m ≤ℤ time read s) ss
  All-later m n [] h k = tt
  All-later m n (s ∷ ss) h (k, ks) = (omega (arith, h, k), All-later m n ss h ks)

  insert-IsSorted : (s : Json) (ss : List Json) → IsSorted ss → IsSorted (insert read s ss)
  unfolding insert
  insert-IsSorted s [] h = (tt, tt)
  insert-IsSorted s (s' ∷ ss) (least, sorted) =
      elim (Bool-cases (leb_ℤ (time read s) (time read s'))) [
        | inl e ↦
            rw (e, insert)
              (
                (ground arith, All-later (time read s) (time read s') ss (ground arith) least),
                (least, sorted),
              )
        | inr e ↦
            rw (e, insert)
              (
                insert-All (λ x. time read s' ≤ℤ time read x) s ss (ground arith) least,
                insert-IsSorted s ss sorted,
              )
      ]

  sort-IsSorted : (ss : List Json) → IsSorted (sort read ss)
  unfolding sort
  sort-IsSorted [] = tt
  sort-IsSorted (s ∷ ss) = insert-IsSorted s (sort read ss) (sort-IsSorted ss)

  count-insert :
      (p : Json → Bool) (s : Json) (ss : List Json) → count p (insert read s ss) ≡ count p (s ∷ ss)
  unfolding insert
  count-insert p s [] = refl
  count-insert p s (s' ∷ ss) = elim (Bool-cases (leb_ℤ (time read s) (time read s'))) [
    | inl e ↦ rw (e, insert) refl
    | inr e ↦ rw (e, insert) (omega (arith, count-insert p s ss))
  ]

  count-sort : (p : Json → Bool) (ss : List Json) → count p (sort read ss) ≡ count p ss
  unfolding sort
  count-sort p [] = refl
  count-sort p (s ∷ ss) = omega (arith, count-insert p s (sort read ss), count-sort p ss)

  -- The chart takes the newest samples: with some older ones before them they are all samples with a
  -- finite time, each as often as it was given, in the order of their times. They are at most 120, and
  -- fewer only when none is older.
  pub chart_samples-newest :
      (samples : List Json)
      → (older : List Json) × IsSorted (older ++ chart_samples read samples)
        × ((p : Json → Bool)
            → count p (older ++ chart_samples read samples)
              ≡ count p (filter (has_time read) samples))
        × (length (chart_samples read samples) ≤ 120)
        × ((older ≡ []) ⊎ (length (chart_samples read samples) ≡ 120))
  unfolding chart_samples
  chart_samples-newest samples =
      let sorted = sort read (filter (has_time read) samples) in
      let extra = length sorted - 120 in
      let whole = take-drop extra sorted in
      let left = length-drop extra sorted in
      (
        take extra sorted,
        subst IsSorted (sym whole) (sort-IsSorted (filter (has_time read) samples)),
        (λ p. ap (count p) whole ∙ count-sort p (filter (has_time read) samples)),
        omega (arith, left),
        none-or-full 120 sorted,
      )
