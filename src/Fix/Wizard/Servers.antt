-- ===== src/Fix/Wizard/Servers.antt =====
-- The words of a text, as the field of the name servers is read.
use netcheck.Common.{
  true, false, List, [], ◌∷◌, ◌++◌, ◌≡◌, ap, ◌≢◌, refl, inl, inr, Text, All, subst, sym, ℕ,
  Bool-cases,
}
use netcheck.Fix.Wizard.{is_separator, push_word, words, servers_of}

-- What stands behind a word: nothing, or a separator first.
pub data EndsWord : Text → Type 0 where
  at_end : EndsWord []
  at_separator : {c : ℕ} {s : Text} → is_separator c ≡ true → EndsWord (c ∷ s)

-- The words of a text: its longest parts without a separator, in their order.
pub data Splits : Text → List Text → Type 0 where
  nothing : Splits [] []
  separator :
      {c : ℕ} {s : Text} {ws : List Text} → is_separator c ≡ true → Splits s ws → Splits (c ∷ s) ws
  one_word :
      {w s : Text} {ws : List Text}
      → w ≢ []
      → All (λ c. is_separator c ≡ false) w
      → EndsWord s
      → Splits s ws
      → Splits (w ++ s) (w ∷ ws)

-- A text is the word that is read first, which may be empty, and a rest with the other words.
data Reads (s w : Text) (ws : List Text) : Type 0 where
  reads :
      (rest : Text)
      → s ≡ w ++ rest
      → All (λ c. is_separator c ≡ false) w
      → EndsWord rest
      → Splits rest ws
      → Reads s w ws

push_word-Splits : (s w : Text) (ws : List Text) → Reads s w ws → Splits s (push_word w ws)
push_word-Splits s [] ws (reads rest e free ends splits) = subst (λ x. Splits x ws) (sym e) splits
push_word-Splits s (c ∷ w) ws (reads rest e free ends splits) =
    subst (λ x. Splits x ((c ∷ w) ∷ ws)) (sym e) (one_word (λ f. cc) free ends splits)

words-Reads : (s : Text) → Reads s (words s).0 (words s).1
unfolding words
words-Reads [] = reads [] refl tt at_end nothing
words-Reads (c ∷ s) = elim (Bool-cases (is_separator c)) [
  | inl e ↦ rw e (
      reads (c ∷ s) refl tt (at_separator e)
        (separator e (push_word-Splits s (words s).0 (words s).1 (words-Reads s))))
  | inr e ↦ rw e (elim (words-Reads s) [
    | reads rest f free ends splits ↦ reads rest (ap (λ x. c ∷ x) f) (e, free) ends splits
  ])
]

-- The servers that are read from the form are the words of its field.
pub servers_of-Splits : (s : Text) → Splits s (servers_of s)
unfolding servers_of
servers_of-Splits s = push_word-Splits s (words s).0 (words s).1 (words-Reads s)
