-- ===== src/I18n/Packs/Parity.antt =====
-- The modelled packs of webui/assets/i18n.js have the same keys.
use netcheck.Common.{
  Bool, true, false, Option, none, some, List, [], ◌∷◌, map, String, ◌≡◌, refl, sym, ◌∙◌, ap, inl,
  inr, Text, codes, text_eq, Bool-cases, Option-cases, any, arith, all, ℕ, ◌==◌, ◌&&◌, ◌-◌,
  if◌then◌else◌, is_digit, ◌++◌, and-true, ==_iff, subst,
}
use netcheck.I18n.Catalog.{Pack, message, pack_for, template}
use netcheck.I18n.Catalog.Lookup.{pack_for-P}
use netcheck.I18n.Packs.{i18n}
use netcheck.I18n.Packs.EnUs.{en_us}
use netcheck.I18n.Packs.DeDe.{de_de}
use netcheck.I18n.Packs.FrFr.{fr_fr}
use netcheck.I18n.Packs.ZhCn.{zh_cn}

abbrev keys : Pack → List String
keys p = map (λ e. e.0) p

abbrev is_some : Option Text → Bool
is_some none = false
is_some (some s) = true

message_found :
    (p : Pack) (key : Text) → is_some (message p key) ≡ any (λ k. text_eq (codes k) key) (keys p)
unfolding message
message_found [] key = refl
message_found ((k, v) ∷ p) key = elim (Bool-cases (text_eq (codes k) key)) [
  | inl e ↦ rw e (ground arith)
  | inr e ↦ rw (e) (message_found p key)
]

de_de-keys : keys de_de ≡ keys en_us
unfolding de_de en_us
de_de-keys = refl

fr_fr-keys : keys fr_fr ≡ keys en_us
unfolding fr_fr en_us
fr_fr-keys = refl

zh_cn-keys : keys zh_cn ≡ keys en_us
unfolding zh_cn en_us
zh_cn-keys = refl

same_keys : (lang : Text) → keys (pack_for i18n lang) ≡ keys en_us
unfolding i18n
same_keys lang =
    pack_for-P (λ p. keys p ≡ keys en_us) i18n lang refl
      (de_de-keys, (fr_fr-keys, (zh_cn-keys, tt)))

same_found :
    (lang key : Text) → is_some (message (pack_for i18n lang) key) ≡ is_some (message en_us key)
same_found lang key =
    message_found (pack_for i18n lang) key
    ∙ (ap (any (λ k. text_eq (codes k) key)) (same_keys lang) ∙ sym (message_found en_us key))

-- In every language, with the four packs: a key that the English pack has is answered by a message of
-- the pack that is in force, never by the English pack in its place; and a key that the English pack
-- does not have is in no pack that is in force, and is answered by itself.
pub template-shipped :
    (lang key : Text)
    → ((e : Text)
        → message en_us key ≡ some e
        → (m : Text) × (message (pack_for i18n lang) key ≡ some m) × (template i18n lang key ≡ m))
      × (message en_us key ≡ none
          → (message (pack_for i18n lang) key ≡ none) × (template i18n lang key ≡ key))
unfolding template i18n
template-shipped lang key =
    let same = same_found lang key in
    elim (Option-cases (message (pack_for i18n lang) key)) [
      | inr (m, hit) ↦
          (λ e english. (m, hit, rw (hit) refl), λ gone. absurd (ground (arith, gone, hit, same)))
      | inl miss ↦ (
        λ e english. absurd (ground (arith, english, miss, same)),
        λ gone. (miss, rw (miss, gone) refl),
      )
    ]

place_at : Text → List ℕ
place_at (c ∷ d ∷ e ∷ s) = if c == b'{' && (is_digit d && e == b'}') then (d - b'0') ∷ [] else []
place_at _ = []

-- The numbers n of the places {n} of a message, n being a digit.
pub places : Text → List ℕ
unfolding place_at
places [] = []
places (c ∷ s) = place_at (c ∷ s) ++ places s

abbrev pub has_place : ℕ → Text → Bool
has_place n m = any (λ k. k == n) (places m)

abbrev within : List ℕ → List ℕ → Bool
within ks ls = all (λ n. any (λ k. k == n) ls) ks

abbrev same_places : Text → Text → Bool
same_places m e = within (places m) (places e) && within (places e) (places m)

all_same_places : Pack → Pack → Bool
all_same_places [] [] = true
all_same_places ((k, v) ∷ p) ((l, w) ∷ q) = same_places (codes v) (codes w) && all_same_places p q
all_same_places _ _ = false

en_us_places : all_same_places en_us en_us ≡ true
unfolding all_same_places places en_us
en_us_places = refl

de_de_places : all_same_places de_de en_us ≡ true
unfolding all_same_places places de_de en_us
de_de_places = refl

fr_fr_places : all_same_places fr_fr en_us ≡ true
unfolding all_same_places places fr_fr en_us
fr_fr_places = refl

zh_cn_places : all_same_places zh_cn en_us ≡ true
unfolding all_same_places places zh_cn en_us
zh_cn_places = refl

any-within :
    (n : ℕ) (ks ls : List ℕ)
    → within ks ls ≡ true
    → any (λ k. k == n) ks ≡ true
    → any (λ k. k == n) ls ≡ true
any-within n [] ls h e = cc
any-within n (k ∷ ks) ls h e =
    let (here, later) = and-true (any (λ l. l == k) ls) (within ks ls) h in
    elim (Bool-cases (k == n)) [
      | inl same ↦
          let number = (==_iff k n).0 same in subst (λ x. any (λ l. l == x) ls ≡ true) number here
      | inr other ↦ any-within n ks ls later (ground arith)
    ]

has_place-same_places :
    (n : ℕ) (m e : Text) → same_places m e ≡ true → has_place n m ≡ has_place n e
has_place-same_places n m e h =
    let (there, back) = and-true (within (places m) (places e)) (within (places e) (places m)) h in
    let to = any-within n (places m) (places e) there in
    let from = any-within n (places e) (places m) back in
    elim (Bool-cases (has_place n m)) [
      | inl a ↦ a ∙ sym (to a)
      | inr a ↦ elim (Bool-cases (has_place n e)) [ inl b ↦ from b ∙ sym b | inr b ↦ a ∙ sym b ]
    ]

message-same_places :
    (p q : Pack) (key : Text) {m e : Text}
    → keys p ≡ keys q
    → all_same_places p q ≡ true
    → message p key ≡ some m
    → message q key ≡ some e
    → same_places m e ≡ true
unfolding message all_same_places
message-same_places [] q key h a f g = cc
message-same_places ((k, v) ∷ p) [] key h a f g = cc
message-same_places ((k, v) ∷ p) ((l, w) ∷ q) key {m} {e} h a f g =
    let (here, later) = and-true (same_places (codes v) (codes w)) (all_same_places p q) a in
    let first : k ≡ l = cc in
    let others : keys p ≡ keys q = cc in
    elim (Bool-cases (text_eq (codes k) key)) [
      | inl hit ↦
          let again = subst (λ x. text_eq (codes x) key ≡ true) first hit in
          let mine : codes v ≡ m = ground arith in
          let theirs : codes w ≡ e = ground arith in
          subst (λ x. same_places m x ≡ true) theirs
            (subst (λ x. same_places x (codes w) ≡ true) mine here)
      | inr miss ↦
          let again = subst (λ x. text_eq (codes x) key ≡ false) first miss in
          message-same_places p q key others later (ground arith) (ground arith)
    ]

-- In every language, with the four packs, a message has the same places {n} as the English message
-- of its key: the values that it is given are shown in each language or in none.
pub message-has_place :
    (lang key m e : Text) (n : ℕ)
    → message (pack_for i18n lang) key ≡ some m
    → message en_us key ≡ some e
    → has_place n m ≡ has_place n e
unfolding i18n
message-has_place lang key m e n f g =
    let all_same =
      pack_for-P (λ p. all_same_places p en_us ≡ true) i18n lang en_us_places
        (de_de_places, (fr_fr_places, (zh_cn_places, tt))) in
    has_place-same_places n m e
      (message-same_places (pack_for i18n lang) en_us key (same_keys lang) all_same f g)
