-- ===== src/I18n/Catalog/Lookup.antt =====
-- Where a message comes from.
use netcheck.Common.{
  some, List, [], ◌∷◌, String, ◌≡◌, inl, inr, Text, codes, text_eq, All, Bool-cases, Option-cases,
}
use mathlib.Core.Path.{subst}
use netcheck.Common.{arith}
use netcheck.I18n.Catalog.{Pack, Catalog, message, find_pack, pack_for, fill_from, t}

module _ (c : Catalog) (lang key : Text) (values : List Text) where
  -- A message of the current language's pack is the one that is filled.
  pub t_of_message :
      {m : Text}
      → message (pack_for c lang) key ≡ some m
      → t c lang key values ≡ fill_from 1 values m
  unfolding t
  t_of_message e = rw e

module _ {ℓ} (P : Pack → Type ℓ) where
  find_pack-P :
      (packs : List (String × Pack)) (code : Text) {p : Pack}
      → All (λ e. P e.1) packs
      → find_pack packs code ≡ some p
      → P p
  unfolding find_pack
  find_pack-P [] code h e = cc
  find_pack-P ((k, q) ∷ packs) code {p} (here, later) e =
      elim (Bool-cases (text_eq (codes k) code)) [
        | inl same ↦ let found : q ≡ p = ground arith in subst P found here
        | inr other ↦ find_pack-P packs code later (ground arith)
      ]

  -- What holds of every pack of the catalog holds of the current language's.
  pub pack_for-P :
      (c : Catalog) (lang : Text) → P c.english → All (λ e. P e.1) c.others → P (pack_for c lang)
  unfolding pack_for
  pack_for-P c lang en others = elim (Bool-cases (text_eq (codes "en-US") lang)) [
    | inl e ↦ rw e en
    | inr e ↦ rw e (elim (Option-cases (find_pack c.others lang)) [
      | inl miss ↦ rw (miss) en
      | inr (p, hit) ↦ rw (hit) (find_pack-P c.others lang others hit)
    ])
  ]
