-- ===== src/PackTools/Parity.antt =====
-- What it means that check_i18n.js finds no problem.
use netcheck.Common.{
  Bool, true, false, not, none, some, List, [], ◌∷◌, ◌++◌, ◌≡◌, ◌↔◌, refl, inl, inr, arith, filter,
  String, Text, codes, text_eq, eq_of_text_eq, text_eq_refl, Bool-cases, Option-cases, All,
  if◌then◌else◌, subst, ap, ◌∙◌, sym,
}
use netcheck.I18n.Catalog.{Pack, message, find_pack}
use netcheck.PackTools.{
  Packs, Problem, missing_pack, missing, extra, has_key, keys_of, report_keys, check_pack,
  check_packs, check_i18n,
}

-- Every pack of the list is there and has the keys of the English one, no fewer and no more.
pub record HasParity (packs : Packs) (locales : List String) : Type 0 where
  pub reference : Pack
  pub english : find_pack packs (codes "en-US") ≡ some reference
  pub others :
      All
        (λ code.
          (pack : Pack) × (find_pack packs (codes code) ≡ some pack)
          × ((key : Text) → has_key pack key ≡ has_key reference key))
        locales

has_key-first :
    (k m : String) (pack : Pack) (key : Text)
    → has_key ((k, m) ∷ pack) key ≡ (if text_eq (codes k) key then true else has_key pack key)
unfolding has_key message
has_key-first k m pack key = ground arith

module _ (q : Text → Bool) where
  none_left : (keys : List Text) → filter (λ k. not (q k)) keys ≡ [] → All (λ k. q k ≡ true) keys
  none_left [] h = tt
  none_left (k ∷ keys) h = elim (Bool-cases (q k)) [
    | inl e ↦ (e, none_left keys (ground (arith, h, e)))
    | inr e ↦ absurd (ground (arith, h, e))
  ]

  none_left-of : (keys : List Text) → All (λ k. q k ≡ true) keys → filter (λ k. not (q k)) keys ≡ []
  none_left-of [] h = refl
  none_left-of (k ∷ keys) (e, h) = rw (e, filter) (none_left-of keys h)

  All-has_key :
      (pack : Pack) (key : Text)
      → All (λ k. q k ≡ true) (keys_of pack)
      → has_key pack key ≡ true
      → q key ≡ true
  unfolding has_key message
  All-has_key [] key h k = cc
  All-has_key ((name, m) ∷ pack) key (e, h) k = elim (Bool-cases (text_eq (codes name) key)) [
    | inl same ↦ subst (λ x. q x ≡ true) (eq_of_text_eq (codes name) key same) e
    | inr other ↦ All-has_key pack key h (
        sym (has_key-first name m pack key ∙ ap (λ b. if b then true else has_key pack key) other)
        ∙ k)
  ]

  has_key-All :
      (pack : Pack)
      → ((key : Text) → has_key pack key ≡ true → q key ≡ true)
      → All (λ k. q k ≡ true) (keys_of pack)
  has_key-All [] h = tt
  has_key-All ((name, m) ∷ pack) h = (
    h (codes name) (
        has_key-first name m pack (codes name)
        ∙ ap (λ b. if b then true else has_key pack (codes name)) (text_eq_refl (codes name))),
    has_key-All pack (λ key k. h key (has_key-first name m pack key ∙ ground (arith, k))),
  )

report_keys-none :
    (problem : List Text → Problem) (keys : List Text) → report_keys problem keys ≡ [] → keys ≡ []
unfolding report_keys
report_keys-none problem [] h = refl
report_keys-none problem (key ∷ keys) h = cc

append-none : (ps qs : List Problem) → ps ++ qs ≡ [] → (ps ≡ []) × (qs ≡ [])
append-none [] qs h = (refl, h)
append-none (p ∷ ps) qs h = cc

same_keys : (a b : Bool) → (a ≡ true → b ≡ true) → (b ≡ true → a ≡ true) → a ≡ b
same_keys true b h k = sym (h refl)
same_keys false true h k = k refl
same_keys false false h k = refl

check_pack-same :
    (reference : Pack) (code : String) (pack : Pack)
    → check_pack reference code pack ≡ []
    → (key : Text) → has_key pack key ≡ has_key reference key
unfolding check_pack
check_pack-same reference code pack h key =
    let (first, second) =
      append-none (report_keys (missing code) _) (report_keys (extra code) _) h in
    let here =
      none_left (has_key pack) (keys_of reference) (report_keys-none (missing code) _ first) in
    let there =
      none_left (has_key reference) (keys_of pack) (report_keys-none (extra code) _ second) in
    same_keys (has_key pack key) (has_key reference key)
      (All-has_key (has_key reference) pack key there)
      (All-has_key (has_key pack) reference key here)

check_pack-none :
    (reference : Pack) (code : String) (pack : Pack)
    → ((key : Text) → has_key pack key ≡ has_key reference key)
    → check_pack reference code pack ≡ []
unfolding check_pack report_keys
check_pack-none reference code pack same =
    let here =
      none_left-of (has_key pack) (keys_of reference)
        (has_key-All (has_key pack) reference (λ key k. same key ∙ k)) in
    let there =
      none_left-of (has_key reference) (keys_of pack)
        (has_key-All (has_key reference) pack (λ key k. sym (same key) ∙ k)) in
    rw (here, there, check_pack) refl

Agrees : Pack → Packs → String → Type 0
Agrees reference packs code =
    (pack : Pack) × (find_pack packs (codes code) ≡ some pack)
    × ((key : Text) → has_key pack key ≡ has_key reference key)

check_packs-Agrees :
    (reference : Pack) (packs : Packs) (locales : List String)
    → check_packs reference packs locales ≡ []
    → All (Agrees reference packs) locales
unfolding check_packs Agrees
check_packs-Agrees reference packs [] h = tt
check_packs-Agrees reference packs (code ∷ locales) h =
    elim (Option-cases (find_pack packs (codes code))) [
      | inl nothing ↦ absurd (ground (arith, h, nothing))
      | inr (pack, there) ↦
          let (first, later) =
            append-none (check_pack reference code pack) (check_packs reference packs locales) (
              ap
                (λ o.
                  elim o as (λ x. List Problem) [
                    | none ↦ missing_pack code ∷ []
                    | some p ↦ check_pack reference code p
                  ]
                  ++ check_packs reference packs locales)
                (sym there)
              ∙ h) in
          (
            (pack, there, check_pack-same reference code pack first),
            check_packs-Agrees reference packs locales later,
          )
    ]

Agrees-check_packs :
    (reference : Pack) (packs : Packs) (locales : List String)
    → All (Agrees reference packs) locales
    → check_packs reference packs locales ≡ []
unfolding check_packs Agrees
Agrees-check_packs reference packs [] h = refl
Agrees-check_packs reference packs (code ∷ locales) ((pack, there, same), h) =
    rw (there, check_packs, check_pack-none reference code pack same)
      (Agrees-check_packs reference packs locales h)

none_reported :
    (packs : Packs) (locales : List String) (reference : Pack)
    → find_pack packs (codes "en-US") ≡ some reference
    → check_i18n packs locales ≡ some []
    → check_packs reference packs locales ≡ []
unfolding check_i18n
none_reported packs locales reference there h =
    let same : check_i18n packs locales ≡ some (check_packs reference packs locales) =
      rw (there, check_i18n) refl in
    let both : some (check_packs reference packs locales) ≡ some [] = sym same ∙ h in cc

-- check_i18n.js reports nothing exactly when every pack of the list is there and has the keys of the
-- English one, no fewer and no more.
pub check_i18n-HasParity :
    (packs : Packs) (locales : List String)
    → (check_i18n packs locales ≡ some []) ↔ HasParity packs locales
unfolding check_i18n Agrees
check_i18n-HasParity packs locales = (
  λ h. elim (Option-cases (find_pack packs (codes "en-US"))) [
    | inl nothing ↦ absurd (ground (arith, h, nothing))
    | inr (reference, there) ↦ record {
      reference = reference;
      english = there;
      others =
          check_packs-Agrees reference packs locales
            (none_reported packs locales reference there h);
    }
  ],
  λ h. rw (h.english, check_i18n) (ap some (Agrees-check_packs h.reference packs locales h.others)),
)
