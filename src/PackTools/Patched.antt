-- ===== src/PackTools/Patched.antt =====
-- The packs that patch_compliance_i18n.js has patched still pass check_i18n.js.
use netcheck.Common.{
  Bool, true, false, ◌&&◌, ◌||◌, Option, none, some, List, [], ◌∷◌, ◌≡◌, refl, inl, inr, arith,
  String, Text, codes, text_eq, eq_of_text_eq, text_eq_refl, Bool-cases, Option-cases, All, All-imp,
  All-both, length, if◌then◌else◌, ap, ◌∙◌, sym,
}
use netcheck.I18n.Catalog.{Pack, message, find_pack}
use netcheck.PackTools.{
  Packs, Translations, patch_pack, update, patch_packs, patch_i18n, has_key, check_i18n,
}
use netcheck.PackTools.Parity.{check_i18n-HasParity}
use netcheck.PackTools.Patch.{
  or_message, patched, patch_pack-message, text_eq-other, text_eq-behind,
}

-- The table has this key.
abbrev has_entry : List (String × Translations) → Text → Bool
has_entry [] key = false
has_entry ((k, entry) ∷ keys) key = has_entry keys key || text_eq (codes k) key

abbrev is_some : Option Text → Bool
is_some none = false
is_some (some m) = true

is_some-or_message : (o m : Option Text) → is_some (or_message o m) ≡ (is_some o || is_some m)
is_some-or_message none m = refl
is_some-or_message (some x) m = refl

is_some-patched :
    (keys : List (String × Translations)) (code : String) (key : Text)
    → is_some (patched keys code key) ≡ has_entry keys key
is_some-patched [] code key = refl
is_some-patched ((k, entry) ∷ keys) code key =
    is_some-or_message (patched keys code key) _ ∙ ground (arith, is_some-patched keys code key)

has_key-message : (pack : Pack) (key : Text) → has_key pack key ≡ is_some (message pack key)
unfolding has_key
has_key-message pack key = refl

has_key-patch_pack :
    (keys : List (String × Translations)) (code : String) (pack : Pack) (key : Text)
    → has_key (patch_pack keys code pack) key ≡ (has_entry keys key || has_key pack key)
has_key-patch_pack keys code pack key =
    has_key-message (patch_pack keys code pack) key
    ∙ ap is_some (patch_pack-message keys code pack key)
    ∙ is_some-or_message (patched keys code key) (message pack key)
    ∙ ap (λ b. b || is_some (message pack key)) (is_some-patched keys code key)
    ∙ ap (λ b. has_entry keys key || b) (sym (has_key-message pack key))

-- A pack that was there is there, with the keys of the table where `b` says that it was patched.
abbrev Becomes : List (String × Translations) → Bool → Option Pack → Option Pack → Type 0
Becomes keys b o o' =
    (pack : Pack)
    → o ≡ some pack
    → (pack' : Pack) × (o' ≡ some pack')
      × ((key : Text) → has_key pack' key ≡ ((b && has_entry keys key) || has_key pack key))

find_pack-update :
    (code : Text) (pack : Pack) (packs : Packs) (c : Text) {old : Pack}
    → find_pack packs code ≡ some old
    → find_pack (update code pack packs) c
      ≡ (if text_eq code c then some pack else find_pack packs c)
unfolding find_pack update
find_pack-update code pack [] c h = cc
find_pack-update code pack ((k, p) ∷ packs) c {old} h = elim (Bool-cases (text_eq (codes k) code)) [
  | inl e ↦ let same = text_eq-other (codes k) code c e in ground arith
  | inr e ↦
      let rest = find_pack-update code pack packs c {old = old} (ground (arith, h, e)) in
      elim (Bool-cases (text_eq code c)) [
        | inl at ↦ let same = text_eq-behind (codes k) code c at in ground arith
        | inr out ↦ ground arith
      ]
]

Becomes-update :
    (keys : List (String × Translations)) (code c : String) (packs : Packs) {old : Pack}
    → find_pack packs (codes code) ≡ some old
    → Becomes keys
        (text_eq (codes code) (codes c))
        (find_pack packs (codes c))
        (find_pack (update (codes code) (patch_pack keys code old) packs) (codes c))
Becomes-update keys code c packs {old} h pack there =
    let new = patch_pack keys code old in
    let found = find_pack-update (codes code) new packs (codes c) h in
    elim (Bool-cases (text_eq (codes code) (codes c))) [
      | inl e ↦
          let same = eq_of_text_eq (codes code) (codes c) e in
          let both : some old ≡ some pack = sym h ∙ ap (find_pack packs) same ∙ there in
          let olds : old ≡ pack = cc in
          (
            new,
            found ∙ ap (λ b. if b then some new else find_pack packs (codes c)) e,
            λ key.
                has_key-patch_pack keys code old key
                ∙ ap (λ p. has_entry keys key || has_key p key) olds
                ∙ ap (λ b. (b && has_entry keys key) || has_key pack key) (sym e),
          )
      | inr e ↦ (
        pack,
        found ∙ ap (λ b. if b then some new else find_pack packs (codes c)) e ∙ there,
        λ key. ground arith,
      )
    ]

Becomes-then :
    (keys : List (String × Translations)) (b b' : Bool) (o o' o'' : Option Pack)
    → Becomes keys b o o'
    → Becomes keys b' o' o''
    → Becomes keys (b || b') o o''
Becomes-then keys b b' o o' o'' h h' pack there =
    let (pack', there', same) = h pack there in
    let (pack'', there'', same') = h' pack' there' in
    (
      pack'',
      there'',
      λ key. same' key ∙ ap (λ x. (b' && has_entry keys key) || x) (same key) ∙ ground arith,
    )

abbrev is_listed : List String → String → Bool
is_listed [] c = false
is_listed (code ∷ locales) c = text_eq (codes code) (codes c) || is_listed locales c

patch_packs-Becomes :
    (keys : List (String × Translations)) (locales : List String) (packs : Packs) {packs' : Packs}
    → patch_packs keys locales packs ≡ some packs'
    → (c : String)
    → Becomes keys (is_listed locales c) (find_pack packs (codes c)) (find_pack packs' (codes c))
unfolding patch_packs
patch_packs-Becomes keys [] packs {packs'} h c =
    let same : packs ≡ packs' = cc in
    λ pack there. (pack, ap (λ ps. find_pack ps (codes c)) (sym same) ∙ there, λ key. refl)
patch_packs-Becomes keys (code ∷ locales) packs {packs'} h c =
    elim (Option-cases (find_pack packs (codes code))) [
      | inl nothing ↦ absurd (ground (arith, h, nothing))
      | inr (old, there) ↦
          let next = update (codes code) (patch_pack keys code old) packs in
          let later : patch_packs keys locales next ≡ some packs' =
            ap
              (λ o. elim o as (λ x. Option Packs) [
                | none ↦ none
                | some p ↦
                    patch_packs keys locales (update (codes code) (patch_pack keys code p) packs)
              ])
              (sym there)
            ∙ h in
          Becomes-then keys (text_eq (codes code) (codes c)) (is_listed locales c)
            (find_pack packs (codes c)) (find_pack next (codes c)) (find_pack packs' (codes c))
            (Becomes-update keys code c packs there) (patch_packs-Becomes keys locales next later c)
    ]

All-is_listed :
    (P : String → Type 0) (all locales : List String)
    → ((c : String) → is_listed locales c ≡ true → is_listed all c ≡ true)
    → ((c : String) → is_listed all c ≡ true → P c)
    → All P locales
All-is_listed P all [] sub h = tt
All-is_listed P all (code ∷ locales) sub h =
    let first = ap (λ b. b || is_listed locales code) (text_eq_refl (codes code)) in
    (
      h code (sub code first),
      All-is_listed P all locales
          (λ c at. sub c (ap (λ b. text_eq (codes code) (codes c) || b) at ∙ ground arith)) h,
    )

patch_packs-total :
    (keys : List (String × Translations)) (locales : List String) (packs : Packs)
    → All (λ code. (pack : Pack) × (find_pack packs (codes code) ≡ some pack)) locales
    → (packs' : Packs) × (patch_packs keys locales packs ≡ some packs')
unfolding patch_packs
patch_packs-total keys [] packs h = (packs, refl)
patch_packs-total keys (code ∷ locales) packs ((old, there), h) =
    let next = update (codes code) (patch_pack keys code old) packs in
    let (packs', done) = patch_packs-total keys locales next (
      All-imp (λ c. (p : Pack) × (find_pack packs (codes c) ≡ some p))
        (λ c. (p : Pack) × (find_pack next (codes c) ≡ some p))
        (λ c had.
          let (p, at) = had in
          let (p', at', _) = Becomes-update keys code c packs there p at in (p', at'))
        locales h) in
    (packs', rw (there, patch_packs) done)

-- When check_i18n.js reports nothing of 23 packs with the English one among them,
-- patch_compliance_i18n.js makes new packs of them, whatever its table is, and check_i18n.js reports
-- nothing of the new ones either.
pub patch_i18n-check :
    (keys : List (String × Translations)) (locales : List String) (packs : Packs)
    → check_i18n packs locales ≡ some []
    → is_listed locales "en-US" ≡ true
    → length locales ≡ 23
    → (packs' : Packs) × (patch_i18n keys locales packs ≡ some packs')
      × (check_i18n packs' locales ≡ some [])
unfolding patch_i18n
patch_i18n-check keys locales packs clean english count =
    let parity = (check_i18n-HasParity packs locales).0 clean in
    let (packs', made) =
      patch_packs-total keys locales packs
        (All-imp _ _ (λ c had. let (p, at, _) = had in (p, at)) locales parity.others) in
    let become = patch_packs-Becomes keys locales packs made in
    let (reference', at', same') = become "en-US" parity.reference parity.english in
    let ref_keys = λ (key : Text).
      same' key ∙ ap (λ b. (b && has_entry keys key) || has_key parity.reference key) english in
    let listed =
      All-is_listed (λ c. is_listed locales c ≡ true) locales locales (λ c at. at) (λ c at. at) in
    let others =
      All-imp _
        (λ c.
          (p : Pack) × (find_pack packs' (codes c) ≡ some p)
          × ((key : Text) → has_key p key ≡ has_key reference' key))
        (λ c had.
          let ((p, at, same), at_c) = had in
          let (p', there, keys') = become c p at in
          (
            p',
            there,
            λ key.
                keys' key
                ∙ ap (λ b. (b && has_entry keys key) || has_key p key) at_c
                ∙ ap (λ b. has_entry keys key || b) (same key)
                ∙ sym (ref_keys key),
          ))
        locales (All-both _ _ locales parity.others listed) in
    (
      packs',
      rw (made, count, patch_i18n) refl,
      (check_i18n-HasParity packs' locales).1
          (record { reference = reference'; english = at'; others = others }),
    )
