-- ===== src/Diag/Translate/Keys.antt =====
-- What the translation answers: the text itself, or a message of the current language.
use netcheck.Common.{
  ℕ, zero, suc, Bool, true, false, not, ◌&&◌, Option, none, some, List, [], ◌∷◌, ◌++◌, String, ◌≡◌,
  refl, sym, ap, ◌∙◌, ◌⊎◌, inl, inr, Text, codes, text_eq, starts_with, includes, trim, before, all,
  length, if◌then◌else◌, arith, Bool-cases, Option-cases, and-true, eq_of_text_eq,
}
use netcheck.I18n.Catalog.{Pack, Catalog, message, pack_for, placeholder, fill_from, t}
use netcheck.I18n.Catalog.Lookup.{t_of_message}
use mathlib.Core.Path.{subst}
use netcheck.Diag.Pattern.{lit, group, Pattern, match}
use netcheck.Diag.Pattern.Reading.{Reads, done, text, field}
use netcheck.Diag.Pattern.Sound.{match_sound}
use netcheck.Diag.Tables.{diag_exact_keys, diag_code_keys, diag_class_keys}
use netcheck.Diag.Rules.{Rule, on_match, on_text, on_prefix, on_part, first_rules, later_rules}
use netcheck.Diag.Translate.{
  with_groups, key_of, apply_rule, apply_rules, translate_diag_text, said_or,
}

-- No place above `{n}`, among `{1}` to `{9}`, stands in the message.
unfoldable pub no_place_above : ℕ → Text → Bool
no_place_above zero m =
    all (λ k. not (includes m (placeholder k))) (1 ∷ 2 ∷ 3 ∷ 4 ∷ 5 ∷ 6 ∷ 7 ∷ 8 ∷ 9 ∷ [])
no_place_above (suc zero) m =
    all (λ k. not (includes m (placeholder k))) (2 ∷ 3 ∷ 4 ∷ 5 ∷ 6 ∷ 7 ∷ 8 ∷ 9 ∷ [])
no_place_above (suc (suc zero)) m =
    all (λ k. not (includes m (placeholder k))) (3 ∷ 4 ∷ 5 ∷ 6 ∷ 7 ∷ 8 ∷ 9 ∷ [])
no_place_above (suc (suc (suc n))) m =
    all (λ k. not (includes m (placeholder k))) (4 ∷ 5 ∷ 6 ∷ 7 ∷ 8 ∷ 9 ∷ [])

unfoldable pub served_by : ℕ → Option Text → Bool
served_by n none = false
served_by n (some m) = no_place_above n m

-- The pack has the message, and `n` values fill all its places.
unfoldable pub served : Pack → ℕ → Text → Bool
unfolding served_by
served pack n key = served_by n (message pack key)

unfoldable pub groups : Pattern → ℕ
groups [] = 0
groups (lit l ∷ p) = groups p
groups (group g ∷ p) = suc (groups p)

unfoldable pub rule_served : Pack → Rule → Bool
rule_served pack (on_match p key) = served pack (groups p) (codes key)
rule_served pack (on_text s key) = served pack 0 (codes key)
rule_served pack (on_prefix s key) = served pack 1 (codes key)
rule_served pack (on_part s key) = served pack 0 (codes key)

unfoldable pub table_served : Pack → List (String × String) → Bool
table_served pack table = all (λ e. served pack 0 (codes e.1)) table

-- The pack serves every statement of `translateDiagText`.
unfoldable pub diag_complete : Pack → Bool
unfolding rule_served table_served groups
diag_complete pack =
    table_served pack diag_exact_keys
    && (table_served pack diag_code_keys
        && (table_served pack diag_class_keys
            && (all (rule_served pack) first_rules && all (rule_served pack) later_rules)))

Reads-groups : {p : Pattern} {s : Text} {gs : List Text} → Reads p s gs → length gs ≡ groups p
unfolding groups
Reads-groups done = refl
Reads-groups (text split later) = Reads-groups later
Reads-groups (field split fits later) = ap suc (Reads-groups later)

-- A message of the pack whose places are all filled by the values.
pub record IsMessage (pack : Pack) (said : Text) : Type 0 where
  pub key : Text
  pub values : List Text
  pub wording : Text
  pub found : message pack key ≡ some wording
  pub all_filled : no_place_above (length values) wording ≡ true
  pub filled : said ≡ fill_from 1 values wording

served-some :
    (pack : Pack) (n : ℕ) (key : Text)
    → served pack n key ≡ true
    → (m : Text) × (message pack key ≡ some m) × (no_place_above n m ≡ true)
unfolding served served_by
served-some pack n key h = elim (Option-cases (message pack key)) [
  | inl e ↦ cc (ap (served_by n) e)
  | inr (m, e) ↦ (m, e, sym (ap (served_by n) e) ∙ h)
]

pub key_of-served :
    (pack : Pack) (table : List (String × String)) (s key : Text)
    → table_served pack table ≡ true
    → key_of table s ≡ some key
    → served pack 0 key ≡ true
unfolding table_served key_of
key_of-served pack [] s key h e = cc
key_of-served pack ((k, v) ∷ table) s key h e =
    let (one, more) =
      and-true (served pack 0 (codes v)) (all (λ x. served pack 0 (codes x.1)) table) h in
    elim (Bool-cases (text_eq (codes k) s)) [
      | inl same ↦
          let found : codes v ≡ key = ground arith in subst (λ x. served pack 0 x ≡ true) found one
      | inr other ↦ key_of-served pack table s key more (ground arith)
    ]

with_groups-some :
    (say : List Text → Text) (o : Option (List Text)) (said : Text)
    → with_groups say o ≡ some said
    → (gs : List Text) × (o ≡ some gs) × (say gs ≡ said)
unfolding with_groups
with_groups-some say none said e = cc
with_groups-some say (some gs) said e = (gs, refl, ground arith)

if-some : (b : Bool) (x said : Text) → (if b then some x else none) ≡ some said → x ≡ said
if-some true x said e = ground arith
if-some false x said e = cc

module _ (c : Catalog) (lang : Text) where
  pub served-IsMessage :
      (key : Text) (values : List Text)
      → served (pack_for c lang) (length values) key ≡ true
      → IsMessage (pack_for c lang) (t c lang key values)
  served-IsMessage key values h =
      let (m, found, places) = served-some (pack_for c lang) (length values) key h in
      record {
        key = key;
        values = values;
        wording = m;
        found = found;
        all_filled = places;
        filled = t_of_message c lang key values found;
      }

  apply_rule-IsMessage :
      (r : Rule) (s said : Text)
      → rule_served (pack_for c lang) r ≡ true
      → apply_rule c lang r s ≡ some said
      → IsMessage (pack_for c lang) said
  unfolding rule_served apply_rule
  apply_rule-IsMessage (on_match p key) s said h e =
      let (gs, hit, same) = with_groups-some (t c lang (codes key)) (match p s) said e in
      let count = Reads-groups (match_sound p s gs hit) in
      subst (IsMessage (pack_for c lang)) same (
        served-IsMessage (codes key) gs
          (subst (λ n. served (pack_for c lang) n (codes key) ≡ true) (sym count) h))
  apply_rule-IsMessage (on_text k key) s said h e =
      subst (IsMessage (pack_for c lang)) (if-some (text_eq s (codes k)) _ said e)
        (served-IsMessage (codes key) [] h)
  apply_rule-IsMessage (on_prefix k key) s said h e =
      subst (IsMessage (pack_for c lang)) (if-some (starts_with s (codes k)) _ said e)
        (served-IsMessage (codes key) (_ ∷ []) h)
  apply_rule-IsMessage (on_part k key) s said h e =
      subst (IsMessage (pack_for c lang)) (if-some (includes s (codes k)) _ said e)
        (served-IsMessage (codes key) [] h)

  pub apply_rules-said :
      (rs : List Rule) (s : Text)
      → all (rule_served (pack_for c lang)) rs ≡ true
      → (apply_rules c lang rs s ≡ s) ⊎ IsMessage (pack_for c lang) (apply_rules c lang rs s)
  unfolding apply_rules
  apply_rules-said [] s h = inl refl
  apply_rules-said (r ∷ rs) s h =
      let (one, more) =
        and-true (rule_served (pack_for c lang) r) (all (rule_served (pack_for c lang)) rs) h in
      elim (Option-cases (apply_rule c lang r s)) [
        | inl miss ↦ rw (miss, apply_rules) (apply_rules-said rs s more)
        | inr (said, hit) ↦ rw (hit, apply_rules) (inr (apply_rule-IsMessage r s said one hit))
      ]

all-append {ℓ} :
    {A : Type ℓ} (p : A → Bool) (xs ys : List A)
    → all p xs ≡ true
    → all p ys ≡ true
    → all p (xs ++ ys) ≡ true
all-append p [] ys h k = k
all-append p (x ∷ xs) ys h k =
    let (one, more) = and-true (p x) (all p xs) h in rw one (all-append p xs ys more k)

complete-parts :
    (pack : Pack)
    → diag_complete pack ≡ true
    → (table_served pack diag_exact_keys ≡ true)
      × (table_served pack diag_code_keys ≡ true)
      × (table_served pack diag_class_keys ≡ true)
      × (all (rule_served pack) (first_rules ++ later_rules) ≡ true)
unfolding diag_complete
complete-parts pack h =
    let (exact, h1) = and-true _ _ h in
    let (code, h2) = and-true _ _ h1 in
    let (class, h3) = and-true _ _ h2 in
    let (first, later) = and-true _ _ h3 in
    (exact, code, class, all-append (rule_served pack) first_rules later_rules first later)

-- Either the text itself or a message of the current language's pack.
abbrev pub Said : Catalog → Text → Text → Text → Type 0
Said c lang s said = (said ≡ s) ⊎ IsMessage (pack_for c lang) said

pub said_or-Said :
    (c : Catalog) (lang s : Text) (o : Option Text) (later : Text)
    → ((key : Text) → o ≡ some key → served (pack_for c lang) 0 key ≡ true)
    → Said c lang s later
    → Said c lang s (said_or c lang o later)
unfolding said_or
said_or-Said c lang s none later h k = k
said_or-Said c lang s (some key) later h k = inr (served-IsMessage c lang key [] (h key refl))

-- In a language whose pack serves every statement, the answer is either the value itself without
-- the white space around it, or a message of that language's pack: never a bare key, never a
-- message of another language, and with a value for each place of the message.
pub translate_diag_text-said :
    (c : Catalog) (lang value : Text)
    → diag_complete (pack_for c lang) ≡ true
    → (translate_diag_text c lang value ≡ trim value)
      ⊎ IsMessage (pack_for c lang) (translate_diag_text c lang value)
unfolding translate_diag_text
translate_diag_text-said c lang value h =
    let pack = pack_for c lang in
    let s = trim value in
    let parts = complete-parts pack h in
    let first = trim (before b':' s) in
    elim (Bool-cases (text_eq s [])) [
      | inl e ↦ rw e (inl (sym (eq_of_text_eq s [] e)))
      | inr e ↦ rw e (
          said_or-Said c lang s (key_of diag_exact_keys s) _
            (λ k. key_of-served pack diag_exact_keys s k parts.0)
            (said_or-Said c lang s (key_of diag_code_keys first) _
              (λ k. key_of-served pack diag_code_keys first k parts.1)
              (said_or-Said c lang s (key_of diag_class_keys s) _
                (λ k. key_of-served pack diag_class_keys s k parts.2)
                (apply_rules-said c lang (first_rules ++ later_rules) s parts.3))))
    ]
