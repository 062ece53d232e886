-- ===== src/Views/Messages.antt =====
-- The messages that webui/assets/app.js puts into the document with no `esc`.
use netcheck.Common.{
  Bool, true, false, not, ◌&&◌, Option, none, some, List, [], ◌∷◌, ◌≡◌, refl, String, Text, codes,
  all, all-All, All, ◌==◌, arith, subst, All-imp, sym,
}
use netcheck.I18n.Catalog.{Pack, message, pack_for, fill_from, t}
use netcheck.I18n.Catalog.Lookup.{pack_for-P, t_of_message}
use netcheck.I18n.Packs.{i18n}
use netcheck.I18n.Packs.EnUs.{en_us}
use netcheck.I18n.Packs.DeDe.{de_de}
use netcheck.I18n.Packs.FrFr.{fr_fr}
use netcheck.I18n.Packs.ZhCn.{zh_cn}
use netcheck.Html.Escape.{IsInert}

-- The keys of `${t(…)}` in `doPortCheck`, `loadSecurity`, `renderModal` and `viewSettings`.
abbrev pub raw_keys : List String
raw_keys =
    "tools.open" ∷ "tools.closed" ∷ "security.active" ∷ "security.inactive" ∷ "fix.pending"
    ∷ "fix.ok" ∷ "fix.fail" ∷ "common.on" ∷ "common.off" ∷ []

is_inert : Text → Bool
is_inert = all (λ c. (not (c == b'<') && not (c == b'>')) && (not (c == b'"') && not (c == b'\'')))

is_inert-IsInert : (s : Text) → is_inert s ≡ true → IsInert s
unfolding is_inert
is_inert-IsInert [] h = tt
is_inert-IsInert (c ∷ s) h = ground (arith, is_inert-IsInert s)

found_inert : Option Text → Bool
found_inert none = false
found_inert (some m) = is_inert m

raw_inert : Pack → Bool
raw_inert p = all (λ key. found_inert (message p (codes key))) raw_keys

abbrev HasInert : Pack → String → Type 0
HasInert p key = (m : Text) × (message p (codes key) ≡ some m) × IsInert m

found_inert-HasInert :
    (o : Option Text) → found_inert o ≡ true → (m : Text) × (o ≡ some m) × IsInert m
unfolding found_inert
found_inert-HasInert none h = cc
found_inert-HasInert (some m) h = (m, refl, is_inert-IsInert m h)

raw_inert-HasInert : (p : Pack) → raw_inert p ≡ true → All (HasInert p) raw_keys
unfolding raw_inert
raw_inert-HasInert p h =
    all-All (λ key. found_inert (message p (codes key))) (HasInert p)
      (λ key. found_inert-HasInert (message p (codes key))) raw_keys h

en_us-raw_inert : raw_inert en_us ≡ true
unfolding raw_inert found_inert is_inert message en_us
en_us-raw_inert = refl

de_de-raw_inert : raw_inert de_de ≡ true
unfolding raw_inert found_inert is_inert message de_de
de_de-raw_inert = refl

fr_fr-raw_inert : raw_inert fr_fr ≡ true
unfolding raw_inert found_inert is_inert message fr_fr
fr_fr-raw_inert = refl

zh_cn-raw_inert : raw_inert zh_cn ≡ true
unfolding raw_inert found_inert is_inert message zh_cn
zh_cn-raw_inert = refl

-- In every language, with the four packs, the messages that are put into the document with no `esc`
-- hold none of < > " '.
pub raw_message-IsInert : (lang : Text) → All (λ key. IsInert (t i18n lang (codes key) [])) raw_keys
unfolding i18n fill_from
raw_message-IsInert lang =
    let good =
      pack_for-P (λ p. raw_inert p ≡ true) i18n lang en_us-raw_inert
        (de_de-raw_inert, (fr_fr-raw_inert, (zh_cn-raw_inert, tt))) in
    All-imp (HasInert (pack_for i18n lang)) (λ key. IsInert (t i18n lang (codes key) []))
      (λ key h.
        let (m, found, inert) = h in
        subst IsInert (sym (t_of_message i18n lang (codes key) [] found)) inert)
      raw_keys (raw_inert-HasInert (pack_for i18n lang) good)
