-- ===== src/Diag/Labels/Shipped.antt =====
-- What the names of the checks are made of, with the modelled packs.
use netcheck.Common.{
  Bool, true, not, ◌&&◌, none, some, [], ◌∷◌, ◌≡◌, refl, ◌⊎◌, inl, inr, Text, codes, text_eq,
  text_eq_refl, eq_of_text_eq, before, and-true, Bool-cases, Option-cases, arith, subst,
}
use netcheck.I18n.Catalog.{Pack, message, pack_for, fill_from, t}
use netcheck.I18n.Catalog.Lookup.{pack_for-P}
use netcheck.I18n.Packs.{i18n}
use netcheck.I18n.Packs.EnUs.{en_us}
use netcheck.I18n.Packs.DeDe.{de_de}
use netcheck.I18n.Packs.FrFr.{fr_fr}
use netcheck.I18n.Packs.ZhCn.{zh_cn}
use netcheck.I18n.Packs.Parity.{template-shipped}
use netcheck.Diag.Labels.{own_label, with_port, label_or, check_key, check_name}

-- No message is empty or its own key.
spoken : Pack → Bool
spoken [] = true
spoken ((k, v) ∷ p) = (not (text_eq (codes v) []) && not (text_eq (codes v) (codes k))) && spoken p

en_us-spoken : spoken en_us ≡ true
unfolding spoken en_us
en_us-spoken = refl

de_de-spoken : spoken de_de ≡ true
unfolding spoken de_de
de_de-spoken = refl

fr_fr-spoken : spoken fr_fr ≡ true
unfolding spoken fr_fr
fr_fr-spoken = refl

zh_cn-spoken : spoken zh_cn ≡ true
unfolding spoken zh_cn
zh_cn-spoken = refl

message-spoken :
    (p : Pack) (key : Text) {m : Text}
    → spoken p ≡ true
    → message p key ≡ some m
    → (not (text_eq m []) && not (text_eq m key)) ≡ true
unfolding message spoken
message-spoken [] key h e = cc
message-spoken ((k, v) ∷ p) key {m} h e =
    let (here, later) =
      and-true (not (text_eq (codes v) []) && not (text_eq (codes v) (codes k))) (spoken p) h in
    elim (Bool-cases (text_eq (codes k) key)) [
      | inl hit ↦
          let same : codes v ≡ m = ground arith in
          let own : codes k ≡ key = eq_of_text_eq (codes k) key hit in
          subst (λ x. (not (text_eq m []) && not (text_eq m x)) ≡ true) own
            (subst (λ x. (not (text_eq x []) && not (text_eq x (codes k))) ≡ true) same here)
      | inr miss ↦ message-spoken p key later (ground arith)
    ]

shipped_spoken : (lang : Text) → spoken (pack_for i18n lang) ≡ true
unfolding i18n
shipped_spoken lang =
    pack_for-P (λ p. spoken p ≡ true) i18n lang en_us-spoken
      (de_de-spoken, (fr_fr-spoken, (zh_cn-spoken, tt)))

-- In every language, with the four packs, a check whose kind has a message is named by the message of
-- the pack in force, and any other by its own label, which is fixed in the code or its identifier up
-- to the colon; the port, where there is one, stands behind. So no message's key is shown.
check_name-shipped :
    (lang id port : Text)
    → ((m : Text) × (message (pack_for i18n lang) (check_key id) ≡ some m)
        × (check_name i18n lang id port ≡ with_port port m))
      ⊎ ((message en_us (check_key id) ≡ none)
          × (check_name i18n lang id port ≡ with_port port (own_label (before b':' id))))
unfolding check_name t fill_from label_or
check_name-shipped lang id port =
    let (served, other) = template-shipped lang (check_key id) in
    elim (Option-cases (message en_us (check_key id))) [
      | inl gone ↦
          let (_, same) = other gone in
          let bare = text_eq_refl (check_key id) in inr (gone, rw (same, bare) refl)
      | inr (e, english) ↦
          let (m, hit, same) = served e english in
          let good = message-spoken (pack_for i18n lang) (check_key id) (shipped_spoken lang) hit in
          inl (m, hit, rw (same, good) refl)
    ]
