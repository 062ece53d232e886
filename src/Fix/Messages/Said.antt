-- ===== src/Fix/Messages/Said.antt =====
-- The repair wizard's texts are messages of the current language, or the backend's own.
use netcheck.Common.{
  true, ◌&&◌, none, some, [], ◌≡◌, refl, inl, inr, Text, text_eq, trim, all, includes, decimal,
  Bool-cases, Option-cases, and-true, eq_of_text_eq, sym, Bool, arith, subst, ◌∙◌,
}
use netcheck.I18n.Catalog.{Pack, message, pack_for, t}
use netcheck.I18n.Catalog.Lookup.{pack_for-P}
use netcheck.I18n.Packs.{i18n}
use netcheck.I18n.Packs.EnUs.{en_us}
use netcheck.I18n.Packs.DeDe.{de_de}
use netcheck.I18n.Packs.FrFr.{fr_fr}
use netcheck.I18n.Packs.ZhCn.{zh_cn}
use netcheck.Diag.Translate.{key_of}
use netcheck.Diag.Translate.Keys.{
  served, served_by, no_place_above, table_served, rule_served, groups, IsMessage, Said,
  key_of-served, said_or-Said, apply_rules-said, served-IsMessage,
}
use netcheck.Fix.Messages.{
  fix_msg_keys, guide_line_keys, fix_rules, translate_fix_message, translate_guide_line,
}

fix_complete : Pack → Bool
fix_complete pack =
    table_served pack fix_msg_keys
    && (table_served pack guide_line_keys && all (rule_served pack) fix_rules)

runs : Unit {0}
unfolding fix_complete table_served rule_served groups served served_by no_place_above message
    fix_msg_keys guide_line_keys fix_rules includes decimal
runs = tt

en_us-fix_complete : fix_complete en_us ≡ true
unfolding runs en_us
en_us-fix_complete = refl

de_de-fix_complete : fix_complete de_de ≡ true
unfolding runs de_de
de_de-fix_complete = refl

fr_fr-fix_complete : fix_complete fr_fr ≡ true
unfolding runs fr_fr
fr_fr-fix_complete = refl

zh_cn-fix_complete : fix_complete zh_cn ≡ true
unfolding runs zh_cn
zh_cn-fix_complete = refl

fix_complete-parts :
    (lang : Text)
    → (table_served (pack_for i18n lang) fix_msg_keys ≡ true)
      × (table_served (pack_for i18n lang) guide_line_keys ≡ true)
      × (all (rule_served (pack_for i18n lang)) fix_rules ≡ true)
unfolding fix_complete i18n
fix_complete-parts lang =
    let whole =
      pack_for-P (λ p. fix_complete p ≡ true) i18n lang en_us-fix_complete
        (de_de-fix_complete, (fr_fr-fix_complete, (zh_cn-fix_complete, tt))) in
    let (first, later) = and-true _ _ whole in
    let (second, third) = and-true _ _ later in (first, second, third)

guide_line-IsMessage :
    (lang value line : Text)
    → table_served (pack_for i18n lang) guide_line_keys ≡ true
    → translate_guide_line i18n lang value ≡ some line
    → IsMessage (pack_for i18n lang) line
unfolding translate_guide_line
guide_line-IsMessage lang value line served_all h =
    let s = trim value in
    elim (Option-cases (key_of guide_line_keys s)) [
      | inl nothing ↦
          let gone : translate_guide_line i18n lang value ≡ none =
            rw (nothing, translate_guide_line) refl in
          let both : none ≡ some line = sym gone ∙ h in absurd (ground (arith, both))
      | inr (key, found) ↦
          let said : translate_guide_line i18n lang value ≡ some (t i18n lang key []) =
            rw (found, translate_guide_line) refl in
          let both : some (t i18n lang key []) ≡ some line = sym said ∙ h in
          let same : t i18n lang key [] ≡ line = cc in
          subst (IsMessage (pack_for i18n lang)) same (
            served-IsMessage i18n lang key []
              (key_of-served (pack_for i18n lang) guide_line_keys s key served_all found))
    ]

-- In every language, with the four packs that are modelled: a message of a repair is shown as it is,
-- without the white space around it, or as a message of the pack in force, with a value for each place;
-- and a line of a guide that is translated is such a message.
pub translate_fix_message-Said :
    (lang value : Text)
    → Said i18n lang (trim value) (translate_fix_message i18n lang value)
      × ((line : Text)
          → translate_guide_line i18n lang value ≡ some line
          → IsMessage (pack_for i18n lang) line)
unfolding translate_fix_message translate_guide_line
translate_fix_message-Said lang value =
    let s = trim value in
    let (messages, lines, rules) = fix_complete-parts lang in
    (
      elim (Bool-cases (text_eq s [])) [
        | inl e ↦ rw (e, translate_fix_message) (inl (sym (eq_of_text_eq s [] e)))
        | inr e ↦
            rw (e, translate_fix_message)
              (said_or-Said i18n lang s (key_of fix_msg_keys s) _
                (λ k. key_of-served (pack_for i18n lang) fix_msg_keys s k messages)
                (apply_rules-said i18n lang fix_rules s rules))
      ],
      λ line. guide_line-IsMessage lang value line lines,
    )
