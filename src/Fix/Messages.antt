-- ===== src/Fix/Messages.antt =====
-- webui/assets/app.js, `translateFixMessage` and `translateGuideLine`: what the repair wizard shows of
-- the backend's English, in the current language.
pub mod Said
use netcheck.Common.{
  Option, none, some, List, [], ◌∷◌, String, Text, codes, text_eq, trim, if◌then◌else◌,
}
use netcheck.I18n.Catalog.{Catalog, t}
use netcheck.Diag.Pattern.{lit, line}
use netcheck.Diag.Rules.{Rule, on_match}
use netcheck.Diag.Translate.{key_of, said_or, apply_rules}

unfoldable pub fix_msg_keys : List (String × String)
fix_msg_keys =
    ("verification failed after repair", "fixmsg.verifyFailed")
    ∷ ("ntp service restarted; synchronization is pending", "fixmsg.ntpPending")
    ∷ ("check currently passes", "fixmsg.currentlyPasses")
    ∷ ("check not applicable", "fixmsg.notApplicable")
    ∷ ("confirm required", "fixmsg.confirmRequired")
    ∷ ("no automatic fix available", "fixmsg.noAutoFix")
    ∷ ("gateway required", "fixmsg.gatewayRequired")
    ∷ ("fix failed", "fixmsg.failed")
    ∷ []

unfoldable pub guide_line_keys : List (String × String)
guide_line_keys =
    ("# if speed stays degraded, replace the cable or switch port", "guidemsg.linkCable")
    ∷ (
      "This interface uses a static address; NetCheck will not switch it to DHCP automatically.",
      "guidemsg.staticNoAutoSwitch",
    )
    ∷ ("Changing a NAS address can cut off remote management.", "guidemsg.staticMgmtRisk")
    ∷ (
      "Identify the duplicate device from the MAC shown in the scan detail, shut it down or change its address, or assign this NAS a new static address in TOS Control Panel > Network.",
      "guidemsg.staticResolve",
    )
    ∷ (
      "# persistent: add DNS=223.5.5.5 to [Network] in 10-<if>.network, then:",
      "guidemsg.dnsPersistent",
    )
    ∷ ("Open TOS Control Panel > Network Services > Remote Access.", "guidemsg.tunnelRecheck")
    ∷ ("Sign in to TNAS.online again, then rerun this check.", "guidemsg.tunnelSignin")
    ∷ (
      "If it remains disconnected, verify internet access and TerraMaster service status.",
      "guidemsg.tunnelService",
    )
    ∷ []

-- `/^no auto-fix for (.+)$/`
unfoldable pub fix_rules : List Rule
fix_rules = on_match (lit "no auto-fix for " ∷ line ∷ []) "fixmsg.noAutoFixFor" ∷ []

module _ (c : Catalog) (lang : Text) where
  unfoldable pub translate_fix_message : Text → Text
  translate_fix_message value =
      let s = trim value in
      let said = said_or c lang (key_of fix_msg_keys s) (apply_rules c lang fix_rules s) in
      if text_eq s [] then [] else said

  -- `null` is `none`.
  unfoldable pub translate_guide_line : Text → Option Text
  translate_guide_line value = elim (key_of guide_line_keys (trim value)) [
    | none ↦ none
    | some key ↦ some (t c lang key [])
  ]
