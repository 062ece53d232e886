-- ===== src/I18n/Packs/EnUs/Shell.antt =====
-- webui/assets/i18n.js, the English pack: navigation, sign-in, overview and column texts.
use Prim.Native.String.{String}
use mathlib.Core.List.{List, [], ◌∷◌}

unfoldable pub en_us_shell : List (String × String)
en_us_shell =
    ("app.tag", "TOS Network Diagnostics & Repair")
    ∷ ("nav.net", "Network")
    ∷ ("nav.tools", "Tools")
    ∷ ("nav.sys", "System")
    ∷ ("nav.dashboard", "Dashboard")
    ∷ ("nav.interfaces", "Interfaces")
    ∷ ("nav.diagnose", "Diagnose")
    ∷ ("nav.tools2", "Network Tools")
    ∷ ("nav.monitor", "Monitoring")
    ∷ ("nav.security", "Security")
    ∷ ("nav.snapshots", "Snapshots")
    ∷ ("nav.settings", "Settings")
    ∷ ("nav.history", "History")
    ∷ ("nav.logout", "Log Out")
    ∷ ("login.title", "Sign in to NetCheck")
    ∷ ("login.sub", "Network diagnostics · Sign in")
    ∷ ("login.hint", "First use enters account setup")
    ∷ ("login.init", "First-Time Setup")
    ∷ ("login.user", "Username")
    ∷ ("login.pass", "Password")
    ∷ ("login.remember", "Remember me")
    ∷ ("login.btn", "Log In")
    ∷ ("login.forgot", "Forgot Password?")
    ∷ ("init.title", "Account Setup")
    ∷ ("init.sub", "First use — set the admin account")
    ∷ ("init.confirm", "Confirm password")
    ∷ ("init.hint", "Password: at least 8 chars with letters and digits")
    ∷ ("init.btn", "Finish Setup")
    ∷ ("dash.title", "Network Overview")
    ∷ ("dash.health", "Overall Health")
    ∷ ("dash.refresh", "Refresh")
    ∷ ("dash.diagBtn", "Run Check")
    ∷ ("dash.connectivity", "Connectivity")
    ∷ ("dash.issues", "Open Issues")
    ∷ ("dash.nics", "Interfaces")
    ∷ ("dash.traffic", "Live Traffic")
    ∷ ("dash.viewAll", "View All")
    ∷ ("light.gateway", "Gateway")
    ∷ ("light.internet", "Internet")
    ∷ ("light.dns", "DNS")
    ∷ ("light.ipv6", "IPv6")
    ∷ ("if.title", "All Interfaces")
    ∷ ("if.sub", "Dual-Architecture Compatible")
    ∷ ("if.scan", "Rescan")
    ∷ ("diag.title", "Network Diagnostics")
    ∷ ("diag.sub", "9 Groups · A–I")
    ∷ ("diag.run", "Run Full Check")
    ∷ ("diag.running", "Running…")
    ∷ ("diag.export", "Export Report")
    ∷ ("btn.fix", "Fix")
    ∷ ("btn.guide", "Guide")
    ∷ ("btn.close", "Close")
    ∷ ("btn.cancel", "Cancel")
    ∷ ("fix.title", "Fix Wizard")
    ∷ ("fix.steps", "Back Up Configuration,Apply Fix,Verify Connectivity,Record History")
    ∷ ("fix.confirm", "I understand the risks and confirm")
    ∷ ("fix.run", "Confirm Fix")
    ∷ ("fix.ok", "Fix Succeeded")
    ∷ ("fix.fail", "Fix Failed")
    ∷ ("fix.rolled", "Rolled back automatically")
    ∷ ("set.title", "Settings")
    ∷ ("set.lang", "Language")
    ∷ ("set.theme", "Theme")
    ∷ ("set.repair", "Repair Mode")
    ∷ ("set.autoDiag", "Scheduled checks")
    ∷ ("set.save", "Save Settings")
    ∷ ("set.saved", "Saved")
    ∷ ("about.version", "Version")
    ∷ ("about.check", "Check for Updates")
    ∷ ("hist.title", "History")
    ∷ ("hist.fix", "Fix History")
    ∷ ("st.pass", "Pass")
    ∷ ("st.warn", "Warn")
    ∷ ("st.fail", "Fail")
    ∷ ("st.na", "N/A")
    ∷ ("toast.login.ok", "Signed in")
    ∷ ("toast.saved", "Settings saved")
    ∷ ("toast.fixing", "Fix Running")
    ∷ ("col.iface", "Interface")
    ∷ ("col.type", "Type")
    ∷ ("col.state", "State")
    ∷ ("col.speed", "Link Rate")
    ∷ ("col.mode", "Mode")
    ∷ ("nav.forgot", "Forgot Password")
    ∷ []
