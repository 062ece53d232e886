-- ===== src/I18n/Packs/EnUs/Tools.antt =====
-- webui/assets/i18n.js, the English pack: sign-out, recovery, tools, security and fix texts.
use Prim.Native.String.{String}
use mathlib.Core.List.{List, [], ◌∷◌}

unfoldable pub en_us_tools : List (String × String)
en_us_tools =
    ("logout.title", "Log Out")
    ∷ ("logout.message", "Are you sure you want to log out of NetCheck?")
    ∷ ("auth.rateLimited", "Too many attempts. Wait one minute.")
    ∷ ("auth.loginFailed", "Login failed")
    ∷ ("auth.attemptsRemaining", "{1} attempts remaining")
    ∷ ("auth.lockedRetry", "Account locked — retry in {1}")
    ∷ ("auth.passwordMismatch", "Passwords do not match")
    ∷ ("auth.unreachable", "Unable to contact the NetCheck backend")
    ∷ (
      "auth.tosSession",
      "Your TOS control-panel session has expired. Sign in to TOS again, then retry.",
    )
    ∷ ("auth.retry", "Retry")
    ∷ ("recovery.title", "Recovery Code")
    ∷ (
      "recovery.description",
      "Save this code now. It is shown only once and is the only way to reset your password without server access.",
    )
    ∷ ("recovery.copy", "Copy")
    ∷ ("recovery.continue", "I Saved It — Continue")
    ∷ ("forgot.sub", "Reset your password with the recovery code from initial setup")
    ∷ ("forgot.recoveryCode", "Recovery code")
    ∷ ("forgot.reset", "Reset Password")
    ∷ ("forgot.wrongCode", "Incorrect username or recovery code")
    ∷ ("forgot.resetFailed", "Password reset failed")
    ∷ ("tools.sub", "Devices · Ports · Traceroute · DNS")
    ∷ ("tools.deviceDiscovery", "Device Discovery")
    ∷ ("tools.scan", "Scan")
    ∷ ("tools.scanHint", "Select Scan to discover LAN devices")
    ∷ ("tools.noDevices", "No devices found")
    ∷ ("tools.devicesFound", "{1} devices found")
    ∷ ("tools.conflict", "Conflict")
    ∷ ("tools.portCheck", "Port Check")
    ∷ ("tools.check", "Check")
    ∷ ("tools.traceroute", "Traceroute")
    ∷ ("tools.trace", "Trace")
    ∷ ("tools.dnsCompare", "DNS Compare")
    ∷ ("tools.compare", "Compare")
    ∷ ("tools.hostPortRequired", "Enter a host and port")
    ∷ ("tools.open", "Open")
    ∷ ("tools.closed", "Closed")
    ∷ ("tools.targetRequired", "Enter a target")
    ∷ ("tools.tracing", "Tracing…")
    ∷ ("tools.breakpoint", "Breakpoint: hop {1}")
    ∷ ("tools.domainRequired", "Enter a domain")
    ∷ ("tools.possibleHijack", "Possible hijack")
    ∷ ("tools.consistent", "Consistent")
    ∷ ("security.sub", "Firewall · Exposure · Tunnel")
    ∷ ("security.rescan", "Rescan")
    ∷ ("security.rescanHint", "Select Rescan to start")
    ∷ ("security.firewall", "Firewall")
    ∷ ("security.active", "Active")
    ∷ ("security.inactive", "Inactive")
    ∷ ("security.none", "None")
    ∷ ("security.exposedPorts", "Exposed Ports")
    ∷ ("security.highRisk", "{1} high risk")
    ∷ ("security.tunnel", "Tunnel")
    ∷ ("security.listeningPorts", "Listening Ports")
    ∷ ("security.port", "Port")
    ∷ ("security.binding", "Binding")
    ∷ ("security.risk", "Risk")
    ∷ ("security.service", "Service")
    ∷ ("interfaces.primary", "Primary")
    ∷ ("diag.score", "Score: {1} · {2}")
    ∷ ("diag.complete", "Diagnosis completed. Score: {1}")
    ∷ ("diag.level.healthy", "Healthy")
    ∷ ("diag.level.warning", "Warning")
    ∷ ("diag.level.fault", "Fault")
    ∷ ("group.A", "Link Layer")
    ∷ ("group.B", "IPv4")
    ∷ ("group.C", "Routes")
    ∷ ("group.D", "DNS")
    ∷ ("group.E", "IPv6")
    ∷ ("group.F", "Internet")
    ∷ ("group.G", "Other")
    ∷ ("group.H", "TOS Services")
    ∷ ("group.I", "Transport")
    ∷ ("fix.action", "Action")
    ∷ ("fixmsg.verifyFailed", "Verification failed after repair")
    ∷ ("fixmsg.ntpPending", "NTP service restarted; synchronization is pending")
    ∷ ("fixmsg.currentlyPasses", "Check currently passes")
    ∷ ("fixmsg.notApplicable", "Check not applicable")
    ∷ ("fixmsg.confirmRequired", "Confirmation required")
    ∷ ("fixmsg.noAutoFix", "No automatic fix available")
    ∷ ("fixmsg.noAutoFixFor", "No automatic fix for {1}")
    ∷ ("fixmsg.gatewayRequired", "Gateway required")
    ∷ ("fixmsg.failed", "Fix failed")
    ∷ ("guidemsg.linkCable", "# if speed stays degraded, replace the cable or switch port")
    ∷ (
      "guidemsg.staticNoAutoSwitch",
      "This interface uses a static address; NetCheck will not switch it to DHCP automatically.",
    )
    ∷ ("guidemsg.staticMgmtRisk", "Changing a NAS address can cut off remote management.")
    ∷ (
      "guidemsg.staticResolve",
      "Identify the duplicate device from the MAC shown in the scan detail, shut it down or change its address, or assign this NAS a new static address in TOS Control Panel > Network.",
    )
    ∷ (
      "guidemsg.dnsPersistent",
      "# persistent: add DNS=223.5.5.5 to [Network] in 10-<if>.network, then:",
    )
    ∷ ("guidemsg.tunnelRecheck", "Open TOS Control Panel > Network Services > Remote Access.")
    ∷ ("guidemsg.tunnelSignin", "Sign in to TNAS.online again, then rerun this check.")
    ∷ (
      "guidemsg.tunnelService",
      "If it remains disconnected, verify internet access and TerraMaster service status.",
    )
    ∷ []
