-- ===== src/I18n/Packs/DeDe/Tools.antt =====
-- webui/assets/i18n.js, the German pack: sign-out, recovery, tools, security and fix texts.
use Prim.Native.String.{String}
use mathlib.Core.List.{List, [], ◌∷◌}

unfoldable pub de_de_tools : List (String × String)
de_de_tools =
    ("logout.title", "Abmelden")
    ∷ ("logout.message", "Möchten Sie sich wirklich von NetCheck abmelden?")
    ∷ ("auth.rateLimited", "Zu viele Versuche. Warte eine Minute.")
    ∷ ("auth.loginFailed", "Anmeldung fehlgeschlagen")
    ∷ ("auth.attemptsRemaining", "Noch {1} Versuche")
    ∷ ("auth.lockedRetry", "Konto gesperrt — erneut in {1}")
    ∷ ("auth.passwordMismatch", "Die Passwörter stimmen nicht überein")
    ∷ ("auth.unreachable", "NetCheck-Backend ist nicht erreichbar")
    ∷ (
      "auth.tosSession",
      "Ihre TOS-Control-Panel-Sitzung ist abgelaufen. Melden Sie sich erneut bei TOS an und versuchen Sie es dann erneut.",
    )
    ∷ ("auth.retry", "Erneut versuchen")
    ∷ ("recovery.title", "Wiederherstellungscode")
    ∷ (
      "recovery.description",
      "Speichere diesen Code jetzt. Er wird nur einmal angezeigt und ist der einzige Weg, dein Passwort ohne Serverzugang zurückzusetzen.",
    )
    ∷ ("recovery.copy", "Kopieren")
    ∷ ("recovery.continue", "Gespeichert — weiter")
    ∷ (
      "forgot.sub",
      "Setze dein Passwort mit dem Wiederherstellungscode aus der Ersteinrichtung zurück",
    )
    ∷ ("forgot.recoveryCode", "Wiederherstellungscode")
    ∷ ("forgot.reset", "Passwort zurücksetzen")
    ∷ ("forgot.wrongCode", "Falscher Benutzername oder Wiederherstellungscode")
    ∷ ("forgot.resetFailed", "Zurücksetzen des Passworts fehlgeschlagen")
    ∷ ("tools.sub", "Geräte · Ports · Route verfolgen · DNS")
    ∷ ("tools.deviceDiscovery", "Gerätesuche")
    ∷ ("tools.scan", "Scannen")
    ∷ ("tools.scanHint", "Wähle „Scannen“, um Geräte im lokalen Netz zu finden")
    ∷ ("tools.noDevices", "Keine Geräte gefunden")
    ∷ ("tools.devicesFound", "{1} Geräte gefunden")
    ∷ ("tools.conflict", "Konflikt")
    ∷ ("tools.portCheck", "Portprüfung")
    ∷ ("tools.check", "Prüfen")
    ∷ ("tools.traceroute", "Route verfolgen")
    ∷ ("tools.trace", "Verfolgen")
    ∷ ("tools.dnsCompare", "DNS-Vergleich")
    ∷ ("tools.compare", "Vergleichen")
    ∷ ("tools.hostPortRequired", "Gib Host und Port ein")
    ∷ ("tools.open", "Offen")
    ∷ ("tools.closed", "Geschlossen")
    ∷ ("tools.targetRequired", "Gib ein Ziel ein")
    ∷ ("tools.tracing", "Verfolgen…")
    ∷ ("tools.breakpoint", "Abbruchpunkt: Hop {1}")
    ∷ ("tools.domainRequired", "Gib eine Domain ein")
    ∷ ("tools.possibleHijack", "Mögliche Manipulation")
    ∷ ("tools.consistent", "Konsistent")
    ∷ ("security.sub", "Firewall · Angriffsfläche · Tunnel")
    ∷ ("security.rescan", "Erneut scannen")
    ∷ ("security.rescanHint", "Wähle „Erneut scannen“, um zu starten")
    ∷ ("security.firewall", "Firewall")
    ∷ ("security.active", "Aktiv")
    ∷ ("security.inactive", "Inaktiv")
    ∷ ("security.none", "Keine")
    ∷ ("security.exposedPorts", "Offengelegte Ports")
    ∷ ("security.highRisk", "{1} mit hohem Risiko")
    ∷ ("security.tunnel", "Tunnel")
    ∷ ("security.listeningPorts", "Lauschende Ports")
    ∷ ("security.port", "Port")
    ∷ ("security.binding", "Bindung")
    ∷ ("security.risk", "Risiko")
    ∷ ("security.service", "Dienst")
    ∷ ("interfaces.primary", "Primär")
    ∷ ("diag.score", "Bewertung: {1} · {2}")
    ∷ ("diag.complete", "Diagnose abgeschlossen. Bewertung: {1}")
    ∷ ("diag.level.healthy", "Gesund")
    ∷ ("diag.level.warning", "Warnung")
    ∷ ("diag.level.fault", "Fehler")
    ∷ ("group.A", "Sicherungsschicht")
    ∷ ("group.B", "IPv4")
    ∷ ("group.C", "Routen")
    ∷ ("group.D", "DNS")
    ∷ ("group.E", "IPv6")
    ∷ ("group.F", "Internet")
    ∷ ("group.G", "Sonstiges")
    ∷ ("group.H", "TOS-Dienste")
    ∷ ("group.I", "Transport")
    ∷ ("fix.action", "Aktion")
    ∷ ("fixmsg.verifyFailed", "Verifizierung nach der Reparatur fehlgeschlagen")
    ∷ ("fixmsg.ntpPending", "NTP-Dienst neu gestartet; Synchronisierung läuft")
    ∷ ("fixmsg.currentlyPasses", "Prüfung ist derzeit bestanden")
    ∷ ("fixmsg.notApplicable", "Prüfung nicht anwendbar")
    ∷ ("fixmsg.confirmRequired", "Bestätigung erforderlich")
    ∷ ("fixmsg.noAutoFix", "Keine automatische Reparatur verfügbar")
    ∷ ("fixmsg.noAutoFixFor", "Keine automatische Reparatur für {1}")
    ∷ ("fixmsg.gatewayRequired", "Gateway erforderlich")
    ∷ ("fixmsg.failed", "Reparatur fehlgeschlagen")
    ∷ ("guidemsg.linkCable", "# Bleibt die Datenrate reduziert, Kabel oder Switch-Port ersetzen")
    ∷ (
      "guidemsg.staticNoAutoSwitch",
      "Diese Schnittstelle verwendet eine statische Adresse; NetCheck schaltet sie nicht automatisch auf DHCP um.",
    )
    ∷ (
      "guidemsg.staticMgmtRisk",
      "Eine Änderung der NAS-Adresse kann die Fernverwaltung unterbrechen.",
    )
    ∷ (
      "guidemsg.staticResolve",
      "Ermitteln Sie das duplizierte Gerät anhand der in den Diagnosedetails gezeigten MAC, schalten Sie es aus oder ändern Sie seine Adresse – oder weisen Sie diesem NAS in TOS-Systemsteuerung > Netzwerk eine neue statische Adresse zu.",
    )
    ∷ (
      "guidemsg.dnsPersistent",
      "# Dauerhaft: DNS=223.5.5.5 in [Network] der Datei 10-<if>.network ergänzen, dann:",
    )
    ∷ ("guidemsg.tunnelRecheck", "TOS-Systemsteuerung > Netzwerkdienste > Fernzugriff öffnen.")
    ∷ (
      "guidemsg.tunnelSignin",
      "Melden Sie sich erneut bei TNAS.online an und führen Sie diese Prüfung erneut aus.",
    )
    ∷ (
      "guidemsg.tunnelService",
      "Bleibt die Verbindung getrennt, prüfen Sie Internetzugang und TerraMaster-Dienststatus.",
    )
    ∷ []
