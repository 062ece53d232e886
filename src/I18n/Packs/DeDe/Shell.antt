-- ===== src/I18n/Packs/DeDe/Shell.antt =====
-- webui/assets/i18n.js, the German pack: navigation, sign-in, overview and column texts.
use Prim.Native.String.{String}
use mathlib.Core.List.{List, [], ◌∷◌}

unfoldable pub de_de_shell : List (String × String)
de_de_shell =
    ("app.tag", "Netzwerkdiagnose & Reparatur")
    ∷ ("nav.net", "Netzwerk")
    ∷ ("nav.tools", "Werkzeuge")
    ∷ ("nav.sys", "System")
    ∷ ("nav.dashboard", "Übersicht")
    ∷ ("nav.interfaces", "Schnittstellen")
    ∷ ("nav.diagnose", "Diagnose")
    ∷ ("nav.tools2", "Werkzeuge")
    ∷ ("nav.monitor", "Überwachung")
    ∷ ("nav.security", "Sicherheit")
    ∷ ("nav.snapshots", "Snapshots")
    ∷ ("nav.settings", "Einstellungen")
    ∷ ("nav.history", "Verlauf")
    ∷ ("nav.logout", "Abmelden")
    ∷ ("login.title", "Bei NetCheck anmelden")
    ∷ ("login.sub", "Netzwerkdiagnose · Anmelden")
    ∷ ("login.hint", "Erste Nutzung startet die Kontoeinrichtung")
    ∷ ("login.init", "Ersteinrichtung →")
    ∷ ("login.user", "Benutzername")
    ∷ ("login.pass", "Passwort")
    ∷ ("login.remember", "Angemeldet bleiben")
    ∷ ("login.btn", "Anmelden")
    ∷ ("login.forgot", "Passwort vergessen?")
    ∷ ("init.title", "Kontoeinrichtung")
    ∷ ("init.sub", "Erste Nutzung — Admin-Konto festlegen")
    ∷ ("init.confirm", "Passwort bestätigen")
    ∷ ("init.hint", "Passwort: min. 8 Zeichen mit Buchstaben und Ziffern")
    ∷ ("init.btn", "Einrichtung abschließen")
    ∷ ("dash.title", "Netzwerkübersicht")
    ∷ ("dash.health", "Gesamtzustand")
    ∷ ("dash.refresh", "Aktualisieren")
    ∷ ("dash.diagBtn", "Jetzt prüfen")
    ∷ ("dash.connectivity", "Konnektivität")
    ∷ ("dash.issues", "Offene Probleme")
    ∷ ("dash.nics", "Schnittstellen")
    ∷ ("dash.traffic", "Live-Verkehr")
    ∷ ("dash.viewAll", "Alle anzeigen")
    ∷ ("light.gateway", "Gateway")
    ∷ ("light.internet", "Internet")
    ∷ ("light.dns", "DNS")
    ∷ ("light.ipv6", "IPv6")
    ∷ ("if.title", "Alle Schnittstellen")
    ∷ ("if.sub", "Dual-Architektur")
    ∷ ("if.scan", "Neu scannen")
    ∷ ("diag.title", "Netzwerkdiagnose")
    ∷ ("diag.sub", "9 Gruppen · A–I")
    ∷ ("diag.run", "Volle Prüfung")
    ∷ ("diag.running", "Läuft…")
    ∷ ("diag.export", "Bericht exportieren")
    ∷ ("btn.fix", "Reparieren")
    ∷ ("btn.guide", "Anleitung")
    ∷ ("btn.close", "Schließen")
    ∷ ("btn.cancel", "Abbrechen")
    ∷ ("fix.title", "Reparatur-Assistent")
    ∷ ("fix.steps", "Konfig sichern,Reparatur ausführen,Konnektivität prüfen,Verlauf schreiben")
    ∷ ("fix.confirm", "Ich verstehe die Risiken und bestätige")
    ∷ ("fix.run", "Reparatur bestätigen")
    ∷ ("fix.ok", "Reparatur erfolgreich")
    ∷ ("fix.fail", "Reparatur fehlgeschlagen")
    ∷ ("fix.rolled", "Automatisch zurückgesetzt")
    ∷ ("set.title", "Einstellungen")
    ∷ ("set.lang", "Sprache")
    ∷ ("set.theme", "Design")
    ∷ ("set.repair", "Reparaturmodus")
    ∷ ("set.autoDiag", "Geplante Prüfungen")
    ∷ ("set.save", "Einstellungen speichern")
    ∷ ("set.saved", "Gespeichert")
    ∷ ("about.version", "Version")
    ∷ ("about.check", "Update prüfen")
    ∷ ("hist.title", "Verlauf")
    ∷ ("hist.fix", "Reparaturverlauf")
    ∷ ("st.pass", "OK")
    ∷ ("st.warn", "Warnung")
    ∷ ("st.fail", "Fehler")
    ∷ ("st.na", "N/V")
    ∷ ("toast.login.ok", "Angemeldet")
    ∷ ("toast.saved", "Gespeichert")
    ∷ ("toast.fixing", "Reparatur läuft")
    ∷ ("col.iface", "Schnittstelle")
    ∷ ("col.type", "Typ")
    ∷ ("col.state", "Status")
    ∷ ("col.speed", "Link-Datenrate")
    ∷ ("col.mode", "Modus")
    ∷ ("nav.forgot", "Passwort vergessen")
    ∷ []
