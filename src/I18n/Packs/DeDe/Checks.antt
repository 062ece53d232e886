-- ===== src/I18n/Packs/DeDe/Checks.antt =====
-- webui/assets/i18n.js, the German pack: about page, check names and later history, monitor and snapshot texts.
use Prim.Native.String.{String}
use mathlib.Core.List.{List, [], ◌∷◌}

unfoldable pub de_de_checks : List (String × String)
de_de_checks =
    ("nav.about", "Über")
    ∷ ("about.title", "Über")
    ∷ ("about.app", "App-Name")
    ∷ ("about.developer", "Entwickler")
    ∷ ("about.publisher", "Herausgeber")
    ∷ (
      "about.intro",
      "NetCheck diagnostiziert und repariert Netzwerkprobleme unter TOS 7. Es prüft Schnittstellen, grenzt Verbindungsstörungen ein, testet DNS, TNAS.online und DDNS, misst Bandbreite und speichert Verläufe. So erkennen Sie, ob ein Problem am NAS, LAN oder Internet liegt.",
    )
    ∷ ("about.modules", "Modulanleitung")
    ∷ (
      "about.dashboard",
      "Fasst Gesundheitsscore, offene Probleme, Statusanzeigen und Schnittstellenhinweise zusammen, damit Sie den Gesamtzustand beurteilen und eine vollständige Diagnose starten können.\nSchritte: Modul öffnen, aktuelle Daten prüfen, Hauptaktion ausführen und Ergebnis mit dem vorherigen Stand vergleichen.",
    )
    ∷ (
      "about.interfaces",
      "Zeigt alle physischen, virtuellen, OVS- und Tunnel-Schnittstellen mit Adressen, Geschwindigkeit, Modus, MAC und weiteren Laufzeitdaten. Wählen Sie eine Zeile für Details.\nSchritte: Modul öffnen, aktuelle Daten prüfen, Hauptaktion ausführen und Ergebnis mit dem vorherigen Stand vergleichen.\nDas Loopback-Interface des Systems wird ausgeblendet, weil es intern und kein LAN-/WAN-Pfad ist.\nDie Link-Datenrate wird von der NIC ausgehandelt und beschreibt die theoretische Linkfähigkeit, nicht den gemessenen Durchsatz. Verwenden Sie für den Durchsatz einen Bandbreitentest.",
    )
    ∷ (
      "about.diagnose",
      "Führt alle Prüfungen aus und gruppiert Ergebnisse als bestanden, Warnung, Fehler oder nicht zutreffend. Exportieren Sie Berichte oder folgen Sie der geführten Reparatur.\nSchritte: Modul öffnen, aktuelle Daten prüfen, Hauptaktion ausführen und Ergebnis mit dem vorherigen Stand vergleichen.",
    )
    ∷ (
      "about.tools",
      "Bietet Geräteerkennung, Portprüfungen, traceroute und DNS-Vergleich, um Erreichbarkeit zu testen, Abbruchpunkte zu finden und Abweichungen bei der Auflösung zu untersuchen.\nSchritte: Modul öffnen, aktuelle Daten prüfen, Hauptaktion ausführen und Ergebnis mit dem vorherigen Stand vergleichen.",
    )
    ∷ (
      "about.monitor",
      "Misst Gateway-Latenz und Paketverlust wiederholt, speichert Trends und Alarme. Hilfreich bei zeitweiligen Verlangsamungen und instabilen Verbindungen.\nSchritte: Modul öffnen, aktuelle Daten prüfen, Hauptaktion ausführen und Ergebnis mit dem vorherigen Stand vergleichen.\nPausieren oder setzen Sie die kontinuierliche Überwachung in der Kopfzeile der Überwachung fort. „Jetzt messen“ bleibt auch bei pausierter Überwachung verfügbar.",
    )
    ∷ (
      "about.security",
      "Prüft Firewall-Status, offengelegte Listen-Ports und riskantere Dienste und zeigt den Remote-Tunnelstatus, damit Sie die Angriffsfläche bewerten können.\nSchritte: Modul öffnen, aktuelle Daten prüfen, Hauptaktion ausführen und Ergebnis mit dem vorherigen Stand vergleichen.",
    )
    ∷ (
      "about.snapshots",
      "Speichert Netzwerkkonfigurations-Snapshots, vergleicht Unterschiede und unterstützt Rollbacks vor oder nach Reparaturen als Sicherheitsnetz für Änderungen.\nSchritte: Modul öffnen, aktuelle Daten prüfen, Hauptaktion ausführen und Ergebnis mit dem vorherigen Stand vergleichen.",
    )
    ∷ (
      "about.history",
      "Zentralisiert Diagnose- und Reparaturberichte, damit Sie Scoreveränderungen, Fehler, ausgeführte Aktionen und Dauer später nachvollziehen können.\nSchritte: Modul öffnen, aktuelle Daten prüfen, Hauptaktion ausführen und Ergebnis mit dem vorherigen Stand vergleichen.\nVerwaltung: Entfernen Sie einen einzelnen Eintrag über „Löschen“, oder verwenden Sie nach Bestätigung „Alle löschen“. Diese Aktionen entfernen nicht das Sicherheitsprotokoll.\nFür jede Zeile können Sie den damals gespeicherten Diagnose- oder Reparaturverlauf herunterladen.",
    )
    ∷ (
      "about.settings",
      "Konfiguriert Sprache, Design, Reparaturberechtigungen, geplante Prüfungen und zugehörige Einstellungen. Die Über-Seite zeigt Versions- und Entwicklungsinformationen.\nSchritte: Modul öffnen, aktuelle Daten prüfen, Hauptaktion ausführen und Ergebnis mit dem vorherigen Stand vergleichen.",
    )
    ∷ (
      "about.modulesHint",
      "Wähle ein Modul, um Beschreibung und Schritte zu erweitern. Erneut auswählen reduziert es. Lange Texte brechen unabhängig um.",
    )
    ∷ (
      "about.aboutGuide",
      "Prüfen Sie App-Name, Version, Architektur, Entwickler und Herausgeber. Beginnen Sie hier, um die installierte Version zu bestätigen oder ein Upgrade zu prüfen. Klappen Sie Module für Anwendungsfälle und Schritte auf.",
    )
    ∷ ("fix.dnsServers", "DNS-Server (kommagetrennt)")
    ∷ ("fix.gateway", "Gateway-Adresse")
    ∷ ("fix.dnsRequired", "Gib mindestens einen DNS-Server ein")
    ∷ ("fix.gatewayRequired", "Gib die Gateway-Adresse ein")
    ∷ ("check.link-state", "Verbindungsstatus")
    ∷ ("check.link-speed", "Link-Datenrate")
    ∷ ("check.link-duplex", "Duplexmodus")
    ∷ ("check.link-errors", "Verbindungsfehler")
    ∷ ("check.ipv4-addr", "IPv4-Adresse")
    ∷ ("check.ipv4-mask", "IPv4-Netzmaske")
    ∷ ("check.dhcp-lease", "DHCP-Lease")
    ∷ ("check.gateway-subnet", "Gateway im Subnetz")
    ∷ ("check.gateway-reach", "Gateway-Erreichbarkeit")
    ∷ ("check.ip-conflict", "IP-Konflikt")
    ∷ ("check.default-route", "Standardroute")
    ∷ ("check.connected-routes", "Direktverbindungen")
    ∷ ("check.dns-config", "DNS-Konfiguration")
    ∷ ("check.dns-reachable", "DNS-Erreichbarkeit")
    ∷ ("check.dns-resolve", "DNS-Auflösung")
    ∷ ("check.ipv6-global-addr", "IPv6-Globaladresse")
    ∷ ("check.ipv6-default-route", "IPv6-Standardroute")
    ∷ ("check.ipv6-dns", "IPv6-DNS")
    ∷ ("check.ipv6-reach", "IPv6-Erreichbarkeit")
    ∷ ("check.wan-ping", "WAN-Ping")
    ∷ ("check.wan-tcp", "WAN-TCP/HTTPS")
    ∷ ("check.proxy-firewall", "Proxy/Firewall")
    ∷ ("check.mtu-probe", "MTU-Test")
    ∷ ("check.system-time", "Systemzeit")
    ∷ ("check.conn-exhaust", "Verbindungserschöpfung")
    ∷ ("check.tos-update-server", "TOS-Update-Server")
    ∷ ("check.tos-market", "TOS-App-Store")
    ∷ ("check.tnas-online", "TNAS.online")
    ∷ ("check.ddns", "DDNS")
    ∷ ("check.ntp-server", "NTP-Server")
    ∷ ("check.smb-service", "SMB-Dienst")
    ∷ ("check.nfs-service", "NFS-Dienst")
    ∷ ("check.bond-lacp", "Link-Aggregation (LACP)")
    ∷ ("check.bond-throughput", "Aggregations-Durchsatz")
    ∷ ("check.smb-multichannel", "SMB-Multichannel")
    ∷ ("fix.pending", "Reparatur übermittelt; NTP-Synchronisierung läuft")
    ∷ ("history.actions", "Aktionen")
    ∷ ("history.delete", "Löschen")
    ∷ ("history.clear", "Alle löschen")
    ∷ ("history.deleteTitle", "Diesen Eintrag löschen?")
    ∷ (
      "history.deleteMessage",
      "Dieser Eintrag wird aus dem Verlauf entfernt. Das Betriebsprotokoll bleibt unverändert.",
    )
    ∷ ("history.clearTitle", "Gesamten Verlauf löschen?")
    ∷ (
      "history.clearMessage",
      "Sämtliche Diagnose- und Reparaturdaten werden entfernt. Das Betriebsprotokoll bleibt unverändert.",
    )
    ∷ ("history.deleted", "Eintrag gelöscht")
    ∷ ("history.cleared", "Verlauf geleert")
    ∷ ("history.download", "Herunterladen")
    ∷ ("history.downloaded", "Verlauf heruntergeladen")
    ∷ ("history.downloadFailed", "Verlauf konnte nicht heruntergeladen werden")
    ∷ ("monitor.sampling", "Wird gemessen…")
    ∷ (
      "monitor.samplingMessage",
      "Gateway- und Internet-Verbindungsqualität wird gemessen. Die Ergebnisse werden nach Abschluss automatisch aktualisiert.",
    )
    ∷ ("monitor.noRttSamples", "Keine Gateway-RTT-Werte im ausgewählten Zeitraum.")
    ∷ ("monitor.rttAria", "Gateway-RTT-Verlauf: {1} Stichproben, 0–{2} ms")
    ∷ ("monitor.pause", "Überwachung pausieren")
    ∷ ("monitor.resume", "Überwachung fortsetzen")
    ∷ (
      "monitor.pausedMessage",
      "Die kontinuierliche Überwachung ist pausiert. „Jetzt messen“ ist für eine manuelle Messung weiterhin verfügbar.",
    )
    ∷ (
      "monitor.enabledMessage",
      "Kontinuierliche Überwachung aktiviert; automatische Messungen alle {1} Minuten.",
    )
    ∷ ("monitor.days1", "Letzter 1 Tag")
    ∷ ("security.tunnelConnected", "Verbunden")
    ∷ ("security.tunnelDisconnected", "Nicht verbunden")
    ∷ ("security.tunnelNoIp", "Keine IP-Adresse")
    ∷ ("snapshots.sourceManual", "Manuell")
    ∷ ("snapshots.sourceManualUI", "Manuell über Web-UI")
    ∷ ("snapshots.sourcePreReset", "Sicherung vor dem Zurücksetzen")
    ∷ ("snapshots.sourceAuto", "Automatisch")
    ∷ ("snapshots.noNote", "Keine Anmerkung")
    ∷ []
