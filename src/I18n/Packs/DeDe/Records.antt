-- ===== src/I18n/Packs/DeDe/Records.antt =====
-- webui/assets/i18n.js, the German pack: theme, settings, history, monitor and snapshot texts.
use Prim.Native.String.{String}
use mathlib.Core.List.{List, [], ◌∷◌}

unfoldable pub de_de_records : List (String × String)
de_de_records =
    ("theme.system", "System folgen")
    ∷ ("theme.light", "Hell")
    ∷ ("theme.dark", "Dunkel")
    ∷ ("common.confirm", "Bestätigen")
    ∷ ("common.on", "Ein")
    ∷ ("common.off", "Aus")
    ∷ ("common.operationFailed", "Vorgang fehlgeschlagen: {1}")
    ∷ ("settings.repairMode", "Reparaturmodus")
    ∷ ("settings.requireAdmin", "Administratorbestätigung erforderlich")
    ∷ ("settings.version", "Version")
    ∷ ("settings.arch", "Architektur")
    ∷ ("settings.build", "Build-Zeit")
    ∷ ("history.job", "Auftrag")
    ∷ ("history.score", "Bewertung")
    ∷ ("history.level", "Stufe")
    ∷ ("history.summary", "Bestanden/Warnung/Fehler/N. z.")
    ∷ ("history.duration", "Dauer")
    ∷ ("history.time", "Zeit")
    ∷ ("history.check", "Prüfung")
    ∷ ("history.action", "Aktion")
    ∷ ("history.result", "Ergebnis")
    ∷ ("history.event", "Ereignis")
    ∷ ("history.message", "Meldung")
    ∷ ("monitor.sub", "Verbindungsqualität · {1} Stichproben · {2} Warnungen")
    ∷ ("monitor.days7", "Letzte 7 Tage")
    ∷ ("monitor.days30", "Letzte 30 Tage")
    ∷ ("monitor.sampleNow", "Jetzt messen")
    ∷ ("monitor.testAlert", "Warnung testen")
    ∷ ("monitor.avgLoss", "Durchschnittlicher Gateway-Verlust")
    ∷ ("monitor.avgRtt", "Durchschnittliche Gateway-RTT")
    ∷ ("monitor.maxLoss", "Maximaler Verlust")
    ∷ ("monitor.rttTrend", "Gateway-RTT-Verlauf")
    ∷ ("monitor.noSamples", "Noch keine Stichproben. Wähle „Jetzt messen“.")
    ∷ ("monitor.alertHistory", "Warnungsverlauf")
    ∷ ("monitor.noAlerts", "Keine Warnungen. Die Verbindung ist gesund.")
    ∷ ("toast.sampleTaken", "Stichprobe abgeschlossen")
    ∷ ("toast.testSent", "Testbenachrichtigung gesendet")
    ∷ ("toast.testFailed", "Test fehlgeschlagen")
    ∷ ("snapshots.count", "{1} Snapshots")
    ∷ ("snapshots.create", "Snapshot erstellen")
    ∷ ("snapshots.id", "ID")
    ∷ ("snapshots.source", "Quelle")
    ∷ ("snapshots.note", "Notiz")
    ∷ ("snapshots.files", "Dateien")
    ∷ ("snapshots.actions", "Aktionen")
    ∷ ("snapshots.none", "Keine Snapshots")
    ∷ ("snapshots.diff", "Diff")
    ∷ ("snapshots.restore", "Wiederherstellen")
    ∷ ("snapshots.manualNote", "Manueller Snapshot aus der Weboberfläche")
    ∷ ("toast.snapshotCreated", "Snapshot erstellt")
    ∷ ("snapshots.noDifferences", "Keine Unterschiede")
    ∷ ("snapshots.diffTitle", "Snapshot-Diff: {1}")
    ∷ ("snapshots.filesChanged", "{1} Dateien geändert")
    ∷ (
      "snapshots.restoreConfirm",
      "Diesen Snapshot wiederherstellen? Die aktuelle Konfiguration wird ersetzt.",
    )
    ∷ ("toast.restored", "Wiederherstellung abgeschlossen")
    ∷ ("snapshots.restoreFailed", "Wiederherstellung fehlgeschlagen: {1}")
    ∷ ("if.up", "Aktiv")
    ∷ ("if.down", "Inaktiv")
    ∷ []
