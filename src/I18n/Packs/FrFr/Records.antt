-- ===== src/I18n/Packs/FrFr/Records.antt =====
-- webui/assets/i18n.js, the French pack: theme, settings, history, monitor and snapshot texts.
use Prim.Native.String.{String}
use mathlib.Core.List.{List, [], ◌∷◌}

unfoldable pub fr_fr_records : List (String × String)
fr_fr_records =
    ("theme.system", "Selon le système")
    ∷ ("theme.light", "Clair")
    ∷ ("theme.dark", "Sombre")
    ∷ ("common.confirm", "Confirmer")
    ∷ ("common.on", "Activé")
    ∷ ("common.off", "Désactivé")
    ∷ ("common.operationFailed", "L’opération a échoué : {1}")
    ∷ ("settings.repairMode", "Mode de réparation")
    ∷ ("settings.requireAdmin", "Confirmation administrateur requise")
    ∷ ("settings.version", "Version")
    ∷ ("settings.arch", "Architecture")
    ∷ ("settings.build", "Date de compilation")
    ∷ ("history.job", "Tâche")
    ∷ ("history.score", "Score")
    ∷ ("history.level", "Niveau")
    ∷ ("history.summary", "Réussite/Avert./Échec/N. A.")
    ∷ ("history.duration", "Durée")
    ∷ ("history.time", "Heure")
    ∷ ("history.check", "Vérification")
    ∷ ("history.action", "Action")
    ∷ ("history.result", "Résultat")
    ∷ ("history.event", "Événement")
    ∷ ("history.message", "Message")
    ∷ ("monitor.sub", "Qualité de liaison · {1} échantillons · {2} alertes")
    ∷ ("monitor.days7", "7 derniers jours")
    ∷ ("monitor.days30", "30 derniers jours")
    ∷ ("monitor.sampleNow", "Mesurer maintenant")
    ∷ ("monitor.testAlert", "Tester l’alerte")
    ∷ ("monitor.avgLoss", "Perte moyenne vers la passerelle")
    ∷ ("monitor.avgRtt", "RTT moyen vers la passerelle")
    ∷ ("monitor.maxLoss", "Perte maximale")
    ∷ ("monitor.rttTrend", "Tendance RTT passerelle")
    ∷ ("monitor.noSamples", "Aucun échantillon pour l’instant. Sélectionnez Mesurer maintenant.")
    ∷ ("monitor.alertHistory", "Historique des alertes")
    ∷ ("monitor.noAlerts", "Aucune alerte. La liaison est saine.")
    ∷ ("toast.sampleTaken", "Échantillon terminé")
    ∷ ("toast.testSent", "Notification de test envoyée")
    ∷ ("toast.testFailed", "Échec du test")
    ∷ ("snapshots.count", "{1} instantanés")
    ∷ ("snapshots.create", "Créer un instantané")
    ∷ ("snapshots.id", "ID")
    ∷ ("snapshots.source", "Source")
    ∷ ("snapshots.note", "Note")
    ∷ ("snapshots.files", "Fichiers")
    ∷ ("snapshots.actions", "Actions")
    ∷ ("snapshots.none", "Aucun instantané")
    ∷ ("snapshots.diff", "Diff")
    ∷ ("snapshots.restore", "Restaurer")
    ∷ ("snapshots.manualNote", "Instantané manuel depuis l’interface web")
    ∷ ("toast.snapshotCreated", "Instantané créé")
    ∷ ("snapshots.noDifferences", "Aucune différence")
    ∷ ("snapshots.diffTitle", "Diff d’instantané : {1}")
    ∷ ("snapshots.filesChanged", "{1} fichiers modifiés")
    ∷ (
      "snapshots.restoreConfirm",
      "Restaurer cet instantané ? La configuration actuelle sera remplacée.",
    )
    ∷ ("toast.restored", "Restauration terminée")
    ∷ ("snapshots.restoreFailed", "Échec de restauration : {1}")
    ∷ ("if.up", "Actif")
    ∷ ("if.down", "Inactif")
    ∷ []
