-- ===== src/I18n/Packs/EnUs/Records.antt =====
-- webui/assets/i18n.js, the English pack: theme, settings, history, monitor and snapshot texts.
use Prim.Native.String.{String}
use mathlib.Core.List.{List, [], ◌∷◌}

unfoldable pub en_us_records : List (String × String)
en_us_records =
    ("theme.system", "Follow System")
    ∷ ("theme.light", "Light")
    ∷ ("theme.dark", "Dark")
    ∷ ("common.confirm", "Confirm")
    ∷ ("common.on", "On")
    ∷ ("common.off", "Off")
    ∷ ("common.operationFailed", "Operation failed: {1}")
    ∷ ("settings.repairMode", "Repair Mode")
    ∷ ("settings.requireAdmin", "Require Administrator Confirmation")
    ∷ ("settings.version", "Version")
    ∷ ("settings.arch", "Architecture")
    ∷ ("settings.build", "Build Time")
    ∷ ("history.job", "Job")
    ∷ ("history.score", "Score")
    ∷ ("history.level", "Level")
    ∷ ("history.summary", "Pass/Warn/Fail/N/A")
    ∷ ("history.duration", "Duration")
    ∷ ("history.time", "Time")
    ∷ ("history.check", "Check")
    ∷ ("history.action", "Action")
    ∷ ("history.result", "Result")
    ∷ ("history.event", "Event")
    ∷ ("history.message", "Message")
    ∷ ("monitor.sub", "Link quality · {1} samples · {2} alerts")
    ∷ ("monitor.days7", "Last 7 Days")
    ∷ ("monitor.days30", "Last 30 Days")
    ∷ ("monitor.sampleNow", "Sample Now")
    ∷ ("monitor.testAlert", "Test Alert")
    ∷ ("monitor.avgLoss", "Average Gateway Loss")
    ∷ ("monitor.avgRtt", "Average Gateway RTT")
    ∷ ("monitor.maxLoss", "Maximum Loss")
    ∷ ("monitor.rttTrend", "Gateway RTT Trend")
    ∷ ("monitor.noSamples", "No samples yet. Select Sample Now.")
    ∷ ("monitor.alertHistory", "Alert History")
    ∷ ("monitor.noAlerts", "No alerts. The link is healthy.")
    ∷ ("toast.sampleTaken", "Sample completed")
    ∷ ("toast.testSent", "Test notification sent")
    ∷ ("toast.testFailed", "Test failed")
    ∷ ("snapshots.count", "{1} Snapshots")
    ∷ ("snapshots.create", "Create Snapshot")
    ∷ ("snapshots.id", "ID")
    ∷ ("snapshots.source", "Source")
    ∷ ("snapshots.note", "Note")
    ∷ ("snapshots.files", "Files")
    ∷ ("snapshots.actions", "Actions")
    ∷ ("snapshots.none", "No snapshots")
    ∷ ("snapshots.diff", "Diff")
    ∷ ("snapshots.restore", "Restore")
    ∷ ("snapshots.manualNote", "Manual snapshot from the web interface")
    ∷ ("toast.snapshotCreated", "Snapshot created")
    ∷ ("snapshots.noDifferences", "No differences")
    ∷ ("snapshots.diffTitle", "Snapshot Diff: {1}")
    ∷ ("snapshots.filesChanged", "{1} files changed")
    ∷ (
      "snapshots.restoreConfirm",
      "Restore this snapshot? The current configuration will be replaced.",
    )
    ∷ ("toast.restored", "Restore completed")
    ∷ ("snapshots.restoreFailed", "Restore failed: {1}")
    ∷ ("if.up", "Up")
    ∷ ("if.down", "Down")
    ∷ []
