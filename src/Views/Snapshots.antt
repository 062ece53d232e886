-- ===== src/Views/Snapshots.antt =====
-- webui/assets/app.js, `viewSnapshots` and the differences.
use netcheck.Html.Template.{lit, esc_of, raw, choice, each, each_or, Template, [], ◌∷◌}

unfoldable pub view_snapshots : Template
view_snapshots =
    lit "\n"
    ∷ lit "  <div class=\"page-head\">\n"
    ∷ lit "    <div><h1>"
    ∷ esc_of "t(\"nav.snapshots\")"
    ∷ lit "</h1><div class=\"sub\">"
    ∷ esc_of "t(\"snapshots.count\", snaps.length)"
    ∷ lit "</div></div>\n"
    ∷ lit "    <button class=\"btn primary\" onclick=\"doSnapshotCreate()\">"
    ∷ esc_of "t(\"snapshots.create\")"
    ∷ lit "</button>\n"
    ∷ lit "  </div>\n"
    ∷ lit "  <div class=\"card\">\n"
    ∷ lit "    <div class=\"table-wrap\"><table>\n"
    ∷ lit "      <thead><tr><th>"
    ∷ esc_of "t(\"snapshots.id\")"
    ∷ lit "</th><th>"
    ∷ esc_of "t(\"history.time\")"
    ∷ lit "</th><th>"
    ∷ esc_of "t(\"snapshots.source\")"
    ∷ lit "</th><th>"
    ∷ esc_of "t(\"snapshots.note\")"
    ∷ lit "</th><th>"
    ∷ esc_of "t(\"snapshots.files\")"
    ∷ lit "</th><th>"
    ∷ esc_of "t(\"snapshots.actions\")"
    ∷ lit "</th></tr></thead>\n"
    ∷ lit "      <tbody>"
    ∷ each_or "snaps"
        (lit "\n"
          ∷ lit "        <tr>\n"
          ∷ lit "          <td class=\"mono\" style=\"font-size:11px\">"
          ∷ esc_of "s.id"
          ∷ lit "</td>\n"
          ∷ lit "          <td class=\"mono\">"
          ∷ raw "new Date(s.ts*1000).toLocaleString()"
          ∷ lit "</td>\n"
          ∷ lit "          <td><span class=\"tag "
          ∷ choice "snapshotIsManualUI(s)" (lit "primary" ∷ [])
              (choice "s.source===\"pre-reset\"" (lit "warn" ∷ []) (lit "ok" ∷ []) ∷ [])
          ∷ lit "\">"
          ∷ esc_of "snapshotSource(s)"
          ∷ lit "</span></td>\n"
          ∷ lit "          <td>"
          ∷ esc_of "snapshotNote(s)"
          ∷ lit "</td>\n"
          ∷ lit "          <td class=\"mono\">"
          ∷ raw "Object.keys(s.files||{}).length"
          ∷ lit "</td>\n"
          ∷ lit "          <td style=\"white-space:nowrap\">\n"
          ∷ lit "            <button class=\"btn guide\" onclick=\"doSnapshotDiff('"
          ∷ esc_of "s.id"
          ∷ lit "')\">"
          ∷ esc_of "t(\"snapshots.diff\")"
          ∷ lit "</button>\n"
          ∷ lit "            <button class=\"btn sm secondary\" onclick=\"doSnapshotRestore('"
          ∷ esc_of "s.id"
          ∷ lit "')\">"
          ∷ esc_of "t(\"snapshots.restore\")"
          ∷ lit "</button>\n"
          ∷ lit "          </td>\n"
          ∷ lit "        </tr>"
          ∷ [])
        (lit "<tr><td colspan=\"6\" class=\"empty\">"
          ∷ esc_of "t(\"snapshots.none\")"
          ∷ lit "</td></tr>"
          ∷ [])
    ∷ lit "\n"
    ∷ lit "      </tbody></table></div>\n"
    ∷ lit "  </div>"
    ∷ []

unfoldable pub snapshot_diff_modal : Template
snapshot_diff_modal =
    lit "\n"
    ∷ lit "    <h2>"
    ∷ esc_of "t(\"snapshots.diffTitle\", id)"
    ∷ lit "</h2>\n"
    ∷ lit "    <div class=\"sub\">"
    ∷ esc_of "t(\"snapshots.filesChanged\", d.total)"
    ∷ lit "</div>\n"
    ∷ lit "    <div style=\"margin-top:12px\">"
    ∷ choice "d.changes.length"
        (each "d.changes" (
            lit "\n"
            ∷ lit "    <div style=\"margin-bottom:12px\">\n"
            ∷ lit "      <div class=\"mono\" style=\"font-weight:700;margin-bottom:4px\">"
            ∷ esc_of "c.file"
            ∷ lit "</div>\n"
            ∷ lit "      <div style=\"display:grid;grid-template-columns:1fr 1fr;gap:8px\">\n"
            ∷ lit
                "        <pre class=\"mono\" style=\"font-size:10px;background:var(--bad-soft);padding:8px;border-radius:6px;overflow:auto;max-height:150px\">"
            ∷ esc_of "c.snapshot"
            ∷ lit "</pre>\n"
            ∷ lit
                "        <pre class=\"mono\" style=\"font-size:10px;background:var(--ok-soft);padding:8px;border-radius:6px;overflow:auto;max-height:150px\">"
            ∷ esc_of "c.current"
            ∷ lit "</pre>\n"
            ∷ lit "      </div>\n"
            ∷ lit "    </div>"
            ∷ [])
          ∷ [])
        (lit "<p>" ∷ esc_of "t(\"snapshots.noDifferences\")" ∷ lit "</p>" ∷ [])
    ∷ lit "</div>"
    ∷ []
