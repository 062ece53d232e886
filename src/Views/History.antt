-- ===== src/Views/History.antt =====
-- webui/assets/app.js, `viewHistory` with its actions and modals.
use netcheck.Html.Template.{lit, esc_of, raw, choice, each_or, part, Template, [], ◌∷◌}
use netcheck.Views.Shell.{status_tag}

unfoldable pub history_actions : Template
history_actions =
    lit "<div class=\"history-actions\">\n"
    ∷ lit "    <button class=\"btn sm primary\" onclick=\"downloadHistoryLog('"
    ∷ raw "type"
    ∷ lit "','"
    ∷ esc_of "id || \"\""
    ∷ lit "')\" "
    ∷ choice "id" ([]) (lit "disabled" ∷ [])
    ∷ lit ">\n"
    ∷ lit "      "
    ∷ esc_of "t(\"history.download\")"
    ∷ lit "</button>\n"
    ∷ lit "    <button class=\"btn sm danger\" onclick=\"requestHistoryDelete('"
    ∷ raw "type"
    ∷ lit "','"
    ∷ esc_of "id || \"\""
    ∷ lit "')\" "
    ∷ choice "id" ([]) (lit "disabled" ∷ [])
    ∷ lit ">\n"
    ∷ lit "      "
    ∷ esc_of "t(\"history.delete\")"
    ∷ lit "</button>\n"
    ∷ lit "  </div>"
    ∷ []

unfoldable pub view_history : Template
unfolding status_tag history_actions
view_history =
    lit "\n"
    ∷ lit "  <div class=\"page-head\"><div><h1>"
    ∷ esc_of "t(\"hist.title\")"
    ∷ lit "</h1></div>\n"
    ∷ lit "    <div class=\"page-head-actions\">\n"
    ∷ lit "      <button class=\"btn danger\" onclick=\"requestHistoryClear()\" "
    ∷ choice "historyCount" ([]) (lit "disabled" ∷ [])
    ∷ lit ">\n"
    ∷ lit "        "
    ∷ esc_of "t(\"history.clear\")"
    ∷ lit "</button>\n"
    ∷ lit "    </div>\n"
    ∷ lit "  </div>\n"
    ∷ lit "  <div class=\"card\">\n"
    ∷ lit "    <div class=\"card-head\"><h2>"
    ∷ esc_of "t(\"diag.title\")"
    ∷ lit "</h2>\n"
    ∷ lit "      <span class=\"cnt\">"
    ∷ raw "diag.total ?? diag.items.length"
    ∷ lit "</span></div>\n"
    ∷ lit "    <div class=\"table-wrap\"><table>\n"
    ∷ lit "      <thead><tr><th>"
    ∷ esc_of "t(\"history.time\")"
    ∷ lit "</th><th>"
    ∷ esc_of "t(\"history.score\")"
    ∷ lit "</th><th>"
    ∷ esc_of "t(\"history.level\")"
    ∷ lit "</th><th>"
    ∷ esc_of "t(\"history.summary\")"
    ∷ lit "</th><th>"
    ∷ esc_of "t(\"history.duration\")"
    ∷ lit "</th><th>"
    ∷ esc_of "t(\"history.actions\")"
    ∷ lit "</th></tr></thead>\n"
    ∷ lit "      <tbody>"
    ∷ each_or "diag.items"
        (lit "\n"
          ∷ lit "        <tr><td class=\"mono\" title=\""
          ∷ esc_of "r.job_id||\"\""
          ∷ lit "\">"
          ∷ esc_of "formatDiagHistoryTime(r.started_at)"
          ∷ lit "</td>\n"
          ∷ lit "            <td class=\"mono\" style=\"font-weight:700\">"
          ∷ esc_of "r.score ?? \"—\""
          ∷ lit "</td>\n"
          ∷ lit "            <td>"
          ∷ part status_tag
          ∷ lit "</td>\n"
          ∷ lit "            <td class=\"mono\">"
          ∷ esc_of
              "(r.summary?.pass??\"—\")+\"/\"+(r.summary?.warn??\"—\")+\"/\"+(r.summary?.fail??\"—\")+\"/\"+(r.summary?.na??\"—\")"
          ∷ lit "</td>\n"
          ∷ lit "            <td class=\"mono\">"
          ∷ esc_of "r.duration_ms?Math.round(r.duration_ms/1000)+\"s\":\"—\""
          ∷ lit "</td>\n"
          ∷ lit "            <td>"
          ∷ part history_actions
          ∷ lit "</td></tr>"
          ∷ [])
        (lit "<tr><td colspan=\"6\" class=\"empty\">—</td></tr>" ∷ [])
    ∷ lit "\n"
    ∷ lit "      </tbody></table></div>\n"
    ∷ lit "  </div>\n"
    ∷ lit "  <div class=\"card\">\n"
    ∷ lit "    <div class=\"card-head\"><h2>"
    ∷ esc_of "t(\"hist.fix\")"
    ∷ lit "</h2>\n"
    ∷ lit "      <span class=\"cnt\">"
    ∷ raw "fixes.length"
    ∷ lit "</span></div>\n"
    ∷ lit "    <div class=\"table-wrap\"><table>\n"
    ∷ lit "      <thead><tr><th>"
    ∷ esc_of "t(\"history.time\")"
    ∷ lit "</th><th>"
    ∷ esc_of "t(\"history.check\")"
    ∷ lit "</th><th>"
    ∷ esc_of "t(\"history.action\")"
    ∷ lit "</th><th>"
    ∷ esc_of "t(\"history.result\")"
    ∷ lit "</th><th>"
    ∷ esc_of "t(\"history.duration\")"
    ∷ lit "</th><th>"
    ∷ esc_of "t(\"history.actions\")"
    ∷ lit "</th></tr></thead>\n"
    ∷ lit "      <tbody>"
    ∷ each_or "fixes"
        (lit "\n"
          ∷ lit "        <tr><td class=\"mono\">"
          ∷ esc_of "(h.ts||\"\").slice(5,19)"
          ∷ lit "</td>\n"
          ∷ lit "            <td class=\"mono\">"
          ∷ esc_of "h.check_id||\"—\""
          ∷ lit "</td>\n"
          ∷ lit "            <td class=\"mono\">"
          ∷ esc_of "h.action||\"—\""
          ∷ lit "</td>\n"
          ∷ lit "            <td>"
          ∷ part status_tag
          ∷ lit "</td>\n"
          ∷ lit "            <td class=\"mono\">"
          ∷ esc_of "h.dur_ms?h.dur_ms+\"ms\":\"—\""
          ∷ lit "</td>\n"
          ∷ lit "            <td>"
          ∷ part history_actions
          ∷ lit "</td></tr>"
          ∷ [])
        (lit "<tr><td colspan=\"6\" class=\"empty\">—</td></tr>" ∷ [])
    ∷ lit "\n"
    ∷ lit "      </tbody></table></div>\n"
    ∷ lit "  </div>"
    ∷ []

unfoldable pub history_delete_modal : Template
history_delete_modal =
    lit "\n"
    ∷ lit "    <h2>"
    ∷ esc_of "t(\"history.deleteTitle\")"
    ∷ lit "</h2>\n"
    ∷ lit "    <div class=\"sub\">"
    ∷ esc_of "t(\"history.deleteMessage\")"
    ∷ lit "</div>\n"
    ∷ lit "    <div style=\"display:flex;gap:10px;margin-top:18px\">\n"
    ∷ lit
        "      <button class=\"btn secondary\" style=\"flex:1\" onclick=\"this.closest('.overlay').remove()\">\n"
    ∷ lit "        "
    ∷ esc_of "t(\"btn.cancel\")"
    ∷ lit "</button>\n"
    ∷ lit "      <button class=\"btn danger\" style=\"flex:1\" onclick=\"doHistoryDelete(this)\">\n"
    ∷ lit "        "
    ∷ esc_of "t(\"common.confirm\")"
    ∷ lit "</button>\n"
    ∷ lit "    </div>"
    ∷ []

unfoldable pub history_clear_modal : Template
history_clear_modal =
    lit "\n"
    ∷ lit "    <h2>"
    ∷ esc_of "t(\"history.clearTitle\")"
    ∷ lit "</h2>\n"
    ∷ lit "    <div class=\"sub\">"
    ∷ esc_of "t(\"history.clearMessage\")"
    ∷ lit "</div>\n"
    ∷ lit "    <div style=\"display:flex;gap:10px;margin-top:18px\">\n"
    ∷ lit
        "      <button class=\"btn secondary\" style=\"flex:1\" onclick=\"this.closest('.overlay').remove()\">\n"
    ∷ lit "        "
    ∷ esc_of "t(\"btn.cancel\")"
    ∷ lit "</button>\n"
    ∷ lit "      <button class=\"btn danger\" style=\"flex:1\" onclick=\"doHistoryClear(this)\">\n"
    ∷ lit "        "
    ∷ esc_of "t(\"common.confirm\")"
    ∷ lit "</button>\n"
    ∷ lit "    </div>"
    ∷ []
