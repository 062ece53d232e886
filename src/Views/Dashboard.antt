-- ===== src/Views/Dashboard.antt =====
-- webui/assets/app.js, `viewDashboard`.
use netcheck.Html.Template.{lit, esc_of, raw, choice, each, Template, [], ◌∷◌}

unfoldable pub view_dashboard : Template
view_dashboard =
    lit "\n"
    ∷ lit "  <div class=\"page-head\">\n"
    ∷ lit "    <div><h1>"
    ∷ esc_of "t(\"dash.title\")"
    ∷ lit "</h1>\n"
    ∷ lit "      <div class=\"sub mono\">"
    ∷ esc_of "overviewParts.join(\" · \")"
    ∷ lit "</div></div>\n"
    ∷ lit "    <div class=\"page-head-actions\">\n"
    ∷ lit "      <button class=\"btn secondary\" onclick=\"loadDashboard()\">"
    ∷ esc_of "t(\"dash.refresh\")"
    ∷ lit "</button>\n"
    ∷ lit "      <button class=\"btn primary\" onclick=\"runDiagFromDash()\">"
    ∷ esc_of "t(\"dash.diagBtn\")"
    ∷ lit "</button>\n"
    ∷ lit "    </div>\n"
    ∷ lit "  </div>\n"
    ∷ lit "  <div class=\"grid g2\">\n"
    ∷ lit "    <div class=\"card\">\n"
    ∷ lit "      <div class=\"card-head\"><h2>"
    ∷ esc_of "t(\"dash.health\")"
    ∷ lit "</h2></div>\n"
    ∷ lit "      <div class=\"score-wrap\">\n"
    ∷ lit "        <div class=\"score-ring\" style=\"--pct:"
    ∷ raw "state.diagReport?.score ?? 100"
    ∷ lit ";background:conic-gradient(var(--"
    ∷ choice "issues.length === 0" (lit "ok" ∷ []) (
        choice "issues.some(it=>it.severity===\"critical\")" (lit "bad" ∷ []) (lit "warn" ∷ [])
        ∷ [])
    ∷ lit "-strong) calc(var(--pct)*1%),var(--border) 0)\">\n"
    ∷ lit "          <b>"
    ∷ raw "state.diagReport?.score ?? \"—\""
    ∷ lit "</b></div>\n"
    ∷ lit "        <div class=\"score-info\">\n"
    ∷ lit "          <h3 style=\"color:var(--"
    ∷ choice "issues.length === 0" (lit "ok" ∷ []) (
        choice "issues.some(it=>it.severity===\"critical\")" (lit "bad" ∷ []) (lit "warn" ∷ [])
        ∷ [])
    ∷ lit "-strong)\">"
    ∷ choice "issues.length === 0" (lit "✓" ∷ []) (lit "!" ∷ [])
    ∷ lit " "
    ∷ raw "issues.length"
    ∷ lit " "
    ∷ esc_of "t(\"dash.issues\")"
    ∷ lit "</h3>\n"
    ∷ lit "          <p>"
    ∷ esc_of "t(\"dash.nics\")"
    ∷ lit ": "
    ∷ raw "visibleNics.length"
    ∷ lit " · "
    ∷ esc_of "nics.arch"
    ∷ lit "</p>\n"
    ∷ lit "        </div>\n"
    ∷ lit "      </div>\n"
    ∷ lit "    </div>\n"
    ∷ lit "    <div class=\"card\">\n"
    ∷ lit "      <div class=\"card-head\"><h2>"
    ∷ esc_of "t(\"dash.connectivity\")"
    ∷ lit "</h2></div>\n"
    ∷ lit "      <div class=\"grid\" style=\"grid-template-columns:1fr 1fr;gap:8px\">\n"
    ∷ lit "        "
    ∷ each "[\"gateway\",\"internet\",\"dns\",\"ipv6\"]" (
        lit "\n"
        ∷ lit
            "          <div class=\"light\"><span class=\"dot\" style=\"background:var(--ok)\"></span>"
        ∷ esc_of "t(\"light.\"+k)"
        ∷ lit "</div>"
        ∷ [])
    ∷ lit "\n"
    ∷ lit "      </div>\n"
    ∷ lit "    </div>\n"
    ∷ lit "  </div>\n"
    ∷ lit "  <div class=\"card\">\n"
    ∷ lit "    <div class=\"card-head\"><h2>"
    ∷ esc_of "t(\"dash.issues\")"
    ∷ lit "</h2>\n"
    ∷ lit "      <span class=\"right\" onclick=\"nav('diagnose')\">"
    ∷ esc_of "t(\"dash.viewAll\")"
    ∷ lit "</span></div>\n"
    ∷ lit "    "
    ∷ choice "issues.length"
        (each "issues.slice(0,5)" (
            lit "\n"
            ∷ lit "      <div class=\"issue-item\">\n"
            ∷ lit "        <div class=\"issue-ico "
            ∷ choice "it.severity===\"critical\"" (lit "bad" ∷ []) (lit "warn" ∷ [])
            ∷ lit "\"\n"
            ∷ lit "             style=\"background:var(--"
            ∷ choice "it.severity===\"critical\"" (lit "bad" ∷ []) (lit "warn" ∷ [])
            ∷ lit "-soft);color:var(--"
            ∷ choice "it.severity===\"critical\"" (lit "bad" ∷ []) (lit "warn" ∷ [])
            ∷ lit "-strong)\">"
            ∷ choice "it.severity===\"critical\"" (lit "✕" ∷ []) (lit "!" ∷ [])
            ∷ lit "</div>\n"
            ∷ lit "        <div><div class=\"issue-tt mono\">"
            ∷ esc_of "it.id"
            ∷ lit "</div>\n"
            ∷ lit "             <div class=\"issue-dd\">"
            ∷ esc_of "it.reason||\"\""
            ∷ lit "</div></div>\n"
            ∷ lit "        <div class=\"issue-act\">"
            ∷ choice "it.fixable"
                (lit "<button class=\"btn sm primary\" onclick=\"openFix('"
                  ∷ esc_of "it.id"
                  ∷ lit "','"
                  ∷ esc_of "it.fixable"
                  ∷ lit "')\">"
                  ∷ esc_of "t(\"btn.fix\")"
                  ∷ lit "</button>"
                  ∷ [])
                ([])
            ∷ lit "</div>\n"
            ∷ lit "      </div>"
            ∷ [])
          ∷ [])
        (lit "<div class=\"empty\"><span class=\"big\">✓</span>"
          ∷ esc_of "t(\"st.pass\")"
          ∷ lit "</div>"
          ∷ [])
    ∷ lit "\n"
    ∷ lit "  </div>\n"
    ∷ lit "  <div class=\"card\">\n"
    ∷ lit "    <div class=\"card-head\"><h2>"
    ∷ esc_of "t(\"dash.nics\")"
    ∷ lit "</h2>\n"
    ∷ lit "      <span class=\"right\" onclick=\"nav('interfaces')\">"
    ∷ esc_of "t(\"dash.viewAll\")"
    ∷ lit "</span></div>\n"
    ∷ lit "    <div class=\"grid g4\">\n"
    ∷ lit "      "
    ∷ each "visibleNics.slice(0,8)" (
        lit "\n"
        ∷ lit "        <div class=\"metric-card\">\n"
        ∷ lit "          <div class=\"metric-lbl\"><span class=\"nic-type t-"
        ∷ esc_of "i.type"
        ∷ lit "\">"
        ∷ esc_of "i.type"
        ∷ lit "</span> "
        ∷ esc_of "i.name"
        ∷ lit "</div>\n"
        ∷ lit "          <div class=\"metric-num\" style=\"font-size:16px\">"
        ∷ choice "i.speed_mbps" (esc_of "i.speed_mbps" ∷ lit " Mb/s" ∷ []) (lit "—" ∷ [])
        ∷ lit "</div>\n"
        ∷ lit "          <div class=\"metric-sub mono\">"
        ∷ esc_of "i.ipv4[0]?.addr || i.ipv6[0]?.addr || \"—\""
        ∷ lit "</div>\n"
        ∷ lit "        </div>"
        ∷ [])
    ∷ lit "\n"
    ∷ lit "    </div>\n"
    ∷ lit "  </div>"
    ∷ []
