-- ===== src/Views/Security.antt =====
-- webui/assets/app.js, `viewSecurity` and what `loadSecurity` puts into it.
use netcheck.Html.Template.{lit, esc_of, raw, choice, each, Template, [], ◌∷◌}

unfoldable pub view_security : Template
view_security =
    lit "\n"
    ∷ lit "  <div class=\"page-head\">\n"
    ∷ lit "    <div><h1>"
    ∷ esc_of "t(\"nav.security\")"
    ∷ lit "</h1><div class=\"sub\">"
    ∷ esc_of "t(\"security.sub\")"
    ∷ lit "</div></div>\n"
    ∷ lit "    <button class=\"btn primary\" onclick=\"loadSecurity()\">"
    ∷ esc_of "t(\"security.rescan\")"
    ∷ lit "</button>\n"
    ∷ lit "  </div>\n"
    ∷ lit "  <div id=\"securityContent\"><div class=\"empty\">"
    ∷ esc_of "t(\"security.rescanHint\")"
    ∷ lit "</div></div>"
    ∷ []

unfoldable pub security_content : Template
security_content =
    lit "\n"
    ∷ lit "  <div class=\"grid g3\">\n"
    ∷ lit "    <div class=\"metric-card\">\n"
    ∷ lit "      <div class=\"metric-lbl\">"
    ∷ esc_of "t(\"security.firewall\")"
    ∷ lit "</div>\n"
    ∷ lit "      <div class=\"metric-num\" style=\"color:var(--"
    ∷ choice "fw.active" (lit "ok" ∷ []) (lit "bad" ∷ [])
    ∷ lit "-strong);font-size:18px\">\n"
    ∷ lit "        "
    ∷ choice "fw.active" (raw "t(\"security.active\")" ∷ []) (raw "t(\"security.inactive\")" ∷ [])
    ∷ lit "</div>\n"
    ∷ lit "      <div class=\"metric-sub\">"
    ∷ esc_of "fw.service||t(\"security.none\")"
    ∷ lit "</div>\n"
    ∷ lit "    </div>\n"
    ∷ lit "    <div class=\"metric-card\">\n"
    ∷ lit "      <div class=\"metric-lbl\">"
    ∷ esc_of "t(\"security.exposedPorts\")"
    ∷ lit "</div>\n"
    ∷ lit "      <div class=\"metric-num\">"
    ∷ raw "exp.exposed_count ?? \"—\""
    ∷ lit "</div>\n"
    ∷ lit "      <div class=\"metric-sub\">"
    ∷ esc_of "t(\"security.highRisk\", exp.high_risk_count ?? 0)"
    ∷ lit "</div>\n"
    ∷ lit "    </div>\n"
    ∷ lit "    <div class=\"metric-card\">\n"
    ∷ lit "      <div class=\"metric-lbl\">"
    ∷ esc_of "t(\"security.tunnel\")"
    ∷ lit "</div>\n"
    ∷ lit "      <div class=\"metric-num\" style=\"font-size:18px;color:var(--"
    ∷ choice "tun.status===\"connected\"" (lit "ok" ∷ []) (lit "warn" ∷ [])
    ∷ lit "-strong)\">\n"
    ∷ lit "        "
    ∷ esc_of "securityTunnelStatus(tun.status)"
    ∷ lit "</div>\n"
    ∷ lit "    </div>\n"
    ∷ lit "  </div>\n"
    ∷ lit "  <div class=\"card\">\n"
    ∷ lit "    <div class=\"card-head\"><h2>"
    ∷ esc_of "t(\"security.listeningPorts\")"
    ∷ lit "</h2><span class=\"cnt\">"
    ∷ raw "(exp.ports||[]).length"
    ∷ lit "</span></div>\n"
    ∷ lit "    <div class=\"table-wrap\"><table>\n"
    ∷ lit "      <thead><tr><th>"
    ∷ esc_of "t(\"security.port\")"
    ∷ lit "</th><th>"
    ∷ esc_of "t(\"security.binding\")"
    ∷ lit "</th><th>"
    ∷ esc_of "t(\"security.risk\")"
    ∷ lit "</th><th>"
    ∷ esc_of "t(\"security.service\")"
    ∷ lit "</th></tr></thead>\n"
    ∷ lit "      <tbody>"
    ∷ each "(exp.ports||[])" (
        lit "\n"
        ∷ lit "        <tr><td class=\"mono\" style=\"font-weight:700\">"
        ∷ esc_of "p.port"
        ∷ lit "</td>\n"
        ∷ lit "            <td class=\"mono\">"
        ∷ esc_of "p.binding"
        ∷ lit "</td>\n"
        ∷ lit "            <td><span class=\"tag "
        ∷ raw "p.risk"
        ∷ lit "\">"
        ∷ esc_of "p.risk"
        ∷ lit "</span></td>\n"
        ∷ lit "            <td>"
        ∷ esc_of "p.service"
        ∷ lit "</td></tr>"
        ∷ [])
    ∷ lit "\n"
    ∷ lit "      </tbody></table></div>\n"
    ∷ lit "  </div>"
    ∷ []
