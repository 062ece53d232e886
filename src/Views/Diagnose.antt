-- ===== src/Views/Diagnose.antt =====
-- webui/assets/app.js, `viewDiagnose`.
use netcheck.Html.Template.{lit, esc_of, raw, choice, each, Template, [], ◌∷◌}

unfoldable pub view_diagnose : Template
view_diagnose =
    lit "\n"
    ∷ lit "  <div class=\"page-head\">\n"
    ∷ lit "    <div><h1>"
    ∷ esc_of "t(\"diag.title\")"
    ∷ lit "</h1><div class=\"sub\">"
    ∷ esc_of "t(\"diag.sub\")"
    ∷ lit "</div></div>\n"
    ∷ lit "    <button class=\"btn primary\" id=\"diagRunBtn\" "
    ∷ choice "state.diagRunning" (lit "disabled aria-busy=\"true\"" ∷ []) ([])
    ∷ lit "\n"
    ∷ lit "      onclick=\"runDiag()\">"
    ∷ choice "state.diagRunning"
        (lit "<span class=\"spin\" aria-hidden=\"true\"></span>\n"
          ∷ lit "        <span>"
          ∷ esc_of "t(\"diag.running\")"
          ∷ lit "</span>"
          ∷ [])
        (esc_of "t(\"diag.run\")" ∷ [])
    ∷ lit "</button>\n"
    ∷ lit "  </div>\n"
    ∷ lit "  "
    ∷ choice "rep"
        (lit "\n"
          ∷ lit "  <div class=\"card\">\n"
          ∷ lit "    <div class=\"card-head\"><h2>"
          ∷ esc_of "t(\"history.score\")"
          ∷ lit ": "
          ∷ esc_of "rep.score"
          ∷ lit " ·\n"
          ∷ lit "      <span class=\"diag-level "
          ∷ esc_of "rep.level"
          ∷ lit "\">"
          ∷ esc_of "t(\"diag.level.\"+rep.level)"
          ∷ lit "</span></h2>\n"
          ∷ lit "      <span class=\"right\" onclick=\"downloadReport()\">"
          ∷ esc_of "t(\"diag.export\")"
          ∷ lit "</span></div>\n"
          ∷ lit "    <div class=\"grid g4\" style=\"margin-bottom:6px\">\n"
          ∷ lit "      "
          ∷ each "[\"pass\",\"warn\",\"fail\",\"na\"]" (
              lit "\n"
              ∷ lit "        <div class=\"metric-card status-"
              ∷ esc_of "s"
              ∷ lit "\"><div class=\"metric-lbl\">"
              ∷ esc_of "t(\"st.\"+s)"
              ∷ lit "</div>\n"
              ∷ lit "          <div class=\"metric-num\">"
              ∷ raw "rep.summary[s]"
              ∷ lit "</div></div>"
              ∷ [])
          ∷ lit "\n"
          ∷ lit "    </div>\n"
          ∷ lit "  </div>\n"
          ∷ lit "  "
          ∷ each "Object.keys(rep.groups).sort()" (
              lit "<div class=\"card\"><div class=\"group-head\">\n"
              ∷ lit "      <span class=\"pill\" style=\"background:"
              ∷ raw "meta[0]"
              ∷ lit "\">"
              ∷ esc_of "g"
              ∷ lit "</span>\n"
              ∷ lit "      <span class=\"gn\">"
              ∷ esc_of "t(meta[1])"
              ∷ lit "</span>\n"
              ∷ lit "      <span class=\"cnt\">"
              ∷ raw "rep.groups[g].length"
              ∷ lit "</span></div>\n"
              ∷ lit "      "
              ∷ each "rep.groups[g]" (
                  lit "\n"
                  ∷ lit "        <div class=\"check-row\">\n"
                  ∷ lit "          <div class=\"check-icon "
                  ∷ esc_of "c.status"
                  ∷ lit "\">"
                  ∷ choice "c.status===\"pass\"" (lit "✓" ∷ []) (
                      choice "c.status===\"warn\"" (lit "!" ∷ [])
                        (choice "c.status===\"fail\"" (lit "✕" ∷ []) (lit "–" ∷ []) ∷ [])
                      ∷ [])
                  ∷ lit "</div>\n"
                  ∷ lit "          <div style=\"min-width:0\"><div class=\"check-name\">"
                  ∷ esc_of "checkName(c)"
                  ∷ lit "</div>\n"
                  ∷ lit "            <div class=\"check-detail\">"
                  ∷ esc_of "diagReason(c)"
                  ∷ lit "</div></div>\n"
                  ∷ lit "          <div class=\"check-val\">"
                  ∷ choice "diagActual(c)&&diagActual(c)!==diagReason(c)"
                      (esc_of "diagActual(c).slice(0,42)" ∷ []) ([])
                  ∷ lit "</div>\n"
                  ∷ lit "          "
                  ∷ choice "c.status===\"fail\"||c.status===\"warn\""
                      (choice "c.fixable"
                          (lit "<button class=\"btn sm primary\" onclick=\"openFix('"
                            ∷ esc_of "c.id"
                            ∷ lit "','"
                            ∷ esc_of "c.fixable"
                            ∷ lit "')\">"
                            ∷ esc_of "t(\"btn.fix\")"
                            ∷ lit "</button>"
                            ∷ [])
                          (lit "<button class=\"btn guide\" onclick=\"openGuide('"
                            ∷ esc_of "checkName(c)"
                            ∷ lit "','"
                            ∷ esc_of "diagReason(c)"
                            ∷ lit "')\">"
                            ∷ esc_of "t(\"btn.guide\")"
                            ∷ lit "</button>"
                            ∷ [])
                        ∷ [])
                      ([])
                  ∷ lit "\n"
                  ∷ lit "        </div>"
                  ∷ [])
              ∷ lit "\n"
              ∷ lit "    </div>"
              ∷ [])
          ∷ lit "\n"
          ∷ lit "  "
          ∷ [])
        (lit "<div class=\"card\"><div class=\"empty\"><span class=\"big\">⌁</span>"
          ∷ esc_of "t(\"diag.run\")"
          ∷ lit "</div></div>"
          ∷ [])
    ∷ []
