-- ===== src/Views/Repair.antt =====
-- webui/assets/app.js, `openGuide` and `renderModal`.
use netcheck.Html.Template.{lit, esc_of, raw, choice, each, Template, [], ◌∷◌}

unfoldable pub guide_modal : Template
guide_modal =
    lit "\n"
    ∷ lit "    <h2>"
    ∷ esc_of "t(\"fix.title\")"
    ∷ lit " · <span class=\"mono\">"
    ∷ esc_of "name"
    ∷ lit "</span></h2>\n"
    ∷ lit "    <div class=\"sub\">"
    ∷ esc_of "t(\"fix.action\")"
    ∷ lit ": <span class=\"mono\">guide</span></div>\n"
    ∷ lit
        "    <div style=\"background:var(--card-2);border:1px solid var(--border);border-radius:10px;\n"
    ∷ lit "         padding:12px;color:var(--text-2);font-size:12.5px;line-height:1.7\">\n"
    ∷ lit "      "
    ∷ esc_of "reason || \"—\""
    ∷ lit "\n"
    ∷ lit "    </div>"
    ∷ []

unfoldable pub fix_modal : Template
fix_modal =
    lit "\n"
    ∷ lit "  <div class=\"overlay\" onclick=\"if(event.target===this)closeFix()\">\n"
    ∷ lit "    <div class=\"modal\">\n"
    ∷ lit "      <h2>"
    ∷ esc_of "t(\"fix.title\")"
    ∷ lit " · <span class=\"mono\">"
    ∷ esc_of "fixCtx.checkId"
    ∷ lit "</span></h2>\n"
    ∷ lit "      <div class=\"sub\">"
    ∷ esc_of "t(\"fix.action\")"
    ∷ lit ": <span class=\"mono\">"
    ∷ esc_of "fixCtx.fixable"
    ∷ lit "</span></div>\n"
    ∷ lit "      <div class=\"steps\">"
    ∷ each "steps"
        (lit "<div class=\"st\"><b>" ∷ raw "i+1" ∷ lit "</b>" ∷ esc_of "s" ∷ lit "</div>" ∷ [])
    ∷ lit "</div>\n"
    ∷ lit "      "
    ∷ choice "fixCtx.phase===\"confirm\" && (needsDns || needsGateway)"
        (lit "\n"
          ∷ lit "        <div style=\"display:grid;gap:10px;margin:14px 0\">\n"
          ∷ lit "          "
          ∷ choice "needsDns"
              (lit "<label style=\"display:grid;gap:5px;font-size:12px;font-weight:600\">\n"
                ∷ lit "            <span>"
                ∷ esc_of "t(\"fix.dnsServers\")"
                ∷ lit "</span>\n"
                ∷ lit "            <input id=\"fixDns\" class=\"input mono\" value=\""
                ∷ esc_of "defaultDns"
                ∷ lit "\" autocomplete=\"off\">\n"
                ∷ lit "          </label>"
                ∷ [])
              ([])
          ∷ lit "\n"
          ∷ lit "          "
          ∷ choice "needsGateway"
              (lit "<label style=\"display:grid;gap:5px;font-size:12px;font-weight:600\">\n"
                ∷ lit "            <span>"
                ∷ esc_of "t(\"fix.gateway\")"
                ∷ lit "</span>\n"
                ∷ lit "            <input id=\"fixGateway\" class=\"input mono\" value=\""
                ∷ esc_of "defaultGateway"
                ∷ lit "\" autocomplete=\"off\">\n"
                ∷ lit "          </label>"
                ∷ [])
              ([])
          ∷ lit "\n"
          ∷ lit "        </div>"
          ∷ [])
        ([])
    ∷ lit "\n"
    ∷ lit "      "
    ∷ choice "fixCtx.phase===\"confirm\""
        (lit "\n"
          ∷ lit
              "        <label style=\"display:flex;gap:8px;align-items:center;font-size:13px;font-weight:600;margin:14px 0\">\n"
          ∷ lit
              "          <input type=\"checkbox\" id=\"fixConfirm\" style=\"width:16px;height:16px\">\n"
          ∷ lit "          "
          ∷ esc_of "t(\"fix.confirm\")"
          ∷ lit "</label>\n"
          ∷ lit "        <div style=\"display:flex;gap:10px\">\n"
          ∷ lit "          <button class=\"btn primary\" style=\"flex:1\" onclick=\"doFix()\">"
          ∷ esc_of "t(\"fix.run\")"
          ∷ lit "</button>\n"
          ∷ lit "          <button class=\"btn secondary\" onclick=\"closeFix()\">"
          ∷ esc_of "t(\"btn.cancel\")"
          ∷ lit "</button>\n"
          ∷ lit "        </div>"
          ∷ [])
        (choice "fixCtx.phase===\"running\""
            (lit "\n"
              ∷ lit
                  "        <div class=\"progress on\" style=\"--pct:50%;margin:16px 0\"><div class=\"bar\"></div></div>\n"
              ∷ lit "        <div style=\"text-align:center;color:var(--text-3)\">"
              ∷ esc_of "t(\"toast.fixing\")"
              ∷ lit "…</div>"
              ∷ [])
            (lit "\n"
              ∷ lit "        <div style=\"padding:14px;border-radius:10px;margin:12px 0;\n"
              ∷ lit "             background:var(--"
              ∷ choice "fixPending" (lit "warn" ∷ [])
                  (choice "fixCtx.result?.code === 0" (lit "ok" ∷ []) (lit "bad" ∷ []) ∷ [])
              ∷ lit "-soft);\n"
              ∷ lit "             color:var(--"
              ∷ choice "fixPending" (lit "warn" ∷ [])
                  (choice "fixCtx.result?.code === 0" (lit "ok" ∷ []) (lit "bad" ∷ []) ∷ [])
              ∷ lit "-strong);font-weight:700\">\n"
              ∷ lit "          "
              ∷ choice "fixPending" (raw "t(\"fix.pending\")" ∷ []) (
                  choice "fixCtx.result?.code===0" (raw "t(\"fix.ok\")" ∷ [])
                    (raw "t(\"fix.fail\")" ∷ [])
                  ∷ [])
              ∷ lit "</div>\n"
              ∷ lit "        "
              ∷ choice
                  "(fixCtx.result?.data?.message || (fixCtx.result?.code!==0 && fixCtx.result?.message && fixCtx.result.message!==\"ok\"))"
                  (lit "<div style=\"margin:4px 0 8px;font-size:13px\">"
                    ∷ esc_of
                        "translateFixMessage(fixCtx.result.code===0 ? fixCtx.result.data.message : fixCtx.result.message)"
                    ∷ lit "</div>"
                    ∷ [])
                  ([])
              ∷ lit "\n"
              ∷ lit "        "
              ∷ choice
                  "Array.isArray(fixCtx.result?.data?.guide) && fixCtx.result.data.guide.length"
                  (lit "<div style=\"margin:8px 0;display:grid;gap:5px;font-size:12.5px\">"
                    ∷ each "fixCtx.result.data.guide" (
                        choice "tl" (lit "<div>" ∷ esc_of "tl" ∷ lit "</div>" ∷ []) (
                          lit "<div class=\"mono\" style=\"font-size:11px;color:var(--text-2)\">"
                          ∷ esc_of "line"
                          ∷ lit "</div>"
                          ∷ [])
                        ∷ [])
                    ∷ lit "</div>"
                    ∷ [])
                  ([])
              ∷ lit "\n"
              ∷ lit "        <details style=\"margin-top:6px\">\n"
              ∷ lit
                  "          <summary style=\"cursor:pointer;font-size:11px;color:var(--text-3)\">JSON</summary>\n"
              ∷ lit
                  "          <pre class=\"mono\" style=\"font-size:11px;color:var(--text-2);white-space:pre-wrap;max-height:180px;overflow:auto\">"
              ∷ esc_of "JSON.stringify(fixCtx.result,null,2)"
              ∷ lit "</pre>\n"
              ∷ lit "        </details>\n"
              ∷ lit "        <button class=\"btn primary w-full\" onclick=\"closeFix()\">"
              ∷ esc_of "t(\"btn.close\")"
              ∷ lit "</button>"
              ∷ [])
          ∷ [])
    ∷ lit "\n"
    ∷ lit "    </div>\n"
    ∷ lit "  </div>"
    ∷ []
