-- ===== src/Views/Monitor.antt =====
-- webui/assets/app.js, `viewMonitor`.
use netcheck.Html.Template.{lit, esc_of, raw, choice, each, part, Template, [], ◌∷◌}
use netcheck.Views.Chart.{rtt_trend_chart}

unfoldable pub view_monitor : Template
unfolding rtt_trend_chart
view_monitor =
    lit "\n"
    ∷ lit "  <div class=\"page-head\">\n"
    ∷ lit "    <div><h1>"
    ∷ esc_of "t(\"nav.monitor\")"
    ∷ lit "</h1><div class=\"sub\">"
    ∷ esc_of "t(\"monitor.sub\", samples.length, alerts.length)"
    ∷ lit "</div></div>\n"
    ∷ lit "    <div class=\"page-head-actions\">\n"
    ∷ lit
        "      <select class=\"sel\" style=\"width:120px\" onchange=\"setMonitorRange(this.value)\">\n"
    ∷ lit "        <option value=\"1\" "
    ∷ choice "range===1" (lit "selected" ∷ []) ([])
    ∷ lit ">"
    ∷ esc_of "t(\"monitor.days1\")"
    ∷ lit "</option>\n"
    ∷ lit "        <option value=\"7\" "
    ∷ choice "range===7" (lit "selected" ∷ []) ([])
    ∷ lit ">"
    ∷ esc_of "t(\"monitor.days7\")"
    ∷ lit "</option>\n"
    ∷ lit "        <option value=\"30\" "
    ∷ choice "range===30" (lit "selected" ∷ []) ([])
    ∷ lit ">"
    ∷ esc_of "t(\"monitor.days30\")"
    ∷ lit "</option>\n"
    ∷ lit "      </select>\n"
    ∷ lit "      <button class=\"btn secondary\" id=\"monitorToggleBtn\"\n"
    ∷ lit "              aria-pressed=\""
    ∷ raw "monitorEnabled"
    ∷ lit "\"\n"
    ∷ lit "              "
    ∷ choice "state.monitorToggling" (lit "disabled aria-busy=\"true\"" ∷ []) ([])
    ∷ lit "\n"
    ∷ lit "              onclick=\"toggleMonitor()\">\n"
    ∷ lit "        "
    ∷ choice "state.monitorToggling" (lit "<span class=\"spin\" aria-hidden=\"true\"></span>" ∷ [])
        ([])
    ∷ lit "\n"
    ∷ lit "        "
    ∷ esc_of "t(monitorEnabled?\"monitor.pause\":\"monitor.resume\")"
    ∷ lit "\n"
    ∷ lit "      </button>\n"
    ∷ lit "      <button class=\"btn primary\" id=\"monitorSampleBtn\"\n"
    ∷ lit "              "
    ∷ choice "state.monitorSampling" (lit "disabled aria-busy=\"true\"" ∷ []) ([])
    ∷ lit "\n"
    ∷ lit "              onclick=\"doMonitorSample()\">\n"
    ∷ lit "        "
    ∷ choice "state.monitorSampling" (lit "<span class=\"spin\" aria-hidden=\"true\"></span>" ∷ [])
        ([])
    ∷ lit "\n"
    ∷ lit "        "
    ∷ esc_of "t(state.monitorSampling?\"monitor.sampling\":\"monitor.sampleNow\")"
    ∷ lit "\n"
    ∷ lit "      </button>\n"
    ∷ lit "      <button class=\"btn primary\" onclick=\"doAlertTest()\">"
    ∷ esc_of "t(\"monitor.testAlert\")"
    ∷ lit "</button>\n"
    ∷ lit "    </div>\n"
    ∷ lit "  </div>\n"
    ∷ lit "  "
    ∷ choice "!monitorEnabled"
        (lit "\n"
          ∷ lit "  <div class=\"sampling-banner paused\" role=\"status\" aria-live=\"polite\">\n"
          ∷ lit "    <span aria-hidden=\"true\">⏸</span>\n"
          ∷ lit "    <span>"
          ∷ esc_of "t(\"monitor.pausedMessage\")"
          ∷ lit "</span>\n"
          ∷ lit "  </div>"
          ∷ [])
        ([])
    ∷ lit "\n"
    ∷ lit "  "
    ∷ choice "state.monitorSampling"
        (lit "\n"
          ∷ lit "  <div class=\"sampling-banner\" role=\"status\" aria-live=\"polite\">\n"
          ∷ lit "    <span class=\"spin\" aria-hidden=\"true\"></span>\n"
          ∷ lit "    <span>"
          ∷ esc_of "t(\"monitor.samplingMessage\")"
          ∷ lit "</span>\n"
          ∷ lit "  </div>"
          ∷ [])
        ([])
    ∷ lit "\n"
    ∷ lit "  <div class=\"grid g3\">\n"
    ∷ lit "    <div class=\"metric-card\">\n"
    ∷ lit "      <div class=\"metric-lbl\">"
    ∷ esc_of "t(\"monitor.avgLoss\")"
    ∷ lit "</div>\n"
    ∷ lit "      <div class=\"metric-num\">"
    ∷ esc_of "avgLoss"
    ∷ lit "%</div>\n"
    ∷ lit "    </div>\n"
    ∷ lit "    <div class=\"metric-card\">\n"
    ∷ lit "      <div class=\"metric-lbl\">"
    ∷ esc_of "t(\"monitor.avgRtt\")"
    ∷ lit "</div>\n"
    ∷ lit "      <div class=\"metric-num\">"
    ∷ esc_of "avgRtt"
    ∷ lit "ms</div>\n"
    ∷ lit "    </div>\n"
    ∷ lit "    <div class=\"metric-card\">\n"
    ∷ lit "      <div class=\"metric-lbl\">"
    ∷ esc_of "t(\"monitor.maxLoss\")"
    ∷ lit "</div>\n"
    ∷ lit "      <div class=\"metric-num\">"
    ∷ esc_of "maxLoss"
    ∷ lit "%</div>\n"
    ∷ lit "    </div>\n"
    ∷ lit "  </div>\n"
    ∷ lit "  <div class=\"card\">\n"
    ∷ lit "    <div class=\"card-head\"><h2>"
    ∷ esc_of "t(\"monitor.rttTrend\")"
    ∷ lit "</h2></div>\n"
    ∷ lit "    "
    ∷ choice "samples.length" (part rtt_trend_chart ∷ []) (
        lit "<div class=\"empty\"><span class=\"big\">∿</span>"
        ∷ esc_of "t(\"monitor.noSamples\")"
        ∷ lit "</div>"
        ∷ [])
    ∷ lit "\n"
    ∷ lit "  </div>\n"
    ∷ lit "  <div class=\"card\">\n"
    ∷ lit "    <div class=\"card-head\"><h2>"
    ∷ esc_of "t(\"monitor.alertHistory\")"
    ∷ lit "</h2><span class=\"cnt\">"
    ∷ raw "alerts.length"
    ∷ lit "</span></div>\n"
    ∷ lit "    "
    ∷ choice "alerts.length"
        (lit "<div class=\"table-wrap\"><table>\n"
          ∷ lit "      <thead><tr><th>"
          ∷ esc_of "t(\"history.time\")"
          ∷ lit "</th><th>"
          ∷ esc_of "t(\"history.event\")"
          ∷ lit "</th><th>"
          ∷ esc_of "t(\"history.message\")"
          ∷ lit "</th></tr></thead>\n"
          ∷ lit "      <tbody>"
          ∷ each "alerts.slice(0,20)" (
              lit "\n"
              ∷ lit "        <tr><td class=\"mono\">"
              ∷ raw "new Date(a.ts*1000).toLocaleString()"
              ∷ lit "</td>\n"
              ∷ lit "            <td><span class=\"tag "
              ∷ choice "a.event.includes(\"loss\")" (lit "bad" ∷ [])
                  (choice "a.event.includes(\"latency\")" (lit "warn" ∷ []) (lit "info" ∷ []) ∷ [])
              ∷ lit "\">"
              ∷ esc_of "a.event"
              ∷ lit "</span></td>\n"
              ∷ lit "            <td>"
              ∷ esc_of "a.message||\"\""
              ∷ lit "</td></tr>"
              ∷ [])
          ∷ lit "\n"
          ∷ lit "      </tbody></table></div>"
          ∷ [])
        (lit "<div class=\"empty\">" ∷ esc_of "t(\"monitor.noAlerts\")" ∷ lit "</div>" ∷ [])
    ∷ lit "\n"
    ∷ lit "  </div>"
    ∷ []
