-- ===== src/Views/Chart.antt =====
-- webui/assets/app.js, the SVG of `rttTrendChart`.
use netcheck.Html.Template.{choice, lit, esc_of, raw, choice, each, Template, [], ◌∷◌}

unfoldable pub no_rtt_samples : Template
no_rtt_samples =
    lit "<div class=\"empty\"><span class=\"big\">∿</span>"
    ∷ esc_of "t(\"monitor.noRttSamples\")"
    ∷ lit "</div>"
    ∷ []

unfoldable pub rtt_svg : Template
rtt_svg =
    lit "\n"
    ∷ lit "  <svg class=\"trend-svg\" viewBox=\"0 0 640 190\" role=\"img\"\n"
    ∷ lit "       aria-label=\""
    ∷ esc_of "t(\"monitor.rttAria\", valid.length, maxValue)"
    ∷ lit "\">\n"
    ∷ lit "    <title>"
    ∷ esc_of "t(\"monitor.rttTrend\")"
    ∷ lit "</title>\n"
    ∷ lit "    "
    ∷ each "[0, .25, .5, .75, 1]" (
        lit "\n"
        ∷ lit "      <line class=\"trend-grid\" x1=\""
        ∷ raw "plot.left"
        ∷ lit "\" y1=\""
        ∷ raw "cy"
        ∷ lit "\" x2=\""
        ∷ raw "plot.right"
        ∷ lit "\" y2=\""
        ∷ raw "cy"
        ∷ lit "\"/>\n"
        ∷ lit "      <text class=\"trend-label\" x=\"42\" y=\""
        ∷ raw "cy"
        ∷ lit "\" text-anchor=\"end\" dominant-baseline=\"middle\">\n"
        ∷ lit "        "
        ∷ choice "index === 4" (esc_of "formatRttTick(value) + \" ms\"" ∷ [])
            (esc_of "formatRttTick(value)" ∷ [])
        ∷ lit "\n"
        ∷ lit "      </text>"
        ∷ [])
    ∷ lit "\n"
    ∷ lit "    <line class=\"trend-axis\" x1=\""
    ∷ raw "plot.left"
    ∷ lit "\" y1=\""
    ∷ raw "plot.top"
    ∷ lit "\" x2=\""
    ∷ raw "plot.left"
    ∷ lit "\" y2=\""
    ∷ raw "plot.bottom"
    ∷ lit "\"/>\n"
    ∷ lit "    <line class=\"trend-axis\" x1=\""
    ∷ raw "plot.left"
    ∷ lit "\" y1=\""
    ∷ raw "plot.bottom"
    ∷ lit "\" x2=\""
    ∷ raw "plot.right"
    ∷ lit "\" y2=\""
    ∷ raw "plot.bottom"
    ∷ lit "\"/>\n"
    ∷ lit "    "
    ∷ each "[0, 1/3, 2/3, 1]" (
        lit "\n"
        ∷ lit "      <line class=\"trend-grid\" x1=\""
        ∷ raw "tx"
        ∷ lit "\" y1=\""
        ∷ raw "plot.top"
        ∷ lit "\" x2=\""
        ∷ raw "tx"
        ∷ lit "\" y2=\""
        ∷ raw "plot.bottom"
        ∷ lit "\"/>\n"
        ∷ lit "      <line class=\"trend-axis-tick\" x1=\""
        ∷ raw "tx"
        ∷ lit "\" y1=\""
        ∷ raw "plot.bottom"
        ∷ lit "\" x2=\""
        ∷ raw "tx"
        ∷ lit "\" y2=\"157\"/>\n"
        ∷ lit "      <text class=\"trend-label\" x=\""
        ∷ raw "tx"
        ∷ lit "\" y=\"174\" text-anchor=\""
        ∷ raw "anchor"
        ∷ lit "\">\n"
        ∷ lit "        "
        ∷ esc_of "formatTrendTime(ts, spanMs)"
        ∷ lit "\n"
        ∷ lit "      </text>"
        ∷ [])
    ∷ lit "\n"
    ∷ lit "    "
    ∷ each "segments" (
        lit "\n"
        ∷ lit "    <path class=\"trend-line\" d=\""
        ∷ raw
            "points.map(([sample,,cy], index)=> `${index ? \"L\" : \"M\"}${x(sample.ts).toFixed(1)} ${cy.toFixed(1)}`).join(\" \")"
        ∷ lit "\"/>"
        ∷ [])
    ∷ lit "\n"
    ∷ lit "    "
    ∷ each "valid" (
        lit "<circle class=\"trend-point "
        ∷ choice "rtt>100" (lit "warn" ∷ []) ([])
        ∷ lit "\"\n"
        ∷ lit "      cx=\""
        ∷ raw "x(sample.ts).toFixed(1)"
        ∷ lit "\" cy=\""
        ∷ raw "y(rtt).toFixed(1)"
        ∷ lit "\" r=\"3\">\n"
        ∷ lit "      <title>"
        ∷ esc_of "new Date(sample.ts*1000).toLocaleString(curLang || undefined)"
        ∷ lit " · "
        ∷ esc_of "rtt"
        ∷ lit " ms</title>\n"
        ∷ lit "    </circle>"
        ∷ [])
    ∷ lit "\n"
    ∷ lit "  </svg>"
    ∷ []

unfoldable pub rtt_trend_chart : Template
unfolding no_rtt_samples rtt_svg
rtt_trend_chart = choice "!valid.length" no_rtt_samples rtt_svg ∷ []
