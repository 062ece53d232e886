-- ===== src/Views/Tools.antt =====
-- webui/assets/app.js, `viewTools` and the results of its tools.
use netcheck.Html.Template.{lit, esc_of, raw, choice, each, each_or, Template, [], ◌∷◌}

unfoldable pub view_tools : Template
view_tools =
    lit "\n"
    ∷ lit "  <div class=\"page-head\">\n"
    ∷ lit "    <div><h1>"
    ∷ esc_of "t(\"nav.tools2\")"
    ∷ lit "</h1><div class=\"sub\">"
    ∷ esc_of "t(\"tools.sub\")"
    ∷ lit "</div></div>\n"
    ∷ lit "  </div>\n"
    ∷ lit "  <div class=\"grid g2\">\n"
    ∷ lit "    <div class=\"card\">\n"
    ∷ lit "      <div class=\"card-head\"><h2>"
    ∷ esc_of "t(\"tools.deviceDiscovery\")"
    ∷ lit "</h2>\n"
    ∷ lit "        <button class=\"btn sm primary\" onclick=\"doDiscover()\">"
    ∷ esc_of "t(\"tools.scan\")"
    ∷ lit "</button></div>\n"
    ∷ lit "      <div id=\"deviceList\"><div class=\"empty\">"
    ∷ esc_of "t(\"tools.scanHint\")"
    ∷ lit "</div></div>\n"
    ∷ lit "    </div>\n"
    ∷ lit "    <div class=\"card\">\n"
    ∷ lit "      <div class=\"card-head\"><h2>"
    ∷ esc_of "t(\"tools.portCheck\")"
    ∷ lit "</h2></div>\n"
    ∷ lit "      <div style=\"display:flex;gap:8px;margin-bottom:12px\">\n"
    ∷ lit
        "        <input id=\"pcHost\" placeholder=\"192.168.1.1\" style=\"flex:1\" class=\"mono\">\n"
    ∷ lit "        <input id=\"pcPort\" placeholder=\"80\" style=\"width:70px\" class=\"mono\">\n"
    ∷ lit
        "        <select id=\"pcProto\" class=\"sel\" style=\"width:80px\"><option>tcp</option><option>udp</option></select>\n"
    ∷ lit "        <button class=\"btn primary\" onclick=\"doPortCheck()\">"
    ∷ esc_of "t(\"tools.check\")"
    ∷ lit "</button>\n"
    ∷ lit "      </div>\n"
    ∷ lit "      <div id=\"portResult\"></div>\n"
    ∷ lit "    </div>\n"
    ∷ lit "  </div>\n"
    ∷ lit "  <div class=\"grid g2\">\n"
    ∷ lit "    <div class=\"card\">\n"
    ∷ lit "      <div class=\"card-head\"><h2>"
    ∷ esc_of "t(\"tools.traceroute\")"
    ∷ lit "</h2></div>\n"
    ∷ lit "      <div style=\"display:flex;gap:8px;margin-bottom:12px\">\n"
    ∷ lit
        "        <input id=\"trTarget\" placeholder=\"8.8.8.8 or example.com\" style=\"flex:1\" class=\"mono\">\n"
    ∷ lit "        <button class=\"btn primary sm\" onclick=\"doTrace()\">"
    ∷ esc_of "t(\"tools.trace\")"
    ∷ lit "</button>\n"
    ∷ lit "      </div>\n"
    ∷ lit "      <div id=\"traceResult\"></div>\n"
    ∷ lit "    </div>\n"
    ∷ lit "    <div class=\"card\">\n"
    ∷ lit "      <div class=\"card-head\"><h2>"
    ∷ esc_of "t(\"tools.dnsCompare\")"
    ∷ lit "</h2></div>\n"
    ∷ lit "      <div style=\"display:flex;gap:8px;margin-bottom:12px\">\n"
    ∷ lit
        "        <input id=\"dnsDomain\" placeholder=\"example.com\" style=\"flex:1\" class=\"mono\">\n"
    ∷ lit "        <button class=\"btn primary sm\" onclick=\"doDnsCompare()\">"
    ∷ esc_of "t(\"tools.compare\")"
    ∷ lit "</button>\n"
    ∷ lit "      </div>\n"
    ∷ lit "      <div id=\"dnsResult\"></div>\n"
    ∷ lit "    </div>\n"
    ∷ lit "  </div>"
    ∷ []

unfoldable pub device_list : Template
device_list =
    each_or "d.devices"
      (lit "\n"
        ∷ lit
            "    <div style=\"display:flex;gap:8px;align-items:center;padding:6px 0;border-bottom:1px solid var(--border)\">\n"
        ∷ lit "      <span class=\"mono\" style=\"font-weight:700\">"
        ∷ esc_of "dev.ip"
        ∷ lit "</span>\n"
        ∷ lit "      <span class=\"mono\" style=\"font-size:11px;color:var(--text-3)\">"
        ∷ esc_of "dev.mac"
        ∷ lit "</span>\n"
        ∷ lit "      <span style=\"font-size:12px;color:var(--text-3)\">"
        ∷ esc_of "dev.vendor"
        ∷ lit "</span>\n"
        ∷ lit "      "
        ∷ choice "dev.conflict"
            (lit "<span class=\"tag bad\">" ∷ esc_of "t(\"tools.conflict\")" ∷ lit "</span>" ∷ [])
            ([])
        ∷ lit "\n"
        ∷ lit "    </div>"
        ∷ [])
      (lit "<div class=\"empty\">" ∷ esc_of "t(\"tools.noDevices\")" ∷ lit "</div>" ∷ [])
    ∷ []

unfoldable pub port_result : Template
port_result =
    lit "\n"
    ∷ lit "      <div style=\"padding:10px;border-radius:8px;background:var(--"
    ∷ choice "res.reachable" (lit "ok" ∷ []) (lit "bad" ∷ [])
    ∷ lit "-soft);color:var(--"
    ∷ choice "res.reachable" (lit "ok" ∷ []) (lit "bad" ∷ [])
    ∷ lit "-strong);font-weight:700\">\n"
    ∷ lit "        "
    ∷ choice "res.reachable" (lit "✓ " ∷ raw "t(\"tools.open\")" ∷ [])
        (lit "✕ " ∷ raw "t(\"tools.closed\")" ∷ [])
    ∷ lit " · "
    ∷ esc_of "host"
    ∷ lit ":"
    ∷ esc_of "port"
    ∷ lit " "
    ∷ esc_of "proto"
    ∷ lit " · "
    ∷ esc_of "res.rtt_ms"
    ∷ lit "ms\n"
    ∷ lit "      </div>"
    ∷ []

unfoldable pub trace_result : Template
trace_result =
    choice "d.breakpoint"
      (lit
          "<div style=\"padding:8px;border-radius:6px;background:var(--bad-soft);color:var(--bad-strong);font-weight:600;margin-bottom:8px\">"
        ∷ esc_of "t(\"tools.breakpoint\", d.breakpoint.hop)"
        ∷ lit " ("
        ∷ esc_of "d.breakpoint.attribution"
        ∷ lit ")</div>"
        ∷ [])
      ([])
    ∷ each "d.hops" (
        lit "\n"
        ∷ lit "      <div style=\"display:flex;gap:10px;padding:3px 0;font-size:12px\">\n"
        ∷ lit "        <span class=\"mono\" style=\"width:24px;color:var(--text-3)\">"
        ∷ esc_of "h.hop"
        ∷ lit "</span>\n"
        ∷ lit "        <span class=\"mono\" style=\"flex:1\">"
        ∷ esc_of "h.ip"
        ∷ lit "</span>\n"
        ∷ lit "        <span class=\"mono\">"
        ∷ choice "h.rtts.length" (esc_of "Math.min(...h.rtts).toFixed(1)" ∷ lit "ms" ∷ [])
            (lit "*" ∷ [])
        ∷ lit "</span>\n"
        ∷ lit "      </div>"
        ∷ [])
    ∷ []

unfoldable pub dns_result : Template
dns_result =
    lit "<div style=\"margin-bottom:10px\">"
    ∷ choice "d.mismatch"
        (lit "<span class=\"tag bad\">" ∷ esc_of "t(\"tools.possibleHijack\")" ∷ lit "</span>" ∷ [])
        (lit "<span class=\"tag ok\">" ∷ esc_of "t(\"tools.consistent\")" ∷ lit "</span>" ∷ [])
    ∷ lit "</div>"
    ∷ each "Object.entries(d.results)" (
        lit
          "<div style=\"display:flex;gap:8px;padding:4px 0;border-bottom:1px solid var(--border);font-size:12px\">\n"
        ∷ lit "        <span class=\"mono\" style=\"width:120px;font-weight:600\">"
        ∷ esc_of "dns"
        ∷ lit "</span>\n"
        ∷ lit "        <span class=\"mono\" style=\"flex:1\">"
        ∷ esc_of "info.ips.join(\", \")||\"—\""
        ∷ lit "</span>\n"
        ∷ lit "        <span class=\"mono\">"
        ∷ esc_of "info.time_ms"
        ∷ lit "ms</span></div>"
        ∷ [])
    ∷ []
