-- ===== src/Views/Interfaces.antt =====
-- webui/assets/app.js, `viewInterfaces` and `showNic`.
use netcheck.Html.Template.{
  lit, esc_of, esc_take, raw, choice, each, each_or, part, Template, [], ◌∷◌,
}
use netcheck.Views.Shell.{interface_state_tag}

unfoldable pub view_interfaces : Template
unfolding interface_state_tag
view_interfaces =
    lit "\n"
    ∷ lit "  <div class=\"page-head\">\n"
    ∷ lit "    <div><h1>"
    ∷ esc_of "t(\"if.title\")"
    ∷ lit "</h1>\n"
    ∷ lit "      <div class=\"sub\">"
    ∷ esc_of "t(\"if.sub\")"
    ∷ lit " · "
    ∷ esc_of "nics.arch||\"\""
    ∷ lit " · "
    ∷ raw "visibleNics.length"
    ∷ lit "</div></div>\n"
    ∷ lit "    <button class=\"btn primary\" onclick=\"loadInterfaces()\">"
    ∷ esc_of "t(\"if.scan\")"
    ∷ lit "</button>\n"
    ∷ lit "  </div>\n"
    ∷ lit "  <div class=\"card\"><div class=\"table-wrap\"><table>\n"
    ∷ lit "    <thead><tr><th>"
    ∷ esc_of "t(\"col.iface\")"
    ∷ lit "</th><th>"
    ∷ esc_of "t(\"col.type\")"
    ∷ lit "</th><th>"
    ∷ esc_of "t(\"col.state\")"
    ∷ lit "</th>\n"
    ∷ lit "      <th>"
    ∷ esc_of "t(\"col.speed\")"
    ∷ lit "</th><th>IPv4</th><th>"
    ∷ esc_of "t(\"col.mode\")"
    ∷ lit "</th><th>MAC</th></tr></thead>\n"
    ∷ lit "    <tbody>"
    ∷ each_or "visibleNics"
        (lit "\n"
          ∷ lit "      <tr onclick=\"showNic('"
          ∷ esc_of "i.name"
          ∷ lit "')\" style=\"cursor:pointer\">\n"
          ∷ lit "        <td class=\"mono\" style=\"font-weight:700\">"
          ∷ esc_of "i.name"
          ∷ lit " "
          ∷ choice "i.is_primary"
              (lit "<span class=\"tag primary\">"
                ∷ esc_of "t(\"interfaces.primary\")"
                ∷ lit "</span>"
                ∷ [])
              ([])
          ∷ lit "</td>\n"
          ∷ lit "        <td><span class=\"nic-type t-"
          ∷ esc_of "i.type"
          ∷ lit "\">"
          ∷ esc_of "i.type"
          ∷ lit "</span></td>\n"
          ∷ lit "        <td>"
          ∷ part interface_state_tag
          ∷ lit "</td>\n"
          ∷ lit "        <td class=\"mono\">"
          ∷ choice "i.speed_mbps" (esc_of "i.speed_mbps" ∷ lit "Mb/s" ∷ []) (lit "—" ∷ [])
          ∷ lit "</td>\n"
          ∷ lit "        <td class=\"mono\">"
          ∷ esc_of "i.ipv4[0]?.addr || \"—\""
          ∷ lit "</td>\n"
          ∷ lit "        <td>"
          ∷ esc_of "i.mode"
          ∷ lit "</td>\n"
          ∷ lit "        <td class=\"mono\">"
          ∷ esc_of "i.mac||\"—\""
          ∷ lit "</td>\n"
          ∷ lit "      </tr>"
          ∷ [])
        (lit "<tr><td colspan=\"7\" class=\"empty\">—</td></tr>" ∷ [])
    ∷ lit "\n"
    ∷ lit "    </tbody></table></div></div>"
    ∷ []

unfoldable pub nic_modal : Template
nic_modal =
    lit "\n"
    ∷ lit "    <h2 class=\"mono\">"
    ∷ esc_of "name"
    ∷ lit "</h2>\n"
    ∷ lit "    <div class=\"sub\">"
    ∷ esc_of "i.speed_note||\"\""
    ∷ lit "</div>\n"
    ∷ lit "    <div class=\"table-wrap\"><table><tbody>"
    ∷ each
        "[[\"name\",\"type\",\"operstate\",\"speed_mbps\",\"duplex\",\"driver\",\"mtu\",\"mac\",\"mode\",\"gateway\",\"phys\"], [\"rx_bytes\",\"tx_bytes\",\"rx_errors\",\"tx_dropped\",\"ipv6_gateway\"]] .flat()"
        (lit "<tr><td class=\"mono\">"
          ∷ esc_of "k"
          ∷ lit "</td><td class=\"mono\">"
          ∷ esc_take 80 "JSON.stringify(i[k]??null)"
          ∷ lit "</td></tr>"
          ∷ [])
    ∷ lit "</tbody></table></div>"
    ∷ []
