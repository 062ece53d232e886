-- ===== src/Views/Shell.antt =====
-- webui/assets/app.js, `shell`, `navIcon`, `showModal`, and the tags that several views share.
use netcheck.Common.{List, String}
use netcheck.Views.Icons.{nav_icons}
use netcheck.Html.Template.{lit, esc_of, raw, choice, each, part, Template, [], ◌∷◌}

-- `NAV_ICONS[name] || ""`, a test for each name.
icon_choices : List (String × String) → Template
icon_choices List.[] = []
icon_choices (List.◌∷◌ (name, icon) icons) = choice name (lit icon ∷ []) (icon_choices icons) ∷ []

unfoldable pub nav_icon : Template
unfolding icon_choices nav_icons
nav_icon =
    lit
      "<svg class=\"nav-svg\" width=\"18\" height=\"18\" viewBox=\"0 0 24 24\" fill=\"none\" stroke=\"currentColor\" stroke-width=\"1.7\" stroke-linecap=\"round\" stroke-linejoin=\"round\" aria-hidden=\"true\">"
    ∷ part (icon_choices nav_icons)
    ∷ lit "</svg>"
    ∷ []

unfoldable pub status_tag : Template
status_tag =
    lit "<span class=\"tag "
    ∷ choice "st===\"pass\"" (lit "ok" ∷ []) (
        choice "st===\"warn\"" (lit "warn" ∷ [])
          (choice "st===\"fail\"" (lit "bad" ∷ []) (lit "info" ∷ []) ∷ [])
        ∷ [])
    ∷ lit "\">"
    ∷ esc_of "t(\"st.\"+st)"
    ∷ lit "</span>"
    ∷ []

unfoldable pub interface_state_tag : Template
interface_state_tag =
    lit "<span class=\"tag "
    ∷ choice "up" (lit "ok" ∷ []) (lit "bad" ∷ [])
    ∷ lit "\" data-state=\""
    ∷ choice "up" (lit "up" ∷ []) (lit "down" ∷ [])
    ∷ lit "\">"
    ∷ esc_of "t(up?\"if.up\":\"if.down\")"
    ∷ lit "</span>"
    ∷ []

unfoldable pub shell : Template → Template
unfolding nav_icon
shell content =
    lit "\n"
    ∷ lit "  <div class=\"layout\">\n"
    ∷ lit "    <header class=\"topbar\">\n"
    ∷ lit
        "      <div class=\"brand\"><div class=\"logo\"><svg width=\"20\" height=\"20\" viewBox=\"0 0 24 24\" fill=\"none\"><path d=\"M9.8 4.6a5.2 5.2 0 0 1 8.4 0\" stroke=\"#fff\" stroke-opacity=\".5\" stroke-width=\"1.5\" stroke-linecap=\"round\"/><path d=\"M4 13.5h4.4l2-5 3.4 10.5 1.7-5.5H20\" stroke=\"#fff\" stroke-width=\"2.7\" stroke-linecap=\"round\" stroke-linejoin=\"round\"/><circle cx=\"15.5\" cy=\"13.5\" r=\"2\" fill=\"#fff\"/></svg></div>\n"
    ∷ lit "        <div><span class=\"brand-name\">NetCheck</span></div></div>\n"
    ∷ lit "    </header>\n"
    ∷ lit "    <div class=\"body\">\n"
    ∷ lit "      <aside class=\"sidebar\">\n"
    ∷ lit "        "
    ∷ each "navItems" (
        lit "\n"
        ∷ lit "          <div class=\"nav-sec\">"
        ∷ esc_of "t(\"nav.\"+sec)"
        ∷ lit "</div>\n"
        ∷ lit "          "
        ∷ each "items" (
            lit "\n"
            ∷ lit "            <button class=\"nav-item "
            ∷ choice "state.page===p" (lit "active" ∷ []) ([])
            ∷ lit "\" onclick=\"nav('"
            ∷ raw "p"
            ∷ lit "')\">\n"
            ∷ lit "              <span class=\"ico\">"
            ∷ part nav_icon
            ∷ lit "</span>"
            ∷ esc_of "t(\"nav.\"+p)"
            ∷ lit "</button>"
            ∷ [])
        ∷ lit "\n"
        ∷ lit "        "
        ∷ [])
    ∷ lit "\n"
    ∷ lit "        <div class=\"spacer\"></div>\n"
    ∷ lit "        <button class=\"nav-item\" onclick=\"requestLogout()\"><span class=\"ico\">"
    ∷ part nav_icon
    ∷ lit "</span>"
    ∷ esc_of "t(\"nav.logout\")"
    ∷ lit "</button>\n"
    ∷ lit "      </aside>\n"
    ∷ lit "      <main class=\"main\">\n"
    ∷ lit "      <div class=\"content\">"
    ∷ part content
    ∷ lit "</div>\n"
    ∷ lit "      </main>\n"
    ∷ lit "    </div>\n"
    ∷ lit "  </div>"
    ∷ []

unfoldable pub show_modal : Template → Template
show_modal html =
    lit "<div class=\"overlay\" onclick=\"if(event.target===this)this.remove()\">\n"
    ∷ lit "    <div class=\"modal\">"
    ∷ part html
    ∷ lit "\n"
    ∷ lit "    "
    ∷ choice "closeButton"
        (lit
            "<button class=\"btn secondary w-full\" style=\"margin-top:12px\" onclick=\"this.closest('.overlay').remove()\">"
          ∷ esc_of "t(\"btn.close\")"
          ∷ lit "</button>"
          ∷ [])
        ([])
    ∷ lit "\n"
    ∷ lit "    </div></div>"
    ∷ []

unfoldable pub logout_modal : Template
logout_modal =
    lit "\n"
    ∷ lit "    <h2>"
    ∷ esc_of "t(\"logout.title\")"
    ∷ lit "</h2>\n"
    ∷ lit "    <div class=\"sub\">"
    ∷ esc_of "t(\"logout.message\")"
    ∷ lit "</div>\n"
    ∷ lit "    <div style=\"display:flex;gap:10px;margin-top:18px\">\n"
    ∷ lit
        "      <button class=\"btn secondary\" style=\"flex:1\" onclick=\"this.closest('.overlay').remove()\">\n"
    ∷ lit "        "
    ∷ esc_of "t(\"btn.cancel\")"
    ∷ lit "</button>\n"
    ∷ lit "      <button class=\"btn danger\" style=\"flex:1\" onclick=\"doLogout()\">"
    ∷ esc_of "t(\"common.confirm\")"
    ∷ lit "</button>\n"
    ∷ lit "    </div>"
    ∷ []
