-- ===== src/Views/Settings.antt =====
-- webui/assets/app.js, `viewSettings` and `viewAbout`.
use netcheck.Html.Template.{lit, esc_of, raw, choice, each, Template, [], ◌∷◌}

unfoldable pub view_settings : Template
view_settings =
    lit "\n"
    ∷ lit "  <div class=\"page-head\"><div><h1>"
    ∷ esc_of "t(\"set.title\")"
    ∷ lit "</h1></div></div>\n"
    ∷ lit "  <div class=\"card\">\n"
    ∷ lit "    <div class=\"card-head\"><h2>"
    ∷ esc_of "t(\"set.lang\")"
    ∷ lit " / "
    ∷ esc_of "t(\"set.theme\")"
    ∷ lit "</h2></div>\n"
    ∷ lit "    <div class=\"status-row\"><span class=\"status-name\" style=\"flex:1\">"
    ∷ esc_of "t(\"set.lang\")"
    ∷ lit "</span>\n"
    ∷ lit
        "      <select class=\"sel\" id=\"settingsLang\" style=\"width:220px\" onchange=\"saveLang(this.value)\">\n"
    ∷ lit "        "
    ∷ each "LOCALES" (
        lit "<option value=\""
        ∷ raw "c"
        ∷ lit "\" "
        ∷ choice "c===curLang" (lit "selected" ∷ []) ([])
        ∷ lit ">"
        ∷ raw "n"
        ∷ lit "</option>"
        ∷ [])
    ∷ lit "\n"
    ∷ lit "      </select></div>\n"
    ∷ lit "    <div class=\"status-row\"><span class=\"status-name\" style=\"flex:1\">"
    ∷ esc_of "t(\"set.theme\")"
    ∷ lit "</span>\n"
    ∷ lit "      <select class=\"sel\" style=\"width:220px\" onchange=\"saveTheme(this.value)\">\n"
    ∷ lit "        "
    ∷ each "[\"system\",\"light\",\"dark\"]" (
        lit "<option value=\""
        ∷ raw "v"
        ∷ lit "\" "
        ∷ choice "v===state.theme" (lit "selected" ∷ []) ([])
        ∷ lit ">"
        ∷ esc_of "t(\"theme.\"+v)"
        ∷ lit "</option>"
        ∷ [])
    ∷ lit "\n"
    ∷ lit "      </select></div>\n"
    ∷ lit "  </div>\n"
    ∷ lit "  <div class=\"card\">\n"
    ∷ lit "    <div class=\"card-head\"><h2>"
    ∷ esc_of "t(\"set.repair\")"
    ∷ lit "</h2></div>\n"
    ∷ lit "    <div class=\"status-row\"><span class=\"status-name\" style=\"flex:1\">"
    ∷ esc_of "t(\"settings.repairMode\")"
    ∷ lit "</span>\n"
    ∷ lit "      <span class=\"tag info mono\">"
    ∷ esc_of "s.repair?.mode || \"helper\""
    ∷ lit "</span></div>\n"
    ∷ lit "    <div class=\"status-row\"><span class=\"status-name\" style=\"flex:1\">"
    ∷ esc_of "t(\"settings.requireAdmin\")"
    ∷ lit "</span>\n"
    ∷ lit "      <span class=\"tag "
    ∷ choice "s.repair?.require_admin" (lit "ok" ∷ []) (lit "warn" ∷ [])
    ∷ lit "\">"
    ∷ choice "s.repair?.require_admin" (raw "t(\"common.on\")" ∷ []) (raw "t(\"common.off\")" ∷ [])
    ∷ lit "</span></div>\n"
    ∷ lit "  </div>\n"
    ∷ lit "  "
    ∷ []

unfoldable pub view_about : Template
view_about =
    lit "\n"
    ∷ lit "  <div class=\"page-head\"><div><h1>"
    ∷ esc_of "t(\"about.title\")"
    ∷ lit "</h1>\n"
    ∷ lit "    <div class=\"sub\">"
    ∷ esc_of "t(\"app.tag\")"
    ∷ lit "</div></div></div>\n"
    ∷ lit "  <div class=\"card\">\n"
    ∷ lit "    <div class=\"about-meta\">"
    ∷ each "metadata" (
        lit "\n"
        ∷ lit "      <div><span>"
        ∷ esc_of "label"
        ∷ lit "</span><b class=\"mono\">"
        ∷ esc_of "value"
        ∷ lit "</b></div>"
        ∷ [])
    ∷ lit "\n"
    ∷ lit "    </div>\n"
    ∷ lit "    <p class=\"about-intro\">"
    ∷ esc_of "t(\"about.intro\")"
    ∷ lit "</p>\n"
    ∷ lit "  </div>\n"
    ∷ lit "  <div class=\"card\">\n"
    ∷ lit "    <div class=\"card-head\"><h2>"
    ∷ esc_of "t(\"about.modules\")"
    ∷ lit "</h2>\n"
    ∷ lit "      <span class=\"cnt\">"
    ∷ raw "modules.length"
    ∷ lit "</span></div>\n"
    ∷ lit "    <p class=\"about-modules-hint\">"
    ∷ esc_of "t(\"about.modulesHint\")"
    ∷ lit "</p>\n"
    ∷ lit "    <div class=\"about-modules\">"
    ∷ each "modules" (
        lit "\n"
        ∷ lit "      <details class=\"about-module\""
        ∷ choice "idx===0" (lit " open" ∷ []) ([])
        ∷ lit ">\n"
        ∷ lit "        <summary><span>"
        ∷ esc_of "t(\"nav.\"+page)"
        ∷ lit "</span>\n"
        ∷ lit
            "          <svg class=\"about-chevron\" width=\"14\" height=\"14\" viewBox=\"0 0 24 24\" fill=\"none\"\n"
        ∷ lit "               stroke=\"currentColor\" stroke-width=\"2\" stroke-linecap=\"round\"\n"
        ∷ lit
            "               stroke-linejoin=\"round\" aria-hidden=\"true\"><path d=\"m6 9 6 6 6-6\"/></svg></summary>\n"
        ∷ lit "        <div class=\"about-module-body\"><p>"
        ∷ esc_of "t(key)"
        ∷ lit "</p></div>\n"
        ∷ lit "      </details>"
        ∷ [])
    ∷ lit "\n"
    ∷ lit "    </div>\n"
    ∷ lit "  </div>\n"
    ∷ lit "  "
    ∷ []
