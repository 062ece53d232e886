-- ===== src/Views/Account.antt =====
-- webui/assets/app.js, `viewLogin`, `viewInit`, `viewForgot` and the recovery code.
use netcheck.Html.Template.{lit, esc_of, choice, Template, [], ◌∷◌}

unfoldable pub view_login : Template
view_login =
    lit "\n"
    ∷ lit "  <div class=\"auth-wrap\"><div class=\"auth-card\">\n"
    ∷ lit
        "    <div class=\"auth-logo\"><svg width=\"30\" height=\"30\" viewBox=\"0 0 24 24\" fill=\"none\"><path d=\"M9.5 4.2a5.8 5.8 0 0 1 9 0\" stroke=\"#fff\" stroke-opacity=\".5\" stroke-width=\"1.6\" stroke-linecap=\"round\"/><path d=\"M3.8 13.5h4.3l2-5.2 3.4 11 1.8-5.8h4.7\" stroke=\"#fff\" stroke-width=\"2.9\" stroke-linecap=\"round\" stroke-linejoin=\"round\"/><circle cx=\"15.3\" cy=\"13.5\" r=\"2.1\" fill=\"#fff\"/><circle cx=\"15.3\" cy=\"13.5\" r=\".9\" fill=\"#50B070\"/></svg></div>\n"
    ∷ lit "    <h1>"
    ∷ esc_of "t(\"login.title\")"
    ∷ lit "</h1>\n"
    ∷ lit "    <p class=\"sub\">"
    ∷ esc_of "t(\"login.sub\")"
    ∷ lit "</p>\n"
    ∷ lit "    "
    ∷ choice "state.bootError"
        (lit "<div class=\"err-box on\">"
          ∷ esc_of "state.bootError"
          ∷ lit "<button class=\"btn secondary\" style=\"margin-left:8px\" onclick=\"retryBoot()\">"
          ∷ esc_of "t(\"auth.retry\")"
          ∷ lit "</button></div>"
          ∷ [])
        ([])
    ∷ lit "\n"
    ∷ lit "    <div class=\"err-box\" id=\"loginErr\"></div>\n"
    ∷ lit
        "    <div class=\"err-box\" id=\"loginLock\" style=\"border-left:4px solid var(--warn)\"></div>\n"
    ∷ lit "    <label class=\"field\"><span>"
    ∷ esc_of "t(\"login.user\")"
    ∷ lit "</span>\n"
    ∷ lit "      <input id=\"loginUser\" autocomplete=\"username\"></label>\n"
    ∷ lit "    <label class=\"field\"><span>"
    ∷ esc_of "t(\"login.pass\")"
    ∷ lit "</span>\n"
    ∷ lit "      <input id=\"loginPass\" type=\"password\" autocomplete=\"current-password\"\n"
    ∷ lit "        onkeydown=\"if(event.key==='Enter')doLogin()\"></label>\n"
    ∷ lit "    <button class=\"btn primary lg w-full\" id=\"loginBtn\" onclick=\"doLogin()\">"
    ∷ esc_of "t(\"login.btn\")"
    ∷ lit "</button>\n"
    ∷ lit "    <div class=\"auth-links\">\n"
    ∷ lit "      <a href=\"javascript:nav('forgot')\">"
    ∷ esc_of "t(\"login.forgot\")"
    ∷ lit "</a>\n"
    ∷ lit "      <a href=\"javascript:nav('init')\">"
    ∷ esc_of "t(\"login.init\")"
    ∷ lit "</a>\n"
    ∷ lit "    </div>\n"
    ∷ lit "  </div></div>"
    ∷ []

unfoldable pub view_init : Template
view_init =
    lit "\n"
    ∷ lit "  <div class=\"auth-wrap\"><div class=\"auth-card\">\n"
    ∷ lit
        "    <div class=\"auth-logo\"><svg width=\"30\" height=\"30\" viewBox=\"0 0 24 24\" fill=\"none\"><path d=\"M9.5 4.2a5.8 5.8 0 0 1 9 0\" stroke=\"#fff\" stroke-opacity=\".5\" stroke-width=\"1.6\" stroke-linecap=\"round\"/><path d=\"M3.8 13.5h4.3l2-5.2 3.4 11 1.8-5.8h4.7\" stroke=\"#fff\" stroke-width=\"2.9\" stroke-linecap=\"round\" stroke-linejoin=\"round\"/><circle cx=\"15.3\" cy=\"13.5\" r=\"2.1\" fill=\"#fff\"/><circle cx=\"15.3\" cy=\"13.5\" r=\".9\" fill=\"#50B070\"/></svg></div>\n"
    ∷ lit "    <h1>"
    ∷ esc_of "t(\"init.title\")"
    ∷ lit "</h1>\n"
    ∷ lit "    <p class=\"sub\">"
    ∷ esc_of "t(\"init.sub\")"
    ∷ lit "</p>\n"
    ∷ lit "    <div class=\"err-box\" id=\"initErr\"></div>\n"
    ∷ lit "    <label class=\"field\"><span>"
    ∷ esc_of "t(\"login.user\")"
    ∷ lit "</span><input id=\"initUser\"></label>\n"
    ∷ lit "    <label class=\"field\"><span>"
    ∷ esc_of "t(\"login.pass\")"
    ∷ lit "</span><input id=\"initPass\" type=\"password\"></label>\n"
    ∷ lit "    <label class=\"field\"><span>"
    ∷ esc_of "t(\"init.confirm\")"
    ∷ lit "</span><input id=\"initPass2\" type=\"password\"></label>\n"
    ∷ lit "    <div class=\"hint-box\" style=\"margin-bottom:14px\">"
    ∷ esc_of "t(\"init.hint\")"
    ∷ lit "</div>\n"
    ∷ lit "    <button class=\"btn primary lg w-full\" onclick=\"doInit()\">"
    ∷ esc_of "t(\"init.btn\")"
    ∷ lit "</button>\n"
    ∷ lit "  </div></div>"
    ∷ []

unfoldable pub view_forgot : Template
view_forgot =
    lit "\n"
    ∷ lit "  <div class=\"auth-wrap\"><div class=\"auth-card\">\n"
    ∷ lit
        "    <div class=\"auth-logo\"><svg width=\"30\" height=\"30\" viewBox=\"0 0 24 24\" fill=\"none\"><path d=\"M9.5 4.2a5.8 5.8 0 0 1 9 0\" stroke=\"#fff\" stroke-opacity=\".5\" stroke-width=\"1.6\" stroke-linecap=\"round\"/><path d=\"M3.8 13.5h4.3l2-5.2 3.4 11 1.8-5.8h4.7\" stroke=\"#fff\" stroke-width=\"2.9\" stroke-linecap=\"round\" stroke-linejoin=\"round\"/><circle cx=\"15.3\" cy=\"13.5\" r=\"2.1\" fill=\"#fff\"/><circle cx=\"15.3\" cy=\"13.5\" r=\".9\" fill=\"#50B070\"/></svg></div>\n"
    ∷ lit "    <h1>"
    ∷ esc_of "t(\"login.forgot\")"
    ∷ lit "</h1>\n"
    ∷ lit "    <p class=\"sub\">"
    ∷ esc_of "t(\"forgot.sub\")"
    ∷ lit "</p>\n"
    ∷ lit "    <div class=\"err-box\" id=\"forgotErr\"></div>\n"
    ∷ lit "    <label class=\"field\"><span>"
    ∷ esc_of "t(\"login.user\")"
    ∷ lit "</span><input id=\"fgUser\" autocomplete=\"username\"></label>\n"
    ∷ lit "    <label class=\"field\"><span>"
    ∷ esc_of "t(\"forgot.recoveryCode\")"
    ∷ lit "</span><input id=\"fgCode\" class=\"mono\" autocomplete=\"off\"></label>\n"
    ∷ lit "    <label class=\"field\"><span>"
    ∷ esc_of "t(\"init.hint\")"
    ∷ lit "</span>\n"
    ∷ lit "      <input id=\"fgPass\" type=\"password\" autocomplete=\"new-password\"></label>\n"
    ∷ lit "    <button class=\"btn primary lg w-full\" onclick=\"doRecover()\">"
    ∷ esc_of "t(\"forgot.reset\")"
    ∷ lit "</button>\n"
    ∷ lit "    <div class=\"auth-links\"><a href=\"javascript:nav('login')\">← "
    ∷ esc_of "t(\"login.btn\")"
    ∷ lit "</a></div>\n"
    ∷ lit "  </div></div>"
    ∷ []

unfoldable pub recovery_code_modal : Template
recovery_code_modal =
    lit "\n"
    ∷ lit "    <h2>"
    ∷ esc_of "t(\"recovery.title\")"
    ∷ lit "</h2>\n"
    ∷ lit "    <div class=\"sub\">"
    ∷ esc_of "t(\"recovery.description\")"
    ∷ lit "</div>\n"
    ∷ lit
        "    <div class=\"mono\" id=\"recCode\" style=\"font-size:22px;font-weight:800;text-align:center;\n"
    ∷ lit
        "         padding:18px;border:2px dashed var(--accent);border-radius:10px;letter-spacing:2px;\n"
    ∷ lit "         margin:14px 0\">"
    ∷ esc_of "code"
    ∷ lit "</div>\n"
    ∷ lit "    <button class=\"btn secondary w-full\" style=\"margin-bottom:8px\"\n"
    ∷ lit "      onclick=\"copyRecoveryCode(this)\">"
    ∷ esc_of "t(\"recovery.copy\")"
    ∷ lit "</button>\n"
    ∷ lit
        "    <button class=\"btn primary w-full\" onclick=\"this.closest('.overlay').remove();nav('login')\">\n"
    ∷ lit "      "
    ∷ esc_of "t(\"recovery.continue\")"
    ∷ lit "</button>"
    ∷ []
