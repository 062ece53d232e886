-- ===== src/I18n/Packs/ZhCn/Shell.antt =====
-- webui/assets/i18n.js, the simplified Chinese pack: navigation, sign-in, overview and column texts.
use Prim.Native.String.{String}
use mathlib.Core.List.{List, [], ◌∷◌}

unfoldable pub zh_cn_shell : List (String × String)
zh_cn_shell =
    ("app.tag", "网络诊断与修复")
    ∷ ("nav.net", "网络")
    ∷ ("nav.tools", "工具")
    ∷ ("nav.sys", "系统")
    ∷ ("nav.dashboard", "仪表盘")
    ∷ ("nav.interfaces", "网卡")
    ∷ ("nav.diagnose", "诊断")
    ∷ ("nav.tools2", "网络工具")
    ∷ ("nav.monitor", "监控中心")
    ∷ ("nav.security", "安全自检")
    ∷ ("nav.snapshots", "配置快照")
    ∷ ("nav.settings", "设置")
    ∷ ("nav.history", "历史记录")
    ∷ ("nav.logout", "登出")
    ∷ ("login.title", "登录 NetCheck")
    ∷ ("login.sub", "网络诊断 · 请登录")
    ∷ ("login.hint", "首次使用将进入账号初始化")
    ∷ ("login.init", "首次初始化 →")
    ∷ ("login.user", "用户名")
    ∷ ("login.pass", "密码")
    ∷ ("login.remember", "记住我")
    ∷ ("login.btn", "登录")
    ∷ ("login.forgot", "忘记密码？")
    ∷ ("init.title", "初始化账号")
    ∷ ("init.sub", "首次使用，请设置管理员账号")
    ∷ ("init.confirm", "确认密码")
    ∷ ("init.hint", "密码要求：≥8 位，含字母与数字")
    ∷ ("init.btn", "完成初始化")
    ∷ ("dash.title", "网络状态总览")
    ∷ ("dash.health", "整体健康度")
    ∷ ("dash.refresh", "刷新")
    ∷ ("dash.diagBtn", "立即检测")
    ∷ ("dash.connectivity", "连通性")
    ∷ ("dash.issues", "待处理问题")
    ∷ ("dash.nics", "网卡")
    ∷ ("dash.traffic", "实时流量")
    ∷ ("dash.viewAll", "查看全部")
    ∷ ("light.gateway", "网关")
    ∷ ("light.internet", "互联网")
    ∷ ("light.dns", "DNS")
    ∷ ("light.ipv6", "IPv6")
    ∷ ("if.title", "全部网卡")
    ∷ ("if.sub", "双架构兼容")
    ∷ ("if.scan", "重新扫描")
    ∷ ("diag.title", "网络诊断")
    ∷ ("diag.sub", "9 组检查 · A–I")
    ∷ ("diag.run", "运行完整诊断")
    ∷ ("diag.running", "诊断中…")
    ∷ ("diag.export", "导出报告")
    ∷ ("btn.fix", "修复")
    ∷ ("btn.guide", "指引")
    ∷ ("btn.close", "关闭")
    ∷ ("btn.cancel", "取消")
    ∷ ("fix.title", "修复向导")
    ∷ ("fix.steps", "备份配置,执行修复,验证连通性,写入历史")
    ∷ ("fix.confirm", "我已知晓风险并确认执行")
    ∷ ("fix.run", "确认修复")
    ∷ ("fix.ok", "修复成功")
    ∷ ("fix.fail", "修复失败")
    ∷ ("fix.rolled", "已自动回滚")
    ∷ ("set.title", "设置")
    ∷ ("set.lang", "语言")
    ∷ ("set.theme", "主题")
    ∷ ("set.repair", "修复模式")
    ∷ ("set.autoDiag", "定时自动诊断")
    ∷ ("set.save", "保存设置")
    ∷ ("set.saved", "已保存")
    ∷ ("about.version", "版本")
    ∷ ("about.check", "检查更新")
    ∷ ("hist.title", "历史记录")
    ∷ ("hist.fix", "修复历史")
    ∷ ("st.pass", "通过")
    ∷ ("st.warn", "警告")
    ∷ ("st.fail", "失败")
    ∷ ("st.na", "不适用")
    ∷ ("toast.login.ok", "登录成功")
    ∷ ("toast.saved", "设置已保存")
    ∷ ("toast.fixing", "修复执行中")
    ∷ ("col.iface", "接口")
    ∷ ("col.type", "类型")
    ∷ ("col.state", "状态")
    ∷ ("col.speed", "链路速率")
    ∷ ("col.mode", "方式")
    ∷ ("nav.forgot", "忘记密码")
    ∷ []
