-- ===== src/I18n/Packs/ZhCn/Tools.antt =====
-- webui/assets/i18n.js, the simplified Chinese pack: sign-out, recovery, tools, security and fix texts.
use Prim.Native.String.{String}
use mathlib.Core.List.{List, [], ◌∷◌}

unfoldable pub zh_cn_tools : List (String × String)
zh_cn_tools =
    ("logout.title", "退出登录")
    ∷ ("logout.message", "确定要退出 NetCheck 吗？")
    ∷ ("auth.rateLimited", "尝试次数过多，请等待一分钟。")
    ∷ ("auth.loginFailed", "登录失败")
    ∷ ("auth.attemptsRemaining", "还可尝试 {1} 次")
    ∷ ("auth.lockedRetry", "账号已锁定 — 请在 {1} 后重试")
    ∷ ("auth.passwordMismatch", "两次输入的密码不一致")
    ∷ ("auth.unreachable", "无法连接 NetCheck 后端")
    ∷ ("auth.tosSession", "TOS 控制面板会话已过期。请重新登录 TOS 后再重试。")
    ∷ ("auth.retry", "重试")
    ∷ ("recovery.title", "恢复码")
    ∷ ("recovery.description", "请立即保存此恢复码。它只显示一次，也是无需服务器访问权限重置密码的唯一方式。")
    ∷ ("recovery.copy", "复制")
    ∷ ("recovery.continue", "我已保存，继续")
    ∷ ("forgot.sub", "使用初始设置时生成的恢复码重置密码")
    ∷ ("forgot.recoveryCode", "恢复码")
    ∷ ("forgot.reset", "重置密码")
    ∷ ("forgot.wrongCode", "用户名或恢复码不正确")
    ∷ ("forgot.resetFailed", "重置密码失败")
    ∷ ("tools.sub", "设备 · 端口 · 路由追踪 · DNS")
    ∷ ("tools.deviceDiscovery", "设备发现")
    ∷ ("tools.scan", "扫描")
    ∷ ("tools.scanHint", "点击“扫描”发现局域网设备")
    ∷ ("tools.noDevices", "未发现设备")
    ∷ ("tools.devicesFound", "发现 {1} 台设备")
    ∷ ("tools.conflict", "冲突")
    ∷ ("tools.portCheck", "端口检测")
    ∷ ("tools.check", "检测")
    ∷ ("tools.traceroute", "路由追踪")
    ∷ ("tools.trace", "追踪")
    ∷ ("tools.dnsCompare", "DNS 对比")
    ∷ ("tools.compare", "对比")
    ∷ ("tools.hostPortRequired", "请填写主机和端口")
    ∷ ("tools.open", "开放")
    ∷ ("tools.closed", "关闭")
    ∷ ("tools.targetRequired", "请填写目标地址")
    ∷ ("tools.tracing", "正在追踪…")
    ∷ ("tools.breakpoint", "中断点：第 {1} 跳")
    ∷ ("tools.domainRequired", "请填写域名")
    ∷ ("tools.possibleHijack", "可能被劫持")
    ∷ ("tools.consistent", "结果一致")
    ∷ ("security.sub", "防火墙 · 暴露面 · 隧道")
    ∷ ("security.rescan", "重新扫描")
    ∷ ("security.rescanHint", "点击“重新扫描”")
    ∷ ("security.firewall", "防火墙")
    ∷ ("security.active", "已启用")
    ∷ ("security.inactive", "未启用")
    ∷ ("security.none", "无")
    ∷ ("security.exposedPorts", "暴露端口")
    ∷ ("security.highRisk", "{1} 个高风险")
    ∷ ("security.tunnel", "隧道")
    ∷ ("security.listeningPorts", "监听端口")
    ∷ ("security.port", "端口")
    ∷ ("security.binding", "绑定地址")
    ∷ ("security.risk", "风险")
    ∷ ("security.service", "服务")
    ∷ ("interfaces.primary", "主")
    ∷ ("diag.score", "评分：{1} · {2}")
    ∷ ("diag.complete", "诊断完成，评分 {1}")
    ∷ ("diag.level.healthy", "健康")
    ∷ ("diag.level.warning", "警告")
    ∷ ("diag.level.fault", "故障")
    ∷ ("group.A", "链路层")
    ∷ ("group.B", "IPv4")
    ∷ ("group.C", "路由")
    ∷ ("group.D", "DNS")
    ∷ ("group.E", "IPv6")
    ∷ ("group.F", "互联网")
    ∷ ("group.G", "其他")
    ∷ ("group.H", "TOS 服务")
    ∷ ("group.I", "传输")
    ∷ ("fix.action", "操作")
    ∷ ("fixmsg.verifyFailed", "修复后验证未通过")
    ∷ ("fixmsg.ntpPending", "NTP 服务已重启，同步等待中")
    ∷ ("fixmsg.currentlyPasses", "检查项当前通过，无需修复")
    ∷ ("fixmsg.notApplicable", "检查项在当前网络不适用")
    ∷ ("fixmsg.confirmRequired", "需要确认操作")
    ∷ ("fixmsg.noAutoFix", "没有可用的自动修复")
    ∷ ("fixmsg.noAutoFixFor", "{1} 没有可用的自动修复")
    ∷ ("fixmsg.gatewayRequired", "需要网关地址")
    ∷ ("fixmsg.failed", "修复失败")
    ∷ ("guidemsg.linkCable", "# 若链路速率仍然偏低，请更换网线或交换机端口")
    ∷ ("guidemsg.staticNoAutoSwitch", "此接口使用静态地址，NetCheck 不会自动将其切换为 DHCP。")
    ∷ ("guidemsg.staticMgmtRisk", "更改 NAS 地址可能导致远程管理中断。")
    ∷ ("guidemsg.staticResolve", "请根据诊断详情中的 MAC 定位冲突设备，将其关机或更改地址，或在 TOS 控制面板 > 网络中为本机分配新的静态地址。")
    ∷ ("guidemsg.dnsPersistent", "# 持久化：在 10-<if>.network 的 [Network] 中加入 DNS=223.5.5.5，然后：")
    ∷ ("guidemsg.tunnelRecheck", "打开 TOS 控制面板 > 网络服务 > 远程访问。")
    ∷ ("guidemsg.tunnelSignin", "重新登录 TNAS.online 后再次运行本检查。")
    ∷ ("guidemsg.tunnelService", "若仍未连接，请检查互联网连接与 TerraMaster 服务状态。")
    ∷ []
