-- ===== src/I18n/Packs/ZhCn/Checks.antt =====
-- webui/assets/i18n.js, the simplified Chinese pack: about page, check names and later history, monitor and snapshot texts.
use Prim.Native.String.{String}
use mathlib.Core.List.{List, [], ◌∷◌}

unfoldable pub zh_cn_checks : List (String × String)
zh_cn_checks =
    ("nav.about", "关于")
    ∷ ("about.title", "关于")
    ∷ ("about.app", "应用名称")
    ∷ ("about.developer", "开发者")
    ∷ ("about.publisher", "发布者")
    ∷ (
      "about.intro",
      "NetCheck 是面向 TOS 7 的网络诊断与修复工具，用于查看网卡状态、定位连通性故障、检测 DNS、TNAS.online 与 DDNS、测量带宽并保存历史，帮助用户快速判断问题出在设备、局域网还是外网。",
    )
    ∷ ("about.modules", "模块说明")
    ∷ (
      "about.dashboard",
      "用途：快速判断当前 NAS 的整体网络状况，并确认自己正在查看哪台设备。\n操作指引：先核对标题下方的 hostname、主 IP 和架构；再看健康分、待处理问题数量和网关、互联网、DNS、IPv6 状态灯。发现异常时点击“Run Check”发起完整诊断，或点击“View All”进入 Diagnose 查看细节。\n提示：分数只是汇总结果，具体根因应结合 Diagnose 的分组结果判断。",
    )
    ∷ (
      "about.interfaces",
      "用途：查看所有物理口、OVS 内口、虚拟口、隧道和 Docker 桥接口的运行事实。\n操作指引：从左侧进入 Interfaces；先看 State 是 Up 还是 Down，再核对 IPv4、速率、模式和 MAC。点击任意一行可展开该接口的详细字段。若某个物理口显示 Down，可检查网线、交换机端口或聚合配置。\n提示：Up/Down 表示接口运行状态，不等同于诊断结论 Pass/Fail。\n系统回环接口会在页面中隐藏；它只用于本机内部通信，不是 LAN/WAN 链路。\n链路速率来自网卡协商结果，表示理论链路能力，不等于实测吞吐量；如需吞吐量请使用带宽测试。",
    )
    ∷ (
      "about.diagnose",
      "用途：执行完整网络体检，并把问题定位到链路、IP、路由、DNS、外网、TOS 服务或传输层。\n操作指引：点击 Run Full Check；按钮内出现旋转图标时表示正在执行。完成后按 A–I 分组阅读 Pass、Warn、Fail 和 N/A，优先处理 Fail。需要留档时可 Export 报告；有 Fix 按钮的项目可按向导确认后修复。\n提示：DNS 或外网异常可能影响多个下游项目，先解决基础问题再复查。",
    )
    ∷ (
      "about.tools",
      "用途：做针对性排查，而不是每次都运行完整诊断。\n操作指引：设备发现点击 Scan 后查看 IP/MAC 和冲突提示；Port Check 填写主机与端口后点击 Check；Traceroute 输入目标并追踪断点；DNS Compare 输入域名比较本地与公共解析结果。输入不完整时页面会提示缺少字段。\n提示：端口不通但域名能解析时，优先检查防火墙、服务状态和端口转发。",
    )
    ∷ (
      "about.monitor",
      "用途：跟踪时延、丢包和告警，适合排查“有时慢、有时断”的问题。\n操作指引：先点击 Sample Now 获取当前样本，再用 7 天或 30 天范围查看平均丢包、RTT、最大丢包和趋势。Alert History 用于确认异常发生时间和频率。配置监控阈值后，持续采样能反映链路是否稳定。\n提示：偶发异常要看多次样本，不要只凭单次 ping 判断。\n持续监控可在监控中心顶部暂停或恢复；暂停后“立即采样”仍可手动采集一次。",
    )
    ∷ (
      "about.security",
      "用途：查看防火墙、监听端口暴露面、高风险服务和远程隧道状态。\n操作指引：进入 Security 后点击 Rescan 获取最新结果；先确认防火墙是否启用，再查看暴露端口和风险等级。远程隧道用于确认 TNAS.online 连接状态。发现高风险监听时，应确认对应服务是否必要，并在 TOS 中调整权限或访问来源。\n提示：安全建议应结合实际使用场景执行，不要盲目关闭业务服务。",
    )
    ∷ (
      "about.snapshots",
      "用途：在修改或修复网络配置前留存可对比、可回滚的安全点。\n操作指引：点击 Create 生成快照，并填写便于识别的备注；需要判断变更时打开 Diff 查看差异。Restore 会替换当前网络配置，执行前务必确认备注、时间和差异，并确保设备仍有可用的管理路径。\n提示：重大变更前先创建快照，不要只依赖自动快照。",
    )
    ∷ (
      "about.history",
      "用途：回看诊断与修复过程，判断问题是偶发、持续还是由某次变更引起。\n操作指引：切换诊断和修复历史；查看分数、失败数量、执行动作、结果和耗时。修复后分数仍下降时，可对比前后记录确认根因是否解除。需要反馈时可导出诊断报告并附上时间点。\n提示：历史记录不会替代当前扫描，最新状态仍以重新诊断为准确。\n记录管理：可单击单条记录的“删除”按钮；确认后也可使用“清空全部”。这些操作不会删除安全审计日志。\n每一条记录都可下载当时保存的诊断或修复日志。",
    )
    ∷ (
      "about.settings",
      "用途：调整界面、语言、主题和修复安全策略。\n操作指引：在 Settings 中选择语言和主题，界面会立即应用；修复模式与管理员确认用于控制高风险操作的执行方式。修改后按需保存或刷新。版本和架构已集中在 About 页面查看。\n提示：不确定修复影响时保持管理员确认开启。",
    )
    ∷ ("about.modulesHint", "选择一个模块可展开详细说明与操作指引；再次点击可收起。内容独立展开，长文本会自动换行。")
    ∷ ("about.aboutGuide", "查看应用名称、版本、架构、开发者和发布者；需要确认安装版本或排查升级问题时先看这里。展开各模块可了解适用场景和基本操作。")
    ∷ ("fix.dnsServers", "DNS 服务器（逗号分隔）")
    ∷ ("fix.gateway", "网关地址")
    ∷ ("fix.dnsRequired", "请至少填写一个 DNS 服务器")
    ∷ ("fix.gatewayRequired", "请填写网关地址")
    ∷ ("check.link-state", "链路状态")
    ∷ ("check.link-speed", "链路速率")
    ∷ ("check.link-duplex", "双工模式")
    ∷ ("check.link-errors", "链路错误")
    ∷ ("check.ipv4-addr", "IPv4 地址")
    ∷ ("check.ipv4-mask", "IPv4 掩码")
    ∷ ("check.dhcp-lease", "DHCP 租约")
    ∷ ("check.gateway-subnet", "网关同子网")
    ∷ ("check.gateway-reach", "网关可达")
    ∷ ("check.ip-conflict", "IP 冲突")
    ∷ ("check.default-route", "默认路由")
    ∷ ("check.connected-routes", "直连路由")
    ∷ ("check.dns-config", "DNS 配置")
    ∷ ("check.dns-reachable", "DNS 可达")
    ∷ ("check.dns-resolve", "DNS 解析")
    ∷ ("check.ipv6-global-addr", "IPv6 全局地址")
    ∷ ("check.ipv6-default-route", "IPv6 默认路由")
    ∷ ("check.ipv6-dns", "IPv6 DNS")
    ∷ ("check.ipv6-reach", "IPv6 连通")
    ∷ ("check.wan-ping", "公网 Ping")
    ∷ ("check.wan-tcp", "公网 TCP/HTTPS")
    ∷ ("check.proxy-firewall", "代理/防火墙")
    ∷ ("check.mtu-probe", "MTU 探测")
    ∷ ("check.system-time", "系统时间")
    ∷ ("check.conn-exhaust", "连接数耗尽")
    ∷ ("check.tos-update-server", "TOS 更新服务器")
    ∷ ("check.tos-market", "TOS 应用市场")
    ∷ ("check.tnas-online", "TNAS.online")
    ∷ ("check.ddns", "DDNS")
    ∷ ("check.ntp-server", "NTP 服务器")
    ∷ ("check.smb-service", "SMB 服务")
    ∷ ("check.nfs-service", "NFS 服务")
    ∷ ("check.bond-lacp", "链路聚合（LACP）")
    ∷ ("check.bond-throughput", "聚合吞吐")
    ∷ ("check.smb-multichannel", "SMB 多通道")
    ∷ ("fix.pending", "修复已提交，NTP 正在等待同步")
    ∷ ("history.actions", "操作")
    ∷ ("history.delete", "删除")
    ∷ ("history.clear", "清空全部")
    ∷ ("history.deleteTitle", "删除这条记录？")
    ∷ ("history.deleteMessage", "这条记录将从历史记录中移除，操作审计日志保持不变。")
    ∷ ("history.clearTitle", "清空全部历史记录？")
    ∷ ("history.clearMessage", "将删除全部诊断与修复历史记录，操作审计日志保持不变。")
    ∷ ("history.deleted", "记录已删除")
    ∷ ("history.cleared", "历史记录已清空")
    ∷ ("history.download", "下载")
    ∷ ("history.downloaded", "日志已下载")
    ∷ ("history.downloadFailed", "无法下载日志")
    ∷ ("monitor.sampling", "正在采样…")
    ∷ ("monitor.samplingMessage", "正在测量网关与公网链路质量，采样完成后会自动刷新结果。")
    ∷ ("monitor.noRttSamples", "所选范围内没有网关 RTT 数值。")
    ∷ ("monitor.rttAria", "网关 RTT 趋势：{1} 个样本，0–{2} 毫秒")
    ∷ ("monitor.pause", "暂停监控")
    ∷ ("monitor.resume", "恢复监控")
    ∷ ("monitor.pausedMessage", "持续监控已暂停；仍可点击“立即采样”手动采集一次。")
    ∷ ("monitor.enabledMessage", "持续监控已启用，将每 {1} 分钟自动采样。")
    ∷ ("monitor.days1", "最近 1 天")
    ∷ ("security.tunnelConnected", "已连接")
    ∷ ("security.tunnelDisconnected", "未连接")
    ∷ ("security.tunnelNoIp", "无 IP 地址")
    ∷ ("snapshots.sourceManual", "手动")
    ∷ ("snapshots.sourceManualUI", "Web 界面手动创建")
    ∷ ("snapshots.sourcePreReset", "重置前备份")
    ∷ ("snapshots.sourceAuto", "自动")
    ∷ ("snapshots.noNote", "未填写备注")
    ∷ []
