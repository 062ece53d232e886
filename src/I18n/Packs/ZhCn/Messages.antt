-- ===== src/I18n/Packs/ZhCn/Messages.antt =====
-- webui/assets/i18n.js, the simplified Chinese pack: diagnosis messages, first half.
use Prim.Native.String.{String}
use mathlib.Core.List.{List, [], ◌∷◌}

unfoldable pub zh_cn_messages : List (String × String)
zh_cn_messages =
    ("diagmsg.allLinksUp", "全部 {1} 个物理链路均为 Up")
    ∷ ("diagmsg.allPublicPingLost", "所有公网 Ping 均无响应")
    ∷ ("diagmsg.allSubnetsRouted", "所有活动子网均已路由")
    ∷ ("diagmsg.bondModeNotLacp", "已配置链路聚合，但未使用 LACP（802.3AD）模式")
    ∷ ("diagmsg.undeterminable", "无法判定（{1}）")
    ∷ ("diagmsg.ntpSyncPendingActual", "上游可达，同步等待中（上游不稳定）")
    ∷ ("diagmsg.ipv6DisabledOnIf", "此接口的 IPv6 已被禁用")
    ∷ ("diagmsg.noIPv6Service", "本网络未提供 IPv6 服务（路由器不下发 RA/DHCPv6）")
    ∷ ("diagmsg.aaaaNodata", "无 AAAA 记录")
    ∷ ("diagmsg.ipv6DnsAvailable", "IPv6 DNS 或 AAAA 可用")
    ∷ ("diagmsg.ipv6TcpOk", "IPv6 TCP 正常（ICMP 被拦截）")
    ∷ ("diagmsg.pingArpAllFailed", "Ping 与 ARP 均失败")
    ∷ ("diagmsg.allDnsProbesFailed", "所有 DNS 探测均失败")
    ∷ ("diagmsg.noErrors", "无新增错误")
    ∷ ("diagmsg.macsForIp", "{2} 存在 {1} 个 MAC")
    ∷ ("diagmsg.httpCode", "HTTP {1}")
    ∷ ("diagmsg.ntpSyncPendingReason", "NTP 上游可达，同步等待中（上游不稳定）")
    ∷ ("diagmsg.ipv6DisabledIf", "主接口的 IPv6 已被内核禁用")
    ∷ ("diagmsg.allReachable", "全部 {1} 个目标可达")
    ∷ ("diagmsg.apipa", "DHCP 失败，仅有链路本地地址")
    ∷ ("diagmsg.apipaActual", "仅有 169.254.x.x 链路本地地址")
    ∷ ("diagmsg.clockSkew", "时钟偏移可能影响证书校验")
    ∷ ("diagmsg.conflictReply", "另一台主机响应了地址冲突探测")
    ∷ ("diagmsg.conflictReplyActual", "收到冲突响应")
    ∷ ("diagmsg.connectFailure", "连接失败")
    ∷ ("diagmsg.connectionTimeout", "连接超时")
    ∷ ("diagmsg.certFailure", "证书校验失败")
    ∷ ("diagmsg.connectedRouteMissing", "地址存在，但缺少直连路由")
    ∷ ("diagmsg.ddnsAllDisabled", "DDNS 已停用；所有记录均已禁用")
    ∷ ("diagmsg.ddnsConnectedRatio", "已启用 · 已连接（{1}/{2}）")
    ∷ ("diagmsg.ddnsDisconnected", "已启用 · 未连接（0/{1}）")
    ∷ ("diagmsg.ddnsNoRecords", "DDNS 已停用；未配置记录")
    ∷ ("diagmsg.ddnsStatusUnavailable", "DDNS 状态不可用；需要 TOS 会话")
    ∷ ("diagmsg.ddnsUpdateFailed", "{1} 条已启用的 DDNS 记录更新失败")
    ∷ ("diagmsg.ddnsUpdated", "{2} 条 DDNS 记录中 {1} 条更新成功")
    ∷ ("diagmsg.dnsServers", "{1} 个 DNS 服务器：{2}")
    ∷ ("diagmsg.dnsFailure", "DNS 解析失败")
    ∷ ("diagmsg.dnsUnreachable", "所有 DNS 探测失败")
    ∷ ("diagmsg.downPortsHandled", "{1} 个 Down 端口由链路状态检查报告")
    ∷ ("diagmsg.duplexUnavailableDown", "所有物理链路均为 Down，无法读取双工")
    ∷ ("diagmsg.duplexUnreadable", "双工不可读；请检查驱动、网线和交换机端口")
    ∷ ("diagmsg.emptyDNS", "未配置有效 DNS 服务器")
    ∷ ("diagmsg.enableSMB", "SMB 未运行；请在 TOS 控制面板启用")
    ∷ ("diagmsg.enabledConnected", "已启用 · 已连接")
    ∷ ("diagmsg.enabledConnecting", "已启用 · 正在连接")
    ∷ ("diagmsg.enabledDisconnected", "已启用 · 未连接")
    ∷ ("diagmsg.enabledNoTunnel", "已启用 · 无隧道接口")
    ∷ ("diagmsg.enabledStateUnknown", "已启用 · 状态未知")
    ∷ ("diagmsg.endpointProbeFailed", "端点探测失败")
    ∷ ("diagmsg.errorBurstCable", "接收错误突发；请检查网线")
    ∷ ("diagmsg.errorDelta", "{1} 错误增量：{2}")
    ∷ ("diagmsg.fdExhausted", "文件描述符接近耗尽")
    ∷ ("diagmsg.firewallDisabled", "TOS 防火墙未启用")
    ∷ ("diagmsg.firewallEnabled", "TOS 防火墙已启用")
    ∷ ("diagmsg.firewallNoProxy", "防火墙已启用；未配置代理")
    ∷ ("diagmsg.firewallEnabledWithProxy", "防火墙已启用；{1}")
    ∷ ("diagmsg.firewallDisabledWithProxy", "防火墙未启用；{1}")
    ∷ ("diagmsg.firewallStatusUnavailable", "无法读取 TOS 防火墙状态")
    ∷ ("diagmsg.fullDuplex", "全双工")
    ∷ ("diagmsg.gatewayCrossSubnet", "网关不在接口子网内")
    ∷ ("diagmsg.halfDuplex", "{1}：半双工")
    ∷ ("diagmsg.halfDuplexCollisions", "半双工会导致冲突和变慢")
    ∷ ("diagmsg.httpServerError", "HTTP 服务器错误")
    ∷ ("diagmsg.icmpBlocked", "ICMP 可能被阻止")
    ∷ ("diagmsg.invalidDNS", "DNS 配置无效：包含 0.0.0.0")
    ∷ ("diagmsg.invalidMask", "前缀长度无效")
    ∷ ("diagmsg.ipv6LinkLocalOnly", "IPv6 配置不正确；仅有链路本地地址")
    ∷ ("diagmsg.ipv6RouteMissing", "缺少 IPv6 默认路由")
    ∷ ("diagmsg.ipv6Unreachable", "IPv6 不可达")
    ∷ ("diagmsg.lacpConfigured", "Bond 端口已有 LACP 配置")
    ∷ ("diagmsg.lacpNotConfigured", "Bond 端口没有 LACP 配置")
    ∷ ("diagmsg.leasePresent", "已有 DHCP 租约")
    ∷ ("diagmsg.leaseUnavailable", "没有可用 DHCP 租约")
    ∷ ("diagmsg.linkRateDegraded", "协商链路速率低于端口能力")
    ∷ ("diagmsg.linkStateSummary", "{1} 个 Up，{2} 个 Down（{3}）")
    ∷ []
