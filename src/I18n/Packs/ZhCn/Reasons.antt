-- ===== src/I18n/Packs/ZhCn/Reasons.antt =====
-- webui/assets/i18n.js, the simplified Chinese pack: diagnosis messages, second half.
use Prim.Native.String.{String}
use mathlib.Core.List.{List, [], ◌∷◌}

unfoldable pub zh_cn_reasons : List (String × String)
zh_cn_reasons =
    ("diagmsg.minorErrorGrowth", "接收错误轻微增长")
    ∷ ("diagmsg.mtuPolicyMismatch", "接口 MTU 与预期策略不一致")
    ∷ ("diagmsg.mtuPayloadPasses", "1472 字节负载可通过；{1}")
    ∷ ("diagmsg.multichannelDisabled", "可选的 SMB 多通道未启用")
    ∷ ("diagmsg.multichannelAvailable", "{1} 个端口；SMB 多通道可用")
    ∷ ("diagmsg.multipleGateways", "存在多个默认网关")
    ∷ ("diagmsg.networkBroadcast", "地址是网络地址或广播地址")
    ∷ ("diagmsg.nfsListening", "NFS 正在监听 2049 端口")
    ∷ ("diagmsg.nfsNotEnabled", "NFS 未启用")
    ∷ ("diagmsg.nfsServiceDown", "存在 NFS 导出，但服务未运行")
    ∷ ("diagmsg.noActivePort", "没有活动端口")
    ∷ ("diagmsg.noBondConfigured", "未配置 Bond")
    ∷ ("diagmsg.noDNSConfigured", "未配置 DNS")
    ∷ ("diagmsg.noDefaultRoute", "没有默认路由或网关")
    ∷ ("diagmsg.noIPv4", "没有有效的全局 IPv4 地址")
    ∷ ("diagmsg.noIPv6DNS", "没有 IPv6 DNS 或可达的 AAAA 记录")
    ∷ ("diagmsg.noProxyConfigured", "未配置代理")
    ∷ ("diagmsg.noIperfPeer", "未配置 iperf3 对端；请使用 LAN 测速模式 A")
    ∷ ("diagmsg.noPhysicalPorts", "没有物理端口")
    ∷ ("diagmsg.noReply", "无响应")
    ∷ ("diagmsg.noConflictReply", "重复地址检测未收到冲突响应")
    ∷ ("diagmsg.noDuplicates", "未检测到重复地址")
    ∷ ("diagmsg.noSyncedPeer", "没有已同步的 NTP 对端")
    ∷ ("diagmsg.noTimeReference", "没有可用的时间基准")
    ∷ ("diagmsg.notApplicable", "不适用")
    ∷ ("diagmsg.ntpNotEnabled", "NTP 服务未启用")
    ∷ ("diagmsg.ntpActiveOffset", "NTP 已运行；偏移 {1} ms")
    ∷ ("diagmsg.ntpSynced", "已与上游 NTP 同步")
    ∷ ("diagmsg.ntpUnsynchronized", "NTP 已运行但未同步")
    ∷ ("diagmsg.packetLoss", "检测到丢包")
    ∷ ("diagmsg.packetLossIPv6", "检测到 IPv6 丢包")
    ∷ ("diagmsg.partialReachable", "{2} 个目标中 {1} 个可达")
    ∷ ("diagmsg.partialUnreachable", "部分 DNS 服务器不可达")
    ∷ ("diagmsg.notDHCPMode", "模式为 {1}，不是 DHCP")
    ∷ ("diagmsg.lossPercent", "丢包率 {1}%")
    ∷ ("diagmsg.pathMTU", "路径 MTU 显示链路类似 PPPoE")
    ∷ ("diagmsg.pathMTUTooSmall", "路径 MTU 过小")
    ∷ ("diagmsg.pathMTUValue", "最佳路径 MTU {1}；{2}")
    ∷ ("diagmsg.pingUnavailable", "Ping 无法执行")
    ∷ ("diagmsg.probeUnavailable", "冲突探测不可用")
    ∷ ("diagmsg.proxyInUse", "已配置的代理服务器可达")
    ∷ ("diagmsg.proxyStateUnavailable", "无法读取代理设置")
    ∷ ("diagmsg.environmentProxy", "{1} 个环境代理变量")
    ∷ ("diagmsg.tosProxyConfigured", "已配置 TOS 代理")
    ∷ ("diagmsg.tosAdvancedProxy", "TOS 高级代理：{1}")
    ∷ ("diagmsg.proxyUnreachable", "已配置的代理服务器不可达")
    ∷ ("diagmsg.publicPingOK", "公网 Ping 成功")
    ∷ ("diagmsg.reachable", "可达")
    ∷ ("diagmsg.reachableEndpoints", "{1} 个端点可达")
    ∷ ("diagmsg.redundantRoutes", "存在冗余默认路由")
    ∷ ("diagmsg.resolveFailed", "域名解析失败")
    ∷ ("diagmsg.singlePhysicalPort", "只有一个物理端口")
    ∷ ("diagmsg.slowResolution", "域名解析较慢")
    ∷ ("diagmsg.routesSameGateway", "{1} 条默认路由使用同一网关")
    ∷ ("diagmsg.routesGateways", "{1} 条默认路由和 {2} 个网关")
    ∷ ("diagmsg.smbNotAccepting", "SMB 服务未接受连接")
    ∷ ("diagmsg.smbNotListening", "SMB 正在运行，但 445 端口未监听")
    ∷ ("diagmsg.smbNotRunning", "SMB 未运行")
    ∷ ("diagmsg.smbRunning", "SMB 正在运行，445 端口已监听")
    ∷ ("diagmsg.speedUnknown", "链路速率未知或不可读")
    ∷ ("diagmsg.suspectedConflict", "启发式检测疑似 IP 冲突")
    ∷ ("diagmsg.timeWaitHigh", "TIME_WAIT 连接过多")
    ∷ ("diagmsg.timeWaitCount", "TIME_WAIT 连接数：{1}")
    ∷ ("diagmsg.offsetValue", "时钟偏移 {1} ms")
    ∷ ("diagmsg.fdUsage", "文件描述符使用率 {1}%")
    ∷ ("diagmsg.unknownFailure", "未知故障")
    ∷ ("diagmsg.tnasConnectedService", "TOS 报告 TNAS.online 已连接")
    ∷ ("diagmsg.tnasDisabled", "TNAS.online 未启用")
    ∷ ("diagmsg.tnasDisabledNoInterface", "TNAS.online 未启用；无 tnas0 接口")
    ∷ ("diagmsg.tnasNoInterface", "TNAS.online 已启用，但缺少隧道接口")
    ∷ ("diagmsg.tnasServiceCode", "TOS 服务代码：{1}；连接状态：{2}")
    ∷ ("diagmsg.tnasStateUnknown", "tnas0 已 Up，但 TOS 状态 API 不可用")
    ∷ ("diagmsg.tunnelDown", "远程访问隧道未连接")
    ∷ ("diagmsg.unconnectedInformational", "未连接的物理端口仅作为运行信息显示")
    ∷ []
