-- ===== src/Diag/Tables.antt =====
-- webui/assets/app.js, the tables of the diagnosis texts: whole texts, codes and failure classes.
use netcheck.Common.{String, List, [], ◌∷◌}

-- `DIAG_EXACT_KEYS`
unfoldable pub diag_exact_keys : List (String × String)
diag_exact_keys =
    ("no physical ports", "diagmsg.noPhysicalPorts")
    ∷ ("no active port", "diagmsg.noActivePort")
    ∷ ("no active interface", "diagmsg.noActivePort")
    ∷ ("no IPv4", "diagmsg.noIPv4")
    ∷ ("no gateway", "diagmsg.noDefaultRoute")
    ∷ ("no default route", "diagmsg.noDefaultRoute")
    ∷ ("no DNS configured", "diagmsg.noDNSConfigured")
    ∷ ("no DNS", "diagmsg.noDNSConfigured")
    ∷ ("no time reference available", "diagmsg.noTimeReference")
    ∷ ("no bond configured", "diagmsg.noBondConfigured")
    ∷ ("single physical port", "diagmsg.singlePhysicalPort")
    ∷ ("not applicable", "diagmsg.notApplicable")
    ∷ ("NFS not enabled", "diagmsg.nfsNotEnabled")
    ∷ ("ntp.service not enabled", "diagmsg.ntpNotEnabled")
    ∷ ("unconnected physical ports are informational only", "diagmsg.unconnectedInformational")
    ∷ ("degraded: negotiated below port capability", "diagmsg.linkRateDegraded")
    ∷ ("unknown: speed unreadable", "diagmsg.speedUnknown")
    ∷ ("duplex unavailable while all physical links are down", "diagmsg.duplexUnavailableDown")
    ∷ ("duplex_unreadable: check driver, cable, and switch port", "diagmsg.duplexUnreadable")
    ∷ ("half_duplex: collisions cause loss/slowness", "diagmsg.halfDuplexCollisions")
    ∷ ("error_burst: rx error burst (bad cable?)", "diagmsg.errorBurstCable")
    ∷ ("error_burst: minor error growth", "diagmsg.minorErrorGrowth")
    ∷ ("apipa: DHCP failed (link-local only)", "diagmsg.apipa")
    ∷ ("no_address: no IPv4 address", "diagmsg.noIPv4")
    ∷ ("invalid_mask", "diagmsg.invalidMask")
    ∷ ("network_broadcast_host: address is network/broadcast id", "diagmsg.networkBroadcast")
    ∷ ("lease_expired: DHCP mode without a usable lease", "diagmsg.leaseUnavailable")
    ∷ ("gateway_cross_subnet", "diagmsg.gatewayCrossSubnet")
    ∷ ("undeterminable: ping failed to run", "diagmsg.pingUnavailable")
    ∷ ("no_reply", "diagmsg.noReply")
    ∷ ("icmp_blocked", "diagmsg.icmpBlocked")
    ∷ ("packet_loss", "diagmsg.packetLoss")
    ∷ ("probe_unavailable: arping failed", "diagmsg.probeUnavailable")
    ∷ ("undeterminable: ping failed to run", "diagmsg.pingUnavailable")
    ∷ ("suspected_conflict: heuristic hit (non-authoritative)", "diagmsg.suspectedConflict")
    ∷ ("ip_conflict: another host answered DAD", "diagmsg.conflictReply")
    ∷ ("route_missing: no IPv4 default route", "diagmsg.noDefaultRoute")
    ∷ ("route_conflict: redundant default routes", "diagmsg.redundantRoutes")
    ∷ ("route_conflict: multiple default gateways", "diagmsg.multipleGateways")
    ∷ (
      "connected_route_missing: address present but route missing", "diagmsg.connectedRouteMissing",
    )
    ∷ ("empty_dns", "diagmsg.emptyDNS")
    ∷ ("invalid_dns: contains 0.0.0.0", "diagmsg.invalidDNS")
    ∷ ("dns_unreachable", "diagmsg.dnsUnreachable")
    ∷ ("partial_unreachable", "diagmsg.partialUnreachable")
    ∷ ("slow resolution", "diagmsg.slowResolution")
    ∷ ("resolve_failed", "diagmsg.resolveFailed")
    ∷ ("link_local_only: IPv6 not properly configured", "diagmsg.ipv6LinkLocalOnly")
    ∷ ("route_missing_v6", "diagmsg.ipv6RouteMissing")
    ∷ ("no_ipv6_dns", "diagmsg.noIPv6DNS")
    ∷ ("ipv6_unreachable", "diagmsg.ipv6Unreachable")
    ∷ ("packet_loss v6", "diagmsg.packetLossIPv6")
    ∷ ("all public ping lost", "diagmsg.allPublicPingLost")
    ∷ ("public ping ok", "diagmsg.publicPingOK")
    ∷ ("169.254.x.x only", "diagmsg.apipaActual")
    ∷ ("heuristic: no duplicates (non-authoritative)", "diagmsg.noDuplicates")
    ∷ ("no conflict", "diagmsg.noDuplicates")
    ∷ ("no conflict reply (DAD)", "diagmsg.noConflictReply")
    ∷ ("reply received", "diagmsg.conflictReplyActual")
    ∷ ("all active subnets routed", "diagmsg.allSubnetsRouted")
    ∷ ("reachable", "diagmsg.reachable")
    ∷ ("TOS firewall is enabled", "diagmsg.firewallEnabled")
    ∷ ("firewall enabled; no proxy in environment or TOS settings", "diagmsg.firewallNoProxy")
    ∷ ("firewall enabled; no proxy in environment", "diagmsg.firewallNoProxy")
    ∷ ("TOS service reports TNAS.online connected", "diagmsg.tnasConnectedService")
    ∷ ("TNAS.online is disabled", "diagmsg.tnasDisabled")
    ∷ ("TNAS.online is disabled (no tnas0 interface)", "diagmsg.tnasDisabledNoInterface")
    ∷ ("tnas_online_enabled_but_tnas0_missing", "diagmsg.tnasNoInterface")
    ∷ ("tunnel_down", "diagmsg.tunnelDown")
    ∷ ("tnas0 is up but the TOS status API is unavailable", "diagmsg.tnasStateUnknown")
    ∷ ("DDNS status is unavailable (a TOS session is required)", "diagmsg.ddnsStatusUnavailable")
    ∷ ("DDNS is disabled (no records configured)", "diagmsg.ddnsNoRecords")
    ∷ ("DDNS is disabled (all records are disabled)", "diagmsg.ddnsAllDisabled")
    ∷ ("ntp_unreachable: ntp active but unsynchronized", "diagmsg.ntpUnsynchronized")
    ∷ ("smbd running, 445 listening", "diagmsg.smbRunning")
    ∷ ("smbd running but 445 not listening", "diagmsg.smbNotListening")
    ∷ ("smbd not running", "diagmsg.smbNotRunning")
    ∷ ("smbd_down: service not accepting", "diagmsg.smbNotAccepting")
    ∷ ("smbd_down: enable SMB in TOS control panel", "diagmsg.enableSMB")
    ∷ ("2049 listening", "diagmsg.nfsListening")
    ∷ ("exports present but service down", "diagmsg.nfsServiceDown")
    ∷ ("nfsd_down", "diagmsg.nfsServiceDown")
    ∷ ("bond with LACP config present", "diagmsg.lacpConfigured")
    ∷ ("bond port without LACP config", "diagmsg.lacpNotConfigured")
    ∷ ("lacp_not_negotiated", "diagmsg.lacpNotConfigured")
    ∷ ("no iperf3 peer configured; verify via LAN speed test mode A", "diagmsg.noIperfPeer")
    ∷ ("disabled (optional feature); enable in Samba if needed", "diagmsg.multichannelDisabled")
    ∷ ("upstream reachable, sync pending (unstable upstream)", "diagmsg.ntpSyncPendingActual")
    ∷ ("IPv6 disabled on this interface", "diagmsg.ipv6DisabledOnIf")
    ∷ ("no IPv6 service on this network (router provides no RA/DHCPv6)", "diagmsg.noIPv6Service")
    ∷ ("no IPv6 service on this network", "diagmsg.noIPv6Service")
    ∷ ("link-local only", "diagmsg.ipv6LinkLocalOnly")
    ∷ ("missing", "diagmsg.ipv6RouteMissing")
    ∷ ("AAAA NODATA", "diagmsg.aaaaNodata")
    ∷ ("v6 DNS or AAAA available", "diagmsg.ipv6DnsAvailable")
    ∷ ("no v6 DNS + AAAA failed", "diagmsg.noIPv6DNS")
    ∷ ("v6 TCP ok (ICMP blocked)", "diagmsg.ipv6TcpOk")
    ∷ ("v6 unreachable", "diagmsg.ipv6Unreachable")
    ∷ ("ping/ARP all failed", "diagmsg.pingArpAllFailed")
    ∷ ("ping unavailable", "diagmsg.pingUnavailable")
    ∷ ("arping unusable", "diagmsg.probeUnavailable")
    ∷ ("all DNS probes failed", "diagmsg.allDnsProbesFailed")
    ∷ ("delta=0", "diagmsg.noErrors")
    ∷ ("no proxy in environment or TOS settings", "diagmsg.noProxyConfigured")
    ∷ ("TOS proxy state unavailable", "diagmsg.proxyStateUnavailable")
    ∷ []

-- `DIAG_CODE_KEYS`
unfoldable pub diag_code_keys : List (String × String)
diag_code_keys =
    ("firewall_status_unavailable", "diagmsg.firewallStatusUnavailable")
    ∷ ("firewall_disabled", "diagmsg.firewallDisabled")
    ∷ ("proxy_in_use", "diagmsg.proxyInUse")
    ∷ ("bad_proxy", "diagmsg.proxyUnreachable")
    ∷ ("mtu_policy_mismatch", "diagmsg.mtuPolicyMismatch")
    ∷ ("mtu_pppoe", "diagmsg.pathMTU")
    ∷ ("mtu_too_small", "diagmsg.pathMTUTooSmall")
    ∷ ("time_offset", "diagmsg.clockSkew")
    ∷ ("fd_exhausted", "diagmsg.fdExhausted")
    ∷ ("timewait_high", "diagmsg.timeWaitHigh")
    ∷ ("http_error", "diagmsg.httpServerError")
    ∷ ("endpoint", "diagmsg.endpointProbeFailed")
    ∷ ("ntp_sync_pending", "diagmsg.ntpSyncPendingReason")
    ∷ ("aaaa_nodata", "diagmsg.aaaaNodata")
    ∷ ("ipv6_disabled_if", "diagmsg.ipv6DisabledIf")
    ∷ ("bond_mode_not_lacp", "diagmsg.bondModeNotLacp")
    ∷ []

-- `DIAG_CLASS_KEYS`
unfoldable pub diag_class_keys : List (String × String)
diag_class_keys =
    ("dns_failure", "diagmsg.dnsFailure")
    ∷ ("connect_failure", "diagmsg.connectFailure")
    ∷ ("timeout", "diagmsg.connectionTimeout")
    ∷ ("cert_failure", "diagmsg.certFailure")
    ∷ ("unknown", "diagmsg.unknownFailure")
    ∷ []
