-- ===== src/I18n/Packs/DeDe/Reasons.antt =====
-- webui/assets/i18n.js, the German pack: diagnosis messages, second half.
use Prim.Native.String.{String}
use mathlib.Core.List.{List, [], ◌∷◌}

unfoldable pub de_de_reasons : List (String × String)
de_de_reasons =
    ("diagmsg.minorErrorGrowth", "Minor Receive Error Growth")
    ∷ ("diagmsg.mtuPolicyMismatch", "Interface MTU Does Not Match the Expected Policy")
    ∷ ("diagmsg.mtuPayloadPasses", "1472-byte Payload Passes; {1}")
    ∷ ("diagmsg.multichannelDisabled", "Optional SMB Multichannel Is Disabled")
    ∷ ("diagmsg.multichannelAvailable", "{1} Ports; SMB Multichannel Is Available")
    ∷ ("diagmsg.multipleGateways", "Multiple Default Gateways")
    ∷ ("diagmsg.networkBroadcast", "Address Is the Network or Broadcast Address")
    ∷ ("diagmsg.nfsListening", "NFS Is Listening on Port 2049")
    ∷ ("diagmsg.nfsNotEnabled", "NFS Is Not Enabled")
    ∷ ("diagmsg.nfsServiceDown", "NFS Exports Exist but the Service Is Down")
    ∷ ("diagmsg.noActivePort", "No Active Port")
    ∷ ("diagmsg.noBondConfigured", "No Bond Is Configured")
    ∷ ("diagmsg.noDNSConfigured", "No DNS Is Configured")
    ∷ ("diagmsg.noDefaultRoute", "No Default Route or Gateway")
    ∷ ("diagmsg.noIPv4", "No Valid Global IPv4 Address")
    ∷ ("diagmsg.noIPv6DNS", "No IPv6 DNS or Reachable AAAA Record")
    ∷ ("diagmsg.noProxyConfigured", "No Proxy Configured")
    ∷ ("diagmsg.noIperfPeer", "No iperf3 Peer Is Configured; Use LAN Speed Test Mode A")
    ∷ ("diagmsg.noPhysicalPorts", "No Physical Ports")
    ∷ ("diagmsg.noReply", "No Reply")
    ∷ ("diagmsg.noConflictReply", "No Conflict Reply from Duplicate Address Detection")
    ∷ ("diagmsg.noDuplicates", "No Duplicate Address Detected")
    ∷ ("diagmsg.noSyncedPeer", "No Synchronized NTP Peer")
    ∷ ("diagmsg.noTimeReference", "No Time Reference Available")
    ∷ ("diagmsg.notApplicable", "Not Applicable")
    ∷ ("diagmsg.ntpNotEnabled", "NTP Service Is Not Enabled")
    ∷ ("diagmsg.ntpActiveOffset", "NTP Active; Offset {1} ms")
    ∷ ("diagmsg.ntpSynced", "Synchronized with Upstream NTP")
    ∷ ("diagmsg.ntpUnsynchronized", "NTP Is Active but Not Synchronized")
    ∷ ("diagmsg.packetLoss", "Packet Loss Detected")
    ∷ ("diagmsg.packetLossIPv6", "IPv6 Packet Loss Detected")
    ∷ ("diagmsg.partialReachable", "{1} of {2} Targets Reachable")
    ∷ ("diagmsg.partialUnreachable", "Some DNS Servers Are Unreachable")
    ∷ ("diagmsg.notDHCPMode", "Mode Is {1}, Not DHCP")
    ∷ ("diagmsg.lossPercent", "Packet Loss {1}%")
    ∷ ("diagmsg.pathMTU", "Path MTU Indicates a PPPoE-Like Link")
    ∷ ("diagmsg.pathMTUTooSmall", "Path MTU Is Too Small")
    ∷ ("diagmsg.pathMTUValue", "Best Path MTU {1}; {2}")
    ∷ ("diagmsg.pingUnavailable", "Ping Could Not Run")
    ∷ ("diagmsg.probeUnavailable", "Conflict Probe Is Unavailable")
    ∷ ("diagmsg.proxyInUse", "Configured Proxy Server Is Reachable")
    ∷ ("diagmsg.proxyStateUnavailable", "Proxy Settings Could Not Be Read")
    ∷ ("diagmsg.environmentProxy", "{1} Environment Proxy Variable(s)")
    ∷ ("diagmsg.tosProxyConfigured", "TOS Proxy Configured")
    ∷ ("diagmsg.tosAdvancedProxy", "TOS Advanced Proxy: {1}")
    ∷ ("diagmsg.proxyUnreachable", "Configured Proxy Server Is Unreachable")
    ∷ ("diagmsg.publicPingOK", "Public Ping Succeeded")
    ∷ ("diagmsg.reachable", "Reachable")
    ∷ ("diagmsg.reachableEndpoints", "{1} Endpoint(s) Reachable")
    ∷ ("diagmsg.redundantRoutes", "Redundant Default Routes")
    ∷ ("diagmsg.resolveFailed", "Domain Resolution Failed")
    ∷ ("diagmsg.singlePhysicalPort", "Single Physical Port")
    ∷ ("diagmsg.slowResolution", "Domain Resolution Is Slow")
    ∷ ("diagmsg.routesSameGateway", "{1} Default Routes Use the Same Gateway")
    ∷ ("diagmsg.routesGateways", "{1} Default Routes and {2} Gateways")
    ∷ ("diagmsg.smbNotAccepting", "SMB Service Is Not Accepting Connections")
    ∷ ("diagmsg.smbNotListening", "SMB Is Running but Port 445 Is Not Listening")
    ∷ ("diagmsg.smbNotRunning", "SMB Is Not Running")
    ∷ ("diagmsg.smbRunning", "SMB Is Running and Port 445 Is Listening")
    ∷ ("diagmsg.speedUnknown", "Link Rate Unknown or Unreadable")
    ∷ ("diagmsg.suspectedConflict", "Possible IP Conflict Detected by Heuristic")
    ∷ ("diagmsg.timeWaitHigh", "Too Many Connections Are in TIME_WAIT")
    ∷ ("diagmsg.timeWaitCount", "TIME_WAIT Connections: {1}")
    ∷ ("diagmsg.offsetValue", "Clock Offset {1} ms")
    ∷ ("diagmsg.fdUsage", "File Descriptor Usage {1}%")
    ∷ ("diagmsg.unknownFailure", "Unknown Failure")
    ∷ ("diagmsg.tnasConnectedService", "TOS Reports TNAS.online Is Connected")
    ∷ ("diagmsg.tnasDisabled", "TNAS.online Is Disabled")
    ∷ ("diagmsg.tnasDisabledNoInterface", "TNAS.online Is Disabled; No tnas0 Interface")
    ∷ ("diagmsg.tnasNoInterface", "TNAS.online Is Enabled but the Tunnel Interface Is Missing")
    ∷ ("diagmsg.tnasServiceCode", "TOS Service Code: {1}; Connection Status: {2}")
    ∷ ("diagmsg.tnasStateUnknown", "tnas0 Is Up but the TOS Status API Is Unavailable")
    ∷ ("diagmsg.tunnelDown", "Remote-Access Tunnel Is Down")
    ∷ ("diagmsg.unconnectedInformational", "Unconnected Physical Ports Are Informational Only")
    ∷ []
