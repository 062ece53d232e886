-- ===== src/I18n/Packs/DeDe/Messages.antt =====
-- webui/assets/i18n.js, the German pack: diagnosis messages, first half.
use Prim.Native.String.{String}
use mathlib.Core.List.{List, [], ◌∷◌}

unfoldable pub de_de_messages : List (String × String)
de_de_messages =
    ("diagmsg.allLinksUp", "All {1} Physical Links Are Up")
    ∷ ("diagmsg.allPublicPingLost", "All Public Pings Lost")
    ∷ ("diagmsg.allSubnetsRouted", "All Active Subnets Are Routed")
    ∷ ("diagmsg.bondModeNotLacp", "Bond konfiguriert, jedoch nicht mit LACP (802.3AD)")
    ∷ ("diagmsg.undeterminable", "Nicht ermittelbar ({1})")
    ∷ (
      "diagmsg.ntpSyncPendingActual",
      "Upstream erreichbar, Synchronisierung ausstehend (instabiler Upstream)",
    )
    ∷ ("diagmsg.ipv6DisabledOnIf", "IPv6 auf dieser Schnittstelle deaktiviert")
    ∷ (
      "diagmsg.noIPv6Service", "Kein IPv6-Dienst in diesem Netzwerk (Router sendet kein RA/DHCPv6)",
    )
    ∷ ("diagmsg.aaaaNodata", "Kein AAAA-Eintrag")
    ∷ ("diagmsg.ipv6DnsAvailable", "IPv6-DNS oder AAAA verfügbar")
    ∷ ("diagmsg.ipv6TcpOk", "IPv6-TCP OK (ICMP blockiert)")
    ∷ ("diagmsg.pingArpAllFailed", "Ping und ARP beide fehlgeschlagen")
    ∷ ("diagmsg.allDnsProbesFailed", "Alle DNS-Tests fehlgeschlagen")
    ∷ ("diagmsg.noErrors", "Keine neuen Fehler")
    ∷ ("diagmsg.macsForIp", "{1} MACs für {2}")
    ∷ ("diagmsg.httpCode", "HTTP {1}")
    ∷ (
      "diagmsg.ntpSyncPendingReason",
      "NTP-Upstream erreichbar, Synchronisierung ausstehend (instabiler Upstream)",
    )
    ∷ ("diagmsg.ipv6DisabledIf", "IPv6 auf der primären Schnittstelle deaktiviert (Kernel)")
    ∷ ("diagmsg.allReachable", "All {1} Targets Reachable")
    ∷ ("diagmsg.apipa", "DHCP Failed; Link-Local Address Only")
    ∷ ("diagmsg.apipaActual", "Only a 169.254.x.x Link-Local Address")
    ∷ ("diagmsg.clockSkew", "Clock Skew May Affect Certificates")
    ∷ ("diagmsg.conflictReply", "Another Host Answered the Address Conflict Probe")
    ∷ ("diagmsg.conflictReplyActual", "A Conflict Reply Was Received")
    ∷ ("diagmsg.connectFailure", "Connection Failed")
    ∷ ("diagmsg.connectionTimeout", "Connection Timed Out")
    ∷ ("diagmsg.certFailure", "Certificate Verification Failed")
    ∷ ("diagmsg.connectedRouteMissing", "Address Exists but the Connected Route Is Missing")
    ∷ ("diagmsg.ddnsAllDisabled", "DDNS Is Disabled; All Records Are Disabled")
    ∷ ("diagmsg.ddnsConnectedRatio", "Enabled · Connected ({1}/{2})")
    ∷ ("diagmsg.ddnsDisconnected", "Enabled · Disconnected (0/{1})")
    ∷ ("diagmsg.ddnsNoRecords", "DDNS Is Disabled; No Records Configured")
    ∷ ("diagmsg.ddnsStatusUnavailable", "DDNS Status Unavailable; a TOS Session Is Required")
    ∷ ("diagmsg.ddnsUpdateFailed", "DDNS Update Failed for {1} Enabled Record(s)")
    ∷ ("diagmsg.ddnsUpdated", "{1} of {2} DDNS Records Updated Successfully")
    ∷ ("diagmsg.dnsServers", "{1} DNS Server(s): {2}")
    ∷ ("diagmsg.dnsFailure", "DNS Resolution Failed")
    ∷ ("diagmsg.dnsUnreachable", "All DNS Probes Failed")
    ∷ ("diagmsg.downPortsHandled", "{1} Down Port(s) Are Reported by Link State")
    ∷ ("diagmsg.duplexUnavailableDown", "Duplex Is Unavailable While All Physical Links Are Down")
    ∷ ("diagmsg.duplexUnreadable", "Duplex Unreadable; Check the Driver, Cable, and Switch Port")
    ∷ ("diagmsg.emptyDNS", "No Valid DNS Server Configured")
    ∷ ("diagmsg.enableSMB", "SMB Is Not Running; Enable It in the TOS Control Panel")
    ∷ ("diagmsg.enabledConnected", "Enabled · Connected")
    ∷ ("diagmsg.enabledConnecting", "Enabled · Connecting")
    ∷ ("diagmsg.enabledDisconnected", "Enabled · Disconnected")
    ∷ ("diagmsg.enabledNoTunnel", "Enabled · No Tunnel Interface")
    ∷ ("diagmsg.enabledStateUnknown", "Enabled · State Unknown")
    ∷ ("diagmsg.endpointProbeFailed", "Endpoint Probe Failed")
    ∷ ("diagmsg.errorBurstCable", "Receive Error Burst; Check the Cable")
    ∷ ("diagmsg.errorDelta", "{1} Error Delta: {2}")
    ∷ ("diagmsg.fdExhausted", "File Descriptors Are Nearly Exhausted")
    ∷ ("diagmsg.firewallDisabled", "TOS Firewall Is Disabled")
    ∷ ("diagmsg.firewallEnabled", "TOS Firewall Is Enabled")
    ∷ ("diagmsg.firewallNoProxy", "Firewall Enabled; No Proxy Configured")
    ∷ ("diagmsg.firewallEnabledWithProxy", "Firewall Enabled; {1}")
    ∷ ("diagmsg.firewallDisabledWithProxy", "Firewall Disabled; {1}")
    ∷ ("diagmsg.firewallStatusUnavailable", "TOS Firewall State Could Not Be Read")
    ∷ ("diagmsg.fullDuplex", "Full Duplex")
    ∷ ("diagmsg.gatewayCrossSubnet", "Gateway Is Outside the Interface Subnet")
    ∷ ("diagmsg.halfDuplex", "{1}: Half Duplex")
    ∷ ("diagmsg.halfDuplexCollisions", "Half Duplex Causes Collisions and Slowdowns")
    ∷ ("diagmsg.httpServerError", "HTTP Server Error")
    ∷ ("diagmsg.icmpBlocked", "ICMP May Be Blocked")
    ∷ ("diagmsg.invalidDNS", "Invalid DNS Configuration: 0.0.0.0 Was Found")
    ∷ ("diagmsg.invalidMask", "Invalid Prefix Length")
    ∷ ("diagmsg.ipv6LinkLocalOnly", "IPv6 Is Not Properly Configured; Link-Local Only")
    ∷ ("diagmsg.ipv6RouteMissing", "IPv6 Default Route Is Missing")
    ∷ ("diagmsg.ipv6Unreachable", "IPv6 Is Unreachable")
    ∷ ("diagmsg.lacpConfigured", "Bond Port Has LACP Configuration")
    ∷ ("diagmsg.lacpNotConfigured", "Bond Port Has No LACP Configuration")
    ∷ ("diagmsg.leasePresent", "DHCP Lease Present")
    ∷ ("diagmsg.leaseUnavailable", "No Usable DHCP Lease")
    ∷ ("diagmsg.linkRateDegraded", "Negotiated Link Rate Is Below Port Capability")
    ∷ ("diagmsg.linkStateSummary", "{1} Up, {2} Down ({3})")
    ∷ []
