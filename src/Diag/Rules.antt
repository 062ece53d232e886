-- ===== src/Diag/Rules.antt =====
-- webui/assets/app.js, `translateDiagText`: the `if` statements behind the tables, in their order.
use netcheck.Common.{String, List, [], ◌∷◌}
use netcheck.Diag.Pattern.{
  Pattern, lit, number, word, line, rest, decimal_number, signed_decimal, integer, three_digits,
}

-- A test of a statement with the key of the message that it returns.
pub data Rule : Type 0 where
  on_match : Pattern → String → Rule  -- the groups are the message's values
  on_text : String → String → Rule  -- text === …
  on_prefix : String → String → Rule  -- text.startsWith(…); the value is the rest's proxy label
  on_part : String → String → Rule  -- text.includes(…)

unfoldable pub first_rules : List Rule
first_rules =
    on_match (lit "undeterminable: " ∷ line ∷ []) "diagmsg.undeterminable"
    ∷ on_match (lit "all " ∷ number ∷ lit " up" ∷ []) "diagmsg.allLinksUp"
    ∷ on_match (number ∷ lit " up, " ∷ number ∷ lit " down (" ∷ rest ∷ lit ")" ∷ [])
        "diagmsg.linkStateSummary"
    ∷ on_match (number ∷ lit " down port(s) are handled by link-state" ∷ [])
        "diagmsg.downPortsHandled"
    ∷ on_match (word ∷ lit " speed unknown" ∷ []) "diagmsg.speedUnknown"
    ∷ on_match (word ∷ lit " half" ∷ []) "diagmsg.halfDuplex"
    ∷ on_match (word ∷ lit " duplex unreadable" ∷ []) "diagmsg.duplexUnreadable"
    ∷ on_match (word ∷ lit " delta=" ∷ number ∷ []) "diagmsg.errorDelta"
    ∷ on_match (number ∷ lit " server(s): " ∷ rest ∷ []) "diagmsg.dnsServers"
    ∷ on_match (lit "all " ∷ number ∷ lit " reachable" ∷ []) "diagmsg.allReachable"
    ∷ on_match (number ∷ lit "/" ∷ number ∷ lit " reachable" ∷ []) "diagmsg.partialReachable"
    ∷ on_match (lit "mode=" ∷ word ∷ lit " (not DHCP)" ∷ []) "diagmsg.notDHCPMode"
    ∷ on_match (lit "loss=" ∷ decimal_number ∷ lit "%" ∷ []) "diagmsg.lossPercent"
    ∷ on_match (number ∷ lit " routes same gw" ∷ []) "diagmsg.routesSameGateway"
    ∷ on_match (number ∷ lit " routes, " ∷ number ∷ lit " gateways" ∷ []) "diagmsg.routesGateways"
    ∷ on_match (lit "reachable (" ∷ number ∷ lit " endpoint(s))" ∷ []) "diagmsg.reachableEndpoints"
    ∷ on_match (lit "1472B payload passes; " ∷ rest ∷ []) "diagmsg.mtuPayloadPasses"
    ∷ on_match (lit "best path MTU=" ∷ number ∷ lit "; " ∷ rest ∷ []) "diagmsg.pathMTUValue"
    ∷ on_match (lit "ntp active, offset=" ∷ signed_decimal ∷ lit "ms" ∷ [])
        "diagmsg.ntpActiveOffset"
    ∷ on_match (lit "offset=" ∷ signed_decimal ∷ lit "ms" ∷ []) "diagmsg.offsetValue"
    ∷ on_match (lit "TIME_WAIT=" ∷ integer ∷ []) "diagmsg.timeWaitCount"
    ∷ on_match (lit "fd " ∷ decimal_number ∷ lit "%" ∷ []) "diagmsg.fdUsage"
    ∷ on_match (lit "enabled · connected (" ∷ number ∷ lit "/" ∷ number ∷ lit ")" ∷ [])
        "diagmsg.ddnsConnectedRatio"
    ∷ []

unfoldable pub later_rules : List Rule
later_rules =
    on_match (lit "enabled · disconnected (0/" ∷ number ∷ lit ")" ∷ []) "diagmsg.ddnsDisconnected"
    ∷ on_match (number ∷ lit " of " ∷ number ∷ lit " DDNS records updated successfully" ∷ [])
        "diagmsg.ddnsUpdated"
    ∷ on_match (lit "DDNS update failed for " ∷ number ∷ lit " enabled record(s)" ∷ [])
        "diagmsg.ddnsUpdateFailed"
    ∷ on_match (lit "TOS service reports code=" ∷ integer ∷ lit ", connect_status=" ∷ integer ∷ [])
        "diagmsg.tnasServiceCode"
    ∷ on_text "enabled · connected" "diagmsg.enabledConnected"
    ∷ on_text "enabled · disconnected" "diagmsg.enabledDisconnected"
    ∷ on_text "enabled · connecting" "diagmsg.enabledConnecting"
    ∷ on_text "enabled · state unknown" "diagmsg.enabledStateUnknown"
    ∷ on_text "enabled · no tunnel interface" "diagmsg.enabledNoTunnel"
    ∷ on_text "synced with upstream" "diagmsg.ntpSynced"
    ∷ on_text "no synced peer" "diagmsg.noSyncedPeer"
    ∷ on_match (number ∷ lit " ports, multichannel available" ∷ []) "diagmsg.multichannelAvailable"
    ∷ on_text "full" "diagmsg.fullDuplex"
    ∷ on_text "lease present" "diagmsg.leasePresent"
    ∷ on_text "no lease info" "diagmsg.leaseUnavailable"
    ∷ on_text "firewall disabled" "diagmsg.firewallDisabled"
    ∷ on_prefix "firewall disabled; " "diagmsg.firewallDisabledWithProxy"
    ∷ on_text "firewall enabled" "diagmsg.firewallEnabled"
    ∷ on_prefix "firewall enabled; " "diagmsg.firewallEnabledWithProxy"
    ∷ on_part " no proxy in environment" "diagmsg.firewallNoProxy"
    ∷ on_text "TOS proxy state unavailable; proxy settings could not be read"
        "diagmsg.proxyStateUnavailable"
    ∷ on_match (number ∷ lit " MACs for " ∷ word ∷ []) "diagmsg.macsForIp"
    ∷ on_match (lit "HTTP " ∷ three_digits ∷ []) "diagmsg.httpCode"
    ∷ []
