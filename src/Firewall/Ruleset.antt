-- ===== src/Firewall/Ruleset.antt =====
-- `compile_ruleset` of roostos-engine/src/roostos_engine/firewall_manager.py, in the order in which
-- the code writes its lines.
use Prim.Native.Nat.{ℕ}
use Prim.Native.String.{String}
use text.Mathlib.Text.{◌==◌}
use mathlib.Core.Bool.{Bool, not}
use mathlib.Core.Option.{Option, none, some}
use mathlib.Core.List.{List, [], ◌∷◌, ◌++◌, map}
use roostos.Prelude.{has, keep, flat, if◌then◌else◌}
use roostos.Prelude.Dict
use roostos.Prelude.Dict.{Dict}
use roostos.Prelude.Text.{lower, split, join_by}
use roostos.Models.{
  NetworkBridge, NetworkVlan, NetworkGateway, ZoneConfig, InputRuleConfig, PortForwardConfig,
  DeviceConfig, SystemDnsConfig, RoostConfig, truthy,
}
use roostos.Firewall.{
  Line, raw, doh_elements, vpn_elements, wan_drop, local_tcp, local_udp, dns_tcp, input_rule,
  forward, redirect, dot_drop, dns_dnat, mark_set, port_forward, masquerade, gateway_marks,
  get_wan_interface, is_local_dns_active, render,
}

unfoldable pub lan_ifs : RoostConfig → List String
lan_ifs config =
    map (λ (b : NetworkBridge). b.name)
      (keep (λ (b : NetworkBridge). not b.isolate) config.network.bridges)
    ++ map (λ (v : NetworkVlan). v.name)
        (keep (λ (v : NetworkVlan). not v.isolate) config.network.vlans)

unfoldable pub guest_ifs : RoostConfig → List String
guest_ifs config =
    map (λ (b : NetworkBridge). b.name)
      (keep (λ (b : NetworkBridge). b.isolate) config.network.bridges)
    ++ map (λ (v : NetworkVlan). v.name)
        (keep (λ (v : NetworkVlan). v.isolate) config.network.vlans)

-- nothing is ever added to it
abbrev pub iot_ifs : List String
iot_ifs = []

unfoldable pub all_local_ifs : RoostConfig → List String
all_local_ifs config = lan_ifs config ++ guest_ifs config ++ iot_ifs

unfoldable pub doh_ips : RoostConfig → List String
doh_ips config =
    ("1.1.1.1" ∷ "1.0.0.1" ∷ "162.159.36.1" ∷ "162.159.46.1" ∷ "8.8.8.8" ∷ "8.8.4.4" ∷ "9.9.9.9"
      ∷ "149.112.112.112" ∷ "208.67.222.222" ∷ "208.67.220.220" ∷ "45.90.28.0/24" ∷ "45.90.30.0/24"
      ∷ "194.242.2.2" ∷ "194.242.2.3" ∷ "194.242.2.4" ∷ "76.76.2.0/24" ∷ "76.76.10.0/24" ∷ [])
    ++ config.firewall.custom_doh_ips

unfoldable pub header_lines : RoostConfig → List Line
header_lines config =
    raw "#!/usr/sbin/nft -f"
    ∷ raw "flush ruleset"
    ∷ raw ""
    ∷ raw "table inet filter {"
    ∷ raw "    # 1. Dynamic MAC set of unknown devices when unregistered_device_policy: deny"
    ∷ raw "    set quarantined {"
    ∷ raw "        type ether_addr"
    ∷ raw "    }"
    ∷ raw "    # 2. Dynamic MAC set of clients blocked by time schedules or screen time limits"
    ∷ raw "    set schedule_blocked {"
    ∷ raw "        type ether_addr"
    ∷ raw "    }"
    ∷ raw "    # 3. Dynamic MAC set of clients blocked permanently by administrator policy"
    ∷ raw "    set admin_blocked {"
    ∷ raw "        type ether_addr"
    ∷ raw "    }"
    ∷ raw "    # Legacy alias for backwards compatibility"
    ∷ raw "    set blocked_clients {"
    ∷ raw "        type ether_addr"
    ∷ raw "    }"
    ∷ raw "    # 4. Anti-Evasion DoH IP Set"
    ∷ raw "    set doh_server_ips {"
    ∷ raw "        type ipv4_addr"
    ∷ raw "        flags interval"
    ∷ doh_elements (doh_ips config)
    ∷ raw "    }"
    ∷ raw "    # 5. Anti-Evasion Commercial VPN Endpoint Set"
    ∷ raw "    set vpn_server_ips {"
    ∷ raw "        type ipv4_addr"
    ∷ vpn_elements config.firewall.custom_vpn_ips
    ∷ raw "    }"
    ∷ raw ""
    ∷ raw "    chain input {"
    ∷ raw "        type filter hook input priority filter; policy drop;"
    ∷ raw "        ct state established,related accept"
    ∷ raw "        iifname \"lo\" accept"
    ∷ raw "        ip protocol icmp accept"
    ∷ raw
        "        ether saddr @quarantined log prefix \"FIREWALL:BLOCKED:Quarantine_Input_Drop \" drop"
    ∷ raw "    }"
    ∷ []

unfoldable pub local_lines : String → List Line
local_lines iif =
    if has iif iot_ifs then local_udp iif ∷ dns_tcp iif ∷ [] else local_tcp iif ∷ local_udp iif ∷ []

unfoldable pub rule_lines : InputRuleConfig → List Line
rule_lines rule =
    if not rule.enabled
    then []
    else map (input_rule rule)
        (if rule.protocol == "tcp/udp" then "tcp" ∷ "udp" ∷ [] else rule.protocol ∷ [])

unfoldable pub forward_header : String → List Line
forward_header wan =
    raw "        log prefix \"FIREWALL:BLOCKED:Default_Input_Drop \""
    ∷ raw "    }"
    ∷ raw ""
    ∷ raw "    chain forward {"
    ∷ raw "        type filter hook forward priority filter; policy drop;"
    ∷ raw "        ct state established,related accept"
    ∷ raw "        "
    ∷ raw "        # 1. Drop traffic from quarantined clients completely"
    ∷ raw "        ether saddr @quarantined log prefix \"FIREWALL:BLOCKED:Quarantined \" drop"
    ∷ raw "        "
    ∷ raw "        # 2. Drop WAN-bound traffic for schedule-blocked clients (LAN access preserved)"
    ∷ wan_drop "schedule_blocked" wan "Schedule_Block"
    ∷ raw "        "
    ∷ raw "        # 3. Drop WAN-bound traffic for admin-blocked clients"
    ∷ wan_drop "admin_blocked" wan "Admin_Block"
    ∷ raw "        "
    ∷ raw "        # Legacy backward-compatibility drop"
    ∷ raw
        "        ether saddr @blocked_clients log prefix \"FIREWALL:BLOCKED:Blocked_Client \" drop"
    ∷ []

unfoldable pub evasion_lines : RoostConfig → List Line
evasion_lines config =
    (if config.firewall.block_doh
      then raw
          "        # Anti-Evasion: Drop direct HTTPS/QUIC connections to known DoH resolver IPs"
        ∷ raw
            "        ip daddr @doh_server_ips tcp dport 443 log prefix \"FIREWALL:BLOCKED:DoH_Direct_IP \" drop"
        ∷ raw
            "        ip daddr @doh_server_ips udp dport 443 log prefix \"FIREWALL:BLOCKED:DoH_Direct_IP \" drop"
        ∷ []
      else [])
    ++ (if config.firewall.block_quic
        then raw "        # Anti-Evasion: Drop QUIC (HTTP/3) UDP 443 to force TLS/TCP fallback"
          ∷ raw "        udp dport 443 log prefix \"FIREWALL:BLOCKED:QUIC_Drop \" drop"
          ∷ []
        else [])
    ++ (if config.firewall.block_vpns
        then (raw "        # Anti-Evasion: Drop Commercial VPN protocols and standard ports"
            ∷ raw
                "        udp dport { 500, 1194, 1701, 4500, 51820 } log prefix \"FIREWALL:BLOCKED:VPN_Protocol \" drop"
            ∷ raw
                "        tcp dport { 1194, 1723 } log prefix \"FIREWALL:BLOCKED:VPN_Protocol \" drop"
            ∷ raw
                "        ip protocol { esp, ah } log prefix \"FIREWALL:BLOCKED:VPN_Protocol \" drop"
            ∷ [])
          ++ vpn_endpoint_lines config.firewall.custom_vpn_ips
        else [])
  where
    vpn_endpoint_lines : List String → List Line
    vpn_endpoint_lines [] = []
    vpn_endpoint_lines (_ ∷ _) =
        raw "        ip daddr @vpn_server_ips log prefix \"FIREWALL:BLOCKED:VPN_Endpoint \" drop"
        ∷ []

-- `zone_map`: the last zone with an id
unfoldable pub zone_map : List ZoneConfig → Dict ZoneConfig → Dict ZoneConfig
zone_map [] m = m
zone_map (z ∷ zones) m = zone_map zones (Dict.put z.id z m)

abbrev pub to_zone : List String → Option ZoneConfig → List Line
to_zone ifaces none = []
to_zone ifaces (some z) = flat (λ iif. map (forward iif) z.interfaces) ifaces

unfoldable pub dest_lines : String → Dict ZoneConfig → List String → String → List Line
dest_lines wan zones ifaces dest =
    if dest == "wan"
    then map (λ iif. forward iif wan) ifaces
    else to_zone ifaces (Dict.get dest zones)

-- the policy of a zone that lists no zones
unfoldable pub default_lines : String → List String → Bool → String → List Line
default_lines wan locals isolate iif =
    forward iif wan
    ∷ (if isolate then [] else map (forward iif) (keep (λ oif. not (oif == iif)) locals))

abbrev pub zone_body : String → List String → Dict ZoneConfig → ZoneConfig → List String → List Line
zone_body wan locals zones z [] = flat (default_lines wan locals z.isolate) z.interfaces
zone_body wan locals zones z (d ∷ ds) = flat (dest_lines wan zones z.interfaces) (d ∷ ds)

unfoldable pub zone_lines : String → List String → Dict ZoneConfig → ZoneConfig → List Line
zone_lines wan locals zones z =
    if z.id == "wan" then [] else zone_body wan locals zones z z.allow_zones

-- the fallback where no zones are defined
unfoldable pub flat_lines : String → List String → List String → List Line
flat_lines wan lans guests =
    flat (λ lan. forward lan wan ∷ map (forward lan) guests ++ map (forward lan) iot_ifs) lans
    ++ map (λ guest. forward guest wan) guests
    ++ map (λ iot. forward iot wan) iot_ifs

abbrev pub policy_lines : RoostConfig → String → List ZoneConfig → List Line
policy_lines config wan [] = flat_lines wan (lan_ifs config) (guest_ifs config)
policy_lines config wan (z ∷ zones) =
    flat (zone_lines wan (all_local_ifs config) (zone_map (z ∷ zones) [])) (z ∷ zones)

unfoldable pub nat_header : List Line
nat_header =
    raw "        log prefix \"FIREWALL:BLOCKED:Default_Forward_Drop \""
    ∷ raw "    }"
    ∷ raw ""
    ∷ raw "    chain output {"
    ∷ raw "        type filter hook output priority filter; policy accept;"
    ∷ raw "        ct state established,related accept"
    ∷ raw "    }"
    ∷ raw "}"
    ∷ raw ""
    ∷ raw "table inet nat {"
    ∷ raw "    chain prerouting {"
    ∷ raw "        type nat hook prerouting priority dstnat; policy accept;"
    ∷ []

-- `ip.split("/")[0]`
unfoldable pub address : String → String
address ip = first_word (split b'/' ip)
  where
    first_word : List String → String
    first_word [] = ""
    first_word (w ∷ _) = w

abbrev pub forwarders_of : Option SystemDnsConfig → List String
forwarders_of none = []
forwarders_of (some dns) = dns.forwarders

abbrev pub first_or : List String → String → String
first_or [] d = d
first_or (x ∷ _) d = x

unfoldable pub dns_lines : RoostConfig → Bool → List Line
dns_lines config active =
    if active
    then flat redirects (map (λ (b : NetworkBridge). b.name) config.network.bridges)
      ++ flat redirects (map (λ (v : NetworkVlan). v.name) config.network.vlans)
      ++ map dot_drop (all_local_ifs config)
    else flat (λ (b : NetworkBridge). dnats b.name (address b.ip)) config.network.bridges
      ++ flat (λ (v : NetworkVlan). dnats v.name (address v.ip)) config.network.vlans
  where
    redirects : String → List Line
    redirects i = redirect i "tcp" ∷ redirect i "udp" ∷ []

    dnats : String → String → List Line
    dnats i ip =
        let dns = first_or (forwarders_of config.system.dns) "1.1.1.1" in
        dns_dnat i ip "tcp" dns ∷ dns_dnat i ip "udp" dns ∷ []

abbrev pub mark_line : String → Option ℕ → List Line
mark_line mac none = []
mark_line mac (some n) = mark_set mac n ∷ []

abbrev pub device_mark : Dict ℕ → String → Option String → List Line
device_mark marks mac none = []
device_mark marks mac (some gateway) = mark_line mac (Dict.get gateway marks)

unfoldable pub mark_lines : Dict ℕ → List DeviceConfig → List Line
mark_lines marks devices =
    flat (λ (dev : DeviceConfig). device_mark marks dev.mac (truthy dev.gateway)) devices

unfoldable pub port_forward_lines : String → List PortForwardConfig → List Line
port_forward_lines wan pfs =
    map
      (λ (pf : PortForwardConfig).
        port_forward wan (lower pf.protocol) pf.external_port pf.internal_ip pf.internal_port)
      pfs

unfoldable pub nat_postrouting : List Line
nat_postrouting =
    raw "    }"
    ∷ raw ""
    ∷ raw "    chain postrouting {"
    ∷ raw "        type nat hook postrouting priority srcnat; policy accept;"
    ∷ []

unfoldable pub vpn_masquerades : List NetworkGateway → List Line
vpn_masquerades gws =
    map (λ (gw : NetworkGateway). masquerade gw.interface)
      (keep (λ (gw : NetworkGateway). not (gw.id == "default")) gws)

unfoldable pub footer_lines : List Line
footer_lines =
    raw "    }"
    ∷ raw "}"
    ∷ raw ""
    ∷ raw "# Compatibility with Docker (prevent Docker from dropping LAN forward traffic)"
    ∷ raw "table ip filter {"
    ∷ raw "    chain DOCKER-USER {"
    ∷ raw "        accept"
    ∷ raw "    }"
    ∷ raw "}"
    ∷ raw ""
    ∷ []

-- The lines, by section.
unfoldable pub ruleset_lines : RoostConfig → Bool → List Line
ruleset_lines config probe =
    let wan = get_wan_interface config in
    header_lines config
    ++ (flat local_lines (all_local_ifs config)
        ++ (flat rule_lines config.firewall.rules
            ++ (forward_header wan
                ++ (evasion_lines config
                    ++ (policy_lines config wan config.network.zones
                        ++ (nat_header
                            ++ (dns_lines config (is_local_dns_active config probe)
                                ++ (mark_lines (gateway_marks config) config.devices
                                    ++ (port_forward_lines wan config.firewall.port_forwards
                                        ++ (nat_postrouting
                                            ++ (masquerade wan
                                                  ∷ vpn_masquerades config.network.gateways
                                                ++ footer_lines)))))))))))

unfoldable pub compile_ruleset : RoostConfig → Bool → String
unfolding ruleset_lines
compile_ruleset config probe = join_by "\n" (map render (ruleset_lines config probe))
