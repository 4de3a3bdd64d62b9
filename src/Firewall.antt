-- ===== src/Firewall.antt =====
-- roostos-engine/src/roostos_engine/firewall_manager.py: marks, routing commands, and the lines of a
-- ruleset. The ruleset is put together in `Firewall.Ruleset`.
pub mod Ruleset
pub mod Marks
pub mod Balance
pub mod Forwarding
use Prim.Native.Nat.{ℕ, ◌+◌}
use Prim.Native.String.{String}
use text.Mathlib.Text.{◌==◌}
use mathlib.Core.Bool.{Bool, true, false, not, ◌&&◌, ◌||◌}
use mathlib.Core.Option.{Option, none, some}
use mathlib.Core.List.{List, [], ◌∷◌, ◌++◌, map}
use roostos.Prelude.{any, has, first, or_else, eqb, if◌then◌else◌}
use roostos.Prelude.Dict
use roostos.Prelude.Dict.{Dict}
use roostos.Prelude.Text.{concat, join_by, replace, str}
use roostos.Models.{
  NetworkInterface, NetworkGateway, InputRuleConfig, PluginConfig, SystemDnsConfig, RoostConfig,
  truthy,
}

-- the loop of `__init__`: marks from 100 on for the gateways that are not the default
unfoldable pub assign_marks : List NetworkGateway → ℕ → Dict ℕ → Dict ℕ
assign_marks [] counter marks = marks
assign_marks (gw ∷ gws) counter marks =
    let default = gw.id == "default" in
    assign_marks gws (if default then counter else counter + 1)
      (if default then marks else Dict.put gw.id counter marks)

unfoldable pub gateway_marks : RoostConfig → Dict ℕ
unfolding assign_marks
gateway_marks config = assign_marks config.network.gateways 100 []

unfoldable pub get_wan_interface : RoostConfig → String
get_wan_interface config =
    elim (first (λ (i : NetworkInterface). i.network == "wan") config.network.interfaces) [
      | none ↦ "eth0"
      | some i ↦ i.name
    ]

abbrev blocks_ads : Option SystemDnsConfig → Bool
blocks_ads none = false
blocks_ads (some dns) = dns.ad_blocking_enabled

-- `probe` is the outcome of the connection to 127.0.0.1:53, and false where the code makes none
unfoldable pub is_local_dns_active : RoostConfig → Bool → Bool
is_local_dns_active config probe =
    any (λ (p : PluginConfig). p.enabled && has "dnsServer" p.known_services) config.plugins
    || blocks_ads config.system.dns
    || probe

-- one gateway of `compile_routing_setup_cmds`; a mark of 0 would count as none
abbrev routing_cmds : Option ℕ → String → List (List String)
routing_cmds none interface = []
routing_cmds (some mark) interface =
    if eqb mark 0
    then []
    else ("ip" ∷ "route" ∷ "replace" ∷ "default" ∷ "dev" ∷ interface ∷ "table" ∷ str mark ∷ [])
      ∷ ("ip" ∷ "rule" ∷ "add" ∷ "fwmark" ∷ str mark ∷ "table" ∷ str mark ∷ [])
      ∷ []

unfoldable pub routing_setup_cmds : Dict ℕ → List NetworkGateway → List (List String)
routing_setup_cmds marks [] = []
routing_setup_cmds marks (gw ∷ gws) =
    (if gw.id == "default" then [] else routing_cmds (Dict.get gw.id marks) gw.interface)
    ++ routing_setup_cmds marks gws

unfoldable pub compile_routing_setup_cmds : RoostConfig → List (List String)
unfolding routing_setup_cmds
compile_routing_setup_cmds config =
    routing_setup_cmds (gateway_marks config) config.network.gateways

-- The lines of a ruleset, by the place in the code that writes them.
pub data Line : Type 0 where
  raw : String → Line  -- a line that depends on nothing
  doh_elements vpn_elements : List String → Line
  wan_drop : String → String → String → Line  -- the set, the WAN interface, the log prefix
  local_tcp local_udp dns_tcp : String → Line
  input_rule : InputRuleConfig → String → Line  -- the rule, and the protocol of this line
  forward : String → String → Line  -- from an interface, to an interface
  redirect : String → String → Line  -- the interface, the protocol
  dot_drop : String → Line
  dns_dnat : String → String → String → String → Line  -- interface, its address, protocol, server
  mark_set : String → ℕ → Line
  port_forward : String → String → ℕ → String → ℕ → Line
  masquerade : String → Line

iifname : String → String
iifname i = concat ("iifname \"" ∷ i ∷ "\"" ∷ [])

-- the words of a user's rule
rule_words : InputRuleConfig → String → List String
unfolding iifname
rule_words rule proto =
    "       " ∷ (if rule.interface == "*" then [] else iifname rule.interface ∷ [])
    ++ (elim (truthy rule.source) [
      | none ↦ []
      | some source ↦ concat ("ip saddr " ∷ source ∷ []) ∷ []
    ])
    ++ concat (proto ∷ " dport " ∷ str rule.port ∷ [])
      ∷ (if rule.action == "drop" || rule.action == "reject"
          then concat (
              "log prefix \"FIREWALL:BLOCKED:"
              ∷ replace 32 "_" rule.name
              ∷ " \" "
              ∷ rule.action
              ∷ [])
          else rule.action)
      ∷ []

unfoldable pub render : Line → String
unfolding rule_words
render (raw s) = s
render (doh_elements ips) = concat ("        elements = { " ∷ join_by ", " ips ∷ " }" ∷ [])
render (vpn_elements []) = "        flags interval"
render (vpn_elements (ip ∷ ips)) =
    concat ("        flags interval\n        elements = { " ∷ join_by ", " (ip ∷ ips) ∷ " }" ∷ [])
render (wan_drop set wan prefix) = concat (
    "        ether saddr @" ∷ set ∷ " oifname \"" ∷ wan ∷ "\" log prefix \"FIREWALL:BLOCKED:"
    ∷ prefix ∷ " \" drop" ∷ [])
render (local_tcp i) =
    concat ("        " ∷ iifname i ∷ " tcp dport { 22, 443, 9090, 53 } accept" ∷ [])
render (local_udp i) = concat ("        " ∷ iifname i ∷ " udp dport { 53, 67 } accept" ∷ [])
render (dns_tcp i) = concat ("        " ∷ iifname i ∷ " tcp dport 53 accept" ∷ [])
render (input_rule rule proto) = join_by " " (rule_words rule proto)
render (forward i o) = concat ("        " ∷ iifname i ∷ " oifname \"" ∷ o ∷ "\" accept" ∷ [])
render (redirect i proto) =
    concat ("        " ∷ iifname i ∷ " " ∷ proto ∷ " dport 53 redirect to :53" ∷ [])
render (dot_drop i) = concat ("        " ∷ iifname i ∷ " tcp dport 853 drop" ∷ [])
render (dns_dnat i ip proto dns) = concat (
    "        "
    ∷ iifname i
    ∷ " ip daddr "
    ∷ ip
    ∷ " "
    ∷ proto
    ∷ " dport 53 dnat to "
    ∷ dns
    ∷ ":53"
    ∷ [])
render (mark_set mac n) = concat ("        ether saddr " ∷ mac ∷ " meta mark set " ∷ str n ∷ [])
render (port_forward wan proto port ip internal) = concat (
    "        "
    ∷ iifname wan
    ∷ " "
    ∷ proto
    ∷ " dport "
    ∷ str port
    ∷ " dnat to "
    ∷ ip
    ∷ ":"
    ∷ str internal
    ∷ [])
render (masquerade o) = concat ("        oifname \"" ∷ o ∷ "\" masquerade" ∷ [])
