-- ===== src/Netwatch/Examples.antt =====
-- netwatch.py on concrete packets: a router whose address another card claims, and a second DHCP
-- server.
use homelab_agent.Prelude.{
  ℕ, ◌≡◌, refl, true, false, Option, none, some, List, [], ◌∷◌, arith, nat_eq, list_eq, any,
  keep_if, count_if, map, contains, list_beq,
}
use homelab_agent.Prelude.Text.{Text, text, is_digit, starts_with, lower}
use homelab_agent.Prelude.Dict.{get, set, remove}
use homelab_agent.Prelude.Keys.{values, keys, remove_all}
use homelab_agent.Prelude.Sort.{insert, sort}
use homelab_agent.Netwatch.Address.{
  IpAttributes, interesting, interesting_ip, interesting_mac, is_virtual, is_mac,
}
use homelab_agent.Netwatch.Detector.{
  Detector, Finding, bad, new_device, gateway_changed, start, Report, new_finding, evict, raise,
  drop_info, drop_least, drop_excess, trim_tables, trim, less_severe, least,
}
use homelab_agent.Netwatch.Observe.{
  observe_arp, observe_dhcp, Reply, gateway_key, dhcp_key, note_device, note_claim, note_server,
  report_move, dhcp_report, active,
}
use homelab_agent.Netwatch.Eviction.{get-evict}
use homelab_agent.Netwatch.Raise.{IsBounded}
use homelab_agent.Netwatch.Servers.{observe_dhcp-IsReported, second_server}
use homelab_agent.Netwatch.Alerts.{observe_arp-IsReported, IsReported, takeover}
use homelab_agent.Netwatch.Invariant.{IsDetector}
use homelab_agent.Netwatch.Runs.{Reachable, first_run, arp, dhcp, supervise, Reachable-IsDetector}

-- every address is a private one
abbrev home : Text → Option IpAttributes
home ip = some (record {
  version = 4;
  is_private = true;
  is_unspecified = false;
  is_link_local = false;
  is_multicast = false;
  is_loopback = false;
})

abbrev same_text : Text → Text
same_text key = key

abbrev router : Text
router = text "192.168.1.1"

abbrev router_mac : Text
router_mac = text "aa:aa:aa:aa:aa:01"

abbrev thief_mac : Text
thief_mac = text "bb:bb:bb:bb:bb:02"

abbrev fresh : Detector
fresh = record (start [] [] [] 0) { gateway = some router }

abbrev settled : Detector
settled = observe_arp same_text home router router_mac 1000 fresh

abbrev served : Detector
served =
    observe_dhcp same_text home
      (record { type = some (text "ACK"); server = some router; src = none; eth = some router_mac })
      1005 settled

abbrev rogue_reply : Reply
rogue_reply = record {
  type = some (text "Offer");
  server = none;
  src = some (text "192.168.1.66");
  eth = some thief_mac;
}

settled-Reachable : Reachable same_text home settled
settled-Reachable = arp router router_mac 1000 (supervise (some router) (first_run 0))

served-Reachable : Reachable same_text home served
served-Reachable = dhcp _ 1005 settled-Reachable

abbrev renewal : Reply
renewal = record {
  type = some (text "ACK");
  server = some router;
  src = none;
  eth = some router_mac;
}

abbrev robbed : Detector
robbed = observe_arp same_text home router thief_mac 1010 settled

robbed-Reachable : Reachable same_text home robbed
robbed-Reachable = arp router thief_mac 1010 settled-Reachable

watching : Unit {0}
unfolding start observe_arp observe_dhcp note_device note_claim note_server report_move raise evict
    drop_info drop_least drop_excess trim_tables trim interesting_ip interesting interesting_mac
    is_mac is_virtual get set remove remove_all values keys sort insert any contains keep_if
    count_if list_beq starts_with is_digit new_finding active less_severe least lower
watching = tt

abbrev alerts_of : Detector → ℕ → List (Text × ℕ)
alerts_of d now = map (λ f. (f.id, f.last)) (active now d.findings)

run_tests :
    (alerts_of settled 1001 ≡ [])
    × (alerts_of (observe_arp same_text home router thief_mac 1010 settled) 1011
        ≡ (gateway_key router thief_mac, 1010) ∷ [])
    × (alerts_of served 1006 ≡ [])
    × (alerts_of (observe_dhcp same_text home rogue_reply 1020 served) 1021
        ≡ (dhcp_key (text "192.168.1.66"), 1020) ∷ [])
    × (alerts_of (observe_dhcp same_text home rogue_reply 1020 served) 4621 ≡ [])
    × (map (λ f. f.kind) (values settled.findings) ≡ new_device ∷ [])
unfolding watching
run_tests = (refl, refl, refl, refl, refl, refl)

observe_arp-IsReported_example :
    IsReported same_text settled.findings
      (observe_arp same_text home router thief_mac 1010 settled).findings
      (takeover same_text (some router) router thief_mac router_mac 1010)
unfolding watching
observe_arp-IsReported_example =
    observe_arp-IsReported same_text home router thief_mac 1010 settled
      (record { mac = router_mac; first = 1000; last = 1000 })
      (Reachable-IsDetector same_text home settled-Reachable) (omega arith) refl refl refl refl

observe_dhcp-IsReported_example :
    get
      (observe_dhcp same_text home rogue_reply 1020 served).findings
      (dhcp_key (text "192.168.1.66"))
    ≡ some (second_server same_text home (text "192.168.1.66") rogue_reply.eth 1020)
unfolding watching
observe_dhcp-IsReported_example =
    observe_dhcp-IsReported same_text home rogue_reply 1020 served (text "192.168.1.66") _ []
      (Reachable-IsDetector same_text home served-Reachable) (omega arith) refl refl refl refl refl

Reachable-IsDetector_example : IsDetector robbed
Reachable-IsDetector_example = Reachable-IsDetector same_text home robbed-Reachable

robbed-IsBounded : IsBounded robbed.findings
robbed-IsBounded = (Reachable-IsDetector same_text home robbed-Reachable).tracked.findings

abbrev theft : Finding
theft = record {
  id = gateway_key router thief_mac;
  kind = gateway_changed;
  severity = bad;
  first_seen = 1010;
  last = 1010;
  count = 1;
  ip = router;
  mac = some thief_mac;
  previous = some router_mac;
}

get-evict_example : get (evict robbed.findings) (gateway_key router thief_mac) ≡ some theft
unfolding watching
get-evict_example =
    get-evict robbed.findings (gateway_key router thief_mac) theft robbed-IsBounded.table refl refl
      (omega arith)

abbrev rogue_report : Report
rogue_report = dhcp_report (text "192.168.1.66") (some thief_mac)
