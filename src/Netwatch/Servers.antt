-- ===== src/Netwatch/Servers.antt =====
-- netwatch.py: what a second DHCP server has reported of it.
use homelab_agent.Prelude.{ℕ, ◌<◌, ◌≡◌, refl, true, Option, none, some, ◌∷◌, nat_eq, list_eq}
use homelab_agent.Prelude.Text.{Text}
use homelab_agent.Prelude.Dict.{Dict, get}
use homelab_agent.Prelude.Keys.{tally}
use homelab_agent.Netwatch.Address.{IpAttributes, interesting_ip}
use homelab_agent.Netwatch.Detector.{
  Detector, Finding, Server, second_dhcp_server, warn, max_findings, new_finding,
}
use homelab_agent.Netwatch.Raise.{noted, get-raise, is_alert}
use homelab_agent.Netwatch.Invariant.{IsDetector}
use homelab_agent.Netwatch.Observe.{
  note_server, observe_dhcp, Reply, answers, first_true, dhcp_key, dhcp_report,
}

module _ (digest : Text → Text) (read_ip : Text → Option IpAttributes) where
  -- the warning of a second server
  abbrev pub second_server : Text → Option Text → ℕ → Finding
  second_server server mac now = record {
    id = digest (dhcp_key server);
    kind = second_dhcp_server;
    severity = warn;
    first_seen = now;
    last = now;
    count = 1;
    ip = server;
    mac = mac;
    previous = none;
  }

  -- A DHCP server that answers beside one seen before is reported, if fewer than MAX_FINDINGS
  -- warnings and alerts stand in the table: under its key then stands a warning of a second server
  -- with its address and card, or the finding that stood there, counted once more at this time.
  pub observe_dhcp-IsReported :
      (message : Reply) (now : ℕ) (d : Detector) (server : Text) (first : Text × Server)
      (others : Dict Text Server)
      → IsDetector d
      → tally is_alert d.findings < max_findings
      → answers message.type ≡ true
      → first_true message.server message.src ≡ some server
      → interesting_ip read_ip server ≡ true
      → d.servers ≡ first ∷ others
      → get d.servers server ≡ none
      → get (observe_dhcp digest read_ip message now d).findings (digest (dhcp_key server))
        ≡ some (
            noted
              (get d.findings (digest (dhcp_key server)))
              (second_server server message.eth now))
  unfolding observe_dhcp note_server new_finding
  observe_dhcp-IsReported message now d server first others i few reply present good known new =
      rw (reply, observe_dhcp, present, good, new, note_server, known)
        (get-raise (digest (dhcp_key server)) (dhcp_report server message.eth) now d.findings
          i.tracked.findings few refl)
