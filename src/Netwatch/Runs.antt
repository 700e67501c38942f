-- ===== src/Netwatch/Runs.antt =====
-- netwatch.py: the lives of a `Detector`. `handle` gives it the packets of the helper, `_supervise`
-- sets the gateway, and `enable` or `resume` start it again from the tables that `export` saved.
use homelab_agent.Prelude.{ℕ, Option, [], arith}
use homelab_agent.Prelude.Text.{Text}
use homelab_agent.Netwatch.Address.{IpAttributes}
use homelab_agent.Netwatch.Detector.{Detector, start}
use homelab_agent.Netwatch.Observe.{observe_arp, observe_dhcp, Reply}
use homelab_agent.Netwatch.Raise.{IsBounded}
use homelab_agent.Netwatch.Invariant.{IsDetector, observe_arp-IsDetector, observe_dhcp-IsDetector}

pub data Reachable (digest : Text → Text) (read_ip : Text → Option IpAttributes)
    : Detector → Type 0 where
  first_run : (now : ℕ) → Reachable digest read_ip (start [] [] [] now)
  arp :
      {d : Detector} (ip mac : Text) (now : ℕ)
      → Reachable digest read_ip d
      → Reachable digest read_ip (observe_arp digest read_ip ip mac now d)
  dhcp :
      {d : Detector} (message : Reply) (now : ℕ)
      → Reachable digest read_ip d
      → Reachable digest read_ip (observe_dhcp digest read_ip message now d)
  supervise :
      {d : Detector} (gateway : Option Text)
      → Reachable digest read_ip d
      → Reachable digest read_ip (record d { gateway = gateway })
  restart :
      {d : Detector} (now : ℕ)
      → Reachable digest read_ip d
      → Reachable digest read_ip (start d.bindings d.known d.servers now)

empty-IsBounded : IsBounded []
empty-IsBounded = record {
  table = record { unique = tt; named = tt };
  bounded = omega arith;
  info_bounded = omega arith;
}

start-IsDetector :
    (d : Detector) (now : ℕ) → IsDetector d → IsDetector (start d.bindings d.known d.servers now)
unfolding start
start-IsDetector d now i = record {
  tracked = record {
    findings = empty-IsBounded;
    known = i.tracked.known;
    bindings = i.tracked.bindings;
    servers = i.tracked.servers;
  };
  known_bounded = i.known_bounded;
  bindings_bounded = i.bindings_bounded;
}

-- In every life of a detector, over any packets, restarts and gateways, its tables keep distinct
-- keys, each finding stands under its own id, at most MAX_FINDINGS findings stand, at most
-- MAX_INFO_FINDINGS of them notes, and at most MAX_KNOWN cards and MAX_KNOWN addresses are kept.
pub Reachable-IsDetector :
    (digest : Text → Text) (read_ip : Text → Option IpAttributes) {d : Detector}
    → Reachable digest read_ip d
    → IsDetector d
unfolding start
Reachable-IsDetector digest read_ip (first_run now) = record {
  tracked = record { findings = empty-IsBounded; known = tt; bindings = tt; servers = tt };
  known_bounded = omega arith;
  bindings_bounded = omega arith;
}
Reachable-IsDetector digest read_ip (arp ip mac now r) =
    observe_arp-IsDetector digest read_ip ip mac now _ (Reachable-IsDetector digest read_ip r)
Reachable-IsDetector digest read_ip (dhcp message now r) =
    observe_dhcp-IsDetector digest read_ip message now _ (Reachable-IsDetector digest read_ip r)
Reachable-IsDetector digest read_ip (supervise gateway r) =
    let i = Reachable-IsDetector digest read_ip r in
    record {
      tracked = record {
        findings = i.tracked.findings;
        known = i.tracked.known;
        bindings = i.tracked.bindings;
        servers = i.tracked.servers;
      };
      known_bounded = i.known_bounded;
      bindings_bounded = i.bindings_bounded;
    }
Reachable-IsDetector digest read_ip (restart now r) =
    start-IsDetector _ now (Reachable-IsDetector digest read_ip r)
