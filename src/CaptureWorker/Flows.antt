-- ===== src/CaptureWorker/Flows.antt =====
-- capture_worker.py: `flow_key`, `service`, and how the loop of `run` counts one packet and ends a tick.
use homelab_agent.Prelude.{
  ℕ, suc, ◌+◌, ◌-◌, ◌≡◌, ◌↔◌, Bool, true, false, not, ◌&&◌, ◌||◌, Option, none, some, List, [], ◌∷◌,
  if◌then◌else◌, ltb, leb, eqb, take, HasEq, ◌==◌, nat_eq, list_eq, list_beq_iff, arith,
}
use homelab_agent.Prelude.Text.{Text, text, text_le}
use homelab_agent.Prelude.Dict.{Dict, get, set}
use homelab_agent.Prelude.Sort.{sort}
use homelab_agent.CaptureWorker.Health.{Issue, retransmit, gap, dup_ack, zero_window, reset}

-- what the loop reads of a decoded packet, with the issues that were found and its size on the wire
pub record Packet : Type 0 where
  pub proto : Text
  pub src : Text
  pub sport : Option ℕ
  pub dst : Text
  pub dport : Option ℕ
  pub app : Option Text
  pub name : Option Text
  pub size : ℕ
  pub is_out : Bool
  pub issues : List Issue

-- the other direction
abbrev pub reversed : Packet → Packet
reversed p = record p { src = p.dst; sport = p.dport; dst = p.src; dport = p.sport }

abbrev pub or_zero : Option ℕ → ℕ
or_zero none = 0
or_zero (some n) = n

pub record FlowKey : Type 0 where
  pub proto : Text
  pub low : Text
  pub low_port : ℕ
  pub high : Text
  pub high_port : ℕ

-- (str(a), p) < (str(b), q)
abbrev pub is_before : Text → ℕ → Text → ℕ → Bool
is_before a p b q = not (text_le b a) || a == b && ltb p q

unfoldable pub flow_key : Packet → FlowKey
flow_key packet =
    if is_before packet.dst (or_zero packet.dport) packet.src (or_zero packet.sport)
    then record {
      proto = packet.proto;
      low = packet.dst;
      low_port = or_zero packet.dport;
      high = packet.src;
      high_port = or_zero packet.sport;
    }
    else record {
      proto = packet.proto;
      low = packet.src;
      low_port = or_zero packet.sport;
      high = packet.dst;
      high_port = or_zero packet.dport;
    }

-- SERVICES
abbrev pub services : Dict ℕ Text
services =
    (22, text "ssh")
    ∷ (53, text "dns")
    ∷ (67, text "dhcp")
    ∷ (68, text "dhcp")
    ∷ (80, text "http")
    ∷ (123, text "ntp")
    ∷ (137, text "netbios")
    ∷ (138, text "netbios")
    ∷ (443, text "https")
    ∷ (445, text "smb")
    ∷ (1900, text "ssdp")
    ∷ (3000, text "http")
    ∷ (5353, text "mdns")
    ∷ (8080, text "http")
    ∷ (8096, text "jellyfin")
    ∷ (8123, text "agent")
    ∷ (32400, text "plex")
    ∷ (41641, text "tailscale")
    ∷ []

abbrev pub named_port : Option ℕ → Option Text
named_port none = none
named_port (some port) = get services port

unfoldable pub service : Packet → Option Text
service packet = elim (named_port packet.dport) [
  | some name ↦ some name
  | none ↦ elim (named_port packet.sport) [ some name ↦ some name | none ↦ packet.app ]
]

unfoldable pub flow_key_same : FlowKey → FlowKey → Bool
flow_key_same a b =
    a.proto == b.proto
    && a.low == b.low
    && eqb a.low_port b.low_port
    && a.high == b.high
    && eqb a.high_port b.high_port

pub flow_key_same_iff : (a b : FlowKey) → (flow_key_same a b ≡ true) ↔ (a ≡ b)
unfolding flow_key_same
flow_key_same_iff a b =
    ground
      (arith, list_beq_iff a.proto b.proto, list_beq_iff a.low b.low, list_beq_iff a.high b.high)

instance abbrev pub flow_key_eq : HasEq FlowKey
flow_key_eq = record { same = flow_key_same; same_iff = flow_key_same_iff }

unfoldable pub issue_same : Issue → Issue → Bool
issue_same retransmit retransmit = true
issue_same gap gap = true
issue_same dup_ack dup_ack = true
issue_same zero_window zero_window = true
issue_same reset reset = true
issue_same _ _ = false

pub issue_same_iff : (i j : Issue) → (issue_same i j ≡ true) ↔ (i ≡ j)
unfolding issue_same
issue_same_iff i j = ground arith

instance abbrev pub issue_eq : HasEq Issue
issue_eq = record { same = issue_same; same_iff = issue_same_iff }

pub record Flow : Type 0 where
  pub pkts : ℕ
  pub bytes : ℕ
  pub out_pkts : ℕ
  pub in_pkts : ℕ
  pub name : Option Text
  pub issues : Dict Issue ℕ

abbrev pub new_flow : Flow
new_flow = record { pkts = 0; bytes = 0; out_pkts = 0; in_pkts = 0; name = none; issues = [] }

-- d[issue] = d.get(issue, 0) + 1
abbrev pub bump : Dict Issue ℕ → Issue → Dict Issue ℕ
bump counts issue = set counts issue (suc (or_zero (get counts issue)))

unfoldable pub bump_all : Dict Issue ℕ → List Issue → Dict Issue ℕ
bump_all counts [] = counts
bump_all counts (issue ∷ issues) = bump_all (bump counts issue) issues

abbrev pub or_name : Option Text → Option Text → Option Text
or_name (some name) held = some name
or_name none held = held

unfoldable pub count_flow : Packet → Flow → Flow
count_flow packet flow = record {
  pkts = suc flow.pkts;
  bytes = flow.bytes + packet.size;
  out_pkts = flow.out_pkts + (if packet.is_out then 1 else 0);
  in_pkts = flow.in_pkts + (if packet.is_out then 0 else 1);
  name = or_name packet.name flow.name;
  issues = bump_all flow.issues packet.issues;
}

pub record Proto : Type 0 where
  pub pkts : ℕ
  pub bytes : ℕ

abbrev pub new_proto : Proto
new_proto = record { pkts = 0; bytes = 0 }

abbrev pub count_proto : Packet → Proto → Proto
count_proto packet row = record { pkts = suc row.pkts; bytes = row.bytes + packet.size }

abbrev pub held_or {ℓ} : {A : Type ℓ} → A → Option A → A
held_or fresh none = fresh
held_or fresh (some held) = held

-- what `run` keeps between two packets
pub record Loop : Type 0 where
  pub pkts : ℕ
  pub bytes : ℕ
  pub protos : Dict Text Proto
  pub flows : Dict FlowKey Flow
  pub issue_counts : Dict Issue ℕ
  pub skipped : ℕ
  pub sent_this_second : ℕ
  pub second_start : ℕ

abbrev pub start_of : ℕ → Loop
start_of mono = record {
  pkts = 0;
  bytes = 0;
  protos = [];
  flows = [];
  issue_counts = [];
  skipped = 0;
  sent_this_second = 0;
  second_start = mono;
}

-- the totals, the protocols, the flows and the issues
unfoldable pub count : Packet → Loop → Loop
unfolding flow_key count_flow
count packet l = record l {
  pkts = suc l.pkts;
  bytes = l.bytes + packet.size;
  protos =
      set l.protos packet.proto
        (count_proto packet (held_or new_proto (get l.protos packet.proto)));
  flows =
      set l.flows (flow_key packet)
        (count_flow packet (held_or new_flow (get l.flows (flow_key packet))));
  issue_counts = bump_all l.issue_counts packet.issues;
}

-- the list of packets, of which at most so many are sent each second; times are milliseconds
unfoldable pub list_packet : ℕ → ℕ → Loop → Loop × Bool
list_packet max_pps mono l =
    let renewed =
      if leb 1000 (mono - l.second_start)
      then record l { second_start = mono; sent_this_second = 0 }
      else l in
    if leb max_pps renewed.sent_this_second
    then (record renewed { skipped = suc renewed.skipped }, false)
    else (record renewed { sent_this_second = suc renewed.sent_this_second }, true)

-- one packet that matches: the state after it, and whether it is listed
unfoldable pub see : ℕ → ℕ → Packet → Loop → Loop × Bool
unfolding count list_packet
see max_pps mono packet l = list_packet max_pps mono (count packet l)

abbrev pub max_flows : ℕ
max_flows = 150

pub record Tick : Type 0 where
  pub pkts : ℕ
  pub bytes : ℕ
  pub protos : Dict Text Proto
  pub skipped : ℕ
  pub issues : Dict Issue ℕ
  pub flows : List (FlowKey × Flow)

-- `sorted(…, key=lambda kv: kv[1][1], reverse=True)`
abbrev pub is_heavier : FlowKey × Flow → FlowKey × Flow → Bool
is_heavier (k, f) (j, g) = leb g.bytes f.bytes

-- the line of a second, and the state for the next
unfoldable pub tick : Loop → Tick × Loop
tick l = (
  record {
    pkts = l.pkts;
    bytes = l.bytes;
    protos = l.protos;
    skipped = l.skipped;
    issues = l.issue_counts;
    flows = take max_flows (sort is_heavier l.flows);
  },
  record l { pkts = 0; bytes = 0; protos = []; flows = []; issue_counts = []; skipped = 0 },
)
