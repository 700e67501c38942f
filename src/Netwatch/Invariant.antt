-- ===== src/Netwatch/Invariant.antt =====
-- netwatch.py: what holds of a `Detector` between two packets.
use homelab_agent.Prelude.{
  ℕ, ◌≤◌, Bool, true, false, ◌&&◌, Option, [], ◌∷◌, arith, length, ◌==◌, nat_eq, list_eq, leb, ltb,
  if◌then◌else◌, Bool-cases, Option-cases, inl, inr,
}
use homelab_agent.Prelude.Text.{Text}
use homelab_agent.Prelude.Dict.{Dict, get}
use homelab_agent.Prelude.Keys.{UniqueKeys, UniqueKeys-set}
use homelab_agent.Netwatch.Address.{IpAttributes, interesting_ip, interesting_mac, is_virtual}
use homelab_agent.Netwatch.Detector.{
  Detector, Findings, Server, trim_tables, binding_stamp, device_stamp, max_known,
  idle_binding_seconds,
}
use homelab_agent.Netwatch.Raise.{IsBounded, raise-IsBounded}
use homelab_agent.Netwatch.Tables.{trim-UniqueKeys, length-trim}
use homelab_agent.Netwatch.Observe.{
  note_device, report_move, note_claim, observe_arp, note_server, observe_dhcp, reported, Reply,
  answers, first_true, is_gateway,
}

-- while a packet is looked at
pub record IsTracked (d : Detector) : Type 0 where
  pub findings : IsBounded d.findings
  pub known : UniqueKeys d.known
  pub bindings : UniqueKeys d.bindings
  pub servers : UniqueKeys d.servers

-- between two packets
pub record IsDetector (d : Detector) : Type 0 where
  pub tracked : IsTracked d
  pub known_bounded : length d.known ≤ max_known
  pub bindings_bounded : length d.bindings ≤ max_known

trim_tables-IsDetector : (d : Detector) → IsTracked d → IsDetector (trim_tables d)
unfolding trim_tables
trim_tables-IsDetector d t = record {
  tracked = record {
    findings = t.findings;
    known = trim-UniqueKeys (device_stamp d.known) d.known t.known;
    bindings = trim-UniqueKeys (binding_stamp d.bindings) d.bindings t.bindings;
    servers = t.servers;
  };
  known_bounded = ground (arith, length-trim (device_stamp d.known) d.known t.known);
  bindings_bounded = ground (arith, length-trim (binding_stamp d.bindings) d.bindings t.bindings);
}

if-IsBounded :
    (b : Bool) (x y : Findings) → IsBounded x → IsBounded y → IsBounded (if b then x else y)
if-IsBounded true x y hx hy = hx
if-IsBounded false x y hx hy = hy

module _ (digest : Text → Text) where
  pub note_device-IsTracked :
      (ip mac : Text) (now : ℕ) (d : Detector)
      → IsTracked d
      → IsTracked (note_device digest ip mac now d)
  unfolding note_device
  note_device-IsTracked ip mac now d t = elim (Option-cases (get d.known mac)) [
    | inr (device, at) ↦
        rw (at, note_device)
          (record {
            findings = t.findings;
            known = UniqueKeys-set d.known mac _ t.known;
            bindings = t.bindings;
            servers = t.servers;
          })
    | inl at ↦
        rw (at, note_device)
          (record {
            findings =
                if-IsBounded (leb d.learning_until now) _ _
                  (raise-IsBounded _ _ now d.findings t.findings) t.findings;
            known = UniqueKeys-set d.known mac _ t.known;
            bindings = t.bindings;
            servers = t.servers;
          })
  ]

  report_move-IsBounded :
      (ip mac previous : Text) (quiet now : ℕ) (d : Detector)
      → IsBounded d.findings
      → IsBounded (report_move digest ip mac previous quiet now d)
  unfolding report_move
  report_move-IsBounded ip mac previous quiet now d b =
      if-IsBounded (is_gateway d.gateway ip) _ _ (raise-IsBounded _ _ now d.findings b) (
        if-IsBounded (ltb idle_binding_seconds quiet) _ _ (raise-IsBounded _ _ now d.findings b)
          (raise-IsBounded _ _ now d.findings b))

  note_claim-IsTracked :
      (ip mac : Text) (now : ℕ) (d : Detector)
      → IsTracked d
      → IsTracked (note_claim digest ip mac now d)
  unfolding note_claim
  note_claim-IsTracked ip mac now d t = elim (Option-cases (get d.bindings ip)) [
    | inl at ↦
        rw (at, note_claim)
          (record {
            findings = t.findings;
            known = t.known;
            bindings = UniqueKeys-set d.bindings ip _ t.bindings;
            servers = t.servers;
          })
    | inr (held, at) ↦ elim (Bool-cases (held.mac == mac)) [
      | inl same ↦
          rw (at, note_claim, same)
            (record {
              findings = t.findings;
              known = t.known;
              bindings = UniqueKeys-set d.bindings ip _ t.bindings;
              servers = t.servers;
            })
      | inr other ↦
          rw (at, note_claim, other)
            (record {
              findings = report_move-IsBounded ip mac held.mac _ now d t.findings;
              known = t.known;
              bindings = UniqueKeys-set d.bindings ip _ t.bindings;
              servers = t.servers;
            })
    ]
  ]

  module _ (read_ip : Text → Option IpAttributes) where
    -- After any ARP packet the tables have distinct keys, every finding stands under its own id,
    -- and no table but that of the servers exceeds its bound.
    pub observe_arp-IsDetector :
        (ip mac : Text) (now : ℕ) (d : Detector)
        → IsDetector d
        → IsDetector (observe_arp digest read_ip ip mac now d)
    unfolding observe_arp
    observe_arp-IsDetector ip mac now d i =
        elim (Bool-cases (interesting_ip read_ip ip && interesting_mac mac)) [
          | inr dull ↦ rw (dull, observe_arp) i
          | inl good ↦ elim (Bool-cases (is_virtual mac)) [
            | inl shared ↦ rw (good, observe_arp, shared) i
            | inr own ↦
                rw (good, observe_arp, own)
                  (trim_tables-IsDetector _ (
                    note_claim-IsTracked ip mac now _
                      (note_device-IsTracked ip mac now d i.tracked)))
          ]
        ]

    reported-IsBounded :
        (servers : Dict Text Server) (server : Text) (mac : Option Text) (now : ℕ) (fs : Findings)
        → IsBounded fs
        → IsBounded (reported digest read_ip servers server mac now fs)
    reported-IsBounded [] server mac now fs b = b
    reported-IsBounded (_ ∷ _) server mac now fs b = raise-IsBounded _ _ now fs b

    note_server-IsDetector :
        (server : Text) (mac : Option Text) (now : ℕ) (d : Detector)
        → IsDetector d
        → IsDetector (note_server digest read_ip server mac now d)
    unfolding note_server
    note_server-IsDetector server mac now d i = elim (Option-cases (get d.servers server)) [
      | inr (seen, at) ↦
          rw (at, note_server)
            (record {
              tracked = record {
                findings = i.tracked.findings;
                known = i.tracked.known;
                bindings = i.tracked.bindings;
                servers = UniqueKeys-set d.servers server _ i.tracked.servers;
              };
              known_bounded = i.known_bounded;
              bindings_bounded = i.bindings_bounded;
            })
      | inl at ↦
          rw (at, note_server)
            (record {
              tracked = record {
                findings =
                    reported-IsBounded d.servers server mac now d.findings i.tracked.findings;
                known = i.tracked.known;
                bindings = i.tracked.bindings;
                servers = UniqueKeys-set d.servers server _ i.tracked.servers;
              };
              known_bounded = i.known_bounded;
              bindings_bounded = i.bindings_bounded;
            })
    ]

    -- The same holds after any DHCP message.
    pub observe_dhcp-IsDetector :
        (message : Reply) (now : ℕ) (d : Detector)
        → IsDetector d
        → IsDetector (observe_dhcp digest read_ip message now d)
    unfolding observe_dhcp
    observe_dhcp-IsDetector message now d i = elim (Bool-cases (answers message.type)) [
      | inr other ↦ rw (other, observe_dhcp) i
      | inl reply ↦ elim (Option-cases (first_true message.server message.src)) [
        | inl absent ↦ rw (reply, observe_dhcp, absent) i
        | inr (server, present) ↦ elim (Bool-cases (interesting_ip read_ip server)) [
          | inr dull ↦ rw (reply, observe_dhcp, present, dull) i
          | inl good ↦
              rw (reply, observe_dhcp, present, good)
                (note_server-IsDetector server message.eth now d i)
        ]
      ]
    ]
