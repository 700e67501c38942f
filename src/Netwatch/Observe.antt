-- ===== src/Netwatch/Observe.antt =====
-- netwatch.py: what `Detector` does on an ARP claim and on a DHCP reply, and what it reports.
-- `read_ip` is Python's `ipaddress`, `digest` the hash of `_raise`.
use homelab_agent.Prelude.{
  ℕ, ◌-◌, Bool, true, false, not, ◌&&◌, Option, none, some, List, [], ◌∷◌, ◌++◌, take, keep_if,
  ◌==◌, nat_eq, list_eq, contains, leb, ltb, if◌then◌else◌,
}
use homelab_agent.Prelude.Text.{Text, text}
use homelab_agent.Prelude.Dict.{Dict, get, set}
use homelab_agent.Prelude.Keys.{values}
use homelab_agent.Prelude.Sort.{sort}
use homelab_agent.Netwatch.Address.{IpAttributes, interesting_ip, interesting_mac, is_virtual}
use homelab_agent.Netwatch.Detector.{
  Detector, Finding, Findings, Server, Report, new_device, gateway_changed, address_reassigned,
  arp_conflict, second_dhcp_server, info, warn, bad, raise, trim_tables, is_info, active_seconds,
  idle_binding_seconds,
}

-- the keys of `_raise`
abbrev pub new_key : Text → Text
new_key mac = text "new:" ++ mac

abbrev pub gateway_key : Text → Text → Text
gateway_key ip mac = text "gw:" ++ (ip ++ (text ":" ++ mac))

abbrev pub moved_key : Text → Text → Text
moved_key ip mac = text "moved:" ++ (ip ++ (text ":" ++ mac))

abbrev pub conflict_key : Text → Text → Text
conflict_key ip mac = text "conflict:" ++ (ip ++ (text ":" ++ mac))

abbrev pub dhcp_key : Text → Text
dhcp_key server = text "dhcp:" ++ server

abbrev pub new_report : Text → Text → Report
new_report ip mac = record {
  kind = new_device;
  severity = info;
  ip = ip;
  mac = some mac;
  previous = none;
}

abbrev pub gateway_report : Text → Text → Text → Report
gateway_report ip mac previous = record {
  kind = gateway_changed;
  severity = bad;
  ip = ip;
  mac = some mac;
  previous = some previous;
}

abbrev pub moved_report : Text → Text → Text → Report
moved_report ip mac previous = record {
  kind = address_reassigned;
  severity = info;
  ip = ip;
  mac = some mac;
  previous = some previous;
}

abbrev pub conflict_report : Text → Text → Text → Report
conflict_report ip mac previous = record {
  kind = arp_conflict;
  severity = warn;
  ip = ip;
  mac = some mac;
  previous = some previous;
}

abbrev pub dhcp_report : Text → Option Text → Report
dhcp_report server mac = record {
  kind = second_dhcp_server;
  severity = warn;
  ip = server;
  mac = mac;
  previous = none;
}

-- a DHCP message, the parts in use
pub record Reply : Type 0 where
  pub type : Option Text
  pub server : Option Text
  pub src : Option Text
  pub eth : Option Text

-- `a or b`, where None and the empty text are false
abbrev pub first_true : Option Text → Option Text → Option Text
first_true (some (c ∷ s)) b = some (c ∷ s)
first_true _ b = b

-- `message.get("type") in ("Offer", "ACK", "NAK")`
abbrev pub answers : Option Text → Bool
answers none = false
answers (some t) = contains (text "Offer" ∷ text "ACK" ∷ text "NAK" ∷ []) t

-- `ip == self.gateway`
abbrev pub is_gateway : Option Text → Text → Bool
is_gateway none ip = false
is_gateway (some g) ip = ip == g

module _ (digest : Text → Text) where
  -- `if mac not in self.known: … else: …`
  unfoldable pub note_device : Text → Text → ℕ → Detector → Detector
  note_device ip mac now d = elim (get d.known mac) [
    | some device ↦ record d { known = set d.known mac (record device { ip = ip }) }
    | none ↦ record d {
      known = set d.known mac (record { first = now; ip = ip });
      dirty = true;
      findings =
          if leb d.learning_until now
          then raise (digest (new_key mac)) (new_report ip mac) now d.findings
          else d.findings;
    }
  ]

  -- the `if ip == self.gateway: … elif … else: …`, after the address went to another MAC
  unfoldable pub report_move : Text → Text → Text → ℕ → ℕ → Detector → Findings
  report_move ip mac previous quiet now d =
      if is_gateway d.gateway ip
      then raise (digest (gateway_key ip mac)) (gateway_report ip mac previous) now d.findings
      else if ltb idle_binding_seconds quiet
      then raise (digest (moved_key ip mac)) (moved_report ip mac previous) now d.findings
      else raise (digest (conflict_key ip mac)) (conflict_report ip mac previous) now d.findings

  -- `held = self.bindings.get(ip)` and what follows it
  unfoldable pub note_claim : Text → Text → ℕ → Detector → Detector
  note_claim ip mac now d = elim (get d.bindings ip) [
    | none ↦ record d {
      bindings = set d.bindings ip (record { mac = mac; first = now; last = now });
      dirty = true;
    }
    | some held ↦
        if held.mac == mac
        then record d { bindings = set d.bindings ip (record held { last = now }) }
        else record d {
          bindings = set d.bindings ip (record { mac = mac; first = now; last = now });
          dirty = true;
          findings = report_move ip mac held.mac (now - held.last) now d;
        }
  ]

  module _ (read_ip : Text → Option IpAttributes) where
    unfoldable pub observe_arp : Text → Text → ℕ → Detector → Detector
    observe_arp ip mac now d =
        if not (interesting_ip read_ip ip && interesting_mac mac)
        then d
        else if is_virtual mac
        then d
        else trim_tables (note_claim ip mac now (note_device ip mac now d))

    abbrev pub fresh_mac : Option Text → Option Text → Option Text
    fresh_mac none old = old
    fresh_mac (some mac) old = if interesting_mac mac then some mac else old

    abbrev pub reported : Dict Text Server → Text → Option Text → ℕ → Findings → Findings
    reported [] server mac now fs = fs
    reported (_ ∷ _) server mac now fs =
        raise (digest (dhcp_key server)) (dhcp_report server mac) now fs

    -- a reply of the server at an address that counts
    unfoldable pub note_server : Text → Option Text → ℕ → Detector → Detector
    note_server server mac now d = elim (get d.servers server) [
      | some seen ↦ record d {
        servers = set d.servers server (record seen { last = now; mac = fresh_mac mac seen.mac });
      }
      | none ↦ record d {
        servers = set d.servers server (record { mac = mac; first = now; last = now });
        dirty = true;
        findings = reported d.servers server mac now d.findings;
      }
    ]

    unfoldable pub observe_dhcp : Reply → ℕ → Detector → Detector
    observe_dhcp message now d =
        if answers message.type
        then (elim (first_true message.server message.src) [
          | none ↦ d
          | some server ↦
              if interesting_ip read_ip server then note_server server message.eth now d else d
        ])
        else d

-- `sorted(…, key=last, reverse=True)`
abbrev pub newer : Finding → Finding → Bool
newer f g = leb g.last f.last

unfoldable pub active : ℕ → Findings → List Finding
active now fs =
    keep_if (λ f. not (is_info f) && leb (now - f.last) active_seconds) (sort newer (values fs))

unfoldable pub recent : ℕ → Findings → List Finding
recent limit fs = take limit (sort newer (values fs))
