-- ===== src/Netwatch/Alerts.antt =====
-- netwatch.py: what an ARP claim that takes an address reports.
use mathlib.Core.Path.{subst}
use homelab_agent.Prelude.{
  ℕ, ◌≤◌, ◌<◌, ◌-◌, ◌≡◌, refl, ap, ◌∙◌, Bool, true, false, not, ◌&&◌, ◌||◌, Option, some, arith,
  ◌==◌, nat_eq, list_eq, leb, ltb, if◌then◌else◌, Bool-cases, Option-cases, inl, inr,
}
use homelab_agent.Prelude.Text.{Text}
use homelab_agent.Prelude.Dict.{get}
use homelab_agent.Prelude.Keys.{tally}
use homelab_agent.Netwatch.Address.{IpAttributes, interesting_ip, interesting_mac, is_virtual}
use homelab_agent.Netwatch.Detector.{
  Detector, Finding, Findings, Binding, trim_tables, gateway_changed, arp_conflict, warn, bad,
  max_findings, new_finding, idle_binding_seconds,
}
use homelab_agent.Netwatch.Raise.{IsBounded, noted, get-raise, tally-raise_note, is_alert}
use homelab_agent.Netwatch.Invariant.{IsDetector, IsTracked, note_device-IsTracked}
use homelab_agent.Netwatch.Observe.{
  note_device, report_move, note_claim, observe_arp, is_gateway, new_key, new_report, gateway_key,
  gateway_report, conflict_key, conflict_report,
}

module _ (digest : Text → Text) where
  note_device_bindings :
      (ip mac : Text) (now : ℕ) (d : Detector)
      → ((note_device digest ip mac now d).bindings ≡ d.bindings)
        × ((note_device digest ip mac now d).gateway ≡ d.gateway)
  unfolding note_device
  note_device_bindings ip mac now d = elim (Option-cases (get d.known mac)) [
    | inr (device, at) ↦ rw (at, note_device) (refl, refl)
    | inl at ↦ rw (at, note_device) (refl, refl)
  ]

  if-le :
      (b : Bool) (x y : Findings) (n : ℕ)
      → tally is_alert x ≤ n
      → tally is_alert y ≤ n
      → tally is_alert (if b then x else y) ≤ n
  if-le true x y n hx hy = hx
  if-le false x y n hx hy = hy

  -- A card that shows up adds no warning or alert.
  note_device_quiet :
      (ip mac : Text) (now : ℕ) (d : Detector)
      → IsTracked d
      → tally is_alert (note_device digest ip mac now d).findings ≤ tally is_alert d.findings
  unfolding note_device
  note_device_quiet ip mac now d t = elim (Option-cases (get d.known mac)) [
    | inr (device, at) ↦ rw (at, note_device) (omega arith)
    | inl at ↦
        rw (at, note_device)
          (if-le (leb d.learning_until now) _ _ _
            (tally-raise_note (digest (new_key mac)) (new_report ip mac) now d.findings t.findings
              (unfold new_finding in refl))
            (omega arith))
  ]

  -- the key of the alert that a change of owner raises
  abbrev pub alert_key : Option Text → Text → Text → Text
  alert_key gateway ip mac =
      if is_gateway gateway ip then gateway_key ip mac else conflict_key ip mac

  -- the change counts: the address is the gateway's, or its last owner was heard in the last hour
  abbrev pub is_contested : Option Text → Text → ℕ → Bool
  is_contested gateway ip quiet = is_gateway gateway ip || not (ltb idle_binding_seconds quiet)

  -- the alert that another card has taken the address over: grave if the gateway answers there
  abbrev pub takeover : Option Text → Text → Text → Text → ℕ → Finding
  takeover gateway ip mac previous now = record {
    id = digest (alert_key gateway ip mac);
    kind = if is_gateway gateway ip then gateway_changed else arp_conflict;
    severity = if is_gateway gateway ip then bad else warn;
    first_seen = now;
    last = now;
    count = 1;
    ip = ip;
    mac = some mac;
    previous = some previous;
  }

  -- under its id stands the alert, or the finding that stood there before, counted once more
  abbrev pub IsReported : Findings → Findings → Finding → Type 0
  IsReported before after alert = get after alert.id ≡ some (noted (get before alert.id) alert)

  report_move-IsReported :
      (ip mac previous : Text) (quiet now : ℕ) (d : Detector)
      → IsBounded d.findings
      → tally is_alert d.findings < max_findings
      → is_contested d.gateway ip quiet ≡ true
      → IsReported d.findings
          (report_move digest ip mac previous quiet now d)
          (takeover d.gateway ip mac previous now)
  unfolding report_move new_finding
  report_move-IsReported ip mac previous quiet now d b few contested =
      elim (Bool-cases (is_gateway d.gateway ip)) [
        | inl gateway ↦
            rw (gateway, report_move)
              (get-raise (digest (gateway_key ip mac)) (gateway_report ip mac previous) now
                d.findings b few refl)
        | inr other ↦
            let lively : ltb idle_binding_seconds quiet ≡ false = ground arith in
            rw (other, report_move, lively)
              (get-raise (digest (conflict_key ip mac)) (conflict_report ip mac previous) now
                d.findings b few refl)
      ]

  note_claim_moved :
      (ip mac : Text) (now : ℕ) (d : Detector) (held : Binding)
      → get d.bindings ip ≡ some held
      → (held.mac == mac) ≡ false
      → (note_claim digest ip mac now d).findings
        ≡ report_move digest ip mac held.mac (now - held.last) now d
  unfolding note_claim
  note_claim_moved ip mac now d held at other = rw (at, note_claim, other) refl

  note_claim_same :
      (ip mac : Text) (now : ℕ) (d : Detector) (held : Binding)
      → get d.bindings ip ≡ some held
      → (held.mac == mac) ≡ true
      → (note_claim digest ip mac now d).findings ≡ d.findings
  unfolding note_claim
  note_claim_same ip mac now d held at same = rw (at, note_claim, same) refl

  module _ (read_ip : Text → Option IpAttributes) where
    -- a claim that `observe_arp` looks at
    abbrev pub counts : Text → Text → Bool
    counts ip mac = (interesting_ip read_ip ip && interesting_mac mac) && not (is_virtual mac)

    observe_arp_findings :
        (ip mac : Text) (now : ℕ) (d : Detector)
        → counts ip mac ≡ true
        → (observe_arp digest read_ip ip mac now d).findings
          ≡ (note_claim digest ip mac now (note_device digest ip mac now d)).findings
    unfolding observe_arp trim_tables
    observe_arp_findings ip mac now d c = ground arith

    -- When an address that another card held is claimed, and it is the gateway's or its owner was
    -- heard in the last hour, the table then holds, if fewer than MAX_FINDINGS warnings and alerts
    -- stood there: under the claim's key, an alert with both cards, grave and of a changed gateway if
    -- the gateway answers at the address, otherwise a warning of a conflict; or, if a finding stood
    -- there when the card had been noted, that one, counted once more at the time of the claim.
    pub observe_arp-IsReported :
        (ip mac : Text) (now : ℕ) (d : Detector) (held : Binding)
        → IsDetector d
        → tally is_alert d.findings < max_findings
        → counts ip mac ≡ true
        → get d.bindings ip ≡ some held
        → (held.mac == mac) ≡ false
        → is_contested d.gateway ip (now - held.last) ≡ true
        → IsReported
            (note_device digest ip mac now d).findings
            (observe_arp digest read_ip ip mac now d).findings
            (takeover d.gateway ip mac held.mac now)
    observe_arp-IsReported ip mac now d held i few c at other contested =
        let after = note_device digest ip mac now d in
        let kept = note_device_bindings ip mac now d in
        rw (observe_arp_findings ip mac now d c) (
          rw (note_claim_moved ip mac now after held (ap (λ b. get b ip) kept.0 ∙ at) other) (
            subst
              (λ g.
                IsReported after.findings
                  (report_move digest ip mac held.mac (now - held.last) now after)
                  (takeover g ip mac held.mac now))
              kept.1
              (report_move-IsReported ip mac held.mac (now - held.last) now after
                (note_device-IsTracked digest ip mac now d i.tracked).findings
                (omega (arith, few, note_device_quiet ip mac now d i.tracked))
                (rw kept.1 contested))))
