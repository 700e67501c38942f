-- ===== src/CaptureWorker/Directions.antt =====
-- capture_worker.py: both directions of a conversation share a key.
use homelab_agent.Prelude.{
  ℕ, ◌≡◌, refl, ap, ◌∙◌, inl, inr, true, false, ◌==◌, nat_eq, list_eq, arith, Bool-cases,
  ==-eq_of_true, ==_sym, ==_refl,
}
use homelab_agent.Prelude.Text.{Text}
use homelab_agent.Prelude.TextOrder.{text_le_total, text_le_antisym}
use homelab_agent.CaptureWorker.Flows.{Packet, reversed, or_zero, is_before, flow_key, FlowKey}

is_before_asym :
    (a : Text) (p : ℕ) (b : Text) (q : ℕ) → is_before a p b q ≡ true → is_before b q a p ≡ false
is_before_asym a p b q h =
    ground
      (arith, text_le_total a b, text_le_total b a, ==-eq_of_true a b, ==-eq_of_true b a, ==_refl a)

is_before_neither :
    (a : Text) (p : ℕ) (b : Text) (q : ℕ)
    → is_before a p b q ≡ false
    → is_before b q a p ≡ false
    → (a ≡ b) × (p ≡ q)
is_before_neither a p b q h k =
    let same : a ≡ b = text_le_antisym a b (ground arith) (ground arith) in
    let hit : (a == b) ≡ true = ap (λ x. x == b) same ∙ ==_refl b in
    let back : (b == a) ≡ true = ==_sym b a ∙ hit in (same, ground arith)

abbrev ends : Text → Text → ℕ → Text → ℕ → FlowKey
ends proto a p b q = record { proto = proto; low = a; low_port = p; high = b; high_port = q }

ends_same :
    (proto a : Text) (p : ℕ) (b : Text) (q : ℕ)
    → a ≡ b
    → p ≡ q
    → ends proto b q a p ≡ ends proto a p b q
ends_same proto a p b q same ports = rw (same, ports) refl

-- The key of a packet is that of one the other way, so both directions are one flow.
pub flow_key-reversed : (packet : Packet) → flow_key (reversed packet) ≡ flow_key packet
unfolding flow_key
flow_key-reversed packet =
    elim (Bool-cases
      (is_before packet.dst (or_zero packet.dport) packet.src (or_zero packet.sport))) [
        | inl swap ↦
            rw
              (
                swap,
                is_before_asym packet.dst (or_zero packet.dport) packet.src (or_zero packet.sport)
                    swap,
              )
              refl
        | inr keep ↦
            elim (Bool-cases
              (is_before packet.src (or_zero packet.sport) packet.dst (or_zero packet.dport))) [
                | inl back ↦ rw (keep, back) refl
                | inr neither ↦
                    let (same, ports) =
                      is_before_neither packet.src (or_zero packet.sport) packet.dst
                        (or_zero packet.dport) neither keep in
                    rw (keep, neither)
                      (ends_same packet.proto packet.src (or_zero packet.sport) packet.dst
                        (or_zero packet.dport) same ports)
              ]
      ]
