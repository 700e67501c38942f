-- ===== src/CaptureWorker/Balance.antt =====
-- capture_worker.py: the totals of the loop are those of its flows and protocols.
use homelab_agent.Prelude.{
  ℕ, suc, ◌+◌, ◌-◌, ◌≤◌, ◌≡◌, refl, sym, ap, ◌∙◌, inl, inr, Bool, true, false, List, [], ◌∷◌,
  if◌then◌else◌, leb, HasEq, nat_eq, list_eq, ◌==◌, arith, sum_by, length, count_if, Option-cases,
  Bool-cases,
}
use homelab_agent.Prelude.Dict.{Dict, get, set, get-set}
use homelab_agent.Prelude.Keys.{values, sum_by-set, sum_by-set_over}
use homelab_agent.CaptureWorker.Health.{Issue}
use homelab_agent.CaptureWorker.Flows.{
  Packet, flow_key, flow_key_eq, issue_eq, issue_same_iff, Flow, new_flow, count_flow, Proto,
  new_proto, count_proto, bump, bump_all, or_zero, held_or, Loop, start_of, count, list_packet, see,
  tick,
}

-- how often an issue was counted
abbrev pub count_of : Issue → Dict Issue ℕ → ℕ
count_of issue counts = or_zero (get counts issue)

count_of-bump_all :
    (issue : Issue) (counts : Dict Issue ℕ) (issues : List Issue)
    → count_of issue (bump_all counts issues)
      ≡ count_of issue counts + count_if (λ i. i == issue) issues
unfolding bump_all count_if
count_of-bump_all issue counts [] = omega arith
count_of-bump_all issue counts (i ∷ issues) = ground (
  arith,
  count_of-bump_all issue (bump counts i) issues,
  get-set counts i issue (suc (or_zero (get counts i))),
  issue_same_iff i issue,
)

-- A step that adds so much to the entry of a key, or to a fresh one, adds it to the sum over all.
module _ {K V : Type 0} ⦃e : HasEq K⦄ (measure : V → ℕ) (fresh : V) (empty : measure fresh ≡ 0)
    (step : V → V) (share : ℕ) (adds : (v : V) → measure (step v) ≡ measure v + share) where
  sum_by-step :
      (d : Dict K V) (k : K)
      → sum_by measure (values (set d k (step (held_or fresh (get d k)))))
        ≡ sum_by measure (values d) + share
  sum_by-step d k = elim (Option-cases (get d k)) [
    | inl at ↦ rw at (omega (arith, sum_by-set measure d k (step fresh) at, adds fresh, empty))
    | inr (held, at) ↦
        rw at (omega (arith, sum_by-set_over measure d k (step held) held at, adds held))
  ]

-- The counts are sums: the packets, the bytes and each issue add up over the flows, the packets and
-- bytes over the protocols as well, and each packet of a flow went out or came in.
pub record IsCounted (l : Loop) : Type 0 where
  pub flow_pkts : sum_by (λ f. f.pkts) (values l.flows) ≡ l.pkts
  pub flow_bytes : sum_by (λ f. f.bytes) (values l.flows) ≡ l.bytes
  pub proto_pkts : sum_by (λ p. p.pkts) (values l.protos) ≡ l.pkts
  pub proto_bytes : sum_by (λ p. p.bytes) (values l.protos) ≡ l.bytes
  pub both_ways :
      sum_by (λ f. f.out_pkts) (values l.flows) + sum_by (λ f. f.in_pkts) (values l.flows) ≡ l.pkts
  pub issue_totals :
      (issue : Issue)
      → sum_by (λ f. count_of issue f.issues) (values l.flows) ≡ count_of issue l.issue_counts

-- and they are those of the packets seen, with the list's share of them
pub record IsBalanced (max_pps listed : ℕ) (seen : List Packet) (l : Loop) : Type 0 where
  pub counted : IsCounted l
  pub total_pkts : l.pkts ≡ length seen
  pub total_bytes : l.bytes ≡ sum_by (λ p. p.size) seen
  pub is_capped : l.sent_this_second ≤ max_pps
  pub is_listed : listed + l.skipped ≡ l.pkts

-- the sum of a measure over the flows, after one more packet
count-flows :
    (packet : Packet) (l : Loop) (measure : Flow → ℕ) (share : ℕ)
    → measure new_flow ≡ 0
    → ((flow : Flow) → measure (count_flow packet flow) ≡ measure flow + share)
    → sum_by measure (values (count packet l).flows) ≡ sum_by measure (values l.flows) + share
unfolding count
count-flows packet l measure share empty adds =
    sum_by-step measure new_flow empty (count_flow packet) share adds l.flows (flow_key packet)

count-protos :
    (packet : Packet) (l : Loop) (measure : Proto → ℕ) (share : ℕ)
    → measure new_proto ≡ 0
    → ((row : Proto) → measure (count_proto packet row) ≡ measure row + share)
    → sum_by measure (values (count packet l).protos) ≡ sum_by measure (values l.protos) + share
unfolding count
count-protos packet l measure share empty adds =
    sum_by-step measure new_proto empty (count_proto packet) share adds l.protos packet.proto

count_pkts : (packet : Packet) (l : Loop) (n : ℕ) → n ≡ l.pkts → n + 1 ≡ (count packet l).pkts
unfolding count
count_pkts packet l n h = omega arith

count_bytes :
    (packet : Packet) (l : Loop) (n : ℕ) → n ≡ l.bytes → n + packet.size ≡ (count packet l).bytes
unfolding count
count_bytes packet l n h = omega arith

count-IsCounted : (packet : Packet) (l : Loop) → IsCounted l → IsCounted (count packet l)
unfolding count_flow count get
count-IsCounted packet l b = record {
  flow_pkts =
      count-flows packet l (λ f. f.pkts) 1 refl (λ f. omega arith)
      ∙ count_pkts packet l _ b.flow_pkts;
  flow_bytes =
      count-flows packet l (λ f. f.bytes) packet.size refl (λ f. refl)
      ∙ count_bytes packet l _ b.flow_bytes;
  proto_pkts =
      count-protos packet l (λ p. p.pkts) 1 refl (λ p. omega arith)
      ∙ count_pkts packet l _ b.proto_pkts;
  proto_bytes =
      count-protos packet l (λ p. p.bytes) packet.size refl (λ p. refl)
      ∙ count_bytes packet l _ b.proto_bytes;
  both_ways = ground (
    arith,
    count-flows packet l (λ f. f.out_pkts) (if packet.is_out then 1 else 0) refl (λ f. refl),
    count-flows packet l (λ f. f.in_pkts) (if packet.is_out then 0 else 1) refl (λ f. refl),
    count_pkts packet l l.pkts refl,
    b.both_ways,
  );
  issue_totals = λ issue.
      count-flows packet l (λ f. count_of issue f.issues) (count_if (λ i. i == issue) packet.issues)
        refl (λ f. count_of-bump_all issue f.issues packet.issues)
      ∙ ap (λ n. n + count_if (λ i. i == issue) packet.issues) (b.issue_totals issue)
      ∙ sym (count_of-bump_all issue l.issue_counts packet.issues);
}

-- counts do not depend on the list
unlisted-IsCounted :
    (l : Loop) (skipped sent second : ℕ)
    → IsCounted l
    → IsCounted (record l { skipped = skipped; sent_this_second = sent; second_start = second })
unlisted-IsCounted l skipped sent second c = record {
  flow_pkts = c.flow_pkts;
  flow_bytes = c.flow_bytes;
  proto_pkts = c.proto_pkts;
  proto_bytes = c.proto_bytes;
  both_ways = c.both_ways;
  issue_totals = c.issue_totals;
}

list_packet-IsCounted :
    (max_pps mono : ℕ) (l : Loop) → IsCounted l → IsCounted (list_packet max_pps mono l).0
unfolding list_packet
list_packet-IsCounted max_pps mono l c = elim (Bool-cases (leb 1000 (mono - l.second_start))) [
  | inl renewed ↦ rw renewed (elim (Bool-cases (leb max_pps 0)) [
    | inl full ↦ rw full (unlisted-IsCounted l (suc l.skipped) 0 mono c)
    | inr room ↦ rw room (unlisted-IsCounted l l.skipped 1 mono c)
  ])
  | inr running ↦ rw running (elim (Bool-cases (leb max_pps l.sent_this_second)) [
    | inl full ↦ rw full (unlisted-IsCounted l (suc l.skipped) l.sent_this_second l.second_start c)
    | inr room ↦ rw room (unlisted-IsCounted l l.skipped (suc l.sent_this_second) l.second_start c)
  ])
]

list_packet-pkts :
    (max_pps mono : ℕ) (l : Loop)
    → ((list_packet max_pps mono l).0.pkts ≡ l.pkts)
      × ((list_packet max_pps mono l).0.bytes ≡ l.bytes)
unfolding list_packet
list_packet-pkts max_pps mono l = (ground arith, ground arith)

-- how many packets of one are listed
abbrev pub listed_by : Bool → ℕ
listed_by true = 1
listed_by false = 0

list_packet-sent :
    (max_pps mono : ℕ) (l : Loop)
    → l.sent_this_second ≤ max_pps
    → ((list_packet max_pps mono l).0.sent_this_second ≤ max_pps)
      × ((list_packet max_pps mono l).0.skipped + listed_by (list_packet max_pps mono l).1
          ≡ suc l.skipped)
unfolding list_packet
list_packet-sent max_pps mono l h = (ground arith, ground arith)

see-IsBalanced :
    (max_pps mono listed : ℕ) (seen : List Packet) (packet : Packet) (l : Loop)
    → IsBalanced max_pps listed seen l
    → IsBalanced max_pps
        (listed + listed_by (see max_pps mono packet l).1)
        (packet ∷ seen)
        (see max_pps mono packet l).0
unfolding see count sum_by
see-IsBalanced max_pps mono listed seen packet l b =
    let (capped, shared) = list_packet-sent max_pps mono (count packet l) b.is_capped in
    let (pkts, bytes) = list_packet-pkts max_pps mono (count packet l) in
    record {
      counted =
          list_packet-IsCounted max_pps mono (count packet l) (count-IsCounted packet l b.counted);
      total_pkts = omega (arith, pkts, b.total_pkts);
      total_bytes = omega (arith, bytes, b.total_bytes);
      is_capped = capped;
      is_listed = omega (arith, shared, pkts, b.is_listed);
    }

nothing-IsCounted :
    (second sent : ℕ) → IsCounted (record (start_of second) { sent_this_second = sent })
unfolding get sum_by values
nothing-IsCounted second sent = record {
  flow_pkts = refl;
  flow_bytes = refl;
  proto_pkts = refl;
  proto_bytes = refl;
  both_ways = refl;
  issue_totals = λ issue. refl;
}

-- the loop's state, with the packets since the last tick and how many of them have been listed
pub data Reachable (max_pps : ℕ) : List Packet → Loop → ℕ → Type 0 where
  started : (mono : ℕ) → Reachable max_pps [] (start_of mono) 0
  packet_seen :
      (mono listed : ℕ) (seen : List Packet) (packet : Packet) (l : Loop)
      → Reachable max_pps seen l listed
      → Reachable max_pps
          (packet ∷ seen)
          (see max_pps mono packet l).0
          (listed + listed_by (see max_pps mono packet l).1)
  ticked :
      (listed : ℕ) (seen : List Packet) (l : Loop)
      → Reachable max_pps seen l listed
      → Reachable max_pps [] (tick l).1 0

pub Reachable-IsBalanced :
    (max_pps listed : ℕ) (seen : List Packet) (l : Loop)
    → Reachable max_pps seen l listed
    → IsBalanced max_pps listed seen l
unfolding tick sum_by
Reachable-IsBalanced max_pps listed seen l (started mono) = record {
  counted = nothing-IsCounted mono 0;
  total_pkts = refl;
  total_bytes = refl;
  is_capped = omega arith;
  is_listed = refl;
}
Reachable-IsBalanced max_pps listed seen l (packet_seen mono before others packet old r) =
    see-IsBalanced max_pps mono before others packet old
      (Reachable-IsBalanced max_pps before others old r)
Reachable-IsBalanced max_pps listed seen l (ticked before others old r) = record {
  counted = nothing-IsCounted old.second_start old.sent_this_second;
  total_pkts = refl;
  total_bytes = refl;
  is_capped = (Reachable-IsBalanced max_pps before others old r).is_capped;
  is_listed = refl;
}
