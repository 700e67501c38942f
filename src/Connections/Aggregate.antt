-- ===== src/Connections/Aggregate.antt =====
-- connections.py: `aggregate`, which collapses flows onto the conversations they belong to. A set of
-- states is a list without repetitions.
use homelab_agent.Prelude.{
  ℕ, ◌+◌, ◌≡◌, ◌↔◌, Bool, true, ◌&&◌, ◌||◌, Option, none, some, List, [], ◌∷◌, ◌++◌, arith, length,
  take, any, HasEq, ◌==◌, nat_eq, list_eq, option_eq, list_beq_iff, option_beq_iff, contains, eqb,
  leb, ltb, is_some, if◌then◌else◌,
}
use homelab_agent.Prelude.Text.{text_le, Text}
use homelab_agent.Prelude.Dict.{Dict, get, set}
use homelab_agent.Prelude.Keys.{values}
use homelab_agent.Prelude.Sort.{sort}
use homelab_agent.Connections.Flow.{
  Flow, Index, Direction, incoming, outgoing, Attribution, attribute, empty_attribution,
}

-- `(flow["proto"], orig["src"], orig["dst"], orig["dport"])`
pub record FlowKey : Type 0 where
  pub proto : Text
  pub src : Text
  pub dst : Text
  pub dport : Option ℕ

abbrev pub flow_key_same : FlowKey → FlowKey → Bool
flow_key_same a b = a.proto == b.proto && a.src == b.src && a.dst == b.dst && a.dport == b.dport

pub flow_key_same_iff : (a b : FlowKey) → (flow_key_same a b ≡ true) ↔ (a ≡ b)
flow_key_same_iff a b = ground (
  arith,
  list_beq_iff a.proto b.proto,
  list_beq_iff a.src b.src,
  list_beq_iff a.dst b.dst,
  option_beq_iff a.dport b.dport,
)

instance abbrev pub flow_key_eq : HasEq FlowKey
flow_key_eq = record { same = flow_key_same; same_iff = flow_key_same_iff }

abbrev pub key_of : Flow → FlowKey
key_of flow = record {
  proto = flow.proto;
  src = flow.orig.src;
  dst = flow.orig.dst;
  dport = flow.orig.dport;
}

pub record Row : Type 0 where
  pub proto : Text
  pub family : Text
  pub src : Text
  pub dst : Text
  pub dport : Option ℕ
  pub flows : ℕ
  pub orig_bytes : Option ℕ
  pub reply_bytes : Option ℕ
  pub orig_packets : Option ℕ
  pub reply_packets : Option ℕ
  pub states : List Text
  pub container : Option Text
  pub container_id : Option Text
  pub peer_container : Option Text
  pub direction : Option Direction
  pub peer : Option Text
  pub peer_port : Option ℕ
  pub rx_bytes : Option ℕ
  pub tx_bytes : Option ℕ
  pub process : Option Text
  pub pid : Option ℕ
  pub flow : Flow

abbrev pub attributed : Option Index → Flow → Attribution
attributed none flow = empty_attribution
attributed (some index) flow = attribute flow index

-- `row = grouped[key] = {…}`
unfoldable pub new_row : Option Index → Flow → Row
new_row index flow =
    let who = attributed index flow in
    record {
      proto = flow.proto;
      family = flow.family;
      src = flow.orig.src;
      dst = flow.orig.dst;
      dport = flow.orig.dport;
      flows = 0;
      orig_bytes = none;
      reply_bytes = none;
      orig_packets = none;
      reply_packets = none;
      states = [];
      container = who.container;
      container_id = who.container_id;
      peer_container = who.peer_container;
      direction = who.direction;
      peer = who.peer;
      peer_port = who.peer_port;
      rx_bytes = none;
      tx_bytes = none;
      process = none;
      pid = none;
      flow = flow;
    }

-- `if value is None: continue`, else `value if current is None else current + value`
abbrev pub add_count : Option ℕ → Option ℕ → Option ℕ
add_count current none = current
add_count none (some value) = some value
add_count (some total) (some value) = some (total + value)

-- `states.add`, of a state that is not empty
abbrev pub add_state : List Text → Option Text → List Text
add_state states none = states
add_state states (some []) = states
add_state states (some (c ∷ s)) =
    if contains states (c ∷ s) then states else states ++ ((c ∷ s) ∷ [])

abbrev pub sent_by : Option Direction → Flow → Option ℕ
sent_by none flow = none
sent_by (some outgoing) flow = flow.orig.bytes
sent_by (some incoming) flow = flow.reply.bytes

abbrev pub received_by : Option Direction → Flow → Option ℕ
received_by none flow = none
received_by (some outgoing) flow = flow.reply.bytes
received_by (some incoming) flow = flow.orig.bytes

-- what one flow adds to the row of its key
unfoldable pub count_flow : Flow → Row → Row
count_flow flow row = record row {
  flows = row.flows + 1;
  states = add_state row.states flow.state;
  orig_bytes = add_count row.orig_bytes flow.orig.bytes;
  orig_packets = add_count row.orig_packets flow.orig.packets;
  reply_bytes = add_count row.reply_bytes flow.reply.bytes;
  reply_packets = add_count row.reply_packets flow.reply.packets;
  tx_bytes = add_count row.tx_bytes (sent_by row.direction flow);
  rx_bytes = add_count row.rx_bytes (received_by row.direction flow);
}

abbrev pub row_or_new : Option Index → Flow → Option Row → Row
row_or_new index flow none = new_row index flow
row_or_new index flow (some row) = row

abbrev pub Grouped : Type 0
Grouped = Dict FlowKey Row

-- the body of `for flow in flows`
unfoldable pub add_flow : Option Index → Flow → Grouped → Grouped
add_flow index flow grouped =
    set grouped (key_of flow) (count_flow flow (row_or_new index flow (get grouped (key_of flow))))

unfoldable pub group_from : Option Index → List Flow → Grouped → Grouped
group_from index [] grouped = grouped
group_from index (flow ∷ flows) grouped = group_from index flows (add_flow index flow grouped)

-- the order of texts by code point
unfoldable pub sort_states : List Row → List Row
sort_states [] = []
sort_states (row ∷ rows) = record row { states = sort text_le row.states } ∷ sort_states rows

abbrev pub or_zero : Option ℕ → ℕ
or_zero none = 0
or_zero (some n) = n

abbrev pub loudness : Row → ℕ
loudness row = or_zero row.orig_bytes + or_zero row.reply_bytes

-- the order of `rows.sort(key=…, reverse=True)`
abbrev pub is_louder : Row → Row → Bool
is_louder r q =
    ltb (loudness q) (loudness r) || eqb (loudness q) (loudness r) && leb q.flows r.flows

unfoldable pub ranked : Option Index → List Flow → List Row
ranked index flows = sort is_louder (sort_states (values (group_from index flows [])))

unfoldable pub aggregate : List Flow → ℕ → Option Index → List Row × ℕ
aggregate flows limit index = let rows = ranked index flows in (take limit rows, length rows)

-- `has_accounting`
unfoldable pub has_accounting : List Flow → Bool
has_accounting flows = any (λ flow. is_some flow.orig.bytes) flows
