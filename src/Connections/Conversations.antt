-- ===== src/Connections/Conversations.antt =====
-- connections.py: a specification of the rows of `aggregate`: what one row says of the flows of its
-- conversation, and that the loop arrives at it.
use homelab_agent.Prelude.{
  ℕ, ◌+◌, ◌≡◌, refl, sym, ap, ◌∙◌, Bool, Option, none, some, List, [], ◌∷◌, arith, length, keep_if,
  ◌==◌, Bool-cases, inl, inr, if◌then◌else◌,
}
use homelab_agent.Prelude.Dict.{get, set, get-set}
use homelab_agent.Connections.Flow.{Flow, Index}
use homelab_agent.Connections.Aggregate.{
  FlowKey, flow_key_eq, flow_key_same_iff, key_of, Row, attributed, add_count, sent_by, received_by,
  count_flow, row_or_new, Grouped, add_flow, group_from,
}

-- the sum of the counters that are there, or none if none is
abbrev pub total : (Flow → Option ℕ) → List Flow → Option ℕ
total counter [] = none
total counter (flow ∷ flows) = elim (counter flow) [
  | none ↦ total counter flows
  | some n ↦ elim (total counter flows) [ none ↦ some n | some rest ↦ some (n + rest) ]
]

abbrev pub has_key : FlowKey → Flow → Bool
has_key k flow = key_of flow == k

abbrev pub key_of_row : Row → FlowKey
key_of_row row = record { proto = row.proto; src = row.src; dst = row.dst; dport = row.dport }

-- The row tells the number and the counters of the flows; sent and received are the two directions
-- as the container that the first flow belongs to sees them.
pub record IsConversation (index : Option Index) (k : FlowKey) (first : Flow) (group : List Flow)
    (row : Row) : Type 0 where
  pub key : key_of_row row ≡ k
  pub flows : row.flows ≡ length group
  pub orig_bytes : row.orig_bytes ≡ total (λ f. f.orig.bytes) group
  pub reply_bytes : row.reply_bytes ≡ total (λ f. f.reply.bytes) group
  pub orig_packets : row.orig_packets ≡ total (λ f. f.orig.packets) group
  pub reply_packets : row.reply_packets ≡ total (λ f. f.reply.packets) group
  pub container : row.container ≡ (attributed index first).container
  pub direction : row.direction ≡ (attributed index first).direction
  pub sent : row.tx_bytes ≡ total (sent_by row.direction) group
  pub received : row.rx_bytes ≡ total (received_by row.direction) group

-- the row after some flows of one key
abbrev pub resume : Option Index → List Flow → Option Row → Option Row
resume index [] o = o
resume index (flow ∷ flows) o =
    resume index flows (some (count_flow flow (row_or_new index flow o)))

abbrev after : Option Index → Flow → Option Row → Row
after index flow o = count_flow flow (row_or_new index flow o)

resume-set :
    (index : Option Index) (flow : Flow) (flows : List Flow) (grouped : Grouped) (k : FlowKey)
    → resume index flows
        (get (set grouped (key_of flow) (after index flow (get grouped (key_of flow)))) k)
      ≡ resume index (if has_key k flow then flow ∷ flows else flows) (get grouped k)
resume-set index flow flows grouped k = elim (Bool-cases (has_key k flow)) [
  | inr miss ↦ rw miss (ap (resume index flows) (get-set grouped (key_of flow) k _ ∙ rw miss refl))
  | inl hit ↦
      let same : key_of flow ≡ k = (flow_key_same_iff (key_of flow) k).0 hit in
      rw hit (
        ap (resume index flows) (
          get-set grouped (key_of flow) k _
          ∙ rw hit (ap (λ j. some (after index flow (get grouped j))) same)))
]

pub get-group_from :
    (index : Option Index) (flows : List Flow) (grouped : Grouped) (k : FlowKey)
    → get (group_from index flows grouped) k
      ≡ resume index (keep_if (has_key k) flows) (get grouped k)
unfolding group_from add_flow keep_if
get-group_from index [] grouped k = refl
get-group_from index (flow ∷ flows) grouped k =
    get-group_from index flows (add_flow index flow grouped) k
    ∙ resume-set index flow (keep_if (has_key k) flows) grouped k

add_count_assoc : (n a b : Option ℕ) → add_count (add_count n a) b ≡ add_count n (add_count a b)
add_count_assoc n a none = refl
add_count_assoc n none (some b) = ground arith
add_count_assoc n (some a) (some b) = ground arith

total-cons :
    (counter : Flow → Option ℕ) (flow : Flow) (flows : List Flow)
    → total counter (flow ∷ flows) ≡ add_count (counter flow) (total counter flows)
total-cons counter flow flows = ground arith

add_count-total :
    (counter : Flow → Option ℕ) (flow : Flow) (flows : List Flow) (n : Option ℕ)
    → add_count (add_count n (counter flow)) (total counter flows)
      ≡ add_count n (total counter (flow ∷ flows))
add_count-total counter flow flows n =
    add_count_assoc n (counter flow) (total counter flows)
    ∙ ap (add_count n) (sym (total-cons counter flow flows))

pub none-add_count : (n : Option ℕ) → add_count none n ≡ n
none-add_count none = refl
none-add_count (some n) = refl

-- how a row goes on over more flows of its key
pub record Goes (row : Row) (flows : List Flow) (last : Row) : Type 0 where
  pub key : key_of_row last ≡ key_of_row row
  pub flows_more : last.flows ≡ row.flows + length flows
  pub orig_bytes : last.orig_bytes ≡ add_count row.orig_bytes (total (λ f. f.orig.bytes) flows)
  pub reply_bytes : last.reply_bytes ≡ add_count row.reply_bytes (total (λ f. f.reply.bytes) flows)
  pub orig_packets :
      last.orig_packets ≡ add_count row.orig_packets (total (λ f. f.orig.packets) flows)
  pub reply_packets :
      last.reply_packets ≡ add_count row.reply_packets (total (λ f. f.reply.packets) flows)
  pub container : last.container ≡ row.container
  pub direction : last.direction ≡ row.direction
  pub sent : last.tx_bytes ≡ add_count row.tx_bytes (total (sent_by row.direction) flows)
  pub received : last.rx_bytes ≡ add_count row.rx_bytes (total (received_by row.direction) flows)

pub resume-Goes :
    (index : Option Index) (flows : List Flow) (row : Row)
    → (last : Row) × (resume index flows (some row) ≡ some last) × Goes row flows last
unfolding count_flow
resume-Goes index [] row = (
  row,
  refl,
  record {
    key = refl;
    flows_more = omega arith;
    orig_bytes = refl;
    reply_bytes = refl;
    orig_packets = refl;
    reply_packets = refl;
    container = refl;
    direction = refl;
    sent = refl;
    received = refl;
  },
)
resume-Goes index (flow ∷ flows) row =
    let (last, at, goes) = resume-Goes index flows (count_flow flow row) in
    (
      last,
      at,
      record {
        key = goes.key;
        flows_more = omega (arith, goes.flows_more);
        orig_bytes =
            goes.orig_bytes ∙ add_count-total (λ f. f.orig.bytes) flow flows row.orig_bytes;
        reply_bytes =
            goes.reply_bytes ∙ add_count-total (λ f. f.reply.bytes) flow flows row.reply_bytes;
        orig_packets =
            goes.orig_packets ∙ add_count-total (λ f. f.orig.packets) flow flows row.orig_packets;
        reply_packets =
            goes.reply_packets
            ∙ add_count-total (λ f. f.reply.packets) flow flows row.reply_packets;
        container = goes.container;
        direction = goes.direction;
        sent = goes.sent ∙ add_count-total (sent_by row.direction) flow flows row.tx_bytes;
        received =
            goes.received ∙ add_count-total (received_by row.direction) flow flows row.rx_bytes;
      },
    )
