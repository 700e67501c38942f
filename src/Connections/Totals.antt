-- ===== src/Connections/Totals.antt =====
-- connections.py: `aggregate` neither loses nor invents flows, bytes or packets, and returns the
-- loudest conversations first.
use Prim.Native.Nat.{min}
use homelab_agent.Prelude.{
  ℕ, zero, suc, ◌+◌, ◌≡◌, ◌≤◌, ◌<◌, ◌⊎◌, ltb, Bool-cases, refl, ap, ◌∙◌, true, false, Option, none,
  some, List, [], ◌∷◌, arith, length, length-take, take, drop, All, sum_by, Option-cases, inl, inr,
}
use homelab_agent.Prelude.Text.{Text}
use homelab_agent.Prelude.Dict.{get}
use homelab_agent.Prelude.Keys.{values, sum_by-set, sum_by-set_over}
use homelab_agent.Prelude.Sort.{sum_by-sort, Ordered, sort-Ordered, take-Ordered, take-drop-Ordered}
use homelab_agent.Connections.Flow.{Flow, Index}
use homelab_agent.Connections.Aggregate.{
  flow_key_eq, key_of, Row, new_row, count_flow, Grouped, add_flow, group_from, sort_states, ranked,
  is_louder, aggregate, or_zero, add_count,
}

module _ (index : Option Index) (measure : Row → ℕ) (share : Flow → ℕ)
    (count : (flow : Flow) (row : Row) → measure (count_flow flow row) ≡ measure row + share flow)
    (fresh : (flow : Flow) → measure (new_row index flow) ≡ 0)
    (states : (row : Row) (s : List Text) → measure (record row { states = s }) ≡ measure row) where
  sum_by-add_flow :
      (flow : Flow) (grouped : Grouped)
      → sum_by measure (values (add_flow index flow grouped))
        ≡ sum_by measure (values grouped) + share flow
  unfolding add_flow
  sum_by-add_flow flow grouped = elim (Option-cases (get grouped (key_of flow))) [
    | inl at ↦
        rw (at, add_flow)
          (omega (
            arith,
            sum_by-set measure grouped (key_of flow) (count_flow flow (new_row index flow)) at,
            count flow (new_row index flow),
            fresh flow,
          ))
    | inr (row, at) ↦
        rw (at, add_flow)
          (omega (
            arith,
            sum_by-set_over measure grouped (key_of flow) (count_flow flow row) row at,
            count flow row,
          ))
  ]

  sum_by-group_from :
      (flows : List Flow) (grouped : Grouped)
      → sum_by measure (values (group_from index flows grouped))
        ≡ sum_by measure (values grouped) + sum_by share flows
  unfolding group_from sum_by
  sum_by-group_from [] grouped = omega arith
  sum_by-group_from (flow ∷ flows) grouped =
      omega
        (arith, sum_by-group_from flows (add_flow index flow grouped), sum_by-add_flow flow grouped)

  sum_by-sort_states : (rows : List Row) → sum_by measure (sort_states rows) ≡ sum_by measure rows
  unfolding sort_states sum_by
  sum_by-sort_states [] = refl
  sum_by-sort_states (row ∷ rows) = omega (arith, states row _, sum_by-sort_states rows)

  sum_by-ranked : (flows : List Flow) → sum_by measure (ranked index flows) ≡ sum_by share flows
  unfolding ranked values sum_by
  sum_by-ranked flows =
      sum_by-sort is_louder measure _
      ∙ sum_by-sort_states (values (group_from index flows []))
      ∙ sum_by-group_from flows []
      ∙ omega arith

or_zero-add_count : (a b : Option ℕ) → or_zero (add_count a b) ≡ or_zero a + or_zero b
or_zero-add_count a none = omega arith
or_zero-add_count none (some b) = omega arith
or_zero-add_count (some a) (some b) = refl

sum_by-one : (flows : List Flow) → sum_by (λ _. 1) flows ≡ length flows
unfolding sum_by
sum_by-one [] = refl
sum_by-one (flow ∷ flows) = omega (arith, sum_by-one flows)

take_all : {A : Type 0} (n : ℕ) (xs : List A) → length xs ≤ n → take n xs ≡ xs
take_all zero [] h = refl
take_all zero (x ∷ xs) h = ground arith
take_all (suc n) [] h = refl
take_all (suc n) (x ∷ xs) h = ap (λ r. x ∷ r) (take_all n xs (omega arith))

-- When every conversation is listed, their flows, bytes and packets add up to those of the flows
-- that were read.
pub sum_by-aggregate :
    (flows : List Flow) (limit : ℕ) (index : Option Index)
    → (aggregate flows limit index).1 ≤ limit
    → (sum_by (λ r. r.flows) (aggregate flows limit index).0 ≡ length flows)
      × (sum_by (λ r. or_zero r.orig_bytes) (aggregate flows limit index).0
          ≡ sum_by (λ f. or_zero f.orig.bytes) flows)
      × (sum_by (λ r. or_zero r.reply_bytes) (aggregate flows limit index).0
          ≡ sum_by (λ f. or_zero f.reply.bytes) flows)
      × (sum_by (λ r. or_zero r.orig_packets) (aggregate flows limit index).0
          ≡ sum_by (λ f. or_zero f.orig.packets) flows)
      × (sum_by (λ r. or_zero r.reply_packets) (aggregate flows limit index).0
          ≡ sum_by (λ f. or_zero f.reply.packets) flows)
unfolding aggregate new_row count_flow
sum_by-aggregate flows limit index all = rw (take_all limit (ranked index flows) all) (
  sum_by-ranked index (λ r. r.flows) (λ _. 1) (λ flow row. refl) (λ flow. refl) (λ row s. refl)
        flows
      ∙ sum_by-one flows,
  sum_by-ranked index (λ r. or_zero r.orig_bytes) (λ f. or_zero f.orig.bytes)
      (λ flow row. or_zero-add_count row.orig_bytes flow.orig.bytes) (λ flow. refl) (λ row s. refl)
      flows,
  sum_by-ranked index (λ r. or_zero r.reply_bytes) (λ f. or_zero f.reply.bytes)
      (λ flow row. or_zero-add_count row.reply_bytes flow.reply.bytes) (λ flow. refl)
      (λ row s. refl) flows,
  sum_by-ranked index (λ r. or_zero r.orig_packets) (λ f. or_zero f.orig.packets)
      (λ flow row. or_zero-add_count row.orig_packets flow.orig.packets) (λ flow. refl)
      (λ row s. refl) flows,
  sum_by-ranked index (λ r. or_zero r.reply_packets) (λ f. or_zero f.reply.packets)
      (λ flow row. or_zero-add_count row.reply_packets flow.reply.packets) (λ flow. refl)
      (λ row s. refl) flows,
)

is_louder_total : (r q : Row) → is_louder r q ≡ false → is_louder q r ≡ true
is_louder_total r q h = ground arith

is_louder_trans : (r q s : Row) → is_louder r q ≡ true → is_louder q s ≡ true → is_louder r s ≡ true
is_louder_trans r q s h k = ground arith

ranked-Ordered : (index : Option Index) (flows : List Flow) → Ordered is_louder (ranked index flows)
unfolding ranked
ranked-Ordered index flows = sort-Ordered is_louder is_louder_total is_louder_trans _

-- how many bytes a conversation has moved, either way
abbrev pub bytes_of : Row → ℕ
bytes_of r = or_zero r.orig_bytes + or_zero r.reply_bytes

-- more bytes, or as many and no fewer flows
abbrev pub IsBefore : Row → Row → Type 0
IsBefore r q = (bytes_of q < bytes_of r) ⊎ ((bytes_of q ≡ bytes_of r) × (q.flows ≤ r.flows))

-- each row comes before all that follow it
abbrev pub AllBefore : List Row → Type 0
AllBefore [] = Unit
AllBefore (r ∷ rs) = All (IsBefore r) rs × AllBefore rs

is_louder-IsBefore : (r q : Row) → is_louder r q ≡ true → IsBefore r q
is_louder-IsBefore r q h = elim (Bool-cases (ltb (bytes_of q) (bytes_of r))) [
  | inl more ↦ inl (ground arith)
  | inr same ↦ inr (ground arith, ground arith)
]

All-IsBefore : (r : Row) (rs : List Row) → All (λ q. is_louder r q ≡ true) rs → All (IsBefore r) rs
All-IsBefore r [] h = tt
All-IsBefore r (q ∷ rs) (hq, h) = (is_louder-IsBefore r q hq, All-IsBefore r rs h)

Ordered-AllBefore : (rs : List Row) → Ordered is_louder rs → AllBefore rs
Ordered-AllBefore [] h = tt
Ordered-AllBefore (r ∷ rs) (first, h) = (All-IsBefore r rs first, Ordered-AllBefore rs h)

All-AllBefore :
    (rs after : List Row)
    → All (λ r. All (λ q. is_louder r q ≡ true) after) rs
    → All (λ r. All (IsBefore r) after) rs
All-AllBefore [] after h = tt
All-AllBefore (r ∷ rs) after (hr, h) = (All-IsBefore r after hr, All-AllBefore rs after h)

-- `aggregate` returns the conversations with the most bytes, sent and received, first, and of those
-- with as many the ones with the most flows; it returns as many as the limit allows, and each of them
-- comes before all that it leaves out in this order.
pub aggregate-AllBefore :
    (flows : List Flow) (limit : ℕ) (index : Option Index)
    → AllBefore (aggregate flows limit index).0
      × (length (aggregate flows limit index).0 ≡ min limit (aggregate flows limit index).1)
      × All
          (λ r. All (IsBefore r) (drop limit (ranked index flows)))
          (aggregate flows limit index).0
unfolding aggregate
aggregate-AllBefore flows limit index = (
  Ordered-AllBefore (take limit (ranked index flows))
      (take-Ordered is_louder limit (ranked index flows) (ranked-Ordered index flows)),
  length-take limit (ranked index flows),
  All-AllBefore (take limit (ranked index flows)) (drop limit (ranked index flows))
      (take-drop-Ordered is_louder limit (ranked index flows) (ranked-Ordered index flows)),
)
