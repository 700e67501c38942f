-- ===== src/CaptureWorker/Ticks.antt =====
-- capture_worker.py: what a tick reports of the packets since the last one.
use homelab_agent.Prelude.{
  ℕ, ◌+◌, ◌≤◌, ◌<◌, ◌≡◌, refl, sym, ap, ◌∙◌, true, List, [], ◌∷◌, arith, sum_by, length,
  length-take, length-drop, take, drop, take-append-drop, sum_by-append, All,
}
use homelab_agent.Prelude.Dict.{Dict}
use homelab_agent.Prelude.Keys.{values}
use homelab_agent.Prelude.Sort.{sort, sum_by-sort, sort-Ordered, take-drop-Ordered}
use homelab_agent.CaptureWorker.Health.{Issue}
use homelab_agent.CaptureWorker.Flows.{
  Packet, FlowKey, Flow, Loop, Tick, max_flows, is_heavier, tick,
}
use homelab_agent.CaptureWorker.Balance.{count_of, IsBalanced, Reachable, Reachable-IsBalanced}

-- over the flows that are shown and those that are not
abbrev pub over_flows : (Flow → ℕ) → List (FlowKey × Flow) → ℕ
over_flows measure flows = sum_by (λ f. measure f.1) flows

-- what a tick tells of the packets it is about, with the flows that it leaves out
pub record IsTick (listed : ℕ) (seen : List Packet) (t : Tick) : Type 0 where
  pub total_pkts : t.pkts ≡ length seen
  pub total_bytes : t.bytes ≡ sum_by (λ p. p.size) seen
  pub proto_pkts : sum_by (λ p. p.pkts) (values t.protos) ≡ t.pkts
  pub proto_bytes : sum_by (λ p. p.bytes) (values t.protos) ≡ t.bytes
  pub is_listed : listed + t.skipped ≡ t.pkts
  pub left_out : List (FlowKey × Flow)
  pub flow_pkts : over_flows (λ f. f.pkts) t.flows + over_flows (λ f. f.pkts) left_out ≡ t.pkts
  pub flow_bytes : over_flows (λ f. f.bytes) t.flows + over_flows (λ f. f.bytes) left_out ≡ t.bytes
  pub issue_totals :
      (issue : Issue)
      → over_flows (λ f. count_of issue f.issues) t.flows
          + over_flows (λ f. count_of issue f.issues) left_out
        ≡ count_of issue t.issues
  pub is_short : length t.flows ≤ 150
  pub is_full : length t.flows < 150 → left_out ≡ []
  pub is_heaviest : All (λ f. All (λ g. (g.1).bytes ≤ (f.1).bytes) left_out) t.flows

over_flows-values :
    (measure : Flow → ℕ) (flows : Dict FlowKey Flow)
    → over_flows measure flows ≡ sum_by measure (values flows)
unfolding sum_by values
over_flows-values measure [] = refl
over_flows-values measure ((k, f) ∷ flows) = omega (arith, over_flows-values measure flows)

-- what is shown and what is not add up
shown-over_flows :
    (measure : Flow → ℕ) (n : ℕ) (flows : Dict FlowKey Flow)
    → over_flows measure (take n (sort is_heavier flows))
        + over_flows measure (drop n (sort is_heavier flows))
      ≡ sum_by measure (values flows)
shown-over_flows measure n flows =
    let sorted : List (FlowKey × Flow) = sort is_heavier flows in
    sym (sum_by-append (λ f. measure f.1) (take n sorted) (drop n sorted))
    ∙ ap (over_flows measure) (take-append-drop n sorted)
    ∙ sum_by-sort is_heavier (λ f. measure f.1) flows
    ∙ over_flows-values measure flows

heavier-All :
    (f : FlowKey × Flow) (gs : List (FlowKey × Flow))
    → All (λ g. is_heavier f g ≡ true) gs
    → All (λ g. (g.1).bytes ≤ (f.1).bytes) gs
heavier-All f [] h = tt
heavier-All f (g ∷ gs) (hg, h) = (ground arith, heavier-All f gs h)

heaviest-All :
    (fs gs : List (FlowKey × Flow))
    → All (λ f. All (λ g. is_heavier f g ≡ true) gs) fs
    → All (λ f. All (λ g. (g.1).bytes ≤ (f.1).bytes) gs) fs
heaviest-All [] gs h = tt
heaviest-All (f ∷ fs) gs (hf, h) = (heavier-All f gs hf, heaviest-All fs gs h)

empty_of_length : (gs : List (FlowKey × Flow)) → length gs ≡ 0 → gs ≡ []
empty_of_length [] h = refl
empty_of_length (g ∷ gs) h = ground arith

nothing_left :
    (n : ℕ) (flows : List (FlowKey × Flow)) → length (take n flows) < n → drop n flows ≡ []
nothing_left n flows h =
    empty_of_length (drop n flows) (omega (arith, length-take n flows, length-drop n flows))

-- Every tick counts the packets since the last one: their number and bytes are its totals, and those of
-- its protocols; each was listed or skipped. Its flows are at most 150, all of them if there are fewer,
-- and otherwise such that no flow left out has more bytes than one shown; together with those left out
-- they have the tick's packets, bytes and issues of each kind.
pub tick-IsTick :
    (max_pps listed : ℕ) (seen : List Packet) (l : Loop)
    → Reachable max_pps seen l listed
    → IsTick listed seen (tick l).0
unfolding tick
tick-IsTick max_pps listed seen l r =
    let b : IsBalanced max_pps listed seen l = Reachable-IsBalanced max_pps listed seen l r in
    let sorted : List (FlowKey × Flow) = sort is_heavier l.flows in
    record {
      total_pkts = b.total_pkts;
      total_bytes = b.total_bytes;
      proto_pkts = b.counted.proto_pkts;
      proto_bytes = b.counted.proto_bytes;
      is_listed = b.is_listed;
      left_out = drop max_flows sorted;
      flow_pkts = shown-over_flows (λ f. f.pkts) max_flows l.flows ∙ b.counted.flow_pkts;
      flow_bytes = shown-over_flows (λ f. f.bytes) max_flows l.flows ∙ b.counted.flow_bytes;
      issue_totals = λ issue.
          shown-over_flows (λ f. count_of issue f.issues) max_flows l.flows
          ∙ b.counted.issue_totals issue;
      is_short = omega (arith, length-take max_flows sorted);
      is_full = nothing_left max_flows sorted;
      is_heaviest = heaviest-All (take max_flows sorted) (drop max_flows sorted) (
          take-drop-Ordered is_heavier max_flows sorted
            (sort-Ordered is_heavier (λ f g h. ground arith) (λ f g k h i. ground arith) l.flows));
    }
