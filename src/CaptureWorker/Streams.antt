-- ===== src/CaptureWorker/Streams.antt =====
-- capture_worker.py: what `TcpHealth` says of segments in order and of repeated ones.
use homelab_agent.Prelude.{
  ◌≤◌, ◌<◌, ◌≡◌, refl, ap, ◌∙◌, ◌⊎◌, inl, inr, Bool, true, false, not, ◌&&◌, none, some, [], ◌++◌,
  if◌then◌else◌, eqb, length, nat_eq, list_eq, arith, any, any-append, Bool-cases, Option-cases,
}
use Prim.Native.Nat.{◌^◌}
use homelab_agent.Prelude.Dict.{get, length-set}
use homelab_agent.CaptureWorker.Health.{
  key_eq, Segment, Issue, retransmit, gap, Track, new_track, Health, max_entries, signed_difference,
  span, end_of, follow, acknowledge, moved, answered, judge, room_for, check, first_issue,
}

-- lost, reordered or repeated
abbrev pub is_order_issue : Issue → Bool
is_order_issue retransmit = true
is_order_issue gap = true
is_order_issue _ = false

abbrev pub is_retransmit : Issue → Bool
is_retransmit retransmit = true
is_retransmit _ = false

-- the segment moves the sequence number
abbrev pub counts : Segment → Bool
counts s = not (eqb (span s) 0) && not s.rst

-- the table stays within its bound
pub length-check :
    (health : Health) (s : Segment)
    → length health ≤ max_entries
    → length (check health s).0 ≤ max_entries
unfolding check
length-check health s h = elim (Option-cases (get health s.key)) [
  | inl new ↦ ground (
    arith,
    length-set (room_for health none) s.key (judge s new_track).0,
    length-set [] s.key (judge s new_track).0,
  )
  | inr (track, old) ↦ ground (arith, length-set health s.key (judge s track).0)
]

follow-none : (s : Segment) → follow s none ≡ (some (end_of s), [])
unfolding follow
follow-none s = refl

follow-next : (s : Segment) → s.seq < 2 ^ 32 → follow s (some s.seq) ≡ (some (end_of s), [])
unfolding follow
follow-next s h = let even : signed_difference s.seq s.seq ≡ 2 ^ 31 = omega arith in rw even refl

first_issue-quiet : (s : Segment) → any is_order_issue (first_issue s) ≡ false
unfolding any
first_issue-quiet s = ground arith

answered-quiet :
    (s : Segment) (track : Track)
    → ((answered s track).0.next ≡ track.next) × (any is_order_issue (answered s track).1 ≡ false)
unfolding answered acknowledge any
answered-quiet s track = (ground arith, ground arith)

moved_in_order :
    (s : Segment) (track : Track)
    → s.seq < 2 ^ 32
    → (counts s ≡ true → (track.next ≡ none) ⊎ (track.next ≡ some s.seq))
    → ((moved s track).0.next ≡ (if counts s then some (end_of s) else track.next))
      × ((moved s track).1 ≡ [])
unfolding moved
moved_in_order s track h order = elim (Bool-cases (counts s)) [
  | inl moving ↦
      let followed : follow s track.next ≡ (some (end_of s), []) = elim (order moving) [
        | inl fresh ↦ ap (follow s) fresh ∙ follow-none s
        | inr next ↦ ap (follow s) next ∙ follow-next s h
      ] in
      rw moving (ap (λ r. r.0) followed, ap (λ r. r.1) followed)
  | inr still ↦ rw still (refl, refl)
]

-- A segment that is in order leaves the next number expected, and no sign of loss or repetition.
pub judge_in_order :
    (s : Segment) (track : Track)
    → s.seq < 2 ^ 32
    → (counts s ≡ true → (track.next ≡ none) ⊎ (track.next ≡ some s.seq))
    → ((judge s track).0.next ≡ (if counts s then some (end_of s) else track.next))
      × (any is_order_issue (judge s track).1 ≡ false)
unfolding judge any
judge_in_order s track h order =
    let (next, none_seen) = moved_in_order s track h order in
    let (kept, quiet) = answered-quiet s (moved s track).0 in
    (
      kept ∙ next,
      any-append is_order_issue (first_issue s ++ (moved s track).1)
            (answered s (moved s track).0).1
          ∙ ground (
            arith,
            any-append is_order_issue (first_issue s) (moved s track).1,
            first_issue-quiet s,
            ap (any is_order_issue) none_seen,
            quiet,
          ),
    )
