-- ===== src/CaptureWorker/Repeats.antt =====
-- capture_worker.py: `TcpHealth` on a segment that is seen twice.
use homelab_agent.Prelude.{
  ℕ, ◌+◌, ◌%◌, ◌≤◌, ◌<◌, ◌≡◌, refl, ap, ◌∙◌, ◌⊎◌, inl, inr, Bool, true, false, ◌&&◌, ◌||◌, Option,
  none, some, List, [], ◌∷◌, ◌++◌, ltb, eqb, ◌==◌, arith, any, any-append, Bool-cases, ==_refl,
}
use Prim.Native.Nat.{◌^◌}
use homelab_agent.Prelude.Dict.{get}
use homelab_agent.CaptureWorker.Health.{
  key_eq, Segment, Issue, retransmit, Track, Health, signed_difference, span, end_of, is_keep_alive,
  follow, moved, answered, judge, track_of, check, first_issue,
}
use homelab_agent.CaptureWorker.Streams.{is_retransmit, counts}
use homelab_agent.CaptureWorker.Order.{get-check_same, check-issues}

-- more than a keep-alive probe, whose one byte stands before the expected number
abbrev pub carries : Segment → Bool
carries s = counts s && (ltb 1 s.plen || s.syn || s.fin)

wrapped_behind :
    (a n : ℕ) → a < 2 ^ 32 → 1 ≤ n → n ≤ 2 ^ 31 → signed_difference a ((a + n) % 2 ^ 32) < 2 ^ 31
wrapped_behind a n low some_bytes short = omega arith

carries-span : (s : Segment) → carries s ≡ true → 1 ≤ span s
carries-span s full = let moving : eqb (span s) 0 ≡ false = ground arith in ground arith

carries-keep_alive : (s : Segment) (behind : ℕ) → carries s ≡ true → is_keep_alive s behind ≡ false
carries-keep_alive s behind full = ground arith

follow_behind :
    (s : Segment) (next : ℕ)
    → signed_difference s.seq next < 2 ^ 31
    → carries s ≡ true
    → (follow s (some next)).1 ≡ retransmit ∷ []
unfolding follow
follow_behind s next behind full =
    let test : ltb (signed_difference s.seq next) (2 ^ 31) ≡ true = ground arith in
    rw (test, carries-keep_alive s (signed_difference s.seq next) full) refl

-- what the entry expects after a segment: what follows it, or what it came too late for
follow-cases :
    (s : Segment) (held : Option ℕ)
    → ((follow s held).0 ≡ some (end_of s))
      ⊎ ((next : ℕ) × ((follow s held).0 ≡ some next) × (signed_difference s.seq next < 2 ^ 31))
unfolding follow
follow-cases s none = inl refl
follow-cases s (some next) = elim (Bool-cases (ltb (signed_difference s.seq next) (2 ^ 31))) [
  | inr ahead ↦ inl (rw ahead refl)
  | inl behind ↦ elim (Bool-cases (ltb (2 ^ 31) (signed_difference (end_of s) next))) [
    | inl further ↦ inl (rw (behind, further) refl)
    | inr within ↦ inr (next, rw (behind, within) refl, ground arith)
  ]
]

follow_again :
    (s : Segment) (held : Option ℕ)
    → s.seq < 2 ^ 32
    → span s ≤ 2 ^ 31
    → carries s ≡ true
    → (follow s (follow s held).0).1 ≡ retransmit ∷ []
follow_again s held low short full =
    let past : signed_difference s.seq (end_of s) < 2 ^ 31 =
      wrapped_behind s.seq (span s) low (carries-span s full) short in
    elim (follow-cases s held) [
      | inl at ↦ ap (λ o. (follow s o).1) at ∙ follow_behind s (end_of s) past full
      | inr (next, at, behind) ↦ ap (λ o. (follow s o).1) at ∙ follow_behind s next behind full
    ]

any-middle :
    (xs ys zs : List Issue)
    → any is_retransmit ys ≡ true
    → any is_retransmit (xs ++ ys ++ zs) ≡ true
any-middle xs ys zs h =
    ground (arith, any-append is_retransmit (xs ++ ys) zs, any-append is_retransmit xs ys)

moved-next :
    (s : Segment) (track : Track)
    → counts s ≡ true
    → ((moved s track).0.next ≡ (follow s track.next).0)
      × ((moved s track).1 ≡ (follow s track.next).1)
unfolding moved
moved-next s track moving = rw moving (refl, refl)

answered-moving :
    (s : Segment) (track : Track) → counts s ≡ true → (answered s track).0.next ≡ track.next
unfolding answered
answered-moving s track moving = ground arith

judge_again :
    (s : Segment) (track : Track)
    → s.seq < 2 ^ 32
    → span s ≤ 2 ^ 31
    → carries s ≡ true
    → any is_retransmit (judge s (judge s track).0).1 ≡ true
unfolding judge any
judge_again s track low short full =
    let moving : counts s ≡ true = ground arith in
    let held : (judge s track).0.next ≡ (follow s track.next).0 =
      answered-moving s (moved s track).0 moving ∙ (moved-next s track moving).0 in
    let said : (moved s (judge s track).0).1 ≡ retransmit ∷ [] =
      (moved-next s (judge s track).0 moving).1
      ∙ ap (λ o. (follow s o).1) held
      ∙ follow_again s track.next low short full in
    let hit : any is_retransmit (moved s (judge s track).0).1 ≡ true =
      ap (any is_retransmit) said in
    any-middle (first_issue s) (moved s (judge s track).0).1
      (answered s (moved s (judge s track).0).0).1 hit

-- A segment that is seen twice in a row is said to be a retransmission, whatever the table held, if it
-- carries more than a keep-alive probe and at most 2 ** 31 bytes.
pub check_again :
    (health : Health) (s : Segment)
    → s.seq < 2 ^ 32
    → span s ≤ 2 ^ 31
    → carries s ≡ true
    → any is_retransmit (check (check health s).0 s).1 ≡ true
check_again health s low short full =
    let mine : (s.key == s.key) ≡ true = ==_refl s.key in
    let held : track_of (get (check health s).0 s.key) ≡ (judge s (track_of (get health s.key))).0 =
      ap track_of (get-check_same health s s.key mine) in
    ap (any is_retransmit)
      (check-issues (check health s).0 s s.key mine ∙ ap (λ t. (judge s t).1) held)
    ∙ judge_again s (track_of (get health s.key)) low short full
