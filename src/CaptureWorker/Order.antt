-- ===== src/CaptureWorker/Order.antt =====
-- capture_worker.py: `TcpHealth` on a run of segments of many connections.
use homelab_agent.Prelude.{
  ℕ, ◌+◌, ◌%◌, ◌<◌, ◌≡◌, refl, sym, ap, ◌∙◌, ◌⊎◌, inl, inr, Bool, true, false, ◌&&◌, Option, none,
  some, List, [], ◌∷◌, if◌then◌else◌, ltb, leb, eqb, length, ◌==◌, arith, any, All, Bool-cases,
  ==-eq_of_true,
}
use Prim.Native.Nat.{◌^◌}
use homelab_agent.Prelude.Dict.{get, get-set}
use homelab_agent.CaptureWorker.Health.{
  Key, key_eq, Segment, Issue, Track, Health, max_entries, span, end_of, judge, track_of, room_for,
  check,
}
use homelab_agent.CaptureWorker.Streams.{is_order_issue, counts, judge_in_order}

-- `check` on one segment after the other, and what each was said to be
unfoldable pub check_all : Health → List Segment → List (Segment × List Issue)
unfolding check
check_all health [] = []
check_all health (s ∷ ss) = (s, (check health s).1) ∷ check_all (check health s).0 ss

abbrev pub is_next : Option ℕ → Segment → Bool
is_next none s = true
is_next (some expected) s = eqb s.seq expected

-- the number of the byte that follows the segment's last one
abbrev pub number_after : Segment → ℕ
number_after s = (s.seq + span s) % 2 ^ 32

-- the segments of one direction of a connection follow one another, whatever stands between them
unfoldable pub in_order : Key → Option ℕ → List Segment → Bool
in_order k expected [] = true
in_order k expected (s ∷ ss) =
    let after = in_order k (some (number_after s)) ss in
    let rest = in_order k expected ss in
    ltb s.seq (2 ^ 32) && (if s.key == k && counts s then is_next expected s && after else rest)

-- what the table expects is nothing or this
abbrev Agrees : Health → Key → Option ℕ → Type 0
Agrees health k expected =
    ((track_of (get health k)).next ≡ none) ⊎ ((track_of (get health k)).next ≡ expected)

room_for-Agrees :
    (health : Health) (held : Option Track) (k : Key) (expected : Option ℕ)
    → Agrees health k expected
    → Agrees (room_for health held) k expected
unfolding get
room_for-Agrees health (some track) k expected h = h
room_for-Agrees health none k expected h = elim (Bool-cases (leb max_entries (length health))) [
  | inl full ↦ rw full (inl refl)
  | inr room ↦ rw room h
]

pub get-check_same :
    (health : Health) (s : Segment) (k : Key)
    → (s.key == k) ≡ true
    → get (check health s).0 k ≡ some (judge s (track_of (get health k))).0
unfolding check
get-check_same health s k same =
    get-set (room_for health (get health s.key)) s.key k (judge s (track_of (get health s.key))).0
    ∙ rw same (ap (λ j. some (judge s (track_of (get health j))).0) (==-eq_of_true s.key k same))

pub check-issues :
    (health : Health) (s : Segment) (k : Key)
    → (s.key == k) ≡ true
    → (check health s).1 ≡ (judge s (track_of (get health k))).1
unfolding check
check-issues health s k same =
    ap (λ j. (judge s (track_of (get health j))).1) (==-eq_of_true s.key k same)

get-check_other :
    (health : Health) (s : Segment) (k : Key)
    → (s.key == k) ≡ false
    → get (check health s).0 k ≡ get (room_for health (get health s.key)) k
unfolding check
get-check_other health s k other =
    get-set (room_for health (get health s.key)) s.key k (judge s (track_of (get health s.key))).0
    ∙ rw other refl

-- nothing is said of the order of the segments with this key
abbrev pub IsQuiet : Key → Segment × List Issue → Type 0
IsQuiet k (s, issues) = (s.key == k) ≡ true → any is_order_issue issues ≡ false

expected_next :
    (health : Health) (k : Key) (expected : Option ℕ) (s : Segment)
    → Agrees health k expected
    → is_next expected s ≡ true
    → ((track_of (get health k)).next ≡ none) ⊎ ((track_of (get health k)).next ≡ some s.seq)
expected_next health k expected s (inl fresh) h = inl fresh
expected_next health k none s (inr same) h = inl same
expected_next health k (some e) s (inr same) h =
    let here : s.seq ≡ e = ground arith in inr (same ∙ ap some (sym here))

-- one segment of the direction
check_mine :
    (health : Health) (k : Key) (expected : Option ℕ) (s : Segment)
    → Agrees health k expected
    → s.seq < 2 ^ 32
    → (s.key == k) ≡ true
    → (counts s ≡ true → is_next expected s ≡ true)
    → Agrees (check health s).0 k (if counts s then some (end_of s) else expected)
      × (any is_order_issue (check health s).1 ≡ false)
check_mine health k expected s agrees low mine order =
    let track : Track = track_of (get health k) in
    let (next, quiet) =
      judge_in_order s track low
        (λ moving. expected_next health k expected s agrees (order moving)) in
    let held : (track_of (get (check health s).0 k)).next ≡ (judge s track).0.next =
      ap (λ o. (track_of o).next) (get-check_same health s k mine) in
    (
      elim (Bool-cases (counts s)) [
        | inl moving ↦ inr (held ∙ next ∙ rw moving refl)
        | inr still ↦ elim agrees [
          | inl fresh ↦ inl (held ∙ next ∙ rw still fresh)
          | inr same ↦ inr (held ∙ next ∙ rw still same)
        ]
      ],
      ap (any is_order_issue) (check-issues health s k mine) ∙ quiet,
    )

check_other :
    (health : Health) (k : Key) (expected : Option ℕ) (s : Segment)
    → Agrees health k expected
    → (s.key == k) ≡ false
    → Agrees (check health s).0 k expected
check_other health k expected s agrees other =
    let held : (track_of (get (check health s).0 k)).next
        ≡ (track_of (get (room_for health (get health s.key)) k)).next =
      ap (λ o. (track_of o).next) (get-check_other health s k other) in
    elim (room_for-Agrees health (get health s.key) k expected agrees) [
      | inl fresh ↦ inl (held ∙ fresh)
      | inr same ↦ inr (held ∙ same)
    ]

check_all-IsQuiet :
    (health : Health) (k : Key) (expected : Option ℕ) (ss : List Segment)
    → Agrees health k expected
    → in_order k expected ss ≡ true
    → All (IsQuiet k) (check_all health ss)
unfolding check_all in_order
check_all-IsQuiet health k expected [] agrees h = tt
check_all-IsQuiet health k expected (s ∷ ss) agrees h = elim (Bool-cases (s.key == k)) [
  | inl mine ↦
      let low : s.seq < 2 ^ 32 = ground arith in
      let (agrees_after, quiet) =
        check_mine health k expected s agrees low mine (λ moving. ground arith) in
      (
        λ _. quiet,
        check_all-IsQuiet (check health s).0 k (if counts s then some (end_of s) else expected) ss
            agrees_after
            (elim (Bool-cases (counts s)) [
              | inl moving ↦ rw moving (ground arith)
              | inr still ↦ rw still (ground arith)
            ]),
      )
  | inr other ↦ (
    λ same. ground arith,
    check_all-IsQuiet (check health s).0 k expected ss
        (check_other health k expected s agrees other) (ground arith),
  )
]

-- From an empty table on, the segments of a direction that follow one another, around 2 ** 32 as well,
-- are never said to be repeated, lost or reordered, whatever other segments stand between them and
-- however often the table is emptied.
pub check_all-in_order :
    (k : Key) (ss : List Segment) → in_order k none ss ≡ true → All (IsQuiet k) (check_all [] ss)
unfolding get
check_all-in_order k ss h = check_all-IsQuiet [] k none ss (inl refl) h
