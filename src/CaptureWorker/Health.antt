-- ===== src/CaptureWorker/Health.antt =====
-- capture_worker.py: `TcpHealth`. A segment is what `check` reads of a packet; sequence numbers are
-- below 2 ** 32.
use homelab_agent.Prelude.{
  ℕ, suc, ◌+◌, ◌-◌, ◌%◌, ◌≡◌, ◌↔◌, Bool, true, false, not, ◌&&◌, Option, none, some, List, [], ◌∷◌,
  ◌++◌, if◌then◌else◌, ltb, leb, eqb, length, HasEq, ◌==◌, list_beq_iff, nat_eq, list_eq, arith,
}
use Prim.Native.Nat.{◌^◌}
use homelab_agent.Prelude.Text.{Text}
use homelab_agent.Prelude.Dict.{Dict, get, set}

abbrev pub max_entries : ℕ
max_entries = 50000

pub record Key : Type 0 where
  pub src : Text
  pub sport : ℕ
  pub dst : Text
  pub dport : ℕ

pub record Segment : Type 0 where
  pub key : Key
  pub seq : ℕ
  pub ack : ℕ
  pub win : ℕ
  pub plen : ℕ
  pub syn : Bool
  pub fin : Bool
  pub rst : Bool
  pub has_ack : Bool

-- ISSUE_LABELS
pub data Issue : Type 0 where
  retransmit gap dup_ack zero_window reset : Issue

pub record Track : Type 0 where
  pub next : Option ℕ
  pub ack : Option (ℕ × ℕ)
  pub dups : ℕ

abbrev pub new_track : Track
new_track = record { next = none; ack = none; dups = 0 }

unfoldable pub key_same : Key → Key → Bool
key_same k j = k.src == j.src && eqb k.sport j.sport && k.dst == j.dst && eqb k.dport j.dport

pub key_same_iff : (k j : Key) → (key_same k j ≡ true) ↔ (k ≡ j)
unfolding key_same
key_same_iff k j = ground (arith, list_beq_iff k.src j.src, list_beq_iff k.dst j.dst)

instance abbrev pub key_eq : HasEq Key
key_eq = record { same = key_same; same_iff = key_same_iff }

abbrev pub Health : Type 0
Health = Dict Key Track

-- `_signed(a - b) + 2**31`, so that 2 ** 31 stands for no difference and less for a negative one
abbrev pub signed_difference : ℕ → ℕ → ℕ
signed_difference a b = (a + (2 ^ 32 - b) + 2 ^ 31) % 2 ^ 32

abbrev pub bit : Bool → ℕ
bit true = 1
bit false = 0

-- how far the segment moves the sequence number
abbrev pub span : Segment → ℕ
span s = s.plen + bit s.syn + bit s.fin

abbrev pub end_of : Segment → ℕ
end_of s = (s.seq + span s) % 2 ^ 32

abbrev pub is_keep_alive : Segment → ℕ → Bool
is_keep_alive s behind = leb s.plen 1 && not s.syn && not s.fin && eqb behind (2 ^ 31 - 1)

abbrev pub issue_if : Bool → Issue → List Issue
issue_if true issue = issue ∷ []
issue_if false issue = []

-- what the sequence number says, and the one that is expected next
unfoldable pub follow : Segment → Option ℕ → Option ℕ × List Issue
follow s none = (some (end_of s), [])
follow s (some next) =
    let behind = signed_difference s.seq next in
    if ltb behind (2 ^ 31)
    then (
      (if ltb (2 ^ 31) (signed_difference (end_of s) next) then some (end_of s) else some next),
      issue_if (not (is_keep_alive s behind)) retransmit,
    )
    else (some (end_of s), issue_if (ltb (2 ^ 31) behind) gap)

abbrev pub same_marker : Option (ℕ × ℕ) → ℕ → ℕ → Bool
same_marker none ack win = false
same_marker (some (a, w)) ack win = eqb a ack && eqb w win

-- what the acknowledgement says
unfoldable pub acknowledge : Segment → Track → Track × List Issue
acknowledge s track =
    if same_marker track.ack s.ack s.win
    then (record track { dups = suc track.dups }, issue_if (leb 2 (suc track.dups)) dup_ack)
    else (record track { ack = some (s.ack, s.win); dups = 0 }, [])

abbrev pub first_issue : Segment → List Issue
first_issue s = if s.rst then reset ∷ [] else issue_if (eqb s.win 0 && not s.syn) zero_window

-- `if span and not rst`
unfoldable pub moved : Segment → Track → Track × List Issue
unfolding follow
moved s track =
    if not (eqb (span s) 0) && not s.rst
    then (record track { next = (follow s track.next).0 }, (follow s track.next).1)
    else (track, [])

-- `if "A" in flags and not (span or rst)`
unfoldable pub answered : Segment → Track → Track × List Issue
unfolding acknowledge
answered s track =
    if s.has_ack && eqb (span s) 0 && not s.rst then acknowledge s track else (track, [])

-- `check` on the entry of the segment's key
unfoldable pub judge : Segment → Track → Track × List Issue
unfolding moved answered
judge s track =
    let m = moved s track in let a = answered s m.0 in (a.0, first_issue s ++ m.1 ++ a.1)

abbrev pub track_of : Option Track → Track
track_of none = new_track
track_of (some track) = track

-- a new key empties a full table
abbrev pub room_for : Health → Option Track → Health
room_for health (some track) = health
room_for health none = if leb max_entries (length health) then [] else health

unfoldable pub check : Health → Segment → Health × List Issue
check health s =
    let judged = judge s (track_of (get health s.key)) in
    (set (room_for health (get health s.key)) s.key judged.0, judged.1)
