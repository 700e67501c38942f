-- ===== src/CaptureWorker/Dns.antt =====
-- capture_worker.py: `dns_name` and `parse_dns`. A message is the list of its bytes; a `ValueError`, a
-- `struct.error` and an `IndexError` are one case, which the code treats alike.
use homelab_agent.Prelude.{
  ℕ, zero, suc, ◌+◌, ◌-◌, ◌*◌, ◌/◌, ◌%◌, Bool, true, false, not, ◌&&◌, ◌||◌, Option, none, some,
  List, [], ◌∷◌, ◌++◌, map, if◌then◌else◌, ltb, eqb, length, take, drop,
}
use Prim.Native.Nat.{min}
use homelab_agent.Prelude.Text.{Text}
use homelab_agent.Prelude.Result.{Result, ok, err, ◌>>=◌, ◌>>◌, require}

abbrev pub Bytes : Type 0
Bytes = List ℕ

pub data Failure : Type 0 where
  out_of_fuel truncated : Failure

-- data[pos]
abbrev pub byte_at : Bytes → ℕ → Option ℕ
byte_at [] pos = none
byte_at (b ∷ bytes) zero = some b
byte_at (b ∷ bytes) (suc pos) = byte_at bytes pos

-- data[pos:pos + size]
abbrev pub slice : Bytes → ℕ → ℕ → Bytes
slice bytes pos size = take size (drop pos bytes)

-- raw.decode("ascii", "replace")
unfoldable pub decode_ascii : Bytes → Text
decode_ascii raw = map (λ b. if ltb b 128 then b else 65533) raw

-- what stands at an offset of a name: the end of the message, the end of the name, a pointer, or a
-- label of so many bytes
pub data Part : Type 0 where
  cut stop : Part
  pointer label : ℕ → Part

unfoldable pub part_at : Bytes → ℕ → Part
part_at bytes pos = elim (byte_at bytes pos) [
  | none ↦ cut
  | some size ↦
      if eqb size 0
      then stop
      else if eqb (size / 64 % 4) 3
      then (elim (byte_at bytes (pos + 1)) [
        | none ↦ cut
        | some low ↦ pointer (size % 64 * 256 + low)
      ])
      else label size
]

-- the loop of `dns_name`, with how many pointers may still be followed
unfoldable pub name_from : ℕ → Bytes → Bool → ℕ → ℕ → ℕ → List Text → Result Failure (List Text × ℕ)
name_from zero bytes jumped end pos left labels = err out_of_fuel
name_from (suc n) bytes jumped end pos zero labels = ok (labels, end)
name_from (suc n) bytes jumped end pos (suc left) labels = elim (part_at bytes pos) [
  | cut ↦ err truncated
  | stop ↦ ok (labels, if jumped then end else pos + 1)
  | pointer target ↦ name_from n bytes true (if jumped then end else pos + 2) target left labels
  | label size ↦
      name_from n bytes jumped (if jumped then end else pos + 1 + size) (pos + 1 + size) (suc left)
        (labels ++ decode_ascii (slice bytes (pos + 1) size) ∷ [])
]

abbrev pub max_pointers : ℕ
max_pointers = 20

-- `dns_name`: the labels, and the offset just past the name in the record
unfoldable pub dns_name : Bytes → ℕ → Result Failure (List Text × ℕ)
dns_name bytes pos =
    name_from (suc ((suc max_pointers) * suc (length bytes))) bytes false pos pos max_pointers []

-- struct.unpack("!H", data[pos:pos + 2])[0]
unfoldable pub word_at : Bytes → ℕ → Result Failure ℕ
word_at bytes pos = elim (byte_at bytes pos) [
  | none ↦ err truncated
  | some high ↦ elim (byte_at bytes (pos + 1)) [
    | none ↦ err truncated
    | some low ↦ ok (high * 256 + low)
  ]
]

pub data Address : Type 0 where
  ipv4 ipv6 : Bytes → Address

pub data Shown : Type 0 where
  address : Address → Shown
  alias : List Text → Shown

pub data Summary : Type 0 where
  broken : Summary
  query : ℕ → List Text → Summary
  failed : ℕ → List Text → ℕ → Summary
  answered : ℕ → List Text → List Shown → Bool → Summary

-- what one answer adds: the offset after it, what is shown, and the address
pub record Answer : Type 0 where
  pub next : ℕ
  pub shown : Option Shown

-- an answer's bytes by its type
unfoldable pub answer_of : Bytes → ℕ → ℕ → Bytes → Result Failure (Option Shown)
unfolding dns_name
answer_of bytes kind next rdata =
    let name = dns_name bytes (next - length rdata) in
    if eqb kind 1 && eqb (length rdata) 4
    then ok (some (address (ipv4 rdata)))
    else if eqb kind 28 && eqb (length rdata) 16
    then ok (some (address (ipv6 rdata)))
    else if eqb kind 5 || eqb kind 12
    then (do target ← name; ok (some (alias target.0)))
    else ok none

-- one round of the loop over the answers
unfoldable pub read_answer : Bytes → ℕ → Result Failure Answer
unfolding dns_name answer_of word_at
read_answer bytes pos = do
  name ← dns_name bytes pos
  kind ← word_at bytes name.1
  size ← word_at bytes (name.1 + 8)
  require (eqb (length (slice bytes (name.1 + 10) size)) size) truncated
  shown ← answer_of bytes kind (name.1 + 10 + size) (slice bytes (name.1 + 10) size)
  ok (record { next = name.1 + 10 + size; shown = shown })

-- the address that an answer maps the name to
abbrev pub found_in : List Text → Option Shown → List (List Text × Address)
found_in name (some (address a)) = (name, a) ∷ []
found_in name _ = []

abbrev pub shown_in : Option Shown → List Shown
shown_in none = []
shown_in (some s) = s ∷ []

pub record Answers : Type 0 where
  pub shown : List Shown
  pub found : List (List Text × Address)
  pub is_cut : Bool

unfoldable pub read_answers : ℕ → Bytes → List Text → ℕ → Answers → Answers
read_answers zero bytes name pos answers = answers
read_answers (suc n) bytes name pos answers = (elim (read_answer bytes pos) [
  | err e ↦ record answers { is_cut = true }
  | ok answer ↦ read_answers n bytes name answer.next (record answers {
    shown = answers.shown ++ shown_in answer.shown;
    found = answers.found ++ found_in name answer.shown;
  })
])

-- the answers that are read
abbrev pub max_answers : ℕ
max_answers = 8

abbrev pub no_answers : Answers
no_answers = record { shown = []; found = []; is_cut = false }

-- the first four are shown
abbrev pub summed : ℕ → List Text → Answers → Summary × List (List Text × Address)
summed kind name read = (answered kind name (take 4 read.shown) read.is_cut, read.found)

-- `parse_dns`, once the header is there and asks for something
unfoldable pub parse_question :
    Bytes → ℕ → ℕ → Result Failure (Summary × List (List Text × Address))
unfolding dns_name word_at read_answers
parse_question bytes flags count = do
  name ← dns_name bytes 12
  kind ← word_at bytes name.1
  ok (
      if ltb flags 32768
      then (query kind name.0, [])
      else if not (eqb (flags % 16) 0)
      then (failed kind name.0 (flags % 16), [])
      else summed kind name.0
          (read_answers (min count max_answers) bytes name.0 (name.1 + 4) no_answers))

abbrev pub or_broken :
    Result Failure (Summary × List (List Text × Address)) → Summary × List (List Text × Address)
or_broken (err e) = (broken, [])
or_broken (ok parsed) = parsed

-- `parse_dns`: what it says and the addresses it found; the texts are `Summary`'s
unfoldable pub parse_dns : Bytes → Option (Summary × List (List Text × Address))
unfolding parse_question word_at
parse_dns bytes = if ltb (length bytes) 12 then none else (elim (word_at bytes 2) [
  | err e ↦ none
  | ok flags ↦ elim (word_at bytes 4) [
    | err e ↦ none
    | ok questions ↦ elim (word_at bytes 6) [
      | err e ↦ none
      | ok count ↦
          if eqb questions 0 then none else some (or_broken (parse_question bytes flags count))
    ]
  ]
])
