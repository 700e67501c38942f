-- ===== src/CaptureWorker/Answers.antt =====
-- capture_worker.py: the addresses that `parse_dns` finds.
use homelab_agent.Prelude.{
  ℕ, zero, suc, ◌+◌, ◌-◌, ◌%◌, ◌≤◌, ◌≡◌, refl, sym, inl, inr, true, not, ◌&&◌, ◌||◌, Option, none,
  some, List, [], ◌++◌, if◌then◌else◌, ltb, eqb, length, length-append, arith, All, All-append,
  Bool-cases,
}
use Prim.Native.Nat.{min}
use homelab_agent.Prelude.Text.{Text}
use homelab_agent.Prelude.Result.{Result, ok, err, Result-cases, ◌>>=◌}
use mathlib.Core.Path.{subst}
use homelab_agent.CaptureWorker.Dns.{
  Bytes, dns_name, word_at, Failure, Address, ipv4, ipv6, Shown, address, alias, Summary, query,
  failed, slice, answer_of, read_answer, Answer, Answers, read_answers, found_in, shown_in,
  max_answers, no_answers, summed, parse_question,
}

-- an address has the length of its kind
abbrev pub IsAddress : Address → Type 0
IsAddress (ipv4 raw) = length raw ≡ 4
IsAddress (ipv6 raw) = length raw ≡ 16

-- the address of the name that was asked for
abbrev pub IsFound : List Text → List Text × Address → Type 0
IsFound name (n, a) = (n ≡ name) × IsAddress a

-- what an answer adds to the addresses, none where it cannot be read
abbrev found_by : List Text → Result Failure (Option Shown) → List (List Text × Address)
found_by name (err e) = []
found_by name (ok shown) = found_in name shown

alias-IsFound :
    (name : List Text) (r : Result Failure (List Text × ℕ))
    → All (IsFound name) (found_by name (r >>= (λ target. ok (some (alias target.0)))))
alias-IsFound name (err e) = tt
alias-IsFound name (ok target) = tt

answer_of-IsFound :
    (bytes : Bytes) (kind next : ℕ) (rdata : Bytes) (name : List Text)
    → All (IsFound name) (found_by name (answer_of bytes kind next rdata))
unfolding answer_of
answer_of-IsFound bytes kind next rdata name =
    elim (Bool-cases (eqb kind 1 && eqb (length rdata) 4)) [
      | inl v4 ↦ rw v4 ((refl, ground arith), tt)
      | inr no_v4 ↦ rw no_v4 (elim (Bool-cases (eqb kind 28 && eqb (length rdata) 16)) [
        | inl v6 ↦ rw v6 ((refl, ground arith), tt)
        | inr no_v6 ↦ rw no_v6 (elim (Bool-cases (eqb kind 5 || eqb kind 12)) [
          | inl other ↦ rw other (alias-IsFound name (dns_name bytes (next - length rdata)))
          | inr no_other ↦ rw no_other tt
        ])
      ])
    ]

read_answer-IsFound :
    (bytes : Bytes) (pos : ℕ) (name : List Text) (answer : Answer)
    → read_answer bytes pos ≡ ok answer
    → All (IsFound name) (found_in name answer.shown)
unfolding read_answer
read_answer-IsFound bytes pos name answer h = elim (Result-cases (dns_name bytes pos)) [
  | inl (e, at) ↦ ground arith
  | inr (read, at) ↦ elim (Result-cases (word_at bytes read.1)) [
    | inl (e, no_kind) ↦ ground arith
    | inr (kind, at_kind) ↦ elim (Result-cases (word_at bytes (read.1 + 8))) [
      | inl (e, no_size) ↦ ground arith
      | inr (size, at_size) ↦
          let rdata : Bytes = slice bytes (read.1 + 10) size in
          (elim (Result-cases (answer_of bytes kind (read.1 + 10 + size) rdata)) [
            | inl (e, no_answer) ↦ ground arith
            | inr (shown, at_shown) ↦
                let same : shown ≡ answer.shown = ground arith in
                subst (λ s. All (IsFound name) (found_in name s)) same
                  (subst (λ r. All (IsFound name) (found_by name r)) at_shown
                    (answer_of-IsFound bytes kind (read.1 + 10 + size) rdata name))
          ])
    ]
  ]
]

-- the addresses so far and how many they may be
abbrev IsFoundAll : List Text → ℕ → Answers → Type 0
IsFoundAll name most answers = All (IsFound name) answers.found × (length answers.found ≤ most)

length-found_in : (name : List Text) (shown : Option Shown) → length (found_in name shown) ≤ 1
length-found_in name none = omega arith
length-found_in name (some (address a)) = omega arith
length-found_in name (some (alias labels)) = omega arith

read_answers-IsFoundAll :
    (n : ℕ) (bytes : Bytes) (name : List Text) (pos most : ℕ) (answers : Answers)
    → IsFoundAll name most answers
    → IsFoundAll name (most + n) (read_answers n bytes name pos answers)
unfolding read_answers
read_answers-IsFoundAll zero bytes name pos most answers (h, k) = (h, omega arith)
read_answers-IsFoundAll (suc n) bytes name pos most answers (h, k) =
    elim (Result-cases (read_answer bytes pos)) [
      | inl (e, at) ↦
          let same : read_answers (suc n) bytes name pos answers
              ≡ record answers { is_cut = true } =
            rw (at, read_answers) refl in
          subst (IsFoundAll name (most + suc n)) (sym same) (h, omega arith)
      | inr (answer, at) ↦
          let more : Answers = record answers {
            shown = answers.shown ++ shown_in answer.shown;
            found = answers.found ++ found_in name answer.shown;
          } in
          let same : read_answers (suc n) bytes name pos answers
              ≡ read_answers n bytes name answer.next more =
            rw (at, read_answers) refl in
          let step : IsFoundAll name (suc most) more = (
            All-append (IsFound name) answers.found (found_in name answer.shown)
                (read_answer-IsFound bytes pos name answer at) h,
            omega (
              arith,
              length-append answers.found (found_in name answer.shown),
              length-found_in name answer.shown,
            ),
          ) in
          let (found, bound) =
            read_answers-IsFoundAll n bytes name answer.next (suc most) more step in
          subst (IsFoundAll name (most + suc n)) (sym same) (found, omega arith)
    ]

-- what `parse_question` makes of the answers
abbrev answer_by : ℕ → ℕ → List Text → Answers → Summary × List (List Text × Address)
answer_by flags kind name read =
    if ltb flags 32768
    then (query kind name, [])
    else if not (eqb (flags % 16) 0)
    then (failed kind name (flags % 16), [])
    else summed kind name read

answer_by-IsFound :
    (flags kind : ℕ) (name : List Text) (read : Answers) (count : ℕ)
    → IsFoundAll name (0 + min count max_answers) read
    → All (IsFound name) (answer_by flags kind name read).1
      × (length (answer_by flags kind name read).1 ≤ 8)
answer_by-IsFound flags kind name read count (found, bound) = elim (Bool-cases (ltb flags 32768)) [
  | inl asked ↦ rw asked (tt, omega arith)
  | inr told ↦ rw told (elim (Bool-cases (not (eqb (flags % 16) 0))) [
    | inl failing ↦ rw failing (tt, omega arith)
    | inr fine ↦ rw fine (found, omega (arith, bound))
  ])
]

-- Of a message at most eight addresses are taken, all of them under the name that it asks for, and each
-- of four bytes or of sixteen.
pub parse_question-IsFound :
    (bytes : Bytes) (flags count : ℕ) (name : List Text × ℕ)
    (parsed : Summary × List (List Text × Address))
    → dns_name bytes 12 ≡ ok name
    → parse_question bytes flags count ≡ ok parsed
    → All (IsFound name.0) parsed.1 × (length parsed.1 ≤ 8)
unfolding parse_question
parse_question-IsFound bytes flags count name parsed at h =
    elim (Result-cases (word_at bytes name.1)) [
      | inl (e, no_kind) ↦ ground arith
      | inr (kind, at_kind) ↦
          let same : answer_by flags kind name.0
                (read_answers (min count max_answers) bytes name.0 (name.1 + 4) no_answers)
              ≡ parsed =
            ground arith in
          subst (λ p. All (IsFound name.0) p.1 × (length p.1 ≤ 8)) same
            (answer_by-IsFound flags kind name.0 _ count (
              read_answers-IsFoundAll (min count max_answers) bytes name.0 (name.1 + 4) 0 no_answers
                (tt, omega arith)))
    ]
