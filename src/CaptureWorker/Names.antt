-- ===== src/CaptureWorker/Names.antt =====
-- capture_worker.py: `dns_name` ends on every message, within it.
use homelab_agent.Prelude.{
  ℕ, zero, suc, ◌+◌, ◌-◌, ◌*◌, ◌≤◌, ◌<◌, ◌≡◌, ◌≢◌, refl, ap, ◌⊎◌, inl, inr, Bool, true, false, some,
  List, [], ◌∷◌, ◌++◌, if◌then◌else◌, length, arith, Option-cases,
}
use mathlib.Core.Path.{subst}
use homelab_agent.Prelude.Text.{Text}
use homelab_agent.Prelude.Result.{Result, ok, err}
use homelab_agent.CaptureWorker.Dns.{
  Bytes, byte_at, Part, cut, stop, pointer, label, part_at, name_from, dns_name, max_pointers,
  Failure, out_of_fuel, decode_ascii, slice,
}

byte_at-some : (bytes : Bytes) (pos b : ℕ) → byte_at bytes pos ≡ some b → pos < length bytes
byte_at-some [] pos b h = ground arith
byte_at-some (x ∷ bytes) zero b h = omega arith
byte_at-some (x ∷ bytes) (suc pos) b h = omega (arith, byte_at-some bytes pos b h)

Part-cases :
    (p : Part)
    → (p ≡ cut)
      ⊎ (p ≡ stop)
      ⊎ ((target : ℕ) × (p ≡ pointer target))
      ⊎ ((size : ℕ) × (p ≡ label size))
Part-cases cut = inl refl
Part-cases stop = inr (inl refl)
Part-cases (pointer target) = inr (inr (inl (target, refl)))
Part-cases (label size) = inr (inr (inr (size, refl)))

-- a part that is there lies within the message
part_at-inside :
    (bytes : Bytes) (pos : ℕ)
    → ((part_at bytes pos ≡ stop) → pos < length bytes)
      × ((target : ℕ) → part_at bytes pos ≡ pointer target → pos + 1 < length bytes)
      × ((size : ℕ) → part_at bytes pos ≡ label size → pos < length bytes)
unfolding part_at
part_at-inside bytes pos = elim (Option-cases (byte_at bytes pos)) [
  | inl at ↦ (λ h. ground arith, λ target h. ground arith, λ size h. ground arith)
  | inr (b, at) ↦
      let here : pos < length bytes = byte_at-some bytes pos b at in
      (
        λ h. here,
        λ target h. elim (Option-cases (byte_at bytes (pos + 1))) [
          | inl over ↦ ground arith
          | inr (low, next) ↦ byte_at-some bytes (pos + 1) low next
        ],
        λ size h. here,
      )
]

-- how many rounds may be left
abbrev rounds : Bytes → ℕ → ℕ → ℕ
rounds bytes pos left = left * suc (length bytes) + (length bytes - pos)

name_from-ne-out_of_fuel :
    (n : ℕ) (bytes : Bytes) (jumped : Bool) (end pos left : ℕ) (labels : List Text)
    → rounds bytes pos left < n
    → name_from n bytes jumped end pos left labels ≢ err out_of_fuel
unfolding name_from
name_from-ne-out_of_fuel zero bytes jumped end pos left labels h = ground arith
name_from-ne-out_of_fuel (suc n) bytes jumped end pos zero labels h = λ same. ground arith
name_from-ne-out_of_fuel (suc n) bytes jumped end pos (suc left) labels h =
    elim (Part-cases (part_at bytes pos)) [
      | inl at ↦ rw (at, name_from) (λ same. ground arith)
      | inr (inl at) ↦ rw (at, name_from) (λ same. ground arith)
      | inr (inr (inl (target, at))) ↦
          rw (at, name_from)
            (name_from-ne-out_of_fuel n bytes true _ target left labels (omega arith))
      | inr (inr (inr (size, at))) ↦
          rw (at, name_from)
            (name_from-ne-out_of_fuel n bytes jumped _ (pos + 1 + size) (suc left) _
              (omega (arith, (part_at-inside bytes pos).2 size at)))
    ]

-- the end that a finished loop gives
end_given : Result Failure (List Text × ℕ) → ℕ
end_given (ok answer) = answer.1
end_given (err e) = 0

-- the record of a name is not empty and lies within the message
abbrev pub IsWithin : Bytes → ℕ → ℕ → Type 0
IsWithin bytes start end = (start < end) × (end ≤ length bytes)

-- the end after a part, which counts only before the first pointer
end_after :
    (bytes : Bytes) (jumped : Bool) (start end past : ℕ)
    → (jumped ≡ true → IsWithin bytes start end)
    → (jumped ≡ false → IsWithin bytes start past)
    → IsWithin bytes start (if jumped then end else past)
end_after bytes true start end past j u = j refl
end_after bytes false start end past j u = u refl

name_from-IsWithin :
    (n : ℕ) (bytes : Bytes) (jumped : Bool) (start end pos left : ℕ) (labels : List Text)
    (answer : List Text × ℕ)
    → name_from n bytes jumped end pos left labels ≡ ok answer
    → (jumped ≡ true → IsWithin bytes start end)
    → (jumped ≡ false → (start ≤ pos) × (1 ≤ left))
    → IsWithin bytes start answer.1
unfolding name_from end_given
name_from-IsWithin zero bytes jumped start end pos left labels answer h j u = ground arith
name_from-IsWithin (suc n) bytes true start end pos zero labels answer h j u =
    subst (IsWithin bytes start) (ap end_given h) (j refl)
name_from-IsWithin (suc n) bytes false start end pos zero labels answer h j u =
    ground (arith, (u refl).1)
name_from-IsWithin (suc n) bytes jumped start end pos (suc left) labels answer h j u =
    let (stops, points, labelled) = part_at-inside bytes pos in
    elim (Part-cases (part_at bytes pos)) [
      | inl at ↦ ground arith
      | inr (inl at) ↦
          let given : ok (labels, if jumped then end else pos + 1) ≡ ok answer = ground arith in
          subst (IsWithin bytes start) (ap end_given given) (
            end_after bytes jumped start end (pos + 1) j
              (λ first. (omega (arith, (u first).0), omega (arith, stops at))))
      | inr (inr (inl (target, at))) ↦
          name_from-IsWithin n bytes true start (if jumped then end else pos + 2) target left labels
            answer (ground arith)
            (λ _.
              end_after bytes jumped start end (pos + 2) j
                (λ first. (omega (arith, (u first).0), omega (arith, points target at))))
            (λ clash. ground arith)
      | inr (inr (inr (size, at))) ↦
          name_from-IsWithin n bytes jumped start (if jumped then end else pos + 1 + size)
            (pos + 1 + size) (suc left) (labels ++ decode_ascii (slice bytes (pos + 1) size) ∷ [])
            answer (ground arith) (λ again. rw again (j again))
            (λ first. (omega (arith, (u first).0), omega arith))
    ]

-- Reading a name always ends, however its pointers go. Where there is an answer, with all labels of the
-- name or with those that stand before one pointer too many, the record that was read starts where it
-- was asked for, is not empty, and lies in the message.
pub dns_name-IsWithin :
    (bytes : Bytes) (pos : ℕ)
    → (dns_name bytes pos ≢ err out_of_fuel)
      × ((answer : List Text × ℕ) → dns_name bytes pos ≡ ok answer → IsWithin bytes pos answer.1)
unfolding dns_name
dns_name-IsWithin bytes pos = (
  name_from-ne-out_of_fuel _ bytes false pos pos max_pointers [] (omega arith),
  λ answer h.
      name_from-IsWithin _ bytes false pos pos pos max_pointers [] answer h (λ clash. ground arith)
        (λ _. (omega arith, omega arith)),
)
