-- ===== src/CaptureWorker/Written.antt =====
-- capture_worker.py: `dns_name` on names that are written the way RFC 1035 has it.
use homelab_agent.Prelude.{
  ℕ, ◌+◌, ◌/◌, ◌%◌, ◌≤◌, ◌≡◌, Bool, List, [], ◌∷◌, ◌++◌, if◌then◌else◌, length, drop,
}
use homelab_agent.Prelude.Text.{Text}
use homelab_agent.CaptureWorker.Dns.{Bytes}

-- a label of 1 to 63 bytes
abbrev pub IsLabel : Bytes → Type 0
IsLabel l = (1 ≤ length l) × (length l ≤ 63)

-- each label after its length
abbrev pub write_labels : List Bytes → Bytes
write_labels [] = []
write_labels (l ∷ ls) = length l ∷ l ++ write_labels ls

-- the two bytes of a pointer, its upper bits set
abbrev pub pointer_to : ℕ → Bytes
pointer_to target = (192 + target / 256) ∷ (target % 256) ∷ []

-- these bytes stand at an offset of the message
abbrev pub Stands : Bytes → ℕ → Bytes → Type 0
Stands bytes pos written = (rest : Bytes) × (drop pos bytes ≡ written ++ rest)

-- the end of the record, which stays where the first pointer was
abbrev end_of : Bool → ℕ → ℕ → ℕ
end_of jumped end pos = if jumped then end else pos
