-- ===== src/Connections/Processes.antt =====
-- connections.py: `_name_host_processes`, which asks sockets.py for the rows without a container.
use mathlib.Core.Path.{subst}
use homelab_agent.Prelude.{
  ℕ, ◌≡◌, ◌⊎◌, refl, sym, inl, inr, Bool, true, false, not, Option, none, some, List, [], ◌∷◌, ◌++◌,
  arith, ◌==◌, nat_eq, list_eq, map, keep_if, contains, if◌then◌else◌, Bool-cases,
}
use homelab_agent.Prelude.Dict.{Dict, get}
use homelab_agent.Connections.Aggregate.{Row}
use homelab_agent.Sockets.Table.{Socket, SocketIndex, build_index, match_socket}
use homelab_agent.Sockets.Owners.{Process, Owner, owners}
use homelab_agent.Sockets.Holders.{IsHeld, list_of, owners-IsHeld}

abbrev is_empty {ℓ} : {A : Type ℓ} → List A → Bool
is_empty [] = true
is_empty (_ ∷ _) = false

pub data Naming : Type 0 where
  off named no_sockets denied unmatched : Naming

abbrev pub is_unclaimed : Row → Bool
is_unclaimed row = elim row.container [ none ↦ true | some name ↦ name == [] ]

abbrev add_inode : Option ℕ → List ℕ → List ℕ
add_inode none wanted = wanted
add_inode (some inode) wanted = if contains wanted inode then wanted else wanted ++ inode ∷ []

-- the loop that fills `wanted`
unfoldable pub wanted_from : SocketIndex → List Row → List ℕ → List ℕ
wanted_from index [] wanted = wanted
wanted_from index (row ∷ rows) wanted =
    wanted_from index rows (add_inode (match_socket row.flow index) wanted)

abbrev found_for : Dict ℕ Owner → Option ℕ → Option Owner
found_for found none = none
found_for found (some inode) = get found inode

abbrev named_after : Row → Option Owner → Row
named_after row none = row
named_after row (some owner) = record row { process = owner.process; pid = some owner.pid }

abbrev name_row : SocketIndex → Dict ℕ Owner → Row → Row
name_row index found row =
    if is_unclaimed row
    then named_after row (found_for found (match_socket row.flow index))
    else row

-- `_name_host_processes` and the rows as it leaves them. `is_enabled` is CONNECTIONS_PROCESSES, and
-- `sockets` is `none` where reading them raises an OSError.
unfoldable pub name_host_processes :
    Bool → Option (List Socket) → Option (List Process) → List Row → List Row × Naming
unfolding wanted_from
name_host_processes is_enabled none processes peers =
    if not is_enabled
    then (peers, off)
    else if is_empty (keep_if is_unclaimed peers)
    then (peers, named)
    else (peers, no_sockets)
name_host_processes is_enabled (some sockets) processes peers =
    let unclaimed = keep_if is_unclaimed peers in
    let index = build_index sockets in
    let (found, is_denied) = owners (wanted_from index unclaimed []) processes in
    if not is_enabled
    then (peers, off)
    else if is_empty unclaimed
    then (peers, named)
    else if is_empty index.by_port
    then (peers, no_sockets)
    else (
      map (name_row index found) peers,
      if not (is_empty found) then named else if is_denied then denied else unmatched,
    )

-- the row is as before, or had no container and is named after a process that holds the socket
-- behind its flow
abbrev pub IsNamed : List Socket → List Process → Row → Row → Type 0
IsNamed sockets processes before after =
    (after ≡ before)
    ⊎ ((is_unclaimed before ≡ true)
        × (inode : ℕ) × (owner : Owner) × (match_socket before.flow (build_index sockets)
            ≡ some inode)
        × IsHeld processes inode owner
        × (after ≡ record before { process = owner.process; pid = some owner.pid }))

abbrev pub AllNamed : List Socket → List Process → List Row → List Row → Type 0
AllNamed sockets processes [] [] = Unit
AllNamed sockets processes [] (_ ∷ _) = ⊥
AllNamed sockets processes (_ ∷ _) [] = ⊥
AllNamed sockets processes (before ∷ befores) (after ∷ afters) =
    IsNamed sockets processes before after × AllNamed sockets processes befores afters

unchanged :
    (sockets : List Socket) (processes : List Process) (rows : List Row)
    → AllNamed sockets processes rows rows
unchanged sockets processes [] = tt
unchanged sockets processes (row ∷ rows) = (inl refl, unchanged sockets processes rows)

module _ (sockets : List Socket) (processes : List Process) (found : Dict ℕ Owner)
    (held : (i : ℕ) (owner : Owner) → get found i ≡ some owner → IsHeld processes i owner) where
  named_after-IsNamed :
      (row : Row) (inode : Option ℕ) (owner : Option Owner)
      → is_unclaimed row ≡ true
      → match_socket row.flow (build_index sockets) ≡ inode
      → found_for found inode ≡ owner
      → IsNamed sockets processes row (named_after row owner)
  named_after-IsNamed row inode none free matched at = inl refl
  named_after-IsNamed row none (some owner) free matched at = ground arith
  named_after-IsNamed row (some i) (some owner) free matched at =
      inr (free, i, owner, matched, held i owner at, refl)

  name_row-IsNamed :
      (row : Row) → IsNamed sockets processes row (name_row (build_index sockets) found row)
  name_row-IsNamed row = elim (Bool-cases (is_unclaimed row)) [
    | inr taken ↦ rw taken (inl refl)
    | inl free ↦
        let inode : Option ℕ = match_socket row.flow (build_index sockets) in
        subst
          (λ b.
            IsNamed sockets processes row
              (if b then named_after row (found_for found inode) else row))
          (sym free) (named_after-IsNamed row inode (found_for found inode) free refl refl)
  ]

  rows-AllNamed :
      (rows : List Row)
      → AllNamed sockets processes rows (map (name_row (build_index sockets) found) rows)
  rows-AllNamed [] = tt
  rows-AllNamed (row ∷ rows) = (name_row-IsNamed row, rows-AllNamed rows)

-- of three tests the first that holds decides
first_of :
    (P : List Row → Type 0) (b c d : Bool) (x y z w : List Row × Naming)
    → P x.0
    → P y.0
    → P z.0
    → P w.0
    → P (if b then x else if c then y else if d then z else w).0
first_of P true c d x y z w hx hy hz hw = hx
first_of P false true d x y z w hx hy hz hw = hy
first_of P false false true x y z w hx hy hz hw = hz
first_of P false false false x y z w hx hy hz hw = hw

-- Each row is left as it was, or it had no container and is named after a process that holds the
-- socket which `match` finds for its flow; nothing else of it changes.
pub name_host_processes-AllNamed :
    (is_enabled : Bool) (sockets : Option (List Socket)) (processes : Option (List Process))
    (peers : List Row)
    → AllNamed
        (list_of sockets)
        (list_of processes)
        peers
        (name_host_processes is_enabled sockets processes peers).0
unfolding name_host_processes
name_host_processes-AllNamed is_enabled none processes peers =
    let same : AllNamed [] (list_of processes) peers peers =
      unchanged [] (list_of processes) peers in
    first_of (AllNamed [] (list_of processes) peers) (not is_enabled)
      (is_empty (keep_if is_unclaimed peers)) true (peers, off) (peers, named) (peers, no_sockets)
      (peers, no_sockets) same same same same
name_host_processes-AllNamed is_enabled (some sockets) processes peers =
    let index : SocketIndex = build_index sockets in
    let wanted : List ℕ = wanted_from index (keep_if is_unclaimed peers) [] in
    let found : Dict ℕ Owner = (owners wanted processes).0 in
    let same : AllNamed sockets (list_of processes) peers peers =
      unchanged sockets (list_of processes) peers in
    first_of (AllNamed sockets (list_of processes) peers) (not is_enabled)
      (is_empty (keep_if is_unclaimed peers)) (is_empty index.by_port) (peers, off) (peers, named)
      (peers, no_sockets)
      (
        map (name_row index found) peers,
        if not (is_empty found)
            then named
            else if (owners wanted processes).1
            then denied
            else unmatched,
      )
      same same same
      (rows-AllNamed sockets (list_of processes) found
        (λ i owner at. (owners-IsHeld wanted processes i owner at).1) peers)
