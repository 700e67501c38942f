-- ===== src/Sockets/Owners.antt =====
-- sockets.py: `owners`, on what `_socket_inodes` and `comm` give for each process directory.
use homelab_agent.Prelude.{
  ℕ, suc, ◌*◌, Bool, false, ◌&&◌, Option, none, some, List, [], ◌∷◌, if◌then◌else◌, ltb, eqb,
  length, keep_if, contains, nat_eq, list_eq, ◌==◌,
}
use homelab_agent.Prelude.Text.{Text}
use homelab_agent.Prelude.Dict.{Dict, set}

abbrev pub max_processes : ℕ
max_processes = 2000

pub record Process : Type 0 where
  pub pid : ℕ
  -- `comm`, with `none` for an OSError
  pub name : Option Text
  pub inodes : List ℕ
  pub denied : Bool

pub record Owner : Type 0 where
  pub pid : ℕ
  pub process : Option Text

pub record Walk : Type 0 where
  pub found : Dict ℕ Owner
  pub scanned : ℕ
  pub refused : ℕ

unfoldable pub note_all : List ℕ → Owner → Dict ℕ Owner → Dict ℕ Owner
note_all [] owner found = found
note_all (inode ∷ inodes) owner found = note_all inodes owner (set found inode owner)

-- one process
unfoldable pub visit : List ℕ → Process → Walk → Walk
unfolding note_all
visit wanted p walk = record {
  found =
      note_all (keep_if (contains wanted) p.inodes) (record { pid = p.pid; process = p.name })
        walk.found;
  scanned = suc walk.scanned;
  refused = if p.denied then suc walk.refused else walk.refused;
}

-- the loop; it stops after too many processes, and once every inode is found
unfoldable pub walk_all : List ℕ → List Process → Walk → Walk
unfolding visit
walk_all wanted [] walk = walk
walk_all wanted (p ∷ ps) walk =
    let after = visit wanted p walk in
    let rest = walk_all wanted ps after in
    if ltb max_processes (suc walk.scanned)
    then record walk { scanned = suc walk.scanned }
    else if keep_if (contains wanted) p.inodes == []
    then rest
    else if eqb (length after.found) (length wanted)
    then after
    else rest

abbrev pub is_denied : Walk → Bool
is_denied walk = ltb 0 walk.scanned && ltb walk.scanned (2 * walk.refused)

-- owners, with `none` for a /proc that cannot be listed
unfoldable pub owners : List ℕ → Option (List Process) → Dict ℕ Owner × Bool
unfolding walk_all
owners wanted none = ([], false)
owners wanted (some processes) =
    let walk = walk_all wanted processes (record { found = []; scanned = 0; refused = 0 }) in
    if wanted == [] then ([], false) else (walk.found, is_denied walk)
