-- ===== src/Files/Confined.antt =====
-- files.py: what the helpers that `rename`, `make_folder`, `move` and `copy` start may change.
use homelab_agent.Prelude.{◌≡◌, ◌⊎◌, true, false, List, [], ◌∷◌, ◌++◌, nat_eq, list_eq}
use homelab_agent.Prelude.Text.{Text, text}
use homelab_agent.Prelude.Result.{Result}
use homelab_agent.Disk.Path.{dirname, basename, join}
use homelab_agent.Disk.Host.{Host, Launch}
use homelab_agent.Files.Guards.{IsMovable, IsFree, IsApart}

-- the helper of `move`: it takes a path that may be moved to a free place outside of it
abbrev pub Moves : Host → List Text → Launch → Type 0
Moves host roots launch =
    (path : Text) × (dest : Text) × IsMovable host roots path
    × IsFree host roots dest
    × IsApart path dest
    × (launch.folder ≡ dirname path)
    × (launch.extra ≡ (dirname dest, text "/dest", true) ∷ [])
    × (launch.command
        ≡ text "mv" ∷ text "-n" ∷ text "--" ∷ basename path ∷ (text "/dest/" ++ basename dest) ∷ [])

-- the helper of `copy`: it writes to a free place outside of what it reads, unless it reads all of "/"
abbrev pub Copies : Host → List Text → Launch → Type 0
Copies host roots launch =
    (path : Text) × (dest : Text) × IsFree host roots dest
    × ((path ≡ text "/") ⊎ IsApart path dest)
    × (launch.folder ≡ dirname dest)
    × (launch.extra ≡ (dirname path, text "/source", false) ∷ [])
    × (launch.command
        ≡ text "cp"
          ∷ text "-a"
          ∷ text "--"
          ∷ (text "/source/" ++ basename path)
          ∷ basename dest
          ∷ [])

-- the helper of `make_folder`: a new folder in a free place
abbrev pub Makes : Host → List Text → Launch → Type 0
Makes host roots launch =
    (path : Text) × IsFree host roots path
    × (launch.folder ≡ dirname path)
    × (launch.extra ≡ [])
    × (launch.command ≡ text "mkdir" ∷ text "--" ∷ basename path ∷ [])

-- the helper of `rename`: it gives a path that may be moved a free name in the same folder
abbrev pub Renames : Host → List Text → Launch → Type 0
Renames host roots launch =
    (path : Text) × (name : Text) × IsMovable host roots path
    × IsFree host roots (join (dirname path) name)
    × (launch.folder ≡ dirname path)
    × (launch.extra ≡ [])
    × (launch.command ≡ text "mv" ∷ text "-n" ∷ text "--" ∷ basename path ∷ name ∷ [])
