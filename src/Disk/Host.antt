-- ===== src/Disk/Host.antt =====
-- The host as disk_delete.py and files.py see it: `os.lstat` on the read-only mount of its disk, what
-- running containers mount, and the helper containers that the agent starts.
use homelab_agent.Prelude.{
  ℕ, Bool, true, false, not, ◌&&◌, Option, none, some, List, [], ◌∷◌, ◌++◌, if◌then◌else◌, ◌==◌,
  eqb, nat_eq, list_eq,
}
use homelab_agent.Prelude.Text.{Text, text}
use homelab_agent.Disk.Path.{rstrip_slashes, is_under}

pub data FileKind : Type 0 where
  directory symlink regular special : FileKind

pub record Stat : Type 0 where
  pub kind : FileKind
  pub device : ℕ
  pub uid : ℕ
  pub gid : ℕ

-- what `os.lstat` does: FileNotFoundError, another OSError, or a result
pub data Lstat : Type 0 where
  missing broken : Lstat
  found : Stat → Lstat

pub record Mount : Type 0 where
  pub is_bind : Bool
  pub source : Text

pub record Container : Type 0 where
  pub name : Text
  pub mounts : List Mount
  pub working_dir : Option Text

pub record Host : Type 0 where
  pub root : Text
  pub lstat : Text → Lstat
  -- os.path.isdir, which follows links
  pub is_dir : Text → Bool
  -- what `containers.list` answers, without and with those that are stopped
  pub running : List Container
  pub known : List Container

-- _on_host
unfoldable pub on_host : Host → Text → Text
on_host host path =
    let whole = host.root ++ (if path == text "/" then [] else path) in
    if whole == [] then text "/" else whole

abbrev pub is_directory : FileKind → Bool
is_directory directory = true
is_directory _ = false

abbrev pub is_symlink : FileKind → Bool
is_symlink symlink = true
is_symlink _ = false

-- _container_mounts
unfoldable pub mounts_of : Text → List Mount → List (Text × Text)
mounts_of name [] = []
mounts_of name (mount ∷ mounts) =
    let rest = mounts_of name mounts in
    let source = rstrip_slashes mount.source in
    if mount.is_bind && not (mount.source == [])
    then (if source == [] then text "/" else source, name) ∷ rest
    else rest

unfoldable pub container_mounts : List Container → List (Text × Text)
container_mounts [] = []
container_mounts (container ∷ containers) =
    mounts_of container.name container.mounts ++ container_mounts containers

-- the first mount at or below the path
unfoldable pub mounted_under : List (Text × Text) → Text → Option (Text × Text)
mounted_under [] path = none
mounted_under ((source, name) ∷ mounts) path =
    let rest = mounted_under mounts path in
    if is_under source path then some (source, name) else rest

-- a folder of another device than the one it stands in
abbrev pub is_mount_point : Stat → Stat → Bool
is_mount_point stat parent = is_directory stat.kind && not (eqb stat.device parent.device)

-- PROTECTED
abbrev pub protected : List Text
protected =
    text "/bin"
    ∷ text "/boot"
    ∷ text "/dev"
    ∷ text "/etc"
    ∷ text "/lib"
    ∷ text "/lib32"
    ∷ text "/lib64"
    ∷ text "/libx32"
    ∷ text "/proc"
    ∷ text "/root"
    ∷ text "/run"
    ∷ text "/sbin"
    ∷ text "/snap"
    ∷ text "/sys"
    ∷ text "/usr"
    ∷ text "/var/lib/docker"
    ∷ text "/var/lib/containerd"
    ∷ text "/var/lib/dpkg"
    ∷ text "/var/lib/apt"
    ∷ text "/var/lib/systemd"
    ∷ text "/var/run"
    ∷ []

-- the first root that the path is at or under
unfoldable pub root_above : Text → List Text → Option Text
root_above path [] = none
root_above path (root ∷ roots) =
    let rest = root_above path roots in if is_under path root then some root else rest

-- a helper container: the folder it mounts for writing, other folders with where they go and whether
-- they can be written, the user and group it runs as where it is not root, and its command
pub record Launch : Type 0 where
  pub user : Option (ℕ × ℕ)
  pub folder : Text
  pub extra : List (Text × Text × Bool)
  pub command : List Text

-- how a helper ends: Docker raises, or it exits with a code
pub data Outcome : Type 0 where
  raised : Text → Outcome
  exited : ℕ → Text → Outcome

abbrev pub is_found : Lstat → Bool
is_found (found stat) = true
is_found _ = false

-- os.path.lexists
abbrev pub lexists : Host → Text → Bool
lexists host path = is_found (host.lstat path)
