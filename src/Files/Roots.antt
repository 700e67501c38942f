-- ===== src/Files/Roots.antt =====
-- files.py: the folders that may be written to, and `why_not_writable`.
use homelab_agent.Prelude.{
  ℕ, zero, suc, Bool, true, not, ◌&&◌, ◌||◌, Option, none, some, List, [], ◌∷◌, ◌++◌, map,
  if◌then◌else◌, ltb, eqb, ◌==◌, contains, length, drop, keep_if, is_some, nat_eq, list_eq,
}
use homelab_agent.Prelude.Text.{Text, text, starts_with, split_on, strip, partition, text_le}
use homelab_agent.Prelude.Sort.{sort}
use homelab_agent.Disk.Path.{
  slash, is_under, normpath, rstrip_slashes, strip_slashes, dirname, join, count_slashes,
}
use homelab_agent.Disk.Host.{
  Host, missing, broken, found, on_host, is_symlink, protected, root_above, Container,
}
use homelab_agent.Disk.Scans.{folder_of}

-- `home_of` of the lines of /etc/passwd, by the user's id as it is written there
unfoldable pub home_in : Text → List Text → Option Text
home_in uid [] = none
home_in uid (line ∷ lines) =
    let rest = home_in uid lines in
    (elim (split_on 58 line) [
      | name ∷ password ∷ id ∷ group ∷ comment ∷ home ∷ fields ↦
          if id == uid then (if home == [] then none else some home) else rest
      | _ ↦ rest
    ])

-- without the user or the file there is no home
unfoldable pub home_of : Option Text → Option (List Text) → Option Text
home_of (some uid) (some lines) = home_in uid lines
home_of _ _ = none

-- value.replace("\n", ",").replace(":", ",")
abbrev pub comma : ℕ → ℕ
comma c = if eqb c 10 || eqb c 58 then 44 else c

-- _split
unfoldable pub split_paths : Text → List Text
split_paths value =
    map (λ part. rstrip_slashes (strip part))
      (keep_if (λ part. not (strip part == [])) (split_on 44 (map comma value)))

abbrev pub forbidden_paths : List Text
forbidden_paths =
    text "/"
    ∷ text "/bin"
    ∷ text "/boot"
    ∷ text "/dev"
    ∷ text "/etc"
    ∷ text "/lib"
    ∷ text "/lib64"
    ∷ text "/proc"
    ∷ text "/root"
    ∷ text "/run"
    ∷ text "/sbin"
    ∷ text "/sys"
    ∷ text "/usr"
    ∷ text "/var"
    ∷ text "/var/run"
    ∷ text "/var/lib/docker"
    ∷ []

-- the working directories of compose projects
unfoldable pub working_dirs : List Container → List Text
working_dirs [] = []
working_dirs (container ∷ containers) =
    let rest = working_dirs containers in
    (elim container.working_dir [
      | none ↦ rest
      | some folder ↦ if folder == [] then rest else folder ∷ rest
    ])

abbrev pub may_be_root : Text → Bool
may_be_root root =
    not (root == text "/")
    && not (contains forbidden_paths root)
    && not (is_some (root_above root protected))

abbrev pub option_list : Option Text → List Text
option_list none = []
option_list (some folder) = folder ∷ []

-- set(roots)
unfoldable pub distinct : List Text → List Text
distinct [] = []
distinct (root ∷ roots) =
    let rest = distinct roots in if contains rest root then rest else root ∷ rest

-- `write_roots` without its cache, from the home, the containers and the two settings
unfoldable pub write_roots : Option Text → Host → Text → Text → List Text
write_roots home host stack_dirs writable_paths =
    let folders = distinct (
      option_list home
      ++ working_dirs host.known
      ++ split_paths stack_dirs
      ++ split_paths writable_paths) in
    sort text_le (
      keep_if may_be_root
        (map normpath (keep_if (λ folder. starts_with folder (text "/")) folders)))

-- the longest of the roots that the path is under, the first of those as long
unfoldable pub longest : Text → List Text → Text
longest best [] = best
longest best (root ∷ roots) = longest (if ltb (length best) (length root) then root else best) roots

unfoldable pub root_for : Text → List Text → Option Text
unfolding longest
root_for path roots = elim (keep_if (is_under path) roots) [
  | [] ↦ none
  | root ∷ matches ↦ some (longest root matches)
]

-- `_folder_uid` on fuel: the owner of the nearest folder at or above the path that is there
unfoldable pub folder_uid_from : ℕ → Host → Text → Option ℕ
folder_uid_from zero host current = none
folder_uid_from (suc n) host current =
    let above = folder_uid_from n host (folder_of current) in
    (elim (host.lstat (on_host host current)) [
      | found stat ↦ some stat.uid
      | _ ↦ if current == text "/" || current == [] then none else above
    ])

unfoldable pub folder_uid : Host → Text → Option ℕ
folder_uid host path = folder_uid_from (suc (length path)) host path

pub data Reason : Type 0 where
  system top_level_folder root_owned os_raised : Reason
  linked : Text → Reason

-- the loop over the folders from the root to the path, with `current` the last that was looked at
unfoldable pub first_link : Host → Text → List Text → Option Reason
first_link host current [] = none
first_link host current (part ∷ parts) =
    let next = if part == [] then current else join current part in
    let rest = first_link host next parts in
    (elim (host.lstat (on_host host next)) [
      | missing ↦ none
      | broken ↦ some os_raised
      | found stat ↦ if is_symlink stat.kind then some (linked next) else rest
    ])

-- path[len(root):].strip("/").split("/")
abbrev pub parts_below : Text → Text → List Text
parts_below root path = split_on slash (rstrip_slashes (strip_slashes (drop (length root) path)))

-- "/" + path.strip("/").split("/")[0]
abbrev pub first_folder : Text → Text
first_folder path = slash ∷ (partition slash (strip_slashes path)).0

-- root's or nobody's
abbrev pub is_root_owned : Option ℕ → Bool
is_root_owned none = true
is_root_owned (some uid) = eqb uid 0

unfoldable pub why_not_writable : Host → List Text → Text → Option Reason
why_not_writable host roots path =
    if is_some (root_above path protected)
    then some system
    else if ltb (count_slashes path) 2
    then some top_level_folder
    else (elim (root_for path roots) [
      | some root ↦ first_link host root ([] ∷ parts_below root path)
      | none ↦
          if is_root_owned (folder_uid host (dirname path))
          then some root_owned
          else first_link host (first_folder path) (parts_below (first_folder path) path)
    ])
