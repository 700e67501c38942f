-- ===== src/Disk/Safety.antt =====
-- disk_delete.py: what a deletion may touch.
use homelab_agent.Prelude.{
  ◌≤◌, ◌≡◌, refl, sym, ap, ◌∙◌, ◌⊎◌, inl, inr, Bool, true, false, none, List, [], ◌∷◌, ◌++◌, ltb,
  length, all, All, arith, any, map, is_some, list_beq, contains,
}
use mathlib.Core.Path.{subst}
use homelab_agent.Prelude.Text.{Text, text}
use homelab_agent.Prelude.Result.{ok, Result-cases}
use homelab_agent.Disk.Path.{normalize, count_slashes, dirname, basename, is_under}
use homelab_agent.Disk.Normal.{is_part, render, render_parts, normalize-IsNormal}
use homelab_agent.Disk.Under.{is_prefix, is_under-folder, count_slashes-render}
use homelab_agent.Disk.Split.{basename-render, dirname-render}
use homelab_agent.Disk.Scans.{Scans}
use homelab_agent.Disk.Host.{
  Stat, Lstat, missing, broken, found, Host, on_host, container_mounts, mounted_under,
  is_mount_point, protected, root_above, Launch, Outcome, raised, exited,
}
use homelab_agent.Disk.Delete.{
  check, check_normal, delete, normal, Target, remove_command, after_helper,
}

-- the folders of the operating system, by their names
abbrev pub system_parts : List (List Text)
system_parts =
    (text "bin" ∷ [])
    ∷ (text "boot" ∷ [])
    ∷ (text "dev" ∷ [])
    ∷ (text "etc" ∷ [])
    ∷ (text "lib" ∷ [])
    ∷ (text "lib32" ∷ [])
    ∷ (text "lib64" ∷ [])
    ∷ (text "libx32" ∷ [])
    ∷ (text "proc" ∷ [])
    ∷ (text "root" ∷ [])
    ∷ (text "run" ∷ [])
    ∷ (text "sbin" ∷ [])
    ∷ (text "snap" ∷ [])
    ∷ (text "sys" ∷ [])
    ∷ (text "usr" ∷ [])
    ∷ (text "var" ∷ text "lib" ∷ text "docker" ∷ [])
    ∷ (text "var" ∷ text "lib" ∷ text "containerd" ∷ [])
    ∷ (text "var" ∷ text "lib" ∷ text "dpkg" ∷ [])
    ∷ (text "var" ∷ text "lib" ∷ text "apt" ∷ [])
    ∷ (text "var" ∷ text "lib" ∷ text "systemd" ∷ [])
    ∷ (text "var" ∷ text "run" ∷ [])
    ∷ []

system_parts-render : map render system_parts ≡ protected
unfolding render render_parts
system_parts-render = refl

-- a folder that is not the root
unfoldable pub is_root : List Text → Bool
is_root [] = false
is_root (part ∷ parts) = all is_part (part ∷ parts)

-- some of these folders is the path's or above it
abbrev pub is_inside : List Text → List (List Text) → Bool
is_inside parts roots = any (λ root. is_prefix root parts) roots

pub root_above-render :
    (parts : List Text) (roots : List (List Text))
    → all is_part parts ≡ true
    → all is_root roots ≡ true
    → is_some (root_above (render parts) (map render roots)) ≡ is_inside parts roots
unfolding root_above all any is_root
root_above-render parts [] h hs = refl
root_above-render parts ([] ∷ roots) h hs = ground arith
root_above-render parts ((q ∷ qs) ∷ roots) h hs =
    ground (arith, is_under-folder parts q qs h, root_above-render parts roots h)

pub mounted_under-none :
    (mounts : List (Text × Text)) (path : Text)
    → mounted_under mounts path ≡ none
    → All (λ m. is_under m.0 path ≡ false) mounts
unfolding mounted_under
mounted_under-none [] path h = tt
mounted_under-none ((source, name) ∷ mounts) path h =
    (ground arith, mounted_under-none mounts path (ground arith))

-- What may be deleted: a path below a top-level folder, outside the operating system, that is there,
-- is no mount point, and is not at or above anything that a running container mounts.
pub record IsRemovable (host : Host) (path : Text) : Type 0 where
  pub parts : List Text
  pub name : Text
  pub is_normal : all is_part (parts ++ name ∷ []) ≡ true
  pub rendered : path ≡ render_parts (parts ++ name ∷ [])
  pub is_deep : 1 ≤ length parts
  pub is_outside : is_inside (parts ++ name ∷ []) system_parts ≡ false
  pub stat : Stat
  pub is_there : host.lstat (on_host host path) ≡ found stat
  pub parent : Stat
  pub is_in : host.lstat (dirname (on_host host path)) ≡ found parent
  pub is_same_disk : is_mount_point stat parent ≡ false
  pub is_unused : All (λ m. is_under m.0 path ≡ false) (container_mounts host.running)

pub parts_snoc :
    (parts : List Text)
    → 2 ≤ length parts
    → (front : List Text) × (name : Text) × (parts ≡ front ++ name ∷ []) × (1 ≤ length front)
parts_snoc [] h = ground arith
parts_snoc (p ∷ []) h = ground arith
parts_snoc (p ∷ q ∷ []) h = (p ∷ [], q, refl, omega arith)
parts_snoc (p ∷ q ∷ r ∷ parts) h =
    let (front, name, same, deep) = parts_snoc (q ∷ r ∷ parts) (omega arith) in
    (p ∷ front, name, ap (λ s. p ∷ s) same, omega arith)

pub two_names :
    (parts : List Text)
    → all is_part parts ≡ true
    → ltb (count_slashes (render parts)) 2 ≡ false
    → 2 ≤ length parts
unfolding render render_parts count_slashes
two_names [] h deep = ground arith
two_names (part ∷ parts) h deep = ground (arith, count_slashes-render (part ∷ parts) h)

pub Lstat-cases : (l : Lstat) → (l ≡ missing) ⊎ (l ≡ broken) ⊎ ((stat : Stat) × (l ≡ found stat))
Lstat-cases missing = inl refl
Lstat-cases broken = inr (inl refl)
Lstat-cases (found stat) = inr (inr (stat, refl))

stat_there :
    (host : Host) (path : Text) (target : Target)
    → check_normal host path ≡ ok target
    → (stat : Stat) × (host.lstat (on_host host path) ≡ found stat)
unfolding check_normal
stat_there host path target h = elim (Lstat-cases (host.lstat (on_host host path))) [
  | inl at ↦ ground arith
  | inr (inl at) ↦ ground arith
  | inr (inr there) ↦ there
]

stat_above :
    (host : Host) (path : Text) (target : Target)
    → check_normal host path ≡ ok target
    → (stat : Stat) × (host.lstat (dirname (on_host host path)) ≡ found stat)
unfolding check_normal
stat_above host path target h = elim (Lstat-cases (host.lstat (dirname (on_host host path)))) [
  | inl at ↦ ground arith
  | inr (inl at) ↦ ground arith
  | inr (inr there) ↦ there
]

pub render-snoc :
    (front : List Text) (name : Text)
    → render (front ++ name ∷ []) ≡ render_parts (front ++ name ∷ [])
unfolding render
render-snoc [] name = refl
render-snoc (part ∷ front) name = refl

pub outside_system :
    (parts : List Text)
    → all is_part parts ≡ true
    → is_some (root_above (render parts) protected) ≡ false
    → is_inside parts system_parts ≡ false
unfolding all is_root is_part list_beq contains
outside_system parts normal outside =
    sym (root_above-render parts system_parts normal refl)
    ∙ ap (λ roots. is_some (root_above (render parts) roots)) system_parts-render
    ∙ outside

check_normal-IsRemovable :
    (host : Host) (parts : List Text) (target : Target)
    → all is_part parts ≡ true
    → check_normal host (render parts) ≡ ok target
    → (target.path ≡ render parts) × IsRemovable host (render parts)
unfolding check_normal render
check_normal-IsRemovable host parts target normal h =
    let deep : ltb (count_slashes (render parts)) 2 ≡ false = ground arith in
    let outside : root_above (render parts) protected ≡ none = ground arith in
    let unused : mounted_under (container_mounts host.running) (render parts) ≡ none =
      ground arith in
    let same : target.path ≡ render parts = ground arith in
    let (stat, there) = stat_there host (render parts) target h in
    let (parent, above) = stat_above host (render parts) target h in
    let disk : is_mount_point stat parent ≡ false = ground arith in
    let (front, name, split, long) = parts_snoc parts (two_names parts normal deep) in
    (
      same,
      record {
        parts = front;
        name = name;
        is_normal = ap (all is_part) (sym split) ∙ normal;
        rendered = ap render split ∙ render-snoc front name;
        is_deep = long;
        is_outside =
            ap (λ names. is_inside names system_parts) (sym split)
            ∙ outside_system parts normal (ap is_some outside);
        stat = stat;
        is_there = there;
        parent = parent;
        is_in = above;
        is_same_disk = disk;
        is_unused = mounted_under-none (container_mounts host.running) (render parts) unused;
      },
    )

-- the helper that removes this path
abbrev pub Removes : Host → Launch → Type 0
Removes host launch =
    (path : Text) × (removable : IsRemovable host path) × (launch.user ≡ none)
    × (launch.folder ≡ render removable.parts)
    × (launch.extra ≡ [])
    × (launch.command
        ≡ text "rm"
          ∷ text "-rf"
          ∷ text "--one-file-system"
          ∷ text "--"
          ∷ (text "/target/" ++ removable.name)
          ∷ [])

check-IsRemovable :
    (host : Host) (path : Text) (target : Target)
    → check host path ≡ ok target
    → IsRemovable host target.path
unfolding check
check-IsRemovable host path target h = elim (Result-cases (normalize path)) [
  | inl (e, at) ↦ ground arith
  | inr (answer, at) ↦
      let (parts, fine, rendered) = normalize-IsNormal path answer at in
      let ran : check_normal host answer ≡ ok target = ground arith in
      let (same, removable) =
        check_normal-IsRemovable host parts target fine
          (ap (check_normal host) (sym rendered) ∙ ran) in
      rw same removable
]

removable-Removes :
    (host : Host) (path : Text) → IsRemovable host path → Removes host (remove_command path)
removable-Removes host path r = (
  path,
  r,
  refl,
  ap dirname r.rendered ∙ dirname-render r.parts r.name r.is_normal,
  refl,
  ap
      (λ name.
        text "rm"
        ∷ text "-rf"
        ∷ text "--one-file-system"
        ∷ text "--"
        ∷ (text "/target/" ++ name)
        ∷ [])
      (ap basename r.rendered ∙ basename-render r.parts r.name r.is_normal),
)

after_helper-launched :
    (scans : Scans) (path : Text) (outcome : Outcome)
    → (after_helper scans path outcome).launched ≡ remove_command path ∷ []
after_helper-launched scans path (raised why) = refl
after_helper-launched scans path (exited code output) = ground arith

-- Every helper that a deletion starts removes one path by its name in its folder, and that path is
-- below a top-level folder, outside the operating system, there, no mount point, and neither mounted
-- by a running container nor above such a mount.
pub delete-Removes :
    (host : Host) (scans : Scans) (outcome : Outcome) (path : Text)
    → All (Removes host) (delete host scans outcome path).launched
unfolding delete
delete-Removes host scans outcome path = elim (Result-cases (check host path)) [
  | inl (e, at) ↦
      let none_launched : (delete host scans outcome path).launched ≡ [] = ground arith in
      subst (All (Removes host)) (sym none_launched) tt
  | inr (target, at) ↦
      let one_launched : (delete host scans outcome path).launched
          ≡ remove_command target.path ∷ [] =
        ground (arith, after_helper-launched scans target.path outcome) in
      subst (All (Removes host)) (sym one_launched)
        (removable-Removes host target.path (check-IsRemovable host path target at), tt)
]
