-- ===== src/Files/Guards.antt =====
-- files.py: what has been checked when `_guard_source` and `_destination` let a change pass.
use homelab_agent.Prelude.{
  ◌≡◌, refl, sym, ap, ◌∙◌, inl, inr, ◌⊎◌, true, false, none, List, [], ◌∷◌, ◌++◌, contains, all,
  All, nat_eq, list_eq, arith, all-front, all-snoc,
}
use mathlib.Core.Path.{subst}
use homelab_agent.Prelude.Text.{Text}
use homelab_agent.Prelude.Result.{ok, Result-cases}
use homelab_agent.Disk.Path.{normalize, dirname, basename, join, is_under}
use homelab_agent.Disk.Normal.{is_part, render, normalize-IsNormal}
use homelab_agent.Disk.Host.{
  Host, Stat, Lstat, found, missing, broken, is_directory, on_host, lexists, container_mounts,
  mounted_under,
}
use homelab_agent.Disk.Safety.{Lstat-cases, mounted_under-none, parts_snoc, render-snoc}
use homelab_agent.Disk.Under.{is_prefix, is_under-is_prefix}
use homelab_agent.Disk.Split.{dirname-render, basename-render}
use homelab_agent.Files.Roots.{why_not_writable}
use homelab_agent.Files.Policy.{IsChangeable, why_not_writable-IsChangeable, join-render}
use homelab_agent.Files.Change.{guard_source, not_mount_point, destination, normal, is_plain}

-- A path that may be moved, renamed or deleted: it may be changed, is not a root, is there, is no mount
-- point, and is not at or above anything that a running container mounts.
pub record IsMovable (host : Host) (roots : List Text) (path : Text) : Type 0 where
  pub changeable : IsChangeable host roots path
  pub is_not_root : contains roots path ≡ false
  pub stat : Stat
  pub is_there : host.lstat (on_host host path) ≡ found stat
  pub is_same_disk :
      is_directory stat.kind ≡ true
      → (parent : Stat) × (host.lstat (dirname (on_host host path)) ≡ found parent)
        × (stat.device ≡ parent.device)
  pub is_unused : All (λ m. is_under m.0 path ≡ false) (container_mounts host.running)

stat_there :
    (host : Host) (roots : List Text) (path : Text)
    → guard_source host roots path ≡ ok tt
    → (stat : Stat) × (host.lstat (on_host host path) ≡ found stat)
unfolding guard_source
stat_there host roots path h = elim (Lstat-cases (host.lstat (on_host host path))) [
  | inl at ↦ ground arith
  | inr (inl at) ↦ ground arith
  | inr (inr there) ↦ there
]

same_disk :
    (stat : Stat) (above : Lstat)
    → not_mount_point stat above ≡ ok tt
    → is_directory stat.kind ≡ true
    → (parent : Stat) × (above ≡ found parent) × (stat.device ≡ parent.device)
same_disk stat missing h folder = ground arith
same_disk stat broken h folder = ground arith
same_disk stat (found parent) h folder =
    let same : stat.device ≡ parent.device = ground arith in (parent, refl, same)

pub guard_source-IsMovable :
    (host : Host) (roots parts : List Text)
    → all is_part parts ≡ true
    → guard_source host roots (render parts) ≡ ok tt
    → IsMovable host roots (render parts)
unfolding guard_source
guard_source-IsMovable host roots parts normal h =
    let allowed : why_not_writable host roots (render parts) ≡ none = ground arith in
    let unused : mounted_under (container_mounts host.running) (render parts) ≡ none =
      ground arith in
    let not_root : contains roots (render parts) ≡ false = ground arith in
    let (stat, there) = stat_there host roots (render parts) h in
    let passes : not_mount_point stat (host.lstat (dirname (on_host host (render parts)))) ≡ ok tt =
      ground arith in
    record {
      changeable = why_not_writable-IsChangeable host roots parts normal allowed;
      is_not_root = not_root;
      stat = stat;
      is_there = there;
      is_same_disk = same_disk stat (host.lstat (dirname (on_host host (render parts)))) passes;
      is_unused = mounted_under-none (container_mounts host.running) (render parts) unused;
    }

-- the path that stands for a given one
pub normal_parts :
    (given path : Text)
    → normal given ≡ ok path
    → (parts : List Text) × (all is_part parts ≡ true) × (path ≡ render parts)
normal_parts given path h = elim (Result-cases (normalize given)) [
  | inl (e, at) ↦ ground arith
  | inr (answer, at) ↦ normalize-IsNormal given path (ground arith)
]

-- of a path that was normalised
pub guarded-IsMovable :
    (host : Host) (roots : List Text) (given path : Text)
    → normal given ≡ ok path
    → guard_source host roots path ≡ ok tt
    → IsMovable host roots path
guarded-IsMovable host roots given path at h =
    let (parts, fine, rendered) = normal_parts given path at in
    subst (IsMovable host roots) (sym rendered) (
      guard_source-IsMovable host roots parts fine
        (ap (guard_source host roots) (sym rendered) ∙ h))

-- Where something may be put: a path that may be changed, in a folder, with nothing there yet.
pub record IsFree (host : Host) (roots : List Text) (dest : Text) : Type 0 where
  pub changeable : IsChangeable host roots dest
  pub is_vacant : lexists host (join (on_host host (dirname dest)) (basename dest)) ≡ false

pub allowed-IsChangeable :
    (host : Host) (roots parts : List Text) (path : Text)
    → all is_part parts ≡ true
    → path ≡ render parts
    → why_not_writable host roots path ≡ none
    → IsChangeable host roots path
allowed-IsChangeable host roots parts path fine rendered allowed =
    subst (IsChangeable host roots) (sym rendered) (
      why_not_writable-IsChangeable host roots parts fine
        (ap (why_not_writable host roots) (sym rendered) ∙ allowed))

pub destination-IsFree :
    (host : Host) (roots : List Text) (path given dest : Text)
    → destination host roots path given ≡ ok dest
    → IsFree host roots dest
      × (is_under dest path ≡ false)
      × (host.is_dir (on_host host (dirname dest)) ≡ true)
unfolding destination
destination-IsFree host roots path given dest h = elim (Result-cases (normalize given)) [
  | inl (e, at) ↦ ground arith
  | inr (answer, at) ↦
      let same : answer ≡ dest = ground arith in
      let (parts, fine, rendered) = normalize-IsNormal given answer at in
      let allowed : why_not_writable host roots answer ≡ none = ground arith in
      let vacant : lexists host (join (on_host host (dirname answer)) (basename answer)) ≡ false =
        ground arith in
      let apart : is_under answer path ≡ false = ground arith in
      let folder : host.is_dir (on_host host (dirname answer)) ≡ true = ground arith in
      subst
        (λ d.
          IsFree host roots d
          × (is_under d path ≡ false)
          × (host.is_dir (on_host host (dirname d)) ≡ true))
        same
        (
          record {
            changeable = allowed-IsChangeable host roots parts answer fine rendered allowed;
            is_vacant = vacant;
          },
          apart,
          folder,
        )
]

-- by the names between the slashes, the second path is not at or below the first
abbrev pub IsApart : Text → Text → Type 0
IsApart path dest =
    (parts : List Text) × (to : List Text) × (path ≡ render parts)
    × (dest ≡ render to)
    × (is_prefix parts to ≡ false)

under-IsApart :
    (path dest : Text) (parts to : List Text)
    → path ≡ render parts
    → dest ≡ render to
    → all is_part parts ≡ true
    → all is_part to ≡ true
    → is_under dest path ≡ false
    → (parts ≡ []) ⊎ IsApart path dest
under-IsApart path dest [] to rendered placed fine free h = inl refl
under-IsApart path dest (q ∷ qs) to rendered placed fine free h = inr (
  q ∷ qs,
  to,
  rendered,
  placed,
  sym (is_under-is_prefix to (q ∷ qs) free fine)
      ∙ ap (λ d. is_under d (render (q ∷ qs))) (sym placed)
      ∙ ap (is_under dest) (sym rendered)
      ∙ h,
)

pub free-IsApart :
    (host : Host) (roots parts : List Text) (path dest : Text)
    → path ≡ render parts
    → all is_part parts ≡ true
    → IsFree host roots dest
    → is_under dest path ≡ false
    → (parts ≡ []) ⊎ IsApart path dest
free-IsApart host roots parts path dest rendered fine free h =
    under-IsApart path dest parts free.changeable.parts rendered free.changeable.rendered fine
      free.changeable.is_normal h

plain-is_part : (name : Text) → is_plain name ≡ true → is_part name ≡ true
unfolding is_part
plain-is_part name h = ground arith

-- another name in the folder of a path that may be changed
pub sibling-IsFree :
    (host : Host) (roots : List Text) (path name : Text)
    → IsChangeable host roots path
    → is_plain name ≡ true
    → why_not_writable host roots (join (dirname path) name) ≡ none
    → lexists host (join (on_host host (dirname path)) name) ≡ false
    → IsFree host roots (join (dirname path) name)
sibling-IsFree host roots path name c plain allowed vacant =
    let dest : Text = join (dirname path) name in
    let part : is_part name ≡ true = plain-is_part name plain in
    let (front, old, split, deep) = parts_snoc c.parts c.is_deep in
    let normal_path : all is_part (front ++ old ∷ []) ≡ true =
      ap (all is_part) (sym split) ∙ c.is_normal in
    let normal_front : all is_part front ≡ true = all-front is_part front (old ∷ []) normal_path in
    let normal_dest : all is_part (front ++ name ∷ []) ≡ true =
      all-snoc is_part front name normal_front part in
    let folder : dirname path ≡ render front =
      ap dirname (c.rendered ∙ ap render split ∙ render-snoc front old)
      ∙ dirname-render front old normal_path in
    let placed : dest ≡ render (front ++ name ∷ []) =
      ap (λ f. join f name) folder ∙ join-render front name normal_front part in
    let up : dirname dest ≡ dirname path =
      ap dirname (placed ∙ render-snoc front name)
      ∙ dirname-render front name normal_dest
      ∙ sym folder in
    let base : basename dest ≡ name =
      ap basename (placed ∙ render-snoc front name) ∙ basename-render front name normal_dest in
    record {
      changeable =
          allowed-IsChangeable host roots (front ++ name ∷ []) dest normal_dest placed allowed;
      is_vacant =
          ap (λ f. lexists host (join (on_host host f) (basename dest))) up
          ∙ ap (λ n. lexists host (join (on_host host (dirname path)) n)) base
          ∙ vacant;
    }
