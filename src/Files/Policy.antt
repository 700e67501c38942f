-- ===== src/Files/Policy.antt =====
-- files.py: what the one rule for every change, `why_not_writable`, grants.
use homelab_agent.Prelude.{
  ◌≤◌, ◌≡◌, refl, sym, ap, ◌⊎◌, inl, inr, true, false, Option, none, some, List, [], ◌∷◌, ◌++◌,
  if◌then◌else◌, ltb, ◌==◌, contains, length, all, is_some, nat_eq, list_eq, arith, all-snoc,
  Option-cases, append-nil, list_beq, ==_sym,
}
use mathlib.Core.Path.{subst}
use homelab_agent.Prelude.Text.{Text, text, starts_with, split_on}
use homelab_agent.Disk.Path.{slash, dirname, join, basename, count_slashes, last_part}
use homelab_agent.Disk.Normal.{is_part, render, render_parts, split_on-render_parts}
use homelab_agent.Disk.Host.{
  Host, missing, broken, found, Stat, on_host, is_symlink, protected, root_above,
}
use homelab_agent.Disk.Safety.{is_inside, system_parts, Lstat-cases, two_names, outside_system}
use homelab_agent.Disk.Split.{render_parts-snoc}
use homelab_agent.Files.Roots.{
  why_not_writable, root_for, folder_uid, is_root_owned, first_link, Reason, os_raised, linked,
}

-- A path that may be changed: below a top-level folder, outside the operating system, and under one
-- of the roots or in a folder that is not root's.
pub record IsChangeable (host : Host) (roots : List Text) (path : Text) : Type 0 where
  pub parts : List Text
  pub is_normal : all is_part parts ≡ true
  pub rendered : path ≡ render parts
  pub is_deep : 2 ≤ length parts
  pub is_outside : is_inside parts system_parts ≡ false
  pub is_granted :
      (is_some (root_for path roots) ≡ true)
      ⊎ (is_root_owned (folder_uid host (dirname path)) ≡ false)

pub why_not_writable-IsChangeable :
    (host : Host) (roots : List Text) (parts : List Text)
    → all is_part parts ≡ true
    → why_not_writable host roots (render parts) ≡ none
    → IsChangeable host roots (render parts)
unfolding why_not_writable
why_not_writable-IsChangeable host roots parts normal h =
    let system : is_some (root_above (render parts) protected) ≡ false = ground arith in
    let deep : ltb (count_slashes (render parts)) 2 ≡ false = ground arith in
    record {
      parts = parts;
      is_normal = normal;
      rendered = refl;
      is_deep = two_names parts normal deep;
      is_outside = outside_system parts normal system;
      is_granted = elim (Option-cases (root_for (render parts) roots)) [
        | inl at ↦ inr (ground arith)
        | inr (root, at) ↦ inl (rw at refl)
      ];
    }

last_part-is_part :
    (part : Text) (parts : List Text)
    → all is_part (part ∷ parts) ≡ true
    → is_part (last_part part parts) ≡ true
unfolding last_part all
last_part-is_part part [] h = ground arith
last_part-is_part part (next ∷ parts) h = last_part-is_part next parts (ground arith)

part-filled : (part : Text) → is_part part ≡ true → (part == []) ≡ false
unfolding is_part
part-filled part h = ground arith

part-starts : (part : Text) → is_part part ≡ true → starts_with part (text "/") ≡ false
unfolding starts_with is_part contains list_beq
part-starts [] h = refl
part-starts (c ∷ part) h = ground (arith, ==_sym c slash)

basename-filled :
    (part : Text) (parts : List Text)
    → all is_part (part ∷ parts) ≡ true
    → (basename (render_parts (part ∷ parts)) == []) ≡ false
unfolding basename last_part
basename-filled part parts h =
    rw (split_on-render_parts (part ∷ parts) h)
      (part-filled (last_part part parts) (last_part-is_part part parts h))

pub join-render :
    (parts : List Text) (name : Text)
    → all is_part parts ≡ true
    → is_part name ≡ true
    → join (render parts) name ≡ render (parts ++ name ∷ [])
unfolding join basename last_part split_on list_beq render render_parts
join-render [] name h k = rw (part-starts name k) (ap (λ s. slash ∷ s) (sym (append-nil name)))
join-render (part ∷ parts) name h k =
    let full : (basename (render_parts (part ∷ parts)) == []) ≡ false =
      basename-filled part parts h in
    rw (part-starts name k, full) (sym (render_parts-snoc (part ∷ parts) name))

-- the folder below `folder` with this name, if it is there, is not a link, and so on down to the path
abbrev pub IsClear : Host → List Text → List Text → Type 0
IsClear host folder [] = Unit
IsClear host folder (name ∷ names) =
    (host.lstat (on_host host (render (folder ++ name ∷ []))) ≡ missing)
    ⊎ ((stat : Stat) × (host.lstat (on_host host (render (folder ++ name ∷ []))) ≡ found stat)
        × (is_symlink stat.kind ≡ false)
        × IsClear host (folder ++ name ∷ []) names)

-- one round of the loop, at the folder `next`
abbrev pub looked_at : Host → List Text → Text → Option Reason
looked_at host names next = elim (host.lstat (on_host host next)) [
  | missing ↦ none
  | broken ↦ some os_raised
  | found stat ↦ if is_symlink stat.kind then some (linked next) else first_link host next names
]

pub first_link-IsClear :
    (host : Host) (folder names : List Text)
    → all is_part folder ≡ true
    → all is_part names ≡ true
    → first_link host (render folder) names ≡ none
    → IsClear host folder names
unfolding first_link all
first_link-IsClear host folder [] h k at = tt
first_link-IsClear host folder (name ∷ names) h k at =
    let next : List Text = folder ++ name ∷ [] in
    let part : is_part name ≡ true = ground arith in
    let step : (if name == [] then render folder else join (render folder) name) ≡ render next =
      rw (part-filled name part) (join-render folder name h part) in
    let ran : looked_at host names (render next) ≡ none =
      subst (λ n. looked_at host names n ≡ none) step at in
    elim (Lstat-cases (host.lstat (on_host host (render next)))) [
      | inl absent ↦ inl absent
      | inr (inl failed) ↦ ground arith
      | inr (inr (stat, there)) ↦ inr (
        stat,
        there,
        ground arith,
        first_link-IsClear host next names (all-snoc is_part folder name h part) (ground arith)
            (ground arith),
      )
    ]
