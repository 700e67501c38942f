-- ===== src/Files/Unlinked.antt =====
-- files.py: `why_not_writable` looks at every folder on the way down.
use homelab_agent.Prelude.{
  ◌≤◌, ◌≡◌, ◌≢◌, refl, sym, ap, ◌∙◌, ◌⊎◌, inl, inr, true, false, none, some, List, [], ◌∷◌, ◌++◌,
  ◌==◌, contains, length, all, All, keep_if, nat_eq, list_eq, list_beq, arith, Bool-cases,
  Option-cases, all-front, all-back, append-nil, ltb, ==_sym,
}
use mathlib.Core.Path.{subst}
use mathlib.Core.Option.{some-injective}
use homelab_agent.Prelude.Text.{Text, partition}
use homelab_agent.Disk.Path.{slash, is_under, count_slashes}
use homelab_agent.Disk.Normal.{is_part, render, render_parts, part_free, strip_slashes-part}
use homelab_agent.Disk.Host.{Host, Stat, missing, found, on_host, is_symlink}
use homelab_agent.Disk.Safety.{Lstat-cases, two_names}
use homelab_agent.Files.Roots.{
  why_not_writable, root_for, longest, first_link, parts_below, first_folder,
}
use homelab_agent.Files.Policy.{IsClear, first_link-IsClear, looked_at}
use homelab_agent.Files.Links.{under_split, parts_below-render}

-- a root that the path is under, which is not the empty text
abbrev IsRootOf : Text → Text → Type 0
IsRootOf path root = (is_under path root ≡ true) × (root ≢ [])

keep_if-IsRootOf :
    (path : Text) (roots : List Text)
    → contains roots [] ≡ false
    → All (IsRootOf path) (keep_if (is_under path) roots)
unfolding keep_if contains list_beq
keep_if-IsRootOf path [] h = tt
keep_if-IsRootOf path (root ∷ roots) h = elim (Bool-cases (is_under path root)) [
  | inl under ↦ rw under (
    (under, λ empty. let hit : ([] == root) ≡ true = rw empty refl in ground arith),
    keep_if-IsRootOf path roots (ground arith),
  )
  | inr other ↦ rw other (keep_if-IsRootOf path roots (ground arith))
]

longest-IsRootOf :
    (path best : Text) (roots : List Text)
    → IsRootOf path best
    → All (IsRootOf path) roots
    → IsRootOf path (longest best roots)
unfolding longest
longest-IsRootOf path best [] h hs = h
longest-IsRootOf path best (root ∷ roots) h (hr, hs) =
    elim (Bool-cases (ltb (length best) (length root))) [
      | inl longer ↦ rw longer (longest-IsRootOf path root roots hr hs)
      | inr not_longer ↦ rw not_longer (longest-IsRootOf path best roots h hs)
    ]

root_for-IsRootOf :
    (path root : Text) (roots : List Text)
    → contains roots [] ≡ false
    → root_for path roots ≡ some root
    → IsRootOf path root
unfolding root_for
root_for-IsRootOf path root roots h at =
    matched (keep_if (is_under path) roots) (keep_if-IsRootOf path roots h) refl
  where
    matched :
        (matches : List Text)
        → All (IsRootOf path) matches
        → keep_if (is_under path) roots ≡ matches
        → IsRootOf path root
    matched [] hs same = ground arith
    matched (first ∷ rest) (hf, hs) same =
        let chosen : some (longest first rest) ≡ some root = ground arith in
        subst (IsRootOf path) (some-injective (longest first rest) root chosen)
          (longest-IsRootOf path first rest hf hs)

-- the folder is not there, or is no link and neither is one on the way down from it
abbrev pub IsUnlinked : Host → List Text → List Text → Type 0
IsUnlinked host front back =
    (host.lstat (on_host host (render front)) ≡ missing)
    ⊎ ((stat : Stat) × (host.lstat (on_host host (render front)) ≡ found stat)
        × (is_symlink stat.kind ≡ false)
        × IsClear host front back)

first_link-root :
    (host : Host) (root : Text) (names : List Text)
    → first_link host root ([] ∷ names) ≡ looked_at host names root
unfolding first_link list_beq
first_link-root host root names = refl

-- from a root on, with the text of the names below it
first_link-IsUnlinked :
    (host : Host) (front back names : List Text)
    → all is_part front ≡ true
    → all is_part back ≡ true
    → ((back ≡ []) ⊎ (names ≡ back))
    → looked_at host names (render front) ≡ none
    → IsUnlinked host front back
unfolding first_link
first_link-IsUnlinked host front back names hf hb same at =
    elim (Lstat-cases (host.lstat (on_host host (render front)))) [
      | inl absent ↦ inl absent
      | inr (inl failed) ↦ ground arith
      | inr (inr (stat, there)) ↦
          let plain : is_symlink stat.kind ≡ false = ground arith in
          inr (
            stat,
            there,
            plain,
            elim same [
              | inl none_below ↦ rw none_below tt
              | inr names_back ↦
                  let more : first_link host (render front) names ≡ none = ground arith in
                  first_link-IsClear host front back hf hb
                    (ap (first_link host (render front)) (sym names_back) ∙ more)
            ],
          )
    ]

partition-part :
    (part rest : Text)
    → contains part slash ≡ false
    → (partition slash (part ++ slash ∷ rest)).0 ≡ part
unfolding partition contains
partition-part [] rest h = refl
partition-part (c ∷ part) rest h = ground (arith, partition-part part rest, ==_sym c slash)

first_folder-render :
    (part next : Text) (parts : List Text)
    → is_part part ≡ true
    → first_folder (render_parts (part ∷ next ∷ parts)) ≡ slash ∷ part
unfolding render_parts
first_folder-render part next parts h =
    let rest : Text = next ++ render_parts parts in
    ap (λ s. slash ∷ (partition slash s).0) (strip_slashes-part part (slash ∷ rest) h)
    ∙ ap (λ s. slash ∷ s) (partition-part part rest (part_free part h))

-- The folders that are looked at before a change is allowed: those from the root, or from the
-- top-level folder where there is no root, down to the path itself.
abbrev pub IsFollowed : Host → List Text → List Text → Type 0
IsFollowed host roots parts =
    (front : List Text) × (back : List Text) × (parts ≡ front ++ back)
    × (((root_for (render parts) roots ≡ some (render_parts front)) × IsUnlinked host front back)
        ⊎ ((root_for (render parts) roots ≡ none) × (length front ≡ 1) × IsClear host front back))

followed_top :
    (host : Host) (part next : Text) (rest : List Text)
    → all is_part (part ∷ next ∷ rest) ≡ true
    → first_link host
        (first_folder (render (part ∷ next ∷ rest)))
        (parts_below (first_folder (render (part ∷ next ∷ rest))) (render (part ∷ next ∷ rest)))
      ≡ none
    → IsClear host (part ∷ []) (next ∷ rest)
unfolding render all render_parts
followed_top host part next rest normal h =
    let path : Text = render (part ∷ next ∷ rest) in
    let top : first_folder path ≡ render (part ∷ []) =
      first_folder-render part next rest (ground arith)
      ∙ ap (λ s. slash ∷ s) (sym (append-nil part)) in
    let ran : first_link host (render (part ∷ [])) (parts_below (render (part ∷ [])) path) ≡ none =
      subst (λ f. first_link host f (parts_below f path) ≡ none) top h in
    first_link-IsClear host (part ∷ []) (next ∷ rest) (ground arith) (ground arith) (
      ap (first_link host (render (part ∷ [])))
        (sym (parts_below-render (part ∷ []) next rest (ground arith)))
      ∙ ran)

names_below :
    (front back : List Text)
    → all is_part back ≡ true
    → (back ≡ []) ⊎ (parts_below (render_parts front) (render_parts (front ++ back)) ≡ back)
names_below front [] h = inl refl
names_below front (q ∷ qs) h = inr (parts_below-render front q qs h)

followed_root :
    (host : Host) (front back : List Text)
    → all is_part (front ++ back) ≡ true
    → render_parts front ≢ []
    → looked_at host
        (parts_below (render_parts front) (render_parts (front ++ back)))
        (render_parts front)
      ≡ none
    → IsUnlinked host front back
unfolding render render_parts
followed_root host [] back normal full h = ground (arith, full refl)
followed_root host (part ∷ front) back normal full h =
    first_link-IsUnlinked host (part ∷ front) back _ (all-front is_part (part ∷ front) back normal)
      (all-back is_part (part ∷ front) back normal)
      (names_below (part ∷ front) back (all-back is_part (part ∷ front) back normal)) h

without_root :
    (host : Host) (roots parts : List Text)
    → all is_part parts ≡ true
    → why_not_writable host roots (render parts) ≡ none
    → root_for (render parts) roots ≡ none
    → IsFollowed host roots parts
unfolding why_not_writable
without_root host roots [] normal h at =
    let deep : ltb (count_slashes (render [])) 2 ≡ false = ground arith in
    ground (arith, two_names [] normal deep)
without_root host roots (part ∷ []) normal h at =
    let deep : ltb (count_slashes (render (part ∷ []))) 2 ≡ false = ground arith in
    ground (arith, two_names (part ∷ []) normal deep)
without_root host roots (part ∷ next ∷ rest) normal h at = (
  part ∷ [],
  next ∷ rest,
  refl,
  inr (at, refl, followed_top host part next rest normal (ground arith)),
)

render-filled : (parts : List Text) → 2 ≤ length parts → render parts ≡ render_parts parts
unfolding render
render-filled [] h = ground arith
render-filled (part ∷ parts) h = refl

-- Where a change is allowed no symbolic link stands on the way from the root down to the path, root
-- and path included, or from the top-level folder where the path is under no root; a folder that is
-- not there ends the search, for nothing is below it.
pub why_not_writable-IsFollowed :
    (host : Host) (roots parts : List Text)
    → all is_part parts ≡ true
    → contains roots [] ≡ false
    → why_not_writable host roots (render parts) ≡ none
    → IsFollowed host roots parts
unfolding why_not_writable
why_not_writable-IsFollowed host roots parts normal full h =
    elim (Option-cases (root_for (render parts) roots)) [
      | inl at ↦ without_root host roots parts normal h at
      | inr (root, at) ↦
          let deep : ltb (count_slashes (render parts)) 2 ≡ false = ground arith in
          let same : render parts ≡ render_parts parts =
            render-filled parts (two_names parts normal deep) in
          let (under, named) = root_for-IsRootOf (render parts) root roots full at in
          let (front, back, split, top) =
            under_split parts root normal named (ap (λ s. is_under s root) (sym same) ∙ under) in
          let run : first_link host root ([] ∷ parts_below root (render parts)) ≡ none =
            ground arith in
          let ran : looked_at host (parts_below root (render parts)) root ≡ none =
            sym (first_link-root host root (parts_below root (render parts))) ∙ run in
          (
            front,
            back,
            split,
            inl (
              at ∙ ap some top,
              followed_root host front back (ap (all is_part) (sym split) ∙ normal)
                  (λ none_left. named (top ∙ none_left))
                  (ap (λ r. looked_at host (parts_below r (render_parts (front ++ back))) r)
                      (sym top)
                    ∙ ap (λ w. looked_at host (parts_below root w) root)
                        (sym (same ∙ ap render_parts split))
                    ∙ ran),
            ),
          )
    ]
