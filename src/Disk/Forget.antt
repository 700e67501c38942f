-- ===== src/Disk/Forget.antt =====
-- disk_usage.py: what the cached scans say after `forget_path`.
use homelab_agent.Prelude.{
  ℕ, ◌≡◌, refl, sym, ap, ◌∙◌, inl, inr, Bool, true, false, ◌||◌, Option, none, some, List, [], ◌∷◌,
  ◌++◌, ◌==◌, all, arith, nat_eq, list_eq, all-front, Option-cases, list_beq, ==-eq_of_true,
}
use mathlib.Core.List.{reverse, reverse-reverse}
use mathlib.Core.Option.{some-injective}
use homelab_agent.Prelude.Text.{Text, text, starts_with}
use homelab_agent.Prelude.Dict.{get}
use homelab_agent.Disk.Path.{rstrip_slashes, is_above_text}
use homelab_agent.Disk.Normal.{is_part, render, render_parts, render_ne_nil}
use homelab_agent.Disk.Split.{
  dirname-render, render_parts-snoc, strip_slashes-solid, solid-render_parts,
}
use homelab_agent.Disk.Scans.{
  Row, Scan, Scans, find_bytes, known_bytes, folder_of, shrink_rows, forget_path,
}

-- the scan is of the path or of a folder below it
abbrev pub is_gone : Text → Text → Bool
is_gone path key = key == path || is_above_text path key

-- the scan is of a folder above the path
abbrev pub is_above : Text → Text → Bool
is_above path key = key == text "/" || is_above_text key path

find_bytes-shrink_rows :
    (path : Text) (freed : ℕ) (rows : List Row)
    → find_bytes path (shrink_rows path freed rows) ≡ none
unfolding find_bytes shrink_rows
find_bytes-shrink_rows path freed [] = refl
find_bytes-shrink_rows path freed (row ∷ rows) =
    ground (arith, find_bytes-shrink_rows path freed rows)

-- Nothing is left of the scans of the path and of what was below it.
pub get-forget_path_gone :
    (path key : Text) (freed : Option ℕ) (scans : Scans)
    → is_gone path key ≡ true
    → get (forget_path path freed scans) key ≡ none
unfolding get forget_path
get-forget_path_gone path key freed [] h = refl
get-forget_path_gone path key freed ((k, scan) ∷ scans) h =
    ground (arith, get-forget_path_gone path key freed scans h, ==-eq_of_true k key)

-- The scans that have nothing to do with the path are as before.
pub get-forget_path_other :
    (path key : Text) (freed : Option ℕ) (scans : Scans)
    → is_gone path key ≡ false
    → is_above path key ≡ false
    → get (forget_path path freed scans) key ≡ get scans key
unfolding get forget_path
get-forget_path_other path key freed [] h k = refl
get-forget_path_other path key freed ((j, scan) ∷ scans) h k =
    ground (arith, get-forget_path_other path key freed scans h k, ==-eq_of_true j key)

shrunk :
    (path : Text) (freed : ℕ) (old scan : Scan)
    → some (record old { entries = shrink_rows path freed old.entries }) ≡ some scan
    → find_bytes path scan.entries ≡ none
shrunk path freed old scan h =
    let same : record old { entries = shrink_rows path freed old.entries } ≡ scan =
      some-injective _ _ h in
    sym (ap (λ s. find_bytes path s.entries) same) ∙ find_bytes-shrink_rows path freed old.entries

find_bytes-forget_path :
    (path key : Text) (freed : Option ℕ) (scans : Scans) (scan : Scan)
    → is_above path key ≡ true
    → get (forget_path path freed scans) key ≡ some scan
    → find_bytes path scan.entries ≡ none
unfolding get forget_path
find_bytes-forget_path path key freed [] scan up at = ground arith
find_bytes-forget_path path key none ((j, old) ∷ scans) scan up at =
    ground (arith, find_bytes-forget_path path key none scans scan up, ==-eq_of_true j key)
find_bytes-forget_path path key (some bytes) ((j, old) ∷ scans) scan up at = ground (
  arith,
  find_bytes-forget_path path key (some bytes) scans scan up,
  ==-eq_of_true j key,
  shrunk path bytes old scan,
)

starts_with-append : (s rest : Text) → starts_with (s ++ rest) s ≡ true
unfolding starts_with
starts_with-append [] rest = refl
starts_with-append (c ∷ s) rest = ground (arith, starts_with-append s rest)

rstrip_slashes-render_parts :
    (part : Text) (parts : List Text)
    → all is_part (part ∷ parts) ≡ true
    → rstrip_slashes (render_parts (part ∷ parts)) ≡ render_parts (part ∷ parts)
unfolding rstrip_slashes
rstrip_slashes-render_parts part parts h =
    let folder : Text = render_parts (part ∷ parts) in
    ap reverse (strip_slashes-solid (reverse folder) (solid-render_parts part parts h))
    ∙ reverse-reverse folder

is_above-folder :
    (parts : List Text) (name : Text)
    → all is_part (parts ++ name ∷ []) ≡ true
    → is_above (render_parts (parts ++ name ∷ [])) (render parts) ≡ true
unfolding render render_parts list_beq
is_above-folder [] name h = refl
is_above-folder (part ∷ parts) name h =
    let folder : Text = render_parts (part ∷ parts) in
    let bare : rstrip_slashes folder ≡ folder =
      rstrip_slashes-render_parts part parts (all-front is_part (part ∷ parts) (name ∷ []) h) in
    let above : is_above_text folder (render_parts (part ∷ parts ++ name ∷ [])) ≡ true =
      rw (bare, render_parts-snoc (part ∷ parts) name)
        (starts_with-append (folder ++ text "/") name) in
    ground arith

folder_of-render :
    (parts : List Text) (name : Text)
    → all is_part (parts ++ name ∷ []) ≡ true
    → folder_of (render_parts (parts ++ name ∷ [])) ≡ render parts
folder_of-render parts name h = rw (dirname-render parts name h, render_ne_nil parts) refl

-- After `forget_path` nothing is known any more of what the path took.
pub known_bytes-forget_path :
    (parts : List Text) (name : Text) (freed : Option ℕ) (scans : Scans)
    → all is_part (parts ++ name ∷ []) ≡ true
    → known_bytes
        (forget_path (render_parts (parts ++ name ∷ [])) freed scans)
        (render_parts (parts ++ name ∷ []))
      ≡ none
unfolding known_bytes
known_bytes-forget_path parts name freed scans h =
    let path : Text = render_parts (parts ++ name ∷ []) in
    elim (Option-cases (get (forget_path path freed scans) (render parts))) [
      | inl at ↦ rw (folder_of-render parts name h, at) refl
      | inr (scan, at) ↦
          rw (folder_of-render parts name h, at)
            (find_bytes-forget_path path (render parts) freed scans scan
              (is_above-folder parts name h) at)
    ]
