-- ===== src/Files/Owner.antt =====
-- files.py: `_folder_uid`, by the names between the slashes of its path.
use homelab_agent.Prelude.{
  ℕ, zero, suc, ◌≤◌, ◌≡◌, refl, sym, ap, ◌∙◌, true, false, ◌||◌, Option, none, some, List, [], ◌∷◌,
  ◌++◌, if◌then◌else◌, ◌==◌, length, length-append, all, all-front, arith, nat_eq, list_eq,
  list_beq,
}
use mathlib.Core.List.{reverse, reverse-cons, reverse-reverse}
use homelab_agent.Prelude.Text.{Text, text}
use homelab_agent.Disk.Path.{dirname}
use homelab_agent.Disk.Normal.{is_part, render, render_parts, render_ne_nil}
use homelab_agent.Disk.Split.{dirname-render, filled-append}
use homelab_agent.Disk.Host.{Host, Lstat, found, missing, broken, on_host}
use homelab_agent.Disk.Scans.{folder_of}
use homelab_agent.Files.Roots.{folder_uid, folder_uid_from}

-- the owner that one `os.lstat` finds, or else another
abbrev owner_or : Lstat → Option ℕ → Option ℕ
owner_or (found stat) above = some stat.uid
owner_or missing above = above
owner_or broken above = above

-- the owner of the nearest folder that is there, the innermost name of its path first
unfoldable pub nearest_uid : Host → List Text → Option ℕ
nearest_uid host [] = owner_or (host.lstat (on_host host (text "/"))) none
nearest_uid host (name ∷ above) =
    let rest = nearest_uid host above in
    owner_or (host.lstat (on_host host (render (reverse (name ∷ above))))) rest

render_ne_root :
    (parts : List Text) (name : Text)
    → all is_part (parts ++ name ∷ []) ≡ true
    → (render (parts ++ name ∷ []) == text "/") ≡ false
unfolding render render_parts list_beq all
render_ne_root [] name h = filled-append name [] (ground arith)
render_ne_root (part ∷ parts) name h =
    filled-append part (render_parts (parts ++ name ∷ [])) (ground arith)

render-snoc :
    (parts : List Text) (name : Text)
    → render (parts ++ name ∷ []) ≡ render_parts (parts ++ name ∷ [])
unfolding render
render-snoc [] name = refl
render-snoc (part ∷ parts) name = refl

folder_of-render :
    (parts : List Text) (name : Text)
    → all is_part (parts ++ name ∷ []) ≡ true
    → folder_of (render (parts ++ name ∷ [])) ≡ render parts
folder_of-render parts name h =
    let folder : dirname (render (parts ++ name ∷ [])) ≡ render parts =
      ap dirname (render-snoc parts name) ∙ dirname-render parts name h in
    rw (ap (λ s. s == []) folder ∙ render_ne_nil parts) folder

owner_or-step :
    (r : Lstat) (path : Text) (above : Option ℕ)
    → (path == text "/") ≡ false
    → (path == []) ≡ false
    → (elim r [
      | found stat ↦ some stat.uid
      | _ ↦ if path == text "/" || path == [] then none else above
    ])
      ≡ owner_or r above
owner_or-step (found stat) path above root empty = refl
owner_or-step missing path above root empty = ground arith
owner_or-step broken path above root empty = ground arith

owner_or-root :
    (r : Lstat) (above : Option ℕ)
    → (elim r [
      | found stat ↦ some stat.uid
      | _ ↦ if text "/" == text "/" || text "/" == [] then none else above
    ])
      ≡ owner_or r none
unfolding list_beq
owner_or-root (found stat) above = refl
owner_or-root missing above = refl
owner_or-root broken above = refl

-- as many rounds as names, and one for the root
folder_uid_from-nearest_uid :
    (n : ℕ) (host : Host) (names : List Text)
    → all is_part (reverse names) ≡ true
    → suc (length names) ≤ n
    → folder_uid_from n host (render (reverse names)) ≡ nearest_uid host names
unfolding folder_uid_from nearest_uid render
folder_uid_from-nearest_uid zero host names h few = ground arith
folder_uid_from-nearest_uid (suc n) host [] h few =
    owner_or-root (host.lstat (on_host host (text "/")))
      (folder_uid_from n host (folder_of (text "/")))
folder_uid_from-nearest_uid (suc n) host (name ∷ above) h few =
    let whole : reverse (name ∷ above) ≡ reverse above ++ name ∷ [] = reverse-cons name above in
    let fine : all is_part (reverse above ++ name ∷ []) ≡ true = ap (all is_part) (sym whole) ∙ h in
    let path : Text = render (reverse (name ∷ above)) in
    owner_or-step (host.lstat (on_host host path)) path (folder_uid_from n host (folder_of path))
      (ap (λ r. render r == text "/") whole ∙ render_ne_root (reverse above) name fine)
      (render_ne_nil (reverse (name ∷ above)))
    ∙ ap (owner_or (host.lstat (on_host host path))) (
        ap (folder_uid_from n host)
          (ap (λ r. folder_of (render r)) whole ∙ folder_of-render (reverse above) name fine)
        ∙ folder_uid_from-nearest_uid n host above
            (all-front is_part (reverse above) (name ∷ []) fine) (omega arith))

length-render_parts : (parts : List Text) → length parts ≤ length (render_parts parts)
unfolding render_parts
length-render_parts [] = omega arith
length-render_parts (part ∷ parts) =
    omega (arith, length-render_parts parts, length-append part (render_parts parts))

length-render : (parts : List Text) → length parts ≤ length (render parts)
unfolding render
length-render [] = omega arith
length-render (part ∷ parts) = length-render_parts (part ∷ parts)

length-reverse : (parts : List Text) → length (reverse parts) ≡ length parts
length-reverse [] = refl
length-reverse (part ∷ parts) =
    ap length (reverse-cons part parts)
    ∙ omega (arith, length-append (reverse parts) (part ∷ []), length-reverse parts)

-- For a path in normal form `_folder_uid` ends, and answers with the owner of the nearest folder at or
-- above the path that is there, or with none if even the root is not.
pub folder_uid-nearest_uid :
    (host : Host) (parts : List Text)
    → all is_part parts ≡ true
    → folder_uid host (render parts) ≡ nearest_uid host (reverse parts)
unfolding folder_uid
folder_uid-nearest_uid host parts h =
    ap (λ ps. folder_uid_from (suc (length (render parts))) host (render ps))
      (sym (reverse-reverse parts))
    ∙ folder_uid_from-nearest_uid (suc (length (render parts))) host (reverse parts)
        (ap (all is_part) (reverse-reverse parts) ∙ h)
        (omega (arith, length-render parts, length-reverse parts))
