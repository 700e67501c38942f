-- ===== src/Sockets/Holders.antt =====
-- sockets.py: what `owners` finds.
use mathlib.Core.Path.{subst}
use homelab_agent.Prelude.{
  ℕ, suc, ◌≡◌, ◌⊎◌, refl, sym, ap, ◌∙◌, inl, inr, Bool, true, false, ◌&&◌, Option, none, some, List,
  [], ◌∷◌, arith, ◌==◌, nat_eq, list_eq, eqb, ltb, length, keep_if, contains, All, if◌then◌else◌,
  Bool-cases,
}
use homelab_agent.Prelude.Dict.{Dict, get, set, get-set}
use homelab_agent.Sockets.Owners.{
  Process, Owner, Walk, max_processes, note_all, visit, walk_all, owners,
}

abbrev pub owner_of : Process → Owner
owner_of p = record { pid = p.pid; process = p.name }

-- some process is this owner and holds the inode
abbrev pub IsHeld : List Process → ℕ → Owner → Type 0
IsHeld [] inode owner = ⊥
IsHeld (p ∷ ps) inode owner =
    ((owner ≡ owner_of p) × (contains p.inodes inode ≡ true)) ⊎ IsHeld ps inode owner

get-note_all :
    (inodes : List ℕ) (owner : Owner) (found : Dict ℕ Owner) (i : ℕ)
    → get (note_all inodes owner found) i ≡ (if contains inodes i then some owner else get found i)
unfolding note_all contains
get-note_all [] owner found i = refl
get-note_all (inode ∷ inodes) owner found i =
    ground (arith, get-note_all inodes owner (set found inode owner) i, get-set found inode i owner)

contains-keep_if :
    (wanted inodes : List ℕ) (i : ℕ)
    → contains (keep_if (contains wanted) inodes) i ≡ (contains wanted i && contains inodes i)
unfolding contains keep_if
contains-keep_if wanted [] i = ground arith
contains-keep_if wanted (inode ∷ inodes) i = elim (Bool-cases (eqb i inode)) [
  | inl same ↦
      let here : i ≡ inode = ground arith in
      ground (arith, contains-keep_if wanted inodes i, ap (contains wanted) here)
  | inr other ↦ ground (arith, contains-keep_if wanted inodes i)
]

-- what holds of each inode that was found and its owner
abbrev Holds : (ℕ → Owner → Type 0) → Walk → Type 0
Holds P walk = (i : ℕ) (owner : Owner) → get walk.found i ≡ some owner → P i owner

-- what holds of each wanted inode of a process
abbrev HoldsOf : (ℕ → Owner → Type 0) → List ℕ → Process → Type 0
HoldsOf P wanted p =
    (i : ℕ) → contains wanted i ≡ true → contains p.inodes i ≡ true → P i (owner_of p)

one_of :
    (P : ℕ → Owner → Type 0) (b c d : Bool) (x y z : Walk)
    → Holds P x
    → Holds P y
    → Holds P z
    → Holds P (if b then x else if c then y else if d then z else y)
one_of P true c d x y z hx hy hz = hx
one_of P false true d x y z hx hy hz = hy
one_of P false false true x y z hx hy hz = hz
one_of P false false false x y z hx hy hz = hy

visit-Holds :
    (P : ℕ → Owner → Type 0) (wanted : List ℕ) (p : Process) (walk : Walk)
    → HoldsOf P wanted p
    → Holds P walk
    → Holds P (visit wanted p walk)
unfolding visit
visit-Holds P wanted p walk here h i owner at =
    let kept : List ℕ = keep_if (contains wanted) p.inodes in
    let seen : (if contains kept i then some (owner_of p) else get walk.found i) ≡ some owner =
      sym (get-note_all kept (owner_of p) walk.found i) ∙ at in
    elim (Bool-cases (contains kept i)) [
      | inl hit ↦
          let same : owner_of p ≡ owner = ground arith in
          let both : (contains wanted i && contains p.inodes i) ≡ true =
            sym (contains-keep_if wanted p.inodes i) ∙ hit in
          subst (P i) same (here i (ground arith) (ground arith))
      | inr miss ↦ h i owner (ground arith)
    ]

-- What holds of the inodes that were found, and of each wanted one with each process that holds it,
-- holds of all that are found.
walk_all-Holds :
    (P : ℕ → Owner → Type 0) (wanted : List ℕ) (ps : List Process) (walk : Walk)
    → All (HoldsOf P wanted) ps
    → Holds P walk
    → Holds P (walk_all wanted ps walk)
unfolding walk_all
walk_all-Holds P wanted [] walk all h = h
walk_all-Holds P wanted (p ∷ ps) walk (here, all) h =
    let after : Walk = visit wanted p walk in
    let held : Holds P after = visit-Holds P wanted p walk here h in
    one_of P (ltb max_processes (suc walk.scanned)) (keep_if (contains wanted) p.inodes == [])
      (eqb (length after.found) (length wanted)) (record walk { scanned = suc walk.scanned })
      (walk_all wanted ps after) after h (walk_all-Holds P wanted ps after all held) held

-- each process of a list holds its inodes in any list that goes on like it
All-IsHeld :
    (wanted : List ℕ) (ps whole : List Process)
    → ((i : ℕ) (owner : Owner) → IsHeld ps i owner → IsHeld whole i owner)
    → All (HoldsOf (λ i owner. (contains wanted i ≡ true) × IsHeld whole i owner) wanted) ps
All-IsHeld wanted [] whole embed = tt
All-IsHeld wanted (p ∷ ps) whole embed = (
  λ i asked held. (asked, embed i (owner_of p) (inl (refl, held))),
  All-IsHeld wanted ps whole (λ i owner h. embed i owner (inr h)),
)

abbrev pub list_of {ℓ} : {A : Type ℓ} → Option (List A) → List A
list_of none = []
list_of (some xs) = xs

pub owners-IsHeld :
    (wanted : List ℕ) (processes : Option (List Process)) (i : ℕ) (owner : Owner)
    → get (owners wanted processes).0 i ≡ some owner
    → (contains wanted i ≡ true) × IsHeld (list_of processes) i owner
unfolding owners get
owners-IsHeld wanted none i owner at = ground arith
owners-IsHeld wanted (some ps) i owner at = elim (Bool-cases (wanted == [])) [
  | inl empty ↦ ground arith
  | inr asked ↦
      walk_all-Holds (λ i owner. (contains wanted i ≡ true) × IsHeld ps i owner) wanted ps
        (record { found = []; scanned = 0; refused = 0 }) (All-IsHeld wanted ps ps (λ i owner h. h))
        (λ i owner never. ground arith) i owner (ground arith)
]
