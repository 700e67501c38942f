-- ===== src/Config/Slashes.antt =====
-- disk_usage.py and config.py: Python's `rstrip("/")`, read from the front.
use homelab_agent.Prelude.{
  ℕ, ◌≡◌, refl, ap, ◌∙◌, inl, inr, true, false, not, [], ◌∷◌, ◌++◌, eqb, all, append_assoc, arith,
  nat_eq, list_eq, Bool-cases,
}
use mathlib.Core.List.{reverse, reverse-cons, reverse-append, reverse-reverse}
use homelab_agent.Prelude.Text.{Text, text, starts_with}
use homelab_agent.Disk.Path.{slash, strip_slashes, rstrip_slashes}

strip_slashes-snoc :
    (s : Text) (c : ℕ)
    → eqb c slash ≡ false
    → strip_slashes (s ++ c ∷ []) ≡ strip_slashes s ++ c ∷ []
unfolding strip_slashes
strip_slashes-snoc [] c h = rw h refl
strip_slashes-snoc (d ∷ s) c h = elim (Bool-cases (eqb d slash)) [
  | inl hit ↦ rw hit (strip_slashes-snoc s c h)
  | inr miss ↦ rw miss refl
]

strip_slashes-strip_slashes : (s : Text) → strip_slashes (strip_slashes s) ≡ strip_slashes s
unfolding strip_slashes
strip_slashes-strip_slashes [] = refl
strip_slashes-strip_slashes (c ∷ s) = elim (Bool-cases (eqb c slash)) [
  | inl hit ↦ rw hit (strip_slashes-strip_slashes s)
  | inr miss ↦ rw miss (rw miss refl)
]

-- another letter in front stays
pub rstrip_slashes-cons :
    (c : ℕ) (s : Text) → eqb c slash ≡ false → rstrip_slashes (c ∷ s) ≡ c ∷ rstrip_slashes s
unfolding rstrip_slashes
rstrip_slashes-cons c s h =
    ap (λ r. reverse (strip_slashes r)) (reverse-cons c s)
    ∙ ap reverse (strip_slashes-snoc (reverse s) c h)
    ∙ reverse-append (strip_slashes (reverse s)) (c ∷ [])

pub rstrip_slashes-rstrip_slashes :
    (s : Text) → rstrip_slashes (rstrip_slashes s) ≡ rstrip_slashes s
unfolding rstrip_slashes
rstrip_slashes-rstrip_slashes s =
    ap (λ r. reverse (strip_slashes r)) (reverse-reverse (strip_slashes (reverse s)))
    ∙ ap reverse (strip_slashes-strip_slashes (reverse s))

starts_with_rest :
    (s prefix : Text) → starts_with s prefix ≡ true → (rest : Text) × (s ≡ prefix ++ rest)
unfolding starts_with
starts_with_rest s [] h = (s, refl)
starts_with_rest [] (p ∷ prefix) h = ground arith
starts_with_rest (c ∷ s) (p ∷ prefix) h =
    let (rest, same) = starts_with_rest s prefix (ground arith) in
    let first : c ≡ p = ground arith in (rest, ap (λ d. d ∷ s) first ∙ ap (λ t. p ∷ t) same)

starts_with-append : (prefix rest : Text) → starts_with (prefix ++ rest) prefix ≡ true
unfolding starts_with
starts_with-append [] rest = refl
starts_with-append (p ∷ prefix) rest = ground (arith, starts_with-append prefix rest)

rstrip_slashes-append :
    (front s : Text)
    → all (λ c. not (eqb c slash)) front ≡ true
    → rstrip_slashes (front ++ s) ≡ front ++ rstrip_slashes s
unfolding all
rstrip_slashes-append [] s h = refl
rstrip_slashes-append (c ∷ front) s h =
    rstrip_slashes-cons c (front ++ s) (ground arith)
    ∙ ap (λ r. c ∷ r) (rstrip_slashes-append front s (ground arith))

-- what stands before the first slash stays
pub scheme_kept :
    (scheme raw : Text)
    → all (λ c. not (eqb c slash)) scheme ≡ true
    → starts_with raw (scheme ++ text "//") ≡ true
    → starts_with (rstrip_slashes raw) scheme ≡ true
scheme_kept scheme raw h starts =
    let (rest, same) = starts_with_rest raw (scheme ++ text "//") starts in
    ap (λ r. starts_with (rstrip_slashes r) scheme) (same ∙ append_assoc scheme (text "//") rest)
    ∙ ap (λ r. starts_with r scheme) (rstrip_slashes-append scheme (text "//" ++ rest) h)
    ∙ starts_with-append scheme (rstrip_slashes (text "//" ++ rest))
