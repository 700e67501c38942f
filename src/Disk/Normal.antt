-- ===== src/Disk/Normal.antt =====
-- disk_usage.py: what `normalize` answers, by the names between the slashes.
use homelab_agent.Prelude.{
  ◌≡◌, refl, sym, ap, ◌∙◌, inl, inr, Bool, true, false, not, ◌&&◌, ◌||◌, List, [], ◌∷◌, ◌++◌, eqb,
  ◌==◌, contains, all, keep_if, nat_eq, list_eq, arith, append_assoc, append-nil, Bool-cases,
  and_true, ==_sym, list_beq,
}
use homelab_agent.Prelude.Text.{Text, text, starts_with, split_on}
use homelab_agent.Prelude.Result.{ok}
use homelab_agent.Disk.Path.{
  slash, join_with, strip_slashes, keep_component, components, initial_slashes, normpath, normalize,
}
use mathlib.Core.List.{reverse, reverse-cons}

-- a name that stands between two slashes
unfoldable pub is_part : Text → Bool
unfolding contains
is_part s = not (s == []) && not (s == text ".") && not (s == text "..") && not (contains s slash)

-- the path with these names
unfoldable pub render_parts : List Text → Text
render_parts [] = []
render_parts (part ∷ parts) = slash ∷ (part ++ render_parts parts)

unfoldable pub render : List Text → Text
unfolding render_parts
render [] = text "/"
render (part ∷ parts) = render_parts (part ∷ parts)

abbrev pub IsNormal : Text → Type 0
IsNormal path = (parts : List Text) × (all is_part parts ≡ true) × (path ≡ render parts)

pub split_on-append :
    (part rest : Text) (parts : List Text)
    → contains part slash ≡ false
    → split_on slash rest ≡ [] ∷ parts
    → split_on slash (part ++ rest) ≡ part ∷ parts
unfolding split_on contains
split_on-append [] rest parts free h = h
split_on-append (c ∷ part) rest parts free h =
    let rec : split_on slash (part ++ rest) ≡ part ∷ parts =
      split_on-append part rest parts (ground arith) h in
    rw rec (ground arith)

pub part_free : (part : Text) → is_part part ≡ true → contains part slash ≡ false
unfolding is_part
part_free part h = ground arith

pub split_on-render_parts :
    (parts : List Text)
    → all is_part parts ≡ true
    → split_on slash (render_parts parts) ≡ [] ∷ parts
unfolding render_parts split_on all
split_on-render_parts [] h = refl
split_on-render_parts (part ∷ parts) h =
    rw
      (split_on-append part (render_parts parts) parts (part_free part (ground arith))
        (split_on-render_parts parts (ground arith)))
      refl

-- no part of a split text has the separator
pub split_on-free : (s : Text) → all (λ part. not (contains part slash)) (split_on slash s) ≡ true
unfolding split_on all contains
split_on-free [] = refl
split_on-free (c ∷ s) = ground (arith, split_on-free s)

reverse_snoc : (x : Text) (kept : List Text) → reverse (x ∷ kept) ≡ reverse kept ++ x ∷ []
reverse_snoc x kept = reverse-cons x kept

-- what `normpath` keeps of a path without ".."
abbrev is_kept : Text → Bool
is_kept part = not (part == [] || part == text ".")

components_lem :
    (kept parts : List Text)
    → contains parts (text "..") ≡ false
    → components true kept parts ≡ reverse kept ++ keep_if is_kept parts
unfolding components keep_component keep_if contains
components_lem kept [] h = sym (append-nil (reverse kept))
components_lem kept (part ∷ parts) h = elim (Bool-cases (is_kept part)) [
  | inl keep ↦
      let step : keep_component true kept part ≡ part ∷ kept =
        ground (arith, ==_sym part (text "..")) in
      rw (step, keep, components_lem (part ∷ kept) parts (ground arith), reverse_snoc part kept)
        (append_assoc (reverse kept) (part ∷ []) (keep_if is_kept parts))
  | inr skip ↦
      let step : keep_component true kept part ≡ kept = ground arith in
      rw (step, skip) (components_lem kept parts (ground arith))
]

contains-strip_slashes :
    (s : Text)
    → contains (split_on slash (strip_slashes s)) (text "..")
      ≡ contains (split_on slash s) (text "..")
unfolding split_on strip_slashes contains list_beq
contains-strip_slashes [] = refl
contains-strip_slashes (c ∷ s) = elim (Bool-cases (eqb c slash)) [
  | inl hit ↦ rw (hit, contains-strip_slashes s) refl
  | inr miss ↦
      let same : strip_slashes (c ∷ s) ≡ c ∷ s = rw miss refl in
      ap (λ rest. contains (split_on slash rest) (text "..")) same
]

no_slash_first : (s : Text) → starts_with (strip_slashes s) (text "/") ≡ false
unfolding starts_with strip_slashes
no_slash_first [] = refl
no_slash_first (c ∷ s) = ground (arith, no_slash_first s)

one_slash : (s : Text) → initial_slashes (slash ∷ strip_slashes s) ≡ text "/"
unfolding initial_slashes starts_with
one_slash s = rw (no_slash_first s) refl

all_parts :
    (parts : List Text)
    → all (λ part. not (contains part slash)) parts ≡ true
    → contains parts (text "..") ≡ false
    → all is_part (keep_if is_kept parts) ≡ true
unfolding all keep_if contains is_part
all_parts [] free h = refl
all_parts (part ∷ parts) free h = ground (arith, all_parts parts, ==_sym part (text ".."))

pub join_with-render : (parts : List Text) → text "/" ++ join_with (text "/") parts ≡ render parts
unfolding join_with render render_parts
join_with-render [] = refl
join_with-render (part ∷ []) = ap (λ r. slash ∷ r) (sym (append-nil part))
join_with-render (part ∷ next ∷ parts) =
    ap (λ r. slash ∷ r) (append_assoc part (text "/") (join_with (text "/") (next ∷ parts)))
    ∙ ap (λ r. slash ∷ (part ++ r)) (join_with-render (next ∷ parts))

-- the path that `normalize` answers
normpath_lem :
    (s : Text)
    → contains (split_on slash s) (text "..") ≡ false
    → normpath (slash ∷ strip_slashes s)
      ≡ render (keep_if is_kept (split_on slash (strip_slashes s)))
unfolding normpath starts_with split_on contains list_beq keep_if
normpath_lem s h =
    let parts : List Text = keep_if is_kept (split_on slash (strip_slashes s)) in
    let free : contains ([] ∷ split_on slash (strip_slashes s)) (text "..") ≡ false =
      contains-strip_slashes s ∙ h in
    let kept : components true [] ([] ∷ split_on slash (strip_slashes s)) ≡ parts =
      components_lem [] ([] ∷ split_on slash (strip_slashes s)) free in
    rw (one_slash s, kept) (join_with-render parts)

pub render_ne_nil : (parts : List Text) → (render parts == []) ≡ false
unfolding render render_parts list_beq
render_ne_nil [] = refl
render_ne_nil (part ∷ parts) = refl

normalize_inside :
    (path : Text)
    → (path == [] || not (starts_with path (text "/"))) ≡ false
    → contains (split_on slash path) (text "..") ≡ false
    → normalize path ≡ ok (render (keep_if is_kept (split_on slash (strip_slashes path))))
unfolding normalize
normalize_inside path absolute inside =
    let parts : List Text = keep_if is_kept (split_on slash (strip_slashes path)) in
    rw (absolute, inside, normpath_lem path inside, render_ne_nil parts) refl

pub normalize-IsNormal : (path answer : Text) → normalize path ≡ ok answer → IsNormal answer
unfolding normalize
normalize-IsNormal path answer h =
    elim (Bool-cases (path == [] || not (starts_with path (text "/")))) [
      | inl refused ↦ ground arith
      | inr absolute ↦ elim (Bool-cases (contains (split_on slash path) (text ".."))) [
        | inl refused ↦ ground arith
        | inr inside ↦
            let parts : List Text = split_on slash (strip_slashes path) in
            let answered : ok (render (keep_if is_kept parts)) ≡ ok answer =
              sym (normalize_inside path absolute inside) ∙ h in
            (
              keep_if is_kept parts,
              all_parts parts (split_on-free (strip_slashes path))
                  (contains-strip_slashes path ∙ inside),
              cc,
            )
      ]
    ]

pub strip_slashes-part :
    (part rest : Text) → is_part part ≡ true → strip_slashes (slash ∷ (part ++ rest)) ≡ part ++ rest
unfolding strip_slashes is_part list_beq contains
strip_slashes-part [] rest h = ground arith
strip_slashes-part (c ∷ part) rest h =
    let here : eqb c slash ≡ false = ground (arith, ==_sym c slash) in rw here refl

keep_if-parts : (parts : List Text) → all is_part parts ≡ true → keep_if is_kept parts ≡ parts
unfolding keep_if all is_part
keep_if-parts [] h = refl
keep_if-parts (part ∷ parts) h = ground (arith, keep_if-parts parts)

contains-parts : (parts : List Text) → all is_part parts ≡ true → contains parts (text "..") ≡ false
unfolding contains all is_part
contains-parts [] h = refl
contains-parts (part ∷ parts) h = ground (arith, contains-parts parts, ==_sym part (text ".."))

pub normalize-render :
    (parts : List Text) → all is_part parts ≡ true → normalize (render parts) ≡ ok (render parts)
unfolding render render_parts list_beq starts_with contains split_on strip_slashes keep_if all
normalize-render [] h = normalize_inside (text "/") refl refl
normalize-render (part ∷ parts) h =
    let split : split_on slash (render (part ∷ parts)) ≡ [] ∷ part ∷ parts =
      split_on-render_parts (part ∷ parts) h in
    let stripped : split_on slash (strip_slashes (render (part ∷ parts))) ≡ part ∷ parts =
      ap (split_on slash) (strip_slashes-part part (render_parts parts) (and_true _ _ h).0)
      ∙ split_on-append part (render_parts parts) parts (part_free part (and_true _ _ h).0)
          (split_on-render_parts parts (and_true _ _ h).1) in
    let kept : keep_if is_kept (split_on slash (strip_slashes (render (part ∷ parts))))
        ≡ part ∷ parts =
      ap (keep_if is_kept) stripped ∙ keep_if-parts (part ∷ parts) h in
    normalize_inside (render (part ∷ parts)) refl
      (ap (λ names. contains names (text "..")) split ∙ contains-parts (part ∷ parts) h)
    ∙ ap (λ names. ok (render names)) kept

-- What `normalize` answers is the path of some names between slashes, none of them empty, "." or "..",
-- and such a path is answered with itself: to normalise twice is to normalise once.
pub normalize-fixed :
    (path answer : Text)
    → normalize path ≡ ok answer
    → IsNormal answer × (normalize answer ≡ ok answer)
normalize-fixed path answer h =
    let (parts, fine, rendered) = normalize-IsNormal path answer h in
    (
      (parts, fine, rendered),
      ap normalize rendered ∙ normalize-render parts fine ∙ ap ok (sym rendered),
    )
