-- ===== src/Files/Links.antt =====
-- files.py: no link stands between a root and a path that may be changed.
use homelab_agent.Prelude.{
  ℕ, ◌≡◌, ◌≢◌, refl, sym, ap, ◌∙◌, inl, inr, true, List, [], ◌∷◌, ◌++◌, if◌then◌else◌, eqb, ◌==◌,
  length, drop, all, nat_eq, list_eq, arith, Bool-cases, append_assoc, append-nil, ==-eq_of_true,
  and_true,
}
use homelab_agent.Prelude.Text.{Text, text, starts_with, split_on}
use homelab_agent.Disk.Path.{slash, is_under, join_with, strip_slashes, rstrip_slashes}
use homelab_agent.Disk.Normal.{
  is_part, render, render_parts, split_on-render_parts, split_on-append, part_free,
  join_with-render, strip_slashes-part,
}
use homelab_agent.Disk.Split.{
  solid, solid-render_parts, solid-reverse_append, solid-reverse_part, strip_slashes-solid,
}
use mathlib.Core.List.{reverse, reverse-reverse}
use homelab_agent.Files.Roots.{parts_below}

filled_split : (s : Text) → split_on slash s ≢ []
unfolding split_on
filled_split [] h = ground arith
filled_split (c ∷ s) h = ground arith

-- the first part of a split text, with one more letter
abbrev cons_head : ℕ → List Text → List Text
cons_head c [] = (c ∷ []) ∷ []
cons_head c (w ∷ ws) = (c ∷ w) ∷ ws

cons_head-append :
    (c : ℕ) (xs ys : List Text) → xs ≢ [] → cons_head c (xs ++ ys) ≡ cons_head c xs ++ ys
cons_head-append c [] ys h = ground (arith, h refl)
cons_head-append c (w ∷ ws) ys h = refl

split_on-cons :
    (c : ℕ) (s : Text)
    → split_on slash (c ∷ s)
      ≡ (if eqb c slash then [] ∷ split_on slash s else cons_head c (split_on slash s))
unfolding split_on
split_on-cons c s = refl

split_on-slash :
    (a b : Text) → split_on slash (a ++ slash ∷ b) ≡ split_on slash a ++ split_on slash b
unfolding split_on
split_on-slash [] b = refl
split_on-slash (c ∷ a) b = elim (Bool-cases (eqb c slash)) [
  | inl hit ↦ rw (split_on-cons c (a ++ slash ∷ b), split_on-cons c a, hit, split_on-slash a b) refl
  | inr miss ↦
      rw (split_on-cons c (a ++ slash ∷ b), split_on-cons c a, miss, split_on-slash a b)
        (cons_head-append c (split_on slash a) (split_on slash b) (filled_split a))
]

join_with-cons_head :
    (c : ℕ) (parts : List Text)
    → parts ≢ []
    → join_with (text "/") (cons_head c parts) ≡ c ∷ join_with (text "/") parts
unfolding join_with
join_with-cons_head c [] h = ground (arith, h refl)
join_with-cons_head c (w ∷ []) h = refl
join_with-cons_head c (w ∷ v ∷ ws) h = refl

join_with-nil_first :
    (parts : List Text)
    → parts ≢ []
    → join_with (text "/") ([] ∷ parts) ≡ slash ∷ join_with (text "/") parts
unfolding join_with
join_with-nil_first [] h = ground (arith, h refl)
join_with-nil_first (w ∷ ws) h = refl

join_with-split_on : (s : Text) → join_with (text "/") (split_on slash s) ≡ s
unfolding split_on join_with
join_with-split_on [] = refl
join_with-split_on (c ∷ s) = elim (Bool-cases (eqb c slash)) [
  | inl hit ↦
      rw
        (
          split_on-cons c s,
          hit,
          join_with-nil_first (split_on slash s) (filled_split s),
          join_with-split_on s,
        )
        (ground arith)
  | inr miss ↦
      rw
        (
          split_on-cons c s,
          miss,
          join_with-cons_head c (split_on slash s) (filled_split s),
          join_with-split_on s,
        )
        refl
]

starts_with-rest : (s p : Text) → starts_with s p ≡ true → (rest : Text) × (s ≡ p ++ rest)
unfolding starts_with
starts_with-rest s [] h = (s, refl)
starts_with-rest [] (d ∷ p) h = ground arith
starts_with-rest (c ∷ s) (d ∷ p) h =
    let (rest, same) = starts_with-rest s p (ground arith) in
    let here : c ≡ d = ground arith in (rest, rw here (ap (λ r. d ∷ r) same))

root_names :
    (parts : List Text) (root : Text) (names rest : List Text)
    → root ≢ []
    → split_on slash root ≡ names
    → [] ∷ parts ≡ names ++ rest
    → (front : List Text) × (back : List Text) × (parts ≡ front ++ back)
      × (root ≡ render_parts front)
unfolding join_with render
root_names parts root [] rest full at same = ground (arith, filled_split root)
root_names parts root (w ∷ []) rest full at same =
    let first : w ≡ [] = ground arith in
    let bare : root ≡ w = sym (join_with-split_on root) ∙ ap (join_with (text "/")) at in
    ground (arith, full (bare ∙ first))
root_names parts root (w ∷ v ∷ ws) rest full at same =
    let first : w ≡ [] = ground arith in
    let joined : root ≡ join_with (text "/") (w ∷ v ∷ ws) =
      sym (join_with-split_on root) ∙ ap (join_with (text "/")) at in
    (
      v ∷ ws,
      rest,
      cc,
      joined ∙ ap (λ part. join_with (text "/") (part ∷ v ∷ ws)) first ∙ join_with-render (v ∷ ws),
    )

-- A root above a path is made of the first of its names.
pub under_split :
    (parts : List Text) (root : Text)
    → all is_part parts ≡ true
    → root ≢ []
    → is_under (render_parts parts) root ≡ true
    → (front : List Text) × (back : List Text) × (parts ≡ front ++ back)
      × (root ≡ render_parts front)
unfolding is_under
under_split parts root h full under = elim (Bool-cases (render_parts parts == root)) [
  | inl same ↦
      (parts, [], sym (append-nil parts), sym (==-eq_of_true (render_parts parts) root same))
  | inr other ↦
      let below : starts_with (render_parts parts) (root ++ text "/") ≡ true = ground arith in
      let (rest, split) = starts_with-rest (render_parts parts) (root ++ text "/") below in
      let names : [] ∷ parts ≡ split_on slash root ++ split_on slash rest =
        sym (split_on-render_parts parts h)
        ∙ ap (split_on slash) (split ∙ append_assoc root (text "/") rest)
        ∙ split_on-slash root rest in
      root_names parts root (split_on slash root) (split_on slash rest) full refl names
]

drop-length : (front back : Text) → drop (length front) (front ++ back) ≡ back
drop-length [] back = refl
drop-length (c ∷ front) back = drop-length front back

render_parts-append :
    (xs ys : List Text) → render_parts (xs ++ ys) ≡ render_parts xs ++ render_parts ys
unfolding render_parts
render_parts-append [] ys = refl
render_parts-append (x ∷ xs) ys =
    ap (λ s. slash ∷ (x ++ s)) (render_parts-append xs ys)
    ∙ ap (λ s. slash ∷ s) (sym (append_assoc x (render_parts xs) (render_parts ys)))

solid-end :
    (q : Text) (qs : List Text)
    → all is_part (q ∷ qs) ≡ true
    → solid (reverse (q ++ render_parts qs)) ≡ true
unfolding render_parts all
solid-end q [] h = rw (append-nil q) (solid-reverse_part q (ground arith))
solid-end q (r ∷ qs) h =
    solid-reverse_append q (render_parts (r ∷ qs)) (solid-render_parts r qs (ground arith))

pub parts_below-render :
    (front : List Text) (q : Text) (qs : List Text)
    → all is_part (q ∷ qs) ≡ true
    → parts_below (render_parts front) (render_parts (front ++ q ∷ qs)) ≡ q ∷ qs
unfolding rstrip_slashes render_parts all
parts_below-render front q qs h =
    let rest : Text = render_parts (q ∷ qs) in
    let left : drop (length (render_parts front)) (render_parts (front ++ q ∷ qs)) ≡ rest =
      ap (drop (length (render_parts front))) (render_parts-append front (q ∷ qs))
      ∙ drop-length (render_parts front) rest in
    let bare : strip_slashes rest ≡ q ++ render_parts qs =
      strip_slashes-part q (render_parts qs) (and_true (is_part q) (all is_part qs) h).0 in
    let kept : rstrip_slashes (q ++ render_parts qs) ≡ q ++ render_parts qs =
      ap reverse (strip_slashes-solid (reverse (q ++ render_parts qs)) (solid-end q qs h))
      ∙ reverse-reverse (q ++ render_parts qs) in
    ap (λ s. split_on slash (rstrip_slashes (strip_slashes s))) left
    ∙ ap (λ s. split_on slash (rstrip_slashes s)) bare
    ∙ ap (split_on slash) kept
    ∙ split_on-append q (render_parts qs) qs (part_free q (ground arith))
        (split_on-render_parts qs (ground arith))
