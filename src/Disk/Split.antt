-- ===== src/Disk/Split.antt =====
-- posixpath's `split` of a normal path.
use homelab_agent.Prelude.{
  ◌-◌, ◌≡◌, refl, sym, ap, ◌∙◌, Bool, true, false, not, List, [], ◌∷◌, ◌++◌, if◌then◌else◌, eqb,
  ◌==◌, contains, length, take, all, nat_eq, list_eq, arith, append_assoc, append-nil, all-front,
  list_beq, length-append, ==_sym, ==_refl,
}
use homelab_agent.Prelude.Text.{Text, text}
use homelab_agent.Disk.Path.{slash, basename, last_part, dirname, strip_slashes, rstrip_slashes}
use homelab_agent.Disk.Normal.{
  is_part, render, render_parts, split_on-render_parts, part_free, strip_slashes-part,
}
use mathlib.Core.List.{reverse, reverse-cons, reverse-append, reverse-reverse}

last_part-snoc : (p name : Text) (ps : List Text) → last_part p (ps ++ name ∷ []) ≡ name
unfolding last_part
last_part-snoc p name [] = refl
last_part-snoc p name (q ∷ ps) = last_part-snoc q name ps

pub basename-render :
    (parts : List Text) (name : Text)
    → all is_part (parts ++ name ∷ []) ≡ true
    → basename (render_parts (parts ++ name ∷ [])) ≡ name
unfolding basename last_part
basename-render parts name h =
    rw (split_on-render_parts (parts ++ name ∷ []) h) (last_part-snoc [] name parts)

pub render_parts-snoc :
    (parts : List Text) (name : Text)
    → render_parts (parts ++ name ∷ []) ≡ (render_parts parts ++ text "/") ++ name
unfolding render_parts
render_parts-snoc [] name = ap (λ s. slash ∷ s) (append-nil name)
render_parts-snoc (part ∷ parts) name =
    ap (λ s. slash ∷ (part ++ s)) (render_parts-snoc parts name)
    ∙ ap (λ s. slash ∷ s) (sym (append_assoc part (render_parts parts ++ text "/") name))
    ∙ ap (λ s. slash ∷ (s ++ name)) (sym (append_assoc part (render_parts parts) (text "/")))

take-length : (front back : Text) → take (length front) (front ++ back) ≡ front
take-length [] back = refl
take-length (c ∷ front) back = ap (λ s. c ∷ s) (take-length front back)

take-front :
    (front back : Text) → take (length (front ++ back) - length back) (front ++ back) ≡ front
take-front front back =
    let left : length (front ++ back) - length back ≡ length front =
      omega (arith, length-append front back) in
    rw left (take-length front back)

-- a text that does not begin with a slash
abbrev pub solid : Text → Bool
solid [] = false
solid (c ∷ s) = not (eqb c slash)

pub strip_slashes-solid : (s : Text) → solid s ≡ true → strip_slashes s ≡ s
unfolding strip_slashes
strip_slashes-solid [] h = refl
strip_slashes-solid (c ∷ s) h = ground arith

solid-append : (s rest : Text) → solid s ≡ true → solid (s ++ rest) ≡ true
solid-append [] rest h = ground arith
solid-append (c ∷ s) rest h = h

solid-reverse : (s : Text) → s == [] ≡ false → contains s slash ≡ false → solid (reverse s) ≡ true
unfolding contains list_beq
solid-reverse [] full free = ground (arith, ==_refl {A = Text} [])
solid-reverse (c ∷ []) full free = ground (arith, ==_sym c slash)
solid-reverse (c ∷ d ∷ s) full free =
    rw (reverse-cons c (d ∷ s))
      (solid-append (reverse (d ∷ s)) (c ∷ []) (solid-reverse (d ∷ s) refl (ground (arith))))

pub solid-reverse_append :
    (front back : Text) → solid (reverse back) ≡ true → solid (reverse (front ++ back)) ≡ true
solid-reverse_append front back h =
    rw (reverse-append front back) (solid-append (reverse back) (reverse front) h)

pub solid-reverse_part : (part : Text) → is_part part ≡ true → solid (reverse part) ≡ true
unfolding is_part
solid-reverse_part part h = solid-reverse part (ground arith) (part_free part h)

pub solid-render_parts :
    (part : Text) (parts : List Text)
    → all is_part (part ∷ parts) ≡ true
    → solid (reverse (render_parts (part ∷ parts))) ≡ true
unfolding render_parts all
solid-render_parts part [] h =
    rw (append-nil part)
      (solid-reverse_append (slash ∷ []) part (solid-reverse_part part (ground arith)))
solid-render_parts part (next ∷ parts) h =
    solid-reverse_append (slash ∷ part) (render_parts (next ∷ parts))
      (solid-render_parts next parts (ground arith))

pub filled-append : (part rest : Text) → is_part part ≡ true → ((part ++ rest) == []) ≡ false
unfolding is_part list_beq
filled-append [] rest h = ground arith
filled-append (c ∷ part) rest h = refl

-- the folder of a path, whose last slashes are stripped
folder_of_front :
    (parts : List Text)
    → all is_part parts ≡ true
    → (if strip_slashes (render_parts parts ++ text "/") == []
        then render_parts parts ++ text "/"
        else rstrip_slashes (render_parts parts ++ text "/"))
      ≡ render parts
unfolding render render_parts strip_slashes rstrip_slashes list_beq all
folder_of_front [] h = refl
folder_of_front (part ∷ parts) h =
    let front : Text = render_parts (part ∷ parts) in
    let filled : (strip_slashes (front ++ text "/") == []) ≡ false =
      ap (λ s. strip_slashes (slash ∷ s) == []) (append_assoc part (render_parts parts) (text "/"))
      ∙ ap (λ s. s == []) (strip_slashes-part part (render_parts parts ++ text "/") (ground arith))
      ∙ filled-append part (render_parts parts ++ text "/") (ground arith) in
    let bare : rstrip_slashes (front ++ text "/") ≡ front =
      ap (λ s. reverse (strip_slashes s)) (reverse-append front (text "/"))
      ∙ ap reverse (strip_slashes-solid (reverse front) (solid-render_parts part parts h))
      ∙ reverse-reverse front in
    rw filled bare

pub dirname-render :
    (parts : List Text) (name : Text)
    → all is_part (parts ++ name ∷ []) ≡ true
    → dirname (render_parts (parts ++ name ∷ [])) ≡ render parts
unfolding dirname
dirname-render parts name h =
    let front : Text = render_parts parts ++ text "/" in
    rw (basename-render parts name h, render_parts-snoc parts name, take-front front name)
      (folder_of_front parts (all-front is_part parts (name ∷ []) h))
