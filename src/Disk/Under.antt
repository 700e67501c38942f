-- ===== src/Disk/Under.antt =====
-- disk_delete.py: `_under`, and the parts of a normal path, by the names between the slashes.
use homelab_agent.Prelude.{
  ℕ, ◌≡◌, refl, ap, ◌∙◌, Bool, true, false, ◌&&◌, List, [], ◌∷◌, ◌++◌, ◌==◌, contains, length, all,
  nat_eq, list_eq, arith, append_assoc, list_beq, ==_sym, and_true,
}
use homelab_agent.Prelude.Text.{Text, text, starts_with}
use homelab_agent.Disk.Path.{slash, is_under, count_slashes}
use homelab_agent.Disk.Normal.{is_part, render, render_parts, part_free}

-- the folder that the first names say contains what the second ones say
unfoldable pub is_prefix : List Text → List Text → Bool
is_prefix [] parts = true
is_prefix (q ∷ qs) [] = false
is_prefix (q ∷ qs) (p ∷ ps) = p == q && is_prefix qs ps

is_under-closed :
    (path root : Text) → is_under path root ≡ starts_with (path ++ text "/") (root ++ text "/")
unfolding is_under starts_with list_beq
is_under-closed [] [] = refl
is_under-closed [] (c ∷ []) = ground arith
is_under-closed [] (c ∷ d ∷ root) = ground arith
is_under-closed (c ∷ path) [] = ground arith
is_under-closed (c ∷ path) (d ∷ root) = ground (arith, is_under-closed path root)

-- what follows the first slash of a path that is closed by one
abbrev after_slash : List Text → Text
after_slash [] = []
after_slash (part ∷ parts) = (part ++ render_parts parts) ++ text "/"

closed-after_slash :
    (parts : List Text) → render_parts parts ++ text "/" ≡ slash ∷ after_slash parts
unfolding render_parts
closed-after_slash [] = refl
closed-after_slash (part ∷ parts) = refl

starts_with-part :
    (p q a b : Text)
    → contains p slash ≡ false
    → contains q slash ≡ false
    → starts_with (p ++ slash ∷ a) (q ++ slash ∷ b)
      ≡ (p == q && starts_with (slash ∷ a) (slash ∷ b))
unfolding starts_with list_beq contains
starts_with-part [] [] a b hp hq = refl
starts_with-part [] (d ∷ q) a b hp hq = ground (arith, ==_sym d slash)
starts_with-part (c ∷ p) [] a b hp hq = ground (arith, ==_sym c slash)
starts_with-part (c ∷ p) (d ∷ q) a b hp hq = ground (arith, starts_with-part p q a b)

closed-append : (p : Text) (ps : List Text) → after_slash (p ∷ ps) ≡ p ++ slash ∷ after_slash ps
closed-append p ps =
    append_assoc p (render_parts ps) (text "/") ∙ ap (λ rest. p ++ rest) (closed-after_slash ps)

starts_with-nil : (s : Text) (c : ℕ) → starts_with [] (s ++ c ∷ []) ≡ false
unfolding starts_with
starts_with-nil [] c = refl
starts_with-nil (d ∷ s) c = refl

starts_with-closed :
    (ps qs : List Text)
    → all is_part ps ≡ true
    → all is_part qs ≡ true
    → starts_with (slash ∷ after_slash ps) (slash ∷ after_slash qs) ≡ is_prefix qs ps
unfolding starts_with is_prefix all
starts_with-closed ps [] hp hq = refl
starts_with-closed [] (q ∷ qs) hp hq = starts_with-nil (q ++ render_parts qs) slash
starts_with-closed (p ∷ ps) (q ∷ qs) hp hq =
    let p_free : contains p slash ≡ false =
      part_free p (and_true (is_part p) (all is_part ps) hp).0 in
    let q_free : contains q slash ≡ false =
      part_free q (and_true (is_part q) (all is_part qs) hq).0 in
    let rest : starts_with (slash ∷ after_slash ps) (slash ∷ after_slash qs) ≡ is_prefix qs ps =
      starts_with-closed ps qs (ground arith) (ground arith) in
    rw
      (
        closed-append p ps,
        closed-append q qs,
        starts_with-part p q (after_slash ps) (after_slash qs) p_free q_free,
        rest,
      )
      refl

is_under-root :
    (q : Text) (qs : List Text)
    → is_part q ≡ true
    → starts_with (slash ∷ []) (after_slash (q ∷ qs)) ≡ false
unfolding starts_with is_part list_beq
is_under-root q qs h =
    let free : contains q slash ≡ false = part_free q h in
    rw (closed-append q qs, starts_with-part [] q [] (after_slash qs) refl free)
      (ground (arith, ==_sym q []))

pub is_under-folder :
    (parts : List Text) (q : Text) (qs : List Text)
    → all is_part parts ≡ true
    → all is_part (q ∷ qs) ≡ true
    → is_under (render parts) (render (q ∷ qs)) ≡ is_prefix (q ∷ qs) parts
unfolding render render_parts starts_with is_prefix all
is_under-folder [] q qs hp hq =
    is_under-closed (text "/") (render (q ∷ qs)) ∙ is_under-root q qs (ground arith)
is_under-folder (p ∷ ps) q qs hp hq =
    is_under-closed (render (p ∷ ps)) (render (q ∷ qs)) ∙ starts_with-closed (p ∷ ps) (q ∷ qs) hp hq

-- under "/" there is by that test only "/" itself
abbrev pub under_of : List Text → List Text → Bool
under_of parts (q ∷ qs) = is_prefix (q ∷ qs) parts
under_of [] [] = true
under_of (_ ∷ _) [] = false

-- no name between two slashes is empty
is_under-slash :
    (p : Text) (ps : List Text) → is_part p ≡ true → is_under (render (p ∷ ps)) (text "/") ≡ false
unfolding is_under render render_parts starts_with is_part list_beq
is_under-slash [] ps h = ground arith
is_under-slash (c ∷ p) ps h = ground (arith, part_free (c ∷ p) h)

-- The test on the texts of two paths in normal form is one on the names between their slashes: the
-- names of the folder come first in those of the path. Only under "/" it puts nothing but "/".
pub is_under-is_prefix :
    (parts roots : List Text)
    → all is_part parts ≡ true
    → all is_part roots ≡ true
    → is_under (render parts) (render roots) ≡ under_of parts roots
unfolding render all
is_under-is_prefix parts (q ∷ qs) hp hq = is_under-folder parts q qs hp hq
is_under-is_prefix [] [] hp hq = unfold is_under starts_with list_beq in refl
is_under-is_prefix (p ∷ ps) [] hp hq = is_under-slash p ps (ground arith)

count_slashes-append :
    (part rest : Text)
    → contains part slash ≡ false
    → count_slashes (part ++ rest) ≡ count_slashes rest
unfolding count_slashes contains
count_slashes-append [] rest h = refl
count_slashes-append (c ∷ part) rest h =
    ground (arith, count_slashes-append part rest, ==_sym c slash)

pub count_slashes-render :
    (parts : List Text)
    → all is_part parts ≡ true
    → count_slashes (render_parts parts) ≡ length parts
unfolding count_slashes render_parts all
count_slashes-render [] h = refl
count_slashes-render (part ∷ parts) h = omega (
  arith,
  count_slashes-append part (render_parts parts) (part_free part (ground arith)),
  count_slashes-render parts (ground arith),
)
