-- ===== src/Prelude/Text.antt =====
-- Python's `str`, as the list of its code points. The texts that the models read are ASCII: on
-- other letters `lower` here is the identity, and digits are 0 to 9.
use Prim.Native.Nat.{ℕ, ◌+◌, ◌-◌, ◌*◌}
use Prim.Native.Char.{code}
use Prim.Native.String.{String}
use mathlib.Core.Bool.{Bool, true, false, ◌&&◌, ◌||◌}
use mathlib.Core.Option.{Option, none, some}
use mathlib.Core.List.{List, [], ◌∷◌, map, reverse}
use homelab_agent.Prelude.Tests.{leb, ltb, eqb, if◌then◌else◌}
use homelab_agent.Prelude.Lists.{all}

abbrev pub Text : Type 0
Text = List ℕ

abbrev pub text : String → Text
text String.[] = []
text (String.◌∷◌ c s) = code c ∷ text s

unfoldable pub is_space : ℕ → Bool
is_space c = eqb c 32 || leb 9 c && leb c 13 || leb 28 c && leb c 31

unfoldable pub is_digit : ℕ → Bool
is_digit c = leb 48 c && leb c 57

unfoldable pub to_lower : ℕ → ℕ
to_lower c = if leb 65 c && leb c 90 then c + 32 else c

-- s.lower()
unfoldable pub lower : Text → Text
unfolding to_lower
lower = map to_lower

-- s.lstrip()
unfoldable pub strip_left : Text → Text
unfolding is_space
strip_left [] = []
strip_left (c ∷ s) = elim (is_space c) [ true ↦ strip_left s | false ↦ c ∷ s ]

-- s.strip()
unfoldable pub strip : Text → Text
unfolding strip_left
strip s = reverse (strip_left (reverse (strip_left s)))

-- s.isdigit()
unfoldable pub is_decimal : Text → Bool
unfolding is_digit all
is_decimal [] = false
is_decimal (c ∷ s) = all is_digit (c ∷ s)

-- int(s), for a text of digits
unfoldable pub int_from : ℕ → Text → ℕ
int_from n [] = n
int_from n (c ∷ s) = int_from (n * 10 + (c - 48)) s

abbrev pub int : Text → ℕ
int s = int_from 0 s

-- s.startswith(prefix)
unfoldable pub starts_with : Text → Text → Bool
starts_with s [] = true
starts_with [] (p ∷ ps) = false
starts_with (c ∷ s) (p ∷ ps) = eqb c p && starts_with s ps

-- s.partition(c): the part before the first `c`, and the part after it if there is one
unfoldable pub partition : ℕ → Text → Text × Option Text
partition c [] = ([], none)
partition c (x ∷ s) =
    let rest = partition c s in if eqb x c then ([], some s) else (x ∷ rest.0, rest.1)

-- s.split(c)
unfoldable pub split_on : ℕ → Text → List Text
split_on c [] = [] ∷ []
split_on c (x ∷ s) =
    let rest = split_on c s in
    if eqb x c then [] ∷ rest else (elim rest [ [] ↦ (x ∷ []) ∷ [] | w ∷ ws ↦ (x ∷ w) ∷ ws ])

-- sub in s
unfoldable pub has_infix : Text → Text → Bool
unfolding starts_with
has_infix sub [] = starts_with [] sub
has_infix sub (c ∷ s) = starts_with (c ∷ s) sub || has_infix sub s

-- s <= t
unfoldable pub text_le : Text → Text → Bool
text_le [] t = true
text_le (c ∷ s) [] = false
text_le (c ∷ s) (d ∷ t) = ltb c d || eqb c d && text_le s t
