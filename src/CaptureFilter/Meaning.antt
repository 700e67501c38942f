-- ===== src/CaptureFilter/Meaning.antt =====
-- capture_filter.py: the parser reads the language of `Syntax`, with the meaning given there.
use homelab_agent.Prelude.{
  ℕ, zero, suc, ◌<◌, ◌≤◌, ◌+◌, ◌≡◌, ap, ◌∙◌, false, not, List, [], ◌∷◌, ◌++◌, append_assoc, length,
  arith,
}
use homelab_agent.Prelude.Text.{Text, text}
use homelab_agent.Prelude.Result.{ok}
use homelab_agent.CaptureFilter.Packet.{IpLibrary, Predicate}
use homelab_agent.CaptureFilter.Parser.{Parser, ◌>>=◌, bind-ok, pure, if_next, next_in, take_token}
use homelab_agent.CaptureFilter.Primitive.{selectors}
use homelab_agent.CaptureFilter.Grammar.{
  more_parts, and_expr, or_expr, close, unary, parse, finish, or_words, and_words, max_depth,
}
use homelab_agent.CaptureFilter.Total.{Uses-or_expr, Uses-unary}
use homelab_agent.CaptureFilter.Syntax.{
  Unary, Ands, Ors, atom, negated, grouped, single, also, only, either, write_unary, write_ands,
  write_ors, unary_holds, ands_hold, ors_hold, unary_nesting, ands_nesting, ors_nesting,
  IsCondition, UnaryConditions, AndsConditions, OrsConditions,
}
use homelab_agent.CaptureFilter.Loops.{
  Ends, all_of-ands_list, and_expr_lem, ands_list, any_of-ors_list, close-Closes, close_lem,
  length-write_ands, length-write_unary, more_parts-step, more_parts-stop, next-and, next-not,
  next-open, next-or, nil-Closes, or-Ends, or_expr_lem, ors_list, parts_of_lem, selectors-and,
}

module _ ⦃lib : IpLibrary⦄ where
  unary-not :
      (left : ℕ) (ts rest : List Text) (f : Predicate)
      → unary left ts ≡ ok (f, rest)
      → unary (suc left) (text "not" ∷ ts) ≡ ok ((λ p. not (f p)), rest)
  unfolding unary if_next ◌>>=◌ take_token pure
  unary-not left ts rest f k = rw next-not (bind-ok (unary left) _ ts rest f k)

  unary-group :
      (left : ℕ) (ts rest : List Text) (f : Predicate)
      → or_expr (unary left) ts ≡ ok (f, text ")" ∷ rest)
      → unary (suc left) (text "(" ∷ ts) ≡ ok (f, rest)
  unfolding unary if_next ◌>>=◌ take_token pure
  unary-group left ts rest f k = rw ((next-open ts).0) (
      rw ((next-open ts).1) (
        bind-ok (or_expr (unary left)) _ ts (text ")" ∷ rest) f k
        ∙ bind-ok close _ (text ")" ∷ rest) rest tt (close_lem rest)))

  unary-atom :
      (left : ℕ) (ts : List Text) (f : Predicate) (rest : List Text)
      → IsCondition ts f
      → next_in selectors rest ≡ false
      → unary (suc left) (ts ++ rest) ≡ ok (f, rest)
  unfolding unary if_next
  unary-atom left ts f rest c e =
      rw ((c.no_operator rest).0) (rw ((c.no_operator rest).1) (c.read_back rest e))

-- `item` reads `ts` as `f`, and leaves `rest`.
abbrev Reads : Parser Predicate → List Text → Predicate → List Text → Type 0
Reads item ts f rest = item ts ≡ ok (f, rest)

abbrev AndsRead : Parser Predicate → Ands → List Text → Type 0
AndsRead item (single u) rest = Reads item (write_unary u rest) (unary_holds u) rest
AndsRead item (also u a) rest =
    (let after = text "and" ∷ write_ands a rest in
      Reads item (write_unary u after) (unary_holds u) after)
    × AndsRead item a rest

abbrev OrsRead : Parser Predicate → Ors → List Text → Type 0
OrsRead item (only a) rest = Reads item (write_ands a rest) (ands_hold a) rest
OrsRead item (either a o) rest =
    (let after = text "or" ∷ write_ors o rest in
      Reads item (write_ands a after) (ands_hold a) after)
    × OrsRead item o rest

-- The loop of `and_expr` reads the rest of a conjunction, in any number of rounds that is enough.
more_ands-write :
    (item : Parser Predicate) (n : ℕ) (parts : List Predicate) (a : Ands) (rest : List Text)
    → AndsRead item a rest
    → next_in and_words rest ≡ false
    → suc (length (write_ands a rest)) < n
    → more_parts n and_words item parts (text "and" ∷ write_ands a rest)
      ≡ ok (parts ++ ands_list a, rest)
unfolding write_ands
more_ands-write item zero parts a rest r e k = absurd (omega arith)
more_ands-write item (suc zero) parts a rest r e k = absurd (omega arith)
more_ands-write item (suc (suc n)) parts (single u) rest r e k =
    more_parts-step and_words item (suc n) parts (text "and") _ rest (unary_holds u) (next-and _) r
    ∙ more_parts-stop and_words item n (parts ++ unary_holds u ∷ []) rest e
more_ands-write item (suc (suc n)) parts (also u a) rest (r, rs) e k =
    more_parts-step and_words item (suc n) parts (text "and") _ _ (unary_holds u) (next-and _) r
    ∙ more_ands-write item (suc n) (parts ++ unary_holds u ∷ []) a rest rs e
        (omega (arith, length-write_unary u (text "and" ∷ write_ands a rest)))
    ∙ ap (λ l. ok (l, rest)) (append_assoc parts (unary_holds u ∷ []) (ands_list a))

ands-write :
    (item : Parser Predicate) (a : Ands) (rest : List Text)
    → AndsRead item a rest
    → next_in and_words rest ≡ false
    → Reads (and_expr item) (write_ands a rest) (ands_hold a) rest
unfolding write_ands
ands-write item (single u) rest r e =
    and_expr_lem item _ rest (ands_list (single u)) (
      parts_of_lem and_words item _ rest (unary_holds u) r
      ∙ more_parts-stop and_words item _ _ rest e)
    ∙ ap (λ f. ok (f, rest)) (all_of-ands_list (single u))
ands-write item (also u a) rest (r, rs) e =
    and_expr_lem item _ rest (ands_list (also u a)) (
      parts_of_lem and_words item _ _ (unary_holds u) r
      ∙ more_ands-write item _ (unary_holds u ∷ []) a rest rs e (omega arith))
    ∙ ap (λ f. ok (f, rest)) (all_of-ands_list (also u a))

more_ors-write :
    (item : Parser Predicate) (n : ℕ) (parts : List Predicate) (o : Ors) (rest : List Text)
    → OrsRead item o rest
    → next_in or_words rest ≡ false
    → suc (length (write_ors o rest)) < n
    → more_parts n or_words item parts (text "or" ∷ write_ors o rest)
      ≡ ok (parts ++ ors_list o, rest)
unfolding write_ors
more_ors-write item zero parts o rest r e k = absurd (omega arith)
more_ors-write item (suc zero) parts o rest r e k = absurd (omega arith)
more_ors-write item (suc (suc n)) parts (only a) rest r e k =
    more_parts-step or_words item (suc n) parts (text "or") _ rest (ands_hold a) (next-or _) r
    ∙ more_parts-stop or_words item n (parts ++ ands_hold a ∷ []) rest e
more_ors-write item (suc (suc n)) parts (either a o) rest (r, rs) e k =
    more_parts-step or_words item (suc n) parts (text "or") _ _ (ands_hold a) (next-or _) r
    ∙ more_ors-write item (suc n) (parts ++ ands_hold a ∷ []) o rest rs e
        (omega (arith, length-write_ands a (text "or" ∷ write_ors o rest)))
    ∙ ap (λ l. ok (l, rest)) (append_assoc parts (ands_hold a ∷ []) (ors_list o))

ors-write :
    (item : Parser Predicate) (o : Ors) (rest : List Text)
    → OrsRead (and_expr item) o rest
    → next_in or_words rest ≡ false
    → Reads (or_expr item) (write_ors o rest) (ors_hold o) rest
unfolding write_ors
ors-write item (only a) rest r e =
    or_expr_lem item _ rest (ors_list (only a)) (
      parts_of_lem or_words (and_expr item) _ rest (ands_hold a) r
      ∙ more_parts-stop or_words (and_expr item) _ _ rest e)
    ∙ ap (λ f. ok (f, rest)) (any_of-ors_list (only a))
ors-write item (either a o) rest (r, rs) e =
    or_expr_lem item _ rest (ors_list (either a o)) (
      parts_of_lem or_words (and_expr item) _ _ (ands_hold a) r
      ∙ more_ors-write (and_expr item) _ (ands_hold a ∷ []) o rest rs e (omega arith))
    ∙ ap (λ f. ok (f, rest)) (any_of-ors_list (either a o))

module _ ⦃lib : IpLibrary⦄ where
  mutual
    unfolding write_unary unary_holds unary_nesting

    unary-write :
        (u : Unary) (left : ℕ) (rest : List Text)
        → UnaryConditions u
        → unary_nesting u < left
        → next_in selectors rest ≡ false
        → Reads (unary left) (write_unary u rest) (unary_holds u) rest
    unary-write (atom ts f) zero rest c h e = absurd (omega arith)
    unary-write (atom ts f) (suc left) rest c h e = unary-atom left ts f rest c e
    unary-write (negated u) zero rest c h e = absurd (omega arith)
    unary-write (negated u) (suc left) rest c h e =
        unary-not left _ rest (unary_holds u) (unary-write u left rest c (omega arith) e)
    unary-write (grouped o) zero rest c h e = absurd (omega arith)
    unary-write (grouped o) (suc left) rest c h e = unary-group left _ rest (ors_hold o) (
        ors-write (unary left) o (text ")" ∷ rest)
          (ors-read o left (text ")" ∷ rest) c (omega arith) (close-Closes rest).0)
          (close-Closes rest).1)

    ands-read :
        (a : Ands) (left : ℕ) (rest : List Text)
        → AndsConditions a
        → ands_nesting a < left
        → next_in selectors rest ≡ false
        → AndsRead (unary left) a rest
    ands-read (single u) left rest c h e = unary-write u left rest c h e
    ands-read (also u a) left rest (c, cs) h e = (
      unary-write u left (text "and" ∷ write_ands a rest) c (omega arith) (selectors-and _),
      ands-read a left rest cs (omega arith) e,
    )

    ors-read :
        (o : Ors) (left : ℕ) (rest : List Text)
        → OrsConditions o
        → ors_nesting o < left
        → Ends rest
        → OrsRead (and_expr (unary left)) o rest
    ors-read (only a) left rest c h e =
        ands-write (unary left) a rest (ands-read a left rest c h e.0) e.1
    ors-read (either a o) left rest (c, cs) h e = (
      ands-write (unary left) a (text "or" ∷ write_ors o rest)
          (ands-read a left _ c (omega arith) (or-Ends _).0) (or-Ends _).1,
      ors-read o left rest cs (omega arith) e,
    )

  parse_of_Reads :
      (t : Text) (ts : List Text) (f : Predicate)
      → Reads (or_expr (unary (max_depth + 1))) (t ∷ ts) f []
      → parse (t ∷ ts) ≡ ok f
  unfolding parse finish
  parse_of_Reads t ts f r = rw r

  parse_nonempty :
      (ts : List Text) (f : Predicate)
      → Reads (or_expr (unary (max_depth + 1))) ts f []
      → parse ts ≡ ok f
  parse_nonempty [] f r =
      absurd (omega (arith, rw r at ((Uses-or_expr _ (Uses-unary (max_depth + 1))).at [])))
  parse_nonempty (t ∷ ts) f r = parse_of_Reads t ts f r

  -- Every expression whose negations and parentheses are nested at most max_depth deep is accepted
  -- as written, and the predicate is its meaning: `not` binds tightest, then `and`, then `or`.
  pub parse-write_ors :
      (o : Ors)
      → OrsConditions o
      → ors_nesting o ≤ max_depth
      → parse (write_ors o []) ≡ ok (ors_hold o)
  parse-write_ors o c h = parse_nonempty _ _ (
      ors-write (unary (max_depth + 1)) o []
        (ors-read o (max_depth + 1) [] c (omega arith) nil-Closes.0) nil-Closes.1)
