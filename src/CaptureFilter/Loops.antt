-- ===== src/CaptureFilter/Loops.antt =====
-- capture_filter.py: what the two loops of the grammar make of parts that are read one by one.
use mathlib.Core.Path.{fun_ext}
use homelab_agent.Prelude.{
  ℕ, suc, ◌≤◌, ◌≡◌, refl, true, false, List, [], ◌∷◌, ◌++◌, length, length-append, arith, contains,
  list_beq, all, any,
}
use homelab_agent.Prelude.Text.{Text, text, lower}
use homelab_agent.Prelude.Result.{ok}
use homelab_agent.CaptureFilter.Packet.{Predicate}
use homelab_agent.CaptureFilter.Parser.{
  Parser, ◌>>=◌, bind-ok, pure, if_next, with_rounds, next_in, peek, take_token,
}
use homelab_agent.CaptureFilter.Primitive.{selectors}
use homelab_agent.CaptureFilter.Grammar.{
  more_parts, parts_of, any_of, all_of, and_expr, or_expr, close, or_words, and_words, not_words,
}
use homelab_agent.CaptureFilter.Syntax.{
  Unary, Ands, Ors, atom, negated, grouped, single, also, only, either, write_unary, write_ands,
  write_ors, unary_holds, ands_hold, ors_hold,
}

-- What the next token is, where the grammar looks.
abbrev pub Ends : List Text → Type 0
Ends rest = (next_in selectors rest ≡ false) × (next_in and_words rest ≡ false)

abbrev Closes : List Text → Type 0
Closes rest = Ends rest × (next_in or_words rest ≡ false)

lookahead : Unit {0}
unfolding next_in peek lower contains list_beq
lookahead = tt

pub next-and : (ts : List Text) → next_in and_words (text "and" ∷ ts) ≡ true
unfolding lookahead
next-and ts = refl

pub next-or : (ts : List Text) → next_in or_words (text "or" ∷ ts) ≡ true
unfolding lookahead
next-or ts = refl

pub next-not : (ts : List Text) → next_in not_words (text "not" ∷ ts) ≡ true
unfolding lookahead
next-not ts = refl

pub next-open :
    (ts : List Text)
    → (next_in not_words (text "(" ∷ ts) ≡ false) × (next_in (text "(" ∷ []) (text "(" ∷ ts) ≡ true)
unfolding lookahead
next-open ts = (refl, refl)

pub selectors-and : (ts : List Text) → next_in selectors (text "and" ∷ ts) ≡ false
unfolding lookahead
selectors-and ts = refl

pub or-Ends : (ts : List Text) → Ends (text "or" ∷ ts)
unfolding lookahead
or-Ends ts = (refl, refl)

pub close-Closes : (ts : List Text) → Closes (text ")" ∷ ts)
unfolding lookahead
close-Closes ts = ((refl, refl), refl)

pub nil-Closes : Closes []
unfolding lookahead
nil-Closes = ((refl, refl), refl)

pub close_lem : (ts : List Text) → close (text ")" ∷ ts) ≡ ok (tt, ts)
unfolding close if_next lookahead ◌>>=◌ take_token pure
close_lem ts = refl

module _ (words : List Text) (item : Parser Predicate) where
  pub more_parts-stop :
      (n : ℕ) (parts : List Predicate) (ts : List Text)
      → next_in words ts ≡ false
      → more_parts (suc n) words item parts ts ≡ ok (parts, ts)
  unfolding more_parts if_next pure
  more_parts-stop n parts ts h = rw h

  pub more_parts-step :
      (n : ℕ) (parts : List Predicate) (t : Text) (ts rest : List Text) (f : Predicate)
      → next_in words (t ∷ ts) ≡ true
      → item ts ≡ ok (f, rest)
      → more_parts (suc n) words item parts (t ∷ ts)
        ≡ more_parts n words item (parts ++ f ∷ []) rest
  unfolding more_parts if_next ◌>>=◌ take_token
  more_parts-step n parts t ts rest f h k = rw h (bind-ok item _ ts rest f k)

  pub parts_of_lem :
      (ts rest : List Text) (f : Predicate)
      → item ts ≡ ok (f, rest)
      → parts_of words item ts ≡ more_parts (suc (length rest)) words item (f ∷ []) rest
  unfolding parts_of with_rounds
  parts_of_lem ts rest f k = bind-ok item _ ts rest f k

pub and_expr_lem :
    (item : Parser Predicate) (ts rest : List Text) (fs : List Predicate)
    → parts_of and_words item ts ≡ ok (fs, rest)
    → and_expr item ts ≡ ok (all_of fs, rest)
unfolding and_expr pure
and_expr_lem item ts rest fs k = bind-ok _ _ ts rest fs k

pub or_expr_lem :
    (item : Parser Predicate) (ts rest : List Text) (fs : List Predicate)
    → parts_of or_words (and_expr item) ts ≡ ok (fs, rest)
    → or_expr item ts ≡ ok (any_of fs, rest)
unfolding or_expr pure
or_expr_lem item ts rest fs k = bind-ok _ _ ts rest fs k

abbrev pub ands_list : Ands → List Predicate
ands_list (single u) = unary_holds u ∷ []
ands_list (also u a) = unary_holds u ∷ ands_list a

abbrev pub ors_list : Ors → List Predicate
ors_list (only a) = ands_hold a ∷ []
ors_list (either a o) = ands_hold a ∷ ors_list o

all-ands_list : (a : Ands) (p : _) → all (λ f. f p) (ands_list a) ≡ ands_hold a p
unfolding all ands_hold
all-ands_list (single u) p = ground arith
all-ands_list (also u a) p = rw (all-ands_list a p)

pub all_of-ands_list : (a : Ands) → all_of (ands_list a) ≡ ands_hold a
unfolding all_of ands_hold
all_of-ands_list (single u) = refl
all_of-ands_list (also u (single v)) = fun_ext λ p. all-ands_list (also u (single v)) p
all_of-ands_list (also u (also v a)) = fun_ext λ p. all-ands_list (also u (also v a)) p

any-ors_list : (o : Ors) (p : _) → any (λ f. f p) (ors_list o) ≡ ors_hold o p
unfolding any ors_hold
any-ors_list (only a) p = ground arith
any-ors_list (either a o) p = rw (any-ors_list o p)

pub any_of-ors_list : (o : Ors) → any_of (ors_list o) ≡ ors_hold o
unfolding any_of ors_hold
any_of-ors_list (only a) = refl
any_of-ors_list (either a (only b)) = fun_ext λ p. any-ors_list (either a (only b)) p
any_of-ors_list (either a (either b o)) = fun_ext λ p. any-ors_list (either a (either b o)) p

mutual
  unfolding write_unary write_ands write_ors

  pub length-write_unary :
      (u : Unary) (rest : List Text) → length rest ≤ length (write_unary u rest)
  length-write_unary (atom ts f) rest = omega (arith, length-append ts rest)
  length-write_unary (negated u) rest = omega (arith, length-write_unary u rest)
  length-write_unary (grouped o) rest = omega (arith, length-write_ors o (text ")" ∷ rest))

  pub length-write_ands : (a : Ands) (rest : List Text) → length rest ≤ length (write_ands a rest)
  length-write_ands (single u) rest = length-write_unary u rest
  length-write_ands (also u a) rest =
      omega (arith, length-write_unary u (text "and" ∷ write_ands a rest), length-write_ands a rest)

  length-write_ors : (o : Ors) (rest : List Text) → length rest ≤ length (write_ors o rest)
  length-write_ors (only a) rest = length-write_ands a rest
  length-write_ors (either a o) rest =
      omega (arith, length-write_ands a (text "or" ∷ write_ors o rest), length-write_ors o rest)
