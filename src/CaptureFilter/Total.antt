-- ===== src/CaptureFilter/Total.antt =====
-- capture_filter.py: the loops end. Every parser leaves at most the tokens that it was given, a
-- unary expression at least one fewer, so a loop has rounds enough.
use homelab_agent.Prelude.{
  ℕ, zero, suc, ◌+◌, ◌≤◌, ◌<◌, ◌≢◌, true, false, not, Option, List, [], ◌∷◌, ◌++◌, arith, length,
  Bool-cases, inl, inr, ltb, if◌then◌else◌,
}
use homelab_agent.Prelude.Text.{Text, strip}
use homelab_agent.Prelude.Result
use homelab_agent.Prelude.Result.{Result, ok, err}
use homelab_agent.CaptureFilter.Scan.{tokens-ne-out_of_fuel}
use homelab_agent.CaptureFilter.Tokens.{FilterError, out_of_fuel, tokens}
use homelab_agent.CaptureFilter.Packet.{IpLibrary, Predicate, Direction}
use homelab_agent.CaptureFilter.Parser.{
  Parser, ◌>>=◌, ◌>>◌, pure, if_next, with_rounds, take_token, next_in,
}
use homelab_agent.CaptureFilter.Primitive.{primitive, selector, directed, condition, qualified}
use homelab_agent.CaptureFilter.Grammar.{
  more_parts, parts_of, and_expr, or_expr, close, unary, parse, finish, compile_filter, max_depth,
  max_length, or_words, and_words, not_words,
}
use homelab_agent.CaptureFilter.Uses.{
  uses_rules, Consumes, Uses, Uses-bind, Uses-ether, Uses-if_next, Uses-length_condition,
  Uses-named, Uses-pure, Uses-raise, Uses-range_of, Uses-unqualified,
}

module _ ⦃lib : IpLibrary⦄ where
  Uses-selector :
      (first : Text) (qualifier : Option Text) (direction : Option Direction) (word : Text)
      → Uses 0 (selector first qualifier direction word)
  unfolding selector
  Uses-selector first qualifier direction word = search (uses_rules, Uses-range_of) depth 9

  Uses-directed :
      (first : Text) (qualifier : Option Text) (word : Text)
      → Uses 0 (directed first qualifier word)
  unfolding directed
  Uses-directed first qualifier word = search (uses_rules, Uses-selector) depth 8

  Uses-condition :
      (first : Text) (qualifier : Option Text) (word : Text)
      → Uses 0 (condition first qualifier word)
  unfolding condition
  Uses-condition first qualifier word =
      search
        (uses_rules, Uses-ether, Uses-length_condition, Uses-named, Uses-directed, Uses-unqualified)
        depth 8

  Uses-qualified : (first word : Text) → Uses 0 (qualified first word)
  unfolding qualified
  Uses-qualified first word = search (uses_rules, Uses-condition) depth 8

  Uses-primitive : Uses 1 primitive
  unfolding primitive
  Uses-primitive = search (uses_rules, Uses-qualified) depth 8

Uses-close : Uses 0 close
unfolding close
Uses-close = search uses_rules

-- A part that uses a token, and then a rest that holds for fewer tokens.
Consumes-after :
    {A B : Type 0} (j k n : ℕ) (r : Result FilterError (A × List Text)) (f : A → Parser B)
    → Consumes 1 j r
    → j ≤ k
    → ((a : A) (rest : List Text) → length rest < j → Consumes 0 (length rest) (f a rest))
    → Consumes 0 k (elim r [ ok (a, rest) ↦ f a rest | err e ↦ err e ])
Consumes-after j k n (err e) f h le u = h
Consumes-after {B} j k n (ok (a, rest)) f h le u = step (f a rest) (u a rest (omega arith))
  where
    step : (r : Result FilterError (B × List Text)) → Consumes 0 (length rest) r → Consumes 0 k r
    step (ok (b, rest')) h' = omega arith
    step (err e) h' = h'

-- The loop of `or_expr` and `and_expr` has rounds enough, if each part uses a token.
Uses-more_parts :
    (n : ℕ) (words : List Text) (item : Parser Predicate) (parts : List Predicate) (ts : List Text)
    → Uses 1 item
    → length ts < n
    → Consumes 0 (length ts) (more_parts n words item parts ts)
unfolding more_parts if_next next_in pure ◌>>=◌ take_token
Uses-more_parts zero words item parts ts u h = absurd (omega arith)
Uses-more_parts (suc n) words item parts [] u h = omega arith
Uses-more_parts (suc n) words item parts (t ∷ ts) u h =
    elim (next_in words (t ∷ ts))
      as (λ b. Consumes 0 (suc (length ts)) (
        if b
        then (do take_token; f ← item; more_parts n words item (parts ++ f ∷ [])) (t ∷ ts)
        else ok (parts, t ∷ ts))) [
          | true ↦
              Consumes-after (length ts) (suc (length ts)) n (item ts)
                (λ f. more_parts n words item (parts ++ f ∷ [])) (u.at ts) (omega arith)
                (λ f rest less. Uses-more_parts n words item (parts ++ f ∷ []) rest u (omega arith))
          | false ↦ omega arith
        ]

module _ (words : List Text) (item : Parser Predicate) (u : Uses 1 item) where
  Uses-rounds : (f : Predicate) → Uses 0 (with_rounds (λ n. more_parts n words item (f ∷ [])))
  unfolding with_rounds
  Uses-rounds f = record {
    at = λ ts. Uses-more_parts (suc (length ts)) words item (f ∷ []) ts u (omega arith);
  }

  Uses-parts_of : Uses 1 (parts_of words item)
  unfolding parts_of
  Uses-parts_of = Uses-bind 1 _ _ u Uses-rounds

module _ (item : Parser Predicate) (u : Uses 1 item) where
  Uses-and_expr : Uses 1 (and_expr item)
  unfolding and_expr
  Uses-and_expr = Uses-bind 1 _ _ (Uses-parts_of and_words item u) (λ fs. Uses-pure _)

  pub Uses-or_expr : Uses 1 (or_expr item)
  unfolding or_expr
  Uses-or_expr =
      Uses-bind 1 _ _ (Uses-parts_of or_words (and_expr item) Uses-and_expr) (λ fs. Uses-pure _)

module _ (m : Parser Predicate) (u : Uses 1 m) where
  Uses-negation : Uses {A = Predicate} 1 (do take_token; inner ← m; pure (λ p. not (inner p)))
  Uses-negation = search uses_rules

  Uses-group : Uses {A = Predicate} 1 (do take_token; inner ← m; close; pure inner)
  Uses-group = search (uses_rules, Uses-close) depth 8

bind_ne :
    {A B : Type 0} (r : Result FilterError A) (f : A → Result FilterError B)
    → r ≢ err out_of_fuel
    → ((a : A) → f a ≢ err out_of_fuel)
    → Result.◌>>=◌ r f ≢ err out_of_fuel
bind_ne (ok a) f h k = k a
bind_ne (err e) f h k = λ p. h (ground arith)

module _ ⦃lib : IpLibrary⦄ where
  pub Uses-unary : (left : ℕ) → Uses 1 (unary left)
  unfolding unary
  Uses-unary zero = Uses-raise 1 _ tt
  Uses-unary (suc left) =
      Uses-if_next 1 not_words _ _ (Uses-negation (unary left) (Uses-unary left))
        (Uses-if_next 1 _ _ _ (Uses-group _ (Uses-or_expr _ (Uses-unary left))) Uses-primitive)

  finish-IsRaised :
      (r : Result FilterError (Predicate × List Text)) (n : ℕ)
      → Consumes 1 n r
      → finish r ≢ err out_of_fuel
  unfolding finish
  finish-IsRaised (ok (f, [])) n h = ground arith
  finish-IsRaised (ok (f, t ∷ ts)) n h = ground arith
  finish-IsRaised (err out_of_fuel) n h = absurd h
  finish-IsRaised (err e) n h = ground arith

  parse-ne-out_of_fuel : (ts : List Text) → parse ts ≢ err out_of_fuel
  unfolding parse
  parse-ne-out_of_fuel [] = ground arith
  parse-ne-out_of_fuel (t ∷ ts) =
      finish-IsRaised (or_expr (unary (max_depth + 1)) (t ∷ ts)) _
        ((Uses-or_expr _ (Uses-unary (max_depth + 1))).at (t ∷ ts))

  -- Compiling ends for every text: the scanner and the two loops of the grammar always have fuel
  -- enough, so the result is a predicate or an error that the source raises.
  pub compile_filter-ne-out_of_fuel : (source : Text) → compile_filter source ≢ err out_of_fuel
  unfolding compile_filter
  compile_filter-ne-out_of_fuel source =
      elim (Bool-cases (ltb max_length (length (strip source)))) [
        | inl long ↦ rw long (ground arith)
        | inr fits ↦ rw fits (
            bind_ne (tokens (strip source)) parse (tokens-ne-out_of_fuel (strip source))
              parse-ne-out_of_fuel)
      ]
