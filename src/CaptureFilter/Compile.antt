-- ===== src/CaptureFilter/Compile.antt =====
-- capture_filter.py, `compile_filter`: from the text of a filter to its meaning, and the depth limit.
use homelab_agent.Prelude.{
  ℕ, zero, suc, ◌≤◌, ◌<◌, ◌+◌, ◌≡◌, refl, ◌∙◌, false, List, [], ◌∷◌, arith, All, length, ltb,
}
use homelab_agent.Prelude.Text.{Text, text, strip}
use homelab_agent.Prelude.Result.{ok, err}
use homelab_agent.CaptureFilter.Tokens.{FilterError, tokens, too_nested}
use homelab_agent.CaptureFilter.Packet.{IpLibrary, Predicate}
use homelab_agent.CaptureFilter.Parser.{Parser, bind-err, ◌>>=◌, take_token, if_next, raise}
use homelab_agent.CaptureFilter.Grammar.{
  unary, and_expr, or_expr, parts_of, parse, finish, compile_filter, max_length, max_depth,
}
use homelab_agent.CaptureFilter.Syntax.{Ors, OrsConditions, ors_hold, ors_nesting, write_ors}
use homelab_agent.CaptureFilter.Scan.{IsToken, spell, strip-spell, tokens-spell}
use homelab_agent.CaptureFilter.Loops.{next-not}
use homelab_agent.CaptureFilter.Meaning.{parse-write_ors}

module _ ⦃lib : IpLibrary⦄ where
  compile_filter_fits :
      (ts : List Text) (s : Text)
      → strip s ≡ s
      → tokens s ≡ ok ts
      → length s ≤ max_length
      → compile_filter s ≡ parse ts
  unfolding compile_filter
  compile_filter_fits ts s p q h =
      let fits : ltb max_length (length s) ≡ false = ground arith in rw p (rw fits (rw q refl))

  -- The text of an expression, its tokens with spaces between them, of at most 300 characters and
  -- with negations and parentheses nested at most 16 deep, compiles to the meaning of the expression.
  pub compile_filter-spell :
      (o : Ors)
      → OrsConditions o
      → ors_nesting o ≤ max_depth
      → All IsToken (write_ors o [])
      → length (spell (write_ors o [])) ≤ max_length
      → compile_filter (spell (write_ors o [])) ≡ ok (ors_hold o)
  compile_filter-spell o c n h l =
      compile_filter_fits (write_ors o []) (spell (write_ors o [])) (strip-spell _ h)
        (tokens-spell _ h) l
      ∙ parse-write_ors o c n

  -- `not not … ts`
  abbrev pub negations : ℕ → List Text → List Text
  negations zero ts = ts
  negations (suc k) ts = text "not" ∷ negations k ts

  unary-negations :
      (left k : ℕ) (ts : List Text) → left ≤ k → unary left (negations k ts) ≡ err too_nested
  unfolding unary raise if_next take_token ◌>>=◌
  unary-negations zero k ts h = refl
  unary-negations (suc left) zero ts h = absurd (omega arith)
  unary-negations (suc left) (suc k) ts h = rw next-not (
      bind-err (unary left) _ (negations k ts) too_nested (unary-negations left k ts (omega arith)))

  or_expr-err :
      (item : Parser Predicate) (ts : List Text) (e : FilterError)
      → item ts ≡ err e
      → or_expr item ts ≡ err e
  unfolding or_expr and_expr parts_of
  or_expr-err item ts e h =
      bind-err _ _ ts e (bind-err _ _ ts e (bind-err _ _ ts e (bind-err item _ ts e h)))

  -- More than 16 negations in a row are refused, whatever they negate.
  pub parse-negations :
      (k : ℕ) (ts : List Text) → max_depth < k → parse (negations k ts) ≡ err too_nested
  unfolding parse finish
  parse-negations zero ts h = absurd (omega arith)
  parse-negations (suc k) ts h =
      rw (or_expr-err _ _ too_nested (unary-negations (max_depth + 1) (suc k) ts (omega arith)))
