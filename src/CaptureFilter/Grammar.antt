-- ===== src/CaptureFilter/Grammar.antt =====
-- capture_filter.py: `or_expr`, `and_expr`, `unary`, `parse` and `compile_filter`.
-- The source counts the depth up to MAX_DEPTH and refuses one more; here `left` counts the levels
-- that are left, `max_depth + 1 - depth`. The two `while` loops run on fuel, the number of tokens.
use homelab_agent.Prelude.{
  ℕ, zero, suc, ◌+◌, not, List, [], ◌∷◌, ◌++◌, all, any, length, ltb, if◌then◌else◌,
}
use homelab_agent.Prelude.Text.{Text, text, strip}
use homelab_agent.Prelude.Result
use homelab_agent.Prelude.Result.{Result, ok, err}
use homelab_agent.CaptureFilter.Tokens.{
  FilterError, empty, too_nested, never_closed, too_long, trailing, out_of_fuel, tokens,
}
use homelab_agent.CaptureFilter.Packet.{IpLibrary, Predicate}
use homelab_agent.CaptureFilter.Parser.{
  Parser, ◌>>=◌, ◌>>◌, pure, raise, if_next, with_rounds, take_token,
}
use homelab_agent.CaptureFilter.Primitive.{primitive}

abbrev pub max_length : ℕ
max_length = 300

abbrev pub max_depth : ℕ
max_depth = 16

abbrev pub or_words : List Text
or_words = text "or" ∷ text "||" ∷ []

abbrev pub and_words : List Text
and_words = text "and" ∷ text "&&" ∷ []

abbrev pub not_words : List Text
not_words = text "not" ∷ text "!" ∷ []

-- `while self.peek() in words: self.take(); parts.append(item)`
unfoldable pub more_parts :
    ℕ → List Text → Parser Predicate → List Predicate → Parser (List Predicate)
more_parts zero words item parts = raise out_of_fuel
more_parts (suc n) words item parts =
    if_next words (do take_token; f ← item; more_parts n words item (parts ++ f ∷ [])) (pure parts)

-- the first part, and the loop
unfoldable pub parts_of : List Text → Parser Predicate → Parser (List Predicate)
parts_of words item = do f ← item; with_rounds (λ n. more_parts n words item (f ∷ []))

unfoldable pub any_of : List Predicate → Predicate
any_of (f ∷ []) p = f p
any_of fs p = any (λ f. f p) fs

unfoldable pub all_of : List Predicate → Predicate
all_of (f ∷ []) p = f p
all_of fs p = all (λ f. f p) fs

unfoldable pub and_expr : Parser Predicate → Parser Predicate
and_expr unary = do fs ← parts_of and_words unary; pure (all_of fs)

unfoldable pub or_expr : Parser Predicate → Parser Predicate
or_expr unary = do fs ← parts_of or_words (and_expr unary); pure (any_of fs)

-- `if self.peek() != ")": raise …`, then `take`
unfoldable pub close : Parser (Unit {0})
close = if_next (text ")" ∷ []) (do take_token; pure tt) (raise never_closed)

-- `if self.pos < len(self.tokens): raise …`
unfoldable pub finish : Result FilterError (Predicate × List Text) → Result FilterError Predicate
finish (err e) = err e
finish (ok (node, [])) = ok node
finish (ok (node, t ∷ ts)) = err (trailing t)

module _ ⦃lib : IpLibrary⦄ where
  unfoldable pub unary : ℕ → Parser Predicate
  unary zero = raise too_nested
  unary (suc left) =
      if_next not_words (do take_token; inner ← unary left; pure (λ p. not (inner p)))
        (if_next (text "(" ∷ []) (do take_token; inner ← or_expr (unary left); close; pure inner)
          primitive)

  -- `parse`, on all the tokens
  unfoldable pub parse : List Text → Result FilterError Predicate
  parse [] = err empty
  parse (t ∷ ts) = finish (or_expr (unary (max_depth + 1)) (t ∷ ts))

  unfoldable pub compile_filter : Text → Result FilterError Predicate
  compile_filter source =
      let body = strip source in
      if ltb max_length (length body) then err too_long else Result.◌>>=◌ (tokens body) parse
