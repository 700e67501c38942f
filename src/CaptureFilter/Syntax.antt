-- ===== src/CaptureFilter/Syntax.antt =====
-- The language of capture_filter.py as its doc comment gives it: conditions joined by `not`, `and`,
-- `or` and parentheses, where `and` binds tighter than `or`; how such an expression is written, and
-- what it means. A specification for `_Parser`, independent of how it works.
use Prim.Native.Nat.{max}
use homelab_agent.Prelude.{ℕ, suc, ◌≡◌, false, not, ◌&&◌, ◌||◌, List, [], ◌∷◌, ◌++◌}
use homelab_agent.Prelude.Text.{Text, text}
use homelab_agent.Prelude.Result.{ok}
use homelab_agent.CaptureFilter.Packet.{IpLibrary, Predicate}
use homelab_agent.CaptureFilter.Parser.{next_in}
use homelab_agent.CaptureFilter.Primitive.{primitive, selectors}
use homelab_agent.CaptureFilter.Grammar.{not_words}

mutual
  -- one condition with its tokens and its meaning, or a compound one
  pub data Unary : Type 0 where
    atom : List Text → Predicate → Unary
    negated : Unary → Unary
    grouped : Ors → Unary

  -- `u and … and u`
  pub data Ands : Type 0 where
    single : Unary → Ands
    also : Unary → Ands → Ands

  -- `a or … or a`
  pub data Ors : Type 0 where
    only : Ands → Ors
    either : Ands → Ors → Ors

-- The tokens of an expression, in front of others.
unfoldable mutual
  pub write_unary : Unary → List Text → List Text
  write_unary (atom ts f) rest = ts ++ rest
  write_unary (negated u) rest = text "not" ∷ write_unary u rest
  write_unary (grouped o) rest = text "(" ∷ write_ors o (text ")" ∷ rest)

  pub write_ands : Ands → List Text → List Text
  write_ands (single u) rest = write_unary u rest
  write_ands (also u a) rest = write_unary u (text "and" ∷ write_ands a rest)

  pub write_ors : Ors → List Text → List Text
  write_ors (only a) rest = write_ands a rest
  write_ors (either a o) rest = write_ands a (text "or" ∷ write_ors o rest)

unfoldable mutual
  pub unary_holds : Unary → Predicate
  unary_holds (atom ts f) p = f p
  unary_holds (negated u) p = not (unary_holds u p)
  unary_holds (grouped o) p = ors_hold o p

  pub ands_hold : Ands → Predicate
  ands_hold (single u) p = unary_holds u p
  ands_hold (also u a) p = unary_holds u p && ands_hold a p

  pub ors_hold : Ors → Predicate
  ors_hold (only a) p = ands_hold a p
  ors_hold (either a o) p = ands_hold a p || ors_hold o p

-- How deep negations and parentheses are nested.
unfoldable mutual
  pub unary_nesting : Unary → ℕ
  unary_nesting (atom ts f) = 0
  unary_nesting (negated u) = suc (unary_nesting u)
  unary_nesting (grouped o) = suc (ors_nesting o)

  pub ands_nesting : Ands → ℕ
  ands_nesting (single u) = unary_nesting u
  ands_nesting (also u a) = max (unary_nesting u) (ands_nesting a)

  pub ors_nesting : Ors → ℕ
  ors_nesting (only a) = ands_nesting a
  ors_nesting (either a o) = max (ands_nesting a) (ors_nesting o)

module _ ⦃lib : IpLibrary⦄ where
  -- The tokens `ts` are one condition that means `f`, whatever follows that does not select more.
  pub record IsCondition (ts : List Text) (f : Predicate) : Type 0 where
    pub read_back :
        (rest : List Text) → next_in selectors rest ≡ false → primitive (ts ++ rest) ≡ ok (f, rest)
    pub no_operator :
        (rest : List Text)
        → (next_in not_words (ts ++ rest) ≡ false) × (next_in (text "(" ∷ []) (ts ++ rest) ≡ false)

  abbrev mutual
    pub UnaryConditions : Unary → Type 0
    UnaryConditions (atom ts f) = IsCondition ts f
    UnaryConditions (negated u) = UnaryConditions u
    UnaryConditions (grouped o) = OrsConditions o

    pub AndsConditions : Ands → Type 0
    AndsConditions (single u) = UnaryConditions u
    AndsConditions (also u a) = UnaryConditions u × AndsConditions a

    pub OrsConditions : Ors → Type 0
    OrsConditions (only a) = AndsConditions a
    OrsConditions (either a o) = AndsConditions a × OrsConditions o
