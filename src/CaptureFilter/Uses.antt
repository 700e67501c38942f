-- ===== src/CaptureFilter/Uses.antt =====
-- capture_filter.py: parsers that take tokens and never put one back, and do not run out of fuel.
use homelab_agent.Prelude.{
  ℕ, ◌+◌, ◌≤◌, Bool, true, false, Option, none, some, List, [], ◌∷◌, arith, length, if◌then◌else◌,
}
use homelab_agent.Prelude.Text.{Text}
use homelab_agent.Prelude.Result.{Result, ok, err}
use homelab_agent.CaptureFilter.Tokens.{FilterError, out_of_fuel}
use homelab_agent.CaptureFilter.Packet.{Predicate}
use homelab_agent.CaptureFilter.Parser.{
  Parser, ◌>>=◌, pure, raise, or_raise, if_next, choose, take_token, expect, next_in,
}
use homelab_agent.CaptureFilter.Primitive.{
  port, optional_direction, comparison_after, unqualified, range_of, ether, length_condition, named,
  port_range,
}

-- An error that the source raises.
abbrev pub IsRaised : FilterError → Type 0
IsRaised out_of_fuel = ⊥
IsRaised _ = Unit

-- Of `n` tokens at least `k` are used, or the source raises.
abbrev pub Consumes {ℓ} : {A : Type ℓ} → ℕ → ℕ → Result FilterError (A × List Text) → Type 0
Consumes k n (ok (a, rest)) = length rest + k ≤ n
Consumes k n (err e) = IsRaised e

pub record Uses {ℓ} {A : Type ℓ} (k : ℕ) (m : Parser A) : Type 0 where
  pub at : (ts : List Text) → Consumes k (length ts) (m ts)

module _ {ℓ} {A : Type ℓ} where
  pub Uses-pure : (a : A) → Uses 0 (pure a)
  unfolding pure
  Uses-pure a = record { at = λ ts. omega arith }

  pub Uses-raise : (k : ℕ) (e : FilterError) → IsRaised e → Uses {A = A} k (raise e)
  unfolding raise
  Uses-raise k e h = record { at = λ ts. h }

  pub Uses-or_raise : (o : Option A) (e : FilterError) → IsRaised e → Uses 0 (or_raise o e)
  unfolding or_raise
  Uses-or_raise none e h = record { at = λ ts. h }
  Uses-or_raise (some a) e h = record { at = λ ts. omega arith }

  pub Uses-if :
      (k : ℕ) (b : Bool) (m n : Parser A) → Uses k m → Uses k n → Uses k (if b then m else n)
  Uses-if k true m n um un = um
  Uses-if k false m n um un = un

  pub Uses-if_next :
      (k : ℕ) (words : List Text) (m n : Parser A)
      → Uses k m
      → Uses k n
      → Uses k (if_next words m n)
  unfolding if_next
  Uses-if_next k words m n um un = record {
    at = λ ts. elim (next_in words ts) as (λ b. Consumes k (length ts) (if b then m ts else n ts)) [
      | true ↦ um.at ts
      | false ↦ un.at ts
    ];
  }

  pub weaken : (m : Parser A) → Uses 1 m → Uses 0 m
  weaken m u = record { at = λ ts. step (length ts) (m ts) (u.at ts) }
    where
      step : (n : ℕ) (r : Result FilterError (A × List Text)) → Consumes 1 n r → Consumes 0 n r
      step n (ok (a, rest)) h = omega arith
      step n (err e) h = h

pub Uses-take_token : Uses 1 take_token
unfolding take_token
Uses-take_token = record { at = elim [ [] ↦ tt | t ∷ ts ↦ omega arith ] }

module _ {ℓ κ} {A : Type ℓ} {B : Type κ} where
  pub Uses-choose :
      (k : ℕ) (o : Option A) (m : Parser B) (f : A → Parser B)
      → Uses k m
      → ((a : A) → Uses k (f a))
      → Uses k (choose o m f)
  unfolding choose
  Uses-choose k none m f um uf = um
  Uses-choose k (some a) m f um uf = uf a

  Consumes-bind :
      (k n : ℕ) (r : Result FilterError (A × List Text)) (f : A → Parser B)
      → Consumes k n r
      → ((a : A) → Uses 0 (f a))
      → Consumes k n (elim r [ ok (a, rest) ↦ f a rest | err e ↦ err e ])
  Consumes-bind k n (err e) f h u = h
  Consumes-bind k n (ok (a, rest)) f h u = step (f a rest) ((u a).at rest)
    where
      step : (r : Result FilterError (B × List Text)) → Consumes 0 (length rest) r → Consumes k n r
      step (ok (b, rest')) h' = omega arith
      step (err e) h' = h'

  pub Uses-bind :
      (k : ℕ) (m : Parser A) (f : A → Parser B)
      → Uses k m
      → ((a : A) → Uses 0 (f a))
      → Uses k (m >>= f)
  unfolding ◌>>=◌
  Uses-bind k m f um uf = record { at = λ ts. Consumes-bind k (length ts) (m ts) f (um.at ts) uf }

pub ruleset uses_rules = (
  Uses-pure, Uses-raise, Uses-or_raise, Uses-if, Uses-if_next, Uses-choose, Uses-bind, weaken,
  Uses-take_token, tt,
)

Uses-expect : (word : Text) → Uses 1 (expect word)
unfolding expect
Uses-expect word = search uses_rules

Uses-port : (value : Text) → Uses 0 (port value)
unfolding port
Uses-port value = search uses_rules

Uses-optional_direction : Uses 0 optional_direction
unfolding optional_direction
Uses-optional_direction = search uses_rules

pub Uses-ether : Uses 0 ether
unfolding ether
Uses-ether = search (uses_rules, Uses-optional_direction, Uses-expect) depth 8

Uses-comparison_after : (word : Text) → Uses 0 (comparison_after word)
unfolding comparison_after
Uses-comparison_after word = search uses_rules

pub Uses-length_condition : (word : Text) → Uses 0 (length_condition word)
unfolding length_condition
Uses-length_condition word = search (uses_rules, Uses-comparison_after) depth 8

pub Uses-named : (word : Text) → Uses 0 (named word)
unfolding named
Uses-named word = search uses_rules

Uses-port_range : (spec : Text) → Uses 0 (port_range spec)
unfolding port_range
Uses-port_range spec = search (uses_rules, Uses-port) depth 8

pub Uses-unqualified :
    (qualifier : Option Text) (word : Text) (m : Parser Predicate)
    → Uses 0 m
    → Uses 0 (unqualified qualifier word m)
unfolding unqualified
Uses-unqualified qualifier word m h = search uses_rules

pub Uses-range_of : (word spec : Text) → Uses 0 (range_of word spec)
unfolding range_of
Uses-range_of word spec = search (uses_rules, Uses-port, Uses-port_range) depth 8
