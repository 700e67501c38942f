-- ===== src/CaptureFilter/Parser.antt =====
-- capture_filter.py: the token helpers of `_Parser`. The state is the tokens from `pos` on.
use homelab_agent.Prelude.{
  ℕ, suc, Bool, false, Option, none, some, List, [], ◌∷◌, contains, length, ◌==◌, ◌≡◌, refl, nat_eq,
  list_eq, if◌then◌else◌,
}
use homelab_agent.Prelude.Text.{Text, lower}
use homelab_agent.Prelude.Result.{Result, ok, err}
use homelab_agent.CaptureFilter.Tokens.{FilterError, ends_too_soon, expected}

abbrev pub Parser {ℓ} : Type ℓ → Type ℓ
Parser A = List Text → Result FilterError (A × List Text)

unfoldable pub peek : List Text → Option Text
peek [] = none
peek (t ∷ ts) = some (lower t)

-- `self.peek() in words`
unfoldable pub next_in : List Text → List Text → Bool
unfolding peek
next_in words ts = elim (peek ts) [ none ↦ false | some t ↦ contains words t ]

-- `take`
unfoldable pub take_token : Parser Text
take_token [] = err ends_too_soon
take_token (t ∷ ts) = ok (t, ts)

module _ {ℓ} {A : Type ℓ} where
  unfoldable pub pure : A → Parser A
  pure a ts = ok (a, ts)

  unfoldable pub raise : FilterError → Parser A
  raise e ts = err e

  -- a value that the library finds or not
  unfoldable pub or_raise : Option A → FilterError → Parser A
  or_raise none e ts = err e
  or_raise (some a) e ts = ok (a, ts)

  -- `if self.peek() in words: … else: …`
  unfoldable pub if_next : List Text → Parser A → Parser A → Parser A
  if_next words m k ts = if next_in words ts then m ts else k ts

  -- a loop, with as many rounds as tokens are left and one more for the test that ends it
  unfoldable pub with_rounds : (ℕ → Parser A) → Parser A
  with_rounds m ts = m (suc (length ts)) ts

module _ {ℓ κ} {A : Type ℓ} {B : Type κ} where
  -- `if x is None: … else: …`
  unfoldable pub choose : Option A → Parser B → (A → Parser B) → Parser B
  choose none m f = m
  choose (some a) m f = f a

  infixl 5 ◌>>=◌ ◌>>◌
  unfoldable pub ◌>>=◌ : Parser A → (A → Parser B) → Parser B
  ◌>>=◌ m f ts = elim (m ts) [ ok (a, rest) ↦ f a rest | err e ↦ err e ]

  abbrev pub ◌>>◌ : Parser A → Parser B → Parser B
  m >> k = m >>= λ _. k

unfoldable pub expect : Text → Parser (Unit {0})
expect word = do got ← take_token; if lower got == word then pure tt else raise (expected word got)

-- A step that returned, and the rest of the block.
pub bind-ok :
    {A B : Type 0} (m : Parser A) (f : A → Parser B) (ts rest : List Text) (a : A)
    → m ts ≡ ok (a, rest)
    → (m >>= f) ts ≡ f a rest
unfolding ◌>>=◌
bind-ok m f ts rest a k = rw (k, ◌>>=◌) refl

-- A step that raised ends the block.
pub bind-err :
    {A B : Type 0} (m : Parser A) (f : A → Parser B) (ts : List Text) (e : FilterError)
    → m ts ≡ err e
    → (m >>= f) ts ≡ err e
unfolding ◌>>=◌
bind-err m f ts e k = rw (k, ◌>>=◌) refl
