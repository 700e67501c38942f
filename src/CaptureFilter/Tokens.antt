-- ===== src/CaptureFilter/Tokens.antt =====
-- capture_filter.py: `_TOKEN` and `_tokens`, and the errors of the whole module.
use homelab_agent.Prelude.{
  ℕ, zero, suc, Bool, not, ◌&&◌, ◌||◌, Option, none, some, List, [], ◌∷◌, ◌++◌, nat_eq, eqb, length,
  take, if◌then◌else◌,
}
use homelab_agent.Prelude.Text.{Text, is_space, strip, strip_left}
use homelab_agent.Prelude.Result.{Result, ok, err}

-- One constructor for each message; `out_of_fuel` is the model's own.
pub data FilterError : Type 0 where
  unexpected : Text → FilterError
  not_an_address not_a_port not_a_network backwards not_a_mac : Text → FilterError
  bad_comparison not_a_number not_a_host_name : Text → FilterError
  ends_too_soon empty too_nested never_closed needs_range too_long : FilterError
  expected : (word got : Text) → FilterError
  trailing unsupported unknown : Text → FilterError
  cant_qualify : (qualifier word : Text) → FilterError
  no_ports : Text → FilterError
  out_of_fuel : FilterError

-- `[()!<>=]`
unfoldable pub is_single : ℕ → Bool
is_single c = eqb c 40 || eqb c 41 || eqb c 33 || eqb c 60 || eqb c 62 || eqb c 61

-- `[^\s()!<>=&|]`
unfoldable pub is_word_char : ℕ → Bool
unfolding is_space is_single
is_word_char c = not (is_space c || is_single c || eqb c 38 || eqb c 124)

-- `&&` `||` `<=` `>=` `==`
unfoldable pub is_pair : ℕ → ℕ → Bool
is_pair a b =
    eqb a 38 && eqb b 38 || eqb a 124 && eqb b 124 || (eqb a 60 || eqb a 62 || eqb a 61) && eqb b 61

-- the longest run of word characters, and what follows it
unfoldable pub word_run : Text → Text × Text
unfolding is_word_char
word_run [] = ([], [])
word_run (c ∷ s) =
    let rest = word_run s in if is_word_char c then (c ∷ rest.0, rest.1) else ([], c ∷ s)

-- the alternatives of `_TOKEN` in order, at a character that is no space
unfoldable pub next_token : Text → Option (Text × Text)
unfolding is_pair is_single word_run
next_token [] = none
next_token (c ∷ []) = if is_single c || is_word_char c then some (c ∷ [], []) else none
next_token (c ∷ d ∷ s) =
    if is_pair c d
    then some (c ∷ d ∷ [], s)
    else if is_single c
    then some (c ∷ [], d ∷ s)
    else if is_word_char c
    then some (word_run (c ∷ d ∷ s))
    else none

-- the loop of `_tokens`, over what is left of the text
unfoldable pub scan : ℕ → List Text → Text → Result FilterError (List Text)
scan zero out s = err out_of_fuel
scan (suc n) out [] = ok out
scan (suc n) out (c ∷ s) = elim (next_token (c ∷ s)) [
  | none ↦ err (unexpected (take 8 (c ∷ s)))
  | some (token, rest) ↦ scan n (out ++ token ∷ []) (strip_left rest)
]

unfoldable pub tokens : Text → Result FilterError (List Text)
unfolding strip
tokens s = let body = strip s in scan (suc (length body)) [] body
