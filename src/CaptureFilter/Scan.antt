-- ===== src/CaptureFilter/Scan.antt =====
-- capture_filter.py: `_tokens` ends, and reads back what its tokens spell.
use mathlib.Core.List.{reverse, reverse-append, reverse-reverse}
use homelab_agent.Prelude.{
  ℕ, zero, suc, ◌≤◌, ◌<◌, ◌≡◌, ◌≢◌, refl, true, false, some, List, [], ◌∷◌, ◌++◌, arith, append-nil,
  append_assoc, ap, sym, ◌∙◌, All, length, length-append, all, Option-cases, inl, inr,
}
use homelab_agent.Prelude.Text.{Text, strip, strip_left, is_space}
use homelab_agent.Prelude.Result.{ok, err}
use homelab_agent.CaptureFilter.Tokens.{
  out_of_fuel, word_run, is_word_char, is_pair, is_single, next_token, scan, tokens,
}

-- `strip_left` never makes a text longer.
length-strip_left-le : (s : Text) → length (strip_left s) ≤ length s
unfolding strip_left
length-strip_left-le [] = omega arith
length-strip_left-le (c ∷ s) = ground (arith, length-strip_left-le s)

length-word_run-le : (s : Text) → length (word_run s).1 ≤ length s
unfolding word_run
length-word_run-le [] = omega arith
length-word_run-le (c ∷ s) = ground (arith, length-word_run-le s)

-- A token is not empty: what follows it is shorter.
next_token-shorter :
    (c : ℕ) (s : Text) (token rest : Text)
    → next_token (c ∷ s) ≡ some (token, rest)
    → length rest ≤ length s
unfolding next_token
next_token-shorter c [] token rest h = ground arith
next_token-shorter c (d ∷ s) token rest h = ground (arith, length-word_run-le (d ∷ s))

scan-ne-out_of_fuel :
    (n : ℕ) (out : List Text) (s : Text) → length s < n → scan n out s ≢ err out_of_fuel
unfolding scan
scan-ne-out_of_fuel zero out s h = absurd (omega arith)
scan-ne-out_of_fuel (suc n) out [] h = ground arith
scan-ne-out_of_fuel (suc n) out (c ∷ s) h = elim (Option-cases (next_token (c ∷ s))) [
  | inl missing ↦ rw (missing, scan) (ground arith)
  | inr ((token, rest), found) ↦
      rw (found, scan)
        (scan-ne-out_of_fuel n (out ++ token ∷ []) (strip_left rest)
          (omega (arith, length-strip_left-le rest, next_token-shorter c s token rest found)))
]

pub tokens-ne-out_of_fuel : (s : Text) → tokens s ≢ err out_of_fuel
unfolding tokens
tokens-ne-out_of_fuel s = scan-ne-out_of_fuel (suc (length (strip s))) [] (strip s) (omega arith)

-- What `_TOKEN` matches.
pub data IsToken : Text → Type 0 where
  word : (c : ℕ) (s : Text) → all is_word_char (c ∷ s) ≡ true → IsToken (c ∷ s)
  pair : (c d : ℕ) → is_pair c d ≡ true → IsToken (c ∷ d ∷ [])
  one : (c : ℕ) → is_single c ≡ true → IsToken (c ∷ [])

-- The tokens with a space between them.
unfoldable pub spell : List Text → Text
spell [] = []
spell (t ∷ []) = t
spell (t ∷ u ∷ ts) = t ++ 32 ∷ spell (u ∷ ts)

-- The end of the text or a space.
abbrev Separated : Text → Type 0
Separated [] = Unit
Separated (c ∷ s) = is_space c ≡ true

space-not-word : (c : ℕ) → is_space c ≡ true → is_word_char c ≡ false
unfolding is_word_char is_space
space-not-word c h = ground arith

word_run-append :
    (s rest : Text) → all is_word_char s ≡ true → Separated rest → word_run (s ++ rest) ≡ (s, rest)
unfolding word_run all
word_run-append [] [] h k = refl
word_run-append [] (c ∷ rest) h k = rw (space-not-word c k)
word_run-append (c ∷ s) rest h k = ground (arith, word_run-append s rest)

-- A word character starts no operator; a space ends every token.
word_starts : (c d : ℕ) → is_word_char c ≡ true → (is_pair c d ≡ false) × (is_single c ≡ false)
unfolding is_word_char is_pair is_single is_space
word_starts c d h = ground arith

single-pair-space : (c d : ℕ) → is_space d ≡ true → is_pair c d ≡ false
unfolding is_pair is_space
single-pair-space c d h = ground arith

next_token-append :
    (t rest : Text) → IsToken t → Separated rest → next_token (t ++ rest) ≡ some (t, rest)
unfolding next_token all
next_token-append _ [] (word c [] h) k = ground arith
next_token-append _ (d ∷ rest) (word c [] h) k =
    ground (arith, word_starts c d, word_run-append (c ∷ []) (d ∷ rest) h k)
next_token-append _ rest (word c (d ∷ s) h) k =
    ground (arith, word_starts c d, word_run-append (c ∷ d ∷ s) rest h k)
next_token-append _ rest (pair c d h) k = rw h
next_token-append _ [] (one c h) k = rw h
next_token-append _ (d ∷ rest) (one c h) k = rw (single-pair-space c d k) (rw h refl)

-- A token begins and ends with a character that is no space.
token_char :
    (c d : ℕ)
    → (is_word_char c ≡ true → is_space c ≡ false)
      × (is_pair c d ≡ true → (is_space c ≡ false) × (is_space d ≡ false))
      × (is_single c ≡ true → is_space c ≡ false)
unfolding is_word_char is_pair is_single is_space
token_char c d = ground arith

strip_left-token : (t rest : Text) → IsToken t → strip_left (t ++ rest) ≡ t ++ rest
unfolding strip_left all
strip_left-token _ rest (word c s h) = ground (arith, (token_char c c).0)
strip_left-token _ rest (pair c d h) = ground (arith, (token_char c d).1)
strip_left-token _ rest (one c h) = ground (arith, (token_char c c).2)

scan-step :
    (n : ℕ) (out : List Text) (t rest : Text)
    → IsToken t
    → Separated rest
    → scan (suc n) out (t ++ rest) ≡ scan n (out ++ t ∷ []) (strip_left rest)
unfolding scan
scan-step n out _ rest (word c s h) k = rw (next_token-append _ rest (word c s h) k, scan)
scan-step n out _ rest (pair c d h) k = rw (next_token-append _ rest (pair c d h) k, scan)
scan-step n out _ rest (one c h) k = rw (next_token-append _ rest (one c h) k, scan)

strip_left-spell : (ts : List Text) → All IsToken ts → strip_left (spell ts) ≡ spell ts
unfolding spell strip_left
strip_left-spell [] h = refl
strip_left-spell (t ∷ []) (h, _) = rw (← append-nil t) (strip_left-token t [] h)
strip_left-spell (t ∷ u ∷ ts) (h, _) = strip_left-token t (32 ∷ spell (u ∷ ts)) h

strip_left-space : (s : Text) → strip_left (32 ∷ s) ≡ strip_left s
unfolding strip_left is_space
strip_left-space s = refl

scan-nil : (n : ℕ) (out : List Text) → 0 < n → scan n out [] ≡ ok out
unfolding scan
scan-nil zero out h = absurd (omega arith)
scan-nil (suc n) out h = refl

scan-spell :
    (n : ℕ) (out ts : List Text)
    → All IsToken ts
    → length ts < n
    → scan n out (spell ts) ≡ ok (out ++ ts)
unfolding spell strip_left
scan-spell zero out ts h k = absurd (omega arith)
scan-spell (suc n) out [] h k = scan-nil (suc n) out (omega arith) ∙ ap ok (sym (append-nil out))
scan-spell (suc n) out (t ∷ []) (h, _) k =
    ap (scan (suc n) out) (sym (append-nil t))
    ∙ scan-step n out t [] h tt
    ∙ scan-nil n (out ++ t ∷ []) (omega arith)
scan-spell (suc n) out (t ∷ u ∷ ts) (h, hs) k =
    scan-step n out t (32 ∷ spell (u ∷ ts)) h (unfold is_space in refl)
    ∙ ap (scan n (out ++ t ∷ [])) (strip_left-space (spell (u ∷ ts)) ∙ strip_left-spell (u ∷ ts) hs)
    ∙ scan-spell n (out ++ t ∷ []) (u ∷ ts) hs (omega arith)
    ∙ ap ok (append_assoc out (t ∷ []) (u ∷ ts))

-- The last character, which is no space.
record EndsSolid (s : Text) : Type 0 where
  start : Text
  last : ℕ
  splits : s ≡ start ++ last ∷ []
  solid : is_space last ≡ false

word-EndsSolid : (c : ℕ) (s : Text) → all is_word_char (c ∷ s) ≡ true → EndsSolid (c ∷ s)
unfolding all
word-EndsSolid c [] h = record {
  start = [];
  last = c;
  splits = refl;
  solid = ground (arith, (token_char c c).0);
}
word-EndsSolid c (d ∷ s) h =
    let r = word-EndsSolid d s (ground arith) in
    record {
      start = c ∷ r.start;
      last = r.last;
      splits = ap (λ x. c ∷ x) r.splits;
      solid = r.solid;
    }

token-EndsSolid : (t : Text) → IsToken t → EndsSolid t
token-EndsSolid _ (word c s h) = word-EndsSolid c s h
token-EndsSolid _ (pair c d h) = record {
  start = c ∷ [];
  last = d;
  splits = refl;
  solid = ground (arith, (token_char c d).1);
}
token-EndsSolid _ (one c h) = record {
  start = [];
  last = c;
  splits = refl;
  solid = ground (arith, (token_char c c).2);
}

spell-EndsSolid : (t : Text) (ts : List Text) → All IsToken (t ∷ ts) → EndsSolid (spell (t ∷ ts))
unfolding spell
spell-EndsSolid t [] (h, _) = token-EndsSolid t h
spell-EndsSolid t (u ∷ ts) (_, hs) =
    let r = spell-EndsSolid u ts hs in
    record {
      start = t ++ 32 ∷ r.start;
      last = r.last;
      splits = ap (λ x. t ++ 32 ∷ x) r.splits ∙ sym (append_assoc t (32 ∷ r.start) (r.last ∷ []));
      solid = r.solid;
    }

strip_left-reverse : (s : Text) → EndsSolid s → strip_left (reverse s) ≡ reverse s
unfolding strip_left
strip_left-reverse s e =
    let same : reverse s ≡ e.last ∷ reverse e.start =
      ap reverse e.splits ∙ reverse-append e.start (e.last ∷ []) in
    rw same (rw (e.solid, strip_left) refl)

pub strip-spell : (ts : List Text) → All IsToken ts → strip (spell ts) ≡ spell ts
unfolding strip spell
strip-spell [] h = refl
strip-spell (t ∷ ts) h =
    ap (λ x. reverse (strip_left (reverse x))) (strip_left-spell (t ∷ ts) h)
    ∙ ap reverse (strip_left-reverse _ (spell-EndsSolid t ts h))
    ∙ reverse-reverse (spell (t ∷ ts))

token-length : (t : Text) → IsToken t → 0 < length t
token-length _ (word c s h) = omega arith
token-length _ (pair c d h) = omega arith
token-length _ (one c h) = omega arith

length-le-spell : (ts : List Text) → All IsToken ts → length ts ≤ length (spell ts)
unfolding spell
length-le-spell [] h = omega arith
length-le-spell (t ∷ []) (h, _) = omega (arith, token-length t h)
length-le-spell (t ∷ u ∷ ts) (h, hs) =
    omega (arith, length-append t (32 ∷ spell (u ∷ ts)), length-le-spell (u ∷ ts) hs)

-- The scanner reads back any list of tokens that is written out with spaces between them.
pub tokens-spell : (ts : List Text) → All IsToken ts → tokens (spell ts) ≡ ok ts
unfolding tokens
tokens-spell ts h =
    rw (strip-spell ts h)
      (scan-spell (suc (length (spell ts))) [] ts h (omega (arith, length-le-spell ts h)))
