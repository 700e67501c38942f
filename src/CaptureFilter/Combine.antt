-- ===== src/CaptureFilter/Combine.antt =====
-- capture_filter.py: `combine`, and what becomes of a long expression that it wraps in parentheses.
use mathlib.Core.List.{reverse, reverse-cons, reverse-append, reverse-reverse}
use homelab_agent.Prelude.{
  ℕ, ◌+◌, ◌<◌, ◌≡◌, refl, sym, ap, ◌∙◌, true, Option, none, some, List, [], ◌∷◌, ◌++◌, arith,
  length, length-append, ltb, ◌==◌, nat_eq, list_eq, if◌then◌else◌,
}
use homelab_agent.Prelude.Text.{Text, text, strip, strip_left, is_space}
use homelab_agent.Prelude.Result.{err}
use homelab_agent.CaptureFilter.Tokens.{too_long}
use homelab_agent.CaptureFilter.Packet.{IpLibrary}
use homelab_agent.CaptureFilter.Grammar.{compile_filter, max_length}

-- a validated filter; an empty text stands for a field that is not there, and `port` for the digits
-- of the number
pub record Selected : Type 0 where
  pub host : Text
  pub port : Text
  pub proto : Text
  pub expr : Text

-- `if field: parts.append(…)`
abbrev part : Text → Text → List Text
part [] spelled = []
part (_ ∷ _) spelled = spelled ∷ []

abbrev wrap : Text → Text
wrap expr = text "(" ++ (expr ++ text ")")

unfoldable pub parts : Selected → List Text
parts selected =
    part selected.host (text "host " ++ selected.host)
    ++ (part selected.port (text "port " ++ selected.port)
        ++ (part selected.proto
              (if selected.proto == text "icmpv6" then text "icmp6" else selected.proto)
            ++ part selected.expr (wrap selected.expr)))

-- `" and ".join(…)`
unfoldable pub join_and : List Text → Text
join_and [] = []
join_and (p ∷ []) = p
join_and (p ∷ q ∷ ps) = p ++ (text " and " ++ join_and (q ∷ ps))

unfoldable pub combine : Selected → Option Text
unfolding parts join_and
combine selected = elim (join_and (parts selected)) [ [] ↦ none | c ∷ s ↦ some (c ∷ s) ]

abbrev pub just_expr : Text → Selected
just_expr expr = record { host = []; port = []; proto = []; expr = expr }

combine-just_expr : (c : ℕ) (s : Text) → combine (just_expr (c ∷ s)) ≡ some (wrap (c ∷ s))
unfolding combine
combine-just_expr c s = refl

reverse-wrap : (s : Text) → reverse (wrap s) ≡ text ")" ++ (reverse s ++ text "(")
reverse-wrap s =
    reverse-cons 40 (s ++ text ")") ∙ ap (λ r. r ++ text "(") (reverse-append s (text ")"))

-- Parentheses keep a text from being stripped.
strip-wrap : (s : Text) → strip (wrap s) ≡ wrap s
unfolding strip strip_left is_space
strip-wrap s =
    ap (λ r. reverse (strip_left r)) (reverse-wrap s)
    ∙ ap reverse (sym (reverse-wrap s))
    ∙ reverse-reverse (wrap s)

-- Whatever it says, a filter that is only an expression of more than 298 characters is refused in the
-- form that `combine` gives it, though `compile_filter` takes expressions of up to 300.
pub compile_filter-combine :
    ⦃lib : IpLibrary⦄ (c : ℕ) (s : Text)
    → max_length < 2 + length (c ∷ s)
    → (whole : Text) × (combine (just_expr (c ∷ s)) ≡ some whole)
      × (compile_filter whole ≡ err too_long)
unfolding compile_filter
compile_filter-combine c s long =
    (wrap (c ∷ s), combine-just_expr c s, rw (strip-wrap (c ∷ s)) (rw too refl))
  where
    too : ltb max_length (length (wrap (c ∷ s))) ≡ true
    too = ground (arith, length-append (c ∷ s) (text ")"))
