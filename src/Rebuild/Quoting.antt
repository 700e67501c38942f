-- ===== src/Rebuild/Quoting.antt =====
-- rebuild.py: how a shell reads the words that `_script` quotes. A specification of quoting, after
-- the shell's manual, independent of `shlex`.
use homelab_agent.Prelude.{
  ℕ, ◌≡◌, refl, ap, ◌∙◌, Bool, true, false, not, ◌||◌, Option, none, some, [], ◌∷◌, ◌++◌, arith,
  append_assoc, all, contains, nat_eq, eqb, eqb_iff, if◌then◌else◌, Bool-cases, inl, inr,
}
use homelab_agent.Prelude.Text.{Text, text, is_digit}
use homelab_agent.Rebuild.Shell.{is_safe, escape, quote, script}

pub data Quotes : Type 0 where
  plain single double : Quotes

abbrev also : ℕ → Option (Text × Text) → Option (Text × Text)
also c none = none
also c (some (word, rest)) = some (c ∷ word, rest)

-- the word that a shell reads and what is left: between single quotes all is literal, between double
-- quotes all but `$`, a backquote and a backslash, and without quotes what is safe; none if the word
-- is not literal or does not end
unfoldable pub shell_word : Quotes → Text → Option (Text × Text)
unfolding is_safe
shell_word plain [] = some ([], [])
shell_word plain (c ∷ s) =
    let next = shell_word plain s in
    let in_single = shell_word single s in
    let in_double = shell_word double s in
    if eqb c 39
    then in_single
    else if eqb c 34
    then in_double
    else if is_safe c
    then also c next
    else some ([], c ∷ s)
shell_word single [] = none
shell_word single (c ∷ s) =
    let next = shell_word single s in
    let out = shell_word plain s in if eqb c 39 then out else also c next
shell_word double [] = none
shell_word double (c ∷ s) =
    let next = shell_word double s in
    let out = shell_word plain s in
    if eqb c 34 then out else if eqb c 36 || eqb c 92 || eqb c 96 then none else also c next

-- a word ends before it
unfoldable pub ends_word : Text → Bool
unfolding is_safe
ends_word [] = true
ends_word (c ∷ s) = not (is_safe c || eqb c 39 || eqb c 34)

shell_word-end : (rest : Text) → ends_word rest ≡ true → shell_word plain rest ≡ some ([], rest)
unfolding shell_word ends_word
shell_word-end [] h = refl
shell_word-end (c ∷ s) h = ground arith

is_safe-not_quote : (c : ℕ) → is_safe c ≡ true → (eqb c 39 ≡ false) × (eqb c 34 ≡ false)
unfolding is_safe is_digit contains
is_safe-not_quote c h = (ground arith, ground arith)

shell_word-safe :
    (s rest : Text)
    → all is_safe s ≡ true
    → ends_word rest ≡ true
    → shell_word plain (s ++ rest) ≡ some (s, rest)
unfolding shell_word all
shell_word-safe [] rest h e = shell_word-end rest e
shell_word-safe (c ∷ s) rest h e = ground (arith, is_safe-not_quote c, shell_word-safe s rest)

shell_word-single :
    (s rest : Text)
    → ends_word rest ≡ true
    → shell_word single (escape s ++ (text "'" ++ rest)) ≡ some (s, rest)
unfolding shell_word escape
shell_word-single [] rest e = shell_word-end rest e
shell_word-single (c ∷ s) rest e = elim (Bool-cases (eqb c 39)) [
  | inl quotes ↦
      let is : c ≡ 39 = (eqb_iff c 39).0 quotes in rw is (ap (also 39) (shell_word-single s rest e))
  | inr other ↦ rw (other, escape) (rw other (ap (also c) (shell_word-single s rest e)))
]

shell_word-open : (s : Text) → shell_word plain (text "'" ++ s) ≡ shell_word single s
unfolding shell_word
shell_word-open s = refl

-- Whatever the text, a shell reads what `shlex.quote` makes of it as one literal word, that text.
pub shell_word-quote :
    (s rest : Text) → ends_word rest ≡ true → shell_word plain (quote s ++ rest) ≡ some (s, rest)
unfolding quote
shell_word-quote [] rest e = unfold shell_word in shell_word-end rest e
shell_word-quote (c ∷ s) rest e = elim (Bool-cases (all is_safe (c ∷ s))) [
  | inl safe ↦ rw (safe, quote) (shell_word-safe (c ∷ s) rest safe e)
  | inr unsafe ↦
      rw (unsafe, quote)
        (shell_word-open ((escape (c ∷ s) ++ text "'") ++ rest)
          ∙ ap (shell_word single) (append_assoc (escape (c ∷ s)) (text "'") rest)
          ∙ shell_word-single (c ∷ s) rest e)
]

-- Whatever its directory is called, every job's script begins by asking for the owner of exactly
-- that directory.
pub shell_word-script :
    (working_dir : Text) (pull_from : Option Text)
    → (after : Text) × (script working_dir pull_from
        ≡ text "__owner=$(stat -c %u:%g " ++ (quote working_dir ++ after))
      × (shell_word plain (quote working_dir ++ after) ≡ some (working_dir, after))
unfolding script ends_word is_safe is_digit contains
shell_word-script working_dir pull_from = (_, refl, shell_word-quote working_dir _ refl)
