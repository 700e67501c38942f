-- ===== src/Rebuild/Shell.antt =====
-- rebuild.py: `_script`, and the standard library's `shlex.quote` that it uses.
use homelab_agent.Prelude.{
  ℕ, Bool, ◌&&◌, ◌||◌, Option, none, some, [], ◌∷◌, ◌++◌, all, contains, nat_eq, eqb, leb,
  if◌then◌else◌,
}
use homelab_agent.Prelude.Text.{Text, text, is_digit}

-- a character that `shlex` leaves as it is: a letter, a digit or one of `_@%+=:,./-`
unfoldable pub is_safe : ℕ → Bool
unfolding is_digit
is_safe c =
    is_digit c || leb 65 c && leb c 90 || leb 97 c && leb c 122 || contains (text "_@%+=:,./-") c

-- `s.replace("'", "'\"'\"'")`
unfoldable pub escape : Text → Text
escape [] = []
escape (c ∷ s) = let rest = escape s in if eqb c 39 then text "'\"'\"'" ++ rest else c ∷ rest

-- `shlex.quote`
unfoldable pub quote : Text → Text
unfolding escape is_safe
quote [] = text "''"
quote (c ∷ s) = if all is_safe (c ∷ s) then c ∷ s else text "'" ++ (escape (c ∷ s) ++ text "'")

-- `f'{safe} pull --ff-only {url} "$({safe} rev-parse --abbrev-ref HEAD)"'`
abbrev pull_command : Text → Text → Text
pull_command quoted url =
    let safe = text "git -c safe.directory=" ++ quoted in
    safe
    ++ (text " pull --ff-only "
        ++ (url ++ (text " \"$(" ++ (safe ++ text " rev-parse --abbrev-ref HEAD)\""))))

abbrev build_command : Text
build_command = text "docker compose up -d --build"

-- `_script`, of the job's directory, and of the URL to pull from if it pulls
unfoldable pub script : Text → Option Text → Text
unfolding quote
script working_dir pull_from =
    let quoted = quote working_dir in
    let work : Text = elim pull_from [
      | none ↦ build_command
      | some url ↦ pull_command quoted (quote url) ++ (text " && " ++ build_command)
    ] in
    text "__owner=$(stat -c %u:%g "
    ++ (quoted
        ++ (text "); "
            ++ (work
                ++ (text "; __code=$?; chown -R \"$__owner\" "
                    ++ (quoted ++ text " 2>/dev/null || true; exit $__code")))))
