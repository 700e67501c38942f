-- ===== src/Rebuild/Failure.antt =====
-- rebuild.py: `classify_failure`. The causes stand for the messages of `_FAILURES`, in their order.
use homelab_agent.Prelude.{ℕ, List, [], ◌∷◌, any, if◌then◌else◌}
use homelab_agent.Prelude.Text.{Text, text, lower, has_infix}

pub data Cause : Type 0 where
  private_repo refused_key bad_ownership diverged unreachable disk_full port_taken no_image : Cause
  exited : ℕ → Cause

unfoldable pub failures : List (List Text × Cause)
failures =
    (
      text "could not read username"
          ∷ text "authentication failed"
          ∷ text "invalid username or password"
          ∷ [],
      private_repo,
    )
    ∷ (text "permission denied (publickey" ∷ text "host key verification failed" ∷ [], refused_key)
    ∷ (text "dubious ownership" ∷ [], bad_ownership)
    ∷ (
      text "not possible to fast-forward"
          ∷ text "diverging branches"
          ∷ text "would be overwritten"
          ∷ [],
      diverged,
    )
    ∷ (
      text "could not resolve host"
          ∷ text "unable to access"
          ∷ text "connection timed out"
          ∷ text "network is unreachable"
          ∷ [],
      unreachable,
    )
    ∷ (text "no space left on device" ∷ [], disk_full)
    ∷ (text "port is already allocated" ∷ text "address already in use" ∷ [], port_taken)
    ∷ (
      text "pull access denied" ∷ text "manifest unknown" ∷ text "not found: manifest" ∷ [],
      no_image,
    )
    ∷ []

-- `for needles, message in _FAILURES: if any(needle in lowered …): return message`
unfoldable pub first_match : List (List Text × Cause) → Text → Cause → Cause
first_match [] lowered default = default
first_match ((needles, cause) ∷ rest) lowered default =
    let later = first_match rest lowered default in
    if any (λ needle. has_infix needle lowered) needles then cause else later

unfoldable pub classify_failure : Text → ℕ → Cause
unfolding failures first_match
classify_failure output exit_code = first_match failures (lower output) (exited exit_code)
