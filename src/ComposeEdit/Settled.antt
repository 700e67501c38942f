-- ===== src/ComposeEdit/Settled.antt =====
-- compose_edit.py: what the file holds when a job of `_apply` is over.
use homelab_agent.Prelude.{
  ℕ, zero, suc, ◌≡◌, ◌≢◌, ◌⊎◌, refl, sym, Bool-cases, ◌∙◌, Bool, true, false, ◌||◌, [], ◌∷◌, Option,
  none, some, arith, eqb, inl, inr,
}
use mathlib.Core.Path.{subst}
use homelab_agent.Prelude.Text.{Text}
use homelab_agent.Prelude.Result.{Result, ok, err}
use homelab_agent.Files.Write.{File}
use homelab_agent.ComposeEdit.Watch.{Failure}
use homelab_agent.ComposeEdit.Apply.{
  State, running, done, failed, rolled_back, saved, went_up, watching, Job, Written, wrote,
  in_conflict, broke, Answers, read_lines, note, finish, roll_back, bring_up, apply,
}

-- what `_write` promises: if it does not raise, the whole text is in place
pub record IsWriter (write : File → Text → Option ℕ → Written) : Type 0 where
  pub whole :
      (file after : File) (content : Text) (modified : Option ℕ)
      → write file content modified ≡ wrote after
      → after.content ≡ content

abbrev pub is_over : State → Bool
is_over running = false
is_over _ = true

-- The job is over; it is done only with the new text in place, and rolled back only with this one.
pub record Ended (old new : Text) (state : State) (content : Text) : Type 0 where
  pub over : is_over state ≡ true
  pub if_done : state ≡ done → content ≡ new
  pub if_rolled_back : state ≡ rolled_back → content ≡ old

failed-Ended : (old new content : Text) → Ended old new failed content
failed-Ended old new content = record {
  over = refl;
  if_done = λ h. ground arith;
  if_rolled_back = λ h. ground arith;
}

Written-cases :
    (w : Written)
    → ((f : File) × (w ≡ wrote f))
      ⊎ (((why : Text) × (f : File) × (w ≡ in_conflict why f))
          ⊎ ((why : Text) × (f : File) × (w ≡ broke why f)))
Written-cases (wrote f) = inl (f, refl)
Written-cases (in_conflict why f) = inr (inl (why, f, refl))
Written-cases (broke why f) = inr (inr (why, f, refl))

Result-cases :
    {A : Type 0} (r : Result Text A) → ((e : Text) × (r ≡ err e)) ⊎ ((a : A) × (r ≡ ok a))
Result-cases (err e) = inl (e, refl)
Result-cases (ok a) = inr (a, refl)

module _ (write : File → Text → Option ℕ → Written) (law : IsWriter write) (old new : Text) where
  -- the job and the file as they end
  Ends : Job × File → Type 0
  Ends (job, file) = Ended old new job.state file.content

  roll_back-Ends :
      (answers : Answers) (failure : Failure) (job : Job) (file : File)
      → file.content ≡ new
      → Ends (roll_back write answers old failure job file)
  unfolding roll_back finish Ends
  roll_back-Ends answers failure job file at = elim (Written-cases (write file old none)) [
    | inr (inl (why, after, h)) ↦ rw (h, roll_back) (failed-Ended old new after.content)
    | inr (inr (why, after, h)) ↦ rw (h, roll_back) (failed-Ended old new after.content)
    | inl (after, h) ↦ elim (Result-cases answers.second_up) [
      | inl (why, up) ↦ rw (h, roll_back, up) (failed-Ended old new after.content)
      | inr ((code, output), up) ↦
          rw (h, roll_back, up)
            (record {
              over = refl;
              if_done = λ e. ground arith;
              if_rolled_back = λ e. law.whole file after old none h;
            })
    ]
  ]

  done-Ends : (content : Text) → content ≡ new → Ended old new done content
  done-Ends content h = record { over = refl; if_done = λ e. h; if_rolled_back = λ e. ground arith }

  watched-Ends :
      (answers : Answers) (job : Job) (file : File) (output : Text)
      → file.content ≡ new
      → answers.first_up ≡ ok (0, output)
      → Ends (bring_up write answers old job file)
  unfolding bring_up finish Ends
  watched-Ends answers job file output at up = elim (Result-cases answers.watched) [
    | inl (why, w) ↦ rw (up, bring_up, w) (failed-Ended old new file.content)
    | inr (none, w) ↦ rw (up, bring_up, w) (done-Ends file.content at)
    | inr (some failure, w) ↦
        rw (up, bring_up, w)
          (roll_back-Ends answers failure (note watching (note (went_up output) job)) file at)
  ]

  bring_up-Ends :
      (answers : Answers) (job : Job) (file : File)
      → file.content ≡ new
      → Ends (bring_up write answers old job file)
  unfolding bring_up finish Ends
  bring_up-Ends answers job file at = elim (Result-cases answers.first_up) [
    | inl (why, up) ↦ rw (up, bring_up) (failed-Ended old new file.content)
    | inr ((zero, output), up) ↦ watched-Ends answers job file output at up
    | inr ((suc code, output), up) ↦
        let bad : eqb (suc code) 0 ≡ false = ground arith in
        rw (up, bring_up, bad) (roll_back-Ends answers _ (note (went_up output) job) file at)
  ]

-- a carriage return stands in the text
abbrev pub has_return : Text → Bool
has_return [] = false
has_return (c ∷ s) = eqb c 13 || has_return s

read_lines_same : (s : Text) → has_return s ≡ false → read_lines s ≡ s
unfolding read_lines
read_lines_same [] h = refl
read_lines_same (c ∷ []) h = ground arith
read_lines_same (c ∷ d ∷ s) h = ground (arith, read_lines_same (d ∷ s))

-- The second text is the first with "\n" for each of its line ends: "\r\n", "\r" and "\n".
pub data SameLines : Text → Text → Type 0 where
  finished : SameLines [] []
  plain : (c : ℕ) (s t : Text) → c ≢ 13 → SameLines s t → SameLines (c ∷ s) (c ∷ t)
  return_newline : (s t : Text) → SameLines s t → SameLines (13 ∷ 10 ∷ s) (10 ∷ t)
  return_alone :
      (s t : Text) → ((rest : Text) → s ≢ 10 ∷ rest) → SameLines s t → SameLines (13 ∷ s) (10 ∷ t)

read_lines-newline : (s : Text) → read_lines (10 ∷ s) ≡ 10 ∷ read_lines s
unfolding read_lines
read_lines-newline [] = refl
read_lines-newline (c ∷ s) = refl

read_lines-SameLines : (s : Text) → SameLines s (read_lines s)
unfolding read_lines
read_lines-SameLines [] = finished
read_lines-SameLines (c ∷ []) = elim (Bool-cases (eqb c 13)) [
  | inl is ↦
      let same : c ≡ 13 = ground arith in
      rw same (return_alone [] [] (λ rest clash. ground arith) finished)
  | inr other ↦ rw other (plain c [] [] (λ clash. ground arith) finished)
]
read_lines-SameLines (c ∷ d ∷ s) = elim (Bool-cases (eqb c 13)) [
  | inl is ↦
      let same : c ≡ 13 = ground arith in
      rw same (elim (Bool-cases (eqb d 10)) [
        | inl newline ↦
            let next : d ≡ 10 = ground arith in
            rw newline (
              subst (λ x. SameLines (13 ∷ x ∷ s) (read_lines (x ∷ s))) (sym next)
                (subst (SameLines (13 ∷ 10 ∷ s)) (sym (read_lines-newline s))
                  (return_newline s (read_lines s) (read_lines-SameLines s))))
        | inr other ↦ rw other (
            return_alone (d ∷ s) (read_lines (d ∷ s)) (λ rest clash. ground arith)
              (read_lines-SameLines (d ∷ s)))
      ])
  | inr other ↦
      rw other (
        plain c (d ∷ s) (read_lines (d ∷ s)) (λ clash. ground arith) (read_lines-SameLines (d ∷ s)))
]

-- The job is over; it is done only with the new text in place, and rolled back only with the old one, its
-- line ends read as Python's text mode reads them, so with the very text if it has no carriage return.
pub record IsSettled (old new : Text) (state : State) (content : Text) : Type 0 where
  pub over : is_over state ≡ true
  pub if_done : state ≡ done → content ≡ new
  pub if_rolled_back : state ≡ rolled_back → SameLines old content
  pub if_plain : has_return old ≡ false → state ≡ rolled_back → content ≡ old

Ended-IsSettled :
    (old new content : Text) (state : State)
    → Ended (read_lines old) new state content
    → IsSettled old new state content
Ended-IsSettled old new content state e = record {
  over = e.over;
  if_done = e.if_done;
  if_rolled_back =
      λ rolled. subst (SameLines old) (sym (e.if_rolled_back rolled)) (read_lines-SameLines old);
  if_plain = λ plain rolled. e.if_rolled_back rolled ∙ read_lines_same old plain;
}

apply-Ended :
    (write : File → Text → Option ℕ → Written) (answers : Answers) (content : Text)
    (modified : Option ℕ) (job : Job) (file : File)
    → IsWriter write
    → Ended
        (read_lines file.content)
        content
        (apply write answers content modified job file).0.state
        (apply write answers content modified job file).1.content
unfolding apply finish Ends
apply-Ended write answers content modified job file law =
    let old : Text = read_lines file.content in
    elim (Result-cases answers.check) [
      | inl (why, c) ↦ rw (c, apply) (failed-Ended old content file.content)
      | inr (some error, c) ↦ rw (c, apply) (failed-Ended old content file.content)
      | inr (none, c) ↦ elim (Result-cases answers.readable) [
        | inl (why, r) ↦ rw (c, apply, r) (failed-Ended old content file.content)
        | inr (_, r) ↦ elim (Written-cases (write file content modified)) [
          | inr (inl (why, after, h)) ↦ rw (c, apply, r, h) (failed-Ended old content after.content)
          | inr (inr (why, after, h)) ↦ rw (c, apply, r, h) (failed-Ended old content after.content)
          | inl (after, h) ↦
              rw (c, apply, r, h)
                (bring_up-Ends write law old content answers (note saved job) after
                  (law.whole file after content modified h))
        ]
      ]
    ]

-- A job that applies a new text is over when its thread ends, whatever Docker answers, if a write that
-- does not raise has put its whole text in place. It is done only with the new text in place. It is rolled
-- back only with the old text in place, with "\n" for each of its line ends, so with that very text if it
-- has no carriage return.
pub apply-IsSettled :
    (write : File → Text → Option ℕ → Written) (answers : Answers) (content : Text)
    (modified : Option ℕ) (job : Job) (file : File)
    → IsWriter write
    → IsSettled file.content content
        (apply write answers content modified job file).0.state
        (apply write answers content modified job file).1.content
apply-IsSettled write answers content modified job file law =
    Ended-IsSettled file.content content (apply write answers content modified job file).1.content
      (apply write answers content modified job file).0.state
      (apply-Ended write answers content modified job file law)
