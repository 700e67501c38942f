-- ===== src/ComposeEdit/Apply.antt =====
-- compose_edit.py: `_apply`, as a function of what Docker and the file system answer. The file is
-- written by `_write`, files.py's `write_file`: `write` says what it comes to and what is there then.
use homelab_agent.Prelude.{not, ℕ, Option, none, some, List, [], ◌∷◌, ◌++◌, eqb, if◌then◌else◌}
use homelab_agent.Prelude.Text.{Text}
use homelab_agent.Prelude.Result.{Result, ok, err}
use homelab_agent.Files.Write.{File}
use homelab_agent.ComposeEdit.Watch.{Failure, up_failed}

pub data State : Type 0 where
  running done failed rolled_back : State

pub data Problem : Type 0 where
  rejected : Text → Problem
  conflict : Text → Problem
  raised : Text → Problem
  reverted : Failure → Problem

pub data Note : Type 0 where
  saved : Note
  went_up : Text → Note
  watching : Note
  everything_up : Note
  rolling_back : Failure → Note
  restored : Text → Note

pub record Job : Type 0 where
  pub project : Text
  pub state : State
  pub error : Option Problem
  pub steps : List Note
  pub failed : Option Failure

-- how `open` in text mode reads a text: every line end, "\r\n" and "\r" too, is "\n"
unfoldable pub read_lines : Text → Text
read_lines [] = []
read_lines (c ∷ []) = if eqb c 13 then 10 ∷ [] else c ∷ []
read_lines (c ∷ d ∷ s) =
    let rest = read_lines (d ∷ s) in
    if not (eqb c 13) then c ∷ rest else if eqb d 10 then rest else 10 ∷ rest

-- what a write comes to: it raises a `Conflict`, or something else, and the file that is there then
pub data Written : Type 0 where
  wrote : File → Written
  in_conflict : Text → File → Written
  broke : Text → File → Written

-- what the daemon answers: to the check, the first `up`, the watch, and the `up` of the roll-back;
-- an error stands for an exception
pub record Answers : Type 0 where
  pub check : Result Text (Option Text)
  pub readable : Result Text (Unit {0})
  pub first_up : Result Text (ℕ × Text)
  pub watched : Result Text (Option Failure)
  pub second_up : Result Text (ℕ × Text)

abbrev pub note : Note → Job → Job
note text job = record job { steps = job.steps ++ (text ∷ []) }

unfoldable pub finish : State → Option Problem → Job → Job
finish state error job = record job { state = state; error = error }

module _ (write : File → Text → Option ℕ → Written) where
  -- from `job["failed"] = …` on
  unfoldable pub roll_back : Answers → Text → Failure → Job → File → Job × File
  roll_back answers previous failure job file =
      let noted = note (rolling_back failure) (record job { failed = some failure }) in
      elim (write file previous none) [
        | in_conflict why after ↦ (finish failed (some (conflict why)) noted, after)
        | broke why after ↦ (finish failed (some (raised why)) noted, after)
        | wrote after ↦ elim answers.second_up [
          | err why ↦ (finish failed (some (raised why)) noted, after)
          | ok (code, output) ↦
              (finish rolled_back (some (reverted failure)) (note (restored output) noted), after)
        ]
      ]

  -- from the first `_up` on
  unfoldable pub bring_up : Answers → Text → Job → File → Job × File
  bring_up answers previous job file = elim answers.first_up [
    | err why ↦ (finish failed (some (raised why)) job, file)
    | ok (code, output) ↦
        let upped = note (went_up output) job in
        if eqb code 0
        then (elim answers.watched [
          | err why ↦ (finish failed (some (raised why)) (note watching upped), file)
          | ok (some failure) ↦ roll_back answers previous failure (note watching upped) file
          | ok none ↦ (finish done none (note everything_up (note watching upped)), file)
        ])
        else roll_back answers previous (record { name = job.project; why = up_failed code }) upped
            file
  ]

  -- `_apply`
  unfoldable pub apply : Answers → Text → Option ℕ → Job → File → Job × File
  apply answers content modified job file = elim answers.check [
    | err why ↦ (finish failed (some (raised why)) job, file)
    | ok (some error) ↦ (finish failed (some (rejected error)) job, file)
    | ok none ↦ elim answers.readable [
      | err why ↦ (finish failed (some (raised why)) job, file)
      | ok _ ↦ elim (write file content modified) [
        | in_conflict why after ↦ (finish failed (some (conflict why)) job, after)
        | broke why after ↦ (finish failed (some (raised why)) job, after)
        | wrote after ↦ bring_up answers (read_lines file.content) (note saved job) after
      ]
    ]
  ]
