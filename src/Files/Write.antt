-- ===== src/Files/Write.antt =====
-- files.py: `write_file`, on the entry that the path names. Times are whole milliseconds; what the
-- policy and the helper container answer are parts of a `Site`.
use homelab_agent.Prelude.{
  ℕ, ◌+◌, ◌-◌, Bool, true, false, not, Option, none, some, ltb, eqb, if◌then◌else◌,
}
use homelab_agent.Prelude.Text.{Text}

pub record File : Type 0 where
  pub content : Text
  pub modified : ℕ

pub data Entry : Type 0 where
  absent irregular : Entry
  regular : File → Entry

-- what `_PLACE` meets in the folder, where it is not alone: another entry at the name when it starts, or
-- when it comes to `mv`; where `cat` fails, the file that it leaves; whether `rm` or `mv` fail
pub record Run : Type 0 where
  pub appeared : Option Entry
  pub meanwhile : Option Entry
  pub cat_stops : Option File
  pub rm_fails : Bool
  pub mv_fails : Bool
  pub output : Text

-- the upload is refused, the helper fails before its script, it ends in an exception with something at
-- the name, such as a timeout, or its script runs to its end
pub data Upload : Type 0 where
  refused : Upload
  not_started : Text → Upload
  broke_off : Text → Entry → Upload
  ran : Run → Upload

pub record Site : Type 0 where
  pub is_name : Bool
  pub is_writable : Bool
  pub is_folder : Bool
  pub upload : Upload
  pub now : ℕ

pub data WriteError : Type 0 where
  no_name not_writable no_folder not_regular : WriteError
  already_exists changed_on_disk : WriteError
  upload_refused : WriteError
  helper_failed : Text → WriteError
  gone : WriteError

-- `abs(st.st_mtime - expected_modified) > 0.001`
abbrev pub moved_on : Option ℕ → ℕ → Bool
moved_on none modified = false
moved_on (some expected) modified = ltb 1 ((modified - expected) + (expected - modified))

abbrev pub entry_met : Option Entry → Entry → Entry
entry_met none entry = entry
entry_met (some other) entry = other

-- `_PLACE`: its exit code and what is then at the name. `mv -n` leaves what it finds and succeeds.
unfoldable pub place_script : Run → Text → ℕ → Entry → ℕ × Entry
place_script run content now absent =
    if run.mv_fails
    then (1, entry_met run.meanwhile absent)
    else (0, entry_met run.meanwhile (regular (record { content = content; modified = now })))
place_script run content now irregular =
    (elim run.cat_stops [ none ↦ if run.rm_fails then 1 else 0 | some left ↦ 1 ], irregular)
place_script run content now (regular old) = elim run.cat_stops [
  | some left ↦ (1, regular left)
  | none ↦ (if run.rm_fails then 1 else 0, regular (record { content = content; modified = now }))
]

-- the last `lstat`
abbrev pub look_after : Entry → Option WriteError × Entry
look_after absent = (some gone, absent)
look_after irregular = (none, irregular)
look_after (regular file) = (none, regular file)

-- `_run` and what follows it
abbrev pub outcome_of : Run → ℕ × Entry → Option WriteError × Entry
outcome_of run (code, after) =
    if eqb code 0 then look_after after else (some (helper_failed run.output), after)

-- from the upload on
unfoldable pub place : Site → Text → Entry → Option WriteError × Entry
unfolding place_script
place site content entry = elim site.upload [
  | refused ↦ (some upload_refused, entry)
  | not_started why ↦ (some (helper_failed why), entry)
  | broke_off why left ↦ (some (helper_failed why), left)
  | ran run ↦ outcome_of run (place_script run content site.now (entry_met run.appeared entry))
]

-- from `os.path.lexists` on
unfoldable pub write_entry : Site → Text → Bool → Option ℕ → Entry → Option WriteError × Entry
unfolding place
write_entry site content overwrite expected absent = place site content absent
write_entry site content overwrite expected irregular = (some not_regular, irregular)
write_entry site content overwrite expected (regular file) =
    if not overwrite
    then (some already_exists, regular file)
    else if moved_on expected file.modified
    then (some changed_on_disk, regular file)
    else place site content (regular file)

-- the error that it raises, if any, and the entry afterwards
unfoldable pub write_file : Site → Entry → Text → Bool → Option ℕ → Option WriteError × Entry
unfolding write_entry
write_file site entry content overwrite expected =
    if not site.is_name
    then (some no_name, entry)
    else if not site.is_writable
    then (some not_writable, entry)
    else if not site.is_folder
    then (some no_folder, entry)
    else write_entry site content overwrite expected entry

-- a `Conflict`
abbrev pub is_conflict : WriteError → Bool
is_conflict already_exists = true
is_conflict changed_on_disk = true
is_conflict _ = false
