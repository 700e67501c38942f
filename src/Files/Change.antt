-- ===== src/Files/Change.antt =====
-- files.py: `rename`, `make_folder`, `move`, `copy` and `delete`, up to the helper that each starts
-- and what it answers. `find` on the host before the helper ran, and on the one after it.
use homelab_agent.Prelude.{
  ℕ, Bool, true, false, not, ◌&&◌, Option, none, some, List, [], ◌∷◌, ◌++◌, if◌then◌else◌, eqb,
  ◌==◌, contains, nat_eq, list_eq,
}
use homelab_agent.Prelude.Text.{Text, text, strip}
use homelab_agent.Prelude.Result.{Result, ok, err, ◌>>=◌, ◌>>◌, require}
use homelab_agent.Disk.Path.{PathError, normalize, dirname, basename, join, slash, is_under}
use homelab_agent.Disk.Host.{
  is_directory, Host, Stat, Lstat, missing, broken, found, on_host, lexists, is_mount_point,
  container_mounts, mounted_under, Launch, Outcome, raised, exited,
}
use homelab_agent.Disk.Scans.{Scans}
use homelab_agent.Disk.Delete.{DeleteError}
use homelab_agent.Disk.Delete
use homelab_agent.Files.Roots.{Reason, why_not_writable}

pub data ChangeError : Type 0 where
  bad_path : PathError → ChangeError
  name_required is_root_folder no_such mount_point os_error : ChangeError
  same_place into_itself not_a_folder already_there did_not_happen : ChangeError
  not_changeable : Reason → ChangeError
  used_by : Text → ChangeError
  helper_raised : Text → ChangeError
  helper_exited : ℕ → Text → ChangeError
  not_deleted : DeleteError → ChangeError

-- what a change starts and what it answers with when that went well; the paths that must be there then
pub record Plan : Type 0 where
  pub target : Text
  pub launch : Launch
  pub check_after : Option Text

pub record Changed : Type 0 where
  pub answer : Result ChangeError Text
  pub launched : List Launch

abbrev pub normal : Text → Result ChangeError Text
normal path = elim (normalize path) [ err e ↦ err (bad_path e) | ok answer ↦ ok answer ]

abbrev pub allowed : Option Reason → Result ChangeError (Unit {0})
allowed none = ok tt
allowed (some reason) = err (not_changeable reason)

-- _require_writable
abbrev pub require_writable : Host → List Text → Text → Result ChangeError (Unit {0})
require_writable host roots path = allowed (why_not_writable host roots path)

abbrev pub stat_of : Lstat → Result ChangeError Stat
stat_of missing = err no_such
stat_of broken = err os_error
stat_of (found stat) = ok stat

-- `_owner`, where a folder that is not there is Python's own error
abbrev pub owner_of : Lstat → Result ChangeError (ℕ × ℕ)
owner_of (found stat) = ok (stat.uid, stat.gid)
owner_of _ = err os_error

abbrev pub parent_stat : Lstat → Result ChangeError Stat
parent_stat (found stat) = ok stat
parent_stat _ = err os_error

-- the folder above is only looked at if there is a folder here
abbrev pub not_mount_point : Stat → Lstat → Result ChangeError (Unit {0})
not_mount_point stat above =
    if is_directory stat.kind
    then (parent_stat above >>= λ parent. require (not (is_mount_point stat parent)) mount_point)
    else ok tt

abbrev pub not_in_use : Option (Text × Text) → Result ChangeError (Unit {0})
not_in_use none = ok tt
not_in_use (some (source, name)) = err (used_by name)

-- _guard_source
unfoldable pub guard_source : Host → List Text → Text → Result ChangeError (Unit {0})
guard_source host roots path = do
  require (not (contains roots path)) is_root_folder
  require_writable host roots path
  stat ← stat_of (host.lstat (on_host host path))
  not_mount_point stat (host.lstat (dirname (on_host host path)))
  not_in_use (mounted_under (container_mounts host.running) path)

-- a name that is one component
abbrev pub is_plain : Text → Bool
is_plain name =
    not (name == [])
    && not (contains name slash)
    && not (name == text ".")
    && not (name == text "..")

unfoldable pub plan_rename : Host → List Text → Text → Text → Result ChangeError Plan
plan_rename host roots given new_name = do
  path ← normal given
  require (is_plain (strip new_name)) name_required
  guard_source host roots path
  require_writable host roots (join (dirname path) (strip new_name))
  require (lexists host (join (on_host host (dirname path)) (basename path))) no_such
  require (not (lexists host (join (on_host host (dirname path)) (strip new_name)))) already_there
  owner ← owner_of (host.lstat (on_host host (dirname path)))
  ok (record {
    target = join (dirname path) (strip new_name);
    launch = record {
      user = some owner;
      folder = dirname path;
      extra = [];
      command = text "mv" ∷ text "-n" ∷ text "--" ∷ basename path ∷ strip new_name ∷ [];
    };
    check_after = some (join (on_host host (dirname path)) (strip new_name));
  })

unfoldable pub plan_make_folder : Host → List Text → Text → Result ChangeError Plan
plan_make_folder host roots given = do
  path ← normal given
  require (not (basename path == [])) name_required
  require_writable host roots path
  require (not (lexists host (join (on_host host (dirname path)) (basename path)))) already_there
  owner ← owner_of (host.lstat (on_host host (dirname path)))
  ok (record {
    target = path;
    launch = record {
      user = some owner;
      folder = dirname path;
      extra = [];
      command = text "mkdir" ∷ text "--" ∷ basename path ∷ [];
    };
    check_after = none;
  })

-- _destination
unfoldable pub destination : Host → List Text → Text → Text → Result ChangeError Text
destination host roots path given = do
  dest ← normal given
  require
      (not (basename dest == [])
        && not (basename dest == text ".")
        && not (basename dest == text ".."))
      name_required
  require (not (dest == path)) same_place
  require (not (is_under dest path)) into_itself
  require_writable host roots dest
  require (host.is_dir (on_host host (dirname dest))) not_a_folder
  require (not (lexists host (join (on_host host (dirname dest)) (basename dest)))) already_there
  ok dest

unfoldable pub plan_move : Host → List Text → Text → Text → Result ChangeError Plan
plan_move host roots given given_dest = do
  path ← normal given
  guard_source host roots path
  dest ← destination host roots path given_dest
  owner ← owner_of (host.lstat (on_host host (dirname path)))
  ok (record {
    target = dest;
    launch = record {
      user = some owner;
      folder = dirname path;
      extra = (dirname dest, text "/dest", true) ∷ [];
      command =
          text "mv" ∷ text "-n" ∷ text "--" ∷ basename path ∷ (text "/dest/" ++ basename dest) ∷ [];
    };
    check_after = some (on_host host dest);
  })

unfoldable pub plan_copy : Host → List Text → Text → Text → Result ChangeError Plan
plan_copy host roots given given_dest = do
  path ← normal given
  stat_of (host.lstat (on_host host path))
  dest ← destination host roots path given_dest
  owner ← owner_of (host.lstat (on_host host (dirname dest)))
  ok (record {
    target = dest;
    launch = record {
      user = some owner;
      folder = dirname dest;
      extra = (dirname path, text "/source", false) ∷ [];
      command =
          text "cp"
          ∷ text "-a"
          ∷ text "--"
          ∷ (text "/source/" ++ basename path)
          ∷ basename dest
          ∷ [];
    };
    check_after = some (on_host host dest);
  })

-- `_run`, and the check that what was asked for is there
abbrev pub verdict : Host → Plan → Outcome → Result ChangeError Text
verdict after plan (raised why) = err (helper_raised why)
verdict after plan (exited code output) =
    if not (eqb code 0) then err (helper_exited code output) else (elim plan.check_after [
      | none ↦ ok plan.target
      | some path ↦ if lexists after path then ok plan.target else err did_not_happen
    ])

abbrev pub carry_out : Host → Outcome → Result ChangeError Plan → Changed
carry_out after outcome (err e) = record { answer = err e; launched = [] }
carry_out after outcome (ok plan) = record {
  answer = verdict after plan outcome;
  launched = plan.launch ∷ [];
}

unfoldable pub rename : Host → Host → List Text → Outcome → Text → Text → Changed
rename host after roots outcome path new_name =
    carry_out after outcome (plan_rename host roots path new_name)

unfoldable pub make_folder : Host → List Text → Outcome → Text → Changed
make_folder host roots outcome path = carry_out host outcome (plan_make_folder host roots path)

unfoldable pub move : Host → Host → List Text → Outcome → Text → Text → Changed
move host after roots outcome path dest = carry_out after outcome (plan_move host roots path dest)

unfoldable pub copy : Host → Host → List Text → Outcome → Text → Text → Changed
copy host after roots outcome path dest = carry_out after outcome (plan_copy host roots path dest)

-- what may be deleted here, before disk_delete.py looks at it again
unfoldable pub plan_delete : Host → List Text → Text → Result ChangeError Text
plan_delete host roots given = do path ← normal given; guard_source host roots path; ok path

abbrev pub lift_deleted : Delete.Deleted → Changed
lift_deleted deleted = record {
  answer = elim deleted.answer [ err e ↦ err (not_deleted e) | ok (path, freed) ↦ ok path ];
  launched = deleted.launched;
}

unfoldable pub delete : Host → Scans → List Text → Outcome → Text → Changed
delete host scans roots outcome given = elim (plan_delete host roots given) [
  | err e ↦ record { answer = err e; launched = [] }
  | ok path ↦ lift_deleted (Delete.delete host scans outcome path)
]
