-- ===== src/Disk/Delete.antt =====
-- disk_delete.py: `check` and `delete`.
use homelab_agent.Prelude.{
  ℕ, Bool, not, Option, none, some, List, [], ◌∷◌, ◌++◌, if◌then◌else◌, ltb, eqb,
}
use homelab_agent.Prelude.Text.{Text, text}
use homelab_agent.Prelude.Result.{Result, ok, err, ◌>>=◌, ◌>>◌, require}
use homelab_agent.Disk.Path.{PathError, normalize, count_slashes, dirname, basename}
use homelab_agent.Disk.Scans.{Scans, known_bytes, forget_path}
use homelab_agent.Disk.Host.{
  Stat, Lstat, missing, broken, found, Host, on_host, is_directory, container_mounts, mounted_under,
  is_mount_point, protected, root_above, Launch, Outcome, raised, exited,
}

pub data DeleteError : Type 0 where
  bad_path : PathError → DeleteError
  top_level no_such mount_point os_error : DeleteError
  system_path : Text → DeleteError
  in_use : Text → Text → DeleteError
  helper_raised : Text → DeleteError
  helper_exited : ℕ → Text → DeleteError

pub record Target : Type 0 where
  pub path : Text
  pub is_folder : Bool

abbrev pub normal : Text → Result DeleteError Text
normal path = elim (normalize path) [ err e ↦ err (bad_path e) | ok answer ↦ ok answer ]

abbrev pub stat_of : Lstat → Result DeleteError Stat
stat_of missing = err no_such
stat_of broken = err os_error
stat_of (found stat) = ok stat

-- the folder of a path that was there cannot be missing but by a race: then the error is Python's
abbrev pub parent_stat : Lstat → Result DeleteError Stat
parent_stat (found stat) = ok stat
parent_stat _ = err os_error

abbrev pub not_protected : Option Text → Result DeleteError (Unit {0})
not_protected none = ok tt
not_protected (some root) = err (system_path root)

abbrev pub not_in_use : Option (Text × Text) → Result DeleteError (Unit {0})
not_in_use none = ok tt
not_in_use (some (source, name)) = err (in_use name source)

-- `check`, once the path is normal
unfoldable pub check_normal : Host → Text → Result DeleteError Target
check_normal host path = do
  require (not (ltb (count_slashes path) 2)) top_level
  not_protected (root_above path protected)
  stat ← stat_of (host.lstat (on_host host path))
  parent ← parent_stat (host.lstat (dirname (on_host host path)))
  require (not (is_mount_point stat parent)) mount_point
  not_in_use (mounted_under (container_mounts host.running) path)
  ok (record { path = path; is_folder = is_directory stat.kind })

unfoldable pub check : Host → Text → Result DeleteError Target
unfolding check_normal
check host path = do normal_path ← normal path; check_normal host normal_path

pub record Deleted : Type 0 where
  pub answer : Result DeleteError (Text × Option ℕ)
  pub scans : Scans
  pub launched : List Launch

abbrev pub remove_command : Text → Launch
remove_command path = record {
  user = none;
  folder = dirname path;
  extra = [];
  command =
      text "rm"
      ∷ text "-rf"
      ∷ text "--one-file-system"
      ∷ text "--"
      ∷ (text "/target/" ++ basename path)
      ∷ [];
}

abbrev pub after_helper : Scans → Text → Outcome → Deleted
after_helper scans path (raised why) = record {
  answer = err (helper_raised why);
  scans = scans;
  launched = remove_command path ∷ [];
}
after_helper scans path (exited code output) =
    if eqb code 0
    then record {
      answer = ok (path, known_bytes scans path);
      scans = forget_path path (known_bytes scans path) scans;
      launched = remove_command path ∷ [];
    }
    else record {
      answer = err (helper_exited code output);
      scans = scans;
      launched = remove_command path ∷ [];
    }

-- with how its helper would end
unfoldable pub delete : Host → Scans → Outcome → Text → Deleted
delete host scans outcome path = elim (check host path) [
  | err e ↦ record { answer = err e; scans = scans; launched = [] }
  | ok target ↦ after_helper scans target.path outcome
]
