-- ===== src/Disk/Examples.antt =====
-- disk_usage.py and disk_delete.py on one small host.
use homelab_agent.Prelude.{
  ℕ, ◌≡◌, refl, true, false, none, some, List, [], ◌∷◌, ◌++◌, All, all, list_beq, contains, nat_eq,
  list_eq,
}
use homelab_agent.Prelude.Text.{Text, text, starts_with, split_on}
use homelab_agent.Prelude.Dict.{get, set}
use homelab_agent.Prelude.Result.{ok, err}
use homelab_agent.Disk.Path.{
  normalize, normpath, strip_slashes, rstrip_slashes, components, keep_component, initial_slashes,
  join_with, dirname, basename, last_part, count_slashes, is_under, has_parent, not_absolute,
}
use homelab_agent.Disk.Normal.{is_part, render, render_parts, IsNormal, normalize-fixed}
use homelab_agent.Disk.Under.{is_prefix, under_of, is_under-is_prefix}
use homelab_agent.Disk.Scans.{
  Scan, Scans, Row, dir, done, Usage, usage, look_up, known_bytes, find_bytes, forget_path,
  shrink_rows,
}
use homelab_agent.Disk.Host.{
  Host, Lstat, missing, found, directory, on_host, container_mounts, mounts_of, mounted_under,
  root_above, exited,
}
use homelab_agent.Disk.Delete.{
  check, check_normal, delete, bad_path, system_path, top_level, in_use, mount_point,
}
use homelab_agent.Disk.Safety.{Removes, delete-Removes}
use homelab_agent.Disk.Forget.{known_bytes-forget_path}
use homelab_agent.Disk.Usage.{usage-Current, IsCurrent}

abbrev folder_stat : ℕ → Lstat
folder_stat device = found (record { kind = directory; device = device; uid = 1000; gid = 1000 })

-- /home/ann/old is a folder, and /mnt/disk is another disk
abbrev lstat : Text → Lstat
lstat path = elim (list_beq path (text "/host/mnt/disk")) [
  | true ↦ folder_stat 2
  | false ↦ elim (list_beq path (text "/host/home/ann/none")) [
    | true ↦ missing
    | false ↦ folder_stat 1
  ]
]

abbrev box : Host
box = record {
  root = text "/host";
  lstat = lstat;
  is_dir = λ path. true;
  running =
      record {
        name = text "media";
        working_dir = none;
        mounts = record { is_bind = true; source = text "/home/ann/films/" } ∷ [];
      }
      ∷ [];
  known = [];
}

running : Unit {0}
unfolding normalize normpath strip_slashes rstrip_slashes components keep_component initial_slashes
    join_with dirname basename last_part count_slashes is_under starts_with split_on list_beq
    contains on_host container_mounts mounts_of mounted_under root_above check check_normal delete
    get set usage look_up known_bytes find_bytes forget_path shrink_rows is_part render render_parts
    is_prefix all
running = tt

normalize_tests :
    (normalize (text "//home/./ann//old/") ≡ ok (text "/home/ann/old"))
    × (normalize (text "/") ≡ ok (text "/"))
    × (normalize (text "/home/../etc") ≡ err has_parent)
    × (normalize (text "home") ≡ err not_absolute)
unfolding running
normalize_tests = (refl, refl, refl, refl)

check_tests :
    (check box (text "/home/ann/../x") ≡ err (bad_path has_parent))
    × (check box (text "/home") ≡ err top_level)
    × (check box (text "/usr/share/doc") ≡ err (system_path (text "/usr")))
    × (check box (text "/mnt/disk") ≡ err mount_point)
    × (check box (text "/home/ann") ≡ err (in_use (text "media") (text "/home/ann/films")))
unfolding running
check_tests = (refl, refl, refl, refl, refl)

delete-Removes_example :
    All (Removes box) (delete box [] (exited 0 []) (text "/home/ann/old/")).launched
delete-Removes_example = delete-Removes box [] (exited 0 []) (text "/home/ann/old/")

abbrev home_rows : List Row
home_rows =
    record {
      name = text "old";
      path = text "/home/ann/old";
      kind = dir;
      bytes = some 70;
      files = some 2;
      pending = false;
    }
    ∷ record {
      name = text "new";
      path = text "/home/ann/new";
      kind = dir;
      bytes = some 30;
      files = some 1;
      pending = false;
    }
    ∷ []

abbrev home_scan : Scan
home_scan = record {
  path = text "/home/ann";
  state = done;
  finished_at = some 100;
  items = 5;
  entries = home_rows;
}

abbrev scans : Scans
scans = (text "/home/ann", home_scan) ∷ []

scan_tests :
    (known_bytes scans (text "/home/ann/old") ≡ some 70)
    × (known_bytes (forget_path (text "/home/ann/old") (some 70) scans) (text "/home/ann/new")
        ≡ some 30)
unfolding running
scan_tests = (refl, refl)

known_bytes-forget_path_example :
    known_bytes
      (forget_path
        (render_parts ((text "home" ∷ text "ann" ∷ []) ++ text "old" ∷ []))
        (some 70)
        scans)
      (render_parts ((text "home" ∷ text "ann" ∷ []) ++ text "old" ∷ []))
    ≡ none
unfolding running
known_bytes-forget_path_example =
    known_bytes-forget_path (text "home" ∷ text "ann" ∷ []) (text "old") (some 70) scans refl

usage-Current_example :
    (used : Usage) × (usage scans 300 (text "/home/ann/") false ≡ ok used)
    × IsCurrent scans 300 false (text "/home/ann") used
unfolding running
usage-Current_example = usage-Current scans 300 (text "/home/ann/") (text "/home/ann") false refl

is_under-is_prefix_example :
    is_under (render (text "etc2" ∷ [])) (render (text "etc" ∷ []))
    ≡ under_of (text "etc2" ∷ []) (text "etc" ∷ [])
unfolding running
is_under-is_prefix_example = is_under-is_prefix (text "etc2" ∷ []) (text "etc" ∷ []) refl refl

normalize-fixed_example :
    IsNormal (text "/home/ann") × (normalize (text "/home/ann") ≡ ok (text "/home/ann"))
unfolding running
normalize-fixed_example = normalize-fixed (text "//home/ann/") (text "/home/ann") refl
