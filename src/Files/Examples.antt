-- ===== src/Files/Examples.antt =====
-- files.py: `write_file` on one file, and changes on one small host.
use homelab_agent.Prelude.{
  ℕ, ◌≡◌, refl, true, false, none, some, List, [], ◌∷◌, all, list_beq, contains, keep_if, nat_eq,
  list_eq, length, Option,
}
use homelab_agent.Prelude.Text.{Text, text, starts_with, split_on, strip, strip_left, partition}
use homelab_agent.Prelude.Result.{err}
use homelab_agent.Disk.Path.{
  normalize, normpath, strip_slashes, rstrip_slashes, components, keep_component, initial_slashes,
  join_with, dirname, basename, last_part, join, count_slashes, is_under,
}
use homelab_agent.Disk.Normal.{is_part, render, render_parts}
use homelab_agent.Disk.Host.{
  Host, Lstat, missing, found, directory, symlink, FileKind, on_host, container_mounts, mounts_of,
  mounted_under, root_above, exited,
}
use homelab_agent.Files.Roots.{
  why_not_writable, root_for, longest, first_link, folder_uid, folder_uid_from, home_of, home_in,
  root_owned, linked, system, home_of,
}
use homelab_agent.Files.Change.{
  move, copy, rename, make_folder, plan_move, plan_copy, plan_rename, plan_make_folder,
  guard_source, destination, not_changeable, into_itself, already_there, is_root_folder,
}
use homelab_agent.Files.Unlinked.{why_not_writable-IsFollowed, IsFollowed}
use homelab_agent.Files.Write.{
  File, Entry, absent, regular, Site, Upload, Run, ran, broke_off, write_file, write_entry, place,
  place_script, changed_on_disk, helper_failed,
}
use homelab_agent.Files.Owner.{nearest_uid, folder_uid-nearest_uid}
use homelab_agent.Files.Safety.{IsWritten, write_file-IsWritten}

abbrev here : Upload → Site
here upload = record {
  is_name = true;
  is_writable = true;
  is_folder = true;
  upload = upload;
  now = 900;
}

abbrev notes : Entry
notes = regular (record { content = text "old"; modified = 500 })

-- the script with what it meets at the name, and where `cat` stops
abbrev run_of : Option Entry → Option File → Run
run_of meanwhile stops = record {
  appeared = none;
  meanwhile = meanwhile;
  cat_stops = stops;
  rm_fails = false;
  mv_fails = false;
  output = [];
}

running : Unit {0}
unfolding write_file write_entry place place_script
running = tt

abbrev torn : File
torn = record { content = text "n"; modified = 900 }

abbrev alone : Site
alone = here (ran (run_of none none))

-- the last: `mv -n` leaves what another has put at the name, and succeeds
run_tests :
    (write_file alone notes (text "new") true (some 500)
      ≡ (none, regular (record { content = text "new"; modified = 900 })))
    × ((write_file alone notes (text "new") true (some 501)).0 ≡ none)
    × ((write_file alone notes (text "new") true (some 502)).0 ≡ some changed_on_disk)
    × (write_file (here (ran (run_of none (some torn)))) notes (text "new") true none
        ≡ (some (helper_failed []), regular torn))
    × ((write_file (here (broke_off [] absent)) notes (text "new") true none).1 ≡ absent)
    × (write_file (here (ran (run_of (some notes) none))) absent (text "new") true none
        ≡ (none, notes))
unfolding running
run_tests = (refl, refl, refl, refl, refl, refl)

write_file-IsWritten_example :
    IsWritten alone notes
      (text "new")
      true
      (some 500)
      (write_file alone notes (text "new") true (some 500))
write_file-IsWritten_example = write_file-IsWritten alone notes (text "new") true (some 500)

abbrev stat_at : FileKind → ℕ → Lstat
stat_at kind uid = found (record { kind = kind; device = 1; uid = uid; gid = uid })

-- /home/ann is ann's, with a link to elsewhere; /srv is root's
abbrev lstat : Text → Lstat
lstat path = elim (list_beq path (text "/home/ann/link")) [
  | true ↦ stat_at symlink 1000
  | false ↦ elim (list_beq path (text "/home/ann/b/a")) [
    | true ↦ missing
    | false ↦ elim (starts_with path (text "/srv")) [
      | true ↦ stat_at directory 0
      | false ↦ stat_at directory 1000
    ]
  ]
]

abbrev box : Host
box = record { root = []; lstat = lstat; is_dir = λ path. true; running = []; known = [] }

abbrev roots : List Text
roots = text "/home/ann" ∷ []

changing : Unit {0}
unfolding normalize normpath strip_slashes rstrip_slashes components keep_component initial_slashes
    join_with dirname basename last_part join count_slashes is_under starts_with split_on strip
    strip_left partition list_beq contains keep_if on_host container_mounts mounts_of mounted_under
    root_above why_not_writable root_for longest first_link folder_uid folder_uid_from move copy
    rename make_folder plan_move plan_copy plan_rename plan_make_folder guard_source destination
    is_part render render_parts all home_of home_in
changing = tt

policy_tests :
    (why_not_writable box roots (text "/home/ann/a") ≡ none)
    × (why_not_writable box roots (text "/usr/lib") ≡ some system)
    × (why_not_writable box roots (text "/srv/data") ≡ some root_owned)
    × (why_not_writable box roots (text "/home/ann/link/x") ≡ some (linked (text "/home/ann/link")))
unfolding changing
policy_tests = (refl, refl, refl, refl)

home_tests :
    home_of
      (some (text "1000"))
      (some (text "root:x:0:0::/root:/bin/sh" ∷ text "ann:x:1000:1000::/home/ann:/bin/sh" ∷ []))
    ≡ some (text "/home/ann")
unfolding changing
home_tests = refl

change_tests :
    ((move box box roots (exited 0 []) (text "/home/ann/a") (text "/home/ann/a/b")).answer
      ≡ err into_itself)
    × ((move box box roots (exited 0 []) (text "/home/ann") (text "/home/ann2")).answer
        ≡ err is_root_folder)
    × ((copy box box roots (exited 0 []) (text "/srv/a") (text "/home/ann/c")).answer
        ≡ err already_there)
    × ((rename box box roots (exited 0 []) (text "/usr/lib") (text "x")).answer
        ≡ err (not_changeable system))
unfolding changing
change_tests = (refl, refl, refl, refl)

-- `_under` is false below the root, so a copy of it into itself is launched
root_test : length (copy box box roots (exited 0 []) (text "/") (text "/home/ann/b/a")).launched ≡ 1
unfolding changing
root_test = refl

why_not_writable-IsFollowed_example :
    IsFollowed box roots (text "home" ∷ text "ann" ∷ text "a" ∷ [])
unfolding changing
why_not_writable-IsFollowed_example =
    why_not_writable-IsFollowed box roots (text "home" ∷ text "ann" ∷ text "a" ∷ []) refl refl refl

abbrev nowhere : List Text
nowhere = text "home" ∷ text "ann" ∷ text "b" ∷ text "a" ∷ []

folder_uid-nearest_uid_example :
    folder_uid box (render nowhere)
    ≡ nearest_uid box (text "a" ∷ text "b" ∷ text "ann" ∷ text "home" ∷ [])
unfolding changing
folder_uid-nearest_uid_example = folder_uid-nearest_uid box nowhere refl

owner_tests : nearest_uid box (text "a" ∷ text "b" ∷ text "ann" ∷ text "home" ∷ []) ≡ some 1000
unfolding changing nearest_uid
owner_tests = refl
