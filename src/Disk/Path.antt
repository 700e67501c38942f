-- ===== src/Disk/Path.antt =====
-- disk_usage.py: `normalize` and the parts of posixpath that the agent uses; disk_delete.py: `_under`.
use homelab_agent.Prelude.{
  ℕ, ◌+◌, ◌-◌, Bool, not, ◌&&◌, ◌||◌, List, [], ◌∷◌, ◌++◌, if◌then◌else◌, eqb, ◌==◌, contains,
  length, take, drop, nat_eq, list_eq,
}
use homelab_agent.Prelude.Text.{Text, text, starts_with, split_on}
use homelab_agent.Prelude.Result.{Result, ok, err}
use mathlib.Core.List.{reverse}

abbrev pub slash : ℕ
slash = 47

-- sep.join(parts)
unfoldable pub join_with : Text → List Text → Text
join_with sep [] = []
join_with sep (part ∷ parts) =
    let rest = join_with sep parts in elim parts [ [] ↦ part | _ ∷ _ ↦ part ++ sep ++ rest ]

-- s.lstrip("/") and s.rstrip("/")
unfoldable pub strip_slashes : Text → Text
strip_slashes [] = []
strip_slashes (c ∷ s) = let rest = strip_slashes s in if eqb c slash then rest else c ∷ s

unfoldable pub rstrip_slashes : Text → Text
unfolding strip_slashes
rstrip_slashes s = reverse (strip_slashes (reverse s))

-- one component of `normpath`; what is kept so far stands with the last one first
unfoldable pub keep_component : Bool → List Text → Text → List Text
keep_component absolute kept part =
    if part == [] || part == text "."
    then kept
    else if not (part == text "..") || not absolute && kept == [] || take 1 kept == text ".." ∷ []
    then part ∷ kept
    else drop 1 kept

unfoldable pub components : Bool → List Text → List Text → List Text
components absolute kept [] = reverse kept
components absolute kept (part ∷ parts) =
    components absolute (keep_component absolute kept part) parts

-- how many slashes `normpath` puts in front
unfoldable pub initial_slashes : Text → Text
unfolding starts_with
initial_slashes path =
    if not (starts_with path (text "/"))
    then []
    else if starts_with path (text "//") && not (starts_with path (text "///"))
    then text "//"
    else text "/"

-- posixpath.normpath
unfoldable pub normpath : Text → Text
normpath path =
    let front = initial_slashes path in
    let whole =
      front
      ++ join_with (text "/") (components (starts_with path (text "/")) [] (split_on slash path)) in
    if whole == [] then text "." else whole

pub data PathError : Type 0 where
  not_absolute has_parent : PathError

unfoldable pub normalize : Text → Result PathError Text
normalize path =
    if path == [] || not (starts_with path (text "/"))
    then err not_absolute
    else if contains (split_on slash path) (text "..")
    then err has_parent
    else let whole = normpath (slash ∷ strip_slashes path) in
      ok (if whole == [] then text "/" else whole)

-- posixpath.split: the head without its last slashes, and what follows the last slash
unfoldable pub last_part : Text → List Text → Text
last_part part [] = part
last_part part (next ∷ parts) = last_part next parts

unfoldable pub basename : Text → Text
unfolding last_part
basename path = last_part [] (split_on slash path)

unfoldable pub dirname : Text → Text
dirname path =
    let head = take (length path - length (basename path)) path in
    if strip_slashes head == [] then head else rstrip_slashes head

-- posixpath.join of two
unfoldable pub join : Text → Text → Text
join folder name =
    if starts_with name (text "/")
    then name
    else if folder == [] || basename folder == []
    then folder ++ name
    else folder ++ text "/" ++ name

-- path.count("/")
unfoldable pub count_slashes : Text → ℕ
count_slashes [] = 0
count_slashes (c ∷ s) = (if eqb c slash then 1 else 0) + count_slashes s

-- _under
unfoldable pub is_under : Text → Text → Bool
unfolding starts_with
is_under path root = path == root || starts_with path (root ++ text "/")

-- path.startswith(folder.rstrip("/") + "/")
abbrev pub is_above_text : Text → Text → Bool
is_above_text folder path = starts_with path (rstrip_slashes folder ++ text "/")
