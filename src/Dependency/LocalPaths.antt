-- ===== src/Dependency/LocalPaths.antt =====
-- dependency_manager/local_path_info.py: groups of local paths in decreasing priority. What the
-- file system says of a path, os.path.exists and st_mtime, is a parameter.
pub mod Laws
pub mod Newest
use udroid.Prelude.{
  ℕ, Bool, true, false, ◌||◌, Option, none, some, List, [], ◌∷◌, ◌++◌, Text, ltb, is_empty,
  if◌then◌else◌, contains,
}

-- An entry of `local_paths` in a config: one path, or a group.
pub data LocalPath : Type 0 where
  single : Text → LocalPath
  group : List Text → LocalPath

pub record LocalPathInfo : Type 0 where
  pub path_priority_groups : List (List Text)

unfoldable pub parse_local_paths : List LocalPath → List (List Text)
parse_local_paths [] = []
parse_local_paths (single path ∷ rest) = (path ∷ []) ∷ parse_local_paths rest
parse_local_paths (group paths ∷ rest) = paths ∷ parse_local_paths rest

unfoldable pub is_path_in_local_paths : Text → List (List Text) → Bool
is_path_in_local_paths path [] = false
is_path_in_local_paths path (paths ∷ groups) =
    contains path paths || is_path_in_local_paths path groups

-- `group_list` of Update: the paths that no group holds yet.
unfoldable pub group_list : List (List Text) → List Text → List Text
group_list groups [] = []
group_list groups (path ∷ paths) =
    let rest = group_list groups paths in
    if is_path_in_local_paths path groups then rest else path ∷ rest

unfoldable pub append_group : List (List Text) → List Text → List (List Text)
append_group groups paths = if is_empty paths then groups else groups ++ paths ∷ []

unfoldable pub update_groups : List (List Text) → List (List Text) → List (List Text)
unfolding append_group group_list is_path_in_local_paths
update_groups groups [] = groups
update_groups groups (paths ∷ rest) =
    update_groups (append_group groups (group_list groups paths)) rest

-- `Update(local_path_info)`; no info changes nothing.
unfoldable pub update : LocalPathInfo → Option LocalPathInfo → LocalPathInfo
unfolding update_groups
update info none = info
update info (some new) = record {
  path_priority_groups = update_groups info.path_priority_groups new.path_priority_groups;
}

-- `filter(os.path.exists, priority_group)`
unfoldable pub existing : (Text → Bool) → List Text → List Text
existing exists [] = []
existing exists (path ∷ paths) =
    let rest = existing exists paths in if exists path then path ∷ rest else rest

-- `max(..., key=mtime)` keeps the first of equal keys.
unfoldable pub newer : (Text → ℕ) → Text → Text → Text
newer mtime best path = if ltb (mtime best) (mtime path) then path else best

unfoldable pub newest : (Text → ℕ) → Text → List Text → Text
unfolding newer
newest mtime best [] = best
newest mtime best (path ∷ paths) = newest mtime (newer mtime best path) paths

unfoldable pub get_local_path : (Text → Bool) → (Text → ℕ) → List (List Text) → Option Text
unfolding existing newest
get_local_path exists mtime [] = none
get_local_path exists mtime (paths ∷ groups) =
    let rest = get_local_path exists mtime groups in
    elim (existing exists paths) [ [] ↦ rest | path ∷ others ↦ some (newest mtime path others) ]
