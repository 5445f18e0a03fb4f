-- ===== src/Dependency/Info/Laws.antt =====
-- When Update of a DependencyInfo is refused, and what it keeps.
use udroid.Prelude.{
  ◌≡◌, ◌↔◌, refl, true, false, ◌&&◌, ◌||◌, Option, none, some, List, [], ◌++◌, Text, is_some,
  text_eq, arith,
}
use udroid.Dependency.{value_error, ok, err}
use udroid.Dependency.LocalPaths.{LocalPathInfo, update, is_path_in_local_paths}
use udroid.Dependency.LocalPaths.Laws.{holds-update_groups}
use udroid.Dependency.Info.{DependencyInfo, update_info, update_local}

abbrev pub groups_of : Option LocalPathInfo → List (List Text)
groups_of none = []
groups_of (some info) = info.path_priority_groups

abbrev pub SameName : DependencyInfo → DependencyInfo → Type 0
SameName a b = (text_eq a.dependency b.dependency ≡ true) × (text_eq a.platform b.platform ≡ true)

-- Update returns exactly if name and platform agree and at most one side has cloud storage data.
pub update_info_returns :
    (info new : DependencyInfo)
    → ((update_info info new).0 ≡ ok tt) ↔ (
        SameName info new
        × ((is_some new.cloud_storage_info && is_some info.cloud_storage_info) ≡ false))
unfolding update_info
update_info_returns info new = (λ h. ground arith, λ h. ground arith)

holds-update_local :
    (path : Text) (a b : Option LocalPathInfo)
    → is_path_in_local_paths path (groups_of (update_local a b))
      ≡ (is_path_in_local_paths path (groups_of a) || is_path_in_local_paths path (groups_of b))
unfolding update_local update
holds-update_local path none b = unfold is_path_in_local_paths in refl
holds-update_local path (some a) none = unfold is_path_in_local_paths in ground arith
holds-update_local path (some a) (some b) =
    holds-update_groups path a.path_priority_groups b.path_priority_groups

-- An Update that returns keeps the name and the platform, appends the config paths, has exactly the
-- local paths of both, and has cloud storage data if one side had some.
pub update_info_merges :
    (info new : DependencyInfo) (path : Text)
    → (update_info info new).0 ≡ ok tt
    → ((update_info info new).1.dependency ≡ info.dependency)
      × ((update_info info new).1.platform ≡ info.platform)
      × ((update_info info new).1.config_paths ≡ info.config_paths ++ new.config_paths)
      × (is_path_in_local_paths path (groups_of (update_info info new).1.local_path_info) ≡ (
          is_path_in_local_paths path (groups_of info.local_path_info)
          || is_path_in_local_paths path (groups_of new.local_path_info)))
      × (is_some (update_info info new).1.cloud_storage_info
          ≡ (is_some info.cloud_storage_info || is_some new.cloud_storage_info))
unfolding update_info
update_info_merges info new path h = (
  ground arith,
  ground arith,
  ground arith,
  ground (arith, holds-update_local path info.local_path_info new.local_path_info),
  ground arith,
)

-- An Update that raises has extended the config paths and changed nothing else.
pub update_info_refused :
    (info new : DependencyInfo)
    → (update_info info new).0 ≡ err value_error
    → (update_info info new).1
      ≡ record info { config_paths = info.config_paths ++ new.config_paths }
unfolding update_info
update_info_refused info new h = ground arith
