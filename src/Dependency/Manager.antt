-- ===== src/Dependency/Manager.antt =====
-- dependency_manager/manager.py: class DependencyManager. A config is what the manager reads of it:
-- its type, and the infos that IterDependencyInfo yields before it ends or raises.
pub mod Merging
pub mod Fetching
pub mod Prefetching
use udroid.Prelude.{
  ℕ, zero, suc, ◌+◌, Bool, true, false, not, ◌&&◌, ◌||◌, Option, none, some, List, [], ◌∷◌, ◌++◌,
  Text, codes, is_empty, is_some, contains, text_eq, if◌then◌else◌, Dict, lookup, insert, map,
}
use udroid.Dependency.{
  Error, unsupported_config_format_error, no_path_found_error, cloud_storage_error,
  upload_conflict_error, Result, ok, err, Exec, pure, raise, continue, ◌>>=◌, ◌>>◌,
}
use udroid.Dependency.LocalPaths.{get_local_path}
use udroid.Dependency.Remote.{Host}
use udroid.Dependency.Info.{DependencyInfo, update_info, info_remote_path, remote_path_version}
use udroid.Dependency.Info.Laws.{groups_of}

pub record Config : Type 0 where
  pub config_type : Text
  pub infos : List DependencyInfo
  pub stop : Option Error

-- `_lookup_dict`: by dependency, then by platform.
abbrev pub Lookup : Type 0
Lookup = Dict (Dict DependencyInfo)

abbrev pub default_type : Text
default_type = codes "default"

abbrev pub or_empty : Option (Dict DependencyInfo) → Dict DependencyInfo
or_empty none = []
or_empty (some platforms) = platforms

abbrev pub platforms_of : Text → Lookup → Dict DependencyInfo
platforms_of dependency l = or_empty (lookup dependency l)

-- `self._lookup_dict[dependency][platform]`, if it is there.
abbrev pub find : Text → Text → Lookup → Option DependencyInfo
find dependency platform l = lookup platform (platforms_of dependency l)

abbrev pub store : DependencyInfo → Text → Text → Lookup → Lookup
store info dependency platform l =
    insert dependency (insert platform info (platforms_of dependency l)) l

-- The body of the loop in `_UpdateDependencies`.
unfoldable pub add_info : DependencyInfo → Exec Lookup (Unit {0})
add_info info l = elim (find info.dependency info.platform l) [
  | none ↦ (ok tt, store info info.dependency info.platform l)
  | some old ↦
      let (r, updated) = update_info old info in (r, store updated info.dependency info.platform l)
]

unfoldable pub add_infos : List DependencyInfo → Option Error → Exec Lookup (Unit {0})
add_infos [] none l = (ok tt, l)
add_infos [] (some e) l = (err e, l)
add_infos (info ∷ infos) stop l = continue (add_info info l) (λ _. add_infos infos stop)

-- `_UpdateDependencies`
unfoldable pub update_dependencies : List Text → Config → Exec Lookup (Unit {0})
update_dependencies supported config l =
    if not (is_empty supported) && not (contains config.config_type supported)
    then (err unsupported_config_format_error, l)
    else add_infos config.infos config.stop l

-- `__init__`
unfoldable pub add_configs : List Text → List Config → Exec Lookup (Unit {0})
add_configs supported [] l = (ok tt, l)
add_configs supported (config ∷ configs) l =
    continue (update_dependencies supported config l) (λ _. add_configs supported configs)

unfoldable pub new_manager : List Config → List Text → Result (Unit {0}) × Lookup
new_manager configs supported = add_configs supported configs []

-- `_GetDependencyInfo`
unfoldable pub get_dependency_info : Text → Text → Lookup → Option DependencyInfo
get_dependency_info dependency platform l = elim (lookup dependency l) [
  | none ↦ none
  | some platforms ↦
      lookup (if is_some (lookup platform platforms) then platform else default_type) platforms
]

-- What PrefetchPaths makes of one dependency.
pub data Outcome : Type 0 where
  found skipped missing : Outcome

abbrev pub truthy : Option Text → Bool
truthy none = false
truthy (some path) = not (is_empty path)

-- `found_deps`, `skipped_deps` and `missing_deps`
pub record Prefetched : Type 0 where
  pub found_deps : List Text
  pub skipped_deps : List Text
  pub missing_deps : List Text

unfoldable pub tally : Prefetched → Text → Outcome → Prefetched
tally p dependency found = record p { found_deps = p.found_deps ++ dependency ∷ [] }
tally p dependency skipped = record p { skipped_deps = p.skipped_deps ++ dependency ∷ [] }
tally p dependency missing = record p { missing_deps = p.missing_deps ++ dependency ∷ [] }

abbrev pub keys : Lookup → List Text
keys [] = []
keys ((k, v) ∷ l) = k ∷ keys l

-- What follows the loop of PrefetchPaths. The error carries the names that the source joins.
abbrev pub prefetch_result : {W : Type 0} → Text → Prefetched → Exec W (List Text × List Text)
prefetch_result platform p w = (
  if is_empty p.missing_deps
      then ok (p.found_deps, p.skipped_deps)
      else err (no_path_found_error p.missing_deps platform),
  w,
)

module _ {W : Type 0} (host : Host W) (mtime : Text → W → ℕ) where
  -- `DependencyInfo.GetLocalPath`
  unfoldable pub info_local_path : DependencyInfo → W → Option Text
  info_local_path info w =
      get_local_path (λ path. host.exists path w) (λ path. mtime path w)
        (groups_of info.local_path_info)

  -- `not path or not os.path.exists(path)`
  unfoldable pub is_missing : Option Text → W → Bool
  is_missing none w = true
  is_missing (some path) w = is_empty path || not (host.exists path w)

  -- A path that is used only if it is there.
  unfoldable pub require_path : Text → Text → Option Text → Exec W Text
  unfolding is_missing
  require_path dependency platform none w =
      (err (no_path_found_error (dependency ∷ []) platform), w)
  require_path dependency platform (some path) w =
      if is_missing (some path) w
      then (err (no_path_found_error (dependency ∷ []) platform), w)
      else (ok path, w)

  unfoldable pub fetch_remote : Text → Text → DependencyInfo → Exec W (Text × Option Text)
  unfolding require_path
  fetch_remote dependency platform info = do
    path ← info_remote_path host info
    there ← require_path dependency platform path
    pure (there, remote_path_version info)

  -- The rest of FetchPathWithVersion, at the local path.
  unfoldable pub fetch_from :
      Text → Text → DependencyInfo → Option Text → Exec W (Text × Option Text)
  unfolding fetch_remote
  fetch_from dependency platform info none w = fetch_remote dependency platform info w
  fetch_from dependency platform info (some path) w =
      if is_missing (some path) w
      then fetch_remote dependency platform info w
      else (ok (path, none), w)

  unfoldable pub fetch_path_with_version : Lookup → Text → Text → Exec W (Text × Option Text)
  unfolding fetch_from
  fetch_path_with_version l dependency platform w =
      elim (get_dependency_info dependency platform l) [
        | none ↦ (err (no_path_found_error (dependency ∷ []) platform), w)
        | some info ↦ fetch_from dependency platform info (info_local_path info w) w
      ]

  unfoldable pub fetch_path : Lookup → Text → Text → Exec W Text
  unfolding fetch_path_with_version
  fetch_path l dependency platform = do
    fetched ← fetch_path_with_version l dependency platform
    pure fetched.0

  -- `LocalPath`
  unfoldable pub local_path : Lookup → Text → Text → Exec W Text
  unfolding require_path
  local_path l dependency platform w = elim (get_dependency_info dependency platform l) [
    | none ↦ (err (no_path_found_error (dependency ∷ []) platform), w)
    | some info ↦ require_path dependency platform (info_local_path info w) w
  ]

  -- `except exceptions.CloudStorageError: continue`, or `break`.
  unfoldable pub retry_after :
      Result (Option Text) × W → Exec W (Option Text) → Result (Option Text) × W
  retry_after (ok path, w) again = (ok path, w)
  retry_after (err cloud_storage_error, w) again = again w
  retry_after (err upload_conflict_error, w) again = again w
  retry_after (err e, w) again = (err e, w)

  -- The tries of GetRemotePath that PrefetchPaths makes; after the last failure there is no path.
  unfoldable pub try_remote : ℕ → DependencyInfo → Exec W (Option Text)
  unfolding retry_after
  try_remote zero info w = (ok none, w)
  try_remote (suc tries) info w =
      retry_after (info_remote_path host info w) (λ w'. try_remote tries info w')

  unfoldable pub prefetch_missing_locally : ℕ → DependencyInfo → Exec W Outcome
  unfolding try_remote
  prefetch_missing_locally retries info = do
    path ← try_remote (retries + 1) info
    pure (if truthy path then found else missing)

  -- The body of the loop of PrefetchPaths.
  unfoldable pub prefetch_one : Lookup → Text → ℕ → Text → Exec W Outcome
  unfolding prefetch_missing_locally
  prefetch_one l platform retries dependency w = elim (get_dependency_info dependency platform l) [
    | none ↦ (ok skipped, w)
    | some info ↦
        if truthy (info_local_path info w)
        then (ok found, w)
        else prefetch_missing_locally retries info w
  ]

  unfoldable pub prefetch_loop : Lookup → Text → ℕ → List Text → Prefetched → Exec W Prefetched
  unfolding prefetch_one tally
  prefetch_loop l platform retries [] p w = (ok p, w)
  prefetch_loop l platform retries (dependency ∷ dependencies) p w =
      continue (prefetch_one l platform retries dependency w)
        (λ outcome. prefetch_loop l platform retries dependencies (tally p dependency outcome))

  unfoldable pub prefetch_paths : Lookup → Text → List Text → ℕ → Exec W (List Text × List Text)
  unfolding prefetch_loop
  prefetch_paths l platform dependencies retries = do
    p ←
        prefetch_loop l platform retries (if is_empty dependencies then keys l else dependencies)
          (record { found_deps = []; skipped_deps = []; missing_deps = [] })
    prefetch_result platform p
