-- ===== src/Dependency/Info.antt =====
-- dependency_manager/dependency_info.py: what the configs say of one dependency on one platform.
pub mod Laws
use udroid.Prelude.{
  Bool, true, false, not, ◌&&◌, ◌||◌, Option, none, some, List, [], ◌∷◌, ◌++◌, Text, is_empty,
  is_some, text_eq, if◌then◌else◌,
}
use udroid.Dependency.{value_error, Result, ok, err, Exec}
use udroid.Dependency.LocalPaths.{LocalPathInfo, update}
use udroid.Dependency.Remote.{Host, CloudStorageInfo, get_remote_path}

pub record DependencyInfo : Type 0 where
  pub dependency : Text
  pub platform : Text
  pub config_paths : List Text
  pub local_path_info : Option LocalPathInfo
  pub cloud_storage_info : Option CloudStorageInfo

-- `__init__`
unfoldable pub new_dependency_info :
    Text → Text → Text → Option LocalPathInfo → Option CloudStorageInfo → Result DependencyInfo
new_dependency_info dependency platform config_path local cloud =
    if is_empty dependency || is_empty platform
    then err value_error
    else ok (record {
      dependency = dependency;
      platform = platform;
      config_paths = config_path ∷ [];
      local_path_info = local;
      cloud_storage_info = cloud;
    })

-- The last lines of Update: the local paths.
unfoldable pub update_local : Option LocalPathInfo → Option LocalPathInfo → Option LocalPathInfo
update_local none new = new
update_local (some info) new = some (update info new)

unfoldable pub take_cloud : DependencyInfo → DependencyInfo → DependencyInfo
take_cloud info new = record info {
  cloud_storage_info =
      if is_some new.cloud_storage_info then new.cloud_storage_info else info.cloud_storage_info;
  local_path_info = update_local info.local_path_info new.local_path_info;
}

-- `Update`: the config paths are extended before the checks that may raise.
unfoldable pub update_info : DependencyInfo → DependencyInfo → Result (Unit {0}) × DependencyInfo
unfolding take_cloud update_local
update_info info new =
    let extended = record info { config_paths = info.config_paths ++ new.config_paths } in
    if not (text_eq info.dependency new.dependency) || not (text_eq info.platform new.platform)
    then (err value_error, extended)
    else if is_some new.cloud_storage_info && is_some info.cloud_storage_info
    then (err value_error, extended)
    else (ok tt, take_cloud extended new)

-- `GetRemotePath`; no cloud storage info is None.
unfoldable pub info_remote_path : {W : Type 0} → Host W → DependencyInfo → Exec W (Option Text)
info_remote_path host info w = elim info.cloud_storage_info [
  | none ↦ (ok none, w)
  | some cloud ↦ get_remote_path host cloud w
]

-- `GetRemotePathVersion`
unfoldable pub remote_path_version : DependencyInfo → Option Text
remote_path_version info = elim info.cloud_storage_info [
  | none ↦ none
  | some cloud ↦ cloud.version_in_cs
]
