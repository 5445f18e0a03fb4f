-- ===== src/Dependency/Samples.antt =====
-- The theorems about dependency_manager at concrete configs and file systems.
use udroid.Prelude.{
  ℕ, ◌≡◌, refl, Bool, true, false, not, ◌&&◌, ◌||◌, none, some, List, [], ◌∷◌, Text, codes, ltb,
  arith, is_some, contains,
}
use udroid.Dependency.{ok}
use udroid.Dependency.LocalPaths.{is_path_in_local_paths, get_local_path}
use udroid.Dependency.LocalPaths.Newest.{IsBest, get_local_path-IsBest}
use udroid.Dependency.Remote.{Host, made, KeepsFiles, CloudStorageInfo, get_remote_path}
use udroid.Dependency.Remote.Delivery.{Delivers, get_remote_path-Delivers}
use udroid.Dependency.Info.{DependencyInfo, update_info}
use udroid.Dependency.Info.Laws.{groups_of, update_info_merges}
use udroid.Dependency.Manager.{
  Config, Lookup, find, add_configs, new_manager, info_local_path, update_dependencies, add_infos,
  add_info, get_dependency_info, local_path, fetch_path_with_version, prefetch_paths,
}
use udroid.Dependency.Manager.Merging.{merged, all_infos, find-new_manager}
use udroid.Dependency.Manager.Fetching.{local_path-add_configs, IsFetched, fetch_path-IsFetched}
use udroid.Dependency.Uploads.{
  Cloud, CloudStorageUploader, set_object, upload, upload_all, rollback_all,
}
use udroid.Dependency.Uploads.Undo.{is_ok, upload_all_undone}
use udroid.Dependency.Manager.Prefetching.{prefetch_paths_sorts}

-- A file system that is the list of its files; a download adds the file that was asked for.
abbrev Files : Type 0
Files = List Text

abbrev host : Host Files
host = record {
  exists = contains;
  dirname = λ path. codes "/";
  abspath = λ path. path;
  makedirs = λ path w. (made, w);
  make_executable = λ path w. (ok tt, w);
  get_if_hash_changed = λ remote path bucket digest w. (ok tt, path ∷ w);
  glob = λ pattern w. [];
  rmtree = λ path w. (ok tt, w);
  unzip_archive = λ archive path w. (ok tt, path ∷ w);
}

host-KeepsFiles : KeepsFiles host
host-KeepsFiles = record { kept = λ path w h. h }

abbrev mtime : Text → Files → ℕ
mtime path w = 0

abbrev cloud : CloudStorageInfo
cloud = record {
  cs_bucket = codes "b";
  cs_hash = codes "h";
  download_path = codes "/d";
  cs_remote_path = codes "r";
  version_in_cs = none;
  archive_info = none;
}

-- The same dependency in an archive, whose file is where the archive is unzipped.
abbrev zipped : CloudStorageInfo
zipped = record cloud {
  archive_info = some (record {
    archive_file = codes "/d";
    unzip_path = codes "/u";
    dependency_path = codes "/u";
    stale_unzip_path_glob = none;
  });
}

abbrev groups : List (List Text)
groups = (codes "/a" ∷ codes "/b" ∷ []) ∷ (codes "/c" ∷ []) ∷ []

abbrev local_info : DependencyInfo
local_info = record {
  dependency = codes "adb";
  platform = codes "linux";
  config_paths = codes "one.json" ∷ [];
  local_path_info = some (record { path_priority_groups = groups });
  cloud_storage_info = none;
}

abbrev cloud_info : DependencyInfo
cloud_info = record {
  dependency = codes "adb";
  platform = codes "linux";
  config_paths = codes "two.json" ∷ [];
  local_path_info = some (record { path_priority_groups = (codes "/x" ∷ []) ∷ [] });
  cloud_storage_info = some cloud;
}

abbrev first_config : Config
first_config = record { config_type = codes "BaseConfig"; infos = local_info ∷ []; stop = none }

abbrev second_config : Config
second_config = record { config_type = codes "BaseConfig"; infos = cloud_info ∷ []; stop = none }

abbrev here : Files
here = codes "/b" ∷ codes "/x" ∷ []

get_local_path-IsBest_example :
    IsBest
      (λ path. contains path here)
      (λ path. 0)
      groups
      (get_local_path (λ path. contains path here) (λ path. 0) groups)
get_local_path-IsBest_example =
    get_local_path-IsBest (λ path. contains path here) (λ path. 0) groups

get_remote_path-Delivers_example : Delivers host zipped (get_remote_path host zipped here)
get_remote_path-Delivers_example = get_remote_path-Delivers host host-KeepsFiles zipped here

update_info_merges_example :
    ((update_info local_info cloud_info).1.dependency ≡ codes "adb")
    × ((update_info local_info cloud_info).1.platform ≡ codes "linux")
    × ((update_info local_info cloud_info).1.config_paths
        ≡ codes "one.json" ∷ codes "two.json" ∷ [])
    × (is_path_in_local_paths
          (codes "/x")
          (groups_of (update_info local_info cloud_info).1.local_path_info)
        ≡ (is_path_in_local_paths (codes "/x") (groups_of local_info.local_path_info)
            || is_path_in_local_paths (codes "/x") (groups_of cloud_info.local_path_info)))
    × (is_some (update_info local_info cloud_info).1.cloud_storage_info ≡ true)
unfolding update_info
update_info_merges_example = update_info_merges local_info cloud_info (codes "/x") refl

find-new_manager_example :
    find (codes "adb") (codes "linux") (new_manager (first_config ∷ second_config ∷ []) []).1
    ≡ merged (codes "adb") (codes "linux") none (all_infos (first_config ∷ second_config ∷ []))
unfolding new_manager add_configs update_dependencies add_infos add_info update_info
find-new_manager_example =
    find-new_manager (codes "adb") (codes "linux") (first_config ∷ second_config ∷ []) [] refl

abbrev known : Lookup
known = (codes "adb", (codes "linux", local_info) ∷ []) ∷ []

local_path-add_configs_example :
    local_path host mtime
      (add_configs [] (second_config ∷ []) known).1
      (codes "adb")
      (codes "linux")
      here
    ≡ (ok (codes "/b"), here)
unfolding add_configs update_dependencies add_infos add_info update_info local_path
    get_dependency_info info_local_path get_local_path
local_path-add_configs_example =
    local_path-add_configs host mtime here (codes "adb") (codes "linux") known local_info
      (second_config ∷ []) [] (codes "/b") refl refl refl

fetch_path-IsFetched_example :
    IsFetched host mtime
      (fetch_path_with_version host mtime known (codes "adb") (codes "linux") here)
fetch_path-IsFetched_example =
    fetch_path-IsFetched host mtime known (codes "adb") (codes "linux") here

prefetch_paths_sorts_example :
    (contains (codes "sh") (codes "adb" ∷ []) ≡ (
      contains (codes "sh") (codes "adb" ∷ codes "sh" ∷ [])
      && is_some (get_dependency_info (codes "sh") (codes "linux") known)))
    × (contains (codes "sh") (codes "sh" ∷ []) ≡ (
        contains (codes "sh") (codes "adb" ∷ codes "sh" ∷ [])
        && not (is_some (get_dependency_info (codes "sh") (codes "linux") known))))
unfolding prefetch_paths get_dependency_info info_local_path get_local_path
prefetch_paths_sorts_example =
    prefetch_paths_sorts host mtime known (codes "linux") 3 (codes "adb" ∷ codes "sh" ∷ []) here
      here (codes "adb" ∷ []) (codes "sh" ∷ []) (codes "sh") refl

-- Two uploads of which the second fails in its last call, after the first has overwritten a file.
abbrev fails : ℕ → Bool
fails n = ltb 3 n && ltb n 5

abbrev first_upload : CloudStorageUploader
first_upload = record {
  cs_bucket = codes "b";
  cs_remote_path = codes "r";
  local_path = codes "/l";
  cs_backup_path = some (codes "r.old");
  updated = false;
  backed_up = false;
}

abbrev second_upload : CloudStorageUploader
second_upload = record first_upload {
  cs_remote_path = codes "s";
  cs_backup_path = some (codes "s.old");
}

abbrev bucket : Cloud
bucket = record {
  object = set_object (codes "b") (codes "r") (some (codes "before")) (λ b p. none);
  calls = 0;
}

upload_all_undone_example :
    (is_ok
        (rollback_all fails
          (λ path. path)
          (upload_all fails (λ path. path) true (first_upload ∷ second_upload ∷ []) bucket).1
          (upload_all fails (λ path. path) true (first_upload ∷ second_upload ∷ []) bucket).2).0
      ≡ true)
    × ((rollback_all fails
            (λ path. path)
            (upload_all fails (λ path. path) true (first_upload ∷ second_upload ∷ []) bucket).1
            (upload_all fails
              (λ path. path)
              true
              (first_upload ∷ second_upload ∷ [])
              bucket).2).2.object
          (codes "b")
          (codes "r")
        ≡ some (codes "before"))
unfolding upload_all upload
upload_all_undone_example =
    upload_all_undone fails (λ path. path) true (first_upload ∷ second_upload ∷ []) bucket refl
      (λ n h. ground arith) (codes "b") (codes "r") refl
