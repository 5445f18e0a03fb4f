-- ===== src/Dependency/Configs/Samples.antt =====
-- The theorems about configs at a config with one dependency.
use udroid.Prelude.{
  ℕ, ◌≡◌, ◌≢◌, refl, Bool, true, false, ◌&&◌, none, some, List, [], ◌∷◌, ◌++◌, map, Text, codes,
  arith, ltb,
}
use udroid.Dependency.{Error, ok, err}
use udroid.Dependency.Uploads.{CloudStorageUploader, upload}
use udroid.Dependency.Info.{new_dependency_info}
use udroid.Dependency.Configs.{ConfigData, hash_key, bucket_key}
use udroid.Dependency.Configs.Jobs.{Outside, RoundTrips, Session, execute_update_jobs}
use udroid.Dependency.Configs.Values.{get-set_platform_data}
use udroid.Dependency.Configs.{value_of, get_platform_data, set_platform_data}
use udroid.Dependency.Configs.Jobs.Atomic.{execute_update_jobs_undone, execute_update_jobs_settles}
use udroid.Dependency.Configs.Reading.{Paths, iter_dependency_info}
use udroid.Dependency.Configs.Reading.Pairs.{name_of, iter_dependency_info_names}

-- A file that is the data it holds; gsutil fails where `fails` says so.
abbrev outside : (ℕ → Bool) → Outside ConfigData
outside fails = record {
  fails = fails;
  read_local = λ path. path;
  local_exists = λ path. true;
  calculate_hash = λ path. ok path;
  load = λ f. ok f;
  dump = λ c f. (ok tt, c);
}

outside-RoundTrips : (fails : ℕ → Bool) → RoundTrips (outside fails)
outside-RoundTrips fails = record { loaded = λ c f h. refl }

abbrev data_with : Text → ConfigData
data_with digest =
    (
      codes "adb",
      record {
        strings = (bucket_key, codes "b") ∷ [];
        file_info = some (
            (codes "linux", record { strings = (hash_key, digest) ∷ []; local_paths = none }) ∷ []);
      },
    )
    ∷ []

abbrev pending : CloudStorageUploader
pending = record {
  cs_bucket = codes "b";
  cs_remote_path = codes "adb_new";
  local_path = codes "/l";
  cs_backup_path = some (codes "adb_new.old");
  updated = false;
  backed_up = false;
}

abbrev dirty_session : List CloudStorageUploader → Session ConfigData
dirty_session us = record {
  config = record { writable = true; config_data = data_with (codes "new"); pending_uploads = us };
  file = data_with (codes "old");
  cloud = record { object = λ b p. none; calls = 0 };
}

abbrev second_call : ℕ → Bool
second_call n = ltb 0 n && ltb n 2

abbrev never : ℕ → Bool
never n = false

not_returned : {e : Error} → err e ≢ ok true
not_returned h = cc

execute_update_jobs_undone_example :
    ((execute_update_jobs (outside second_call) false (dirty_session (pending ∷ []))).1.cloud.object
        (codes "b")
        (codes "adb_new")
      ≡ none)
    × ((execute_update_jobs
          (outside second_call)
          false
          (dirty_session (pending ∷ []))).1.config.config_data
        ≡ data_with (codes "new"))
unfolding execute_update_jobs upload
execute_update_jobs_undone_example =
    execute_update_jobs_undone (outside second_call) false (dirty_session (pending ∷ []))
      (codes "b") (codes "adb_new") refl (λ n h. ground arith) refl not_returned

execute_update_jobs_settles_example :
    (ok (execute_update_jobs (outside never) false (dirty_session (pending ∷ []))).1.file
      ≡ ok (data_with (codes "new")))
    × ((execute_update_jobs (outside never) false (dirty_session (pending ∷ []))).1.config
        ≡ record { writable = true; config_data = data_with (codes "new"); pending_uploads = [] })
    × (execute_update_jobs
          (outside never)
          true
          (execute_update_jobs (outside never) false (dirty_session (pending ∷ []))).1
        ≡ (ok false, (execute_update_jobs (outside never) false (dirty_session (pending ∷ []))).1))
unfolding execute_update_jobs upload
execute_update_jobs_settles_example =
    execute_update_jobs_settles (outside never) (outside-RoundTrips never) false true
      (dirty_session (pending ∷ [])) refl refl

abbrev paths : Paths
paths = record { sep = b'/'; dirname = λ p. codes "/"; join = λ a b. a ++ b; abspath = λ p. p }

iter_dependency_info_names_example :
    map name_of (iter_dependency_info paths false (codes "/c.json") (data_with (codes "h"))).0
    ≡ (codes "adb", codes "linux", codes "/c.json" ∷ []) ∷ []
unfolding iter_dependency_info new_dependency_info
iter_dependency_info_names_example =
    iter_dependency_info_names paths false (codes "/c.json") (data_with (codes "h")) refl

get-set_platform_data_example :
    get_platform_data
      (codes "adb")
      (codes "linux")
      hash_key
      (set_platform_data
        (codes "adb")
        (codes "linux")
        hash_key
        (codes "new")
        (data_with (codes "old"))).1
    ≡ ok (value_of (some (codes "new")))
unfolding set_platform_data
get-set_platform_data_example =
    get-set_platform_data (codes "adb") (codes "linux") hash_key (codes "new")
      (data_with (codes "old")) refl refl
