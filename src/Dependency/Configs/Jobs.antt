-- ===== src/Dependency/Configs/Jobs.antt =====
-- dependency_manager/base_config.py: the update jobs of a writable config. The config file, gsutil,
-- and the local files are an `Outside`; a session is the config object with the file and the bucket.
pub mod Atomic
use udroid.Prelude.{
  ℕ, Bool, true, false, not, ◌&&◌, ◌||◌, Option, none, some, List, [], ◌∷◌, ◌++◌, Text, is_empty,
  is_some, ◌≡◌, if◌then◌else◌, lookup,
}
use udroid.Dependency.{
  Error, value_error, read_write_error, Result, ok, err, Exec, pure, raise, continue, ◌>>=◌, ◌>>◌,
  when,
}
use udroid.Dependency.Uploads.{
  Cloud, CloudStorageUploader, Batch, new_uploader, upload_all, rollback_all,
}
use udroid.Dependency.Configs.{
  ConfigData, DependencyData, bucket_key, base_folder_key, hash_key, version_key,
  is_bare_dependency, set_platform_data, PlatformValue, value_of, whole, get_platform_data,
  cloud_storage_remote_path, same_config,
}

-- `load` gives the `dependencies` of the file (`_IsDirty`), `dump` is `_WriteConfigToFile`.
pub record Outside (F : Type 0) : Type 0 where
  pub fails : ℕ → Bool
  pub read_local : Text → Text
  pub local_exists : Text → Bool
  pub calculate_hash : Text → Result Text
  pub load : F → Result ConfigData
  pub dump : ConfigData → Exec F (Unit {0})

-- What was dumped is loaded again.
pub record RoundTrips {F : Type 0} (o : Outside F) : Type 0 where
  pub loaded : (c : ConfigData) (f : F) → (o.dump c f).0 ≡ ok tt → o.load (o.dump c f).1 ≡ ok c

pub record BaseConfig : Type 0 where
  pub writable : Bool
  pub config_data : ConfigData
  pub pending_uploads : List CloudStorageUploader

pub record Session (F : Type 0) : Type 0 where
  pub config : BaseConfig
  pub file : F
  pub cloud : Cloud

module _ {F : Type 0} (o : Outside F) where
  -- `_ValidateIsConfigWritable`
  unfoldable pub validate_writable : Exec (Session F) (Unit {0})
  validate_writable s = (if s.config.writable then ok tt else err read_write_error, s)

  abbrev pub differs : ConfigData → Result ConfigData → Result Bool
  differs c (ok stored) = ok (not (same_config c stored))
  differs c (err e) = err e

  -- `_IsDirty`
  unfoldable pub is_dirty : Exec (Session F) Bool
  is_dirty s = (differs s.config.config_data (o.load s.file), s)

  abbrev pub lacks : ConfigData → Text → Bool
  lacks c dependency = elim (lookup dependency c) [ none ↦ true | some d ↦ is_bare_dependency d ]

  abbrev pub tried : {A : Type 0} → Result A → Result (Unit {0})
  tried (ok a) = ok tt
  tried (err e) = err e

  -- The tests of `_ValidateIsConfigUpdatable` on the names; None is the empty text.
  unfoldable pub validate_names : Text → Text → Exec (Session F) (Unit {0})
  validate_names dependency platform s =
      if not (is_empty dependency) && lacks s.config.config_data dependency
      then (err value_error, s)
      else if not (is_empty platform)
      then (tried (get_platform_data dependency platform [] s.config.config_data), s)
      else (ok tt, s)

  -- `_ValidateIsConfigUpdatable`
  unfoldable pub validate_updatable : Bool → Text → Text → Exec (Session F) (Unit {0})
  unfolding validate_writable is_dirty validate_names
  validate_updatable execute_job dependency platform = do
    validate_writable
    dirty ← is_dirty
    when (dirty && execute_job) (raise read_write_error)
    validate_names dependency platform

  abbrev pub left : Session F → List CloudStorageUploader → Cloud → F → Session F
  left s us c f = record {
    config = record (s.config) { pending_uploads = us };
    file = f;
    cloud = c;
  }

  -- The `except` clause: the rollbacks, and the exception raised again unless one of them raises.
  abbrev pub undone : Session F → Error → F → Batch → Result Bool × Session F
  undone s e f (ok _, us, c) = (err e, left s us c f)
  undone s e f (err x, us, c) = (err x, left s us c f)

  abbrev pub undo :
      Session F → Error → F → List CloudStorageUploader → Cloud → Result Bool × Session F
  undo s e f us c = undone s e f (rollback_all o.fails o.read_local us c)

  abbrev pub after_write :
      Session F
      → List CloudStorageUploader
      → Cloud
      → Result (Unit {0}) × F
      → Result Bool × Session F
  after_write s us c (ok _, f) = (ok true, left s [] c f)
  after_write s us c (err e, f) = undo s e f us c

  -- What follows the loop of uploads.
  abbrev pub after_uploads : Session F → Batch → Result Bool × Session F
  after_uploads s (ok _, us, c) = after_write s us c (o.dump s.config.config_data s.file)
  after_uploads s (err e, us, c) = undo s e s.file us c

  -- ExecuteUpdateJobs of a config that is dirty.
  unfoldable pub execute_dirty : Bool → Exec (Session F) Bool
  unfolding upload_all rollback_all
  execute_dirty force s =
      if is_empty s.config.pending_uploads
      then (ok true, s)
      else after_uploads s (upload_all o.fails o.read_local force s.config.pending_uploads s.cloud)

  abbrev pub if_dirty : Bool → Bool → Exec (Session F) Bool
  if_dirty force true = execute_dirty force
  if_dirty force false = pure false

  unfoldable pub execute_update_jobs : Bool → Exec (Session F) Bool
  unfolding validate_updatable is_dirty execute_dirty
  execute_update_jobs force = do
    validate_updatable false [] []
    dirty ← is_dirty
    if_dirty force dirty

  abbrev pub with_data : Session F → Result (Unit {0}) × ConfigData → Result (Unit {0}) × Session F
  with_data s (r, c) = (r, record s { config = record (s.config) { config_data = c } })

  -- `_SetPlatformData`
  unfoldable pub set_data : Text → Text → Text → Text → Exec (Session F) (Unit {0})
  unfolding validate_writable
  set_data dependency platform data_type value = do
    validate_writable
    λ s. with_data s (set_platform_data dependency platform data_type value s.config.config_data)

  -- `_GetPlatformData`
  abbrev pub get_data : Text → Text → Text → Exec (Session F) PlatformValue
  get_data dependency platform data_type s =
      (get_platform_data dependency platform data_type s.config.config_data, s)

  abbrev pub or_none : Option Text → Text
  or_none none = []
  or_none (some t) = t

  -- The value of a key; the data types that are asked for are not empty, so it is never the whole.
  abbrev pub string_of : PlatformValue → Option Text
  string_of (value_of v) = v
  string_of (whole p) = none

  abbrev pub appended : Session F → Result CloudStorageUploader → Result (Unit {0}) × Session F
  appended s (ok u) = (
    ok tt,
    record s {
      config = record (s.config) { pending_uploads = s.config.pending_uploads ++ u ∷ [] };
    },
  )
  appended s (err e) = (err e, s)

  -- `self._pending_uploads.append(uploader.CloudStorageUploader(...))`
  unfoldable pub append_upload : Option Text → Text → Text → Exec (Session F) (Unit {0})
  append_upload bucket remote_path path s =
      appended s (new_uploader (o.local_exists path) (or_none bucket) remote_path path [])

  abbrev pub ignore : {A : Type 0} → Exec (Session F) A → Exec (Session F) (Unit {0})
  ignore m = m >>= λ _. pure tt

  -- `AddCloudStorageDependencyUpdateJob`; a version that is None is the empty text.
  unfoldable pub add_update_job : Text → Text → Text → Text → Bool → Exec (Session F) (Unit {0})
  unfolding validate_updatable set_data append_upload execute_update_jobs
  add_update_job dependency platform path version execute_job = do
    validate_updatable execute_job dependency platform
    cs_hash ← λ s. (o.calculate_hash path, s)
    when (not (is_empty version)) (set_data dependency platform version_key version)
    set_data dependency platform hash_key cs_hash
    folder ← get_data dependency platform base_folder_key
    bucket ← get_data dependency platform bucket_key
    append_upload (string_of bucket)
        (cloud_storage_remote_path dependency cs_hash (string_of folder)) path
    when execute_job (ignore (execute_update_jobs false))
