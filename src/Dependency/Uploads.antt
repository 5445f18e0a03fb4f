-- ===== src/Dependency/Uploads.antt =====
-- dependency_manager/uploader.py: class CloudStorageUploader. Cloud storage (py_utils.cloud_storage,
-- which runs gsutil) is the content of each object and the number of calls so far; the parameter
-- `fails` says of each call whether it raises CloudStorageError, with nothing changed.
pub mod Undo
use udroid.Prelude.{
  ℕ, suc, Bool, true, false, not, ◌&&◌, ◌||◌, Option, none, some, List, [], ◌∷◌, ◌++◌, Text, codes,
  is_empty, is_some, text_eq, if◌then◌else◌,
}
use udroid.Dependency.{
  Error, value_error, cloud_storage_error, upload_conflict_error, Result, ok, err, Exec, pure,
  raise, continue, ◌>>=◌, ◌>>◌,
}

-- `object bucket path` is the content of an object that exists.
pub record Cloud : Type 0 where
  pub object : Text → Text → Option Text
  pub calls : ℕ

abbrev pub set_object :
    Text → Text → Option Text → (Text → Text → Option Text) → Text → Text → Option Text
set_object bucket path content object b p =
    if text_eq b bucket && text_eq p path then content else object b p

pub record CloudStorageUploader : Type 0 where
  pub cs_bucket : Text
  pub cs_remote_path : Text
  pub local_path : Text
  pub cs_backup_path : Option Text
  pub updated : Bool
  pub backed_up : Bool

abbrev pub backup_extension : Text
backup_extension = codes "old"

-- `cs_backup_path or '%s.%s' % (remote_path, 'old')`
unfoldable pub backup_of : Text → Text → Text
backup_of remote_path backup_path =
    if is_empty backup_path then remote_path ++ (b'.' ∷ backup_extension) else backup_path

-- `__init__`; the first argument is what os.path.exists says of the local path.
unfoldable pub new_uploader : Bool → Text → Text → Text → Text → Result CloudStorageUploader
unfolding backup_of
new_uploader local_exists bucket remote_path local_path backup_path =
    if is_empty bucket || is_empty remote_path || is_empty local_path
    then err value_error
    else if not local_exists
    then err value_error
    else ok (record {
      cs_bucket = bucket;
      cs_remote_path = remote_path;
      local_path = local_path;
      cs_backup_path = some (backup_of remote_path backup_path);
      updated = false;
      backed_up = false;
    })

-- `'%s' % path` of a path that Rollback has set to None.
abbrev pub path_text : Option Text → Text
path_text none = codes "None"
path_text (some path) = path

-- What an upload works on.
pub record Uploading : Type 0 where
  pub item : CloudStorageUploader
  pub cloud : Cloud

-- What a loop over the uploads leaves.
abbrev pub Batch : Type 0
Batch = Result (Unit {0}) × List CloudStorageUploader × Cloud

module _ (fails : ℕ → Bool) (read_local : Text → Text) where
  abbrev pub called : Cloud → Cloud
  called c = record c { calls = suc c.calls }

  -- Exists
  unfoldable pub cloud_exists : Text → Text → Exec Cloud Bool
  cloud_exists bucket path c =
      if fails c.calls
      then (err cloud_storage_error, called c)
      else (ok (is_some (c.object bucket path)), called c)

  abbrev pub copied : Text → Text → Cloud → Option Text → Result (Unit {0}) × Cloud
  copied bucket path c none = (err cloud_storage_error, called c)
  copied bucket path c (some content) =
      (ok tt, record (called c) { object = set_object bucket path (some content) c.object })

  -- Copy within a bucket; a source that is not there raises NotFoundError, a CloudStorageError.
  unfoldable pub cloud_copy : Text → Text → Text → Exec Cloud (Unit {0})
  cloud_copy bucket from to c =
      if fails c.calls
      then (err cloud_storage_error, called c)
      else copied bucket to c (c.object bucket from)

  -- Insert
  unfoldable pub cloud_insert : Text → Text → Text → Exec Cloud (Unit {0})
  cloud_insert bucket path local_path c =
      if fails c.calls then (err cloud_storage_error, called c) else (
        ok tt,
        record (called c) {
          object = set_object bucket path (some (read_local local_path)) c.object;
        },
      )

  -- Delete; an object that is not there raises.
  unfoldable pub cloud_delete : Text → Text → Exec Cloud (Unit {0})
  cloud_delete bucket path c =
      if fails c.calls || not (is_some (c.object bucket path))
      then (err cloud_storage_error, called c)
      else (ok tt, record (called c) { object = set_object bucket path none c.object })

  abbrev pub after_backup :
      CloudStorageUploader → Result (Unit {0}) × Cloud → Result (Unit {0}) × Uploading
  after_backup u (ok _, c) = (ok tt, record { item = record u { backed_up = true }; cloud = c })
  after_backup u (err e, c) = (err e, record { item = u; cloud = c })

  -- The backup that Upload makes of an object that is there.
  unfoldable pub back_up : CloudStorageUploader → Cloud → Result (Unit {0}) × Uploading
  back_up u c =
      after_backup u (cloud_copy u.cs_bucket u.cs_remote_path (path_text u.cs_backup_path) c)

  abbrev pub after_insert :
      CloudStorageUploader → Result (Unit {0}) × Cloud → Result (Unit {0}) × Uploading
  after_insert u (ok _, c) = (ok tt, record { item = record u { updated = true }; cloud = c })
  after_insert u (err e, c) = (err e, record { item = u; cloud = c })

  unfoldable pub insert_file : CloudStorageUploader → Cloud → Result (Unit {0}) × Uploading
  insert_file u c = after_insert u (cloud_insert u.cs_bucket u.cs_remote_path u.local_path c)

  abbrev pub then_insert : Result (Unit {0}) × Uploading → Result (Unit {0}) × Uploading
  then_insert (ok _, s) = insert_file s.item s.cloud
  then_insert (err e, s) = (err e, s)

  -- Upload after the call of Exists.
  abbrev pub upload_known :
      Bool → CloudStorageUploader → Result Bool × Cloud → Result (Unit {0}) × Uploading
  upload_known force u (err e, c) = (err e, record { item = u; cloud = c })
  upload_known force u (ok false, c) = insert_file u c
  upload_known force u (ok true, c) =
      if force
      then then_insert (back_up u c)
      else (err upload_conflict_error, record { item = u; cloud = c })

  unfoldable pub upload : Bool → CloudStorageUploader → Cloud → Result (Unit {0}) × Uploading
  unfolding cloud_exists back_up insert_file cloud_copy cloud_insert
  upload force u c = upload_known force u (cloud_exists u.cs_bucket u.cs_remote_path c)

  abbrev pub after_copy_back :
      CloudStorageUploader → Result (Unit {0}) × Cloud → Result Bool × Uploading
  after_copy_back u (ok _, c) =
      (ok true, record { item = record u { cs_backup_path = none; updated = false }; cloud = c })
  after_copy_back u (err e, c) = (err e, record { item = u; cloud = c })

  abbrev pub after_delete :
      CloudStorageUploader → Result (Unit {0}) × Cloud → Result Bool × Uploading
  after_delete u (ok _, c) = (ok true, record { item = record u { updated = false }; cloud = c })
  after_delete u (err e, c) = (err e, record { item = u; cloud = c })

  -- Rollback; the result says whether cloud storage was changed.
  unfoldable pub rollback : CloudStorageUploader → Cloud → Result Bool × Uploading
  unfolding cloud_copy cloud_delete
  rollback u c =
      if u.backed_up
      then after_copy_back u
          (cloud_copy u.cs_bucket (path_text u.cs_backup_path) u.cs_remote_path c)
      else if u.updated
      then after_delete u (cloud_delete u.cs_bucket u.cs_remote_path c)
      else (ok false, record { item = record u { updated = false }; cloud = c })

  -- The items after one that raises stay as they are.
  abbrev pub next_upload :
      (Cloud → Batch) → List CloudStorageUploader → Result (Unit {0}) × Uploading → Batch
  next_upload rest us (ok _, s) = let (r, us', c) = rest s.cloud in (r, s.item ∷ us', c)
  next_upload rest us (err e, s) = (err e, s.item ∷ us, s.cloud)

  -- The loop over the pending uploads.
  unfoldable pub upload_all : Bool → List CloudStorageUploader → Cloud → Batch
  upload_all force [] c = (ok tt, [], c)
  upload_all force (u ∷ us) c = next_upload (upload_all force us) us (upload force u c)

  abbrev pub rolled_back : List CloudStorageUploader → Result Bool × Uploading → Batch
  rolled_back us (ok changed, s) = (ok tt, s.item ∷ us, s.cloud)
  rolled_back us (err e, s) = (err e, s.item ∷ us, s.cloud)

  abbrev pub next_rollback : CloudStorageUploader → Batch → Batch
  next_rollback u (ok _, us, c) = rolled_back us (rollback u c)
  next_rollback u (err e, us, c) = (err e, u ∷ us, c)

  -- `for upload_item in reversed(...): upload_item.Rollback()`
  unfoldable pub rollback_all : List CloudStorageUploader → Cloud → Batch
  unfolding rollback
  rollback_all [] c = (ok tt, [], c)
  rollback_all (u ∷ us) c = next_rollback u (rollback_all us c)
