-- ===== src/Dependency/Remote.antt =====
-- dependency_manager/cloud_storage_info.py and archive_info.py: the path of a dependency that is
-- downloaded, and unzipped if need be. The file system, gsutil and the zip module are a `Host`.
pub mod Delivery
use udroid.Prelude.{
  ◌≡◌, refl, Bool, true, false, not, ◌&&◌, ◌||◌, Option, none, some, List, [], ◌∷◌, Text, arith,
  is_empty, if◌then◌else◌, is_some, Bool-cases, inl, inr,
}
use udroid.Dependency.{
  Error, value_error, attribute_error, file_not_found_error, archive_error, os_error, Result, ok,
  err, Exec, pure, raise, ◌>>=◌, ◌>>◌, when, continue,
}

-- What os.makedirs did: EEXIST is told from the other errors.
pub data MadeDirs : Type 0 where
  made already_there failed : MadeDirs

pub record Host (W : Type 0) : Type 0 where
  pub exists : Text → W → Bool
  pub dirname : Text → Text
  pub abspath : Text → Text
  pub makedirs : Text → W → MadeDirs × W
  pub make_executable : Text → Exec W (Unit {0})
  pub get_if_hash_changed : Text → Text → Text → Text → Exec W (Unit {0})
  pub glob : Text → W → List Text
  pub rmtree : Text → Exec W (Unit {0})
  pub unzip_archive : Text → Text → Exec W (Unit {0})

-- os.chmod leaves the file where it is.
pub record KeepsFiles {W : Type 0} (host : Host W) : Type 0 where
  pub kept :
      (path : Text) (w : W)
      → host.exists path w ≡ true
      → host.exists path (host.make_executable path w).1 ≡ true

pub record ArchiveInfo : Type 0 where
  pub archive_file : Text
  pub unzip_path : Text
  pub dependency_path : Text
  pub stale_unzip_path_glob : Option Text

pub record CloudStorageInfo : Type 0 where
  pub cs_bucket : Text
  pub cs_hash : Text
  pub download_path : Text
  pub cs_remote_path : Text
  pub version_in_cs : Option Text
  pub archive_info : Option ArchiveInfo

-- `all([bucket, remote_path, download_path, hash])`
pub has_minimum_data : CloudStorageInfo → Bool
has_minimum_data c =
    not (is_empty c.cs_bucket)
    && not (is_empty c.cs_remote_path)
    && not (is_empty c.download_path)
    && not (is_empty c.cs_hash)

-- `CloudStorageInfo.__init__`
unfoldable pub new_cloud_storage_info : CloudStorageInfo → Result CloudStorageInfo
new_cloud_storage_info c = if has_minimum_data c then ok c else err value_error

pub archive_has_minimum_data : ArchiveInfo → Bool
archive_has_minimum_data a =
    not (is_empty a.archive_file) && not (is_empty a.unzip_path) && not (is_empty a.dependency_path)

module _ {W : Type 0} (host : Host W) where
  open host use {
    exists, dirname, abspath, makedirs, make_executable, get_if_hash_changed, glob, rmtree,
    unzip_archive,
  }

  -- The message of the error reads a field that no ArchiveInfo has.
  pub should_unzip_archive : ArchiveInfo → Exec W Bool
  should_unzip_archive a w =
      if archive_has_minimum_data a
      then (ok (not (exists a.dependency_path w)), w)
      else (err attribute_error, w)

  pub remove_all : List Text → Exec W (Unit {0})
  remove_all [] = pure tt
  remove_all (path ∷ paths) = do rmtree path; remove_all paths

  pub remove_stale : Option Text → Exec W (Unit {0})
  remove_stale none w = (ok tt, w)
  remove_stale (some pattern) w =
      if is_empty pattern then (ok tt, w) else remove_all (glob pattern w) w

  -- The block under `if self.ShouldUnzipArchive()`.
  pub unzip : ArchiveInfo → Exec W (Unit {0})
  unzip a = do
    remove_stale a.stale_unzip_path_glob
    unzip_archive a.archive_file a.unzip_path
    still ← should_unzip_archive a
    if still then raise archive_error else pure tt

  pub get_unzipped_path : ArchiveInfo → Exec W Text
  get_unzipped_path a = do
    should ← should_unzip_archive a
    when should (unzip a)
    pure a.dependency_path

  pub ensure_directory : Text → Exec W (Unit {0})
  ensure_directory path w =
      if exists path w
      then (ok tt, w)
      else let (made_dirs, w') = makedirs path w in
        (elim made_dirs [ failed ↦ err os_error | _ ↦ ok tt ], w')

  pub require_file : Text → Exec W (Unit {0})
  require_file path w = (if exists path w then ok tt else err file_not_found_error, w)

  -- The path of what was downloaded: the archive's, or the file itself, made executable.
  pub dependency_path_of : Text → Option ArchiveInfo → Exec W Text
  dependency_path_of path none = do make_executable path; pure path
  dependency_path_of path (some a) = get_unzipped_path a

  pub fetch : CloudStorageInfo → Exec W (Option Text)
  fetch c = do
    ensure_directory (dirname c.download_path)
    get_if_hash_changed c.cs_remote_path c.download_path c.cs_bucket c.cs_hash
    require_file c.download_path
    path ← dependency_path_of c.download_path c.archive_info
    pure (some (abspath path))

  -- `none` is Python's None.
  pub get_remote_path : CloudStorageInfo → Exec W (Option Text)
  get_remote_path c = if has_minimum_data c then fetch c else pure none
