-- ===== src/Dependency/Configs/Reading.antt =====
-- dependency_manager/base_config.py: IterDependencyInfo. os.path is a parameter; a dict is read in
-- the order of its items.
pub mod Pairs
use udroid.Prelude.{
  ℕ, zero, suc, Bool, true, false, not, ◌&&◌, ◌||◌, Option, none, some, List, [], ◌∷◌, ◌++◌, map,
  Text, codes, is_empty, ◌==◌, if◌then◌else◌, Dict, lookup,
}
use udroid.Dependency.{Error, value_error, attribute_error, read_write_error, Result, ok, err}
use udroid.Dependency.LocalPaths.{LocalPath, single, LocalPathInfo, parse_local_paths}
use udroid.Dependency.Remote.{
  ArchiveInfo, archive_has_minimum_data, CloudStorageInfo, new_cloud_storage_info,
}
use udroid.Dependency.Info.{DependencyInfo, new_dependency_info}
use udroid.Dependency.Manager.{Config}
use udroid.Dependency.Configs.{
  PlatformData, DependencyData, ConfigData, platforms, bucket_key, base_folder_key, hash_key,
  version_key, cloud_storage_remote_path,
}

pub record Paths : Type 0 where
  pub sep : ℕ
  pub dirname : Text → Text
  pub join : Text → Text → Text
  pub abspath : Text → Text

-- `text.replace(old, new)` of one character.
unfoldable pub replace : ℕ → ℕ → Text → Text
replace old new [] = []
replace old new (c ∷ text) =
    let rest = replace old new text in if c == old then new ∷ rest else c ∷ rest

-- `_FormatPath`
unfoldable pub format_path : ℕ → Text → Text
unfolding replace
format_path sep [] = []
format_path sep (c ∷ path) =
    if not (sep == b'\\')
    then replace b'\\' sep (c ∷ path)
    else if not (sep == b'/')
    then replace b'/' sep (c ∷ path)
    else c ∷ path

abbrev pub download_key : Text
download_key = codes "download_path"

abbrev pub within_archive_key : Text
within_archive_key = codes "path_within_archive"

-- `'[0-9a-f]' * 40`
abbrev pub repeated : ℕ → Text → Text
repeated zero text = []
repeated (suc n) text = text ++ repeated n text

abbrev pub hash_glob : Text
hash_glob = repeated 40 (codes "[0-9a-f]")

abbrev pub or_blank : Option Text → Text
or_blank none = []
or_blank (some t) = t

module _ (os : Paths) where
  abbrev pub absolute : Text → Text → Text
  absolute base path = os.abspath (os.join base (format_path os.sep path))

  unfoldable pub local_info_of : Text → List Text → Option LocalPathInfo
  local_info_of base [] = none
  local_info_of base (path ∷ paths) = some (record {
    path_priority_groups = parse_local_paths (map (λ p. single (absolute base p)) (path ∷ paths));
  })

  -- `ArchiveInfo.__init__`
  unfoldable pub new_archive_info : Text → Text → Text → Option Text → Result ArchiveInfo
  new_archive_info archive_file unzip_path path_within_archive stale =
      let a : ArchiveInfo = record {
        archive_file = archive_file;
        unzip_path = unzip_path;
        dependency_path = os.join unzip_path path_within_archive;
        stale_unzip_path_glob = stale;
      } in
      if archive_has_minimum_data a then ok a else err value_error

  -- `os.path.join(os.path.dirname(download_path), '%s_%s_%s' % ...)`
  abbrev pub unzipped_to : Text → Text → Text → Text → Text
  unzipped_to download_path dependency platform digest =
      os.abspath
        (os.join (os.dirname download_path) (dependency ++ b'_' ∷ platform ++ b'_' ∷ digest))

  abbrev pub some_result : {A : Type 0} → Result A → Result (Option A)
  some_result (ok a) = ok (some a)
  some_result (err e) = err e

  unfoldable pub archive_info_of : Text → Text → Text → Text → Text → Result (Option ArchiveInfo)
  unfolding new_archive_info
  archive_info_of dependency platform download_path cs_hash [] = ok none
  archive_info_of dependency platform download_path cs_hash (c ∷ path_within_archive) =
      some_result (
        new_archive_info download_path (unzipped_to download_path dependency platform cs_hash)
          (c ∷ path_within_archive)
          (some (unzipped_to download_path dependency platform hash_glob)))

  abbrev pub cloud_with_archive :
      Text
      → Text
      → Text
      → Text
      → Option Text
      → Result (Option ArchiveInfo)
      → Result (Option CloudStorageInfo)
  cloud_with_archive bucket digest download_path remote_path version (err e) = err e
  cloud_with_archive bucket digest download_path remote_path version (ok zip) = some_result (
      new_cloud_storage_info (record {
        cs_bucket = bucket;
        cs_hash = digest;
        download_path = download_path;
        cs_remote_path = remote_path;
        version_in_cs = version;
        archive_info = zip;
      }))

  -- A hash that is missing asks for exceptions.ConfigError, which exceptions.py does not have.
  abbrev pub cloud_with_hash :
      Text → DependencyData → Text → PlatformData → Text → Text → Result (Option CloudStorageInfo)
  cloud_with_hash dependency d platform p download_path [] = err attribute_error
  cloud_with_hash dependency d platform p download_path (c ∷ cs_hash) =
      cloud_with_archive (or_blank (lookup bucket_key d.strings)) (c ∷ cs_hash) download_path
        (cloud_storage_remote_path dependency (c ∷ cs_hash) (lookup base_folder_key d.strings))
        (lookup version_key p.strings)
        (archive_info_of dependency platform download_path (c ∷ cs_hash)
          (or_blank (lookup within_archive_key p.strings)))

  abbrev pub cloud_at :
      Text → Text → DependencyData → Text → PlatformData → Text → Result (Option CloudStorageInfo)
  cloud_at base dependency d platform p [] = ok none
  cloud_at base dependency d platform p (c ∷ path) =
      cloud_with_hash dependency d platform p (absolute base (c ∷ path))
        (or_blank (lookup hash_key p.strings))

  unfoldable pub cloud_info_of :
      Text → Text → DependencyData → Text → PlatformData → Result (Option CloudStorageInfo)
  unfolding archive_info_of
  cloud_info_of base dependency d platform p =
      cloud_at base dependency d platform p (or_blank (lookup download_key p.strings))

  abbrev pub listed : Option (List Text) → List Text
  listed none = []
  listed (some paths) = paths

  abbrev pub with_cloud :
      Text
      → Text
      → Text
      → Option LocalPathInfo
      → Result (Option CloudStorageInfo)
      → Result DependencyInfo
  with_cloud config_path dependency platform local (err e) = err e
  with_cloud config_path dependency platform local (ok cloud) =
      new_dependency_info dependency platform config_path local cloud

  -- The body of the inner loop.
  unfoldable pub dependency_info_of :
      Text → Text → DependencyData → Text → PlatformData → Result DependencyInfo
  unfolding cloud_info_of local_info_of
  dependency_info_of config_path dependency d platform p =
      with_cloud config_path dependency platform
        (local_info_of (os.dirname config_path) (listed p.local_paths))
        (cloud_info_of (os.dirname config_path) dependency d platform p)

  -- What a generator has yielded when it ends or raises.
  abbrev pub Yielded : Type 0
  Yielded = List DependencyInfo × Option Error

  abbrev pub yield_one : Result DependencyInfo → Yielded → Yielded
  yield_one (err e) rest = ([], some e)
  yield_one (ok info) rest = (info ∷ rest.0, rest.1)

  abbrev pub yield_all : Yielded → Yielded → Yielded
  yield_all (infos, some e) rest = (infos, some e)
  yield_all (infos, none) rest = (infos ++ rest.0, rest.1)

  unfoldable pub platform_infos : Text → Text → DependencyData → Dict PlatformData → Yielded
  unfolding dependency_info_of
  platform_infos config_path dependency d [] = ([], none)
  platform_infos config_path dependency d ((platform, p) ∷ ps) =
      yield_one (dependency_info_of config_path dependency d platform p)
        (platform_infos config_path dependency d ps)

  unfoldable pub config_infos : Text → ConfigData → Yielded
  unfolding platform_infos
  config_infos config_path [] = ([], none)
  config_infos config_path ((dependency, d) ∷ c) =
      yield_all (platform_infos config_path dependency d (platforms d)) (config_infos config_path c)

  unfoldable pub iter_dependency_info : Bool → Text → ConfigData → Yielded
  unfolding config_infos
  iter_dependency_info writable config_path c =
      if writable then ([], some read_write_error) else config_infos config_path c

  -- What the manager reads of a config.
  unfoldable pub read_config : Bool → Text → ConfigData → Config
  unfolding iter_dependency_info
  read_config writable config_path c = record {
    config_type = codes "BaseConfig";
    infos = (iter_dependency_info writable config_path c).0;
    stop = (iter_dependency_info writable config_path c).1;
  }
