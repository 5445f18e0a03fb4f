-- ===== src/Dependency/Remote/Delivery.antt =====
-- GetRemotePath returns only what is there.
use udroid.Prelude.{
  ◌≡◌, refl, ap, Bool, true, false, not, Option, none, some, Text, arith, if◌then◌else◌, Bool-cases,
  inl, inr,
}
use udroid.Dependency.{archive_error, Result, ok, err, pure, raise, when, bind_rule, Any}
use udroid.Dependency.Remote.{
  Host, KeepsFiles, ArchiveInfo, CloudStorageInfo, has_minimum_data, archive_has_minimum_data,
  should_unzip_archive, unzip, get_unzipped_path, require_file, dependency_path_of, fetch,
  get_remote_path, ensure_directory, remove_stale,
}

module _ {W : Type 0} (host : Host W) where
  -- The path that is returned is `place`, and exists in the world that is left.
  abbrev IsThere : Text → Result Text × W → Type 0
  IsThere place (ok path, w) = (path ≡ place) × (host.exists place w ≡ true)
  IsThere place (err e, w) = Unit

  -- Where a dependency is found that is downloaded to a path: there, or in what is unzipped.
  abbrev pub place_of : Text → Option ArchiveInfo → Text
  place_of download_path none = download_path
  place_of download_path (some a) = a.dependency_path

  abbrev pub Delivers : CloudStorageInfo → Result (Option Text) × W → Type 0
  Delivers c (ok (some p), w) =
      (has_minimum_data c ≡ true)
      × (p ≡ host.abspath (place_of c.download_path c.archive_info))
      × (host.exists (place_of c.download_path c.archive_info) w ≡ true)
  Delivers c (ok none, w) = has_minimum_data c ≡ false
  Delivers c (err e, w) = Unit

  -- What ShouldUnzipArchive says is so.
  abbrev Says : ArchiveInfo → Result Bool × W → Type 0
  Says a (ok b, w) = host.exists a.dependency_path w ≡ not b
  Says a (err e, w) = Unit

  abbrev IsUnzipped : ArchiveInfo → Result (Unit {0}) × W → Type 0
  IsUnzipped a (ok _, w) = host.exists a.dependency_path w ≡ true
  IsUnzipped a (err e, w) = Unit

  should_unzip-Says : (a : ArchiveInfo) (w : W) → Says a (should_unzip_archive host a w)
  unfolding should_unzip_archive
  should_unzip-Says a w = elim (Bool-cases (archive_has_minimum_data a)) [
    | inl m ↦ rw m (ground arith)
    | inr m ↦ rw m tt
  ]

  stop_or_go :
      (a : ArchiveInfo) (still : Bool) (w : W)
      → Says a (ok still, w)
      → IsUnzipped a ((if still then raise archive_error else pure tt) w)
  stop_or_go a true w h = tt
  stop_or_go a false w h = h

  unzip-IsUnzipped : (a : ArchiveInfo) (w : W) → IsUnzipped a (unzip host a w)
  unfolding unzip
  unzip-IsUnzipped a w =
      bind_rule Any (IsUnzipped a) (remove_stale host a.stale_unzip_path_glob w) _ tt (λ e v. tt)
        λ _ w1 _.
          bind_rule Any (IsUnzipped a) (host.unzip_archive a.archive_file a.unzip_path w1) _ tt
            (λ e v. tt)
            λ _ w2 _.
              bind_rule (Says a) (IsUnzipped a) (should_unzip_archive host a w2) _
                (should_unzip-Says a w2) (λ e v. tt) (λ still w3 h. stop_or_go a still w3 h)

  when-unzip :
      (a : ArchiveInfo) (should : Bool) (w : W)
      → Says a (ok should, w)
      → IsUnzipped a (when should (unzip host a) w)
  when-unzip a true w h = unzip-IsUnzipped a w
  when-unzip a false w h = h

  get_unzipped_path-IsThere :
      (a : ArchiveInfo) (w : W) → IsThere a.dependency_path (get_unzipped_path host a w)
  unfolding get_unzipped_path
  get_unzipped_path-IsThere a w =
      bind_rule (Says a) (IsThere a.dependency_path) (should_unzip_archive host a w) _
        (should_unzip-Says a w) (λ e v. tt)
        λ should w1 h.
          bind_rule (IsUnzipped a) (IsThere a.dependency_path) (when should (unzip host a) w1) _
            (when-unzip a should w1 h) (λ e v. tt) (λ _ w2 k. (refl, k))

module _ {W : Type 0} (host : Host W) (laws : KeepsFiles host) where
  abbrev FileIsThere : Text → Result (Unit {0}) × W → Type 0
  FileIsThere path (ok _, w) = host.exists path w ≡ true
  FileIsThere path (err e, w) = Unit

  require_file-IsThere : (path : Text) (w : W) → FileIsThere path (require_file host path w)
  unfolding require_file
  require_file-IsThere path w = elim (Bool-cases (host.exists path w)) [
    | inl e ↦ rw e e
    | inr e ↦ rw e tt
  ]

  make_executable-IsThere :
      (path : Text) (w : W)
      → host.exists path w ≡ true
      → FileIsThere path (host.make_executable path w)
  make_executable-IsThere path w h = go (host.make_executable path w) (laws.kept path w h)
    where
      go : (m : Result (Unit {0}) × W) → host.exists path m.1 ≡ true → FileIsThere path m
      go (ok _, v) k = k
      go (err e, v) k = tt

  dependency_path-IsThere :
      (path : Text) (a : Option ArchiveInfo) (w : W)
      → host.exists path w ≡ true
      → IsThere host (place_of host path a) (dependency_path_of host path a w)
  unfolding dependency_path_of
  dependency_path-IsThere path none w h =
      bind_rule (FileIsThere path) (IsThere host path) (host.make_executable path w) _
        (make_executable-IsThere path w h) (λ e v. tt) (λ _ v k. (refl, k))
  dependency_path-IsThere path (some a) w h = get_unzipped_path-IsThere host a w

  -- Where GetRemotePath returns a path, it is the absolute form of the path of the archive's
  -- dependency, if there is an archive, and else of the download path, and this exists afterwards.
  -- None is returned only where a bucket, a remote path, a download path or a hash is missing.
  -- (os.chmod is taken to keep the file.)
  pub get_remote_path-Delivers :
      (c : CloudStorageInfo) (w : W) → Delivers host c (get_remote_path host c w)
  unfolding get_remote_path fetch
  get_remote_path-Delivers c w = elim (Bool-cases (has_minimum_data c)) [
    | inr e ↦ rw e e
    | inl e ↦ rw e (
        bind_rule Any (Delivers host c) (ensure_directory host (host.dirname c.download_path) w) _
          tt (λ e v. tt)
          λ _ w1 _.
            bind_rule Any (Delivers host c)
              (host.get_if_hash_changed c.cs_remote_path c.download_path c.cs_bucket c.cs_hash w1) _
              tt (λ e v. tt)
              λ _ w2 _.
                bind_rule (FileIsThere c.download_path) (Delivers host c)
                  (require_file host c.download_path w2) _ (require_file-IsThere c.download_path w2)
                  (λ e v. tt)
                  λ _ w3 there.
                    bind_rule (IsThere host (place_of host c.download_path c.archive_info))
                      (Delivers host c) (dependency_path_of host c.download_path c.archive_info w3)
                      _ (dependency_path-IsThere c.download_path c.archive_info w3 there)
                      (λ e v. tt) (λ path w4 h. (e, ap host.abspath h.0, h.1)))
  ]
