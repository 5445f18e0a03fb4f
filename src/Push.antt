-- ===== src/Push.antt =====
-- devil/devil/android/device_utils.py: PushChangedFiles and what it calls. The host's and the
-- device's files, their checksums, adb push and the functions on paths are a parameter.
pub mod Comparing
pub mod Synced
mod Samples
use udroid.Prelude.{
  ℕ, suc, ◌+◌, ◌*◌, Bool, true, false, not, ◌&&◌, ◌||◌, Option, none, some, List, [], ◌∷◌, ◌++◌,
  map, length, Text, codes, is_empty, if◌then◌else◌, ltb, rstrip, drop, Dict, lookup, insert,
}
use udroid.Prelude.Effects.{Outcome, ok, err, Exec, pure, raise, continue, ◌>>=◌, ◌>>◌, when}
use udroid.Push.Comparing.{Changes, Sums, Pair, file_changes, directory_changes}

pub data PushError : Type 0 where
  environment_error command_failed_error other_error : PushError

pub record Files (W : Type 0) : Type 0 where
  pub is_file : Text → W → Bool
  pub is_dir : Text → W → Bool
  pub real_path : Text → W → Text
  pub dirname : Text → Text
  pub join : Text → Text → Text
  pub relative_path : Text → Text → Text
  -- The files below a directory of the host, each as its directory and its name, as os.walk has them.
  pub walk : Text → W → List (Text × Text)
  pub calculate_host_md5_sums : Text → Exec PushError W Sums
  pub calculate_device_md5_sums : List Text → Exec PushError W Sums
  pub push : Text → Text → Exec PushError W (Unit {0})
  pub run_shell_command : List Text → Exec PushError W (Unit {0})
  pub disk_usage : Text → W → ℕ
  -- `self._commands_installed is False`
  pub unzip_is_missing : W → Bool
  pub push_changed_files_zipped : List Pair → List Text → Exec PushError W Bool

-- `device_path_checksums` of the cache.
pub record Pusher (W : Type 0) : Type 0 where
  pub device_path_checksums : Dict (Bool × Sums)
  pub enable_device_files_cache : Bool
  pub world : W

-- The time that a push takes, in units of 1/40000000 second, where no float is rounded.
unfoldable pub approximate_duration : ℕ → ℕ → ℕ → Bool → ℕ
approximate_duration adb_calls file_count byte_count false =
    4000000 * adb_calls + 400000 * file_count + 20 * byte_count
approximate_duration adb_calls file_count byte_count true =
    4000000 * adb_calls + 400000 * file_count + (80000000 + 4 * byte_count) + 10 * byte_count

abbrev pub same_bool : Bool → Bool → Bool
same_bool true b = b
same_bool false b = not b

-- What _GetChangedAndStaleFiles returns, and what its commit function writes to the cache.
pub record Found : Type 0 where
  pub changes : Changes
  pub commit : Option (Text × (Bool × Sums))

module _ {W : Type 0} (files : Files W) where
  abbrev pub Task : Type 0 → Type 0
  Task A = Exec PushError (Pusher W) A

  abbrev pub on_files : {A : Type 0} → Exec PushError W A → Task A
  on_files call s = let (r, w) = call s.world in (r, record s { world = w })

  abbrev pub look : {A : Type 0} → (W → A) → Task A
  look f s = (ok (f s.world), s)

  -- The device's path of each file that os.walk finds on the host.
  abbrev pub specific_paths : Text → Text → List (Text × Text) → List Text
  specific_paths host_path device_path [] = []
  specific_paths host_path device_path ((root, name) ∷ found) =
      files.join (files.join device_path (drop (suc (length host_path)) root)) name
      ∷ specific_paths host_path device_path found

  abbrev pub keep_sums : Text → Bool → Sums → Task Sums
  keep_sums device_path ignore_other_files sums s = (
    ok sums,
    record s {
      device_path_checksums = insert device_path (ignore_other_files, sums) s.device_path_checksums;
    },
  )

  abbrev pub new_sums : Text → Bool → List Text → Task Sums
  new_sums device_path ignore_other_files paths = do
    sums ← on_files (files.calculate_device_md5_sums paths)
    keep_sums device_path ignore_other_files sums

  abbrev pub cached_or_new : Text → Bool → List Text → Option (Bool × Sums) → Task Sums
  cached_or_new device_path ignore_other_files paths none =
      new_sums device_path ignore_other_files paths
  cached_or_new device_path ignore_other_files paths (some (ignored, sums)) =
      if same_bool ignored ignore_other_files
      then pure sums
      else new_sums device_path ignore_other_files paths

  -- `calculate_device_checksums`
  unfoldable pub calculate_device_checksums : Text → Bool → List Text → Task Sums
  calculate_device_checksums device_path ignore_other_files paths s =
      cached_or_new device_path ignore_other_files paths
        (if s.enable_device_files_cache then lookup device_path s.device_path_checksums else none) s

  abbrev pub both_results :
      {A B : Type 0}
      → Outcome PushError A
      → Outcome PushError B × Pusher W
      → Outcome PushError (A × B) × Pusher W
  both_results (err e) (r, s) = (err e, s)
  both_results (ok a) (err e, s) = (err e, s)
  both_results (ok a) (ok b, s) = (ok (a, b), s)

  -- RunAsync of two functions that do not touch the same: both run, and the first exception is
  -- that of the first.
  abbrev pub run_both : {A B : Type 0} → Task A → Task B → Task (A × B)
  run_both f g s = let (r, s') = f s in both_results r (g s')

  abbrev pub changes_of : Text → Text → Bool → Sums × Sums → Changes
  changes_of host_path device_path true (host, device) =
      file_changes host_path device_path host device
  changes_of host_path device_path false (host, device) =
      directory_changes (λ path. files.join device_path (files.relative_path path host_path)) host
        device

  abbrev pub relocated : Text → Text → Sums → Sums
  relocated host_path device_path [] = []
  relocated host_path device_path ((path, sum) ∷ sums) =
      insert (files.join device_path (drop (suc (length host_path)) path)) sum
        (relocated host_path device_path sums)

  abbrev pub found_in : Text → Text → Bool → Bool → Sums × Sums → Found
  found_in host_path device_path ignore_other_files is_file sums = record {
    changes = changes_of host_path device_path is_file sums;
    commit = some (device_path, (ignore_other_files, relocated host_path device_path sums.0));
  }

  abbrev pub push_all_of_it : Text → Text → Found
  push_all_of_it host_path device_path = record {
    changes = record { to_push = (host_path, device_path) ∷ []; up_to_date = []; to_delete = [] };
    commit = none;
  }

  abbrev pub unless_environment :
      Text
      → Text
      → Bool
      → Outcome PushError (Sums × Sums) × Pusher W
      → Outcome PushError Found × Pusher W
  unless_environment host_path device_path ignore_other_files (ok sums, s) = (
    ok (found_in host_path device_path ignore_other_files (files.is_file host_path s.world) sums),
    s,
  )
  unless_environment host_path device_path ignore_other_files (err environment_error, s) =
      (ok (push_all_of_it host_path device_path), s)
  unless_environment host_path device_path ignore_other_files (err e, s) = (err e, s)

  -- `_GetChangedAndStaleFiles`
  unfoldable pub get_changed_and_stale_files : Bool → Text → Text → Task Found
  unfolding calculate_device_checksums
  get_changed_and_stale_files track_stale host device s =
      let host_path = rstrip b'/' host in
      let device_path = rstrip b'/' device in
      let ignore_other_files = not track_stale && files.is_dir host_path s.world in
      let paths =
        if ignore_other_files
        then specific_paths host_path device_path (files.walk host_path s.world)
        else device_path ∷ [] in
      unless_environment host_path device_path ignore_other_files (
        run_both (on_files (files.calculate_host_md5_sums host_path))
          (calculate_device_checksums device_path ignore_other_files paths) s)

  abbrev pub push_individually : List Pair → Task (Unit {0})
  push_individually [] = pure tt
  push_individually ((h, d) ∷ pairs) = do on_files (files.push h d); push_individually pairs

  abbrev pub unless_zipped : List Pair → Bool → Task (Unit {0})
  unless_zipped changed true = pure tt
  unless_zipped changed false = push_individually changed

  abbrev pub total_usage : List Pair → W → ℕ
  total_usage [] w = 0
  total_usage ((h, d) ∷ pairs) w = files.disk_usage h w + total_usage pairs w

  abbrev pub targets : List Pair → List Text
  targets [] = []
  targets ((h, d) ∷ pairs) = d ∷ targets pairs

  -- `_PushFilesImpl`; a whole directory is never pushed, since its test ends in `and False`.
  unfoldable pub push_files_impl : List Pair → List Pair → Task (Unit {0})
  unfolding approximate_duration
  push_files_impl tuples changed s =
      if is_empty changed
      then (ok tt, s)
      else if ltb
            (approximate_duration (length changed) (length changed) (total_usage changed s.world)
              false)
            (approximate_duration 1 1 (total_usage changed s.world) true)
          || files.unzip_is_missing s.world
      then push_individually changed s
      else continue (on_files (files.push_changed_files_zipped changed (targets tuples)) s)
          (unless_zipped changed)

  -- What PushChangedFiles has gathered of the tuples so far.
  pub record Gathered : Type 0 where
    pub all_changed_files : List Pair
    pub all_stale_files : List Text
    pub missing_dirs : List Text
    pub commits : List (Text × (Bool × Sums))

  abbrev pub with_commit :
      Option (Text × (Bool × Sums)) → List (Text × (Bool × Sums)) → List (Text × (Bool × Sums))
  with_commit none commits = commits
  with_commit (some commit) commits = commits ++ commit ∷ []

  abbrev pub all_new : Changes → Bool
  all_new c = not (is_empty c.to_push) && is_empty c.up_to_date && is_empty c.to_delete

  abbrev pub missing_dir : Text → Text → W → Text
  missing_dir h d w = if files.is_dir h w then d else files.dirname d

  abbrev pub gather : Gathered → Text → Text → Found → Task Gathered
  gather g h d found s = (
    ok (record {
      all_changed_files = g.all_changed_files ++ found.changes.to_push;
      all_stale_files = g.all_stale_files ++ found.changes.to_delete;
      missing_dirs =
          if all_new found.changes
          then g.missing_dirs ++ missing_dir h d s.world ∷ []
          else g.missing_dirs;
      commits = with_commit found.commit g.commits;
    }),
    s,
  )

  unfoldable pub gather_all : Bool → Gathered → List Pair → Task Gathered
  unfolding get_changed_and_stale_files
  gather_all delete_device_stale g [] = pure g
  gather_all delete_device_stale g ((host, d) ∷ tuples) = do
    h ← look (files.real_path host)
    found ← get_changed_and_stale_files delete_device_stale h d
    g' ← gather g h d found
    gather_all delete_device_stale g' tuples

  abbrev pub run_commits : List (Text × (Bool × Sums)) → Task (Unit {0})
  run_commits [] s = (ok tt, s)
  run_commits ((device_path, cache_entry) ∷ commits) s =
      run_commits commits (record s {
        device_path_checksums = insert device_path cache_entry s.device_path_checksums;
      })

  abbrev pub delete_stale : Bool → List Text → Task (Unit {0})
  delete_stale delete_device_stale stale =
      when (delete_device_stale && not (is_empty stale))
        (on_files (files.run_shell_command (codes "rm" ∷ codes "-f" ∷ stale)))

  abbrev pub push_changed : List Pair → Gathered → Task (Unit {0})
  push_changed tuples g = do
    when (not (is_empty g.missing_dirs))
        (on_files (files.run_shell_command (codes "mkdir" ∷ codes "-p" ∷ g.missing_dirs)))
    push_files_impl tuples g.all_changed_files

  -- `PushChangedFiles`, of absolute paths.
  unfoldable pub push_changed_files : Bool → List Pair → Task (Unit {0})
  unfolding gather_all push_files_impl
  push_changed_files delete_device_stale tuples = do
    g ←
        gather_all delete_device_stale
          (record { all_changed_files = []; all_stale_files = []; missing_dirs = []; commits = [] })
          tuples
    delete_stale delete_device_stale g.all_stale_files
    when (not (is_empty g.all_changed_files)) (push_changed tuples g)
    run_commits g.commits
