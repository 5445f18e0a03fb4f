-- ===== src/Push/Samples.antt =====
-- The theorem about pushing a directory, of three files: one is on the device as it is, one is on it
-- with another content, one is new; a fourth on the device is stale.
use udroid.Prelude.{List, [], ◌∷◌, ◌++◌, Text, codes, ◌≡◌, refl, drop}
use udroid.Push.Comparing.{Sums, directory_changes}
use udroid.Push.Synced.{synced, sums_of, on_host, directory_is_synced}

abbrev target : Text → Text
target path = codes "/sdcard" ++ drop 2 path

-- The content of a file is its path.
abbrev sum_of : Text → Text
sum_of path = path

abbrev hosts : List Text
hosts = codes "/h/a" ∷ codes "/h/b" ∷ codes "/h/c" ∷ []

abbrev device : Sums
device =
    (codes "/sdcard/a", codes "/h/a")
    ∷ (codes "/sdcard/b", codes "old")
    ∷ (codes "/sdcard/d", codes "old")
    ∷ []

changes_found : directory_changes target (sums_of sum_of hosts) device ≡ record {
  to_push = (codes "/h/b", codes "/sdcard/b") ∷ (codes "/h/c", codes "/sdcard/c") ∷ [];
  up_to_date = codes "/h/a" ∷ [];
  to_delete = codes "/sdcard/d" ∷ [];
}
unfolding directory_changes
changes_found = refl

directory_is_synced_example :
    synced sum_of
      (directory_changes target (sums_of sum_of hosts) device)
      device
      (codes "/sdcard/b")
    ≡ on_host target sum_of hosts (codes "/sdcard/b")
directory_is_synced_example =
    directory_is_synced target sum_of hosts device (codes "/sdcard/b") refl
