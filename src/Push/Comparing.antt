-- ===== src/Push/Comparing.antt =====
-- devil/devil/android/device_utils.py: what _GetChangedAndStaleFiles tells of the checksums of the
-- host and of the device, from a path to its checksum.
use udroid.Prelude.{
  Bool, true, false, Option, none, some, List, [], ◌∷◌, Text, if◌then◌else◌, Dict, lookup, text_eq,
}

abbrev pub Sums : Type 0
Sums = Dict Text

-- A path of the host and one of the device.
abbrev pub Pair : Type 0
Pair = Text × Text

pub record Changes : Type 0 where
  pub to_push : List Pair
  pub up_to_date : List Text
  pub to_delete : List Text

abbrev pub same_sum : Option Text → Option Text → Bool
same_sum none none = true
same_sum (some a) (some b) = text_eq a b
same_sum _ _ = false

-- `d.pop(k, None)`, as the dict that is left.
abbrev pub without : Text → Sums → Sums
without k [] = []
without k ((j, sum) ∷ sums) =
    let rest = without k sums in if text_eq k j then rest else (j, sum) ∷ rest

abbrev pub keys : Sums → List Text
keys [] = []
keys ((path, sum) ∷ sums) = path ∷ keys sums

-- The changes for a host path that is a file.
unfoldable pub file_changes : Text → Text → Sums → Sums → Changes
file_changes host_path device_path host device =
    if same_sum (lookup host_path host) (lookup device_path device)
    then record { to_push = []; up_to_date = host_path ∷ []; to_delete = [] }
    else record { to_push = (host_path, device_path) ∷ []; up_to_date = []; to_delete = [] }

abbrev pub with_file : Bool → Text → Text → Changes → Changes
with_file true host_path device_path c = record c { up_to_date = host_path ∷ c.up_to_date }
with_file false host_path device_path c = record c {
  to_push = (host_path, device_path) ∷ c.to_push;
}

-- The changes for a directory, whose files go to `target`; what is left of the device's sums is stale.
unfoldable pub directory_changes : (Text → Text) → Sums → Sums → Changes
directory_changes target [] device = record {
  to_push = [];
  up_to_date = [];
  to_delete = keys device;
}
directory_changes target ((path, sum) ∷ host) device =
    with_file (same_sum (lookup (target path) device) (some sum)) path (target path)
      (directory_changes target host (without (target path) device))
