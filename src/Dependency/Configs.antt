-- ===== src/Dependency/Configs.antt =====
-- dependency_manager/base_config.py: the data of a config, its reads and its writes. The keys of a
-- JSON object that hold strings are a dict; `file_info` and `local_paths` have fields of their own.
pub mod Reading
pub mod Jobs
pub mod Values
mod Samples
use udroid.Prelude.{
  ℕ, Bool, true, false, not, ◌&&◌, ◌||◌, Option, none, some, List, [], ◌∷◌, ◌++◌, Text, codes,
  is_empty, is_some, text_eq, if◌then◌else◌, Dict, lookup, insert, ◌≡◌, refl, arith, text_eq_refl,
  ◌==◌,
}
use udroid.Dependency.{Error, value_error, read_write_error, empty_config_error, Result, ok, err}

-- What a config says of one platform of a dependency.
pub record PlatformData : Type 0 where
  pub strings : Dict Text
  pub local_paths : Option (List Text)

pub record DependencyData : Type 0 where
  pub strings : Dict Text
  pub file_info : Option (Dict PlatformData)

abbrev pub ConfigData : Type 0
ConfigData = Dict DependencyData

abbrev pub bucket_key : Text
bucket_key = codes "cloud_storage_bucket"

abbrev pub base_folder_key : Text
base_folder_key = codes "cloud_storage_base_folder"

abbrev pub hash_key : Text
hash_key = codes "cloud_storage_hash"

abbrev pub version_key : Text
version_key = codes "version_in_cs"

-- `not platform_dict`: an object without keys.
unfoldable pub is_bare_platform : PlatformData → Bool
is_bare_platform p = is_empty p.strings && not (is_some p.local_paths)

unfoldable pub is_bare_dependency : DependencyData → Bool
is_bare_dependency d = is_empty d.strings && not (is_some d.file_info)

-- `dependency_dict.get('file_info', {})`
abbrev pub platforms : DependencyData → Dict PlatformData
platforms d = elim d.file_info [ none ↦ [] | some ps ↦ ps ]

-- The platform data that the methods ask for, unless it is missing or empty.
unfoldable pub platform_of : DependencyData → Text → Result PlatformData
unfolding is_bare_platform
platform_of d platform = elim (lookup platform (platforms d)) [
  | none ↦ err value_error
  | some p ↦ if is_bare_platform p then err value_error else ok p
]

abbrev pub is_dependency_key : Text → Bool
is_dependency_key data_type = text_eq data_type bucket_key || text_eq data_type base_folder_key

-- The dependency data with one value written, in the dependency's or in the platform's object.
unfoldable pub set_value : DependencyData → PlatformData → Text → Text → Text → DependencyData
set_value d p platform data_type value =
    if is_dependency_key data_type
    then record d { strings = insert data_type value d.strings }
    else record d {
      file_info =
          some (
            insert platform (record p { strings = insert data_type value p.strings })
              (platforms d));
    }

abbrev pub set_found :
    ConfigData
    → Text
    → Text
    → Text
    → Text
    → DependencyData
    → Result PlatformData
    → Result (Unit {0}) × ConfigData
set_found c dependency platform data_type value d (err e) = (err e, c)
set_found c dependency platform data_type value d (ok p) =
    (ok tt, insert dependency (set_value d p platform data_type value) c)

-- `_SetPlatformData`, on a writable config.
unfoldable pub set_platform_data :
    Text → Text → Text → Text → ConfigData → Result (Unit {0}) × ConfigData
unfolding platform_of set_value
set_platform_data dependency platform data_type value c = elim (lookup dependency c) [
  | none ↦ (err value_error, c)
  | some d ↦ set_found c dependency platform data_type value d (platform_of d platform)
]

-- What `_GetPlatformData` returns: the value of one key, or the whole object of the platform.
pub data PlatformValue : Type 0 where
  value_of : Option Text → PlatformValue
  whole : PlatformData → PlatformValue

abbrev pub found_value : DependencyData → Text → PlatformData → PlatformValue
found_value d data_type p =
    if is_empty data_type
    then whole p
    else if is_dependency_key data_type
    then value_of (lookup data_type d.strings)
    else value_of (lookup data_type p.strings)

unfoldable pub get_value : DependencyData → Text → Result PlatformData → Result PlatformValue
get_value d data_type (err e) = err e
get_value d data_type (ok p) = ok (found_value d data_type p)

-- `_GetPlatformData`; a data type that is None is the empty text, which the source treats alike.
unfoldable pub get_platform_data : Text → Text → Text → ConfigData → Result PlatformValue
unfolding get_value platform_of is_bare_dependency
get_platform_data dependency platform data_type c = elim (lookup dependency c) [
  | none ↦ err value_error
  | some d ↦
      if is_bare_dependency d
      then err value_error
      else get_value d data_type (platform_of d platform)
]

-- `GetVersion`
unfoldable pub get_version : Text → Text → ConfigData → Result PlatformValue
get_version dependency platform c = get_platform_data dependency platform version_key c

-- `_CloudStorageRemotePath`; a folder that is None is none.
unfoldable pub cloud_storage_remote_path : Text → Text → Option Text → Text
cloud_storage_remote_path dependency cs_hash none = dependency ++ b'_' ∷ cs_hash
cloud_storage_remote_path dependency cs_hash (some folder) =
    if is_empty folder
    then dependency ++ b'_' ∷ cs_hash
    else folder ++ b'/' ∷ dependency ++ b'_' ∷ cs_hash

-- Equality of dicts, as Python's: the same keys with the same values, in any order.
module _ {V : Type 0} (same : V → V → Bool) where
  abbrev pub same_option : Option V → Option V → Bool
  same_option none none = true
  same_option (some a) (some b) = same a b
  same_option _ _ = false

  abbrev pub same_at : Dict V → Dict V → Dict V → Bool
  same_at a b [] = true
  same_at a b ((k, v) ∷ d) = same_option (lookup k a) (lookup k b) && same_at a b d

  abbrev pub same_dict : Dict V → Dict V → Bool
  same_dict a b = same_at a b a && same_at a b b

  same_option_refl : ((v : V) → same v v ≡ true) → (o : Option V) → same_option o o ≡ true
  same_option_refl h none = refl
  same_option_refl h (some v) = h v

  same_at_refl : ((v : V) → same v v ≡ true) → (a d : Dict V) → same_at a a d ≡ true
  same_at_refl h a [] = refl
  same_at_refl h a ((k, v) ∷ d) =
      ground (arith, same_option_refl h (lookup k a), same_at_refl h a d)

  pub same_dict_refl : ((v : V) → same v v ≡ true) → (a : Dict V) → same_dict a a ≡ true
  same_dict_refl h a = ground (arith, same_at_refl h a a)

abbrev pub same_texts : List Text → List Text → Bool
same_texts [] [] = true
same_texts (x ∷ xs) (y ∷ ys) = text_eq x y && same_texts xs ys
same_texts _ _ = false

same_texts_refl : (xs : List Text) → same_texts xs xs ≡ true
same_texts_refl [] = refl
same_texts_refl (x ∷ xs) = ground (arith, text_eq_refl x, same_texts_refl xs)

abbrev pub same_platform : PlatformData → PlatformData → Bool
same_platform a b =
    same_dict text_eq a.strings b.strings && same_option same_texts a.local_paths b.local_paths

abbrev pub same_dependency : DependencyData → DependencyData → Bool
same_dependency a b =
    same_dict text_eq a.strings b.strings
    && same_option (same_dict same_platform) a.file_info b.file_info

abbrev pub same_config : ConfigData → ConfigData → Bool
same_config = same_dict same_dependency

same_platform_refl : (p : PlatformData) → same_platform p p ≡ true
same_platform_refl p = ground (
  arith,
  same_dict_refl text_eq text_eq_refl p.strings,
  same_option_refl same_texts same_texts_refl p.local_paths,
)

same_dependency_refl : (d : DependencyData) → same_dependency d d ≡ true
same_dependency_refl d = ground (
  arith,
  same_dict_refl text_eq text_eq_refl d.strings,
  same_option_refl (same_dict same_platform) (same_dict_refl same_platform same_platform_refl)
      d.file_info,
)

pub same_config_refl : (c : ConfigData) → same_config c c ≡ true
same_config_refl c = same_dict_refl same_dependency same_dependency_refl c
