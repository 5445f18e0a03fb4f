-- ===== src/Dependency.antt =====
-- dependency_manager/dependency_manager: local paths, dependency infos, the manager that merges
-- them, and the uploads of a config. A path or a name is a text; an exception is an `Error`.
pub mod LocalPaths
pub mod Remote
pub mod Info
pub mod Manager
pub mod Uploads
pub mod Configs
mod Samples
use udroid.Prelude.{List, Text, Bool, true, false}

-- The exceptions of exceptions.py and of py_utils.cloud_storage, and Python's own.
pub data Error : Type 0 where
  value_error attribute_error unsupported_config_format_error empty_config_error : Error
  file_not_found_error read_write_error archive_error os_error : Error
  cloud_storage_error upload_conflict_error : Error
  no_path_found_error : List Text → Text → Error

pub data Result {ℓ} (A : Type ℓ) : Type ℓ where
  ok : A → Result A
  err : Error → Result A

-- A call that changes the world and may raise; what it wrote before it raised stays written.
abbrev pub Exec : Type 0 → Type 0 → Type 0
Exec W A = W → Result A × W

module _ {W A : Type 0} where
  abbrev pub pure : A → Exec W A
  pure a w = (ok a, w)

  abbrev pub raise : Error → Exec W A
  raise e w = (err e, w)

module _ {W A B : Type 0} where
  abbrev pub continue : Result A × W → (A → Exec W B) → Result B × W
  continue (ok a, w) f = f a w
  continue (err e, w) f = (err e, w)

  infixl 5 ◌>>=◌ ◌>>◌
  abbrev pub ◌>>=◌ : Exec W A → (A → Exec W B) → Exec W B
  ◌>>=◌ m f w = continue (m w) f

  abbrev pub ◌>>◌ : Exec W A → Exec W B → Exec W B
  m >> k = m >>= λ _. k

-- What a call after another ends in is an error of the first, or what the second ends in.
pub bind_rule :
    {W A B : Type 0} (Q : Result A × W → Type 0) (P : Result B × W → Type 0) (m : Result A × W)
    (f : A → Exec W B)
    → Q m
    → ((e : Error) (w : W) → P (err e, w))
    → ((a : A) (w : W) → Q (ok a, w) → P (f a w))
    → P (continue m f)
bind_rule Q P (ok a, w) f q raised h = h a w q
bind_rule Q P (err e, w) f q raised h = raised e w

-- Nothing is known of a call.
abbrev pub Any : {W A : Type 0} → Result A × W → Type 0
Any r = Unit

-- `if test: call`
abbrev pub when : {W : Type 0} → Bool → Exec W (Unit {0}) → Exec W (Unit {0})
when true m = m
when false m = pure tt
