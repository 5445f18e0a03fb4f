-- ===== src/Dependency/Configs/Values.antt =====
-- What _GetPlatformData reads of a config that _SetPlatformData wrote.
use udroid.Prelude.{
  false, Option, none, some, [], ◌∷◌, Text, is_empty, text_eq, text_eq_refl, if◌then◌else◌, Dict,
  lookup, insert, lookup-insert, ◌≡◌, refl, ◌∙◌, arith, inl, inr, Bool-cases,
}
use udroid.Dependency.{value_error, Result, ok, err}
use udroid.Dependency.Configs.{
  PlatformData, DependencyData, ConfigData, platforms, is_bare_platform, is_bare_dependency,
  platform_of, is_dependency_key, set_value, set_found, set_platform_data, get_value,
  get_platform_data, value_of,
}

lookup_inserted : {V : Type 0} (k : Text) (v : V) (d : Dict V) → lookup k (insert k v d) ≡ some v
lookup_inserted k v d = lookup-insert k k v d ∙ (rw (text_eq_refl k) refl)

insert_ne : {V : Type 0} (k : Text) (v : V) (d : Dict V) → is_empty (insert k v d) ≡ false
insert_ne k v [] = refl
insert_ne k v ((j, u) ∷ d) = elim (Bool-cases (text_eq k j)) [
  | inl e ↦ rw e refl
  | inr e ↦ rw e refl
]

get_found :
    (dependency platform data_type : Text) (c : ConfigData) (d : DependencyData)
    → lookup dependency c ≡ some d
    → get_platform_data dependency platform data_type c ≡ (
        if is_bare_dependency d
        then err value_error
        else get_value d data_type (platform_of d platform))
unfolding get_platform_data
get_found dependency platform data_type c d h = rw (h, get_platform_data) refl

not_bare_platform :
    (p : PlatformData) (data_type value : Text)
    → is_bare_platform (record p { strings = insert data_type value p.strings }) ≡ false
unfolding is_bare_platform
not_bare_platform p data_type value = rw (insert_ne data_type value p.strings) refl

platform_written :
    (d : DependencyData) (platform : Text) (p : PlatformData)
    → is_bare_platform p ≡ false
    → platform_of (record d { file_info = some (insert platform p (platforms d)) }) platform ≡ ok p
unfolding platform_of
platform_written d platform p h = rw (lookup_inserted platform p (platforms d), h, platform_of) refl

same_platforms :
    (d : DependencyData) (strings : Dict Text) (platform : Text)
    → platform_of (record d { strings = strings }) platform ≡ platform_of d platform
unfolding platform_of
same_platforms d strings platform = refl

set_value-get :
    (d : DependencyData) (p : PlatformData) (platform data_type value : Text)
    → is_empty data_type ≡ false
    → platform_of d platform ≡ ok p
    → get_value
        (set_value d p platform data_type value)
        data_type
        (platform_of (set_value d p platform data_type value) platform)
      ≡ ok (value_of (some value))
unfolding set_value get_value
set_value-get d p platform data_type value named h =
    elim (Bool-cases (is_dependency_key data_type)) [
      | inl e ↦
          rw
            (
              e,
              same_platforms d (insert data_type value d.strings) platform,
              h,
              named,
              e,
              lookup_inserted data_type value d.strings,
            )
            refl
      | inr e ↦
          rw
            (
              e,
              platform_written d platform (record p { strings = insert data_type value p.strings })
                  (not_bare_platform p data_type value),
              named,
              e,
              lookup_inserted data_type value p.strings,
            )
            refl
    ]

set_value-not_bare :
    (d : DependencyData) (p : PlatformData) (platform data_type value : Text)
    → is_bare_dependency (set_value d p platform data_type value) ≡ false
unfolding set_value is_bare_dependency
set_value-not_bare d p platform data_type value = elim (Bool-cases (is_dependency_key data_type)) [
  | inl e ↦ rw (e, insert_ne data_type value d.strings) refl
  | inr e ↦ rw e (ground arith)
]

-- What _SetPlatformData wrote without an exception, _GetPlatformData returns for the same
-- dependency, platform and data type, where the data type is not empty.
pub get-set_platform_data :
    (dependency platform data_type value : Text) (c : ConfigData)
    → is_empty data_type ≡ false
    → (set_platform_data dependency platform data_type value c).0 ≡ ok tt
    → get_platform_data dependency platform data_type
        (set_platform_data dependency platform data_type value c).1
      ≡ ok (value_of (some value))
unfolding set_platform_data
get-set_platform_data dependency platform data_type value c named h = go (lookup dependency c) h
  where
    found :
        (d : DependencyData) (r : Result PlatformData)
        → platform_of d platform ≡ r
        → (set_found c dependency platform data_type value d r).0 ≡ ok tt
        → get_platform_data dependency platform data_type
            (set_found c dependency platform data_type value d r).1
          ≡ ok (value_of (some value))
    found d (err e) q h' = cc
    found d (ok p) q h' =
        get_found dependency platform data_type
          (insert dependency (set_value d p platform data_type value) c)
          (set_value d p platform data_type value)
          (lookup_inserted dependency (set_value d p platform data_type value) c)
        ∙ (rw (set_value-not_bare d p platform data_type value)
            (set_value-get d p platform data_type value named q))

    go :
        (o : Option DependencyData)
        → (elim o as (λ x. Result (Unit {0}) × ConfigData) [
          | none ↦ (err value_error, c)
          | some d ↦ set_found c dependency platform data_type value d (platform_of d platform)
        ]).0
          ≡ ok tt
        → get_platform_data dependency platform data_type
            (elim o as (λ x. Result (Unit {0}) × ConfigData) [
              | none ↦ (err value_error, c)
              | some d ↦ set_found c dependency platform data_type value d (platform_of d platform)
            ]).1
          ≡ ok (value_of (some value))
    go none h' = cc
    go (some d) h' = found d (platform_of d platform) refl h'
