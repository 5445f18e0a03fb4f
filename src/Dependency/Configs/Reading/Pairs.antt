-- ===== src/Dependency/Configs/Reading/Pairs.antt =====
-- Which dependency infos IterDependencyInfo yields.
use udroid.Prelude.{
  Bool, true, false, Option, none, some, List, [], ◌∷◌, ◌++◌, map, Text, ◌≡◌, refl, ap, ◌∙◌, arith,
  Dict,
}
use udroid.Dependency.{Result, ok, err}
use udroid.Dependency.LocalPaths.{LocalPathInfo}
use udroid.Dependency.Remote.{CloudStorageInfo}
use udroid.Dependency.Info.{DependencyInfo, new_dependency_info}
use udroid.Dependency.Configs.{PlatformData, DependencyData, ConfigData, platforms}
use udroid.Dependency.Configs.Reading.{
  Paths, Yielded, cloud_info_of, local_info_of, listed, with_cloud, dependency_info_of, yield_one,
  yield_all, platform_infos, config_infos, iter_dependency_info,
}

abbrev pub name_of : DependencyInfo → Text × Text × List Text
name_of info = (info.dependency, info.platform, info.config_paths)

abbrev pub platform_names : Text → Text → Dict PlatformData → List (Text × Text × List Text)
platform_names config_path dependency [] = []
platform_names config_path dependency ((platform, p) ∷ ps) =
    (dependency, platform, config_path ∷ []) ∷ platform_names config_path dependency ps

-- Each pair of a dependency and a platform of a config.
abbrev pub config_names : Text → ConfigData → List (Text × Text × List Text)
config_names config_path [] = []
config_names config_path ((dependency, d) ∷ c) =
    platform_names config_path dependency (platforms d) ++ config_names config_path c

map_append : {A B : Type 0} (f : A → B) (xs ys : List A) → map f (xs ++ ys) ≡ map f xs ++ map f ys
map_append f [] ys = refl
map_append f (x ∷ xs) ys = ap (λ l. f x ∷ l) (map_append f xs ys)

module _ (os : Paths) where
  with_cloud_name :
      (config_path dependency platform : Text) (local : Option LocalPathInfo)
      (cloud : Result (Option CloudStorageInfo)) (info : DependencyInfo)
      → with_cloud os config_path dependency platform local cloud ≡ ok info
      → name_of info ≡ (dependency, platform, config_path ∷ [])
  unfolding new_dependency_info
  with_cloud_name config_path dependency platform local (err e) info h = cc
  with_cloud_name config_path dependency platform local (ok cloud) info h = ground arith

  yield_one_names :
      (r : Result DependencyInfo) (name : Text × Text × List Text) (rest : Yielded os)
      (names : List (Text × Text × List Text))
      → ((info : DependencyInfo) → r ≡ ok info → name_of info ≡ name)
      → (rest.1 ≡ none → map name_of rest.0 ≡ names)
      → (yield_one os r rest).1 ≡ none
      → map name_of (yield_one os r rest).0 ≡ name ∷ names
  yield_one_names (err e) name rest names n ih h = cc
  yield_one_names (ok info) name rest names n ih h = rw (n info refl, ih h) refl

  platform_infos_names :
      (config_path dependency : Text) (d : DependencyData) (ps : Dict PlatformData)
      → (platform_infos os config_path dependency d ps).1 ≡ none
      → map name_of (platform_infos os config_path dependency d ps).0
        ≡ platform_names config_path dependency ps
  unfolding platform_infos
  platform_infos_names config_path dependency d [] h = refl
  platform_infos_names config_path dependency d ((platform, p) ∷ ps) h =
      yield_one_names (dependency_info_of os config_path dependency d platform p)
        (dependency, platform, config_path ∷ []) (platform_infos os config_path dependency d ps)
        (platform_names config_path dependency ps)
        (unfold dependency_info_of in
          λ info e.
            with_cloud_name config_path dependency platform
              (local_info_of os (os.dirname config_path) (listed os p.local_paths))
              (cloud_info_of os (os.dirname config_path) dependency d platform p) info e)
        (platform_infos_names config_path dependency d ps) h

  yield_all_names :
      (first rest : Yielded os) (some_names names : List (Text × Text × List Text))
      → (first.1 ≡ none → map name_of first.0 ≡ some_names)
      → (rest.1 ≡ none → map name_of rest.0 ≡ names)
      → (yield_all os first rest).1 ≡ none
      → map name_of (yield_all os first rest).0 ≡ some_names ++ names
  yield_all_names (infos, some e) rest some_names names f r h = cc
  yield_all_names (infos, none) rest some_names names f r h =
      map_append name_of infos rest.0 ∙ (rw (f refl, r h) refl)

  config_infos_names :
      (config_path : Text) (c : ConfigData)
      → (config_infos os config_path c).1 ≡ none
      → map name_of (config_infos os config_path c).0 ≡ config_names config_path c
  unfolding config_infos
  config_infos_names config_path [] h = refl
  config_infos_names config_path ((dependency, d) ∷ c) h =
      yield_all_names (platform_infos os config_path dependency d (platforms d))
        (config_infos os config_path c) (platform_names config_path dependency (platforms d))
        (config_names config_path c) (platform_infos_names config_path dependency d (platforms d))
        (config_infos_names config_path c) h

  -- An IterDependencyInfo that ends without an exception has yielded, in the order of the config,
  -- one info for each pair of a dependency and one of its platforms, with the path of the config.
  pub iter_dependency_info_names :
      (writable : Bool) (config_path : Text) (c : ConfigData)
      → (iter_dependency_info os writable config_path c).1 ≡ none
      → map name_of (iter_dependency_info os writable config_path c).0 ≡ config_names config_path c
  unfolding iter_dependency_info
  iter_dependency_info_names true config_path c h = cc
  iter_dependency_info_names false config_path c h = config_infos_names config_path c h
