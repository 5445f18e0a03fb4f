-- ===== src/Dependency/Manager/Merging.antt =====
-- What the lookup of a DependencyManager holds after its configs are added.
use udroid.Prelude.{
  ◌≡◌, refl, ap, sym, ◌∙◌, inl, inr, Bool, true, ◌&&◌, Option, none, some, List, [], ◌∷◌, ◌++◌,
  Text, text_eq, text_eq-eq, if◌then◌else◌, arith, lookup, Dict, insert, lookup-insert, Bool-cases,
}
use udroid.Dependency.{Error, Result, ok, err, continue}
use udroid.Dependency.Info.{DependencyInfo, update_info}
use udroid.Dependency.Manager.{
  Config, Lookup, find, or_empty, platforms_of, store, add_info, add_infos, update_dependencies,
  add_configs, new_manager,
}

-- The info that an entry becomes when another for the same dependency and platform is added.
abbrev pub absorb : Option DependencyInfo → DependencyInfo → DependencyInfo
absorb none new = new
absorb (some old) new = (update_info old new).1

abbrev pub is_for : Text → Text → DependencyInfo → Bool
is_for dependency platform info =
    text_eq dependency info.dependency && text_eq platform info.platform

-- The infos for one dependency and platform, absorbed in their order.
abbrev pub merged :
    Text → Text → Option DependencyInfo → List DependencyInfo → Option DependencyInfo
merged dependency platform entry [] = entry
merged dependency platform entry (info ∷ infos) =
    merged dependency platform
      (if is_for dependency platform info then some (absorb entry info) else entry) infos

find-store :
    (d p d' p' : Text) (info : DependencyInfo) (l : Lookup)
    → find d p (store info d' p' l)
      ≡ (if text_eq d d' && text_eq p p' then some info else find d p l)
find-store d p d' p' info l =
    ap (λ (o : Option (Dict DependencyInfo)). lookup p (or_empty o))
      (lookup-insert d d' (insert p' info (platforms_of d' l)) l)
    ∙ elim (Bool-cases (text_eq d d')) [
      | inl e ↦ rw e (
          lookup-insert p p' info (platforms_of d' l)
          ∙ ap (λ (t : Text). if text_eq p p' then some info else find t p l)
              (sym (text_eq-eq d d' e)))
      | inr e ↦ rw e refl
    ]

find_same :
    (d p d' p' : Text) (l : Lookup)
    → (text_eq d d' && text_eq p p') ≡ true
    → find d p l ≡ find d' p' l
find_same d p d' p' l h =
    ap (λ (t : Text). find t p l) (text_eq-eq d d' (ground arith))
    ∙ ap (λ (t : Text). find d' t l) (text_eq-eq p p' (ground arith))

add_info_stores :
    (info : DependencyInfo) (l : Lookup)
    → (add_info info l).1
      ≡ store (absorb (find info.dependency info.platform l) info) info.dependency info.platform l
unfolding add_info
add_info_stores info l = go (find info.dependency info.platform l)
  where
    go :
        (o : Option DependencyInfo)
        → (let r : Result (Unit {0}) × Lookup = elim o [
          | none ↦ (ok tt, store info info.dependency info.platform l)
          | some old ↦
              let (r, updated) = update_info old info in
              (r, store updated info.dependency info.platform l)
        ] in
            r.1)
          ≡ store (absorb o info) info.dependency info.platform l
    go none = refl
    go (some old) = refl

-- Whether it raises or not, adding an info changes the entry for its name, and no other.
find-add_info :
    (d p : Text) (info : DependencyInfo) (l : Lookup)
    → find d p (add_info info l).1
      ≡ (if is_for d p info then some (absorb (find d p l) info) else find d p l)
find-add_info d p info l =
    ap (find d p) (add_info_stores info l)
    ∙ find-store d p info.dependency info.platform
        (absorb (find info.dependency info.platform l) info) l
    ∙ elim (Bool-cases (is_for d p info)) [
      | inl e ↦ rw e (
          ap (λ (o : Option DependencyInfo). some (absorb o info))
            (sym (find_same d p info.dependency info.platform l e)))
      | inr e ↦ rw e refl
    ]

pub find-add_infos :
    (d p : Text) (infos : List DependencyInfo) (stop : Option Error) (l : Lookup)
    → (add_infos infos stop l).0 ≡ ok tt
    → find d p (add_infos infos stop l).1 ≡ merged d p (find d p l) infos
unfolding add_infos
find-add_infos d p [] none l h = refl
find-add_infos d p [] (some e) l h = refl
find-add_infos d p (info ∷ infos) stop l h =
    go (add_info info l) (find-add_info d p info l) h (find-add_infos d p infos stop)
  where
    go :
        (m : Result (Unit {0}) × Lookup)
        → find d p m.1 ≡ (if is_for d p info then some (absorb (find d p l) info) else find d p l)
        → (continue m (λ _. add_infos infos stop)).0 ≡ ok tt
        → ((l' : Lookup)
            → (add_infos infos stop l').0 ≡ ok tt
            → find d p (add_infos infos stop l').1 ≡ merged d p (find d p l') infos)
        → find d p (continue m (λ _. add_infos infos stop)).1
          ≡ merged d p (find d p l) (info ∷ infos)
    go (ok _, l') e k ih = ih l' k ∙ ap (λ (o : Option DependencyInfo). merged d p o infos) e
    go (err x, l') e k ih = cc

-- The infos of the configs, in the order of the configs.
abbrev pub all_infos : List Config → List DependencyInfo
all_infos [] = []
all_infos (config ∷ configs) = config.infos ++ all_infos configs

merged-append :
    (d p : Text) (o : Option DependencyInfo) (xs ys : List DependencyInfo)
    → merged d p o (xs ++ ys) ≡ merged d p (merged d p o xs) ys
merged-append d p o [] ys = refl
merged-append d p o (x ∷ xs) ys =
    merged-append d p (if is_for d p x then some (absorb o x) else o) xs ys

find-update_dependencies :
    (d p : Text) (supported : List Text) (config : Config) (l : Lookup)
    → (update_dependencies supported config l).0 ≡ ok tt
    → find d p (update_dependencies supported config l).1 ≡ merged d p (find d p l) config.infos
unfolding update_dependencies
find-update_dependencies d p supported config l h =
    ground (arith, find-add_infos d p config.infos config.stop l)

pub find-add_configs :
    (d p : Text) (supported : List Text) (configs : List Config) (l : Lookup)
    → (add_configs supported configs l).0 ≡ ok tt
    → find d p (add_configs supported configs l).1 ≡ merged d p (find d p l) (all_infos configs)
unfolding add_configs
find-add_configs d p supported [] l h = refl
find-add_configs d p supported (config ∷ configs) l h =
    go (update_dependencies supported config l) (find-update_dependencies d p supported config l) h
      (find-add_configs d p supported configs)
    ∙ sym (merged-append d p (find d p l) config.infos (all_infos configs))
  where
    go :
        (m : Result (Unit {0}) × Lookup)
        → (m.0 ≡ ok tt → find d p m.1 ≡ merged d p (find d p l) config.infos)
        → (continue m (λ _. add_configs supported configs)).0 ≡ ok tt
        → ((l' : Lookup)
            → (add_configs supported configs l').0 ≡ ok tt
            → find d p (add_configs supported configs l').1
              ≡ merged d p (find d p l') (all_infos configs))
        → find d p (continue m (λ _. add_configs supported configs)).1
          ≡ merged d p (merged d p (find d p l) config.infos) (all_infos configs)
    go (ok _, l') e k ih =
        ih l' k ∙ ap (λ (o : Option DependencyInfo). merged d p o (all_infos configs)) (e refl)
    go (err x, l') e k ih = cc

-- A manager that is made without an exception has, for each dependency and platform, the infos
-- of all configs for just that pair, absorbed in the order of the configs, and nothing else.
pub find-new_manager :
    (d p : Text) (configs : List Config) (supported : List Text)
    → (new_manager configs supported).0 ≡ ok tt
    → find d p (new_manager configs supported).1 ≡ merged d p none (all_infos configs)
unfolding new_manager
find-new_manager d p configs supported h = find-add_configs d p supported configs [] h
