-- ===== src/Dependency/Manager/Fetching.antt =====
-- Which path a DependencyManager answers.
use udroid.Prelude.{
  ℕ, ◌≡◌, refl, ap, sym, ◌∙◌, inl, inr, true, false, not, ◌||◌, Option, none, some, List, [], ◌∷◌,
  Text, arith, lookup, Dict, Bool-cases, Option-cases, is_empty,
}
use udroid.Dependency.{Result, ok, err, bind_rule, Any, no_path_found_error}
use udroid.Dependency.LocalPaths.{LocalPathInfo, update, get_local_path}
use udroid.Dependency.LocalPaths.Newest.{get_local_path-update}
use udroid.Dependency.Remote.{Host}
use udroid.Dependency.Info.{DependencyInfo, update_info, info_remote_path, take_cloud, update_local}
use udroid.Dependency.Info.Laws.{groups_of}
use udroid.Dependency.Manager.{
  Config, Lookup, find, or_empty, add_configs, get_dependency_info, info_local_path, local_path,
  require_path, is_missing, fetch_path_with_version, fetch_from, fetch_remote,
}
use udroid.Dependency.Manager.Merging.{absorb, is_for, merged, all_infos, find-add_configs}

get_found :
    (d p : Text) (l : Lookup) (info : DependencyInfo)
    → find d p l ≡ some info
    → get_dependency_info d p l ≡ some info
unfolding get_dependency_info
get_found d p l info h = elim (Option-cases (lookup d l)) [
  | inl e ↦ absurd (contra e)
  | inr (platforms, e) ↦
      let q : lookup p platforms ≡ some info =
        (ap (λ (o : Option (Dict DependencyInfo)). lookup p (or_empty o)) (sym e)) ∙ h in
      rw (e, get_dependency_info) (rw q q)
]
  where
    contra : lookup d l ≡ none → ⊥
    contra e = cc (ap (λ (o : Option (Dict DependencyInfo)). lookup p (or_empty o)) (sym e) ∙ h)

module _ {W : Type 0} (host : Host W) (mtime : Text → W → ℕ) (w : W) where
  update_local_path :
      (a b : Option LocalPathInfo) (q : Text)
      → get_local_path (λ path. host.exists path w) (λ path. mtime path w) (groups_of a) ≡ some q
      → get_local_path
          (λ path. host.exists path w)
          (λ path. mtime path w)
          (groups_of (update_local a b))
        ≡ some q
  unfolding update_local update
  update_local_path none b q h = unfold get_local_path in cc
  update_local_path (some a) none q h = h
  update_local_path (some a) (some b) q h =
      get_local_path-update _ _ a.path_priority_groups b.path_priority_groups q h

  absorb_local_path :
      (old new : DependencyInfo) (q : Text)
      → info_local_path host mtime old w ≡ some q
      → info_local_path host mtime (absorb (some old) new) w ≡ some q
  unfolding info_local_path update_info take_cloud
  absorb_local_path old new q h =
      ground (arith, update_local_path old.local_path_info new.local_path_info q h)

  merged_local_path :
      (d p : Text) (old : DependencyInfo) (infos : List DependencyInfo) (q : Text)
      → info_local_path host mtime old w ≡ some q
      → (info : DependencyInfo) × (merged d p (some old) infos ≡ some info)
        × (info_local_path host mtime info w ≡ some q)
  merged_local_path d p old [] q h = (old, refl, h)
  merged_local_path d p old (new ∷ infos) q h = elim (Bool-cases (is_for d p new)) [
    | inl e ↦
        rw e (merged_local_path d p (absorb (some old) new) infos q (absorb_local_path old new q h))
    | inr e ↦ rw e (merged_local_path d p old infos q h)
  ]

  require_path_ok :
      (d p : Text) (o : Option Text) (q : Text)
      → require_path host mtime d p o w ≡ (ok q, w)
      → o ≡ some q
  unfolding require_path
  require_path_ok d p none q h = cc
  require_path_ok d p (some path) q h = ground arith

  local_path_of :
      (d p : Text) (l : Lookup) (info : DependencyInfo)
      → find d p l ≡ some info
      → local_path host mtime l d p w
        ≡ require_path host mtime d p (info_local_path host mtime info w) w
  unfolding local_path
  local_path_of d p l info h = rw (get_found d p l info h, local_path) refl

  -- A local path that is found for a pair that has an entry of its own is still found after more
  -- configs are added behind: an earlier config takes precedence.
  pub local_path-add_configs :
      (d p : Text) (l : Lookup) (info : DependencyInfo) (configs : List Config)
      (supported : List Text) (q : Text)
      → find d p l ≡ some info
      → (add_configs supported configs l).0 ≡ ok tt
      → local_path host mtime l d p w ≡ (ok q, w)
      → local_path host mtime (add_configs supported configs l).1 d p w ≡ (ok q, w)
  local_path-add_configs d p l info configs supported q f done h =
      let before = sym (local_path_of d p l info f) ∙ h in
      let (info', e, again) =
        merged_local_path d p info (all_infos configs) q
          (require_path_ok d p (info_local_path host mtime info w) q before) in
      let found' =
        find-add_configs d p supported configs l done
        ∙ ap (λ (o : Option DependencyInfo). merged d p o (all_infos configs)) f
        ∙ e in
      local_path_of d p (add_configs supported configs l).1 info' found'
      ∙ ap (λ (o : Option Text). require_path host mtime d p o w)
          (again ∙ sym (require_path_ok d p (info_local_path host mtime info w) q before))
      ∙ before

module _ {W : Type 0} (host : Host W) (mtime : Text → W → ℕ) where
  abbrev pub IsFetched : Result (Text × Option Text) × W → Type 0
  IsFetched (ok (path, version), w) = (is_empty path ≡ false) × (host.exists path w ≡ true)
  IsFetched (err e, w) = Unit

  abbrev IsHere : Result Text × W → Type 0
  IsHere (ok path, w) = (is_empty path ≡ false) × (host.exists path w ≡ true)
  IsHere (err e, w) = Unit

  require_path-IsHere :
      (d p : Text) (o : Option Text) (w : W) → IsHere (require_path host mtime d p o w)
  unfolding require_path
  require_path-IsHere d p none w = tt
  require_path-IsHere d p (some path) w =
      elim (Bool-cases (is_empty path || not (host.exists path w))) [
        | inl e ↦ rw e tt
        | inr e ↦ rw e (ground arith, ground arith)
      ]

  fetch_remote-IsFetched :
      (d p : Text) (info : DependencyInfo) (w : W) → IsFetched (fetch_remote host mtime d p info w)
  unfolding fetch_remote
  fetch_remote-IsFetched d p info w =
      bind_rule Any IsFetched (info_remote_path host info w) _ tt (λ e v. tt)
        λ path w1 _.
          bind_rule IsHere IsFetched (require_path host mtime d p path w1) _
            (require_path-IsHere d p path w1) (λ e v. tt) (λ there w2 h. h)

  -- FetchPathWithVersion raises, or it returns a path that exists in the file system it leaves.
  pub fetch_path-IsFetched :
      (l : Lookup) (d p : Text) (w : W) → IsFetched (fetch_path_with_version host mtime l d p w)
  unfolding fetch_path_with_version fetch_from
  fetch_path-IsFetched l d p w = go (get_dependency_info d p l)
    where
      from_local :
          (info : DependencyInfo) (o : Option Text) → IsFetched (fetch_from host mtime d p info o w)
      from_local info none = fetch_remote-IsFetched d p info w
      from_local info (some path) = elim (Bool-cases (is_missing host mtime (some path) w)) [
        | inl e ↦ rw e (fetch_remote-IsFetched d p info w)
        | inr e ↦ rw e (unfold is_missing in (ground arith, ground arith))
      ]

      go :
          (o : Option DependencyInfo)
          → IsFetched (elim o [
            | none ↦ (err (no_path_found_error (d ∷ []) p), w)
            | some info ↦ fetch_from host mtime d p info (info_local_path host mtime info w) w
          ])
      go none = tt
      go (some info) = from_local info (info_local_path host mtime info w)
