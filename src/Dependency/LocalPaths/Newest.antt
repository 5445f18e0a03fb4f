-- ===== src/Dependency/LocalPaths/Newest.antt =====
-- Which path GetLocalPath returns, and that Update cannot change it.
use udroid.Prelude.{
  ℕ, ◌≤◌, ◌≡◌, refl, ap, inl, inr, Bool, true, false, ◌&&◌, Option, none, some, List, [], ◌∷◌, ◌++◌,
  Text, arith, ltb, contains, text_eq, text_eq-eq, text_eq_refl, Bool-cases, ◌⊎◌, ap,
}
use udroid.Dependency.LocalPaths.{
  is_path_in_local_paths, update_groups, existing, newer, newest, get_local_path,
}
use udroid.Dependency.LocalPaths.Laws.{update_groups_extends}

pub contains-existing :
    (exists : Text → Bool) (path : Text) (paths : List Text)
    → contains path (existing exists paths) ≡ (contains path paths && exists path)
unfolding existing
contains-existing exists path [] = refl
contains-existing exists path (x ∷ paths) =
    ground (arith, contains-existing exists path paths, agree)
  where
    agree : text_eq path x ≡ true → exists path ≡ exists x
    agree h = ap exists (text_eq-eq path x h)

module _ (mtime : Text → ℕ) where
  newer_cases : (a b : Text) → (newer mtime a b ≡ b) ⊎ (newer mtime a b ≡ a)
  unfolding newer
  newer_cases a b = elim (Bool-cases (ltb (mtime a) (mtime b))) [
    | inl e ↦ inl (rw e)
    | inr e ↦ inr (rw e)
  ]

  newer_max :
      (a b : Text) → (mtime a ≤ mtime (newer mtime a b)) × (mtime b ≤ mtime (newer mtime a b))
  unfolding newer
  newer_max a b = elim (Bool-cases (ltb (mtime a) (mtime b))) [
    | inl e ↦ rw e (ground arith)
    | inr e ↦ rw e (ground arith)
  ]

  contains_either :
      (n x a b : Text) (ps : List Text)
      → (x ≡ b) ⊎ (x ≡ a)
      → contains n (x ∷ ps) ≡ true
      → contains n (a ∷ b ∷ ps) ≡ true
  contains_either n x a b ps (inl e) h = ground (arith, ap (text_eq n) e)
  contains_either n x a b ps (inr e) h = ground (arith, ap (text_eq n) e)

  -- The newest of a list is one of its members, and none is newer.
  contains-newest :
      (best : Text) (paths : List Text) → contains (newest mtime best paths) (best ∷ paths) ≡ true
  unfolding newest
  contains-newest best [] = ground (arith, text_eq_refl best)
  contains-newest best (path ∷ paths) =
      contains_either _ (newer mtime best path) best path paths (newer_cases best path)
        (contains-newest (newer mtime best path) paths)

  newest-le : (best : Text) (paths : List Text) → mtime best ≤ mtime (newest mtime best paths)
  unfolding newest
  newest-le best [] = omega arith
  newest-le best (path ∷ paths) =
      omega (arith, newer_max best path, newest-le (newer mtime best path) paths)

  newest_max_rest :
      (best : Text) (paths : List Text) (q : Text)
      → contains q paths ≡ true
      → mtime q ≤ mtime (newest mtime best paths)
  unfolding newest
  newest_max_rest best [] q h = cc
  newest_max_rest best (path ∷ paths) q h = elim (Bool-cases (text_eq q path)) [
    | inl e ↦
        rw (text_eq-eq q path e)
          (omega (arith, newer_max best path, newest-le (newer mtime best path) paths))
    | inr e ↦ newest_max_rest (newer mtime best path) paths q (ground arith)
  ]

  newest_max :
      (best : Text) (paths : List Text) (q : Text)
      → contains q (best ∷ paths) ≡ true
      → mtime q ≤ mtime (newest mtime best paths)
  newest_max best paths q h = elim (Bool-cases (text_eq q best)) [
    | inl e ↦ rw (text_eq-eq q best e) (newest-le best paths)
    | inr e ↦ newest_max_rest best paths q (ground arith)
  ]

module _ (exists : Text → Bool) (mtime : Text → ℕ) where
  -- What GetLocalPath may answer: a path of the first group that has an existing one, the newest
  -- of those that exist there; or nothing, where no path of any group exists.
  abbrev pub IsBest : List (List Text) → Option Text → Type 0
  IsBest groups none = (q : Text) → is_path_in_local_paths q groups ≡ true → exists q ≡ false
  IsBest groups (some p) =
      (before : List (List Text)) × (paths : List Text) × (after : List (List Text)) × (groups
        ≡ before ++ paths ∷ after)
      × (contains p paths ≡ true)
      × (exists p ≡ true)
      × ((q : Text) → contains q paths ≡ true → exists q ≡ true → mtime q ≤ mtime p)
      × ((q : Text) → is_path_in_local_paths q before ≡ true → exists q ≡ false)

  none_exists :
      (paths : List Text)
      → existing exists paths ≡ []
      → (q : Text) → contains q paths ≡ true
      → exists q ≡ false
  none_exists paths e q h = ground (arith, contains-existing exists q paths, ap (contains q) e)

  IsBest-cons :
      (paths : List Text) (groups : List (List Text)) (r : Option Text)
      → existing exists paths ≡ []
      → IsBest groups r
      → IsBest (paths ∷ groups) r
  unfolding is_path_in_local_paths
  IsBest-cons paths groups none e h = λ q m. elim (Bool-cases (contains q paths)) [
    | inl c ↦ none_exists paths e q c
    | inr c ↦ h q (ground arith)
  ]
  IsBest-cons paths groups (some p) e (before, group, after, g, c, x, newer_all, none_before) = (
    paths ∷ before,
    group,
    after,
    ap (λ (l : List (List Text)). paths ∷ l) g,
    c,
    x,
    newer_all,
    λ q m. elim (Bool-cases (contains q paths)) [
      | inl k ↦ none_exists paths e q k
      | inr k ↦ none_before q (ground arith)
    ],
  )

  IsBest-here :
      (paths : List Text) (groups : List (List Text)) (first : Text) (others : List Text)
      → existing exists paths ≡ first ∷ others
      → IsBest (paths ∷ groups) (some (newest mtime first others))
  IsBest-here paths groups first others e =
      let p = newest mtime first others in
      let m : contains p (existing exists paths) ≡ true =
        rw e (contains-newest mtime first others) in
      (
        [],
        paths,
        groups,
        refl,
        ground (arith, contains-existing exists p paths),
        ground (arith, contains-existing exists p paths),
        λ q c x.
            newest_max mtime first others q
              (ground (arith, contains-existing exists q paths, ap (contains q) e)),
        λ q h. unfold is_path_in_local_paths in cc,
      )

  -- GetLocalPath returns the newest existing path of the first group that has an existing path,
  -- and nothing exactly where no path of the groups exists.
  pub get_local_path-IsBest :
      (groups : List (List Text)) → IsBest groups (get_local_path exists mtime groups)
  unfolding get_local_path
  get_local_path-IsBest [] = λ q h. unfold is_path_in_local_paths in cc
  get_local_path-IsBest (paths ∷ groups) =
      go (existing exists paths) refl (get_local_path-IsBest groups)
    where
      go :
          (found : List Text)
          → existing exists paths ≡ found
          → IsBest groups (get_local_path exists mtime groups)
          → IsBest (paths ∷ groups) (elim found [
            | [] ↦ get_local_path exists mtime groups
            | path ∷ others ↦ some (newest mtime path others)
          ])
      go [] e h = IsBest-cons paths groups (get_local_path exists mtime groups) e h
      go (first ∷ others) e h = IsBest-here paths groups first others e

  get_local_path-append :
      (groups extra : List (List Text)) (p : Text)
      → get_local_path exists mtime groups ≡ some p
      → get_local_path exists mtime (groups ++ extra) ≡ some p
  unfolding get_local_path
  get_local_path-append [] extra p h = cc
  get_local_path-append (paths ∷ groups) extra p h =
      ground (arith, get_local_path-append groups extra p)

  -- A path that GetLocalPath returns it still returns after Update, whatever is added.
  pub get_local_path-update :
      (groups new : List (List Text)) (p : Text)
      → get_local_path exists mtime groups ≡ some p
      → get_local_path exists mtime (update_groups groups new) ≡ some p
  get_local_path-update groups new p h =
      let (extra, e) = update_groups_extends groups new in
      rw e (get_local_path-append groups extra p h)
