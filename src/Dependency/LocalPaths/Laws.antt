-- ===== src/Dependency/LocalPaths/Laws.antt =====
-- What LocalPathInfo.Update adds, and what it leaves alone.
use udroid.Prelude.{
  ◌≡◌, refl, ap, ◌∙◌, true, not, ◌&&◌, ◌||◌, List, [], ◌∷◌, ◌++◌, Text, arith, contains, text_eq,
  text_eq-eq, append_assoc, append-nil,
}
use udroid.Dependency.LocalPaths.{is_path_in_local_paths, group_list, append_group, update_groups}

pub holds-append :
    (path : Text) (xs ys : List (List Text))
    → is_path_in_local_paths path (xs ++ ys)
      ≡ (is_path_in_local_paths path xs || is_path_in_local_paths path ys)
unfolding is_path_in_local_paths
holds-append path [] ys = refl
holds-append path (paths ∷ xs) ys = ground (arith, holds-append path xs ys)

pub contains-group_list :
    (path : Text) (groups : List (List Text)) (paths : List Text)
    → contains path (group_list groups paths)
      ≡ (contains path paths && not (is_path_in_local_paths path groups))
unfolding group_list
contains-group_list path groups [] = refl
contains-group_list path groups (x ∷ paths) =
    ground (arith, contains-group_list path groups paths, agree)
  where
    agree :
        text_eq path x ≡ true → is_path_in_local_paths path groups ≡ is_path_in_local_paths x groups
    agree h = ap (λ (t : Text). is_path_in_local_paths t groups) (text_eq-eq path x h)

holds-append_group :
    (path : Text) (groups : List (List Text)) (paths : List Text)
    → is_path_in_local_paths path (append_group groups paths)
      ≡ (is_path_in_local_paths path groups || contains path paths)
unfolding append_group
holds-append_group path groups [] = ground arith
holds-append_group path groups (x ∷ paths) =
    holds-append path groups ((x ∷ paths) ∷ []) ∙ (unfold is_path_in_local_paths in ground arith)

holds-cons :
    (path : Text) (paths : List Text) (new : List (List Text))
    → is_path_in_local_paths path (paths ∷ new)
      ≡ (contains path paths || is_path_in_local_paths path new)
unfolding is_path_in_local_paths
holds-cons path paths new = refl

-- After Update a path is in some group exactly if it was in one before or is in one of the
-- groups given.
pub holds-update_groups :
    (path : Text) (groups new : List (List Text))
    → is_path_in_local_paths path (update_groups groups new)
      ≡ (is_path_in_local_paths path groups || is_path_in_local_paths path new)
unfolding update_groups
holds-update_groups path groups [] = unfold is_path_in_local_paths in ground arith
holds-update_groups path groups (paths ∷ new) =
    holds-update_groups path (append_group groups (group_list groups paths)) new
    ∙ ground (
      arith,
      holds-append_group path groups (group_list groups paths),
      contains-group_list path groups paths,
      holds-cons path paths new,
    )

-- Update only puts groups behind those that are there.
pub update_groups_extends :
    (groups new : List (List Text))
    → (extra : List (List Text)) × (update_groups groups new ≡ groups ++ extra)
unfolding update_groups
update_groups_extends groups [] = ([], rw (append-nil groups))
update_groups_extends groups (paths ∷ new) =
    let (extra, e) = update_groups_extends (append_group groups (group_list groups paths)) new in
    let (extra', e') = go (group_list groups paths) in
    (
      extra' ++ extra,
      e ∙ ap (λ (g : List (List Text)). g ++ extra) e' ∙ append_assoc groups extra' extra,
    )
  where
    go : (xs : List Text) → (extra : List (List Text)) × (append_group groups xs ≡ groups ++ extra)
    go [] = ([], unfold append_group in rw (append-nil groups))
    go (x ∷ xs) = ((x ∷ xs) ∷ [], unfold append_group in refl)
