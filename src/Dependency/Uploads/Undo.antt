-- ===== src/Dependency/Uploads/Undo.antt =====
-- Rollback undoes Upload, whatever Upload got done.
use udroid.Prelude.{
  ℕ, suc, ◌≤◌, ◌≡◌, refl, ap, ◌∙◌, inl, inr, Bool, true, false, not, ◌&&◌, ◌||◌, Option, none, some,
  List, [], ◌∷◌, Text, is_some, text_eq, text_eq-eq, text_eq_refl, arith, Bool-cases,
}
use udroid.Dependency.{Result, ok, err}
use udroid.Dependency.Uploads.{
  Cloud, CloudStorageUploader, Uploading, Batch, path_text, upload, upload_known, then_insert,
  cloud_exists, back_up, insert_file, rollback, upload_all, rollback_all, next_upload,
  next_rollback, rolled_back, cloud_copy, cloud_delete, cloud_insert,
}

-- An uploader as its constructor leaves it: nothing done, and the backup in another place.
abbrev pub is_fresh : CloudStorageUploader → Bool
is_fresh u =
    not u.updated && not u.backed_up && not (text_eq (path_text u.cs_backup_path) u.cs_remote_path)

abbrev pub is_backup_of : CloudStorageUploader → Text → Text → Bool
is_backup_of u bucket path = text_eq bucket u.cs_bucket && text_eq path (path_text u.cs_backup_path)

abbrev pub is_target_of : CloudStorageUploader → Text → Text → Bool
is_target_of u bucket path = text_eq bucket u.cs_bucket && text_eq path u.cs_remote_path

object_same :
    (c : Cloud) (b p b' p' : Text)
    → (text_eq b b' && text_eq p p') ≡ true
    → c.object b p ≡ c.object b' p'
object_same c b p b' p' h =
    ap (λ (t : Text). c.object t p) (text_eq-eq b b' (ground arith))
    ∙ ap (λ (t : Text). c.object b' t) (text_eq-eq p p' (ground arith))

abbrev pub is_ok {ℓ} : {A : Type ℓ} → Result A → Bool
is_ok (ok a) = true
is_ok (err e) = false

module _ (fails : ℕ → Bool) (read_local : Text → Text) (u : CloudStorageUploader) (c : Cloud)
    (fresh : is_fresh u ≡ true) where
  -- `s` is undone: with the objects of `s` at the backup, at the target and at (b, p), Rollback
  -- returns and puts at (b, p) what `c` has there.
  abbrev Undone : Uploading → Type 0
  Undone s =
      (now : Cloud) (b p : Text)
      → now.object u.cs_bucket (path_text u.cs_backup_path)
        ≡ s.cloud.object u.cs_bucket (path_text u.cs_backup_path)
      → now.object u.cs_bucket u.cs_remote_path ≡ s.cloud.object u.cs_bucket u.cs_remote_path
      → now.object b p ≡ s.cloud.object b p
      → fails now.calls ≡ false
      → is_backup_of u b p ≡ false
      → (is_ok (rollback fails read_local s.item now).0 ≡ true)
        × ((rollback fails read_local s.item now).1.cloud.object b p ≡ c.object b p)

  insert-Undone :
      (v : Cloud)
      → v.object ≡ c.object
      → c.object u.cs_bucket u.cs_remote_path ≡ none
      → Undone (insert_file fails read_local u v).1
  unfolding insert_file rollback cloud_insert cloud_delete
  insert-Undone v e empty now b p at_backup at_target at_place calm off = ground (
    arith,
    text_eq_refl u.cs_bucket,
    text_eq_refl u.cs_remote_path,
    object_same c b p u.cs_bucket u.cs_remote_path,
    ap (λ (f : Text → Text → Option Text). f b p) e,
    ap (λ (f : Text → Text → Option Text). f u.cs_bucket u.cs_remote_path) e,
  )

  backup-Undone :
      (v : Cloud) (old : Text)
      → v.object ≡ c.object
      → c.object u.cs_bucket u.cs_remote_path ≡ some old
      → Undone (then_insert fails read_local (back_up fails read_local u v)).1
  unfolding back_up insert_file rollback cloud_copy cloud_insert
  backup-Undone v old e there now b p at_backup at_target at_place calm off = ground (
    arith,
    text_eq_refl u.cs_bucket,
    text_eq_refl u.cs_remote_path,
    text_eq_refl (path_text u.cs_backup_path),
    object_same c b p u.cs_bucket u.cs_remote_path,
    ap (λ (f : Text → Text → Option Text). f b p) e,
    ap (λ (f : Text → Text → Option Text). f u.cs_bucket u.cs_remote_path) e,
  )

  untouched-Undone : (s : Uploading) → s.item ≡ u → s.cloud.object ≡ c.object → Undone s
  unfolding rollback
  untouched-Undone s i e now b p at_backup at_target at_place calm off =
      rw i (ground (arith, ap (λ (f : Text → Text → Option Text). f b p) e))

  -- Rollback undoes an Upload, at whichever call it raised.
  upload-Undone : (force : Bool) → Undone (upload fails read_local force u c).1
  unfolding upload cloud_exists
  upload-Undone force = elim (Bool-cases (fails c.calls)) [
    | inl f ↦
        rw f (
          untouched-Undone (record { item = u; cloud = record c { calls = suc c.calls } }) refl
            refl)
    | inr f ↦ rw f (known force (c.object u.cs_bucket u.cs_remote_path) refl)
  ]
    where
      called_once : Cloud
      called_once = record c { calls = suc c.calls }

      known :
          (force : Bool) (o : Option Text)
          → c.object u.cs_bucket u.cs_remote_path ≡ o
          → Undone (upload_known fails read_local force u (ok (is_some o), called_once)).1
      known force none e = insert-Undone called_once refl e
      known true (some old) e = backup-Undone called_once old refl e
      known false (some old) e =
          untouched-Undone (record { item = u; cloud = called_once }) refl refl

-- No other upload of the list saves its backup at the backup or at the target of `u`.
abbrev pub apart : CloudStorageUploader → List CloudStorageUploader → Bool
apart u [] = true
apart u (v ∷ us) =
    not (is_backup_of v u.cs_bucket (path_text u.cs_backup_path))
    && not (is_backup_of v u.cs_bucket u.cs_remote_path)
    && apart u us

-- Fresh uploads that do not write over one another's backups.
abbrev pub is_clean : List CloudStorageUploader → Bool
is_clean [] = true
is_clean (u ∷ us) = is_fresh u && apart u us && is_clean us

abbrev pub is_some_backup : List CloudStorageUploader → Text → Text → Bool
is_some_backup [] bucket path = false
is_some_backup (u ∷ us) bucket path = is_backup_of u bucket path || is_some_backup us bucket path

apart_backups :
    (u : CloudStorageUploader) (us : List CloudStorageUploader)
    → apart u us ≡ true
    → (is_some_backup us u.cs_bucket (path_text u.cs_backup_path) ≡ false)
      × (is_some_backup us u.cs_bucket u.cs_remote_path ≡ false)
apart_backups u [] h = (refl, refl)
apart_backups u (v ∷ us) h = ground (arith, apart_backups u us)

module _ (fails : ℕ → Bool) (read_local : Text → Text) where
  rollback_calls :
      (u : CloudStorageUploader) (c : Cloud)
      → c.calls ≤ (rollback fails read_local u c).1.cloud.calls
  unfolding rollback cloud_copy cloud_delete
  rollback_calls u c = ground arith

  fresh_rollback :
      (us : List CloudStorageUploader) (c : Cloud)
      → is_clean us ≡ true
      → ((rollback_all fails read_local us c).0 ≡ ok tt)
        × ((rollback_all fails read_local us c).2 ≡ c)
  unfolding rollback_all
  fresh_rollback [] c h = (refl, refl)
  fresh_rollback (u ∷ us) c h = ground (arith, fresh_rollback us c)

  abbrev pub IsCalm : Cloud → Type 0
  IsCalm c = (n : ℕ) → c.calls ≤ n → fails n ≡ false

  -- Rolling back what a batch has left returns, and every place but the backups is as in `c`.
  abbrev IsUndone : List CloudStorageUploader → Cloud → Batch → Type 0
  IsUndone us c (r, us', c') =
      (b p : Text)
      → is_some_backup us b p ≡ false
      → (is_ok (rollback_all fails read_local us' c').0 ≡ true)
        × (c'.calls ≤ (rollback_all fails read_local us' c').2.calls)
        × ((rollback_all fails read_local us' c').2.object b p ≡ c.object b p)

  rolled_back_lem :
      (us : List CloudStorageUploader) (m : Result Bool × Uploading) (low : ℕ) (want : Option Text)
      (b p : Text)
      → is_ok m.0 ≡ true
      → low ≤ m.1.cloud.calls
      → m.1.cloud.object b p ≡ want
      → (is_ok (rolled_back fails read_local us m).0 ≡ true)
        × (low ≤ (rolled_back fails read_local us m).2.calls)
        × ((rolled_back fails read_local us m).2.object b p ≡ want)
  rolled_back_lem us (ok changed, s) low want b p h k e = (refl, k, e)
  rolled_back_lem us (err x, s) low want b p h k e = cc

  last_rollback :
      (u : CloudStorageUploader) (fresh : is_fresh u ≡ true) (c : Cloud) (s : Uploading)
      → Undone fails read_local u c fresh s
      → (m : Batch) (b p : Text) → is_ok m.0 ≡ true
      → m.2.object u.cs_bucket (path_text u.cs_backup_path)
        ≡ s.cloud.object u.cs_bucket (path_text u.cs_backup_path)
      → m.2.object u.cs_bucket u.cs_remote_path ≡ s.cloud.object u.cs_bucket u.cs_remote_path
      → m.2.object b p ≡ s.cloud.object b p
      → fails m.2.calls ≡ false
      → is_backup_of u b p ≡ false
      → (is_ok (next_rollback fails read_local s.item m).0 ≡ true)
        × (m.2.calls ≤ (next_rollback fails read_local s.item m).2.calls)
        × ((next_rollback fails read_local s.item m).2.object b p ≡ c.object b p)
  last_rollback u fresh c s undone (ok _, us, now) b p h at_backup at_target at_place calm off =
      let (fine, same) = undone now b p at_backup at_target at_place calm off in
      rolled_back_lem us (rollback fails read_local s.item now) now.calls (c.object b p) b p fine
        (rollback_calls s.item now) same
  last_rollback u fresh c s undone (err x, us, now) b p h at_backup at_target at_place calm off = cc

  -- One more upload in front of a batch that can be undone.
  IsUndone-cons :
      (u : CloudStorageUploader) (fresh : is_fresh u ≡ true) (us us' : List CloudStorageUploader)
      (c c' : Cloud) (s : Uploading) (r : Result (Unit {0}))
      → apart u us ≡ true
      → Undone fails read_local u c fresh s
      → IsCalm c'
      → IsUndone us s.cloud (r, us', c')
      → IsUndone (u ∷ us) c (r, s.item ∷ us', c')
  unfolding rollback_all
  IsUndone-cons u fresh us us' c c' s r separate undone calm ih b p off =
      let (at_backup, at_target) = apart_backups u us separate in
      let (fine, later, same) = ih b p (ground arith) in
      let (_, _, same_backup) = ih u.cs_bucket (path_text u.cs_backup_path) at_backup in
      let (_, _, same_target) = ih u.cs_bucket u.cs_remote_path at_target in
      let (fine', later', same') =
        last_rollback u fresh c s undone (rollback_all fails read_local us' c') b p fine same_backup
          same_target same (calm _ later) (ground arith) in
      (fine', omega arith, same')

  fresh-IsUndone :
      (us : List CloudStorageUploader) (c : Cloud) (x : Result (Unit {0}))
      → is_clean us ≡ true
      → IsUndone us c (x, us, c)
  fresh-IsUndone us c x h b p off =
      let (fine, still) = fresh_rollback us c h in
      (ap is_ok fine, rw still (omega arith), ap (λ (k : Cloud). k.object b p) still)

  -- Whatever the batch got done.
  upload_all-IsUndone :
      (force : Bool) (us : List CloudStorageUploader) (c : Cloud)
      → is_clean us ≡ true
      → IsCalm (upload_all fails read_local force us c).2
      → IsUndone us c (upload_all fails read_local force us c)
  unfolding upload_all
  upload_all-IsUndone force [] c h calm = fresh-IsUndone [] c (ok tt) refl
  upload_all-IsUndone force (u ∷ us) c h calm =
      go (upload fails read_local force u c) (upload-Undone fails read_local u c fresh force)
        (λ c1. upload_all-IsUndone force us c1 clean) calm
    where
      fresh : is_fresh u ≡ true
      fresh = ground arith

      clean : is_clean us ≡ true
      clean = ground arith

      separate : apart u us ≡ true
      separate = ground arith

      go :
          (m : Result (Unit {0}) × Uploading)
          → Undone fails read_local u c fresh m.1
          → ((c1 : Cloud)
              → IsCalm (upload_all fails read_local force us c1).2
              → IsUndone us c1 (upload_all fails read_local force us c1))
          → IsCalm (next_upload fails read_local (upload_all fails read_local force us) us m).2
          → IsUndone
              (u ∷ us)
              c
              (next_upload fails read_local (upload_all fails read_local force us) us m)
      go (ok _, s) undone ih calm' =
          let (r, us', c') = upload_all fails read_local force us s.cloud in
          IsUndone-cons u fresh us us' c c' s r separate undone calm' (ih s.cloud calm')
      go (err x, s) undone ih calm' =
          IsUndone-cons u fresh us us c s.cloud s (err x) separate undone calm'
            (fresh-IsUndone us s.cloud (err x) clean)

  -- When an upload of the list has failed, or none has, rolling all of them back in reverse order
  -- returns and leaves every object at a place that is not a backup's as it was before the first upload. Each
  -- uploader is as its constructor leaves it, no backup is saved at another upload's target or
  -- backup, and no call raises from the rollbacks on.
  pub upload_all_undone :
      (force : Bool) (us : List CloudStorageUploader) (c : Cloud)
      → is_clean us ≡ true
      → IsCalm (upload_all fails read_local force us c).2
      → (b p : Text) → is_some_backup us b p ≡ false
      → (is_ok
            (rollback_all fails read_local
              (upload_all fails read_local force us c).1
              (upload_all fails read_local force us c).2).0
          ≡ true)
        × ((rollback_all fails read_local
                (upload_all fails read_local force us c).1
                (upload_all fails read_local force us c).2).2.object
              b p
            ≡ c.object b p)
  upload_all_undone force us c h calm b p off =
      let (fine, _, same) = upload_all-IsUndone force us c h calm b p off in (fine, same)
