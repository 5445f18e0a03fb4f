-- ===== src/Dependency/Configs/Jobs/Atomic.antt =====
-- ExecuteUpdateJobs changes everything it has to, or puts back what it changed.
use udroid.Prelude.{
  Bool, true, false, not, Option, List, [], Text, is_empty, ◌≡◌, ◌≢◌, refl, ap, ◌∙◌, sym, ◌⊎◌, inl,
  inr, Bool-cases, arith,
}
use udroid.Dependency.{Error, read_write_error, Result, ok, err, continue}
use udroid.Dependency.Uploads.{Cloud, CloudStorageUploader, Batch, upload_all, rollback_all}
use udroid.Dependency.Uploads.Undo.{is_ok, is_clean, is_some_backup, IsCalm, upload_all_undone}
use udroid.Dependency.Configs.{ConfigData, same_config, same_config_refl}
use udroid.Dependency.Configs.Jobs.{
  Outside, RoundTrips, BaseConfig, Session, validate_writable, validate_names, validate_updatable,
  is_dirty, undone, undo, after_write, after_uploads, execute_dirty, if_dirty, execute_update_jobs,
}

Result-cases : {A : Type 0} (r : Result A) → ((a : A) × (r ≡ ok a)) ⊎ ((e : Error) × (r ≡ err e))
Result-cases (ok a) = inl (a, refl)
Result-cases (err e) = inr (e, refl)

module _ {F : Type 0} (o : Outside F) where
  -- ExecuteUpdateJobs once the config file is read.
  abbrev loaded_jobs : Bool → Session F → Result ConfigData → Result Bool × Session F
  loaded_jobs force s (err e) = (err e, s)
  loaded_jobs force s (ok stored) =
      if_dirty o force (not (same_config s.config.config_data stored)) s

  abbrev and_then : Bool → Result (Unit {0}) × Session F → Result Bool × Session F
  and_then force m = continue m (λ _ t. continue (is_dirty o t) (if_dirty o force))

  validate_ready :
      (s : Session F)
      → s.config.writable ≡ true
      → is_ok (o.load s.file) ≡ true
      → validate_updatable o false [] [] s ≡ (ok tt, s)
  unfolding validate_updatable validate_writable is_dirty validate_names
  validate_ready s h e = ground arith

  validate_unready :
      (s : Session F) (x : Error)
      → s.config.writable ≡ true
      → o.load s.file ≡ err x
      → validate_updatable o false [] [] s ≡ (err x, s)
  unfolding validate_updatable validate_writable is_dirty validate_names
  validate_unready s x h e = ground arith

  execute_writable :
      (force : Bool) (s : Session F)
      → s.config.writable ≡ true
      → execute_update_jobs o force s ≡ loaded_jobs force s (o.load s.file)
  unfolding execute_update_jobs is_dirty
  execute_writable force s h = go (o.load s.file) refl
    where
      go :
          (r : Result ConfigData)
          → o.load s.file ≡ r
          → execute_update_jobs o force s ≡ loaded_jobs force s r
      go (ok stored) e = ap (and_then force) (validate_ready s h (rw e refl)) ∙ (rw e refl)
      go (err x) e = ap (and_then force) (validate_unready s x h e)

  execute_read_only :
      (force : Bool) (s : Session F)
      → s.config.writable ≡ false
      → execute_update_jobs o force s ≡ (err read_write_error, s)
  unfolding execute_update_jobs validate_updatable validate_writable
  execute_read_only force s h = ground arith

  undone_state :
      (s : Session F) (e : Error) (f : F) (m : Batch)
      → ((undone o s e f m).1.cloud ≡ m.2)
        × ((undone o s e f m).1.config.config_data ≡ s.config.config_data)
  undone_state s e f (ok _, us, c) = (refl, refl)
  undone_state s e f (err x, us, c) = (refl, refl)

  undone_error :
      (s : Session F) (e : Error) (f : F) (m : Batch)
      → is_ok m.0 ≡ true
      → (undone o s e f m).0 ≡ err e
  undone_error s e f (ok _, us, c) h = refl
  undone_error s e f (err x, us, c) h = cc

  no_undo :
      {P : Type 0} (s : Session F) (e : Error) (f : F) (m : Batch)
      → (undone o s e f m).0 ≡ ok true
      → P
  no_undo s e f (ok _, us, c) h = cc
  no_undo s e f (err x, us, c) h = cc

  undo_restores :
      (s : Session F) (e : Error) (f : F) (us : List CloudStorageUploader) (c : Cloud) (b p : Text)
      (want : Option Text)
      → (rollback_all o.fails o.read_local us c).2.object b p ≡ want
      → ((undo o s e f us c).1.cloud.object b p ≡ want)
        × ((undo o s e f us c).1.config.config_data ≡ s.config.config_data)
  undo_restores s e f us c b p want h =
      let (same, kept) = undone_state s e f (rollback_all o.fails o.read_local us c) in
      (ap (λ (k : Cloud). k.object b p) same ∙ h, kept)

  after_uploads_restores :
      (s : Session F) (m : Batch) (b p : Text) (want : Option Text)
      → (rollback_all o.fails o.read_local m.1 m.2).2.object b p ≡ want
      → (after_uploads o s m).0 ≢ ok true
      → ((after_uploads o s m).1.cloud.object b p ≡ want)
        × ((after_uploads o s m).1.config.config_data ≡ s.config.config_data)
  after_uploads_restores s (err e, us, c) b p want h bad = undo_restores s e s.file us c b p want h
  after_uploads_restores s (ok _, us, c) b p want h bad =
      go (o.dump s.config.config_data s.file) bad
    where
      go :
          (w : Result (Unit {0}) × F)
          → (after_write o s us c w).0 ≢ ok true
          → ((after_write o s us c w).1.cloud.object b p ≡ want)
            × ((after_write o s us c w).1.config.config_data ≡ s.config.config_data)
      go (ok _, f) bad' = absurd (bad' refl)
      go (err e, f) bad' = undo_restores s e f us c b p want h

  execute_some :
      (force : Bool) (s : Session F)
      → is_empty s.config.pending_uploads ≡ false
      → execute_dirty o force s
        ≡ after_uploads o s (upload_all o.fails o.read_local force s.config.pending_uploads s.cloud)
  unfolding execute_dirty
  execute_some force s h = rw (h, execute_dirty) refl

  execute_dirty_restores :
      (force : Bool) (s : Session F) (b p : Text)
      → (rollback_all o.fails o.read_local
            (upload_all o.fails o.read_local force s.config.pending_uploads s.cloud).1
            (upload_all o.fails o.read_local force s.config.pending_uploads s.cloud).2).2.object
          b p
        ≡ s.cloud.object b p
      → (execute_dirty o force s).0 ≢ ok true
      → ((execute_dirty o force s).1.cloud.object b p ≡ s.cloud.object b p)
        × ((execute_dirty o force s).1.config.config_data ≡ s.config.config_data)
  execute_dirty_restores force s b p restored bad =
      elim (Bool-cases (is_empty s.config.pending_uploads)) [
        | inl none_pending ↦ absurd (bad (unfold execute_dirty in rw none_pending refl))
        | inr some_pending ↦ rw (execute_some force s some_pending) (
            after_uploads_restores s
              (upload_all o.fails o.read_local force s.config.pending_uploads s.cloud) b p
              (s.cloud.object b p) restored (rw (execute_some force s some_pending) at bad))
      ]

  -- An ExecuteUpdateJobs that does not return True, whether an upload failed or writing the file
  -- did, leaves the config's data and every object at a place that is not a backup's as they were. The pending uploads
  -- have not been executed before, do not write over one another's backups, and no call of the
  -- rollbacks raises.
  pub execute_update_jobs_undone :
      (force : Bool) (s : Session F) (b p : Text)
      → is_clean s.config.pending_uploads ≡ true
      → IsCalm o.fails o.read_local
          (upload_all o.fails o.read_local force s.config.pending_uploads s.cloud).2
      → is_some_backup s.config.pending_uploads b p ≡ false
      → (execute_update_jobs o force s).0 ≢ ok true
      → ((execute_update_jobs o force s).1.cloud.object b p ≡ s.cloud.object b p)
        × ((execute_update_jobs o force s).1.config.config_data ≡ s.config.config_data)
  execute_update_jobs_undone force s b p clean calm off bad = elim (Bool-cases s.config.writable) [
    | inr h ↦ rw (execute_read_only force s h) (refl, refl)
    | inl h ↦
        rw (execute_writable force s h)
          (loaded (o.load s.file) (rw (execute_writable force s h) at bad))
  ]
    where
      dirty :
          (d : Bool)
          → (if_dirty o force d s).0 ≢ ok true
          → ((if_dirty o force d s).1.cloud.object b p ≡ s.cloud.object b p)
            × ((if_dirty o force d s).1.config.config_data ≡ s.config.config_data)
      dirty true bad' =
          execute_dirty_restores force s b p
            (upload_all_undone o.fails o.read_local force s.config.pending_uploads s.cloud clean
              calm b p off).1
            bad'
      dirty false bad' = (refl, refl)

      loaded :
          (r : Result ConfigData)
          → (loaded_jobs force s r).0 ≢ ok true
          → ((loaded_jobs force s r).1.cloud.object b p ≡ s.cloud.object b p)
            × ((loaded_jobs force s r).1.config.config_data ≡ s.config.config_data)
      loaded (err e) bad' = (refl, refl)
      loaded (ok stored) bad' = dirty (not (same_config s.config.config_data stored)) bad'

  after_uploads_loads :
      RoundTrips o
      → (s : Session F) (m : Batch) → (after_uploads o s m).0 ≡ ok true
      → (o.load (after_uploads o s m).1.file ≡ ok s.config.config_data)
        × ((after_uploads o s m).1.config ≡ record (s.config) { pending_uploads = [] })
  after_uploads_loads law s (err e, us, c) h =
      no_undo s e s.file (rollback_all o.fails o.read_local us c) h
  after_uploads_loads law s (ok _, us, c) h =
      go (o.dump s.config.config_data s.file) (law.loaded s.config.config_data s.file) h
    where
      go :
          (w : Result (Unit {0}) × F)
          → (w.0 ≡ ok tt → o.load w.1 ≡ ok s.config.config_data)
          → (after_write o s us c w).0 ≡ ok true
          → (o.load (after_write o s us c w).1.file ≡ ok s.config.config_data)
            × ((after_write o s us c w).1.config ≡ record (s.config) { pending_uploads = [] })
      go (ok _, f) l h' = (l refl, refl)
      go (err e, f) l h' = no_undo s e f (rollback_all o.fails o.read_local us c) h'

  -- ExecuteUpdateJobs of a config that the file agrees with.
  execute_clean :
      (force : Bool) (t : Session F) (c : ConfigData)
      → t.config.writable ≡ true
      → t.config.config_data ≡ c
      → o.load t.file ≡ ok c
      → execute_update_jobs o force t ≡ (ok false, t)
  execute_clean force t c w d l =
      execute_writable force t w
      ∙ ap (loaded_jobs force t) l
      ∙ ap (λ (b : Bool). if_dirty o force (not b) t)
          (ap (λ (x : ConfigData). same_config x c) d ∙ same_config_refl c)

  execute_uploads :
      (force : Bool) (s : Session F)
      → is_empty s.config.pending_uploads ≡ false
      → (execute_update_jobs o force s).0 ≡ ok true
      → (s.config.writable ≡ true)
        × (execute_update_jobs o force s
            ≡ after_uploads o s
                (upload_all o.fails o.read_local force s.config.pending_uploads s.cloud))
  execute_uploads force s pending h = elim (Bool-cases s.config.writable) [
    | inr r ↦ absurd (
        not_raised
          (ap (λ (m : Result Bool × Session F). m.0) (sym (execute_read_only force s r)) ∙ h))
    | inl w ↦ (
      w,
      execute_writable force s w
          ∙ loaded (o.load s.file)
              (ap (λ (m : Result Bool × Session F). m.0) (sym (execute_writable force s w)) ∙ h),
    )
  ]
    where
      not_raised : {e : Error} → err e ≢ ok true
      not_raised h' = cc

      dirty :
          (d : Bool)
          → (if_dirty o force d s).0 ≡ ok true
          → if_dirty o force d s
            ≡ after_uploads o s
                (upload_all o.fails o.read_local force s.config.pending_uploads s.cloud)
      dirty true h' = execute_some force s pending
      dirty false h' = cc

      loaded :
          (r : Result ConfigData)
          → (loaded_jobs force s r).0 ≡ ok true
          → loaded_jobs force s r
            ≡ after_uploads o s
                (upload_all o.fails o.read_local force s.config.pending_uploads s.cloud)
      loaded (err e) h' = cc
      loaded (ok stored) h' = dirty (not (same_config s.config.config_data stored)) h'

  -- A config that differs from the file and has no upload pending is not written: ExecuteUpdateJobs
  -- returns True and changes nothing.
  pub execute_update_jobs_skips_write :
      (force : Bool) (s : Session F) (stored : ConfigData)
      → s.config.writable ≡ true
      → o.load s.file ≡ ok stored
      → same_config s.config.config_data stored ≡ false
      → s.config.pending_uploads ≡ []
      → execute_update_jobs o force s ≡ (ok true, s)
  execute_update_jobs_skips_write force s stored w l d none_pending =
      execute_writable force s w
      ∙ ap (loaded_jobs force s) l
      ∙ ap (λ (b : Bool). if_dirty o force (not b) s) d
      ∙ (unfold execute_dirty in rw none_pending refl)

  -- After an ExecuteUpdateJobs that uploaded something and returns True, what is dumped being
  -- loaded again, the file holds the config's data, no upload is pending, and another
  -- ExecuteUpdateJobs returns False and changes nothing.
  pub execute_update_jobs_settles :
      RoundTrips o
      → (force again : Bool) (s : Session F) → is_empty s.config.pending_uploads ≡ false
      → (execute_update_jobs o force s).0 ≡ ok true
      → (o.load (execute_update_jobs o force s).1.file ≡ ok s.config.config_data)
        × ((execute_update_jobs o force s).1.config ≡ record (s.config) { pending_uploads = [] })
        × (execute_update_jobs o again (execute_update_jobs o force s).1
            ≡ (ok false, (execute_update_jobs o force s).1))
  execute_update_jobs_settles law force again s pending h =
      let (w, e) = execute_uploads force s pending h in
      let (l, k) =
        after_uploads_loads law s
          (upload_all o.fails o.read_local force s.config.pending_uploads s.cloud)
          (ap (λ (m : Result Bool × Session F). m.0) (sym e) ∙ h) in
      let l' = ap (λ (m : Result Bool × Session F). o.load m.1.file) e ∙ l in
      let k' = ap (λ (m : Result Bool × Session F). m.1.config) e ∙ k in
      (
        l',
        k',
        execute_clean again (execute_update_jobs o force s).1 s.config.config_data
            (ap (λ (c : BaseConfig). c.writable) k' ∙ w) (ap (λ (c : BaseConfig). c.config_data) k')
            l',
      )
