-- ===== src/Dependency/Manager/Prefetching.antt =====
-- What PrefetchPaths returns.
use udroid.Prelude.{
  ℕ, ◌+◌, ◌≡◌, refl, ap, inl, inr, Bool, true, false, not, ◌&&◌, ◌||◌, Option, none, some, List, [],
  ◌∷◌, ◌++◌, Text, text_eq, text_eq-eq, if◌then◌else◌, arith, Bool-cases, is_empty, is_some,
  contains, contains-append, append_assoc, append-nil,
}
use udroid.Dependency.{Result, ok, err, bind_rule, Any}
use udroid.Dependency.Remote.{Host}
use udroid.Dependency.Info.{DependencyInfo}
use udroid.Dependency.Manager.{
  Lookup, get_dependency_info, info_local_path, Outcome, found, skipped, missing, truthy,
  prefetch_one, prefetch_missing_locally, prefetch_loop, prefetch_paths, prefetch_result,
  Prefetched, tally, try_remote, keys,
}

abbrev is_skipped : Outcome → Bool
is_skipped skipped = true
is_skipped found = false
is_skipped missing = false

module _ {W : Type 0} (host : Host W) (mtime : Text → W → ℕ) (l : Lookup) (platform : Text)
    (retries : ℕ) where
  abbrev is_configured : Text → Bool
  is_configured t = is_some (get_dependency_info t platform l)

  abbrev Skips : Bool → Result Outcome × W → Type 0
  Skips b (ok o, w) = is_skipped o ≡ b
  Skips b (err e, w) = Unit

  missing_locally-Skips :
      (info : DependencyInfo) (w : W)
      → Skips false (prefetch_missing_locally host mtime retries info w)
  unfolding prefetch_missing_locally
  missing_locally-Skips info w =
      bind_rule Any (Skips false) (try_remote host mtime (retries + 1) info w) _ tt (λ e v. tt)
        (λ path w1 _. pick (truthy path))
    where
      pick : (b : Bool) → is_skipped (if b then found else missing) ≡ false
      pick true = refl
      pick false = refl

  -- Exactly what is not configured for the platform is skipped.
  prefetch_one-Skips :
      (t : Text) (w : W)
      → Skips (not (is_configured t)) (prefetch_one host mtime l platform retries t w)
  unfolding prefetch_one
  prefetch_one-Skips t w = go (get_dependency_info t platform l)
    where
      pick :
          (info : DependencyInfo) (b : Bool)
          → Skips false
              (if b then (ok found, w) else prefetch_missing_locally host mtime retries info w)
      pick info true = refl
      pick info false = missing_locally-Skips info w

      go :
          (o : Option DependencyInfo)
          → Skips (not (is_some o)) (elim o [
            | none ↦ (ok skipped, w)
            | some info ↦
                if truthy (info_local_path host mtime info w)
                then (ok found, w)
                else prefetch_missing_locally host mtime retries info w
          ])
      go none = refl
      go (some info) = pick info (truthy (info_local_path host mtime info w))

  -- The three lists after the dependencies `handled`.
  record Sorts (handled : List Text) (p : Prefetched) : Type 0 where
    skips : (t : Text) → contains t p.skipped_deps ≡ (contains t handled && not (is_configured t))
    finds :
        (t : Text)
        → (contains t p.found_deps || contains t p.missing_deps)
          ≡ (contains t handled && is_configured t)

  configured_same : (u t : Text) → text_eq u t ≡ true → is_configured u ≡ is_configured t
  configured_same u t h = ap (λ (x : Text). is_configured x) (text_eq-eq u t h)

  tally-Sorts :
      (handled : List Text) (p : Prefetched) (t : Text) (o : Outcome)
      → is_skipped o ≡ not (is_configured t)
      → Sorts handled p
      → Sorts (handled ++ t ∷ []) (tally p t o)
  unfolding tally
  tally-Sorts handled p t found e s = record {
    skips = λ u. ground (
      arith,
      contains-append u p.found_deps (t ∷ []),
      contains-append u handled (t ∷ []),
      s.skips u,
      configured_same u t,
    );
    finds = λ u. ground (
      arith,
      contains-append u p.found_deps (t ∷ []),
      contains-append u handled (t ∷ []),
      s.finds u,
      configured_same u t,
    );
  }
  tally-Sorts handled p t skipped e s = record {
    skips = λ u. ground (
      arith,
      contains-append u p.skipped_deps (t ∷ []),
      contains-append u handled (t ∷ []),
      s.skips u,
      configured_same u t,
    );
    finds = λ u. ground (
      arith,
      contains-append u p.skipped_deps (t ∷ []),
      contains-append u handled (t ∷ []),
      s.finds u,
      configured_same u t,
    );
  }
  tally-Sorts handled p t missing e s = record {
    skips = λ u. ground (
      arith,
      contains-append u p.missing_deps (t ∷ []),
      contains-append u handled (t ∷ []),
      s.skips u,
      configured_same u t,
    );
    finds = λ u. ground (
      arith,
      contains-append u p.missing_deps (t ∷ []),
      contains-append u handled (t ∷ []),
      s.finds u,
      configured_same u t,
    );
  }

  abbrev SortsResult : List Text → Result Prefetched × W → Type 0
  SortsResult handled (ok p, w) = Sorts handled p
  SortsResult handled (err e, w) = Unit

  loop-Sorts :
      (handled deps : List Text) (p : Prefetched) (w : W)
      → Sorts handled p
      → SortsResult (handled ++ deps) (prefetch_loop host mtime l platform retries deps p w)
  unfolding prefetch_loop
  loop-Sorts handled [] p w s = rw (append-nil handled) s
  loop-Sorts handled (t ∷ deps) p w s =
      bind_rule (Skips (not (is_configured t))) (SortsResult (handled ++ t ∷ deps))
        (prefetch_one host mtime l platform retries t w) _ (prefetch_one-Skips t w) (λ e v. tt)
        λ o w1 h.
          rw (← append_assoc handled (t ∷ []) deps)
            (loop-Sorts (handled ++ t ∷ []) deps (tally p t o) w1 (tally-Sorts handled p t o h s))

  abbrev IsSorted : List Text → Result (List Text × List Text) × W → Type 0
  IsSorted deps (ok (found_deps, skipped_deps), w) =
      (t : Text)
      → (contains t found_deps ≡ (contains t deps && is_configured t))
        × (contains t skipped_deps ≡ (contains t deps && not (is_configured t)))
  IsSorted deps (err e, w) = Unit

  result-IsSorted :
      (deps : List Text) (p : Prefetched) (w : W)
      → Sorts deps p
      → IsSorted deps (prefetch_result platform p w)
  result-IsSorted deps p w s = elim (Bool-cases (is_empty p.missing_deps)) [
    | inl e ↦ rw e (λ t. (ground (arith, s.finds t, none_missing t p.missing_deps e), s.skips t))
    | inr e ↦ rw e tt
  ]
    where
      none_missing : (t : Text) (xs : List Text) → is_empty xs ≡ true → contains t xs ≡ false
      none_missing t [] h = refl
      none_missing t (x ∷ xs) h = cc

  prefetch_paths-IsSorted :
      (deps : List Text) (w : W)
      → IsSorted
          (if is_empty deps then keys l else deps)
          (prefetch_paths host mtime l platform deps retries w)
  unfolding prefetch_paths
  prefetch_paths-IsSorted deps w =
      let all : List Text = if is_empty deps then keys l else deps in
      bind_rule (SortsResult all) (IsSorted all)
        (prefetch_loop host mtime l platform retries all
          (record { found_deps = []; skipped_deps = []; missing_deps = [] }) w)
        _
        (loop-Sorts [] all (record { found_deps = []; skipped_deps = []; missing_deps = [] }) w
          (record { skips = λ t. refl; finds = λ t. refl }))
        (λ e v. tt) (λ p w1 s. result-IsSorted all p w1 s)

  -- Where PrefetchPaths returns, the first list holds exactly those of the dependencies (all that
  -- are known, if none are given) that are configured for the platform or by default, and the
  -- second list exactly the others.
  pub prefetch_paths_sorts :
      (deps : List Text) (w w' : W) (found_deps skipped_deps : List Text) (t : Text)
      → prefetch_paths host mtime l platform deps retries w ≡ (ok (found_deps, skipped_deps), w')
      → (contains t found_deps ≡ (
          contains t (if is_empty deps then keys l else deps)
          && is_some (get_dependency_info t platform l)))
        × (contains t skipped_deps ≡ (
            contains t (if is_empty deps then keys l else deps)
            && not (is_some (get_dependency_info t platform l))))
  prefetch_paths_sorts deps w w' found_deps skipped_deps t h =
      let sorted = prefetch_paths-IsSorted deps w in (rw h at sorted) t
