-- ===== src/Forwarder/Trace.antt =====
-- The Forwarder along any sequence of its methods, and what one call of each leaves.
use udroid.Prelude.{
  Bool, true, false, Option, none, some, [], ◌∷◌, Text, text_eq, if◌then◌else◌, arith, ◌≡◌, refl,
  ◌∙◌, zero, suc, difference, ℤ, Listed-self,
}
use udroid.Prelude.Effects.{Outcome, ok, err, continue, continue_keeps, when}
use udroid.Forwarder.{
  Failure, HostRun, exited, run_timed_out, not_built, run_os_error, unmap_all_ports, lift,
  call_tool, changed, Tools, SerialWithPort, same_port, Forwarder, Held, Process, new_forwarder,
  kill_device_locked, init_device_locked, map_one, unmap_device_port_locked, unmap_all_locked,
  release, with_instance, unmap_all_device_ports, after_unmap_all, delete_device,
}
use udroid.Forwarder.Inverse.{
  IsInverse, host_of, new_forwarder-IsInverse, port_eq, delete_device_lem, left_of,
}
use udroid.Forwarder.Methods.{
  is_key_error, FreshAnswer, map_answer, kill_device_locked-Sound, init_device_locked-Sound,
  map_one-Sound, unmap_device_port_locked-Sound, unmap_all_locked-Sound,
}

module _ {W : Type 0} (tools : Tools W) where
  -- A call of a method that holds the lock, whether it returns or raises; a round of Map's loop is
  -- one where host_forwarder answers with ports that are not in use.
  pub data Step (s : Held W) : Held W → Type 0 where
    initialized : (serial : Text) → Step s (init_device_locked tools serial s).1
    mapped :
        (serial : Text) (pair : ℤ × ℤ)
        → FreshAnswer tools serial (map_answer tools serial pair s) s.forwarder
        → Step s (map_one tools serial pair s).1
    unmapped : (port : ℤ) (serial : Text) → Step s (unmap_device_port_locked tools port serial s).1
    unmapped_all : (serial : Text) → Step s (unmap_all_locked tools serial s).1
    killed_device : (serial : Text) → Step s (kill_device_locked tools serial s).1
    elsewhere : (w : W) → Step s (record { forwarder = s.forwarder; world = w })

  pub data Reach (s : Held W) : Held W → Type 0 where
    here : Reach s s
    next : {t u : Held W} → Reach s t → Step t u → Reach s u

  Step-IsInverse : {s t : Held W} → Step s t → IsInverse s.forwarder → IsInverse t.forwarder
  Step-IsInverse {s} (initialized serial) h = (init_device_locked-Sound tools serial s h).1
  Step-IsInverse {s} (mapped serial pair fresh) h = (map_one-Sound tools serial pair s fresh h).1
  Step-IsInverse {s} (unmapped port serial) h =
      (unmap_device_port_locked-Sound tools port serial s h).1
  Step-IsInverse {s} (unmapped_all serial) h = (unmap_all_locked-Sound tools serial s h).1
  Step-IsInverse {s} (killed_device serial) h = (kill_device_locked-Sound tools serial s h).1
  Step-IsInverse (elsewhere w) h = h

  Reach-keeps : {s t : Held W} → Reach s t → IsInverse s.forwarder → IsInverse t.forwarder
  Reach-keeps here h = h
  Reach-keeps (next r st) h = Step-IsInverse st (Reach-keeps r h)

  -- However the methods of a new Forwarder are called, where host_forwarder names only ports that
  -- are not in use: the maps stay inverse to one another, and neither unmapping a port nor unmapping all
  -- ports of a device raises a KeyError.
  pub Reach-IsInverse :
      (w : W) (s : Held W) (port : ℤ) (serial : Text)
      → Reach (record { forwarder = new_forwarder; world = w }) s
      → IsInverse s.forwarder
        × (is_key_error (unmap_device_port_locked tools port serial s).0 ≡ false)
        × (is_key_error (unmap_all_locked tools serial s).0 ≡ false)
  Reach-IsInverse w s port serial r =
      let inv = Reach-keeps r new_forwarder-IsInverse in
      (
        inv,
        (unmap_device_port_locked-Sound tools port serial s inv).0,
        (unmap_all_locked-Sound tools serial s inv).0,
      )

  kill_device_locked-keeps :
      (serial : Text) (s : Held W) (q : SerialWithPort)
      → host_of q (kill_device_locked tools serial s).1.forwarder ≡ host_of q s.forwarder
  unfolding kill_device_locked
  kill_device_locked-keeps serial s q =
      let f : Forwarder = record (s.forwarder) {
        initialized_devices = difference s.forwarder.initialized_devices (serial ∷ []);
      } in
      continue_keeps (λ (t : Held W). host_of q t.forwarder ≡ host_of q s.forwarder)
        (lift tools (call_tool tools (tools.device_forwarder_exists serial))
          (record { forwarder = f; world = s.world }))
        _ refl (λ there t e. go there t e)
    where
      go :
          (there : Bool) (t : Held W)
          → host_of q t.forwarder ≡ host_of q s.forwarder
          → host_of q
              (when there
                (lift tools (call_tool tools (tools.kill_device_forwarder serial)))
                t).1.forwarder
            ≡ host_of q s.forwarder
      go true t e = e
      go false t e = e

  -- What UnmapAllDevicePorts of a device leaves, if it returns.
  abbrev Emptied : Text → Forwarder → Outcome Failure (Unit {0}) × Held W → Type 0
  Emptied serial f (err e, s) = Unit
  Emptied serial f (ok _, s) =
      (q : SerialWithPort)
      → host_of q s.forwarder ≡ (if text_eq q.0 serial then none else host_of q f)

  unmap_all_locked-Emptied :
      (serial : Text) (s : Held W)
      → IsInverse s.forwarder
      → Emptied serial s.forwarder (unmap_all_locked tools serial s)
  unfolding unmap_all_locked
  unmap_all_locked-Emptied serial s inv =
      go (tools.run (unmap_all_ports serial) s.world).0
        (tools.run (unmap_all_ports serial) s.world).1
    where
      killed :
          (t : Held W) (m : Outcome Failure (Unit {0}) × Held W)
          → ((q : SerialWithPort) → host_of q m.1.forwarder ≡ host_of q t.forwarder)
          → ((q : SerialWithPort)
              → host_of q t.forwarder
                ≡ (if text_eq q.0 serial then none else host_of q s.forwarder))
          → Emptied serial s.forwarder m
      killed t (ok _, u) same h = λ q. same q ∙ h q
      killed t (err e, u) same h = tt

      deleted :
          (w : W) (m : Outcome Failure (Unit {0}) × Forwarder)
          → m.0 ≡ ok tt
          → ((q : SerialWithPort)
              → host_of q m.1 ≡ left_of serial s.forwarder.device_to_host_port_map s.forwarder q)
          → Emptied serial s.forwarder
              (continue (changed tools w m) (λ _. kill_device_locked tools serial))
      deleted w (ok _, f) e h =
          killed (record { forwarder = f; world = w })
            (kill_device_locked tools serial (record { forwarder = f; world = w }))
            (kill_device_locked-keeps serial (record { forwarder = f; world = w }))
            (λ q. h q ∙ ground arith)
      deleted w (err x, f) e h = tt

      go :
          (result : HostRun) (w : W)
          → Emptied serial s.forwarder
              (after_unmap_all tools serial result (record { forwarder = s.forwarder; world = w }))
      go run_timed_out w = tt
      go not_built w = tt
      go run_os_error w = tt
      go (exited (suc n) output) w = tt
      go (exited zero output) w =
          let (done, _, rest) =
            delete_device_lem serial s.forwarder.device_to_host_port_map s.forwarder inv
              (Listed-self same_port port_eq s.forwarder.device_to_host_port_map inv.distinct) in
          deleted w (delete_device serial s.forwarder.device_to_host_port_map s.forwarder) done rest

  -- The host port that a device port is forwarded to.
  abbrev pub forwarded : SerialWithPort → Process W → Option ℤ
  forwarded q p = elim p.instance_ [ none ↦ none | some f ↦ host_of q f ]

  -- Where the maps are inverse to one another, an UnmapAllDevicePorts that returns has unmapped exactly the
  -- ports of the device.
  pub unmap_all_device_ports_exact :
      (serial : Text) (f : Forwarder) (w : W) (q : SerialWithPort)
      → IsInverse f
      → (unmap_all_device_ports tools serial (record { instance_ = some f; world = w })).0 ≡ ok tt
      → forwarded q
          (unmap_all_device_ports tools serial (record { instance_ = some f; world = w })).1
        ≡ (if text_eq q.0 serial then none else host_of q f)
  unfolding unmap_all_device_ports with_instance
  unmap_all_device_ports_exact serial f w q inv h =
      go (unmap_all_locked tools serial (record { forwarder = f; world = w })) h
        (unmap_all_locked-Emptied serial (record { forwarder = f; world = w }) inv)
    where
      go :
          (m : Outcome Failure (Unit {0}) × Held W)
          → (release tools m).0 ≡ ok tt
          → Emptied serial f m
          → forwarded q (release tools m).1 ≡ (if text_eq q.0 serial then none else host_of q f)
      go (ok _, s) e empty = empty q
      go (err x, s) e empty = cc
