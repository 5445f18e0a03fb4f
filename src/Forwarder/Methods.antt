-- ===== src/Forwarder/Methods.antt =====
-- Each method of the Forwarder keeps the port maps inverse to one another and raises no KeyError.
use udroid.Prelude.{
  zero, suc, Bool, true, false, none, List, [], ◌∷◌, Text, contains, difference, arith, ◌≡◌, refl,
  ap, inl, inr, Bool-cases, Option-cases, ℤ, split, Listed-self,
}
use udroid.Prelude.Effects.{Outcome, ok, err, Exec, continue, when, bind_rule}
use udroid.Forwarder.{
  ports_of, ToolError, command_failed_error, device_unreachable_error, other_error, Failure,
  tool_error, host_forwarder_error, os_error, key_error, value_error, assertion_error,
  unbound_local_error, HostRun, exited, run_timed_out, not_built, run_os_error, map_ports,
  unmap_port, unmap_all_ports, Tools, same_port, Forwarder, Held, parse_ports, delete_device,
  delete_port, Locked, failure_of, call_tool, lift, on_forwarder, kill_device_locked, or_reboot,
  init_device_locked, after_failed_map, record_parsed, after_map, map_one, after_unmap,
  unmap_device_port_locked, after_unmap_all, unmap_all_locked,
}
use udroid.Forwarder.Inverse.{
  IsInverse, host_of, device_of, record_ports-IsInverse, port_eq, delete_port_lem,
  delete_device_lem,
}

abbrev pub is_key_error : {A : Type 0} → Outcome Failure A → Bool
is_key_error (err key_error) = true
is_key_error _ = false

renamed-IsInverse :
    (devices : List Text) (f : Forwarder)
    → IsInverse f
    → IsInverse (record f { initialized_devices = devices })
renamed-IsInverse devices f inv = record {
  to_host = inv.to_host;
  to_device = inv.to_device;
  distinct = inv.distinct;
}

same_error :
    (A B : Type 0) (e : Failure)
    → is_key_error {A = A} (err e) ≡ false
    → is_key_error {A = B} (err e) ≡ false
same_error A B key_error h = cc
same_error A B (tool_error x) h = refl
same_error A B host_forwarder_error h = refl
same_error A B os_error h = refl
same_error A B value_error h = refl
same_error A B assertion_error h = refl
same_error A B unbound_local_error h = refl

module _ {W : Type 0} (tools : Tools W) where
  -- The maps are inverse to one another, and no KeyError was raised.
  abbrev pub Sound : {A : Type 0} → Outcome Failure A × Held W → Type 0
  Sound (r, s) = (is_key_error r ≡ false) × IsInverse s.forwarder

  pub continue-Sound :
      {A B : Type 0} (m : Outcome Failure A × Held W) (f : A → Locked tools B)
      → Sound m
      → ((a : A) (s : Held W) → IsInverse s.forwarder → Sound (f a s))
      → Sound (continue m f)
  continue-Sound {A} {B} m f h k =
      bind_rule Sound Sound m f h (λ e s q. (same_error A B e q.0, q.1)) (λ a s q. k a s q.1)

  tool_result : (A : Type 0) (r : Outcome ToolError A) → is_key_error (failure_of tools r) ≡ false
  tool_result A (ok a) = refl
  tool_result A (err e) = refl

  lift-Sound :
      (A : Type 0) (call : Exec ToolError W A) (s : Held W)
      → IsInverse s.forwarder
      → Sound (lift tools (call_tool tools call) s)
  lift-Sound A call s inv = (tool_result A (call s.world).0, inv)

  pub kill_device_locked-Sound :
      (serial : Text) (s : Held W)
      → IsInverse s.forwarder
      → Sound (kill_device_locked tools serial s)
  unfolding kill_device_locked
  kill_device_locked-Sound serial s inv =
      let f : Forwarder = record (s.forwarder) {
        initialized_devices = difference s.forwarder.initialized_devices (serial ∷ []);
      } in
      continue-Sound
        (lift tools (call_tool tools (tools.device_forwarder_exists serial))
          (record { forwarder = f; world = s.world }))
        (λ there. when there (lift tools (call_tool tools (tools.kill_device_forwarder serial))))
        (lift-Sound Bool (tools.device_forwarder_exists serial)
          (record { forwarder = f; world = s.world })
          (renamed-IsInverse (difference s.forwarder.initialized_devices (serial ∷ [])) s.forwarder
            inv))
        (λ there t inv'. when_there there t inv')
    where
      when_there :
          (there : Bool) (t : Held W)
          → IsInverse t.forwarder
          → Sound (when there (lift tools (call_tool tools (tools.kill_device_forwarder serial))) t)
      when_there true t inv' = lift-Sound (Unit {0}) (tools.kill_device_forwarder serial) t inv'
      when_there false t inv' = (refl, inv')

  or_reboot-Sound :
      (serial : Text) (m : Outcome Failure (Unit {0}) × Held W)
      → Sound m
      → Sound (or_reboot tools serial m)
  or_reboot-Sound serial (ok _, s) h = h
  or_reboot-Sound serial (err (tool_error command_failed_error), s) h =
      lift-Sound (Unit {0}) (tools.reboot serial) s h.1
  or_reboot-Sound serial (err (tool_error device_unreachable_error), s) h = h
  or_reboot-Sound serial (err (tool_error other_error), s) h = h
  or_reboot-Sound serial (err host_forwarder_error, s) h = h
  or_reboot-Sound serial (err os_error, s) h = h
  or_reboot-Sound serial (err key_error, s) h = h
  or_reboot-Sound serial (err value_error, s) h = h
  or_reboot-Sound serial (err assertion_error, s) h = h
  or_reboot-Sound serial (err unbound_local_error, s) h = h

  pub init_device_locked-Sound :
      (serial : Text) (s : Held W)
      → IsInverse s.forwarder
      → Sound (init_device_locked tools serial s)
  unfolding init_device_locked
  init_device_locked-Sound serial s inv =
      elim (Bool-cases (contains serial s.forwarder.initialized_devices)) [
        | inl e ↦ rw e (refl, inv)
        | inr e ↦ rw e (
            continue-Sound (or_reboot tools serial (kill_device_locked tools serial s)) _
              (or_reboot-Sound serial (kill_device_locked tools serial s)
                (kill_device_locked-Sound serial s inv))
              λ _ t1 i1.
                continue-Sound
                  (lift tools (call_tool tools (tools.push_device_forwarder serial)) t1) _
                  (lift-Sound (Unit {0}) (tools.push_device_forwarder serial) t1 i1)
                  λ _ t2 i2.
                    continue-Sound
                      (lift tools (call_tool tools (tools.start_device_forwarder serial)) t2) _
                      (lift-Sound (Unit {0}) (tools.start_device_forwarder serial) t2 i2)
                      λ _ t3 i3. (
                        refl,
                        renamed-IsInverse (serial ∷ t3.forwarder.initialized_devices) t3.forwarder
                            i3,
                      ))
      ]

  after_failed_map-Sound :
      (serial : Text) (m : Outcome Failure (Unit {0}) × Held W)
      → Sound m
      → Sound (after_failed_map tools serial m)
  after_failed_map-Sound serial (ok _, s) h =
      continue-Sound (lift tools (call_tool tools (tools.log_map_failure serial)) s) _
        (lift-Sound (Unit {0}) (tools.log_map_failure serial) s h.1) (λ _ t i. (refl, i))
  after_failed_map-Sound serial (err (tool_error command_failed_error), s) h = (refl, h.1)
  after_failed_map-Sound serial (err (tool_error device_unreachable_error), s) h = (refl, h.1)
  after_failed_map-Sound serial (err (tool_error other_error), s) h = h
  after_failed_map-Sound serial (err host_forwarder_error, s) h = h
  after_failed_map-Sound serial (err os_error, s) h = h
  after_failed_map-Sound serial (err key_error, s) h = h
  after_failed_map-Sound serial (err value_error, s) h = h
  after_failed_map-Sound serial (err assertion_error, s) h = h
  after_failed_map-Sound serial (err unbound_local_error, s) h = h

  -- host_forwarder names ports that are not in use.
  abbrev pub FreshPorts : Text → Outcome Failure (ℤ × ℤ) → Forwarder → Type 0
  FreshPorts serial (err e) f = Unit
  FreshPorts serial (ok (device_port, host_port)) f =
      (host_of (serial, device_port) f ≡ none) × (device_of host_port f ≡ none)

  abbrev pub FreshAnswer : Text → HostRun → Forwarder → Type 0
  FreshAnswer serial (exited zero output) f = FreshPorts serial (parse_ports output) f
  FreshAnswer serial _ f = Unit

  record_parsed-Sound :
      (serial : Text) (r : Outcome Failure (ℤ × ℤ)) (s : Held W)
      → is_key_error r ≡ false
      → FreshPorts serial r s.forwarder
      → IsInverse s.forwarder
      → Sound (record_parsed tools serial r s)
  record_parsed-Sound serial (err e) s n fresh inv = (same_error (ℤ × ℤ) (Unit {0}) e n, inv)
  record_parsed-Sound serial (ok (d, h)) s n fresh inv =
      (refl, record_ports-IsInverse serial d h s.forwarder inv fresh.0 fresh.1)

  parse_ports-result : (output : Text) → is_key_error (parse_ports output) ≡ false
  unfolding parse_ports
  parse_ports-result output = go (split b':' output)
    where
      go : (parts : List Text) → is_key_error (ports_of parts) ≡ false
      go [] = refl
      go (a ∷ []) = refl
      go (a ∷ b ∷ []) = ground arith
      go (a ∷ b ∷ c ∷ parts) = refl

  after_map-Sound :
      (serial : Text) (result : HostRun) (s : Held W)
      → FreshAnswer serial result s.forwarder
      → IsInverse s.forwarder
      → Sound (after_map tools serial result s)
  after_map-Sound serial run_timed_out s fresh inv = (refl, inv)
  after_map-Sound serial not_built s fresh inv = (refl, inv)
  after_map-Sound serial run_os_error s fresh inv = (refl, inv)
  after_map-Sound serial (exited zero output) s fresh inv =
      record_parsed-Sound serial (parse_ports output) s (parse_ports-result output) fresh inv
  after_map-Sound serial (exited (suc n) output) s fresh inv =
      after_failed_map-Sound serial (kill_device_locked tools serial s)
        (kill_device_locked-Sound serial s inv)

  -- The answer that Map's loop gets for a pair of ports.
  abbrev pub map_answer : Text → ℤ × ℤ → Held W → HostRun
  map_answer serial pair s = (tools.run (map_ports serial pair.0 pair.1) s.world).0

  pub map_one-Sound :
      (serial : Text) (pair : ℤ × ℤ) (s : Held W)
      → FreshAnswer serial (map_answer serial pair s) s.forwarder
      → IsInverse s.forwarder
      → Sound (map_one tools serial pair s)
  unfolding map_one
  map_one-Sound serial (d, h) s fresh inv =
      after_map-Sound serial (map_answer serial (d, h) s)
        (record { forwarder = s.forwarder; world = (tools.run (map_ports serial d h) s.world).1 })
        fresh inv

  after_unmap-Sound :
      (result : HostRun) (s : Held W) → IsInverse s.forwarder → Sound (after_unmap tools result s)
  after_unmap-Sound run_timed_out s inv = (refl, inv)
  after_unmap-Sound not_built s inv = (refl, inv)
  after_unmap-Sound run_os_error s inv = (refl, inv)
  after_unmap-Sound (exited n output) s inv = (refl, inv)

  pub unmap_device_port_locked-Sound :
      (d : ℤ) (serial : Text) (s : Held W)
      → IsInverse s.forwarder
      → Sound (unmap_device_port_locked tools d serial s)
  unfolding unmap_device_port_locked
  unmap_device_port_locked-Sound d serial s inv =
      elim (Option-cases (host_of (serial, d) s.forwarder)) [
        | inl e ↦ rw (e, unmap_device_port_locked) (refl, inv)
        | inr (h, e) ↦
            let (done, inv') = delete_port_lem (serial, d) h s.forwarder inv e in
            rw (e, unmap_device_port_locked)
              (continue-Sound (on_forwarder tools (delete_port (serial, d) h) s) _
                (rw done (refl, inv'))
                λ _ t i.
                  after_unmap-Sound (tools.run (unmap_port serial d) t.world).0
                    (record {
                      forwarder = t.forwarder;
                      world = (tools.run (unmap_port serial d) t.world).1;
                    })
                    i)
      ]

  after_unmap_all-Sound :
      (serial : Text) (result : HostRun) (s : Held W)
      → IsInverse s.forwarder
      → Sound (after_unmap_all tools serial result s)
  after_unmap_all-Sound serial run_timed_out s inv = (refl, inv)
  after_unmap_all-Sound serial not_built s inv = (refl, inv)
  after_unmap_all-Sound serial run_os_error s inv = (refl, inv)
  after_unmap_all-Sound serial (exited (suc n) output) s inv = (refl, inv)
  after_unmap_all-Sound serial (exited zero output) s inv =
      let (done, inv', _) =
        delete_device_lem serial s.forwarder.device_to_host_port_map s.forwarder inv
          (Listed-self same_port port_eq s.forwarder.device_to_host_port_map inv.distinct) in
      continue-Sound
        (on_forwarder tools (delete_device serial s.forwarder.device_to_host_port_map) s) _
        (ap is_key_error done, inv') (λ _ t i. kill_device_locked-Sound serial t i)

  pub unmap_all_locked-Sound :
      (serial : Text) (s : Held W) → IsInverse s.forwarder → Sound (unmap_all_locked tools serial s)
  unfolding unmap_all_locked
  unmap_all_locked-Sound serial s inv =
      after_unmap_all-Sound serial (tools.run (unmap_all_ports serial) s.world).0
        (record { forwarder = s.forwarder; world = (tools.run (unmap_all_ports serial) s.world).1 })
        inv
