-- ===== src/FlagChanger/Session.antt =====
-- PushFlags as an operation on sets of flags, and the context manager CustomCommandLineFlags.
use udroid.Prelude.{
  ◌≡◌, refl, sym, ap, ◌∙◌, inl, inr, Bool, true, false, not, ◌&&◌, ◌||◌, some, List, [], ◌∷◌, ◌++◌,
  Text, arith, all, leb, contains, difference, contains-append, contains-difference, all_of_subset,
  Bool-cases, is_some,
}
use udroid.Flags.{parse_flags, serialize_flags}
use udroid.Flags.Strip.{parse-serialize}
use udroid.Flags.RoundTrip.{is_restorable}
use udroid.FlagChanger.{
  Device, FlagChanger, Result, ok, err, value_error, command_line, write_command_line, store_top,
  get_current_flags, has_char, nougat, needs_permissive, replace_flags, push_flags, pushed, restore,
  restore_stack, set_permissive, in_block, after_body, instead, and_then, set_enforcing,
  remove_legacy, new_flag_changer, with_flags, with_changer, custom_command_line_flags,
}
use udroid.FlagChanger.Stack.{update_lem}

-- The order in which a set is iterated neither adds a text nor loses one.
pub record IsSetOrder (set : List Text → List Text) : Type 0 where
  pub members : (xs : List Text) (t : Text) → contains t (set xs) ≡ contains t xs

-- What a `with` block leaves: its result and the device.
abbrev ended : Result (Unit {0}) → Device → Result (Unit {0}) × Device
ended result d = (result, d)

mode_inside :
    (d : Device)
    → (remove_legacy (set_permissive (needs_permissive d) d)).enforcing
      ≡ (d.enforcing && not (leb 24 d.sdk))
unfolding remove_legacy set_permissive needs_permissive nougat
mode_inside d = ground arith

cmdline-set_enforcing : (needs : Bool) (d : Device) → (set_enforcing needs d).cmdline ≡ d.cmdline
unfolding set_enforcing
cmdline-set_enforcing true d = refl
cmdline-set_enforcing false d = refl

mode_after :
    (d d' : Device)
    → d'.enforcing ≡ (d.enforcing && not (leb 24 d.sdk))
    → (set_enforcing (needs_permissive d) d').enforcing ≡ d.enforcing
unfolding set_enforcing needs_permissive nougat
mode_after d d' h = ground arith

mode_back :
    (d : Device) → set_enforcing (needs_permissive d) (set_permissive (needs_permissive d) d) ≡ d
unfolding set_enforcing set_permissive needs_permissive nougat
mode_back d = ground arith

module _ (set : List Text → List Text) (laws : IsSetOrder set) where
  set_restorable :
      (xs : List Text) → all is_restorable xs ≡ true → all is_restorable (set xs) ≡ true
  set_restorable xs h =
      all_of_subset is_restorable xs (set xs) h (λ t k. sym (laws.members xs t) ∙ k)

  pushed_members :
      (add remove top : List Text) (t : Text)
      → contains t (set (pushed set add remove top))
        ≡ ((contains t top || contains t add) && not (contains t remove))
  unfolding pushed
  pushed_members add remove top t =
      laws.members (set (difference (top ++ add) remove)) t
      ∙ laws.members (difference (top ++ add) remove) t
      ∙ contains-difference t (top ++ add) remove
      ∙ ap (λ (b : Bool). b && not (contains t remove)) (contains-append t top add)

  union_restorable :
      (top add : List Text)
      → all is_restorable top ≡ true
      → all is_restorable add ≡ true
      → all is_restorable (top ++ add) ≡ true
  union_restorable [] add h k = k
  union_restorable (t ∷ top) add h k = ground (arith, union_restorable top add)

  pushed_restorable :
      (add remove top : List Text)
      → all is_restorable top ≡ true
      → all is_restorable add ≡ true
      → all is_restorable (set (pushed set add remove top)) ≡ true
  pushed_restorable add remove top h k =
      all_of_subset is_restorable (top ++ add) _ (union_restorable top add h k) (λ t m.
        ground (arith, sym (pushed_members add remove top t) ∙ m, contains-append t top add))

  -- PushFlags of restorable flags onto restorable flags returns the flags that the device then
  -- holds: those that were on top or are added, less those removed. It stacks their set.
  pub push_flags_members :
      (add remove top : List Text) (rest : List (List Text)) (d : Device)
      → all is_restorable top ≡ true
      → all is_restorable add ≡ true
      → (now : List Text) × (push_flags set add remove
            (record { device = d; state_stack = top ∷ rest })
          ≡ (
            ok now,
            record { device = write_command_line now d; state_stack = set now ∷ top ∷ rest },
          ))
        × ((t : Text)
            → contains t now ≡ ((contains t top || contains t add) && not (contains t remove)))
  unfolding push_flags replace_flags
  push_flags_members add remove top rest d h k = (
    set (pushed set add remove top),
    update_lem set (set (pushed set add remove top)) (top ∷ rest) d
        (pushed_restorable add remove top h k),
    pushed_members add remove top,
  )

  command_line-remove_legacy : (d : Device) → command_line (remove_legacy d) ≡ command_line d
  unfolding command_line remove_legacy
  command_line-remove_legacy d = elim (Bool-cases (is_some d.legacy)) [
    | inl e ↦ rw e refl
    | inr e ↦ rw e refl
  ]

  new_flag_changer_lem :
      (name : Text) (before : List Text) (d : Device)
      → has_char b'/' name ≡ false
      → parse_flags (command_line d) ≡ some before
      → new_flag_changer set name d
        ≡ (ok (record { device = remove_legacy d; state_stack = set before ∷ [] }), remove_legacy d)
  unfolding new_flag_changer get_current_flags store_top
  new_flag_changer_lem name before d h e = rw h (
      ap (λ (m : Result (List Text) × FlagChanger). (instead m.0 m.1, m.1.device))
        (current (rw (command_line-remove_legacy d) e)))
    where
      current :
          parse_flags (command_line (remove_legacy d)) ≡ some before
          → get_current_flags set (record { device = remove_legacy d; state_stack = [] ∷ [] })
            ≡ (ok before, record { device = remove_legacy d; state_stack = set before ∷ [] })
      current p = rw (p, get_current_flags) refl

  with_flags_lem :
      (body : Device → Result (Unit {0}) × Device) (flags top : List Text) (d : Device)
      → all is_restorable flags ≡ true
      → all is_restorable top ≡ true
      → (let (result, d') = body (write_command_line (set flags) d) in
          with_flags set body flags (record { device = d; state_stack = top ∷ [] })
          ≡ (result, write_command_line top d'))
  unfolding with_flags in_block after_body replace_flags restore restore_stack
  with_flags_lem body flags top d h k =
      let (result, d') = body (write_command_line (set flags) d) in
      ap (in_block set body) (update_lem set (set flags) (top ∷ []) d (set_restorable flags h))
      ∙ ap (λ (m : Result (List Text) × FlagChanger). (and_then m.0 result, m.1.device))
          (update_lem set top [] d' k)

  command_line-set_permissive :
      (needs : Bool) (d : Device) → command_line (set_permissive needs d) ≡ command_line d
  unfolding command_line set_permissive
  command_line-set_permissive true d = refl
  command_line-set_permissive false d = refl

  session_lem :
      (body : Device → Result (Unit {0}) × Device) (name : Text) (flags before : List Text)
      (d : Device)
      → has_char b'/' name ≡ false
      → all is_restorable flags ≡ true
      → all is_restorable before ≡ true
      → parse_flags (command_line d) ≡ some before
      → (let needs = needs_permissive d in
          let (result, d') =
            body (write_command_line (set flags) (remove_legacy (set_permissive needs d))) in
          custom_command_line_flags set body name flags d
          ≡ (result, set_enforcing needs (write_command_line (set before) d')))
  unfolding custom_command_line_flags with_changer
  session_lem body name flags before d n h k e =
      let needs = needs_permissive d in
      let start : Device = set_permissive needs d in
      ap
        (λ (m : Result FlagChanger × Device).
          let r : Result (Unit {0}) × Device = with_changer set body flags m.0 m.1 in
          ended r.0 (set_enforcing needs r.1))
        (new_flag_changer_lem name before start n (rw (command_line-set_permissive needs d) e))
      ∙ ap (λ (r : Result (Unit {0}) × Device). ended r.0 (set_enforcing needs r.1))
          (with_flags_lem body flags (set before) (remove_legacy start) h (set_restorable before k))

  -- Where the name has no slash, the flags given and the flags on the device are restorable, and
  -- the caller's block leaves the SELinux mode alone: the block runs on a device that holds the
  -- set of the flags given, not enforcing from SDK 24 on; its result is returned; afterwards the
  -- command line is that of the flags from before, and the SELinux mode is the one from before.
  pub session_restores :
      (body : Device → Result (Unit {0}) × Device) (name : Text) (flags before : List Text)
      (d : Device)
      → has_char b'/' name ≡ false
      → all is_restorable flags ≡ true
      → all is_restorable before ≡ true
      → parse_flags (command_line d) ≡ some before
      → ((x : Device) → (body x).1.enforcing ≡ x.enforcing)
      → (inside : Device) × (parse_flags (command_line inside) ≡ some (set flags))
        × (inside.enforcing ≡ (d.enforcing && not (leb 24 d.sdk)))
        × ((custom_command_line_flags set body name flags d).0 ≡ (body inside).0)
        × ((custom_command_line_flags set body name flags d).1.cmdline
            ≡ serialize_flags (set before))
        × ((custom_command_line_flags set body name flags d).1.enforcing ≡ d.enforcing)
  unfolding command_line write_command_line
  session_restores body name flags before d n h k e keep =
      let needs = needs_permissive d in
      let inside : Device =
        write_command_line (set flags) (remove_legacy (set_permissive needs d)) in
      let run = session_lem body name flags before d n h k e in
      (
        inside,
        parse-serialize (set flags) (set_restorable flags h),
        mode_inside d,
        ap (λ (r : Result (Unit {0}) × Device). r.0) run,
        ap (λ (r : Result (Unit {0}) × Device). r.1.cmdline) run
            ∙ cmdline-set_enforcing needs (write_command_line (set before) (body inside).1),
        ap (λ (r : Result (Unit {0}) × Device). r.1.enforcing) run
            ∙ mode_after d (write_command_line (set before) (body inside).1)
                (keep inside ∙ mode_inside d),
      )

  -- A name with a slash raises ValueError, the block does not run, and the device is as before.
  pub session_bad_name :
      (body : Device → Result (Unit {0}) × Device) (name : Text) (flags : List Text) (d : Device)
      → has_char b'/' name ≡ true
      → custom_command_line_flags set body name flags d ≡ (err value_error, d)
  unfolding custom_command_line_flags with_changer new_flag_changer
  session_bad_name body name flags d n = rw n (ap (ended (err value_error)) (mode_back d))
