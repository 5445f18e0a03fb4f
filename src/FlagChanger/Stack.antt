-- ===== src/FlagChanger/Stack.antt =====
-- What the methods of class FlagChanger make of the device and of the stack.
use udroid.Prelude.{
  ℕ, zero, suc, ◌≡◌, refl, ap, ◌∙◌, true, some, List, [], ◌∷◌, ◌++◌, Text, arith, ◌↔◌, ◌<◌, all,
  length, length-append, append_assoc, sym,
}
use udroid.Flags.{parse_flags}
use udroid.Flags.Strip.{parse-serialize}
use udroid.Flags.Total.{parse_flags_total}
use udroid.Flags.RoundTrip.{is_restorable}
use udroid.FlagChanger.{
  Device, FlagChanger, Result, ok, err, assertion_error, command_line, write_command_line,
  store_top, get_current_flags, update_command_line_file, replace_flags, push_flags, pushed,
  restore, restore_stack,
}

-- What the device holds after the flags are written is read back as those flags.
parse-command_line :
    (flags : List Text) (d : Device)
    → all is_restorable flags ≡ true
    → parse_flags (command_line (write_command_line flags d)) ≡ some flags
unfolding command_line write_command_line
parse-command_line flags d h = parse-serialize flags h

module _ (set : List Text → List Text) where
  -- Writing a restorable top flags returns them, and leaves the rest of the stack alone.
  pub update_lem :
      (top : List Text) (rest : List (List Text)) (d : Device)
      → all is_restorable top ≡ true
      → update_command_line_file set (top ∷ rest) d
        ≡ (ok top, record { device = write_command_line top d; state_stack = set top ∷ rest })
  unfolding update_command_line_file get_current_flags store_top
  update_lem top rest d h = rw (parse-command_line top d h, get_current_flags) refl

  -- Whatever was written, the call returns, with one entry on the stack for each before.
  pub update_returns :
      (top : List Text) (rest : List (List Text)) (d : Device)
      → (now : List Text) × (update_command_line_file set (top ∷ rest) d
          ≡ (ok now, record { device = write_command_line top d; state_stack = set now ∷ rest }))
  unfolding update_command_line_file get_current_flags store_top
  update_returns top rest d =
      let (now, e) = parse_flags_total (command_line (write_command_line top d)) in
      (now, rw (e, get_current_flags) refl)

  -- PushFlags with each pair of additions and removals, one after the other.
  abbrev pub push_all : List (List Text × List Text) → FlagChanger → FlagChanger
  push_all [] c = c
  push_all ((add, remove) ∷ ops) c = push_all ops (push_flags set add remove c).1

  abbrev pub restore_times : ℕ → FlagChanger → FlagChanger
  restore_times zero c = c
  restore_times (suc n) c = restore_times n (restore set c).1

  -- One push leaves the entries below where they are.
  push_returns :
      (add remove top : List Text) (rest : List (List Text)) (d : Device)
      → (now written : List Text) × (push_flags set add remove
            (record { device = d; state_stack = top ∷ rest })
          ≡ (
            ok now,
            record { device = write_command_line written d; state_stack = set now ∷ top ∷ rest },
          ))
  unfolding push_flags replace_flags
  push_returns add remove top rest d =
      let written = set (pushed set add remove top) in
      let (now, e) = update_returns written (top ∷ rest) d in (now, written, e)

  restore_chain :
      (e : List Text) (entries : List (List Text)) (top : List Text) (rest : List (List Text))
      (d : Device)
      → all is_restorable top ≡ true
      → restore_times
          (suc (length entries))
          (record { device = d; state_stack = (e ∷ entries) ++ (top ∷ rest) })
        ≡ record { device = write_command_line top d; state_stack = set top ∷ rest }
  unfolding restore restore_stack write_command_line
  restore_chain e [] top rest d h =
      ap (λ (r : Result (List Text) × FlagChanger). r.1) (update_lem top rest d h)
  restore_chain e (e' ∷ entries) top rest d h =
      let (now, r) = update_returns e' (entries ++ (top ∷ rest)) d in
      ap (λ (m : Result (List Text) × FlagChanger). restore_times (suc (length entries)) m.1) r
      ∙ restore_chain (set now) entries top rest (write_command_line e' d) h

  -- Pushes stack their entries over those below; the device keeps all but its command line.
  push_chain :
      (op : List Text × List Text) (ops : List (List Text × List Text)) (top : List Text)
      (rest : List (List Text)) (d : Device)
      → (e : List Text) × (entries : List (List Text)) × (written : List Text) × (length entries
          ≡ length ops)
        × (push_all (op ∷ ops) (record { device = d; state_stack = top ∷ rest }) ≡ record {
          device = write_command_line written d;
          state_stack = (e ∷ entries) ++ (top ∷ rest);
        })
  unfolding write_command_line
  push_chain (add, remove) [] top rest d =
      let (now, written, r) = push_returns add remove top rest d in
      (set now, [], written, refl, ap (λ (m : Result (List Text) × FlagChanger). m.1) r)
  push_chain (add, remove) (op ∷ ops) top rest d =
      let (now, written, r) = push_returns add remove top rest d in
      let (e, entries, last, n, q) =
        push_chain op ops (set now) (top ∷ rest) (write_command_line written d) in
      (
        e,
        entries ++ set now ∷ [],
        last,
        omega (arith, n, length-append {0} entries (set now ∷ [])),
        ap (λ (m : Result (List Text) × FlagChanger). push_all (op ∷ ops) m.1) r
            ∙ q
            ∙ ap
                (λ (es : List (List Text)). record {
                  device = write_command_line last d;
                  state_stack = e ∷ es;
                })
                (sym (append_assoc entries (set now ∷ []) (top ∷ rest))),
      )

  -- As many Restore calls as PushFlags calls bring back the flags that were on top, if none of
  -- those is empty or ends in a backslash: the device's command line is theirs, nothing else of
  -- the device has changed, and the stack is as high as before.
  pub restore_undoes_pushes :
      (op : List Text × List Text) (ops : List (List Text × List Text)) (top : List Text)
      (rest : List (List Text)) (d : Device)
      → all is_restorable top ≡ true
      → restore_times
          (length (op ∷ ops))
          (push_all (op ∷ ops) (record { device = d; state_stack = top ∷ rest }))
        ≡ record { device = write_command_line top d; state_stack = set top ∷ rest }
  unfolding write_command_line
  restore_undoes_pushes op ops top rest d h =
      let (e, entries, written, n, q) = push_chain op ops top rest d in
      ap (λ (c : FlagChanger). restore_times (length (op ∷ ops)) c) q
      ∙ ap
          (λ (k : ℕ). restore_times (suc k) (record {
            device = write_command_line written d;
            state_stack = (e ∷ entries) ++ (top ∷ rest);
          }))
          (sym n)
      ∙ restore_chain e entries top rest (write_command_line written d) h

  -- Restore raises AssertionError, and changes nothing, exactly when the stack has fewer than two
  -- entries.
  pub restore_raises :
      (c : FlagChanger) → ((restore set c ≡ (err assertion_error, c)) ↔ (length c.state_stack < 2))
  unfolding restore
  restore_raises c = go c.state_stack c
    where
      go :
          (st : List (List Text)) (c : FlagChanger)
          → ((restore_stack set st c ≡ (err assertion_error, c)) ↔ (length st < 2))
      go [] c = unfold restore_stack in ((λ e. omega arith), (λ h. refl))
      go (top ∷ []) c = unfold restore_stack in ((λ e. omega arith), (λ h. refl))
      go (top ∷ next ∷ rest) c =
          let (now, r) = update_returns next rest c.device in
          unfold restore_stack in ((λ e. cc), (λ h. absurd (omega arith)))
