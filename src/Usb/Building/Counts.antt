-- ===== src/Usb/Building/Counts.antt =====
-- How many nodes of a tree satisfy a test, before and after a change of the tree.
use udroid.Prelude.{
  ℕ, suc, ◌+◌, Bool, Option, none, some, if◌then◌else◌, how_many, how_many-append, ℤ, same_int, ◌≡◌,
  refl, arith, inl, inr, Bool-cases,
}
use udroid.Prelude.Effects.{Outcome, ok, err}
use udroid.Usb.{
  UsbError, Details, Node, node, Ports, no_device, at_port, details, number, has_port, place,
  add_child, all_nodes, all_below, or_after, rebuilt, change_found, change_below,
}

module _ (t : Details → Bool) where
  abbrev pub count : Node → ℕ
  count n = how_many (λ m. t (details m)) (all_nodes n)

  abbrev count_below : Ports → ℕ
  count_below ports = how_many (λ m. t (details m)) (all_below ports)

  pub count-node :
      (d : Details) (ports : Ports)
      → count (node d ports) ≡ (if t d then suc (count_below ports) else count_below ports)
  unfolding all_nodes
  count-node d ports = refl

  count_below-at_port :
      (p : ℕ) (n : Node) (ports : Ports)
      → count_below (at_port p n ports) ≡ count n + count_below ports
  unfolding all_nodes
  count_below-at_port p n ports =
      how_many-append (λ m. t (details m)) (all_nodes n) (all_below ports)

  count_below-place :
      (p : ℕ) (child : Node) (ports : Ports)
      → count_below (place p child ports) ≡ count_below ports + count child
  unfolding all_nodes
  count_below-place p child no_device = omega (arith, count_below-at_port p child no_device)
  count_below-place p child (at_port q n ports) = omega (
    arith,
    count_below-at_port q n ports,
    count_below-at_port q n (place p child ports),
    count_below-place p child ports,
  )

  -- The call adds `k` to the number of nodes, where it returns.
  abbrev pub Adds : ℕ → ℕ → Outcome UsbError Node → Type 0
  Adds k before (err e) = Unit
  Adds k before (ok n) = count n ≡ before + k

  abbrev AddsBelow : ℕ → ℕ → Outcome UsbError Ports → Type 0
  AddsBelow k before (err e) = Unit
  AddsBelow k before (ok ports) = count_below ports ≡ before + k

  pub add_child-Adds :
      (port : ℕ) (child n : Node) → Adds (count child) (count n) (add_child port child n)
  unfolding add_child
  add_child-Adds port child (node d ports) = elim (Bool-cases (has_port (node d ports) port)) [
    | inl e ↦ rw e tt
    | inr e ↦ rw e (
        ground (
          arith,
          count-node d ports,
          count-node d (place port child ports),
          count_below-place port child ports,
        ))
  ]

  abbrev pub Maybe : ℕ → ℕ → Option (Outcome UsbError Node) → Type 0
  Maybe k before none = Unit
  Maybe k before (some r) = Adds k before r

  abbrev MaybeBelow : ℕ → ℕ → Option (Outcome UsbError Ports) → Type 0
  MaybeBelow k before none = Unit
  MaybeBelow k before (some r) = AddsBelow k before r

  rebuilt-node :
      (k : ℕ) (d : Details) (ports : Ports) (r : Option (Outcome UsbError Ports))
      → MaybeBelow k (count_below ports) r
      → Maybe k (count (node d ports)) (rebuilt (node d) r)
  rebuilt-node k d ports none h = tt
  rebuilt-node k d ports (some (err e)) h = tt
  rebuilt-node k d ports (some (ok ports')) h =
      ground (arith, count-node d ports, count-node d ports', h)

  or_after-MaybeBelow :
      (k p : ℕ) (n : Node) (ports : Ports) (r : Option (Outcome UsbError Node))
      (s : Option (Outcome UsbError Ports))
      → Maybe k (count n) r
      → MaybeBelow k (count_below ports) s
      → MaybeBelow k
          (count_below (at_port p n ports))
          (or_after (rebuilt (λ child. at_port p child ports) r) (rebuilt (at_port p n) s))
  or_after-MaybeBelow k p n ports (some (err e)) s h h' = tt
  or_after-MaybeBelow k p n ports (some (ok n')) s h h' =
      omega (arith, count_below-at_port p n ports, count_below-at_port p n' ports, h)
  or_after-MaybeBelow k p n ports none none h h' = tt
  or_after-MaybeBelow k p n ports none (some (err e)) h h' = tt
  or_after-MaybeBelow k p n ports none (some (ok ports')) h h' =
      omega (arith, count_below-at_port p n ports, count_below-at_port p n ports', h')

  module _ (k : ℕ) (findnum : ℤ) (f : Node → Outcome UsbError Node)
      (adds : (n : Node) → Adds k (count n) (f n)) where
    mutual
      unfolding change_found change_below

      change_found-Maybe : (n : Node) → Maybe k (count n) (change_found findnum f n)
      change_found-Maybe (node d ports) = elim (Bool-cases (same_int (number d) findnum)) [
        | inl e ↦ rw e (adds (node d ports))
        | inr e ↦
            rw e (rebuilt-node k d ports (change_below findnum f ports) (change_below-Maybe ports))
      ]

      change_below-Maybe :
          (ports : Ports) → MaybeBelow k (count_below ports) (change_below findnum f ports)
      change_below-Maybe no_device = tt
      change_below-Maybe (at_port p n ports) =
          or_after-MaybeBelow k p n ports (change_found findnum f n) (change_below findnum f ports)
            (change_found-Maybe n) (change_below-Maybe ports)

    pub change_found-Adds : (n : Node) → Maybe k (count n) (change_found findnum f n)
    change_found-Adds n = change_found-Maybe n
