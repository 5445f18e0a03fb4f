-- ===== src/Usb/Building/Complete.antt =====
-- The nodes that GetBusNumberToDeviceTreeMap makes of the T lines, counted by their addresses.
use udroid.Prelude.{
  ℕ, zero, suc, ◌+◌, Bool, false, Option, none, some, List, [], ◌∷◌, Text, if◌then◌else◌, ◌==◌,
  how_many, ℤ, pos, int_of, Table, get, put, ◌≡◌, refl, arith, inl, inr, Bool-cases, subst,
}
use udroid.Prelude.Effects.{Outcome, ok, err}
use udroid.Usb.{
  UsbError, Details, bus_details, device_details, Node, node, with_serial, set_serial, all_nodes,
  add_child, change_found,
}
use udroid.Usb.Lines.{TopologyLine, match_t_line, match_s_line}
use udroid.Usb.Building.{
  Address, same_number, same_address, Building, bus_or_new, new_device, or_attribute_error,
  add_below, kept, add_numbered, read_t_line, set_last_serial, read_s_line, and_then, read_lines,
  start, tree_of, get_bus_number_to_device_tree_map,
}
use udroid.Usb.Building.Counts.{count, count-node, Adds, Maybe, add_child-Adds, change_found-Adds}

abbrev pub is_at : Address → Details → Bool
is_at a (bus_details n) = false
is_at a (device_details d) = same_address (d.bus_num, d.device_num) a

-- How many nodes of the trees have the address.
abbrev pub nodes_at : Address → Table ℕ Node → ℕ
nodes_at a [] = 0
nodes_at a ((bus, root) ∷ tree) = count (is_at a) root + nodes_at a tree

abbrev pub address_of : Option TopologyLine → Option Address
address_of none = none
address_of (some line) = elim (int_of line.dev) [
  | none ↦ none
  | some device ↦ some (line.bus, device)
]

abbrev pub is_address : Address → Option Address → Bool
is_address a none = false
is_address a (some b) = same_address b a

-- How many of the lines are T lines of the address.
abbrev pub lines_at : Address → List Text → ℕ
lines_at a lines = how_many (λ line. is_address a (address_of (match_t_line line))) lines

abbrev one_if : Bool → ℕ
one_if b = if b then 1 else 0

nodes_at-put :
    (a : Address) (bus : ℕ) (root : Node) (tree : Table ℕ Node)
    → nodes_at a (put same_number bus root tree)
        + count (is_at a) (bus_or_new bus (get same_number bus tree))
      ≡ nodes_at a tree + count (is_at a) root
unfolding all_nodes
nodes_at-put a bus root [] = omega arith
nodes_at-put a bus root ((b, r) ∷ tree) = elim (Bool-cases (bus == b)) [
  | inl e ↦ rw e (omega arith)
  | inr e ↦ rw e (omega (arith, nodes_at-put a bus root tree))
]

-- What a step adds to the nodes at the address, where it returns.
abbrev Grows : Address → ℕ → ℕ → Outcome UsbError Building → Type 0
Grows a k before (err e) = Unit
Grows a k before (ok b) = nodes_at a b.tree ≡ before + k

kept-Grows :
    (a : Address) (k bus : ℕ) (device : ℤ) (tree : Table ℕ Node) (r : Outcome UsbError Node)
    → Adds (is_at a) k (count (is_at a) (bus_or_new bus (get same_number bus tree))) r
    → Grows a k (nodes_at a tree) (kept bus device tree r)
kept-Grows a k bus device tree (err e) h = tt
kept-Grows a k bus device tree (ok root) h = omega (arith, nodes_at-put a bus root tree, h)

pub or_attribute_error-Adds :
    (t : Details → Bool) (k before : ℕ) (r : Option (Outcome UsbError Node))
    → Maybe t k before r
    → Adds t k before (or_attribute_error r)
or_attribute_error-Adds t k before none h = tt
or_attribute_error-Adds t k before (some r) h = h

pub add_below-Adds :
    (t : Details → Bool) (parent port : ℕ) (child root : Node)
    → Adds t (count t child) (count t root) (add_below parent port child root)
unfolding add_below
add_below-Adds t zero port child root = add_child-Adds t port child root
add_below-Adds t (suc parent) port child root =
    or_attribute_error-Adds t (count t child) (count t root) _ (
      change_found-Adds t (count t child) (pos (suc parent)) (add_child port child)
        (add_child-Adds t port child) root)

count-new_device :
    (a : Address) (info_map : Table Address (Option Text)) (bus : ℕ) (device : ℤ)
    → count (is_at a) (new_device info_map (bus, device)) ≡ one_if (same_address (bus, device) a)
unfolding all_nodes
count-new_device a info_map bus device = refl

pub set_serial-Adds :
    (t : Details → Bool) (serial : Text)
    → ((d : Details) → t (with_serial serial d) ≡ t d)
    → (n : Node) → Adds t 0 (count t n) (set_serial serial n)
set_serial-Adds t serial h (node d ports) =
    ground (arith, count-node t d ports, count-node t (with_serial serial d) ports, h d)

is_at-with_serial :
    (a : Address) (serial : Text) (d : Details) → is_at a (with_serial serial d) ≡ is_at a d
is_at-with_serial a serial (bus_details n) = refl
is_at-with_serial a serial (device_details d) = refl

read_t_line-Grows :
    (a : Address) (info_map : Table Address (Option Text)) (line : Option TopologyLine)
    (b : Building)
    → Grows a
        (one_if (is_address a (address_of line)))
        (nodes_at a b.tree)
        (read_t_line info_map line b)
unfolding read_t_line all_nodes
read_t_line-Grows a info_map none b = omega arith
read_t_line-Grows a info_map (some line) b = go (int_of line.dev)
  where
    go :
        (device : Option ℤ)
        → Grows a
            (one_if (is_address a (elim device [ none ↦ none | some i ↦ some (line.bus, i) ])))
            (nodes_at a b.tree)
            (add_numbered info_map line device b)
    go none = tt
    go (some device) =
        kept-Grows a (one_if (same_address (line.bus, device) a)) line.bus device b.tree _ (
          add_below-Adds (is_at a) line.parent (line.port + 1)
            (new_device info_map (line.bus, device))
            (bus_or_new line.bus (get same_number line.bus b.tree)))

read_s_line-Grows :
    (a : Address) (serial : Option Text) (b : Building)
    → Grows a 0 (nodes_at a b.tree) (read_s_line serial b)
unfolding read_s_line
read_s_line-Grows a none b = omega arith
read_s_line-Grows a (some serial) b = go b.last
  where
    root_of : ℕ → Node
    root_of bus = bus_or_new bus (get same_number bus b.tree)

    go : (last : Option Address) → Grows a 0 (nodes_at a b.tree) (set_last_serial serial last b)
    go none = tt
    go (some (bus, device)) =
        kept-Grows a 0 bus device b.tree
          (or_attribute_error (change_found device (set_serial serial) (root_of bus)))
          (or_attribute_error-Adds (is_at a) 0 (count (is_at a) (root_of bus))
            (change_found device (set_serial serial) (root_of bus))
            (change_found-Adds (is_at a) 0 device (set_serial serial)
              (set_serial-Adds (is_at a) serial (is_at-with_serial a serial)) (root_of bus)))

and_then-Grows :
    (a : Address) (k l before : ℕ) (m : Outcome UsbError Building)
    (f : Building → Outcome UsbError Building)
    → Grows a k before m
    → ((b : Building) → Grows a l (nodes_at a b.tree) (f b))
    → Grows a (k + l) before (and_then m f)
and_then-Grows a k l before (err e) f h g = tt
and_then-Grows a k l before (ok b) f h g = go (f b) (g b)
  where
    go :
        (m : Outcome UsbError Building) → Grows a l (nodes_at a b.tree) m → Grows a (k + l) before m
    go (err e) p = tt
    go (ok b') p = omega (arith, p, h)

read_lines-Grows :
    (a : Address) (info_map : Table Address (Option Text)) (lines : List Text) (b : Building)
    → Grows a (lines_at a lines) (nodes_at a b.tree) (read_lines info_map lines b)
unfolding read_lines
read_lines-Grows a info_map [] b = omega arith
read_lines-Grows a info_map (line ∷ lines) b =
    subst (λ (k : ℕ). Grows a k (nodes_at a b.tree) (read_lines info_map (line ∷ lines) b)) step
      (and_then-Grows a (one_if here + 0) (lines_at a lines) (nodes_at a b.tree)
        (and_then (read_t_line info_map (match_t_line line) b) (read_s_line (match_s_line line)))
        (read_lines info_map lines)
        (and_then-Grows a (one_if here) 0 (nodes_at a b.tree)
          (read_t_line info_map (match_t_line line) b) (read_s_line (match_s_line line))
          (read_t_line-Grows a info_map (match_t_line line) b)
          (read_s_line-Grows a (match_s_line line)))
        (read_lines-Grows a info_map lines))
  where
    here : Bool
    here = is_address a (address_of (match_t_line line))

    step : one_if here + 0 + lines_at a lines ≡ lines_at a (line ∷ lines)
    step = ground arith

-- When GetBusNumberToDeviceTreeMap returns its trees, there are for each address, of a bus number and
-- a device number, as many device nodes in them, over all trees, as there are T lines of that address
-- in the output of usb-devices.
pub tree_map_complete :
    (a : Address) (info_map : Table Address (Option Text)) (lines : List Text) (tree : Table ℕ Node)
    → get_bus_number_to_device_tree_map info_map lines ≡ ok tree
    → nodes_at a tree ≡ lines_at a lines
unfolding get_bus_number_to_device_tree_map
tree_map_complete a info_map lines tree h =
    subst IsComplete h
      (go (read_lines info_map lines start) (read_lines-Grows a info_map lines start))
  where
    IsComplete : Outcome UsbError (Table ℕ Node) → Type 0
    IsComplete r = elim r [ err e ↦ Unit | ok t ↦ nodes_at a t ≡ lines_at a lines ]

    go : (m : Outcome UsbError Building) → Grows a (lines_at a lines) 0 m → IsComplete (tree_of m)
    go (err e) g = tt
    go (ok b) g = omega (arith, g)
