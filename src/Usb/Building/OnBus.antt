-- ===== src/Usb/Building/OnBus.antt =====
-- Each tree of GetBusNumberToDeviceTreeMap has the nodes of one bus.
use udroid.Prelude.{
  ℕ, ◌+◌, Bool, true, not, Option, none, some, List, [], ◌∷◌, Text, ◌==◌, how_many-all, all, ℤ,
  int_of, Table, get, put, ◌≡◌, refl, sym, ap, ◌∙◌, arith, inl, inr, Bool-cases, subst,
}
use udroid.Prelude.Effects.{Outcome, ok, err}
use udroid.Usb.{
  UsbError, Details, bus_details, device_details, Node, details, bus_of, with_serial, set_serial,
  all_nodes, change_found,
}
use udroid.Usb.Lines.{TopologyLine, match_t_line, match_s_line}
use udroid.Usb.Building.{
  Address, same_number, Building, bus_or_new, new_device, or_attribute_error, add_below, kept,
  add_numbered, read_t_line, set_last_serial, read_s_line, and_then, read_lines, start, tree_of,
  get_bus_number_to_device_tree_map,
}
use udroid.Usb.Building.Counts.{count, Adds, change_found-Adds}
use udroid.Usb.Building.Complete.{add_below-Adds, or_attribute_error-Adds, set_serial-Adds}

abbrev off : ℕ → Details → Bool
off bus d = not (bus_of d == bus)

abbrev OnBus : Table ℕ Node → Type 0
OnBus [] = Unit
OnBus ((bus, root) ∷ tree) = (count (off bus) root ≡ 0) × OnBus tree

same_number-eq : (a b : ℕ) → (a == b) ≡ true → a ≡ b
same_number-eq a b h = ground arith

get-OnBus :
    (bus : ℕ) (tree : Table ℕ Node)
    → OnBus tree
    → count (off bus) (bus_or_new bus (get same_number bus tree)) ≡ 0
unfolding all_nodes
get-OnBus bus [] h = ground arith
get-OnBus bus ((b, root) ∷ tree) (h, hs) = elim (Bool-cases (bus == b)) [
  | inl e ↦ rw (e, same_number-eq bus b e) h
  | inr e ↦ rw e (get-OnBus bus tree hs)
]

put-OnBus :
    (bus : ℕ) (root : Node) (tree : Table ℕ Node)
    → OnBus tree
    → count (off bus) root ≡ 0
    → OnBus (put same_number bus root tree)
put-OnBus bus root [] h k = (k, tt)
put-OnBus bus root ((b, r) ∷ tree) (h, hs) k = elim (Bool-cases (bus == b)) [
  | inl e ↦ rw (e, sym (same_number-eq bus b e)) (k, hs)
  | inr e ↦ rw e (h, put-OnBus bus root tree hs k)
]

abbrev Stays : Outcome UsbError Building → Type 0
Stays (err e) = Unit
Stays (ok b) = OnBus b.tree

kept-Stays :
    (bus : ℕ) (device : ℤ) (tree : Table ℕ Node) (r : Outcome UsbError Node)
    → OnBus tree
    → Adds (off bus) 0 (count (off bus) (bus_or_new bus (get same_number bus tree))) r
    → Stays (kept bus device tree r)
kept-Stays bus device tree (err e) h k = tt
kept-Stays bus device tree (ok root) h k =
    put-OnBus bus root tree h (omega (arith, k, get-OnBus bus tree h))

count-new_device :
    (info_map : Table Address (Option Text)) (bus : ℕ) (device : ℤ)
    → count (off bus) (new_device info_map (bus, device)) ≡ 0
unfolding all_nodes
count-new_device info_map bus device = ground arith

with_serial-bus :
    (serial : Text) (bus : ℕ) (d : Details) → off bus (with_serial serial d) ≡ off bus d
with_serial-bus serial bus (bus_details n) = refl
with_serial-bus serial bus (device_details d) = refl

read_t_line-Stays :
    (info_map : Table Address (Option Text)) (line : Option TopologyLine) (b : Building)
    → OnBus b.tree
    → Stays (read_t_line info_map line b)
unfolding read_t_line
read_t_line-Stays info_map none b h = h
read_t_line-Stays info_map (some line) b h = go (int_of line.dev)
  where
    root : Node
    root = bus_or_new line.bus (get same_number line.bus b.tree)

    go : (device : Option ℤ) → Stays (add_numbered info_map line device b)
    go none = tt
    go (some device) =
        kept-Stays line.bus device b.tree
          (add_below line.parent (line.port + 1) (new_device info_map (line.bus, device)) root) h
          (subst
            (λ (k : ℕ).
              Adds (off line.bus) k (count (off line.bus) root) (
                add_below line.parent (line.port + 1) (new_device info_map (line.bus, device))
                  root))
            (count-new_device info_map line.bus device)
            (add_below-Adds (off line.bus) line.parent (line.port + 1)
              (new_device info_map (line.bus, device)) root))

read_s_line-Stays :
    (serial : Option Text) (b : Building) → OnBus b.tree → Stays (read_s_line serial b)
unfolding read_s_line
read_s_line-Stays none b h = h
read_s_line-Stays (some serial) b h = go b.last
  where
    root_of : ℕ → Node
    root_of bus = bus_or_new bus (get same_number bus b.tree)

    go : (last : Option Address) → Stays (set_last_serial serial last b)
    go none = tt
    go (some (bus, device)) =
        kept-Stays bus device b.tree
          (or_attribute_error (change_found device (set_serial serial) (root_of bus))) h
          (or_attribute_error-Adds (off bus) 0 (count (off bus) (root_of bus))
            (change_found device (set_serial serial) (root_of bus))
            (change_found-Adds (off bus) 0 device (set_serial serial)
              (set_serial-Adds (off bus) serial (with_serial-bus serial bus)) (root_of bus)))

and_then-Stays :
    (m : Outcome UsbError Building) (f : Building → Outcome UsbError Building)
    → Stays m
    → ((b : Building) → OnBus b.tree → Stays (f b))
    → Stays (and_then m f)
and_then-Stays (err e) f h g = tt
and_then-Stays (ok b) f h g = g b h

read_lines-Stays :
    (info_map : Table Address (Option Text)) (lines : List Text) (b : Building)
    → OnBus b.tree
    → Stays (read_lines info_map lines b)
unfolding read_lines
read_lines-Stays info_map [] b h = h
read_lines-Stays info_map (line ∷ lines) b h =
    and_then-Stays
      (and_then (read_t_line info_map (match_t_line line) b) (read_s_line (match_s_line line)))
      (read_lines info_map lines)
      (and_then-Stays (read_t_line info_map (match_t_line line) b) (read_s_line (match_s_line line))
        (read_t_line-Stays info_map (match_t_line line) b h)
        (read_s_line-Stays (match_s_line line)))
      (read_lines-Stays info_map lines)

all-of-bus :
    (bus : ℕ) (root : Node) (tree : Table ℕ Node)
    → OnBus tree
    → get same_number bus tree ≡ some root
    → all (λ n. bus_of (details n) == bus) (all_nodes root) ≡ true
all-of-bus bus root tree h e =
    how_many-all (λ (n : Node). bus_of (details n) == bus) (all_nodes root)
      (ap (λ (r : Option Node). count (off bus) (bus_or_new bus r)) (sym e) ∙ get-OnBus bus tree h)

-- When GetBusNumberToDeviceTreeMap returns its trees, each node of the tree that stands at a bus
-- number is of that bus.
pub tree_map_by_bus :
    (info_map : Table Address (Option Text)) (lines : List Text) (tree : Table ℕ Node) (bus : ℕ)
    (root : Node)
    → get_bus_number_to_device_tree_map info_map lines ≡ ok tree
    → get same_number bus tree ≡ some root
    → all (λ n. bus_of (details n) == bus) (all_nodes root) ≡ true
unfolding get_bus_number_to_device_tree_map
tree_map_by_bus info_map lines tree bus root h e =
    all-of-bus bus root tree
      (subst AreOnBus h
        (go (read_lines info_map lines start) (read_lines-Stays info_map lines start tt)))
      e
  where
    AreOnBus : Outcome UsbError (Table ℕ Node) → Type 0
    AreOnBus r = elim r [ err e ↦ Unit | ok t ↦ OnBus t ]

    go : (m : Outcome UsbError Building) → Stays m → AreOnBus (tree_of m)
    go (err e) g = tt
    go (ok b) g = g
