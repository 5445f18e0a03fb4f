-- ===== src/Usb/Building.antt =====
-- devil/devil/utils/find_usb_devices.py: GetBusNumberToDeviceTreeMap.
pub mod Counts
pub mod Complete
pub mod OnBus
use udroid.Prelude.{
  ℕ, zero, suc, ◌+◌, Bool, true, false, ◌&&◌, Option, none, some, List, [], ◌∷◌, Text, codes,
  if◌then◌else◌, ◌==◌, ℤ, pos, same_int, int_of, Table, get, put,
}
use udroid.Prelude.Effects.{Outcome, ok, err}
use udroid.Usb.{
  UsbError, value_error, attribute_error, UsbDevice, Details, bus_details, device_details, Node,
  node, no_device, add_child, change_found, set_serial,
}
use udroid.Usb.Lines.{TopologyLine, LsusbLine, match_t_line, match_s_line, match_lsusb_line}

-- (bus number, device number)
abbrev pub Address : Type 0
Address = ℕ × ℤ

abbrev pub same_number : ℕ → ℕ → Bool
same_number a b = a == b

abbrev pub same_address : Address → Address → Bool
same_address (a, m) (b, n) = a == b && same_int m n

abbrev pub with_info : Option LsusbLine → Table Address (Option Text) → Table Address (Option Text)
with_info none info_map = info_map
with_info (some line) info_map = put same_address (line.bus, pos line.dev) (some line.desc) info_map

-- `info_map` of the fast way; the entries of a dict of the slow way are given.
unfoldable pub fast_info_map : Table Address (Option Text) → List Text → Table Address (Option Text)
unfolding match_lsusb_line
fast_info_map info_map [] = info_map
fast_info_map info_map (line ∷ lines) =
    fast_info_map (with_info (match_lsusb_line line) info_map) lines

-- The variables of the loop; `bus_num` and `device_num` are those of the last T line, if there was one.
pub record Building : Type 0 where
  pub tree : Table ℕ Node
  pub last : Option Address

abbrev pub bus_or_new : ℕ → Option Node → Node
bus_or_new bus none = node (bus_details bus) no_device
bus_or_new bus (some root) = root

-- A device that lsusb does not know of has no description.
abbrev pub desc_of : Option (Option Text) → Option Text
desc_of none = some (codes "NOT AVAILABLE")
desc_of (some desc) = desc

abbrev pub new_device : Table Address (Option Text) → Address → Node
new_device info_map (bus, device) =
    node
      (device_details (record {
        bus_num = bus;
        device_num = device;
        serial = none;
        desc = desc_of (get same_address (bus, device) info_map);
      }))
      no_device

-- A call on None, where no node is found, is an AttributeError.
abbrev pub or_attribute_error : Option (Outcome UsbError Node) → Outcome UsbError Node
or_attribute_error none = err attribute_error
or_attribute_error (some r) = r

-- `.AddChild(port_num, new_device)` of the parent, or of the bus where the parent is 0.
unfoldable pub add_below : ℕ → ℕ → Node → Node → Outcome UsbError Node
unfolding add_child change_found
add_below zero port child root = add_child port child root
add_below (suc parent) port child root =
    or_attribute_error (change_found (pos (suc parent)) (add_child port child) root)

abbrev pub kept : ℕ → ℤ → Table ℕ Node → Outcome UsbError Node → Outcome UsbError Building
kept bus device tree (err e) = err e
kept bus device tree (ok root) =
    ok (record { tree = put same_number bus root tree; last = some (bus, device) })

abbrev pub add_numbered :
    Table Address (Option Text) → TopologyLine → Option ℤ → Building → Outcome UsbError Building
add_numbered info_map line none b = err value_error
add_numbered info_map line (some device) b = kept line.bus device b.tree (
    add_below line.parent (line.port + 1) (new_device info_map (line.bus, device))
      (bus_or_new line.bus (get same_number line.bus b.tree)))

-- The part of the loop for a T line.
unfoldable pub read_t_line :
    Table Address (Option Text) → Option TopologyLine → Building → Outcome UsbError Building
unfolding add_below int_of
read_t_line info_map none b = ok b
read_t_line info_map (some line) b = add_numbered info_map line (int_of line.dev) b

abbrev pub set_last_serial : Text → Option Address → Building → Outcome UsbError Building
set_last_serial serial none b = err value_error
set_last_serial serial (some (bus, device)) b = kept bus device b.tree (
    or_attribute_error
      (change_found device (set_serial serial) (bus_or_new bus (get same_number bus b.tree))))

-- The part of the loop for an S line. The tree of the last T line's bus is there.
unfoldable pub read_s_line : Option Text → Building → Outcome UsbError Building
unfolding change_found
read_s_line none b = ok b
read_s_line (some serial) b = set_last_serial serial b.last b

abbrev pub and_then :
    {A B : Type 0} → Outcome UsbError A → (A → Outcome UsbError B) → Outcome UsbError B
and_then (err e) f = err e
and_then (ok a) f = f a

unfoldable pub read_lines :
    Table Address (Option Text) → List Text → Building → Outcome UsbError Building
unfolding read_t_line read_s_line match_t_line match_s_line
read_lines info_map [] b = ok b
read_lines info_map (line ∷ lines) b =
    and_then
      (and_then (read_t_line info_map (match_t_line line) b) (read_s_line (match_s_line line)))
      (read_lines info_map lines)

abbrev pub start : Building
start = record { tree = []; last = none }

abbrev pub tree_of : Outcome UsbError Building → Outcome UsbError (Table ℕ Node)
tree_of (err e) = err e
tree_of (ok b) = ok b.tree

-- `GetBusNumberToDeviceTreeMap`, of what lsusb and usb-devices print.
unfoldable pub get_bus_number_to_device_tree_map :
    Table Address (Option Text) → List Text → Outcome UsbError (Table ℕ Node)
unfolding read_lines
get_bus_number_to_device_tree_map info_map lines = tree_of (read_lines info_map lines start)
