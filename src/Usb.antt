-- ===== src/Usb.antt =====
-- devil/devil/utils/find_usb_devices.py: USBNode, USBDeviceNode and USBBusNode. A tree is a value:
-- a change of one node through a reference is a change at its place in the tree. Of `info` the
-- entry `desc` is kept. The children of a node are in the order in which they were added.
pub mod Lines
pub mod Building
pub mod Hubs
pub mod Ttys
mod Samples
use udroid.Prelude.{
  ℕ, Bool, true, false, Option, none, some, List, [], ◌∷◌, ◌++◌, Text, codes, is_empty,
  if◌then◌else◌, ℤ, pos, negsuc, same_int, is_some, ◌==◌, split_once,
}
use udroid.Prelude.Effects.{Outcome, ok, err}

pub data UsbError : Type 0 where
  value_error attribute_error type_error key_error : UsbError

pub record UsbDevice : Type 0 where
  pub bus_num : ℕ
  pub device_num : ℤ
  pub serial : Option Text
  pub desc : Option Text

-- What a node is, without its children.
pub data Details : Type 0 where
  bus_details : ℕ → Details
  device_details : UsbDevice → Details

mutual
  pub data Node : Type 0 where
    node : Details → Ports → Node

  pub data Ports : Type 0 where
    no_device : Ports
    at_port : ℕ → Node → Ports → Ports

abbrev pub details : Node → Details
details (node d ports) = d

abbrev pub ports_of : Node → Ports
ports_of (node d ports) = ports

abbrev pub number : Details → ℤ
number (bus_details n) = negsuc 0
number (device_details d) = d.device_num

abbrev pub bus_of : Details → ℕ
bus_of (bus_details n) = n
bus_of (device_details d) = d.bus_num

abbrev pub device_at : ℕ → Ports → Option Node
device_at port no_device = none
device_at port (at_port p n ports) = if port == p then some n else device_at port ports

-- `HasPort`
abbrev pub has_port : Node → ℕ → Bool
has_port n port = is_some (device_at port (ports_of n))

-- `PortToDevice`
abbrev pub port_to_device : Node → ℕ → Outcome UsbError Node
port_to_device n port = elim (device_at port (ports_of n)) [
  | none ↦ err key_error
  | some child ↦ ok child
]

abbrev pub place : ℕ → Node → Ports → Ports
place port child no_device = at_port port child no_device
place port child (at_port p n ports) = at_port p n (place port child ports)

-- `AddChild`
unfoldable pub add_child : ℕ → Node → Node → Outcome UsbError Node
add_child port child n =
    if has_port n port
    then err value_error
    else ok (node (details n) (place port child (ports_of n)))

unfoldable mutual
  -- `AllNodes`: the node and then all that are below it.
  pub all_nodes : Node → List Node
  all_nodes (node d ports) = node d ports ∷ all_below ports

  pub all_below : Ports → List Node
  all_below no_device = []
  all_below (at_port p n ports) = all_nodes n ++ all_below ports

-- `FindDeviceNumber`
abbrev pub first_with : ℤ → List Node → Option Node
first_with findnum [] = none
first_with findnum (n ∷ nodes) =
    if same_int (number (details n)) findnum then some n else first_with findnum nodes

unfoldable pub find_device_number : ℤ → Node → Option Node
unfolding all_nodes
find_device_number findnum root = first_with findnum (all_nodes root)

abbrev pub or_after :
    Option (Outcome UsbError Ports)
    → Option (Outcome UsbError Ports)
    → Option (Outcome UsbError Ports)
or_after none later = later
or_after (some r) later = some r

abbrev pub rebuilt :
    {A B : Type 0} → (A → B) → Option (Outcome UsbError A) → Option (Outcome UsbError B)
rebuilt f none = none
rebuilt f (some (err e)) = some (err e)
rebuilt f (some (ok a)) = some (ok (f a))

-- A change, through its reference, of the node that FindDeviceNumber finds.
unfoldable mutual
  pub change_found : ℤ → (Node → Outcome UsbError Node) → Node → Option (Outcome UsbError Node)
  change_found findnum f (node d ports) =
      let below = change_below findnum f ports in
      if same_int (number d) findnum then some (f (node d ports)) else rebuilt (node d) below

  pub change_below : ℤ → (Node → Outcome UsbError Node) → Ports → Option (Outcome UsbError Ports)
  change_below findnum f no_device = none
  change_below findnum f (at_port p n ports) =
      or_after (rebuilt (λ child. at_port p child ports) (change_found findnum f n))
        (rebuilt (at_port p n) (change_below findnum f ports))

abbrev pub with_serial : Text → Details → Details
with_serial serial (bus_details n) = bus_details n
with_serial serial (device_details d) = device_details (record d { serial = some serial })

-- `serial.setter`; a bus node takes no notice of it.
abbrev pub set_serial : Text → Node → Outcome UsbError Node
set_serial serial (node d ports) = ok (node (with_serial serial d) ports)
