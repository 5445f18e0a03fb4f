-- ===== src/Usb/Hubs.antt =====
-- devil/devil/utils/usb_hubs.py, and the maps of ports of devil/devil/utils/find_usb_devices.py. A
-- generator is the list of what it yields; an exception is raised when it is read to its end.
pub mod Layouts
use udroid.Prelude.{
  ℕ, Bool, true, false, not, Option, none, some, List, [], ◌∷◌, ◌++◌, Text, codes, is_empty,
  if◌then◌else◌, ℤ, Table, get, put, decimal, is_in, text_eq, is_some, ◌==◌,
}
use udroid.Prelude.Effects.{Outcome, ok, err}
use udroid.Usb.{
  UsbError, value_error, attribute_error, type_error, key_error, UsbDevice, Details, bus_details,
  device_details, Node, details, number, bus_of, ports_of, device_at, has_port, port_to_device,
  all_nodes,
}
use udroid.Usb.Building.{Address, same_number, same_address, and_then}

-- A port mapping: a virtual port is a physical one, or leads to a hub inside the hub.
mutual
  pub data Physical : Type 0 where
    physical : ℕ → Physical
    inner : Layout → Physical

  pub data Layout : Type 0 where
    end : Layout
    virtual : ℕ → Physical → Layout → Layout

abbrev pub plain : List (ℕ × ℕ) → Layout
plain [] = end
plain ((v, p) ∷ ports) = virtual v (physical p) (plain ports)

-- `desc` of a node.
abbrev pub description : Details → Option Text
description (bus_details n) = some (codes "BUS " ++ decimal n)
description (device_details d) = d.desc

-- `id in node.desc`; None is not searched.
abbrev pub has_id : Text → Node → Outcome UsbError Bool
has_id id n = elim (description (details n)) [
  | none ↦ err type_error
  | some desc ↦ ok (is_in id desc)
]

-- What the functions `_is_..._hub` share: the id of the hub, and the port of the hub inside it.
pub record HubType : Type 0 where
  pub id : Text
  pub inner_port : ℕ
  pub port_mapping : Layout

abbrev pub has_inner : Text → Option Node → Outcome UsbError Bool
has_inner id none = ok false
has_inner id (some child) = has_id id child

abbrev pub if_so : Outcome UsbError Bool → Outcome UsbError Bool → Outcome UsbError Bool
if_so (err e) rest = err e
if_so (ok true) rest = rest
if_so (ok false) rest = ok false

-- `IsType`
unfoldable pub is_type : HubType → Node → Outcome UsbError Bool
is_type hub_type n =
    if_so (has_id hub_type.id n)
      (has_inner hub_type.id (device_at hub_type.inner_port (ports_of n)))

abbrev pub seven_ports : Layout
seven_ports = virtual 1 (physical 7) (
    virtual 2 (physical 6) (
      virtual 3 (physical 5)
        (virtual 4 (inner (plain ((1, 4) ∷ (2, 3) ∷ (3, 2) ∷ (4, 1) ∷ []))) end)))

abbrev pub seven_ports_usb3 : Layout
seven_ports_usb3 =
    virtual 1 (inner (plain ((1, 1) ∷ (2, 2) ∷ (3, 3) ∷ (4, 4) ∷ [])))
      (plain ((2, 5) ∷ (3, 6) ∷ (4, 7) ∷ []))

abbrev pub keedox_layout : Layout
keedox_layout = virtual 1 (physical 1) (
    virtual 2 (physical 2) (
      virtual 3 (physical 3)
        (virtual 4 (inner (plain ((1, 4) ∷ (2, 5) ∷ (3, 6) ∷ (4, 7) ∷ []))) end)))

abbrev pub via_layout : Layout
via_layout = keedox_layout

abbrev pub plugable_7port : HubType
plugable_7port = record { id = codes "1a40:0101"; inner_port = 4; port_mapping = seven_ports }

abbrev pub plugable_7port_usb3_part2 : HubType
plugable_7port_usb3_part2 = record {
  id = codes "2109:2811";
  inner_port = 1;
  port_mapping = seven_ports_usb3;
}

abbrev pub plugable_7port_usb3_part3 : HubType
plugable_7port_usb3_part3 = record {
  id = codes "2109:8110";
  inner_port = 1;
  port_mapping = seven_ports_usb3;
}

abbrev pub keedox : HubType
keedox = record { id = codes "0bda:5411"; inner_port = 4; port_mapping = keedox_layout }

abbrev pub via : HubType
via = record { id = codes "2109:2812"; inner_port = 4; port_mapping = via_layout }

abbrev pub all_hubs : List HubType
all_hubs =
    plugable_7port ∷ plugable_7port_usb3_part2 ∷ plugable_7port_usb3_part3 ∷ keedox ∷ via ∷ []

-- `GetHubType`
unfoldable pub get_hub_type : Text → Outcome UsbError HubType
get_hub_type type_name =
    if text_eq type_name (codes "plugable_7port")
    then ok plugable_7port
    else if text_eq type_name (codes "plugable_7port_usb3_part2")
    then ok plugable_7port_usb3_part2
    else if text_eq type_name (codes "plugable_7port_usb3_part3")
    then ok plugable_7port_usb3_part3
    else if text_eq type_name (codes "keedox")
    then ok keedox
    else if text_eq type_name (codes "via")
    then ok via
    else err value_error

-- `_GppHelper`
unfoldable mutual
  pub gpp_helper : Node → Layout → List (ℕ × Node)
  gpp_helper n end = []
  gpp_helper n (virtual v p layout) = gpp_port (device_at v (ports_of n)) p ++ gpp_helper n layout

  pub gpp_port : Option Node → Physical → List (ℕ × Node)
  gpp_port none p = []
  gpp_port (some child) (physical port) = (port, child) ∷ []
  gpp_port (some child) (inner layout) = gpp_helper child layout

abbrev pub tuples_if : HubType → Node → Outcome UsbError Bool → Outcome UsbError (List (ℕ × Node))
tuples_if hub_type n (err e) = err e
tuples_if hub_type n (ok false) = err value_error
tuples_if hub_type n (ok true) = ok (gpp_helper n hub_type.port_mapping)

-- `GetPhysicalPortToNodeTuples`
unfoldable pub get_physical_port_to_node_tuples :
    HubType → Node → Outcome UsbError (List (ℕ × Node))
unfolding is_type gpp_helper
get_physical_port_to_node_tuples hub_type n = tuples_if hub_type n (is_type hub_type n)

abbrev pub mapped : {A B : Type 0} → (A → B) → Outcome UsbError A → Outcome UsbError B
mapped f (err e) = err e
mapped f (ok a) = ok (f a)

abbrev pub entry :
    {A : Type 0}
    → ℕ
    → Outcome UsbError (Option A)
    → Outcome UsbError (List (ℕ × A))
    → Outcome UsbError (List (ℕ × A))
entry port (err e) rest = err e
entry port (ok none) rest = rest
entry port (ok (some a)) rest = mapped (λ entries. (port, a) ∷ entries) rest

abbrev pub entries_of :
    {A : Type 0}
    → (Node → Outcome UsbError (Option A))
    → List (ℕ × Node)
    → Outcome UsbError (List (ℕ × A))
entries_of f [] = ok []
entries_of f ((port, n) ∷ tuples) = entry port (f n) (entries_of f tuples)

-- A later entry of the same port wins.
abbrev pub dict_of : {A : Type 0} → Table ℕ A → List (ℕ × A) → Table ℕ A
dict_of t [] = t
dict_of t ((port, a) ∷ entries) = dict_of (put same_number port a t) entries

-- A dict comprehension over the tuples, of those that `f` has a value for.
abbrev pub port_map :
    {A : Type 0}
    → (Node → Outcome UsbError (Option A))
    → HubType
    → Node
    → Outcome UsbError (Table ℕ A)
port_map f hub_type hub =
    mapped (dict_of []) (and_then (get_physical_port_to_node_tuples hub_type hub) (entries_of f))

-- `GetPhysicalPortToNodeMap`
unfoldable pub get_physical_port_to_node_map : Node → HubType → Outcome UsbError (Table ℕ Node)
unfolding get_physical_port_to_node_tuples
get_physical_port_to_node_map hub hub_type = port_map (λ n. ok (some n)) hub_type hub

abbrev pub address : Node → Address
address n = (bus_of (details n), number (details n))

-- `GetPhysicalPortToBusDeviceMap`
unfoldable pub get_physical_port_to_bus_device_map :
    Node → HubType → Outcome UsbError (Table ℕ Address)
unfolding get_physical_port_to_node_tuples
get_physical_port_to_bus_device_map hub hub_type =
    port_map (λ n. ok (some (address n))) hub_type hub

abbrev pub unless_empty : Option Text → Option Text
unless_empty none = none
unless_empty (some text) = if is_empty text then none else some text

-- `device.serial if device.serial`; a bus has no such attribute.
abbrev pub serial_of : Details → Outcome UsbError (Option Text)
serial_of (bus_details n) = err attribute_error
serial_of (device_details d) = ok (unless_empty d.serial)

-- `GetPhysicalPortToSerialMap`
unfoldable pub get_physical_port_to_serial_map : Node → HubType → Outcome UsbError (Table ℕ Text)
unfolding get_physical_port_to_node_tuples
get_physical_port_to_serial_map hub hub_type = port_map (λ n. serial_of (details n)) hub_type hub

-- `GetPhysicalPortToTTYMap`, of the ttys at each address.
unfoldable pub get_physical_port_to_tty_map :
    Table Address Text → Node → HubType → Outcome UsbError (Table ℕ Text)
unfolding get_physical_port_to_node_tuples
get_physical_port_to_tty_map bus_device_to_tty hub hub_type =
    port_map (λ n. ok (get same_address (address n) bus_device_to_tty)) hub_type hub

abbrev pub with_hub :
    Node
    → HubType
    → Outcome UsbError Bool
    → Outcome UsbError (List (Node × HubType))
    → Outcome UsbError (List (Node × HubType))
with_hub n hub_type (err e) rest = err e
with_hub n hub_type (ok false) rest = rest
with_hub n hub_type (ok true) rest = mapped (λ hubs. (n, hub_type) ∷ hubs) rest

abbrev pub hubs_at :
    Node
    → List HubType
    → Outcome UsbError (List (Node × HubType))
    → Outcome UsbError (List (Node × HubType))
hubs_at n [] rest = rest
hubs_at n (hub_type ∷ hub_types) rest =
    with_hub n hub_type (is_type hub_type n) (hubs_at n hub_types rest)

abbrev pub hubs_among : List HubType → List Node → Outcome UsbError (List (Node × HubType))
hubs_among hub_types [] = ok []
hubs_among hub_types (n ∷ nodes) = hubs_at n hub_types (hubs_among hub_types nodes)

-- `GetHubsOnBus`
unfoldable pub get_hubs_on_bus : Node → List HubType → Outcome UsbError (List (Node × HubType))
unfolding is_type all_nodes
get_hubs_on_bus bus hub_types = hubs_among hub_types (all_nodes bus)

abbrev pub with_result :
    {A : Type 0} → Outcome UsbError A → Outcome UsbError (List A) → Outcome UsbError (List A)
with_result (err e) rest = err e
with_result (ok a) rest = mapped (λ results. a ∷ results) rest

abbrev pub run_on_hubs :
    {A : Type 0}
    → (Node → HubType → Outcome UsbError A)
    → List (Node × HubType)
    → Outcome UsbError (List A)
run_on_hubs map_func [] = ok []
run_on_hubs map_func ((hub, hub_type) ∷ hubs) =
    with_result (map_func hub hub_type) (run_on_hubs map_func hubs)

abbrev pub joined :
    {A : Type 0} → Outcome UsbError (List A) → Outcome UsbError (List A) → Outcome UsbError (List A)
joined (err e) rest = err e
joined (ok results) rest = mapped (λ more. results ++ more) rest

-- `CollectHubMaps`, of a tree map that is given, read to its end.
unfoldable pub collect_hub_maps :
    {A : Type 0}
    → List HubType
    → (Node → HubType → Outcome UsbError A)
    → Table ℕ Node
    → Outcome UsbError (List A)
unfolding get_hubs_on_bus
collect_hub_maps hub_types map_func [] = ok []
collect_hub_maps hub_types map_func ((bus, root) ∷ tree) =
    joined (and_then (get_hubs_on_bus root hub_types) (run_on_hubs map_func))
      (collect_hub_maps hub_types map_func tree)
