-- ===== src/Usb/Samples.antt =====
-- The theorems about USB devices with a hub of seven ports and a phone on it.
use udroid.Prelude.{
  ℕ, true, Option, none, some, List, [], ◌∷◌, Text, codes, all, ◌==◌, int_of, pos, Table, get, ◌≡◌,
  refl, arith,
}
use udroid.Prelude.Effects.{ok, err}
use udroid.Usb.{Node, details, bus_of, all_nodes, add_child, change_found, find_device_number}
use udroid.Usb.Lines.{match_t_line, match_s_line}
use udroid.Usb.Lines.Printed.{t_line, match_t_line-t_line}
use udroid.Usb.Building.{
  same_number, Address, bus_or_new, get_bus_number_to_device_tree_map, read_lines, read_t_line,
  read_s_line, add_below,
}
use udroid.Usb.Building.Complete.{nodes_at, lines_at, tree_map_complete}
use udroid.Usb.Building.OnBus.{tree_map_by_bus}
use udroid.Usb.Hubs.{
  plugable_7port, get_hub_type, is_type, gpp_helper, get_physical_port_to_node_map,
  get_physical_port_to_node_tuples,
}
use udroid.Usb.Hubs.Layouts.{paths, path_to, device_on, port_map-follows}

abbrev output : List Text
output =
    codes "T:  Bus=01 Lev=00 Prnt=00 Port=00 Cnt=00 Dev#=  1 Spd=480 MxCh= 2"
    ∷ codes "S:  SerialNumber=0000:00:1a.0"
    ∷ codes "T:  Bus=01 Lev=01 Prnt=01 Port=03 Cnt=01 Dev#=  2 Spd=480 MxCh= 4"
    ∷ codes "T:  Bus=01 Lev=02 Prnt=02 Port=01 Cnt=01 Dev#=  5 Spd=480 MxCh= 0"
    ∷ codes "S:  SerialNumber=phone"
    ∷ []

abbrev hub_id : Option Text
hub_id = some (codes "ID 1a40:0101 TERMINUS TECHNOLOGY INC.")

abbrev infos : Table Address (Option Text)
infos = ((1, pos 1), hub_id) ∷ ((1, pos 2), hub_id) ∷ []

abbrev trees : Table ℕ Node
trees = elim (get_bus_number_to_device_tree_map infos output) [ ok t ↦ t | err e ↦ [] ]

trees_built : get_bus_number_to_device_tree_map infos output ≡ ok trees
unfolding get_bus_number_to_device_tree_map read_lines read_t_line read_s_line add_below
    match_t_line match_s_line int_of add_child change_found
trees_built = refl

tree_map_complete_example : nodes_at (1, pos 5) trees ≡ lines_at (1, pos 5) output
tree_map_complete_example = tree_map_complete (1, pos 5) infos output trees trees_built

abbrev bus_1 : Node
bus_1 = bus_or_new 1 (get same_number 1 trees)

bus_1_built : get same_number 1 trees ≡ some bus_1
unfolding get_bus_number_to_device_tree_map read_lines read_t_line read_s_line add_below
    match_t_line match_s_line int_of add_child change_found
bus_1_built = refl

tree_map_by_bus_example : all (λ n. bus_of (details n) == 1) (all_nodes bus_1) ≡ true
tree_map_by_bus_example = tree_map_by_bus infos output trees 1 bus_1 trees_built bus_1_built

match_t_line-t_line_example :
    match_t_line (t_line 1 2 2 1 1 b' ' b' ' b'5' (codes "Spd=480"))
    ≡ some (record { bus = 1; parent = 2; port = 1; dev = b' ' ∷ b' ' ∷ b'5' ∷ [] })
match_t_line-t_line_example =
    match_t_line-t_line 1 2 2 1 1 b' ' b' ' b'5' (codes "Spd=480") (omega arith) (omega arith)
      (omega arith) (omega arith) (omega arith)

-- The root hub stands for a hub of seven ports, with a hub inside it on its port 4.
abbrev hub : Node
hub = elim (find_device_number (pos 1) bus_1) [ none ↦ bus_1 | some n ↦ n ]

abbrev hub_ports : Table ℕ Node
hub_ports = elim (get_physical_port_to_node_map hub plugable_7port) [ ok t ↦ t | err e ↦ [] ]

hub_ports_found : get_physical_port_to_node_map hub plugable_7port ≡ ok hub_ports
unfolding get_bus_number_to_device_tree_map read_lines read_t_line read_s_line add_below
    match_t_line match_s_line int_of add_child change_found find_device_number all_nodes
    get_physical_port_to_node_map get_physical_port_to_node_tuples is_type gpp_helper
hub_ports_found = refl

port_map-follows_example :
    get same_number 3 hub_ports
    ≡ device_on (some hub) (path_to 3 (paths plugable_7port.port_mapping))
unfolding get_hub_type
port_map-follows_example =
    port_map-follows (codes "plugable_7port") plugable_7port hub hub_ports 3 refl hub_ports_found
