-- ===== src/Tests/Routes.antt =====
-- The routing table at fixed inputs.
use Prim.Native.Char.{code}
use Prim.Native.String.{String}
use danp.Prelude.{
  ℕ, ◌≡◌, refl, ◌⊎◌, true, false, List, [], ◌∷◌, none, some, arith, ℤ, pos, minus_one,
}
use danp.Types.{Packet, blank_packet}
use danp.Route.{
  Routing, RouteEntry, Interface, lookup, route_table_load, find_interface_by_name,
  register_interface, route_tx,
}
use danp.Route.Text.{tokens, trim, is_empty, strtoul}
use danp.Route.Load.{Routes, done, blank, route, parse_entry, Installed}
use danp.Route.Outcome.{
  IsTable, route_table_load-IsTable, route_table_load-Installed, route_table_load-fails,
  route_table_load_complete,
}
use danp.Route.Transmit.{MaySend, route_tx_cases}

abbrev codes : String → List ℕ
codes String.[] = []
codes (String.◌∷◌ c s) = code c ∷ codes s

abbrev wire : Interface
wire = record {
  name = some (codes "if0");
  address = 1;
  mtu = 128;
  tx_func = some (λ pkt. pos 0);
  next = none;
}

-- A registered `if0`, and `radio`, which is not registered.
abbrev routing : Routing
routing = record {
  interfaces = wire ∷ record wire { name = some (codes "radio") } ∷ [];
  iface_list = some 0;
  route_table = [];
}

abbrev to_if0 : ℕ → RouteEntry
to_if0 d = record { dest_node = d; iface = 0 }

abbrev loaded : Routing
loaded = record routing { route_table = to_if0 1 ∷ to_if0 42 ∷ [] }

abbrev good_text : List ℕ
good_text = codes " 1 : if0,,0x2A:if0\n 1:if0\n"

abbrev wrong_text : List ℕ
wrong_text = codes "1:if0, 2:nowhere"

good_load : route_table_load true true (some good_text) routing ≡ (loaded, pos 0)
unfolding route_table_load is_empty danp.Route.load_entries danp.Route.load_entry tokens trim
    strtoul danp.Route.Text.split_colon find_interface_by_name danp.Route.Text.same_string
    danp.Route.install danp.Route.add_route
good_load = refl

wrong_load :
    route_table_load true true (some wrong_text) loaded
    ≡ (record loaded { route_table = [] }, minus_one)
unfolding route_table_load is_empty danp.Route.load_entries danp.Route.load_entry tokens trim
    strtoul danp.Route.Text.split_colon find_interface_by_name danp.Route.Text.same_string
    danp.Route.install danp.Route.add_route
wrong_load = refl

-- A sign and a value that wraps round 2 ^ 64 is taken for the node 1.
wrapped_node : strtoul (codes "-18446744073709551615") ≡ (1, [])
unfolding strtoul
wrapped_node = refl

routing-IsTable : IsTable routing
routing-IsTable = record { fits = omega arith; unique = tt; entries = tt }

route_table_load-IsTable_example : IsTable (route_table_load true true (some good_text) routing).0
route_table_load-IsTable_example =
    route_table_load-IsTable true true (some good_text) routing routing-IsTable

route_table_load-Installed_example :
    Installed (record routing { route_table = [] }) (tokens good_text) loaded
route_table_load-Installed_example = route_table_load-Installed good_text routing loaded good_load

route_table_load-fails_example :
    (((some wrong_text ≡ none) ⊎ (true ≡ false) ⊎ (true ≡ false))
      × (record loaded { route_table = [] } ≡ loaded))
    ⊎ ((true ≡ true)
        × (true ≡ true)
        × (record loaded { route_table = [] } ≡ record loaded { route_table = [] }))
route_table_load-fails_example =
    route_table_load-fails true true (some wrong_text) loaded (record loaded { route_table = [] })
      wrong_load

one_route : Routes routing (tokens (codes "7:if0, ")) ((7, 0) ∷ [])
unfolding tokens trim is_empty parse_entry strtoul danp.Route.Text.split_colon
    find_interface_by_name danp.Route.Text.same_string
one_route = route {name = codes "if0"} refl refl refl (blank refl done)

route_table_load_complete_example :
    (route_table_load true true (some (codes "7:if0, ")) routing).1 ≡ pos 0
route_table_load_complete_example =
    route_table_load_complete (codes "7:if0, ") routing ((7, 0) ∷ []) one_route (omega arith)

abbrev outgoing : Packet
outgoing = record blank_packet { header_raw = 0x0a81_ca7f; length = 125 }

route_tx_cases_example :
    ((i : ℕ) × (f : Packet → ℤ) × MaySend true loaded outgoing i f
      × (route_tx true loaded (some outgoing) ≡ (f outgoing, (i, outgoing) ∷ [])))
    ⊎ (((i : ℕ) (f : Packet → ℤ) → MaySend true loaded outgoing i f → ⊥)
        × (route_tx true loaded (some outgoing) ≡ (minus_one, [])))
route_tx_cases_example = route_tx_cases true loaded outgoing
