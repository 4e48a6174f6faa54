-- ===== src/Route.antt =====
-- src/danp_route.c: the registered interfaces, the static routing table, and transmission.
-- An interface pointer is its index in the table of interfaces, `none` is NULL. `lock` is what
-- `danp_route_lock` answers. The routing table is the list of its `route_count` active entries.
pub mod Lock
pub mod Text
pub mod Table
pub mod Load
pub mod Reset
pub mod Outcome
pub mod Transmit
pub mod Drivers
use danp.Prelude.{
  ℕ, zero, suc, ◌+◌, Bool, true, false, not, ◌&&◌, ◌||◌, List, [], ◌∷◌, ◌++◌, Option, none, some, ℤ,
  pos, minus_one, leb, ltb, ◌==◌, if◌then◌else◌, set, get_or, length,
}
use danp.Types.{Packet, header_size, max_nodes}
use danp.Header.{unpack_header}
use Text.{is_empty, trim, same_string, tokens, split_colon, strtoul}

-- `danp_interface_t`. `tx_func` is the value that the driver's function returns for a packet: it is
-- taken neither to block nor to call `danp_input`.
pub record Interface : Type 0 where
  pub name : Option (List ℕ)
  pub address : ℕ
  pub mtu : ℕ
  pub tx_func : Option (Packet → ℤ)
  pub next : Option ℕ

abbrev pub blank_interface : Interface
blank_interface = record { name = none; address = 0; mtu = 0; tx_func = none; next = none }

-- `danp_route_entry_t`
pub record RouteEntry : Type 0 where
  pub dest_node : ℕ
  pub iface : ℕ

-- `iface_list` and `route_table[0 .. route_count)`, with the interfaces that they point to.
pub record Routing : Type 0 where
  pub interfaces : List Interface
  pub iface_list : Option ℕ
  pub route_table : List RouteEntry

abbrev pub interface_at : Routing → ℕ → Interface
interface_at r i = get_or r.interfaces i blank_interface

-- `cur->name && strcmp(cur->name, name) == 0`
unfoldable pub is_named : Interface → List ℕ → Bool
is_named f name = elim f.name [ none ↦ false | some n ↦ same_string n name ]

-- The loop of `danp_find_interface_by_name`, with the rounds that its guard leaves.
unfoldable pub find_named : ℕ → List Interface → Option ℕ → List ℕ → Option ℕ
unfolding is_named
find_named zero fs cur name = none
find_named (suc k) fs none name = none
find_named (suc k) fs (some i) name =
    let f = get_or fs i blank_interface in
    let rest = find_named k fs f.next name in if is_named f name then some i else rest

-- `guard++ > DANP_MAX_NODES` lets 257 rounds pass.
unfoldable pub find_interface_by_name : Routing → List ℕ → Option ℕ
unfolding find_named
find_interface_by_name r name = find_named (max_nodes + 1) r.interfaces r.iface_list name

-- The loop of `danp_route_lookup`.
unfoldable pub lookup : ℕ → List RouteEntry → Option ℕ
lookup dest [] = none
lookup dest (e ∷ es) = if e.dest_node == dest then some e.iface else lookup dest es

unfoldable pub route_lookup : Bool → Routing → ℕ → Option ℕ
route_lookup lock r dest = if lock then lookup dest r.route_table else none

-- The checks of `danp_register_interface`, and its two writes.
can_register : Interface → Bool
can_register f = elim f.tx_func [
  | none ↦ false
  | some _ ↦ elim f.name [ none ↦ false | some _ ↦ not (f.mtu == 0) ]
]

unfoldable pub register_interface : Bool → Option ℕ → Routing → Routing
unfolding can_register
register_interface lock none r = r
register_interface lock (some i) r =
    if can_register (interface_at r i) && lock
    then record r {
      interfaces = set r.interfaces i (record (interface_at r i) { next = r.iface_list });
      iface_list = some i;
    }
    else r

-- The replacing loop of `danp_route_table_load`, and the new entry where it replaced none.
unfoldable pub install : ℕ → ℕ → List RouteEntry → List RouteEntry
install dest i [] = record { dest_node = dest; iface = i } ∷ []
install dest i (e ∷ es) =
    if e.dest_node == dest then record e { iface = i } ∷ es else e ∷ install dest i es

-- How the loop of `danp_route_table_load` goes on behind an entry, or which routing the error return
-- of an entry leaves.
pub data Loading : Type 0 where
  failed : Routing → Loading
  going : Routing → Loading

-- From the two strings of an entry on: the tests, each with its own error return, and the route.
unfoldable pub add_route : Routing → (dest_str iface_str : List ℕ) → Loading
add_route r dest_str iface_str =
    let (dest_val, rest) = strtoul dest_str in
    if is_empty dest_str || is_empty iface_str
    then failed (record r { route_table = [] })
    else (if not (is_empty rest) || ltb 65535 dest_val
        then failed (record r { route_table = [] })
        else (if leb max_nodes (length r.route_table)
            then failed (record r { route_table = [] })
            else elim (find_interface_by_name r iface_str) [
              | none ↦ failed (record r { route_table = [] })
              | some i ↦ going (record r { route_table = install dest_val i r.route_table })
            ]))

-- One round of the loop on an entry that is not blank.
unfoldable pub add_entry : Routing → List ℕ → Loading
add_entry r working = elim (split_colon working) [
  | none ↦ failed (record r { route_table = [] })
  | some (before, behind) ↦ add_route r (trim before) (trim behind)
]

unfoldable pub load_entry : Routing → List ℕ → Loading
unfolding add_entry
load_entry r entry =
    let working = trim entry in if is_empty working then going r else add_entry r working

unfoldable pub load_entries : Routing → List (List ℕ) → Loading
load_entries r [] = going r
load_entries r (e ∷ es) = elim (load_entry r e) [
  | failed q ↦ failed q
  | going r' ↦ load_entries r' es
]

-- `danp_route_table_load`; `memory` says whether malloc gave the buffer.
unfoldable pub route_table_load : (lock memory : Bool) → Option (List ℕ) → Routing → Routing × ℤ
route_table_load lock memory none r = (r, minus_one)
route_table_load false memory (some table) r = (r, minus_one)
route_table_load true memory (some table) r =
    let emptied = record r { route_table = [] } in
    if is_empty table
    then (emptied, pos 0)
    else (if memory
        then elim (load_entries emptied (tokens table)) [
          | failed q ↦ (q, minus_one)
          | going r' ↦ (r', pos 0)
        ]
        else (r, minus_one))

-- `danp_route_tx`: the result, and the call of a driver's `tx_func` that was made, if any. A NULL
-- `tx_func`, which the code would call, is the result -1 here; `danp_register_interface` lets no
-- such interface into the list, and Route.Drivers is about the interfaces that routes lead to.
transmit : Routing → Packet → ℕ → ℤ × List (ℕ × Packet)
transmit r pkt i =
    let out = interface_at r i in
    if ltb out.mtu (pkt.length + header_size)
    then (minus_one, [])
    else elim out.tx_func [ none ↦ (minus_one, []) | some f ↦ (f pkt, (i, pkt) ∷ []) ]

unfoldable pub route_tx : Bool → Routing → Option Packet → ℤ × List (ℕ × Packet)
unfolding transmit
route_tx lock r none = (minus_one, [])
route_tx lock r (some pkt) = elim (route_lookup lock r (unpack_header pkt.header_raw).dst) [
  | none ↦ (minus_one, [])
  | some i ↦ transmit r pkt i
]
