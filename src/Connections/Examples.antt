-- ===== src/Connections/Examples.antt =====
-- connections.py on concrete flows: a container that a browser reaches, and that asks the world.
use Prim.Native.Nat.{min}
use homelab_agent.Prelude.{
  ℕ, ◌≡◌, refl, true, false, Option, none, some, List, [], ◌∷◌, arith, length, drop, All, sum_by,
  map, keep_if, contains, list_beq, list_eq, nat_eq,
}
use homelab_agent.Prelude.Text.{text_le, Text, text}
use homelab_agent.Prelude.Dict.{get, set}
use homelab_agent.Prelude.Keys.{values}
use homelab_agent.Prelude.Sort.{sort, insert}
use homelab_agent.Connections.Flow.{
  Flow, Index, Container, port_key_eq, build_index, index_from, set_all, attribute, incoming,
}
use homelab_agent.Connections.Aggregate.{
  Row, aggregate, ranked, or_zero, group_from, add_flow, new_row, count_flow, sort_states,
}
use homelab_agent.Connections.Processes.{
  name_host_processes, wanted_from, named, unmatched, no_sockets, AllNamed,
  name_host_processes-AllNamed,
}
use homelab_agent.Sockets.Table
use homelab_agent.Sockets.Table.{Socket, index_sockets, match_socket}
use homelab_agent.Sockets.Owners.{Process, owners, walk_all, visit, note_all}
use homelab_agent.Sockets.Search.{first_inode, match_socket-first_inode}
use homelab_agent.Connections.Totals.{sum_by-aggregate, AllBefore, IsBefore, aggregate-AllBefore}

abbrev web : Container
web = record {
  id = text "c0ffee";
  name = text "web";
  ips = text "172.17.0.2" ∷ [];
  ports = record { port = 8080; proto = text "tcp" } ∷ [];
}

abbrev tcp_flow : Text → Text → Text → ℕ → ℕ → Flow
tcp_flow src dst back sent received = record {
  family = text "ipv4";
  proto = text "tcp";
  state = some (text "ESTABLISHED");
  unreplied = false;
  orig = record {
    src = src;
    dst = dst;
    sport = some 51234;
    dport = some 443;
    bytes = some sent;
    packets = some 1;
  };
  reply = record {
    src = some back;
    dst = some src;
    sport = some 443;
    dport = some 51234;
    bytes = some received;
    packets = none;
  };
}

abbrev asks : Flow
asks = tcp_flow (text "172.17.0.2") (text "1.1.1.1") (text "1.1.1.1") 10 500

abbrev asked : Flow
asked = tcp_flow (text "10.0.0.9") (text "10.0.0.5") (text "172.17.0.2") 7 9000

abbrev flows : List Flow
flows = asks ∷ asked ∷ asks ∷ []

abbrev index : Option Index
index = some (build_index (web ∷ []))

running : Unit {0}
unfolding aggregate ranked group_from add_flow new_row count_flow sort_states text_le sort insert
    build_index index_from set_all attribute get set values list_beq contains sum_by
running = tt

run_tests :
    (map (λ r. r.flows) (aggregate flows 50 index).0 ≡ 1 ∷ 2 ∷ [])
    × (map (λ r. r.rx_bytes) (aggregate flows 50 index).0 ≡ some 7 ∷ some 1000 ∷ [])
    × (map (λ r. r.tx_bytes) (aggregate flows 50 index).0 ≡ some 9000 ∷ some 20 ∷ [])
    × (map (λ r. r.direction) (aggregate flows 1 index).0 ≡ some incoming ∷ [])
    × ((aggregate flows 1 index).1 ≡ 2)
unfolding running
run_tests = (refl, refl, refl, refl, refl)

sum_by-aggregate_example :
    (sum_by (λ r. r.flows) (aggregate flows 50 index).0 ≡ length flows)
    × (sum_by (λ r. or_zero r.orig_bytes) (aggregate flows 50 index).0
        ≡ sum_by (λ f. or_zero f.orig.bytes) flows)
    × (sum_by (λ r. or_zero r.reply_bytes) (aggregate flows 50 index).0
        ≡ sum_by (λ f. or_zero f.reply.bytes) flows)
    × (sum_by (λ r. or_zero r.orig_packets) (aggregate flows 50 index).0
        ≡ sum_by (λ f. or_zero f.orig.packets) flows)
    × (sum_by (λ r. or_zero r.reply_packets) (aggregate flows 50 index).0
        ≡ sum_by (λ f. or_zero f.reply.packets) flows)
unfolding running
sum_by-aggregate_example = sum_by-aggregate flows 50 index (omega arith)

aggregate-AllBefore_example :
    AllBefore (aggregate flows 1 index).0
    × (length (aggregate flows 1 index).0 ≡ min 1 (aggregate flows 1 index).1)
    × All (λ r. All (IsBefore r) (drop 1 (ranked index flows))) (aggregate flows 1 index).0
aggregate-AllBefore_example = aggregate-AllBefore flows 1 index

abbrev asking : Socket
asking = record {
  proto = text "tcp";
  local_port = 51234;
  remote_ip = some (text "1.1.1.1");
  remote_port = some 443;
  inode = 77;
}

abbrev browser : Process
browser = record { pid = 12; name = some (text "curl"); inodes = 3 ∷ 77 ∷ []; denied = false }

-- rows without a container
abbrev bare : List Row
bare = (aggregate flows 50 none).0

naming : Unit {0}
unfolding running name_host_processes wanted_from Table.build_index index_sockets match_socket
    owners walk_all visit note_all first_inode keep_if
naming = tt

naming_tests :
    ((name_host_processes true (some (asking ∷ [])) (some (browser ∷ [])) bare).1 ≡ named)
    × (map (λ r. r.pid) (name_host_processes true (some (asking ∷ [])) (some (browser ∷ [])) bare).0
        ≡ some 12 ∷ some 12 ∷ [])
    × ((name_host_processes true (some (asking ∷ [])) (some []) bare).1 ≡ unmatched)
    × ((name_host_processes true (some []) (some []) bare).1 ≡ no_sockets)
unfolding naming
naming_tests = (refl, refl, refl, refl)

match_socket-first_inode_example : match_socket asks (Table.build_index (asking ∷ [])) ≡ some 77
unfolding naming
match_socket-first_inode_example = match_socket-first_inode asks (asking ∷ [])

name_host_processes-AllNamed_example :
    AllNamed
      (asking ∷ [])
      (browser ∷ [])
      bare
      (name_host_processes true (some (asking ∷ [])) (some (browser ∷ [])) bare).0
name_host_processes-AllNamed_example =
    name_host_processes-AllNamed true (some (asking ∷ [])) (some (browser ∷ [])) bare
