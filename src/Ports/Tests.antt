-- ===== src/Ports/Tests.antt =====
-- Concrete runs of the L4 allocation, and the theorems at them.
use native.Mathlib.Decide.{dec_lt}
use greffer.Ports.Free.{lowest_free_port}
use greffer.Ports.Free.Lowest.{Picked, lowest_free_port-Picked}
use greffer.Ports.Daemon.{
  PortSets, not_a_dict, entry, Attrs, listed, unreachable, holds, published_l4_ports, add_port,
  add_entry, add_entries, add_container, add_containers, is_excluded, in_range, proto_of,
  project_label,
}
use greffer.Ports.Daemon.Published.{container_publishes, published_l4_ports-holds}
use greffer.Ports.Pending.{pending_and_prune, mark_pending}
use greffer.Ports.Pending.Guard.{reservation}
use greffer.Ports.Sticky.{Sidecar, JsonPort, load, save}
use greffer.Ports.Allocate.{
  Port, ok, raise, same_port_conflict, ports_unavailable, Node, Start, allocate, request, taken,
  choose, advance, assign, is_l4,
}
use greffer.Ports.Allocate.Fresh.{hosts, Distinct}
use greffer.Ports.Allocate.Restart.{last_host, allocate_persists}
use greffer.Ports.Allocate.Stable.{get_elem?, allocate_same_port}
use greffer.Ports.Allocate.Collision.{
  allocate-Distinct, allocate_avoids_published, allocate_avoids_reserved,
}
use greffer.Ports.Allocate.Race.{allocate_twice_disjoint}
use greffer.Prelude.{
  ◌+◌, String, ◌≡◌, refl, ◌≢◌, true, false, Option, none, some, List, [], ◌∷◌, arith, eq_iff,
  nat_eq, string_eq, any, contains, get, get_or, put, pop, lower,
}

program : Unit {0}
unfolding allocate advance assign request taken choose save load get put pop contains lower any
    lowest_free_port published_l4_ports add_containers add_container add_entries add_entry add_port
    is_excluded in_range proto_of pending_and_prune mark_pending hosts dec_lt
program = tt

abbrev other_container : Option Attrs
other_container = some (record {
  labels = some ((project_label, "b") ∷ []);
  ports = some (not_a_dict ∷ entry none (some "tcp") ∷ entry (some 20000) (some "UDP") ∷ []);
})

abbrev daemon : List (Option Attrs)
daemon = none ∷ other_container ∷ []

abbrev vpn : Port
vpn = record {
  port_container = 51820;
  container_name = "wg";
  port_name = "wg_51820";
  url = none;
  protocol = "udp";
  exposure_tier = "l4";
  same_port = true;
  streaming = false;
  port_host = none;
}

abbrev game : Port
game = record vpn { port_name = "wg_7777"; port_container = 7777; same_port = false }

abbrev web : Port
web = record vpn {
  port_name = "wg_80";
  protocol = "tcp";
  exposure_tier = "http";
  port_host = some 40000;
}

abbrev ports : List Port
ports = web ∷ vpn ∷ game ∷ []

abbrev fresh_node : Node
fresh_node = record { pending = []; sidecars = [] }

abbrev start_a : Start
start_a = record {
  instance_id = "a";
  range_start = 20000;
  range_end = 20004;
  l4_bind_host = "0.0.0.0";
  listing = listed daemon;
  now = 100;
  ttl = 300;
  clock = λ i. 100 + i;
  writable = true;
}

abbrev start_c : Start
start_c = record start_a { instance_id = "c"; listing = listed []; now = 200; clock = λ i. 200 + i }

abbrev given : List Port
given = web ∷ record vpn { port_host = some 20001 } ∷ record game { port_host = some 20002 } ∷ []

abbrev node_a : Node
node_a = (allocate start_a ports fresh_node).1

run_a : allocate start_a ports fresh_node ≡ (ok given, node_a)
unfolding program
run_a = refl

abbrev given_c : List Port
given_c = record vpn { port_host = some 20000 } ∷ []

run_c : allocate start_c (vpn ∷ []) node_a ≡ (ok given_c, (allocate start_c (vpn ∷ []) node_a).1)
unfolding program
run_c = refl

-- A pinned endpoint whose port is taken makes a proxy start fail, and a tunnel start rotate.
conflict :
    (allocate
      (record start_a { instance_id = "b"; listing = listed [] })
      (vpn ∷ [])
      (record node_a {
        sidecars = ("b", Sidecar.object (("wg_51820", JsonPort.number 20001) ∷ [])) ∷ [];
      })).0
    ≡ raise (same_port_conflict "wg_51820" 20001)
unfolding program
conflict = refl

no_daemon :
    allocate (record start_a { listing = unreachable }) ports fresh_node
    ≡ (raise ports_unavailable, fresh_node)
unfolding program
no_daemon = refl

lowest_free_port-Picked_example :
    Picked 20000 20004 (20000 ∷ 20001 ∷ []) (lowest_free_port 20000 20004 (20000 ∷ 20001 ∷ []))
lowest_free_port-Picked_example = lowest_free_port-Picked 20000 20004 (20000 ∷ 20001 ∷ [])

abbrev occupied_a : PortSets
occupied_a = ("udp", 20000 ∷ []) ∷ []

published_a : published_l4_ports 20000 20004 (some "a") (listed daemon) ≡ some occupied_a
unfolding program
published_a = refl

published_l4_ports-holds_example :
    holds occupied_a "udp" 20000
    ≡ any (container_publishes 20000 20004 "udp" 20000 (some "a")) daemon
published_l4_ports-holds_example =
    published_l4_ports-holds 20000 20004 (some "a") daemon occupied_a "udp" 20000 published_a

allocate-Distinct_example : Distinct (hosts "udp" given)
allocate-Distinct_example = allocate-Distinct start_a ports fresh_node given node_a "udp" run_a

given_holds : contains 20001 (hosts "udp" given) ≡ true
unfolding program
given_holds = refl

allocate_avoids_published_example :
    any (container_publishes 20000 20004 "udp" 20001 (some "a")) daemon ≡ false
allocate_avoids_published_example =
    allocate_avoids_published start_a ports fresh_node given node_a "udp" run_a daemon 20001 refl
      given_holds

a_not_c : ◌≢◌ {A = String} "a" "c"
a_not_c = ground (arith, eq_iff "a" "c")

reserved_by_a : reservation node_a.pending "udp" 20001 ≡ some (record { expiry = 401; owner = "a" })
unfolding program
reserved_by_a = refl

allocate_avoids_reserved_example : contains 20001 (hosts "udp" given_c) ≡ false
allocate_avoids_reserved_example =
    allocate_avoids_reserved start_c (vpn ∷ []) node_a given_c
      (allocate start_c (vpn ∷ []) node_a).1 "udp" run_c 20001
      (record { expiry = 401; owner = "a" }) reserved_by_a (omega arith) a_not_c

allocate_twice_disjoint_example : contains 20001 (hosts "udp" given_c) ≡ false
allocate_twice_disjoint_example =
    allocate_twice_disjoint start_a start_c ports (vpn ∷ []) fresh_node given given_c node_a
      (allocate start_c (vpn ∷ []) node_a).1 "udp" 20001 run_a run_c a_not_c (λ k. omega arith)
      given_holds

some_l4 : any is_l4 ports ≡ true
unfolding program
some_l4 = refl

allocate_persists_example :
    get (load (get_or node_a.sidecars "a" Sidecar.unreadable)) "wg_7777"
    ≡ last_host "wg_7777" given none
allocate_persists_example =
    allocate_persists start_a ports fresh_node given node_a "wg_7777" some_l4 run_a

last_a : get (load (get_or node_a.sidecars "a" Sidecar.unreadable)) "wg_51820" ≡ some 20001
unfolding program
last_a = refl

run_again : allocate start_a ports node_a ≡ (ok given, (allocate start_a ports node_a).1)
unfolding program
run_again = refl

allocate_same_port_example : get_elem? given 1 ≡ some (record vpn { port_host = some 20001 })
allocate_same_port_example =
    allocate_same_port start_a ports node_a given (allocate start_a ports node_a).1 1 vpn 20001
      run_again refl refl refl refl last_a

abbrev restart_a : Start
restart_a = record start_a { listing = listed []; now = 900; clock = λ i. 900 + i }
