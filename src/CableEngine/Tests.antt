-- ===== src/CableEngine/Tests.antt =====
-- The cable engine's theorems at concrete inputs, with a driver that keeps a list of connections.
use mathlib.Core.Bool.{false≢true}
use submariner.Base.{
  ℕ, String, ◌≡◌, ◌≢◌, refl, true, false, none, some, List, [], ◌∷◌, keep, lookup, insert, str_eq,
  str_eq_iff, not, map_equal, take, arith,
}
use submariner.Endpoint.{
  ipv4, NetLib, Endpoint, EndpointSpec, get_family_cable_name, spec_deep_equal,
}
use submariner.Discovery.Remote.{NatEndpointInfo, default_timeouts}
use submariner.Discovery.Service.{NatDiscovery}
use submariner.CableEngine.{
  Connection, Driver, Engine, driver_not_initialized, nil_driver, new_engine, start_engine,
  install_cable_with_nat_info, remove_cable, is_newer, is_unchanged,
  should_proceed_with_installation,
}
use submariner.CableEngine.Pending.{IsPositive, install-remove_cable}
use submariner.CableEngine.Awaited.{awaited, requests, results, installs, results-requests}
use submariner.CableEngine.Replace.{disconnect_all, install_blocked, install_replaces}
use submariner.CableEngine.Lifecycle.{
  IsCoherent, here, next, starts, reachable-IsCoherent, start_engine_again,
}

abbrev test_net : NetLib
test_net = record { family_of = λ t. ipv4; has_ipv4_form = λ t. true; ip_equal = str_eq }

abbrev gateway : String → String → EndpointSpec
gateway cluster cable = record {
  cluster_id = cluster;
  cable_name = cable;
  health_check_ip = "";
  health_check_ips = [];
  hostname = cable;
  subnets = [];
  private_ip = "10.0.0.1";
  private_ips = [];
  public_ip = "";
  public_ips = [];
  nat_enabled = false;
  backend = "vxlan";
  backend_config = [];
}

abbrev gateway_endpoint : String → ℕ → Endpoint
gateway_endpoint cable time = record {
  name = cable;
  uid = cable;
  created = time;
  spec = gateway "west" cable;
}

abbrev info_for : String → ℕ → NatEndpointInfo
info_for cable time = record {
  endpoint = gateway_endpoint cable time;
  use_nat = false;
  use_ip = "10.0.0.2";
  use_family = ipv4;
}

abbrev connection : String → Connection
connection cable = record {
  endpoint = gateway "west" cable;
  using_ip = "10.0.0.2";
  using_nat = false;
}

-- The state of the driver is the list of its connections; no call but `Init` fails.
abbrev list_driver : Driver (List Connection)
list_driver = record {
  init = λ d. (false, d);
  get_active_connections = λ d. some d;
  get_connections = λ d. some d;
  connect_to_endpoint = λ info d. (
    some info.use_ip,
    record { endpoint = info.endpoint.spec; using_ip = info.use_ip; using_nat = info.use_nat } ∷ d,
  );
  disconnect_from_endpoint =
      λ ep family d. (true, keep (λ c. not (str_eq c.endpoint.cable_name ep.cable_name)) d);
  cleanup = λ d. (true, []);
}

abbrev service : NatDiscovery
service = record {
  local = gateway "east" "east";
  server_port = 4490;
  times = default_timeouts;
  remote_endpoints = [];
  outbox = record { request_counter = 0; ready = []; sent = [] };
}

-- An engine that runs, with a cable to an old gateway of west.
abbrev connected : Engine (List Connection)
connected = record {
  driver = some (connection "old" ∷ []);
  running = true;
  local_cluster_id = "east";
  local_endpoint = gateway "east" "east";
  nat_discovery = service;
  nat_discovery_pending = ("new-v4", 1) ∷ [];
  installed_cables = ("old-v4", 10) ∷ [];
}

west_ne_east : ◌≢◌ {A = String} "west" "east"
unfolding str_eq
west_ne_east e = false≢true ((str_eq_iff "west" "east").1 e)

connected_counts : IsPositive connected.nat_discovery_pending
unfolding lookup
connected_counts k n e = ground arith

-- One result was awaited and two more calls follow: of four results the last is dropped.
results-requests_example :
    let infos =
      info_for "new" 20 ∷ info_for "new" 20 ∷ info_for "new" 20 ∷ info_for "new" 20 ∷ [] in
    let after =
      results test_net list_driver infos
        (requests test_net list_driver (gateway_endpoint "new" 20) ipv4 (1 ∷ 2 ∷ []) connected) in
    let direct = installs test_net list_driver (take 3 infos) connected in
    (after.driver ≡ direct.driver)
    × (after.installed_cables ≡ direct.installed_cables)
    × (awaited "new-v4" after ≡ 0)
unfolding lookup str_eq get_family_cable_name spec_deep_equal
results-requests_example =
    results-requests test_net list_driver (gateway_endpoint "new" 20) ipv4 (1 ∷ 2 ∷ [])
      (info_for "new" 20 ∷ info_for "new" 20 ∷ info_for "new" 20 ∷ info_for "new" 20 ∷ []) connected
      west_ne_east refl refl connected_counts (refl, (refl, (refl, (refl, tt))))

install-remove_cable_example :
    let removed =
      (remove_cable test_net list_driver (gateway_endpoint "new" 20) ipv4 connected).0 in
    install_cable_with_nat_info test_net list_driver (info_for "new" 20) removed ≡ (removed, none)
install-remove_cable_example =
    install-remove_cable test_net list_driver (gateway_endpoint "new" 20) ipv4 connected
      (info_for "new" 20) west_ne_east refl

-- A result for an endpoint that is older than the one of the old cable.
install_blocked_example :
    let result = install_cable_with_nat_info test_net list_driver (info_for "new" 5) connected in
    (result.0.driver ≡ some (connection "old" ∷ []))
    × (result.0.installed_cables ≡ connected.installed_cables)
    × (result.1 ≡ none)
unfolding lookup str_eq get_family_cable_name is_newer is_unchanged should_proceed_with_installation
    map_equal
install_blocked_example =
    install_blocked test_net list_driver (info_for "new" 5) connected (connection "old" ∷ [])
      (connection "old" ∷ []) refl refl refl refl (connection "old") [] refl refl

-- And one for a newer endpoint.
install_replaces_example :
    let result = install_cable_with_nat_info test_net list_driver (info_for "new" 20) connected in
    (result.0.driver ≡ some (connection "new" ∷ []))
    × (result.0.installed_cables ≡ insert "new-v4" 20 connected.installed_cables)
    × (result.1 ≡ none)
unfolding lookup str_eq get_family_cable_name is_newer is_unchanged should_proceed_with_installation
    map_equal disconnect_all
install_replaces_example =
    install_replaces test_net list_driver (info_for "new" 20) connected (connection "old" ∷ [])
      (connection "old" ∷ []) refl refl refl refl [] (connection "new" ∷ []) "10.0.0.2" (refl, tt)
      refl refl

abbrev first_start : Engine (List Connection)
first_start = new_engine "east" (gateway "east" "east") service

reachable-IsCoherent_example :
    let eng = (start_engine test_net list_driver (some []) first_start).0 in
    IsCoherent eng
    × ((install_cable_with_nat_info test_net list_driver (info_for "new" 5) eng).1
        ≢ some nil_driver)
    × ((remove_cable test_net list_driver (gateway_endpoint "new" 5) ipv4 eng).1 ≢ some nil_driver)
reachable-IsCoherent_example =
    reachable-IsCoherent test_net list_driver "east" (gateway "east" "east") service
      (info_for "new" 5) (gateway_endpoint "new" 5) ipv4 (next here (starts (some [])))

start_engine_again_example :
    let first = start_engine test_net list_driver (some []) first_start in
    let second = start_engine test_net list_driver none first.0 in
    (first.1 ≡ some driver_not_initialized)
    × (second.1 ≡ none)
    × (second.0.running ≡ true)
    × (second.0.driver ≡ some [])
unfolding new_engine
start_engine_again_example =
    start_engine_again test_net list_driver [] [] none first_start refl refl
