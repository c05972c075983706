-- ===== src/Discovery/Tests.antt =====
-- The NAT discovery theorems at concrete inputs, and runs of the service.
use submariner.Base.{
  ℕ, String, ◌≡◌, refl, ◌≢◌, true, false, none, some, List, [], ◌∷◌, ◌++◌, arith, lookup, insert,
  str_eq,
}
use submariner.Endpoint.{
  ipv4, NetLib, Endpoint, EndpointSpec, get_private_ip, get_public_ip, get_family_cable_name,
  get_backend_port, get_backend_bool, parse_port, get_ip_from,
}
use submariner.Discovery.Remote.{
  testing_private_and_public_ips, should_check, has_timed_out, RemoteEndpointNat, NatEndpointInfo,
  default_timeouts, waiting_for_response, selected_public_ip, new_remote_endpoint_nat,
  use_legacy_nat_settings, choose_private, choose_public, to_nat_endpoint_info,
  is_discovery_complete, state_after_check, check_sent,
}
use submariner.Discovery.Messages.{response_ok, NatResponse, UdpAddr}
use submariner.Discovery.Sending.{Surroundings, Outbox, next_request, send_check_request}
use submariner.Discovery.Service.{
  NatDiscovery, key_of, new_with_config, add_endpoint, check_endpoint, check_endpoints,
  check_endpoint_list, handle_response_from_address,
}
use submariner.Discovery.Moves.{Effect, moved, handle_response_Effect}
use submariner.Discovery.History.{here, next, adds, checks, reachable-IsSound}
use submariner.Discovery.Invariant.{IsSound}
use submariner.Discovery.Progress.{check_endpoint_list_timeout, private_is_final}
use submariner.Discovery.Requests.{Requested, send_check_request_ids}
use submariner.Discovery.Exchange.{answer, source, exchange_direct, exchange_translated}
use submariner.Discovery.Unsent.{unsent_request_answered}

abbrev test_net : NetLib
test_net = record { family_of = λ t. ipv4; has_ipv4_form = λ t. true; ip_equal = str_eq }

-- The spec of a gateway with the private IP 10.0.0.`1`, a public IP and a discovery port.
abbrev gateway : String → String → String → EndpointSpec
gateway cluster private public = record {
  cluster_id = cluster;
  cable_name = cluster;
  health_check_ip = "";
  health_check_ips = [];
  hostname = cluster;
  subnets = [];
  private_ip = private;
  private_ips = [];
  public_ip = public;
  public_ips = [];
  nat_enabled = true;
  backend = "libreswan";
  backend_config = ("natt-discovery-port", "4490") ∷ [];
}

abbrev east : EndpointSpec
east = gateway "east" "10.0.0.1" "1.1.1.1"

abbrev west_endpoint : Endpoint
west_endpoint = record {
  name = "west";
  uid = "w";
  created = 5;
  spec = gateway "west" "10.0.0.2" "2.2.2.2";
}

-- A cluster whose gateway has no public IP.
abbrev north_endpoint : Endpoint
north_endpoint = record {
  name = "north";
  uid = "n";
  created = 5;
  spec = gateway "north" "10.0.0.3" "";
}

-- Every address is reached from 10.0.0.1, and a message of three bytes goes out whole.
abbrev working : Surroundings
working = record {
  find_source_ip = λ ip family. some "10.0.0.1";
  marshal_request = λ request. some (1 ∷ 2 ∷ 3 ∷ []);
  marshal_response = λ response. some (1 ∷ 2 ∷ 3 ∷ []);
  udp_write = λ family buf addr. some 3;
}

-- The service of east, with the request counter at its largest value.
abbrev started : NatDiscovery
started = record {
  local = east;
  server_port = 4490;
  times = default_timeouts;
  remote_endpoints = [];
  outbox = record { request_counter = 18_446_744_073_709_551_615; ready = []; sent = [] };
}

created : (new_with_config east default_timeouts 18_446_744_073_709_551_615).0 ≡ started
unfolding new_with_config get_backend_port parse_port str_eq lookup
created = refl

-- west and north, as `AddEndpoint` stores them and after the first check.
abbrev fresh : Endpoint → RemoteEndpointNat
fresh endpoint = record {
  endpoint = endpoint;
  family = ipv4;
  state = testing_private_and_public_ips;
  last_check = 0;
  last_transition = 100;
  started = 100;
  timeout = 60_000_000_000;
  use_ip = "";
  last_public_ip_request_id = 0;
  last_private_ip_request_id = 0;
  use_nat = false;
  using_load_balancer = false;
}

abbrev west_waiting : RemoteEndpointNat
west_waiting = record (fresh west_endpoint) {
  state = waiting_for_response;
  last_check = 200;
  last_private_ip_request_id = 0;
  last_public_ip_request_id = 1;
}

abbrev north_waiting : RemoteEndpointNat
north_waiting = record (fresh north_endpoint) {
  state = waiting_for_response;
  last_check = 200;
  last_private_ip_request_id = 2;
}

abbrev polling : NatDiscovery
polling = check_endpoint_list test_net working 200 (
    add_endpoint test_net 100 north_endpoint ipv4
      (add_endpoint test_net 100 west_endpoint ipv4 started))

polling_entries :
    polling.remote_endpoints ≡ ("west-v4", west_waiting) ∷ ("north-v4", north_waiting) ∷ []
unfolding check_endpoint_list check_endpoints check_endpoint add_endpoint insert lookup str_eq
    get_family_cable_name new_remote_endpoint_nat get_backend_bool get_backend_port parse_port
    should_check has_timed_out send_check_request get_private_ip get_public_ip get_ip_from
    check_sent
polling_entries = refl

-- The table after that check, with nothing published.
abbrev waiting : NatDiscovery
waiting = record started {
  remote_endpoints = ("west-v4", west_waiting) ∷ ("north-v4", north_waiting) ∷ [];
}

-- An answer in the name of `cluster`, to the request with number `n`.
abbrev answer_of : String → String → ℕ → NatResponse
answer_of cluster name n = record {
  request_number = n;
  response = response_ok;
  sender = some (record { cluster_id = cluster; endpoint_id = name });
  receiver = some (record { cluster_id = "east"; endpoint_id = "east-v4" });
  src_ip_nat_detected = false;
  src_port_nat_detected = false;
  dst_ip_nat_detected = false;
  received_src = some (record { ip = "10.0.0.1"; port = 4490 });
}

abbrev west_private : UdpAddr
west_private = record { ip = "10.0.0.2"; port = 4490 }

abbrev elsewhere : UdpAddr
elsewhere = record { ip = "66.6.6.6"; port = 1 }

handle_response_Effect_example :
    Effect test_net 300 (answer_of "west" "west-v4" 0) west_private waiting (
      handle_response_from_address test_net 300 (answer_of "west" "west-v4" 0) west_private waiting)
handle_response_Effect_example =
    handle_response_Effect test_net 300 (answer_of "west" "west-v4" 0) west_private waiting

reachable-IsSound_example : IsSound test_net (
    check_endpoint_list test_net working 200
      (add_endpoint test_net 100 west_endpoint ipv4 (new_with_config east default_timeouts 7).0))
reachable-IsSound_example =
    reachable-IsSound test_net east default_timeouts 7
      (next (next here (adds 100 west_endpoint ipv4)) (checks working 200))

check_endpoint_list_timeout_example :
    let nd' = check_endpoint_list test_net working 60_000_000_101 waiting in
    let done = use_legacy_nat_settings test_net 60_000_000_101 west_waiting in
    (lookup "west-v4" nd'.remote_endpoints ≡ some done)
    × (is_discovery_complete done ≡ true)
    × ((before : List NatEndpointInfo) × (after : List NatEndpointInfo) × (nd'.outbox.ready
          ≡ before ++ to_nat_endpoint_info done ∷ after))
unfolding lookup str_eq
check_endpoint_list_timeout_example =
    check_endpoint_list_timeout test_net waiting working 60_000_000_101 "west-v4" west_waiting refl
      refl (omega arith) (omega arith)

-- west, once its private IP is chosen.
abbrev west_settled : RemoteEndpointNat
west_settled = choose_private test_net 300 false west_waiting

abbrev settled : NatDiscovery
settled = record waiting { remote_endpoints = ("west-v4", west_settled) ∷ [] }

private_is_final_example :
    (lookup "west-v4" (check_endpoint_list test_net working 400 settled).remote_endpoints
      ≡ some west_settled)
    × (lookup "west-v4"
          (handle_response_from_address test_net 400
            (answer_of "west" "west-v4" 1)
            elsewhere
            settled).0.remote_endpoints
        ≡ some west_settled)
unfolding lookup str_eq
private_is_final_example =
    private_is_final test_net settled working 400 "west-v4" west_settled
      (answer_of "west" "west-v4" 1) elsewhere refl refl

some_private : get_private_ip test_net west_endpoint.spec ipv4 ≢ ""
unfolding get_private_ip get_ip_from
some_private e = cc

some_public : get_public_ip test_net west_endpoint.spec ipv4 ≢ ""
unfolding get_public_ip get_ip_from
some_public e = cc

public_ne_private :
    get_public_ip test_net west_endpoint.spec ipv4 ≢ get_private_ip test_net west_endpoint.spec ipv4
unfolding get_public_ip get_private_ip get_ip_from
public_ne_private e = cc

abbrev full_counter : Outbox
full_counter = started.outbox

send_check_request_ids_example :
    let (rn', box', _) =
      send_check_request test_net east 4490 working 200 (fresh west_endpoint) full_counter in
    (rn'.last_private_ip_request_id ≡ next_request full_counter.request_counter)
    × (rn'.last_public_ip_request_id ≡ next_request (next_request full_counter.request_counter))
    × (rn'.last_private_ip_request_id ≢ rn'.last_public_ip_request_id)
    × (box'.request_counter ≡ next_request (next_request full_counter.request_counter))
    × (rn'.state ≡ state_after_check (fresh west_endpoint).state)
    × Requested test_net (fresh west_endpoint) full_counter.sent rn' box'.sent
unfolding send_check_request get_private_ip get_public_ip get_ip_from str_eq lookup get_backend_port
    parse_port check_sent
send_check_request_ids_example =
    send_check_request_ids test_net east 4490 working 200 (fresh west_endpoint) full_counter
      some_private some_public refl

exchange_direct_example :
    handle_response_from_address test_net 300
      (answer test_net west_waiting east 0 4490 "10.0.0.1"
        (get_private_ip test_net west_endpoint.spec ipv4)
        4490
        (source test_net west_waiting east 0 4490 "10.0.0.1"))
      west_private
      waiting
    ≡ (
      moved test_net 300
          (key_of west_waiting)
          (choose_private test_net 300 false west_waiting)
          waiting,
      none,
    )
unfolding lookup str_eq get_family_cable_name get_private_ip get_ip_from
exchange_direct_example =
    exchange_direct test_net west_waiting east 0 4490 "10.0.0.1" waiting 300 refl refl 4490
      west_private refl refl refl (omega arith)

exchange_translated_example :
    handle_response_from_address test_net 300
      (answer test_net west_waiting east 1 4490 "10.0.0.1"
        (get_public_ip test_net west_endpoint.spec ipv4)
        4490
        elsewhere)
      elsewhere
      waiting
    ≡ (
      moved test_net 300
          (key_of west_waiting)
          (choose_public test_net 300 true west_waiting)
          waiting,
      none,
    )
unfolding lookup str_eq get_family_cable_name
exchange_translated_example =
    exchange_translated test_net west_waiting east 1 4490 "10.0.0.1" waiting 300 refl refl 4490
      elsewhere elsewhere refl public_ne_private refl

-- north was sent no public request, and a stranger's response with number 0 settles it.
unsent_request_answered_example :
    let forged = choose_public test_net 300 false north_waiting in
    (handle_response_from_address test_net 300 (answer_of "north" "north-v4" 0) elsewhere waiting
      ≡ (moved test_net 300 "north-v4" forged waiting, none))
    × (forged.state ≡ selected_public_ip)
    × (forged.use_ip ≡ "")
unfolding lookup str_eq get_public_ip get_ip_from
unsent_request_answered_example =
    unsent_request_answered test_net 300 waiting north_waiting (answer_of "north" "north-v4" 0)
      elsewhere (record { cluster_id = "north"; endpoint_id = "north-v4" })
      (record { cluster_id = "east"; endpoint_id = "east-v4" })
      (record { ip = "10.0.0.1"; port = 4490 }) refl refl refl refl refl refl refl refl refl
