-- ===== src/Discovery/Service.antt =====
-- pkg/natdiscovery/natdiscovery.go and response_handle.go: the table of remote endpoints. Each
-- operation runs as one step. The buffered ready channel is the list of what was put on it; that a
-- full channel blocks is not modelled.
use submariner.Base.{
  ℕ, String, Bool, true, false, ◌||◌, not, Option, none, some, [], ◌∷◌, ◌++◌, Dict, lookup, insert,
  erase, ◌==◌, if◌then◌else◌,
}
use submariner.Endpoint.{
  IpFamily, NetLib, Endpoint, EndpointSpec, ConfigError, spec_deep_equal, get_backend_port,
  natt_discovery_port_config, get_family_cable_name, get_private_ip,
}
use submariner.Discovery.Remote.{
  Timeouts, RemoteEndpointNat, NatEndpointInfo, to_nat_endpoint_info, new_remote_endpoint_nat,
  has_timed_out, is_discovery_complete, should_check, use_legacy_nat_settings,
  transition_to_public_ip, transition_to_private_ip,
}
use submariner.Discovery.Messages.{
  ResponseType, response_ok, nat_detected, EndpointDetails, IpPortPair, NatResponse, UdpAddr,
}
use submariner.Discovery.Sending.{
  Surroundings, Outbox, extract_nat_discovery_port, send_check_request,
}

pub record NatDiscovery : Type 0 where
  pub local : EndpointSpec
  pub server_port : ℕ
  pub times : Timeouts
  pub remote_endpoints : Dict RemoteEndpointNat
  pub outbox : Outbox

-- `NewWithConfig`; the counter starts at a random number.
unfoldable pub new_with_config : EndpointSpec → Timeouts → ℕ → NatDiscovery × Option ConfigError
new_with_config local times random =
    let (port, error) = get_backend_port local natt_discovery_port_config 0 in
    (
      record {
        local = local;
        server_port = port;
        times = times;
        remote_endpoints = [];
        outbox = record { request_counter = random; ready = []; sent = [] };
      },
      error,
    )

-- `nd.readyChannel <- info`
abbrev pub publish : NatEndpointInfo → Outbox → Outbox
publish info box = record box { ready = box.ready ++ info ∷ [] }

-- The key of the table for an endpoint.
abbrev pub key_of : RemoteEndpointNat → String
key_of rn = get_family_cable_name rn.endpoint.spec rn.family

unfoldable pub remove_endpoint : String → NatDiscovery → NatDiscovery
remove_endpoint name nd = record nd { remote_endpoints = erase name nd.remote_endpoints }

abbrev pub is_some {ℓ} : {A : Type ℓ} → Option A → Bool
is_some none = false
is_some (some _) = true

-- Why `handleResponseFromAddress` refuses a response.
pub data ResponseError : Type 0 where
  malformed_response : ResponseError
  refused : ResponseType → ResponseError
  unknown_endpoint wrong_source unknown_request : ResponseError

abbrev pub is_accepted : ResponseType → Bool
is_accepted response_ok = true
is_accepted nat_detected = true
is_accepted _ = false

abbrev pub is_nat_detected : ResponseType → Bool
is_nat_detected nat_detected = true
is_nat_detected _ = false

-- A transition that was made is stored and published.
unfoldable pub store_moved :
    String → RemoteEndpointNat × Bool → NatDiscovery → NatDiscovery × Option ResponseError
store_moved name (rn, true) nd = (
  record nd {
    remote_endpoints = insert name rn nd.remote_endpoints;
    outbox = publish (to_nat_endpoint_info rn) nd.outbox;
  },
  none,
)
store_moved name (rn, false) nd = (nd, none)

module _ (net : NetLib) where
  -- The first half of `AddEndpoint`: an endpoint with which discovery cannot be run, on either
  -- side, is settled at once by the legacy settings.
  unfoldable pub begin_discovery :
      ℕ → NatDiscovery → Endpoint → RemoteEndpointNat → RemoteEndpointNat × Outbox
  begin_discovery now nd endpoint rn =
      if is_some (extract_nat_discovery_port endpoint.spec).1 || nd.server_port == 0
      then (
        use_legacy_nat_settings net now rn,
        publish (to_nat_endpoint_info (use_legacy_nat_settings net now rn)) nd.outbox,
      )
      else (rn, nd.outbox)

  unfoldable pub add_endpoint : ℕ → Endpoint → IpFamily → NatDiscovery → NatDiscovery
  unfolding begin_discovery
  add_endpoint now endpoint family nd =
      let (rn, box) =
        begin_discovery now nd endpoint (new_remote_endpoint_nat nd.times now endpoint family) in
      let cable_name = get_family_cable_name endpoint.spec family in
      let stored : NatDiscovery = record nd {
        remote_endpoints = insert cable_name rn nd.remote_endpoints;
        outbox = box;
      } in
      elim (lookup cable_name nd.remote_endpoints) [
        | none ↦ stored
        | some existing ↦
            if spec_deep_equal existing.endpoint.spec endpoint.spec
            then (if is_discovery_complete existing
                then record nd { outbox = publish (to_nat_endpoint_info existing) box }
                else record nd { outbox = box })
            else stored
      ]

  -- The body of the loop of `checkEndpointList`.
  unfoldable pub check_endpoint :
      NatDiscovery → Surroundings → ℕ → RemoteEndpointNat → Outbox → RemoteEndpointNat × Outbox
  check_endpoint nd env now rn box =
      if should_check nd.times now rn
      then (if has_timed_out now rn
          then (
            use_legacy_nat_settings net now rn,
            publish (to_nat_endpoint_info (use_legacy_nat_settings net now rn)) box,
          )
          else (let (rn', box', _) =
                send_check_request net nd.local nd.server_port env now rn box in
              (rn', box')))
      else (rn, box)

  unfoldable pub check_endpoints :
      NatDiscovery
      → Surroundings
      → ℕ
      → Dict RemoteEndpointNat
      → Outbox
      → Dict RemoteEndpointNat × Outbox
  check_endpoints nd env now [] box = ([], box)
  check_endpoints nd env now ((name, rn) ∷ rest) box =
      let (rn', box') = check_endpoint nd env now rn box in
      let (rest', box'') = check_endpoints nd env now rest box' in ((name, rn') ∷ rest', box'')

  unfoldable pub check_endpoint_list : Surroundings → ℕ → NatDiscovery → NatDiscovery
  check_endpoint_list env now nd =
      let (endpoints, box) = check_endpoints nd env now nd.remote_endpoints nd.outbox in
      record nd { remote_endpoints = endpoints; outbox = box }

  -- From the lookup of the endpoint on.
  unfoldable pub match_response :
      ℕ
      → NatResponse
      → UdpAddr
      → String
      → RemoteEndpointNat
      → NatDiscovery
      → NatDiscovery × Option ResponseError
  unfolding store_moved
  match_response now resp addr name rn nd =
      let nat = is_nat_detected resp.response in
      if rn.last_public_ip_request_id == resp.request_number
      then store_moved name (transition_to_public_ip net now nat rn) nd
      else if rn.last_private_ip_request_id == resp.request_number
      then (if not (net.ip_equal addr.ip (get_private_ip net rn.endpoint.spec rn.family))
          then (nd, some wrong_source)
          else store_moved name (transition_to_private_ip net nd.times now nat rn) nd)
      else (nd, some unknown_request)

  -- The fields that may be nil, taken apart.
  unfoldable pub handle_parts :
      ℕ
      → NatResponse
      → UdpAddr
      → Option EndpointDetails
      → Option EndpointDetails
      → Option IpPortPair
      → NatDiscovery
      → NatDiscovery × Option ResponseError
  unfolding match_response
  handle_parts now resp addr (some sender) (some receiver) (some src) nd =
      if not (is_accepted resp.response)
      then (nd, some (refused resp.response))
      else elim (lookup sender.endpoint_id nd.remote_endpoints) [
        | none ↦ (nd, some unknown_endpoint)
        | some rn ↦ match_response now resp addr sender.endpoint_id rn nd
      ]
  handle_parts now resp addr _ _ _ nd = (nd, some malformed_response)

  unfoldable pub handle_response_from_address :
      ℕ → NatResponse → UdpAddr → NatDiscovery → NatDiscovery × Option ResponseError
  unfolding handle_parts
  handle_response_from_address now resp addr nd =
      handle_parts now resp addr resp.sender resp.receiver resp.received_src nd
