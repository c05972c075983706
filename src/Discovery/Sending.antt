-- ===== src/Discovery/Sending.antt =====
-- pkg/natdiscovery/request_send.go: the check requests that are sent to a remote endpoint.
use submariner.Base.{
  ℕ, ◌+◌, ◌%◌, ◌^◌, String, Option, none, some, List, [], ◌∷◌, ◌++◌, length, ◌==◌, str_eq,
  if◌then◌else◌,
}
use submariner.Endpoint.{
  IpFamily, NetLib, EndpointSpec, ConfigError, get_backend_port, natt_discovery_port_config,
  get_family_cable_name, get_private_ip, get_public_ip,
}
use submariner.Discovery.Remote.{RemoteEndpointNat, NatEndpointInfo, check_sent}
use submariner.Discovery.Messages.{NatRequest, NatResponse, UdpAddr}

-- What a call meets outside this package: the route lookup `FindSourceIP`, the encoders of the
-- protobuf package, and the UDP socket of a family, whose write answers the bytes written or fails.
pub record Surroundings : Type 0 where
  pub find_source_ip : String → IpFamily → Option String
  pub marshal_request : NatRequest → Option (List ℕ)
  pub marshal_response : NatResponse → Option (List ℕ)
  pub udp_write : IpFamily → List ℕ → UdpAddr → Option ℕ

pub data SendError : Type 0 where
  port_error : ConfigError → SendError
  no_discovery_port no_source_ip not_marshaled not_written written_short : SendError

pub data CheckError : Type 0 where
  both_failed private_failed public_failed : SendError → CheckError

-- The fields of the state that a check writes besides the endpoint's: the request counter, what was
-- put on the ready channel, and the requests that the socket took whole, oldest first.
pub record Outbox : Type 0 where
  pub request_counter : ℕ
  pub ready : List NatEndpointInfo
  pub sent : List (NatRequest × UdpAddr)

unfoldable pub extract_nat_discovery_port : EndpointSpec → ℕ × Option SendError
extract_nat_discovery_port spec =
    let (port, error) = get_backend_port spec natt_discovery_port_config 0 in
    elim error [
      | some e ↦ (port, some (port_error e))
      | none ↦ if port == 0 then (port, some no_discovery_port) else (port, none)
    ]

-- Which of the two request ids `reqNumber` points to.
pub data Target : Type 0 where
  to_private to_public : Target

abbrev pub set_request_id : Target → ℕ → RemoteEndpointNat → RemoteEndpointNat
set_request_id to_private n rn = record rn { last_private_ip_request_id = n }
set_request_id to_public n rn = record rn { last_public_ip_request_id = n }

-- `requestCounter.Add(1)`, on a uint64
abbrev pub next_request : ℕ → ℕ
next_request counter = (counter + 1) % 2 ^ 64

abbrev pub build_request :
    EndpointSpec → ℕ → RemoteEndpointNat → ℕ → String → String → ℕ → NatRequest
build_request local server_port rn number source_ip target_ip target_port = record {
  request_number = number;
  sender = some (record {
    cluster_id = local.cluster_id;
    endpoint_id = get_family_cable_name local rn.family;
  });
  receiver = some (record {
    cluster_id = rn.endpoint.spec.cluster_id;
    endpoint_id = get_family_cable_name rn.endpoint.spec rn.family;
  });
  using_src = some (record { ip = source_ip; port = server_port });
  using_dst = some (record { ip = target_ip; port = target_port });
}

abbrev pub check_error : Option SendError → Option SendError → Option CheckError
check_error (some p) (some q) = some (both_failed p)
check_error (some p) none = some (private_failed p)
check_error none (some q) = some (public_failed q)
check_error none none = none

module _ (net : NetLib) (local : EndpointSpec) (server_port : ℕ) (env : Surroundings)
    (now : ℕ) where
  -- From the write on: the id is stored before the write, and is 0 after one that fails.
  unfoldable pub write_request :
      Target
      → NatRequest
      → UdpAddr
      → List ℕ
      → RemoteEndpointNat
      → Outbox
      → RemoteEndpointNat × Outbox × Option SendError
  write_request target request addr buf rn box = elim (env.udp_write rn.family buf addr) [
    | none ↦ (set_request_id target 0 rn, box, some not_written)
    | some written ↦
        if written == length buf
        then (
          check_sent now (set_request_id target request.request_number rn),
          record box { sent = box.sent ++ (request, addr) ∷ [] },
          none,
        )
        else (set_request_id target 0 rn, box, some written_short)
  ]

  unfoldable pub send_check_request_to_target_ip :
      Target → String → RemoteEndpointNat → Outbox → RemoteEndpointNat × Outbox × Option SendError
  unfolding write_request extract_nat_discovery_port
  send_check_request_to_target_ip target target_ip rn box =
      let (port, error) = extract_nat_discovery_port rn.endpoint.spec in
      elim error [
        | some e ↦ (rn, box, some e)
        | none ↦ elim (env.find_source_ip target_ip rn.family) [
          | none ↦ (rn, box, some no_source_ip)
          | some source_ip ↦
              let number = next_request box.request_counter in
              let request = build_request local server_port rn number source_ip target_ip port in
              let box' : Outbox = record box { request_counter = number } in
              elim (env.marshal_request request) [
                | none ↦ (rn, box', some not_marshaled)
                | some buf ↦
                    write_request target request (record { ip = target_ip; port = port }) buf rn
                      box'
              ]
        ]
      ]

  -- A target without an IP is passed over.
  unfoldable pub send_if_set :
      Target → String → RemoteEndpointNat → Outbox → RemoteEndpointNat × Outbox × Option SendError
  unfolding send_check_request_to_target_ip
  send_if_set target target_ip rn box =
      if str_eq target_ip ""
      then (rn, box, none)
      else send_check_request_to_target_ip target target_ip rn box

  unfoldable pub send_check_request :
      RemoteEndpointNat → Outbox → RemoteEndpointNat × Outbox × Option CheckError
  unfolding send_if_set
  send_check_request rn box =
      let (rn', box', error_private) =
        send_if_set to_private (get_private_ip net rn.endpoint.spec rn.family) rn box in
      let (rn'', box'', error_public) =
        send_if_set to_public (get_public_ip net rn'.endpoint.spec rn'.family) rn' box' in
      (rn'', box'', check_error error_private error_public)
