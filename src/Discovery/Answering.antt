-- ===== src/Discovery/Answering.antt =====
-- pkg/natdiscovery/request_handle.go: the answer to a check request of another gateway.
use submariner.Base.{
  false, ◌&&◌, ◌||◌, not, Option, none, some, length, ◌==◌, str_eq, if◌then◌else◌,
}
use submariner.Endpoint.{
  IpFamily, ipv4, ipv6, NetLib, EndpointSpec, get_family_cable_name, get_private_ip,
}
use submariner.Discovery.Messages.{
  response_ok, nat_detected, unknown_dst_cluster, unknown_dst_endpoint, malformed, EndpointDetails,
  IpPortPair, NatRequest, NatResponse, UdpAddr,
}
use submariner.Discovery.Sending.{
  Surroundings, SendError, not_marshaled, not_written, written_short,
}

abbrev pub family_of_addr : NetLib → UdpAddr → IpFamily
family_of_addr net addr = if net.has_ipv4_form addr.ip then ipv4 else ipv6

-- The response before a verdict is entered: its type is the first of the enumeration.
abbrev pub blank_response : EndpointSpec → IpFamily → NatRequest → UdpAddr → NatResponse
blank_response local family req addr = record {
  request_number = req.request_number;
  response = response_ok;
  sender =
      some (record {
        cluster_id = local.cluster_id;
        endpoint_id = get_family_cable_name local family;
      });
  receiver = req.sender;
  src_ip_nat_detected = false;
  src_port_nat_detected = false;
  dst_ip_nat_detected = false;
  received_src = some (record { ip = addr.ip; port = addr.port });
}

-- The three comparisons and the verdict, for a request that is for this endpoint.
unfoldable pub detect_nat :
    NetLib → EndpointSpec → IpFamily → IpPortPair → IpPortPair → UdpAddr → NatResponse → NatResponse
detect_nat net local family src dst addr blank =
    let src_ip = not (str_eq src.ip "") && not (str_eq src.ip addr.ip) in
    let src_port = not (src.port == addr.port) in
    let dst_ip = not (str_eq dst.ip (get_private_ip net local family)) in
    record blank {
      src_ip_nat_detected = src_ip;
      src_port_nat_detected = src_port;
      dst_ip_nat_detected = dst_ip;
      response = if src_port || src_ip || dst_ip then nat_detected else response_ok;
    }

-- The early returns, on the four fields that may be nil.
unfoldable pub answer_request :
    NetLib
    → EndpointSpec
    → IpFamily
    → UdpAddr
    → NatResponse
    → Option EndpointDetails
    → Option EndpointDetails
    → Option IpPortPair
    → Option IpPortPair
    → NatResponse
unfolding detect_nat
answer_request net local family addr blank (some receiver) (some sender) (some dst) (some src) =
    if not (str_eq receiver.cluster_id local.cluster_id)
    then record blank { response = unknown_dst_cluster }
    else if not (str_eq receiver.endpoint_id (get_family_cable_name local family))
    then record blank { response = unknown_dst_endpoint }
    else detect_nat net local family src dst addr blank
answer_request net local family addr blank _ _ _ _ = record blank { response = malformed }

-- The response that `handleRequestFromAddress` hands to `sendResponseToAddress`.
unfoldable pub response_to_request : NetLib → EndpointSpec → NatRequest → UdpAddr → NatResponse
unfolding answer_request
response_to_request net local req addr =
    let family = family_of_addr net addr in
    answer_request net local family addr (blank_response local family req addr) req.receiver
      req.sender req.using_dst req.using_src

unfoldable pub send_response_to_address :
    NetLib → Surroundings → NatResponse → UdpAddr → Option SendError
send_response_to_address net env response addr = elim (env.marshal_response response) [
  | none ↦ some not_marshaled
  | some buf ↦ elim (env.udp_write (net.family_of addr.ip) buf addr) [
    | none ↦ some not_written
    | some written ↦ if written == length buf then none else some written_short
  ]
]

-- The response that was sent, or tried, and the error.
unfoldable pub handle_request_from_address :
    NetLib → Surroundings → EndpointSpec → NatRequest → UdpAddr → NatResponse × Option SendError
unfolding response_to_request send_response_to_address
handle_request_from_address net env local req addr =
    let response = response_to_request net local req addr in
    (response, send_response_to_address net env response addr)
