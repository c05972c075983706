-- ===== src/Discovery/Exchange.antt =====
-- A whole exchange between two gateways: the request of one (request_send.go), the answer of the
-- other (request_handle.go), and what the first makes of it (response_handle.go).
use submariner.Base.{
  ℕ, String, ◌≡◌, refl, ◌≢◌, true, false, none, some, arith, lookup, str_eq_iff, str_eq_refl,
}
use submariner.Endpoint.{NetLib, EndpointSpec, get_private_ip, get_public_ip, get_family_cable_name}
use submariner.Discovery.Remote.{
  waiting_for_response, RemoteEndpointNat, choose_public, choose_private, transition_to_public_ip,
  transition_to_private_ip,
}
use submariner.Discovery.Messages.{nat_detected, NatRequest, NatResponse, UdpAddr}
use submariner.Discovery.Sending.{build_request}
use submariner.Discovery.Answering.{family_of_addr, blank_response, response_to_request}
use submariner.Discovery.Service.{NatDiscovery, key_of, handle_response_from_address}
use submariner.Discovery.Moves.{moved}

module _ (net : NetLib) (rn : RemoteEndpointNat) (local : EndpointSpec) (n port : ℕ)
    (source_ip : String) where
  -- The request with number `n`, and the remote gateway's answer to it when it arrives from `addr`.
  abbrev pub request : String → ℕ → NatRequest
  request = build_request local port rn n source_ip

  abbrev pub answer : String → ℕ → UdpAddr → NatResponse
  answer target_ip target_port addr =
      response_to_request net rn.endpoint.spec (request target_ip target_port) addr

  -- The address from which an unchanged request arrives.
  abbrev pub source : UdpAddr
  source = record { ip = source_ip; port = port }

  answer_direct :
      (target_ip : String) (target_port : ℕ)
      → family_of_addr net source ≡ rn.family
      → target_ip ≡ get_private_ip net rn.endpoint.spec rn.family
      → answer target_ip target_port source
        ≡ blank_response rn.endpoint.spec rn.family (request target_ip target_port) source
  unfolding response_to_request
  answer_direct target_ip target_port f t = ground (
    arith,
    str_eq_refl rn.endpoint.spec.cluster_id,
    str_eq_refl (get_family_cable_name rn.endpoint.spec rn.family),
    str_eq_refl source_ip,
    str_eq_iff target_ip (get_private_ip net rn.endpoint.spec rn.family),
  )

  -- Where the request does not go to the private IP, the answer says that there is NAT, whatever
  -- address the request arrives from.
  answer_translated :
      (target_ip : String) (target_port : ℕ) (addr : UdpAddr)
      → family_of_addr net addr ≡ rn.family
      → target_ip ≢ get_private_ip net rn.endpoint.spec rn.family
      → let resp = answer target_ip target_port addr in
        let blank =
          blank_response rn.endpoint.spec rn.family (request target_ip target_port) addr in
        (resp.response ≡ nat_detected)
        × (resp.sender ≡ blank.sender)
        × (resp.receiver ≡ blank.receiver)
        × (resp.received_src ≡ blank.received_src)
        × (resp.request_number ≡ n)
  unfolding response_to_request
  answer_translated target_ip target_port addr f t = ground (
    arith,
    str_eq_refl rn.endpoint.spec.cluster_id,
    str_eq_refl (get_family_cable_name rn.endpoint.spec rn.family),
    str_eq_iff target_ip (get_private_ip net rn.endpoint.spec rn.family),
  )

  module _ (nd : NatDiscovery) (now : ℕ) (found : lookup (key_of rn) nd.remote_endpoints ≡ some rn)
      (waits : rn.state ≡ waiting_for_response) where
    -- Without NAT the private IP wins. An endpoint of the table waits, and the request that it was
    -- sent last at its private IP, with a number of its own, arrives as it was sent, over the
    -- endpoint's family; the remote gateway answers it under its own spec, and the answer comes
    -- back from the private IP. Then the endpoint moves to its private IP without NAT, and is
    -- published.
    pub exchange_direct :
        (target_port : ℕ) (addr : UdpAddr)
        → family_of_addr net source ≡ rn.family
        → net.ip_equal addr.ip (get_private_ip net rn.endpoint.spec rn.family) ≡ true
        → rn.last_private_ip_request_id ≡ n
        → rn.last_public_ip_request_id ≢ n
        → handle_response_from_address net now
            (answer (get_private_ip net rn.endpoint.spec rn.family) target_port source)
            addr
            nd
          ≡ (moved net now (key_of rn) (choose_private net now false rn) nd, none)
    unfolding handle_response_from_address transition_to_private_ip
    exchange_direct target_port addr f from_private asked other =
        rw (answer_direct (get_private_ip net rn.endpoint.spec rn.family) target_port f refl)
          (ground arith)

    -- Behind NAT the public IP is used, with NAT. The request that a waiting endpoint of the table
    -- was sent last at its public IP, which is not the private one, is answered from wherever it
    -- arrives over the endpoint's family, and the answer from any address moves the endpoint to its
    -- public IP with NAT, and publishes it.
    pub exchange_translated :
        (target_port : ℕ) (arrives_from addr : UdpAddr)
        → family_of_addr net arrives_from ≡ rn.family
        → get_public_ip net rn.endpoint.spec rn.family
          ≢ get_private_ip net rn.endpoint.spec rn.family
        → rn.last_public_ip_request_id ≡ n
        → handle_response_from_address net now
            (answer (get_public_ip net rn.endpoint.spec rn.family) target_port arrives_from)
            addr
            nd
          ≡ (moved net now (key_of rn) (choose_public net now true rn) nd, none)
    unfolding handle_response_from_address transition_to_public_ip
    exchange_translated target_port arrives_from addr f differ asked = ground (
      arith,
      answer_translated (get_public_ip net rn.endpoint.spec rn.family) target_port arrives_from f
          differ,
    )
