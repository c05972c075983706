-- ===== src/Discovery/Unsent.antt =====
-- The request id 0, which stands for a request that was never sent (request_send.go and
-- remote_endpoint.go), and what a response that carries it does (response_handle.go).
use submariner.Base.{ℕ, ◌≡◌, refl, true, none, some, arith, lookup}
use submariner.Endpoint.{NetLib, get_public_ip}
use submariner.Discovery.Remote.{
  waiting_for_response, selected_public_ip, RemoteEndpointNat, choose_public,
  transition_to_public_ip,
}
use submariner.Discovery.Messages.{EndpointDetails, IpPortPair, NatResponse, UdpAddr}
use submariner.Discovery.Service.{
  NatDiscovery, is_accepted, is_nat_detected, handle_response_from_address,
}
use submariner.Discovery.Moves.{moved}

-- An endpoint that waits and has no public IP, and so was sent no request there, is moved to the
-- state "public IP selected" with the empty IP, and published so, by any accepted and well-formed
-- response with number 0 that names it, whoever sends it: the id of the request that was never sent
-- is 0 too.
pub unsent_request_answered :
    (net : NetLib) (now : ℕ) (nd : NatDiscovery) (rn : RemoteEndpointNat) (resp : NatResponse)
    (addr : UdpAddr) (sender receiver : EndpointDetails) (src : IpPortPair)
    → lookup sender.endpoint_id nd.remote_endpoints ≡ some rn
    → rn.state ≡ waiting_for_response
    → rn.last_public_ip_request_id ≡ 0
    → get_public_ip net rn.endpoint.spec rn.family ≡ ""
    → resp.request_number ≡ 0
    → is_accepted resp.response ≡ true
    → resp.sender ≡ some sender
    → resp.receiver ≡ some receiver
    → resp.received_src ≡ some src
    → let forged = choose_public net now (is_nat_detected resp.response) rn in
      (handle_response_from_address net now resp addr nd
        ≡ (moved net now sender.endpoint_id forged nd, none))
      × (forged.state ≡ selected_public_ip)
      × (forged.use_ip ≡ "")
unfolding handle_response_from_address transition_to_public_ip
unsent_request_answered net now nd rn resp addr sender receiver src found waits unsent no_ip zero
      accepted s r p =
    (ground arith, refl, no_ip)
