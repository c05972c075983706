-- ===== src/Discovery/Moves.antt =====
-- The moves of one endpoint's state machine (pkg/natdiscovery/remote_endpoint.go), and what a
-- response does to the table (response_handle.go).
use submariner.Base.{
  ℕ, ◌-◌, ◌≤◌, String, ◌≡◌, refl, subst, ◌≢◌, ◌⊎◌, inl, inr, true, Option, none, some, ◌==◌, lookup,
  insert, arith, ltb, Bool-cases,
}
use submariner.Endpoint.{NetLib, get_private_ip}
use submariner.Discovery.Remote.{
  EndpointState, testing_private_and_public_ips, waiting_for_response, selected_public_ip,
  selected_private_ip, Timeouts, RemoteEndpointNat, to_nat_endpoint_info, transition_to_public_ip,
  transition_to_private_ip, choose_public, choose_private,
}
use submariner.Discovery.Messages.{EndpointDetails, IpPortPair, NatResponse, UdpAddr}
use submariner.Discovery.Service.{
  NatDiscovery, ResponseError, unknown_endpoint, publish, is_nat_detected, is_accepted, store_moved,
  match_response, handle_parts, handle_response_from_address,
}

module _ (net : NetLib) (now : ℕ) where
  -- The two ways in which a response may move an endpoint.
  pub data Answered (times : Timeouts) (resp : NatResponse) (addr : UdpAddr)
      (rn : RemoteEndpointNat) : RemoteEndpointNat → Type 0 where
    public_answer :
        rn.last_public_ip_request_id ≡ resp.request_number
        → rn.state ≡ waiting_for_response
        → Answered times resp addr rn (choose_public net now (is_nat_detected resp.response) rn)
    private_answer :
        rn.last_public_ip_request_id ≢ resp.request_number
        → rn.last_private_ip_request_id ≡ resp.request_number
        → net.ip_equal addr.ip (get_private_ip net rn.endpoint.spec rn.family) ≡ true
        → (rn.state ≡ waiting_for_response)
          ⊎ ((rn.state ≡ selected_public_ip)
              × (now - rn.last_transition ≤ times.public_to_private_failover_timeout))
        → Answered times resp addr rn (choose_private net now (is_nat_detected resp.response) rn)

  -- The table after the endpoint under `name` has moved to `rn`, which is then published.
  abbrev pub moved : String → RemoteEndpointNat → NatDiscovery → NatDiscovery
  moved name rn nd = record nd {
    remote_endpoints = insert name rn nd.remote_endpoints;
    outbox = publish (to_nat_endpoint_info rn) nd.outbox;
  }

  -- A result that left the table as it was, or that moved the endpoint that sent the response.
  abbrev pub Effect :
      NatResponse → UdpAddr → NatDiscovery → NatDiscovery × Option ResponseError → Type 0
  Effect resp addr nd result =
      (result.0 ≡ nd)
      ⊎ ((sender : EndpointDetails) × (rn : RemoteEndpointNat) × (rn' : RemoteEndpointNat)
          × (resp.sender ≡ some sender)
          × (is_accepted resp.response ≡ true)
          × (lookup sender.endpoint_id nd.remote_endpoints ≡ some rn)
          × Answered nd.times resp addr rn rn'
          × (result ≡ (moved sender.endpoint_id rn' nd, none)))

  -- What `match_response` does to an endpoint that was found.
  abbrev Matched :
      NatResponse
      → UdpAddr
      → String
      → RemoteEndpointNat
      → NatDiscovery
      → NatDiscovery × Option ResponseError
      → Type 0
  Matched resp addr name rn nd result =
      (result.0 ≡ nd)
      ⊎ ((rn' : RemoteEndpointNat) × Answered nd.times resp addr rn rn'
          × (result ≡ (moved name rn' nd, none)))

  public_Matched :
      (resp : NatResponse) (addr : UdpAddr) (name : String) (rn : RemoteEndpointNat)
      (nd : NatDiscovery) (s : EndpointState)
      → rn.state ≡ s
      → rn.last_public_ip_request_id ≡ resp.request_number
      → Matched resp addr name rn nd
          (store_moved name (transition_to_public_ip net now (is_nat_detected resp.response) rn) nd)
  unfolding store_moved transition_to_public_ip
  public_Matched resp addr name rn nd waiting_for_response e h =
      inr (_, public_answer h e, ground arith)
  public_Matched resp addr name rn nd testing_private_and_public_ips e h = inl (ground arith)
  public_Matched resp addr name rn nd selected_public_ip e h = inl (ground arith)
  public_Matched resp addr name rn nd selected_private_ip e h = inl (ground arith)

  private_Matched :
      (resp : NatResponse) (addr : UdpAddr) (name : String) (rn : RemoteEndpointNat)
      (nd : NatDiscovery) (s : EndpointState)
      → rn.state ≡ s
      → rn.last_public_ip_request_id ≢ resp.request_number
      → rn.last_private_ip_request_id ≡ resp.request_number
      → net.ip_equal addr.ip (get_private_ip net rn.endpoint.spec rn.family) ≡ true
      → Matched resp addr name rn nd (
          store_moved name
            (transition_to_private_ip net nd.times now (is_nat_detected resp.response) rn)
            nd)
  unfolding store_moved transition_to_private_ip
  private_Matched resp addr name rn nd waiting_for_response e h k m =
      inr (_, private_answer h k m (inl e), ground arith)
  private_Matched resp addr name rn nd testing_private_and_public_ips e h k m = inl (ground arith)
  private_Matched resp addr name rn nd selected_private_ip e h k m = inl (ground arith)
  private_Matched resp addr name rn nd selected_public_ip e h k m =
      elim (Bool-cases
        (ltb nd.times.public_to_private_failover_timeout (now - rn.last_transition))) [
          | inl late ↦ inl (ground arith)
          | inr timely ↦ inr (_, private_answer h k m (inr (e, ground arith)), ground arith)
        ]

  match_response-Matched :
      (resp : NatResponse) (addr : UdpAddr) (name : String) (rn : RemoteEndpointNat)
      (nd : NatDiscovery)
      → Matched resp addr name rn nd (match_response net now resp addr name rn nd)
  unfolding match_response
  match_response-Matched resp addr name rn nd =
      elim (Bool-cases (rn.last_public_ip_request_id == resp.request_number)) [
        | inl public ↦
            subst (Matched resp addr name rn nd) (ground arith)
              (public_Matched resp addr name rn nd rn.state refl (ground arith))
        | inr other ↦ elim (Bool-cases (rn.last_private_ip_request_id == resp.request_number)) [
          | inr unknown ↦ inl (ground arith)
          | inl private ↦
              elim (Bool-cases
                (net.ip_equal addr.ip (get_private_ip net rn.endpoint.spec rn.family))) [
                  | inr elsewhere ↦ inl (ground arith)
                  | inl same ↦ subst (Matched resp addr name rn nd) (ground arith) (
                      private_Matched resp addr name rn nd rn.state refl (ground arith)
                        (ground arith) same)
                ]
        ]
      ]

  parts_Effect :
      (resp : NatResponse) (addr : UdpAddr) (sender : EndpointDetails) (nd : NatDiscovery)
      → resp.sender ≡ some sender
      → is_accepted resp.response ≡ true
      → (o : Option RemoteEndpointNat) → lookup sender.endpoint_id nd.remote_endpoints ≡ o
      → Effect resp addr nd (elim o [
        | none ↦ (nd, some unknown_endpoint)
        | some rn ↦ match_response net now resp addr sender.endpoint_id rn nd
      ])
  parts_Effect resp addr sender nd h a none e = inl refl
  parts_Effect resp addr sender nd h a (some rn) e =
      elim (match_response-Matched resp addr sender.endpoint_id rn nd) [
        | inl same ↦ inl same
        | inr (rn', step, result) ↦ inr (sender, rn, rn', h, a, e, step, result)
      ]

  -- A response either leaves the table and what was published as they were, or it is an accepted
  -- one whose sender is in the table, and moves that endpoint alone, in one of two ways, and
  -- publishes it, without an error. An answer to the public request moves an endpoint that waits to
  -- its public IP. One to the private request, if it comes from the private IP, moves it to the
  -- private IP, also from the public one as long as the failover time has not passed.
  pub handle_response_Effect :
      (resp : NatResponse) (addr : UdpAddr) (nd : NatDiscovery)
      → Effect resp addr nd (handle_response_from_address net now resp addr nd)
  unfolding handle_response_from_address
  handle_response_Effect resp addr nd = cases resp.sender resp.receiver resp.received_src refl
    where
      cases :
          (s r : Option EndpointDetails) (p : Option IpPortPair)
          → resp.sender ≡ s
          → Effect resp addr nd (handle_parts net now resp addr s r p nd)
      cases none r p e = inl refl
      cases (some d) none p e = inl refl
      cases (some d) (some r) none e = inl refl
      cases (some d) (some r) (some p) e = elim (Bool-cases (is_accepted resp.response)) [
        | inr no_verdict ↦ inl (ground arith)
        | inl verdict ↦
            subst (Effect resp addr nd) (ground arith) (
              parts_Effect resp addr d nd e verdict (lookup d.endpoint_id nd.remote_endpoints) refl)
      ]
