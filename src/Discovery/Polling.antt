-- ===== src/Discovery/Polling.antt =====
-- What sending check requests changes (pkg/natdiscovery/request_send.go).
use submariner.Base.{
  ℕ, String, ◌≡◌, refl, ◌∙◌, List, arith, length, str_eq, ◌==◌, if_both, option_both,
}
use submariner.Endpoint.{NetLib, EndpointSpec, get_private_ip, get_public_ip}
use submariner.Discovery.Remote.{
  EndpointState, selected_public_ip, selected_private_ip, RemoteEndpointNat, state_after_check,
  state_is_complete, is_discovery_complete, check_sent,
}
use submariner.Discovery.Messages.{NatRequest, UdpAddr}
use submariner.Discovery.Sending.{
  Surroundings, Outbox, Target, to_private, to_public, extract_nat_discovery_port, set_request_id,
  write_request, send_check_request_to_target_ip, send_if_set, send_check_request,
}

-- What a check may change of an endpoint: the two ids, the time of the check, and from testing to
-- waiting.
pub record IsPolled (rn polled : RemoteEndpointNat) : Type 0 where
  pub endpoint : polled.endpoint ≡ rn.endpoint
  pub family : polled.family ≡ rn.family
  pub use_ip : polled.use_ip ≡ rn.use_ip
  pub complete : is_discovery_complete polled ≡ is_discovery_complete rn
  pub public : polled.state ≡ selected_public_ip → rn.state ≡ selected_public_ip
  pub private : polled.state ≡ selected_private_ip → rn.state ≡ selected_private_ip

IsPolled-refl : (rn : RemoteEndpointNat) → IsPolled rn rn
IsPolled-refl rn = record {
  endpoint = refl;
  family = refl;
  use_ip = refl;
  complete = refl;
  public = λ e. e;
  private = λ e. e;
}

IsPolled-trans : {a b c : RemoteEndpointNat} → IsPolled a b → IsPolled b c → IsPolled a c
IsPolled-trans p q = record {
  endpoint = q.endpoint ∙ p.endpoint;
  family = q.family ∙ p.family;
  use_ip = q.use_ip ∙ p.use_ip;
  complete = q.complete ∙ p.complete;
  public = λ e. p.public (q.public e);
  private = λ e. p.private (q.private e);
}

set_request_id-IsPolled :
    (t : Target) (n : ℕ) (rn : RemoteEndpointNat) → IsPolled rn (set_request_id t n rn)
set_request_id-IsPolled to_private n rn = record {
  endpoint = refl;
  family = refl;
  use_ip = refl;
  complete = refl;
  public = λ e. e;
  private = λ e. e;
}
set_request_id-IsPolled to_public n rn = record {
  endpoint = refl;
  family = refl;
  use_ip = refl;
  complete = refl;
  public = λ e. e;
  private = λ e. e;
}

check_sent-IsPolled : (now : ℕ) (rn : RemoteEndpointNat) → IsPolled rn (check_sent now rn)
unfolding check_sent
check_sent-IsPolled now rn = record {
  endpoint = refl;
  family = refl;
  use_ip = refl;
  complete = complete rn.state;
  public = public rn.state;
  private = private rn.state;
}
  where
    complete : (s : EndpointState) → state_is_complete (state_after_check s) ≡ state_is_complete s
    complete s = ground arith

    public : (s : EndpointState) → state_after_check s ≡ selected_public_ip → s ≡ selected_public_ip
    public s e = ground arith

    private :
        (s : EndpointState) → state_after_check s ≡ selected_private_ip → s ≡ selected_private_ip
    private s e = ground arith

module _ (net : NetLib) (local : EndpointSpec) (server_port : ℕ) (env : Surroundings)
    (now : ℕ) where
  -- The result of a send: the endpoint is polled, and nothing is published.
  abbrev Polls {ℓ} :
      {E : Type ℓ} → RemoteEndpointNat → Outbox → RemoteEndpointNat × Outbox × E → Type 0
  Polls rn box (rn', box', _) = IsPolled rn rn' × (box'.ready ≡ box.ready)

  write_request-Polls :
      (target : Target) (request : NatRequest) (addr : UdpAddr) (buf : List ℕ)
      (rn : RemoteEndpointNat) (box : Outbox)
      → Polls rn box (write_request net local server_port env now target request addr buf rn box)
  unfolding write_request
  write_request-Polls target request addr buf rn box =
      option_both (Polls rn box) (env.udp_write rn.family buf addr) _ _
        (λ _. (set_request_id-IsPolled target 0 rn, refl))
        (λ written _.
          if_both (Polls rn box) (written == length buf) _ _
            (λ _. (
              IsPolled-trans (set_request_id-IsPolled target request.request_number rn)
                  (check_sent-IsPolled now (set_request_id target request.request_number rn)),
              refl,
            ))
            (λ _. (set_request_id-IsPolled target 0 rn, refl)))

  send_to-Polls :
      (target : Target) (target_ip : String) (rn : RemoteEndpointNat) (box : Outbox)
      → Polls rn box
          (send_check_request_to_target_ip net local server_port env now target target_ip rn box)
  unfolding send_check_request_to_target_ip
  send_to-Polls target target_ip rn box =
      option_both (Polls rn box) (extract_nat_discovery_port rn.endpoint.spec).1 _ _
        (λ _.
          option_both (Polls rn box) (env.find_source_ip target_ip rn.family) _ _
            (λ _. (IsPolled-refl rn, refl))
            (λ source_ip _.
              option_both (Polls rn box) (env.marshal_request _) _ _ (λ _. (IsPolled-refl rn, refl))
                (λ buf _. write_request-Polls target _ _ buf rn _)))
        (λ e _. (IsPolled-refl rn, refl))

  pub send_if_set-Polls :
      (target : Target) (target_ip : String) (rn : RemoteEndpointNat) (box : Outbox)
      → Polls rn box (send_if_set net local server_port env now target target_ip rn box)
  unfolding send_if_set
  send_if_set-Polls target target_ip rn box =
      if_both (Polls rn box) (str_eq target_ip "") _ _ (λ _. (IsPolled-refl rn, refl))
        (λ _. send_to-Polls target target_ip rn box)

  pub send_check_request-Polls :
      (rn : RemoteEndpointNat) (box : Outbox)
      → Polls rn box (send_check_request net local server_port env now rn box)
  unfolding send_check_request
  send_check_request-Polls rn box =
      let private = get_private_ip net rn.endpoint.spec rn.family in
      let (rn', box', e) = send_if_set net local server_port env now to_private private rn box in
      let (polled, ready) = send_if_set-Polls to_private private rn box in
      let (polled', ready') =
        send_if_set-Polls to_public (get_public_ip net rn'.endpoint.spec rn'.family) rn' box' in
      (IsPolled-trans polled polled', ready' ∙ ready)
