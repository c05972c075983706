-- ===== src/Discovery/Requests.antt =====
-- The requests of one check, and their ids (pkg/natdiscovery/request_send.go).
use mathlib.Core.List.{append_assoc}
use submariner.Base.{
  ℕ, String, ◌≡◌, refl, ◌≢◌, sym, ap, ap₂, ◌∙◌, Option, none, some, List, [], ◌∷◌, ◌++◌, length,
  arith, ◌==◌, str_eq, str_eq_iff, if_both, option_both,
}
use submariner.Discovery.Polling.{send_if_set-Polls}
use submariner.Endpoint.{NetLib, Endpoint, EndpointSpec, get_private_ip, get_public_ip}
use submariner.Discovery.Remote.{EndpointState, RemoteEndpointNat, state_after_check, check_sent}
use submariner.Discovery.Messages.{NatRequest, UdpAddr}
use submariner.Discovery.Sending.{
  Surroundings, Outbox, SendError, Target, to_private, to_public, extract_nat_discovery_port,
  next_request, set_request_id, build_request, send_check_request_to_target_ip, send_if_set,
  send_check_request, check_error,
}

module _ (net : NetLib) (local : EndpointSpec) (server_port : ℕ) (env : Surroundings)
    (now : ℕ) where
  -- What a send has done that ended without an error.
  abbrev pub IsSent :
      Target → String → RemoteEndpointNat → Outbox → RemoteEndpointNat → Outbox → Type 0
  IsSent target target_ip rn box rn' box' =
      (rn' ≡ check_sent now (set_request_id target (next_request box.request_counter) rn))
      × (box'.request_counter ≡ next_request box.request_counter)
      × ((source_ip : String) × (port : ℕ) × (box'.sent
            ≡ box.sent
              ++ (
                build_request local server_port rn (next_request box.request_counter) source_ip
                    target_ip port,
                record { ip = target_ip; port = port },
              )
                ∷ []))

  abbrev IfOk :
      Target
      → String
      → RemoteEndpointNat
      → Outbox
      → RemoteEndpointNat × Outbox × Option SendError
      → Type 0
  IfOk target target_ip rn box (rn', box', error) =
      error ≡ none → IsSent target target_ip rn box rn' box'

  send_to-IfOk :
      (target : Target) (target_ip : String) (rn : RemoteEndpointNat) (box : Outbox)
      → IfOk target target_ip rn box
          (send_check_request_to_target_ip net local server_port env now target target_ip rn box)
  unfolding send_check_request_to_target_ip
  send_to-IfOk target target_ip rn box =
      option_both (IfOk target target_ip rn box) (extract_nat_discovery_port rn.endpoint.spec).1 _ _
        (λ _.
          option_both (IfOk target target_ip rn box) (env.find_source_ip target_ip rn.family) _ _
            (λ _ e. cc)
            (λ source_ip _.
              option_both (IfOk target target_ip rn box) (env.marshal_request _) _ _ (λ _ e. cc)
                (λ buf _.
                  option_both (IfOk target target_ip rn box) (env.udp_write rn.family buf _) _ _
                    (λ _ e. cc)
                    (λ written _.
                      if_both (IfOk target target_ip rn box) (written == length buf) _ _
                        (λ _ e. (refl, refl, (source_ip, _, refl))) (λ _ e. cc)))))
        (λ failed _ e. cc)

  send_if_set-IfOk :
      (target : Target) (target_ip : String) (rn : RemoteEndpointNat) (box : Outbox)
      → target_ip ≢ ""
      → IfOk target target_ip rn box
          (send_if_set net local server_port env now target target_ip rn box)
  unfolding send_if_set
  send_if_set-IfOk target target_ip rn box set =
      if_both (IfOk target target_ip rn box) (str_eq target_ip "") _ _
        (λ e _. absurd (set ((str_eq_iff _ _).0 e))) (λ _. send_to-IfOk target target_ip rn box)

-- Two requests were sent after those of `before`, with the numbers that the endpoint waits for.
abbrev pub Requested :
    NetLib
    → RemoteEndpointNat
    → List (NatRequest × UdpAddr)
    → RemoteEndpointNat
    → List (NatRequest × UdpAddr)
    → Type 0
Requested net rn before rn' after =
    (first : NatRequest) × (first_addr : UdpAddr) × (second : NatRequest) × (second_addr : UdpAddr)
    × (after ≡ before ++ (first, first_addr) ∷ (second, second_addr) ∷ [])
    × (first.request_number ≡ rn'.last_private_ip_request_id)
    × (second.request_number ≡ rn'.last_public_ip_request_id)
    × (first_addr.ip ≡ get_private_ip net rn.endpoint.spec rn.family)
    × (second_addr.ip ≡ get_public_ip net rn.endpoint.spec rn.family)

check_error-none : (p q : Option SendError) → check_error p q ≡ none → (p ≡ none) × (q ≡ none)
check_error-none none none e = (refl, refl)
check_error-none none (some q) e = cc
check_error-none (some p) none e = cc
check_error-none (some p) (some q) e = cc

next_request_ne : (c : ℕ) → next_request c ≢ next_request (next_request c)
next_request_ne c = omega arith

state_after_check_idem :
    (s : EndpointState) → state_after_check (state_after_check s) ≡ state_after_check s
state_after_check_idem s = ground arith

module _ (net : NetLib) (local : EndpointSpec) (server_port : ℕ) (env : Surroundings)
    (now : ℕ) where
  -- A check without an error, of an endpoint with both IPs, has sent exactly two more requests: the
  -- first to the private IP, the second to the public one. Their numbers are the next two of the
  -- counter, also where it wraps around at 2^64; they differ, and are the ids that the endpoint now
  -- waits for, so that a response tells which request it answers; and an endpoint that was being
  -- tested waits.
  pub send_check_request_ids :
      (rn : RemoteEndpointNat) (box : Outbox)
      → get_private_ip net rn.endpoint.spec rn.family ≢ ""
      → get_public_ip net rn.endpoint.spec rn.family ≢ ""
      → (send_check_request net local server_port env now rn box).2 ≡ none
      → let (rn', box', _) = send_check_request net local server_port env now rn box in
        (rn'.last_private_ip_request_id ≡ next_request box.request_counter)
        × (rn'.last_public_ip_request_id ≡ next_request (next_request box.request_counter))
        × (rn'.last_private_ip_request_id ≢ rn'.last_public_ip_request_id)
        × (box'.request_counter ≡ next_request (next_request box.request_counter))
        × (rn'.state ≡ state_after_check rn.state)
        × Requested net rn box.sent rn' box'.sent
  unfolding send_check_request check_sent
  send_check_request_ids rn box private public sent =
      let ip = get_private_ip net rn.endpoint.spec rn.family in
      let (rn1, box1, e1) = send_if_set net local server_port env now to_private ip rn box in
      let ip' = get_public_ip net rn1.endpoint.spec rn1.family in
      let (rn2, box2, e2) = send_if_set net local server_port env now to_public ip' rn1 box1 in
      let (ok1, ok2) = check_error-none e1 e2 sent in
      let (r1, c1, (src1, port1, s1)) =
        send_if_set-IfOk net local server_port env now to_private ip rn box private ok1 in
      let (polled, _) = send_if_set-Polls net local server_port env now to_private ip rn box in
      let same_public : ip' ≡ get_public_ip net rn.endpoint.spec rn.family =
        ap₂ (get_public_ip net) (ap (λ (x : Endpoint). x.spec) polled.endpoint) polled.family in
      let set : ip' ≢ "" = λ e. public (sym same_public ∙ e) in
      let (r2, c2, (src2, port2, s2)) =
        send_if_set-IfOk net local server_port env now to_public ip' rn1 box1 set ok2 in
      let private_id : rn2.last_private_ip_request_id ≡ next_request box.request_counter =
        ap (λ (r : RemoteEndpointNat). r.last_private_ip_request_id) r2
        ∙ ap (λ (r : RemoteEndpointNat). r.last_private_ip_request_id) r1 in
      let public_number : rn2.last_public_ip_request_id ≡ next_request box1.request_counter =
        ap (λ (r : RemoteEndpointNat). r.last_public_ip_request_id) r2 in
      let public_id : rn2.last_public_ip_request_id
          ≡ next_request (next_request box.request_counter) =
        ap (λ (r : RemoteEndpointNat). r.last_public_ip_request_id) r2 ∙ ap next_request c1 in
      (
        private_id,
        public_id,
        λ e. next_request_ne box.request_counter (sym private_id ∙ e ∙ public_id),
        c2 ∙ ap next_request c1,
        ap (λ (r : RemoteEndpointNat). r.state) r2
            ∙ ap (λ (r : RemoteEndpointNat). state_after_check r.state) r1
            ∙ state_after_check_idem rn.state,
        (
          build_request local server_port rn (next_request box.request_counter) src1 ip port1,
          record { ip = ip; port = port1 },
          build_request local server_port rn1 (next_request box1.request_counter) src2 ip' port2,
          record { ip = ip'; port = port2 },
          s2
              ∙ ap
                  (λ l.
                    l
                    ++ (
                      build_request local server_port rn1 (next_request box1.request_counter) src2
                          ip' port2,
                      record { ip = ip'; port = port2 },
                    )
                      ∷ [])
                  s1
              ∙ append_assoc box.sent _ _,
          sym private_id,
          sym public_number,
          refl,
          same_public,
        ),
      )
