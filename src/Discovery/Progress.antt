-- ===== src/Discovery/Progress.antt =====
-- Discovery ends: by the timeout at the latest, and for good once the private IP is chosen
-- (pkg/natdiscovery/natdiscovery.go and remote_endpoint.go).
use mathlib.Core.List.{append_assoc, append-nil}
use submariner.Base.{
  ℕ, ◌+◌, ◌<◌, String, ◌≡◌, refl, sym, ap, subst, ◌∙◌, inl, inr, true, false, Option, some, List,
  [], ◌∷◌, ◌++◌, Dict, lookup, lookup-insert, arith, str_eq, str_eq_iff, Bool-cases, if_both,
}
use submariner.Endpoint.{NetLib}
use submariner.Discovery.Remote.{
  EndpointState, testing_private_and_public_ips, waiting_for_response, selected_public_ip,
  selected_private_ip, RemoteEndpointNat, NatEndpointInfo, to_nat_endpoint_info, should_check,
  has_timed_out, is_discovery_complete, use_legacy_nat_settings,
}
use submariner.Discovery.Messages.{NatResponse, UdpAddr}
use submariner.Discovery.Sending.{Surroundings, Outbox}
use submariner.Discovery.Service.{
  NatDiscovery, ResponseError, check_endpoint, check_endpoints, check_endpoint_list,
  handle_response_from_address,
}
use submariner.Discovery.Moves.{Answered, public_answer, private_answer, handle_response_Effect}
use submariner.Discovery.Polling.{send_check_request-Polls}
use submariner.Discovery.Invariant.{use_legacy-IsFinished}

-- What was published stays, and more may follow.
abbrev Extends : List NatEndpointInfo → List NatEndpointInfo → Type 0
Extends old new = (more : List NatEndpointInfo) × (new ≡ old ++ more)

Extends-trans : (a b c : List NatEndpointInfo) → Extends a b → Extends b c → Extends a c
Extends-trans a b c (xs, p) (ys, q) = (xs ++ ys, q ∙ ap (λ l. l ++ ys) p ∙ append_assoc a xs ys)

module _ (net : NetLib) (nd : NatDiscovery) (env : Surroundings) (now : ℕ) where
  abbrev Grown : Outbox → RemoteEndpointNat × Outbox → Type 0
  Grown box (rn, box') = Extends box.ready box'.ready

  check_endpoint-Extends :
      (rn : RemoteEndpointNat) (box : Outbox)
      → Extends box.ready (check_endpoint net nd env now rn box).1.ready
  unfolding check_endpoint
  check_endpoint-Extends rn box =
      if_both (Grown box) (should_check nd.times now rn) _ _
        (λ _.
          if_both (Grown box) (has_timed_out now rn) _ _ (λ _. (_ ∷ [], refl))
            (λ _.
              let (_, same) = send_check_request-Polls net nd.local nd.server_port env now rn box in
              ([], same ∙ sym (append-nil box.ready))))
        (λ _. ([], sym (append-nil box.ready)))

  check_endpoints-Extends :
      (m : Dict RemoteEndpointNat) (box : Outbox)
      → Extends box.ready (check_endpoints net nd env now m box).1.ready
  unfolding check_endpoints
  check_endpoints-Extends [] box = ([], sym (append-nil box.ready))
  check_endpoints-Extends ((name, rn) ∷ rest) box =
      Extends-trans _ _ _ (check_endpoint-Extends rn box)
        (check_endpoints-Extends rest (check_endpoint net nd env now rn box).1)

  -- An endpoint that is past its timeout is settled by the legacy settings, and published.
  abbrev TimedOut : String → RemoteEndpointNat → Dict RemoteEndpointNat × Outbox → Type 0
  TimedOut k rn (m, box) =
      (lookup k m ≡ some (use_legacy_nat_settings net now rn))
      × ((before : List NatEndpointInfo) × (after : List NatEndpointInfo) × (box.ready
            ≡ before ++ to_nat_endpoint_info (use_legacy_nat_settings net now rn) ∷ after))

  check_endpoint_late :
      (rn : RemoteEndpointNat) (box : Outbox)
      → should_check nd.times now rn ≡ true
      → has_timed_out now rn ≡ true
      → check_endpoint net nd env now rn box ≡ (
        use_legacy_nat_settings net now rn,
        record box {
          ready = box.ready ++ to_nat_endpoint_info (use_legacy_nat_settings net now rn) ∷ [];
        },
      )
  unfolding check_endpoint
  check_endpoint_late rn box due late = rw (due, late)

  head-TimedOut :
      (k : String) (rn : RemoteEndpointNat) (rest : Dict RemoteEndpointNat) (box : Outbox)
      (name : String)
      → should_check nd.times now rn ≡ true
      → has_timed_out now rn ≡ true
      → str_eq name k ≡ true
      → TimedOut k rn (check_endpoints net nd env now ((name, rn) ∷ rest) box)
  unfolding check_endpoints lookup
  head-TimedOut k rn rest box name due late hit =
      let done = check_endpoint_late rn box due late in
      let (more, grown) = check_endpoints-Extends rest (check_endpoint net nd env now rn box).1 in
      (
        rw hit (ap (λ (r : RemoteEndpointNat × Outbox). some r.0) done),
        (
          box.ready,
          more,
          grown
              ∙ ap (λ (r : RemoteEndpointNat × Outbox). r.1.ready ++ more) done
              ∙ append_assoc box.ready _ more,
        ),
      )

  check_endpoints-TimedOut :
      (k : String) (rn : RemoteEndpointNat) (m : Dict RemoteEndpointNat) (box : Outbox)
      → should_check nd.times now rn ≡ true
      → has_timed_out now rn ≡ true
      → lookup k m ≡ some rn
      → TimedOut k rn (check_endpoints net nd env now m box)
  unfolding check_endpoints lookup
  check_endpoints-TimedOut k rn [] box due late e = cc
  check_endpoints-TimedOut k rn ((name, v) ∷ rest) box due late e =
      elim (Bool-cases (str_eq name k)) [
        | inl hit ↦
            let same : rn ≡ v = ground arith in
            subst (λ w. TimedOut k rn (check_endpoints net nd env now ((name, w) ∷ rest) box)) same
              (head-TimedOut k rn rest box name due late hit)
        | inr miss ↦
            let (found, publication) =
              check_endpoints-TimedOut k rn rest (check_endpoint net nd env now v box).1 due late
                (ground arith) in
            (rw miss found, publication)
      ]

  late_should_check :
      (rn : RemoteEndpointNat) (s : EndpointState)
      → rn.state ≡ s
      → is_discovery_complete rn ≡ false
      → rn.last_check + nd.times.recheck_time < now
      → should_check nd.times now rn ≡ true
  unfolding should_check
  late_should_check rn testing_private_and_public_ips e c h = ground arith
  late_should_check rn waiting_for_response e c h = ground arith
  late_should_check rn selected_public_ip e c h = absurd (ground arith)
  late_should_check rn selected_private_ip e c h = absurd (ground arith)

  late_has_timed_out :
      (rn : RemoteEndpointNat) → rn.started + rn.timeout < now → has_timed_out now rn ≡ true
  unfolding has_timed_out
  late_has_timed_out rn h = ground arith

  -- No discovery outlives its timeout: if an entry is not complete, its timeout has run out and the
  -- recheck time has passed since its last check, then after `checkEndpointList` the entry is the
  -- one that the legacy settings make of it, its discovery is complete, and it has been published.
  pub check_endpoint_list_timeout :
      (k : String) (rn : RemoteEndpointNat)
      → lookup k nd.remote_endpoints ≡ some rn
      → is_discovery_complete rn ≡ false
      → rn.started + rn.timeout < now
      → rn.last_check + nd.times.recheck_time < now
      → let nd' = check_endpoint_list net env now nd in
        let done = use_legacy_nat_settings net now rn in
        (lookup k nd'.remote_endpoints ≡ some done)
        × (is_discovery_complete done ≡ true)
        × ((before : List NatEndpointInfo) × (after : List NatEndpointInfo) × (nd'.outbox.ready
              ≡ before ++ to_nat_endpoint_info done ∷ after))
  unfolding check_endpoint_list
  check_endpoint_list_timeout k rn found pending late due =
      let (entry, publication) =
        check_endpoints-TimedOut k rn nd.remote_endpoints nd.outbox
          (late_should_check rn rn.state refl pending due) (late_has_timed_out rn late) found in
      (entry, (use_legacy-IsFinished net now rn).1, publication)

  -- An entry that is not due keeps its value.
  check_endpoints_not_due :
      (k : String) (rn : RemoteEndpointNat) (m : Dict RemoteEndpointNat) (box : Outbox)
      → should_check nd.times now rn ≡ false
      → lookup k m ≡ some rn
      → lookup k (check_endpoints net nd env now m box).0 ≡ some rn
  unfolding check_endpoints check_endpoint lookup
  check_endpoints_not_due k rn [] box idle e = cc
  check_endpoints_not_due k rn ((name, v) ∷ rest) box idle e =
      ground (arith, check_endpoints_not_due k rn rest (check_endpoint net nd env now v box).1 idle)

  private_not_due :
      (rn : RemoteEndpointNat)
      → rn.state ≡ selected_private_ip
      → should_check nd.times now rn ≡ false
  unfolding should_check
  private_not_due rn e = ground arith

  private_refuses :
      (resp : NatResponse) (addr : UdpAddr) (rn rn' : RemoteEndpointNat)
      → rn.state ≡ selected_private_ip
      → Answered net now nd.times resp addr rn rn'
      → ⊥
  private_refuses resp addr rn rn' e (public_answer _ w) = cc
  private_refuses resp addr rn rn' e (private_answer _ _ _ (inl w)) = cc
  private_refuses resp addr rn rn' e (private_answer _ _ _ (inr w)) = cc (w.0)

  -- A private IP, once chosen, is kept: neither a check nor any response changes the entry.
  pub private_is_final :
      (k : String) (rn : RemoteEndpointNat) (resp : NatResponse) (addr : UdpAddr)
      → lookup k nd.remote_endpoints ≡ some rn
      → rn.state ≡ selected_private_ip
      → (lookup k (check_endpoint_list net env now nd).remote_endpoints ≡ some rn)
        × (lookup k (handle_response_from_address net now resp addr nd).0.remote_endpoints
            ≡ some rn)
  unfolding check_endpoint_list
  private_is_final k rn resp addr found e = (
    check_endpoints_not_due k rn nd.remote_endpoints nd.outbox (private_not_due rn e) found,
    elim (handle_response_Effect net now resp addr nd) [
      | inl same ↦ ap (λ (r : NatDiscovery). lookup k r.remote_endpoints) same ∙ found
      | inr (sender, old, new, _, _, at, step, result) ↦
          elim (Bool-cases (str_eq sender.endpoint_id k)) [
            | inl hit ↦
                let same : rn ≡ old = cc (found, at, (str_eq_iff sender.endpoint_id k).0 hit) in
                absurd (
                  private_refuses resp addr old new
                    (subst (λ (r : RemoteEndpointNat). r.state ≡ selected_private_ip) same e) step)
            | inr miss ↦
                ap (λ (r : NatDiscovery × Option ResponseError). lookup k r.0.remote_endpoints)
                  result
                ∙ lookup-insert sender.endpoint_id k new nd.remote_endpoints
                ∙ rw miss found
          ]
    ],
  )
