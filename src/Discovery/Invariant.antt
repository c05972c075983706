-- ===== src/Discovery/Invariant.antt =====
-- The invariant of the table of remote endpoints (pkg/natdiscovery/natdiscovery.go), which every
-- operation keeps, and so every history of operations.
use submariner.Base.{
  ℕ, String, ◌≡◌, refl, sym, ◌∙◌, ◌⊎◌, inl, inr, Bool, true, false, none, some, [], ◌∷◌, Dict,
  lookup, All, All-snoc, All-erase, NodupKeys, erase-NodupKeys, arith, str_eq, str_eq_iff,
  Bool-cases, if_both,
}
use submariner.Endpoint.{NetLib, Endpoint, IpFamily, get_public_ip, get_private_ip}
use submariner.Discovery.Remote.{
  EndpointState, testing_private_and_public_ips, waiting_for_response, selected_public_ip,
  selected_private_ip, Timeouts, RemoteEndpointNat, NatEndpointInfo, to_nat_endpoint_info,
  new_remote_endpoint_nat, use_legacy_nat_settings, is_discovery_complete, choose_public,
  choose_private, should_check, has_timed_out,
}
use submariner.Discovery.Sending.{Surroundings, Outbox}
use submariner.Discovery.Service.{
  NatDiscovery, key_of, remove_endpoint, check_endpoint, check_endpoints, check_endpoint_list,
}
use submariner.Discovery.Polling.{IsPolled, send_check_request-Polls}

module _ (net : NetLib) where
  -- A chosen IP is the one that the endpoint declares for the family, and none is chosen before.
  pub record IsSettled (rn : RemoteEndpointNat) : Type 0 where
    pub public :
        rn.state ≡ selected_public_ip → rn.use_ip ≡ get_public_ip net rn.endpoint.spec rn.family
    pub private :
        rn.state ≡ selected_private_ip → rn.use_ip ≡ get_private_ip net rn.endpoint.spec rn.family
    pub pending : is_discovery_complete rn ≡ false → rn.use_ip ≡ ""

  -- What is published names one of the two IPs of its endpoint.
  abbrev pub IsUsable : NatEndpointInfo → Type 0
  IsUsable info =
      (info.use_ip ≡ get_public_ip net info.endpoint.spec info.use_family)
      ⊎ (info.use_ip ≡ get_private_ip net info.endpoint.spec info.use_family)

  -- An entry stands under the cable name of its endpoint and family.
  abbrev pub IsEntry : String × RemoteEndpointNat → Type 0
  IsEntry (name, rn) = (name ≡ key_of rn) × IsSettled rn

  pub record IsSound (nd : NatDiscovery) : Type 0 where
    pub entries : All IsEntry nd.remote_endpoints
    pub unique : NodupKeys nd.remote_endpoints
    pub published : All IsUsable nd.outbox.ready

  pub complete-IsUsable :
      (rn : RemoteEndpointNat) (s : EndpointState)
      → rn.state ≡ s
      → is_discovery_complete rn ≡ true
      → IsSettled rn
      → IsUsable (to_nat_endpoint_info rn)
  complete-IsUsable rn selected_public_ip e c h = inl (h.public e)
  complete-IsUsable rn selected_private_ip e c h = inr (h.private e)
  complete-IsUsable rn testing_private_and_public_ips e c h = absurd (ground arith)
  complete-IsUsable rn waiting_for_response e c h = absurd (ground arith)

  pub choose_public-IsSettled :
      (now : ℕ) (nat : Bool) (rn : RemoteEndpointNat) → IsSettled (choose_public net now nat rn)
  choose_public-IsSettled now nat rn = record {
    public = λ e. refl;
    private = λ e. cc;
    pending = λ e. cc;
  }

  pub choose_private-IsSettled :
      (now : ℕ) (nat : Bool) (rn : RemoteEndpointNat) → IsSettled (choose_private net now nat rn)
  choose_private-IsSettled now nat rn = record {
    public = λ e. cc;
    private = λ e. refl;
    pending = λ e. cc;
  }

  -- What the legacy settings make of `rn`: complete, at one of the two IPs, under the same name.
  abbrev pub IsFinished : RemoteEndpointNat → RemoteEndpointNat → Type 0
  IsFinished rn done =
      IsSettled done × (is_discovery_complete done ≡ true) × (key_of done ≡ key_of rn)

  pub use_legacy-IsFinished :
      (now : ℕ) (rn : RemoteEndpointNat) → IsFinished rn (use_legacy_nat_settings net now rn)
  unfolding use_legacy_nat_settings
  use_legacy-IsFinished now rn =
      if_both (IsFinished rn) rn.using_load_balancer _ _
        (λ _. (choose_public-IsSettled now true rn, refl, refl))
        (λ _.
          if_both (IsFinished rn) rn.endpoint.spec.nat_enabled _ _
            (λ _. (choose_public-IsSettled now true rn, refl, refl))
            (λ _. (choose_private-IsSettled now false rn, refl, refl)))

  pub use_legacy-IsUsable :
      (now : ℕ) (rn : RemoteEndpointNat)
      → IsUsable (to_nat_endpoint_info (use_legacy_nat_settings net now rn))
  use_legacy-IsUsable now rn =
      let (settled, complete, _) = use_legacy-IsFinished now rn in
      complete-IsUsable (use_legacy_nat_settings net now rn) _ refl complete settled

  pub new-IsSettled :
      (times : Timeouts) (now : ℕ) (endpoint : Endpoint) (family : IpFamily)
      → IsSettled (new_remote_endpoint_nat times now endpoint family)
  unfolding new_remote_endpoint_nat
  new-IsSettled times now endpoint family = record {
    public = λ e. cc;
    private = λ e. cc;
    pending = λ e. refl;
  }

  IsPolled-IsEntry :
      (name : String) {rn polled : RemoteEndpointNat}
      → IsPolled rn polled
      → IsEntry (name, rn)
      → IsEntry (name, polled)
  IsPolled-IsEntry name {rn} {polled} p (k, h) = (
    rw (p.endpoint, p.family) k,
    record {
      public = λ e. rw (p.use_ip, p.endpoint, p.family) (h.public (p.public e));
      private = λ e. rw (p.use_ip, p.endpoint, p.family) (h.private (p.private e));
      pending = λ e. p.use_ip ∙ h.pending (sym p.complete ∙ e);
    },
  )

  -- An entry and an outbox after a step on that entry.
  abbrev Kept : String → RemoteEndpointNat × Outbox → Type 0
  Kept name (rn, box) = IsEntry (name, rn) × All IsUsable box.ready

  check_endpoint-Kept :
      (nd : NatDiscovery) (env : Surroundings) (now : ℕ) (name : String) (rn : RemoteEndpointNat)
      (box : Outbox)
      → IsEntry (name, rn)
      → All IsUsable box.ready
      → Kept name (check_endpoint net nd env now rn box)
  unfolding check_endpoint
  check_endpoint-Kept nd env now name rn box h u =
      if_both (Kept name) (should_check nd.times now rn) _ _
        (λ _.
          if_both (Kept name) (has_timed_out now rn) _ _
            (λ _.
              let (settled, _, key) = use_legacy-IsFinished now rn in
              (
                (h.0 ∙ sym key, settled),
                All-snoc IsUsable box.ready _ u (use_legacy-IsUsable now rn),
              ))
            (λ _.
              let (polled, ready) =
                send_check_request-Polls net nd.local nd.server_port env now rn box in
              (IsPolled-IsEntry name polled h, rw ready u)))
        (λ _. (h, u))

  abbrev KeptAll : Dict RemoteEndpointNat × Outbox → Type 0
  KeptAll (m, box) = All IsEntry m × All IsUsable box.ready

  check_endpoints-KeptAll :
      (nd : NatDiscovery) (env : Surroundings) (now : ℕ) (m : Dict RemoteEndpointNat) (box : Outbox)
      → All IsEntry m
      → All IsUsable box.ready
      → KeptAll (check_endpoints net nd env now m box)
  unfolding check_endpoints
  check_endpoints-KeptAll nd env now [] box h u = (tt, u)
  check_endpoints-KeptAll nd env now ((name, rn) ∷ rest) box h u =
      let (entry, usable) = check_endpoint-Kept nd env now name rn box h.0 u in
      let (entries, usable') =
        check_endpoints-KeptAll nd env now rest (check_endpoint net nd env now rn box).1 h.1
          usable in
      ((entry, entries), usable')

  -- A check keeps the keys, and so which of them are missing.
  lookup-check_endpoints-none :
      (nd : NatDiscovery) (env : Surroundings) (now : ℕ) (k : String) (m : Dict RemoteEndpointNat)
      (box : Outbox)
      → lookup k m ≡ none
      → lookup k (check_endpoints net nd env now m box).0 ≡ none
  unfolding lookup check_endpoints
  lookup-check_endpoints-none nd env now k [] box e = refl
  lookup-check_endpoints-none nd env now k ((name, rn) ∷ rest) box e = ground (
    arith,
    lookup-check_endpoints-none nd env now k rest (check_endpoint net nd env now rn box).1,
  )

  check_endpoints-NodupKeys :
      (nd : NatDiscovery) (env : Surroundings) (now : ℕ) (m : Dict RemoteEndpointNat) (box : Outbox)
      → NodupKeys m
      → NodupKeys (check_endpoints net nd env now m box).0
  unfolding check_endpoints
  check_endpoints-NodupKeys nd env now [] box u = tt
  check_endpoints-NodupKeys nd env now ((name, rn) ∷ rest) box u =
      let box' = (check_endpoint net nd env now rn box).1 in
      (
        lookup-check_endpoints-none nd env now name rest box' u.0,
        check_endpoints-NodupKeys nd env now rest box' u.1,
      )

  pub check_endpoint_list-IsSound :
      (env : Surroundings) (now : ℕ) (nd : NatDiscovery)
      → IsSound nd
      → IsSound (check_endpoint_list net env now nd)
  unfolding check_endpoint_list
  check_endpoint_list-IsSound env now nd h =
      let (entries, usable) =
        check_endpoints-KeptAll nd env now nd.remote_endpoints nd.outbox h.entries h.published in
      record {
        entries = entries;
        unique = check_endpoints-NodupKeys nd env now nd.remote_endpoints nd.outbox h.unique;
        published = usable;
      }

  pub remove_endpoint-IsSound :
      (name : String) (nd : NatDiscovery) → IsSound nd → IsSound (remove_endpoint name nd)
  unfolding remove_endpoint
  remove_endpoint-IsSound name nd h = record {
    entries = All-erase IsEntry name nd.remote_endpoints h.entries;
    unique = erase-NodupKeys name nd.remote_endpoints h.unique;
    published = h.published;
  }

  -- The entry that is found under a name.
  pub lookup-All :
      (k : String) (m : Dict RemoteEndpointNat) (rn : RemoteEndpointNat)
      → All IsEntry m
      → lookup k m ≡ some rn
      → IsEntry (k, rn)
  unfolding lookup
  lookup-All k [] rn h e = cc
  lookup-All k ((j, v) ∷ m) rn h e = elim (Bool-cases (str_eq j k)) [
    | inl same ↦ ground (arith, str_eq_iff j k)
    | inr other ↦ lookup-All k m rn h.1 (ground arith)
  ]
