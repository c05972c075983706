-- ===== src/Discovery/History.antt =====
-- Histories of the NAT discovery service (pkg/natdiscovery/natdiscovery.go): any sequence of its
-- operations keeps the invariant of the table.
use submariner.Base.{
  ℕ, String, ◌≡◌, refl, sym, subst, ◌∙◌, inl, inr, some, Dict, lookup, insert, All, All-snoc,
  All-insert, insert-NodupKeys, str_eq_iff, if_both, option_both, ◌||◌, ◌==◌,
}
use submariner.Endpoint.{
  NetLib, Endpoint, EndpointSpec, IpFamily, get_family_cable_name, spec_deep_equal,
}
use submariner.Discovery.Remote.{
  Timeouts, RemoteEndpointNat, new_remote_endpoint_nat, is_discovery_complete,
}
use submariner.Discovery.Messages.{NatResponse, UdpAddr}
use submariner.Discovery.Sending.{Surroundings, Outbox, extract_nat_discovery_port}
use submariner.Discovery.Service.{
  NatDiscovery, key_of, is_some, begin_discovery, add_endpoint, remove_endpoint,
  check_endpoint_list, handle_response_from_address, new_with_config,
}
use submariner.Discovery.Moves.{
  Answered, public_answer, private_answer, moved, handle_response_Effect,
}
use submariner.Discovery.Invariant.{
  IsUsable, IsEntry, IsSound, IsFinished, complete-IsUsable, choose_public-IsSettled,
  choose_private-IsSettled, use_legacy-IsFinished, use_legacy-IsUsable, new-IsSettled, lookup-All,
  check_endpoint_list-IsSound, remove_endpoint-IsSound,
}

module _ (net : NetLib) where
  -- An entry is stored under its own name.
  insert-IsEntry :
      (name : String) (rn : RemoteEndpointNat) (m : Dict RemoteEndpointNat)
      → IsEntry net (name, rn)
      → All (IsEntry net) m
      → All (IsEntry net) (insert name rn m)
  insert-IsEntry name rn m (key, settled) h =
      All-insert (IsEntry net) name rn m (λ j e. ((str_eq_iff j name).0 e ∙ key, settled)) h

  Answered-IsFinished :
      {now : ℕ} {times : Timeouts} {resp : NatResponse} {addr : UdpAddr}
      {rn rn' : RemoteEndpointNat}
      → Answered net now times resp addr rn rn'
      → IsFinished net rn rn'
  Answered-IsFinished {rn = rn} (public_answer _ _) =
      (choose_public-IsSettled net _ _ rn, refl, refl)
  Answered-IsFinished {rn = rn} (private_answer _ _ _ _) =
      (choose_private-IsSettled net _ _ rn, refl, refl)

  moved-IsSound :
      (now : ℕ) (name : String) (rn rn' : RemoteEndpointNat) (nd : NatDiscovery)
      → lookup name nd.remote_endpoints ≡ some rn
      → IsFinished net rn rn'
      → IsSound net nd
      → IsSound net (moved net now name rn' nd)
  moved-IsSound now name rn rn' nd found (settled, complete, key) h = record {
    entries =
        insert-IsEntry name rn' nd.remote_endpoints
          ((lookup-All net name nd.remote_endpoints rn h.entries found).0 ∙ sym key, settled)
          h.entries;
    unique = insert-NodupKeys name rn' nd.remote_endpoints h.unique;
    published =
        All-snoc (IsUsable net) nd.outbox.ready _ h.published
          (complete-IsUsable net rn' rn'.state refl complete settled);
  }

  handle_response-IsSound :
      (now : ℕ) (resp : NatResponse) (addr : UdpAddr) (nd : NatDiscovery)
      → IsSound net nd
      → IsSound net (handle_response_from_address net now resp addr nd).0
  handle_response-IsSound now resp addr nd h = elim (handle_response_Effect net now resp addr nd) [
    | inl same ↦ subst (IsSound net) (sym same) h
    | inr (sender, rn, rn', _, _, found, step, result) ↦
        subst (λ r. IsSound net r.0) (sym result)
          (moved-IsSound now sender.endpoint_id rn rn' nd found (Answered-IsFinished step) h)
  ]

  -- The first half of `AddEndpoint`.
  abbrev Begun : String → RemoteEndpointNat × Outbox → Type 0
  Begun name (rn, box) = IsEntry net (name, rn) × All (IsUsable net) box.ready

  begin_discovery-Begun :
      (now : ℕ) (nd : NatDiscovery) (endpoint : Endpoint) (family : IpFamily)
      → IsSound net nd
      → Begun (get_family_cable_name endpoint.spec family) (
          begin_discovery net now nd endpoint
            (new_remote_endpoint_nat nd.times now endpoint family))
  unfolding begin_discovery
  begin_discovery-Begun now nd endpoint family h =
      let rn = new_remote_endpoint_nat nd.times now endpoint family in
      let key : key_of rn ≡ get_family_cable_name endpoint.spec family =
        unfold new_remote_endpoint_nat in refl in
      let (settled, _, same) = use_legacy-IsFinished net now rn in
      if_both (Begun (get_family_cable_name endpoint.spec family))
        (is_some (extract_nat_discovery_port endpoint.spec).1 || nd.server_port == 0) _ _
        (λ _. (
          (sym key ∙ sym same, settled),
          All-snoc (IsUsable net) nd.outbox.ready _ h.published (use_legacy-IsUsable net now rn),
        ))
        (λ _. ((sym key, new-IsSettled net nd.times now endpoint family), h.published))

  add_endpoint-IsSound :
      (now : ℕ) (endpoint : Endpoint) (family : IpFamily) (nd : NatDiscovery)
      → IsSound net nd
      → IsSound net (add_endpoint net now endpoint family nd)
  unfolding add_endpoint
  add_endpoint-IsSound now endpoint family nd h =
      let name = get_family_cable_name endpoint.spec family in
      let new = new_remote_endpoint_nat nd.times now endpoint family in
      let (rn, box) = begin_discovery net now nd endpoint new in
      let (entry, usable) = begin_discovery-Begun now nd endpoint family h in
      let stored : IsSound net
          (record nd { remote_endpoints = insert name rn nd.remote_endpoints; outbox = box }) =
        record {
          entries = insert-IsEntry name rn nd.remote_endpoints entry h.entries;
          unique = insert-NodupKeys name rn nd.remote_endpoints h.unique;
          published = usable;
        } in
      option_both (IsSound net) (lookup name nd.remote_endpoints) _ _ (λ _. stored)
        (λ existing found.
          let (_, settled) = lookup-All net name nd.remote_endpoints existing h.entries found in
          if_both (IsSound net) (spec_deep_equal existing.endpoint.spec endpoint.spec) _ _
            (λ _.
              if_both (IsSound net) (is_discovery_complete existing) _ _
                (λ complete. record {
                  entries = h.entries;
                  unique = h.unique;
                  published =
                      All-snoc (IsUsable net) box.ready _ usable
                        (complete-IsUsable net existing existing.state refl complete settled);
                })
                (λ _. record { entries = h.entries; unique = h.unique; published = usable }))
            (λ _. stored))

  -- One operation, at any time and in any surroundings.
  pub data Step (nd : NatDiscovery) : NatDiscovery → Type 0 where
    adds : (now : ℕ) (e : Endpoint) (family : IpFamily) → Step nd (add_endpoint net now e family nd)
    removes : (name : String) → Step nd (remove_endpoint name nd)
    checks : (env : Surroundings) (now : ℕ) → Step nd (check_endpoint_list net env now nd)
    answers :
        (now : ℕ) (resp : NatResponse) (addr : UdpAddr)
        → Step nd (handle_response_from_address net now resp addr nd).0

  pub data Reach (start : NatDiscovery) : NatDiscovery → Type 0 where
    here : Reach start start
    next : {nd nd' : NatDiscovery} → Reach start nd → Step nd nd' → Reach start nd'

  Step-IsSound : {nd nd' : NatDiscovery} → Step nd nd' → IsSound net nd → IsSound net nd'
  Step-IsSound {nd} (adds now e family) h = add_endpoint-IsSound now e family nd h
  Step-IsSound {nd} (removes name) h = remove_endpoint-IsSound net name nd h
  Step-IsSound {nd} (checks env now) h = check_endpoint_list-IsSound net env now nd h
  Step-IsSound {nd} (answers now resp addr) h = handle_response-IsSound now resp addr nd h

  Reach-IsSound : {start nd : NatDiscovery} → IsSound net start → Reach start nd → IsSound net nd
  Reach-IsSound h here = h
  Reach-IsSound h (next r step) = Step-IsSound step (Reach-IsSound h r)

  -- In every state that the service can reach from its creation by adding and removing endpoints,
  -- by checks, and by responses from anyone, each entry stands under its own cable name and once;
  -- an entry whose discovery is complete uses the public or the private IP that its endpoint
  -- declares, according to its state, and no other entry uses an IP; and whatever was published
  -- names one of the two IPs of its endpoint.
  pub reachable-IsSound :
      (local : EndpointSpec) (times : Timeouts) (random : ℕ) {nd : NatDiscovery}
      → Reach (new_with_config local times random).0 nd
      → IsSound net nd
  unfolding new_with_config
  reachable-IsSound local times random r =
      Reach-IsSound (record { entries = tt; unique = tt; published = tt }) r
