-- ===== src/CableEngine/Awaited.antt =====
-- Which results of NAT discovery the engine acts on (`InstallCable` and `installCableWithNATInfo` of
-- pkg/cableengine/cableengine.go).
use submariner.Base.{
  ℕ, zero, suc, ◌+◌, ◌-◌, String, ◌≡◌, ◌≢◌, refl, sym, ap, ◌∙◌, inl, inr, true, false, none, some,
  Option, List, [], ◌∷◌, Dict, lookup, lookup-insert_self, All, take, length, arith, str_eq_iff,
  Option-cases,
}
use submariner.Endpoint.{NetLib, Endpoint, IpFamily, get_family_cable_name, spec_deep_equal}
use submariner.Discovery.Remote.{NatEndpointInfo}
use submariner.Discovery.Service.{NatDiscovery, add_endpoint}
use submariner.CableEngine.{
  value_or_zero, increment, should_proceed_with_installation, Engine, Driver, LoopEnd, keeps, fails,
  goes_on, info_key, after_connect, connect_after, disconnect_previous, install_on, install_cable,
  install_cable_with_nat_info,
}
use submariner.CableEngine.Pending.{
  IsPositive, increment-IsPositive, should_proceed-IsPositive, should_proceed_count,
}

-- The engine with these counts and this state of NAT discovery.
abbrev with_counts : {D : Type 0} → Dict ℕ → NatDiscovery → Engine D → Engine D
with_counts m nat eng = record eng { nat_discovery_pending = m; nat_discovery = nat }

abbrev pub awaited : {D : Type 0} → String → Engine D → ℕ
awaited key eng = value_or_zero (lookup key eng.nat_discovery_pending)

module _ (net : NetLib) {D : Type 0} (drv : Driver D) where
  -- `InstallCable` of the endpoint at these times.
  unfoldable pub requests : Endpoint → IpFamily → List ℕ → Engine D → Engine D
  requests endpoint family [] eng = eng
  requests endpoint family (now ∷ times) eng =
      requests endpoint family times (install_cable net drv now endpoint family eng)

  -- `installCableWithNATInfo` with each of the results.
  unfoldable pub results : List NatEndpointInfo → Engine D → Engine D
  results [] eng = eng
  results (info ∷ infos) eng = results infos (install_cable_with_nat_info net drv info eng).0

  -- The installation of each of the cables, whether it is awaited or not.
  unfoldable pub installs : List NatEndpointInfo → Engine D → Engine D
  installs [] eng = eng
  installs (info ∷ infos) eng = installs infos (install_on net drv eng info).0

  -- An installation neither reads nor writes the counts.
  after_connect-with_counts :
      (m : Dict ℕ) (nat : NatDiscovery) (eng : Engine D) (info : NatEndpointInfo)
      (r : Option String × D)
      → (after_connect (with_counts m nat eng) info r).0
        ≡ with_counts m nat (after_connect eng info r).0
  after_connect-with_counts m nat eng info (none, d) = refl
  after_connect-with_counts m nat eng info (some ip, d) = refl

  connect_after-with_counts :
      (m : Dict ℕ) (nat : NatDiscovery) (eng : Engine D) (info : NatEndpointInfo) (loop : LoopEnd D)
      → (connect_after net drv (with_counts m nat eng) info loop).0
        ≡ with_counts m nat (connect_after net drv eng info loop).0
  unfolding connect_after
  connect_after-with_counts m nat eng info (keeps d) = refl
  connect_after-with_counts m nat eng info (fails d) = refl
  connect_after-with_counts m nat eng info (goes_on d) =
      after_connect-with_counts m nat eng info (drv.connect_to_endpoint info d)

  install_on-with_counts :
      (m : Dict ℕ) (nat : NatDiscovery) (eng : Engine D) (info : NatEndpointInfo)
      → (install_on net drv (with_counts m nat eng) info).0
        ≡ with_counts m nat (install_on net drv eng info).0
  unfolding install_on
  install_on-with_counts m nat eng info = elim (Option-cases eng.driver) [
    | inl e ↦ cc e
    | inr (d, e) ↦ elim (Option-cases (drv.get_active_connections d)) [
      | inl f ↦ cc (e, f)
      | inr (connections, f) ↦ cc (
        e,
        f,
        connect_after-with_counts m nat eng info
            (disconnect_previous net drv eng.installed_cables info connections d),
      )
    ]
  ]

  installs-with_counts :
      (m : Dict ℕ) (nat : NatDiscovery) (infos : List NatEndpointInfo) (eng : Engine D)
      → installs infos (with_counts m nat eng) ≡ with_counts m nat (installs infos eng)
  unfolding installs
  installs-with_counts m nat [] eng = refl
  installs-with_counts m nat (info ∷ infos) eng =
      ap (installs infos) (install_on-with_counts m nat eng info)
      ∙ installs-with_counts m nat infos (install_on net drv eng info).0

  after_connect_running :
      (eng : Engine D) (info : NatEndpointInfo) (r : Option String × D)
      → (after_connect eng info r).0.running ≡ eng.running
  after_connect_running eng info (none, d) = refl
  after_connect_running eng info (some ip, d) = refl

  connect_after_running :
      (eng : Engine D) (info : NatEndpointInfo) (loop : LoopEnd D)
      → (connect_after net drv eng info loop).0.running ≡ eng.running
  unfolding connect_after
  connect_after_running eng info (keeps d) = refl
  connect_after_running eng info (fails d) = refl
  connect_after_running eng info (goes_on d) =
      after_connect_running eng info (drv.connect_to_endpoint info d)

  install_on_running :
      (eng : Engine D) (info : NatEndpointInfo)
      → (install_on net drv eng info).0.running ≡ eng.running
  unfolding install_on
  install_on_running eng info = elim (Option-cases eng.driver) [
    | inl e ↦ cc e
    | inr (d, e) ↦ elim (Option-cases (drv.get_active_connections d)) [
      | inl f ↦ cc (e, f)
      | inr (connections, f) ↦ cc (
        e,
        f,
        connect_after_running eng info
            (disconnect_previous net drv eng.installed_cables info connections d),
      )
    ]
  ]

  -- A result that is awaited, and one that is not.
  result_installs :
      (info : NatEndpointInfo) (eng : Engine D) (n : ℕ)
      → eng.running ≡ true
      → IsPositive eng.nat_discovery_pending
      → awaited (info_key info) eng ≡ suc n
      → (m : Dict ℕ) × ((install_cable_with_nat_info net drv info eng).0
          ≡ with_counts m eng.nat_discovery (install_on net drv eng info).0)
        × IsPositive m
        × (value_or_zero (lookup (info_key info) m) ≡ n)
  unfolding install_cable_with_nat_info
  result_installs info eng n running positive e =
      let old = eng.nat_discovery_pending in
      let (proceeds, m) = should_proceed_with_installation (info_key info) old in
      let (proceeding, left) = should_proceed_count (info_key info) old positive in
      (
        m,
        ground (arith, proceeding, install_on-with_counts m eng.nat_discovery eng info),
        should_proceed-IsPositive (info_key info) old positive,
        omega (arith, left, e),
      )

  result_dropped :
      (info : NatEndpointInfo) (eng : Engine D)
      → IsPositive eng.nat_discovery_pending
      → awaited (info_key info) eng ≡ 0
      → (install_cable_with_nat_info net drv info eng).0 ≡ eng
  unfolding install_cable_with_nat_info
  result_dropped info eng positive e =
      ground (arith, should_proceed_count (info_key info) eng.nat_discovery_pending positive)

  -- Of results for one cable, the awaited ones are acted on, and the later ones are dropped.
  results-installs :
      (key : String) (infos : List NatEndpointInfo) (n : ℕ) (eng : Engine D)
      → All (λ i. info_key i ≡ key) infos
      → eng.running ≡ true
      → IsPositive eng.nat_discovery_pending
      → awaited key eng ≡ n
      → (m : Dict ℕ) × (results infos eng
          ≡ with_counts m eng.nat_discovery (installs (take n infos) eng))
        × (value_or_zero (lookup key m) ≡ n - length infos)
  unfolding results installs
  results-installs key [] zero eng keys running positive e =
      (eng.nat_discovery_pending, refl, omega (arith, e))
  results-installs key [] (suc n) eng keys running positive e =
      (eng.nat_discovery_pending, refl, omega (arith, e))
  results-installs key (info ∷ infos) zero eng keys running positive e =
      let dropped = result_dropped info eng positive (ap (λ k. awaited k eng) (keys.0) ∙ e) in
      let (m, same, count) = results-installs key infos zero eng (keys.1) running positive e in
      (m, ap (results infos) dropped ∙ same, omega (arith, count))
  results-installs key (info ∷ infos) (suc n) eng keys running positive e =
      let (m, step, positive', count) =
        result_installs info eng n running positive (ap (λ k. awaited k eng) (keys.0) ∙ e) in
      let next = (install_on net drv eng info).0 in
      let (m', same, count') =
        results-installs key infos n (with_counts m eng.nat_discovery next) (keys.1)
          (install_on_running eng info ∙ running) positive'
          (ap (λ k. value_or_zero (lookup k m)) (sym (keys.0)) ∙ count) in
      (
        m',
        ap (results infos) step
            ∙ same
            ∙ ap (with_counts m' eng.nat_discovery)
                (installs-with_counts m eng.nat_discovery (take n infos) next),
        omega (arith, count'),
      )

  module _ (endpoint : Endpoint) (family : IpFamily) where
    abbrev key : String
    key = get_family_cable_name endpoint.spec family

    requests_counted :
        (times : List ℕ) (eng : Engine D)
        → endpoint.spec.cluster_id ≢ eng.local_cluster_id
        → spec_deep_equal endpoint.spec eng.local_endpoint ≡ false
        → IsPositive eng.nat_discovery_pending
        → (m : Dict ℕ) × (nat : NatDiscovery) × (requests endpoint family times eng
            ≡ with_counts m nat eng)
          × IsPositive m
          × (value_or_zero (lookup key m) ≡ awaited key eng + length times)
    unfolding requests install_cable increment
    requests_counted [] eng remote other positive =
        (eng.nat_discovery_pending, eng.nat_discovery, refl, positive, omega arith)
    requests_counted (now ∷ times) eng remote other positive =
        let nat = add_endpoint net now endpoint family eng.nat_discovery in
        let m = increment key eng.nat_discovery_pending in
        let counted = lookup-insert_self key (awaited key eng + 1) eng.nat_discovery_pending in
        let installed : install_cable net drv now endpoint family eng ≡ with_counts m nat eng =
          ground (arith, str_eq_iff endpoint.spec.cluster_id eng.local_cluster_id) in
        let (m', nat', same, positive', count) =
          requests_counted times (with_counts m nat eng) remote other
            (increment-IsPositive key eng.nat_discovery_pending positive) in
        (
          m',
          nat',
          ap (requests endpoint family times) installed ∙ same,
          positive',
          omega (arith, count, ap value_or_zero counted),
        )

    -- After `InstallCable` was called any number of times for an endpoint of another cluster, on an
    -- engine that runs and whose counts are positive, exactly the first n of the results of NAT
    -- discovery for that cable are acted on, where n is the number of the calls and of the results
    -- that were awaited before: the driver and the installed cables are as after the installations of
    -- these n results, or of all where there are fewer, one after the other; later results change
    -- nothing; and n less the number of the results are still awaited. Equal specs of the endpoint and
    -- the local one are excepted.
    pub results-requests :
        (times : List ℕ) (infos : List NatEndpointInfo) (eng : Engine D)
        → endpoint.spec.cluster_id ≢ eng.local_cluster_id
        → spec_deep_equal endpoint.spec eng.local_endpoint ≡ false
        → eng.running ≡ true
        → IsPositive eng.nat_discovery_pending
        → All (λ i. info_key i ≡ get_family_cable_name endpoint.spec family) infos
        → let n = awaited (get_family_cable_name endpoint.spec family) eng + length times in
          let after = results infos (requests endpoint family times eng) in
          let direct = installs (take n infos) eng in
          (after.driver ≡ direct.driver)
          × (after.installed_cables ≡ direct.installed_cables)
          × (awaited (get_family_cable_name endpoint.spec family) after ≡ n - length infos)
    results-requests times infos eng remote other running positive keys =
        let n = awaited key eng + length times in
        let (m, nat, asked, positive', count) = requests_counted times eng remote other positive in
        let (m', same, left) =
          results-installs key infos n (with_counts m nat eng) keys running positive' count in
        let all : results infos (requests endpoint family times eng)
            ≡ with_counts m' nat (installs (take n infos) eng) =
          ap (results infos) asked
          ∙ same
          ∙ ap (with_counts m' nat) (installs-with_counts m nat (take n infos) eng) in
        (
          ap (λ (e : Engine D). e.driver) all,
          ap (λ (e : Engine D). e.installed_cables) all,
          ap (λ (e : Engine D). awaited key e) all ∙ left,
        )
