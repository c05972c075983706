-- ===== src/CableEngine/Pending.antt =====
-- The counts of the results of NAT discovery that are awaited (`natDiscoveryPending` in
-- pkg/cableengine/cableengine.go).
use submariner.Base.{
  ℕ, ◌+◌, ◌-◌, ◌<◌, String, ◌≡◌, ◌≢◌, ap, ◌∙◌, inl, inr, true, false, none, some, Dict, lookup,
  insert, erase, lookup-insert, lookup-erase, lookup-insert_self, lookup-erase_self, arith,
  str_eq_iff, ◌==◌, if◌then◌else◌, Option-cases,
}
use submariner.Endpoint.{NetLib, Endpoint, IpFamily, get_family_cable_name}
use submariner.Discovery.Remote.{NatEndpointInfo}
use submariner.CableEngine.{
  value_or_zero, increment, should_proceed_with_installation, Engine, Driver, info_key,
  remove_cable, install_cable_with_nat_info,
}

-- No cable waits for zero results.
abbrev pub IsPositive : Dict ℕ → Type 0
IsPositive m = (k : String) (n : ℕ) → lookup k m ≡ some n → 0 < n

pub increment-IsPositive : (k : String) (m : Dict ℕ) → IsPositive m → IsPositive (increment k m)
unfolding increment
increment-IsPositive k m h j n e =
    ground (arith, lookup-insert k j (value_or_zero (lookup k m) + 1) m, h j n)

pub should_proceed-IsPositive :
    (k : String) (m : Dict ℕ) → IsPositive m → IsPositive (should_proceed_with_installation k m).1
unfolding should_proceed_with_installation
should_proceed-IsPositive k m h j n e = elim (Option-cases (lookup k m)) [
  | inl absent ↦ h j n (ground arith)
  | inr (count, found) ↦ ground (
    arith,
    h k count found,
    h j n,
    lookup-erase k j (insert k (count - 1) m),
    lookup-insert k j (count - 1) m,
  )
]

-- What a result for `k` does to the count of `k`, which is 0 where nothing is awaited.
pub should_proceed_count :
    (k : String) (m : Dict ℕ)
    → IsPositive m
    → ((should_proceed_with_installation k m).0
        ≡ (if value_or_zero (lookup k m) == 0 then false else true))
      × (value_or_zero (lookup k (should_proceed_with_installation k m).1)
          ≡ value_or_zero (lookup k m) - 1)
unfolding should_proceed_with_installation
should_proceed_count k m h = elim (Option-cases (lookup k m)) [
  | inl absent ↦ ground arith
  | inr (count, found) ↦ ground (
    arith,
    h k count found,
    lookup-erase_self k (insert k (count - 1) m),
    lookup-insert_self k (count - 1) m,
  )
]

module _ (net : NetLib) {D : Type 0} (drv : Driver D) where
  -- A result for a cable that nobody waits for is dropped.
  pub install_unawaited :
      (info : NatEndpointInfo) (eng : Engine D)
      → lookup (info_key info) eng.nat_discovery_pending ≡ none
      → install_cable_with_nat_info net drv info eng ≡ (eng, none)
  unfolding install_cable_with_nat_info should_proceed_with_installation
  install_unawaited info eng absent = ground arith

  remove_cable_pending :
      (endpoint : Endpoint) (family : IpFamily) (eng : Engine D)
      → endpoint.spec.cluster_id ≢ eng.local_cluster_id
      → (remove_cable net drv endpoint family eng).0.nat_discovery_pending
        ≡ erase (get_family_cable_name endpoint.spec family) eng.nat_discovery_pending
  unfolding remove_cable
  remove_cable_pending endpoint family eng remote =
      ground (arith, str_eq_iff endpoint.spec.cluster_id eng.local_cluster_id)

  -- No result that was under way when a cable was removed installs it again: after `RemoveCable` of
  -- an endpoint of another cluster, with an error or not, a result of NAT discovery for the cable
  -- changes nothing and calls no driver.
  pub install-remove_cable :
      (endpoint : Endpoint) (family : IpFamily) (eng : Engine D) (info : NatEndpointInfo)
      → endpoint.spec.cluster_id ≢ eng.local_cluster_id
      → info_key info ≡ get_family_cable_name endpoint.spec family
      → let removed = (remove_cable net drv endpoint family eng).0 in
        install_cable_with_nat_info net drv info removed ≡ (removed, none)
  install-remove_cable endpoint family eng info remote same =
      install_unawaited info (remove_cable net drv endpoint family eng).0 (
        ap (lookup (info_key info)) (remove_cable_pending endpoint family eng remote)
        ∙ ap
            (λ k.
              lookup k
                (erase (get_family_cable_name endpoint.spec family) eng.nat_discovery_pending))
            same
        ∙ lookup-erase_self (get_family_cable_name endpoint.spec family) eng.nat_discovery_pending)
