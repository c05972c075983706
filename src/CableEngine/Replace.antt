-- ===== src/CableEngine/Replace.antt =====
-- Which cables give way to a new one (the loop of `installCableWithNATInfo` in
-- pkg/cableengine/cableengine.go).
use submariner.Base.{
  ℕ, String, ◌≡◌, refl, ap, inl, inr, Bool, true, false, ◌||◌, Option, none, some, List, [], ◌∷◌,
  Dict, insert, keep, All, arith, if◌then◌else◌, Bool-cases,
}
use submariner.Endpoint.{NetLib}
use submariner.Discovery.Remote.{NatEndpointInfo}
use submariner.CableEngine.{
  Connection, Driver, Engine, EngineError, LoopEnd, keeps, goes_on, info_key, same_cluster,
  is_newer, is_unchanged, after_disconnect, disconnect_previous, connect_after,
  should_proceed_with_installation, install_cable_with_nat_info,
}

-- The cable over this connection is not replaced: it is newer, or it is the one that is asked for.
abbrev pub blocks : NetLib → Dict ℕ → NatEndpointInfo → Connection → Bool
blocks net installed info c = is_newer net installed info c || is_unchanged net installed info c

-- The connections to the cluster of the new cable, over its family.
abbrev pub previous : NetLib → NatEndpointInfo → List Connection → List Connection
previous net info = keep (same_cluster net info)

module _ (net : NetLib) {D : Type 0} (drv : Driver D) (installed : Dict ℕ)
    (info : NatEndpointInfo) where
  -- The specification of the loop: walk over the previous connections alone.
  pub replace_all : List Connection → D → LoopEnd D
  replace_all [] d = goes_on d
  replace_all (c ∷ rest) d =
      if blocks net installed info c
      then keeps d
      else after_disconnect (λ d'. replace_all rest d')
          (drv.disconnect_from_endpoint c.endpoint info.use_family d)

  after_disconnect_congr :
      (f g : D → LoopEnd D) (r : Bool × D)
      → ((d : D) → f d ≡ g d)
      → after_disconnect f r ≡ after_disconnect g r
  after_disconnect_congr f g (false, d) h = refl
  after_disconnect_congr f g (true, d) h = h d

  -- The loop over all active connections is the walk over those to the same cluster and family.
  pub disconnect_previous-eq-replace_all :
      (connections : List Connection) (d : D)
      → disconnect_previous net drv installed info connections d
        ≡ replace_all (previous net info connections) d
  unfolding disconnect_previous replace_all
  disconnect_previous-eq-replace_all [] d = refl
  disconnect_previous-eq-replace_all (c ∷ rest) d = elim (Bool-cases (same_cluster net info c)) [
    | inr other ↦ rw other (disconnect_previous-eq-replace_all rest d)
    | inl same ↦ rw same (
        ap (λ e. if blocks net installed info c then keeps d else e)
          (after_disconnect_congr _ _ (drv.disconnect_from_endpoint c.endpoint info.use_family d)
            (disconnect_previous-eq-replace_all rest)))
  ]

  abbrev all_or_none : (D → Option D) → Bool × D → Option D
  all_or_none next (false, d) = none
  all_or_none next (true, d) = next d

  -- The driver after it has disconnected every one of the connections, if each call succeeds.
  unfoldable pub disconnect_all : List Connection → D → Option D
  disconnect_all [] d = some d
  disconnect_all (c ∷ rest) d =
      all_or_none (disconnect_all rest) (drv.disconnect_from_endpoint c.endpoint info.use_family d)

  after_disconnect_goes_on :
      (f : D → LoopEnd D) (g : D → Option D) (r : Bool × D) (d' : D)
      → ((x : D) → g x ≡ some d' → f x ≡ goes_on d')
      → all_or_none g r ≡ some d'
      → after_disconnect f r ≡ goes_on d'
  after_disconnect_goes_on f g (false, x) d' h e = cc
  after_disconnect_goes_on f g (true, x) d' h e = h x e

  replace_all_unblocked :
      (previous_ones : List Connection) (d d' : D)
      → All (λ c. blocks net installed info c ≡ false) previous_ones
      → disconnect_all previous_ones d ≡ some d'
      → replace_all previous_ones d ≡ goes_on d'
  unfolding replace_all disconnect_all
  replace_all_unblocked [] d d' h e = ground arith
  replace_all_unblocked (c ∷ rest) d d' h e = rw (h.0) (
      after_disconnect_goes_on _ (disconnect_all rest)
        (drv.disconnect_from_endpoint c.endpoint info.use_family d) d'
        (λ x. replace_all_unblocked rest x d' h.1) e)

module _ (net : NetLib) {D : Type 0} (drv : Driver D) (info : NatEndpointInfo) (eng : Engine D)
    (d : D) (connections : List Connection) (running : eng.running ≡ true)
    (created : eng.driver ≡ some d) (known : drv.get_active_connections d ≡ some connections)
    (awaited : (should_proceed_with_installation (info_key info) eng.nat_discovery_pending).0
      ≡ true) where
  abbrev pub installed_for : Engine D × Option EngineError
  installed_for = install_cable_with_nat_info net drv info eng

  install-replace_all :
      installed_for
      ≡ connect_after net drv
          (record eng {
            nat_discovery_pending =
                (should_proceed_with_installation (info_key info) eng.nat_discovery_pending).1;
          })
          info
          (replace_all net drv eng.installed_cables info (previous net info connections) d)
  unfolding install_cable_with_nat_info
  install-replace_all =
      ground
        (arith, disconnect_previous-eq-replace_all net drv eng.installed_cables info connections d)

  -- A cable is not replaced by an older or by the same one. Where the first active connection to
  -- the cluster of the new cable, over its family, belongs to a cable installed for a later
  -- endpoint, or is the cable that is asked for, unchanged, the result of NAT discovery leaves the
  -- driver and the installed cables as they were, without an error.
  pub install_blocked :
      (c : Connection) (rest : List Connection)
      → previous net info connections ≡ c ∷ rest
      → blocks net eng.installed_cables info c ≡ true
      → (installed_for.0.driver ≡ some d)
        × (installed_for.0.installed_cables ≡ eng.installed_cables)
        × (installed_for.1 ≡ none)
  unfolding connect_after replace_all
  install_blocked c rest first blocked = ground (arith, install-replace_all)

  -- A new cable replaces all others to its cluster. On an engine that runs, for a result that is
  -- awaited, where none of the active connections to the cluster over the family stops it and the
  -- driver's calls succeed, the driver has disconnected every one of these connections in order, no
  -- other, and then connected the new cable, which is recorded with the creation time of its
  -- endpoint; the records of other cables stay.
  pub install_replaces :
      (d' d'' : D) (ip : String)
      → All (λ c. blocks net eng.installed_cables info c ≡ false) (previous net info connections)
      → disconnect_all net drv eng.installed_cables info (previous net info connections) d ≡ some d'
      → drv.connect_to_endpoint info d' ≡ (some ip, d'')
      → (installed_for.0.driver ≡ some d'')
        × (installed_for.0.installed_cables
            ≡ insert (info_key info) info.endpoint.created eng.installed_cables)
        × (installed_for.1 ≡ none)
  unfolding connect_after
  install_replaces d' d'' ip unblocked disconnected connected = ground (
    arith,
    install-replace_all,
    replace_all_unblocked net drv eng.installed_cables info (previous net info connections) d d'
        unblocked disconnected,
  )
