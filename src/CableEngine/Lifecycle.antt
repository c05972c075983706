-- ===== src/CableEngine/Lifecycle.antt =====
-- The life of the engine (pkg/cableengine/cableengine.go): creating the driver, starting and
-- stopping, and the calls through the driver.
use submariner.Base.{
  ℕ, String, ◌≡◌, ◌≢◌, refl, Bool, true, false, not, Option, none, some, lookup, erase, arith,
  str_eq, if_both, option_both,
}
use submariner.Endpoint.{
  NetLib, Endpoint, EndpointSpec, IpFamily, spec_deep_equal, get_family_cable_name,
}
use submariner.Discovery.Remote.{NatEndpointInfo}
use submariner.Discovery.Service.{NatDiscovery, remove_endpoint}
use submariner.CableEngine.{
  Driver, Engine, EngineError, nil_driver, driver_not_initialized, LoopEnd, keeps, fails, goes_on,
  info_key, new_engine, stop, start_engine, install_cable, remove_cable, cleanup, connect_after,
  after_connect, after_removal, after_init, started_unless_error, cleaned_up, disconnect_previous,
  should_proceed_with_installation, install_cable_with_nat_info,
}

-- Without a driver the engine does not run, and no cable is installed.
pub record IsCoherent {D : Type 0} (eng : Engine D) : Type 0 where
  pub stopped : eng.driver ≡ none → eng.running ≡ false
  pub empty : eng.driver ≡ none → (k : String) → lookup k eng.installed_cables ≡ none

module _ (net : NetLib) {D : Type 0} (drv : Driver D) where
  -- An operation keeps the invariant, and does not call through the nil driver.
  abbrev Good : Engine D × Option EngineError → Type 0
  Good (eng, error) = IsCoherent eng × (error ≢ some nil_driver)

  has_driver : (eng : Engine D) (d : D) → eng.driver ≡ some d → IsCoherent eng
  has_driver eng d e = record { stopped = λ n. cc; empty = λ n k. cc }

  after_connect-Good :
      (eng : Engine D) (info : NatEndpointInfo) (r : Option String × D)
      → Good (after_connect eng info r)
  after_connect-Good eng info (none, d) = (has_driver _ d refl, λ e. cc)
  after_connect-Good eng info (some ip, d) = (has_driver _ d refl, λ e. cc)

  connect_after-Good :
      (eng : Engine D) (info : NatEndpointInfo) (end : LoopEnd D)
      → Good (connect_after net drv eng info end)
  unfolding connect_after
  connect_after-Good eng info (keeps d) = (has_driver _ d refl, λ e. cc)
  connect_after-Good eng info (fails d) = (has_driver _ d refl, λ e. cc)
  connect_after-Good eng info (goes_on d) =
      after_connect-Good eng info (drv.connect_to_endpoint info d)

  install-Good :
      (info : NatEndpointInfo) (eng : Engine D)
      → IsCoherent eng
      → Good (install_cable_with_nat_info net drv info eng)
  unfolding install_cable_with_nat_info
  install-Good info eng h =
      let (proceeds, pending) =
        should_proceed_with_installation (info_key info) eng.nat_discovery_pending in
      let eng' : Engine D = record eng { nat_discovery_pending = pending } in
      let h' : IsCoherent eng' = record { stopped = h.stopped; empty = h.empty } in
      if_both Good (not proceeds) _ _ (λ _. (h, λ e. cc))
        (λ _.
          if_both Good (not eng.running) _ _ (λ _. (h', λ e. cc))
            (λ runs.
              option_both Good eng.driver _ _
                (λ missing. absurd (ground (arith, h.stopped missing)))
                (λ d created.
                  option_both Good (drv.get_active_connections d) _ _ (λ _. (h', λ e. cc))
                    (λ connections _.
                      connect_after-Good eng' info
                        (disconnect_previous net drv eng.installed_cables info connections d)))))

  after_removal-Good :
      (key : String) (eng : Engine D) (r : Bool × D) → Good (after_removal net drv key eng r)
  after_removal-Good key eng (false, d) = (has_driver _ d refl, λ e. cc)
  after_removal-Good key eng (true, d) = (has_driver _ d refl, λ e. cc)

  remove_cable-Good :
      (endpoint : Endpoint) (family : IpFamily) (eng : Engine D)
      → IsCoherent eng
      → Good (remove_cable net drv endpoint family eng)
  unfolding remove_cable
  remove_cable-Good endpoint family eng h =
      let key = get_family_cable_name endpoint.spec family in
      let eng' : Engine D = record eng {
        nat_discovery = remove_endpoint key eng.nat_discovery;
        nat_discovery_pending = erase key eng.nat_discovery_pending;
      } in
      let h' : IsCoherent eng' = record { stopped = h.stopped; empty = h.empty } in
      if_both Good (str_eq endpoint.spec.cluster_id eng.local_cluster_id) _ _ (λ _. (h, λ e. cc))
        (λ _.
          option_both Good (lookup key eng.installed_cables) _ _ (λ _. (h', λ e. cc))
            (λ time installed.
              option_both Good eng.driver _ _
                (λ missing. absurd (cc (h.empty missing key, installed)))
                (λ d _.
                  after_removal-Good key eng'
                    (drv.disconnect_from_endpoint endpoint.spec family d))))

  install_cable-IsCoherent :
      (now : ℕ) (endpoint : Endpoint) (family : IpFamily) (eng : Engine D)
      → IsCoherent eng
      → IsCoherent (install_cable net drv now endpoint family eng)
  unfolding install_cable
  install_cable-IsCoherent now endpoint family eng h =
      if_both IsCoherent (str_eq endpoint.spec.cluster_id eng.local_cluster_id) _ _ (λ _. h)
        (λ _.
          if_both IsCoherent (spec_deep_equal endpoint.spec eng.local_endpoint) _ _ (λ _. h)
            (λ _. record { stopped = h.stopped; empty = h.empty }))

  after_init-Good :
      (eng : Engine D) (r : Bool × D)
      → Good (started_unless_error net drv (after_init net drv eng r))
  after_init-Good eng (false, d) = (has_driver _ d refl, λ e. cc)
  after_init-Good eng (true, d) = (has_driver _ d refl, λ e. cc)

  -- Starting leaves a driver behind, or an engine as it was.
  start-Good :
      (created : Option D) (eng : Engine D)
      → IsCoherent eng
      → Good (start_engine net drv created eng)
  unfolding start_engine
  start-Good created eng h =
      option_both (λ r. Good (started_unless_error net drv r)) eng.driver _ _
        (λ _.
          option_both (λ r. Good (started_unless_error net drv r)) created _ _ (λ _. (h, λ e. cc))
            (λ d _. after_init-Good eng (drv.init d)))
        (λ d has. (has_driver _ d has, λ e. cc))

  cleaned_up-IsCoherent : (eng : Engine D) (r : Bool × D) → IsCoherent (cleaned_up net drv eng r).0
  cleaned_up-IsCoherent eng (ok, d) = has_driver _ d refl

  cleanup-IsCoherent : (eng : Engine D) → IsCoherent eng → IsCoherent (cleanup net drv eng).0
  unfolding cleanup
  cleanup-IsCoherent eng h =
      option_both (λ (r : Engine D × Bool). IsCoherent r.0) eng.driver _ _ (λ _. h)
        (λ d _. cleaned_up-IsCoherent eng (drv.cleanup d))

  -- One operation of the engine, with any answer of `cable.NewDriver`.
  pub data Step (eng : Engine D) : Engine D → Type 0 where
    starts : (created : Option D) → Step eng (start_engine net drv created eng).0
    stops : Step eng (stop eng)
    requests :
        (now : ℕ) (e : Endpoint) (family : IpFamily)
        → Step eng (install_cable net drv now e family eng)
    installs : (info : NatEndpointInfo) → Step eng (install_cable_with_nat_info net drv info eng).0
    removes : (e : Endpoint) (family : IpFamily) → Step eng (remove_cable net drv e family eng).0
    cleans : Step eng (cleanup net drv eng).0

  pub data Reach (start : Engine D) : Engine D → Type 0 where
    here : Reach start start
    next : {eng eng' : Engine D} → Reach start eng → Step eng eng' → Reach start eng'

  Step-IsCoherent : {eng eng' : Engine D} → Step eng eng' → IsCoherent eng → IsCoherent eng'
  unfolding stop
  Step-IsCoherent {eng} (starts created) h = (start-Good created eng h).0
  Step-IsCoherent {eng} stops h = record { stopped = λ e. refl; empty = h.empty }
  Step-IsCoherent {eng} (requests now e family) h = install_cable-IsCoherent now e family eng h
  Step-IsCoherent {eng} (installs info) h = (install-Good info eng h).0
  Step-IsCoherent {eng} (removes e family) h = (remove_cable-Good e family eng h).0
  Step-IsCoherent {eng} cleans h = cleanup-IsCoherent eng h

  Reach-IsCoherent : {start eng : Engine D} → IsCoherent start → Reach start eng → IsCoherent eng
  Reach-IsCoherent h here = h
  Reach-IsCoherent h (next r step) = Step-IsCoherent step (Reach-IsCoherent h r)

  -- In every state that the engine can reach from its creation, by starts and stops with any driver
  -- or none, requests and removals of cables, results of NAT discovery and cleanups: without a
  -- driver it does not run and has no installed cable, and neither installing nor removing a cable
  -- calls through the nil driver.
  pub reachable-IsCoherent :
      (cluster_id : String) (local : EndpointSpec) (nat : NatDiscovery) {eng : Engine D}
      (info : NatEndpointInfo) (endpoint : Endpoint) (family : IpFamily)
      → Reach (new_engine cluster_id local nat) eng
      → IsCoherent eng
        × ((install_cable_with_nat_info net drv info eng).1 ≢ some nil_driver)
        × ((remove_cable net drv endpoint family eng).1 ≢ some nil_driver)
  unfolding new_engine lookup
  reachable-IsCoherent cluster_id local nat {eng} info endpoint family r =
      let h : IsCoherent eng =
        Reach-IsCoherent (record { stopped = λ e. refl; empty = λ e k. refl }) r in
      (h, (install-Good info eng h).1, (remove_cable-Good endpoint family eng h).1)

  -- A second start hides a failed initialization: where the driver was created and its `Init`
  -- failed, `StartEngine` answers that error, and the next `StartEngine` answers none and the
  -- engine runs, with the driver as the failed `Init` left it, whatever `cable.NewDriver` would
  -- answer.
  pub start_engine_again :
      (d d' : D) (created : Option D) (eng : Engine D)
      → eng.driver ≡ none
      → drv.init d ≡ (false, d')
      → let first = start_engine net drv (some d) eng in
        let second = start_engine net drv created first.0 in
        (first.1 ≡ some driver_not_initialized)
        × (second.1 ≡ none)
        × (second.0.running ≡ true)
        × (second.0.driver ≡ some d')
  unfolding start_engine
  start_engine_again d d' created eng fresh failed = ground arith
