-- ===== src/CableEngine.antt =====
-- pkg/cableengine/cableengine.go: the engine that installs and removes the cables to remote
-- gateways. The cable driver is a parameter: its state, and the interface pkg/cable/driver.go of
-- its functions. Each operation runs as one step, as the mutex makes it; the ready channel is read
-- by the goroutine of `SetupNATDiscovery`, which calls `installCableWithNATInfo` with each value.
pub mod Pending
pub mod Awaited
pub mod Replace
pub mod Lifecycle
mod Tests
use submariner.Base.{
  ℕ, ◌+◌, ◌-◌, String, Bool, true, false, ◌&&◌, ◌||◌, not, Option, none, some, List, [], ◌∷◌, Dict,
  lookup, insert, erase, ltb, ◌==◌, str_eq, map_equal, if◌then◌else◌,
}
use submariner.Endpoint.{
  IpFamily, family_eq, NetLib, Endpoint, EndpointSpec, get_family_cable_name, spec_deep_equal,
  bools_equal,
}
use submariner.Discovery.Remote.{NatEndpointInfo}
use submariner.Discovery.Service.{NatDiscovery, add_endpoint, remove_endpoint}

-- `Connection` of pkg/apis/submariner.io/v1/types.go, with the fields that the engine reads.
pub record Connection : Type 0 where
  pub endpoint : EndpointSpec
  pub using_ip : String
  pub using_nat : Bool

-- A cable driver with states in `D`; `none` and `false` stand for an error.
pub record Driver (D : Type 0) : Type 0 where
  pub init : D → Bool × D
  pub get_active_connections : D → Option (List Connection)
  pub get_connections : D → Option (List Connection)
  pub connect_to_endpoint : NatEndpointInfo → D → Option String × D
  pub disconnect_from_endpoint : EndpointSpec → IpFamily → D → Bool × D
  pub cleanup : D → Bool × D

pub record Engine (D : Type 0) : Type 0 where
  -- nil until the driver is created
  pub driver : Option D
  pub running : Bool
  pub local_cluster_id : String
  pub local_endpoint : EndpointSpec
  pub nat_discovery : NatDiscovery
  -- how many results of NAT discovery each cable still waits for
  pub nat_discovery_pending : Dict ℕ
  -- the creation times of the endpoints of the installed cables
  pub installed_cables : Dict ℕ

pub data EngineError : Type 0 where
  driver_not_created driver_not_initialized connections_unknown : EngineError
  disconnect_failed connect_failed : EngineError
  -- the panic of a call through the nil driver
  nil_driver : EngineError

pub data HaStatus : Type 0 where
  passive active : HaStatus

abbrev pub info_key : NatEndpointInfo → String
info_key info = get_family_cable_name info.endpoint.spec info.use_family

-- `m[k]` of a map of numbers or times, which is 0 for a missing key.
abbrev pub value_or_zero : Option ℕ → ℕ
value_or_zero none = 0
value_or_zero (some n) = n

-- The map after `m[k]++`.
unfoldable pub increment : String → Dict ℕ → Dict ℕ
increment k m = insert k (value_or_zero (lookup k m) + 1) m

-- Whether a result for this cable is awaited, and the map with one less. A count is at least 1, so
-- that `-` does not stop at 0.
unfoldable pub should_proceed_with_installation : String → Dict ℕ → Bool × Dict ℕ
should_proceed_with_installation k m = elim (lookup k m) [
  | none ↦ (false, m)
  | some n ↦ (true, if n - 1 == 0 then erase k (insert k (n - 1) m) else insert k (n - 1) m)
]

module _ (net : NetLib) where
  abbrev pub connection_family : Connection → IpFamily
  connection_family c = net.family_of c.using_ip

  abbrev pub connection_key : Connection → String
  connection_key c = get_family_cable_name c.endpoint (connection_family c)

  -- An active connection to the same cluster over the same family.
  abbrev pub same_cluster : NatEndpointInfo → Connection → Bool
  same_cluster info c =
      str_eq c.endpoint.cluster_id info.endpoint.spec.cluster_id
      && family_eq (connection_family c) info.use_family

  -- The cable over this connection was installed for a later endpoint.
  unfoldable pub is_newer : Dict ℕ → NatEndpointInfo → Connection → Bool
  is_newer installed info c =
      ltb info.endpoint.created (value_or_zero (lookup (connection_key c) installed))

  -- It is the cable that is asked for, as it is asked for.
  unfoldable pub is_unchanged : Dict ℕ → NatEndpointInfo → Connection → Bool
  is_unchanged installed info c =
      info.endpoint.created == value_or_zero (lookup (connection_key c) installed)
      && str_eq (connection_key c) (info_key info)
      && str_eq c.using_ip info.use_ip
      && bools_equal c.using_nat info.use_nat
      && map_equal c.endpoint.backend_config info.endpoint.spec.backend_config

-- How the loop over the active connections ends: with a return that keeps the cable, with an error,
-- or with the cables of the cluster disconnected.
pub data LoopEnd (D : Type 0) : Type 0 where
  keeps fails goes_on : D → LoopEnd D

abbrev pub after_disconnect : {D : Type 0} → (D → LoopEnd D) → Bool × D → LoopEnd D
after_disconnect next (false, d) = fails d
after_disconnect next (true, d) = next d

abbrev pub after_connect :
    {D : Type 0} → Engine D → NatEndpointInfo → Option String × D → Engine D × Option EngineError
after_connect eng info (none, d) = (record eng { driver = some d }, some connect_failed)
after_connect eng info (some ip, d) = (
  record eng {
    driver = some d;
    installed_cables = insert (info_key info) info.endpoint.created eng.installed_cables;
  },
  none,
)

-- `NewEngine`, and `SetupNATDiscovery` with the service.
unfoldable pub new_engine : {D : Type 0} → String → EndpointSpec → NatDiscovery → Engine D
new_engine cluster_id local nat = record {
  driver = none;
  running = false;
  local_cluster_id = cluster_id;
  local_endpoint = local;
  nat_discovery = nat;
  nat_discovery_pending = [];
  installed_cables = [];
}

unfoldable pub stop : {D : Type 0} → Engine D → Engine D
stop eng = record eng { running = false }

unfoldable pub get_ha_status : {D : Type 0} → Engine D → HaStatus
get_ha_status eng = if eng.running then active else passive

module _ (net : NetLib) {D : Type 0} (drv : Driver D) where
  -- The loop: it stops at a cable that is newer or unchanged, and disconnects the other cables to
  -- the cluster.
  unfoldable pub disconnect_previous : Dict ℕ → NatEndpointInfo → List Connection → D → LoopEnd D
  disconnect_previous installed info [] d = goes_on d
  disconnect_previous installed info (c ∷ rest) d =
      let skipped = disconnect_previous installed info rest d in
      if not (same_cluster net info c)
      then skipped
      else if is_newer net installed info c || is_unchanged net installed info c
      then keeps d
      else after_disconnect (λ d'. disconnect_previous installed info rest d')
          (drv.disconnect_from_endpoint c.endpoint info.use_family d)

  unfoldable pub connect_after :
      Engine D → NatEndpointInfo → LoopEnd D → Engine D × Option EngineError
  connect_after eng info (keeps d) = (record eng { driver = some d }, none)
  connect_after eng info (fails d) = (record eng { driver = some d }, some disconnect_failed)
  connect_after eng info (goes_on d) = after_connect eng info (drv.connect_to_endpoint info d)

  -- From `GetActiveConnections` on; a nil driver is a panic.
  unfoldable pub install_on : Engine D → NatEndpointInfo → Engine D × Option EngineError
  unfolding connect_after
  install_on eng info = elim eng.driver [
    | none ↦ (eng, some nil_driver)
    | some d ↦ elim (drv.get_active_connections d) [
      | none ↦ (eng, some connections_unknown)
      | some connections ↦
          connect_after eng info (disconnect_previous eng.installed_cables info connections d)
    ]
  ]

  unfoldable pub install_cable_with_nat_info :
      NatEndpointInfo → Engine D → Engine D × Option EngineError
  unfolding install_on
  install_cable_with_nat_info info eng =
      let (proceeds, pending) =
        should_proceed_with_installation (info_key info) eng.nat_discovery_pending in
      let eng' : Engine D = record eng { nat_discovery_pending = pending } in
      if not proceeds
      then (eng, none)
      else if not eng.running
      then (eng', none)
      else install_on eng' info

  unfoldable pub install_cable : ℕ → Endpoint → IpFamily → Engine D → Engine D
  install_cable now endpoint family eng =
      if str_eq endpoint.spec.cluster_id eng.local_cluster_id
      then eng
      else if spec_deep_equal endpoint.spec eng.local_endpoint
      then eng
      else record eng {
        nat_discovery_pending =
            increment (get_family_cable_name endpoint.spec family) eng.nat_discovery_pending;
        nat_discovery = add_endpoint net now endpoint family eng.nat_discovery;
      }

  abbrev after_removal : String → Engine D → Bool × D → Engine D × Option EngineError
  after_removal key eng (false, d) = (record eng { driver = some d }, some disconnect_failed)
  after_removal key eng (true, d) =
      (record eng { driver = some d; installed_cables = erase key eng.installed_cables }, none)

  unfoldable pub remove_cable : Endpoint → IpFamily → Engine D → Engine D × Option EngineError
  remove_cable endpoint family eng =
      let key = get_family_cable_name endpoint.spec family in
      let eng' : Engine D = record eng {
        nat_discovery = remove_endpoint key eng.nat_discovery;
        nat_discovery_pending = erase key eng.nat_discovery_pending;
      } in
      if str_eq endpoint.spec.cluster_id eng.local_cluster_id
      then (eng, none)
      else elim (lookup key eng'.installed_cables) [
        | none ↦ (eng', none)
        | some _ ↦ elim eng'.driver [
          | none ↦ (eng', some nil_driver)
          | some d ↦ after_removal key eng' (drv.disconnect_from_endpoint endpoint.spec family d)
        ]
      ]

  abbrev after_init : Engine D → Bool × D → Engine D × Option EngineError
  after_init eng (false, d) = (record eng { driver = some d }, some driver_not_initialized)
  after_init eng (true, d) = (record eng { driver = some d }, none)

  -- The first argument is what `cable.NewDriver` answers.
  unfoldable pub start_driver : Option D → Engine D → Engine D × Option EngineError
  start_driver created eng = elim eng.driver [
    | some _ ↦ (eng, none)
    | none ↦ elim created [
      | none ↦ (eng, some driver_not_created)
      | some d ↦ after_init eng (drv.init d)
    ]
  ]

  abbrev started_unless_error : Engine D × Option EngineError → Engine D × Option EngineError
  started_unless_error (eng, some e) = (eng, some e)
  started_unless_error (eng, none) = (record eng { running = true }, none)

  unfoldable pub start_engine : Option D → Engine D → Engine D × Option EngineError
  unfolding start_driver
  start_engine created eng = started_unless_error (start_driver created eng)

  unfoldable pub list_cable_connections : Engine D → Option (List Connection)
  list_cable_connections eng =
      if eng.running
      then (elim eng.driver [ none ↦ none | some d ↦ drv.get_connections d ])
      else some []

  abbrev cleaned_up : Engine D → Bool × D → Engine D × Bool
  cleaned_up eng (ok, d) = (record eng { driver = some d }, ok)

  unfoldable pub cleanup : Engine D → Engine D × Bool
  cleanup eng = elim eng.driver [ none ↦ (eng, true) | some d ↦ cleaned_up eng (drv.cleanup d) ]
