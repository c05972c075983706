-- ===== src/Discovery/Remote.antt =====
-- pkg/natdiscovery/remote_endpoint.go: the state machine of one remote endpoint. Times are counted
-- in nanoseconds, 0 is the zero time, and each function takes the time at which it runs.
-- `time.Since` of a time that lies ahead is negative in Go and 0 here, and no timeout is negative.
use submariner.Base.{ℕ, ◌-◌, ◌*◌, String, Bool, true, false, ltb, if◌then◌else◌}
use submariner.Endpoint.{
  IpFamily, NetLib, Endpoint, get_public_ip, get_private_ip, get_backend_bool,
  using_loadbalancer_config,
}

pub data EndpointState : Type 0 where
  testing_private_and_public_ips waiting_for_response : EndpointState
  selected_public_ip selected_private_ip : EndpointState

pub record Timeouts : Type 0 where
  pub recheck_time : ℕ
  pub total_timeout : ℕ
  pub total_timeout_load_balancer : ℕ
  pub public_to_private_failover_timeout : ℕ

-- The values that `init` stores.
abbrev pub default_timeouts : Timeouts
default_timeouts = record {
  recheck_time = 2 * 1_000_000_000;
  total_timeout = 60 * 1_000_000_000;
  total_timeout_load_balancer = 6 * 1_000_000_000;
  public_to_private_failover_timeout = 1_000_000_000;
}

pub record RemoteEndpointNat : Type 0 where
  pub endpoint : Endpoint
  pub family : IpFamily
  pub state : EndpointState
  pub last_check : ℕ
  pub last_transition : ℕ
  pub started : ℕ
  pub timeout : ℕ
  pub use_ip : String
  pub last_public_ip_request_id : ℕ
  pub last_private_ip_request_id : ℕ
  pub use_nat : Bool
  pub using_load_balancer : Bool

pub record NatEndpointInfo : Type 0 where
  pub endpoint : Endpoint
  pub use_nat : Bool
  pub use_ip : String
  pub use_family : IpFamily

abbrev pub to_nat_endpoint_info : RemoteEndpointNat → NatEndpointInfo
to_nat_endpoint_info rn = record {
  endpoint = rn.endpoint;
  use_nat = rn.use_nat;
  use_ip = rn.use_ip;
  use_family = rn.family;
}

unfoldable pub new_remote_endpoint_nat : Timeouts → ℕ → Endpoint → IpFamily → RemoteEndpointNat
new_remote_endpoint_nat times now endpoint family =
    let balanced = (get_backend_bool endpoint.spec using_loadbalancer_config false).0 in
    record {
      endpoint = endpoint;
      family = family;
      state = testing_private_and_public_ips;
      last_check = 0;
      last_transition = now;
      started = now;
      timeout = if balanced then times.total_timeout_load_balancer else times.total_timeout;
      use_ip = "";
      last_public_ip_request_id = 0;
      last_private_ip_request_id = 0;
      use_nat = false;
      using_load_balancer = balanced;
    }

abbrev pub transition_to_state : ℕ → EndpointState → RemoteEndpointNat → RemoteEndpointNat
transition_to_state now new_state rn = record rn { last_transition = now; state = new_state }

abbrev pub since_last_transition : ℕ → RemoteEndpointNat → ℕ
since_last_transition now rn = now - rn.last_transition

unfoldable pub has_timed_out : ℕ → RemoteEndpointNat → Bool
has_timed_out now rn = ltb rn.timeout (now - rn.started)

abbrev pub state_is_complete : EndpointState → Bool
state_is_complete selected_public_ip = true
state_is_complete selected_private_ip = true
state_is_complete _ = false

abbrev pub is_discovery_complete : RemoteEndpointNat → Bool
is_discovery_complete rn = state_is_complete rn.state

unfoldable pub should_check : Timeouts → ℕ → RemoteEndpointNat → Bool
should_check times now rn = elim rn.state [
  | testing_private_and_public_ips ↦ true
  | waiting_for_response ↦ ltb times.recheck_time (now - rn.last_check)
  | selected_public_ip ↦ false
  | selected_private_ip ↦ false
]

abbrev pub state_after_check : EndpointState → EndpointState
state_after_check testing_private_and_public_ips = waiting_for_response
state_after_check state = state

unfoldable pub check_sent : ℕ → RemoteEndpointNat → RemoteEndpointNat
check_sent now rn = record rn { state = state_after_check rn.state; last_check = now }

module _ (net : NetLib) where
  -- The public IP is chosen, with or without NAT.
  abbrev pub choose_public : ℕ → Bool → RemoteEndpointNat → RemoteEndpointNat
  choose_public now use_nat rn =
      transition_to_state now selected_public_ip
        (record rn { use_ip = get_public_ip net rn.endpoint.spec rn.family; use_nat = use_nat })

  abbrev pub choose_private : ℕ → Bool → RemoteEndpointNat → RemoteEndpointNat
  choose_private now use_nat rn =
      transition_to_state now selected_private_ip
        (record rn { use_ip = get_private_ip net rn.endpoint.spec rn.family; use_nat = use_nat })

  unfoldable pub use_legacy_nat_settings : ℕ → RemoteEndpointNat → RemoteEndpointNat
  use_legacy_nat_settings now rn =
      if rn.using_load_balancer
      then choose_public now true rn
      else if rn.endpoint.spec.nat_enabled
      then choose_public now true rn
      else choose_private now false rn

  unfoldable pub transition_to_public_ip : ℕ → Bool → RemoteEndpointNat → RemoteEndpointNat × Bool
  transition_to_public_ip now use_nat rn = elim rn.state [
    | waiting_for_response ↦ (choose_public now use_nat rn, true)
    | selected_private_ip ↦ (rn, false)
    | testing_private_and_public_ips ↦ (rn, false)
    | selected_public_ip ↦ (rn, false)
  ]

  unfoldable pub transition_to_private_ip :
      Timeouts → ℕ → Bool → RemoteEndpointNat → RemoteEndpointNat × Bool
  transition_to_private_ip times now use_nat rn = elim rn.state [
    | waiting_for_response ↦ (choose_private now use_nat rn, true)
    | selected_public_ip ↦
        if ltb times.public_to_private_failover_timeout (since_last_transition now rn)
        then (rn, false)
        else (choose_private now use_nat rn, true)
    | testing_private_and_public_ips ↦ (rn, false)
    | selected_private_ip ↦ (rn, false)
  ]
