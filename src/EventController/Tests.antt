-- ===== src/EventController/Tests.antt =====
-- The event controller's theorems at concrete events, with a handler that counts its calls.
use mathlib.Core.Bool.{false≢true}
use submariner.Base.{
  ℕ, ◌+◌, String, ◌≡◌, ◌≢◌, refl, Bool, true, false, ltb, some, none, List, [], ◌∷◌, lookup, arith,
  str_eq, str_eq_iff, if◌then◌else◌,
}
use submariner.Endpoint.{Endpoint}
use submariner.EventController.{
  Handler, HandlerController, new_handler_controller, handle_created_endpoint,
  handle_created_local_endpoint, handle_removed_endpoint,
}
use submariner.EventController.Transitions.{
  recording, Alternates, here, next, created, transitions_alternate,
}
use submariner.EventController.Missed.{transition_missed}
use submariner.EventController.Remotes.{
  failover_in_any_order, created-NotOlder, NotOlder, created_then_removed, removed_then_created,
}

abbrev endpoint : String → String → String → ℕ → Endpoint
endpoint cluster host uid time = record {
  name = host;
  uid = uid;
  created = time;
  spec = record {
    cluster_id = cluster;
    cable_name = host;
    health_check_ip = "";
    health_check_ips = [];
    hostname = host;
    subnets = [];
    private_ip = "10.0.0.1";
    private_ips = [];
    public_ip = "";
    public_ips = [];
    nat_enabled = false;
    backend = "libreswan";
    backend_config = [];
  };
}

-- It counts the calls, and fails for the first one.
abbrev failing_once : ℕ → Bool × ℕ
failing_once n = (ltb 0 n, n + 1)

abbrev counting : Handler ℕ
counting = record {
  local_endpoint_created = λ ep st n. failing_once n;
  local_endpoint_updated = λ ep st n. failing_once n;
  local_endpoint_removed = λ ep st n. failing_once n;
  remote_endpoint_created = λ ep st n. failing_once n;
  remote_endpoint_updated = λ ep st n. failing_once n;
  remote_endpoint_removed = λ ep st n. failing_once n;
  stale_remote_endpoint_removed = λ ep st n. failing_once n;
  transition_to_gateway = λ st n. failing_once n;
  transition_to_non_gateway = λ ep st n. failing_once n;
}

abbrev mine : Endpoint
mine = endpoint "east" "worker1" "1" 10

abbrev leaving : Endpoint
leaving = endpoint "east" "worker2" "2" 5

abbrev start : HandlerController (ℕ × List Bool)
start = new_handler_controller (1, []) "east" "worker1"

transitions_alternate_example :
    let c = (handle_created_endpoint (recording counting) mine 0 start).1 in
    Alternates c.handler_state.is_on_gateway c.handler.1
unfolding str_eq new_handler_controller handle_created_endpoint handle_created_local_endpoint
transitions_alternate_example =
    transitions_alternate counting 1 "east" "worker1" (next here (created mine 0 refl))

differ : (s t : String) → str_eq s t ≡ false → s ≢ t
differ s t e same = false≢true (cc (e, (str_eq_iff s t).1 same))

-- The first call fails; no call is made but the three for the events.
transition_missed_example :
    let first =
      handle_created_endpoint counting mine 0 (new_handler_controller 0 "east" "worker1") in
    let second = handle_removed_endpoint counting leaving 0 first.1 in
    let third = handle_created_endpoint counting mine 1 second.1 in
    (first.0 ≡ true)
    × (second.0 ≡ false)
    × (third.0 ≡ false)
    × (third.1.handler ≡ 3)
    × (third.1.handler_state.is_on_gateway ≡ true)
    × (third.1.handler_state.was_on_gateway ≡ true)
unfolding new_handler_controller str_eq
transition_missed_example =
    transition_missed counting (new_handler_controller 0 "east" "worker1") mine leaving 1 2 3 refl
      refl refl (differ "worker2" "worker1" refl) refl (λ st. refl) (λ st. refl) (λ st. refl)

abbrev old_west : Endpoint
old_west = endpoint "west" "gw1" "3" 10

abbrev new_west : Endpoint
new_west = endpoint "west" "gw2" "4" 20

-- A controller that knows the old endpoint.
abbrev knowing : HandlerController ℕ
knowing = record {
  handler_state = record {
    is_on_gateway = false;
    was_on_gateway = false;
    remote_endpoints = ("gw1", old_west) ∷ [];
  };
  handler = 0;
  hostname = "worker1";
  cluster_id = "east";
  last_remote_endpoint = ("west", old_west) ∷ [];
}

failover_in_any_order_example :
    let a = removed_then_created counting old_west new_west knowing in
    let b = created_then_removed counting old_west new_west knowing in
    (lookup "west" a.last_remote_endpoint ≡ (
      if str_eq "west" "west" then some new_west else lookup "west" knowing.last_remote_endpoint))
    × (lookup "west" b.last_remote_endpoint ≡ lookup "west" a.last_remote_endpoint)
    × (lookup "west" b.handler_state.remote_endpoints
        ≡ lookup "west" a.handler_state.remote_endpoints)
    × (lookup "gw2" b.handler_state.remote_endpoints ≡ some new_west)
    × (lookup "gw1" b.handler_state.remote_endpoints ≡ none)
unfolding str_eq lookup
failover_in_any_order_example =
    failover_in_any_order counting knowing old_west new_west (differ "west" "east" refl) refl refl
      (differ "4" "3" refl) (omega arith) (differ "gw2" "gw1" refl) "west"

-- An endpoint that is older than the one that is known.
created-NotOlder_example :
    NotOlder counting
      (endpoint "west" "gw0" "0" 1)
      "west"
      old_west
      (handle_created_endpoint counting
        (endpoint "west" "gw0" "0" 1)
        2
        knowing).1.last_remote_endpoint
unfolding str_eq lookup
created-NotOlder_example =
    created-NotOlder counting (endpoint "west" "gw0" "0" 1) 2 knowing "west" old_west refl
