-- ===== src/EventController.antt =====
-- pkg/event/controller: how one handler of pkg/event/handler.go learns of endpoints and of the
-- gateway status of its node. A call of a handler sees the state that it can read, and answers
-- whether it had no error; an operation answers whether the event is to be queued again.
pub mod Transitions
pub mod Missed
pub mod Remotes
mod Tests
use submariner.Base.{
  ℕ, String, Bool, true, false, not, ◌&&◌, Option, none, some, [], Dict, lookup, insert, erase,
  str_eq, ltb, if◌then◌else◌,
}
use submariner.Endpoint.{Endpoint}

pub record HandlerState : Type 0 where
  pub is_on_gateway : Bool
  pub was_on_gateway : Bool
  pub remote_endpoints : Dict Endpoint

-- The events of a handler whose own state is in `H`.
pub record Handler (H : Type 0) : Type 0 where
  pub local_endpoint_created : Endpoint → HandlerState → H → Bool × H
  pub local_endpoint_updated : Endpoint → HandlerState → H → Bool × H
  pub local_endpoint_removed : Endpoint → HandlerState → H → Bool × H
  pub remote_endpoint_created : Endpoint → HandlerState → H → Bool × H
  pub remote_endpoint_updated : Endpoint → HandlerState → H → Bool × H
  pub remote_endpoint_removed : Endpoint → HandlerState → H → Bool × H
  pub stale_remote_endpoint_removed : Endpoint → HandlerState → H → Bool × H
  pub transition_to_gateway : HandlerState → H → Bool × H
  pub transition_to_non_gateway : Endpoint → HandlerState → H → Bool × H

pub record HandlerController (H : Type 0) : Type 0 where
  pub handler_state : HandlerState
  pub handler : H
  pub hostname : String
  pub cluster_id : String
  pub last_remote_endpoint : Dict Endpoint

abbrev pub max_requeues : ℕ
max_requeues = 20

-- The controller that `setupHandlerController` makes for a handler.
unfoldable pub new_handler_controller : {H : Type 0} → H → String → String → HandlerController H
new_handler_controller handler cluster_id hostname = record {
  handler_state = record { is_on_gateway = false; was_on_gateway = false; remote_endpoints = [] };
  handler = handler;
  hostname = hostname;
  cluster_id = cluster_id;
  last_remote_endpoint = [];
}

-- A call of the handler.
abbrev pub called :
    {H : Type 0} → (HandlerState → H → Bool × H) → HandlerController H → Bool × HandlerController H
called call c =
    let (ok, handler) = call c.handler_state c.handler in (ok, record c { handler = handler })

-- `setIsOnGateway` for an endpoint of this host.
abbrev pub note_gateway : {H : Type 0} → Bool → Endpoint → HandlerController H → HandlerController H
note_gateway v endpoint c =
    if str_eq endpoint.spec.hostname c.hostname
    then record c { handler_state = record c.handler_state { is_on_gateway = v } }
    else c

-- `wasOnGateway = IsOnGateway()`, where there was no error.
abbrev pub settled : {H : Type 0} → Bool × HandlerController H → Bool × HandlerController H
settled (false, c) = (false, c)
settled (true, c) = (
  true,
  record c {
    handler_state = record c.handler_state { was_on_gateway = c.handler_state.is_on_gateway };
  },
)

abbrev pub store_remote : {H : Type 0} → Endpoint → HandlerController H → HandlerController H
store_remote endpoint c = record c {
  handler_state = record c.handler_state {
    remote_endpoints = insert endpoint.name endpoint c.handler_state.remote_endpoints;
  };
}

abbrev pub delete_remote : {H : Type 0} → Endpoint → HandlerController H → HandlerController H
delete_remote endpoint c = record c {
  handler_state = record c.handler_state {
    remote_endpoints = erase endpoint.name c.handler_state.remote_endpoints;
  };
}

-- The error of an event asks for it to be queued again.
abbrev pub requeued : {H : Type 0} → Bool × HandlerController H → Bool × HandlerController H
requeued (ok, c) = (not ok, c)

-- A later endpoint of the cluster was already processed.
abbrev pub is_later : Option Endpoint → Endpoint → Bool
is_later none endpoint = false
is_later (some last) endpoint = ltb endpoint.created last.created

-- The last endpoint of the cluster is another one.
abbrev pub is_other : Option Endpoint → Endpoint → Bool
is_other none endpoint = false
is_other (some last) endpoint = not (str_eq last.uid endpoint.uid)

module _ {H : Type 0} (h : Handler H) where
  abbrev pub to_gateway_if_new : Bool × HandlerController H → Bool × HandlerController H
  to_gateway_if_new (false, c) = (false, c)
  to_gateway_if_new (true, c) =
      if not c.handler_state.was_on_gateway && c.handler_state.is_on_gateway
      then called h.transition_to_gateway c
      else (true, c)

  unfoldable pub handle_created_local_endpoint :
      Endpoint → HandlerController H → Bool × HandlerController H
  handle_created_local_endpoint endpoint c = settled (
      to_gateway_if_new (called (h.local_endpoint_created endpoint) (note_gateway true endpoint c)))

  unfoldable pub handle_created_remote_endpoint :
      Endpoint → HandlerController H → Bool × HandlerController H
  handle_created_remote_endpoint endpoint c =
      if is_later (lookup endpoint.spec.cluster_id c.last_remote_endpoint) endpoint
      then (true, c)
      else called (h.remote_endpoint_created endpoint) (record (store_remote endpoint c) {
        last_remote_endpoint = insert endpoint.spec.cluster_id endpoint c.last_remote_endpoint;
      })

  unfoldable pub handle_created_endpoint :
      Endpoint → ℕ → HandlerController H → Bool × HandlerController H
  unfolding handle_created_local_endpoint handle_created_remote_endpoint
  handle_created_endpoint endpoint requeue_count c =
      if ltb max_requeues requeue_count
      then (false, c)
      else requeued (
          if not (str_eq endpoint.spec.cluster_id c.cluster_id)
          then handle_created_remote_endpoint endpoint c
          else handle_created_local_endpoint endpoint c)

  unfoldable pub handle_updated_endpoint :
      Endpoint → ℕ → HandlerController H → Bool × HandlerController H
  handle_updated_endpoint endpoint requeue_count c =
      if ltb max_requeues requeue_count
      then (false, c)
      else requeued (
          if not (str_eq endpoint.spec.cluster_id c.cluster_id)
          then called (h.remote_endpoint_updated endpoint) (store_remote endpoint c)
          else called (h.local_endpoint_updated endpoint) c)

  abbrev pub to_non_gateway_if_new :
      Endpoint → Bool × HandlerController H → Bool × HandlerController H
  to_non_gateway_if_new endpoint (false, c) = (false, c)
  to_non_gateway_if_new endpoint (true, c) =
      if c.handler_state.was_on_gateway && not c.handler_state.is_on_gateway
      then called (h.transition_to_non_gateway endpoint) c
      else (true, c)

  unfoldable pub handle_removed_local_endpoint :
      Endpoint → HandlerController H → Bool × HandlerController H
  handle_removed_local_endpoint endpoint c = settled (
      to_non_gateway_if_new endpoint
        (called (h.local_endpoint_removed endpoint) (note_gateway false endpoint c)))

  unfoldable pub handle_removed_remote_endpoint :
      Endpoint → HandlerController H → Bool × HandlerController H
  handle_removed_remote_endpoint endpoint c =
      if is_other (lookup endpoint.spec.cluster_id c.last_remote_endpoint) endpoint
      then called (h.stale_remote_endpoint_removed endpoint) (delete_remote endpoint c)
      else called (h.remote_endpoint_removed endpoint) (record (delete_remote endpoint c) {
        last_remote_endpoint = erase endpoint.spec.cluster_id c.last_remote_endpoint;
      })

  unfoldable pub handle_removed_endpoint :
      Endpoint → ℕ → HandlerController H → Bool × HandlerController H
  unfolding handle_removed_local_endpoint handle_removed_remote_endpoint
  handle_removed_endpoint endpoint requeue_count c =
      if ltb max_requeues requeue_count
      then (false, c)
      else requeued (
          if not (str_eq endpoint.spec.cluster_id c.cluster_id)
          then handle_removed_remote_endpoint endpoint c
          else handle_removed_local_endpoint endpoint c)
