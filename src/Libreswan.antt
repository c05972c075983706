-- ===== src/Libreswan.antt =====
-- pkg/cable/libreswan/preferred_server.go: which side of a connection of the libreswan driver is the
-- server. An error of `GetBackendBool` is logged, and its answer used.
mod Tests
use submariner.Base.{
  String, ◌≡◌, ◌≢◌, refl, inl, inr, Bool, true, false, not, ◌&&◌, Option, none, some, arith,
  if◌then◌else◌, Bool-cases,
}
use submariner.Base.TextOrder.{greater, greater_flip}
use submariner.Endpoint.{EndpointSpec, ConfigError, preferred_server_config, get_backend_bool}

pub data OperationMode : Type 0 where
  bidirectional : OperationMode
  server : OperationMode
  client : OperationMode

-- `calculateOperationMode`, after the configurations are read.
abbrev pub mode_of : Bool → Bool → String → String → OperationMode
mode_of left_preferred right_preferred local_name remote_name =
    if not left_preferred && not right_preferred
    then bidirectional
    else if left_preferred && not right_preferred
    then server
    else if right_preferred && not left_preferred
    then client
    else if greater local_name remote_name
    then server
    else client

abbrev pub prefers_server : EndpointSpec → Bool
prefers_server ep = (get_backend_bool ep preferred_server_config false).0

unfoldable pub calculate_operation_mode : EndpointSpec → EndpointSpec → OperationMode
calculate_operation_mode local remote =
    mode_of (prefers_server local) (prefers_server remote) local.cable_name remote.cable_name

-- The mode that the other side must have.
abbrev pub opposite : OperationMode → OperationMode
opposite bidirectional = bidirectional
opposite server = client
opposite client = server

mode_of-opposite :
    (a b : Bool) (s t : String) → s ≢ t → mode_of b a t s ≡ opposite (mode_of a b s t)
mode_of-opposite false false s t h = refl
mode_of-opposite false true s t h = refl
mode_of-opposite true false s t h = refl
mode_of-opposite true true s t h = ground (arith, greater_flip s t h)

-- The two sides of a connection whose cable names differ choose modes that fit: both bidirectional, or
-- one the server and the other the client, also where both or neither ask to be the server, and where
-- the configuration of a side cannot be parsed.
pub calculate_operation_mode-opposite :
    (local remote : EndpointSpec)
    → local.cable_name ≢ remote.cable_name
    → calculate_operation_mode remote local ≡ opposite (calculate_operation_mode local remote)
unfolding calculate_operation_mode
calculate_operation_mode-opposite local remote h =
    mode_of-opposite (prefers_server local) (prefers_server remote) local.cable_name
      remote.cable_name h
