-- ===== src/Libreswan/Tests.antt =====
-- The theorem on the operation mode, for two gateways that both ask to be the server.
use submariner.Base.{String, ◌≡◌, ◌≢◌, refl, false, [], ◌∷◌, lookup, str_eq, str_eq_iff}
use submariner.Base.TextOrder.{greater}
use submariner.Endpoint.{EndpointSpec, preferred_server_config, get_backend_bool, parse_bool}
use submariner.Libreswan.{
  server, opposite, calculate_operation_mode, calculate_operation_mode-opposite,
}

abbrev wants_server : String → EndpointSpec
wants_server cable_name = record {
  cluster_id = cable_name;
  cable_name = cable_name;
  health_check_ip = "";
  health_check_ips = [];
  hostname = "gw";
  subnets = [];
  private_ip = "";
  private_ips = [];
  public_ip = "";
  public_ips = [];
  nat_enabled = false;
  backend = "libreswan";
  backend_config = (preferred_server_config, "true") ∷ [];
}

names_differ : ◌≢◌ {A = String} "cable-east" "cable-west"
unfolding str_eq
names_differ e = cc ((str_eq_iff "cable-east" "cable-west").1 e)

calculate_operation_mode-opposite_example :
    calculate_operation_mode (wants_server "cable-west") (wants_server "cable-east")
    ≡ opposite (calculate_operation_mode (wants_server "cable-east") (wants_server "cable-west"))
calculate_operation_mode-opposite_example =
    calculate_operation_mode-opposite (wants_server "cable-east") (wants_server "cable-west")
      names_differ

-- The greater name is the server.
west_serves :
    calculate_operation_mode (wants_server "cable-west") (wants_server "cable-east") ≡ server
unfolding calculate_operation_mode get_backend_bool lookup parse_bool greater str_eq
west_serves = refl
