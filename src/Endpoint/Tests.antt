-- ===== src/Endpoint/Tests.antt =====
-- The endpoint theorems at concrete inputs, and runs of the endpoint functions.
use submariner.Base.{
  String, ◌≡◌, refl, ◌≢◌, true, false, ◌||◌, none, some, [], ◌∷◌, str_eq, if◌then◌else◌, map_equal,
  map_equal_iff, lookup,
}
use submariner.Endpoint.{
  family_unknown, ipv4, ipv6, NetLib, EndpointSpec, get_public_ip, set_public_ip, get_private_ip,
  equals, config_text, get_backend_port, parse_port, parse_bool,
}
use submariner.Endpoint.Ips.{get_public_ip-set_public_ip}
use submariner.Endpoint.Config.{PortAnswer, get_backend_port_bounds}
use submariner.Endpoint.Equality.{equals_equivalence}

-- Two addresses of each family are known here.
abbrev test_net : NetLib
test_net = record {
  family_of = λ t.
      if str_eq t "10.0.0.1" || str_eq t "1.1.1.1"
      then ipv4
      else if str_eq t "fd00::1" || str_eq t "2001::1"
      then ipv6
      else family_unknown;
  has_ipv4_form = λ t. str_eq t "10.0.0.1" || str_eq t "1.1.1.1";
  ip_equal = str_eq;
}

abbrev east : EndpointSpec
east = record {
  cluster_id = "east";
  cable_name = "submariner-cable-east-1";
  health_check_ip = "";
  health_check_ips = [];
  hostname = "east-gw";
  subnets = [];
  private_ip = "10.0.0.1";
  private_ips = "10.0.0.1" ∷ "fd00::1" ∷ [];
  public_ip = "";
  public_ips = "2001::1" ∷ [];
  nat_enabled = false;
  backend = "libreswan";
  backend_config = ("natt-discovery-port", "4490") ∷ ("using-loadbalancer", "true") ∷ [];
}

not_empty : ◌≢◌ {A = String} "1.1.1.1" ""
not_empty e = cc

get_public_ip-set_public_ip_example :
    (get_public_ip test_net (set_public_ip test_net east "1.1.1.1") ipv4 ≡ "1.1.1.1")
    × (get_private_ip test_net (set_public_ip test_net east "1.1.1.1") ipv4
        ≡ get_private_ip test_net east ipv4)
unfolding str_eq
get_public_ip-set_public_ip_example =
    get_public_ip-set_public_ip test_net east "1.1.1.1" ipv4 not_empty (λ e. cc)

get_backend_port_bounds_example :
    PortAnswer
      (config_text east "natt-discovery-port")
      0
      (get_backend_port east "natt-discovery-port" 0)
get_backend_port_bounds_example = get_backend_port_bounds east "natt-discovery-port" 0

port_runs :
    (get_backend_port east "natt-discovery-port" 0 ≡ (4490, none))
    × (parse_port "65536" ≡ none)
    × (parse_port "0" ≡ none)
    × (parse_port "007" ≡ some 7)
    × (parse_port "+7" ≡ none)
    × (parse_bool "True" ≡ some true)
unfolding get_backend_port parse_port parse_bool str_eq lookup
port_runs = (refl, refl, refl, refl, refl, refl)

-- The same endpoint with another private IP and another port entry.
abbrev east_moved : EndpointSpec
east_moved = record east {
  private_ip = "10.0.0.2";
  backend_config = ("using-loadbalancer", "true") ∷ [];
}

moved_equal : equals map_equal (some east) (some east_moved) ≡ true
unfolding equals str_eq map_equal lookup
moved_equal = refl

equals_equivalence_example :
    (equals map_equal (some east) (some east) ≡ true)
    × (equals map_equal (some east_moved) (some east) ≡ true)
    × (equals map_equal (some east) (some east) ≡ true)
unfolding equals str_eq map_equal lookup
equals_equivalence_example =
    equals_equivalence map_equal map_equal_iff (some east) (some east_moved) (some east) moved_equal
      refl
