-- ===== src/Datastore/Gateway/Tests.antt =====
-- The theorem on the watcher of the gateway's global IP, where the datastore holds just the object.
use submariner.Base.{String, ◌≡◌, refl, Bool, true, false, some, [], ◌∷◌, str_eq, if◌then◌else◌}
use submariner.Cidr.{Net, contains}
use submariner.Endpoint.{
  ipv4, family_unknown, NetLib, EndpointSpec, get_ip_from, set_ip, put_ip, get_health_check_ip,
  set_health_check_ip,
}
use submariner.Datastore.Gateway.{
  Local, MustUpdate, Settled, update, update_local_endpoint_if_necessary,
  handle_create_or_update_gateway, handle_create_or_update_gateway-Settled,
}

abbrev global_ip : String
global_ip = "242.0.0.1"

abbrev known : NetLib
known = record {
  family_of = λ t. if str_eq t global_ip then ipv4 else family_unknown;
  has_ipv4_form = λ t. str_eq t global_ip;
  ip_equal = str_eq;
}

abbrev stores : MustUpdate EndpointSpec
stores mutate existing = (some (mutate existing), mutate existing)

-- 242.0.0.0/8, and the address 242.0.0.1.
abbrev global_net : Net
global_net = record { prefix = 242; ones = 8; bits = 32 }

abbrev gateway_spec : EndpointSpec
gateway_spec = record {
  cluster_id = "east";
  cable_name = "submariner-cable-east-1";
  health_check_ip = "";
  health_check_ips = [];
  hostname = "gw";
  subnets = [];
  private_ip = "";
  private_ips = [];
  public_ip = "";
  public_ips = [];
  nat_enabled = false;
  backend = "libreswan";
  backend_config = [];
}

abbrev stored_endpoint : Local
stored_endpoint = record { spec = gateway_spec; created = true }

global_ip_inside : contains global_net 32 4060086273 ≡ true
unfolding contains
global_ip_inside = refl

handle_create_or_update_gateway-Settled_example :
    (r : Bool × Local × EndpointSpec) × (handle_create_or_update_gateway known stores
        (λ _. some global_net)
        (λ _. some (32, 4060086273))
        ("242.0.0.0/8" ∷ [])
        global_ip
        stored_endpoint
        gateway_spec
      ≡ some r)
    × Settled known stores global_ip stored_endpoint gateway_spec r
unfolding str_eq
handle_create_or_update_gateway-Settled_example =
    handle_create_or_update_gateway-Settled known stores (λ mutate d spec e. (d, cc e)) global_ip
      (λ e. cc e) refl (λ _. some global_net) (λ _. some (32, 4060086273)) "242.0.0.0/8" []
      global_net 32 4060086273 stored_endpoint gateway_spec refl refl global_ip_inside

-- Both: the IP in the local endpoint, and in the datastore.
updated :
    handle_create_or_update_gateway known stores
      (λ _. some global_net)
      (λ _. some (32, 4060086273))
      ("242.0.0.0/8" ∷ [])
      global_ip
      stored_endpoint
      gateway_spec
    ≡ some (
      false,
      record stored_endpoint {
        spec = record gateway_spec {
          health_check_ip = global_ip;
          health_check_ips = global_ip ∷ [];
        };
      },
      record gateway_spec { health_check_ip = global_ip; health_check_ips = global_ip ∷ [] },
    )
unfolding handle_create_or_update_gateway update_local_endpoint_if_necessary update contains
    get_health_check_ip set_health_check_ip get_ip_from set_ip put_ip str_eq
updated = refl
