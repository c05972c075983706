-- ===== src/Pinger/Controller.antt =====
-- pkg/pinger/controller.go: the pingers of the remote endpoints. `NewPinger` of the configuration
-- is a parameter only in that each pinger is an object of its own, with a number; the model has the
-- numbers of those that were started and not stopped.
pub mod Running
pub mod Followed
use submariner.Base.{
  ℕ, ◌+◌, ◌*◌, ◌%◌, ◌^◌, String, Bool, true, false, not, Option, none, some, List, [], ◌∷◌, ◌++◌,
  Dict, lookup, insert, erase, keep, str_eq, ◌==◌, if◌then◌else◌,
}
use submariner.Pinger.{Config}
use submariner.Endpoint.{IpFamily, EndpointSpec, NetLib, get_health_check_ip, get_family_cable_name}

pub record Pinger : Type 0 where
  pub id : ℕ
  pub config : Config

pub record Controller : Type 0 where
  pub supported_ip_families : List IpFamily
  pub ping_interval : ℕ
  pub max_packet_loss_count : ℕ
  pub pingers : Dict Pinger
  pub next_id : ℕ
  pub running : List ℕ

-- `NewController`, which panics without families.
unfoldable pub new_controller : List IpFamily → ℕ → ℕ → Option Controller
new_controller [] ping_interval max_packet_loss_count = none
new_controller (f ∷ families) ping_interval max_packet_loss_count = some record {
  supported_ip_families = f ∷ families;
  ping_interval = ping_interval;
  max_packet_loss_count = max_packet_loss_count;
  pingers = [];
  next_id = 0;
  running = [];
}

-- `Stop` of a pinger.
abbrev pub stop_pinger : Pinger → List ℕ → List ℕ
stop_pinger p = keep (λ i. not (i == p.id))

abbrev pub pinger_config : Controller → String → Config
pinger_config c health_check_ip = record {
  ip = health_check_ip;
  interval = if c.ping_interval == 0 then 0 else 1000000000 * c.ping_interval % 2 ^ 64;
  timeout = 0;
  max_packet_loss_count = c.max_packet_loss_count;
}

-- The second half of `startPinger`.
abbrev pub launch : String → String → Controller → Controller
launch name health_check_ip c = record c {
  pingers =
      insert name (record { id = c.next_id; config = pinger_config c health_check_ip }) c.pingers;
  next_id = c.next_id + 1;
  running = c.running ++ c.next_id ∷ [];
}

-- `Stop`, and `delete` of the entry.
abbrev pub drop_pinger : String → Pinger → Controller → Controller
drop_pinger name p c = record c {
  pingers = erase name c.pingers;
  running = stop_pinger p c.running;
}

abbrev pub start_unless_same : String → String → Controller → Option Pinger → Controller
start_unless_same name health_check_ip c none = launch name health_check_ip c
start_unless_same name health_check_ip c (some p) =
    if str_eq p.config.ip health_check_ip
    then c
    else launch name health_check_ip (drop_pinger name p c)

unfoldable pub start_pinger : String → String → Controller → Controller
start_pinger name health_check_ip c =
    start_unless_same name health_check_ip c (lookup name c.pingers)

abbrev pub stop_if_found : String → Controller → Option Pinger → Controller
stop_if_found name c none = c
stop_if_found name c (some p) = drop_pinger name p c

-- `Stop` of every pinger of the map.
abbrev pub stop_each : Dict Pinger → List ℕ → List ℕ
stop_each [] running = running
stop_each ((name, p) ∷ pingers) running = stop_each pingers (stop_pinger p running)

unfoldable pub stop : Controller → Controller
stop c = record c { pingers = []; running = stop_each c.pingers c.running }

module _ (net : NetLib) where
  -- The loops over the supported families.
  unfoldable pub start_each : EndpointSpec → List IpFamily → Controller → Controller
  start_each spec [] c = c
  start_each spec (family ∷ families) c =
      if str_eq (get_health_check_ip net spec family) ""
      then start_each spec families c
      else start_each spec families
          (start_pinger (get_family_cable_name spec family) (get_health_check_ip net spec family) c)

  abbrev pub endpoint_created_or_updated : EndpointSpec → Controller → Controller
  endpoint_created_or_updated spec c = start_each spec c.supported_ip_families c

unfoldable pub stop_families : EndpointSpec → List IpFamily → Controller → Controller
stop_families spec [] c = c
stop_families spec (family ∷ families) c = stop_families spec families (
    stop_if_found (get_family_cable_name spec family) c
      (lookup (get_family_cable_name spec family) c.pingers))

abbrev pub endpoint_removed : EndpointSpec → Controller → Controller
endpoint_removed spec c = stop_families spec c.supported_ip_families c

abbrev pub get : EndpointSpec → IpFamily → Controller → Option Pinger
get spec family c = lookup (get_family_cable_name spec family) c.pingers
