-- ===== src/Endpoint.antt =====
-- The Endpoint API: pkg/apis/submariner.io/v1/types.go (the Endpoint types) and endpoint.go.
-- A slice is a list and a map an association list; a nil slice or map is an empty one. A setter,
-- which writes through its receiver, returns the new spec. Of `metav1.ObjectMeta` the model has the
-- name, the UID and the creation time, of which 0 is the zero time.
pub mod Ips
pub mod CableNames
pub mod Config
pub mod Equality
mod Tests
use Prim.Native.Char.{code}
use Prim.Native.String.{◌++◌ as text_append}
use submariner.Base.{
  ℕ, ◌+◌, ◌-◌, ◌*◌, ◌^◌, String, Bool, true, false, ◌&&◌, ◌||◌, Option, none, some, List, [], ◌∷◌,
  Dict, lookup, map_equal, ltb, leb, str_eq, if◌then◌else◌,
}

-- `IPFamily` of k8s.io/utils/net, whose values are the texts "", "4" and "6".
pub data IpFamily : Type 0 where
  family_unknown ipv4 ipv6 : IpFamily

abbrev pub family_text : IpFamily → String
family_text family_unknown = ""
family_text ipv4 = "4"
family_text ipv6 = "6"

abbrev pub family_eq : IpFamily → IpFamily → Bool
family_eq family_unknown family_unknown = true
family_eq ipv4 ipv4 = true
family_eq ipv6 ipv6 = true
family_eq _ _ = false

-- The functions of k8s.io/utils/net and of Go's `net` on the text of an IP address.
pub record NetLib : Type 0 where
  pub family_of : String → IpFamily
  -- `ip.To4() != nil`
  pub has_ipv4_form : String → Bool
  -- `addr.IP.Equal(net.ParseIP(text))`, for the address that the first text writes
  pub ip_equal : String → String → Bool

pub record EndpointSpec : Type 0 where
  pub cluster_id : String
  pub cable_name : String
  pub health_check_ip : String
  pub health_check_ips : List String
  pub hostname : String
  pub subnets : List String
  pub private_ip : String
  pub private_ips : List String
  pub public_ip : String
  pub public_ips : List String
  pub nat_enabled : Bool
  pub backend : String
  pub backend_config : Dict String

pub record Endpoint : Type 0 where
  pub name : String
  pub uid : String
  pub created : ℕ
  pub spec : EndpointSpec

abbrev pub natt_discovery_port_config : String
natt_discovery_port_config = "natt-discovery-port"

abbrev pub using_loadbalancer_config : String
using_loadbalancer_config = "using-loadbalancer"

abbrev pub preferred_server_config : String
preferred_server_config = "preferred-server"

pub data ConfigError : Type 0 where
  bad_port bad_bool empty_cluster_id empty_cable_name : ConfigError

-- The decimal digits of a text, on top of the value of those before.
digits : ℕ → String → Option ℕ
digits n String.[] = some n
digits n (String.◌∷◌ c rest) =
    let more = digits (n * 10 + (code c - 48)) rest in
    if leb 48 (code c) && leb (code c) 57 then more else none

-- `strconv.ParseUint(text, 10, bits)`
parse_uint : ℕ → String → Option ℕ
unfolding digits
parse_uint bits text =
    if str_eq text ""
    then none
    else elim (digits 0 text) [ none ↦ none | some n ↦ if ltb n (2 ^ bits) then some n else none ]

-- `strconv.ParseBool`
unfoldable pub parse_bool : String → Option Bool
parse_bool t =
    if str_eq t "1"
      || str_eq t "t"
      || str_eq t "T"
      || str_eq t "TRUE"
      || str_eq t "true"
      || str_eq t "True"
    then some true
    else if str_eq t "0"
        || str_eq t "f"
        || str_eq t "F"
        || str_eq t "FALSE"
        || str_eq t "false"
        || str_eq t "False"
    then some false
    else none

-- The -1 that Go returns beside an error is read by no caller.
unfoldable pub parse_port : String → Option ℕ
unfolding parse_uint
parse_port text = elim (parse_uint 16 text) [
  | none ↦ none
  | some n ↦ if ltb n 1 then none else some n
]

abbrev pub text_or_empty : Option String → String
text_or_empty none = ""
text_or_empty (some text) = text

-- `ep.BackendConfig[name]`, which is "" for a missing key.
abbrev pub config_text : EndpointSpec → String → String
config_text ep name = text_or_empty (lookup name ep.backend_config)

unfoldable pub get_backend_port : EndpointSpec → String → ℕ → ℕ × Option ConfigError
get_backend_port ep name default =
    if str_eq (config_text ep name) ""
    then (default, none)
    else elim (parse_port (config_text ep name)) [
      | none ↦ (default, some bad_port)
      | some port ↦ (port, none)
    ]

unfoldable pub get_backend_bool : EndpointSpec → String → Bool → Bool × Option ConfigError
get_backend_bool ep name default =
    if str_eq (config_text ep name) ""
    then (default, none)
    else elim (parse_bool (config_text ep name)) [
      | none ↦ (default, some bad_bool)
      | some value ↦ (value, none)
    ]

unfoldable pub get_family_cable_name : EndpointSpec → IpFamily → String
get_family_cable_name ep family = text_append (text_append ep.cable_name "-v") (family_text family)

unfoldable pub has_same_backend_config :
    (Dict String → Dict String → Bool) → EndpointSpec → EndpointSpec → Bool
has_same_backend_config semantic_equal ep other =
    if str_eq (config_text ep using_loadbalancer_config) "true"
      && str_eq (config_text other using_loadbalancer_config) "true"
    then true
    else semantic_equal ep.backend_config other.backend_config

-- The receiver and the argument are pointers, which may be nil. The first argument stands for
-- `equality.Semantic.DeepEqual` of k8s.io/apimachinery on two maps of texts.
unfoldable pub equals :
    (Dict String → Dict String → Bool) → Option EndpointSpec → Option EndpointSpec → Bool
unfolding has_same_backend_config
equals semantic_equal none none = true
equals semantic_equal none (some other) = false
equals semantic_equal (some ep) none = false
equals semantic_equal (some ep) (some other) =
    str_eq ep.cluster_id other.cluster_id
    && str_eq ep.cable_name other.cable_name
    && str_eq ep.hostname other.hostname
    && str_eq ep.backend other.backend
    && has_same_backend_config semantic_equal ep other

abbrev pub texts_equal : List String → List String → Bool
texts_equal [] [] = true
texts_equal (s ∷ ss) (t ∷ ts) = str_eq s t && texts_equal ss ts
texts_equal _ _ = false

abbrev pub bools_equal : Bool → Bool → Bool
bools_equal true b = b
bools_equal false true = false
bools_equal false false = true

-- `reflect.DeepEqual` of two specs: every field.
unfoldable pub spec_deep_equal : EndpointSpec → EndpointSpec → Bool
spec_deep_equal a b =
    str_eq a.cluster_id b.cluster_id
    && str_eq a.cable_name b.cable_name
    && str_eq a.health_check_ip b.health_check_ip
    && texts_equal a.health_check_ips b.health_check_ips
    && str_eq a.hostname b.hostname
    && texts_equal a.subnets b.subnets
    && str_eq a.private_ip b.private_ip
    && texts_equal a.private_ips b.private_ips
    && str_eq a.public_ip b.public_ip
    && texts_equal a.public_ips b.public_ips
    && bools_equal a.nat_enabled b.nat_enabled
    && str_eq a.backend b.backend
    && map_equal a.backend_config b.backend_config

module _ (net : NetLib) where
  unfoldable pub get_ip_from : IpFamily → List String → String → String
  get_ip_from family [] ipv4_fallback = if family_eq family ipv4 then ipv4_fallback else ""
  get_ip_from family (ip ∷ ips) ipv4_fallback =
      if family_eq (net.family_of ip) family then ip else get_ip_from family ips ipv4_fallback

  -- The loop of `setIP`: the first entry of the family is overwritten; with none, one is appended.
  unfoldable pub put_ip : IpFamily → List String → String → List String
  put_ip family [] new_ip = new_ip ∷ []
  put_ip family (ip ∷ ips) new_ip =
      if family_eq (net.family_of ip) family then new_ip ∷ ips else ip ∷ put_ip family ips new_ip

  unfoldable pub set_ip : List String → String → String → List String × String
  set_ip ips ipv4_fallback new_ip =
      let family = net.family_of new_ip in
      if str_eq new_ip "" || family_eq family family_unknown
      then (ips, ipv4_fallback)
      else (put_ip family ips new_ip, if family_eq family ipv4 then new_ip else ipv4_fallback)

  unfoldable pub get_health_check_ip : EndpointSpec → IpFamily → String
  get_health_check_ip ep family = get_ip_from family ep.health_check_ips ep.health_check_ip

  unfoldable pub set_health_check_ip : EndpointSpec → String → EndpointSpec
  set_health_check_ip ep ip =
      let (ips, fallback) = set_ip ep.health_check_ips ep.health_check_ip ip in
      record ep { health_check_ips = ips; health_check_ip = fallback }

  unfoldable pub get_public_ip : EndpointSpec → IpFamily → String
  get_public_ip ep family = get_ip_from family ep.public_ips ep.public_ip

  unfoldable pub set_public_ip : EndpointSpec → String → EndpointSpec
  set_public_ip ep ip =
      let (ips, fallback) = set_ip ep.public_ips ep.public_ip ip in
      record ep { public_ips = ips; public_ip = fallback }

  unfoldable pub get_private_ip : EndpointSpec → IpFamily → String
  get_private_ip ep family = get_ip_from family ep.private_ips ep.private_ip

  unfoldable pub set_private_ip : EndpointSpec → String → EndpointSpec
  set_private_ip ep ip =
      let (ips, fallback) = set_ip ep.private_ips ep.private_ip ip in
      record ep { private_ips = ips; private_ip = fallback }

  -- The text that `GatewayIP` hands to `net.ParseIP`.
  unfoldable pub gateway_ip : EndpointSpec → IpFamily → String
  gateway_ip ep family =
      let public = get_public_ip ep family in
      if str_eq public "" then get_private_ip ep family else public
