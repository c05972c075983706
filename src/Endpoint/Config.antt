-- ===== src/Endpoint/Config.antt =====
-- The backend configuration of an endpoint: `parsePort`, `GetBackendPort`, `GetBackendBool`
-- (pkg/apis/submariner.io/v1/endpoint.go).
use submariner.Base.{
  ℕ, ◌≤◌, String, ◌≡◌, ◌≢◌, ◌⊎◌, inl, inr, Option, none, some, arith, str_eq, str_eq_iff,
  Bool-cases, Option-cases,
}
use submariner.Endpoint.{
  EndpointSpec, ConfigError, bad_port, parse_port, config_text, get_backend_port,
}

pub parse_port_bounds :
    (text : String) (port : ℕ) → parse_port text ≡ some port → (1 ≤ port) × (port ≤ 65535)
unfolding parse_port
parse_port_bounds text port h = ground arith

-- What `GetBackendPort` may answer for an entry with this text.
abbrev pub PortAnswer : String → ℕ → ℕ × Option ConfigError → Type 0
PortAnswer text default answer =
    ((text ≡ "") × (answer ≡ (default, none)))
    ⊎ ((port : ℕ) × (parse_port text ≡ some port)
        × (1 ≤ port)
        × (port ≤ 65535)
        × (answer ≡ (port, none)))
    ⊎ ((text ≢ "") × (parse_port text ≡ none) × (answer ≡ (default, some bad_port)))

-- `GetBackendPort` answers the default without an error for an entry that is missing or empty, a
-- port from 1 to 65535 without an error for one that parses, and the default with an error for the
-- rest.
pub get_backend_port_bounds :
    (ep : EndpointSpec) (name : String) (default : ℕ)
    → PortAnswer (config_text ep name) default (get_backend_port ep name default)
unfolding get_backend_port
get_backend_port_bounds ep name default = elim (Bool-cases (str_eq (config_text ep name) "")) [
  | inl e ↦ inl ((str_eq_iff _ _).0 e, rw e)
  | inr set ↦ elim (Option-cases (parse_port (config_text ep name))) [
    | inl bad ↦
        inr (inr (λ e. cc (set, (str_eq_iff (config_text ep name) "").1 e), bad, rw (set, bad)))
    | inr (port, good) ↦ inr (
        inl (
          port,
          good,
          (parse_port_bounds _ port good).0,
          (parse_port_bounds _ port good).1,
          rw (set, good),
        ))
  ]
]
