-- ===== src/Datastore/Gateway.antt =====
-- pkg/controllers/datastoresyncer/gateway_handler.go: the global IP of the gateway node becomes the
-- health-check IP of the local endpoint; and the update of that endpoint in
-- pkg/endpoint/local_endpoint.go. The datastore has states in `D`; the update of an object there, of the
-- admiral library, is a parameter, as are the parsers of Go's `net`.
mod Tests
use submariner.Base.{
  ℕ, String, ◌≡◌, ◌≢◌, refl, ap, ◌∙◌, inl, inr, ◌⊎◌, Bool, true, false, not, Option, none, some,
  List, [], ◌∷◌, arith, str_eq, str_eq_iff, if◌then◌else◌, Bool-cases,
}
use submariner.Cidr.{Net, contains}
use submariner.Endpoint.{ipv4, NetLib, EndpointSpec, get_health_check_ip, set_health_check_ip}
use submariner.Endpoint.Ips.{get_ip_from-set_ip}

-- `Local`: the spec as it was last seen, and whether the object was created.
pub record Local : Type 0 where
  pub spec : EndpointSpec
  pub created : Bool

-- `util.MustUpdate` of the object: the spec that was stored, or none for an error.
abbrev pub MustUpdate : Type 0 → Type 0
MustUpdate D = (EndpointSpec → EndpointSpec) → D → Option EndpointSpec × D

-- After `MustUpdate`.
abbrev pub keep_spec : {D : Type 0} → Local → Option EndpointSpec × D → Bool × Local × D
keep_spec l (none, d) = (false, l, d)
keep_spec l (some spec, d) = (true, record l { spec = spec }, d)

-- `Local.Update`; a result of `true` is a nil error.
unfoldable pub update :
    {D : Type 0} → MustUpdate D → (EndpointSpec → EndpointSpec) → Local → D → Bool × Local × D
update must_update mutate l d =
    if l.created
    then keep_spec l (must_update mutate d)
    else (true, record l { spec = mutate l.spec }, d)

-- Whether to queue the event again, for an error.
abbrev pub requeue_error : {D : Type 0} → Bool × Local × D → Bool × Local × D
requeue_error (ok, l, d) = (not ok, l, d)

module _ {D : Type 0} (net : NetLib) (must_update : MustUpdate D) where
  unfoldable pub update_local_endpoint_if_necessary : String → Local → D → Bool × Local × D
  update_local_endpoint_if_necessary global_ip l d =
      if str_eq (get_health_check_ip net l.spec ipv4) global_ip
      then (false, l, d)
      else requeue_error
          (update must_update (λ existing. set_health_check_ip net existing global_ip) l d)

  -- `ipnet.Contains(net.ParseIP(globalIP))`: a text that is no IP is in no net.
  abbrev pub contains_ip : Net → Option (ℕ × ℕ) → Bool
  contains_ip n none = false
  contains_ip n (some (bits, address)) = contains n bits address

  abbrev pub in_global_cidr : Option Net → Option (ℕ × ℕ) → Bool
  in_global_cidr none ip = false
  in_global_cidr (some n) ip = contains_ip n ip

  -- The annotation is empty where there is none. Without a global CIDR the index is out of range, and the
  -- code panics; the watcher is started only where there is one.
  unfoldable pub handle_create_or_update_gateway :
      (String → Option Net)
      → (String → Option (ℕ × ℕ))
      → List String
      → String
      → Local
      → D
      → Option (Bool × Local × D)
  handle_create_or_update_gateway parse_cidr parse_ip global_cidr global_ip l d =
      if str_eq global_ip "" then some (false, l, d) else elim global_cidr [
        | [] ↦ none
        | c ∷ rest ↦ some (
            if in_global_cidr (parse_cidr c) (parse_ip global_ip)
            then update_local_endpoint_if_necessary global_ip l d
            else (false, l, d))
      ]

-- `areGatewaysEquivalent`, of the annotations of both objects.
abbrev pub are_gateways_equivalent : String → String → Bool
are_gateways_equivalent existing_global_ip new_global_ip = str_eq existing_global_ip new_global_ip

-- The change that the handler asks for.
abbrev pub set_to : NetLib → String → EndpointSpec → EndpointSpec
set_to net ip existing = set_health_check_ip net existing ip

-- How the handler leaves the local endpoint `l` and the datastore `d`: the endpoint was created and its
-- update in the datastore answers an error, and the event is to be tried again, with the local endpoint as
-- it was; or the local endpoint has `ip`, where an endpoint that was created had it before, with the
-- datastore left alone, or was updated without an error.
abbrev pub Settled :
    {D : Type 0} → NetLib → MustUpdate D → String → Local → D → Bool × Local × D → Type 0
Settled net must_update ip l d (again, l', d') =
    ((again ≡ true) × (l' ≡ l) × (l.created ≡ true) × (must_update (set_to net ip) d ≡ (none, d')))
    ⊎ ((again ≡ false)
        × (get_health_check_ip net l'.spec ipv4 ≡ ip)
        × (((l' ≡ l) × (d' ≡ d))
            ⊎ ((l.created ≡ false) × (d' ≡ d))
            ⊎ ((l.created ≡ true) × (must_update (set_to net ip) d ≡ (some l'.spec, d')))))

get-set_health_check_ip :
    (net : NetLib) (spec : EndpointSpec) (ip : String)
    → ip ≢ ""
    → net.family_of ip ≡ ipv4
    → get_health_check_ip net (set_health_check_ip net spec ip) ipv4 ≡ ip
unfolding get_health_check_ip set_health_check_ip
get-set_health_check_ip net spec ip given family =
    get_ip_from-set_ip net spec.health_check_ips spec.health_check_ip ip ipv4 given
      (λ e. cc (family, e))
    ∙ rw family refl

module _ {D : Type 0} (net : NetLib) (must_update : MustUpdate D)
    -- The documented behaviour of `MustUpdate`: what is stored is an object that was there, changed.
    (changes : (mutate : EndpointSpec → EndpointSpec) (d : D) (spec : EndpointSpec)
      → (must_update mutate d).0 ≡ some spec
      → (existing : EndpointSpec) × spec ≡ mutate existing)
    (ip : String) (given : ip ≢ "") (family : net.family_of ip ≡ ipv4) where
  keep_spec-Settled :
      (l : Local) (d : D) (r : Option EndpointSpec × D)
      → l.created ≡ true
      → must_update (set_to net ip) d ≡ r
      → Settled net must_update ip l d (requeue_error (keep_spec l r))
  keep_spec-Settled l d (none, d') created e = inl (refl, refl, created, e)
  keep_spec-Settled l d (some spec, d') created e =
      let (existing, changed) = changes (set_to net ip) d spec (ap (λ r. r.0) e) in
      inr (
        refl,
        ap (λ s. get_health_check_ip net s ipv4) changed
            ∙ get-set_health_check_ip net existing ip given family,
        inr (inr (created, e)),
      )

  update-Settled :
      (spec : EndpointSpec) (created : Bool) (d : D)
      → let l : Local = record { spec = spec; created = created } in
        Settled net must_update ip l d (requeue_error (update must_update (set_to net ip) l d))
  unfolding update
  update-Settled spec true d = keep_spec-Settled _ d _ refl refl
  update-Settled spec false d =
      inr (refl, get-set_health_check_ip net spec ip given family, inr (inl (refl, refl)))

  update_local-Settled :
      (l : Local) (d : D)
      → Settled net must_update ip l d (update_local_endpoint_if_necessary net must_update ip l d)
  unfolding update_local_endpoint_if_necessary
  update_local-Settled l d = elim (Bool-cases (str_eq (get_health_check_ip net l.spec ipv4) ip)) [
    | inl same ↦ rw same (inr (refl, (str_eq_iff _ _).0 same, inl (refl, refl)))
    | inr other ↦ rw other (update-Settled l.spec l.created d)
  ]

  some_text : str_eq ip "" ≡ false
  some_text = ground (arith, str_eq_iff ip "")

  -- For a global IP that is an IPv4 text and lies in the first global CIDR, the handler answers.
  -- Either the local endpoint was created and its update in the datastore answers an error, and then
  -- the event is tried again and the local endpoint is as it was; or the local endpoint has that IP as
  -- its IPv4 health-check IP, and the event is done: an endpoint that was created had it already, with
  -- the datastore left alone, or was updated in the datastore without an error to what the local
  -- endpoint is now. This holds wherever an update of the datastore that succeeds stores an object
  -- that was there, changed as asked.
  pub handle_create_or_update_gateway-Settled :
      (parse_cidr : String → Option Net) (parse_ip : String → Option (ℕ × ℕ)) (c : String)
      (rest : List String) (n : Net) (bits address : ℕ) (l : Local) (d : D)
      → parse_cidr c ≡ some n
      → parse_ip ip ≡ some (bits, address)
      → contains n bits address ≡ true
      → (r : Bool × Local × D) × (handle_create_or_update_gateway net must_update parse_cidr
            parse_ip
            (c ∷ rest)
            ip
            l
            d
          ≡ some r)
        × Settled net must_update ip l d r
  unfolding handle_create_or_update_gateway
  handle_create_or_update_gateway-Settled parse_cidr parse_ip c rest n bits address l d cidr parsed
        inside =
      (
        update_local_endpoint_if_necessary net must_update ip l d,
        rw (some_text, cidr, parsed, inside) refl,
        update_local-Settled l d,
      )
