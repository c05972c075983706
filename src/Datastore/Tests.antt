-- ===== src/Datastore/Tests.antt =====
-- The theorems on the datastore syncer for a cluster with two remote ones.
use mathlib.Core.Option.{some_inj}
use submariner.Base.{
  ℕ, String, ◌≡◌, ◌≢◌, ◌↔◌, inl, inr, refl, subst, Bool, true, false, Dict, Option, none, some,
  List, [], ◌∷◌, All, lookup, arith, str_eq, if◌then◌else◌,
}
use submariner.Endpoint.{EndpointSpec, Endpoint, equals}
use submariner.Cidr.{Net, is_contained, is_overlapping, any_net, contains, first_address}
use submariner.Cidr.Addresses.{IsNet}
use submariner.Datastore.{
  Cluster, Resources, op_create, op_delete, find_cluster, overlaps_local, contained_each,
  apart_each, apart_from, validate_remote_endpoint_subnets, should_sync_remote_endpoint,
}
use submariner.Datastore.Accepted.{Disjoint, Declared, Apart, should_sync-Declared}
use submariner.Datastore.Separation.{
  remote_synced, Steps, stays, then_step, stored, Separated, Steps-Separated,
}
use submariner.Datastore.Deletion.{
  Item, Federators, deleted, cleanup_each, ensure_exclusive_endpoint, Deletes, without_name,
  without_items, of_cluster, cleanup_each-without_items,
}
use submariner.Datastore.Exclusive.{Holds, IsKept, ensure_exclusive_endpoint-Holds}

abbrev ipv4_net : ℕ → ℕ → Net
ipv4_net prefix ones = record { prefix = prefix; ones = ones; bits = 32 }

-- The texts of four CIDRs are known here.
unfoldable parse_known : String → Option Net
parse_known s =
    if str_eq s "10.0.0.0/8"
    then some (ipv4_net 10 8)
    else if str_eq s "10.1.0.0/16"
    then some (ipv4_net 2561 16)
    else if str_eq s "10.2.0.0/16"
    then some (ipv4_net 2562 16)
    else if str_eq s "192.168.0.0/16"
    then some (ipv4_net 49320 16)
    else none

mask_if :
    (b : Bool) (x n : Net) (other : Option Net)
    → IsNet x
    → (other ≡ some n → IsNet n)
    → (if b then some x else other) ≡ some n
    → IsNet n
mask_if true x n other h k e = subst IsNet (some_inj.0 e) h
mask_if false x n other h k e = k e

parse_known-IsNet : (c : String) (n : Net) → parse_known c ≡ some n → IsNet n
unfolding parse_known
parse_known-IsNet c n e =
    mask_if (str_eq c "10.0.0.0/8") (ipv4_net 10 8) n _ (omega arith)
      (mask_if (str_eq c "10.1.0.0/16") (ipv4_net 2561 16) n _ (omega arith) (
        mask_if (str_eq c "10.2.0.0/16") (ipv4_net 2562 16) n _ (omega arith) (
          mask_if (str_eq c "192.168.0.0/16") (ipv4_net 49320 16) n _ (omega arith) (λ e'. cc e'))))
      e

abbrev spec_of : String → List String → EndpointSpec
spec_of id subnets = record {
  cluster_id = id;
  cable_name = id;
  health_check_ip = "";
  health_check_ips = [];
  hostname = "gw";
  subnets = subnets;
  private_ip = "";
  private_ips = [];
  public_ip = "";
  public_ips = [];
  nat_enabled = false;
  backend = "libreswan";
  backend_config = [];
}

abbrev named : String → EndpointSpec → Endpoint
named name spec = record { name = name; uid = ""; created = 0; spec = spec }

abbrev here : EndpointSpec
here = spec_of "here" ("192.168.0.0/16" ∷ [])

abbrev east : Endpoint
east = named "east-gw" (spec_of "east" ("10.1.0.0/16" ∷ []))

abbrev west : Endpoint
west = named "west-gw" (spec_of "west" ("10.2.0.0/16" ∷ []))

abbrev declares : String → List String → Cluster
declares id cidrs = record {
  name = id;
  spec = record {
    cluster_id = id;
    color_codes = [];
    service_cidr = [];
    cluster_cidr = cidrs;
    global_cidr = [];
  };
}

abbrev with_west : Resources
with_west = record {
  clusters = declares "west" [] ∷ declares "east" ("10.0.0.0/8" ∷ []) ∷ [];
  endpoints = west ∷ [];
}

created : op_create ≢ op_delete
created e = cc e

east_synced :
    should_sync_remote_endpoint parse_known here "here" (some with_west) op_create east
    ≡ (some east, false)
unfolding should_sync_remote_endpoint validate_remote_endpoint_subnets overlaps_local contained_each
    apart_each apart_from find_cluster is_contained is_overlapping any_net contains first_address
    parse_known str_eq
east_synced = refl

should_sync-Declared_example :
    (east ≡ east)
    × All (λ s. All (Disjoint parse_known s) ("10.1.0.0/16" ∷ [])) ("192.168.0.0/16" ∷ [])
    × Declared parse_known east.spec with_west
    × All (λ f. Apart parse_known "here" east.spec f.spec) (west ∷ [])
should_sync-Declared_example =
    should_sync-Declared parse_known parse_known-IsNet "here" here with_west op_create east east
      false created east_synced

-- An endpoint whose subnet another cluster has is not synced.
taken :
    should_sync_remote_endpoint parse_known here "here"
      (some with_west)
      op_create
      (named "rogue" (spec_of "east" ("10.2.0.0/16" ∷ [])))
    ≡ (none, false)
unfolding should_sync_remote_endpoint validate_remote_endpoint_subnets overlaps_local contained_each
    apart_each apart_from find_cluster is_contained is_overlapping any_net contains first_address
    parse_known str_eq
taken = refl

west_alone : Separated parse_known here "here" (west ∷ [])
west_alone = ((inl refl, tt), tt)

east-stored : Steps parse_known here "here" with_west (stored east with_west)
east-stored = then_step stays (remote_synced op_create east false created east_synced)

Steps-Separated_example : Separated parse_known here "here" (stored east with_west).endpoints
Steps-Separated_example =
    Steps-Separated parse_known here "here" parse_known-IsNet east-stored west_alone

-- Datastores that are the names in them.
abbrev in_memory : Federators (List String × List String)
in_memory = record {
  delete_local = λ name d. (deleted, (without_name name d.0, d.1));
  delete_broker = λ name d. (deleted, (d.0, without_name name d.1));
}

abbrev local_names : List String × List String → List String
local_names d = d.0

abbrev broker_names : List String × List String → List String
broker_names d = d.1

in_memory-Deletes : Deletes in_memory local_names broker_names
in_memory-Deletes = record {
  local_deleted = λ name d. inr refl;
  local_only = λ name d. refl;
  broker_deleted = λ name d. inr refl;
  broker_only = λ name d. refl;
}

abbrev items : List Item
items =
    record { name = "here-gw"; cluster_id = "here" }
    ∷ record { name = "east-gw"; cluster_id = "east" }
    ∷ []

abbrev names : List String
names = "here-gw" ∷ "east-gw" ∷ "west-gw" ∷ []

cleanup_each-without_items_example :
    ((cleanup_each in_memory "here" items (names, names)).1.0 ≡ without_items items names)
    × ((cleanup_each in_memory "here" items (names, names)).1.1
        ≡ without_items (of_cluster "here" items) names)
unfolding cleanup_each str_eq
cleanup_each-without_items_example =
    cleanup_each-without_items in_memory "here" local_names broker_names in_memory-Deletes items
      (names, names) refl

no_config : Dict String → Dict String → Bool
no_config a b = true

abbrev listed : List Endpoint
listed = named "here-gw" (record (spec_of "here" []) { cable_name = "old" }) ∷ east ∷ []

ensure_exclusive_endpoint-Holds_example :
    let left =
      (ensure_exclusive_endpoint in_memory "here" no_config here listed (names, names)).1 in
    ((name : String)
      → Holds name (local_names left)
        ↔ (Holds name names × All (IsKept "here" no_config here name) listed))
    × (broker_names left ≡ names)
unfolding ensure_exclusive_endpoint equals str_eq no_config lookup
ensure_exclusive_endpoint-Holds_example =
    ensure_exclusive_endpoint-Holds in_memory "here" local_names broker_names in_memory-Deletes
      no_config here listed (names, names) refl

-- The other gateway of the cluster goes; that of another cluster stays.
one_deleted :
    ensure_exclusive_endpoint in_memory "here" no_config here listed (names, names)
    ≡ (true, ("east-gw" ∷ "west-gw" ∷ [], names))
unfolding ensure_exclusive_endpoint equals str_eq no_config lookup
one_deleted = refl
