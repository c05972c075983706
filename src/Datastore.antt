-- ===== src/Datastore.antt =====
-- pkg/controllers/datastoresyncer/datastoresyncer.go: which Endpoints of the broker are synced to
-- the local cluster, and which resources are deleted. The broker syncer of the admiral library is a
-- parameter: the resources that it lists, and its federators. Go's `net.ParseCIDR` is `parse`.
pub mod Accepted
pub mod Separation
pub mod Deletion
pub mod Exclusive
pub mod Gateway
mod Tests
use submariner.Base.{
  String, Bool, true, false, ◌&&◌, ◌||◌, Option, none, some, List, [], ◌∷◌, ◌++◌, str_eq,
  if◌then◌else◌,
}
use submariner.Cidr.{Net, is_contained, is_overlapping}
use submariner.Endpoint.{EndpointSpec, Endpoint}

pub record ClusterSpec : Type 0 where
  pub cluster_id : String
  pub color_codes : List String
  pub service_cidr : List String
  pub cluster_cidr : List String
  pub global_cidr : List String

pub record Cluster : Type 0 where
  pub name : String
  pub spec : ClusterSpec

-- `ListLocalResources` of either type.
pub record Resources : Type 0 where
  pub clusters : List Cluster
  pub endpoints : List Endpoint

pub data Operation : Type 0 where
  op_create op_update op_delete : Operation

-- The first Cluster with the ID.
unfoldable pub find_cluster : String → List Cluster → Option Cluster
find_cluster id [] = none
find_cluster id (c ∷ rest) =
    let later = find_cluster id rest in if str_eq c.spec.cluster_id id then some c else later

abbrev pub allowed : Cluster → List String
allowed c = c.spec.service_cidr ++ c.spec.cluster_cidr ++ c.spec.global_cidr

-- What follows one subnet: an error and an overlap end the loop.
abbrev pub go_on : Option Bool → Option Bool → Option Bool
go_on (some false) later = later
go_on (some true) later = some true
go_on none later = none

abbrev pub if_contained : Option Bool → Bool → Bool
if_contained (some true) later = later
if_contained (some false) later = false
if_contained none later = false

abbrev pub if_apart : Option Bool → Bool → Bool
if_apart (some false) later = later
if_apart (some true) later = false
if_apart none later = false

-- Without subnets there is nothing to validate.
abbrev pub with_subnets : List String → Bool × Bool → Bool × Bool
with_subnets [] verdict = (false, false)
with_subnets (s ∷ rest) verdict = verdict

module _ (parse : String → Option Net) where
  -- The loop over the subnets of the local endpoint: `none` for an error.
  unfoldable pub overlaps_local : List String → List String → Option Bool
  overlaps_local remote [] = some false
  overlaps_local remote (subnet ∷ rest) =
      let later = overlaps_local remote rest in go_on (is_overlapping parse remote subnet) later

  -- The loop over the subnets that are to be within the declared CIDRs: false where the endpoint is
  -- rejected, for an invalid CIDR or for one that is not contained.
  unfoldable pub contained_each : List String → List String → Bool
  contained_each within [] = true
  contained_each within (subnet ∷ rest) =
      let later = contained_each within rest in
      if_contained (is_contained parse within subnet) later

  -- The loop over the subnets, for one endpoint of another cluster: false where the endpoint is
  -- rejected.
  unfoldable pub apart_each : List String → List String → Bool
  apart_each others [] = true
  apart_each others (subnet ∷ rest) =
      let later = apart_each others rest in if_apart (is_overlapping parse others subnet) later

  unfoldable pub apart_from : String → EndpointSpec → List Endpoint → Bool
  apart_from local_id remote [] = true
  apart_from local_id remote (other ∷ rest) =
      let later = apart_from local_id remote rest in
      if str_eq other.spec.cluster_id remote.cluster_id || str_eq other.spec.cluster_id local_id
      then later
      else apart_each other.spec.subnets remote.subnets && later

  abbrev pub validated : String → EndpointSpec → List Endpoint → Option Cluster → Bool × Bool
  validated local_id remote endpoints none = (true, true)
  validated local_id remote endpoints (some c) =
      if contained_each (allowed c) remote.subnets && apart_from local_id remote endpoints
      then (false, false)
      else (true, false)

  -- `validateRemoteEndpointSubnets`: whether the endpoint is rejected, and whether it is queued
  -- again. The resources are none before the syncer is set.
  unfoldable pub validate_remote_endpoint_subnets :
      String → Option Resources → EndpointSpec → Bool × Bool
  validate_remote_endpoint_subnets local_id none remote = (false, false)
  validate_remote_endpoint_subnets local_id (some res) remote =
      with_subnets remote.subnets
        (validated local_id remote res.endpoints (find_cluster remote.cluster_id res.clusters))

  abbrev pub synced_unless : Endpoint → Bool × Bool → Option Endpoint × Bool
  synced_unless remote (true, requeue) = (none, requeue)
  synced_unless remote (false, requeue) = (some remote, false)

  abbrev pub synced_unless_local : (Bool × Bool) → Endpoint → Option Bool → Option Endpoint × Bool
  synced_unless_local verdict remote (some false) = synced_unless remote verdict
  synced_unless_local verdict remote _ = (none, false)

  -- `shouldSyncRemoteEndpoint`: the object to sync, if any, and whether to queue it again.
  unfoldable pub should_sync_remote_endpoint :
      EndpointSpec → String → Option Resources → Operation → Endpoint → Option Endpoint × Bool
  should_sync_remote_endpoint local_spec local_id res op remote = elim op [
    | op_delete ↦ (some remote, false)
    | _ ↦
        synced_unless_local (validate_remote_endpoint_subnets local_id res remote.spec) remote
          (overlaps_local remote.spec.subnets local_spec.subnets)
  ]
