-- ===== src/Datastore/Accepted.antt =====
-- What holds of an Endpoint that `shouldSyncRemoteEndpoint` of
-- pkg/controllers/datastoresyncer/datastoresyncer.go lets pass.
use mathlib.Core.Option.{some_inj}
use submariner.Base.{
  ℕ, String, ◌≡◌, refl, sym, ap, subst, ◌⊎◌, ◌≢◌, inl, inr, Bool, true, false, ◌&&◌, Option, none,
  some, List, [], ◌∷◌, All, Any, All-map, Any-map, str_eq, str_eq_iff, arith, and_iff, Bool-cases,
  Option-cases,
}
use submariner.Endpoint.{EndpointSpec, Endpoint}
use submariner.Cidr.{Net, covers, overlaps, is_contained, is_overlapping}
use submariner.Cidr.Addresses.{IsNet, Holds, Holds-iff, covers_iff, overlaps_iff}
use submariner.Cidr.Laws.{any_net-false, any_net-true}
use submariner.Datastore.{
  Cluster, Resources, Operation, op_create, op_update, op_delete, find_cluster, allowed, go_on,
  if_contained, if_apart, overlaps_local, contained_each, apart_each, apart_from, with_subnets,
  validated, validate_remote_endpoint_subnets, synced_unless_local, should_sync_remote_endpoint,
}

module _ (parse : String → Option Net) where
  -- Two valid CIDRs without a common address.
  abbrev pub Disjoint : String → String → Type 0
  Disjoint s t =
      (n : Net) × (m : Net) × (parse s ≡ some n)
      × (parse t ≡ some m)
      × ¬ ((a : ℕ) × Holds n n.bits a × Holds m n.bits a)

  -- A valid CIDR, all addresses of which are in the other one.
  abbrev pub Within : String → String → Type 0
  Within s t =
      (n : Net) × (m : Net) × (parse s ≡ some n)
      × (parse t ≡ some m)
      × ((a : ℕ) → Holds n n.bits a → Holds m n.bits a)

  pub Disjoint-sym : (s t : String) → Disjoint s t → Disjoint t s
  Disjoint-sym s t (n, m, e, f, none_shared) = (
    m,
    n,
    f,
    e,
    λ (a, in_m, in_n).
        let same = ((Holds-iff n m.bits a).0 in_n).0 in
        none_shared (a, subst (λ b. Holds n b a) same in_n, subst (λ b. Holds m b a) same in_m),
  )

  is_overlapping-Disjoint :
      (list : List String) (s : String)
      → is_overlapping parse list s ≡ some false
      → All (Disjoint s) list
  unfolding is_overlapping
  is_overlapping-Disjoint list s h = elim (Option-cases (parse s)) [
    | inl invalid ↦ cc (invalid, h)
    | inr (n, e) ↦
        All-map (λ c (m, f, apart). (n, m, e, f, λ p. cc (apart, (overlaps_iff m n).1 p))) list
          (any_net-false parse (λ m. overlaps m n) list (cc (e, h)))
  ]

  is_contained-Within :
      ((c : String) (n : Net) → parse c ≡ some n → IsNet n)
      → (list : List String) (s : String) → is_contained parse list s ≡ some true
      → Any (Within s) list
  unfolding is_contained
  is_contained-Within masks list s h = elim (Option-cases (parse s)) [
    | inl invalid ↦ cc (invalid, h)
    | inr (n, e) ↦
        Any-map
          (λ c (m, f, over). (n, m, e, f, (covers_iff m n (masks c m f) (masks s n e)).0 over)) list
          (any_net-true parse (λ m. covers m n) list (cc (e, h)))
  ]

  -- The loops of the checks, come to their ends.
  overlaps_local-Disjoint :
      (remote locals : List String)
      → overlaps_local parse remote locals ≡ some false
      → All (λ s. All (Disjoint s) remote) locals
  unfolding overlaps_local
  overlaps_local-Disjoint remote [] h = tt
  overlaps_local-Disjoint remote (s ∷ locals) h =
      let (clear, later) =
        both (is_overlapping parse remote s) (overlaps_local parse remote locals) h in
      (is_overlapping-Disjoint remote s clear, overlaps_local-Disjoint remote locals later)
    where
      both :
          (o later : Option Bool)
          → go_on o later ≡ some false
          → (o ≡ some false) × (later ≡ some false)
      both (some false) later h = (refl, h)
      both (some true) later h = cc h
      both none later h = cc h

  contained_each-Within :
      ((c : String) (n : Net) → parse c ≡ some n → IsNet n)
      → (within subnets : List String) → contained_each parse within subnets ≡ true
      → All (λ s. Any (Within s) within) subnets
  unfolding contained_each
  contained_each-Within masks within [] h = tt
  contained_each-Within masks within (s ∷ subnets) h =
      let (inside, later) =
        both (is_contained parse within s) (contained_each parse within subnets) h in
      (is_contained-Within masks within s inside, contained_each-Within masks within subnets later)
    where
      both :
          (o : Option Bool) (later : Bool)
          → if_contained o later ≡ true
          → (o ≡ some true) × (later ≡ true)
      both (some true) later h = (refl, h)
      both (some false) later h = cc h
      both none later h = cc h

  apart_each-Disjoint :
      (others subnets : List String)
      → apart_each parse others subnets ≡ true
      → All (λ s. All (Disjoint s) others) subnets
  unfolding apart_each
  apart_each-Disjoint others [] h = tt
  apart_each-Disjoint others (s ∷ subnets) h =
      let (clear, later) =
        both (is_overlapping parse others s) (apart_each parse others subnets) h in
      (is_overlapping-Disjoint others s clear, apart_each-Disjoint others subnets later)
    where
      both :
          (o : Option Bool) (later : Bool)
          → if_apart o later ≡ true
          → (o ≡ some false) × (later ≡ true)
      both (some false) later h = (refl, h)
      both (some true) later h = cc h
      both none later h = cc h

  -- Two endpoints of one cluster, or of the local one, or without a common address.
  abbrev pub Apart : String → EndpointSpec → EndpointSpec → Type 0
  Apart local_id e f =
      (e.cluster_id ≡ f.cluster_id)
      ⊎ (e.cluster_id ≡ local_id)
      ⊎ (f.cluster_id ≡ local_id)
      ⊎ All (λ s. All (Disjoint s) f.subnets) e.subnets

  apart_from-Apart :
      (local_id : String) (remote : EndpointSpec) (endpoints : List Endpoint)
      → apart_from parse local_id remote endpoints ≡ true
      → All (λ f. Apart local_id remote f.spec) endpoints
  unfolding apart_from
  apart_from-Apart local_id remote [] h = tt
  apart_from-Apart local_id remote (f ∷ endpoints) h =
      elim (Bool-cases (str_eq f.spec.cluster_id remote.cluster_id)) [
        | inl same ↦ (
          inl (sym ((str_eq_iff f.spec.cluster_id remote.cluster_id).0 same)),
          apart_from-Apart local_id remote endpoints (ground (arith, same, h)),
        )
        | inr other ↦ elim (Bool-cases (str_eq f.spec.cluster_id local_id)) [
          | inl own ↦ (
            inr (inr (inl ((str_eq_iff f.spec.cluster_id local_id).0 own))),
            apart_from-Apart local_id remote endpoints (ground (arith, own, other, h)),
          )
          | inr foreign ↦ (
            inr (
                inr (
                  inr (
                    apart_each-Disjoint f.spec.subnets remote.subnets
                      (ground (arith, other, foreign, h))))),
            apart_from-Apart local_id remote endpoints (ground (arith, foreign, other, h)),
          )
        ]
      ]

  Apart-empty :
      (local_id : String) (remote : EndpointSpec) (endpoints : List Endpoint)
      → remote.subnets ≡ []
      → All (λ f. Apart local_id remote f.spec) endpoints
  Apart-empty local_id remote [] e = tt
  Apart-empty local_id remote (f ∷ endpoints) e = (
    inr (inr (inr (subst (λ l. All (λ s. All (Disjoint s) f.spec.subnets) l) (sym e) tt))),
    Apart-empty local_id remote endpoints e,
  )

  synced_iff :
      (verdict : Bool × Bool) (remote obj : Endpoint) (o : Option Bool) (requeue : Bool)
      → synced_unless_local parse verdict remote o ≡ (some obj, requeue)
      → (o ≡ some false) × (verdict.0 ≡ false) × (obj ≡ remote)
  synced_iff (false, b) remote obj (some false) requeue h =
      (refl, refl, sym (some_inj.0 (ap (λ p. p.0) h)))
  synced_iff (true, b) remote obj (some false) requeue h = cc (ap (λ p. p.0) h)
  synced_iff verdict remote obj (some true) requeue h = cc (ap (λ p. p.0) h)
  synced_iff verdict remote obj none requeue h = cc (ap (λ p. p.0) h)

  -- What is declared for an endpoint: nothing is asked where it has no subnets.
  abbrev pub Declared : EndpointSpec → Resources → Type 0
  Declared remote res =
      (remote.subnets ≡ [])
      ⊎ ((c : Cluster) × (find_cluster remote.cluster_id res.clusters ≡ some c)
          × All (λ s. Any (Within s) (allowed c)) remote.subnets)

  module _ (masks : (c : String) (n : Net) → parse c ≡ some n → IsNet n) (local_id : String) where
    validated-Declared :
        (remote : EndpointSpec) (res : Resources) (o : Option Cluster)
        → find_cluster remote.cluster_id res.clusters ≡ o
        → (validated parse local_id remote res.endpoints o).0 ≡ false
        → Declared remote res × All (λ f. Apart local_id remote f.spec) res.endpoints
    validated-Declared remote res none e h = cc h
    validated-Declared remote res (some c) e h =
        elim (Bool-cases (
          contained_each parse (allowed c) remote.subnets
          && apart_from parse local_id remote res.endpoints)) [
            | inl good ↦
                let (inside, apart) =
                  (and_iff (contained_each parse (allowed c) remote.subnets) _).0 good in
                (
                  inr (c, e, contained_each-Within masks (allowed c) remote.subnets inside),
                  apart_from-Apart local_id remote res.endpoints apart,
                )
            | inr bad ↦ cc (bad, h)
          ]

    validate-Declared :
        (remote : EndpointSpec) (res : Resources)
        → (validate_remote_endpoint_subnets parse local_id (some res) remote).0 ≡ false
        → Declared remote res × All (λ f. Apart local_id remote f.spec) res.endpoints
    unfolding validate_remote_endpoint_subnets
    validate-Declared remote res h = by_subnets remote.subnets refl h
      where
        by_subnets :
            (subnets : List String)
            → remote.subnets ≡ subnets
            → (with_subnets subnets (
                validated parse local_id remote res.endpoints
                  (find_cluster remote.cluster_id res.clusters))).0
              ≡ false
            → Declared remote res × All (λ f. Apart local_id remote f.spec) res.endpoints
        by_subnets [] e h = (inl e, Apart-empty local_id remote res.endpoints e)
        by_subnets (s ∷ rest) e h = validated-Declared remote res _ refl h

    -- An Endpoint that is created or updated and lets itself be synced is passed on as it is. No
    -- subnet of it has an address in common with a subnet of the local endpoint. Where it has
    -- subnets, each is within a CIDR that the Cluster of its ID declares. And it has no address in
    -- common with an Endpoint that was accepted from a different remote cluster.
    pub should_sync-Declared :
        (local_spec : EndpointSpec) (res : Resources) (op : Operation) (remote obj : Endpoint)
        (requeue : Bool)
        → op ≢ op_delete
        → should_sync_remote_endpoint parse local_spec local_id (some res) op remote
          ≡ (some obj, requeue)
        → (obj ≡ remote)
          × All (λ s. All (Disjoint s) remote.spec.subnets) local_spec.subnets
          × Declared remote.spec res
          × All (λ f. Apart local_id remote.spec f.spec) res.endpoints
    unfolding should_sync_remote_endpoint
    should_sync-Declared local_spec res op remote obj requeue kept h =
        let (clear, valid, same) =
          synced_iff (validate_remote_endpoint_subnets parse local_id (some res) remote.spec) remote
            obj (overlaps_local parse remote.spec.subnets local_spec.subnets) requeue
            (ran op kept h) in
        let (declared, apart) = validate-Declared remote.spec res valid in
        (
          same,
          overlaps_local-Disjoint remote.spec.subnets local_spec.subnets clear,
          declared,
          apart,
        )
      where
        ran :
            (op : Operation)
            → op ≢ op_delete
            → should_sync_remote_endpoint parse local_spec local_id (some res) op remote
              ≡ (some obj, requeue)
            → synced_unless_local parse
                (validate_remote_endpoint_subnets parse local_id (some res) remote.spec)
                remote
                (overlaps_local parse remote.spec.subnets local_spec.subnets)
              ≡ (some obj, requeue)
        ran op_create k h = h
        ran op_update k h = h
        ran op_delete k h = absurd (k refl)
