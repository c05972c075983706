-- ===== src/Datastore/Separation.antt =====
-- The Endpoints of a cluster that accepts those of the broker with `shouldSyncRemoteEndpoint`
-- (pkg/controllers/datastoresyncer/datastoresyncer.go) over time.
use submariner.Base.{
  String, ◌≡◌, refl, sym, subst, ◌≢◌, inl, inr, Bool, not, Option, some, List, [], ◌∷◌, All,
  All-map, All-swap, keep, str_eq, Bool-cases,
}
use submariner.Endpoint.{EndpointSpec, Endpoint}
use submariner.Cidr.{Net}
use submariner.Cidr.Addresses.{IsNet}
use submariner.Datastore.{Cluster, Resources, Operation, op_delete, should_sync_remote_endpoint}
use submariner.Datastore.Accepted.{Disjoint, Disjoint-sym, Apart, should_sync-Declared}

abbrev pub without_named : String → List Endpoint → List Endpoint
without_named name = keep (λ e. not (str_eq e.name name))

-- A resource that is synced replaces the one of its name.
abbrev pub stored : Endpoint → Resources → Resources
stored e res = record res { endpoints = e ∷ without_named e.name res.endpoints }

module _ (parse : String → Option Net) (local_spec : EndpointSpec) (local_id : String) where
  -- What happens to the resources: an Endpoint of the broker is synced, the cluster's own Endpoint
  -- is stored, an Endpoint is deleted, or the Clusters change.
  pub data Step : Resources → Resources → Type 0 where
    remote_synced :
        {res : Resources} {obj : Endpoint} (op : Operation) (remote : Endpoint) (requeue : Bool)
        → op ≢ op_delete
        → should_sync_remote_endpoint parse local_spec local_id (some res) op remote
          ≡ (some obj, requeue)
        → Step res (stored obj res)
    own_stored :
        {res : Resources} (own : Endpoint)
        → own.spec.cluster_id ≡ local_id
        → Step res (stored own res)
    deleted :
        {res : Resources} (name : String)
        → Step res (record res { endpoints = without_named name res.endpoints })
    clusters_changed :
        {res : Resources} (clusters : List Cluster) → Step res (record res { clusters = clusters })

  pub data Steps : Resources → Resources → Type 0 where
    stays : {res : Resources} → Steps res res
    then_step : {res res' res'' : Resources} → Steps res res' → Step res' res'' → Steps res res''

  -- Any two Endpoints are of one cluster, or one is of the local cluster, or they have no address
  -- in common.
  abbrev pub Separated : List Endpoint → Type 0
  Separated endpoints = All (λ e. All (λ f. Apart parse local_id e.spec f.spec) endpoints) endpoints

  Apart-sym : (e f : EndpointSpec) → Apart parse local_id e f → Apart parse local_id f e
  Apart-sym e f (inl same) = inl (sym same)
  Apart-sym e f (inr (inl own)) = inr (inr (inl own))
  Apart-sym e f (inr (inr (inl own))) = inr (inl own)
  Apart-sym e f (inr (inr (inr h))) = inr (
      inr (
        inr (
          All-swap (λ t s. Disjoint parse t s) e.subnets f.subnets
            (All-map (λ s k. All-map (λ t d. Disjoint-sym parse s t d) f.subnets k) e.subnets h))))

  All-kept :
      (P : Endpoint → Type 0) (name : String) (endpoints : List Endpoint)
      → All P endpoints
      → All P (without_named name endpoints)
  All-kept P name [] h = tt
  All-kept P name (e ∷ endpoints) h = elim (Bool-cases (str_eq e.name name)) [
    | inl named ↦ rw named (All-kept P name endpoints h.1)
    | inr other ↦ rw other (h.0, All-kept P name endpoints h.1)
  ]

  without-Separated :
      (name : String) (endpoints : List Endpoint)
      → Separated endpoints
      → Separated (without_named name endpoints)
  without-Separated name endpoints h =
      All-kept _ name endpoints (All-map (λ e k. All-kept _ name endpoints k) endpoints h)

  stored-Separated :
      (e : Endpoint) (endpoints : List Endpoint)
      → All (λ f. Apart parse local_id e.spec f.spec) endpoints
      → Separated endpoints
      → Separated (e ∷ without_named e.name endpoints)
  stored-Separated e endpoints apart h =
      let others = All-kept _ e.name endpoints apart in
      (
        (inl refl, others),
        both (without_named e.name endpoints) others (without-Separated e.name endpoints h),
      )
    where
      pairs :
          (v w : List Endpoint)
          → All (λ f. Apart parse local_id e.spec f.spec) v
          → All (λ f. All (λ g. Apart parse local_id f.spec g.spec) w) v
          → All (λ f. All (λ g. Apart parse local_id f.spec g.spec) (e ∷ w)) v
      pairs [] w a b = tt
      pairs (f ∷ v) w a b = ((Apart-sym e.spec f.spec a.0, b.0), pairs v w a.1 b.1)

      both :
          (v : List Endpoint)
          → All (λ f. Apart parse local_id e.spec f.spec) v
          → Separated v
          → All (λ f. All (λ g. Apart parse local_id f.spec g.spec) (e ∷ v)) v
      both v a b = pairs v v a b

  module _ (masks : (c : String) (n : Net) → parse c ≡ some n → IsNet n) where
    Step-Separated :
        {res res' : Resources} → Step res res' → Separated res.endpoints → Separated res'.endpoints
    Step-Separated (remote_synced {res} {obj} op remote requeue kept ran) h =
        let (same, clear, declared, apart) =
          should_sync-Declared parse masks local_id local_spec res op remote obj requeue kept ran in
        stored-Separated obj res.endpoints
          (subst (λ o. All (λ f. Apart parse local_id o.spec f.spec) res.endpoints) (sym same)
            apart)
          h
    Step-Separated (own_stored {res} own e) h =
        stored-Separated own res.endpoints (own_apart res.endpoints) h
      where
        own_apart :
            (endpoints : List Endpoint) → All (λ f. Apart parse local_id own.spec f.spec) endpoints
        own_apart [] = tt
        own_apart (f ∷ endpoints) = (inr (inl e), own_apart endpoints)
    Step-Separated (deleted {res} name) h = without-Separated name res.endpoints h
    Step-Separated (clusters_changed clusters) h = h

    -- Whatever Endpoints arrive, change and go, and however the Clusters change: while the
    -- Endpoints in the cluster come from the broker by `shouldSyncRemoteEndpoint` or are its own,
    -- no two of different remote clusters have an address in common.
    pub Steps-Separated :
        {res res' : Resources} → Steps res res' → Separated res.endpoints → Separated res'.endpoints
    Steps-Separated stays h = h
    Steps-Separated (then_step run step) h = Step-Separated step (Steps-Separated run h)
