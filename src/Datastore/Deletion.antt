-- ===== src/Datastore/Deletion.antt =====
-- The deletions of pkg/controllers/datastoresyncer/datastoresyncer.go: `Cleanup`, and the other
-- Endpoints of the cluster that `ensureExclusiveEndpoint` deletes. The federators of the admiral
-- library are a parameter with states in `D`. A result of `true` is a nil error.
use mathlib.Core.Bool.{false≢true}
use submariner.Base.{
  String, ◌≡◌, refl, sym, ap, subst, ◌∙◌, ◌⊎◌, ◌≢◌, inl, inr, Bool, true, false, not, ◌&&◌, Dict,
  Option, none, some, List, [], ◌∷◌, keep, str_eq, if◌then◌else◌, Bool-cases,
}
use submariner.Endpoint.{EndpointSpec, Endpoint, equals}

-- An item of the list that `cleanupResources` goes through.
pub record Item : Type 0 where
  pub name : String
  pub cluster_id : String

-- The error of a deletion: none, one whose `IsNotFound` holds, or another.
pub data Answer : Type 0 where
  deleted not_found failed : Answer

pub record Federators (D : Type 0) : Type 0 where
  pub delete_local : String → D → Answer × D
  pub delete_broker : String → D → Answer × D

-- `err != nil && !IsNotFound(err)` returns the error, and else the code goes on.
abbrev pub unless_failed : {D : Type 0} → (D → Bool × D) → Answer × D → Bool × D
unless_failed next (failed, d) = (false, d)
unless_failed next (deleted, d) = next d
unless_failed next (not_found, d) = next d

module _ {D : Type 0} (fed : Federators D) (local_id : String) where
  -- The loop of `cleanupResources`.
  unfoldable pub cleanup_each : List Item → D → Bool × D
  cleanup_each [] d = (true, d)
  cleanup_each (item ∷ rest) d =
      unless_failed
        (λ d'.
          if str_eq item.cluster_id local_id
          then unless_failed (cleanup_each rest) (fed.delete_broker item.name d')
          else cleanup_each rest d')
        (fed.delete_local item.name d)

  -- The items are none where the list cannot be retrieved.
  abbrev pub cleanup_resources : Option (List Item) → D → Bool × D
  cleanup_resources none d = (false, d)
  cleanup_resources (some items) d = cleanup_each items d

  abbrev pub stale : (Dict String → Dict String → Bool) → EndpointSpec → Endpoint → Bool
  stale semantic_equal local_spec e =
      str_eq e.spec.cluster_id local_id
      && not (equals semantic_equal (some e.spec) (some local_spec))

  unfoldable pub ensure_exclusive_endpoint :
      (Dict String → Dict String → Bool) → EndpointSpec → List Endpoint → D → Bool × D
  ensure_exclusive_endpoint semantic_equal local_spec [] d = (true, d)
  ensure_exclusive_endpoint semantic_equal local_spec (e ∷ rest) d =
      if stale semantic_equal local_spec e
      then unless_failed (ensure_exclusive_endpoint semantic_equal local_spec rest)
          (fed.delete_local e.name d)
      else ensure_exclusive_endpoint semantic_equal local_spec rest d

abbrev pub without_name : String → List String → List String
without_name name = keep (λ n. not (str_eq n name))

-- The documented behaviour of a federator: after a deletion that does not fail there is no resource
-- of the name in its datastore, and nothing else has changed there or in the other one.
pub record Deletes {D : Type 0} (fed : Federators D) (local_names broker_names : D → List String)
    : Type 0 where
  pub local_deleted :
      (name : String) (d : D)
      → ((fed.delete_local name d).0 ≡ failed)
        ⊎ (local_names (fed.delete_local name d).1 ≡ without_name name (local_names d))
  pub local_only :
      (name : String) (d : D) → broker_names (fed.delete_local name d).1 ≡ broker_names d
  pub broker_deleted :
      (name : String) (d : D)
      → ((fed.delete_broker name d).0 ≡ failed)
        ⊎ (broker_names (fed.delete_broker name d).1 ≡ without_name name (broker_names d))
  pub broker_only :
      (name : String) (d : D) → local_names (fed.delete_broker name d).1 ≡ local_names d

abbrev pub without_items : List Item → List String → List String
without_items [] names = names
without_items (item ∷ rest) names = without_items rest (without_name item.name names)

abbrev pub of_cluster : String → List Item → List Item
of_cluster id = keep (λ item. str_eq item.cluster_id id)

abbrev pub without_endpoints : List Endpoint → List String → List String
without_endpoints [] names = names
without_endpoints (e ∷ rest) names = without_endpoints rest (without_name e.name names)

module _ {D : Type 0} (fed : Federators D) (local_id : String)
    (local_names broker_names : D → List String) (laws : Deletes fed local_names broker_names) where
  unless_failed-true :
      (next : D → Bool × D) (r : Answer × D)
      → (unless_failed next r).0 ≡ true
      → (r.0 ≢ failed) × (unless_failed next r ≡ next r.1)
  unless_failed-true next (failed, d) h = absurd (false≢true h)
  unless_failed-true next (deleted, d) h = (λ e. cc e, refl)
  unless_failed-true next (not_found, d) h = (λ e. cc e, refl)

  abbrev Left : List String → List String → Bool × D → Type 0
  Left here there r = (local_names r.1 ≡ here) × (broker_names r.1 ≡ there)

  Left-cast :
      {here here' there there' : List String} (r : Bool × D)
      → here ≡ here'
      → there ≡ there'
      → Left here there r
      → Left here' there' r
  Left-cast r e f (l, b) = (l ∙ e, b ∙ f)

  unless : {A B : Type 0} → A ⊎ B → ¬ A → B
  unless (inl a) k = absurd (k a)
  unless (inr b) k = b

  local_then :
      (next : D → Bool × D) (name : String) (d : D) (here there : List String)
      → (unless_failed next (fed.delete_local name d)).0 ≡ true
      → ((d' : D)
          → local_names d' ≡ without_name name (local_names d)
          → broker_names d' ≡ broker_names d
          → (next d').0 ≡ true
          → Left here there (next d'))
      → Left here there (unless_failed next (fed.delete_local name d))
  local_then next name d here there h k =
      let (fine, ran) = unless_failed-true next (fed.delete_local name d) h in
      subst (Left here there) (sym ran) (
        k _ (unless (laws.local_deleted name d) fine) (laws.local_only name d)
          (ap (λ r. r.0) (sym ran) ∙ h))

  broker_then :
      (next : D → Bool × D) (name : String) (d : D) (here there : List String)
      → (unless_failed next (fed.delete_broker name d)).0 ≡ true
      → ((d' : D)
          → local_names d' ≡ local_names d
          → broker_names d' ≡ without_name name (broker_names d)
          → (next d').0 ≡ true
          → Left here there (next d'))
      → Left here there (unless_failed next (fed.delete_broker name d))
  broker_then next name d here there h k =
      let (fine, ran) = unless_failed-true next (fed.delete_broker name d) h in
      subst (Left here there) (sym ran) (
        k _ (laws.broker_only name d) (unless (laws.broker_deleted name d) fine)
          (ap (λ r. r.0) (sym ran) ∙ h))

  -- Where `cleanupResources` succeeds, none of the resources is left in the local datastore, and
  -- none of the local cluster's in the broker's; all others are left as they were, those of other
  -- clusters in the broker's too.
  pub cleanup_each-without_items :
      (items : List Item) (d : D)
      → (cleanup_each fed local_id items d).0 ≡ true
      → (local_names (cleanup_each fed local_id items d).1 ≡ without_items items (local_names d))
        × (broker_names (cleanup_each fed local_id items d).1
            ≡ without_items (of_cluster local_id items) (broker_names d))
  unfolding cleanup_each
  cleanup_each-without_items [] d h = (refl, refl)
  cleanup_each-without_items (item ∷ rest) d h = local_then _ item.name d _ _ h (λ d' l b h'.
      elim (Bool-cases (str_eq item.cluster_id local_id)) [
        | inl own ↦ rw own (
            broker_then (cleanup_each fed local_id rest) item.name d' _ _ (cc (own, h'))
              (λ d'' l' b' h''.
                Left-cast (cleanup_each fed local_id rest d'') (ap (without_items rest) (l' ∙ l))
                  (ap (λ n. without_items (of_cluster local_id rest) n)
                    (b' ∙ ap (without_name item.name) b))
                  (cleanup_each-without_items rest d'' h'')))
        | inr other ↦ rw other (
            Left-cast (cleanup_each fed local_id rest d') (ap (without_items rest) l)
              (ap (without_items (of_cluster local_id rest)) b)
              (cleanup_each-without_items rest d' (cc (other, h'))))
      ])

  -- The loop deletes the Endpoints that its test picks.
  pub ensure_exclusive_endpoint-without_endpoints :
      (semantic_equal : Dict String → Dict String → Bool) (local_spec : EndpointSpec)
      (endpoints : List Endpoint) (d : D)
      → (ensure_exclusive_endpoint fed local_id semantic_equal local_spec endpoints d).0 ≡ true
      → (local_names
            (ensure_exclusive_endpoint fed local_id semantic_equal local_spec endpoints d).1
          ≡ without_endpoints
              (keep (stale fed local_id semantic_equal local_spec) endpoints)
              (local_names d))
        × (broker_names
              (ensure_exclusive_endpoint fed local_id semantic_equal local_spec endpoints d).1
            ≡ broker_names d)
  unfolding ensure_exclusive_endpoint
  ensure_exclusive_endpoint-without_endpoints same local_spec [] d h = (refl, refl)
  ensure_exclusive_endpoint-without_endpoints same local_spec (e ∷ rest) d h =
      elim (Bool-cases (stale fed local_id same local_spec e)) [
        | inl old ↦ rw old (
            local_then (ensure_exclusive_endpoint fed local_id same local_spec rest) e.name d _ _
              (cc (old, h))
              (λ d' l b h'.
                Left-cast (ensure_exclusive_endpoint fed local_id same local_spec rest d')
                  (ap (without_endpoints (keep (stale fed local_id same local_spec) rest)) l) b
                  (ensure_exclusive_endpoint-without_endpoints same local_spec rest d' h')))
        | inr kept ↦
            rw kept
              (ensure_exclusive_endpoint-without_endpoints same local_spec rest d (cc (kept, h)))
      ]
