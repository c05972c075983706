-- ===== src/Datastore/Exclusive.antt =====
-- Which resources `ensureExclusiveEndpoint` of pkg/controllers/datastoresyncer/datastoresyncer.go
-- leaves in the local datastore.
use mathlib.Core.Bool.{false≢true}
use submariner.Base.{
  String, ◌≡◌, sym, subst, ◌∙◌, ◌↔◌, ◌≢◌, inl, inr, Bool, true, false, not, some, Dict, List, [],
  ◌∷◌, keep, All, Any, and_iff, str_eq, str_eq_iff, Bool-cases,
}
use submariner.Endpoint.{EndpointSpec, Endpoint, equals}
use submariner.Datastore.Deletion.{
  Federators, Deletes, stale, without_name, without_endpoints, ensure_exclusive_endpoint,
  ensure_exclusive_endpoint-without_endpoints,
}

-- A name is in a list.
abbrev pub Holds : String → List String → Type 0
Holds name = Any (λ n. n ≡ name)

Holds-without_name :
    (name other : String) (names : List String)
    → Holds name (without_name other names) ↔ (Holds name names × (other ≢ name))
Holds-without_name name other [] = (λ h. elim h [ ], λ h. h.0)
Holds-without_name name other (n ∷ names) =
    let (there, back) = Holds-without_name name other names in
    elim (Bool-cases (str_eq n other)) [
      | inl same ↦ rw same (
        λ h. let (held, apart) = there h in (inr held, apart),
        λ h. elim (h.0) [
          | inl here ↦ absurd (h.1 (sym ((str_eq_iff n other).0 same) ∙ here))
          | inr later ↦ back (later, h.1)
        ],
      )
      | inr differ ↦ rw differ (
        λ h. elim h [
          | inl here ↦
              (inl here, λ e. false≢true (sym differ ∙ (str_eq_iff n other).1 (here ∙ sym e)))
          | inr later ↦ let (held, apart) = there later in (inr held, apart)
        ],
        λ h. elim (h.0) [ inl here ↦ inl here | inr later ↦ inr (back (later, h.1)) ],
      )
    ]

Holds-without_endpoints :
    (name : String) (endpoints : List Endpoint) (names : List String)
    → Holds name (without_endpoints endpoints names)
      ↔ (Holds name names × All (λ e. e.name ≢ name) endpoints)
Holds-without_endpoints name [] names = (λ h. (h, tt), λ h. h.0)
Holds-without_endpoints name (e ∷ endpoints) names =
    let (there, back) = Holds-without_endpoints name endpoints (without_name e.name names) in
    let (first, again) = Holds-without_name name e.name names in
    (
      λ h.
          let (held, others) = there h in
          let (before, apart) = first held in (before, (apart, others)),
      λ h. back (again (h.0, h.1.0), h.1.1),
    )

module _ (local_id : String) (same : Dict String → Dict String → Bool)
    (local_spec : EndpointSpec) where
  -- An Endpoint of this name, if it is one of the local cluster, is the local one.
  abbrev pub IsKept : String → Endpoint → Type 0
  IsKept name e =
      e.name ≡ name
      → e.spec.cluster_id ≡ local_id
      → equals same (some e.spec) (some local_spec) ≡ true

  module _ {D : Type 0} (fed : Federators D) where
    not_stale :
        (name : String) (e : Endpoint)
        → stale fed local_id same local_spec e ≡ false
        → IsKept name e
    not_stale name e h named own = elim (Bool-cases (equals same (some e.spec) (some local_spec))) [
      | inl equal ↦ equal
      | inr different ↦ cc ((str_eq_iff e.spec.cluster_id local_id).1 own, different, h)
    ]

    stale-IsKept :
        (name : String) (e : Endpoint)
        → stale fed local_id same local_spec e ≡ true
        → (e.name ≢ name) ↔ IsKept name e
    stale-IsKept name e h =
        let (own, different) =
          (and_iff (str_eq e.spec.cluster_id local_id)
              (not (equals same (some e.spec) (some local_spec)))).0
            h in
        (
          λ apart named _. absurd (apart named),
          λ kept named. cc (kept named ((str_eq_iff e.spec.cluster_id local_id).0 own), different),
        )

    All-IsKept :
        (name : String) (endpoints : List Endpoint)
        → All (λ e. e.name ≢ name) (keep (stale fed local_id same local_spec) endpoints)
          ↔ All (IsKept name) endpoints
    All-IsKept name [] = (λ h. tt, λ h. tt)
    All-IsKept name (e ∷ endpoints) =
        let (there, back) = All-IsKept name endpoints in
        elim (Bool-cases (stale fed local_id same local_spec e)) [
          | inl old ↦ rw old (
            λ h. ((stale-IsKept name e old).0 h.0, there h.1),
            λ h. ((stale-IsKept name e old).1 h.0, back h.1),
          )
          | inr kept ↦ rw kept (λ h. (not_stale name e kept, there h), λ h. back h.1)
        ]

-- Where `ensureExclusiveEndpoint` succeeds, a resource is left in the local datastore exactly if it was
-- there, and no Endpoint of its name in the list belongs to the local cluster and differs from the local
-- one; and the datastore of the broker is as it was.
pub ensure_exclusive_endpoint-Holds :
    {D : Type 0} (fed : Federators D) (local_id : String)
    (local_names broker_names : D → List String)
    → Deletes fed local_names broker_names
    → (same : Dict String → Dict String → Bool) (local_spec : EndpointSpec)
      (endpoints : List Endpoint) (d : D)
    → (ensure_exclusive_endpoint fed local_id same local_spec endpoints d).0 ≡ true
    → let left = (ensure_exclusive_endpoint fed local_id same local_spec endpoints d).1 in
      ((name : String)
        → Holds name (local_names left)
          ↔ (Holds name (local_names d) × All (IsKept local_id same local_spec name) endpoints))
      × (broker_names left ≡ broker_names d)
ensure_exclusive_endpoint-Holds fed local_id local_names broker_names laws same local_spec endpoints
      d h =
    let (here, there) =
      ensure_exclusive_endpoint-without_endpoints fed local_id local_names broker_names laws same
        local_spec endpoints d h in
    (
      λ name.
          let old = keep (stale fed local_id same local_spec) endpoints in
          let (out, back) = Holds-without_endpoints name old (local_names d) in
          let (kept, unkept) = All-IsKept local_id same local_spec fed name endpoints in
          (
            λ held.
                let (before, apart) = out (subst (Holds name) here held) in (before, kept apart),
            λ k. subst (Holds name) (sym here) (back (k.0, unkept k.1)),
          ),
      there,
    )
