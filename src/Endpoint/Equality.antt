-- ===== src/Endpoint/Equality.antt =====
-- The equality of endpoints that the datastore syncer goes by: `EndpointSpec.Equals`
-- (pkg/apis/submariner.io/v1/endpoint.go), and `reflect.DeepEqual` of two specs.
use submariner.Base.{
  String, ◌≡◌, refl, sym, ap, ◌∙◌, ◌↔◌, ◌⊎◌, inl, inr, Bool, true, false, ◌&&◌, Option, none, some,
  List, [], ◌∷◌, Dict, lookup, arith, map_equal_iff, str_eq, str_eq_iff, str_eq_refl, and_iff,
  Bool-cases,
}
use submariner.Endpoint.{
  EndpointSpec, text_or_empty, config_text, using_loadbalancer_config, has_same_backend_config,
  equals, spec_deep_equal, texts_equal, bools_equal,
}

-- Two maps with the same answer at every key.
abbrev pub SameMap : Dict String → Dict String → Type 0
SameMap m n = (k : String) → lookup k m ≡ lookup k n

-- What the k8s function `equality.Semantic.DeepEqual` decides of two maps of texts.
abbrev pub DecidesSame : (Dict String → Dict String → Bool) → Type 0
DecidesSame same = (m n : Dict String) → (same m n ≡ true) ↔ SameMap m n

uses_load_balancer : EndpointSpec → Bool
uses_load_balancer ep = str_eq (config_text ep using_loadbalancer_config) "true"

uses_load_balancer_congr :
    (a b : EndpointSpec)
    → SameMap a.backend_config b.backend_config
    → uses_load_balancer a ≡ uses_load_balancer b
unfolding uses_load_balancer
uses_load_balancer_congr a b h =
    ap (λ answer. str_eq (text_or_empty answer) "true") (h using_loadbalancer_config)

module _ (same : Dict String → Dict String → Bool) (decides : DecidesSame same) where
  -- What `hasSameBackendConfig` decides.
  abbrev SameConfig : EndpointSpec → EndpointSpec → Type 0
  SameConfig a b =
      ((uses_load_balancer a ≡ true) × (uses_load_balancer b ≡ true))
      ⊎ SameMap a.backend_config b.backend_config

  SameConfig-sound : (a b : EndpointSpec) → has_same_backend_config same a b ≡ true → SameConfig a b
  unfolding has_same_backend_config uses_load_balancer
  SameConfig-sound a b h = elim (Bool-cases (uses_load_balancer a && uses_load_balancer b)) [
    | inl both ↦ inl ((and_iff _ _).0 both)
    | inr other ↦ inr ((decides _ _).0 (ground arith))
  ]

  SameConfig-complete :
      (a b : EndpointSpec) → SameConfig a b → has_same_backend_config same a b ≡ true
  unfolding has_same_backend_config uses_load_balancer
  SameConfig-complete a b (inl (p, q)) = ground arith
  SameConfig-complete a b (inr h) =
      let e : same a.backend_config b.backend_config ≡ true = (decides _ _).1 h in ground arith

  SameConfig-symm : (a b : EndpointSpec) → SameConfig a b → SameConfig b a
  SameConfig-symm a b (inl (p, q)) = inl (q, p)
  SameConfig-symm a b (inr h) = inr (λ k. sym (h k))

  SameConfig-trans : (a b c : EndpointSpec) → SameConfig a b → SameConfig b c → SameConfig a c
  SameConfig-trans a b c (inl (p, q)) (inl (r, t)) = inl (p, t)
  SameConfig-trans a b c (inl (p, q)) (inr h) = inl (p, sym (uses_load_balancer_congr b c h) ∙ q)
  SameConfig-trans a b c (inr h) (inl (r, t)) = inl (uses_load_balancer_congr a b h ∙ r, t)
  SameConfig-trans a b c (inr h) (inr k) = inr (λ j. h j ∙ k j)

  -- The four texts that `Equals` compares, and the configuration.
  abbrev SameIdentity : EndpointSpec → EndpointSpec → Type 0
  SameIdentity a b =
      (a.cluster_id ≡ b.cluster_id)
      × (a.cable_name ≡ b.cable_name)
      × (a.hostname ≡ b.hostname)
      × (a.backend ≡ b.backend)
      × SameConfig a b

  equals_iff : (a b : EndpointSpec) → (equals same (some a) (some b) ≡ true) ↔ SameIdentity a b
  unfolding equals
  equals_iff a b = (
    λ h. (
      ground (arith, str_eq_iff a.cluster_id b.cluster_id),
      ground (arith, str_eq_iff a.cable_name b.cable_name),
      ground (arith, str_eq_iff a.hostname b.hostname),
      ground (arith, str_eq_iff a.backend b.backend),
      SameConfig-sound a b (ground arith),
    ),
    λ (p, q, r, t, c). ground (
      arith,
      SameConfig-complete a b c,
      str_eq_iff a.cluster_id b.cluster_id,
      str_eq_iff a.cable_name b.cable_name,
      str_eq_iff a.hostname b.hostname,
      str_eq_iff a.backend b.backend,
    ),
  )

  equals_refl : (a : Option EndpointSpec) → equals same a a ≡ true
  unfolding equals
  equals_refl none = refl
  equals_refl (some a) = (equals_iff a a).1 (refl, refl, refl, refl, inr (λ k. refl))

  equals_symm : (a b : Option EndpointSpec) → equals same a b ≡ true → equals same b a ≡ true
  unfolding equals
  equals_symm none none h = refl
  equals_symm none (some b) h = cc
  equals_symm (some a) none h = cc
  equals_symm (some a) (some b) h =
      let (p, q, r, t, c) = (equals_iff a b).0 h in
      (equals_iff b a).1 (sym p, sym q, sym r, sym t, SameConfig-symm a b c)

  equals_trans :
      (a b c : Option EndpointSpec)
      → equals same a b ≡ true
      → equals same b c ≡ true
      → equals same a c ≡ true
  unfolding equals
  equals_trans none none c h k = k
  equals_trans none (some b) c h k = cc
  equals_trans (some a) none c h k = cc
  equals_trans (some a) (some b) none h k = cc
  equals_trans (some a) (some b) (some d) h k =
      let (p, q, r, t, e) = (equals_iff a b).0 h in
      let (p', q', r', t', e') = (equals_iff b d).0 k in
      (equals_iff a d).1 (p ∙ p', q ∙ q', r ∙ r', t ∙ t', SameConfig-trans a b d e e')

  -- `Equals` is an equivalence of endpoint specs, nil included, although two endpoints that both
  -- use a load balancer are equal whatever the rest of their configuration is: from a = b and b = c
  -- it follows that a = c, b = a and a = a. The hypothesis is that the k8s equality decides whether
  -- two maps have the same answer at every key.
  pub equals_equivalence :
      (a b c : Option EndpointSpec)
      → equals same a b ≡ true
      → equals same b c ≡ true
      → (equals same a c ≡ true) × (equals same b a ≡ true) × (equals same a a ≡ true)
  equals_equivalence a b c h k = (equals_trans a b c h k, equals_symm a b h, equals_refl a)

pub texts_equal_refl : (l : List String) → texts_equal l l ≡ true
texts_equal_refl [] = refl
texts_equal_refl (s ∷ l) = rw (str_eq_refl s) (texts_equal_refl l)

bools_equal_refl : (b : Bool) → bools_equal b b ≡ true
bools_equal_refl true = refl
bools_equal_refl false = refl

-- A spec is deeply equal to itself.
pub spec_deep_equal_refl : (a : EndpointSpec) → spec_deep_equal a a ≡ true
unfolding spec_deep_equal
spec_deep_equal_refl a = simp (
  str_eq_refl,
  texts_equal_refl,
  bools_equal_refl,
  (map_equal_iff a.backend_config a.backend_config).1 (λ k. refl),
)
