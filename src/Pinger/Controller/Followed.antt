-- ===== src/Pinger/Controller/Followed.antt =====
-- Which pingers the calls of the controller of pkg/pinger/controller.go leave.
use submariner.Base.{
  ℕ, String, ◌≡◌, refl, sym, ap, subst, ◌∙◌, ◌⊎◌, inl, inr, false, Option, none, some, List, [],
  ◌∷◌, Dict, lookup, erase, lookup-insert, lookup-erase, lookup-insert_self, All, Any, arith,
  str_eq, str_eq_iff, str_eq_refl, if◌then◌else◌, Bool-cases, if_both,
}
use submariner.Endpoint.{IpFamily, EndpointSpec, NetLib, get_health_check_ip, get_family_cable_name}
use submariner.Endpoint.CableNames.{cable_name_inj}
use submariner.Pinger.Controller.{
  Pinger, Controller, start_unless_same, start_pinger, stop_if_found, stop, new_controller,
  start_each, endpoint_created_or_updated, stop_families, endpoint_removed, get,
}
use submariner.Pinger.Controller.Running.{
  IsTracked, Reach, stopped, erase_lacking, reachable-IsTracked,
}

-- The pinger of this name is for this IP.
abbrev For : String → String → Controller → Type 0
For name ip c = (p : Pinger) × (lookup name c.pingers ≡ some p) × (p.config.ip ≡ ip)

start_pinger-For : (name ip : String) (c : Controller) → For name ip (start_pinger name ip c)
unfolding start_pinger
start_pinger-For name ip c = started (lookup name c.pingers) refl
  where
    started :
        (o : Option Pinger)
        → lookup name c.pingers ≡ o
        → For name ip (start_unless_same name ip c o)
    started none e = (_, lookup-insert_self name _ c.pingers, refl)
    started (some p) e = elim (Bool-cases (str_eq p.config.ip ip)) [
      | inl same ↦ rw same (p, e, (str_eq_iff p.config.ip ip).0 same)
      | inr other ↦ rw other (_, lookup-insert_self name _ (erase name c.pingers), refl)
    ]

-- The pingers of other names stay.
start_pinger_others :
    (name ip k : String) (c : Controller)
    → str_eq name k ≡ false
    → lookup k (start_pinger name ip c).pingers ≡ lookup k c.pingers
unfolding start_pinger
start_pinger_others name ip k c other = started (lookup name c.pingers)
  where
    started :
        (o : Option Pinger) → lookup k (start_unless_same name ip c o).pingers ≡ lookup k c.pingers
    started none = lookup-insert name k _ c.pingers ∙ rw other refl
    started (some p) = elim (Bool-cases (str_eq p.config.ip ip)) [
      | inl same ↦ rw same refl
      | inr differ ↦ rw differ (
          lookup-insert name k _ (erase name c.pingers)
          ∙ rw other (lookup-erase name k c.pingers ∙ rw other refl))
    ]

stopped_pingers :
    (name : String) (c : Controller)
    → (stop_if_found name c (lookup name c.pingers)).pingers ≡ erase name c.pingers
stopped_pingers name c = go (lookup name c.pingers) refl
  where
    go :
        (o : Option Pinger)
        → lookup name c.pingers ≡ o
        → (stop_if_found name c o).pingers ≡ erase name c.pingers
    go none e = sym (erase_lacking name c.pingers e)
    go (some p) e = refl

module _ (spec : EndpointSpec) where
  abbrev name_of : IpFamily → String
  name_of f = get_family_cable_name spec f

  -- A name is one of the endpoint's, or its pinger is as it was.
  abbrev pub OnlyIts : List IpFamily → Dict Pinger → Dict Pinger → String → Type 0
  OnlyIts families before after k =
      Any (λ f. get_family_cable_name spec f ≡ k) families ⊎ (lookup k after ≡ lookup k before)

  stop_lookup :
      (f : IpFamily) (c : Controller) (k : String)
      → lookup k (stop_if_found (name_of f) c (lookup (name_of f) c.pingers)).pingers
        ≡ (if str_eq (name_of f) k then none else lookup k c.pingers)
  stop_lookup f c k =
      ap (lookup k) (stopped_pingers (name_of f) c) ∙ lookup-erase (name_of f) k c.pingers

  stop_families-none :
      (families : List IpFamily) (c : Controller) (k : String)
      → lookup k c.pingers ≡ none
      → lookup k (stop_families spec families c).pingers ≡ none
  unfolding stop_families
  stop_families-none [] c k e = e
  stop_families-none (f ∷ families) c k e =
      stop_families-none families _ k (ground (arith, stop_lookup f c k, e))

  families_stopped :
      (families : List IpFamily) (c : Controller)
      → All (λ f. get spec f (stop_families spec families c) ≡ none) families
  unfolding stop_families
  families_stopped [] c = tt
  families_stopped (f ∷ families) c = (
    stop_families-none families _ (name_of f)
        (stop_lookup f c (name_of f) ∙ rw (str_eq_refl (name_of f)) refl),
    families_stopped families _,
  )

  stop_families-OnlyIts :
      (families : List IpFamily) (c : Controller) (k : String)
      → OnlyIts families c.pingers (stop_families spec families c).pingers k
  unfolding stop_families
  stop_families-OnlyIts [] c k = inr refl
  stop_families-OnlyIts (f ∷ families) c k =
      let step = stop_if_found (name_of f) c (lookup (name_of f) c.pingers) in
      elim (Bool-cases (str_eq (name_of f) k)) [
        | inl same ↦ inl (inl ((str_eq_iff (name_of f) k).0 same))
        | inr other ↦ elim (stop_families-OnlyIts families step k) [
          | inl its ↦ inl (inr its)
          | inr kept ↦ inr (kept ∙ stop_lookup f c k ∙ rw other refl)
        ]
      ]

  module _ (net : NetLib) where
    -- The endpoint has no IP of the family to ping, or the pinger of the family is for that IP.
    abbrev pub IsPinged : Controller → IpFamily → Type 0
    IsPinged c f =
        (get_health_check_ip net spec f ≡ "")
        ⊎ ((p : Pinger) × (get spec f c ≡ some p) × (p.config.ip ≡ get_health_check_ip net spec f))

    start_pinger-IsPinged :
        (f g : IpFamily) (c : Controller)
        → IsPinged c f
        → IsPinged (start_pinger (name_of g) (get_health_check_ip net spec g) c) f
    start_pinger-IsPinged f g c (inl empty) = inl empty
    start_pinger-IsPinged f g c (inr (p, found, ip)) =
        elim (Bool-cases (str_eq (name_of g) (name_of f))) [
          | inl same ↦
              let e : g ≡ f =
                cable_name_inj spec g f ((str_eq_iff (name_of g) (name_of f)).0 same) in
              inr (
                subst
                  (λ h.
                    For (name_of h) (get_health_check_ip net spec h)
                      (start_pinger (name_of g) (get_health_check_ip net spec g) c))
                  e (start_pinger-For (name_of g) (get_health_check_ip net spec g) c))
          | inr other ↦ inr (p, start_pinger_others (name_of g) _ (name_of f) c other ∙ found, ip)
        ]

    start_each_keeps :
        (families : List IpFamily) (c : Controller) (f : IpFamily)
        → IsPinged c f
        → IsPinged (start_each net spec families c) f
    unfolding start_each
    start_each_keeps [] c f h = h
    start_each_keeps (g ∷ families) c f h =
        elim (Bool-cases (str_eq (get_health_check_ip net spec g) "")) [
          | inl empty ↦ rw empty (start_each_keeps families c f h)
          | inr given ↦ rw given (start_each_keeps families _ f (start_pinger-IsPinged f g c h))
        ]

    start_each-IsPinged :
        (families : List IpFamily) (c : Controller)
        → All (IsPinged (start_each net spec families c)) families
    unfolding start_each
    start_each-IsPinged [] c = tt
    start_each-IsPinged (g ∷ families) c =
        if_both (λ c'. All (IsPinged c') (g ∷ families))
          (str_eq (get_health_check_ip net spec g) "") _ _
          (λ empty. (inl ((str_eq_iff _ _).0 empty), start_each-IsPinged families c))
          (λ given. (
            start_each_keeps families _ g
                (inr (start_pinger-For (name_of g) (get_health_check_ip net spec g) c)),
            start_each-IsPinged families _,
          ))

    start_each-OnlyIts :
        (families : List IpFamily) (c : Controller) (k : String)
        → OnlyIts families c.pingers (start_each net spec families c).pingers k
    unfolding start_each
    start_each-OnlyIts [] c k = inr refl
    start_each-OnlyIts (g ∷ families) c k =
        elim (Bool-cases (str_eq (get_health_check_ip net spec g) "")) [
          | inl empty ↦ rw empty (elim (start_each-OnlyIts families c k) [
            | inl its ↦ inl (inr its)
            | inr kept ↦ inr kept
          ])
          | inr given ↦ rw given (elim (Bool-cases (str_eq (name_of g) k)) [
            | inl same ↦ inl (inl ((str_eq_iff (name_of g) k).0 same))
            | inr other ↦
                elim (start_each-OnlyIts families
                  (start_pinger (name_of g) (get_health_check_ip net spec g) c) k) [
                    | inl its ↦ inl (inr its)
                    | inr kept ↦ inr (kept ∙ start_pinger_others (name_of g) _ k c other)
                  ]
          ])
        ]

-- What the calls make of a state of the controller.
pub record Follows (net : NetLib) (c : Controller) : Type 0 where
  pub tracked : IsTracked c
  pub updated :
      (spec : EndpointSpec)
      → All (IsPinged spec net (endpoint_created_or_updated net spec c)) c.supported_ip_families
  pub updated_only :
      (spec : EndpointSpec) (k : String)
      → OnlyIts spec c.supported_ip_families c.pingers
          (endpoint_created_or_updated net spec c).pingers
          k
  pub removed :
      (spec : EndpointSpec)
      → All (λ f. get spec f (endpoint_removed spec c) ≡ none) c.supported_ip_families
  pub removed_only :
      (spec : EndpointSpec) (k : String)
      → OnlyIts spec c.supported_ip_families c.pingers (endpoint_removed spec c).pingers k
  pub stopped_all : (stop c).running ≡ []

-- Whatever endpoints come, change and go: the pingers that run are exactly those in the map of the
-- controller, each once. At every such point, where an endpoint comes or changes, each family of
-- it with an IP to ping has a pinger for that very IP; where an endpoint is removed, none of its
-- families has a pinger; neither touches the pingers of other names; and where the controller is
-- stopped, no pinger runs.
pub reachable-Follows :
    (net : NetLib) (families : List IpFamily) (interval count : ℕ) (c c' : Controller)
    → new_controller families interval count ≡ some c
    → Reach net c c'
    → Follows net c'
unfolding stop
reachable-Follows net families interval count c c' e r = record {
  tracked = reachable-IsTracked net families interval count c c' e r;
  updated = λ spec. start_each-IsPinged spec net c'.supported_ip_families c';
  updated_only = λ spec k. start_each-OnlyIts spec net c'.supported_ip_families c' k;
  removed = λ spec. families_stopped spec c'.supported_ip_families c';
  removed_only = λ spec k. stop_families-OnlyIts spec c'.supported_ip_families c' k;
  stopped_all =
      (reachable-IsTracked net families interval count c (stop c') e (stopped r)).running_ids;
}
