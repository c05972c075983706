-- ===== src/Pinger/Controller/Running.antt =====
-- The pingers that run are those that the controller of pkg/pinger/controller.go knows.
use mathlib.Core.Option.{some_inj}
use submariner.Base.{
  ℕ, ◌+◌, ◌<◌, String, ◌≡◌, refl, sym, ap, subst, ◌∙◌, inl, inr, true, false, not, Option, none,
  some, List, [], ◌∷◌, ◌++◌, Dict, lookup, insert, erase, lookup-erase_self, NodupKeys,
  insert-NodupKeys, erase-NodupKeys, All, All-snoc, keep, arith, str_eq, str_eq_iff, ◌==◌, ==_iff,
  Bool-cases,
}
use submariner.Endpoint.{IpFamily, EndpointSpec, NetLib, get_health_check_ip, get_family_cable_name}
use submariner.Pinger.Controller.{
  Pinger, Controller, stop_pinger, pinger_config, launch, drop_pinger, start_unless_same,
  start_pinger, stop_if_found, stop_each, stop, new_controller, start_each,
  endpoint_created_or_updated, stop_families, endpoint_removed,
}

abbrev pub ids : Dict Pinger → List ℕ
ids [] = []
ids ((name, p) ∷ m) = p.id ∷ ids m

-- No two pingers have one number.
abbrev Distinct : Dict Pinger → Type 0
Distinct [] = Unit
Distinct ((name, p) ∷ m) = All (λ i. (i == p.id) ≡ false) (ids m) × Distinct m

-- The pingers that run are those in the map, and each is under one name.
pub record IsTracked (c : Controller) : Type 0 where
  pub running_ids : c.running ≡ ids c.pingers
  pub nodup : NodupKeys c.pingers
  pub distinct : Distinct c.pingers
  pub older : All (λ i. i < c.next_id) (ids c.pingers)

keep_others :
    (k : ℕ) (is : List ℕ) → All (λ i. (i == k) ≡ false) is → keep (λ i. not (i == k)) is ≡ is
keep_others k [] h = refl
keep_others k (i ∷ is) h = rw (h.0) (ap (λ l. i ∷ l) (keep_others k is h.1))

pub erase_lacking : (name : String) (m : Dict Pinger) → lookup name m ≡ none → erase name m ≡ m
unfolding lookup erase
erase_lacking name [] h = refl
erase_lacking name ((j, p) ∷ m) h = elim (Bool-cases (str_eq j name)) [
  | inl same ↦ cc (same, h)
  | inr other ↦ rw other (ap (λ l. (j, p) ∷ l) (erase_lacking name m (cc (other, h))))
]

insert_lacking :
    (name : String) (p : Pinger) (m : Dict Pinger)
    → lookup name m ≡ none
    → insert name p m ≡ m ++ (name, p) ∷ []
unfolding lookup insert
insert_lacking name p [] h = refl
insert_lacking name p ((j, q) ∷ m) h = elim (Bool-cases (str_eq j name)) [
  | inl same ↦ cc (same, h)
  | inr other ↦ rw other (ap (λ l. (j, q) ∷ l) (insert_lacking name p m (cc (other, h))))
]

-- What holds of every number holds of the one that is found.
found_id :
    (P : ℕ → Type 0) (name : String) (m : Dict Pinger) (p : Pinger)
    → All P (ids m)
    → lookup name m ≡ some p
    → P p.id
unfolding lookup
found_id P name [] p h e = cc e
found_id P name ((j, q) ∷ m) p h e = elim (Bool-cases (str_eq j name)) [
  | inl same ↦ subst (λ (r : Pinger). P r.id) (found same) (h.0)
  | inr other ↦ found_id P name m p h.1 (cc (other, e))
]
  where
    found : str_eq j name ≡ true → q ≡ p
    found same = some_inj.0 (cc (same, e))

ids-erase :
    (name : String) (m : Dict Pinger) (p : Pinger)
    → NodupKeys m
    → Distinct m
    → lookup name m ≡ some p
    → stop_pinger p (ids m) ≡ ids (erase name m)
unfolding lookup erase
ids-erase name [] p nodup distinct e = refl
ids-erase name ((j, q) ∷ m) p nodup distinct e = elim (Bool-cases (str_eq j name)) [
  | inl same ↦
      let found : q ≡ p = some_inj.0 (cc (same, e)) in
      let here : (q.id == p.id) ≡ true = (==_iff q.id p.id).1 (ap (λ r. r.id) found) in
      let rest = keep_others q.id (ids m) distinct.0 in
      let none_left = erase_lacking name m (cc ((str_eq_iff j name).0 same, nodup.0)) in
      rw (same, here, none_left) (subst (λ r. stop_pinger r (ids m) ≡ ids m) found rest)
  | inr other ↦
      let later : lookup name m ≡ some p = cc (other, e) in
      let apart = found_id (λ i. (i == q.id) ≡ false) name m p distinct.0 later in
      let away : (q.id == p.id) ≡ false = ground (arith, apart) in
      rw (other, away) (ap (λ l. q.id ∷ l) (ids-erase name m p nodup.1 distinct.1 later))
]

All-erased :
    (P : ℕ → Type 0) (name : String) (m : Dict Pinger) → All P (ids m) → All P (ids (erase name m))
unfolding erase
All-erased P name [] h = tt
All-erased P name ((j, q) ∷ m) h = elim (Bool-cases (str_eq j name)) [
  | inl same ↦ rw same (All-erased P name m h.1)
  | inr other ↦ rw other (h.0, All-erased P name m h.1)
]

erase-Distinct : (name : String) (m : Dict Pinger) → Distinct m → Distinct (erase name m)
unfolding erase
erase-Distinct name [] h = tt
erase-Distinct name ((j, q) ∷ m) h = elim (Bool-cases (str_eq j name)) [
  | inl same ↦ rw same (erase-Distinct name m h.1)
  | inr other ↦
      rw other (All-erased (λ i. (i == q.id) ≡ false) name m h.0, erase-Distinct name m h.1)
]

ids_snoc :
    (m : Dict Pinger) (name : String) (p : Pinger) → ids (m ++ (name, p) ∷ []) ≡ ids m ++ p.id ∷ []
ids_snoc [] name p = refl
ids_snoc ((j, q) ∷ m) name p = ap (λ l. q.id ∷ l) (ids_snoc m name p)

snoc-Distinct :
    (m : Dict Pinger) (name : String) (p : Pinger)
    → Distinct m
    → All (λ i. i < p.id) (ids m)
    → Distinct (m ++ (name, p) ∷ [])
snoc-Distinct [] name p h k = (tt, tt)
snoc-Distinct ((j, q) ∷ m) name p h k = (
  subst (All (λ i. (i == q.id) ≡ false)) (sym (ids_snoc m name p))
      (All-snoc _ (ids m) p.id h.0 (ground (arith, k.0))),
  snoc-Distinct m name p h.1 k.1,
)

older_next : (n : ℕ) (is : List ℕ) → All (λ i. i < n) is → All (λ i. i < n + 1) is
older_next n [] h = tt
older_next n (i ∷ is) h = (omega (arith, h.0), older_next n is h.1)

launch-IsTracked :
    (name ip : String) (c : Controller)
    → IsTracked c
    → lookup name c.pingers ≡ none
    → IsTracked (launch name ip c)
launch-IsTracked name ip c t lacking =
    let p : Pinger = record { id = c.next_id; config = pinger_config c ip } in
    let added = insert_lacking name p c.pingers lacking in
    record {
      running_ids =
          ap (λ l. l ++ c.next_id ∷ []) t.running_ids
          ∙ sym (ap ids added ∙ ids_snoc c.pingers name p);
      nodup = insert-NodupKeys name p c.pingers t.nodup;
      distinct = subst Distinct (sym added) (snoc-Distinct c.pingers name p t.distinct t.older);
      older =
          subst (All (λ i. i < c.next_id + 1)) (sym (ap ids added ∙ ids_snoc c.pingers name p)) (
            All-snoc _ (ids c.pingers) c.next_id (older_next c.next_id (ids c.pingers) t.older)
              (omega arith));
    }

drop-IsTracked :
    (name : String) (p : Pinger) (c : Controller)
    → IsTracked c
    → lookup name c.pingers ≡ some p
    → IsTracked (drop_pinger name p c)
drop-IsTracked name p c t found = record {
  running_ids =
      ap (stop_pinger p) t.running_ids ∙ ids-erase name c.pingers p t.nodup t.distinct found;
  nodup = erase-NodupKeys name c.pingers t.nodup;
  distinct = erase-Distinct name c.pingers t.distinct;
  older = All-erased (λ i. i < c.next_id) name c.pingers t.older;
}

start_pinger-IsTracked :
    (name ip : String) (c : Controller) → IsTracked c → IsTracked (start_pinger name ip c)
unfolding start_pinger
start_pinger-IsTracked name ip c t = started (lookup name c.pingers) refl
  where
    started :
        (o : Option Pinger) → lookup name c.pingers ≡ o → IsTracked (start_unless_same name ip c o)
    started none e = launch-IsTracked name ip c t e
    started (some p) e = elim (Bool-cases (str_eq p.config.ip ip)) [
      | inl same ↦ rw same t
      | inr other ↦ rw other (
          launch-IsTracked name ip (drop_pinger name p c) (drop-IsTracked name p c t e)
            (lookup-erase_self name c.pingers))
    ]

start_each-IsTracked :
    (net : NetLib) (spec : EndpointSpec) (families : List IpFamily) (c : Controller)
    → IsTracked c
    → IsTracked (start_each net spec families c)
unfolding start_each
start_each-IsTracked net spec [] c t = t
start_each-IsTracked net spec (f ∷ families) c t =
    elim (Bool-cases (str_eq (get_health_check_ip net spec f) "")) [
      | inl empty ↦ rw empty (start_each-IsTracked net spec families c t)
      | inr given ↦ rw given (
          start_each-IsTracked net spec families _ (
            start_pinger-IsTracked (get_family_cable_name spec f) (get_health_check_ip net spec f) c
              t))
    ]

stop_families-IsTracked :
    (spec : EndpointSpec) (families : List IpFamily) (c : Controller)
    → IsTracked c
    → IsTracked (stop_families spec families c)
unfolding stop_families
stop_families-IsTracked spec [] c t = t
stop_families-IsTracked spec (f ∷ families) c t =
    stop_families-IsTracked spec families _
      (stopped (lookup (get_family_cable_name spec f) c.pingers) refl)
  where
    stopped :
        (o : Option Pinger)
        → lookup (get_family_cable_name spec f) c.pingers ≡ o
        → IsTracked (stop_if_found (get_family_cable_name spec f) c o)
    stopped none e = t
    stopped (some p) e = drop-IsTracked (get_family_cable_name spec f) p c t e

stop_each-ids : (m : Dict Pinger) → Distinct m → stop_each m (ids m) ≡ []
stop_each-ids [] h = refl
stop_each-ids ((j, p) ∷ m) h =
    let here : (p.id == p.id) ≡ true = (==_iff p.id p.id).1 refl in
    rw (here, keep_others p.id (ids m) h.0) (stop_each-ids m h.1)

stop-IsTracked : (c : Controller) → IsTracked c → IsTracked (stop c)
unfolding stop
stop-IsTracked c t = record {
  running_ids = ap (stop_each c.pingers) t.running_ids ∙ stop_each-ids c.pingers t.distinct;
  nodup = tt;
  distinct = tt;
  older = tt;
}

-- The calls of the controller, one after the other.
pub data Reach (net : NetLib) (c : Controller) : Controller → Type 0 where
  begins : Reach net c c
  created_or_updated :
      {c' : Controller} (spec : EndpointSpec)
      → Reach net c c'
      → Reach net c (endpoint_created_or_updated net spec c')
  removed :
      {c' : Controller} (spec : EndpointSpec)
      → Reach net c c'
      → Reach net c (endpoint_removed spec c')
  stopped : {c' : Controller} → Reach net c c' → Reach net c (stop c')

Reach-IsTracked : (net : NetLib) (c c' : Controller) → Reach net c c' → IsTracked c → IsTracked c'
Reach-IsTracked net c c' begins t = t
Reach-IsTracked net c c' (created_or_updated {c' = d} spec r) t =
    start_each-IsTracked net spec d.supported_ip_families d (Reach-IsTracked net c d r t)
Reach-IsTracked net c c' (removed {c' = d} spec r) t =
    stop_families-IsTracked spec d.supported_ip_families d (Reach-IsTracked net c d r t)
Reach-IsTracked net c c' (stopped {c' = d} r) t = stop-IsTracked d (Reach-IsTracked net c d r t)

-- Whatever endpoints come, change and go, the pingers that run are those in the map.
pub reachable-IsTracked :
    (net : NetLib) (families : List IpFamily) (interval count : ℕ) (c c' : Controller)
    → new_controller families interval count ≡ some c
    → Reach net c c'
    → IsTracked c'
unfolding new_controller
reachable-IsTracked net [] interval count c c' e r = cc e
reachable-IsTracked net (f ∷ families) interval count c c' e r = Reach-IsTracked net c c' r (
    subst IsTracked (some_inj.0 e)
      (record { running_ids = refl; nodup = tt; distinct = tt; older = tt }))
