-- ===== src/Cidr/Laws.antt =====
-- What `IsContained` and `IsOverlapping` of pkg/cidr/iputil.go say of addresses.
use mathlib.Core.Bool.{false≢true}
use mathlib.Core.Option.{some_inj}
use submariner.Base.{
  ℕ, String, ◌≡◌, ◌↔◌, refl, ap, ◌≢◌, inl, inr, Bool, true, false, ◌||◌, Option, none, some, List,
  [], ◌∷◌, All, Any, some_of, arith, if◌then◌else◌, Bool-cases,
}
use submariner.Cidr.{
  Net, covers, overlaps, any_net, is_contained, is_overlapping, first_overlap, overlapping_subnets,
  service_overlaps, pod_overlaps,
}
use submariner.Cidr.Addresses.{IsNet, Holds, covers_iff, overlaps_iff}

-- Some net passes a test that decides a predicate.
some_of-Any :
    (test : Net → Bool) (P : Net → Type 0) (nets : List Net)
    → All (λ m. (test m ≡ true) ↔ P m) nets
    → (some_of test nets ≡ true) ↔ Any P nets
some_of-Any test P [] h = (λ e. absurd (false≢true e), λ p. elim p [ ])
some_of-Any test P (n ∷ ns) h =
    let later = some_of-Any test P ns h.1 in
    (
      λ e. elim (Bool-cases (test n)) [
        | inl passes ↦ inl (h.0.0 passes)
        | inr fails ↦ inr (later.0 (ground (arith, fails, e)))
      ],
      λ p. elim p [
        | inl holds ↦ ground (arith, h.0.1 holds)
        | inr rest ↦ ground (arith, later.1 rest)
      ],
    )

All-covers :
    (n : Net)
    → IsNet n
    → (nets : List Net) → All IsNet nets
    → All (λ m. (covers m n ≡ true) ↔ ((a : ℕ) → Holds n n.bits a → Holds m n.bits a)) nets
All-covers n mask [] h = tt
All-covers n mask (m ∷ ms) h = (covers_iff m n h.0 mask, All-covers n mask ms h.1)

All-overlaps :
    (n : Net) (nets : List Net)
    → All (λ m. (overlaps m n ≡ true) ↔ ((a : ℕ) × Holds n n.bits a × Holds m n.bits a)) nets
All-overlaps n [] = tt
All-overlaps n (m ∷ ms) = (overlaps_iff m n, All-overlaps n ms)

module _ (parse : String → Option Net) where
  -- These are the nets of the texts.
  abbrev pub Parses : List String → List Net → Type 0
  Parses [] [] = Unit
  Parses (c ∷ cs) (n ∷ ns) = (parse c ≡ some n) × Parses cs ns
  Parses [] (n ∷ ns) = ⊥
  Parses (c ∷ cs) [] = ⊥

  -- The loop over CIDRs that are all valid.
  any_net-some_of :
      (test : Net → Bool) (list : List String) (nets : List Net)
      → Parses list nets
      → any_net parse test list ≡ some (some_of test nets)
  unfolding any_net
  any_net-some_of test [] [] h = refl
  any_net-some_of test [] (n ∷ ns) h = elim h [ ]
  any_net-some_of test (c ∷ cs) [] h = elim h [ ]
  any_net-some_of test (c ∷ cs) (n ∷ ns) h =
      rw (any_net, h.0, any_net-some_of test cs ns h.1) (joined (test n) (some_of test ns))
    where
      joined : (b later : Bool) → (if b then some true else some later) ≡ some (b || later)
      joined true later = refl
      joined false later = refl

  -- Where the loop comes to its end every CIDR is valid, and none passes the test.
  pub any_net-false :
      (test : Net → Bool) (list : List String)
      → any_net parse test list ≡ some false
      → All (λ c. (n : Net) × (parse c ≡ some n) × (test n ≡ false)) list
  unfolding any_net
  any_net-false test [] h = tt
  any_net-false test (c ∷ cs) h =
      let (here, later) = fails (any_net parse test cs) (parse c) refl h in
      (here, any_net-false test cs later)
    where
      fails :
          (later : Option Bool) (o : Option Net)
          → parse c ≡ o
          → (elim o [ none ↦ none | some n ↦ if test n then some true else later ]) ≡ some false
          → ((n : Net) × (parse c ≡ some n) × (test n ≡ false)) × (later ≡ some false)
      fails later none e h = cc h
      fails later (some n) e h = elim (Bool-cases (test n)) [
        | inl passes ↦ cc (passes, h)
        | inr left ↦ ((n, e, left), cc (left, h))
      ]

  -- Where the loop answers true, some CIDR is valid and passes.
  pub any_net-true :
      (test : Net → Bool) (list : List String)
      → any_net parse test list ≡ some true
      → Any (λ c. (n : Net) × (parse c ≡ some n) × (test n ≡ true)) list
  unfolding any_net
  any_net-true test [] h = absurd (false≢true (some_inj.0 h))
  any_net-true test (c ∷ cs) h =
      passes (any_net parse test cs) (any_net-true test cs) (parse c) refl h
    where
      passes :
          (later : Option Bool)
          → (later ≡ some true → Any (λ c'. (n : Net) × (parse c' ≡ some n) × (test n ≡ true)) cs)
          → (o : Option Net) → parse c ≡ o
          → (elim o [ none ↦ none | some n ↦ if test n then some true else later ]) ≡ some true
          → Any (λ c'. (n : Net) × (parse c' ≡ some n) × (test n ≡ true)) (c ∷ cs)
      passes later found none e h = cc h
      passes later found (some n) e h = elim (Bool-cases (test n)) [
        | inl passed ↦ inl (n, e, passed)
        | inr failed ↦ inr (found (cc (failed, h)))
      ]

  first_overlap-none :
      (remote locals : List String)
      → (first_overlap parse remote locals ≡ none)
        ↔ All (λ c. is_overlapping parse remote c ≢ some true) locals
  unfolding first_overlap
  first_overlap-none remote [] = (λ e. tt, λ h. refl)
  first_overlap-none remote (c ∷ locals) =
      at (is_overlapping parse remote c) (first_overlap-none remote locals)
    where
      at :
          {P : Type 0} {later : Option String} (o : Option Bool)
          → ((later ≡ none) ↔ P)
          → (elim o [ some true ↦ some c | _ ↦ later ] ≡ none) ↔ ((o ≢ some true) × P)
      at none later = (λ e. ((λ f. cc f), later.0 e), λ p. later.1 p.1)
      at (some false) later = (λ e. ((λ f. cc f), later.0 e), λ p. later.1 p.1)
      at (some true) later = (λ e. cc e, λ p. absurd (p.0 refl))

  -- `OverlappingSubnets` reports no error exactly where no local CIDR is found to overlap the
  -- remote subnets; an invalid CIDR among those that are looked at before an overlap is no error.
  pub overlapping_subnets-none :
      (services pods remote : List String)
      → (overlapping_subnets parse services pods remote ≡ none) ↔ (
          All (λ c. is_overlapping parse remote c ≢ some true) services
          × All (λ c. is_overlapping parse remote c ≢ some true) pods)
  unfolding overlapping_subnets
  overlapping_subnets-none services pods remote =
      at (first_overlap parse remote services) (first_overlap parse remote pods)
        (first_overlap-none remote services) (first_overlap-none remote pods)
    where
      at :
          {P Q : Type 0} (s t : Option String)
          → ((s ≡ none) ↔ P)
          → ((t ≡ none) ↔ Q)
          → (elim s [
            | some cidr ↦ some (service_overlaps cidr)
            | none ↦ elim t [ some cidr ↦ some (pod_overlaps cidr) | none ↦ none ]
          ]
              ≡ none)
            ↔ (P × Q)
      at (some c) t h k = (λ e. cc e, λ p. cc (h.1 p.0))
      at none (some c) h k = (λ e. cc e, λ p. cc (k.1 p.1))
      at none none h k = (λ e. (h.0 refl, k.0 refl), λ p. refl)

  module _ (list : List String) (nets : List Net) (cidr : String) (n : Net)
      (valid : Parses list nets) (parsed : parse cidr ≡ some n) where
    -- `IsContained` answers true exactly where one CIDR of the list has every address of the inner
    -- one.
    pub is_contained_iff :
        All IsNet nets
        → IsNet n
        → (is_contained parse list cidr ≡ some true)
          ↔ Any (λ m. (a : ℕ) → Holds n n.bits a → Holds m n.bits a) nets
    unfolding is_contained
    is_contained_iff masks mask =
        let decides = some_of-Any (λ m. covers m n) _ nets (All-covers n mask nets masks) in
        rw (is_contained, parsed, any_net-some_of (λ m. covers m n) list nets valid)
          (λ h. decides.0 (some_inj.0 h), λ p. ap some (decides.1 p))

    -- `IsOverlapping` answers true exactly where one CIDR of the list has an address in common with
    -- the other one.
    pub is_overlapping_iff :
        (is_overlapping parse list cidr ≡ some true)
        ↔ Any (λ m. (a : ℕ) × Holds n n.bits a × Holds m n.bits a) nets
    unfolding is_overlapping
    is_overlapping_iff =
        let decides = some_of-Any (λ m. overlaps m n) _ nets (All-overlaps n nets) in
        rw (is_overlapping, parsed, any_net-some_of (λ m. overlaps m n) list nets valid)
          (λ h. decides.0 (some_inj.0 h), λ p. ap some (decides.1 p))
