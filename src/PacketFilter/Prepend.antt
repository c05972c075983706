-- ===== src/PacketFilter/Prepend.antt =====
-- `PrependUnique` of pkg/packetfilter/adapter.go: where the rules stand afterwards.
use submariner.Base.{
  ℕ, suc, ◌+◌, String, ◌≡◌, refl, sym, ap, subst, ◌∙◌, inl, inr, Bool, true, false, not, ◌&&◌, ◌||◌,
  List, [], ◌∷◌, arith, ltb, ◌==◌, if◌then◌else◌, Bool-cases,
}
use submariner.PacketFilter.Rules.{TableType, Rule, rule_equal, rule_equal_iff, Driver}
use submariner.PacketFilter.Adapter.{
  scan, has, without, delete_times, ensure_scanned, ensure_rule_at_position, prepend_each,
  prepend_unique,
}
use submariner.PacketFilter.Members.{without_lacking}
use submariner.PacketFilter.Chains.{
  insert_at, count, Done, IsChain, then_ok-Done, count-has, delete_times-Done,
}

-- Past the position the scan only counts.
scan-count :
    (r : Rule) (i : ℕ) (v : List Rule) (present : Bool) (n : ℕ)
    → scan r 1 (suc i) v (present, n) ≡ (present, n + count r v)
unfolding scan count
scan-count r i [] present n = ground arith
scan-count r i (x ∷ v) present n = elim (Bool-cases (rule_equal x r)) [
  | inl same ↦ ground (arith, scan-count r (i + 1) v present (n + 1))
  | inr other ↦ ground (arith, scan-count r (i + 1) v present n)
]

scan_first :
    (r x : Rule) (v : List Rule) → scan r 1 0 (x ∷ v) (false, 0) ≡ (rule_equal x r, count r (x ∷ v))
unfolding scan count
scan_first r x v = elim (Bool-cases (rule_equal x r)) [
  | inl same ↦ ground (arith, scan-count r 0 v true 1)
  | inr other ↦ ground (arith, scan-count r 0 v false 0)
]

-- A rule that is not there is not found.
pub scan_lacking :
    (r : Rule) (position i : ℕ) (v : List Rule) (found : Bool × ℕ)
    → has v r ≡ false
    → scan r position i v found ≡ found
unfolding scan
scan_lacking r position i [] found h = refl
scan_lacking r position i (x ∷ v) (present, n) h = elim (Bool-cases (rule_equal x r)) [
  | inl same ↦ ground arith
  | inr other ↦ ground (arith, scan_lacking r position (i + 1) v (present, n) (ground arith))
]

module _ {D : Type 0} (drv : Driver D) (table : TableType) (chain : String) (view : D → List Rule)
    (laws : IsChain drv table chain view) where
  abbrev first : Rule → D → List Rule
  first r d = r ∷ without r (view d)

  inserted_first :
      (r : Rule) (d d' : D)
      → view d' ≡ without r (view d)
      → Done view (first r d) (drv.insert table chain 1 r d')
  unfolding insert_at
  inserted_first r d d' v =
      subst (λ w. Done view (r ∷ w) (drv.insert table chain 1 r d')) v
        (laws.inserted 0 r d' (omega arith))

  cleared :
      (r : Rule) (present : Bool) (n : ℕ) (d : D)
      → count r (view d) ≡ n
      → (n == 1 && present) ≡ false
      → Done view
          (without r (view d))
          (if ltb 1 n || not present then delete_times drv table chain n r d else (true, d))
  cleared r present n d counted misplaced = elim (Bool-cases (ltb 1 n || not present)) [
    | inl deletes ↦ rw deletes (delete_times-Done drv table chain view laws n r d counted)
    | inr keeps ↦
        rw keeps (refl, sym (without_lacking r (view d) (count-has r (view d) (ground arith))))
  ]

  -- A rule that is not at the first position alone is moved there.
  ensure_misplaced :
      (r : Rule) (present : Bool) (n : ℕ) (d : D)
      → count r (view d) ≡ n
      → (n == 1 && present) ≡ false
      → Done view (first r d) (ensure_scanned drv table chain 1 r (present, n) d)
  ensure_misplaced r present n d counted misplaced =
      then_ok-Done view (without r (view d)) (first r d) _ _
        (cleared r present n d counted misplaced) (λ d' v. rw misplaced (inserted_first r d d' v))

  pub ensure_kept :
      (r : Rule) (present : Bool) (n position : ℕ) (d : D)
      → (n == 1 && present) ≡ true
      → ensure_scanned drv table chain position r (present, n) d ≡ (true, d)
  ensure_kept r present n position d alone = ground arith

  kept_at_first :
      (r x : Rule) (v : List Rule) (d : D)
      → view d ≡ x ∷ v
      → (count r (x ∷ v) == 1 && rule_equal x r) ≡ true
      → Done view
          (first r d)
          (ensure_scanned drv table chain 1 r (rule_equal x r, count r (x ∷ v)) d)
  unfolding count
  kept_at_first r x v d e alone =
      let kept = ensure_kept r (rule_equal x r) (count r (x ∷ v)) 1 d alone in
      let same = (rule_equal_iff x r).0 (ground arith) in
      let lone = without_lacking r v (count-has r v (ground arith)) in
      (ap (λ p. p.0) kept, ap (λ p. view p.1) kept ∙ ground (arith, same, lone))

  ensure_at_first :
      (r : Rule) (d : D) (v : List Rule)
      → view d ≡ v
      → Done view (first r d) (ensure_rule_at_position drv table chain v 1 r d)
  unfolding ensure_rule_at_position scan count
  ensure_at_first r d [] e = ensure_misplaced r false 0 d (ap (count r) e) refl
  ensure_at_first r d (x ∷ v) e =
      rw (scan_first r x v) (elim (Bool-cases (count r (x ∷ v) == 1 && rule_equal x r)) [
        | inl alone ↦ kept_at_first r x v d e alone
        | inr misplaced ↦
            ensure_misplaced r (rule_equal x r) (count r (x ∷ v)) d (ap (count r) e) misplaced
      ])

  -- `PrependUnique` of one rule leaves it at the first position and nowhere else in the chain, with
  -- the other rules behind it in their order, and without an error, whatever the chain was before.
  pub prepend_unique_single :
      (r : Rule) (d : D)
      → Done view (r ∷ without r (view d)) (prepend_unique drv table chain (r ∷ []) d)
  unfolding prepend_unique prepend_each
  prepend_unique_single r d =
      rw (prepend_unique, laws.listed d)
        (then_ok-Done view _ _ _ _ (ensure_at_first r d (view d) refl) (λ d' v. (refl, v)))
