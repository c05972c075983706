-- ===== src/PacketFilter/Several.antt =====
-- `PrependUnique` of pkg/packetfilter/adapter.go with several rules, each of which is compared with
-- the rules that were listed at first.
use mathlib.Core.List.{append_assoc}
use submariner.Base.{
  ℕ, ◌+◌, String, ◌≡◌, refl, sym, ap, subst, ◌∙◌, Bool, true, false, List, [], ◌∷◌, ◌++◌, length,
  length-append, All, arith,
}
use submariner.PacketFilter.Rules.{TableType, Rule, Driver}
use submariner.PacketFilter.Adapter.{
  then_ok, scan_step, ensure_scanned, scan, has, delete_times, ensure_rule_at_position,
  prepend_each, prepend_unique,
}
use submariner.PacketFilter.Members.{rule_equal_refl, rule_equal_comm, Once, has-append}
use submariner.PacketFilter.Chains.{insert_at, Done, IsChain, then_ok-Done, insert_at-append}
use submariner.PacketFilter.Prepend.{scan_lacking}

scan-append :
    (r : Rule) (position i : ℕ) (v w : List Rule) (found : Bool × ℕ)
    → scan r position i (v ++ w) found
      ≡ scan r position (i + length v) w (scan r position i v found)
unfolding scan
scan-append r position i [] w found = ground arith
scan-append r position i (x ∷ v) w found =
    scan-append r position (i + 1) v w (scan_step r position i x found)
    ∙ ap (λ k. scan r position k w (scan r position (i + 1) v (scan_step r position i x found)))
        (omega arith)

step_at : (r : Rule) (i k : ℕ) → i ≡ k → scan_step r (i + 1) k r (false, 0) ≡ (true, 1)
step_at r i k e = ground (arith, rule_equal_refl r)

-- A rule that is at its position alone is found there, once.
scan_at :
    (r : Rule) (v w : List Rule) (i : ℕ)
    → i ≡ length v
    → has v r ≡ false
    → has w r ≡ false
    → scan r (i + 1) 0 (v ++ r ∷ w) (false, 0) ≡ (true, 1)
unfolding scan
scan_at r v w i e before after =
    scan-append r (i + 1) 0 v (r ∷ w) (false, 0)
    ∙ ap (λ f. scan r (i + 1) (0 + length v) (r ∷ w) f)
        (scan_lacking r (i + 1) 0 v (false, 0) before)
    ∙ ap (λ f. scan r (i + 1) (0 + length v + 1) w f) (step_at r i (0 + length v) (omega arith))
    ∙ scan_lacking r (i + 1) (0 + length v + 1) w (true, 1) after

Once-split :
    (v w : List Rule) (r : Rule) → Once (v ++ r ∷ w) → (has v r ≡ false) × (has w r ≡ false)
unfolding Once
Once-split [] w r h = (refl, h.0)
Once-split (x ∷ v) w r h =
    let (before, after) = Once-split v w r h.1 in
    (ground (arith, has-append v (r ∷ w) x, rule_equal_comm x r), after)

longer : (v : List Rule) (r : Rule) (i : ℕ) → i ≡ length v → i + 1 ≡ length (v ++ r ∷ [])
longer v r i e = omega (arith, length-append v (r ∷ []))

found_in_place :
    (existing v w : List Rule) (r : Rule) (i : ℕ)
    → i ≡ length v
    → existing ≡ v ++ r ∷ w
    → Once existing
    → scan r (i + 1) 0 existing (false, 0) ≡ (true, 1)
found_in_place existing v w r i e shown once =
    let (before, after) = Once-split v w r (subst Once shown once) in
    ap (λ l. scan r (i + 1) 0 l (false, 0)) shown ∙ scan_at r v w i e before after

module _ {D : Type 0} (drv : Driver D) (table : TableType) (chain : String) (view : D → List Rule)
    (laws : IsChain drv table chain view) where
  ensure_fresh :
      (r : Rule) (existing v : List Rule) (i : ℕ) (d : D)
      → i ≡ length v
      → view d ≡ v ++ existing
      → has existing r ≡ false
      → Done view (v ++ r ∷ existing) (ensure_rule_at_position drv table chain existing (i + 1) r d)
  unfolding ensure_rule_at_position delete_times
  ensure_fresh r existing v i d e shown lacking =
      rw (scan_lacking r (i + 1) 0 existing (false, 0) lacking) (
        subst (λ l. Done view l (drv.insert table chain (i + 1) r d))
          (ap (λ k. insert_at k r (view d)) e
            ∙ ap (insert_at (length v) r) shown
            ∙ insert_at-append r v existing)
          (laws.inserted i r d (omega (arith, ap length shown, length-append v existing))))

  each_fresh :
      (existing v rules : List Rule) (i : ℕ) (d : D)
      → i ≡ length v
      → view d ≡ v ++ existing
      → All (λ r. has existing r ≡ false) rules
      → Done view (v ++ (rules ++ existing)) (prepend_each drv table chain existing i rules d)
  unfolding prepend_each
  each_fresh existing v [] i d e shown h = (refl, shown)
  each_fresh existing v (r ∷ rules) i d e shown h =
      then_ok-Done view (v ++ r ∷ existing) _ _ _ (ensure_fresh r existing v i d e shown h.0)
        (λ d' s.
          subst (λ l. Done view l (prepend_each drv table chain existing (i + 1) rules d'))
            (append_assoc v (r ∷ []) (rules ++ existing))
            (each_fresh existing (v ++ r ∷ []) rules (i + 1) d' (longer v r i e)
              (s ∙ sym (append_assoc v (r ∷ []) existing)) h.1))

  -- In a chain that has none of the rules, `PrependUnique` puts all of them, in their order, before
  -- the rules that were there, without an error.
  prepend_unique_fresh :
      (rules : List Rule) (d : D)
      → All (λ r. has (view d) r ≡ false) rules
      → Done view (rules ++ view d) (prepend_unique drv table chain rules d)
  unfolding prepend_unique
  prepend_unique_fresh rules d h =
      rw (prepend_unique, laws.listed d) (each_fresh (view d) [] rules 0 d refl refl h)

  each_in_place :
      (existing v rules rest : List Rule) (i : ℕ) (d : D)
      → i ≡ length v
      → existing ≡ v ++ (rules ++ rest)
      → Once existing
      → prepend_each drv table chain existing i rules d ≡ (true, d)
  unfolding prepend_each ensure_rule_at_position
  each_in_place existing v [] rest i d e shown once = refl
  each_in_place existing v (r ∷ rules) rest i d e shown once =
      ap
        (λ f.
          then_ok (prepend_each drv table chain existing (i + 1) rules)
            (ensure_scanned drv table chain (i + 1) r f d))
        (found_in_place existing v (rules ++ rest) r i e shown once)
      ∙ each_in_place existing (v ++ r ∷ []) rules rest (i + 1) d (longer v r i e)
          (shown ∙ sym (append_assoc v (r ∷ []) (rules ++ rest))) once

  -- Where the chain begins with the rules in their order, and no rule is in it twice,
  -- `PrependUnique` only lists it: no rule is deleted or inserted.
  pub prepend_unique_in_place :
      (rules rest : List Rule) (d : D)
      → view d ≡ rules ++ rest
      → Once (view d)
      → prepend_unique drv table chain rules d ≡ (true, d)
  unfolding prepend_unique
  prepend_unique_in_place rules rest d shown once =
      rw (prepend_unique, laws.listed d) (each_in_place (view d) [] rules rest 0 d refl shown once)

  -- A rule can end up behind its position: from a chain `x, b, ...` that lacks `a`, and has no
  -- other `b`, prepending `a, b` makes `a, x, b, ...`, without an error, since the chain as it was
  -- listed before the first insertion shows `b` at the second position.
  pub prepend_unique_misplaces :
      (a b x : Rule) (rest : List Rule) (d : D)
      → view d ≡ x ∷ b ∷ rest
      → has (view d) a ≡ false
      → has (x ∷ []) b ≡ false
      → has rest b ≡ false
      → Done view (a ∷ x ∷ b ∷ rest) (prepend_unique drv table chain (a ∷ b ∷ []) d)
  unfolding prepend_each ensure_rule_at_position prepend_unique
  prepend_unique_misplaces a b x rest d shown lacking other_first alone =
      rw (prepend_unique, laws.listed d)
        (then_ok-Done view (a ∷ view d) _ _ _ (ensure_fresh a (view d) [] 0 d refl refl lacking)
          (λ d' s.
            subst
              (λ f. Done view (a ∷ x ∷ b ∷ rest) (
                then_ok (prepend_each drv table chain (view d) 2 [])
                  (ensure_scanned drv table chain 2 b f d')))
              (sym (
                ap (λ l. scan b 2 0 l (false, 0)) shown
                ∙ scan_at b (x ∷ []) rest 1 refl other_first alone))
              (refl, s ∙ ap (λ l. a ∷ l) shown)))
