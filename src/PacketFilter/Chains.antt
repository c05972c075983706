-- ===== src/PacketFilter/Chains.antt =====
-- What the adapter relies on of a driver that works: a chain is a list of rules, which `List`
-- answers, `Delete` takes the first occurrence from (and answers no error where there is none),
-- `Append` adds to, and `Insert` puts a rule into at a position from 1 to one after the last.
use submariner.Base.{
  ℕ, zero, suc, ◌+◌, ◌≤◌, String, ◌≡◌, refl, sym, ap, subst, ◌∙◌, inl, inr, Bool, true, false, some,
  List, [], ◌∷◌, ◌++◌, length, arith, if◌then◌else◌, Bool-cases,
}
use submariner.PacketFilter.Rules.{TableType, Rule, rule_equal, rule_equal_iff, Driver}
use submariner.PacketFilter.Adapter.{then_ok, has, without, delete_times}
use submariner.PacketFilter.Members.{Once, without_lacking}

unfoldable pub drop_first : Rule → List Rule → List Rule
drop_first r [] = []
drop_first r (x ∷ v) = let rest = drop_first r v in if rule_equal x r then v else x ∷ rest

unfoldable pub insert_at : ℕ → Rule → List Rule → List Rule
insert_at zero r v = r ∷ v
insert_at (suc n) r [] = r ∷ []
insert_at (suc n) r (x ∷ v) = x ∷ insert_at n r v

unfoldable pub count : Rule → List Rule → ℕ
count r [] = 0
count r (x ∷ v) = let rest = count r v in if rule_equal x r then suc rest else rest

-- A call that succeeds and leaves the chain with these rules.
abbrev pub Done : {D : Type 0} → (D → List Rule) → List Rule → Bool × D → Type 0
Done view v (ok, d) = (ok ≡ true) × (view d ≡ v)

pub record IsChain {D : Type 0} (drv : Driver D) (table : TableType) (chain : String)
    (view : D → List Rule) : Type 0 where
  pub listed : (d : D) → drv.list table chain d ≡ some (view d)
  pub deleted : (r : Rule) (d : D) → Done view (drop_first r (view d)) (drv.delete table chain r d)
  pub appended : (r : Rule) (d : D) → Done view (view d ++ r ∷ []) (drv.append table chain r d)
  pub inserted :
      (n : ℕ) (r : Rule) (d : D)
      → n ≤ length (view d)
      → Done view (insert_at n r (view d)) (drv.insert table chain (n + 1) r d)

pub then_ok-Done :
    {D : Type 0} (view : D → List Rule) (v w : List Rule) (next : D → Bool × D) (r : Bool × D)
    → Done view v r
    → ((d : D) → view d ≡ v → Done view w (next d))
    → Done view w (then_ok next r)
then_ok-Done view v w next (true, d) h k = k d h.1
then_ok-Done view v w next (false, d) h k = cc (h.0)

pub insert_at-append : (r : Rule) (v w : List Rule) → insert_at (length v) r (v ++ w) ≡ v ++ r ∷ w
unfolding insert_at
insert_at-append r [] w = refl
insert_at-append r (x ∷ v) w = ap (λ l. x ∷ l) (insert_at-append r v w)

pub count-has : (r : Rule) (v : List Rule) → count r v ≡ 0 → has v r ≡ false
unfolding count
count-has r [] e = refl
count-has r (x ∷ v) e = elim (Bool-cases (rule_equal x r)) [
  | inl same ↦ ground arith
  | inr other ↦ ground (arith, count-has r v (ground arith))
]

count-drop_first :
    (r : Rule) (v : List Rule) (n : ℕ) → count r v ≡ suc n → count r (drop_first r v) ≡ n
unfolding count drop_first
count-drop_first r [] n e = omega arith
count-drop_first r (x ∷ v) n e = elim (Bool-cases (rule_equal x r)) [
  | inl same ↦ ground arith
  | inr other ↦ ground (arith, count-drop_first r v n (ground arith))
]

without-drop_first : (r : Rule) (v : List Rule) → without r (drop_first r v) ≡ without r v
unfolding drop_first
without-drop_first r [] = refl
without-drop_first r (x ∷ v) = ground (arith, without-drop_first r v)

pub drop_first-Once : (r : Rule) (v : List Rule) → Once v → drop_first r v ≡ without r v
unfolding drop_first Once
drop_first-Once r [] h = refl
drop_first-Once r (x ∷ v) h = elim (Bool-cases (rule_equal x r)) [
  | inl same ↦ ground (
    arith,
    without_lacking r v (subst (λ y. has v y ≡ false) ((rule_equal_iff x r).0 same) (h.0)),
  )
  | inr other ↦ ground (arith, drop_first-Once r v h.1)
]

module _ {D : Type 0} (drv : Driver D) (table : TableType) (chain : String) (view : D → List Rule)
    (laws : IsChain drv table chain view) where
  -- Deleting a rule as often as it occurs leaves all the other rules.
  pub delete_times-Done :
      (n : ℕ) (r : Rule) (d : D)
      → count r (view d) ≡ n
      → Done view (without r (view d)) (delete_times drv table chain n r d)
  unfolding delete_times
  delete_times-Done zero r d e = (refl, sym (without_lacking r (view d) (count-has r (view d) e)))
  delete_times-Done (suc n) r d e =
      then_ok-Done view _ _ (delete_times drv table chain n r) _ (laws.deleted r d) (λ d' v.
        subst (λ w. Done view w (delete_times drv table chain n r d'))
          (ap (without r) v ∙ without-drop_first r (view d))
          (delete_times-Done n r d' (ap (count r) v ∙ count-drop_first r (view d) n e)))
