-- ===== src/PacketFilter/Members.antt =====
-- Lists of rules as the adapter reads them: which rules are in a list, and what is left without
-- some.
use mathlib.Core.Bool.{false≢true}
use submariner.Base.{
  ◌≡◌, refl, sym, ap, inl, inr, ◌∙◌, Bool, true, false, not, ◌&&◌, ◌||◌, List, [], ◌∷◌, ◌++◌, keep,
  arith, Bool-cases,
}
use submariner.PacketFilter.Rules.{Rule, rule_equal, rule_equal_iff}
use submariner.PacketFilter.Adapter.{has, without}

pub rule_equal_refl : (a : Rule) → rule_equal a a ≡ true
rule_equal_refl a = (rule_equal_iff a a).1 refl

pub rule_equal_comm : (a b : Rule) → rule_equal a b ≡ rule_equal b a
rule_equal_comm a b = elim (Bool-cases (rule_equal a b)) [
  | inl e ↦ cc ((rule_equal_iff a b).0 e)
  | inr e ↦ elim (Bool-cases (rule_equal b a)) [
    | inl f ↦ cc ((rule_equal_iff b a).0 f)
    | inr f ↦ cc
  ]
]

-- Two tests that agree on the members keep the same ones.
pub keep_members :
    (p q : Rule → Bool) (v : List Rule)
    → ((x : Rule) → has v x ≡ true → p x ≡ q x)
    → keep p v ≡ keep q v
keep_members p q [] h = refl
keep_members p q (r ∷ v) h =
    let rest = keep_members p q v (λ x m. h x (ground arith)) in
    ground (arith, rest, h r (ground (arith, rule_equal_refl r)))

pub keep_all : (v : List Rule) → keep (λ r. true) v ≡ v
keep_all [] = refl
keep_all (x ∷ v) = ap (λ l. x ∷ l) (keep_all v)

pub keep-append : (p : Rule → Bool) (v w : List Rule) → keep p (v ++ w) ≡ keep p v ++ keep p w
keep-append p [] w = refl
keep-append p (r ∷ v) w = ground (arith, keep-append p v w)

-- Nothing is left out without a rule that is not there.
pub without_lacking : (r : Rule) (v : List Rule) → has v r ≡ false → without r v ≡ v
without_lacking r [] h = refl
without_lacking r (x ∷ v) h = elim (Bool-cases (rule_equal x r)) [
  | inl e ↦ ground arith
  | inr e ↦ ground (arith, without_lacking r v (ground arith))
]

-- The rules of a list of unequal rules.
unfoldable pub Once : List Rule → Type 0
Once [] = Unit
Once (r ∷ v) = (has v r ≡ false) × Once v

pub keep-without :
    (r : Rule) (rest v : List Rule)
    → keep (λ x. not (has rest x)) (without r v) ≡ keep (λ x. not (has (r ∷ rest) x)) v
keep-without r rest [] = refl
keep-without r rest (x ∷ v) = ground (arith, rule_equal_comm x r, keep-without r rest v)

pub has-keep : (p : Rule → Bool) (v : List Rule) (x : Rule) → has (keep p v) x ≡ (has v x && p x)
has-keep p [] x = refl
has-keep p (r ∷ v) x = elim (Bool-cases (rule_equal r x)) [
  | inl e ↦ ground (arith, (rule_equal_iff r x).0 e, has-keep p v x)
  | inr e ↦ ground (arith, has-keep p v x)
]

pub has-append : (v w : List Rule) (x : Rule) → has (v ++ w) x ≡ (has v x || has w x)
has-append [] w x = refl
has-append (r ∷ v) w x = ground (arith, has-append v w x)

-- A rule that is there is not one that is not.
pub has_apart :
    (v : List Rule) (x r : Rule) → has v x ≡ true → has v r ≡ false → rule_equal x r ≡ false
has_apart v x r there lacking = elim (Bool-cases (rule_equal x r)) [
  | inl same ↦
      absurd (false≢true (sym lacking ∙ ap (has v) (sym ((rule_equal_iff x r).0 same)) ∙ there))
  | inr other ↦ other
]
