-- ===== src/PacketFilter/Specs/Parses.antt =====
-- The loop of `FromRuleSpec` (pkg/packetfilter/iptables/iptables.go) as a relation, and its end.
use submariner.Base.{
  ℕ, zero, suc, ◌≤◌, String, ◌≡◌, refl, ap, ◌∙◌, some, List, [], ◌∷◌, length, arith,
}
use submariner.PacketFilter.Rules.{Rule}
use submariner.PacketFilter.Specs.{
  parse_term, parse_terms, parse_set, parse_mark_match, parse_rule_match, reset_result, proto_reset,
  zero_rule, from_rule_spec,
}

-- The rounds from a rule and the arguments that are left make this rule.
pub data Parses : Rule → List String → Rule → Type 0 where
  done : {rule : Rule} → Parses rule [] rule
  more :
      {rule result : Rule} {flag : String} {rest : List String}
      → Parses (parse_term rule flag rest).0 (parse_term rule flag rest).1 result
      → Parses rule (flag ∷ rest) result

-- What a helper leaves of the arguments that it was given.
abbrev Shortens : List String → Rule × List String → Type 0
Shortens rest (rule, left) = length left ≤ length rest

parse_set-Shortens : (rule : Rule) (rest : List String) → Shortens rest (parse_set rule rest)
parse_set-Shortens rule [] = omega arith
parse_set-Shortens rule (a ∷ []) = omega arith
parse_set-Shortens rule (a ∷ b ∷ []) = omega arith
parse_set-Shortens rule (a ∷ b ∷ c ∷ rest) = ground arith

parse_mark_match-Shortens :
    (rule : Rule) (rest : List String) → Shortens rest (parse_mark_match rule rest)
parse_mark_match-Shortens rule [] = omega arith
parse_mark_match-Shortens rule (a ∷ []) = omega arith
parse_mark_match-Shortens rule (a ∷ b ∷ rest) = ground arith

parse_rule_match-Shortens :
    (rule : Rule) (rest : List String) → Shortens rest (parse_rule_match rule rest)
parse_rule_match-Shortens rule [] = omega arith
parse_rule_match-Shortens rule (kind ∷ rest) =
    ground (arith, parse_mark_match-Shortens rule rest, parse_set-Shortens rule rest)

parse_term-Shortens :
    (rule : Rule) (flag : String) (rest : List String) → Shortens rest (parse_term rule flag rest)
unfolding parse_term
parse_term-Shortens rule flag [] = ground arith
parse_term-Shortens rule flag (s ∷ rest) = ground (arith, parse_rule_match-Shortens rule (s ∷ rest))

-- With a round for each argument the loop ends, and a relation holds.
parse_terms-Parses :
    (n : ℕ) (rule : Rule) (spec : List String)
    → length spec ≤ n
    → (result : Rule) × (parse_terms n rule spec ≡ some result) × Parses rule spec result
unfolding parse_terms
parse_terms-Parses n rule [] h = (rule, refl, done)
parse_terms-Parses zero rule (flag ∷ rest) h = absurd (omega arith)
parse_terms-Parses (suc n) rule (flag ∷ rest) h =
    let (result, e, p) =
      parse_terms-Parses n (parse_term rule flag rest).0 (parse_term rule flag rest).1
        (omega (arith, parse_term-Shortens rule flag rest)) in
    (result, e, more p)

-- The relation has one result.
Parses-unique :
    {rule r r' : Rule} {spec : List String} → Parses rule spec r → Parses rule spec r' → r ≡ r'
Parses-unique done done = refl
Parses-unique (more p) (more q) = Parses-unique p q

pub Parses-from_rule_spec :
    (spec : List String) (rule : Rule)
    → Parses zero_rule spec rule
    → from_rule_spec spec ≡ some (proto_reset rule)
unfolding from_rule_spec
Parses-from_rule_spec spec rule p =
    let (r, e, q) = parse_terms-Parses (length spec) zero_rule spec (omega arith) in
    ap reset_result (e ∙ ap some (Parses-unique q p))
