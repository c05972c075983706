-- ===== src/PacketFilter/IpTables/Listing.antt =====
-- What the driver of pkg/packetfilter/iptables/iptables.go relies on of the iptables command: a
-- chain is a list of rules given as arguments, which the listing shows as lines.
use mathlib.Core.Bool.{false≢true}
use submariner.Endpoint.{texts_equal}
use submariner.Endpoint.Equality.{texts_equal_refl}
use submariner.Base.{
  ℕ, zero, suc, ◌+◌, String, ◌≡◌, refl, ap, inl, inr, Bool, true, false, not, ◌&&◌, ◌||◌, Option,
  none, some, List, [], ◌∷◌, ◌++◌, length, All, arith, leb, and_iff, str_eq, if◌then◌else◌,
  Bool-cases,
}
use submariner.Base.Texts.{has_char, join, split-join}
use submariner.PacketFilter.Rules.{
  Rule, RuleAction, action_jump, action_accept, action_mss, action_mark, action_snat, action_dnat,
  action_self_snat, rule_equal, rule_equal_iff, texts_equal_sound,
}
use submariner.PacketFilter.Members.{rule_equal_refl}
use submariner.PacketFilter.Specs.{to_rule_spec, is_action}
use submariner.PacketFilter.Specs.RoundTrip.{
  is_printable, acts_well, clamps_well, from_rule_spec-to_rule_spec,
}
use submariner.PacketFilter.Chains.{drop_first, insert_at}
use submariner.PacketFilter.IpTables.{
  not_exist, Library, rules_of_words, rules_of_lines, append_rules, is_self_snat,
}

abbrev pub has_spec : List String → List (List String) → Bool
has_spec spec [] = false
has_spec spec (s ∷ specs) = texts_equal s spec || has_spec spec specs

unfoldable pub drop_spec : List String → List (List String) → List (List String)
drop_spec spec [] = []
drop_spec spec (s ∷ specs) =
    let rest = drop_spec spec specs in if texts_equal s spec then specs else s ∷ rest

unfoldable pub insert_spec : ℕ → List String → List (List String) → List (List String)
insert_spec zero spec specs = spec ∷ specs
insert_spec (suc n) spec [] = spec ∷ []
insert_spec (suc n) spec (s ∷ specs) = s ∷ insert_spec n spec specs

abbrev pub lines : (List String → List String) → String → List (List String) → List String
lines shown chain [] = []
lines shown chain (spec ∷ specs) = join ("-A" ∷ chain ∷ shown spec) ∷ lines shown chain specs

-- The documented behaviour of the command on one chain that was made by `-N`: `-S` shows its name
-- and then its rules; `-D` deletes the first rule that is given so, or fails as there is none; `-A`
-- and `-I` add a rule, where `-I` refuses a position behind the end. `shown` is how a rule is
-- shown.
pub record KeepsSpecs {I : Type 0} (ipt : Library I) (table chain : String)
    (shown : List String → List String) (specs : I → List (List String)) : Type 0 where
  pub listed :
      (i : I)
      → ipt.list table chain i ≡ some (join ("-N" ∷ chain ∷ []) ∷ lines shown chain (specs i))
  pub deleted :
      (spec : List String) (i : I)
      → ((ipt.delete table chain spec i).0
          ≡ (if has_spec spec (specs i) then none else some not_exist))
        × (specs (ipt.delete table chain spec i).1 ≡ drop_spec spec (specs i))
  pub appended :
      (spec : List String) (i : I)
      → ((ipt.append table chain spec i).0 ≡ true)
        × (specs (ipt.append table chain spec i).1 ≡ specs i ++ spec ∷ [])
  pub inserted :
      (n : ℕ) (spec : List String) (i : I)
      → ((ipt.insert table chain (n + 1) spec i).0 ≡ leb n (length (specs i)))
        × (specs (ipt.insert table chain (n + 1) spec i).1
            ≡ (if leb n (length (specs i)) then insert_spec n spec (specs i) else specs i))

-- A text that is one word of a line.
abbrev pub IsWord : String → Type 0
IsWord s = has_char b' ' s ≡ false

-- A rule that can be said in arguments, which the listing shows as they were given.
abbrev pub Kept : (List String → List String) → Rule → Type 0
Kept shown r =
    (is_printable r ≡ true)
    × (shown (to_rule_spec r) ≡ to_rule_spec r)
    × All IsWord (to_rule_spec r)

abbrev pub specs_of : List Rule → List (List String)
specs_of [] = []
specs_of (r ∷ v) = to_rule_spec r ∷ specs_of v

pub length-specs_of : (v : List Rule) → length (specs_of v) ≡ length v
length-specs_of [] = refl
length-specs_of (r ∷ v) = ap suc (length-specs_of v)

pub specs_of-append :
    (v : List Rule) (r : Rule) → specs_of (v ++ r ∷ []) ≡ specs_of v ++ to_rule_spec r ∷ []
specs_of-append [] r = refl
specs_of-append (x ∷ v) r = ap (λ l. to_rule_spec x ∷ l) (specs_of-append v r)

pub specs_of-insert_at :
    (n : ℕ) (r : Rule) (v : List Rule)
    → specs_of (insert_at n r v) ≡ insert_spec n (to_rule_spec r) (specs_of v)
unfolding insert_at insert_spec
specs_of-insert_at zero r v = refl
specs_of-insert_at (suc n) r [] = refl
specs_of-insert_at (suc n) r (x ∷ v) = ap (λ l. to_rule_spec x ∷ l) (specs_of-insert_at n r v)

-- Rules that can be said in arguments are told apart by them.
to_rule_spec-equal :
    (x r : Rule)
    → is_printable x ≡ true
    → is_printable r ≡ true
    → texts_equal (to_rule_spec x) (to_rule_spec r) ≡ rule_equal x r
to_rule_spec-equal x r h k = elim (Bool-cases (rule_equal x r)) [
  | inl same ↦ rw (same, (rule_equal_iff x r).0 same) (texts_equal_refl (to_rule_spec r))
  | inr other ↦ elim (Bool-cases (texts_equal (to_rule_spec x) (to_rule_spec r))) [
    | inl said ↦ cc (
      texts_equal_sound (to_rule_spec x) (to_rule_spec r) said,
      from_rule_spec-to_rule_spec x h,
      from_rule_spec-to_rule_spec r k,
      rule_equal_refl r,
    )
    | inr unsaid ↦ cc
  ]
]

pub specs_of-drop_first :
    (shown : List String → List String) (r : Rule) (v : List Rule)
    → Kept shown r
    → All (Kept shown) v
    → specs_of (drop_first r v) ≡ drop_spec (to_rule_spec r) (specs_of v)
unfolding drop_first drop_spec
specs_of-drop_first shown r [] k h = refl
specs_of-drop_first shown r (x ∷ v) k h =
    ground (arith, to_rule_spec-equal x r h.0.0 k.0, specs_of-drop_first shown r v k h.1)

-- The lines of rules that are shown as they were given are read as the rules.
rules_of_words-rule :
    (chain : String) (r : Rule)
    → is_printable r ≡ true
    → rules_of_words ("-A" ∷ chain ∷ to_rule_spec r) ≡ some (r ∷ [])
unfolding str_eq
rules_of_words-rule chain r h = rw (from_rule_spec-to_rule_spec r h) refl

pub rules_of_lines-lines :
    (shown : List String → List String) (chain : String) (v : List Rule)
    → IsWord chain
    → All (Kept shown) v
    → rules_of_lines (lines shown chain (specs_of v)) ≡ some v
unfolding rules_of_lines has_char
rules_of_lines-lines shown chain [] w h = refl
rules_of_lines-lines shown chain (r ∷ v) w ((printable, same, words), h) =
    rw
      (
        same,
        split-join "-A" (chain ∷ to_rule_spec r) (refl, (w, words)),
        rules_of_words-rule chain r printable,
        rules_of_lines-lines shown chain v w h,
      )
      refl

-- The line that names the chain is skipped.
pub rules_of_lines-skip :
    (chain : String) (rest : List String)
    → IsWord chain
    → rules_of_lines (join ("-N" ∷ chain ∷ []) ∷ rest) ≡ rules_of_lines rest
unfolding rules_of_lines has_char str_eq
rules_of_lines-skip chain rest w =
    rw (split-join "-N" (chain ∷ []) (refl, (w, tt))) (after (rules_of_lines rest))
  where
    after : (o : Option (List Rule)) → append_rules (some []) o ≡ o
    after none = refl
    after (some v) = refl

pub not_self_snat : (r : Rule) → is_printable r ≡ true → is_self_snat r ≡ false
unfolding is_printable
not_self_snat r h =
    let p =
      (and_iff (acts_well r.action r && clamps_well r) (not (has_char b'/' r.mark_value))).0 h in
    by_action r.action r ((and_iff (acts_well r.action r) (clamps_well r)).0 p.0).0
  where
    by_action :
        (a : RuleAction) (r : Rule) → acts_well a r ≡ true → is_action a action_self_snat ≡ false
    by_action action_jump r h = refl
    by_action action_accept r h = refl
    by_action action_mss r h = refl
    by_action action_mark r h = refl
    by_action action_snat r h = refl
    by_action action_dnat r h = refl
    by_action action_self_snat r h = absurd (false≢true h)

pub All-drop_first :
    (Ok : Rule → Type 0) (r : Rule) (v : List Rule) → All Ok v → All Ok (drop_first r v)
unfolding drop_first
All-drop_first Ok r [] h = tt
All-drop_first Ok r (x ∷ v) h = elim (Bool-cases (rule_equal x r)) [
  | inl same ↦ rw same (h.1)
  | inr other ↦ rw other (h.0, All-drop_first Ok r v h.1)
]

pub All-insert_at :
    (Ok : Rule → Type 0) (n : ℕ) (r : Rule) (v : List Rule)
    → Ok r
    → All Ok v
    → All Ok (insert_at n r v)
unfolding insert_at
All-insert_at Ok zero r v k h = (k, h)
All-insert_at Ok (suc n) r [] k h = (k, tt)
All-insert_at Ok (suc n) r (x ∷ v) k h = (h.0, All-insert_at Ok n r v k h.1)
