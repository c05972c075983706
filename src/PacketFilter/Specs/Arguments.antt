-- ===== src/PacketFilter/Specs/Arguments.antt =====
-- What the loop of `FromRuleSpec` does with the arguments that each part of `ToRuleSpec` makes
-- (pkg/packetfilter/iptables/iptables.go).
use submariner.Base.{
  String, ◌≡◌, refl, sym, ap, subst, ◌∙◌, inl, inr, Bool, true, false, ◌||◌, List, [], ◌∷◌, ◌++◌,
  str_eq, str_eq_iff, if◌then◌else◌, Bool-cases, ◌==◌,
}
use mathlib.Core.List.{append_assoc}
use submariner.Base.Texts.{has_char, cut-append}
use submariner.PacketFilter.Rules.{
  Rule, RuleAction, action_jump, RuleProto, proto_undefined, proto_all, proto_tcp, proto_udp,
  proto_icmp, MssClampType, undefined_mss, to_pmtu, to_value, clamp_code,
}
use submariner.PacketFilter.Specs.{
  proto_to_rule_spec, mss_clamp_to_rule_spec, unless_empty, set_to_rule_spec, is_action, mark_text,
  parse_mark, parse_action, parse_term,
}
use submariner.PacketFilter.Specs.Parses.{Parses, more}

-- Some arguments and what they do to a rule.
abbrev pub Writes : List String → (Rule → Rule) → Type 0
Writes spec f =
    (rule result : Rule) (rest : List String)
    → Parses (f rule) rest result
    → Parses rule (spec ++ rest) result

-- An argument that is left out leaves its field empty.
pub optional :
    (value : String) (spec : List String) (f : String → Rule → Rule)
    → Writes spec (f value)
    → (rule result : Rule) (rest : List String) → f "" rule ≡ rule
    → Parses (f value rule) rest result
    → Parses rule (unless_empty value spec ++ rest) result
optional value spec f writes rule result rest same p = elim (Bool-cases (str_eq value "")) [
  | inr given ↦ rw given (writes rule result rest p)
  | inl empty ↦ rw empty (
      subst (λ r. Parses r rest result) (ap (λ v. f v rule) ((str_eq_iff value "").0 empty) ∙ same)
        p)
]

pub Writes-proto :
    (proto : RuleProto) (rule result : Rule) (rest : List String)
    → rule.proto ≡ proto_undefined
    → Parses (record rule { proto = proto }) rest result
    → Parses rule (proto_to_rule_spec proto ++ rest) result
unfolding parse_term str_eq
Writes-proto proto_udp rule result rest e p = more (more p)
Writes-proto proto_tcp rule result rest e p = more (more p)
Writes-proto proto_icmp rule result rest e p = more p
Writes-proto proto_all rule result rest e p = more p
Writes-proto proto_undefined rule result rest e p =
    subst (λ r. Parses r rest result) (ap (λ q. record rule { proto = q }) (sym e)) p

pub Writes-source : (v : String) → Writes ("-s" ∷ v ∷ []) (λ r. record r { src_cidr = v })
unfolding parse_term str_eq
Writes-source v rule result rest p = more p

pub Writes-dest : (v : String) → Writes ("-d" ∷ v ∷ []) (λ r. record r { dest_cidr = v })
unfolding parse_term str_eq
Writes-dest v rule result rest p = more p

pub Writes-src_set :
    (v : String)
    → Writes ("-m" ∷ "set" ∷ "--match-set" ∷ v ∷ "src" ∷ []) (λ r. record r { src_set_name = v })
unfolding parse_term str_eq
Writes-src_set v rule result rest p = more p

pub Writes-dest_set :
    (v : String)
    → Writes ("-m" ∷ "set" ∷ "--match-set" ∷ v ∷ "dst" ∷ []) (λ r. record r { dest_set_name = v })
unfolding parse_term str_eq
Writes-dest_set v rule result rest p = more p

pub Parses-sets :
    (src dest : String) (rule result : Rule) (rest : List String)
    → rule.src_set_name ≡ ""
    → rule.dest_set_name ≡ ""
    → Parses (record rule { src_set_name = src; dest_set_name = dest }) rest result
    → Parses rule (set_to_rule_spec src dest ++ rest) result
Parses-sets src dest rule result rest e f p =
    subst (λ spec. Parses rule spec result)
      (sym (
        append_assoc (unless_empty src ("-m" ∷ "set" ∷ "--match-set" ∷ src ∷ "src" ∷ []))
          (unless_empty dest ("-m" ∷ "set" ∷ "--match-set" ∷ dest ∷ "dst" ∷ [])) rest))
      (optional src ("-m" ∷ "set" ∷ "--match-set" ∷ src ∷ "src" ∷ [])
        (λ v r. record r { src_set_name = v }) (Writes-src_set src) rule result _
        (ap (λ v. record rule { src_set_name = v }) (sym e))
        (optional dest ("-m" ∷ "set" ∷ "--match-set" ∷ dest ∷ "dst" ∷ [])
          (λ v r. record r { dest_set_name = v }) (Writes-dest_set dest)
          (record rule { src_set_name = src }) result rest
          (ap (λ v. record rule { src_set_name = src; dest_set_name = v }) (sym f)) p))

pub Writes-out : (v : String) → Writes ("-o" ∷ v ∷ []) (λ r. record r { out_interface = v })
unfolding parse_term str_eq
Writes-out v rule result rest p = more p

pub Writes-in : (v : String) → Writes ("-i" ∷ v ∷ []) (λ r. record r { in_interface = v })
unfolding parse_term str_eq
Writes-in v rule result rest p = more p

pub Writes-port : (v : String) → Writes ("--dport" ∷ v ∷ []) (λ r. record r { d_port = v })
unfolding parse_term str_eq
Writes-port v rule result rest p = more p

pub Writes-snat : (v : String) → Writes ("--to-source" ∷ v ∷ []) (λ r. record r { snat_cidr = v })
unfolding parse_term str_eq
Writes-snat v rule result rest p = more p

pub Writes-dnat :
    (v : String) → Writes ("--to-destination" ∷ v ∷ []) (λ r. record r { dnat_cidr = v })
unfolding parse_term str_eq
Writes-dnat v rule result rest p = more p

pub parse_mark_text : (v : String) → has_char b'/' v ≡ false → parse_mark (mark_text v) ≡ v
unfolding parse_mark
parse_mark_text v h = rw (parse_mark, cut-append v v h) refl

module _ (v : String) (no_slash : has_char b'/' v ≡ false) where
  pub Writes-mark_match :
      Writes ("-m" ∷ "mark" ∷ "--mark" ∷ mark_text v ∷ []) (λ r. record r { mark_value = v })
  unfolding parse_term str_eq
  Writes-mark_match rule result rest p = more (
      subst (λ m. Parses (record rule { mark_value = m }) rest result)
        (sym (parse_mark_text v no_slash)) p)

  pub Writes-mark_target :
      Writes ("--set-mark" ∷ mark_text v ∷ []) (λ r. record r { mark_value = v })
  unfolding parse_term str_eq
  Writes-mark_target rule result rest p = more (
      subst (λ m. Parses (record rule { mark_value = m }) rest result)
        (sym (parse_mark_text v no_slash)) p)

  -- Where the mark is of a target, the match is left out.
  pub Parses-mark_match :
      (target : Bool) (rule result : Rule) (rest : List String)
      → rule.mark_value ≡ ""
      → Parses (record rule { mark_value = if target then "" else v }) rest result
      → Parses rule
          ((if target then [] else unless_empty v ("-m" ∷ "mark" ∷ "--mark" ∷ mark_text v ∷ []))
            ++ rest)
          result
  Parses-mark_match true rule result rest e p =
      subst (λ r. Parses r rest result) (ap (λ m. record rule { mark_value = m }) (sym e)) p
  Parses-mark_match false rule result rest e p =
      optional v ("-m" ∷ "mark" ∷ "--mark" ∷ mark_text v ∷ []) (λ m r. record r { mark_value = m })
        Writes-mark_match rule result rest (ap (λ m. record rule { mark_value = m }) (sym e)) p

  pub Parses-mark_target :
      (target : Bool) (rule result : Rule) (rest : List String)
      → rule.mark_value ≡ (if target then "" else v)
      → Parses (record rule { mark_value = v }) rest result
      → Parses rule
          ((if target then unless_empty v ("--set-mark" ∷ mark_text v ∷ []) else []) ++ rest)
          result
  Parses-mark_target true rule result rest e p =
      optional v ("--set-mark" ∷ mark_text v ∷ []) (λ m r. record r { mark_value = m })
        Writes-mark_target rule result rest (ap (λ m. record rule { mark_value = m }) (sym e)) p
  Parses-mark_target false rule result rest e p =
      subst (λ r. Parses r rest result) (ap (λ m. record rule { mark_value = m }) (sym e)) p

-- What `-j` sets, in one way: the chain stays empty behind another action.
pub target_set :
    (jumps : Bool) (text : String) (a : RuleAction) (rule : Rule)
    → rule.target_chain ≡ ""
    → record rule { action = a; target_chain = if jumps then text else "" } ≡ (
        if jumps
        then record rule { action = a; target_chain = text }
        else record rule { action = a })
target_set true text a rule e = refl
target_set false text a rule e = ap (λ t. record rule { action = a; target_chain = t }) (sym e)

pub Parses-target :
    (text : String) (rule result : Rule) (rest : List String)
    → rule.target_chain ≡ ""
    → Parses
        (record rule {
          action = parse_action text;
          target_chain = if is_action (parse_action text) action_jump then text else "";
        })
        rest
        result
    → Parses rule ("-j" ∷ text ∷ rest) result
unfolding parse_term str_eq
Parses-target text rule result rest e p = more (
    subst (λ r. Parses r rest result)
      (target_set (is_action (parse_action text) action_jump) text (parse_action text) rule e) p)

pub Parses-clamp :
    (clamp : MssClampType) (v : String) (rule result : Rule) (rest : List String)
    → rule.clamp_type ≡ undefined_mss
    → rule.mss_value ≡ ""
    → (clamp_code clamp == 2 || str_eq v "") ≡ true
    → Parses
        (record rule {
          clamp_type = clamp;
          mss_value = v;
          proto = if clamp_code clamp == 0 then rule.proto else proto_tcp;
        })
        rest
        result
    → Parses rule (mss_clamp_to_rule_spec clamp v ++ rest) result
unfolding parse_term str_eq
Parses-clamp undefined_mss v rule result rest e f ok p =
    let none_given = (str_eq_iff v "").0 ok ∙ sym f in
    subst (λ r. Parses r rest result)
      (λ i. record rule { clamp_type = sym e i; mss_value = none_given i }) p
Parses-clamp to_pmtu v rule result rest e f ok p =
    let none_given = (str_eq_iff v "").0 ok ∙ sym f in
    more (
      more (
        more (
          more (
            more (
              more (
                subst
                  (λ m.
                    Parses (record rule { clamp_type = to_pmtu; mss_value = m; proto = proto_tcp })
                      rest result)
                  none_given p))))))
Parses-clamp to_value v rule result rest e f ok p = more (more (more (more (more (more p)))))
