-- ===== src/PacketFilter/Specs.antt =====
-- pkg/packetfilter/iptables/iptables.go: rules as arguments of the iptables command, and back. A
-- cursor into the arguments is the list of those from there on.
pub mod Parses
mod Arguments
pub mod RoundTrip
use Prim.Native.Char.{Char}
use Prim.Native.String.{◌++◌ as ◌<>◌}
use submariner.Base.{
  ℕ, zero, suc, String, Bool, true, false, not, ◌&&◌, Option, none, some, List, [], ◌∷◌, ◌++◌,
  length, str_eq, if◌then◌else◌, ◌==◌,
}
use submariner.Base.Texts.{cut}
use submariner.PacketFilter.Rules.{
  Rule, RuleAction, action_jump, action_accept, action_mss, action_mark, action_snat, action_dnat,
  action_self_snat, action_code, RuleProto, proto_undefined, proto_all, proto_tcp, proto_udp,
  proto_icmp, MssClampType, undefined_mss, to_pmtu, to_value,
}

-- `ruleActionToStr`, which answers the empty text for a key that it lacks.
abbrev pub action_text : RuleAction → String
action_text action_accept = "ACCEPT"
action_text action_mss = "TCPMSS"
action_text action_mark = "MARK"
action_text action_snat = "SNAT"
action_text action_dnat = "DNAT"
action_text action_jump = ""
action_text action_self_snat = ""

-- What each helper appends to the arguments.
abbrev pub proto_to_rule_spec : RuleProto → List String
proto_to_rule_spec proto_udp = "-p" ∷ "udp" ∷ "-m" ∷ "udp" ∷ []
proto_to_rule_spec proto_tcp = "-p" ∷ "tcp" ∷ "-m" ∷ "tcp" ∷ []
proto_to_rule_spec proto_icmp = "-p" ∷ "icmp" ∷ []
proto_to_rule_spec proto_all = "-p" ∷ "all" ∷ []
proto_to_rule_spec proto_undefined = []

abbrev pub tcp_syn : List String
tcp_syn = "-p" ∷ "tcp" ∷ "-m" ∷ "tcp" ∷ "--tcp-flags" ∷ "SYN,RST" ∷ "SYN" ∷ []

abbrev pub mss_clamp_to_rule_spec : MssClampType → String → List String
mss_clamp_to_rule_spec undefined_mss mss_value = []
mss_clamp_to_rule_spec to_pmtu mss_value = "--clamp-mss-to-pmtu" ∷ tcp_syn
mss_clamp_to_rule_spec to_value mss_value = "--set-mss" ∷ mss_value ∷ tcp_syn

-- Arguments that are given for a value that is not empty.
abbrev pub unless_empty : String → List String → List String
unless_empty value spec = if str_eq value "" then [] else spec

abbrev pub set_to_rule_spec : String → String → List String
set_to_rule_spec src_set_name dest_set_name =
    unless_empty src_set_name ("-m" ∷ "set" ∷ "--match-set" ∷ src_set_name ∷ "src" ∷ [])
    ++ unless_empty dest_set_name ("-m" ∷ "set" ∷ "--match-set" ∷ dest_set_name ∷ "dst" ∷ [])

abbrev pub is_action : RuleAction → RuleAction → Bool
is_action a b = action_code a == action_code b

abbrev pub mark_text : String → String
mark_text value = value <> ("/" <> value)

-- The arguments for a mark: of a match, or of the target, as the action is another one or MARK.
abbrev pub mark_match : Rule → List String
mark_match rule =
    if is_action rule.action action_mark
    then []
    else unless_empty rule.mark_value ("-m" ∷ "mark" ∷ "--mark" ∷ mark_text rule.mark_value ∷ [])

abbrev pub mark_target : Rule → List String
mark_target rule =
    if is_action rule.action action_mark
    then unless_empty rule.mark_value ("--set-mark" ∷ mark_text rule.mark_value ∷ [])
    else []

abbrev pub jump_to : Rule → List String
jump_to rule =
    "-j"
    ∷ (if is_action rule.action action_jump then rule.target_chain else action_text rule.action)
    ∷ []

unfoldable pub to_rule_spec : Rule → List String
to_rule_spec rule =
    proto_to_rule_spec rule.proto
    ++ (unless_empty rule.src_cidr ("-s" ∷ rule.src_cidr ∷ [])
        ++ (unless_empty rule.dest_cidr ("-d" ∷ rule.dest_cidr ∷ [])
            ++ (mark_match rule
                ++ (set_to_rule_spec rule.src_set_name rule.dest_set_name
                    ++ (unless_empty rule.out_interface ("-o" ∷ rule.out_interface ∷ [])
                        ++ (unless_empty rule.in_interface ("-i" ∷ rule.in_interface ∷ [])
                            ++ (unless_empty rule.d_port ("--dport" ∷ rule.d_port ∷ [])
                                ++ (jump_to rule
                                    ++ (unless_empty rule.snat_cidr
                                          ("--to-source" ∷ rule.snat_cidr ∷ [])
                                        ++ (unless_empty rule.dnat_cidr
                                              ("--to-destination" ∷ rule.dnat_cidr ∷ [])
                                            ++ (mss_clamp_to_rule_spec rule.clamp_type
                                                  rule.mss_value
                                                ++ mark_target rule)))))))))))

-- `&packetfilter.Rule{}`
abbrev pub zero_rule : Rule
zero_rule = record {
  dest_cidr = "";
  src_cidr = "";
  src_set_name = "";
  dest_set_name = "";
  snat_cidr = "";
  dnat_cidr = "";
  out_interface = "";
  in_interface = "";
  target_chain = "";
  mss_value = "";
  d_port = "";
  mark_value = "";
  action = action_jump;
  proto = proto_undefined;
  clamp_type = undefined_mss;
}

unfoldable pub parse_mark : String → String
parse_mark s = elim (cut b'/' s) [ none ↦ "" | some p ↦ p.0 ]

-- The keys of `ruleActionToStr` have different texts, so that the order of the loop does not
-- matter.
unfoldable pub parse_action : String → RuleAction
parse_action s =
    if str_eq s "ACCEPT"
    then action_accept
    else if str_eq s "TCPMSS"
    then action_mss
    else if str_eq s "MARK"
    then action_mark
    else if str_eq s "SNAT"
    then action_snat
    else if str_eq s "DNAT"
    then action_dnat
    else action_jump

abbrev pub parse_protocol : String → RuleProto
parse_protocol s =
    if str_eq s "udp"
    then proto_udp
    else if str_eq s "tcp"
    then proto_tcp
    else if str_eq s "icmp"
    then proto_icmp
    else if str_eq s "all"
    then proto_all
    else proto_undefined

-- `parseNextTerm`: the argument behind the cursor, parsed, or the zero value at the end.
abbrev pub parse_next_term {ℓ} : {T : Type ℓ} → T → (String → T) → List String → T × List String
parse_next_term zero_value parse [] = (zero_value, [])
parse_next_term zero_value parse (s ∷ rest) = (parse s, rest)

abbrev pub noop_parse : String → String
noop_parse s = s

abbrev pub parse_set : Rule → List String → Rule × List String
parse_set rule (flag ∷ name ∷ direction ∷ rest) =
    if str_eq flag "--match-set"
    then (
      if str_eq direction "src"
          then record rule { src_set_name = name }
          else if str_eq direction "dst"
          then record rule { dest_set_name = name }
          else rule,
      rest,
    )
    else (rule, flag ∷ name ∷ direction ∷ rest)
parse_set rule rest = (rule, rest)

abbrev pub parse_mark_match : Rule → List String → Rule × List String
parse_mark_match rule (flag ∷ value ∷ rest) =
    if str_eq flag "--mark"
    then (record rule { mark_value = parse_mark value }, rest)
    else (rule, flag ∷ value ∷ rest)
parse_mark_match rule rest = (rule, rest)

abbrev pub parse_rule_match : Rule → List String → Rule × List String
parse_rule_match rule [] = (rule, [])
parse_rule_match rule (kind ∷ rest) =
    if str_eq kind "mark"
    then parse_mark_match rule rest
    else if str_eq kind "set"
    then parse_set rule rest
    else (rule, rest)

-- The cursor after `parseNextTerm` is at the argument, or at the flag itself where there is none.
abbrev pub term_at : String → List String → String
term_at flag [] = flag
term_at flag (s ∷ rest) = s

abbrev pub parse_jump : Rule → String → List String → Rule × List String
parse_jump rule flag rest =
    let (action, left) = parse_next_term action_jump parse_action rest in
    (
      if is_action action action_jump
          then record rule { action = action; target_chain = term_at flag rest }
          else record rule { action = action },
      left,
    )

-- A flag whose argument is stored.
abbrev pub stored : (String → Rule) → List String → Rule × List String
stored store rest = let (value, left) = parse_next_term "" noop_parse rest in (store value, left)

-- The body of the loop, with the cursor at a flag: the rule, and the arguments that are left.
unfoldable pub parse_term : Rule → String → List String → Rule × List String
parse_term rule flag rest =
    if str_eq flag "-p"
    then (let (proto, left) = parse_next_term proto_undefined parse_protocol rest in
        (record rule { proto = proto }, left))
    else if str_eq flag "-s"
    then stored (λ v. record rule { src_cidr = v }) rest
    else if str_eq flag "-d"
    then stored (λ v. record rule { dest_cidr = v }) rest
    else if str_eq flag "-m"
    then parse_rule_match rule rest
    else if str_eq flag "--to-destination"
    then stored (λ v. record rule { dnat_cidr = v }) rest
    else if str_eq flag "--to-source"
    then stored (λ v. record rule { snat_cidr = v }) rest
    else if str_eq flag "-i"
    then stored (λ v. record rule { in_interface = v }) rest
    else if str_eq flag "-o"
    then stored (λ v. record rule { out_interface = v }) rest
    else if str_eq flag "--dport"
    then stored (λ v. record rule { d_port = v }) rest
    else if str_eq flag "--set-mark"
    then (let (mark, left) = parse_next_term "" parse_mark rest in
        (record rule { mark_value = mark }, left))
    else if str_eq flag "--clamp-mss-to-pmtu"
    then (record rule { clamp_type = to_pmtu }, rest)
    else if str_eq flag "--set-mss"
    then stored (λ v. record rule { mss_value = v; clamp_type = to_value }) rest
    else if str_eq flag "-j"
    then parse_jump rule flag rest
    else (rule, rest)

-- The loop, with fuel for its rounds.
unfoldable pub parse_terms : ℕ → Rule → List String → Option Rule
parse_terms n rule [] = some rule
parse_terms zero rule (flag ∷ rest) = none
parse_terms (suc n) rule (flag ∷ rest) =
    let (rule', left) = parse_term rule flag rest in parse_terms n rule' left

-- After the loop.
abbrev pub proto_reset : Rule → Rule
proto_reset rule =
    if is_action rule.action action_mss then record rule { proto = proto_undefined } else rule

abbrev pub reset_result : Option Rule → Option Rule
reset_result none = none
reset_result (some rule) = some (proto_reset rule)

-- Each round takes a flag at least, so that there are no more rounds than arguments.
unfoldable pub from_rule_spec : List String → Option Rule
from_rule_spec spec = reset_result (parse_terms (length spec) zero_rule spec)
