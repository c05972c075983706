-- ===== src/PacketFilter/Specs/RoundTrip.antt =====
-- `FromRuleSpec` after `ToRuleSpec` (pkg/packetfilter/iptables/iptables.go).
use mathlib.Core.Bool.{false≢true}
use submariner.Base.{
  String, ◌≡◌, refl, sym, ap, subst, ◌∙◌, Bool, true, false, not, ◌&&◌, ◌||◌, some, [], ◌∷◌, ◌++◌,
  str_eq, str_eq_iff, if◌then◌else◌, and_iff, ◌==◌,
}
use mathlib.Core.List.{append-nil as append_nil}
use submariner.Base.Texts.{has_char}
use submariner.PacketFilter.Rules.{
  Rule, RuleAction, action_jump, action_accept, action_mss, action_mark, action_snat, action_dnat,
  action_self_snat, RuleProto, proto_undefined, proto_all, proto_tcp, proto_udp, proto_icmp,
  proto_code, clamp_code,
}
use submariner.PacketFilter.Specs.{
  mss_clamp_to_rule_spec, unless_empty, set_to_rule_spec, is_action, action_text, mark_target,
  jump_to, to_rule_spec, zero_rule, parse_action, proto_reset, from_rule_spec,
}
use submariner.PacketFilter.Specs.Parses.{Parses, done, Parses-from_rule_spec}
use submariner.PacketFilter.Specs.Arguments.{
  Parses-clamp, Parses-mark_match, Parses-mark_target, Parses-sets, Parses-target, Writes-dest,
  Writes-dnat, Writes-in, Writes-out, Writes-port, Writes-proto, Writes-snat, Writes-source,
  optional,
}

-- The fields that go with an action: a chain, which is not the name of a target, with a jump alone;
-- no protocol with TCPMSS, and no clamping with another action; a value to clamp to only where the
-- rule clamps to a value; and no SELF_SNAT, for which the driver writes no rule.
abbrev pub clamps_well : Rule → Bool
clamps_well r = clamp_code r.clamp_type == 2 || str_eq r.mss_value ""

abbrev pub acts_well : RuleAction → Rule → Bool
acts_well action_jump r =
    is_action (parse_action r.target_chain) action_jump && clamp_code r.clamp_type == 0
acts_well action_mss r = str_eq r.target_chain "" && proto_code r.proto == 0
acts_well action_self_snat r = false
acts_well _ r = str_eq r.target_chain "" && clamp_code r.clamp_type == 0

-- What can be said in arguments of the command: besides, the value of a mark has no slash.
unfoldable pub is_printable : Rule → Bool
is_printable r = acts_well r.action r && clamps_well r && not (has_char b'/' r.mark_value)

-- The rule after the arguments so far.
abbrev with_proto : Rule → Rule
with_proto r = record (zero_rule) { proto = r.proto }

abbrev with_source : Rule → Rule
with_source r = record (with_proto r) { src_cidr = r.src_cidr }

abbrev with_dest : Rule → Rule
with_dest r = record (with_source r) { dest_cidr = r.dest_cidr }

abbrev with_mark : Rule → Rule
with_mark r = record (with_dest r) {
  mark_value = if is_action r.action action_mark then "" else r.mark_value;
}

abbrev with_dest_set : Rule → Rule
with_dest_set r = record (with_mark r) {
  src_set_name = r.src_set_name;
  dest_set_name = r.dest_set_name;
}

abbrev with_out : Rule → Rule
with_out r = record (with_dest_set r) { out_interface = r.out_interface }

abbrev with_in : Rule → Rule
with_in r = record (with_out r) { in_interface = r.in_interface }

abbrev with_port : Rule → Rule
with_port r = record (with_in r) { d_port = r.d_port }

abbrev target_text : Rule → String
target_text r = if is_action r.action action_jump then r.target_chain else action_text r.action

abbrev with_target : Rule → Rule
with_target r = record (with_port r) {
  action = parse_action (target_text r);
  target_chain = if is_action (parse_action (target_text r)) action_jump then target_text r else "";
}

abbrev with_snat : Rule → Rule
with_snat r = record (with_target r) { snat_cidr = r.snat_cidr }

abbrev with_dnat : Rule → Rule
with_dnat r = record (with_snat r) { dnat_cidr = r.dnat_cidr }

abbrev with_clamp : Rule → Rule
with_clamp r = record (with_dnat r) {
  clamp_type = r.clamp_type;
  mss_value = r.mss_value;
  proto = if clamp_code r.clamp_type == 0 then r.proto else proto_tcp;
}

abbrev with_all : Rule → Rule
with_all r = record (with_clamp r) { mark_value = r.mark_value }

module _ (r : Rule) (clamps : clamps_well r ≡ true)
    (no_slash : has_char b'/' r.mark_value ≡ false) where
  after_target :
      Parses
        (with_target r)
        (unless_empty r.snat_cidr ("--to-source" ∷ r.snat_cidr ∷ [])
          ++ (unless_empty r.dnat_cidr ("--to-destination" ∷ r.dnat_cidr ∷ [])
              ++ (mss_clamp_to_rule_spec r.clamp_type r.mss_value ++ mark_target r)))
        (with_all r)
  after_target =
      optional r.snat_cidr ("--to-source" ∷ r.snat_cidr ∷ []) (λ v s. record s { snat_cidr = v })
        (Writes-snat r.snat_cidr) (with_target r) _ _ refl
        (optional r.dnat_cidr ("--to-destination" ∷ r.dnat_cidr ∷ [])
          (λ v s. record s { dnat_cidr = v }) (Writes-dnat r.dnat_cidr) (with_snat r) _ _ refl
          (Parses-clamp r.clamp_type r.mss_value (with_dnat r) _ _ refl refl clamps (
            subst (λ spec. Parses (with_clamp r) spec (with_all r)) (append_nil (mark_target r))
              (Parses-mark_target r.mark_value no_slash (is_action r.action action_mark)
                (with_clamp r) _ [] refl done))))

  after_mark :
      Parses
        (with_mark r)
        (set_to_rule_spec r.src_set_name r.dest_set_name
          ++ (unless_empty r.out_interface ("-o" ∷ r.out_interface ∷ [])
              ++ (unless_empty r.in_interface ("-i" ∷ r.in_interface ∷ [])
                  ++ (unless_empty r.d_port ("--dport" ∷ r.d_port ∷ [])
                      ++ (jump_to r
                          ++ (unless_empty r.snat_cidr ("--to-source" ∷ r.snat_cidr ∷ [])
                              ++ (unless_empty r.dnat_cidr ("--to-destination" ∷ r.dnat_cidr ∷ [])
                                  ++ (mss_clamp_to_rule_spec r.clamp_type r.mss_value
                                      ++ mark_target r))))))))
        (with_all r)
  after_mark = Parses-sets r.src_set_name r.dest_set_name (with_mark r) _ _ refl refl (
      optional r.out_interface ("-o" ∷ r.out_interface ∷ []) (λ v s. record s { out_interface = v })
        (Writes-out r.out_interface) (with_dest_set r) _ _ refl
        (optional r.in_interface ("-i" ∷ r.in_interface ∷ []) (λ v s. record s { in_interface = v })
          (Writes-in r.in_interface) (with_out r) _ _ refl
          (optional r.d_port ("--dport" ∷ r.d_port ∷ []) (λ v s. record s { d_port = v })
            (Writes-port r.d_port) (with_in r) _ _ refl
            (Parses-target (target_text r) (with_port r) _ _ refl after_target))))

  to_rule_spec-Parses : Parses zero_rule (to_rule_spec r) (with_all r)
  unfolding to_rule_spec
  to_rule_spec-Parses = Writes-proto r.proto zero_rule (with_all r) _ refl (
      optional r.src_cidr ("-s" ∷ r.src_cidr ∷ []) (λ v s. record s { src_cidr = v })
        (Writes-source r.src_cidr) (with_proto r) _ _ refl
        (optional r.dest_cidr ("-d" ∷ r.dest_cidr ∷ []) (λ v s. record s { dest_cidr = v })
          (Writes-dest r.dest_cidr) (with_source r) _ _ refl
          (Parses-mark_match r.mark_value no_slash (is_action r.action action_mark) (with_dest r) _
            _ refl after_mark)))

not-true : (b : Bool) → not b ≡ true → b ≡ false
not-true true h = absurd (false≢true h)
not-true false h = refl

-- What is parsed differs from the rule in the target, and in the protocol that clamping writes.
same_rule :
    (r : Rule) (a : RuleAction) {chain : String} {proto : RuleProto}
    → chain ≡ r.target_chain
    → proto ≡ r.proto
    → record r { action = a; target_chain = chain; proto = proto } ≡ record r { action = a }
same_rule r a e f i = record r { action = a; target_chain = e i; proto = f i }

-- No action but TCPMSS has a protocol to restore.
no_chain :
    (r : Rule)
    → (str_eq r.target_chain "" && clamp_code r.clamp_type == 0) ≡ true
    → ("" ≡ r.target_chain)
      × ((if clamp_code r.clamp_type == 0 then r.proto else proto_tcp) ≡ r.proto)
no_chain r h =
    let p = (and_iff (str_eq r.target_chain "") (clamp_code r.clamp_type == 0)).0 h in
    (sym ((str_eq_iff r.target_chain "").0 p.0), rw p.1 refl)

no_proto : (p : RuleProto) → (proto_code p == 0) ≡ true → proto_undefined ≡ p
no_proto proto_undefined h = refl
no_proto proto_all h = absurd (false≢true h)
no_proto proto_tcp h = absurd (false≢true h)
no_proto proto_udp h = absurd (false≢true h)
no_proto proto_icmp h = absurd (false≢true h)

reset_jump :
    (a : RuleAction) (r : Rule)
    → is_action a action_jump ≡ true
    → (clamp_code r.clamp_type == 0) ≡ true
    → proto_reset (record r {
      action = a;
      target_chain = if is_action a action_jump then r.target_chain else "";
      proto = if clamp_code r.clamp_type == 0 then r.proto else proto_tcp;
    })
      ≡ record r { action = action_jump }
reset_jump action_jump r h k = same_rule r action_jump refl (rw k refl)
reset_jump action_accept r h k = absurd (false≢true h)
reset_jump action_mss r h k = absurd (false≢true h)
reset_jump action_mark r h k = absurd (false≢true h)
reset_jump action_snat r h k = absurd (false≢true h)
reset_jump action_dnat r h k = absurd (false≢true h)
reset_jump action_self_snat r h k = absurd (false≢true h)

reset_lem :
    (a : RuleAction) (r : Rule)
    → acts_well a r ≡ true
    → proto_reset (with_all (record r { action = a })) ≡ record r { action = a }
unfolding parse_action str_eq
reset_lem action_jump r h =
    let p =
      (and_iff (is_action (parse_action r.target_chain) action_jump)
          (clamp_code r.clamp_type == 0)).0
        h in
    reset_jump (parse_action r.target_chain) r p.0 p.1
reset_lem action_accept r h = same_rule r action_accept (no_chain r h).0 (no_chain r h).1
reset_lem action_mss r h =
    let p = (and_iff (str_eq r.target_chain "") (proto_code r.proto == 0)).0 h in
    same_rule r action_mss (sym ((str_eq_iff r.target_chain "").0 p.0)) (no_proto r.proto p.1)
reset_lem action_mark r h = same_rule r action_mark (no_chain r h).0 (no_chain r h).1
reset_lem action_snat r h = same_rule r action_snat (no_chain r h).0 (no_chain r h).1
reset_lem action_dnat r h = same_rule r action_dnat (no_chain r h).0 (no_chain r h).1
reset_lem action_self_snat r h = absurd (false≢true h)

-- FromRuleSpec of the arguments that ToRuleSpec makes is the rule again, for a rule that the
-- arguments can say: it has a chain, not named like a target, with a jump alone; it clamps with
-- TCPMSS alone, has no protocol then, and has a value to clamp to only where it clamps to a value;
-- it is no SELF_SNAT; and its mark has no slash.
pub from_rule_spec-to_rule_spec :
    (r : Rule) → is_printable r ≡ true → from_rule_spec (to_rule_spec r) ≡ some r
unfolding is_printable
from_rule_spec-to_rule_spec r h =
    let p =
      (and_iff (acts_well r.action r && clamps_well r) (not (has_char b'/' r.mark_value))).0 h in
    let q = (and_iff (acts_well r.action r) (clamps_well r)).0 p.0 in
    Parses-from_rule_spec (to_rule_spec r) (with_all r)
      (to_rule_spec-Parses r q.1 (not-true (has_char b'/' r.mark_value) p.1))
    ∙ ap some (reset_lem r.action r q.0)
