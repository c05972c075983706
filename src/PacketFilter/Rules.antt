-- ===== src/PacketFilter/Rules.antt =====
-- pkg/packetfilter/packetfilter.go: tables, rules, and the interface of the drivers. Rules are
-- compared by Go's `==` of the struct.
use mathlib.Core.Bool.{false≢true}
use submariner.Endpoint.{texts_equal}
use submariner.Endpoint.Equality.{texts_equal_refl}
use submariner.Base.{
  arith, [], ◌∷◌, ap, sym, ◌∙◌, ℕ, ◌==◌, if◌then◌else◌, ◌&&◌, and_iff, ==_iff, ◌↔◌, refl, String,
  ◌≡◌, Bool, true, Option, List, str_eq, str_eq_iff,
}

pub data TableType : Type 0 where
  table_filter table_route table_nat : TableType

pub data RuleAction : Type 0 where
  action_jump action_accept action_mss action_mark action_snat action_dnat action_self_snat :
      RuleAction

pub data RuleProto : Type 0 where
  proto_undefined proto_all proto_tcp proto_udp proto_icmp : RuleProto

pub data MssClampType : Type 0 where
  undefined_mss to_pmtu to_value : MssClampType

pub record Rule : Type 0 where
  pub dest_cidr : String
  pub src_cidr : String
  pub src_set_name : String
  pub dest_set_name : String
  pub snat_cidr : String
  pub dnat_cidr : String
  pub out_interface : String
  pub in_interface : String
  pub target_chain : String
  pub mss_value : String
  pub d_port : String
  pub mark_value : String
  pub action : RuleAction
  pub proto : RuleProto
  pub clamp_type : MssClampType

-- The values of the enumerations, as the source numbers them.
abbrev pub action_code : RuleAction → ℕ
action_code action_jump = 0
action_code action_accept = 1
action_code action_mss = 2
action_code action_mark = 3
action_code action_snat = 4
action_code action_dnat = 5
action_code action_self_snat = 6

abbrev pub proto_code : RuleProto → ℕ
proto_code proto_undefined = 0
proto_code proto_all = 1
proto_code proto_tcp = 2
proto_code proto_udp = 3
proto_code proto_icmp = 4

abbrev pub clamp_code : MssClampType → ℕ
clamp_code undefined_mss = 0
clamp_code to_pmtu = 1
clamp_code to_value = 2

-- The fields that are strings, in their order.
abbrev pub texts : Rule → List String
texts r =
    r.dest_cidr ∷ r.src_cidr ∷ r.src_set_name ∷ r.dest_set_name ∷ r.snat_cidr ∷ r.dnat_cidr
    ∷ r.out_interface ∷ r.in_interface ∷ r.target_chain ∷ r.mss_value ∷ r.d_port ∷ r.mark_value ∷ []

-- `*a == *b`
unfoldable pub rule_equal : Rule → Rule → Bool
rule_equal a b =
    texts_equal (texts a) (texts b)
    && action_code a.action == action_code b.action
    && proto_code a.proto == proto_code b.proto
    && clamp_code a.clamp_type == clamp_code b.clamp_type

action_of : ℕ → RuleAction
action_of n =
    if n == 0
    then action_jump
    else if n == 1
    then action_accept
    else if n == 2
    then action_mss
    else if n == 3
    then action_mark
    else if n == 4
    then action_snat
    else if n == 5
    then action_dnat
    else action_self_snat

proto_of : ℕ → RuleProto
proto_of n =
    if n == 0
    then proto_undefined
    else if n == 1
    then proto_all
    else if n == 2
    then proto_tcp
    else if n == 3
    then proto_udp
    else proto_icmp

clamp_of : ℕ → MssClampType
clamp_of n = if n == 0 then undefined_mss else if n == 1 then to_pmtu else to_value

action_of-code : (a : RuleAction) → action_of (action_code a) ≡ a
unfolding action_of
action_of-code action_jump = refl
action_of-code action_accept = refl
action_of-code action_mss = refl
action_of-code action_mark = refl
action_of-code action_snat = refl
action_of-code action_dnat = refl
action_of-code action_self_snat = refl

proto_of-code : (a : RuleProto) → proto_of (proto_code a) ≡ a
unfolding proto_of
proto_of-code proto_undefined = refl
proto_of-code proto_all = refl
proto_of-code proto_tcp = refl
proto_of-code proto_udp = refl
proto_of-code proto_icmp = refl

clamp_of-code : (a : MssClampType) → clamp_of (clamp_code a) ≡ a
unfolding clamp_of
clamp_of-code undefined_mss = refl
clamp_of-code to_pmtu = refl
clamp_of-code to_value = refl

pub texts_equal_sound : (u v : List String) → texts_equal u v ≡ true → u ≡ v
texts_equal_sound [] [] e = refl
texts_equal_sound [] (t ∷ v) e = absurd (false≢true e)
texts_equal_sound (s ∷ u) [] e = absurd (false≢true e)
texts_equal_sound (s ∷ u) (t ∷ v) e =
    let (head, tail) = (and_iff (str_eq s t) (texts_equal u v)).0 e in
    cc ((str_eq_iff s t).0 head, texts_equal_sound u v tail)

four_true :
    (p q r s : Bool) → (p && q && r && s) ≡ true → (p ≡ true) × (q ≡ true) × (r ≡ true) × (s ≡ true)
four_true p q r s e = ground arith

rule_equal_fields : (a b : Rule) → rule_equal a b ≡ true → a ≡ b
unfolding rule_equal
rule_equal_fields a b e =
    let equal =
      four_true (texts_equal (texts a) (texts b)) (action_code a.action == action_code b.action)
        (proto_code a.proto == proto_code b.proto)
        (clamp_code a.clamp_type == clamp_code b.clamp_type) e in
    cc (
      texts_equal_sound (texts a) (texts b) equal.0,
      (==_iff (action_code a.action) (action_code b.action)).0 equal.1,
      (==_iff (proto_code a.proto) (proto_code b.proto)).0 equal.2,
      (==_iff (clamp_code a.clamp_type) (clamp_code b.clamp_type)).0 equal.3,
      action_of-code a.action,
      action_of-code b.action,
      proto_of-code a.proto,
      proto_of-code b.proto,
      clamp_of-code a.clamp_type,
      clamp_of-code b.clamp_type,
    )

rule_equal_self : (a : Rule) → rule_equal a a ≡ true
unfolding rule_equal
rule_equal_self a = ground (arith, texts_equal_refl (texts a))

pub rule_equal_iff : (a b : Rule) → (rule_equal a b ≡ true) ↔ (a ≡ b)
rule_equal_iff a b =
    (rule_equal_fields a b, λ e. ap (λ r. rule_equal a r) (sym e) ∙ rule_equal_self a)

-- What the adapter calls of a `Driver` with states in `D`; `none` and `false` stand for an error.
pub record Driver (D : Type 0) : Type 0 where
  pub list : TableType → String → D → Option (List Rule)
  pub delete : TableType → String → Rule → D → Bool × D
  pub append : TableType → String → Rule → D → Bool × D
  pub insert : TableType → String → ℕ → Rule → D → Bool × D
