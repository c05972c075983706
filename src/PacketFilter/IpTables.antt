-- ===== src/PacketFilter/IpTables.antt =====
-- pkg/packetfilter/iptables/iptables.go: the driver over the go-iptables library, which is a
-- parameter with states in `I`. A result of `true` is a nil error, and `none` an error.
pub mod Listing
pub mod Refine
pub mod Hooks
mod Tests
use submariner.Base.{
  ℕ, String, Bool, true, false, Option, none, some, List, [], ◌∷◌, ◌++◌, str_eq, if◌then◌else◌,
  ◌==◌,
}
use submariner.Base.Texts.{split}
use submariner.PacketFilter.Rules.{
  TableType, table_filter, table_route, table_nat, Rule, RuleAction, action_jump, action_self_snat,
  Driver,
}
use submariner.PacketFilter.Adapter.{then_ok}
use submariner.PacketFilter.Specs.{is_action, to_rule_spec, from_rule_spec, zero_rule}

pub data ChainType : Type 0 where
  chain_filter chain_route chain_nat : ChainType

pub data ChainHook : Type 0 where
  prerouting input forward output postrouting : ChainHook

pub data ChainPriority : Type 0 where
  priority_first priority_middle priority_last : ChainPriority

pub data ChainPolicy : Type 0 where
  policy_accept policy_drop : ChainPolicy

pub record ChainIpHook : Type 0 where
  pub name : String
  pub type : ChainType
  pub hook : ChainHook
  pub priority : ChainPriority
  pub policy : ChainPolicy
  pub jump_rule : Option Rule

-- `tableTypeToStr`
abbrev pub table_text : TableType → String
table_text table_filter = "filter"
table_text table_route = "mangle"
table_text table_nat = "nat"

-- `ipHookChainTypeToTableType`
abbrev pub hook_table : ChainType → TableType
hook_table chain_filter = table_filter
hook_table chain_route = table_route
hook_table chain_nat = table_nat

-- `chainHookToStr`
abbrev pub hook_text : ChainHook → String
hook_text prerouting = "PREROUTING"
hook_text input = "INPUT"
hook_text forward = "FORWARD"
hook_text output = "OUTPUT"
hook_text postrouting = "POSTROUTING"

-- The error of a call to delete: one whose `IsNotExist` holds, or another.
pub data DeleteError : Type 0 where
  not_exist other_error : DeleteError

-- What the driver calls of `*iptables.IPTables`.
pub record Library (I : Type 0) : Type 0 where
  pub list : String → String → I → Option (List String)
  pub chain_exists : String → String → I → Option Bool
  pub new_chain : String → String → I → Bool × I
  pub clear_chain : String → String → I → Bool × I
  pub delete_chain : String → String → I → Bool × I
  pub append : String → String → List String → I → Bool × I
  pub append_unique : String → String → List String → I → Bool × I
  pub insert : String → String → ℕ → List String → I → Bool × I
  pub insert_unique : String → String → ℕ → List String → I → Bool × I
  pub delete : String → String → List String → I → Option DeleteError × I

-- `err == nil && exists`, and the error first.
abbrev pub unless_exists : {I : Type 0} → (I → Bool × I) → Option Bool → I → Bool × I
unless_exists create none i = (false, i)
unless_exists create (some true) i = (true, i)
unless_exists create (some false) i = create i

abbrev pub one_rule : Option Rule → Option (List Rule)
one_rule none = none
one_rule (some rule) = some (rule ∷ [])

-- `ruleSpec[2:]`, which is out of range for `-A` alone: the code panics.
abbrev pub rule_behind : List String → Option (List Rule)
rule_behind [] = none
rule_behind (chain ∷ spec) = one_rule (from_rule_spec spec)

-- The body of the loop of `List`: the rules of one line, of which the words are given.
abbrev pub rules_of_words : List String → Option (List Rule)
rules_of_words [] = some []
rules_of_words (word ∷ rest) =
    if str_eq word "-N"
    then some []
    else if str_eq word "-A"
    then rule_behind rest
    else one_rule (from_rule_spec (word ∷ rest))

abbrev pub append_rules : Option (List Rule) → Option (List Rule) → Option (List Rule)
append_rules none rest = none
append_rules (some rules) none = none
append_rules (some rules) (some rest) = some (rules ++ rest)

unfoldable pub rules_of_lines : List String → Option (List Rule)
rules_of_lines [] = some []
rules_of_lines (line ∷ lines) =
    append_rules (rules_of_words (split b' ' line)) (rules_of_lines lines)

-- The error of `Delete`, but for a rule that is not there.
abbrev pub unless_not_exist : {I : Type 0} → Option DeleteError × I → Bool × I
unless_not_exist (none, i) = (true, i)
unless_not_exist (some not_exist, i) = (true, i)
unless_not_exist (some other_error, i) = (false, i)

abbrev pub is_self_snat : Rule → Bool
is_self_snat rule = is_action rule.action action_self_snat

-- The rule that leads from a hook into its chain.
abbrev pub jump_rule_of : ChainIpHook → Rule
jump_rule_of chain = elim chain.jump_rule [
  | none ↦ record zero_rule { target_chain = chain.name; action = action_jump }
  | some rule ↦ rule
]

-- `GetMSSClampTypes`
abbrev pub mss_clamp_types : TableType × ChainType
mss_clamp_types = (table_route, chain_route)

module _ {I : Type 0} (ipt : Library I) where
  abbrev pub uninstall : I → Bool × I
  uninstall i = (true, i)

  abbrev pub chain_exists : TableType → String → I → Option Bool
  chain_exists table chain i = ipt.chain_exists (table_text table) chain i

  unfoldable pub append_unique : TableType → String → Rule → I → Bool × I
  append_unique table chain rule i =
      if is_self_snat rule
      then (true, i)
      else ipt.append_unique (table_text table) chain (to_rule_spec rule) i

  unfoldable pub append : TableType → String → Rule → I → Bool × I
  append table chain rule i =
      if is_self_snat rule
      then (true, i)
      else ipt.append (table_text table) chain (to_rule_spec rule) i

  unfoldable pub insert : TableType → String → ℕ → Rule → I → Bool × I
  insert table chain pos rule i =
      if is_self_snat rule
      then (true, i)
      else ipt.insert (table_text table) chain pos (to_rule_spec rule) i

  unfoldable pub delete : TableType → String → Rule → I → Bool × I
  delete table chain rule i =
      if is_self_snat rule
      then (true, i)
      else unless_not_exist (ipt.delete (table_text table) chain (to_rule_spec rule) i)

  unfoldable pub list : TableType → String → I → Option (List Rule)
  list table chain i = elim (ipt.list (table_text table) chain i) [
    | none ↦ none
    | some lines ↦ rules_of_lines lines
  ]

  unfoldable pub create_chain_if_not_exists : TableType → String → I → Bool × I
  create_chain_if_not_exists table chain i =
      unless_exists (ipt.new_chain (table_text table) chain) (chain_exists table chain i) i

  abbrev pub delete_chain : TableType → String → I → Bool × I
  delete_chain table chain i = ipt.delete_chain (table_text table) chain i

  abbrev pub clear_chain : TableType → String → I → Bool × I
  clear_chain table chain i = ipt.clear_chain (table_text table) chain i

  -- The rule at the hook; a jump rule that is put first is not tested for SELF_SNAT.
  abbrev pub hook_in : ChainIpHook → I → Bool × I
  hook_in chain i = elim chain.priority [
    | priority_first ↦
        ipt.insert_unique (table_text (hook_table chain.type)) (hook_text chain.hook) 1
          (to_rule_spec (jump_rule_of chain)) i
    | _ ↦ append_unique (hook_table chain.type) (hook_text chain.hook) (jump_rule_of chain) i
  ]

  unfoldable pub create_ip_hook_chain_if_not_exists : ChainIpHook → I → Bool × I
  create_ip_hook_chain_if_not_exists chain i =
      then_ok (hook_in chain) (create_chain_if_not_exists (hook_table chain.type) chain.name i)

  unfoldable pub delete_ip_hook_chain : ChainIpHook → I → Bool × I
  delete_ip_hook_chain chain i =
      then_ok (delete_chain (hook_table chain.type) chain.name)
        (delete (hook_table chain.type) (hook_text chain.hook) (jump_rule_of chain) i)

  -- The driver that the adapter is given.
  abbrev pub ip_driver : Driver I
  ip_driver = record { list = list; delete = delete; append = append; insert = insert }
