-- ===== src/PacketFilter/IpTables/Tests.antt =====
-- The theorems on the iptables driver at concrete rules and chains.
use submariner.Base.{
  ℕ, ◌+◌, ◌-◌, String, ◌≡◌, refl, ap, Bool, true, false, none, some, List, [], ◌∷◌, ◌++◌, length,
  arith, leb, if◌then◌else◌, str_eq,
}
use submariner.Base.Texts.{has_char, join}
use submariner.PacketFilter.Rules.{
  table_filter, Rule, action_accept, action_mss, action_mark, proto_udp, to_value,
}
use submariner.PacketFilter.Adapter.{prepend_unique, update_chain_rules}
use submariner.PacketFilter.Members.{Once}
use submariner.PacketFilter.Specs.{to_rule_spec, from_rule_spec, zero_rule}
use submariner.PacketFilter.Specs.RoundTrip.{is_printable, from_rule_spec-to_rule_spec}
use submariner.PacketFilter.Simulation.{Agree}
use submariner.PacketFilter.Update.{updated}
use submariner.PacketFilter.IpTables.{
  Library, not_exist, ChainIpHook, chain_filter, forward, priority_first, policy_accept, table_text,
  hook_table, ip_driver, create_chain_if_not_exists, create_ip_hook_chain_if_not_exists,
}
use submariner.PacketFilter.IpTables.Listing.{
  has_spec, drop_spec, insert_spec, lines, KeepsSpecs, IsWord, Kept, specs_of,
}
use submariner.PacketFilter.IpTables.Refine.{
  chain_driver, Holds, ip_driver_refines, update_chain_rules-specs_of,
}
use submariner.PacketFilter.IpTables.Hooks.{AddsOnce, create_ip_hook_chain_again}

abbrev nat_port : Rule
nat_port = record zero_rule {
  action = action_accept;
  proto = proto_udp;
  dest_cidr = "10.1.0.0/16";
  out_interface = "eth0";
  d_port = "4500";
}

abbrev clamped : Rule
clamped = record zero_rule {
  action = action_mss;
  src_set_name = "SUBMARINER-LOCALCIDRS";
  clamp_type = to_value;
  mss_value = "1300";
}

abbrev marked : Rule
marked = record zero_rule { action = action_mark; mark_value = "0xc0000"; src_cidr = "10.2.0.0/16" }

clamped_spec :
    to_rule_spec clamped
    ≡ "-m" ∷ "set" ∷ "--match-set" ∷ "SUBMARINER-LOCALCIDRS" ∷ "src" ∷ "-j" ∷ "TCPMSS" ∷ "--set-mss"
      ∷ "1300" ∷ "-p" ∷ "tcp" ∷ "-m" ∷ "tcp" ∷ "--tcp-flags" ∷ "SYN,RST" ∷ "SYN" ∷ []
unfolding to_rule_spec str_eq
clamped_spec = refl

from_rule_spec-to_rule_spec_example : from_rule_spec (to_rule_spec clamped) ≡ some clamped
unfolding is_printable str_eq has_char
from_rule_spec-to_rule_spec_example = from_rule_spec-to_rule_spec clamped refl

marked_back : from_rule_spec (to_rule_spec marked) ≡ some marked
unfolding is_printable str_eq has_char
marked_back = from_rule_spec-to_rule_spec marked refl

-- A command that keeps one chain, and shows the arguments as they were given.
abbrev as_given : List String → List String
as_given spec = spec

abbrev one_chain : Library (List (List String))
one_chain = record {
  list = λ table chain i. some (join ("-N" ∷ chain ∷ []) ∷ lines as_given chain i);
  chain_exists = λ table chain i. some true;
  new_chain = λ table chain i. (false, i);
  clear_chain = λ table chain i. (true, []);
  delete_chain = λ table chain i. (false, i);
  append = λ table chain spec i. (true, i ++ spec ∷ []);
  append_unique = λ table chain spec i. (true, if has_spec spec i then i else i ++ spec ∷ []);
  insert = λ table chain pos spec i. (
    leb (pos - 1) (length i),
    if leb (pos - 1) (length i) then insert_spec (pos - 1) spec i else i,
  );
  insert_unique =
      λ table chain pos spec i. (true, if has_spec spec i then i else insert_spec (pos - 1) spec i);
  delete =
      λ table chain spec i. (if has_spec spec i then none else some not_exist, drop_spec spec i);
}

abbrev its_specs : List (List String) → List (List String)
its_specs i = i

one_chain-KeepsSpecs : KeepsSpecs one_chain "filter" "SUBMARINER-INPUT" as_given its_specs
one_chain-KeepsSpecs = record {
  listed = λ i. refl;
  deleted = λ spec i. (refl, refl);
  appended = λ spec i. (refl, refl);
  inserted = λ n spec i. at n (n + 1 - 1) spec i (omega arith);
}
  where
    at :
        (n m : ℕ) (spec : List String) (i : List (List String))
        → m ≡ n
        → (leb m (length i) ≡ leb n (length i))
          × ((if leb m (length i) then insert_spec m spec i else i)
              ≡ (if leb n (length i) then insert_spec n spec i else i))
    at n m spec i e = (
      ap (λ k. leb k (length i)) e,
      ap (λ k. if leb k (length i) then insert_spec k spec i else i) e,
    )

nat_port-Kept : Kept as_given nat_port
unfolding is_printable to_rule_spec str_eq has_char
nat_port-Kept = (
  refl,
  refl,
  (
    refl,
    (refl, (refl, (refl, (refl, (refl, (refl, (refl, (refl, (refl, (refl, (refl, tt))))))))))),
  ),
)

marked-Kept : Kept as_given marked
unfolding is_printable to_rule_spec str_eq has_char
marked-Kept = (refl, refl, (refl, (refl, (refl, (refl, (refl, (refl, tt)))))))

input_word : IsWord "SUBMARINER-INPUT"
unfolding has_char
input_word = refl

ip_driver_refines_example :
    Agree
      (Holds one_chain table_filter "SUBMARINER-INPUT" as_given its_specs input_word
        one_chain-KeepsSpecs)
      (prepend_unique
        (ip_driver one_chain)
        table_filter
        "SUBMARINER-INPUT"
        (nat_port ∷ [])
        (specs_of (marked ∷ [])))
      (prepend_unique chain_driver table_filter "SUBMARINER-INPUT" (nat_port ∷ []) (marked ∷ []))
    × Agree
        (Holds one_chain table_filter "SUBMARINER-INPUT" as_given its_specs input_word
          one_chain-KeepsSpecs)
        (update_chain_rules
          (ip_driver one_chain)
          table_filter
          "SUBMARINER-INPUT"
          (nat_port ∷ [])
          (specs_of (marked ∷ [])))
        (update_chain_rules chain_driver table_filter "SUBMARINER-INPUT"
          (nat_port ∷ [])
          (marked ∷ []))
ip_driver_refines_example =
    ip_driver_refines one_chain table_filter "SUBMARINER-INPUT" as_given its_specs input_word
      one_chain-KeepsSpecs (nat_port ∷ []) (specs_of (marked ∷ [])) (marked ∷ [])
      (nat_port-Kept, tt) (refl, (marked-Kept, tt))

update_chain_rules-specs_of_example :
    ((update_chain_rules
        (ip_driver one_chain)
        table_filter
        "SUBMARINER-INPUT"
        (nat_port ∷ [])
        (specs_of (marked ∷ []))).0
      ≡ true)
    × ((update_chain_rules
          (ip_driver one_chain)
          table_filter
          "SUBMARINER-INPUT"
          (nat_port ∷ [])
          (specs_of (marked ∷ []))).1
        ≡ specs_of (updated (nat_port ∷ []) (marked ∷ [])))
unfolding Once
update_chain_rules-specs_of_example =
    update_chain_rules-specs_of one_chain table_filter "SUBMARINER-INPUT" as_given its_specs
      input_word one_chain-KeepsSpecs (nat_port ∷ []) (specs_of (marked ∷ [])) (marked ∷ [])
      (nat_port-Kept, tt) (refl, tt) (refl, tt) (refl, (marked-Kept, tt))

-- A command with one chain, which is there or not, and a jump to it, which is there or not.
abbrev one_hook : Library (Bool × Bool)
one_hook = record {
  list = λ table chain i. some [];
  chain_exists = λ table chain i. some (i.0);
  new_chain = λ table chain i. (true, (true, i.1));
  clear_chain = λ table chain i. (true, i);
  delete_chain = λ table chain i. (true, (false, i.1));
  append = λ table chain spec i. (true, (i.0, true));
  append_unique = λ table chain spec i. (true, (i.0, true));
  insert = λ table chain pos spec i. (true, (i.0, true));
  insert_unique = λ table chain pos spec i. (true, (i.0, true));
  delete = λ table chain spec i. (if i.1 then none else some not_exist, (i.0, false));
}

one_hook-AddsOnce : AddsOnce one_hook
one_hook-AddsOnce = record {
  made = λ table chain i h. refl;
  exists_after_insert = λ table chain hook n spec i. refl;
  exists_after_append = λ table chain hook spec i. refl;
  insert_again = λ table hook n spec i h. refl;
  append_again = λ table hook spec i h. refl;
}

abbrev forward_chain : ChainIpHook
forward_chain = record {
  name = "SUBMARINER-FORWARD";
  type = chain_filter;
  hook = forward;
  priority = priority_first;
  policy = policy_accept;
  jump_rule = none;
}

create_ip_hook_chain_again_example :
    (one_hook.chain_exists
        (table_text (hook_table forward_chain.type))
        forward_chain.name
        (create_ip_hook_chain_if_not_exists one_hook forward_chain (false, false)).1
      ≡ some true)
    × (create_ip_hook_chain_if_not_exists one_hook forward_chain
          (create_ip_hook_chain_if_not_exists one_hook forward_chain (false, false)).1
        ≡ (true, (create_ip_hook_chain_if_not_exists one_hook forward_chain (false, false)).1))
unfolding create_ip_hook_chain_if_not_exists create_chain_if_not_exists
create_ip_hook_chain_again_example =
    create_ip_hook_chain_again one_hook one_hook-AddsOnce forward_chain (false, false) refl
