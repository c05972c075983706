-- ===== src/PacketFilter/Tests.antt =====
-- The packet filter's theorems at concrete chains, with a driver whose state is one chain.
use submariner.Base.{◌-◌, String, ◌≡◌, refl, ap, true, some, List, [], ◌∷◌, ◌++◌, arith, str_eq}
use submariner.PacketFilter.Rules.{
  table_filter, Rule, action_jump, proto_undefined, undefined_mss, rule_equal, Driver,
}
use submariner.PacketFilter.Adapter.{without, prepend_unique, update_chain_rules}
use submariner.PacketFilter.Members.{Once}
use submariner.PacketFilter.Chains.{drop_first, insert_at, Done, IsChain}
use submariner.PacketFilter.Prepend.{prepend_unique_single}
use submariner.PacketFilter.Several.{prepend_unique_misplaces}
use submariner.PacketFilter.Update.{updated, update_chain_rules-updated}

abbrev jump_to : String → Rule
jump_to chain = record {
  dest_cidr = "";
  src_cidr = "";
  src_set_name = "";
  dest_set_name = "";
  snat_cidr = "";
  dnat_cidr = "";
  out_interface = "";
  in_interface = "";
  target_chain = chain;
  mss_value = "";
  d_port = "";
  mark_value = "";
  action = action_jump;
  proto = proto_undefined;
  clamp_type = undefined_mss;
}

abbrev list_driver : Driver (List Rule)
list_driver = record {
  list = λ table chain d. some d;
  delete = λ table chain r d. (true, drop_first r d);
  append = λ table chain r d. (true, d ++ r ∷ []);
  insert = λ table chain position r d. (true, insert_at (position - 1) r d);
}

abbrev chain_of : List Rule → List Rule
chain_of d = d

list_driver-IsChain : IsChain list_driver table_filter "SUBMARINER-FORWARD" chain_of
list_driver-IsChain = record {
  listed = λ d. refl;
  deleted = λ r d. (refl, refl);
  appended = λ r d. (refl, refl);
  inserted = λ n r d h. (refl, ap (λ k. insert_at k r d) (omega arith));
}

abbrev mark : Rule
mark = jump_to "SM-GN-MARK"

abbrev egress : Rule
egress = jump_to "SM-GN-EGRESS"

abbrev other : Rule
other = jump_to "KUBE-FORWARD"

prepend_unique_single_example :
    Done chain_of
      (mark ∷ without mark (other ∷ mark ∷ []))
      (prepend_unique list_driver table_filter "SUBMARINER-FORWARD" (mark ∷ []) (other ∷ mark ∷ []))
prepend_unique_single_example =
    prepend_unique_single list_driver table_filter "SUBMARINER-FORWARD" chain_of list_driver-IsChain
      mark (other ∷ mark ∷ [])

prepend_unique_misplaces_example : Done chain_of (mark ∷ other ∷ egress ∷ []) (
    prepend_unique list_driver table_filter "SUBMARINER-FORWARD"
      (mark ∷ egress ∷ [])
      (other ∷ egress ∷ []))
unfolding rule_equal str_eq
prepend_unique_misplaces_example =
    prepend_unique_misplaces list_driver table_filter "SUBMARINER-FORWARD" chain_of
      list_driver-IsChain mark egress other [] (other ∷ egress ∷ []) refl refl refl refl

update_chain_rules-updated_example :
    Done chain_of (updated (mark ∷ egress ∷ []) (other ∷ egress ∷ [])) (
      update_chain_rules list_driver table_filter "SUBMARINER-FORWARD"
        (mark ∷ egress ∷ [])
        (other ∷ egress ∷ []))
unfolding rule_equal str_eq Once
update_chain_rules-updated_example =
    update_chain_rules-updated list_driver table_filter "SUBMARINER-FORWARD" chain_of
      list_driver-IsChain (mark ∷ egress ∷ []) (other ∷ egress ∷ []) (refl, (refl, tt))
      (refl, (refl, tt))

-- The rule that is lacked comes last.
updated_test : updated (mark ∷ egress ∷ []) (other ∷ egress ∷ []) ≡ egress ∷ mark ∷ []
unfolding rule_equal str_eq
updated_test = refl
