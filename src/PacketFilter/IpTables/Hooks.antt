-- ===== src/PacketFilter/IpTables/Hooks.antt =====
-- The chains at the hooks of the kernel (`CreateIPHookChainIfNotExists` of
-- pkg/packetfilter/iptables/iptables.go).
use mathlib.Core.Bool.{false≢true}
use submariner.Base.{
  ℕ, String, ◌≡◌, refl, sym, ap, ◌∙◌, inl, inr, Bool, true, false, Option, none, some, List,
  Bool-cases,
}
use submariner.PacketFilter.Rules.{TableType, Rule}
use submariner.PacketFilter.Adapter.{then_ok}
use submariner.PacketFilter.Specs.{to_rule_spec}
use submariner.PacketFilter.IpTables.{
  Library, ChainIpHook, ChainPriority, priority_first, priority_middle, priority_last, table_text,
  hook_table, hook_text, is_self_snat, jump_rule_of, unless_exists, append_unique, hook_in,
  create_chain_if_not_exists, create_ip_hook_chain_if_not_exists,
}

-- The documented behaviour of the library: a chain that was made exists, also after rules are
-- added, and a rule that was added as a unique one is not added again.
pub record AddsOnce {I : Type 0} (ipt : Library I) : Type 0 where
  pub made :
      (table chain : String) (i : I)
      → (ipt.new_chain table chain i).0 ≡ true
      → ipt.chain_exists table chain (ipt.new_chain table chain i).1 ≡ some true
  pub exists_after_insert :
      (table chain hook : String) (n : ℕ) (spec : List String) (i : I)
      → ipt.chain_exists table chain (ipt.insert_unique table hook n spec i).1
        ≡ ipt.chain_exists table chain i
  pub exists_after_append :
      (table chain hook : String) (spec : List String) (i : I)
      → ipt.chain_exists table chain (ipt.append_unique table hook spec i).1
        ≡ ipt.chain_exists table chain i
  pub insert_again :
      (table hook : String) (n : ℕ) (spec : List String) (i : I)
      → (ipt.insert_unique table hook n spec i).0 ≡ true
      → ipt.insert_unique table hook n spec (ipt.insert_unique table hook n spec i).1
        ≡ (true, (ipt.insert_unique table hook n spec i).1)
  pub append_again :
      (table hook : String) (spec : List String) (i : I)
      → (ipt.append_unique table hook spec i).0 ≡ true
      → ipt.append_unique table hook spec (ipt.append_unique table hook spec i).1
        ≡ (true, (ipt.append_unique table hook spec i).1)

module _ {I : Type 0} (ipt : Library I) (laws : AddsOnce ipt) where
  then_ok-succeeds :
      (next : I → Bool × I) (r : Bool × I)
      → (then_ok next r).0 ≡ true
      → (r.0 ≡ true) × (then_ok next r ≡ next r.1)
  then_ok-succeeds next (true, i) h = (refl, refl)
  then_ok-succeeds next (false, i) h = absurd (false≢true h)

  -- A call that does nothing when it is made again, and keeps a chain.
  abbrev Settles : (I → Bool × I) → String → String → I → Type 0
  Settles call table chain i =
      ((call i).0 ≡ true → call (call i).1 ≡ (true, (call i).1))
      × (ipt.chain_exists table chain (call i).1 ≡ ipt.chain_exists table chain i)

  append_unique-Settles :
      (table : TableType) (hook chain : String) (rule : Rule) (i : I)
      → Settles (append_unique ipt table hook rule) (table_text table) chain i
  unfolding append_unique
  append_unique-Settles table hook chain rule i = elim (Bool-cases (is_self_snat rule)) [
    | inl skips ↦ rw (append_unique, skips) ((λ h. refl), refl)
    | inr adds ↦
        rw (append_unique, adds)
          (
            laws.append_again (table_text table) hook (to_rule_spec rule) i,
            laws.exists_after_append (table_text table) chain hook (to_rule_spec rule) i,
          )
  ]

  hook_in-Settles :
      (chain : ChainIpHook) (i : I)
      → Settles (hook_in ipt chain) (table_text (hook_table chain.type)) chain.name i
  hook_in-Settles chain i = at chain.priority chain i
    where
      at :
          (p : ChainPriority) (chain : ChainIpHook) (i : I)
          → Settles
              (hook_in ipt (record chain { priority = p }))
              (table_text (hook_table chain.type))
              chain.name
              i
      at priority_first chain i = (
        laws.insert_again (table_text (hook_table chain.type)) (hook_text chain.hook) 1
            (to_rule_spec (jump_rule_of chain)) i,
        laws.exists_after_insert (table_text (hook_table chain.type)) chain.name
            (hook_text chain.hook) 1 (to_rule_spec (jump_rule_of chain)) i,
      )
      at priority_middle chain i =
          append_unique-Settles (hook_table chain.type) (hook_text chain.hook) chain.name
            (jump_rule_of chain) i
      at priority_last chain i =
          append_unique-Settles (hook_table chain.type) (hook_text chain.hook) chain.name
            (jump_rule_of chain) i

  create_chain-exists :
      (table : TableType) (chain : String) (i : I)
      → (create_chain_if_not_exists ipt table chain i).0 ≡ true
      → ipt.chain_exists (table_text table) chain (create_chain_if_not_exists ipt table chain i).1
        ≡ some true
  unfolding create_chain_if_not_exists
  create_chain-exists table chain i h = found (ipt.chain_exists (table_text table) chain i) refl h
    where
      found :
          (o : Option Bool)
          → ipt.chain_exists (table_text table) chain i ≡ o
          → (unless_exists (ipt.new_chain (table_text table) chain) o i).0 ≡ true
          → ipt.chain_exists
              (table_text table)
              chain
              (unless_exists (ipt.new_chain (table_text table) chain) o i).1
            ≡ some true
      found none e h = absurd (false≢true h)
      found (some true) e h = e
      found (some false) e h = laws.made (table_text table) chain i h

  -- Where `CreateIPHookChainIfNotExists` succeeds, the chain exists, and to call it again succeeds
  -- and changes nothing.
  pub create_ip_hook_chain_again :
      (chain : ChainIpHook) (i : I)
      → (create_ip_hook_chain_if_not_exists ipt chain i).0 ≡ true
      → (ipt.chain_exists
            (table_text (hook_table chain.type))
            chain.name
            (create_ip_hook_chain_if_not_exists ipt chain i).1
          ≡ some true)
        × (create_ip_hook_chain_if_not_exists ipt chain
              (create_ip_hook_chain_if_not_exists ipt chain i).1
            ≡ (true, (create_ip_hook_chain_if_not_exists ipt chain i).1))
  unfolding create_ip_hook_chain_if_not_exists create_chain_if_not_exists
  create_ip_hook_chain_again chain i h =
      let made = create_chain_if_not_exists ipt (hook_table chain.type) chain.name i in
      let (created, same) = then_ok-succeeds (hook_in ipt chain) made h in
      let (again, kept) = hook_in-Settles chain made.1 in
      let there = kept ∙ create_chain-exists (hook_table chain.type) chain.name i created in
      rw same (
        there,
        ap
              (λ o. then_ok (hook_in ipt chain) (
                unless_exists (ipt.new_chain (table_text (hook_table chain.type)) chain.name) o
                  (hook_in ipt chain made.1).1))
              there
            ∙ again (ap (λ r. r.0) (sym same) ∙ h),
      )
