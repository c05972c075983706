-- ===== src/PacketFilter/IpTables/Refine.antt =====
-- The driver of pkg/packetfilter/iptables/iptables.go implements a driver whose chains are lists of
-- rules, and the adapter's update over it.
use submariner.Base.{
  ℕ, ◌+◌, ◌-◌, ◌≤◌, String, ◌≡◌, refl, sym, ap, ◌∙◌, Bool, true, false, Option, none, some, List,
  [], ◌∷◌, ◌++◌, length, All, All-snoc, arith, leb, if◌then◌else◌,
}
use submariner.PacketFilter.Rules.{TableType, Rule, Driver}
use submariner.PacketFilter.Adapter.{prepend_unique, update_chain_rules}
use submariner.PacketFilter.Members.{Once}
use submariner.PacketFilter.Specs.{to_rule_spec}
use submariner.PacketFilter.Chains.{drop_first, insert_at, Done, IsChain}
use submariner.PacketFilter.Update.{updated, update_chain_rules-updated}
use submariner.PacketFilter.Simulation.{
  Agree, Simulates, update_chain_rules-Agree, prepend_unique-Agree,
}
use submariner.PacketFilter.IpTables.{
  DeleteError, not_exist, other_error, Library, table_text, unless_not_exist, list, delete, append,
  insert, ip_driver,
}
use submariner.PacketFilter.IpTables.Listing.{
  has_spec, drop_spec, insert_spec, lines, KeepsSpecs, IsWord, Kept, specs_of, length-specs_of,
  specs_of-append, specs_of-insert_at, specs_of-drop_first, rules_of_lines-skip,
  rules_of_lines-lines, not_self_snat, All-drop_first, All-insert_at,
}

-- The driver of which a chain is the list of its rules.
abbrev pub chain_driver : Driver (List Rule)
chain_driver = record {
  list = λ table chain v. some v;
  delete = λ table chain r v. (true, drop_first r v);
  append = λ table chain r v. (true, v ++ r ∷ []);
  insert = λ table chain position r v.
      if leb (position - 1) (length v) then (true, insert_at (position - 1) r v) else (false, v);
}

abbrev pub chain_rules : List Rule → List Rule
chain_rules v = v

behind : (n : ℕ) → n ≡ n + 1 - 1
behind n = omega arith

chain_inserted :
    (n m : ℕ) (r : Rule) (v : List Rule)
    → m ≡ n
    → n ≤ length v
    → Done chain_rules
        (insert_at n r v)
        (if leb m (length v) then (true, insert_at m r v) else (false, v))
chain_inserted n m r v e h = ground (arith, e)

pub chain_driver-IsChain :
    (table : TableType) (chain : String) → IsChain chain_driver table chain chain_rules
chain_driver-IsChain table chain = record {
  listed = λ v. refl;
  deleted = λ r v. (refl, refl);
  appended = λ r v. (refl, refl);
  inserted = λ n r v h. chain_inserted n (n + 1 - 1) r v (omega arith) h;
}

delete_succeeds :
    {I : Type 0} (found : Bool) (r : Option DeleteError × I)
    → r.0 ≡ (if found then none else some not_exist)
    → unless_not_exist r ≡ (true, r.1)
delete_succeeds true (none, i) e = refl
delete_succeeds found (some not_exist, i) e = refl
delete_succeeds false (none, i) e = refl
delete_succeeds true (some other_error, i) e = cc e
delete_succeeds false (some other_error, i) e = cc e

module _ {I : Type 0} (ipt : Library I) (table : TableType) (chain : String)
    (shown : List String → List String) (specs : I → List (List String)) (is_word : IsWord chain)
    (laws : KeepsSpecs ipt (table_text table) chain shown specs) where
  -- The chain holds the arguments of these rules.
  abbrev pub Holds : I → List Rule → Type 0
  Holds i v = (specs i ≡ specs_of v) × All (Kept shown) v

  list-Holds : (i : I) (v : List Rule) → Holds i v → list ipt table chain i ≡ some v
  unfolding list
  list-Holds i v (e, kept) =
      rw (list, laws.listed i, e)
        (rules_of_lines-skip chain (lines shown chain (specs_of v)) is_word
          ∙ rules_of_lines-lines shown chain v is_word kept)

  delete-Holds :
      (r : Rule) (i : I) (v : List Rule)
      → Kept shown r
      → Holds i v
      → Agree Holds (delete ipt table chain r i) (true, drop_first r v)
  unfolding delete
  delete-Holds r i v k (e, kept) =
      rw
        (
          delete,
          not_self_snat r k.0,
          delete_succeeds (has_spec (to_rule_spec r) (specs i))
              (ipt.delete (table_text table) chain (to_rule_spec r) i)
              (laws.deleted (to_rule_spec r) i).0,
        )
        (
          refl,
          (
            (laws.deleted (to_rule_spec r) i).1
                ∙ ap (drop_spec (to_rule_spec r)) e
                ∙ sym (specs_of-drop_first shown r v k kept),
            All-drop_first (Kept shown) r v kept,
          ),
        )

  append-Holds :
      (r : Rule) (i : I) (v : List Rule)
      → Kept shown r
      → Holds i v
      → Agree Holds (append ipt table chain r i) (true, v ++ r ∷ [])
  unfolding append
  append-Holds r i v k (e, kept) =
      rw (append, not_self_snat r k.0)
        (
          (laws.appended (to_rule_spec r) i).0,
          (
            (laws.appended (to_rule_spec r) i).1
                ∙ ap (λ l. l ++ to_rule_spec r ∷ []) e
                ∙ sym (specs_of-append v r),
            All-snoc (Kept shown) v r kept k,
          ),
        )

  inserted_at :
      (n m : ℕ) (r : Rule) (i : I) (v : List Rule) (fits : Bool) (res : Bool × I)
      → n ≡ m
      → Kept shown r
      → Holds i v
      → res.0 ≡ fits
      → specs res.1 ≡ (if fits then insert_spec n (to_rule_spec r) (specs i) else specs i)
      → Agree Holds res (if fits then (true, insert_at m r v) else (false, v))
  inserted_at n m r i v true res same k (e, kept) ok left = (
    ok,
    (
      left
          ∙ ap (insert_spec n (to_rule_spec r)) e
          ∙ sym (specs_of-insert_at n r v)
          ∙ ap (λ k. specs_of (insert_at k r v)) same,
      All-insert_at (Kept shown) m r v k kept,
    ),
  )
  inserted_at n m r i v false res same k (e, kept) ok left = (ok, (left ∙ e, kept))

  insert-Holds :
      (n : ℕ) (r : Rule) (i : I) (v : List Rule)
      → Kept shown r
      → Holds i v
      → Agree Holds
          (insert ipt table chain (n + 1) r i)
          (chain_driver.insert table chain (n + 1) r v)
  unfolding insert
  insert-Holds n r i v k (e, kept) =
      let (ok, left) = laws.inserted n (to_rule_spec r) i in
      let same =
        ap (λ l. leb n (length l)) e
        ∙ ap (leb n) (length-specs_of v)
        ∙ ap (λ m. leb m (length v)) (behind n) in
      rw (insert, not_self_snat r k.0)
        (inserted_at n (n + 1 - 1) r i v (leb (n + 1 - 1) (length v)) _ (behind n) k (e, kept)
          (ok ∙ same)
          (left ∙ ap (λ b. if b then insert_spec n (to_rule_spec r) (specs i) else specs i) same))

  pub ip_driver-Simulates : Simulates (ip_driver ipt) chain_driver table chain (Kept shown) Holds
  ip_driver-Simulates = record {
    listed = λ i v h. (v, h.1, list-Holds i v h, refl);
    deleted = λ r i v k h. delete-Holds r i v k h;
    appended = λ r i v k h. append-Holds r i v k h;
    inserted = λ n r i v k h. insert-Holds n r i v k h;
  }

  -- `PrependUnique` and `UpdateChainRules` over the iptables driver have the result, and leave in
  -- the chain the arguments of the rules, that they have and leave over a chain that is a list of
  -- rules: for rules that the command shows as they were given, without an error of the command
  -- itself.
  pub ip_driver_refines :
      (rules : List Rule) (i : I) (v : List Rule)
      → All (Kept shown) rules
      → Holds i v
      → Agree Holds
          (prepend_unique (ip_driver ipt) table chain rules i)
          (prepend_unique chain_driver table chain rules v)
        × Agree Holds
            (update_chain_rules (ip_driver ipt) table chain rules i)
            (update_chain_rules chain_driver table chain rules v)
  ip_driver_refines rules i v ok h = (
    prepend_unique-Agree (ip_driver ipt) chain_driver table chain (Kept shown) Holds
        ip_driver-Simulates rules i v ok h,
    update_chain_rules-Agree (ip_driver ipt) chain_driver table chain (Kept shown) Holds
        ip_driver-Simulates rules i v ok h,
  )

  -- After UpdateChainRules with rules that are each given once, over the iptables driver, a chain
  -- without repeated rules holds the arguments of exactly the rules that were asked for, without an
  -- error: first those of the rules that it had, in their order, then those of the rules that it
  -- lacked; for rules that can be said in arguments and that the command shows as they were given.
  pub update_chain_rules-specs_of :
      (rules : List Rule) (i : I) (v : List Rule)
      → All (Kept shown) rules
      → Once rules
      → Once v
      → Holds i v
      → ((update_chain_rules (ip_driver ipt) table chain rules i).0 ≡ true)
        × (specs (update_chain_rules (ip_driver ipt) table chain rules i).1
            ≡ specs_of (updated rules v))
  update_chain_rules-specs_of rules i v ok once distinct h =
      let (same, (said, kept)) = (ip_driver_refines rules i v ok h).1 in
      let (done, left) =
        update_chain_rules-updated chain_driver table chain chain_rules
          (chain_driver-IsChain table chain) rules v once distinct in
      (same ∙ done, said ∙ ap specs_of left)
