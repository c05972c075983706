-- ===== src/PacketFilter/Update.antt =====
-- `UpdateChainRules` of pkg/packetfilter/adapter.go: what is in the chain afterwards.
use mathlib.Core.List.{append_assoc, append-nil}
use mathlib.Core.Bool.{false≢true}
use submariner.Base.{
  String, ◌≡◌, refl, sym, ap, ap₂, subst, ◌∙◌, ◌⊎◌, inl, inr, Bool, true, false, not, ◌||◌, List,
  [], ◌∷◌, ◌++◌, keep, arith, Bool-cases,
}
use submariner.PacketFilter.Rules.{TableType, Rule, rule_equal, Driver}
use submariner.PacketFilter.Adapter.{
  has, without, rule_set, appended, append_missing, delete_stale, delete_left, update_chain_rules,
}
use submariner.PacketFilter.Members.{
  rule_equal_refl, rule_equal_comm, keep_members, keep_all, has_apart, keep-append, without_lacking,
  Once, keep-without, has-keep, has-append,
}
use submariner.PacketFilter.Chains.{Done, IsChain, drop_first-Once}

rule_set-Once : (v : List Rule) → Once v → rule_set v ≡ v
unfolding rule_set Once
rule_set-Once [] h = refl
rule_set-Once (r ∷ v) h =
    ap (λ l. r ∷ without r l) (rule_set-Once v h.1) ∙ ap (λ l. r ∷ l) (without_lacking r v h.0)

keep-Once : (p : Rule → Bool) (v : List Rule) → Once v → Once (keep p v)
unfolding Once
keep-Once p [] h = tt
keep-Once p (r ∷ v) h = elim (Bool-cases (p r)) [
  | inl kept ↦ rw kept (ground (arith, has-keep p v r, h.0), keep-Once p v h.1)
  | inr left ↦ rw left (keep-Once p v h.1)
]

Once-append :
    (v w : List Rule)
    → Once v
    → Once w
    → ((x : Rule) → has w x ≡ true → has v x ≡ false)
    → Once (v ++ w)
unfolding Once
Once-append [] w h k a = k
Once-append (r ∷ v) w h k a = (
  has-append v w r ∙ not_behind (Bool-cases (has w r)),
  Once-append v w h.1 k (λ x m. ground (arith, a x m)),
)
  where
    not_behind : (has w r ≡ true) ⊎ (has w r ≡ false) → (has v r || has w r) ≡ false
    not_behind (inl there) = ground (arith, a r there, rule_equal_refl r)
    not_behind (inr lacking) = ground (arith, h.0)

has-without :
    (r x : Rule) (set : List Rule) → rule_equal x r ≡ false → has (without r set) x ≡ has set x
has-without r x set e = has-keep (λ y. not (rule_equal y r)) set x ∙ ground arith

-- The rules of the chain that are asked for, and then those that it lacks.
abbrev pub updated : List Rule → List Rule → List Rule
updated rules v = keep (has rules) v ++ keep (λ r. not (has v r)) rules

appended-Once :
    (rules v : List Rule) → Once rules → Once v → Once (v ++ keep (λ r. not (has v r)) rules)
appended-Once rules v once distinct =
    Once-append v _ distinct (keep-Once _ rules once)
      (λ x m. ground (arith, has-keep (λ r. not (has v r)) rules x, m))

stale_left :
    (rules v : List Rule)
    → keep
        (λ r. not (has (keep (λ x. not (has rules x)) v) r))
        (v ++ keep (λ r. not (has v r)) rules)
      ≡ updated rules v
stale_left rules v =
    keep-append _ v _
    ∙ ap₂ (λ l k. l ++ k)
        (keep_members _ _ v (λ x m. ground (arith, has-keep (λ y. not (has rules y)) v x)))
        (keep_members _ (λ r. true) (keep (λ r. not (has v r)) rules)
            (λ x m.
              ground (
                arith,
                has-keep (λ y. not (has rules y)) v x,
                has-keep (λ r. not (has v r)) rules x,
              ))
          ∙ keep_all _)

module _ {D : Type 0} (drv : Driver D) (table : TableType) (chain : String) (view : D → List Rule)
    (laws : IsChain drv table chain view) where
  abbrev Appended : List Rule → List Rule → (Bool × D) × List Rule → Type 0
  Appended v left (r, set) = Done view v r × (set ≡ left)

  Appended-congr :
      {v v' left left' : List Rule} (res : (Bool × D) × List Rule)
      → v ≡ v'
      → left ≡ left'
      → Appended v left res
      → Appended v' left' res
  Appended-congr (r, set) e f (done, g) = (subst (λ w. Done view w r) e done, g ∙ f)

  appended-Appended :
      (v w left set : List Rule) (next : D → (Bool × D) × List Rule) (r : Bool × D)
      → Done view w r
      → ((d : D) → view d ≡ w → Appended v left (next d))
      → Appended v left (appended next set r)
  appended-Appended v w left set next (true, d) h k = k d h.1
  appended-Appended v w left set next (false, d) h k = absurd (false≢true h.0)

  append_missing-Appended :
      (set rules : List Rule) (d : D)
      → Once rules
      → Appended
          (view d ++ keep (λ r. not (has set r)) rules)
          (keep (λ r. not (has rules r)) set)
          (append_missing drv table chain set rules d)
  unfolding append_missing Once
  append_missing-Appended set [] d h = ((refl, sym (append-nil (view d))), sym (keep_all set))
  append_missing-Appended set (r ∷ rules) d h = elim (Bool-cases (has set r)) [
    | inl there ↦
        rw (append_missing, there)
          (Appended-congr _
            (ap (λ l. view d ++ l)
              (keep_members _ _ rules
                (λ x m. ap not (has-without r x set (has_apart rules x r m h.0)))))
            (keep-without r rules set) (append_missing-Appended (without r set) rules d h.1))
    | inr lacking ↦
        rw (append_missing, lacking)
          (appended-Appended _ _ _ set (append_missing drv table chain set rules) _
            (laws.appended r d)
            (λ d' s.
              Appended-congr _
                (ap (λ l. l ++ keep (λ x. not (has set x)) rules) s
                  ∙ append_assoc (view d) (r ∷ []) _)
                (keep_members _ _ set
                  (λ x m. ground (arith, has_apart set x r m lacking, rule_equal_comm x r)))
                (append_missing-Appended set rules d' h.1)))
  ]

  delete_stale-keep :
      (stale : List Rule) (d : D)
      → Once (view d)
      → view (delete_stale drv table chain stale d) ≡ keep (λ r. not (has stale r)) (view d)
  unfolding delete_stale
  delete_stale-keep [] d h = sym (keep_all (view d))
  delete_stale-keep (r ∷ stale) d h =
      let left = (laws.deleted r d).1 ∙ drop_first-Once r (view d) h in
      delete_stale-keep stale (drv.delete table chain r d).1
        (subst Once (sym left) (keep-Once _ (view d) h))
      ∙ ap (keep (λ x. not (has stale x))) left
      ∙ keep-without r stale (view d)

  delete_left-Done :
      (v left : List Rule) (res : (Bool × D) × List Rule)
      → Once v
      → Appended v left res
      → Done view (keep (λ r. not (has left r)) v) (delete_left drv table chain res)
  delete_left-Done v left ((true, d), set) once ((ok, shown), e) = (
    refl,
    delete_stale-keep set d (subst Once (sym shown) once)
        ∙ ap (λ s. keep (λ r. not (has s r)) (view d)) e
        ∙ ap (keep (λ r. not (has left r))) shown,
  )
  delete_left-Done v left ((false, d), set) once ((ok, shown), e) = absurd (false≢true ok)

  -- After `UpdateChainRules` a chain without repeated rules has exactly the rules that were asked
  -- for, each once and without an error: first those that it had, in the order of the chain, then
  -- those that it lacked, in the order in which they were given.
  pub update_chain_rules-updated :
      (rules : List Rule) (d : D)
      → Once rules
      → Once (view d)
      → Done view (updated rules (view d)) (update_chain_rules drv table chain rules d)
  unfolding update_chain_rules
  update_chain_rules-updated rules d once distinct =
      rw (update_chain_rules, laws.listed d, rule_set-Once (view d) distinct)
        (subst
          (λ w.
            Done view w
              (delete_left drv table chain (append_missing drv table chain (view d) rules d)))
          (stale_left rules (view d))
          (delete_left-Done _ _ _ (appended-Once rules (view d) once distinct)
            (append_missing-Appended (view d) rules d once)))
