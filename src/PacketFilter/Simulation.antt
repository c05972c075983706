-- ===== src/PacketFilter/Simulation.antt =====
-- Two drivers under the adapter of pkg/packetfilter/adapter.go: where each call of one does what
-- the call of the other does, so do the adapter's operations.
use submariner.Base.{
  ℕ, zero, suc, ◌+◌, String, ◌≡◌, refl, subst, inl, inr, Bool, true, false, not, ◌&&◌, ◌||◌, some,
  List, [], ◌∷◌, All, keep, ltb, ◌==◌, if◌then◌else◌, Bool-cases,
}
use submariner.PacketFilter.Rules.{TableType, Rule, Driver}
use submariner.PacketFilter.Adapter.{
  then_ok, appended, scan, has, without, rule_set, delete_times, ensure_scanned,
  ensure_rule_at_position, prepend_each, prepend_unique, append_missing, delete_stale, delete_left,
  update_chain_rules,
}

-- Two results agree: in the error, and in the states.
abbrev pub Agree : {D E : Type 0} → (D → E → Type 0) → Bool × D → Bool × E → Type 0
Agree R (ok, d) (ok', e) = (ok ≡ ok') × R d e

-- The driver does what the other one does, for the rules that are written well.
pub record Simulates {D E : Type 0} (drv : Driver D) (abs : Driver E) (table : TableType)
    (chain : String) (Ok : Rule → Type 0) (R : D → E → Type 0) : Type 0 where
  pub listed :
      (d : D) (e : E)
      → R d e
      → (v : List Rule) × All Ok v
        × (drv.list table chain d ≡ some v)
        × (abs.list table chain e ≡ some v)
  pub deleted :
      (r : Rule) (d : D) (e : E)
      → Ok r
      → R d e
      → Agree R (drv.delete table chain r d) (abs.delete table chain r e)
  pub appended :
      (r : Rule) (d : D) (e : E)
      → Ok r
      → R d e
      → Agree R (drv.append table chain r d) (abs.append table chain r e)
  pub inserted :
      (n : ℕ) (r : Rule) (d : D) (e : E)
      → Ok r
      → R d e
      → Agree R (drv.insert table chain (n + 1) r d) (abs.insert table chain (n + 1) r e)

module _ {D E : Type 0} {R : D → E → Type 0} where
  then_ok-Agree :
      (next : D → Bool × D) (next' : E → Bool × E) (r : Bool × D) (r' : Bool × E)
      → Agree R r r'
      → ((d : D) (e : E) → R d e → Agree R (next d) (next' e))
      → Agree R (then_ok next r) (then_ok next' r')
  then_ok-Agree next next' (true, d) (true, e) h k = k d e h.1
  then_ok-Agree next next' (false, d) (false, e) h k = h
  then_ok-Agree next next' (true, d) (false, e) h k = cc (h.0)
  then_ok-Agree next next' (false, d) (true, e) h k = cc (h.0)

All-keep : (Ok : Rule → Type 0) (p : Rule → Bool) (v : List Rule) → All Ok v → All Ok (keep p v)
All-keep Ok p [] h = tt
All-keep Ok p (r ∷ v) h = elim (Bool-cases (p r)) [
  | inl kept ↦ rw kept (h.0, All-keep Ok p v h.1)
  | inr left ↦ rw left (All-keep Ok p v h.1)
]

All-rule_set : (Ok : Rule → Type 0) (v : List Rule) → All Ok v → All Ok (rule_set v)
unfolding rule_set
All-rule_set Ok [] h = tt
All-rule_set Ok (r ∷ v) h = (h.0, All-keep Ok _ (rule_set v) (All-rule_set Ok v h.1))

module _ {D E : Type 0} (drv : Driver D) (abs : Driver E) (table : TableType) (chain : String)
    (Ok : Rule → Type 0) (R : D → E → Type 0) (sim : Simulates drv abs table chain Ok R) where
  delete_times-Agree :
      (n : ℕ) (r : Rule) (d : D) (e : E)
      → Ok r
      → R d e
      → Agree R (delete_times drv table chain n r d) (delete_times abs table chain n r e)
  unfolding delete_times
  delete_times-Agree zero r d e ok h = (refl, h)
  delete_times-Agree (suc n) r d e ok h =
      then_ok-Agree _ _ _ _ (sim.deleted r d e ok h)
        (λ d' e' h'. delete_times-Agree n r d' e' ok h')

  if_Agree :
      (b : Bool) (x y : Bool × D) (x' y' : Bool × E)
      → Agree R x x'
      → Agree R y y'
      → Agree R (if b then x else y) (if b then x' else y')
  if_Agree true x y x' y' h k = h
  if_Agree false x y x' y' h k = k

  ensure_scanned-Agree :
      (n : ℕ) (r : Rule) (found : Bool × ℕ) (d : D) (e : E)
      → Ok r
      → R d e
      → Agree R
          (ensure_scanned drv table chain (n + 1) r found d)
          (ensure_scanned abs table chain (n + 1) r found e)
  ensure_scanned-Agree n r (present, k) d e ok h =
      then_ok-Agree _ _ _ _
        (if_Agree (ltb 1 k || not present) _ _ _ _ (delete_times-Agree k r d e ok h) (refl, h))
        (λ d' e' h'. if_Agree (k == 1 && present) _ _ _ _ (refl, h') (sim.inserted n r d' e' ok h'))

  prepend_each-Agree :
      (existing : List Rule) (i : ℕ) (rules : List Rule) (d : D) (e : E)
      → All Ok rules
      → R d e
      → Agree R
          (prepend_each drv table chain existing i rules d)
          (prepend_each abs table chain existing i rules e)
  unfolding prepend_each ensure_rule_at_position
  prepend_each-Agree existing i [] d e ok h = (refl, h)
  prepend_each-Agree existing i (r ∷ rules) d e ok h =
      then_ok-Agree _ _ _ _
        (ensure_scanned-Agree i r (scan r (i + 1) 0 existing (false, 0)) d e ok.0 h)
        (λ d' e' h'. prepend_each-Agree existing (i + 1) rules d' e' ok.1 h')

  pub prepend_unique-Agree :
      (rules : List Rule) (d : D) (e : E)
      → All Ok rules
      → R d e
      → Agree R (prepend_unique drv table chain rules d) (prepend_unique abs table chain rules e)
  unfolding prepend_unique
  prepend_unique-Agree rules d e ok h =
      let (v, oks, here, there) = sim.listed d e h in
      rw (prepend_unique, here, there) (prepend_each-Agree v 0 rules d e ok h)

  -- After the rules that are lacked: the same rules are left, which are written well.
  abbrev AgreeLeft : (Bool × D) × List Rule → (Bool × E) × List Rule → Type 0
  AgreeLeft (r, set) (r', set') = Agree R r r' × (set ≡ set') × All Ok set

  appended-AgreeLeft :
      (next : D → (Bool × D) × List Rule) (next' : E → (Bool × E) × List Rule) (set : List Rule)
      (r : Bool × D) (r' : Bool × E)
      → All Ok set
      → Agree R r r'
      → ((d : D) (e : E) → R d e → AgreeLeft (next d) (next' e))
      → AgreeLeft (appended next set r) (appended next' set r')
  appended-AgreeLeft next next' set (true, d) (true, e) oks h k = k d e h.1
  appended-AgreeLeft next next' set (false, d) (false, e) oks h k = (h, refl, oks)
  appended-AgreeLeft next next' set (true, d) (false, e) oks h k = cc (h.0)
  appended-AgreeLeft next next' set (false, d) (true, e) oks h k = cc (h.0)

  append_missing-AgreeLeft :
      (set rules : List Rule) (d : D) (e : E)
      → All Ok set
      → All Ok rules
      → R d e
      → AgreeLeft
          (append_missing drv table chain set rules d)
          (append_missing abs table chain set rules e)
  unfolding append_missing
  append_missing-AgreeLeft set [] d e oks ok h = ((refl, h), refl, oks)
  append_missing-AgreeLeft set (r ∷ rules) d e oks ok h = elim (Bool-cases (has set r)) [
    | inl there ↦
        rw (append_missing, there)
          (append_missing-AgreeLeft (without r set) rules d e (All-keep Ok _ set oks) ok.1 h)
    | inr lacking ↦
        rw (append_missing, lacking)
          (appended-AgreeLeft _ _ set _ _ oks (sim.appended r d e ok.0 h)
            (λ d' e' h'. append_missing-AgreeLeft set rules d' e' oks ok.1 h'))
  ]

  delete_stale-R :
      (set : List Rule) (d : D) (e : E)
      → All Ok set
      → R d e
      → R (delete_stale drv table chain set d) (delete_stale abs table chain set e)
  unfolding delete_stale
  delete_stale-R [] d e oks h = h
  delete_stale-R (r ∷ set) d e oks h = delete_stale-R set _ _ oks.1 (sim.deleted r d e oks.0 h).1

  delete_left-Agree :
      (res : (Bool × D) × List Rule) (res' : (Bool × E) × List Rule)
      → AgreeLeft res res'
      → Agree R (delete_left drv table chain res) (delete_left abs table chain res')
  delete_left-Agree ((true, d), set) ((true, e), set') ((ok, h), same, oks) = (
    refl,
    subst (λ s. R (delete_stale drv table chain set d) (delete_stale abs table chain s e)) same
        (delete_stale-R set d e oks h),
  )
  delete_left-Agree ((false, d), set) ((false, e), set') ((ok, h), same, oks) = (refl, h)
  delete_left-Agree ((true, d), set) ((false, e), set') ((ok, h), same, oks) = cc ok
  delete_left-Agree ((false, d), set) ((true, e), set') ((ok, h), same, oks) = cc ok

  pub update_chain_rules-Agree :
      (rules : List Rule) (d : D) (e : E)
      → All Ok rules
      → R d e
      → Agree R
          (update_chain_rules drv table chain rules d)
          (update_chain_rules abs table chain rules e)
  unfolding update_chain_rules
  update_chain_rules-Agree rules d e ok h =
      let (v, oks, here, there) = sim.listed d e h in
      rw (update_chain_rules, here, there)
        (delete_left-Agree _ _
          (append_missing-AgreeLeft (rule_set v) rules d e (All-rule_set Ok v oks) ok h))
