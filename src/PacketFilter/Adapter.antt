-- ===== src/PacketFilter/Adapter.antt =====
-- pkg/packetfilter/adapter.go: rules at the beginning of a chain, and the update of a whole chain.
-- A result of `true` is a nil error. The driver keeps its own state, which every call passes on.
use submariner.Base.{
  ℕ, zero, suc, ◌+◌, ◌-◌, String, Bool, true, false, not, ◌&&◌, ◌||◌, none, some, List, [], ◌∷◌,
  keep, some_of, ltb, ◌==◌, if◌then◌else◌,
}
use submariner.PacketFilter.Rules.{TableType, Rule, rule_equal, Driver}

-- What follows a call unless it fails.
abbrev pub then_ok : {D : Type 0} → (D → Bool × D) → Bool × D → Bool × D
then_ok next (false, d) = (false, d)
then_ok next (true, d) = next d

-- What follows a call to append, unless it fails; the list is what is left in `existingRules`.
abbrev pub appended :
    {D : Type 0} → (D → (Bool × D) × List Rule) → List Rule → Bool × D → (Bool × D) × List Rule
appended next set (false, d) = ((false, d), set)
appended next set (true, d) = next d

-- One step of the scan of the existing rules: whether the rule was at the position, counted from 1,
-- and the number of its occurrences so far.
abbrev pub scan_step : Rule → ℕ → ℕ → Rule → Bool × ℕ → Bool × ℕ
scan_step rule position i existing (present, n) =
    if rule_equal existing rule then (present || i == position - 1, n + 1) else (present, n)

unfoldable pub scan : Rule → ℕ → ℕ → List Rule → Bool × ℕ → Bool × ℕ
scan rule position i [] found = found
scan rule position i (existing ∷ rest) found =
    scan rule position (i + 1) rest (scan_step rule position i existing found)

-- Whether a rule is in a list of rules, or in a map whose keys they are.
abbrev pub has : List Rule → Rule → Bool
has rules rule = some_of (λ r. rule_equal r rule) rules

abbrev pub without : Rule → List Rule → List Rule
without rule = keep (λ r. not (rule_equal r rule))

-- The keys of `existingRules`, each once.
unfoldable pub rule_set : List Rule → List Rule
rule_set [] = []
rule_set (r ∷ rest) = let set = rule_set rest in r ∷ without r set

module _ {D : Type 0} (drv : Driver D) (table : TableType) (chain : String) where
  -- `for range numOccurrences`
  unfoldable pub delete_times : ℕ → Rule → D → Bool × D
  delete_times zero rule d = (true, d)
  delete_times (suc n) rule d = then_ok (delete_times n rule) (drv.delete table chain rule d)

  abbrev pub ensure_scanned : ℕ → Rule → Bool × ℕ → D → Bool × D
  ensure_scanned position rule (present, n) d =
      then_ok
        (λ d'. if n == 1 && present then (true, d') else drv.insert table chain position rule d')
        (if ltb 1 n || not present then delete_times n rule d else (true, d))

  unfoldable pub ensure_rule_at_position : List Rule → ℕ → Rule → D → Bool × D
  ensure_rule_at_position existing position rule d =
      ensure_scanned position rule (scan rule position 0 existing (false, 0)) d

  -- The loop of `PrependUnique`, from index `i`: every rule is compared with the rules listed at
  -- first.
  unfoldable pub prepend_each : List Rule → ℕ → List Rule → D → Bool × D
  prepend_each existing i [] d = (true, d)
  prepend_each existing i (rule ∷ rest) d =
      then_ok (prepend_each existing (i + 1) rest) (ensure_rule_at_position existing (i + 1) rule d)

  unfoldable pub prepend_unique : List Rule → D → Bool × D
  prepend_unique rules d = elim (drv.list table chain d) [
    | none ↦ (false, d)
    | some existing ↦ prepend_each existing 0 rules d
  ]

  -- The loop of `UpdateChainRules` over the new rules, with `existingRules` as the first argument;
  -- its result has the rules that are left there.
  unfoldable pub append_missing : List Rule → List Rule → D → (Bool × D) × List Rule
  append_missing set [] d = ((true, d), set)
  append_missing set (rule ∷ rest) d = elim (has set rule) [
    | true ↦ append_missing (without rule set) rest d
    | false ↦ appended (append_missing set rest) set (drv.append table chain rule d)
  ]

  -- The last loop: an error is logged and let go.
  unfoldable pub delete_stale : List Rule → D → D
  delete_stale [] d = d
  delete_stale (rule ∷ rest) d = delete_stale rest (drv.delete table chain rule d).1

  abbrev pub delete_left : (Bool × D) × List Rule → Bool × D
  delete_left ((false, d), set) = (false, d)
  delete_left ((true, d), set) = (true, delete_stale set d)

  unfoldable pub update_chain_rules : List Rule → D → Bool × D
  update_chain_rules rules d = elim (drv.list table chain d) [
    | none ↦ (false, d)
    | some current ↦ delete_left (append_missing (rule_set current) rules d)
  ]
