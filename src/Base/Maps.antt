-- ===== src/Base/Maps.antt =====
-- Go maps (and `sync.Map`) with string keys, as association lists. A map that was made by `insert`
-- and `erase` holds a key once; iteration goes in the order of the list, and Go's order is any.
use Prim.Native.String.{String}
use mathlib.Core.Path.{◌≡◌, refl, sym, subst, ◌∙◌}
use mathlib.Core.Logic.{◌↔◌, ◌⊎◌, inl, inr}
use mathlib.Core.Bool.{Bool, true, false, ◌&&◌}
use mathlib.Core.Option.{Option, none, some}
use mathlib.Core.List.{List, [], ◌∷◌}
use native.Mathlib.Omega.{arith}
use submariner.Base.Tests.{str_eq, str_eq_iff, str_eq_refl, and_iff, Bool-cases, if◌then◌else◌}
use submariner.Base.Lists.{All}

abbrev pub Dict {ℓ} : Type ℓ → Type ℓ
Dict V = List (String × V)

module _ {ℓ} {V : Type ℓ} where
  -- `v, ok := m[k]`
  unfoldable pub lookup : String → Dict V → Option V
  lookup k [] = none
  lookup k ((j, v) ∷ m) = if str_eq j k then some v else lookup k m

  -- `m[k] = v`
  unfoldable pub insert : String → V → Dict V → Dict V
  insert k v [] = (k, v) ∷ []
  insert k v ((j, w) ∷ m) = if str_eq j k then (j, v) ∷ m else (j, w) ∷ insert k v m

  -- `delete(m, k)`
  unfoldable pub erase : String → Dict V → Dict V
  erase k [] = []
  erase k ((j, w) ∷ m) = let rest = erase k m in if str_eq j k then rest else (j, w) ∷ rest

  pub lookup-insert :
      (k j : String) (v : V) (m : Dict V)
      → lookup j (insert k v m) ≡ (if str_eq k j then some v else lookup j m)
  unfolding lookup insert
  lookup-insert k j v [] = refl
  lookup-insert k j v ((i, w) ∷ m) =
      ground (arith, str_eq_iff k j, str_eq_iff i k, str_eq_iff i j, lookup-insert k j v m)

  pub lookup-erase :
      (k j : String) (m : Dict V) → lookup j (erase k m) ≡ (if str_eq k j then none else lookup j m)
  unfolding lookup erase
  lookup-erase k j [] = ground arith
  lookup-erase k j ((i, w) ∷ m) =
      ground (arith, str_eq_iff k j, str_eq_iff i k, str_eq_iff i j, lookup-erase k j m)

  pub lookup-insert_self : (k : String) (v : V) (m : Dict V) → lookup k (insert k v m) ≡ some v
  lookup-insert_self k v m = simp (lookup-insert, str_eq_refl)

  pub lookup-erase_self : (k : String) (m : Dict V) → lookup k (erase k m) ≡ none
  lookup-erase_self k m = simp (lookup-erase, str_eq_refl)

  -- Each key is held once.
  abbrev pub NodupKeys : Dict V → Type ℓ
  NodupKeys [] = Unit
  NodupKeys ((k, _) ∷ m) = (lookup k m ≡ none) × NodupKeys m

  pub insert-NodupKeys : (k : String) (v : V) (m : Dict V) → NodupKeys m → NodupKeys (insert k v m)
  unfolding insert lookup
  insert-NodupKeys k v [] u = (refl, tt)
  insert-NodupKeys k v ((j, w) ∷ m) u =
      ground
        (arith, insert-NodupKeys k v m u.1, lookup-insert k j v m, str_eq_iff j k, str_eq_iff k j)

  pub erase-NodupKeys : (k : String) (m : Dict V) → NodupKeys m → NodupKeys (erase k m)
  unfolding erase lookup
  erase-NodupKeys k [] u = tt
  erase-NodupKeys k ((j, w) ∷ m) u = ground (arith, erase-NodupKeys k m u.1, lookup-erase k j m)

-- A predicate on every entry, its key included.
module _ {ℓ κ} {V : Type ℓ} (P : String × V → Type κ) where
  pub All-insert :
      (k : String) (v : V) (m : Dict V)
      → ((j : String) → str_eq j k ≡ true → P (j, v))
      → All P m
      → All P (insert k v m)
  unfolding insert
  All-insert k v [] h a = (h k (str_eq_refl k), tt)
  All-insert k v ((j, w) ∷ m) h a = ground (arith, h j, All-insert k v m h a.1)

  pub All-erase : (k : String) (m : Dict V) → All P m → All P (erase k m)
  unfolding erase
  All-erase k [] a = tt
  All-erase k ((j, w) ∷ m) a = ground (arith, All-erase k m a.1)

-- `reflect.DeepEqual` of two maps of strings: they answer every key alike.
same_answer : Option String → Option String → Bool
same_answer none none = true
same_answer (some v) (some w) = str_eq v w
same_answer _ _ = false

agree_on : Dict String → Dict String → Dict String → Bool
agree_on [] m n = true
agree_on ((k, _) ∷ r) m n = same_answer (lookup k m) (lookup k n) && agree_on r m n

unfoldable pub map_equal : Dict String → Dict String → Bool
unfolding same_answer agree_on
map_equal m n = agree_on m m n && agree_on n m n

same_answer_iff : (a b : Option String) → (same_answer a b ≡ true) ↔ (a ≡ b)
unfolding same_answer
same_answer_iff none none = ground arith
same_answer_iff none (some w) = ground arith
same_answer_iff (some v) none = ground arith
same_answer_iff (some v) (some w) = ground (arith, str_eq_iff v w)

agree_on_of_equal :
    (r m n : Dict String) → ((k : String) → lookup k m ≡ lookup k n) → agree_on r m n ≡ true
unfolding agree_on
agree_on_of_equal [] m n h = refl
agree_on_of_equal ((k, _) ∷ r) m n h =
    ground (arith, h k, same_answer_iff (lookup k m) (lookup k n), agree_on_of_equal r m n h)

-- A key that agrees with no entry of the list is missing from it, or is checked.
agree_on-lookup :
    (r m n : Dict String) (k : String)
    → agree_on r m n ≡ true
    → (lookup k r ≡ none) ⊎ (lookup k m ≡ lookup k n)
unfolding agree_on lookup
agree_on-lookup [] m n k h = inl refl
agree_on-lookup ((j, v) ∷ r) m n k h = elim (Bool-cases (str_eq j k)) [
  | inl same ↦ inr (
      subst (λ i. lookup i m ≡ lookup i n) ((str_eq_iff j k).0 same)
        ((same_answer_iff _ _).0 ((and_iff _ _).0 h).0))
  | inr other ↦ rw other (agree_on-lookup r m n k ((and_iff _ _).0 h).1)
]

pub map_equal_iff :
    (m n : Dict String) → (map_equal m n ≡ true) ↔ ((k : String) → lookup k m ≡ lookup k n)
unfolding map_equal
map_equal_iff m n = (
  λ h k.
      merge k (agree_on-lookup m m n k ((and_iff _ _).0 h).0)
        (agree_on-lookup n m n k ((and_iff _ _).0 h).1),
  λ h. (and_iff _ _).1 (agree_on_of_equal m m n h, agree_on_of_equal n m n h),
)
  where
    merge :
        (k : String)
        → (lookup k m ≡ none) ⊎ (lookup k m ≡ lookup k n)
        → (lookup k n ≡ none) ⊎ (lookup k m ≡ lookup k n)
        → lookup k m ≡ lookup k n
    merge k (inr e) _ = e
    merge k (inl a) (inr e) = e
    merge k (inl a) (inl b) = a ∙ sym b
