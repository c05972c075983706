-- ===== src/Cidr/Addresses.antt =====
-- Which addresses nets have in common, from their prefixes (the conditions of pkg/cidr/iputil.go).
use native.Mathlib.Nat.{
  one-le-pow, two-pow-succ, pow-le-pow_right, mul-add, mul-one, div-div-eq-div-mul, mul-div_cancel,
  mul-add-div_right, div-eq_of_lt, add-div_right,
}
use submariner.Base.{
  ℕ, zero, suc, ◌+◌, ◌-◌, ◌*◌, ◌/◌, ◌^◌, ◌≤◌, ◌<◌, ◌≡◌, ◌↔◌, refl, sym, ap, subst, ◌∙◌, inl, inr,
  Bool, true, false, ◌&&◌, arith, leb, ◌==◌, ==_iff, and_iff, Bool-cases,
}
use submariner.Cidr.{Net, host_bits, first_address, contains, covers, overlaps}

-- A mask is not longer than an address.
abbrev pub IsNet : Net → Type 0
IsNet n = n.ones ≤ n.bits

abbrev pub Holds : Net → ℕ → ℕ → Type 0
Holds n bits a = contains n bits a ≡ true

pub Holds-iff :
    (n : Net) (bits a : ℕ) → Holds n bits a ↔ ((bits ≡ n.bits) × (a / 2 ^ host_bits n ≡ n.prefix))
unfolding contains
Holds-iff n bits a = (
  λ h.
      let p = (and_iff (bits == n.bits) ((a / 2 ^ host_bits n) == n.prefix)).0 h in
      ((==_iff bits n.bits).0 p.0, (==_iff (a / 2 ^ host_bits n) n.prefix).0 p.1),
  λ p.
      (and_iff (bits == n.bits) ((a / 2 ^ host_bits n) == n.prefix)).1
        ((==_iff bits n.bits).1 p.0, (==_iff (a / 2 ^ host_bits n) n.prefix).1 p.1),
)

two_pow_pos : (k : ℕ) → 0 < 2 ^ k
two_pow_pos k = one-le-pow k 2 (omega arith)

pow_add : (j k : ℕ) → 2 ^ (j + k) ≡ 2 ^ j * 2 ^ k
pow_add j zero = ap (λ i. 2 ^ i) (omega arith) ∙ sym (mul-one (2 ^ j))
pow_add j (suc k) =
    ap (λ i. 2 ^ i) (omega arith)
    ∙ two-pow-succ (j + k)
    ∙ ap (λ x. x + x) (pow_add j k)
    ∙ sym (mul-add (2 ^ j) (2 ^ k) (2 ^ k))
    ∙ ap (λ x. 2 ^ j * x) (sym (two-pow-succ k))

pow_less : (j k : ℕ) → j < k → 2 ^ j < 2 ^ k
pow_less j k h =
    let double = two-pow-succ j in
    omega
      (arith, double, two_pow_pos j, pow-le-pow_right {n = 2} (omega arith) {i = suc j} {j = k} h)

-- The bits of a wider mask are the first ones of a narrower one's.
div_wider : (a k j : ℕ) → k ≤ j → a / 2 ^ k / 2 ^ (j - k) ≡ a / 2 ^ j
div_wider a k j h =
    div-div-eq-div-mul a (2 ^ k) (2 ^ (j - k))
    ∙ ap (λ m. a / m) (sym (pow_add k (j - k)) ∙ ap (λ i. 2 ^ i) (omega arith))

same_wider : (a b k j : ℕ) → k ≤ j → a / 2 ^ k ≡ b / 2 ^ k → a / 2 ^ j ≡ b / 2 ^ j
same_wider a b k j h e = sym (div_wider a k j h) ∙ ap (λ q. q / 2 ^ (j - k)) e ∙ div_wider b k j h

first_prefix : (n : Net) → first_address n / 2 ^ host_bits n ≡ n.prefix
unfolding first_address
first_prefix n = mul-div_cancel n.prefix (two_pow_pos (host_bits n))

pub first_address-Holds : (n : Net) → Holds n n.bits (first_address n)
first_address-Holds n = (Holds-iff n n.bits (first_address n)).1 (refl, first_prefix n)

-- Nets with an address in common are nested: the wider one has all addresses of the narrower.
pub nested :
    (m n : Net) (a b : ℕ)
    → host_bits n ≤ host_bits m
    → Holds n n.bits a
    → Holds m n.bits a
    → Holds n n.bits b
    → Holds m n.bits b
nested m n a b h in_n in_m also =
    let p = (Holds-iff n n.bits a).0 in_n in
    let q = (Holds-iff m n.bits a).0 in_m in
    let r = (Holds-iff n n.bits b).0 also in
    (Holds-iff m n.bits b).1
      (q.0, same_wider b a (host_bits n) (host_bits m) h (r.1 ∙ sym p.1) ∙ q.1)

-- A net that is not wider has not all the addresses.
too_narrow :
    (m n : Net)
    → host_bits m < host_bits n
    → Holds m n.bits (first_address n)
    → Holds n n.bits (first_address n + 2 ^ host_bits m)
      × (contains m n.bits (first_address n + 2 ^ host_bits m) ≡ false)
unfolding first_address
too_narrow m n h k = (
  (Holds-iff n n.bits (first_address n + 2 ^ host_bits m)).1 (
    refl,
    mul-add-div_right (two_pow_pos (host_bits n)) n.prefix (2 ^ host_bits m)
        ∙ ap (λ x. n.prefix + x) (div-eq_of_lt (pow_less (host_bits m) (host_bits n) h))
        ∙ omega arith,
  ),
  elim (Bool-cases (contains m n.bits (first_address n + 2 ^ host_bits m))) [
    | inr out ↦ out
    | inl within ↦
        let p = ((Holds-iff m n.bits (first_address n)).0 k).1 in
        let q = ((Holds-iff m n.bits (first_address n + 2 ^ host_bits m)).0 within).1 in
        absurd (omega (arith, p, q, add-div_right (first_address n) (two_pow_pos (host_bits m))))
  ],
)

three_true : (p q r : Bool) → (p && (q && r)) ≡ true → (p ≡ true) × (q ≡ true) × (r ≡ true)
three_true p q r h = ground arith

pub covers_iff :
    (m n : Net)
    → IsNet m
    → IsNet n
    → (covers m n ≡ true) ↔ ((a : ℕ) → Holds n n.bits a → Holds m n.bits a)
covers_iff m n vm vn = (
  λ h a in_n.
      let (same, wider, first) = three_true (m.bits == n.bits) (leb m.ones n.ones) _ h in
      nested m n (first_address n) a (ground (arith, (==_iff m.bits n.bits).0 same))
        (first_address-Holds n) first in_n,
  λ h.
      let first = h (first_address n) (first_address-Holds n) in
      let same = ((Holds-iff m n.bits (first_address n)).0 first).0 in
      elim (Bool-cases (leb m.ones n.ones)) [
        | inl wider ↦ ground (arith, first, same)
        | inr narrower ↦
            let (within, out) = too_narrow m n (ground (arith, same)) first in
            cc (h (first_address n + 2 ^ host_bits m) within)
      ],
)

pub overlaps_iff :
    (m n : Net) → (overlaps m n ≡ true) ↔ ((a : ℕ) × Holds n n.bits a × Holds m n.bits a)
overlaps_iff m n = (
  λ h. elim (Bool-cases (contains m n.bits (first_address n))) [
    | inl first ↦ (first_address n, first_address-Holds n, first)
    | inr out ↦
        let other : Holds n m.bits (first_address m) = ground arith in
        let same = ((Holds-iff n m.bits (first_address m)).0 other).0 in
        (
          first_address m,
          subst (λ b. Holds n b (first_address m)) same other,
          subst (λ b. Holds m b (first_address m)) same (first_address-Holds m),
        )
  ],
  λ p.
      let (a, in_n, in_m) = p in
      let same = ((Holds-iff m n.bits a).0 in_m).0 in
      elim (Bool-cases (leb (host_bits n) (host_bits m))) [
        | inl wider ↦
            let first =
              nested m n a (first_address n) (ground arith) in_n in_m (first_address-Holds n) in
            ground (arith, first)
        | inr narrower ↦
            let first =
              nested n m a (first_address m) (ground arith) (subst (λ b. Holds m b a) same in_m)
                (subst (λ b. Holds n b a) same in_n) (first_address-Holds m) in
            ground (arith, first)
      ],
)
