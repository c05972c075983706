-- ===== src/Pinger/Bounds.antt =====
-- The statistics of pkg/pinger/statistics.go: positions in the slice, and the order of the numbers.
use native.Mathlib.Nat.{
  le-div_iff_mul-le, div-lt_iff_lt-mul, mul-le-mul_left, mul-le-mul_right, mul_comm, suc-mul,
  add-mul, mod-eq_of_lt,
}
use submariner.Base.{
  ℕ, zero, suc, ◌+◌, ◌-◌, ◌*◌, ◌/◌, ◌^◌, ◌≤◌, ◌<◌, ◌≡◌, refl, sym, ap, subst, ◌∙◌, inl, inr, true,
  false, Option, none, some, List, [], ◌∷◌, length, All, ==_iff, arith, ltb, ◌==◌, Bool-cases,
}
use submariner.Base.Words.{add_int64, div_int64, less_int64}
use submariner.Pinger.{
  Statistics, nth, set_nth, restarted, restart, restart_if_full, min_with, max_with, counted, begun,
  add_rtt, update, zeros, new_statistics,
}

-- A number that is one of the round-trip times.
abbrev Within : ℕ → ℕ → ℕ → Type 0
Within low high x = (low ≤ x) × (x ≤ high)

-- The first numbers of the slice.
abbrev FirstWithin : ℕ → ℕ → ℕ → List ℕ → Type 0
FirstWithin zero low high xs = Unit
FirstWithin (suc n) low high [] = ⊥
FirstWithin (suc n) low high (x ∷ xs) = Within low high x × FirstWithin n low high xs

-- The numbers fit: the smallest and largest time bound those in the slice, their sum and the mean.
pub record IsReady (limit : ℕ) (s : Statistics) : Type 0 where
  pub length_size : length s.previous_rtts ≡ s.size
  pub three : 3 ≤ s.size
  pub index_size : s.index ≤ s.size
  pub first_within : FirstWithin s.index s.min_rtt s.max_rtt s.previous_rtts
  pub started : 0 < s.index
  pub min_positive : 0 < s.min_rtt
  pub max_limit : s.max_rtt ≤ limit
  pub sum_low : s.index * s.min_rtt ≤ s.sum
  pub sum_high : s.sum ≤ s.index * s.max_rtt
  pub mean_within : Within s.min_rtt s.max_rtt s.mean

-- What holds after each update.
abbrev pub IsSound : ℕ → Statistics → Type 0
IsSound limit s = IsReady limit s × Within s.min_rtt s.max_rtt s.last_rtt

FirstWithin-widen :
    (n low low' high high' : ℕ) (xs : List ℕ)
    → low' ≤ low
    → high ≤ high'
    → FirstWithin n low high xs
    → FirstWithin n low' high' xs
FirstWithin-widen zero low low' high high' xs l h k = tt
FirstWithin-widen (suc n) low low' high high' [] l h k = k
FirstWithin-widen (suc n) low low' high high' (x ∷ xs) l h k = (
  (omega (arith, k.0.0), omega (arith, k.0.1)),
  FirstWithin-widen n low low' high high' xs l h k.1,
)

set_nth-FirstWithin :
    (n low high v : ℕ) (xs : List ℕ)
    → n < length xs
    → FirstWithin n low high xs
    → Within low high v
    → (ys : List ℕ) × (set_nth n v xs ≡ some ys)
      × (length ys ≡ length xs)
      × FirstWithin (suc n) low high ys
unfolding set_nth
set_nth-FirstWithin n low high v [] h k w = absurd (omega arith)
set_nth-FirstWithin zero low high v (x ∷ xs) h k w = (v ∷ xs, refl, refl, (w, tt))
set_nth-FirstWithin (suc n) low high v (x ∷ xs) h k w =
    let (ys, e, l, f) = set_nth-FirstWithin n low high v xs (omega arith) k.1 w in
    (x ∷ ys, rw e refl, ap suc l, (k.0, f))

nth-Within :
    (i n low high : ℕ) (xs : List ℕ)
    → i < n
    → FirstWithin n low high xs
    → (x : ℕ) × (nth i xs ≡ some x) × Within low high x
unfolding nth
nth-Within i zero low high xs h k = absurd (omega arith)
nth-Within i (suc n) low high [] h k = elim k [ ]
nth-Within zero (suc n) low high (x ∷ xs) h k = (x, refl, k.0)
nth-Within (suc i) (suc n) low high (x ∷ xs) h k = nth-Within i n low high xs (omega arith) k.1

-- Numbers below 2^63 are in the order of the signed ones, and are divided as they are.
less_small : (a b : ℕ) → a < 2 ^ 63 → b < 2 ^ 63 → less_int64 a b ≡ ltb a b
less_small a b h k =
    let same = mod-eq_of_lt {n = a + 2 ^ 63} {m = 2 ^ 64} (omega arith) in
    let same' = mod-eq_of_lt {n = b + 2 ^ 63} {m = 2 ^ 64} (omega arith) in
    ground (arith, same, same')

add_small : (a b : ℕ) → a + b < 2 ^ 63 → add_int64 a b ≡ a + b
add_small a b h = mod-eq_of_lt (omega arith)

div_small : (a n : ℕ) → a < 2 ^ 63 → div_int64 a n ≡ a / n
div_small a n h = ground arith

smallest :
    (m r : ℕ)
    → 0 < m
    → 0 < r
    → m < 2 ^ 63
    → r < 2 ^ 63
    → (0 < min_with m r) × (min_with m r ≤ m) × (min_with m r ≤ r)
smallest m r p q h k = rw (less_small r m k h) (ground arith)

largest :
    (m r limit : ℕ)
    → m ≤ limit
    → r ≤ limit
    → limit < 2 ^ 63
    → (m ≤ max_with m r) × (r ≤ max_with m r) × (max_with m r ≤ limit)
largest m r limit h k l = rw (less_small m r (omega arith) (omega arith)) (ground arith)

mean_Within :
    (sum n low high : ℕ)
    → 0 < n
    → sum < 2 ^ 63
    → n * low ≤ sum
    → sum ≤ n * high
    → Within low high (div_int64 sum n)
mean_Within sum n low high p h l u = rw (div_small sum n h) (
  (le-div_iff_mul-le p).1 (subst (λ x. x ≤ sum) (mul_comm n low) l),
  omega (
    arith,
    (div-lt_iff_lt-mul {k = n} {x = sum} {y = suc high} p).1
        (omega (arith, u, mul_comm n high, suc-mul high n, p)),
  ),
)

sum_low_step : (i l l' s r : ℕ) → l' ≤ l → l' ≤ r → i * l ≤ s → (i + 1) * l' ≤ s + r
sum_low_step i l l' s r h k b = omega (arith, mul-le-mul_left i h, add-mul i 1 l', b, k)

sum_high_step : (i m m' s r : ℕ) → m ≤ m' → r ≤ m' → s ≤ i * m → s + r ≤ (i + 1) * m'
sum_high_step i m m' s r h k b = omega (arith, mul-le-mul_left i h, add-mul i 1 m', b, k)

next_index : (i : ℕ) → suc i ≡ i + 1
next_index i = omega arith

begins : (i : ℕ) → 0 < i → ltb 0 i ≡ true
begins i h = ground arith

-- A sum of no more times than the slice has is in range.
sum_fits :
    (n size m limit s : ℕ) → n ≤ size → m ≤ limit → s ≤ n * m → size * limit < 2 ^ 63 → s < 2 ^ 63
sum_fits n size m limit s h k b f =
    omega (arith, mul-le-mul_left n k, mul-le-mul_right limit h, b, f)

limit_fits : (size limit : ℕ) → 3 ≤ size → size * limit < 2 ^ 63 → limit < 2 ^ 63
limit_fits size limit h f =
    omega (arith, mul-le-mul_right {m = 1} {n = size} limit (omega arith), f)

module _ (limit : ℕ) (sqrt : ℕ → ℕ) where
  add_rtt-counted :
      (rtt : ℕ) (s : Statistics) (ys : List ℕ)
      → set_nth s.index rtt s.previous_rtts ≡ some ys
      → ltb 0 s.index ≡ true
      → add_rtt sqrt rtt s ≡ some (counted sqrt rtt s ys)
  unfolding add_rtt
  add_rtt-counted rtt s ys e h = rw (add_rtt, e, h) refl

  -- A further time.
  counted-IsSound :
      (rtt : ℕ) (s : Statistics)
      → IsReady limit s
      → s.index < s.size
      → s.size * limit < 2 ^ 63
      → 0 < rtt
      → rtt ≤ limit
      → s.last_rtt ≡ rtt
      → (s' : Statistics) × (add_rtt sqrt rtt s ≡ some s') × IsSound limit s' × (s'.size ≡ s.size)
  counted-IsSound rtt s ready room fits positive small last =
      let lo = min_with s.min_rtt rtt in
      let hi = max_with s.max_rtt rtt in
      let bound = limit_fits s.size limit ready.three fits in
      let all =
        sum_fits s.index s.size s.max_rtt limit s.sum ready.index_size ready.max_limit
          ready.sum_high fits in
      let ordered = ready.mean_within in
      let high = largest s.max_rtt rtt limit ready.max_limit small bound in
      let low =
        smallest s.min_rtt rtt ready.min_positive positive
          (omega (arith, ordered.0, ordered.1, ready.max_limit, bound))
          (omega (arith, small, bound)) in
      let wide =
        FirstWithin-widen s.index s.min_rtt lo s.max_rtt hi s.previous_rtts low.1 high.0
          ready.first_within in
      let (ys, e, l, f) =
        set_nth-FirstWithin s.index lo hi rtt s.previous_rtts (omega (arith, ready.length_size))
          wide (low.2, high.1) in
      let below = sum_low_step s.index s.min_rtt lo s.sum rtt low.1 low.2 ready.sum_low in
      let above = sum_high_step s.index s.max_rtt hi s.sum rtt high.0 high.1 ready.sum_high in
      let total =
        sum_fits (s.index + 1) s.size hi limit (s.sum + rtt) (omega arith) high.2 above fits in
      let same = add_small s.sum rtt total in
      (
        counted sqrt rtt s ys,
        add_rtt-counted rtt s ys e (begins s.index ready.started),
        (
          record {
            length_size = l ∙ ready.length_size;
            three = ready.three;
            index_size = omega arith;
            first_within = subst (λ k. FirstWithin k lo hi ys) (next_index s.index) f;
            started = omega arith;
            min_positive = low.0;
            max_limit = high.2;
            sum_low = subst (λ t. (s.index + 1) * lo ≤ t) (sym same) below;
            sum_high = subst (λ t. t ≤ (s.index + 1) * hi) (sym same) above;
            mean_within =
                subst (λ t. Within lo hi (div_int64 t (s.index + 1))) (sym same)
                  (mean_Within (s.sum + rtt) (s.index + 1) lo hi (omega arith) total below above);
          },
          subst (λ r. Within lo hi r) (sym last) (low.2, high.1),
        ),
        refl,
      )

  enough : (n : ℕ) → 3 ≤ n → ltb n 2 ≡ false
  enough n h = ground arith

  restart-restarted :
      (s : Statistics) (a b : ℕ) (one two : List ℕ)
      → ltb s.size 2 ≡ false
      → nth (s.size - 2) s.previous_rtts ≡ some a
      → nth (s.size - 1) s.previous_rtts ≡ some b
      → set_nth 0 a s.previous_rtts ≡ some one
      → set_nth 1 b one ≡ some two
      → restart s ≡ some (restarted s a b two)
  unfolding restart
  restart-restarted s a b one two h ea eb e1 e2 = rw (restart, h, ea, eb, e1, e2) refl

  -- The last two times of a full slice become its first ones.
  restart-IsReady :
      (s : Statistics)
      → IsReady limit s
      → s.index ≡ s.size
      → s.size * limit < 2 ^ 63
      → (s' : Statistics) × (restart s ≡ some s')
        × IsReady limit s'
        × (s'.index ≡ 2)
        × (s'.size ≡ s.size)
        × (s'.last_rtt ≡ s.last_rtt)
  restart-IsReady s ready full fits =
      let (a, ea, wa) =
        nth-Within (s.size - 2) s.index s.min_rtt s.max_rtt s.previous_rtts
          (omega (arith, ready.three)) ready.first_within in
      let (b, eb, wb) =
        nth-Within (s.size - 1) s.index s.min_rtt s.max_rtt s.previous_rtts
          (omega (arith, ready.three)) ready.first_within in
      let (one, e1, l1, f1) =
        set_nth-FirstWithin 0 s.min_rtt s.max_rtt a s.previous_rtts
          (omega (arith, ready.three, ready.length_size)) tt wa in
      let (two, e2, l2, f2) =
        set_nth-FirstWithin 1 s.min_rtt s.max_rtt b one
          (omega (arith, ready.three, ready.length_size, l1)) f1 wb in
      let low = sum_low_step 1 s.min_rtt s.min_rtt a b (omega arith) wb.0 (omega (arith, wa.0)) in
      let high = sum_high_step 1 s.max_rtt s.max_rtt a b (omega arith) wb.1 (omega (arith, wa.1)) in
      let total =
        sum_fits 2 s.size s.max_rtt limit (a + b) (omega (arith, ready.three)) ready.max_limit high
          fits in
      let same = add_small a b total in
      (
        restarted s a b two,
        restart-restarted s a b one two (enough s.size ready.three) ea eb e1 e2,
        record {
          length_size = l2 ∙ l1 ∙ ready.length_size;
          three = ready.three;
          index_size = omega (arith, ready.three);
          first_within = f2;
          started = omega arith;
          min_positive = ready.min_positive;
          max_limit = ready.max_limit;
          sum_low = subst (λ t. 2 * s.min_rtt ≤ t) (sym same) low;
          sum_high = subst (λ t. t ≤ 2 * s.max_rtt) (sym same) high;
          mean_within =
              subst (λ t. Within s.min_rtt s.max_rtt (div_int64 t 2)) (sym same)
                (mean_Within (a + b) 2 s.min_rtt s.max_rtt (omega arith) total low high);
        },
        refl,
        refl,
        refl,
      )

  heard : (rtt : ℕ) (s : Statistics) → IsReady limit s → IsReady limit (record s { last_rtt = rtt })
  heard rtt s ready = record {
    length_size = ready.length_size;
    three = ready.three;
    index_size = ready.index_size;
    first_within = ready.first_within;
    started = ready.started;
    min_positive = ready.min_positive;
    max_limit = ready.max_limit;
    sum_low = ready.sum_low;
    sum_high = ready.sum_high;
    mean_within = ready.mean_within;
  }

  update-add_rtt :
      (rtt : ℕ) (s s' : Statistics)
      → restart_if_full (record s { last_rtt = rtt }) ≡ some s'
      → update sqrt rtt s ≡ add_rtt sqrt rtt s'
  unfolding update
  update-add_rtt rtt s s' e = rw (update, e) refl

  -- An update, once there is a time.
  update-IsSound :
      (rtt : ℕ) (s : Statistics)
      → IsSound limit s
      → s.size * limit < 2 ^ 63
      → 0 < rtt
      → rtt ≤ limit
      → (s' : Statistics) × (update sqrt rtt s ≡ some s') × IsSound limit s' × (s'.size ≡ s.size)
  update-IsSound rtt s (ready, last) fits positive small = elim (Bool-cases (s.index == s.size)) [
    | inl full ↦
        let (s1, e1, ready1, two, same, kept) =
          restart-IsReady (record s { last_rtt = rtt }) (heard rtt s ready)
            ((==_iff s.index s.size).0 full) fits in
        let (s2, e2, sound, size) =
          counted-IsSound rtt s1 ready1 (omega (arith, two, same, ready.three))
            (subst (λ n. n * limit < 2 ^ 63) (sym same) fits) positive small kept in
        (s2, update-add_rtt rtt s s1 (rw full e1) ∙ e2, sound, size ∙ same)
    | inr room ↦
        let (s2, e2, sound, size) =
          counted-IsSound rtt (record s { last_rtt = rtt }) (heard rtt s ready)
            (ground (arith, room, ready.index_size)) fits positive small refl in
        (s2, update-add_rtt rtt s (record s { last_rtt = rtt }) (rw room refl) ∙ e2, sound, size)
  ]

unfoldable pub updates : (ℕ → ℕ) → List ℕ → Statistics → Option Statistics
updates sqrt [] s = some s
updates sqrt (rtt ∷ rtts) s = elim (update sqrt rtt s) [
  | none ↦ none
  | some s' ↦ updates sqrt rtts s'
]

module _ (limit size : ℕ) (sqrt : ℕ → ℕ) (three : 3 ≤ size) (fits : size * limit < 2 ^ 63) where
  not_full : (n : ℕ) → 3 ≤ n → (0 == n) ≡ false
  not_full n h = ground arith

  length-zeros : (n : ℕ) → length (zeros n) ≡ n
  unfolding zeros
  length-zeros zero = refl
  length-zeros (suc n) = ap suc (length-zeros n)

  le_refl : (n : ℕ) → n ≤ n
  le_refl n = omega arith

  add_rtt-begun :
      (rtt : ℕ) (s : Statistics) (ys : List ℕ)
      → set_nth 0 rtt s.previous_rtts ≡ some ys
      → add_rtt sqrt rtt (record s { index = 0 }) ≡ some (begun rtt (record s { index = 0 }) ys)
  unfolding add_rtt
  add_rtt-begun rtt s ys e = rw (add_rtt, e) refl

  -- The first time.
  first-IsSound :
      (rtt : ℕ)
      → 0 < rtt
      → rtt ≤ limit
      → (s : Statistics) × (update sqrt rtt (new_statistics size) ≡ some s)
        × IsSound limit s
        × (s.size ≡ size)
  first-IsSound rtt positive small =
      let (ys, e, l, f) =
        set_nth-FirstWithin 0 rtt rtt rtt (zeros size) (omega (arith, length-zeros size, three)) tt
          (le_refl rtt, le_refl rtt) in
      (
        begun rtt (record (new_statistics size) { last_rtt = rtt }) ys,
        update-add_rtt limit sqrt rtt (new_statistics size)
              (record (new_statistics size) { last_rtt = rtt }) (rw (not_full size three) refl)
            ∙ add_rtt-begun rtt (record (new_statistics size) { last_rtt = rtt }) ys e,
        (
          record {
            length_size = l ∙ length-zeros size;
            three = three;
            index_size = omega (arith, three);
            first_within = f;
            started = omega arith;
            min_positive = positive;
            max_limit = small;
            sum_low = omega arith;
            sum_high = omega arith;
            mean_within = (le_refl rtt, le_refl rtt);
          },
          (le_refl rtt, le_refl rtt),
        ),
        refl,
      )

  updates_from :
      (rtts : List ℕ) (s : Statistics)
      → IsSound limit s
      → s.size ≡ size
      → All (λ rtt. (0 < rtt) × (rtt ≤ limit)) rtts
      → (s' : Statistics) × (updates sqrt rtts s ≡ some s') × IsSound limit s'
  unfolding updates
  updates_from [] s sound same h = (s, refl, sound)
  updates_from (rtt ∷ rtts) s sound same ((positive, small), h) =
      let (s1, e1, sound1, size1) =
        update-IsSound limit sqrt rtt s sound (subst (λ n. n * limit < 2 ^ 63) (sym same) fits)
          positive small in
      let (s2, e2, sound2) = updates_from rtts s1 sound1 (size1 ∙ same) h in
      (s2, rw (updates, e1) e2, sound2)

  -- However many replies come, with times from 1 up to a limit that the slice's size times it fits
  -- into an `int64`: no index is out of range, also where the full slice starts again from its last
  -- two times; the smallest time is positive, and between it and the largest are the last one, the
  -- mean and all that are in the slice.
  pub updates-IsSound :
      (rtt : ℕ) (rtts : List ℕ)
      → All (λ t. (0 < t) × (t ≤ limit)) (rtt ∷ rtts)
      → (s : Statistics) × (updates sqrt (rtt ∷ rtts) (new_statistics size) ≡ some s)
        × IsSound limit s
  unfolding updates
  updates-IsSound rtt rtts ((positive, small), h) =
      let (s1, e1, sound1, size1) = first-IsSound rtt positive small in
      let (s2, e2, sound2) = updates_from rtts s1 sound1 size1 h in
      (s2, rw (updates, e1) e2, sound2)
