-- ===== src/Cidr/Tests.antt =====
-- The theorems on CIDRs at a few nets.
use submariner.Base.{
  ℕ, String, ◌≡◌, ◌↔◌, refl, true, false, Option, none, some, [], ◌∷◌, Any, arith, str_eq,
  if◌then◌else◌,
}
use submariner.Cidr.{Net, is_contained, is_overlapping, any_net, contains, first_address}
use submariner.Cidr.Addresses.{Holds}
use submariner.Cidr.Laws.{is_contained_iff, is_overlapping_iff}

-- 10.0.0.0/8, 10.1.0.0/16 and 192.168.0.0/16
abbrev ten : Net
ten = record { prefix = 10; ones = 8; bits = 32 }

abbrev ten_one : Net
ten_one = record { prefix = 2561; ones = 16; bits = 32 }

abbrev private : Net
private = record { prefix = 49320; ones = 16; bits = 32 }

-- The texts of three CIDRs are known here.
unfoldable parse_known : String → Option Net
parse_known s =
    if str_eq s "10.0.0.0/8"
    then some ten
    else if str_eq s "10.1.0.0/16"
    then some ten_one
    else if str_eq s "192.168.0.0/16"
    then some private
    else none

is_contained_iff_example :
    (is_contained parse_known ("192.168.0.0/16" ∷ "10.0.0.0/8" ∷ []) "10.1.0.0/16" ≡ some true)
    ↔ Any (λ m. (a : ℕ) → Holds ten_one 32 a → Holds m 32 a) (private ∷ ten ∷ [])
unfolding parse_known str_eq
is_contained_iff_example =
    is_contained_iff parse_known ("192.168.0.0/16" ∷ "10.0.0.0/8" ∷ []) (private ∷ ten ∷ [])
      "10.1.0.0/16" ten_one (refl, (refl, tt)) refl (omega arith, (omega arith, tt)) (omega arith)

is_overlapping_iff_example :
    (is_overlapping parse_known ("192.168.0.0/16" ∷ "10.1.0.0/16" ∷ []) "10.0.0.0/8" ≡ some true)
    ↔ Any (λ m. (a : ℕ) × Holds ten 32 a × Holds m 32 a) (private ∷ ten_one ∷ [])
unfolding parse_known str_eq
is_overlapping_iff_example =
    is_overlapping_iff parse_known ("192.168.0.0/16" ∷ "10.1.0.0/16" ∷ []) (private ∷ ten_one ∷ [])
      "10.0.0.0/8" ten (refl, (refl, tt)) refl

wider_is_contained : is_contained parse_known ("10.0.0.0/8" ∷ []) "10.1.0.0/16" ≡ some true
unfolding is_contained any_net contains first_address parse_known str_eq
wider_is_contained = refl

apart_is_overlapping : is_overlapping parse_known ("192.168.0.0/16" ∷ []) "10.1.0.0/16" ≡ some false
unfolding is_overlapping any_net contains first_address parse_known str_eq
apart_is_overlapping = refl
