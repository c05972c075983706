-- ===== src/Cidr.antt =====
-- pkg/cidr/iputil.go: CIDRs that contain others or overlap them. Go's `net.ParseCIDR` is a
-- parameter; of the nets that it makes the model has the number of the prefix, not the text. A
-- result of `none` is an error.
pub mod Addresses
pub mod Laws
mod Tests
use submariner.Base.{
  ℕ, ◌-◌, ◌*◌, ◌/◌, ◌^◌, ◌≤◌, String, Bool, true, false, ◌&&◌, ◌||◌, Option, none, some, List, [],
  ◌∷◌, leb, ◌==◌, if◌then◌else◌, keep,
}
use submariner.Endpoint.{IpFamily, family_eq}

-- `net.IPNet`: the addresses of `bits` bits of which the first `ones` are those of the prefix.
pub record Net : Type 0 where
  pub prefix : ℕ
  pub ones : ℕ
  pub bits : ℕ

abbrev pub host_bits : Net → ℕ
host_bits n = n.bits - n.ones

-- `n.IP`, where the bits behind the prefix are zero.
unfoldable pub first_address : Net → ℕ
first_address n = n.prefix * 2 ^ host_bits n

-- `n.Contains(ip)` for an address of this many bits.
unfoldable pub contains : Net → ℕ → ℕ → Bool
contains n bits address = bits == n.bits && (address / 2 ^ host_bits n) == n.prefix

-- The condition of the loop of `IsContained`.
abbrev pub covers : Net → Net → Bool
covers outer inner =
    outer.bits == inner.bits
    && (leb outer.ones inner.ones && contains outer inner.bits (first_address inner))

-- The condition of the loop of `IsOverlapping`.
abbrev pub overlaps : Net → Net → Bool
overlaps base new =
    contains base new.bits (first_address new) || contains new base.bits (first_address base)

-- An error of `OverlappingSubnets`, with the local CIDR that it names.
pub data OverlapError : Type 0 where
  service_overlaps pod_overlaps : String → OverlapError

module _ (parse : String → Option Net) where
  -- The loop over the list, with the test of its body.
  unfoldable pub any_net : (Net → Bool) → List String → Option Bool
  any_net test [] = some false
  any_net test (cidr ∷ rest) =
      let later = any_net test rest in
      elim (parse cidr) [ none ↦ none | some n ↦ if test n then some true else later ]

  unfoldable pub is_contained : List String → String → Option Bool
  is_contained outer_list inner = elim (parse inner) [
    | none ↦ none
    | some inner_net ↦ any_net (λ outer. covers outer inner_net) outer_list
  ]

  unfoldable pub is_overlapping : List String → String → Option Bool
  is_overlapping cidr_list cidr = elim (parse cidr) [
    | none ↦ none
    | some new ↦ any_net (λ base. overlaps base new) cidr_list
  ]

  -- A loop of `OverlappingSubnets`: an error is logged, and the loop goes on.
  unfoldable pub first_overlap : List String → List String → Option String
  first_overlap remote [] = none
  first_overlap remote (cidr ∷ rest) =
      let later = first_overlap remote rest in
      elim (is_overlapping remote cidr) [ some true ↦ some cidr | _ ↦ later ]

  unfoldable pub overlapping_subnets : List String → List String → List String → Option OverlapError
  overlapping_subnets service_cidrs pod_cidrs remote = elim (first_overlap remote service_cidrs) [
    | some cidr ↦ some (service_overlaps cidr)
    | none ↦ elim (first_overlap remote pod_cidrs) [
      | some cidr ↦ some (pod_overlaps cidr)
      | none ↦ none
    ]
  ]

-- `ExtractSubnets`, where `family_of` is `IPFamilyOfCIDRString` of k8s.io/utils/net.
abbrev pub extract_subnets : (String → IpFamily) → IpFamily → List String → List String
extract_subnets family_of family cidr_list =
    keep (λ subnet. family_eq (family_of subnet) family) cidr_list
