-- ===== src/Endpoint/Ips.antt =====
-- The IP lists of an endpoint: `getIPFrom`, `setIP` and the getters and setters over them
-- (pkg/apis/submariner.io/v1/endpoint.go).
use submariner.Base.{
  ◌≤◌, String, ◌≡◌, refl, ◌≢◌, inl, inr, true, false, ◌||◌, List, [], ◌∷◌, arith, length, str_eq,
  str_eq_iff, if◌then◌else◌, Bool-cases,
}
use submariner.Endpoint.{
  IpFamily, family_unknown, ipv4, ipv6, family_eq, NetLib, EndpointSpec, get_ip_from, put_ip,
  set_ip, get_public_ip, set_public_ip, get_private_ip,
}

family_eq_congr : (f g h : IpFamily) → family_eq f g ≡ true → family_eq f h ≡ family_eq g h
family_eq_congr f g h e = ground arith

module _ (net : NetLib) where
  -- The fallback is read at IPv4 only.
  get_ip_from_fallback :
      (ips : List String) (a b : String) (g : IpFamily)
      → family_eq g ipv4 ≡ false
      → get_ip_from net g ips a ≡ get_ip_from net g ips b
  unfolding get_ip_from
  get_ip_from_fallback [] a b g h = rw h
  get_ip_from_fallback (ip ∷ ips) a b g h = ground (arith, get_ip_from_fallback ips a b g h)

  -- So a new fallback shows only in what is read at the family of the new text.
  get_ip_from_kept :
      (ips : List String) (fallback new_ip : String) (f g : IpFamily)
      → family_eq f g ≡ false
      → get_ip_from net g ips (if family_eq f ipv4 then new_ip else fallback)
        ≡ get_ip_from net g ips fallback
  get_ip_from_kept ips fallback new_ip f family_unknown h = get_ip_from_fallback ips _ _ _ refl
  get_ip_from_kept ips fallback new_ip f ipv6 h = get_ip_from_fallback ips _ _ _ refl
  get_ip_from_kept ips fallback new_ip f ipv4 h = rw h

  get_ip_from-put_ip :
      (ips : List String) (fallback new_ip : String) (f g : IpFamily)
      → net.family_of new_ip ≡ f
      → get_ip_from net g (put_ip net f ips new_ip) (if family_eq f ipv4 then new_ip else fallback)
        ≡ (if family_eq f g then new_ip else get_ip_from net g ips fallback)
  unfolding get_ip_from put_ip
  get_ip_from-put_ip [] fallback new_ip f g e = ground arith
  get_ip_from-put_ip (ip ∷ ips) fallback new_ip f g e =
      elim (Bool-cases (family_eq (net.family_of ip) f)) [
        | inl same ↦
            rw (same, e)
              (elim (Bool-cases (family_eq f g)) [
                | inl hit ↦ rw hit
                | inr miss ↦
                    rw (miss, family_eq_congr _ f g same, miss)
                      (get_ip_from_kept ips fallback new_ip f g miss)
              ])
        | inr other ↦ rw other (ground (arith, get_ip_from-put_ip ips fallback new_ip f g e))
      ]

  -- What a later read sees: the new text at its own family, and the old answer at any other.
  pub get_ip_from-set_ip :
      (ips : List String) (fallback new_ip : String) (g : IpFamily)
      → new_ip ≢ ""
      → net.family_of new_ip ≢ family_unknown
      → let (ips', fallback') = set_ip net ips fallback new_ip in
        get_ip_from net g ips' fallback'
        ≡ (if family_eq (net.family_of new_ip) g then new_ip else get_ip_from net g ips fallback)
  unfolding set_ip
  get_ip_from-set_ip ips fallback new_ip g some_text known =
      ground (arith, str_eq_iff new_ip "", get_ip_from-put_ip ips fallback new_ip _ g refl)

  -- After `SetPublicIP(ip)`, for an IP text whose family is known, `GetPublicIP` answers `ip` at
  -- that family and what it answered before at every other, and `GetPrivateIP` is unchanged.
  pub get_public_ip-set_public_ip :
      (ep : EndpointSpec) (ip : String) (g : IpFamily)
      → ip ≢ ""
      → net.family_of ip ≢ family_unknown
      → (get_public_ip net (set_public_ip net ep ip) g
          ≡ (if family_eq (net.family_of ip) g then ip else get_public_ip net ep g))
        × (get_private_ip net (set_public_ip net ep ip) g ≡ get_private_ip net ep g)
  unfolding get_public_ip set_public_ip get_private_ip
  get_public_ip-set_public_ip ep ip g some_text known =
      (get_ip_from-set_ip ep.public_ips ep.public_ip ip g some_text known, refl)

  -- No entry of the list has family `f`.
  abbrev pub Lacks : IpFamily → List String → Type 0
  Lacks f [] = Unit
  Lacks f (ip ∷ ips) = (family_eq (net.family_of ip) f ≡ false) × Lacks f ips

  -- Every entry has a known family, and no family comes twice.
  abbrev pub IsDual : List String → Type 0
  IsDual [] = Unit
  IsDual (ip ∷ ips) =
      (net.family_of ip ≢ family_unknown) × Lacks (net.family_of ip) ips × IsDual ips

  put_ip-Lacks :
      (f : IpFamily) (ips : List String) (new_ip : String)
      → family_eq (net.family_of new_ip) f ≡ false
      → Lacks f ips
      → Lacks f (put_ip net (net.family_of new_ip) ips new_ip)
  unfolding put_ip
  put_ip-Lacks f [] new_ip h l = (h, tt)
  put_ip-Lacks f (ip ∷ ips) new_ip h l = ground (arith, put_ip-Lacks f ips new_ip h l.1)

  Lacks-eq : (f g : IpFamily) (ips : List String) → family_eq f g ≡ true → Lacks f ips → Lacks g ips
  Lacks-eq f g [] h l = tt
  Lacks-eq f g (ip ∷ ips) h l = ground (arith, Lacks-eq f g ips h l.1)

  put_ip-IsDual :
      (ips : List String) (new_ip : String)
      → net.family_of new_ip ≢ family_unknown
      → IsDual ips
      → IsDual (put_ip net (net.family_of new_ip) ips new_ip)
  unfolding put_ip
  put_ip-IsDual [] new_ip known d = (known, tt, tt)
  put_ip-IsDual (ip ∷ ips) new_ip known (k, l, d) =
      elim (Bool-cases (family_eq (net.family_of ip) (net.family_of new_ip))) [
        | inl same ↦ rw same (known, Lacks-eq _ _ ips same l, d)
        | inr other ↦
            rw other
              (k, put_ip-Lacks _ ips new_ip (ground arith) l, put_ip-IsDual ips new_ip known d)
      ]

  Lacks-both :
      (ips : List String)
      → IsDual ips
      → (f g : IpFamily) → Lacks f ips
      → Lacks g ips
      → f ≢ family_unknown
      → g ≢ family_unknown
      → f ≢ g
      → ips ≡ []
  Lacks-both [] d f g l m p q r = refl
  Lacks-both (ip ∷ ips) d f g l m p q r = ground arith

  IsDual-length : (ips : List String) → IsDual ips → length ips ≤ 2
  IsDual-length [] d = omega arith
  IsDual-length (a ∷ []) d = omega arith
  IsDual-length (a ∷ b ∷ []) d = omega arith
  IsDual-length (a ∷ b ∷ c ∷ ips) d = absurd (ground arith)

  set_ip_keeps :
      (ips : List String) (fallback new_ip : String)
      → IsDual ips
      → IsDual (set_ip net ips fallback new_ip).0
  unfolding set_ip
  set_ip_keeps ips fallback new_ip d =
      elim (Bool-cases (str_eq new_ip "" || family_eq (net.family_of new_ip) family_unknown)) [
        | inl ignored ↦ rw ignored d
        | inr used ↦ rw used (put_ip-IsDual ips new_ip (ground arith) d)
      ]

  -- `setIP` keeps a list of IPs with one entry at most for each of the two families, whatever text
  -- is set, so that the list stays within the two items that the API schema allows.
  set_ip-IsDual :
      (ips : List String) (fallback new_ip : String)
      → IsDual ips
      → IsDual (set_ip net ips fallback new_ip).0 × (length (set_ip net ips fallback new_ip).0 ≤ 2)
  set_ip-IsDual ips fallback new_ip d =
      (set_ip_keeps ips fallback new_ip d, IsDual-length _ (set_ip_keeps ips fallback new_ip d))
