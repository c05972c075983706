-- ===== src/Endpoint/CableNames.antt =====
-- `GetFamilyCableName` of pkg/apis/submariner.io/v1/endpoint.go.
use Prim.Native.String.append
use Prim.Native.String.{String, ◌++◌ as text_append}
use mathlib.Core.Bool.{false≢true}
use submariner.Base.{◌≡◌, refl, sym, ◌∙◌, str_eq, str_eq_iff}
use submariner.Endpoint.{
  IpFamily, family_unknown, ipv4, ipv6, family_text, EndpointSpec, get_family_cable_name,
}

append_cancel : (s t u : String) → text_append s t ≡ text_append s u → t ≡ u
append_cancel String.[] t u e = sym (append.nil t) ∙ e ∙ append.nil u
append_cancel (String.◌∷◌ c s) t u e =
    append_cancel s t u (cc (sym (append.cons c s t) ∙ e ∙ append.cons c s u))

family_text_inj : (f g : IpFamily) → family_text f ≡ family_text g → f ≡ g
unfolding str_eq
family_text_inj family_unknown family_unknown e = refl
family_text_inj family_unknown ipv4 e = cc e
family_text_inj family_unknown ipv6 e = cc e
family_text_inj ipv4 family_unknown e = cc e
family_text_inj ipv4 ipv4 e = refl
family_text_inj ipv4 ipv6 e = absurd (false≢true ((str_eq_iff "4" "6").1 e))
family_text_inj ipv6 family_unknown e = cc e
family_text_inj ipv6 ipv4 e = absurd (false≢true ((str_eq_iff "6" "4").1 e))
family_text_inj ipv6 ipv6 e = refl

-- No two families share a cable name.
pub cable_name_inj :
    (spec : EndpointSpec) (f g : IpFamily)
    → get_family_cable_name spec f ≡ get_family_cable_name spec g
    → f ≡ g
unfolding get_family_cable_name
cable_name_inj spec f g e = family_text_inj f g (append_cancel _ _ _ e)
