-- ===== src/Base/TextOrder.antt =====
-- `>` of two Go strings. Go compares bytes; in UTF-8 that is the order of the code points.
use Prim.Native.Char.{code}
use Prim.Native.String.{String}
use mathlib.Core.Path.{◌≡◌, refl}
use mathlib.Core.Logic.{◌≢◌, inl, inr}
use mathlib.Core.Bool.{Bool, true, false, not}
use native.Mathlib.Omega.{arith}
use text.Mathlib.TextEquality.{Char-path}
use submariner.Base.Tests.{◌==◌, ltb, if◌then◌else◌, Bool-cases}

unfoldable pub greater : String → String → Bool
greater String.[] t = false
greater (String.◌∷◌ c s) String.[] = true
greater (String.◌∷◌ c s) (String.◌∷◌ d t) =
    let rest = greater s t in if code c == code d then rest else ltb (code d) (code c)

pub greater_flip : (s t : String) → s ≢ t → greater t s ≡ not (greater s t)
unfolding greater
greater_flip String.[] String.[] h = absurd (h refl)
greater_flip String.[] (String.◌∷◌ d t) h = refl
greater_flip (String.◌∷◌ c s) String.[] h = refl
greater_flip (String.◌∷◌ c s) (String.◌∷◌ d t) h = elim (Bool-cases (code c == code d)) [
  | inl e ↦ ground (arith, greater_flip s t (λ f. h (cc (f, Char-path c d (ground arith)))))
  | inr e ↦ ground arith
]
