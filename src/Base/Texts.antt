-- ===== src/Base/Texts.antt =====
-- The functions of Go's `strings` package that the source calls: texts cut and split at a
-- character.
use Prim.Native.Nat.{ℕ}
use Prim.Native.Char.{Char, code}
use Prim.Native.String.append
use Prim.Native.String.{String, ◌++◌ as ◌<>◌}
use mathlib.Core.Path.{◌≡◌, refl, ap, ◌∙◌}
use mathlib.Core.Logic.{inl, inr}
use mathlib.Core.Bool.{Bool, false, ◌||◌}
use mathlib.Core.Option.{Option, none, some}
use mathlib.Core.List.{List, [], ◌∷◌}
use native.Mathlib.Omega.{arith}
use submariner.Base.Tests.{◌==◌, if◌then◌else◌, Bool-cases}
use submariner.Base.Lists.{All}

-- Whether a character, given by its code, is in a text.
unfoldable pub has_char : ℕ → String → Bool
has_char k String.[] = false
has_char k (String.◌∷◌ c s) = code c == k || has_char k s

abbrev onto : Char → Option (String × String) → Option (String × String)
onto c none = none
onto c (some (before, after)) = some (String.◌∷◌ c before, after)

-- `strings.Cut(s, sep)` for a separator of one character: the texts before and after its first
-- occurrence.
unfoldable pub cut : ℕ → String → Option (String × String)
cut k String.[] = none
cut k (String.◌∷◌ c s) = let rest = cut k s in if code c == k then some ("", s) else onto c rest

abbrev onto_first : Char → List String → List String
onto_first c [] = String.◌∷◌ c "" ∷ []
onto_first c (w ∷ ws) = String.◌∷◌ c w ∷ ws

-- `strings.Split(s, sep)`
unfoldable pub split : ℕ → String → List String
split k String.[] = "" ∷ []
split k (String.◌∷◌ c s) =
    let rest = split k s in if code c == k then "" ∷ rest else onto_first c rest

-- `strings.Join(words, " ")`
unfoldable pub join : List String → String
join [] = ""
join (w ∷ []) = w
join (w ∷ v ∷ ws) = w <> (" " <> join (v ∷ ws))

slash : (t : String) → "/" <> t ≡ String.◌∷◌ "/" t
slash t = append.cons "/" "" t ∙ ap (String.◌∷◌ "/") (append.nil t)

space : (t : String) → " " <> t ≡ String.◌∷◌ " " t
space t = append.cons " " "" t ∙ ap (String.◌∷◌ " ") (append.nil t)

pub cut-append : (s t : String) → has_char b'/' s ≡ false → cut b'/' (s <> ("/" <> t)) ≡ some (s, t)
unfolding cut has_char
cut-append String.[] t h = ap (cut b'/') (append.nil ("/" <> t) ∙ slash t)
cut-append (String.◌∷◌ c s) t h =
    ap (cut b'/') (append.cons c s ("/" <> t)) ∙ elim (Bool-cases (code c == b'/')) [
      | inl e ↦ ground arith
      | inr e ↦ ground (arith, cut-append s t (ground arith))
    ]

split-append :
    (s t : String) → has_char b' ' s ≡ false → split b' ' (s <> (" " <> t)) ≡ s ∷ split b' ' t
unfolding split has_char
split-append String.[] t h = ap (split b' ') (append.nil (" " <> t) ∙ space t)
split-append (String.◌∷◌ c s) t h =
    ap (split b' ') (append.cons c s (" " <> t)) ∙ elim (Bool-cases (code c == b' ')) [
      | inl e ↦ ground arith
      | inr e ↦ ground (arith, split-append s t (ground arith))
    ]

split_whole : (s : String) → has_char b' ' s ≡ false → split b' ' s ≡ s ∷ []
unfolding split has_char
split_whole String.[] h = refl
split_whole (String.◌∷◌ c s) h = ground (arith, split_whole s (ground arith))

-- Words without a space, joined and split again.
pub split-join :
    (w : String) (ws : List String)
    → All (λ v. has_char b' ' v ≡ false) (w ∷ ws)
    → split b' ' (join (w ∷ ws)) ≡ w ∷ ws
unfolding join
split-join w [] h = split_whole w h.0
split-join w (v ∷ ws) h = split-append w _ h.0 ∙ ap (λ l. w ∷ l) (split-join v ws h.1)
