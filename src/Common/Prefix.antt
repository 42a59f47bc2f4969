-- ===== src/Common/Prefix.antt =====
-- Prefixes of texts: `strings.TrimPrefix` and `strings.HasPrefix` of Go's library.
use Prim.Native.Char.{code}
use Prim.Native.String.append
use Prim.Native.String.{String}
use mathlib.Core.Path.{◌≡◌, refl}
use mathlib.Core.Logic.{inl, inr}
use mathlib.Core.Option.{Option, none, some}
use native.Mathlib.Omega.{arith}
use text.Mathlib.TextEquality.{Char-path}
use gitstafette.Common.Lists.{eqb, if◌then◌else◌, Bool-cases}
use gitstafette.Common.Texts.{◌<>◌}

-- What stands behind the prefix, if the text has it.
unfoldable pub strip_prefix : String → String → Option String
strip_prefix String.[] s = some s
strip_prefix (String.◌∷◌ c p) String.[] = none
strip_prefix (String.◌∷◌ c p) (String.◌∷◌ d s) =
    if eqb (code c) (code d) then strip_prefix p s else none

abbrev pub or_else : Option String → String → String
or_else none s = s
or_else (some t) s = t

-- The text comes first, as in Go.
unfoldable pub trim_prefix : String → String → String
unfolding strip_prefix
trim_prefix s p = or_else (strip_prefix p s) s

pub strip-append : (p t : String) → strip_prefix p (p <> t) ≡ some t
unfolding strip_prefix
strip-append String.[] t = rw (append.nil t) refl
strip-append (String.◌∷◌ c p) t = rw (append.cons c p t) (ground (arith, strip-append p t))

pub strip_sound : (p s t : String) → strip_prefix p s ≡ some t → s ≡ p <> t
unfolding strip_prefix
strip_sound String.[] s t h = ground (arith, append.nil t)
strip_sound (String.◌∷◌ c p) String.[] t h = cc
strip_sound (String.◌∷◌ c p) (String.◌∷◌ d s) t h = elim (Bool-cases (eqb (code c) (code d))) [
  | inl same ↦
      let rest : s ≡ p <> t = strip_sound p s t (ground (arith, h, same)) in
      let head : c ≡ d = Char-path c d (ground (arith, same)) in cc (rest, head, append.cons c p t)
  | inr other ↦ absurd (ground (arith, h, other))
]
