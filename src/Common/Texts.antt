-- ===== src/Common/Texts.antt =====
-- Lists of texts: membership as a test, distinctness, dictionaries with text keys.
use Prim.Native.String.{String}
use Prim.Native.String.{◌++◌ as append}
use mathlib.Core.Path.{◌≡◌, refl}
use mathlib.Core.Bool.{Bool, false, ◌||◌}
use mathlib.Core.List.{List, [], ◌∷◌, ◌++◌}
use native.Mathlib.Omega.{arith}
use text.Mathlib.Text.{◌==◌}
use text.Mathlib.TextEquality.{eq_iff}
use gitstafette.Common.Lists.{if◌then◌else◌}

-- Go's `+` on texts.
infixr 65 ◌<>◌
abbrev pub ◌<>◌ : String → String → String
s <> t = append s t

abbrev pub member : String → List String → Bool
member x [] = false
member x (y ∷ ys) = y == x || member x ys

-- No text stands twice in the list.
abbrev pub Distinct : List String → Type 0
Distinct [] = Unit {0}
Distinct (x ∷ xs) = (member x xs ≡ false) × Distinct xs

pub member-append :
    (x : String) (xs ys : List String) → member x (xs ++ ys) ≡ (member x xs || member x ys)
member-append x [] ys = refl
member-append x (y ∷ xs) ys = ground (arith, member-append x xs ys)

pub Distinct-snoc :
    (xs : List String) (x : String) → Distinct xs → member x xs ≡ false → Distinct (xs ++ x ∷ [])
Distinct-snoc [] x d m = (refl, tt)
Distinct-snoc (y ∷ xs) x d m =
    ground (arith, Distinct-snoc xs x d.1, member-append y xs (x ∷ []), eq_iff x y, eq_iff y x)

-- A Go map from texts to slices: a missing key reads as the nil slice, which is the empty list.
module _ {ℓ} {V : Type ℓ} where
  abbrev pub slice_at : String → List (String × List V) → List V
  slice_at k [] = []
  slice_at k ((j, v) ∷ m) = if j == k then v else slice_at k m

  abbrev pub put : String → List V → List (String × List V) → List (String × List V)
  put k v [] = (k, v) ∷ []
  put k v ((j, w) ∷ m) = if j == k then (k, v) ∷ m else (j, w) ∷ put k v m

  pub slice_at-put :
      (k j : String) (v : List V) (m : List (String × List V))
      → slice_at j (put k v m) ≡ (if k == j then v else slice_at j m)
  slice_at-put k j v [] = refl
  slice_at-put k j v ((i, w) ∷ m) =
      ground (arith, eq_iff k j, eq_iff i k, eq_iff i j, slice_at-put k j v m)
