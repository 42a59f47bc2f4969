-- ===== src/Common/Separated.antt =====
-- `strings.Contains`, `strings.Split` and `strings.Join` of Go's library, for the comma. It is one
-- byte, so the bytes and the characters of a text are split alike.
use Prim.Native.Char.{Char, code}
use Prim.Native.String.append
use Prim.Native.Nat.{ℕ}
use Prim.Native.String.{String}
use mathlib.Core.Path.{◌≡◌, refl, ap, sym, ◌∙◌}
use mathlib.Core.Bool.{Bool, true, false, ◌||◌}
use mathlib.Core.Logic.{inl, inr}
use mathlib.Core.List.{List, [], ◌∷◌}
use native.Mathlib.Omega.{arith}
use text.Mathlib.TextEquality.{Char-path}
use gitstafette.Common.Lists.{eqb, if◌then◌else◌, Bool-cases}
use gitstafette.Common.Texts.{◌<>◌}

abbrev pub comma : ℕ
comma = b','

abbrev pub is_comma : Char → Bool
is_comma c = eqb (code c) comma

unfoldable pub contains_comma : String → Bool
contains_comma String.[] = false
contains_comma (String.◌∷◌ c s) = is_comma c || contains_comma s

-- A character in front of the first part.
abbrev pub to_first : Char → List String → List String
to_first c [] = String.◌∷◌ c String.[] ∷ []
to_first c (p ∷ ps) = String.◌∷◌ c p ∷ ps

unfoldable pub split : String → List String
split String.[] = "" ∷ []
split (String.◌∷◌ c s) = let rest = split s in if is_comma c then "" ∷ rest else to_first c rest

unfoldable pub join : List String → String
join [] = ""
join (p ∷ []) = p
join (p ∷ q ∷ ps) = p <> "," <> join (q ∷ ps)

comma-eq : (c : Char) → is_comma c ≡ true → ◌≡◌ {A = Char} c ","
comma-eq c h = Char-path c "," (ground arith)

join-to_first : (c : Char) (ps : List String) → join (to_first c ps) ≡ String.◌∷◌ c (join ps)
unfolding join
join-to_first c [] = refl
join-to_first c (p ∷ []) = refl
join-to_first c (p ∷ q ∷ ps) = append.cons c p ("," <> join (q ∷ ps))

split-cons : (s : String) → (p : String) × (ps : List String) × (split s ≡ p ∷ ps)
unfolding split
split-cons String.[] = ("", [], refl)
split-cons (String.◌∷◌ c s) =
    let parts = split-cons s in
    elim (Bool-cases (is_comma c)) [
      | inl is ↦ ("", split s, rw is refl)
      | inr other ↦ (String.◌∷◌ c parts.0, parts.1, rw (other, parts.2) refl)
    ]

-- An empty part in front gives a comma.
join-empty : (s : String) → join ("" ∷ split s) ≡ "," <> join (split s)
unfolding join
join-empty s = let parts = split-cons s in rw parts.2 (append.nil ("," <> join (parts.0 ∷ parts.1)))

-- Joining the parts gives the text back.
pub join-split : (s : String) → join (split s) ≡ s
unfolding split join
join-split String.[] = refl
join-split (String.◌∷◌ c s) = elim (Bool-cases (is_comma c)) [
  | inl is ↦
      rw (is, join-empty s, join-split s)
        (append.cons "," "" s
          ∙ ap (String.◌∷◌ ",") (append.nil s)
          ∙ ap (λ (d : Char). String.◌∷◌ d s) (sym (comma-eq c is)))
  | inr other ↦ rw other (join-to_first c (split s) ∙ ap (String.◌∷◌ c) (join-split s))
]
