-- ===== src/Common/Lists.antt =====
-- Boolean tests on native numbers, the conditional, and lists measured by native numbers.
use Prim.Native.Nat.{ℕ, suc, ◌+◌, ◌≤◌, ◌<◌, compare, Ordering}
use mathlib.Core.Path.{◌≡◌, refl}
use mathlib.Core.Logic.{◌⊎◌, inl, inr}
use mathlib.Core.Bool.{Bool, true, false, ◌&&◌, ◌||◌}
use mathlib.Core.Option.{Option, none, some}
use mathlib.Core.List.{List, [], ◌∷◌, ◌++◌, map}
use native.Mathlib.Omega.{arith}

abbrev pub ltb : ℕ → ℕ → Bool
ltb a b = elim (compare a b) [ Ordering.lt ↦ true | _ ↦ false ]

abbrev pub leb : ℕ → ℕ → Bool
leb a b = elim (compare a b) [ Ordering.gt ↦ false | _ ↦ true ]

abbrev pub eqb : ℕ → ℕ → Bool
eqb a b = elim (compare a b) [ Ordering.eq ↦ true | _ ↦ false ]

infix 1 if◌then◌else◌
abbrev pub if◌then◌else◌ {ℓ} : {A : Type ℓ} → Bool → A → A → A
if true then x else y = x
if false then x else y = y

pub Bool-cases : (b : Bool) → (b ≡ true) ⊎ (b ≡ false)
Bool-cases true = inl refl
Bool-cases false = inr refl

pub Option-cases {ℓ} : {A : Type ℓ} (o : Option A) → (o ≡ none) ⊎ ((a : A) × (o ≡ some a))
Option-cases none = inl refl
Option-cases (some a) = inr (a, refl)

module _ {ℓ} {A : Type ℓ} where
  abbrev pub length : List A → ℕ
  length [] = 0
  length (x ∷ xs) = suc (length xs)

  abbrev pub replicate : ℕ → A → List A
  replicate ℕ.zero a = []
  replicate (suc n) a = a ∷ replicate n a

  -- The items that a test keeps, in order.
  abbrev pub keep : (A → Bool) → List A → List A
  keep p [] = []
  keep p (x ∷ xs) = if p x then x ∷ keep p xs else keep p xs

  abbrev pub all : (A → Bool) → List A → Bool
  all p [] = true
  all p (x ∷ xs) = p x && all p xs

  pub length-append : (xs ys : List A) → length (xs ++ ys) ≡ length xs + length ys
  length-append [] ys = omega arith
  length-append (x ∷ xs) ys = omega (arith, length-append xs ys)

  pub keep-append : (p : A → Bool) (xs ys : List A) → keep p (xs ++ ys) ≡ keep p xs ++ keep p ys
  keep-append p [] ys = refl
  keep-append p (x ∷ xs) ys = ground (arith, keep-append p xs ys)

module _ {ℓ κ} {A : Type ℓ} {B : Type κ} where
  pub length-map : (f : A → B) (xs : List A) → length (map f xs) ≡ length xs
  length-map f [] = refl
  length-map f (x ∷ xs) = omega (arith, length-map f xs)

-- Membership of a number, as a test.
abbrev pub mem : ℕ → List ℕ → Bool
mem p [] = false
mem p (q ∷ qs) = eqb q p || mem p qs

abbrev pub AllBelow : ℕ → List ℕ → Type 0
AllBelow n [] = Unit {0}
AllBelow n (p ∷ ps) = (p < n) × AllBelow n ps

pub AllBelow-mono : (m n : ℕ) (ps : List ℕ) → m ≤ n → AllBelow m ps → AllBelow n ps
AllBelow-mono m n [] h b = tt
AllBelow-mono m n (p ∷ ps) h b = (omega arith, AllBelow-mono m n ps h b.1)

pub AllBelow-append :
    (n : ℕ) (ps qs : List ℕ) → AllBelow n ps → AllBelow n qs → AllBelow n (ps ++ qs)
AllBelow-append n [] qs b c = c
AllBelow-append n (p ∷ ps) qs b c = (b.0, AllBelow-append n ps qs b.1 c)

-- A number at or above the bound is not in the list.
pub mem_above : (n : ℕ) (ps : List ℕ) → AllBelow n ps → mem n ps ≡ false
mem_above n [] b = refl
mem_above n (p ∷ ps) b = ground (arith, mem_above n ps b.1)

pub mem-append : (p : ℕ) (ps qs : List ℕ) → mem p (ps ++ qs) ≡ (mem p ps || mem p qs)
mem-append p [] qs = refl
mem-append p (q ∷ ps) qs = ground (arith, mem-append p ps qs)

-- Two functions that agree on the members of a list map it alike.
pub map-agree {ℓ} :
    {A : Type ℓ} (f g : ℕ → A) (ps : List ℕ)
    → ((p : ℕ) → mem p ps ≡ true → f p ≡ g p)
    → map f ps ≡ map g ps
map-agree f g [] h = refl
map-agree f g (p ∷ ps) h = cc (h p (ground arith), map-agree f g ps (λ q m. h q (ground arith)))
