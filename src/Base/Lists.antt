-- ===== src/Base/Lists.antt =====
-- Lists measured by native numbers, and membership by recursion.
use Prim.Native.Nat.{ℕ, suc, ◌+◌, ◌≤◌}
use mathlib.Core.Path.{◌≡◌, refl, ap, subst}
use mathlib.Core.Logic.{◌⊎◌, inl, inr}
use mathlib.Core.Bool.{Bool, true, false, ◌&&◌, ◌||◌}
use mathlib.Core.List.{List, [], ◌∷◌, ◌++◌, map}
use native.Mathlib.Omega.{arith}
use ray_dispatcher.Base.Tests.{if◌then◌else◌}

module _ {ℓ} {A : Type ℓ} where
  abbrev pub length : List A → ℕ
  length [] = 0
  length (x ∷ xs) = suc (length xs)

  abbrev pub All {κ} : (A → Type κ) → List A → Type κ
  All P [] = Unit
  All P (x ∷ xs) = P x × All P xs

  abbrev pub null : List A → Bool
  null [] = true
  null (x ∷ xs) = false

  abbrev pub all : (A → Bool) → List A → Bool
  all f [] = true
  all f (x ∷ xs) = f x && all f xs

  abbrev pub any : (A → Bool) → List A → Bool
  any f [] = false
  any f (x ∷ xs) = f x || any f xs

  -- The library's `filter`, over a Boolean test.
  abbrev pub filter : (A → Bool) → List A → List A
  filter f [] = []
  filter f (x ∷ xs) = if f x then x ∷ filter f xs else filter f xs

-- Membership with its place kept, unlike the library's truncated `Mem`.
abbrev pub Elem : {A : Type 0} → A → List A → Type 0
Elem a [] = ⊥
Elem a (x ∷ xs) = (x ≡ a) ⊎ Elem a xs

module _ {ℓ} {A : Type ℓ} where
  pub length-append : (xs ys : List A) → length (xs ++ ys) ≡ length xs + length ys
  length-append [] ys = omega arith
  length-append (x ∷ xs) ys = omega (arith, length-append xs ys)

  pub length-map {κ} : {B : Type κ} (f : A → B) (xs : List A) → length (map f xs) ≡ length xs
  length-map f [] = refl
  length-map f (x ∷ xs) = ap suc (length-map f xs)

  pub All-append {κ} : (P : A → Type κ) (xs ys : List A) → All P xs → All P ys → All P (xs ++ ys)
  All-append P [] ys hx hy = hy
  All-append P (x ∷ xs) ys hx hy = (hx.0, All-append P xs ys hx.1 hy)

  pub All-mono {κ μ} :
      (P : A → Type κ) (Q : A → Type μ) (xs : List A) → ((a : A) → P a → Q a) → All P xs → All Q xs
  All-mono P Q [] f h = tt
  All-mono P Q (x ∷ xs) f h = (f x h.0, All-mono P Q xs f h.1)

  pub length-filter-le : (f : A → Bool) (xs : List A) → length (filter f xs) ≤ length xs
  length-filter-le f [] = omega arith
  length-filter-le f (x ∷ xs) = ground (arith, length-filter-le f xs)

module _ {A : Type 0} where
  pub All-Elem {κ} : (P : A → Type κ) (a : A) (xs : List A) → All P xs → Elem a xs → P a
  All-Elem P a [] h m = absurd m
  All-Elem P a (x ∷ xs) h (inl e) = subst P e h.0
  All-Elem P a (x ∷ xs) h (inr m) = All-Elem P a xs h.1 m

  pub Elem-filter :
      (f : A → Bool) (a : A) (xs : List A) → Elem a (filter f xs) → Elem a xs × (f a ≡ true)
  Elem-filter f a [] m = absurd m
  Elem-filter f a (x ∷ xs) m = ground (arith, Elem-filter f a xs)

  pub filter-Elem :
      (f : A → Bool) (a : A) (xs : List A) → Elem a xs → f a ≡ true → Elem a (filter f xs)
  filter-Elem f a [] m h = absurd m
  filter-Elem f a (x ∷ xs) m h = ground (arith, filter-Elem f a xs)

  pub filter-eq-nil :
      (f : A → Bool) (a : A) (xs : List A) → filter f xs ≡ [] → Elem a xs → f a ≡ false
  filter-eq-nil f a [] e m = absurd m
  filter-eq-nil f a (x ∷ xs) e m = ground (arith, filter-eq-nil f a xs)
