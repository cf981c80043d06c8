-- ===== src/Base/Text.antt =====
-- A text is the list of its code points, as a Python `str` is; `codes` reads a literal.
use Prim.Native.Nat.{ℕ, zero, suc, ◌+◌, ◌/◌, ◌%◌}
use Prim.Native.Char.{code}
use Prim.Native.String.{String}
use mathlib.Core.Path.{◌≡◌, refl}
use mathlib.Core.Logic.{◌↔◌, ◌⊎◌, inl, inr}
use mathlib.Core.Bool.{Bool, true, false, ◌||◌}
use mathlib.Core.List.{List, [], ◌∷◌, ◌++◌}
use native.Mathlib.Decide.{ℕ_discrete}
use native.Mathlib.Omega.{arith}
use ray_dispatcher.Base.Tests.{ltb, ◌==◌, if◌then◌else◌, holds, Bool-cases}
use ray_dispatcher.Base.Lists.{All, All-mono, Elem}

abbrev pub Str : Type 0
Str = List ℕ

abbrev pub codes : String → Str
codes String.[] = []
codes (String.◌∷◌ c s) = code c ∷ codes s

unfoldable pub str_discrete : Discrete Str
unfolding ℕ_discrete
str_discrete = hlevel ℕ_discrete

-- The order of Python's `sorted` on texts: lexicographic by code point.
unfoldable pub str_le : Str → Str → Bool
str_le [] t = true
str_le (x ∷ s) [] = false
str_le (x ∷ s) (y ∷ t) =
    let rest = str_le s t in if ltb x y then true else if x == y then rest else false

pub str_le_refl : (s : Str) → str_le s s ≡ true
unfolding str_le
str_le_refl [] = refl
str_le_refl (x ∷ s) = ground (arith, str_le_refl s)

pub str_le-total : (s t : Str) → (str_le s t ≡ true) ⊎ (str_le t s ≡ true)
unfolding str_le
str_le-total [] t = inl refl
str_le-total (x ∷ s) [] = inr refl
str_le-total (x ∷ s) (y ∷ t) = ground (arith, str_le-total s t)

pub str_le_trans : (s t u : Str) → str_le s t ≡ true → str_le t u ≡ true → str_le s u ≡ true
unfolding str_le
str_le_trans [] t u p q = refl
str_le_trans (x ∷ s) [] u p q = cc
str_le_trans (x ∷ s) (y ∷ t) [] p q = cc
str_le_trans (x ∷ s) (y ∷ t) (z ∷ u) p q = ground (arith, str_le_trans s t u)

pub str_le-antisym : (s t : Str) → str_le s t ≡ true → str_le t s ≡ true → s ≡ t
unfolding str_le
str_le-antisym [] [] p q = refl
str_le-antisym [] (y ∷ t) p q = cc
str_le-antisym (x ∷ s) [] p q = cc
str_le-antisym (x ∷ s) (y ∷ t) p q = ground (arith, str_le-antisym s t)

-- `k in ks`, on texts
abbrev pub mem_str : Str → List Str → Bool
mem_str k [] = false
mem_str k (j ∷ js) = holds (str_discrete j k) || mem_str k js

abbrev pub IsDistinct : List Str → Type 0
IsDistinct [] = Unit
IsDistinct (t ∷ ts) = (mem_str t ts ≡ false) × IsDistinct ts

pub mem_str-Elem : (k : Str) (ks : List Str) → mem_str k ks ≡ true → Elem k ks
mem_str-Elem k [] h = cc
mem_str-Elem k (j ∷ js) h = ground (arith, mem_str-Elem k js)

pub Elem-mem_str : (k : Str) (ks : List Str) → Elem k ks → mem_str k ks ≡ true
Elem-mem_str k [] h = absurd h
Elem-mem_str k (j ∷ js) h = ground (arith, Elem-mem_str k js)

-- Python's `sorted` on texts.
insert_str : Str → List Str → List Str
insert_str x [] = x ∷ []
insert_str x (y ∷ ys) = if str_le x y then x ∷ y ∷ ys else y ∷ insert_str x ys

unfoldable pub sort_strs : List Str → List Str
unfolding insert_str str_le
sort_strs [] = []
sort_strs (x ∷ xs) = insert_str x (sort_strs xs)

abbrev pub IsSorted : List Str → Type 0
IsSorted [] = Unit
IsSorted (x ∷ xs) = All (λ y. str_le x y ≡ true) xs × IsSorted xs

insert_str-Elem : (x a : Str) (xs : List Str) → Elem a (insert_str x xs) → (x ≡ a) ⊎ Elem a xs
unfolding insert_str
insert_str-Elem x a [] m = m
insert_str-Elem x a (y ∷ ys) m = ground (arith, insert_str-Elem x a ys)

Elem-insert_str : (x a : Str) (xs : List Str) → (x ≡ a) ⊎ Elem a xs → Elem a (insert_str x xs)
unfolding insert_str
Elem-insert_str x a [] m = m
Elem-insert_str x a (y ∷ ys) m = ground (arith, Elem-insert_str x a ys)

All-insert_str :
    (P : Str → Type 0) (x : Str) (xs : List Str) → P x → All P xs → All P (insert_str x xs)
unfolding insert_str
All-insert_str P x [] hx h = (hx, tt)
All-insert_str P x (y ∷ ys) hx h = ground (arith, All-insert_str P x ys hx h.1)

insert_str-IsSorted : (x : Str) (xs : List Str) → IsSorted xs → IsSorted (insert_str x xs)
unfolding insert_str
insert_str-IsSorted x [] h = (tt, tt)
insert_str-IsSorted x (y ∷ ys) h = elim (Bool-cases (str_le x y)) [
  | inl le ↦ rw le ((le, All-mono _ _ ys (λ z. str_le_trans x y z le) h.0), h)
  | inr gt ↦ rw gt (
    All-insert_str (λ z. str_le y z ≡ true) x ys (ground (arith, str_le-total x y)) h.0,
    insert_str-IsSorted x ys h.1,
  )
]

pub sort_strs-IsSorted : (xs : List Str) → IsSorted (sort_strs xs)
unfolding sort_strs
sort_strs-IsSorted [] = tt
sort_strs-IsSorted (x ∷ xs) = insert_str-IsSorted x (sort_strs xs) (sort_strs-IsSorted xs)

pub sort_strs-Elem : (a : Str) (xs : List Str) → Elem a (sort_strs xs) ↔ Elem a xs
unfolding sort_strs
sort_strs-Elem a [] = (λ m. m, λ m. m)
sort_strs-Elem a (x ∷ xs) = (
  λ m. ground (arith, insert_str-Elem x a (sort_strs xs) m, sort_strs-Elem a xs),
  λ m. Elem-insert_str x a (sort_strs xs) (ground (arith, sort_strs-Elem a xs)),
)

pub mem_str-append :
    (k : Str) (xs ys : List Str) → mem_str k (xs ++ ys) ≡ (mem_str k xs || mem_str k ys)
mem_str-append k [] ys = refl
mem_str-append k (x ∷ xs) ys = ground (arith, mem_str-append k xs ys)

-- A natural number in a base: its digits, the last `fuel` of them.
digits_of : ℕ → ℕ → ℕ → Str → Str
digits_of base zero n acc = acc
digits_of base (suc fuel) n acc =
    let rest = digits_of base fuel (n / base) ((b'0' + n % base) ∷ acc) in
    if ltb n base then (b'0' + n) ∷ acc else rest

-- `str(n)`; a number has at most as many digits as one more than its value.
unfoldable pub decimal : ℕ → Str
unfolding digits_of
decimal n = digits_of 10 (suc n) n []

-- `f"{n:o}"`
unfoldable pub octal : ℕ → Str
unfolding digits_of
octal n = digits_of 8 (suc n) n []

-- `"/"`
abbrev pub slash : ℕ
slash = b'/'

-- `f"{s}/{t}"`
infixr 66 ◌/s◌
abbrev pub ◌/s◌ : Str → Str → Str
s /s t = s ++ slash ∷ t

-- `sep.join(parts)`
abbrev pub join : Str → List Str → Str
join sep [] = []
join sep (p ∷ []) = p
join sep (p ∷ q ∷ ps) = p ++ sep ++ join sep (q ∷ ps)
