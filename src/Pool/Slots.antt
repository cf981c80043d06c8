-- ===== src/Pool/Slots.antt =====
-- Slot numbers in a host's `used` list, and the search for the first free one.
use ray_dispatcher.Base.{
  ℕ, zero, suc, ◌+◌, ◌≤◌, ◌<◌, ◌≡◌, refl, inl, inr, true, false, Option, none, some, List, [], ◌∷◌,
  arith, ◌==◌, if◌then◌else◌, Bool-cases, length,
}
use ray_dispatcher.Pool.{mem_nat, first_free, discard}

-- How often a slot stands in a list.
abbrev pub mult : ℕ → List ℕ → ℕ
mult i [] = 0
mult i (j ∷ js) = if i == j then suc (mult i js) else mult i js

pub mult-discard :
    (i k : ℕ) (us : List ℕ) → mult k (discard i us) ≡ (if i == k then 0 else mult k us)
unfolding discard
mult-discard i k [] = ground arith
mult-discard i k (j ∷ js) = ground (arith, mult-discard i k js)

pub length-discard : (i : ℕ) (us : List ℕ) → length (discard i us) + mult i us ≡ length us
unfolding discard
length-discard i [] = omega arith
length-discard i (j ∷ js) = ground (arith, length-discard i js)

pub mem_nat-mult : (i : ℕ) (us : List ℕ) → mem_nat i us ≡ false → mult i us ≡ 0
mem_nat-mult i [] h = refl
mem_nat-mult i (j ∷ js) h = ground (arith, mem_nat-mult i js)

pub mult-mem_nat : (i : ℕ) (us : List ℕ) → mem_nat i us ≡ true → 0 < mult i us
mult-mem_nat i [] h = cc
mult-mem_nat i (j ∷ js) h = ground (arith, mult-mem_nat i js)

-- A slot that is found is free, in the range, and no smaller one is free.
pub first_free-some :
    (n i : ℕ) (us : List ℕ) {s : ℕ}
    → first_free n i us ≡ some s
    → (i ≤ s)
      × (s < i + n)
      × (mem_nat s us ≡ false)
      × ((j : ℕ) → i ≤ j → j < s → mem_nat j us ≡ true)
unfolding first_free
first_free-some zero i us e = cc
first_free-some (suc n) i us {s} e = elim (Bool-cases (mem_nat i us)) [
  | inl taken ↦
      let e' : first_free n (i + 1) us ≡ some s = ground arith in
      let (lo, hi, free, below) = first_free-some n (i + 1) us e' in
      (omega arith, omega arith, free, λ j a b. ground (arith, below j))
  | inr free ↦ (ground arith, ground arith, ground arith, λ j a b. absurd (ground arith))
]

first_free-none :
    (n i : ℕ) (us : List ℕ) → first_free n i us ≡ none → (j : ℕ) → i ≤ j → j < i + n → 0 < mult j us
unfolding first_free
first_free-none zero i us e j a b = absurd (omega arith)
first_free-none (suc n) i us e j a b = ground (
  arith,
  first_free-none n (i + 1) us,
  first_free-none n (i + 1) us (ground arith) j,
  mult-mem_nat i us,
)

-- A list that holds every number below `n` has at least `n` entries.
pigeonhole : (n : ℕ) (us : List ℕ) → ((j : ℕ) → j < n → 0 < mult j us) → n ≤ length us
pigeonhole zero us h = omega arith
pigeonhole (suc n) us h = omega (
  arith,
  h n (omega arith),
  length-discard n us,
  pigeonhole n (discard n us) (λ j lt. ground (arith, mult-discard n j us, h j)),
)

-- While fewer slots are used than there are, one is found.
pub first_free-found :
    (n : ℕ) (us : List ℕ) → length us < n → (s : ℕ) × (first_free n 0 us ≡ some s)
first_free-found n us h = found (first_free n 0 us) refl
  where
    found : (o : Option ℕ) → first_free n 0 us ≡ o → (s : ℕ) × (first_free n 0 us ≡ some s)
    found none e = absurd (
        omega
          (arith, pigeonhole n us (λ j lt. first_free-none n 0 us e j (omega arith) (omega arith))))
    found (some s) e = (s, e)
