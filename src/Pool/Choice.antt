-- ===== src/Pool/Choice.antt =====
-- Which host and slot `acquire` takes.
use ray_dispatcher.Base.{
  ℕ, ◌≤◌, ◌≡◌, refl, ◌⊎◌, inl, inr, true, false, List, [], ◌∷◌, arith, ltb, Bool-cases, Elem, Str,
  str_le, str_le_refl, IsSorted, All,
}
use ray_dispatcher.Pool.{max_by}

-- `m` has the greatest key, and the least label of those that have it.
abbrev pub IsBest : (Str → ℕ) → Str → List Str → Type 0
IsBest key m hs = (k : Str) → Elem k hs → (key k ≤ key m) × (key k ≡ key m → str_le m k ≡ true)

module _ (key : Str → ℕ) where
  record Best (best : Str) (hs : List Str) (m : Str) : Type 0 where
    among : (best ≡ m) ⊎ Elem m hs
    rises : key best ≤ key m
    stays : key best ≡ key m → m ≡ best
    beats : IsBest key m hs

  max_by-Best :
      (best : Str) (hs : List Str)
      → All (λ h. str_le best h ≡ true) hs
      → IsSorted hs
      → Best best hs (max_by key best hs)
  unfolding max_by
  max_by-Best best [] a s = record {
    among = inl refl;
    rises = omega arith;
    stays = λ _. refl;
    beats = λ k m. absurd m;
  }
  max_by-Best best (h ∷ hs) a s = elim (Bool-cases (ltb (key best) (key h))) [
    | inl up ↦ rw up (climb (max_by-Best h hs s.0 s.1) up)
    | inr down ↦ rw down (keep (max_by-Best best hs a.1 s.1) down)
  ]
    where
      climb : {m : Str} → Best h hs m → ltb (key best) (key h) ≡ true → Best best (h ∷ hs) m
      climb {m} b up = record {
        among = ground (arith, b.among);
        rises = ground (arith, b.rises);
        stays = λ e. absurd (ground (arith, b.rises));
        beats = λ k i. elim i [
          | inl e ↦ (ground (arith, b.rises), λ q. ground (arith, b.stays, str_le_refl h))
          | inr i' ↦ b.beats k i'
        ];
      }

      keep : {m : Str} → Best best hs m → ltb (key best) (key h) ≡ false → Best best (h ∷ hs) m
      keep {m} b down = record {
        among = ground (arith, b.among);
        rises = b.rises;
        stays = b.stays;
        beats = λ k i. elim i [
          | inl e ↦ (ground (arith, b.rises), λ q. ground (arith, b.stays, b.rises, a.0))
          | inr i' ↦ b.beats k i'
        ];
      }

  pub max_by_lem :
      (h : Str) (hs : List Str)
      → IsSorted (h ∷ hs)
      → Elem (max_by key h hs) (h ∷ hs) × IsBest key (max_by key h hs) (h ∷ hs)
  max_by_lem h hs s =
      let b = max_by-Best h hs s.0 s.1 in
      (
        b.among,
        λ k i. elim i [
          | inl e ↦ (ground (arith, b.rises), λ q. ground (arith, b.stays, str_le_refl h))
          | inr i' ↦ b.beats k i'
        ],
      )
