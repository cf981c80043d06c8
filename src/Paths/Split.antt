-- ===== src/Paths/Split.antt =====
-- Splitting a text at the slashes, and joining.
use ray_dispatcher.Base.{
  ℕ, ◌==◌, ◌≡◌, ◌≢◌, refl, ap, ◌∙◌, inl, inr, Bool, true, false, not, List, [], ◌∷◌, ◌++◌, arith,
  all, All, Bool-cases, Str, slash,
}
use ray_dispatcher.Paths.{push_front, split, join_path}

abbrev pub no_slash : Str → Bool
no_slash s = all (λ c. not (c == slash)) s

push_front-no_slash :
    (c : ℕ) (ws : List Str)
    → (c == slash) ≡ false
    → All (λ w. no_slash w ≡ true) ws
    → All (λ w. no_slash w ≡ true) (push_front c ws)
unfolding push_front
push_front-no_slash c [] e h = ground arith
push_front-no_slash c (w ∷ ws) e h = ground arith

pub split-no_slash : (s : Str) → All (λ w. no_slash w ≡ true) (split s)
unfolding split
split-no_slash [] = (refl, tt)
split-no_slash (c ∷ s) = elim (Bool-cases (c == slash)) [
  | inl e ↦ rw e (refl, split-no_slash s)
  | inr e ↦ rw e (push_front-no_slash c (split s) e (split-no_slash s))
]

pub split-append : (w t : Str) → no_slash w ≡ true → split (w ++ slash ∷ t) ≡ w ∷ split t
unfolding split push_front
split-append [] t h = refl
split-append (c ∷ w) t h = ground (arith, split-append w t)

pub split_one : (w : Str) → no_slash w ≡ true → split w ≡ w ∷ []
unfolding split push_front
split_one [] h = refl
split_one (c ∷ w) h = ground (arith, split_one w)

pub split-join_path :
    (w : Str) (ws : List Str)
    → All (λ w. no_slash w ≡ true) (w ∷ ws)
    → split (join_path (w ∷ ws)) ≡ w ∷ ws
unfolding join_path
split-join_path w [] h = split_one w h.0
split-join_path w (v ∷ ws) h =
    split-append w (join_path (v ∷ ws)) h.0 ∙ ap (λ vs. w ∷ vs) (split-join_path v ws h.1)

-- A text is the join of its parts.
push_front-join_path :
    (c : ℕ) (ws : List Str) → ws ≢ [] → join_path (push_front c ws) ≡ c ∷ join_path ws
unfolding join_path push_front
push_front-join_path c [] h = absurd (h refl)
push_front-join_path c (w ∷ []) h = refl
push_front-join_path c (w ∷ v ∷ ws) h = refl

push_front-ne-nil : (c : ℕ) (ws : List Str) → push_front c ws ≢ []
unfolding push_front
push_front-ne-nil c [] e = cc
push_front-ne-nil c (w ∷ ws) e = cc

pub split-ne-nil : (s : Str) → split s ≢ []
unfolding split
split-ne-nil [] e = cc
split-ne-nil (c ∷ s) e = ground (arith, push_front-ne-nil c (split s))

join_path-cons : (ws : List Str) → ws ≢ [] → join_path ([] ∷ ws) ≡ slash ∷ join_path ws
unfolding join_path
join_path-cons [] h = absurd (h refl)
join_path-cons (w ∷ ws) h = refl

pub join_path-split : (s : Str) → join_path (split s) ≡ s
unfolding split join_path
join_path-split [] = refl
join_path-split (c ∷ s) = elim (Bool-cases (c == slash)) [
  | inl e ↦ rw e (ground (arith, join_path-cons (split s) (split-ne-nil s), join_path-split s))
  | inr e ↦
      rw e (ground (arith, push_front-join_path c (split s) (split-ne-nil s), join_path-split s))
]
