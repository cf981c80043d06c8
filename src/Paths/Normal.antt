-- ===== src/Paths/Normal.antt =====
-- What `normalize_relative` accepts, and what it returns.
use ray_dispatcher.Base.{
  ◌≡◌, refl, inl, inr, Bool, true, false, List, [], ◌∷◌, ◌++◌, arith, append-nil, null, filter, All,
  Bool-cases, Str, codes, str_discrete, holds, mem_str,
}
use ray_dispatcher.Paths.{
  split, join_path, is_component, dot_dot, starts_with, walk, walk_step, rev_onto, initial_slashes,
  or_dot, normpath, escapes, components,
}
use ray_dispatcher.Paths.Split.{no_slash, split_one, split-append, split-join_path}

rev_onto-rev_onto : (xs ys zs : List Str) → rev_onto (rev_onto xs ys) zs ≡ rev_onto ys (xs ++ zs)
unfolding rev_onto
rev_onto-rev_onto [] ys zs = refl
rev_onto-rev_onto (x ∷ xs) ys zs = rev_onto-rev_onto xs (x ∷ ys) zs

-- With no "..", `normpath` keeps the components as they are.
pub walk-forward :
    (rooted : Bool) (ws done : List Str)
    → mem_str dot_dot ws ≡ false
    → walk rooted ws done ≡ rev_onto (filter is_component ws) done
unfolding walk rev_onto
walk-forward rooted [] done h = refl
walk-forward rooted (w ∷ ws) done h =
    ground
      (arith, walk-forward rooted ws done, walk-forward rooted ws (w ∷ done), pushes rooted w done)
  where
    pushes :
        (rooted : Bool) (w : Str) (done : List Str)
        → holds (str_discrete w dot_dot) ≡ false
        → walk_step rooted w done ≡ w ∷ done
    pushes rooted w [] e = ground arith
    pushes rooted w (v ∷ vs) e = ground arith

-- A component of a path that names no parent.
pub record IsPlain (w : Str) : Type 0 where
  pub slashless : no_slash w ≡ true
  pub kept : is_component w ≡ true
  pub no_parent : holds (str_discrete w dot_dot) ≡ false

pub components-IsPlain :
    (ws : List Str)
    → All (λ w. no_slash w ≡ true) ws
    → mem_str dot_dot ws ≡ false
    → All IsPlain (filter is_component ws)
components-IsPlain [] a h = tt
components-IsPlain (w ∷ ws) a h = elim (Bool-cases (is_component w)) [
  | inl e ↦ rw e (
    record { slashless = a.0; kept = e; no_parent = ground arith },
    components-IsPlain ws a.1 (ground arith),
  )
  | inr e ↦ rw e (components-IsPlain ws a.1 (ground arith))
]

filter-plain : (ws : List Str) → All IsPlain ws → filter is_component ws ≡ ws
filter-plain [] a = refl
filter-plain (w ∷ ws) a = ground (arith, filter-plain ws a.1)

mem_str-plain : (ws : List Str) → All IsPlain ws → mem_str dot_dot ws ≡ false
mem_str-plain [] a = refl
mem_str-plain (w ∷ ws) a = ground (arith, mem_str-plain ws a.1)

-- The text of some plain components, as `normpath` writes it.
join_path-null :
    (w : Str) (ws : List Str) → is_component w ≡ true → null (join_path (w ∷ ws)) ≡ false
unfolding join_path is_component
join_path-null [] ws e = ground arith
join_path-null (c ∷ w) [] e = refl
join_path-null (c ∷ w) (v ∷ ws) e = refl

no_slash-plain : (ws : List Str) → All IsPlain ws → All (λ w. no_slash w ≡ true) ws
no_slash-plain [] a = tt
no_slash-plain (w ∷ ws) a = (a.0.slashless, no_slash-plain ws a.1)

or_dot-full : (s : Str) → null s ≡ false → or_dot s ≡ s
unfolding or_dot
or_dot-full s e = rw e refl

pub split-or_dot :
    (ws : List Str)
    → All IsPlain ws
    → (mem_str dot_dot (split (or_dot (join_path ws))) ≡ false)
      × (components (or_dot (join_path ws)) ≡ ws)
unfolding components or_dot join_path split str_discrete
split-or_dot [] a = (refl, refl)
split-or_dot (w ∷ ws) a =
    rw
      (
        or_dot-full (join_path (w ∷ ws)) (join_path-null w ws a.0.kept),
        split-join_path w ws (no_slash-plain (w ∷ ws) a),
      )
      (mem_str-plain (w ∷ ws) a, filter-plain (w ∷ ws) a)

starts_with-join_path :
    (w : Str) (ws : List Str)
    → no_slash w ≡ true
    → is_component w ≡ true
    → starts_with (codes "/") (join_path (w ∷ ws)) ≡ false
unfolding join_path is_component
starts_with-join_path [] ws h e = ground arith
starts_with-join_path (c ∷ w) [] h e = ground arith
starts_with-join_path (c ∷ w) (v ∷ ws) h e = ground arith

pub starts_with-slash :
    (ws : List Str) → All IsPlain ws → starts_with (codes "/") (or_dot (join_path ws)) ≡ false
unfolding or_dot join_path
starts_with-slash [] a = refl
starts_with-slash (w ∷ ws) a =
    rw (or_dot-full (join_path (w ∷ ws)) (join_path-null w ws a.0.kept))
      (starts_with-join_path w ws a.0.slashless a.0.kept)

starts_with-drop : (p s : Str) → starts_with p s ≡ true → (t : Str) × (s ≡ p ++ t)
starts_with-drop [] s e = (s, refl)
starts_with-drop (c ∷ p) [] e = ground arith
starts_with-drop (c ∷ p) (d ∷ s) e =
    let (t, q) = starts_with-drop p s (ground arith) in (t, ground arith)

-- A text none of whose parts is ".." does not climb.
pub climbs-parts :
    (s : Str)
    → mem_str dot_dot (split s) ≡ false
    → (holds (str_discrete s dot_dot) ≡ false) × (starts_with (codes "../") s ≡ false)
climbs-parts s h = (
  elim (Bool-cases (holds (str_discrete s dot_dot))) [
    | inl e ↦ absurd (parent (ground arith))
    | inr e ↦ e
  ],
  elim (Bool-cases (starts_with (codes "../") s)) [
    | inl e ↦ let (t, q) = starts_with-drop (codes "../") s e in absurd (above t q)
    | inr e ↦ e
  ],
)
  where
    parent : s ≡ dot_dot → ⊥
    parent e = ground (arith, split_one dot_dot refl)

    above : (t : Str) → s ≡ codes "../" ++ t → ⊥
    above t e = ground (arith, split-append dot_dot t refl)

pub escapes-plain : (ws : List Str) → All IsPlain ws → escapes (or_dot (join_path ws)) ≡ false
unfolding escapes
escapes-plain ws a =
    let (e, f) = climbs-parts (or_dot (join_path ws)) (split-or_dot ws a).0 in
    rw (starts_with-slash ws a, e, f) refl

initial_slashes-relative : (s : Str) → starts_with (codes "/") s ≡ false → initial_slashes s ≡ []
unfolding initial_slashes
initial_slashes-relative [] r = refl
initial_slashes-relative (c ∷ s) r = ground arith

pub normpath-relative :
    (path : Str)
    → starts_with (codes "/") path ≡ false
    → mem_str dot_dot (split path) ≡ false
    → null path ≡ false
    → normpath path ≡ or_dot (join_path (components path))
unfolding normpath components rev_onto
normpath-relative path r h n =
    rw
      (
        n,
        initial_slashes-relative path r,
        walk-forward false (split path) [] h,
        rev_onto-rev_onto (filter is_component (split path)) [] [],
        append-nil (filter is_component (split path)),
      )
      refl
