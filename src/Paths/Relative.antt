-- ===== src/Paths/Relative.antt =====
-- `normalize_relative` of src/it/unimib/data/nanofaas/ray_dispatcher/paths.py against a description of
-- the paths that it accepts and of what it makes of them.
use ray_dispatcher.Base.{
  ℕ, ◌==◌, ◌∷◌, ◌++◌, slash, [], ◌⊎◌, inl, inr, ◌≡◌, refl, sym, ap, ◌∙◌, Bool, true, false, not,
  ◌&&◌, List, arith, null, filter, All, Bool-cases, Str, codes, mem_str,
}
use ray_dispatcher.Errors.{path_validation, ok, raise}
use ray_dispatcher.Paths.{
  push_front, split, join_path, is_component, dot_dot, starts_with, or_dot, has_nul,
  normalize_relative, components,
}
use ray_dispatcher.Paths.Split.{split-no_slash}
use ray_dispatcher.Paths.Normal.{
  IsPlain, components-IsPlain, split-or_dot, starts_with-slash, escapes-plain, normpath-relative,
}

-- The paths that may name something under a root: not empty, no NUL, no leading slash, no "..".
pub is_accepted : Str → Bool
is_accepted path =
    not (null path)
    && (not (has_nul path)
        && (not (starts_with (codes "/") path) && not (mem_str dot_dot (split path))))

plain : (path : Str) → mem_str dot_dot (split path) ≡ false → All IsPlain (components path)
unfolding components
plain path h = components-IsPlain (split path) (split-no_slash path) h

relative :
    (path field : Str)
    → null path ≡ false
    → has_nul path ≡ false
    → starts_with (codes "/") path ≡ false
    → mem_str dot_dot (split path) ≡ false
    → normalize_relative path field ≡ ok (or_dot (join_path (components path)))
unfolding normalize_relative
relative path field n z r h =
    rw (n, z, r, h, normpath-relative path r h n, escapes-plain (components path) (plain path h))
      refl

-- An accepted path becomes the join of its components (or "."): the last test, for an escape, never
-- fails. Any other path is a PathValidationError.
pub normalize_relative_lem :
    (path field : Str)
    → ((is_accepted path ≡ true)
        × (normalize_relative path field ≡ ok (or_dot (join_path (components path)))))
      ⊎ ((is_accepted path ≡ false)
          × ((m : Str) × (normalize_relative path field ≡ raise (path_validation m))))
unfolding is_accepted normalize_relative
normalize_relative_lem path field = elim (Bool-cases (null path)) [
  | inl n ↦ inr (rejected-null path field n)
  | inr n ↦ elim (Bool-cases (has_nul path)) [
    | inl z ↦ inr (rejected-nul path field n z)
    | inr z ↦ elim (Bool-cases (starts_with (codes "/") path)) [
      | inl r ↦ inr (rejected-rooted path field n z r)
      | inr r ↦ elim (Bool-cases (mem_str dot_dot (split path))) [
        | inl h ↦ inr (rejected-parent path field n z r h)
        | inr h ↦ inl (rw (n, z, r, h) refl, relative path field n z r h)
      ]
    ]
  ]
]
  where
    Rejected : Str → Str → Type 0
    Rejected path field =
        (is_accepted path ≡ false)
        × ((m : Str) × (normalize_relative path field ≡ raise (path_validation m)))

    rejected-null : (path field : Str) → null path ≡ true → Rejected path field
    rejected-null path field n = rw n (refl, (_, refl))

    rejected-nul :
        (path field : Str) → null path ≡ false → has_nul path ≡ true → Rejected path field
    rejected-nul path field n z = rw (n, z) (refl, (_, refl))

    rejected-rooted :
        (path field : Str)
        → null path ≡ false
        → has_nul path ≡ false
        → starts_with (codes "/") path ≡ true
        → Rejected path field
    rejected-rooted path field n z r = rw (n, z, r) (refl, (_, refl))

    rejected-parent :
        (path field : Str)
        → null path ≡ false
        → has_nul path ≡ false
        → starts_with (codes "/") path ≡ false
        → mem_str dot_dot (split path) ≡ true
        → Rejected path field
    rejected-parent path field n z r h = rw (n, z, r, h) (refl, (_, refl))

-- No part of a path without NUL has one, and joining parts adds none.
push_front-clean :
    (c : ℕ) (ws : List Str)
    → (c == 0) ≡ false
    → All (λ w. has_nul w ≡ false) ws
    → All (λ w. has_nul w ≡ false) (push_front c ws)
unfolding push_front has_nul
push_front-clean c [] e a = ground arith
push_front-clean c (w ∷ ws) e a = ground arith

split-clean : (s : Str) → has_nul s ≡ false → All (λ w. has_nul w ≡ false) (split s)
unfolding split has_nul
split-clean [] h = ground arith
split-clean (c ∷ s) h = ground (arith, split-clean s, push_front-clean c (split s))

filter-clean :
    (ws : List Str)
    → All (λ w. has_nul w ≡ false) ws
    → All (λ w. has_nul w ≡ false) (filter is_component ws)
filter-clean [] a = tt
filter-clean (w ∷ ws) a = ground (arith, filter-clean ws a.1)

has_nul-append : (s t : Str) → has_nul s ≡ false → has_nul t ≡ false → has_nul (s ++ t) ≡ false
unfolding has_nul
has_nul-append [] t h k = k
has_nul-append (c ∷ s) t h k = ground (arith, has_nul-append s t)

join_path-clean : (ws : List Str) → All (λ w. has_nul w ≡ false) ws → has_nul (join_path ws) ≡ false
unfolding join_path has_nul
join_path-clean [] a = refl
join_path-clean (w ∷ []) a = a.0
join_path-clean (w ∷ v ∷ ws) a =
    has_nul-append w (slash ∷ join_path (v ∷ ws)) a.0 (join_path-clean (v ∷ ws) a.1)

or_dot-clean :
    (s : Str) → has_nul s ≡ false → (has_nul (or_dot s) ≡ false) × (null (or_dot s) ≡ false)
unfolding or_dot has_nul
or_dot-clean [] h = (refl, refl)
or_dot-clean (c ∷ s) h = (h, refl)

is_accepted-normal :
    (path : Str)
    → is_accepted path ≡ true
    → is_accepted (or_dot (join_path (components path))) ≡ true
unfolding is_accepted components
is_accepted-normal path a =
    let ps = plain path (ground arith) in
    let clean = or_dot-clean (join_path (components path)) (components-clean path (ground arith)) in
    rw
      (
        clean.1,
        clean.0,
        starts_with-slash (components path) ps,
        (split-or_dot (components path) ps).0,
      )
      refl
  where
    components-clean :
        (path : Str) → has_nul path ≡ false → has_nul (join_path (components path)) ≡ false
    components-clean path z =
        join_path-clean (components path) (filter-clean (split path) (split-clean path z))

components-normal :
    (path : Str)
    → is_accepted path ≡ true
    → components (or_dot (join_path (components path))) ≡ components path
unfolding is_accepted
components-normal path a = (split-or_dot (components path) (plain path (ground arith))).1

normal_of :
    (path field r : Str)
    → normalize_relative path field ≡ ok r
    → (is_accepted path ≡ true) × (r ≡ or_dot (join_path (components path)))
normal_of path field r e = elim (normalize_relative_lem path field) [
  | inl (a, f) ↦ (a, ground arith)
  | inr (a, (m, f)) ↦ ground arith
]

accepted :
    (path field : Str)
    → is_accepted path ≡ true
    → normalize_relative path field ≡ ok (or_dot (join_path (components path)))
accepted path field a = elim (normalize_relative_lem path field) [
  | inl (b, f) ↦ f
  | inr (b, (m, f)) ↦ ground arith
]

-- The path that `normalize_relative` returns has the components of the one that it was given, is
-- accepted itself, and is returned as it is.
pub normalize_relative-ok :
    (path field r : Str)
    → normalize_relative path field ≡ ok r
    → (components r ≡ components path)
      × (is_accepted r ≡ true)
      × (normalize_relative r field ≡ ok r)
normalize_relative-ok path field r e =
    let (a, f) = normal_of path field r e in
    let c : components r ≡ components path = rw f (components-normal path a) in
    let b : is_accepted r ≡ true = rw f (is_accepted-normal path a) in
    (c, b, accepted r field b ∙ ap ok (ap (λ ws. or_dot (join_path ws)) c ∙ sym f))
