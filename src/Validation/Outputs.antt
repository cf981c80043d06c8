-- ===== src/Validation/Outputs.antt =====
-- That the outputs of a job do not collide.
use ray_dispatcher.Base.{
  All, ◌≡◌, refl, sym, ap, ◌∙◌, inl, inr, Bool, true, false, any, List, [], ◌∷◌, ◌++◌, map, Str,
  codes, arith, Bool-cases,
}
use ray_dispatcher.Values.{Job, OutputSpec}
use ray_dispatcher.Errors.{Result, ok, raise}
use ray_dispatcher.Paths.{normalize_relative}
use ray_dispatcher.Validation.{
  checks, then_use, parts_of, is_prefix, overlap, has_overlap, new_job, job_checks, with_cwd,
}

-- Two prefixes of one path overlap.
both_prefixes :
    (a b p : List Str) → is_prefix a p ≡ true → is_prefix b p ≡ true → overlap a b ≡ true
unfolding overlap is_prefix
both_prefixes [] b p h k = refl
both_prefixes (x ∷ a) [] p h k = ground arith
both_prefixes (x ∷ a) (y ∷ b) [] h k = ground arith
both_prefixes (x ∷ a) (y ∷ b) (z ∷ p) h k = ground (arith, both_prefixes a b p)

any_at :
    (f : List Str → Bool) (xs : List (List Str)) (b : List Str) (ys : List (List Str))
    → f b ≡ true
    → any f (xs ++ b ∷ ys) ≡ true
any_at f [] b ys h = ground arith
any_at f (x ∷ xs) b ys h = ground (arith, any_at f xs b ys h)

has_overlap_at :
    (xs ys zs : List (List Str)) (a b : List Str)
    → overlap a b ≡ true
    → has_overlap (xs ++ a ∷ (ys ++ b ∷ zs)) ≡ true
unfolding has_overlap
has_overlap_at [] ys zs a b h = ground (arith, any_at (overlap a) ys b zs h)
has_overlap_at (x ∷ xs) ys zs a b h = ground (arith, has_overlap_at xs ys zs a b h)

map-append :
    (xs ys : List OutputSpec) → map parts_of (xs ++ ys) ≡ map parts_of xs ++ map parts_of ys
map-append [] ys = refl
map-append (x ∷ xs) ys = ap (λ l. parts_of x ∷ l) (map-append xs ys)

checks-all :
    {A : Type 0} (cs : List (Bool × Str)) (a b : A)
    → checks cs a ≡ ok b
    → All (λ c. c.0 ≡ true) cs × (a ≡ b)
unfolding checks
checks-all [] a b e = (tt, ground arith)
checks-all ((true, m) ∷ cs) a b e = let (h, same) = checks-all cs a b e in ((refl, h), same)
checks-all ((false, m) ∷ cs) a b e = ground arith

then_use-ok :
    {A B : Type 0} (r : Result A) (f : A → Result B) (b : B)
    → then_use r f ≡ ok b
    → (a : A) × (r ≡ ok a) × (f a ≡ ok b)
then_use-ok (ok a) f b e = (a, refl, e)
then_use-ok (raise x) f b e = ground arith

-- A job that is built has the given outputs, and these do not overlap.
new_job-outputs :
    (given j : Job)
    → new_job given ≡ ok j
    → (has_overlap (map parts_of given.outputs) ≡ false) × (j.outputs ≡ given.outputs)
unfolding new_job with_cwd job_checks
new_job-outputs given j e =
    let (k, q, p) = then_use-ok (checks (job_checks given) given) with_cwd j e in
    let (h, same) = checks-all (job_checks given) given k q in
    let (cwd, _, last) =
      then_use-ok (normalize_relative k.cwd (codes "cwd")) (λ c. ok (record k { cwd = c })) j p in
    let kept : k.outputs ≡ j.outputs = ground arith in
    let apart = h.1.1.1.1.1.0 in
    (ground (arith, apart), sym kept ∙ ap (λ (x : Job). x.outputs) (sym same))

-- No path lies under the destinations of two outputs of a job that was built: whatever two outputs
-- bring, no file of one is a file of the other, nor a directory on its way.
pub new_job-apart :
    (given j : Job) (xs ys zs : List OutputSpec) (a b : OutputSpec) (path : List Str)
    → new_job given ≡ ok j
    → j.outputs ≡ xs ++ a ∷ (ys ++ b ∷ zs)
    → is_prefix (parts_of a) path ≡ true
    → is_prefix (parts_of b) path ≡ false
new_job-apart given j xs ys zs a b path e split under =
    let (apart, kept) = new_job-outputs given j e in
    elim (Bool-cases (is_prefix (parts_of b) path)) [
      | inr not_under ↦ not_under
      | inl too ↦
          let all = sym kept ∙ split in
          let hit =
            has_overlap_at (map parts_of xs) (map parts_of ys) (map parts_of zs) (parts_of a)
              (parts_of b) (both_prefixes (parts_of a) (parts_of b) path under too) in
          let spread : map parts_of given.outputs
              ≡ map parts_of xs ++ parts_of a ∷ (map parts_of ys ++ parts_of b ∷ map parts_of zs) =
            ap (map parts_of) all
            ∙ map-append xs (a ∷ (ys ++ b ∷ zs))
            ∙ ap (λ l. map parts_of xs ++ parts_of a ∷ l) (map-append ys (b ∷ zs)) in
          let other = sym apart ∙ ap has_overlap spread ∙ hit in ground arith
    ]
