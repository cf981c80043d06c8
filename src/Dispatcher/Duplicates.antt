-- ===== src/Dispatcher/Duplicates.antt =====
-- That `submit` refuses two jobs of one id.
use ray_dispatcher.Base.{
  ◌≤◌, ◌≡◌, refl, sym, subst, inl, inr, Bool, false, Option, List, [], ◌∷◌, ◌++◌, arith, null, map,
  filter, ltb, Str, codes, Elem, filter-Elem,
}
use ray_dispatcher.Values.{Job}
use ray_dispatcher.Errors.{model_validation, raise}
use ray_dispatcher.Dispatcher.{Backend, Dispatcher, count_str, dupes, submit}

count_str-once : (i : Str) (ys zs : List Str) → 1 ≤ count_str i (ys ++ i ∷ zs)
count_str-once i [] zs = ground arith
count_str-once i (y ∷ ys) zs = ground (arith, count_str-once i ys zs)

count_str-twice : (i : Str) (xs ys zs : List Str) → 2 ≤ count_str i (xs ++ i ∷ (ys ++ i ∷ zs))
count_str-twice i [] ys zs = ground (arith, count_str-once i ys zs)
count_str-twice i (x ∷ xs) ys zs = ground (arith, count_str-twice i xs ys zs)

Elem-there : (i : Str) (xs ys : List Str) → Elem i (xs ++ i ∷ ys)
Elem-there i [] ys = inl refl
Elem-there i (x ∷ xs) ys = inr (Elem-there i xs ys)

Elem-null : (i : Str) (xs : List Str) → Elem i xs → null xs ≡ false
Elem-null i [] m = absurd m
Elem-null i (x ∷ xs) m = refl

dupes-twice : (i : Str) (xs ys zs : List Str) → null (dupes (xs ++ i ∷ (ys ++ i ∷ zs))) ≡ false
unfolding dupes
dupes-twice i xs ys zs =
    let ids = xs ++ i ∷ (ys ++ i ∷ zs) in
    Elem-null i (filter (λ j. ltb 1 (count_str j ids)) ids) (
      filter-Elem (λ j. ltb 1 (count_str j ids)) i ids (Elem-there i xs (ys ++ i ∷ zs))
        (ground (arith, count_str-twice i xs ys zs)))

-- If an id stands twice among those of the jobs, `submit` raises before it calls anything, whatever the
-- batch id: the dispatcher, its calls and the world stay as they are.
pub submit-refuses :
    {W : Type 0} (backend : Backend W) (raise_on_failure require_all_hosts : Bool) (jobs : List Job)
    (batch_id : Option Str) (d : Dispatcher W) (i : Str) (xs ys zs : List Str)
    → map (λ (j : Job). j.id) jobs ≡ xs ++ i ∷ (ys ++ i ∷ zs)
    → submit backend raise_on_failure require_all_hosts jobs batch_id d
      ≡ (raise (model_validation (codes "duplicate job id(s) in batch")), d)
unfolding submit
submit-refuses backend raise_on_failure require_all_hosts jobs batch_id d i xs ys zs e =
    let twice : null (dupes (map (λ (j : Job). j.id) jobs)) ≡ false =
      subst (λ ids. null (dupes ids) ≡ false) (sym e) (dupes-twice i xs ys zs) in
    rw twice refl
