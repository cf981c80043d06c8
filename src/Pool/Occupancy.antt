-- ===== src/Pool/Occupancy.antt =====
-- The leases on a host, and on a slot of it, counted in the dict of leases.
use ray_dispatcher.Base.{
  ℕ, ◌+◌, ◌≤◌, ◌≡◌, refl, ◌≢◌, ite, none, some, [], ◌∷◌, arith, ◌==◌, if◌then◌else◌, Str,
  str_discrete, Dict, get, put, del, get-put, get-del,
}
use ray_dispatcher.Pool.{Lease}

-- 1 if the lease is for slot `i` of host `h`.
abbrev pub at : Str → ℕ → Lease → ℕ
at h i l = ite (str_discrete l.host h) (if i == l.slot then 1 else 0) 0

-- 1 if the lease is on host `h`.
abbrev pub on : Str → Lease → ℕ
on h l = ite (str_discrete l.host h) 1 0

abbrev pub count_by : (Lease → ℕ) → Dict Lease → ℕ
count_by w [] = 0
count_by w ((t, l) ∷ d) = w l + count_by w d

-- A dict from each lease's own token to it, with no key twice.
abbrev pub IsKeyed : Dict Lease → Type 0
IsKeyed [] = Unit
IsKeyed ((t, l) ∷ d) = (l.token ≡ t) × (get t d ≡ none) × IsKeyed d

pub del_absent : (t : Str) (d : Dict Lease) → get t d ≡ none → del t d ≡ d
del_absent t [] e = refl
del_absent t ((s, l) ∷ d) e = ground (arith, del_absent t d)

module _ (w : Lease → ℕ) where
  pub count_by-put_new :
      (t : Str) (l : Lease) (d : Dict Lease)
      → get t d ≡ none
      → count_by w (put t l d) ≡ w l + count_by w d
  count_by-put_new t l [] e = refl
  count_by-put_new t l ((s, m) ∷ d) e = ground (arith, count_by-put_new t l d)

  pub count_by-put_old :
      (t : Str) (l m : Lease) (d : Dict Lease)
      → get t d ≡ some m
      → w l ≡ w m
      → count_by w (put t l d) ≡ count_by w d
  count_by-put_old t l m [] e q = cc
  count_by-put_old t l m ((s, k) ∷ d) e q = ground (arith, count_by-put_old t l m d)

  pub count_by-del :
      (t : Str) (l : Lease) (d : Dict Lease)
      → IsKeyed d
      → get t d ≡ some l
      → count_by w (del t d) + w l ≡ count_by w d
  count_by-del t l [] k e = cc
  count_by-del t l ((s, m) ∷ d) k e = ground (arith, count_by-del t l d k.2, del_absent s d)

  pub count_by-get : (t : Str) (l : Lease) (d : Dict Lease) → get t d ≡ some l → w l ≤ count_by w d
  count_by-get t l [] e = cc
  count_by-get t l ((s, m) ∷ d) e = ground (arith, count_by-get t l d)

  -- Two different keys count twice.
  pub count_by-get_two :
      (t u : Str) (l m : Lease) (d : Dict Lease)
      → t ≢ u
      → get t d ≡ some l
      → get u d ≡ some m
      → w l + w m ≤ count_by w d
  count_by-get_two t u l m [] ne e f = cc
  count_by-get_two t u l m ((s, k) ∷ d) ne e f =
      ground (arith, count_by-get_two t u l m d ne, count_by-get t l d, count_by-get u m d)

  pub count_by-eq-zero :
      (d : Dict Lease)
      → IsKeyed d
      → ((t : Str) (l : Lease) → get t d ≡ some l → w l ≡ 0)
      → count_by w d ≡ 0
  count_by-eq-zero [] k h = refl
  count_by-eq-zero ((t, l) ∷ d) k h =
      ground (arith, h t l, count_by-eq-zero d k.2 (λ u m e. h u m (ground (arith))))

pub put-IsKeyed :
    (t : Str) (l : Lease) (d : Dict Lease) → l.token ≡ t → IsKeyed d → IsKeyed (put t l d)
put-IsKeyed t l [] e k = (e, refl, tt)
put-IsKeyed t l ((s, m) ∷ d) e k = ground (arith, put-IsKeyed t l d e k.2, get-put t s l d)

pub del-IsKeyed : (t : Str) (d : Dict Lease) → IsKeyed d → IsKeyed (del t d)
del-IsKeyed t [] k = tt
del-IsKeyed t ((s, m) ∷ d) k = ground (arith, del-IsKeyed t d k.2, get-del t s d)

pub get-IsKeyed :
    (t : Str) (l : Lease) (d : Dict Lease) → IsKeyed d → get t d ≡ some l → l.token ≡ t
get-IsKeyed t l [] k e = cc
get-IsKeyed t l ((s, m) ∷ d) k e = ground (arith, get-IsKeyed t l d k.2)
