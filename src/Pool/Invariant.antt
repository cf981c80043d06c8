-- ===== src/Pool/Invariant.antt =====
-- The invariant of a lease pool, and that every operation keeps it.
use ray_dispatcher.Base.{
  ℕ, ◌≤◌, ◌<◌, ◌≡◌, refl, ite, true, false, none, some, List, [], ◌∷◌, arith, length, Str,
  str_discrete, mem_str, Dict, get, put, del, get_or, get-put, get-del,
}
use ray_dispatcher.Pool.{Lease, Pool, slots_of, used_of, discard, mem_nat}
use ray_dispatcher.Pool.Slots.{mult, mult-discard, length-discard, mem_nat-mult}
use ray_dispatcher.Pool.Occupancy.{
  at, on, count_by, IsKeyed, count_by-put_new, count_by-del, count_by-get, put-IsKeyed, del-IsKeyed,
}

-- What holds of the leases, whichever hosts are quarantined.
pub record Books (p : Pool) : Type 0 where
  -- a host's used slots are those of its leases, each as often
  pub held : (h : Str) (i : ℕ) → mult i (used_of p h) ≡ count_by (at h i) p.leases
  pub counted : (h : Str) → length (used_of p h) ≡ count_by (on h) p.leases
  -- no slot has two leases
  pub single : (h : Str) (i : ℕ) → count_by (at h i) p.leases ≤ 1
  pub within : (h : Str) → count_by (on h) p.leases ≤ slots_of p h
  pub bounded : (h : Str) (i : ℕ) → slots_of p h ≤ i → count_by (at h i) p.leases ≡ 0
  pub keyed : IsKeyed p.leases
  -- a pid path is kept for live leases only
  pub pids : (t : Str) → get t p.leases ≡ none → get t p.pid_paths ≡ none

pub record Inv (p : Pool) : Type 0 where
  pub books : Books p
  -- a quarantined host has no lease
  pub calm : (h : Str) → mem_str h p.quarantined ≡ true → count_by (on h) p.leases ≡ 0
  -- orphaned pid paths are kept for quarantined hosts only
  pub parked : (h : Str) → mem_str h p.quarantined ≡ false → get h p.orphans ≡ none

at-le-on : (h : Str) (i : ℕ) (l : Lease) → at h i l ≤ on h l
at-le-on h i l = ground arith

get-used :
    (h k : Str) (us : List ℕ) (d : Dict (List ℕ))
    → get_or (get k (put h us d)) [] ≡ (ite (str_discrete h k) us (get_or (get k d) []))
get-used h k us d = ground (arith, get-put h k us d)

-- Granting a free slot of a host under a fresh token.
abbrev pub after_grant : Pool → Lease → Pool
after_grant p l = record p {
  used = put l.host (l.slot ∷ used_of p l.host) p.used;
  leases = put l.token l p.leases;
}

module _ (p : Pool) (l : Lease) (b : Books p) (room : length (used_of p l.host) < slots_of p l.host)
    (free : mem_nat l.slot (used_of p l.host) ≡ false) (small : l.slot < slots_of p l.host)
    (fresh : get l.token p.leases ≡ none) where
  pub grant-Books : Books (after_grant p l)
  grant-Books = record {
    held = λ h i. ground (
      arith,
      get-used l.host h (l.slot ∷ used_of p l.host) p.used,
      count_by-put_new (at h i) l.token l p.leases,
      b.held h i,
    );
    counted = λ h. ground (
      arith,
      get-used l.host h (l.slot ∷ used_of p l.host) p.used,
      count_by-put_new (on h) l.token l p.leases,
      b.counted h,
    );
    single = λ h i. ground (
      arith,
      count_by-put_new (at h i) l.token l p.leases,
      b.single h i,
      b.held h i,
      mem_nat-mult l.slot (used_of p l.host),
    );
    within =
        λ h. ground (arith, count_by-put_new (on h) l.token l p.leases, b.within h, b.counted h);
    bounded = λ h i le. ground (arith, count_by-put_new (at h i) l.token l p.leases, b.bounded h i);
    keyed = put-IsKeyed l.token l p.leases refl b.keyed;
    pids = λ t e. ground (arith, get-put l.token t l p.leases, b.pids t);
  }

-- Giving a slot back.
module _ (p : Pool) (token : Str) (l : Lease) (b : Books p) (e : get token p.leases ≡ some l) where
  abbrev pub after_drop : Pool
  after_drop = record p {
    used = put l.host (discard l.slot (used_of p l.host)) p.used;
    leases = del token p.leases;
    pid_paths = del token p.pid_paths;
  }

  pub drop-Books : Books after_drop
  drop-Books = record {
    held = λ h i. ground (
      arith,
      get-used l.host h (discard l.slot (used_of p l.host)) p.used,
      mult-discard l.slot i (used_of p l.host),
      count_by-del (at h i) token l p.leases b.keyed e,
      b.held h i,
      b.single h i,
    );
    counted = λ h. ground (
      arith,
      get-used l.host h (discard l.slot (used_of p l.host)) p.used,
      length-discard l.slot (used_of p l.host),
      count_by-del (on h) token l p.leases b.keyed e,
      count_by-get (at l.host l.slot) token l p.leases e,
      b.counted h,
      b.held l.host l.slot,
      b.single l.host l.slot,
    );
    single = λ h i. ground (arith, count_by-del (at h i) token l p.leases b.keyed e, b.single h i);
    within = λ h. ground (arith, count_by-del (on h) token l p.leases b.keyed e, b.within h);
    bounded =
        λ h i le. ground (arith, count_by-del (at h i) token l p.leases b.keyed e, b.bounded h i);
    keyed = del-IsKeyed token p.leases b.keyed;
    pids = λ t q. ground (arith, get-del token t p.leases, get-del token t p.pid_paths, b.pids t);
  }
