-- ===== src/Pool/Shrink.antt =====
-- What `acquire` leaves of the hosts and their free slots, whatever it returns.
use ray_dispatcher.Base.{
  null, ℕ, ◌≤◌, ◌≡◌, ◌≢◌, refl, ap, inl, inr, List, [], ◌∷◌, arith, length, Elem, Str, get-put,
  Option-cases, sort_strs, sort_strs-Elem, true,
}
use ray_dispatcher.Pool.{
  Pool, slots_of, used_of, live_hosts, free_slot_count, drawn, unavailable, max_by, Acquired,
  acquire, acquire_on, choose, candidates, grant, first_free, heartbeat, register_pid,
  sweep_expired, healthy_host_count, quarantine_all, expired_hosts,
}
use ray_dispatcher.Pool.Acquire.{IsFull, sort_strs-eq-nil}

-- The same live hosts, and no more free slots.
pub record Shrinks (p q : Pool) : Type 0 where
  pub live : live_hosts q ≡ live_hosts p
  pub fewer : (h : Str) → free_slot_count q h ≤ free_slot_count p h

pub Shrinks-IsFull :
    (p q : Pool) (exclude : List Str) → Shrinks p q → IsFull p exclude → IsFull q exclude
unfolding drawn
Shrinks-IsFull p q exclude s full h m = ground (arith, s.live, s.fewer h, full h)

pub Shrinks-healthy_host_count :
    (p q : Pool) → Shrinks p q → healthy_host_count q ≡ healthy_host_count p
unfolding healthy_host_count
Shrinks-healthy_host_count p q s = ap length s.live

grant-Shrinks :
    (p : Pool) (host : Str) (slot : ℕ) (attempt_id token : Str) (now : ℕ)
    → Shrinks p (grant p host slot attempt_id token now).0
unfolding grant live_hosts free_slot_count
grant-Shrinks p host slot attempt_id token now = record {
  live = ground arith;
  fewer = λ h. ground (arith, get-put host h (slot ∷ used_of p host) p.used);
}

Shrinks-refl : (p : Pool) → Shrinks p p
Shrinks-refl p = record { live = refl; fewer = λ h. omega arith }

-- A round that leases or fails; `None` comes from an empty list of candidates only.
record Tries (p : Pool) (r : Pool × Acquired) : Type 0 where
  shrinks : Shrinks p r.0
  tried : r.1 ≢ unavailable

grant-Tries :
    (p : Pool) (host : Str) (slot : ℕ) (attempt_id token : Str) (now : ℕ)
    → Tries p (grant p host slot attempt_id token now)
unfolding grant
grant-Tries p host slot attempt_id token now = record {
  shrinks = grant-Shrinks p host slot attempt_id token now;
  tried = ground arith;
}

acquire_on-Tries :
    (p : Pool) (host attempt_id token : Str) (now : ℕ)
    → Tries p (acquire_on p host attempt_id token now)
unfolding acquire_on
acquire_on-Tries p host attempt_id token now =
    elim (Option-cases (first_free (slots_of p host) 0 (used_of p host))) [
      | inl e ↦ rw (e, acquire_on) (record { shrinks = Shrinks-refl p; tried = λ q. cc })
      | inr (slot, e) ↦ rw (e, acquire_on) (grant-Tries p host slot attempt_id token now)
    ]

choose-Shrinks :
    (p : Pool) (hs : List Str) (attempt_id token : Str) (now : ℕ)
    → Shrinks p (choose p hs attempt_id token now).0
      × ((choose p hs attempt_id token now).1 ≡ unavailable → hs ≡ [])
unfolding choose
choose-Shrinks p [] attempt_id token now = (Shrinks-refl p, λ e. refl)
choose-Shrinks p (h ∷ hs) attempt_id token now =
    let t = acquire_on-Tries p (max_by (free_slot_count p) h hs) attempt_id token now in
    (t.shrinks, λ e. absurd (t.tried e))

pub acquire-Shrinks :
    (p : Pool) (attempt_id : Str) (exclude : List Str) (token : Str) (now : ℕ)
    → Shrinks p (acquire p attempt_id exclude token now).0
      × ((acquire p attempt_id exclude token now).1 ≡ unavailable → IsFull p exclude)
unfolding acquire
acquire-Shrinks p attempt_id exclude token now =
    let (s, none_left) = choose-Shrinks p (sort_strs (candidates p exclude)) attempt_id token now in
    (s, λ e. sort_strs-eq-nil p attempt_id exclude token now (none_left e))

pub heartbeat-Shrinks : (p : Pool) (token : Str) (now : ℕ) → Shrinks p (heartbeat p token now).0
unfolding heartbeat live_hosts free_slot_count
heartbeat-Shrinks p token now = record { live = ground arith; fewer = λ h. ground arith }

pub register_pid-Shrinks : (p : Pool) (token path : Str) → Shrinks p (register_pid p token path)
unfolding register_pid live_hosts free_slot_count
register_pid-Shrinks p token path = record { live = ground arith; fewer = λ h. ground arith }

null-sort_strs : (hs : List Str) → null (sort_strs hs) ≡ true → hs ≡ []
null-sort_strs [] e = refl
null-sort_strs (h ∷ hs) e =
    none_sorted (sort_strs (h ∷ hs)) ((sort_strs-Elem h (h ∷ hs)).1 (inl refl)) e
  where
    none_sorted : (l : List Str) → Elem h l → null l ≡ true → h ∷ hs ≡ []
    none_sorted [] m q = absurd m
    none_sorted (x ∷ l) m q = cc

pub sweep_expired-idle :
    (p : Pool) (now : ℕ) → null (sweep_expired p now).1 ≡ true → (sweep_expired p now).0 ≡ p
unfolding sweep_expired quarantine_all
sweep_expired-idle p now e = rw (null-sort_strs (expired_hosts now p.leases) e) refl
