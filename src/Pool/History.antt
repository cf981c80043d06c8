-- ===== src/Pool/History.antt =====
-- Any history of calls on a new pool.
use ray_dispatcher.Base.{
  ℕ, ◌+◌, ◌≡◌, refl, none, some, List, [], ◌∷◌, arith, Str, str_discrete, Dict, get,
}
use ray_dispatcher.Pool.{
  Lease, Pool, init, slots_of, used_of, free_slot_count, acquire, release, register_pid, heartbeat,
  quarantine, sweep_expired, mark_reconciled,
}
use ray_dispatcher.Pool.Occupancy.{at, on, count_by, count_by-get_two}
use ray_dispatcher.Pool.Invariant.{Inv}
use ray_dispatcher.Pool.Acquire.{AreNamed, acquire-Inv}
use ray_dispatcher.Pool.Quarantine.{quarantine-Quarantined, sweep_expired-Swept}
use ray_dispatcher.Pool.Keep.{release-Inv, register_pid-Inv, heartbeat-Inv, mark_reconciled-Inv}

pub data Op : Type 0 where
  acquires : Str → List Str → Str → ℕ → Op
  releases : Str → Op
  registers : Str → Str → Op
  beats : Str → ℕ → Op
  quarantines : Str → Op
  sweeps : ℕ → Op
  reconciles : Str → Op

pub step : Pool → Op → Pool
step p (acquires attempt_id exclude token now) = (acquire p attempt_id exclude token now).0
step p (releases token) = (release p token).0
step p (registers token path) = register_pid p token path
step p (beats token now) = (heartbeat p token now).0
step p (quarantines host) = quarantine p host
step p (sweeps now) = (sweep_expired p now).0
step p (reconciles host) = mark_reconciled p host

unfoldable pub run : Pool → List Op → Pool
unfolding step
run p [] = p
run p (o ∷ os) = run (step p o) os

-- A call of `acquire` has an attempt id, and a token that no lease has.
abbrev pub IsFair : Pool → Op → Type 0
IsFair p (acquires attempt_id exclude token now) =
    AreNamed p attempt_id token × (get token p.leases ≡ none)
IsFair p _ = Unit

unfoldable pub AreFair : Pool → List Op → Type 0
unfolding step
AreFair p [] = Unit
AreFair p (o ∷ os) = IsFair p o × AreFair (step p o) os

step-Inv : (p : Pool) (o : Op) → IsFair p o → Inv p → Inv (step p o)
unfolding step
step-Inv p (acquires attempt_id exclude token now) f v =
    acquire-Inv p attempt_id exclude token now f.0 f.1 v
step-Inv p (releases token) f v = release-Inv p token v
step-Inv p (registers token path) f v = register_pid-Inv p token path v
step-Inv p (beats token now) f v = heartbeat-Inv p token now v
step-Inv p (quarantines host) f v = (quarantine-Quarantined p host v).inv
step-Inv p (sweeps now) f v = (sweep_expired-Swept p now v).inv
step-Inv p (reconciles host) f v = mark_reconciled-Inv p host v

used_of-init : (hosts : Dict ℕ) (ttl : ℕ) (h : Str) → used_of (init hosts ttl) h ≡ []
unfolding init
used_of-init [] ttl h = refl
used_of-init ((k, n) ∷ hosts) ttl h = ground (arith, used_of-init hosts ttl h)

pub init-Inv : (hosts : Dict ℕ) (ttl : ℕ) → Inv (init hosts ttl)
unfolding init
init-Inv hosts ttl = record {
  books = record {
    held = λ h i. ground (arith, used_of-init hosts ttl h);
    counted = λ h. ground (arith, used_of-init hosts ttl h);
    single = λ h i. omega arith;
    within = λ h. omega arith;
    bounded = λ h i le. refl;
    keyed = tt;
    pids = λ t e. refl;
  };
  calm = λ h m. refl;
  parked = λ h m. refl;
}

-- The invariant (a host's used slots are those of its leases, no slot has two, no host more than its
-- slots, a quarantined host none) holds after any history of calls from a pool that has it, if each
-- `acquire` has a name, hosts with names, and a token that no lease has.
pub run-Inv : (p : Pool) (os : List Op) → AreFair p os → Inv p → Inv (run p os)
unfolding run AreFair
run-Inv p [] f v = v
run-Inv p (o ∷ os) f v = run-Inv (step p o) os f.1 (step-Inv p o f.0 v)

one_lease :
    (p : Pool) (t u : Str) (l m : Lease)
    → Inv p
    → get t p.leases ≡ some l
    → get u p.leases ≡ some m
    → l.host ≡ m.host
    → l.slot ≡ m.slot
    → t ≡ u
one_lease p t u l m v e f same_host same_slot = elim (str_discrete t u) [
  | yes same ↦ same
  | no ne ↦ absurd (
      ground (
        arith,
        count_by-get_two (at m.host m.slot) t u l m p.leases ne e f,
        v.books.single m.host m.slot,
      ))
]

-- After any history of calls on a new pool, each `acquire` with names and a token that no lease has:
-- two leases for one slot of a host are the same lease.
pub slot_has_one_lease :
    (hosts : Dict ℕ) (ttl : ℕ) (os : List Op) (t u : Str) (l m : Lease)
    → AreFair (init hosts ttl) os
    → get t (run (init hosts ttl) os).leases ≡ some l
    → get u (run (init hosts ttl) os).leases ≡ some m
    → l.host ≡ m.host
    → l.slot ≡ m.slot
    → t ≡ u
slot_has_one_lease hosts ttl os t u l m f e g =
    one_lease (run (init hosts ttl) os) t u l m (run-Inv (init hosts ttl) os f (init-Inv hosts ttl))
      e g

-- Of a pool with the invariant: the free slots of a host and its leases add up to its slots.
pub free_slot_count_lem :
    (p : Pool) (h : Str) → Inv p → free_slot_count p h + count_by (on h) p.leases ≡ slots_of p h
unfolding free_slot_count
free_slot_count_lem p h v = omega (arith, v.books.counted h, v.books.within h)
