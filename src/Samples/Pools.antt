-- ===== src/Samples/Pools.antt =====
-- A pool of two hosts.
use ray_dispatcher.Base.{
  get, ℕ, ◌≡◌, refl, ◌⊎◌, inl, inr, false, some, List, [], ◌∷◌, arith, null, Str, codes,
  str_discrete, Dict, Elem,
}
use ray_dispatcher.Pool.{
  Lease, Pool, granted, unavailable, candidates, orphan_paths, init, acquire, release, quarantine,
  live_hosts, heartbeat, sweep_expired, register_pid,
}
use ray_dispatcher.Pool.Acquire.{AreNamed, IsFull, Grants, acquire_lem, acquire-Inv}
use ray_dispatcher.Pool.Keep.{register_pid-Inv}
use ray_dispatcher.Pool.Quarantine.{Quarantined, quarantine-Quarantined, Swept, sweep_expired-Swept}
use ray_dispatcher.Pool.Lifetime.{
  Restored, release-acquire, quarantine-stale, register_pid-quarantine, Leaks, acquire-Leaks,
}
use ray_dispatcher.Pool.Invariant.{Inv}
use ray_dispatcher.Pool.History.{
  Op, acquires, registers, beats, sweeps, reconciles, run, AreFair, run-Inv, init-Inv,
  slot_has_one_lease,
}

abbrev two_hosts : Dict ℕ
two_hosts = (codes "a", 1) ∷ (codes "b", 2) ∷ []

abbrev new_pool : Pool
unfolding init
new_pool = init two_hosts 30

named :
    (attempt_id token : Str)
    → null attempt_id ≡ false
    → null token ≡ false
    → AreNamed new_pool attempt_id token
unfolding init live_hosts
named attempt_id token e f = record { hosts = named_host; attempt = e; secret = f }
  where
    named_host : (h : Str) → Elem h (live_hosts new_pool) → null h ≡ false
    named_host h (inl e) = ground arith
    named_host h (inr (inl e)) = ground arith
    named_host h (inr (inr m)) = absurd m

abbrev day : List Op
day =
    acquires (codes "j1") [] (codes "t1") 5
    ∷ registers (codes "t1") (codes "/p")
    ∷ beats (codes "t1") 20
    ∷ sweeps 60
    ∷ reconciles (codes "b")
    ∷ []

day-fair : AreFair new_pool day
unfolding init AreFair
day-fair = ((named (codes "j1") (codes "t1") refl refl, refl), (tt, (tt, (tt, (tt, tt)))))

run-Inv_example : Inv (run new_pool day)
unfolding init
run-Inv_example = run-Inv new_pool day day-fair (init-Inv two_hosts 30)

new_pool-Inv : Inv new_pool
unfolding init
new_pool-Inv = init-Inv two_hosts 30

acquire_lem_example :
    (IsFull new_pool []
      × (acquire new_pool (codes "j1") [] (codes "t1") 5 ≡ (new_pool, unavailable)))
    ⊎ Grants new_pool
        (codes "j1")
        []
        (codes "t1")
        5
        (acquire new_pool (codes "j1") [] (codes "t1") 5)
acquire_lem_example =
    acquire_lem new_pool (codes "j1") [] (codes "t1") 5 (named (codes "j1") (codes "t1") refl refl)

abbrev lease : Lease
lease = record {
  token = codes "t1";
  host = codes "b";
  slot = 0;
  attempt_id = codes "j1";
  expiry_s = 35;
  heartbeat_s = 5;
}

-- The pool with that lease, and a pid path registered for it.
abbrev busy : Pool
unfolding acquire init str_discrete
busy = (acquire new_pool (codes "j1") [] (codes "t1") 5).0

abbrev traced : Pool
unfolding register_pid
traced = register_pid busy (codes "t1") (codes "/p")

-- The lease goes to the host with more free slots.
granted_first : acquire new_pool (codes "j1") [] (codes "t1") 5 ≡ (busy, granted lease)
unfolding acquire init str_discrete
granted_first = refl

busy-lease : get (codes "t1") busy.leases ≡ some lease
unfolding acquire init str_discrete
busy-lease = refl

traced-lease :
    (get (codes "t1") traced.leases ≡ some lease)
    × (get (codes "t1") traced.pid_paths ≡ some (codes "/p"))
unfolding acquire init str_discrete register_pid
traced-lease = (refl, refl)

busy-Inv : Inv busy
unfolding new_pool busy acquire init
busy-Inv =
    acquire-Inv new_pool (codes "j1") [] (codes "t1") 5 (named (codes "j1") (codes "t1") refl refl)
      refl new_pool-Inv

traced-Inv : Inv traced
unfolding traced register_pid
traced-Inv = register_pid-Inv busy (codes "t1") (codes "/p") busy-Inv

abbrev morning : List Op
morning = acquires (codes "j1") [] (codes "t1") 5 ∷ []

slot_has_one_lease_example : codes "t1" ≡ codes "t1"
unfolding run acquire init AreFair str_discrete
slot_has_one_lease_example =
    slot_has_one_lease two_hosts 30 morning (codes "t1") (codes "t1") lease lease
      ((named (codes "j1") (codes "t1") refl refl, refl), tt) refl refl refl refl

quarantine-Quarantined_example : Quarantined traced (quarantine traced (codes "b")) (codes "b")
quarantine-Quarantined_example = quarantine-Quarantined traced (codes "b") traced-Inv

sweep_expired-Swept_example :
    Swept traced (sweep_expired traced 60).0 (sweep_expired traced 60).1 60
sweep_expired-Swept_example = sweep_expired-Swept traced 60 traced-Inv

release-acquire_example : Restored new_pool (release busy (codes "t1"))
unfolding new_pool init
release-acquire_example =
    release-acquire new_pool (codes "j1") [] (codes "t1") 5
      (named (codes "j1") (codes "t1") refl refl) refl new_pool-Inv granted_first

quarantine-stale_example :
    (release (quarantine busy (codes "b")) (codes "t1") ≡ (quarantine busy (codes "b"), false))
    × (heartbeat (quarantine busy (codes "b")) (codes "t1") 20
        ≡ (quarantine busy (codes "b"), false))
    × ((path : Str)
        → register_pid (quarantine busy (codes "b")) (codes "t1") path
          ≡ quarantine busy (codes "b"))
quarantine-stale_example =
    quarantine-stale busy (codes "b") (codes "t1") lease 20 busy-Inv busy-lease refl

register_pid-quarantine_example :
    Elem (codes "/p") (orphan_paths (quarantine traced (codes "b")) (codes "b"))
register_pid-quarantine_example =
    register_pid-quarantine traced (codes "t1") (codes "/p") lease traced-Inv traced-lease.0
      traced-lease.1

acquire-Leaks_example : Leaks new_pool (acquire new_pool [] [] (codes "t1") 5)
unfolding candidates new_pool init str_discrete
acquire-Leaks_example = acquire-Leaks new_pool [] (codes "t1") 5 (codes "a") room
  where
    room : Elem (codes "a") (candidates new_pool [])
    room = inl refl
