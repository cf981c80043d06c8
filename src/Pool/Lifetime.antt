-- ===== src/Pool/Lifetime.antt =====
-- What happens to one lease: from the grant to the release, the heartbeat or the quarantine.
use ray_dispatcher.Base.{
  ℕ, ◌+◌, ◌≤◌, ◌<◌, ◌≡◌, ◌≢◌, ◌⊎◌, refl, sym, ap, subst, ◌∙◌, inl, inr, true, false, Bool, none,
  some, List, [], ◌∷◌, ◌++◌, arith, leb, length, Elem, Str, str_discrete, mem_str, Dict, get, put,
  del, get_or, get-put, get-del, get-del, ite, Option-cases, Bool-cases, sort_strs, sort_strs-Elem,
  sort_strs-IsSorted, IsSorted,
}
use ray_dispatcher.Pool.{
  Lease, Pool, Acquired, granted, invalid, slots_of, used_of, free_slot_count, acquire, acquire_on,
  choose, candidates, max_by, grant, first_free, release, register_pid, heartbeat, quarantine,
  orphan_paths, discard, free_slot, mem_nat, tokens_on,
}
use ray_dispatcher.Pool.Slots.{first_free-found}
use ray_dispatcher.Pool.Invariant.{Inv, after_grant}
use ray_dispatcher.Pool.Choice.{max_by_lem}
use ray_dispatcher.Pool.Acquire.{AreNamed, candidates-drawn, acquire_lem, lease_of}
use ray_dispatcher.Pool.Quarantine.{quarantine-Quarantined}
use ray_dispatcher.Pool.Drop.{paths_of, mem_str-tokens_on}

del-put_new : (t : Str) (l : Lease) (d : Dict Lease) → get t d ≡ none → del t (put t l d) ≡ d
del-put_new t l [] e = ground arith
del-put_new t l ((s, m) ∷ d) e = ground (arith, del-put_new t l d)

discard-absent : (i : ℕ) (us : List ℕ) → mem_nat i us ≡ false → discard i us ≡ us
unfolding discard
discard-absent i [] e = refl
discard-absent i (j ∷ us) e = ground (arith, discard-absent i us)

get_or-put :
    (h k : Str) (us : List ℕ) (d : Dict (List ℕ))
    → get_or (get k (put h us d)) [] ≡ ite (str_discrete h k) us (get_or (get k d) [])
get_or-put h k us d = ground (arith, get-put h k us d)

-- The pool after a lease is granted and released.
pub record Restored (p : Pool) (r : Pool × Bool) : Type 0 where
  pub done : r.1 ≡ true
  pub leases : r.0.leases ≡ p.leases
  pub used : (h : Str) → used_of r.0 h ≡ used_of p h
  pub slots : r.0.slots ≡ p.slots
  pub healthy : r.0.healthy ≡ p.healthy
  pub quarantined : r.0.quarantined ≡ p.quarantined
  pub ttl : r.0.ttl ≡ p.ttl
  pub pid_paths : (t : Str) → get t r.0.pid_paths ≡ get t p.pid_paths
  pub orphans : r.0.orphans ≡ p.orphans

release-after_grant :
    (p : Pool) (l : Lease)
    → get l.token p.leases ≡ none
    → get l.token p.pid_paths ≡ none
    → mem_nat l.slot (used_of p l.host) ≡ false
    → Restored p (release (after_grant p l) l.token)
unfolding release free_slot discard
release-after_grant p l fresh bare free =
    let found : get l.token (put l.token l p.leases) ≡ some l =
      ground (arith, get-put l.token l.token l p.leases) in
    rw (found, release)
      (record {
        done = refl;
        leases = del-put_new l.token l p.leases fresh;
        used = λ h. ground (
          arith,
          get_or-put l.host h (l.slot ∷ used_of p l.host) p.used,
          get_or-put l.host l.host (l.slot ∷ used_of p l.host) p.used,
          get_or-put l.host h (discard l.slot (used_of (after_grant p l) l.host))
              (after_grant p l).used,
          discard-absent l.slot (used_of p l.host) free,
        );
        slots = refl;
        healthy = refl;
        quarantined = refl;
        ttl = refl;
        pid_paths = λ t. ground (arith, get-del l.token t p.pid_paths);
        orphans = refl;
      })

-- With names and a fresh token, of a pool with the invariant: releasing the lease that `acquire` just
-- granted brings the pool back, each table as it is looked up.
pub release-acquire :
    (p : Pool) (attempt_id : Str) (exclude : List Str) (token : Str) (now : ℕ) {q : Pool}
    {l : Lease}
    → AreNamed p attempt_id token
    → get token p.leases ≡ none
    → Inv p
    → acquire p attempt_id exclude token now ≡ (q, granted l)
    → Restored p (release q l.token)
release-acquire p attempt_id exclude token now {q} {l} n fresh v e =
    elim (acquire_lem p attempt_id exclude token now n) [
      | inl (_, f) ↦ cc
      | inr g ↦
          let m = lease_of p g.host g.slot attempt_id token now in
          let same : (q ≡ after_grant p m) × (l ≡ m) = ground (arith, g.made) in
          subst (λ x. Restored p (release x l.token)) (sym same.0)
            (subst (λ (x : Lease). Restored p (release (after_grant p m) x.token)) (sym same.1)
              (release-after_grant p m fresh (v.books.pids token fresh) g.choice.free))
    ]

-- A heartbeat that arrives in time.
pub record Beats (p : Pool) (token : Str) (now : ℕ) (r : Pool × Bool) : Type 0 where
  pub lease : Lease
  pub held : get token p.leases ≡ some lease
  pub in_time : now < lease.expiry_s
  pub done : r.1 ≡ true
  pub renewed :
      get token r.0.leases ≡ some (record lease { heartbeat_s = now; expiry_s = now + p.ttl })
  pub others : (u : Str) → u ≢ token → get u r.0.leases ≡ get u p.leases
  pub used : r.0.used ≡ p.used

-- No lease has the token, or its lease has run out.
abbrev pub IsLate : Pool → Str → ℕ → Type 0
IsLate p token now = (l : Lease) → get token p.leases ≡ some l → l.expiry_s ≤ now

-- `heartbeat` renews the lease of a token that has not run out and touches no other lease and no
-- slot; it returns false and changes nothing for any other token.
pub heartbeat_lem :
    (p : Pool) (token : Str) (now : ℕ)
    → Beats p token now (heartbeat p token now)
      ⊎ (IsLate p token now × (heartbeat p token now ≡ (p, false)))
unfolding heartbeat
heartbeat_lem p token now = elim (Option-cases (get token p.leases)) [
  | inl e ↦ inr (λ l q. cc, rw (e, heartbeat) refl)
  | inr (l, e) ↦ elim (Bool-cases (leb l.expiry_s now)) [
    | inl late ↦ inr (λ m q. ground arith, rw (e, heartbeat, late) refl)
    | inr live ↦ inl (record {
      lease = l;
      held = e;
      in_time = ground arith;
      done = rw (e, heartbeat, live) refl;
      renewed =
          rw (e, heartbeat, live)
            (ground (
              arith,
              get-put token token (record l { heartbeat_s = now; expiry_s = now + p.ttl }) p.leases,
            ));
      others = λ u ne.
          rw (e, heartbeat, live)
            (ground (
              arith,
              get-put token u (record l { heartbeat_s = now; expiry_s = now + p.ttl }) p.leases,
            ));
      used = rw (e, heartbeat, live) refl;
    })
  ]
]

-- Of a pool with the invariant: once a lease's host is quarantined, `release` and `heartbeat` of its
-- token answer false and change nothing, and `register_pid` changes nothing.
pub quarantine-stale :
    (p : Pool) (host token : Str) (l : Lease) (now : ℕ)
    → Inv p
    → get token p.leases ≡ some l
    → l.host ≡ host
    → let q = quarantine p host in
      (release q token ≡ (q, false))
      × (heartbeat q token now ≡ (q, false))
      × ((path : Str) → register_pid q token path ≡ q)
unfolding release heartbeat register_pid
quarantine-stale p host token l now v e here =
    let gone : get token (quarantine p host).leases ≡ none =
      ground (arith, (quarantine-Quarantined p host v).gone token) in
    (rw (gone, release) refl, rw (gone, heartbeat) refl, λ path. rw (gone, register_pid) refl)

Elem-append_right : (a : Str) (xs ys : List Str) → Elem a ys → Elem a (xs ++ ys)
Elem-append_right a [] ys m = m
Elem-append_right a (x ∷ xs) ys m = inr (Elem-append_right a xs ys m)

Elem-paths_of :
    (t path : Str) (pids : Dict Str) (ts : List Str)
    → mem_str t ts ≡ true
    → get t pids ≡ some path
    → Elem path (paths_of pids ts)
Elem-paths_of t path pids [] m e = cc
Elem-paths_of t path pids (s ∷ ts) m e = ground (arith, Elem-paths_of t path pids ts)

-- Of a pool with the invariant: a pid path that is registered for a lease is among the host's orphans after `quarantine`.
pub register_pid-quarantine :
    (p : Pool) (token path : Str) (l : Lease)
    → Inv p
    → get token p.leases ≡ some l
    → get token p.pid_paths ≡ some path
    → Elem path (orphan_paths (quarantine p l.host) l.host)
register_pid-quarantine p token path l v e f =
    let m : mem_str token (tokens_on l.host p.leases) ≡ true =
      ground (arith, mem_str-tokens_on l.host token p.leases v.books.keyed) in
    subst (Elem path) (sym (quarantine-Quarantined p l.host v).orphaned) (
      Elem-append_right path (orphan_paths p l.host)
        (paths_of p.pid_paths (tokens_on l.host p.leases))
        (Elem-paths_of token path p.pid_paths (tokens_on l.host p.leases) m f))

-- A lease refused after its slot was taken.
pub record Leaks (p : Pool) (r : Pool × Acquired) : Type 0 where
  pub host : Str
  pub failed : r.1 ≡ invalid
  pub leases : r.0.leases ≡ p.leases
  pub used : length (used_of r.0 host) ≡ length (used_of p host) + 1

acquire_on-Leaks :
    (p : Pool) (host token : Str) (now : ℕ)
    → 0 < free_slot_count p host
    → Leaks p (acquire_on p host [] token now)
unfolding free_slot_count acquire_on grant
acquire_on-Leaks p host token now room =
    let (slot, found) = first_free-found (slots_of p host) (used_of p host) (omega arith) in
    let r = acquire_on p host [] token now in
    let made : r ≡ (record p { used = put host (slot ∷ used_of p host) p.used }, invalid) =
      refused slot found in
    record {
      host = host;
      failed = ap (λ x. x.1) made;
      leases = ap (λ x. x.0.leases) made;
      used =
          ap (λ x. length (used_of x.0 host)) made
          ∙ ground (arith, get_or-put host host (slot ∷ used_of p host) p.used);
    }
  where
    refused :
        (slot : ℕ)
        → first_free (slots_of p host) 0 (used_of p host) ≡ some slot
        → acquire_on p host [] token now
          ≡ (record p { used = put host (slot ∷ used_of p host) p.used }, invalid)
    refused slot found = rw (found, acquire_on) (ground arith)

choose-Leaks :
    (p : Pool) (exclude : List Str) (token : Str) (now : ℕ) (h : Str)
    → Elem h (candidates p exclude)
    → (hs : List Str) → sort_strs (candidates p exclude) ≡ hs
    → Leaks p (choose p hs [] token now)
unfolding choose
choose-Leaks p exclude token now h m [] e =
    let c : Elem h [] = subst (Elem h) e ((sort_strs-Elem h (candidates p exclude)).1 m) in absurd c
choose-Leaks p exclude token now h m (k ∷ ks) e =
    let host = max_by (free_slot_count p) k ks in
    let sorted : IsSorted (k ∷ ks) = subst IsSorted e (sort_strs-IsSorted (candidates p exclude)) in
    let (member, _) = max_by_lem (free_slot_count p) k ks sorted in
    let drawn =
      (candidates-drawn p exclude host).0
        ((sort_strs-Elem host (candidates p exclude)).0 (subst (Elem host) (sym e) member)) in
    acquire_on-Leaks p host token now drawn.1

-- While some host has a free slot for it, `acquire` under an empty attempt id raises an error and
-- makes no lease, and yet some host has one used slot more.
pub acquire-Leaks :
    (p : Pool) (exclude : List Str) (token : Str) (now : ℕ) (h : Str)
    → Elem h (candidates p exclude)
    → Leaks p (acquire p [] exclude token now)
unfolding acquire
acquire-Leaks p exclude token now h m =
    choose-Leaks p exclude token now h m (sort_strs (candidates p exclude)) refl
