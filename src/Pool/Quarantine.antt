-- ===== src/Pool/Quarantine.antt =====
-- What `quarantine` and `sweep_expired` leave behind.
use ray_dispatcher.Base.{
  ℕ, ◌≤◌, ◌<◌, ◌≡◌, ◌≢◌, refl, sym, ◌∙◌, ◌⊎◌, inl, inr, true, false, none, some, List, [], ◌∷◌,
  ◌++◌, arith, leb, ◌||◌, holds, if◌then◌else◌, Bool-cases, Option, Option-cases, Elem, Str,
  str_discrete, mem_str, Elem-mem_str, mem_str-Elem, sort_strs, sort_strs-Elem, sort_strs-IsSorted,
  IsSorted, Dict, get,
}
use ray_dispatcher.Pool.{
  Lease, Pool, tokens_on, drop_leases, add_str, quarantine, quarantine_all, expired_hosts,
  sweep_expired, orphan_paths, used_of,
}
use ray_dispatcher.Pool.Invariant.{Books, Inv}
use ray_dispatcher.Pool.Occupancy.{on, IsKeyed, count_by-get, count_by-eq-zero}
use ray_dispatcher.Pool.Drop.{
  paths_of, mem_str-add_str, mem_str-tokens_on, drop_leases-Dropped, tokens_on-IsDistinct,
  tokens_on-AreLeased, drop_leases-orphans, drop_leases-used, tokens_on-AreOn,
}

-- What `quarantine` leaves behind.
pub record Quarantined (p q : Pool) (host : Str) : Type 0 where
  pub inv : Inv q
  -- the leases on the host are gone, all others stay as they were
  pub gone :
      (t : Str)
      → get t q.leases ≡ (elim (get t p.leases) [
        | none ↦ none
        | some l ↦ if holds (str_discrete l.host host) then none else some l
      ])
  -- their pid paths join the host's orphans, in the order of the leases
  pub orphaned :
      orphan_paths q host ≡ orphan_paths p host ++ paths_of p.pid_paths (tokens_on host p.leases)
  pub elsewhere : (h : Str) → h ≢ host → orphan_paths q h ≡ orphan_paths p h
  pub marked :
      (h : Str) → mem_str h q.quarantined ≡ (holds (str_discrete host h) || mem_str h p.quarantined)
  -- the pid paths of other tokens, and the used slots of other hosts
  pub pid_paths :
      (t : Str)
      → mem_str t (tokens_on host p.leases) ≡ false
      → get t q.pid_paths ≡ get t p.pid_paths
  pub used : (h : Str) → h ≢ host → used_of q h ≡ used_of p h
  pub slots : q.slots ≡ p.slots
  pub healthy : q.healthy ≡ p.healthy
  pub ttl : q.ttl ≡ p.ttl

-- Of a pool with the invariant: `quarantine` drops exactly the leases on the host, moves their pid
-- paths to the host's orphans, marks the host, leaves all else as it was, and keeps the invariant.
pub quarantine-Quarantined :
    (p : Pool) (host : Str) → Inv p → Quarantined p (quarantine p host) host
unfolding quarantine orphan_paths
quarantine-Quarantined p host v =
    let marked : Pool = record p { quarantined = add_str host p.quarantined } in
    let b : Books marked = record {
      held = v.books.held;
      counted = v.books.counted;
      single = v.books.single;
      within = v.books.within;
      bounded = v.books.bounded;
      keyed = v.books.keyed;
      pids = v.books.pids;
    } in
    let ts = tokens_on host p.leases in
    let d = drop_leases-Dropped marked host ts b in
    let q = drop_leases marked host ts in
    let gone : (t : Str)
        → get t q.leases ≡ (elim (get t p.leases) [
          | none ↦ none
          | some l ↦ if holds (str_discrete l.host host) then none else some l
        ]) =
      λ t. ground (arith, d.gone t, mem_str-tokens_on host t p.leases v.books.keyed) in
    let shown : (h : Str)
        → mem_str h q.quarantined ≡ (holds (str_discrete host h) || mem_str h p.quarantined) =
      λ h. ground (arith, d.quarantined, mem_str-add_str host h p.quarantined) in
    record {
      inv = record {
        books = d.books;
        calm = λ h m.
            count_by-eq-zero (on h) q.leases d.books.keyed (λ t l e.
              ground (arith, gone t, shown h, v.calm h, count_by-get (on h) t l p.leases));
        parked = λ h m. ground (arith, shown h, d.elsewhere h, v.parked h);
      };
      gone = gone;
      orphaned =
          drop_leases-orphans marked host ts b (tokens_on-IsDistinct host p.leases v.books.keyed)
            (tokens_on-AreLeased host p.leases v.books.keyed);
      elsewhere = λ h ne. ground (arith, d.elsewhere h ne);
      marked = shown;
      pid_paths = d.pids;
      used = λ h ne.
          drop_leases-used marked host ts h b (tokens_on-AreOn host p.leases v.books.keyed) ne;
      slots = d.slots;
      healthy = d.healthy;
      ttl = d.ttl;
    }

-- A lease on the host that has run out.
pub record Overdue (d : Dict Lease) (now : ℕ) (host : Str) : Type 0 where
  pub token : Str
  pub lease : Lease
  pub held : get token d ≡ some lease
  pub here : lease.host ≡ host
  pub late : lease.expiry_s ≤ now

expired_hosts-Overdue :
    (now : ℕ) (h : Str) (d : Dict Lease)
    → IsKeyed d
    → mem_str h (expired_hosts now d) ≡ true
    → Overdue d now h
unfolding expired_hosts
expired_hosts-Overdue now h [] k m = cc
expired_hosts-Overdue now h ((s, l) ∷ d) k m = elim (dec_late l) [
  | inl (q, e) ↦ record { token = s; lease = l; held = ground arith; here = e; late = q }
  | inr n ↦
      let o =
        expired_hosts-Overdue now h d k.2
          (ground (arith, mem_str-add_str l.host h (expired_hosts now d))) in
      record {
        token = o.token;
        lease = o.lease;
        held = ground (arith, o.held);
        here = o.here;
        late = o.late;
      }
]
  where
    dec_late :
        (l : Lease)
        → ((l.expiry_s ≤ now) × (l.host ≡ h)) ⊎ ((leb l.expiry_s now ≡ false) ⊎ (l.host ≢ h))
    dec_late l = elim (str_discrete l.host h) [ yes e ↦ ground arith | no n ↦ inr (inr n) ]

Overdue-expired_hosts :
    (now : ℕ) (t : Str) (l : Lease) (d : Dict Lease)
    → get t d ≡ some l
    → l.expiry_s ≤ now
    → mem_str l.host (expired_hosts now d) ≡ true
unfolding expired_hosts
Overdue-expired_hosts now t l [] e q = cc
Overdue-expired_hosts now t l ((s, m) ∷ d) e q =
    ground
      (arith, Overdue-expired_hosts now t l d, mem_str-add_str m.host l.host (expired_hosts now d))

-- What is left under a token when the leases of some hosts are dropped.
abbrev pub spared : List Str → Option Lease → Option Lease
spared hosts none = none
spared hosts (some l) = if mem_str l.host hosts then none else some l

record SweptAway (p q : Pool) (hosts : List Str) : Type 0 where
  inv : Inv q
  left : (t : Str) → get t q.leases ≡ spared hosts (get t p.leases)
  marked : (h : Str) → mem_str h q.quarantined ≡ (mem_str h hosts || mem_str h p.quarantined)

quarantine_all-SweptAway :
    (p : Pool) (hosts : List Str) → Inv p → SweptAway p (quarantine_all p hosts) hosts
unfolding quarantine_all
quarantine_all-SweptAway p [] v = record { inv = v; left = λ t. ground arith; marked = λ h. refl }
quarantine_all-SweptAway p (h ∷ hs) v =
    let one = quarantine-Quarantined p h v in
    let rest = quarantine_all-SweptAway (quarantine p h) hs one.inv in
    record {
      inv = rest.inv;
      left = λ t. ground (arith, rest.left t, one.gone t);
      marked = λ k. ground (arith, rest.marked k, one.marked k);
    }

-- What `sweep_expired` leaves behind and returns.
pub record Swept (p q : Pool) (hosts : List Str) (now : ℕ) : Type 0 where
  pub inv : Inv q
  -- no expired lease is left
  pub live : (t : Str) (l : Lease) → get t q.leases ≡ some l → now < l.expiry_s
  -- every lease on a host with an expired one is gone, all others stay
  pub left : (t : Str) → get t q.leases ≡ spared hosts (get t p.leases)
  -- the hosts returned are those with an expired lease, in order
  pub overdue : (h : Str) → Elem h hosts → Overdue p.leases now h
  pub reported :
      (t : Str) (l : Lease) → get t p.leases ≡ some l → l.expiry_s ≤ now → Elem l.host hosts
  pub sorted : IsSorted hosts
  pub marked : (h : Str) → mem_str h q.quarantined ≡ (mem_str h hosts || mem_str h p.quarantined)

mem_str-sort_strs : (h : Str) (hs : List Str) → mem_str h (sort_strs hs) ≡ mem_str h hs
mem_str-sort_strs h hs = elim (Bool-cases (mem_str h hs)) [
  | inl y ↦ Elem-mem_str h (sort_strs hs) ((sort_strs-Elem h hs).1 (mem_str-Elem h hs y)) ∙ sym y
  | inr n ↦ elim (Bool-cases (mem_str h (sort_strs hs))) [
    | inl z ↦ absurd (
        ground
          (arith, Elem-mem_str h hs ((sort_strs-Elem h hs).0 (mem_str-Elem h (sort_strs hs) z))))
    | inr z ↦ z ∙ sym n
  ]
]

-- Of a pool with the invariant: `sweep_expired` returns exactly the hosts with an expired lease,
-- sorted; it quarantines these and drops all leases on them and no other; no expired lease is left.
pub sweep_expired-Swept :
    (p : Pool) (now : ℕ) → Inv p → Swept p (sweep_expired p now).0 (sweep_expired p now).1 now
unfolding sweep_expired
sweep_expired-Swept p now v =
    let hs = expired_hosts now p.leases in
    let s = quarantine_all-SweptAway p hs v in
    record {
      inv = s.inv;
      live = λ t l e. elim (Bool-cases (leb l.expiry_s now)) [
        | inl late ↦ absurd (ground (arith, s.left t, Overdue-expired_hosts now t l p.leases))
        | inr ok ↦ ground arith
      ];
      left = λ t. elim (Option-cases (get t p.leases)) [
        | inl e ↦ ground (arith, s.left t)
        | inr (l, e) ↦ ground (arith, s.left t, mem_str-sort_strs l.host hs)
      ];
      overdue = λ h m.
          expired_hosts-Overdue now h p.leases v.books.keyed
            (Elem-mem_str h hs ((sort_strs-Elem h hs).0 m));
      reported = λ t l e q.
          (sort_strs-Elem l.host hs).1
            (mem_str-Elem l.host hs (Overdue-expired_hosts now t l p.leases e q));
      sorted = sort_strs-IsSorted hs;
      marked = λ h. ground (arith, s.marked h, mem_str-sort_strs h hs);
    }
