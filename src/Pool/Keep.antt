-- ===== src/Pool/Keep.antt =====
-- The other operations of a pool keep its invariant.
use ray_dispatcher.Base.{
  ℕ, ◌+◌, ◌≡◌, refl, inl, inr, false, not, some, List, [], ◌∷◌, arith, leb, holds, if◌then◌else◌,
  filter, Bool-cases, Option-cases, Str, str_discrete, mem_str, get, put, get-put, get-del,
}
use ray_dispatcher.Pool.{Lease, Pool, free_slot, release, register_pid, heartbeat, mark_reconciled}
use ray_dispatcher.Pool.Invariant.{Inv, drop-Books}
use ray_dispatcher.Pool.Occupancy.{at, on, count_by-put_old, put-IsKeyed, get-IsKeyed, count_by-del}

pub release-Inv : (p : Pool) (token : Str) → Inv p → Inv (release p token).0
unfolding release free_slot
release-Inv p token v = elim (Option-cases (get token p.leases)) [
  | inl e ↦ rw (e, release) v
  | inr (l, e) ↦
      rw (e, release)
        (record {
          books = drop-Books p token l v.books e;
          calm = λ h q.
              ground (arith, v.calm h q, count_by-del (on h) token l p.leases v.books.keyed e);
          parked = v.parked;
        })
]

pub register_pid-Inv : (p : Pool) (token path : Str) → Inv p → Inv (register_pid p token path)
unfolding register_pid
register_pid-Inv p token path v = elim (Option-cases (get token p.leases)) [
  | inl e ↦ rw (e, register_pid) v
  | inr (l, e) ↦
      rw (e, register_pid)
        (record {
          books = record {
            held = v.books.held;
            counted = v.books.counted;
            single = v.books.single;
            within = v.books.within;
            bounded = v.books.bounded;
            keyed = v.books.keyed;
            pids = λ t q. ground (arith, get-put token t path p.pid_paths, v.books.pids t);
          };
          calm = v.calm;
          parked = v.parked;
        })
]

module _ (p : Pool) (token : Str) (l m : Lease) (v : Inv p) (e : get token p.leases ≡ some l)
    (same_token : m.token ≡ l.token) (same_host : m.host ≡ l.host)
    (same_slot : m.slot ≡ l.slot) where
  renewed-Inv : Inv (record p { leases = put token m p.leases })
  renewed-Inv = record {
    books = record {
      held =
          λ h i. ground (arith, v.books.held h i, count_by-put_old (at h i) token m l p.leases e);
      counted =
          λ h. ground (arith, v.books.counted h, count_by-put_old (on h) token m l p.leases e);
      single =
          λ h i. ground (arith, v.books.single h i, count_by-put_old (at h i) token m l p.leases e);
      within = λ h. ground (arith, v.books.within h, count_by-put_old (on h) token m l p.leases e);
      bounded = λ h i q.
          ground (arith, v.books.bounded h i q, count_by-put_old (at h i) token m l p.leases e);
      keyed =
          put-IsKeyed token m p.leases
            (ground (arith, get-IsKeyed token l p.leases v.books.keyed e)) v.books.keyed;
      pids = λ t q. ground (arith, get-put token t m p.leases, v.books.pids t);
    };
    calm = λ h q. ground (arith, v.calm h q, count_by-put_old (on h) token m l p.leases e);
    parked = v.parked;
  }

pub heartbeat-Inv : (p : Pool) (token : Str) (now : ℕ) → Inv p → Inv (heartbeat p token now).0
unfolding heartbeat
heartbeat-Inv p token now v = elim (Option-cases (get token p.leases)) [
  | inl e ↦ rw (e, heartbeat) v
  | inr (l, e) ↦ elim (Bool-cases (leb l.expiry_s now)) [
    | inl late ↦ rw (e, heartbeat, late) v
    | inr live ↦
        rw (e, heartbeat, live)
          (renewed-Inv p token l (record l { heartbeat_s = now; expiry_s = now + p.ttl }) v e refl
            refl refl)
  ]
]

mem_str-remove :
    (h k : Str) (ks : List Str)
    → mem_str k (filter (λ j. not (holds (str_discrete j h))) ks)
      ≡ (if holds (str_discrete h k) then false else mem_str k ks)
mem_str-remove h k [] = ground arith
mem_str-remove h k (j ∷ ks) = ground (arith, mem_str-remove h k ks)

pub mark_reconciled-Inv : (p : Pool) (host : Str) → Inv p → Inv (mark_reconciled p host)
unfolding mark_reconciled
mark_reconciled-Inv p host v = record {
  books = record {
    held = v.books.held;
    counted = v.books.counted;
    single = v.books.single;
    within = v.books.within;
    bounded = v.books.bounded;
    keyed = v.books.keyed;
    pids = v.books.pids;
  };
  calm = λ h m. ground (arith, mem_str-remove host h p.quarantined, v.calm h);
  parked = λ h m.
      ground (arith, mem_str-remove host h p.quarantined, get-del host h p.orphans, v.parked h);
}
