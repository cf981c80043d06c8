-- ===== src/Pool/Acquire.antt =====
-- What `acquire` returns, on every branch, and that it keeps the invariant.
use ray_dispatcher.Base.{
  null, ℕ, ◌+◌, ◌<◌, ◌≡◌, refl, sym, subst, ◌⊎◌, inl, inr, true, false, not, none, some, List, [],
  ◌∷◌, arith, ltb, filter, Bool, ◌↔◌, Bool-cases, length, Elem, Elem-filter, filter-Elem, Str,
  mem_str, IsSorted, sort_strs, sort_strs-IsSorted, sort_strs-Elem, get,
}
use ray_dispatcher.Pool.{
  Lease, Pool, slots_of, used_of, live_hosts, free_slot_count, drawn, candidates, max_by, Acquired,
  granted, unavailable, acquire, acquire_on, choose, grant, first_free, mem_nat,
}
use ray_dispatcher.Pool.Slots.{first_free-some, first_free-found}
use ray_dispatcher.Pool.Invariant.{Inv, after_grant, grant-Books}
use ray_dispatcher.Pool.Occupancy.{on, count_by-put_new}
use ray_dispatcher.Pool.Choice.{IsBest, max_by_lem}

-- The lease that `acquire` makes of a host and a slot.
abbrev pub lease_of : Pool → Str → ℕ → Str → Str → ℕ → Lease
lease_of p host slot attempt_id token now = record {
  token = token;
  host = host;
  slot = slot;
  attempt_id = attempt_id;
  expiry_s = now + p.ttl;
  heartbeat_s = now;
}

-- A slot of a host that `acquire` may take.
pub record Choice (p : Pool) (exclude : List Str) (host : Str) (slot : ℕ) : Type 0 where
  pub live : Elem host (live_hosts p)
  pub room : length (used_of p host) < slots_of p host
  -- an excluded host only if every live host is excluded
  pub untried :
      mem_str host exclude ≡ true → (h : Str) → Elem h (live_hosts p) → mem_str h exclude ≡ true
  -- most free slots, and the least label of those
  pub best : IsBest (free_slot_count p) host (candidates p exclude)
  pub small : slot < slots_of p host
  pub free : mem_nat slot (used_of p host) ≡ false
  pub lowest : (i : ℕ) → i < slot → mem_nat i (used_of p host) ≡ true

null-filter :
    (f : Str → Bool) (a : Str) (xs : List Str) → null (filter f xs) ≡ true → Elem a xs → f a ≡ false
null-filter f a [] e m = absurd m
null-filter f a (x ∷ xs) e m = ground (arith, null-filter f a xs)

drawn-live :
    (p : Pool) (exclude : List Str) (h : Str)
    → Elem h (drawn p exclude)
    → Elem h (live_hosts p)
      × (mem_str h exclude ≡ true → (k : Str) → Elem k (live_hosts p) → mem_str k exclude ≡ true)
unfolding drawn
drawn-live p exclude h m =
    let f = λ (k : Str). not (mem_str k exclude) in
    elim (Bool-cases (null (filter f (live_hosts p)))) [
      | inl none_left ↦
          (ground arith, λ _ k i. ground (arith, null-filter f k (live_hosts p) none_left i))
      | inr some_left ↦
          let kept : Elem h (filter f (live_hosts p)) = ground arith in
          let (member, new) = Elem-filter f h (live_hosts p) kept in
          (member, λ old. absurd (ground arith))
    ]

pub candidates-drawn :
    (p : Pool) (exclude : List Str) (h : Str)
    → Elem h (candidates p exclude) ↔ (Elem h (drawn p exclude) × (0 < free_slot_count p h))
unfolding candidates
candidates-drawn p exclude h =
    let f = λ (k : Str). ltb 0 (free_slot_count p k) in
    (
      λ m. let (member, room) = Elem-filter f h (drawn p exclude) m in (member, ground arith),
      λ m. filter-Elem f h (drawn p exclude) m.0 (ground arith),
    )

-- Every text that goes into a lease is there, as `Lease` demands.
pub record AreNamed (p : Pool) (attempt_id token : Str) : Type 0 where
  pub hosts : (h : Str) → Elem h (live_hosts p) → null h ≡ false
  pub attempt : null attempt_id ≡ false
  pub secret : null token ≡ false

-- No host of those that `acquire` draws from has a free slot.
abbrev pub IsFull : Pool → List Str → Type 0
IsFull p exclude = (h : Str) → Elem h (drawn p exclude) → free_slot_count p h ≡ 0

module _ (p : Pool) (attempt_id : Str) (exclude : List Str) (token : Str) (now : ℕ) where
  -- The lease is made of a choice; the pool gains it and its slot.
  pub record Grants (r : Pool × Acquired) : Type 0 where
    pub host : Str
    pub slot : ℕ
    pub choice : Choice p exclude host slot
    pub made : r ≡ (
      after_grant p (lease_of p host slot attempt_id token now),
      granted (lease_of p host slot attempt_id token now),
    )

  choose-IsFull : candidates p exclude ≡ [] → IsFull p exclude
  choose-IsFull e h m = elim (Bool-cases (ltb 0 (free_slot_count p h))) [
    | inl room ↦
        let c : Elem h [] = subst (Elem h) e ((candidates-drawn p exclude h).1 (m, ground arith)) in
        absurd c
    | inr full ↦ ground arith
  ]

  acquire_on-made :
      AreNamed p attempt_id token
      → (host : Str) → (slot : ℕ) → Elem host (live_hosts p)
      → first_free (slots_of p host) 0 (used_of p host) ≡ some slot
      → acquire_on p host attempt_id token now ≡ (
        after_grant p (lease_of p host slot attempt_id token now),
        granted (lease_of p host slot attempt_id token now),
      )
  unfolding acquire_on grant
  acquire_on-made n host slot live found =
      rw (found, acquire_on, n.secret, n.hosts host live, n.attempt) refl

  -- A host that stands first among the sorted candidates is leased.
  acquire_on-Grants :
      AreNamed p attempt_id token
      → (host : Str) → Elem host (candidates p exclude)
      → IsBest (free_slot_count p) host (candidates p exclude)
      → Grants (acquire_on p host attempt_id token now)
  unfolding free_slot_count
  acquire_on-Grants n host m best =
      let (member, open_slot) = (candidates-drawn p exclude host).0 m in
      let (live, untried) = drawn-live p exclude host member in
      let room : length (used_of p host) < slots_of p host = omega arith in
      let (slot, found) = first_free-found (slots_of p host) (used_of p host) room in
      let (_, small, free, lowest) = first_free-some (slots_of p host) 0 (used_of p host) found in
      record {
        host = host;
        slot = slot;
        choice = record {
          live = live;
          room = room;
          untried = untried;
          best = best;
          small = omega arith;
          free = free;
          lowest = λ i lt. lowest i (omega arith) lt;
        };
        made = acquire_on-made n host slot live found;
      }

  choose-cases :
      AreNamed p attempt_id token
      → (hs : List Str) → sort_strs (candidates p exclude) ≡ hs
      → ((hs ≡ []) × (choose p hs attempt_id token now ≡ (p, unavailable)))
        ⊎ Grants (choose p hs attempt_id token now)
  unfolding choose
  choose-cases n [] e = inl (refl, refl)
  choose-cases n (h ∷ hs) e =
      let sorted : IsSorted (h ∷ hs) =
        subst IsSorted e (sort_strs-IsSorted (candidates p exclude)) in
      let (member, best) = max_by_lem (free_slot_count p) h hs sorted in
      let host = max_by (free_slot_count p) h hs in
      inr (
        acquire_on-Grants n host
          ((sort_strs-Elem host (candidates p exclude)).0 (subst (Elem host) (sym e) member))
          (λ k m. best k (subst (Elem k) e ((sort_strs-Elem k (candidates p exclude)).1 m))))

  pub sort_strs-eq-nil : sort_strs (candidates p exclude) ≡ [] → IsFull p exclude
  sort_strs-eq-nil e h m = elim (Bool-cases (ltb 0 (free_slot_count p h))) [
    | inl room ↦
        let c : Elem h [] = subst (Elem h) e (
          (sort_strs-Elem h (candidates p exclude)).1
            ((candidates-drawn p exclude h).1 (m, ground arith))) in
        absurd c
    | inr full ↦ ground arith
  ]

  -- With names for the hosts, the attempt and the token: `acquire` returns None, changing nothing, if no host that it draws from has a free slot, and
  -- otherwise leases the lowest free slot of the host with most free slots.
  pub acquire_lem :
      AreNamed p attempt_id token
      → (IsFull p exclude × (acquire p attempt_id exclude token now ≡ (p, unavailable)))
        ⊎ Grants (acquire p attempt_id exclude token now)
  unfolding acquire
  acquire_lem n = elim (choose-cases n (sort_strs (candidates p exclude)) refl) [
    | inl (e, q) ↦ inl (sort_strs-eq-nil e, q)
    | inr g ↦ inr g
  ]

live_hosts-calm : (p : Pool) (h : Str) → Elem h (live_hosts p) → mem_str h p.quarantined ≡ false
unfolding live_hosts
live_hosts-calm p h m =
    ground (arith, Elem-filter (λ k. not (mem_str k p.quarantined)) h p.healthy m)

-- `acquire` keeps the invariant, under a token that no lease has.
pub acquire-Inv :
    (p : Pool) (attempt_id : Str) (exclude : List Str) (token : Str) (now : ℕ)
    → AreNamed p attempt_id token
    → get token p.leases ≡ none
    → Inv p
    → Inv (acquire p attempt_id exclude token now).0
acquire-Inv p attempt_id exclude token now n fresh v =
    elim (acquire_lem p attempt_id exclude token now n) [
      | inl (_, e) ↦ subst (λ r. Inv r.0) (sym e) v
      | inr g ↦
          let l = lease_of p g.host g.slot attempt_id token now in
          let c = g.choice in
          subst (λ r. Inv r.0) (sym g.made)
            (record {
              books = grant-Books p l v.books c.room c.free c.small fresh;
              calm = λ h q. ground (
                arith,
                live_hosts-calm p g.host c.live,
                v.calm h q,
                count_by-put_new (on h) token l p.leases fresh,
              );
              parked = v.parked;
            })
    ]
