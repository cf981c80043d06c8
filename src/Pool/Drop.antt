-- ===== src/Pool/Drop.antt =====
-- The loop of `quarantine` over the leases of one host.
use ray_dispatcher.Base.{
  IsDistinct, ◌≡◌, ◌≢◌, refl, sym, ◌∙◌, inl, inr, true, false, none, some, List, [], ◌∷◌, ◌++◌,
  arith, ◌||◌, holds, if◌then◌else◌, Option-cases, Str, str_discrete, mem_str, mem_str-append, Dict,
  get, get_or, get-put, get-del, append_assoc, append-nil,
}
use ray_dispatcher.Pool.{
  Lease, Pool, discard, free_slot, park, tokens_on, drop_lease, drop_leases, add_str,
}
use ray_dispatcher.Pool.Invariant.{Books, drop-Books}
use ray_dispatcher.Pool.Occupancy.{IsKeyed}

pub mem_str-add_str :
    (h k : Str) (ks : List Str)
    → mem_str k (add_str h ks) ≡ (holds (str_discrete h k) || mem_str k ks)
unfolding add_str
mem_str-add_str h k ks = ground (arith, mem_str-append k ks (h ∷ []))

-- The recorded pid paths of some tokens, in their order.
abbrev pub paths_of : Dict Str → List Str → List Str
paths_of pids [] = []
paths_of pids (t ∷ ts) = elim (get t pids) [
  | none ↦ paths_of pids ts
  | some path ↦ path ∷ paths_of pids ts
]

abbrev pub orphans_at : Pool → Str → List Str
orphans_at p h = get_or (get h p.orphans) []

pub record Dropped (p q : Pool) (host : Str) (ts : List Str) : Type 0 where
  pub books : Books q
  pub gone : (t : Str) → get t q.leases ≡ (if mem_str t ts then none else get t p.leases)
  pub slots : q.slots ≡ p.slots
  pub healthy : q.healthy ≡ p.healthy
  pub quarantined : q.quarantined ≡ p.quarantined
  pub ttl : q.ttl ≡ p.ttl
  pub pids : (t : Str) → mem_str t ts ≡ false → get t q.pid_paths ≡ get t p.pid_paths
  pub elsewhere : (h : Str) → h ≢ host → get h q.orphans ≡ get h p.orphans

drop_lease-Dropped :
    (p : Pool) (host t : Str) → Books p → Dropped p (drop_lease p host t) host (t ∷ [])
unfolding drop_lease free_slot park
drop_lease-Dropped p host t b = elim (Option-cases (get t p.leases)) [
  | inl e ↦
      rw (e, drop_lease)
        (record {
          books = b;
          gone = λ k. ground arith;
          slots = refl;
          healthy = refl;
          quarantined = refl;
          ttl = refl;
          pids = λ k m. refl;
          elsewhere = λ h ne. refl;
        })
  | inr (l, e) ↦
      rw (e, drop_lease)
        (record {
          books =
              (let b' = drop-Books p t l b e in
                record {
                  held = b'.held;
                  counted = b'.counted;
                  single = b'.single;
                  within = b'.within;
                  bounded = b'.bounded;
                  keyed = b'.keyed;
                  pids = b'.pids;
                });
          gone = λ k. ground (arith, get-del t k p.leases);
          slots = refl;
          healthy = refl;
          quarantined = refl;
          ttl = refl;
          pids = λ k m. ground (arith, get-del t k p.pid_paths);
          elsewhere = λ h ne. ground (
            arith,
            get-put host h (orphans_at p host ++ (get_or (get t p.pid_paths) []) ∷ []) p.orphans,
          );
        })
]

pub drop_leases-Dropped :
    (p : Pool) (host : Str) (ts : List Str) → Books p → Dropped p (drop_leases p host ts) host ts
unfolding drop_leases
drop_leases-Dropped p host [] b = record {
  books = b;
  gone = λ t. refl;
  slots = refl;
  healthy = refl;
  quarantined = refl;
  ttl = refl;
  pids = λ t m. refl;
  elsewhere = λ h ne. refl;
}
drop_leases-Dropped p host (t ∷ ts) b =
    let one = drop_lease-Dropped p host t b in
    let rest = drop_leases-Dropped (drop_lease p host t) host ts one.books in
    record {
      books = rest.books;
      gone = λ k. ground (arith, one.gone k, rest.gone k);
      slots = rest.slots ∙ one.slots;
      healthy = rest.healthy ∙ one.healthy;
      quarantined = rest.quarantined ∙ one.quarantined;
      ttl = rest.ttl ∙ one.ttl;
      pids = λ k m. ground (arith, one.pids k, rest.pids k);
      elsewhere = λ h ne. rest.elsewhere h ne ∙ one.elsewhere h ne;
    }

-- The tokens have no lease on another host.
abbrev pub AreOn : Dict Lease → Str → List Str → Type 0
AreOn d host ts = (t : Str) (l : Lease) → mem_str t ts ≡ true → get t d ≡ some l → l.host ≡ host

drop_lease-used :
    (p : Pool) (host t h : Str)
    → AreOn p.leases host (t ∷ [])
    → h ≢ host
    → get_or (get h (drop_lease p host t).used) [] ≡ get_or (get h p.used) []
unfolding drop_lease free_slot
drop_lease-used p host t h on ne = elim (Option-cases (get t p.leases)) [
  | inl e ↦ rw (e, drop_lease) refl
  | inr (l, e) ↦
      let here = on t l (ground arith) e in
      rw (e, drop_lease)
        (ground (arith, get-put l.host h (discard l.slot (get_or (get l.host p.used) [])) p.used))
]

pub drop_leases-used :
    (p : Pool) (host : Str) (ts : List Str) (h : Str)
    → Books p
    → AreOn p.leases host ts
    → h ≢ host
    → get_or (get h (drop_leases p host ts).used) [] ≡ get_or (get h p.used) []
unfolding drop_leases
drop_leases-used p host [] h b on ne = refl
drop_leases-used p host (t ∷ ts) h b on ne =
    let one = drop_lease-Dropped p host t b in
    let here : AreOn p.leases host (t ∷ []) = λ u l m e. on u l (ground arith) e in
    let later : AreOn (drop_lease p host t).leases host ts =
      λ u l m e. on u l (ground arith) (ground (arith, one.gone u)) in
    drop_leases-used (drop_lease p host t) host ts h one.books later ne
    ∙ drop_lease-used p host t h here ne

pub mem_str-tokens_on :
    (host t : Str) (d : Dict Lease)
    → IsKeyed d
    → mem_str t (tokens_on host d)
      ≡ (elim (get t d) [ none ↦ false | some l ↦ holds (str_discrete l.host host) ])
unfolding tokens_on
mem_str-tokens_on host t [] k = refl
mem_str-tokens_on host t ((s, l) ∷ d) k = ground (arith, mem_str-tokens_on host t d k.2)

pub tokens_on-IsDistinct : (host : Str) (d : Dict Lease) → IsKeyed d → IsDistinct (tokens_on host d)
unfolding tokens_on
tokens_on-IsDistinct host [] k = tt
tokens_on-IsDistinct host ((s, l) ∷ d) k =
    ground (arith, tokens_on-IsDistinct host d k.2, mem_str-tokens_on host s d k.2)

pub tokens_on-AreOn : (host : Str) (d : Dict Lease) → IsKeyed d → AreOn d host (tokens_on host d)
tokens_on-AreOn host d k t l m e = ground (arith, mem_str-tokens_on host t d k)

-- Every listed token has a lease.
abbrev pub AreLeased : Dict Lease → List Str → Type 0
AreLeased d ts = (t : Str) → mem_str t ts ≡ true → get t d ≢ none

pub tokens_on-AreLeased : (host : Str) (d : Dict Lease) → IsKeyed d → AreLeased d (tokens_on host d)
tokens_on-AreLeased host d k t m = ground (arith, mem_str-tokens_on host t d k)

paths_of-agree :
    (d e : Dict Str) (ts : List Str)
    → ((t : Str) → mem_str t ts ≡ true → get t d ≡ get t e)
    → paths_of d ts ≡ paths_of e ts
paths_of-agree d e [] h = refl
paths_of-agree d e (t ∷ ts) h =
    ground (arith, h t, paths_of-agree d e ts (λ u m. h u (ground arith)))

drop_lease-orphans :
    (p : Pool) (host t : Str)
    → get t p.leases ≢ none
    → orphans_at (drop_lease p host t) host ≡ orphans_at p host ++ paths_of p.pid_paths (t ∷ [])
unfolding drop_lease free_slot park
drop_lease-orphans p host t h = ground (
  arith,
  get-put host host (orphans_at p host ++ (get_or (get t p.pid_paths) []) ∷ []) p.orphans,
  append-nil (orphans_at p host),
)

pub drop_leases-orphans :
    (p : Pool) (host : Str) (ts : List Str)
    → Books p
    → IsDistinct ts
    → AreLeased p.leases ts
    → orphans_at (drop_leases p host ts) host ≡ orphans_at p host ++ paths_of p.pid_paths ts
unfolding drop_leases
drop_leases-orphans p host [] b d h = sym (append-nil (orphans_at p host))
drop_leases-orphans p host (t ∷ ts) b d h =
    let one = drop_lease-Dropped p host t b in
    let q = drop_lease p host t in
    let later : AreLeased q.leases ts = λ u m. ground (arith, one.gone u, h u) in
    let same = paths_of-agree q.pid_paths p.pid_paths ts (λ u m. one.pids u (ground arith)) in
    ground (
      arith,
      drop_leases-orphans q host ts one.books d.1 later,
      drop_lease-orphans p host t (h t (ground arith)),
      same,
      append_assoc (orphans_at p host) (paths_of p.pid_paths (t ∷ [])) (paths_of p.pid_paths ts),
    )
