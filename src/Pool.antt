-- ===== src/Pool.antt =====
-- LeasePool of src/it/unimib/data/nanofaas/ray_dispatcher/scheduling.py: slot leases on hosts, with quarantine. The clock and the token
-- factory are arguments of each call, as they are injected in the source. Times are natural
-- numbers of one fixed unit.
mod Slots
pub mod Occupancy
pub mod Invariant
pub mod Choice
pub mod Acquire
pub mod Drop
pub mod Quarantine
pub mod Keep
pub mod History
pub mod Lifetime
pub mod Shrink
use ray_dispatcher.Base.{
  ℕ, zero, suc, ◌+◌, ◌-◌, Bool, true, false, not, ◌&&◌, ◌||◌, Option, none, some, List, [], ◌∷◌,
  ◌++◌, map, ite, ltb, leb, ◌==◌, if◌then◌else◌, length, null, filter, Str, str_discrete, mem_str,
  sort_strs, Dict, get, put, del, get_or, holds,
}

pub record Lease : Type 0 where
  pub token : Str
  pub host : Str
  pub slot : ℕ
  pub attempt_id : Str
  pub expiry_s : ℕ
  pub heartbeat_s : ℕ

pub record Pool : Type 0 where
  pub slots : Dict ℕ
  pub healthy : List Str
  pub quarantined : List Str
  pub used : Dict (List ℕ)
  pub leases : Dict Lease
  pub ttl : ℕ
  pub pid_paths : Dict Str
  pub orphans : Dict (List Str)

-- `LeasePool(hosts, lease_ttl_s=…)`; `hosts` is a mapping, so its keys differ.
unfoldable pub init : Dict ℕ → ℕ → Pool
init hosts ttl = record {
  slots = hosts;
  healthy = map (λ e. e.0) hosts;
  quarantined = [];
  used = map (λ e. (e.0, [])) hosts;
  leases = [];
  ttl = ttl;
  pid_paths = [];
  orphans = [];
}

-- `self._slots[host]` and `self._used[host]`. The source looks up hosts of the pool only.
abbrev pub slots_of : Pool → Str → ℕ
slots_of p h = get_or (get h p.slots) 0

abbrev pub used_of : Pool → Str → List ℕ
used_of p h = get_or (get h p.used) []

unfoldable pub live_hosts : Pool → List Str
live_hosts p = filter (λ h. not (mem_str h p.quarantined)) p.healthy

pub free_slot_count : Pool → Str → ℕ
free_slot_count p h = slots_of p h - length (used_of p h)

abbrev pub mem_nat : ℕ → List ℕ → Bool
mem_nat i [] = false
mem_nat i (j ∷ js) = i == j || mem_nat i js

-- `next(i for i in range(i, i + n) if i not in used)`; `none` is its StopIteration.
pub first_free : ℕ → ℕ → List ℕ → Option ℕ
first_free zero i us = none
first_free (suc n) i us =
    let rest = first_free n (i + 1) us in if mem_nat i us then rest else some i

pub healthy_host_count : Pool → ℕ
unfolding live_hosts
healthy_host_count p = length (live_hosts p)

sum_free : Pool → List Str → ℕ
unfolding free_slot_count
sum_free p [] = 0
sum_free p (h ∷ hs) = free_slot_count p h + sum_free p hs

pub free_slots : Pool → ℕ
unfolding sum_free live_hosts
free_slots p = sum_free p (live_hosts p)

-- The hosts that `acquire` draws from, and those of them with a free slot.
pub drawn : Pool → List Str → List Str
unfolding live_hosts
drawn p exclude =
    let untried = filter (λ h. not (mem_str h exclude)) (live_hosts p) in
    if null untried then live_hosts p else untried

unfoldable pub candidates : Pool → List Str → List Str
unfolding drawn free_slot_count
candidates p exclude = filter (λ h. ltb 0 (free_slot_count p h)) (drawn p exclude)

-- `max(hosts, key=key)`: the first of the greatest.
pub max_by : (Str → ℕ) → Str → List Str → Str
max_by key best [] = best
max_by key best (h ∷ hs) = max_by key (if ltb (key best) (key h) then h else best) hs

-- What `acquire` does: a lease, None, or an exception.
pub data Acquired : Type 0 where
  granted : Lease → Acquired
  unavailable : Acquired
  invalid : Acquired
  no_slot : Acquired

-- `Lease.__post_init__`; a slot is a natural number here.
pub is_valid_lease : Lease → Bool
is_valid_lease l = not (null l.token) && (not (null l.host) && not (null l.attempt_id))

-- The slot is taken before the lease is built, so it stays taken if the lease is refused.
grant : Pool → Str → ℕ → Str → Str → ℕ → Pool × Acquired
unfolding is_valid_lease
grant p host slot attempt_id token now =
    let lease : Lease = record {
      token = token;
      host = host;
      slot = slot;
      attempt_id = attempt_id;
      expiry_s = now + p.ttl;
      heartbeat_s = now;
    } in
    let taken : Pool = record p { used = put host (slot ∷ used_of p host) p.used } in
    if is_valid_lease lease
    then (record taken { leases = put token lease p.leases }, granted lease)
    else (taken, invalid)

acquire_on : Pool → Str → Str → Str → ℕ → Pool × Acquired
unfolding grant first_free
acquire_on p host attempt_id token now = elim (first_free (slots_of p host) 0 (used_of p host)) [
  | none ↦ (p, no_slot)
  | some slot ↦ grant p host slot attempt_id token now
]

choose : Pool → List Str → Str → Str → ℕ → Pool × Acquired
unfolding acquire_on max_by free_slot_count
choose p [] attempt_id token now = (p, unavailable)
choose p (h ∷ hs) attempt_id token now =
    acquire_on p (max_by (free_slot_count p) h hs) attempt_id token now

unfoldable pub acquire : Pool → Str → List Str → Str → ℕ → Pool × Acquired
unfolding choose candidates sort_strs
acquire p attempt_id exclude token now =
    choose p (sort_strs (candidates p exclude)) attempt_id token now

-- `used.discard(slot)`
pub discard : ℕ → List ℕ → List ℕ
discard i [] = []
discard i (j ∷ js) = if i == j then discard i js else j ∷ discard i js

free_slot : Pool → Lease → Pool
unfolding discard
free_slot p l = record p { used = put l.host (discard l.slot (used_of p l.host)) p.used }

unfoldable pub release : Pool → Str → Pool × Bool
unfolding free_slot
release p token = elim (get token p.leases) [
  | none ↦ (p, false)
  | some l ↦ (
    record (free_slot p l) { leases = del token p.leases; pid_paths = del token p.pid_paths },
    true,
  )
]

unfoldable pub register_pid : Pool → Str → Str → Pool
register_pid p token pid_path = elim (get token p.leases) [
  | none ↦ p
  | some l ↦ record p { pid_paths = put token pid_path p.pid_paths }
]

pub orphan_paths : Pool → Str → List Str
orphan_paths p host = get_or (get host p.orphans) []

unfoldable pub heartbeat : Pool → Str → ℕ → Pool × Bool
heartbeat p token now = elim (get token p.leases) [
  | none ↦ (p, false)
  | some l ↦ if leb l.expiry_s now then (p, false) else (
    record p {
      leases = put token (record l { heartbeat_s = now; expiry_s = now + p.ttl }) p.leases;
    },
    true,
  )
]

-- The tokens of a host's leases, in the order of the dict.
pub tokens_on : Str → Dict Lease → List Str
tokens_on host [] = []
tokens_on host ((t, l) ∷ d) =
    ite (str_discrete l.host host) (t ∷ tokens_on host d) (tokens_on host d)

-- `self._orphans.setdefault(host, []).append(pid_path)`, if there is a path
park : Str → Option Str → Dict (List Str) → Dict (List Str)
park host none orphans = orphans
park host (some path) orphans = put host (get_or (get host orphans) [] ++ path ∷ []) orphans

-- The body of the loop of `quarantine`.
pub drop_lease : Pool → Str → Str → Pool
unfolding free_slot park
drop_lease p host token = elim (get token p.leases) [
  | none ↦ p
  | some l ↦ record (free_slot p l) {
    leases = del token p.leases;
    pid_paths = del token p.pid_paths;
    orphans = park host (get token p.pid_paths) p.orphans;
  }
]

pub drop_leases : Pool → Str → List Str → Pool
drop_leases p host [] = p
drop_leases p host (t ∷ ts) = drop_leases (drop_lease p host t) host ts

-- `s.add(k)` on a set of texts
unfoldable pub add_str : Str → List Str → List Str
add_str k ks = if mem_str k ks then ks else ks ++ k ∷ []

unfoldable pub quarantine : Pool → Str → Pool
unfolding drop_leases drop_lease tokens_on add_str
quarantine p host =
    drop_leases (record p { quarantined = add_str host p.quarantined }) host
      (tokens_on host p.leases)

unfoldable pub mark_reconciled : Pool → Str → Pool
mark_reconciled p host = record p {
  orphans = del host p.orphans;
  quarantined = filter (λ h. not (holds (str_discrete h host))) p.quarantined;
}

-- The hosts with an expired lease, each once.
pub expired_hosts : ℕ → Dict Lease → List Str
unfolding add_str
expired_hosts now [] = []
expired_hosts now ((t, l) ∷ d) =
    let rest = expired_hosts now d in if leb l.expiry_s now then add_str l.host rest else rest

pub quarantine_all : Pool → List Str → Pool
unfolding quarantine
quarantine_all p [] = p
quarantine_all p (h ∷ hs) = quarantine_all (quarantine p h) hs

unfoldable pub sweep_expired : Pool → ℕ → Pool × List Str
unfolding quarantine_all expired_hosts sort_strs
sweep_expired p now =
    let affected = expired_hosts now p.leases in (quarantine_all p affected, sort_strs affected)

pub quarantined_hosts : Pool → List Str
unfolding sort_strs
quarantined_hosts p = sort_strs p.quarantined

entries : Dict Lease → Dict Str → Dict Str
entries [] d = d
entries ((t, l) ∷ ls) d = entries ls (put l.attempt_id l.host d)

-- attempt id -> host; a later lease of the same attempt id wins.
pub current_hosts : Pool → Dict Str
unfolding entries
current_hosts p = entries p.leases []
