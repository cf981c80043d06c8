-- ===== src/Service.antt =====
-- LeaseService of src/it/unimib/data/nanofaas/ray_dispatcher/scheduling.py: the pool behind one
-- asyncio.Condition. Each method holds the condition's lock from start to end, but for the wait in
-- `acquire`, so a method is one step, and so is each round of the loop of `acquire`.
pub mod Wakeup
pub mod Account
use ray_dispatcher.Base.{
  null, ℕ, zero, suc, ◌==◌, Bool, true, false, Option, none, some, List, [], ◌∷◌, ◌++◌,
  if◌then◌else◌, Str,
}
use ray_dispatcher.Pool.{
  Lease, Pool, Acquired, granted, unavailable, invalid, no_slot, acquire, release, heartbeat,
  register_pid, quarantine, mark_reconciled, sweep_expired, healthy_host_count,
}

-- A call of `acquire` that has not returned.
pub record Waiter : Type 0 where
  pub attempt_id : Str
  pub exclude : List Str

-- What a call of `acquire` ends with: a lease, NoHealthyHostsError, or an error of the pool.
pub data Reply : Type 0 where
  leased : Lease → Reply
  no_healthy : Reply
  failed : Reply

pub record Service : Type 0 where
  pub pool : Pool
  -- in `self._cond.wait()`
  pub asleep : List Waiter
  -- notified, and not yet run again
  pub ready : List Waiter
  pub replies : List (Waiter × Reply)

pub start : Pool → Service
start p = record { pool = p; asleep = []; ready = []; replies = [] }

-- One round of the loop of `acquire`, after the pool has answered.
answer : Service → Waiter → Pool × Acquired → Service
answer s w (q, granted l) = record s { pool = q; replies = (w, leased l) ∷ s.replies }
answer s w (q, unavailable) =
    if healthy_host_count q == 0
    then record s { pool = q; replies = (w, no_healthy) ∷ s.replies }
    else record s { pool = q; asleep = w ∷ s.asleep }
answer s w (q, invalid) = record s { pool = q; replies = (w, failed) ∷ s.replies }
answer s w (q, no_slot) = record s { pool = q; replies = (w, failed) ∷ s.replies }

pub try_acquire : Service → Waiter → Str → ℕ → Service
unfolding answer
try_acquire s w token now = answer s w (acquire s.pool w.attempt_id w.exclude token now)

pub notify_all : Service → Service
notify_all s = record s { asleep = []; ready = s.ready ++ s.asleep }

-- Takes one waiter out of those that were notified; which one is the event loop's choice.
pub pick : ℕ → List Waiter → Option (Waiter × List Waiter)
pick n [] = none
pick zero (w ∷ ws) = some (w, ws)
pick (suc n) (w ∷ ws) = elim (pick n ws) [ none ↦ none | some (v, rest) ↦ some (v, w ∷ rest) ]

resume : Service → ℕ → Str → ℕ → Service
unfolding pick try_acquire
resume s n token now = elim (pick n s.ready) [
  | none ↦ s
  | some (w, rest) ↦ try_acquire (record s { ready = rest }) w token now
]

pub sweep : Service → ℕ → Service
unfolding notify_all
sweep s now =
    let (p, hosts) = sweep_expired s.pool now in
    if null hosts then record s { pool = p } else notify_all (record s { pool = p })

-- A call of a method, or the event loop running a notified waiter again. The token and the time
-- are what the pool's factories give in this step.
pub data Event : Type 0 where
  acquires : Waiter → Str → ℕ → Event
  resumes : ℕ → Str → ℕ → Event
  releases : Str → Event
  beats : Str → ℕ → Event
  sweeps : ℕ → Event
  quarantines : Str → Event
  reconciles : Str → Event
  registers : Str → Str → Event

pub step : Service → Event → Service
unfolding try_acquire resume notify_all sweep
step s (acquires w token now) = try_acquire s w token now
step s (resumes n token now) = resume s n token now
step s (releases token) = notify_all (record s { pool = (release s.pool token).0 })
step s (beats token now) = record s { pool = (heartbeat s.pool token now).0 }
step s (sweeps now) = sweep s now
step s (quarantines host) = notify_all (record s { pool = quarantine s.pool host })
step s (reconciles host) = notify_all (record s { pool = mark_reconciled s.pool host })
step s (registers token path) = record s { pool = register_pid s.pool token path }

pub run : Service → List Event → Service
unfolding step
run s [] = s
run s (e ∷ es) = run (step s e) es
