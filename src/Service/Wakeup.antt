-- ===== src/Service/Wakeup.antt =====
-- No waiter sleeps through a change that would let it go on.
use ray_dispatcher.Base.{
  null, ℕ, ◌≡◌, ◌≢◌, refl, sym, subst, inl, inr, Option, none, some, List, [], ◌∷◌, arith, All,
  All-mono, Bool-cases, ◌==◌, Str,
}
use ray_dispatcher.Pool.{
  Pool, Acquired, granted, unavailable, invalid, no_slot, healthy_host_count, acquire,
  sweep_expired,
}
use ray_dispatcher.Pool.Acquire.{IsFull}
use ray_dispatcher.Pool.Shrink.{
  Shrinks, Shrinks-IsFull, Shrinks-healthy_host_count, acquire-Shrinks, heartbeat-Shrinks,
  register_pid-Shrinks, sweep_expired-idle,
}
use ray_dispatcher.Service.{
  Waiter, Service, start, answer, try_acquire, notify_all, pick, resume, sweep, Event, acquires,
  resumes, releases, beats, sweeps, quarantines, reconciles, registers, step, run,
}

-- A round of the waiter's loop would find no free slot, and a live host to wait for.
pub record IsStuck (p : Pool) (w : Waiter) : Type 0 where
  pub full : IsFull p w.exclude
  pub hope : healthy_host_count p ≢ 0

abbrev pub IsQuiet : Service → Type 0
IsQuiet s = All (IsStuck s.pool) s.asleep

Shrinks-IsStuck : (p q : Pool) → Shrinks p q → (w : Waiter) → IsStuck p w → IsStuck q w
Shrinks-IsStuck p q s w k = record {
  full = Shrinks-IsFull p q w.exclude s k.full;
  hope = subst (λ (n : ℕ). n ≢ 0) (sym (Shrinks-healthy_host_count p q s)) k.hope;
}

answer-IsQuiet :
    (s : Service) (w : Waiter) (r : Pool × Acquired)
    → Shrinks s.pool r.0
    → (r.1 ≡ unavailable → IsFull s.pool w.exclude)
    → IsQuiet s
    → IsQuiet (answer s w r)
unfolding answer
answer-IsQuiet s w (q, granted l) sh full v = All-mono _ _ s.asleep (Shrinks-IsStuck s.pool q sh) v
answer-IsQuiet s w (q, invalid) sh full v = All-mono _ _ s.asleep (Shrinks-IsStuck s.pool q sh) v
answer-IsQuiet s w (q, no_slot) sh full v = All-mono _ _ s.asleep (Shrinks-IsStuck s.pool q sh) v
answer-IsQuiet s w (q, unavailable) sh full v =
    let kept = All-mono _ _ s.asleep (Shrinks-IsStuck s.pool q sh) v in
    elim (Bool-cases (healthy_host_count q == 0)) [
      | inl dead ↦ rw dead kept
      | inr live ↦ rw live (
        record { full = Shrinks-IsFull s.pool q w.exclude sh (full refl); hope = ground arith },
        kept,
      )
    ]

try_acquire-IsQuiet :
    (s : Service) (w : Waiter) (token : Str) (now : ℕ)
    → IsQuiet s
    → IsQuiet (try_acquire s w token now)
unfolding try_acquire
try_acquire-IsQuiet s w token now v =
    let (sh, full) = acquire-Shrinks s.pool w.attempt_id w.exclude token now in
    answer-IsQuiet s w (acquire s.pool w.attempt_id w.exclude token now) sh full v

resume-IsQuiet :
    (s : Service) (n : ℕ) (token : Str) (now : ℕ) → IsQuiet s → IsQuiet (resume s n token now)
unfolding resume
resume-IsQuiet s n token now v = picked (pick n s.ready) refl
  where
    picked :
        (o : Option (Waiter × List Waiter)) → pick n s.ready ≡ o → IsQuiet (resume s n token now)
    picked none e = rw (e, resume) v
    picked (some (w, rest)) e =
        rw (e, resume) (try_acquire-IsQuiet (record s { ready = rest }) w token now v)

sweep-IsQuiet : (s : Service) (now : ℕ) → IsQuiet s → IsQuiet (sweep s now)
unfolding sweep notify_all
sweep-IsQuiet s now v = elim (Bool-cases (null (sweep_expired s.pool now).1)) [
  | inl idle ↦
      rw idle (subst (λ q. All (IsStuck q) s.asleep) (sym (sweep_expired-idle s.pool now idle)) v)
  | inr busy ↦ rw busy tt
]

step-IsQuiet : (s : Service) (e : Event) → IsQuiet s → IsQuiet (step s e)
unfolding step notify_all
step-IsQuiet s (acquires w token now) v = try_acquire-IsQuiet s w token now v
step-IsQuiet s (resumes n token now) v = resume-IsQuiet s n token now v
step-IsQuiet s (releases token) v = tt
step-IsQuiet s (beats token now) v =
    All-mono _ _ s.asleep (Shrinks-IsStuck s.pool _ (heartbeat-Shrinks s.pool token now)) v
step-IsQuiet s (sweeps now) v = sweep-IsQuiet s now v
step-IsQuiet s (quarantines host) v = tt
step-IsQuiet s (reconciles host) v = tt
step-IsQuiet s (registers token path) v =
    All-mono _ _ s.asleep (Shrinks-IsStuck s.pool _ (register_pid-Shrinks s.pool token path)) v

run_from-IsQuiet : (s : Service) (es : List Event) → IsQuiet s → IsQuiet (run s es)
unfolding run
run_from-IsQuiet s [] v = v
run_from-IsQuiet s (e ∷ es) v = run_from-IsQuiet (step s e) es (step-IsQuiet s e v)

-- After any history, a waiter that is asleep would find no free slot on the hosts it draws from,
-- and some live host, if it ran now: no wakeup is lost.
pub run-IsQuiet : (p : Pool) (es : List Event) → IsQuiet (run (start p) es)
unfolding start
run-IsQuiet p es = run_from-IsQuiet (start p) es tt
