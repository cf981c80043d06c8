-- ===== src/Service/Account.antt =====
-- Every call of `acquire` is waiting or answered.
use ray_dispatcher.Base.{
  ℕ, ◌+◌, ◌≡◌, refl, zero, suc, some, List, [], ◌∷◌, arith, if◌then◌else◌, Bool, ◌++◌, Str,
  Option-cases, inl, inr,
}
use ray_dispatcher.Pool.{
  Pool, Acquired, granted, unavailable, invalid, no_slot, acquire, release, quarantine,
  mark_reconciled, sweep_expired,
}
use ray_dispatcher.Service.{
  Waiter, Reply, Service, start, answer, try_acquire, notify_all, pick, resume, sweep, Event,
  acquires, resumes, releases, beats, sweeps, quarantines, reconciles, registers, step, run,
}

-- How many of some waiters pass a test.
abbrev pub count : (Waiter → Bool) → List Waiter → ℕ
count f [] = 0
count f (w ∷ ws) = if f w then suc (count f ws) else count f ws

abbrev pub answered : List (Waiter × Reply) → List Waiter
answered [] = []
answered ((w, r) ∷ rs) = w ∷ answered rs

-- The calls of `acquire`.
abbrev pub callers : List Event → List Waiter
callers [] = []
callers (acquires w token now ∷ es) = w ∷ callers es
callers (e ∷ es) = callers es

module _ (f : Waiter → Bool) where
  -- The calls that pass the test and that a service has to account for.
  abbrev pub owed : Service → ℕ
  owed s = count f s.asleep + count f s.ready + count f (answered s.replies)

  abbrev calls : List Event → ℕ
  calls es = count f (callers es)

  count-append : (xs ys : List Waiter) → count f (xs ++ ys) ≡ count f xs + count f ys
  count-append [] ys = omega arith
  count-append (x ∷ xs) ys = ground (arith, count-append xs ys)

  answer-owed :
      (s : Service) (w : Waiter) (r : Pool × Acquired)
      → owed (answer s w r) ≡ count f (w ∷ []) + owed s
  unfolding answer
  answer-owed s w (q, granted l) = ground arith
  answer-owed s w (q, invalid) = ground arith
  answer-owed s w (q, no_slot) = ground arith
  answer-owed s w (q, unavailable) = ground arith

  count-pick :
      (n : ℕ) (ws : List Waiter) {w : Waiter} {rest : List Waiter}
      → pick n ws ≡ some (w, rest)
      → count f ws ≡ count f (w ∷ []) + count f rest
  unfolding pick
  count-pick n [] e = cc
  count-pick zero (v ∷ ws) e = ground arith
  count-pick (suc n) (v ∷ ws) e = elim (Option-cases (pick n ws)) [
    | inl q ↦ ground arith
    | inr ((u, more), q) ↦ ground (arith, count-pick n ws q)
  ]

  resume-owed : (s : Service) (n : ℕ) (token : Str) (now : ℕ) → owed (resume s n token now) ≡ owed s
  unfolding resume try_acquire
  resume-owed s n token now = elim (Option-cases (pick n s.ready)) [
    | inl q ↦ rw (q, resume) refl
    | inr ((w, rest), q) ↦
        rw (q, resume)
          (omega (
            arith,
            answer-owed (record s { ready = rest }) w
                (acquire s.pool w.attempt_id w.exclude token now),
            count-pick n s.ready q,
          ))
  ]

  notify_all-owed : (s : Service) → owed (notify_all s) ≡ owed s
  unfolding notify_all
  notify_all-owed s = omega (arith, count-append s.ready s.asleep)

  step-owed : (s : Service) (e : Event) → owed (step s e) ≡ calls (e ∷ []) + owed s
  unfolding step try_acquire sweep
  step-owed s (acquires w token now) =
      omega (arith, answer-owed s w (acquire s.pool w.attempt_id w.exclude token now))
  step-owed s (resumes n token now) = omega (arith, resume-owed s n token now)
  step-owed s (releases token) =
      omega (arith, notify_all-owed (record s { pool = (release s.pool token).0 }))
  step-owed s (beats token now) = omega arith
  step-owed s (sweeps now) =
      ground (arith, notify_all-owed (record s { pool = (sweep_expired s.pool now).0 }))
  step-owed s (quarantines host) =
      omega (arith, notify_all-owed (record s { pool = quarantine s.pool host }))
  step-owed s (reconciles host) =
      omega (arith, notify_all-owed (record s { pool = mark_reconciled s.pool host }))
  step-owed s (registers token path) = omega arith

  calls-cons : (e : Event) (es : List Event) → calls (e ∷ es) ≡ calls (e ∷ []) + calls es
  calls-cons (acquires w token now) es = grind arith
  calls-cons _ es = omega arith

  run_from-owed : (s : Service) (es : List Event) → owed (run s es) ≡ calls es + owed s
  unfolding run
  run_from-owed s [] = omega arith
  run_from-owed s (e ∷ es) =
      omega (arith, run_from-owed (step s e) es, step-owed s e, calls-cons e es)

-- After any history, the calls of `acquire` are those asleep, those notified and those answered, each
-- once: as many of each kind as there were calls of it.
pub run-owed :
    (f : Waiter → Bool) (p : Pool) (es : List Event)
    → owed f (run (start p) es) ≡ count f (callers es)
unfolding start
run-owed f p es = omega (arith, run_from-owed f (start p) es)
