-- ===== src/Locking/Heartbeat.antt =====
-- HeartbeatThread: refreshes a lock until it is stopped or the lock is lost. Its events come in any
-- order; each is one step, under `_failure_lock` where the source takes it.
use ray_dispatcher.Base.{
  ◌⊎◌, ℕ, suc, ◌+◌, ◌≤◌, ◌≡◌, ◌≢◌, refl, Bool, true, false, Option, none, some, List, [], ◌∷◌,
  arith, Str, Option-cases, Bool-cases, inl, inr, subst, sym,
}
use ray_dispatcher.Errors.{session_lock_lost, is_exception, Result, ok, raise}

pub record Thread : Type 0 where
  -- `_failure`, set with `_failed`
  pub failure : Option Str
  -- whether a callback is set
  pub callback : Bool
  -- how often a callback was called
  pub notified : ℕ
  -- in the loop of `run`
  pub running : Bool

unfoldable pub fresh : Thread
fresh = record { failure = none; callback = false; notified = 0; running = true }

pub data Event : Type 0 where
  -- the next `lock.heartbeat()` of the loop, with what it does
  beats : Result (Unit {0}) → Event
  -- `set_failure_callback(…)`
  sets_callback : Event
  stops : Event

tell : Bool → Thread → Thread
tell true t = record t { notified = suc t.notified }
tell false t = t

-- One round of `run`.
beat : Thread → Result (Unit {0}) → Thread
unfolding tell
beat t (ok u) = t
beat t (raise (session_lock_lost m)) =
    tell t.callback (record t { failure = some m; running = false })
beat t (raise e) = elim (is_exception e) [ true ↦ t | false ↦ record t { running = false } ]

pub step : Thread → Event → Thread
unfolding beat
step t (beats r) = elim t.running [ true ↦ beat t r | false ↦ t ]
step t sets_callback = elim t.failure [
  | none ↦ record t { callback = true }
  | some m ↦ record t { callback = true; notified = suc t.notified }
]
step t stops = record t { running = false }

unfoldable pub run : Thread → List Event → Thread
unfolding step
run t [] = t
run t (e ∷ es) = run (step t e) es

-- `raise_if_failed()`
pub raise_if_failed : Thread → Result (Unit {0})
raise_if_failed t = elim t.failure [ none ↦ ok tt | some m ↦ raise (session_lock_lost m) ]

-- How often a callback is set.
abbrev pub settings : List Event → ℕ
settings [] = 0
settings (sets_callback ∷ es) = suc (settings es)
settings (e ∷ es) = settings es

-- After `n` settings of a callback.
record Inv (n : ℕ) (t : Thread) : Type 0 where
  quiet : t.failure ≡ none → (t.notified ≡ 0)
  set : t.callback ≡ true → 1 ≤ n
  unset : t.callback ≡ false → n ≡ 0
  told : t.failure ≢ none → (1 ≤ n → 1 ≤ t.notified) × (t.notified ≤ n)
  over : t.failure ≢ none → t.running ≡ false

-- The settings that an event adds.
abbrev setting : Event → ℕ
setting sets_callback = 1
setting _ = 0

running-quiet : (n : ℕ) (t : Thread) → t.running ≡ true → Inv n t → t.notified ≡ 0
running-quiet n t e v = elim (Option-cases t.failure) [
  | inl q ↦ v.quiet q
  | inr (m, q) ↦ absurd (ground (arith, v.over (λ z. cc)))
]

beat-Inv :
    (n : ℕ) (t : Thread) (r : Result (Unit {0})) → t.running ≡ true → Inv n t → Inv n (beat t r)
unfolding beat
beat-Inv n t (ok u) e v = v
beat-Inv n t (raise (session_lock_lost m)) e v =
    let zero_yet = running-quiet n t e v in
    elim (Bool-cases t.callback) [
      | inl q ↦
          rw (q, tell)
            (record {
              quiet = λ z. cc;
              set = λ z. v.set q;
              unset = λ z. ground arith;
              told = λ z. (λ _. omega arith, omega (arith, v.set q));
              over = λ z. refl;
            })
      | inr q ↦
          rw (q, tell)
            (record {
              quiet = λ z. zero_yet;
              set = λ z. ground arith;
              unset = λ z. v.unset q;
              told = λ z. (λ o. omega (arith, v.unset q), omega arith);
              over = λ z. refl;
            })
    ]
beat-Inv n t (raise x) e v = record {
  quiet = v.quiet;
  set = v.set;
  unset = v.unset;
  told = v.told;
  over = λ z. ground (arith, v.over z);
}

step-Inv : (n k : ℕ) (t : Thread) (e : Event) → k ≡ setting e + n → Inv n t → Inv k (step t e)
unfolding step
step-Inv n k t (beats r) q v =
    let same : k ≡ n = omega arith in
    subst (λ (m : ℕ). Inv m (step t (beats r))) (sym same)
      (elim (Bool-cases t.running) [
        | inl on ↦ rw (on, step) (beat-Inv n t r on v)
        | inr off ↦ rw (off, step) v
      ])
step-Inv n k t sets_callback q v = elim (Option-cases t.failure) [
  | inl z ↦
      rw (z, step)
        (record {
          quiet = v.quiet;
          set = λ _. omega arith;
          unset = λ c. cc;
          told = λ c. absurd (c z);
          over = λ c. absurd (c z);
        })
  | inr (m, z) ↦
      let told = v.told (λ c. cc) in
      rw (z, step)
        (record {
          quiet = λ c. cc;
          set = λ _. omega arith;
          unset = λ c. cc;
          told = λ c. (λ _. omega arith, omega (arith, told.1));
          over = λ c. v.over c;
        })
]
step-Inv n k t stops q v =
    let same : k ≡ n = omega arith in
    subst (λ (m : ℕ). Inv m (step t stops)) (sym same)
      (record { quiet = v.quiet; set = v.set; unset = v.unset; told = v.told; over = λ z. refl })

settings-cons : (e : Event) (es : List Event) → settings (e ∷ es) ≡ setting e + settings es
settings-cons sets_callback es = omega arith
settings-cons _ es = omega arith

run-Inv :
    (n k : ℕ) (t : Thread) (es : List Event) → k ≡ settings es + n → Inv n t → Inv k (run t es)
unfolding run
run-Inv n k t [] q v = subst (λ (m : ℕ). Inv m t) (omega arith) v
run-Inv n k t (e ∷ es) q v =
    run-Inv (setting e + n) k (step t e) es (omega (arith, settings-cons e es))
      (step-Inv n (setting e + n) t e refl v)

-- A callback that is set once is called exactly once if the lock is lost, whether it was set before
-- or after, and never if the lock is not lost.
pub run-notified :
    (es : List Event)
    → settings es ≡ 1
    → (((run fresh es).failure ≢ none) × ((run fresh es).notified ≡ 1))
      ⊎ (((run fresh es).failure ≡ none) × ((run fresh es).notified ≡ 0))
unfolding fresh
run-notified es one =
    let start : Inv 0 fresh = record {
      quiet = λ z. refl;
      set = λ z. cc;
      unset = λ z. refl;
      told = λ z. absurd (z refl);
      over = λ z. absurd (z refl);
    } in
    let v = run-Inv 0 1 fresh es (omega arith) start in
    elim (Option-cases (run fresh es).failure) [
      | inl kept ↦ inr (kept, v.quiet kept)
      | inr (m, gone) ↦
          let told = v.told (λ z. cc) in inl (λ z. cc, omega (arith, told.0 (omega arith), told.1))
    ]
