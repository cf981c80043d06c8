-- ===== src/Errors.antt =====
-- The exceptions of src/it/unimib/data/nanofaas/ray_dispatcher/errors.py, with those that ssh.py and
-- scheduling.py add and the builtin ones that the code tells apart; and `try` over them.
use ray_dispatcher.Base.{arith, ℤ, Bool, true, false, Option, Str, codes, ◌≡◌, refl, ap}
use ray_dispatcher.Values.{AttemptResult}

-- A payload is the message; `other` is any other `Exception`.
pub data Exn : Type 0 where
  dispatcher_error configuration_error model_validation path_validation : Str → Exn
  ray_conflict provisioning_error host_in_use session_lock_lost no_healthy_hosts : Str → Exn
  batch_exists batch_failed lease_lost timeout_error os_error value_error other : Str → Exn
  transport_error : Str → Option ℤ → Exn
  -- Ray's errors, and the one for a task that was cancelled
  ray_error task_cancelled : Str → Exn
  keyboard_interrupt : Exn
  -- `_HostCleanupError(result=…)` and `_HostCleanupError(interrupted=…)`
  cleanup_timed_out : AttemptResult → Exn
  cleanup_interrupted : Exn → Exn

-- `isinstance(exc, DispatcherError)`
abbrev pub is_dispatcher_error : Exn → Bool
is_dispatcher_error (timeout_error m) = false
is_dispatcher_error (os_error m) = false
is_dispatcher_error (value_error m) = false
is_dispatcher_error (other m) = false
is_dispatcher_error (ray_error m) = false
is_dispatcher_error (task_cancelled m) = false
is_dispatcher_error keyboard_interrupt = false
is_dispatcher_error (cleanup_timed_out r) = false
is_dispatcher_error (cleanup_interrupted e) = false
is_dispatcher_error _ = true

-- `isinstance(exc, ray.exceptions.RayError)`
abbrev pub is_ray_error : Exn → Bool
is_ray_error (ray_error m) = true
is_ray_error (task_cancelled m) = true
is_ray_error _ = false

-- `isinstance(exc, Exception)`
abbrev pub is_exception : Exn → Bool
is_exception keyboard_interrupt = false
is_exception _ = true

-- `str(exc)`
abbrev pub message : Exn → Str
message (dispatcher_error m) = m
message (configuration_error m) = m
message (model_validation m) = m
message (path_validation m) = m
message (ray_conflict m) = m
message (provisioning_error m) = m
message (host_in_use m) = m
message (session_lock_lost m) = m
message (no_healthy_hosts m) = m
message (batch_exists m) = m
message (batch_failed m) = m
message (lease_lost m) = m
message (timeout_error m) = m
message (os_error m) = m
message (value_error m) = m
message (other m) = m
message (ray_error m) = m
message (task_cancelled m) = m
message (transport_error m rc) = m
message keyboard_interrupt = codes ""
message (cleanup_timed_out r) = codes "remote process cleanup could not be confirmed"
message (cleanup_interrupted e) = codes "remote process cleanup could not be confirmed"

pub data Result {ℓ} (A : Type ℓ) : Type ℓ where
  ok : A → Result A
  raise : Exn → Result A

-- Code that may raise and acts on a state, which outlives the exception.
abbrev pub Action {ℓ κ} : Type ℓ → Type κ → Type (ℓ ⊔ κ)
Action S A = S → Result A × S

module _ {ℓ κ} {S : Type ℓ} {A : Type κ} where
  abbrev pub pure : A → Action S A
  pure a s = (ok a, s)

  abbrev pub throw : Exn → Action S A
  throw e s = (raise e, s)

  abbrev pub caught : Result A × S → (Exn → Action S A) → Result A × S
  caught (ok a, s) handler = (ok a, s)
  caught (raise e, s) handler = handler e s

  -- `try: body` / `except BaseException as e: handler e`
  abbrev pub catch : Action S A → (Exn → Action S A) → Action S A
  catch body handler s = caught (body s) handler

module _ {ℓ κ μ} {S : Type ℓ} {A : Type κ} {B : Type μ} where
  abbrev pub and_then : Result A × S → (A → Action S B) → Result B × S
  and_then (ok a, s) f = f a s
  and_then (raise e, s) f = (raise e, s)

  infixl 5 ◌>>=◌ ◌>>◌
  abbrev pub ◌>>=◌ : Action S A → (A → Action S B) → Action S B
  m >>= f = λ s. and_then (m s) f

  abbrev pub ◌>>◌ : Action S A → Action S B → Action S B
  m >> n = m >>= λ _. n

module _ {ℓ κ} {S : Type ℓ} {A : Type κ} where
  -- `try: body` / `finally: cleanup`: an exception of the cleanup takes the place of the outcome.
  abbrev pub finally : Action S A → Action S (Unit {0}) → Action S A
  finally body cleanup s = let (r, s') = body s in and_then (cleanup s') (λ _ s''. (r, s''))

module _ {ℓ κ} {S : Type ℓ} {A : Type κ} where
  pub catch-ok :
      (body : Action S A) (handler : Exn → Action S A) (s : S) {a : A} {t : S}
      → body s ≡ (ok a, t)
      → catch body handler s ≡ (ok a, t)
  catch-ok body handler s e = ap (λ o. caught o handler) e

  pub catch-raise :
      (body : Action S A) (handler : Exn → Action S A) (s : S) {x : Exn} {t : S}
      → body s ≡ (raise x, t)
      → catch body handler s ≡ handler x t
  catch-raise body handler s e = ap (λ o. caught o handler) e

  and_then-state : (o : Result (Unit {0}) × S) (r : Result A) → (and_then o (λ _ s. (r, s))).1 ≡ o.1
  and_then-state (ok u, t) r = refl
  and_then-state (raise e, t) r = refl

  -- The cleanup runs on the state that the body leaves, and what it leaves stays.
  pub finally-state :
      (body : Action S A) (cleanup : Action S (Unit {0})) (s : S)
      → (finally body cleanup s).1 ≡ (cleanup (body s).1).1
  finally-state body cleanup s = and_then-state (cleanup (body s).1) (body s).0

module _ {ℓ κ μ} {S : Type ℓ} {A : Type κ} {B : Type μ} where
  -- A sequence that ends well did so at its first part.
  pub and_then-ok :
      (o : Result A × S) (f : A → Action S B) {b : B} {t : S}
      → and_then o f ≡ (ok b, t)
      → (a : A) × (s : S) × (o ≡ (ok a, s)) × (f a s ≡ (ok b, t))
  and_then-ok (ok a, s) f q = (a, s, refl, q)
  and_then-ok (raise x, s) f q = ground arith

-- What holds when an action that starts where `Pre` holds ends well.
abbrev pub After {ℓ κ} :
    {S : Type ℓ} {A : Type κ} → (S → Type 0) → Action S A → (A → S → Type 0) → Type (ℓ ⊔ κ)
After {S = S} {A = A} Pre act Post = (s t : S) (a : A) → Pre s → act s ≡ (ok a, t) → Post a t

module _ {ℓ κ μ} {S : Type ℓ} {A : Type κ} {B : Type μ} where
  pub seq-After :
      {Pre : S → Type 0} {Mid : A → S → Type 0} {Post : B → S → Type 0} (m : Action S A)
      (f : A → Action S B)
      → After Pre m Mid
      → ((a : A) → After (Mid a) (f a) Post)
      → After Pre (m >>= f) Post
  seq-After m f first next s t b pre e =
      let (a, u, q, p) = and_then-ok (m s) f e in next a u t b (first s u a pre q) p
