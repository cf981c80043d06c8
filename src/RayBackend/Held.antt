-- ===== src/RayBackend/Held.antt =====
-- What every step before the cleanup leaves alone: the runtime, the actor and the sessions.
use ray_dispatcher.Base.{
  ℕ, ◌≡◌, refl, ◌∙◌, inl, inr, Option, none, some, [], ◌∷◌, Str, Dict, Bool-cases, mem_str,
}
use ray_dispatcher.Errors.{
  Exn, session_lock_lost, Result, ok, raise, Action, catch, caught, and_then, ◌>>=◌,
}
use ray_dispatcher.Provisioning.Inventory.{Outcome, raise_if_session_lost}
use ray_dispatcher.RayBackend.{
  Cluster, SshRay, call, ask, request_cancel, cancel_refs, lose, on_session_lost, loss_found,
  check_loss, fail_if_session_lost,
}

module _ {W : Type 0} where
  pub record Held (s t : SshRay W) : Type 0 where
    pub owns_runtime : t.owns_runtime ≡ s.owns_runtime
    pub actor : t.actor ≡ s.actor
    pub outcome : t.outcome ≡ s.outcome

  pub Held-trans : (s t u : SshRay W) → Held s t → Held t u → Held s u
  Held-trans s t u a b = record {
    owns_runtime = b.owns_runtime ∙ a.owns_runtime;
    actor = b.actor ∙ a.actor;
    outcome = b.outcome ∙ a.outcome;
  }

  pub Held-refl : (s : SshRay W) → Held s s
  Held-refl s = record { owns_runtime = refl; actor = refl; outcome = refl }

  -- An action that leaves them alone, however it ends.
  abbrev pub Holds {ℓ} : {A : Type ℓ} → Action (SshRay W) A → Type 0
  Holds act = (s : SshRay W) → Held s (act s).1

  pub Holds-then :
      {A B : Type 0} (m : Action (SshRay W) A) (f : A → Action (SshRay W) B)
      → Holds m
      → ((a : A) → Holds (f a))
      → Holds (m >>= f)
  Holds-then {A = A} m f first next s = by_cases (m s) (first s)
    where
      by_cases : (o : Result A × SshRay W) → Held s o.1 → Held s (and_then o f).1
      by_cases (ok a, t) h = Held-trans s t _ h (next a t)
      by_cases (raise x, t) h = h

  pub Holds-catch :
      {A : Type 0} (body : Action (SshRay W) A) (handler : Exn → Action (SshRay W) A)
      → Holds body
      → ((e : Exn) → Holds (handler e))
      → Holds (catch body handler)
  Holds-catch {A = A} body handler first next s = by_cases (body s) (first s)
    where
      by_cases : (o : Result A × SshRay W) → Held s o.1 → Held s (caught o handler).1
      by_cases (ok a, t) h = h
      by_cases (raise x, t) h = Held-trans s t _ h (next x t)

module _ {W : Type 0} (cluster : Cluster W) where
  pub call-Holds : {A : Type 0} (act : Action W A) → Holds (call cluster act)
  call-Holds act s = record { owns_runtime = refl; actor = refl; outcome = refl }

  ask-Holds : (token : Str) (ref : ℕ) → Holds (ask cluster token ref)
  unfolding ask
  ask-Holds token ref s =
      let h =
        Holds-catch (call cluster (cluster.cancel ref)) _ (call-Holds (cluster.cancel ref))
          (λ e t. record { owns_runtime = refl; actor = refl; outcome = refl })
          (record s { asked = token ∷ s.asked }) in
      record { owns_runtime = h.owns_runtime; actor = h.actor; outcome = h.outcome }

  pub request_cancel-Holds : (token : Str) (ref : ℕ) → Holds (request_cancel cluster token ref)
  unfolding request_cancel
  request_cancel-Holds token ref s = elim (Bool-cases (mem_str token s.cancel_requested)) [
    | inl before ↦ rw before (Held-refl s)
    | inr fresh ↦
        let h = ask-Holds token ref (record s { cancel_requested = token ∷ s.cancel_requested }) in
        rw fresh (record { owns_runtime = h.owns_runtime; actor = h.actor; outcome = h.outcome })
  ]

  cancel_refs-Holds : (refs : Dict ℕ) → Holds (cancel_refs cluster refs)
  unfolding cancel_refs
  cancel_refs-Holds [] s = Held-refl s
  cancel_refs-Holds ((token, ref) ∷ refs) s =
      let t = (request_cancel cluster token ref s).1 in
      Held-trans s t _ (request_cancel-Holds token ref s) (cancel_refs-Holds refs t)

  lose-Holds : (m : Str) (known : Option Str) → Holds (lose cluster m known)
  unfolding lose
  lose-Holds m (some first) s = Held-refl s
  lose-Holds m none s =
      let h = cancel_refs-Holds s.refs (record s { session_loss = some m }) in
      record { owns_runtime = h.owns_runtime; actor = h.actor; outcome = h.outcome }

  loss_found-Holds : (e : Exn) → Holds (loss_found cluster e)
  unfolding loss_found on_session_lost
  loss_found-Holds (session_lock_lost m) s =
      Holds-then (on_session_lost cluster m) _ (λ t. lose-Holds m t.session_loss t)
        (λ _ t. Held-refl t) s
  loss_found-Holds _ s = Held-refl s

  check_loss-Holds : (m : Option Str) (o : Option (Outcome W)) → Holds (check_loss cluster m o)
  unfolding check_loss
  check_loss-Holds (some m) o s = Held-refl s
  check_loss-Holds none none s = Held-refl s
  check_loss-Holds none (some o) s =
      Holds-catch (call cluster (raise_if_session_lost o)) (loss_found cluster)
        (call-Holds (raise_if_session_lost o)) loss_found-Holds s

  pub fail_if_session_lost-Holds : Holds (fail_if_session_lost cluster)
  unfolding fail_if_session_lost
  fail_if_session_lost-Holds s = check_loss-Holds s.session_loss s.outcome s
