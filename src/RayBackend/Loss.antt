-- ===== src/RayBackend/Loss.antt =====
-- The loss of a session lock: that a cancel is asked for every task in the table.
pub mod Operations
use ray_dispatcher.Base.{
  ℕ, ◌≡◌, ◌≢◌, refl, sym, ap, ◌∙◌, subst, inl, inr, Bool, true, false, ◌||◌, Option, none, some,
  List, [], ◌∷◌, Str, Dict, get, put, arith, Bool-cases, Option-cases, All, All-mono, mem_str,
  holds, str_discrete, filter, not, if◌then◌else◌,
}
use ray_dispatcher.Values.{Job, JobHandle, JobResult, JobStatus}
use ray_dispatcher.Errors.{
  Exn, session_lock_lost, task_cancelled, Result, ok, raise, Action, pure, throw, catch, caught,
  and_then, and_then-ok, ◌>>=◌,
}
use ray_dispatcher.Provisioning.Inventory.{Outcome, raise_if_session_lost}
use ray_dispatcher.RayBackend.{
  Cluster, SshRay, S, call, without, ask, request_cancel, cancel_refs, lose, on_session_lost,
  loss_found, check_loss, fail_if_session_lost, enter, launched, submit, cancelled_result,
  was_cancelled, result_of, polled, known_status, status, cancel, known_result, resolve, placed,
  running_hosts, new_backend,
}

mem_str-without :
    (t token : Str) (ts : List Str) → mem_str t (without token ts) ≡ true → mem_str t ts ≡ true
unfolding without
mem_str-without t token [] h = h
mem_str-without t token (x ∷ ts) h = ground (arith, mem_str-without t token ts)

module _ {W : Type 0} where
  abbrev Owed : SshRay W → Type 0
  Owed s = (t : Str) → mem_str t s.cancel_requested ≡ true → mem_str t s.asked ≡ true

  -- Every token that counts as requested was asked for; once a session loss is known, so was every
  -- token in the table.
  pub record Asked (s : SshRay W) : Type 0 where
    pub owed : Owed s
    pub lost : (m : Str) → s.session_loss ≡ some m → All (λ e. mem_str e.0 s.asked ≡ true) s.refs

  -- An action that keeps the invariant, however it ends.
  abbrev pub Stable {ℓ} : {A : Type ℓ} → Action (SshRay W) A → Type 0
  Stable act = (s : SshRay W) → Asked s → Asked (act s).1

  pub Stable-then :
      {A B : Type 0} (m : Action (SshRay W) A) (f : A → Action (SshRay W) B)
      → Stable m
      → ((a : A) → Stable (f a))
      → Stable (m >>= f)
  Stable-then {A = A} m f first next s v = by_cases (m s) (first s v)
    where
      by_cases : (o : Result A × SshRay W) → Asked o.1 → Asked (and_then o f).1
      by_cases (ok a, t) u = next a t u
      by_cases (raise x, t) u = u

  pub Stable-catch :
      {A : Type 0} (body : Action (SshRay W) A) (handler : Exn → Action (SshRay W) A)
      → Stable body
      → ((e : Exn) → Stable (handler e))
      → Stable (catch body handler)
  Stable-catch {A = A} body handler first next s v = by_cases (body s) (first s v)
    where
      by_cases : (o : Result A × SshRay W) → Asked o.1 → Asked (caught o handler).1
      by_cases (ok a, t) u = u
      by_cases (raise x, t) u = next x t u

module _ {W : Type 0} (cluster : Cluster W) where
  pub call-Stable : {A : Type 0} (act : Action W A) → Stable (call cluster act)
  call-Stable act s v = record { owed = v.owed; lost = v.lost }

  -- What a request for a cancel leaves.
  record Asks (token : Str) (s t : SshRay W) : Type 0 where
    grows : (x : Str) → mem_str x s.asked ≡ true → mem_str x t.asked ≡ true
    refs : t.refs ≡ s.refs
    loss : t.session_loss ≡ s.session_loss
    owed : Owed s → Owed t
    here : Owed s → mem_str token t.asked ≡ true

  ask_from :
      (token : Str) (s : SshRay W) (o : Result (Unit {0}) × W)
      → Asks token s
          (caught
            (
              o.0,
              record s {
                cancel_requested = token ∷ s.cancel_requested;
                asked = token ∷ s.asked;
                world = o.1;
              },
            )
            (λ e t. (raise e, record t { cancel_requested = without token t.cancel_requested }))).1
  ask_from token s (ok u, w) = record {
    grows = λ x h. ground arith;
    refs = refl;
    loss = refl;
    owed = λ v x h. ground (arith, v x);
    here = λ v. ground arith;
  }
  ask_from token s (raise e, w) = record {
    grows = λ x h. ground arith;
    refs = refl;
    loss = refl;
    owed = λ v x h. ground (arith, v x, mem_str-without x token (token ∷ s.cancel_requested));
    here = λ v. ground arith;
  }

  request_cancel-Asks :
      (token : Str) (ref : ℕ) (s : SshRay W) → Asks token s (request_cancel cluster token ref s).1
  unfolding request_cancel ask
  request_cancel-Asks token ref s = elim (Bool-cases (mem_str token s.cancel_requested)) [
    | inl asked_before ↦ rw asked_before (record {
      grows = λ x h. h;
      refs = refl;
      loss = refl;
      owed = λ v. v;
      here = λ v. v token asked_before;
    })
    | inr not_yet ↦ rw not_yet (ask_from token s (cluster.cancel ref s.world))
  ]

  pub request_cancel-Stable : (token : Str) (ref : ℕ) → Stable (request_cancel cluster token ref)
  request_cancel-Stable token ref s v =
      let a = request_cancel-Asks token ref s in
      record {
        owed = a.owed v.owed;
        lost = λ m e.
            subst (All (λ e. mem_str e.0 (request_cancel cluster token ref s).1.asked ≡ true))
              (sym a.refs) (All-mono _ _ s.refs (λ e h. a.grows e.0 h) (v.lost m (sym a.loss ∙ e)));
      }

  -- What the cancels of a table leave.
  record AsksAll (refs : Dict ℕ) (s t : SshRay W) : Type 0 where
    grows : (x : Str) → mem_str x s.asked ≡ true → mem_str x t.asked ≡ true
    table : t.refs ≡ s.refs
    loss : t.session_loss ≡ s.session_loss
    owed : Owed t
    all : All (λ e. mem_str e.0 t.asked ≡ true) refs

  cancel_refs-AsksAll :
      (refs : Dict ℕ) (s : SshRay W) → Owed s → AsksAll refs s (cancel_refs cluster refs s).1
  unfolding cancel_refs
  cancel_refs-AsksAll [] s v = record {
    grows = λ x h. h;
    table = refl;
    loss = refl;
    owed = v;
    all = tt;
  }
  cancel_refs-AsksAll ((token, ref) ∷ refs) s v =
      let a = request_cancel-Asks token ref s in
      let b = cancel_refs-AsksAll refs (request_cancel cluster token ref s).1 (a.owed v) in
      record {
        grows = λ x h. b.grows x (a.grows x h);
        table = b.table ∙ a.refs;
        loss = b.loss ∙ a.loss;
        owed = b.owed;
        all = (b.grows token (a.here v), b.all);
      }

  lose-Stable : (m : Str) (known : Option Str) → Stable (lose cluster m known)
  unfolding lose
  lose-Stable m (some first) s v = v
  lose-Stable m none s v =
      let a = cancel_refs-AsksAll s.refs (record s { session_loss = some m }) v.owed in
      record {
        owed = a.owed;
        lost = λ n e.
            subst
              (All (λ e.
                mem_str e.0
                  (cancel_refs cluster s.refs (record s { session_loss = some m })).1.asked
                ≡ true))
              (sym a.table) a.all;
      }

  pub on_session_lost-Stable : (m : Str) → Stable (on_session_lost cluster m)
  unfolding on_session_lost
  on_session_lost-Stable m s v = lose-Stable m s.session_loss s v

  loss_found-Stable : (e : Exn) → Stable (loss_found cluster e)
  unfolding loss_found
  loss_found-Stable (session_lock_lost m) s v =
      Stable-then (on_session_lost cluster m) _ (on_session_lost-Stable m) (λ _ t u. u) s v
  loss_found-Stable _ s v = v

  check_loss-Stable : (m : Option Str) (o : Option (Outcome W)) → Stable (check_loss cluster m o)
  unfolding check_loss
  check_loss-Stable (some m) o s v = v
  check_loss-Stable none none s v = v
  check_loss-Stable none (some o) s v =
      Stable-catch (call cluster (raise_if_session_lost o)) (loss_found cluster)
        (call-Stable (raise_if_session_lost o)) loss_found-Stable s v

  pub fail_if_session_lost-Stable : Stable (fail_if_session_lost cluster)
  unfolding fail_if_session_lost
  fail_if_session_lost-Stable s v = check_loss-Stable s.session_loss s.outcome s v

  caught_loss :
      (o : Result (Unit {0}) × SshRay W) (u : Unit {0}) (t : SshRay W)
      → caught o (loss_found cluster) ≡ (ok u, t)
      → o ≡ (ok u, t)
  unfolding loss_found
  caught_loss (ok a, s) u t e = e
  caught_loss (raise (session_lock_lost m), s) u t e =
      let (_, _, _, k) = and_then-ok (on_session_lost cluster m s) _ e in ground arith
  caught_loss (raise _, s) u t e = ground arith

  -- Where it raises nothing, no loss is known.
  pub check_loss-ok :
      (m : Option Str) (o : Option (Outcome W)) (s t : SshRay W) (u : Unit {0})
      → s.session_loss ≡ m
      → check_loss cluster m o s ≡ (ok u, t)
      → t.session_loss ≡ none
  unfolding check_loss
  check_loss-ok (some m) o s t u q e = ground arith
  check_loss-ok none none s t u q e = sym (ap (λ x. x.1.session_loss) e) ∙ q
  check_loss-ok none (some o) s t u q e =
      let p = caught_loss (call cluster (raise_if_session_lost o) s) u t e in
      sym (ap (λ x. x.1.session_loss) p) ∙ q

  pub fail_if_session_lost-ok :
      (s t : SshRay W) (u : Unit {0})
      → fail_if_session_lost cluster s ≡ (ok u, t)
      → t.session_loss ≡ none
  unfolding fail_if_session_lost
  fail_if_session_lost-ok s t u e = check_loss-ok s.session_loss s.outcome s t u refl e
