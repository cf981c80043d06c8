-- ===== src/Provisioning/Host.antt =====
-- How HostProvisioner.provision ends.
use ray_dispatcher.Base.{
  ◌≡◌, refl, sym, ap, ◌∙◌, ◌⊎◌, inl, inr, true, false, Option, none, some, List, Str, codes, arith,
  Bool-cases, if◌then◌else◌, ◌++◌, ◌∷◌, [],
}
use ray_dispatcher.Values.{HostProvisioningResult}
use ray_dispatcher.Errors.{
  Exn, host_in_use, is_exception, message, Result, ok, raise, Action, pure, throw, caught, and_then,
  and_then-ok, After, seq-After,
}
use ray_dispatcher.Layout.{RemoteLayout}
use ray_dispatcher.HostSetup.{Provisioner, resolve_layout, preflight}
use ray_dispatcher.HostSetup.Tools.{install_uv, install_python}
use ray_dispatcher.HostSetup.Publish.{sync_source, publish_env, install_runner}
use ray_dispatcher.HostSetup.Secrets.{copy_secrets, post_setup}
use ray_dispatcher.Provisioning.{
  Session, Progress, failed_result, tried, checkpoint, set_source, set_env, call, last_steps, steps,
  clean_up, conclude, locked, not_locked, after_acquire, provision_host,
}

module _ {W : Type 0} where
  caught_state :
      (what : Str) (o : Result (Unit {0}) × W) (before after : List Str) (v : W)
      → caught
          (and_then o (λ _. pure before))
          (λ e. if is_exception e then pure (before ++ (what ++ message e) ∷ []) else throw e)
        ≡ (ok after, v)
      → v ≡ o.1
  caught_state what (ok u, w) before after v e = ground arith
  caught_state what (raise x, w) before after v e = elim (Bool-cases (is_exception x)) [
    | inl plain ↦ let p = rw plain at e in ground arith
    | inr grave ↦ ground arith
  ]

  -- What is tried is done, and what it leaves stays.
  pub tried-state :
      (what : Str) (act : Action W (Unit {0})) (before after : List Str) (w v : W)
      → tried what act before w ≡ (ok after, v)
      → v ≡ (act w).1
  unfolding tried
  tried-state what act before after w v e = caught_state what (act w) before after v e

module _ {W : Type 0} (self : Provisioner W) (session : Session W) where
  abbrev P : Type 0
  P = Progress W

  -- The digests so far.
  abbrev Has : Option Str → Option Str → P → Type 0
  Has source env p = (p.source_dig ≡ source) × (p.env_dig ≡ env)

  -- Right after a look at the heartbeat that found it alive.
  abbrev Looked : Option Str → Option Str → P → Type 0
  Looked source env p =
      (p.source_dig ≡ source)
      × (p.env_dig ≡ env)
      × (before : W) × (session.raise_if_failed before ≡ (ok tt, p.world))

  call-Has :
      {A : Type 0} {source env : Option Str} (act : Action W A)
      → After (Has source env) (call self session act) (λ _. Has source env)
  call-Has act p q a h e =
      (ap (λ x. x.1.source_dig) (sym e) ∙ h.0, ap (λ x. x.1.env_dig) (sym e) ∙ h.1)

  checkpoint-Has :
      {source env : Option Str}
      → After (Has source env) (checkpoint self session) (λ _. Has source env)
  unfolding checkpoint
  checkpoint-Has = call-Has session.raise_if_failed

  checkpoint-Looked :
      {source env : Option Str}
      → After (Has source env) (checkpoint self session) (λ _. Looked source env)
  unfolding checkpoint
  checkpoint-Looked p q a h e =
      let (s, n) = call-Has session.raise_if_failed p q a h e in (s, n, p.world, ground arith)

  set_env-Has :
      {source env : Option Str} (d : Str)
      → After (Has source env) (set_env self session d) (λ _. Has source (some d))
  unfolding set_env
  set_env-Has d p q a h e = (ap (λ x. x.1.source_dig) (sym e) ∙ h.0, ap (λ x. x.1.env_dig) (sym e))

  set_source-Has :
      {source env : Option Str} (d : Str)
      → After (Has source env) (set_source self session d) (λ _. Has (some d) env)
  unfolding set_source
  set_source-Has d p q a h e =
      (ap (λ x. x.1.source_dig) (sym e), ap (λ x. x.1.env_dig) (sym e) ∙ h.1)

  last_steps-Looked :
      (lo : RemoteLayout) (uv : Str) {source env : Option Str}
      → After
          (Has source env)
          (last_steps self session lo uv)
          (λ _ q. (d : Str) × Looked source (some d) q)
  unfolding last_steps
  last_steps-Looked lo uv = seq-After _ _ (call-Has (publish_env self lo uv)) (λ d.
      seq-After _ _ (set_env-Has d) (λ _. seq-After _ _ checkpoint-Has (λ _.
        seq-After _ _ (call-Has (install_runner self lo)) (λ _. seq-After _ _ checkpoint-Has (λ _.
          seq-After _ _ (call-Has (copy_secrets self lo)) (λ _. seq-After _ _ checkpoint-Has (λ _.
            seq-After _ _ (call-Has (post_setup self lo d))
              (λ _ p q a h e. (d, checkpoint-Looked p q a h e)))))))))

  steps-Looked :
      {source env : Option Str}
      → After
          (Has source env)
          (steps self session)
          (λ _ q. (s d : Str) × Looked (some s) (some d) q)
  unfolding steps
  steps-Looked = seq-After _ _ (call-Has (resolve_layout self)) (λ lo.
      seq-After _ _ checkpoint-Has (λ _. seq-After _ _ (call-Has (preflight self lo)) (λ _.
        seq-After _ _ checkpoint-Has (λ _. seq-After _ _ (call-Has (install_uv self lo)) (λ uv.
          seq-After _ _ checkpoint-Has (λ _. seq-After _ _ (call-Has (install_python self uv)) (λ _.
            seq-After _ _ checkpoint-Has (λ _. seq-After _ _ (call-Has (sync_source self lo)) (λ s.
              seq-After _ _ (set_source-Has s) (λ _. seq-After _ _ checkpoint-Has (λ _ p q a h e.
                let (d, l) = last_steps-Looked lo uv p q a h e in (s, d, l))))))))))))

  -- How `provision` of a host ends: with the world it leaves, and the pair that it returns.
  pub record Ends (w v : W) (r : HostProvisioningResult) (live : Option (Session W)) : Type 0 where
    pub host : r.host ≡ self.host.host
    -- a healthy host: its session is live, both digests are known, and the last thing that happened
    -- is a look at the heartbeat, which had not failed
    pub healthy :
        r.succeeded ≡ true
        → (live ≡ some session)
          × (s : Str) × (r.source_digest ≡ some s)
          × (d : Str) × (r.environment_digest ≡ some d)
          × (before : W) × (session.raise_if_failed before ≡ (ok tt, v))
    -- any other: another session has the lock, or the heartbeat was stopped and then the lock released
    pub unhealthy :
        r.succeeded ≡ false
        → (live ≡ none)
          × (((m : Str) × (session.acquire w ≡ (raise (host_in_use m), v)))
              ⊎ ((u : W) × (v ≡ (session.release (session.stop u).1).1)))

  clean_up-Ends :
      (e : Exn) (source env : Option Str) (w u v : W) (r : HostProvisioningResult)
      (live : Option (Session W))
      → clean_up self session e source env u ≡ (ok (r, live), v)
      → Ends w v r live
  unfolding clean_up failed_result
  clean_up-Ends e source env w u v r live q =
      let stopping = tried (codes "heartbeat stop failed: ") session.stop [] in
      let releasing = tried (codes "session lock release failed: ") session.release in
      let (first, a, p, k) = and_then-ok (stopping u) _ q in
      let (errors, b, p', k') = and_then-ok (releasing first a) _ k in
      let stopped = tried-state (codes "heartbeat stop failed: ") session.stop [] first u a p in
      let let_go =
        tried-state (codes "session lock release failed: ") session.release first errors a b p' in
      record {
        host = ground arith;
        healthy = λ z. ground arith;
        unhealthy = λ z. (
          ground arith,
          inr (u, ap (λ x. x.1) (sym k') ∙ let_go ∙ ap (λ x. (session.release x).1) stopped),
        );
      }

  conclude-Ends :
      (o : Result (Unit {0}) × P) (w v : W) (r : HostProvisioningResult) (live : Option (Session W))
      → ((p : P) → o ≡ (ok tt, p) → (s d : Str) × Looked (some s) (some d) p)
      → conclude self session o ≡ (ok (r, live), v)
      → Ends w v r live
  unfolding conclude
  conclude-Ends (ok u, p) w v r live done e =
      let (s, d, l) = done p refl in
      let (hs, hd, before, alive) = l in
      let source : r.source_digest ≡ p.source_dig = ground arith in
      let env : r.environment_digest ≡ p.env_dig = ground arith in
      record {
        host = ground arith;
        healthy = λ z. (ground arith, s, source ∙ hs, d, env ∙ hd, before, ground arith);
        unhealthy = λ z. ground arith;
      }
  conclude-Ends (raise x, p) w v r live done e = elim (Bool-cases (is_exception x)) [
    | inl plain ↦ clean_up-Ends x p.source_dig p.env_dig w p.world v r live (rw plain at e)
    | inr grave ↦ ground arith
  ]

  locked-Ends :
      (w u v : W) (r : HostProvisioningResult) (live : Option (Session W))
      → locked self session u ≡ (ok (r, live), v)
      → Ends w v r live
  unfolding locked
  locked-Ends w u v r live e =
      let (_, a, _, k) = and_then-ok (session.start u) _ e in
      let p : P = record { source_dig = none; env_dig = none; world = a } in
      conclude-Ends (steps self session p) w v r live (λ q z. steps-Looked p q tt (refl, refl) z) k

  not_locked-Ends :
      (x : Exn) (w u v : W) (r : HostProvisioningResult) (live : Option (Session W))
      → session.acquire w ≡ (raise x, u)
      → not_locked self session x u ≡ (ok (r, live), v)
      → Ends w v r live
  unfolding not_locked failed_result
  not_locked-Ends (host_in_use m) w u v r live q e = record {
    host = ground arith;
    healthy = λ z. ground arith;
    unhealthy = λ z. (ground arith, inl (m, q ∙ ap (λ x. (raise (host_in_use m), x.1)) e));
  }
  not_locked-Ends _ w u v r live q e = ground arith

  -- When `provision` of a host returns, the result is under the host's name, and either the host is
  -- healthy and its session is returned with it, with both digests known and the heartbeat seen alive
  -- after the last step; or it is not and no session is: then another session holds the lock, or the
  -- heartbeat was stopped and after it the lock released, which were both tried whatever they raised.
  pub provision_host-Ends :
      (w v : W) (r : HostProvisioningResult) (live : Option (Session W))
      → provision_host self session w ≡ (ok (r, live), v)
      → Ends w v r live
  unfolding provision_host after_acquire
  provision_host-Ends w v r live e = acquired (session.acquire w) refl e
    where
      acquired :
          (o : Result (Unit {0}) × W)
          → session.acquire w ≡ o
          → after_acquire self session o ≡ (ok (r, live), v)
          → Ends w v r live
      acquired (ok u, s) q k = locked-Ends w s v r live k
      acquired (raise x, s) q k = not_locked-Ends x w s v r live q k
