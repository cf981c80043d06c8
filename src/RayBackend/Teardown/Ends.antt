-- ===== src/RayBackend/Teardown/Ends.antt =====
-- How `teardown` ends: with everything released, or with nothing.
use ray_dispatcher.Base.{map, ℕ, ◌≡◌, ◌⊎◌, Bool, true, false, Option, none, some, List, [], Str}
use ray_dispatcher.Errors.{Exn, Result, ok, raise, pure, and_then}
use ray_dispatcher.Processes.{Reader}
use ray_dispatcher.RayBackend.{Cluster, SshRay}
use ray_dispatcher.Provisioning.Inventory.{Outcome, release_all}
use ray_dispatcher.RayBackend.Held.{Held}
use ray_dispatcher.RayBackend.Setup.Rollback.{IsIdle}
use ray_dispatcher.RayBackend.Sweep.{drain_jobs}
use ray_dispatcher.RayBackend.Sweep.Drained.{Drained}
use ray_dispatcher.RayBackend.Teardown.{purge_state, after_drain}

module _ {W : Type 0} (cluster : Cluster W) (read : Reader) (grace poll rounds tick : ℕ)
    (drain_timeout drain_rounds : ℕ) where
  -- What the release of the sessions and the shutdown of Ray make of the world.
  abbrev pub after_release : Option (Outcome W) → W → W
  after_release none w = w
  after_release (some o) w = (release_all o.sessions w).1

  abbrev pub after_shutdown : Bool → W → W
  after_shutdown true w = (cluster.shutdown w).1
  after_shutdown false w = w

  -- An idle backend with an empty table, which came about from `s` in this order: the sessions that
  -- `s` has were released, and last of all Ray was shut down if `s` owns it.
  pub record Closed (s t : SshRay W) : Type 0 where
    pub idle : IsIdle t
    pub refs : t.refs ≡ []
    pub submitted : t.submitted ≡ []
    pub cancel_requested : t.cancel_requested ≡ []
    pub before : W
    pub released : t.world ≡ after_shutdown s.owns_runtime (after_release s.outcome before)

  -- What went before: `_drain_jobs` returned, each task of `s` was over and no lease or quarantined host
  -- was seen, and the rest of `teardown` went on from the state that it left.
  pub record Follows (purge : Bool) (s : SshRay W) (o : Result (Option (Unit {0})) × SshRay W)
      : Type 0 where
    pub quiet : SshRay W
    pub ran :
        drain_jobs cluster read grace poll rounds tick drain_timeout drain_rounds
          (record s { draining = true })
        ≡ (ok true, quiet)
    pub drained : Drained cluster read grace poll rounds tick (map (λ x. x.1) s.refs) quiet
    pub rest :
        after_drain cluster read grace poll rounds tick drain_timeout drain_rounds purge true quiet
        ≡ o

  -- `_purge_remote_state` was broken off by what it raised.
  abbrev pub BrokenOff : Exn → Type 0
  BrokenOff e =
      (u v : SshRay W) × (purge_state cluster read grace poll rounds tick drain_timeout drain_rounds
          u
        ≡ (raise e, v))

  -- How a teardown ends: it still drains; or it is over; or it raised, with everything still held, or
  -- with everything released, or in the midst of a purge.
  abbrev Leaves : Bool → SshRay W → Result (Option (Unit {0})) × SshRay W → Type 0
  Leaves purge s (ok none, t) = Held s t
  Leaves purge s (ok (some u), t) = Closed s t
  Leaves purge s (raise e, t) = Held s t ⊎ (Closed s t ⊎ ((purge ≡ true) × BrokenOff e))

  -- The same, with what went before where something is released.
  abbrev pub Ends : Bool → SshRay W → Result (Option (Unit {0})) × SshRay W → Type 0
  Ends purge s (ok none, t) = Held s t
  Ends purge s (ok (some u), t) = Closed s t × Follows purge s (ok (some u), t)
  Ends purge s (raise e, t) =
      Held s t
      ⊎ ((Closed s t × Follows purge s (raise e, t))
          ⊎ ((purge ≡ true) × BrokenOff e × Follows purge s (raise e, t)))

  -- What the cleanup leaves, before the reset, from a state with these sessions and this runtime.
  abbrev Cleaned :
      Bool → Option (Outcome W) → Bool → Result (Option Exn × List Str) × SshRay W → Type 0
  Cleaned purge sessions owns (ok x, t) =
      (t.actor ≡ false)
      × (t.outcome ≡ none)
      × (t.owns_runtime ≡ owns)
      × (w : W) × (t.world ≡ after_release sessions w)
  Cleaned purge sessions owns (raise e, t) = (purge ≡ true) × BrokenOff e

  abbrev done : Result (Unit {0}) × SshRay W → Result (Option (Unit {0})) × SshRay W
  done o = and_then o (λ _. pure (some tt))
