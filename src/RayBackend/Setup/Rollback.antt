-- ===== src/RayBackend/Setup/Rollback.antt =====
-- What a failed `setup` leaves.
use ray_dispatcher.Base.{
  refl, if◌then◌else◌, ◌≢◌, ℕ, Str, ◌≡◌, sym, ap, subst, Bool, true, false, none, some, List, [],
  arith,
}
use ray_dispatcher.Values.{RemoteHost, Project, ProvisioningReport}
use ray_dispatcher.Errors.{Exn, Result, ok, raise, caught, and_then}
use ray_dispatcher.Provisioning.Inventory.{Outcome, Provider, provision, release_all}
use ray_dispatcher.RayBackend.{Cluster, SshRay}
use ray_dispatcher.RayBackend.Setup.{
  ignored, shut_down, set_up, roll_back, stop_actor, drop_outcome, drop_runtime, provisioned,
  fresh_setup, begun, setup,
}

-- Nothing is set up: no runtime, no actor, no sessions, no hosts.
pub record IsIdle {W : Type 0} (s : SshRay W) : Type 0 where
  pub owns_runtime : s.owns_runtime ≡ false
  pub actor : s.actor ≡ false
  pub outcome : s.outcome ≡ none
  pub runtimes : s.runtimes ≡ []
  pub inv_hosts : s.inv_hosts ≡ []

module _ {W : Type 0} (cluster : Cluster W) (provider : Provider W) (project : Project)
    (runner_path : Str) (require_all_hosts : Bool) (min_disk_mb : ℕ) (hosts : List RemoteHost) where
  -- Ray is shut down, if the backend owns it or it is initialized.
  abbrev pub closing : Bool → W → W
  closing owns w =
      if owns
      then (cluster.shutdown w).1
      else (shut_down cluster provider project runner_path require_all_hosts min_disk_mb hosts w).1

  -- The last thing that happened to the world: the sessions of an outcome were released, and after
  -- that Ray was shut down.
  abbrev pub LetGo : Outcome W → W → Type 0
  LetGo o v = (owns : Bool) × (w : W) × (v ≡ closing owns (release_all o.sessions w).1)

  roll_back-IsIdle :
      (o : Outcome W) (x e : Exn) (s t : SshRay W)
      → roll_back cluster provider project runner_path require_all_hosts min_disk_mb hosts o x s
        ≡ (raise e, t)
      → IsIdle t × LetGo o t.world
  unfolding roll_back stop_actor drop_outcome drop_runtime ignored
  roll_back-IsIdle o x e s t q = (
    record {
      owns_runtime = ap (λ y. y.1.owns_runtime) (sym q);
      actor = ap (λ y. y.1.actor) (sym q);
      outcome = ap (λ y. y.1.outcome) (sym q);
      runtimes = ap (λ y. y.1.runtimes) (sym q);
      inv_hosts = ap (λ y. y.1.inv_hosts) (sym q);
    },
    (
      s.owns_runtime,
      (if s.actor then (cluster.kill_actor s.world).1 else s.world),
      ap (λ y. y.1.world) (sym q),
    ),
  )

  -- From where the hosts are provisioned: it raises after the rollback.
  provisioned-IsIdle :
      (o : Outcome W) (e : Exn) (s t : SshRay W)
      → provisioned cluster provider project runner_path require_all_hosts min_disk_mb hosts o s
        ≡ (raise e, t)
      → IsIdle t × LetGo o t.world
  unfolding provisioned
  provisioned-IsIdle o e s t q =
      by_cases
        (set_up cluster provider project runner_path require_all_hosts min_disk_mb hosts o
          (record s { outcome = some o }))
        q
    where
      by_cases :
          (r : Result ProvisioningReport × SshRay W)
          → caught r
              (roll_back cluster provider project runner_path require_all_hosts min_disk_mb hosts o)
            ≡ (raise e, t)
          → IsIdle t × LetGo o t.world
      by_cases (ok report, u) p = ground arith
      by_cases (raise x, u) p = roll_back-IsIdle o x e u t p

  -- How a world was left: Ray is initialized already or could not be asked, or `provision` raised; or
  -- the hosts were provisioned, and then let go.
  pub data Undone (force : Bool) (v : W) : Type 0 where
    not_begun :
        (w : W) (r : Result Bool)
        → r ≢ ok false
        → cluster.is_initialized w ≡ (r, v)
        → Undone force v
    not_provisioned :
        (e : Exn) (w : W)
        → provision provider project runner_path force require_all_hosts min_disk_mb hosts none w
          ≡ (raise e, v)
        → Undone force v
    let_go :
        (o : Outcome W) (w u : W)
        → provision provider project runner_path force require_all_hosts min_disk_mb hosts none w
          ≡ (ok o, u)
        → LetGo o v
        → Undone force v

  idle_in : (w : W) (s : SshRay W) → IsIdle s → IsIdle (record s { world = w })
  idle_in w s v = record {
    owns_runtime = v.owns_runtime;
    actor = v.actor;
    outcome = v.outcome;
    runtimes = v.runtimes;
    inv_hosts = v.inv_hosts;
  }

  -- What a `setup` that raised leaves.
  abbrev pub Ends : Bool → SshRay W → Type 0
  Ends force t = IsIdle t × Undone force t.world

  fresh-Ends :
      (force : Bool) (e : Exn) (s t : SshRay W)
      → IsIdle s
      → fresh_setup cluster provider project runner_path require_all_hosts min_disk_mb hosts force s
        ≡ (raise e, t)
      → Ends force t
  unfolding fresh_setup
  fresh-Ends force e s t v q =
      by_cases
        (provision provider project runner_path force require_all_hosts min_disk_mb hosts none
          s.world)
        refl q
    where
      by_cases :
          (r : Result (Outcome W) × W)
          → provision provider project runner_path force require_all_hosts min_disk_mb hosts none
              s.world
            ≡ r
          → and_then
              (r.0, record s { draining = false; session_loss = none; world = r.1 })
              (provisioned cluster provider project runner_path require_all_hosts min_disk_mb hosts)
            ≡ (raise e, t)
          → Ends force t
      by_cases (ok o, w) k p =
          let (idle, gone) =
            provisioned-IsIdle o e (record s { draining = false; session_loss = none; world = w }) t
              p in
          (idle, let_go o s.world w k gone)
      by_cases (raise x, w) k p =
          subst (λ y. Ends force y.1) p
            (
              record {
                owns_runtime = v.owns_runtime;
                actor = v.actor;
                outcome = v.outcome;
                runtimes = v.runtimes;
                inv_hosts = v.inv_hosts;
              },
              not_provisioned x s.world k,
            )

  begun-Ends :
      (there force : Bool) (e : Exn) (w : W) (s t : SshRay W)
      → cluster.is_initialized w ≡ (ok there, s.world)
      → IsIdle s
      → begun cluster provider project runner_path require_all_hosts min_disk_mb hosts force there s
        ≡ (raise e, t)
      → Ends force t
  unfolding begun
  begun-Ends true force e w s t k v q =
      subst (λ y. Ends force y.1) q (v, not_begun w (ok true) (λ z. ground arith) k)
  begun-Ends false force e w s t k v q = fresh-Ends force e s t v q

  -- A `setup` that raises on an idle backend leaves it idle: whatever step failed, and whatever the
  -- rollback itself met, no runtime, no actor, no sessions and no hosts are left. Where the hosts had
  -- been provisioned, the last that happened was that their sessions were released and then Ray shut
  -- down.
  pub setup-Ends :
      (force : Bool) (e : Exn) (s t : SshRay W)
      → IsIdle s
      → setup cluster provider project runner_path require_all_hosts min_disk_mb hosts force s
        ≡ (raise e, t)
      → Ends force t
  unfolding setup
  setup-Ends force e s t v q = by_cases (cluster.is_initialized s.world) refl q
    where
      by_cases :
          (r : Result Bool × W)
          → cluster.is_initialized s.world ≡ r
          → and_then
              (r.0, record s { world = r.1 })
              (begun cluster provider project runner_path require_all_hosts min_disk_mb hosts force)
            ≡ (raise e, t)
          → Ends force t
      by_cases (ok there, w) k p =
          begun-Ends there force e s.world (record s { world = w }) t k (idle_in w s v) p
      by_cases (raise x, w) k p =
          subst (λ y. Ends force y.1) p
            (idle_in w s v, not_begun s.world (raise x) (λ z. ground arith) k)
