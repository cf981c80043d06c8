-- ===== src/Provisioning/Inventory/Report.antt =====
-- What `provision` returns: a report in the order of the inventory, and the sessions of the hosts that
-- are healthy.
use ray_dispatcher.Base.{
  ℕ, null, length, codes, ◌≡◌, refl, sym, ap, ◌∙◌, subst, inl, inr, Bool, true, false, Option, none,
  some, List, [], ◌∷◌, Str, Dict, get, put, get-put, arith, Bool-cases, Option-cases, All, All-mono,
  map, mem_str, IsDistinct, holds, str_discrete, if◌then◌else◌,
}
use ray_dispatcher.Values.{RemoteHost, Project, ProvisioningReport}
use ray_dispatcher.Errors.{
  Result, ok, raise, is_exception, message, pure, throw, caught, and_then-ok, Action,
}
use ray_dispatcher.Provisioning.{Session, Provisioned, failed_result}
use ray_dispatcher.Provisioning.Host.{provision_host-Ends}
use ray_dispatcher.Provisioning.Inventory.{
  Outcome, label, healthy, needs_file, session_of, try_host, provisioner, Provider, work, filed,
  keep_live, gathered, outcome_of, provision,
}
use ray_dispatcher.Provisioning.Inventory.Release.{accept-Accepts}

abbrev pub IsSome {ℓ} : {A : Type ℓ} → Option A → Type 0
IsSome none = ⊥
IsSome (some a) = Unit

-- A result is the host's, and a session is with it exactly if it is a success.
abbrev pub Fits : {W : Type 0} → RemoteHost → Provisioned W → Type 0
Fits h (r, live) =
    (r.host ≡ h.host) × (r.succeeded ≡ true → IsSome live) × (r.succeeded ≡ false → live ≡ none)

abbrev pub labels : List RemoteHost → List Str
labels hs = map (λ (h : RemoteHost). label h) hs

str_discrete-sym : (a b : Str) → holds (str_discrete a b) ≡ false → holds (str_discrete b a) ≡ false
str_discrete-sym a b n = ground arith

module _ {W : Type 0} where
  -- The hosts of the futures.
  abbrev pub served : List (RemoteHost × Provisioned W) → List RemoteHost
  served rs = map (λ e. e.0) rs

  filed-get :
      (k : Str) (rs : List (RemoteHost × Provisioned W)) (d : Dict (Provisioned W))
      → mem_str k (labels (served rs)) ≡ false
      → get k (filed rs d) ≡ get k d
  unfolding filed
  filed-get k [] d n = refl
  filed-get k ((h, r) ∷ rs) d n =
      ground (arith, filed-get k rs (put (label h) r d), get-put (label h) k r d)

  -- Every result is found under the label of its host.
  filed_lem :
      (rs : List (RemoteHost × Provisioned W)) (d : Dict (Provisioned W))
      → IsDistinct (labels (served rs))
      → All (λ e. get (label e.0) (filed rs d) ≡ some e.1) rs
  unfolding filed
  filed_lem [] d v = tt
  filed_lem ((h, r) ∷ rs) d v = (
    filed-get (label h) rs (put (label h) r d) v.0 ∙ get-put (label h) (label h) r d ∙ ground arith,
    filed_lem rs (put (label h) r d) v.1,
  )

  keep_live-get :
      (k : Str) (h : RemoteHost) (live : Option (Session W)) (d : Dict (Session W))
      → holds (str_discrete (label h) k) ≡ false
      → get k (keep_live h live d) ≡ get k d
  unfolding keep_live
  keep_live-get k h none d n = refl
  keep_live-get k h (some s) d n = ground (arith, get-put (label h) k s d)

  keep_live_lem :
      (h : RemoteHost) (live : Option (Session W)) (d : Dict (Session W))
      → get (label h) d ≡ none
      → get (label h) (keep_live h live d) ≡ live
  unfolding keep_live
  keep_live_lem h none d n = n
  keep_live_lem h (some s) d n = ground (arith, get-put (label h) (label h) s d)

  -- A host of the report, with the sessions: its session is there exactly if it is a success.
  abbrev pub Reports : Dict (Session W) → List RemoteHost → ProvisioningReport → Type 0
  Reports sessions [] [] = Unit
  Reports sessions (h ∷ hs) (r ∷ rs) = Fits h (r, get (label h) sessions) × Reports sessions hs rs
  Reports sessions _ _ = ⊥

  gathered-get :
      (k : Str) (d : Dict (Provisioned W)) (hs : List RemoteHost) (s all : Dict (Session W))
      (rs : ProvisioningReport)
      → mem_str k (labels hs) ≡ false
      → gathered d hs s ≡ some (rs, all)
      → get k all ≡ get k s
  unfolding gathered
  gathered-get k d [] s all rs n e = ground arith
  gathered-get k d (h ∷ hs) s all rs n e = elim (Option-cases (get (label h) d)) [
    | inl q ↦ ground arith
    | inr (x, q) ↦ elim (Option-cases (gathered d hs (keep_live h x.1 s))) [
      | inl p ↦ ground arith
      | inr (y, p) ↦
          let tail = gathered-get k d hs (keep_live h x.1 s) y.1 y.0 (ground arith) p in
          let same : y.1 ≡ all = ground arith in
          ap (get k) (sym same) ∙ tail ∙ keep_live-get k h x.1 s (ground arith)
    ]
  ]

  still_new :
      (h : RemoteHost) (live : Option (Session W)) (s : Dict (Session W))
      (es : List (RemoteHost × Provisioned W))
      → mem_str (label h) (labels (served es)) ≡ false
      → All (λ e. get (label e.0) s ≡ none) es
      → All (λ e. get (label e.0) (keep_live h live s) ≡ none) es
  still_new h live s [] n m = tt
  still_new h live s ((j, x) ∷ es) n m = (
    keep_live-get (label j) h live s (str_discrete-sym (label j) (label h) (ground arith)) ∙ m.0,
    still_new h live s es (ground arith) m.1,
  )

  gathered-Reports :
      (d : Dict (Provisioned W)) (es : List (RemoteHost × Provisioned W)) (s all : Dict (Session W))
      (rs : ProvisioningReport)
      → IsDistinct (labels (served es))
      → All (λ e. get (label e.0) d ≡ some e.1) es
      → All (λ e. Fits e.0 e.1) es
      → All (λ e. get (label e.0) s ≡ none) es
      → gathered d (served es) s ≡ some (rs, all)
      → Reports all (served es) rs
  unfolding gathered
  gathered-Reports d [] s all [] v found fits new e = tt
  gathered-Reports d [] s all (r ∷ rs) v found fits new e = ground arith
  gathered-Reports d ((h, (r, live)) ∷ es) s all rs v found fits new e =
      let more = rw (found.0, gathered) at e in
      elim (Option-cases (gathered d (served es) (keep_live h live s))) [
        | inl p ↦ ground arith
        | inr (y, p) ↦
            let tail =
              gathered-Reports d es (keep_live h live s) y.1 y.0 v.1 found.1 fits.1
                (still_new h live s es v.0 new.1) p in
            let here : get (label h) y.1 ≡ live =
              gathered-get (label h) d (served es) (keep_live h live s) y.1 y.0 v.0 p
              ∙ keep_live_lem h live s new.0 in
            let report : r ∷ y.0 ≡ rs = ground arith in
            let sessions : y.1 ≡ all = ground arith in
            subst (λ x. Reports x (h ∷ served es) rs) sessions
              (subst (Reports y.1 (h ∷ served es)) report
                (subst (λ x. Fits h (r, x)) (sym here) fits.0, tail))
      ]

  all_new :
      (es : List (RemoteHost × Provisioned W))
      → All (λ e. get {V = Session W} (label e.0) [] ≡ none) es
  all_new [] = tt
  all_new (e ∷ es) = (refl, all_new es)

module _ {W : Type 0} (provider : Provider W) (project : Project) (runner_path : Str)
    (force require_all_hosts : Bool) (min_disk_mb : ℕ) where
  abbrev pub work_of : Str → RemoteHost → Action W (Provisioned W)
  work_of = work provider project runner_path force require_all_hosts min_disk_mb

  caught-Fits :
      (h : RemoteHost) (o : Result (Provisioned W) × W) (e : Provisioned W) (v : W)
      → ((x : Provisioned W) (u : W) → o ≡ (ok x, u) → Fits h x)
      → caught o (λ x.
        if is_exception x then pure (failed_result h.host none none (message x), none) else throw x)
        ≡ (ok e, v)
      → Fits h e
  unfolding failed_result
  caught-Fits h (ok x, u) e v fits q =
      let same : x ≡ e = ground arith in subst (Fits h) same (fits x u refl)
  caught-Fits h (raise x, u) e v fits q = elim (Bool-cases (is_exception x)) [
    | inl plain ↦
        let p = rw plain at q in
        let same : (failed_result h.host none none (message x), none) ≡ e = ground arith in
        subst (Fits h) same (refl, λ z. ground arith, λ z. refl)
    | inr grave ↦ ground arith
  ]

  work-Fits :
      (sid : Str) (h : RemoteHost) (w v : W) (e : Provisioned W)
      → work_of sid h w ≡ (ok e, v)
      → Fits h e
  unfolding work try_host provisioner
  work-Fits sid h w v e q =
      caught-Fits h
        (try_host provider project runner_path force require_all_hosts min_disk_mb sid h w) e v
        (λ x u p.
          let (t, s, _, k) = and_then-ok (provider.factory h w) _ p in
          let ends = provision_host-Ends _ (provider.session_for t sid) s u x.0 x.1 k in
          (ends.host, λ z. subst IsSome (sym (ends.healthy z).0) tt, λ z. (ends.unhealthy z).0))
        q

  -- Every future has what its work returned, and the futures are the hosts'.
  abbrev pub PoolRuns : Type 0
  PoolRuns =
      (sid : Str) (hosts : List RemoteHost) (w v : W) (es : List (RemoteHost × Provisioned W))
      → provider.pool hosts (work_of sid) w ≡ (ok es, v)
      → (served es ≡ hosts) × All (λ e. (s t : W) × (work_of sid e.0 s ≡ (ok e.1, t))) es

  -- What an outcome says of the hosts.
  pub record Complete (hosts : List RemoteHost) (o : Outcome W) : Type 0 where
    -- a result for each host, in order; its session is kept exactly if it is a success
    pub reports : Reports o.sessions hosts o.report
    pub a_host : null (healthy o.report) ≡ false
    pub all_hosts : require_all_hosts ≡ true → length (healthy o.report) ≡ length hosts

  outcome_of-Complete :
      (es : List (RemoteHost × Provisioned W)) (o : Outcome W) (w v : W)
      → IsDistinct (labels (served es))
      → All (λ e. Fits e.0 e.1) es
      → outcome_of provider project runner_path force require_all_hosts min_disk_mb (served es) es w
        ≡ (ok o, v)
      → Complete (served es) o
  unfolding outcome_of
  outcome_of-Complete es o w v d fits q =
      elim (Option-cases (gathered (filed es []) (served es) [])) [
        | inl p ↦ ground arith
        | inr (y, p) ↦
            let made : Outcome W = record { report = y.0; sessions = y.1 } in
            let accepts = accept-Accepts require_all_hosts (length (served es)) made w in
            let (same, _, some_host, every) =
              accepts.kept o (ap (λ x. x.0) (rw (p, outcome_of) at q)) in
            subst (Complete (served es)) (sym same) (record {
              reports =
                  gathered-Reports (filed es []) es [] y.1 y.0 d (filed_lem es [] d) fits
                    (all_new es) p;
              a_host = some_host;
              all_hosts = every;
            })
      ]

  -- When `provision` returns, with hosts of different labels, its report has a result for each host,
  -- in the order of the inventory and under the host's name, and it keeps a session exactly for the
  -- hosts whose result is a success; there is one, and if all hosts are required all are successes.
  pub provision-Complete :
      (hosts : List RemoteHost) (session_id : Option Str) (o : Outcome W) (w v : W)
      → PoolRuns
      → IsDistinct (labels hosts)
      → provision provider project runner_path force require_all_hosts min_disk_mb hosts session_id
          w
        ≡ (ok o, v)
      → Complete hosts o
  unfolding provision
  provision-Complete hosts session_id o w v runs d q =
      let (_, a, _, k0) =
        and_then-ok
          (needs_file provider project runner_path force require_all_hosts min_disk_mb
            (codes "pyproject.toml") w)
          _ q in
      let (_, b, _, k1) =
        and_then-ok
          (needs_file provider project runner_path force require_all_hosts min_disk_mb
            (codes "uv.lock") a)
          _ k0 in
      let (sid, c, _, k2) =
        and_then-ok
          (session_of provider project runner_path force require_all_hosts min_disk_mb session_id b)
          _ k1 in
      let (es, u, p, k3) = and_then-ok (provider.pool hosts (work_of sid) c) _ k2 in
      let (same, ran) = runs sid hosts c u es p in
      subst (λ hs. Complete hs o) same
        (outcome_of-Complete es o u v (subst (λ hs. IsDistinct (labels hs)) (sym same) d)
          (All-mono _ _ es (λ e r. work-Fits sid e.0 r.0 r.1 e.1 r.2) ran)
          (subst
            (λ hs.
              outcome_of provider project runner_path force require_all_hosts min_disk_mb hs es u
              ≡ (ok o, v))
            (sym same) k3))
