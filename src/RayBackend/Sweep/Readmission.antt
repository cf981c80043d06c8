-- ===== src/RayBackend/Sweep/Readmission.antt =====
-- That a quarantined host is admitted again only when its processes are gone.
use ray_dispatcher.Base.{
  ℕ, ◌⊎◌, sym, Dict, get, ◌≡◌, refl, ap, ◌∙◌, Bool, true, false, Option, none, some, List, [], ◌∷◌,
  Str, arith, null, Bool-cases, inl, inr, if◌then◌else◌,
}
use ray_dispatcher.Errors.{Result, ok, raise, is_exception, caught, pure, throw, and_then-ok}
use ray_dispatcher.Transport.{Transport}
use ray_dispatcher.Processes.{Reader, reconcile_host}
use ray_dispatcher.Processes.Recorded.{Recorded, reconcile_host-Recorded}
use ray_dispatcher.Values.{RemoteHost}
use ray_dispatcher.RayBackend.{Cluster, transport_to}
use ray_dispatcher.RayBackend.Sweep.{
  after_one, all_reconciled, is_clean, within, readmit, sweep_host,
}

module _ {W : Type 0} (cluster : Cluster W) (read : Reader) (grace poll rounds tick : ℕ)
    (t : Transport W) (deadline : Option ℕ) where
  -- One pid file after the other, from one state to another: each was read, and a `kill -0` of the group
  -- that it names found no such group.
  abbrev pub AllGone : List Str → W → W → Type 0
  AllGone [] w v = w ≡ v
  AllGone (p ∷ ps) w v = (u : W) × Recorded t cluster.clock read p w u × AllGone ps u v

  one_more :
      (p : Str) (ps : List Str) (w v u : W) (o : Option Bool)
      → (all_reconciled cluster read grace poll rounds tick t deadline ps u ≡ (ok true, v)
          → AllGone ps u v)
      → (o ≡ some true → Recorded t cluster.clock read p w u)
      → after_one cluster read grace poll rounds tick
          (all_reconciled cluster read grace poll rounds tick t deadline ps)
          o
          u
        ≡ (ok true, v)
      → AllGone (p ∷ ps) w v
  unfolding after_one
  one_more p ps w v u none ih c e = ground arith
  one_more p ps w v u (some false) ih c e = ground arith
  one_more p ps w v u (some true) ih c e = (u, c refl, ih e)

  all_reconciled-AllGone :
      (ps : List Str) (w v : W)
      → all_reconciled cluster read grace poll rounds tick t deadline ps w ≡ (ok true, v)
      → AllGone ps w v
  unfolding all_reconciled
  all_reconciled-AllGone [] w v e = ap (λ x. x.1) e
  all_reconciled-AllGone (p ∷ ps) w v e =
      let check = reconcile_host t cluster.clock read rounds deadline grace poll p in
      let (o, u, q, k) =
        and_then-ok (check w)
          (after_one cluster read grace poll rounds tick
            (all_reconciled cluster read grace poll rounds tick t deadline ps))
          e in
      one_more p ps w v u o (all_reconciled-AllGone ps u v)
        (λ z.
          reconcile_host-Recorded t cluster.clock read rounds deadline grace poll p w u
            (q ∙ ap (λ x. (ok x, u)) z))
        k

  is_clean-AllGone :
      (paths : List Str) (w v : W)
      → is_clean cluster read grace poll rounds tick t deadline paths w ≡ (ok true, v)
      → (null paths ≡ false) × AllGone paths w v
  unfolding is_clean
  is_clean-AllGone [] w v e = ground arith
  is_clean-AllGone (p ∷ ps) w v e =
      by_result (all_reconciled cluster read grace poll rounds tick t deadline (p ∷ ps) w) refl e
    where
      by_result :
          (o : Result Bool × W)
          → all_reconciled cluster read grace poll rounds tick t deadline (p ∷ ps) w ≡ o
          → caught o (λ x. if is_exception x then pure false else throw x) ≡ (ok true, v)
          → (null (p ∷ ps) ≡ false) × AllGone (p ∷ ps) w v
      by_result (ok b, u) q k = (refl, all_reconciled-AllGone (p ∷ ps) w v (q ∙ k))
      by_result (raise x, u) q k = elim (Bool-cases (is_exception x)) [
        | inl plain ↦ let z = rw plain at k in ground arith
        | inr grave ↦ ground arith
      ]

module _ {W : Type 0} (cluster : Cluster W) (read : Reader) (grace poll rounds tick : ℕ)
    (hosts : Dict RemoteHost) (deadline : Option ℕ) (host : Str) where
  -- The actor named the pid files of the host, and a transport to it was made.
  abbrev pub Asked : List Str → Transport W → W → W → Type 0
  Asked paths t w v =
      (u : W) × (within cluster read grace poll rounds tick (cluster.orphan_paths host) deadline w
        ≡ (ok paths, u))
      × (transport_to cluster (get host hosts) u ≡ (ok t, v))

  -- The host stays quarantined, and nothing follows the checks; or it is admitted, after all its pid
  -- files were checked, and there was one at least.
  pub record Swept (w v : W) : Type 0 where
    pub paths : List Str
    pub transport : Transport W
    pub before : W
    pub after : W
    pub asked : Asked paths transport w before
    pub decided :
        ((v ≡ after)
          × (is_clean cluster read grace poll rounds tick transport deadline paths before
              ≡ (ok false, after)))
        ⊎ ((within cluster read grace poll rounds tick (cluster.mark_reconciled host) deadline after
              ≡ (ok tt, v))
            × (null paths ≡ false)
            × AllGone cluster read grace poll rounds tick transport deadline paths before after)

  -- When the sweep of a quarantined host returns: either the host stays quarantined, and nothing follows
  -- the checks; or the last thing was to admit it again, the actor had named a pid file of it at least,
  -- and all those that it named were read one after the other, and for each a `kill -0` of the group that
  -- it names found no such group.
  pub sweep_host-Swept :
      (w v : W)
      → sweep_host cluster read grace poll rounds tick hosts deadline host w ≡ (ok tt, v)
      → Swept w v
  unfolding sweep_host readmit
  sweep_host-Swept w v e =
      let (paths, a, q, e1) =
        and_then-ok
          (within cluster read grace poll rounds tick (cluster.orphan_paths host) deadline w) _ e in
      let (t, b, q', e2) = and_then-ok (transport_to cluster (get host hosts) a) _ e1 in
      let (clean, c, k, e3) =
        and_then-ok (is_clean cluster read grace poll rounds tick t deadline paths b) _ e2 in
      record {
        paths = paths;
        transport = t;
        before = b;
        after = c;
        asked = (a, q, q');
        decided = by_check clean paths t b c k e3;
      }
    where
      by_check :
          (clean : Bool) (paths : List Str) (t : Transport W) (b c : W)
          → is_clean cluster read grace poll rounds tick t deadline paths b ≡ (ok clean, c)
          → readmit cluster read grace poll rounds tick host deadline clean c ≡ (ok tt, v)
          → ((v ≡ c)
              × (is_clean cluster read grace poll rounds tick t deadline paths b ≡ (ok false, c)))
            ⊎ ((within cluster read grace poll rounds tick (cluster.mark_reconciled host) deadline c
                  ≡ (ok tt, v))
                × (null paths ≡ false)
                × AllGone cluster read grace poll rounds tick t deadline paths b c)
      by_check false paths t b c k e = inl (sym (ap (λ x. x.1) e), k)
      by_check true paths t b c k e =
          let (named, gone) =
            is_clean-AllGone cluster read grace poll rounds tick t deadline paths b c k in
          inr (e, named, gone)
