-- ===== src/Dispatcher/Closing.antt =====
-- What `teardown` does.
use ray_dispatcher.Base.{
  ◌≡◌, refl, sym, ap, ◌∙◌, inl, inr, Bool, true, false, not, ◌&&◌, none, some, List, [], ◌∷◌, arith,
  null, codes, subst, if◌then◌else◌, Bool-cases,
}
use ray_dispatcher.Values.{JobHandle}
use ray_dispatcher.Errors.{
  Result, Exn, dispatcher_error, is_exception, catch, caught, ok, raise, and_then-ok, pure, throw,
}
use ray_dispatcher.Dispatcher.{
  Backend, Dispatcher, torn_down, cancelled, active, cancel, cancel_each, cleared, tear_down,
  tear_down_idle, teardown, exit,
}
use ray_dispatcher.Dispatcher.Submission.{cancels}

module _ {W : Type 0} (backend : Backend W) (raise_on_failure require_all_hosts : Bool) where
  -- The same dispatcher in another world.
  abbrev pub Keeps : Dispatcher W → Dispatcher W → Type 0
  Keeps d e =
      (e.calls ≡ d.calls)
      × (e.outstanding ≡ d.outstanding)
      × (e.setup_done ≡ d.setup_done)
      × (e.setup_report ≡ d.setup_report)

  active-Keeps :
      (hs : List JobHandle) (d : Dispatcher W)
      → Keeps d (active backend raise_on_failure require_all_hosts hs d).1
  unfolding active
  active-Keeps [] d = (refl, refl, refl, refl)
  active-Keeps (h ∷ hs) d =
      ground (arith, active-Keeps hs (record d { world = (backend.status h d.world).1 }))

  -- While a job of the dispatcher is active, `teardown(purge=True)` raises; it cancels no job and
  -- leaves the backend as it is.
  pub teardown-refuses :
      (d e : Dispatcher W) (h : JobHandle) (hs : List JobHandle)
      → null d.outstanding ≡ false
      → active backend raise_on_failure require_all_hosts d.outstanding d ≡ (ok (h ∷ hs), e)
      → (teardown backend raise_on_failure require_all_hosts true d
          ≡ (raise (dispatcher_error (codes "teardown(purge=True) rejected")), e))
        × Keeps d e
  unfolding teardown tear_down_idle
  teardown-refuses d e h hs some_left busy =
      (rw (some_left, busy) refl, subst (λ x. Keeps d x.1) busy (active-Keeps d.outstanding d))

  caught_cancel :
      (h : JobHandle) (d : Dispatcher W)
      → let o =
          caught
            (cancel backend raise_on_failure require_all_hosts h d)
            (λ e. if is_exception e then pure tt else throw e) in
        (o.1.calls ≡ cancelled h ∷ d.calls) × (o.1.outstanding ≡ d.outstanding)
  unfolding cancel
  caught_cancel h d = ground arith

  cancel_each_lem :
      (hs : List JobHandle) (d e : Dispatcher W) (u : Unit {0})
      → cancel_each backend raise_on_failure require_all_hosts hs d ≡ (ok u, e)
      → e.calls ≡ cancels hs d.calls
  unfolding cancel_each
  cancel_each_lem [] d e u q = ground arith
  cancel_each_lem (h ∷ hs) d e u q =
      let one =
        catch (cancel backend raise_on_failure require_all_hosts h)
          (λ x. if is_exception x then pure tt else throw x) in
      let (a, s, p, rest) = and_then-ok (one d) _ q in
      cancel_each_lem hs s e u rest
      ∙ ap (cancels hs) (ap (λ x. x.1.calls) (sym p) ∙ (caught_cancel h d).0)

  -- A dispatcher that was torn down.
  pub record Closed (purge : Bool) (d e : Dispatcher W) : Type 0 where
    pub calls : e.calls ≡ torn_down purge ∷ cancels d.outstanding d.calls
    pub outstanding : e.outstanding ≡ []
    pub setup_done : e.setup_done ≡ false
    pub setup_report : e.setup_report ≡ none

  tear_down-Closed :
      (purge : Bool) (d e : Dispatcher W) (u : Unit {0})
      → tear_down backend raise_on_failure require_all_hosts purge d ≡ (ok u, e)
      → Closed purge d e
  unfolding tear_down cleared
  tear_down-Closed purge d e u q =
      let (a, s, p, r) =
        and_then-ok (cancel_each backend raise_on_failure require_all_hosts d.outstanding d) _ q in
      let (b, t, p', r') =
        and_then-ok
          (
            (backend.teardown purge s.world).0,
            record s {
              calls = torn_down purge ∷ s.calls;
              world = (backend.teardown purge s.world).1;
            },
          )
          _ r in
      let c = cancel_each_lem d.outstanding d s a p in
      record {
        calls =
            sym (ap (λ x. x.1.calls) r')
            ∙ sym (ap (λ x. x.1.calls) p')
            ∙ ap (λ cs. torn_down purge ∷ cs) c;
        outstanding = ground arith;
        setup_done = ground arith;
        setup_report = ground arith;
      }

  tear_down_idle-Closed :
      (purge : Bool) (d s e : Dispatcher W) (busy : List JobHandle)
      → Keeps d s
      → tear_down_idle backend raise_on_failure require_all_hosts purge busy s ≡ (ok tt, e)
      → Closed purge d e
  unfolding tear_down_idle
  tear_down_idle-Closed purge d s e [] k r =
      let c = tear_down-Closed purge s e tt r in
      record {
        calls =
            c.calls
            ∙ ap (λ cs. torn_down purge ∷ cs)
                (ap (λ hs. cancels hs s.calls) k.1 ∙ ap (cancels d.outstanding) k.0);
        outstanding = c.outstanding;
        setup_done = c.setup_done;
        setup_report = c.setup_report;
      }
  tear_down_idle-Closed purge d s e (h ∷ hs) k r = ground arith

  -- When `teardown` ends well, it asked for a cancel of every outstanding job, in order, and then for
  -- the backend's teardown; no job is outstanding, and the dispatcher may be set up again.
  pub teardown-Closed :
      (purge : Bool) (d e : Dispatcher W)
      → teardown backend raise_on_failure require_all_hosts purge d ≡ (ok tt, e)
      → Closed purge d e
  unfolding teardown tear_down_idle
  teardown-Closed purge d e q = elim (Bool-cases (purge && not (null d.outstanding))) [
    | inl asks ↦
        let (busy, s, p, r) =
          and_then-ok (active backend raise_on_failure require_all_hosts d.outstanding d)
            (tear_down_idle backend raise_on_failure require_all_hosts purge) (rw asks at q) in
        tear_down_idle-Closed purge d s e busy
          (subst (λ x. Keeps d x.1) p (active-Keeps d.outstanding d)) r
    | inr skips ↦ tear_down-Closed purge d e tt (ground arith)
  ]

  left_by :
      (o : Result (Unit {0}) × Dispatcher W) (x e : Exn) (d : Dispatcher W)
      → caught o (λ y. if is_exception y then pure tt else throw y) ≡ (raise e, d)
      → is_exception e ≡ false
  left_by (ok u, s) x e d q = ground arith
  left_by (raise y, s) x e d q = elim (Bool-cases (is_exception y)) [
    | inl plain ↦ let z = rw plain at q in ground arith
    | inr grave ↦ ground arith
  ]

  -- With an exception in flight, `__exit__` raises nothing but what is no `Exception`: a failed
  -- teardown does not take the exception's place.
  exit-keeps :
      (x e : Exn) (d f : Dispatcher W)
      → exit backend raise_on_failure require_all_hosts (some x) d ≡ (raise e, f)
      → is_exception e ≡ false
  unfolding exit
  exit-keeps x e d f q =
      left_by (teardown backend raise_on_failure require_all_hosts false d) x e f q

  -- With none in flight, `__exit__` is `teardown`.
  pub exit-teardown :
      (d : Dispatcher W)
      → exit backend raise_on_failure require_all_hosts none d
        ≡ teardown backend raise_on_failure require_all_hosts false d
  unfolding exit
  exit-teardown d = same (teardown backend raise_on_failure require_all_hosts false d)
    where
      same :
          (o : Result (Unit {0}) × Dispatcher W)
          → caught o (λ y. if is_exception y then throw y else throw y) ≡ o
      same (ok u, s) = refl
      same (raise y, s) = ground arith
