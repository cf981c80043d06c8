-- ===== src/Provisioning/Inventory/Release.antt =====
-- What `release_all` does, and that `provision` does it when it gives up.
use ray_dispatcher.Base.{
  ℕ, ◌≡◌, refl, inl, inr, Bool, true, false, not, ◌&&◌, ◌==◌, null, length, List, [], ◌∷◌, ◌++◌,
  Str, codes, Dict, arith, Bool-cases, if◌then◌else◌,
}
use ray_dispatcher.Errors.{
  Exn, is_exception, message, Result, ok, raise, Action, pure, throw, caught, and_then,
}
use ray_dispatcher.Provisioning.{Session, tried}
use ray_dispatcher.Provisioning.Inventory.{
  Outcome, stop_each, release_each, report_errors, release_all, healthy, accept,
}

-- What an action leaves and how, when it is no `Exception` that ends it otherwise.
abbrev pub IsCalm {ℓ} : {A : Type ℓ} → Result A → Type 0
IsCalm (ok a) = Unit
IsCalm (raise x) = is_exception x ≡ true

not_null : (es : List Str) (e : Str) → null (es ++ e ∷ []) ≡ false
not_null [] e = refl
not_null (d ∷ es) e = refl

module _ {W : Type 0} where
  -- Every heartbeat is stopped, in turn; every lock is released, in turn.
  abbrev pub stops : Dict (Session W) → W → W
  stops [] w = w
  stops ((host, s) ∷ rest) w = stops rest (s.stop w).1

  abbrev pub releases : Dict (Session W) → W → W
  releases [] w = w
  releases ((host, s) ∷ rest) w = releases rest (s.release w).1

  -- None of them raises.
  abbrev pub StopsWell : Dict (Session W) → W → Type 0
  StopsWell [] w = Unit
  StopsWell ((host, s) ∷ rest) w = ((s.stop w).0 ≡ ok tt) × StopsWell rest (s.stop w).1

  abbrev pub ReleasesWell : Dict (Session W) → W → Type 0
  ReleasesWell [] w = Unit
  ReleasesWell ((host, s) ∷ rest) w = ((s.release w).0 ≡ ok tt) × ReleasesWell rest (s.release w).1

  -- The errors of a list of cleanups: how it ends, from those before.
  record Tried (well : Type 0) (after : W) (before : List Str) (o : Result (List Str) × W)
      : Type 0 where
    state : (es : List Str) → o.0 ≡ ok es → o.1 ≡ after
    grave : (x : Exn) → o.0 ≡ raise x → is_exception x ≡ false
    errors : (es : List Str) → o.0 ≡ ok es → null es ≡ true → (null before ≡ true) × well

  tried-Tried :
      (what : Str) (act : Action W (Unit {0})) (before : List Str) (w : W)
      → Tried ((act w).0 ≡ ok tt) (act w).1 before (tried what act before w)
  unfolding tried
  tried-Tried what act before w = by_cases (act w)
    where
      by_cases :
          (a : Result (Unit {0}) × W)
          → Tried (a.0 ≡ ok tt) a.1 before (
              caught (and_then a (λ _. pure before)) (λ e.
                if is_exception e then pure (before ++ (what ++ message e) ∷ []) else throw e))
      by_cases (ok u, v) = record {
        state = λ es q. refl;
        grave = λ y q. ground arith;
        errors = λ es q z. ground arith;
      }
      by_cases (raise x, v) = elim (Bool-cases (is_exception x)) [
        | inl plain ↦ rw plain (record {
          state = λ es q. refl;
          grave = λ y q. ground arith;
          errors = λ es q z. ground (arith, not_null before (what ++ message x));
        })
        | inr grave ↦ rw grave (record {
          state = λ es q. ground arith;
          grave = λ y q. ground arith;
          errors = λ es q z. ground arith;
        })
      ]

  -- One cleanup and the ones after it.
  Tried-then :
      {well : Type 0} {after : W} {before : List Str} (rest : List Str → Action W (List Str))
      {wells : Type 0} {last : W} (o : Result (List Str) × W)
      → Tried well after before o
      → ((es : List Str) → Tried wells last es (rest es after))
      → Tried (well × wells) last before (and_then o rest)
  Tried-then rest (ok es, v) one more =
      let here : v ≡ _ = one.state es refl in
      rw here (record {
        state = (more es).state;
        grave = (more es).grave;
        errors = λ fs q z.
            let (none_yet, good) = (more es).errors fs q z in
            let (start, first) = one.errors es refl none_yet in (start, (first, good));
      })
  Tried-then rest (raise x, v) one more = record {
    state = λ es q. ground arith;
    grave = one.grave;
    errors = λ es q z. ground arith;
  }

  nothing : (before : List Str) (w : W) → Tried Unit w before (ok before, w)
  nothing before w = record {
    state = λ es q. refl;
    grave = λ x q. ground arith;
    errors = λ es q z. (ground arith, tt);
  }

  stop_each-Tried :
      (ds : Dict (Session W)) (before : List Str) (w : W)
      → Tried (StopsWell ds w) (stops ds w) before (stop_each ds before w)
  unfolding stop_each
  stop_each-Tried [] before w = nothing before w
  stop_each-Tried ((host, s) ∷ ds) before w =
      let what = host ++ codes " heartbeat stop failed: " in
      Tried-then (stop_each ds) (tried what s.stop before w) (tried-Tried what s.stop before w)
        (λ es. stop_each-Tried ds es (s.stop w).1)

  release_each-Tried :
      (ds : Dict (Session W)) (before : List Str) (w : W)
      → Tried (ReleasesWell ds w) (releases ds w) before (release_each ds before w)
  unfolding release_each
  release_each-Tried [] before w = nothing before w
  release_each-Tried ((host, s) ∷ ds) before w =
      let what = host ++ codes " release failed: " in
      Tried-then (release_each ds) (tried what s.release before w)
        (tried-Tried what s.release before w) (λ es. release_each-Tried ds es (s.release w).1)

  -- What `release_all` did: in the world `w`, with how it ended.
  pub record Released (ds : Dict (Session W)) (w : W) (o : Result (Unit {0}) × W) : Type 0 where
    -- every heartbeat was stopped in turn, and then every lock released in turn
    pub state : IsCalm o.0 → o.1 ≡ releases ds (stops ds w)
    -- if it did not raise, neither did any of them
    pub well : o.0 ≡ ok tt → StopsWell ds w × ReleasesWell ds (stops ds w)

  after_both :
      (ds : Dict (Session W)) (w : W) (o : Result (List Str) × W)
      → Tried (StopsWell ds w × ReleasesWell ds (stops ds w)) (releases ds (stops ds w)) [] o
      → Released ds w (and_then o report_errors)
  unfolding report_errors
  after_both ds w (ok [], v) h = record {
    state = λ c. h.state [] refl;
    well = λ q. (h.errors [] refl refl).1;
  }
  after_both ds w (ok (e ∷ es), v) h = record {
    state = λ c. h.state (e ∷ es) refl;
    well = λ q. ground arith;
  }
  after_both ds w (raise x, v) h =
      let grave = h.grave x refl in record { state = λ c. ground arith; well = λ q. ground arith }

  -- `release_all` stops every heartbeat, in turn, before it releases every lock, in turn, whatever
  -- `Exception`s these raise; when it raises nothing, none of them did.
  pub release_all-Released : (ds : Dict (Session W)) (w : W) → Released ds w (release_all ds w)
  unfolding release_all
  release_all-Released ds w = after_both ds w (and_then (stop_each ds [] w) (release_each ds)) (
      Tried-then (release_each ds) (stop_each ds [] w) (stop_each-Tried ds [] w)
        (λ es. release_each-Tried ds es (stops ds w)))

  -- How the end of `provision` ends.
  pub record Accepts (all : Bool) (hosts : ℕ) (o : Outcome W) (w : W) (e : Result (Outcome W) × W)
      : Type 0 where
    -- an outcome is returned as it is, with a healthy host, and all of them where that is required
    pub kept :
        (p : Outcome W)
        → e.0 ≡ ok p
        → (p ≡ o)
          × (e.1 ≡ w)
          × (null (healthy o.report) ≡ false)
          × (all ≡ true → length (healthy o.report) ≡ hosts)
    -- otherwise no session is left: every heartbeat was stopped, then every lock released
    pub let_go :
        (x : Exn)
        → e.0 ≡ raise x
        → is_exception x ≡ true
        → e.1 ≡ releases o.sessions (stops o.sessions w)

  gives_up :
      (all : Bool) (hosts : ℕ) (o : Outcome W) (w : W) (y : Exn) (e : Result (Unit {0}) × W)
      → Released o.sessions w e
      → Accepts all hosts o w (and_then e (λ _. throw y))
  gives_up all hosts o w y (ok u, v) r = record {
    kept = λ p q. ground arith;
    let_go = λ x q c. r.state tt;
  }
  gives_up all hosts o w y (raise z, v) r = record {
    kept = λ p q. ground arith;
    let_go = λ x q c. r.state (ground arith);
  }

  -- The outcome of the provisioning is returned only with a healthy host, and with all hosts healthy
  -- where that is required; in every other case it raises, after every heartbeat was stopped and then
  -- every lock released, whatever `Exception`s that raised.
  pub accept-Accepts :
      (all : Bool) (hosts : ℕ) (o : Outcome W) (w : W)
      → Accepts all hosts o w (accept all hosts o w)
  unfolding accept
  accept-Accepts all hosts o w =
      let released = release_all-Released o.sessions w in
      elim (Bool-cases (all && not (length (healthy o.report) == hosts))) [
        | inl some_failed ↦
            rw some_failed (gives_up all hosts o w _ (release_all o.sessions w) released)
        | inr fine ↦ elim (Bool-cases (null (healthy o.report))) [
          | inl no_host ↦
              rw (fine, no_host) (gives_up all hosts o w _ (release_all o.sessions w) released)
          | inr a_host ↦
              rw (fine, a_host)
                (record {
                  kept = λ p q. (ground arith, refl, a_host, λ z. ground arith);
                  let_go = λ x q c. ground arith;
                })
        ]
      ]
