-- ===== src/Attempt/Driver/Outputs.antt =====
-- What collect_outputs says of the outputs of a job.
use ray_dispatcher.Base.{
  ℕ, ◌≡◌, refl, ap, ◌⊎◌, inl, inr, Bool, true, false, null, Bool-cases, some, none, Option, List,
  [], ◌∷◌, ◌++◌, ◌∙◌, subst, All, arith, Str, Elem, ◌/s◌,
}
use ray_dispatcher.Values.{OutputSpec}
use ray_dispatcher.Errors.{
  transport_error, Result, ok, raise, and_then-ok, caught, Action, catch, pure, throw, ◌>>=◌, ◌>>◌,
}
use ray_dispatcher.Layout.{RunPaths, run_root, stdout, stderr}
use ray_dispatcher.Attempt.{Machine, Collected, nothing_collected}
use ray_dispatcher.Attempt.Driver.{
  local_name, lift, sort_output, pull_failed, collect_outputs, collect,
}

null-append : (xs : List Str) (x : Str) → null (xs ++ x ∷ []) ≡ false
null-append [] x = refl
null-append (y ∷ xs) x = refl

bare :
    {W : Type 0} {a b : Collected × Option Str} {w v : W}
    → Path (Result (Collected × Option Str) × W) (ok a, w) (ok b, v)
    → a ≡ b
bare q = ground arith

module _ {W : Type 0} (m : Machine W) (rounds attempt : ℕ) where
  -- Whether an output was there when its place was looked at.
  abbrev pub Seen : Bool → OutputSpec → Type 0
  Seen b spec =
      (dest : Str) × (w : W) × (m.ensure_within attempt (local_name spec) ≡ ok dest)
      × (m.is_there dest w ≡ b)

  -- Every required output was there.
  abbrev pub AreThere : List OutputSpec → Type 0
  AreThere specs = All (λ (spec : OutputSpec). spec.required ≡ true → Seen true spec) specs

  -- Some required output was not there.
  abbrev pub IsMissing : List OutputSpec → Type 0
  IsMissing specs = (spec : OutputSpec) × Elem spec specs × (spec.required ≡ true) × Seen false spec

  record Sorts (spec : OutputSpec) (dest : Str) (c d : Collected) (w : W) : Type 0 where
    whole :
        null d.missing_required ≡ true
        → (null c.missing_required ≡ true) × (spec.required ≡ true → m.is_there dest w ≡ true)
    partial :
        null d.missing_required ≡ false
        → (null c.missing_required ≡ false) ⊎ ((spec.required ≡ true) × (m.is_there dest w ≡ false))

  sort_output-Sorts :
      (spec : OutputSpec) (dest : Str) (c d : Collected) (w v : W)
      → sort_output m rounds spec dest c w ≡ (ok d, v)
      → Sorts spec dest c d w
  unfolding sort_output
  sort_output-Sorts spec dest c d w v e = elim (Bool-cases (m.is_there dest w)) [
    | inl there ↦
        let same : c.missing_required ≡ d.missing_required =
          ap (λ x. x.missing_required) (found (rw there at e)) in
        record { whole = λ h. (ground arith, λ r. there); partial = λ h. inl (ground arith) }
    | inr absent ↦ elim (Bool-cases spec.required) [
      | inl needed ↦
          let same : c.missing_required ++ local_name spec ∷ [] ≡ d.missing_required =
            ap (λ x. x.missing_required) (found (rw (absent, needed) at e)) in
          record {
            whole = λ h. ground (arith, null-append c.missing_required (local_name spec));
            partial = λ h. inr (needed, absent);
          }
      | inr free ↦
          let same : c.missing_required ≡ d.missing_required =
            ap (λ x. x.missing_required) (found (rw (absent, free) at e)) in
          record {
            whole = λ h. (ground arith, λ r. ground arith);
            partial = λ h. inl (ground arith);
          }
    ]
  ]
    where
      found : {x y : Collected} {a b : W} → Path (Result Collected × W) (ok x, a) (ok y, b) → x ≡ y
      found q = ground arith

  record Collects (specs : List OutputSpec) (c d : Collected) : Type 0 where
    whole : null d.missing_required ≡ true → (null c.missing_required ≡ true) × AreThere specs
    partial : null d.missing_required ≡ false → (null c.missing_required ≡ false) ⊎ IsMissing specs

  collect_outputs-Collects :
      (run_dir : Str) (specs : List OutputSpec) (c d : Collected) (w v : W)
      → collect_outputs m rounds attempt run_dir specs c w ≡ (ok d, v)
      → Collects specs c d
  unfolding collect_outputs lift
  collect_outputs-Collects run_dir [] c d w v e =
      let same : c ≡ d = ground arith in
      record { whole = λ h. (ground arith, tt); partial = λ h. inl (ground arith) }
  collect_outputs-Collects run_dir (spec ∷ specs) c d w v e =
      let (dest, w1, placed, e1) =
        and_then-ok (lift m rounds (m.ensure_within attempt (local_name spec)) w) _ e in
      let (x, w2, _, e2) = and_then-ok (m.make_parent dest w1) _ e1 in
      let (y, w3, _, e3) =
        and_then-ok
          (catch (m.transport.pull (run_dir /s spec.source) dest)
            (pull_failed m rounds (run_dir /s spec.source)) w2)
          _ e2 in
      let (next, w4, q, e4) =
        and_then-ok (sort_output m rounds spec dest c w3)
          (collect_outputs m rounds attempt run_dir specs) e3 in
      let one = sort_output-Sorts spec dest c next w3 w4 q in
      let rest = collect_outputs-Collects run_dir specs next d w4 v e4 in
      let at = ap (λ z. z.0) placed in
      record {
        whole = λ h.
            let (before, others) = rest.whole h in
            let (first, there) = one.whole before in
            (first, ((λ r. (dest, w3, at, there r)), others));
        partial = λ h. elim (rest.partial h) [
          | inr (s, member, needed, seen) ↦ inr (s, inr member, needed, seen)
          | inl before ↦ elim (one.partial before) [
            | inl first ↦ inl first
            | inr (needed, absent) ↦ inr (spec, inl refl, needed, (dest, w3, at, absent))
          ]
        ];
      }

  -- What a collection without a problem says.
  pub record Gathers (specs : List OutputSpec) (c : Collected) : Type 0 where
    pub whole : null c.missing_required ≡ true → AreThere specs
    pub partial : null c.missing_required ≡ false → IsMissing specs

  pub collect-Gathers :
      (run : RunPaths) (stdout_log stderr_log : Str) (specs : List OutputSpec) (c : Collected)
      (w v : W)
      → collect m rounds attempt run stdout_log stderr_log specs w ≡ (ok (c, none), v)
      → Gathers specs c
  unfolding collect
  collect-Gathers run stdout_log stderr_log specs c w v e = by_result (tried w) refl e
    where
      tried : Action W (Collected × Option Str)
      tried =
          m.transport.pull (stdout run) stdout_log
          >> (m.transport.pull (stderr run) stderr_log
              >> (collect_outputs m rounds attempt (run_root run) specs nothing_collected >>= λ c.
                  pure (c, none)))

      by_result :
          (o : Result (Collected × Option Str) × W)
          → tried w ≡ o
          → caught o (λ e. elim e [
            | transport_error text rc ↦ pure (nothing_collected, some text)
            | x ↦ throw x
          ])
            ≡ (ok (c, none), v)
          → Gathers specs c
      by_result (raise (transport_error text rc), u) q k = ground arith
      by_result (raise x, u) q k = ground arith
      by_result (ok r, u) q k =
          let (x, w1, _, e1) = and_then-ok (m.transport.pull (stdout run) stdout_log w) _ (q ∙ k) in
          let (y, w2, _, e2) = and_then-ok (m.transport.pull (stderr run) stderr_log w1) _ e1 in
          let (d, w3, p, e3) =
            and_then-ok (collect_outputs m rounds attempt (run_root run) specs nothing_collected w2)
              _ e2 in
          let all = collect_outputs-Collects (run_root run) specs nothing_collected d w2 w3 p in
          let same : d ≡ c = ap (λ z. z.0) (bare e3) in
          subst (Gathers specs) same (record {
            whole = λ h. (all.whole h).1;
            partial = λ h. elim (all.partial h) [ inl x ↦ ground arith | inr found ↦ found ];
          })
