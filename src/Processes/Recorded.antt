-- ===== src/Processes/Recorded.antt =====
-- That the process group of a pid file counts as gone only after a probe said so.
use ray_dispatcher.Base.{
  ℕ, zero, suc, ◌≡◌, refl, ◌∙◌, true, false, Option, none, some, [], ◌∷◌, arith, pos, negsuc,
  is_zero, ltb, leb, Bool, Bool-cases, Option-cases, inl, inr, ◌-◌, ◌+◌, if◌then◌else◌, Str, codes,
}
use ray_dispatcher.Errors.{
  Result, ok, raise, and_then, and_then-ok, caught, pure, throw, is_exception,
}
use ray_dispatcher.Transport.{CommandResult, Transport, Timeout, default, seconds}
use ray_dispatcher.Processes.{
  Clock, Reader, parse_pgid, reconcile_host, reconcile_read, terminate_read, kill_read, kill_round,
  kill_again, kill_until, kill_remote_pgid, terminate_process_group,
}
use ray_dispatcher.Processes.Confirmed.{Confirmed, terminate_process_group-Confirmed}

parse_pgid-some :
    (read : Reader) (text : Str) (n : ℕ)
    → parse_pgid read text ≡ some n
    → (read text ≡ some (pos n)) × (ltb 1 n ≡ true)
unfolding parse_pgid
parse_pgid-some read text n e = elim (Option-cases (read text)) [
  | inl q ↦ ground arith
  | inr (pos k, q) ↦ ground arith
  | inr (negsuc k, q) ↦ ground arith
]

module _ {W : Type 0} (t : Transport W) (clock : Clock W) (read : Reader) where
  -- What a `cat` of a pid file answers names a group, and that group is confirmed to be gone.
  abbrev pub Names : CommandResult → W → Type 0
  Names r v =
      (is_zero r.returncode ≡ true)
      × (pgid : ℕ) × (read r.stdout ≡ some (pos pgid))
      × (ltb 1 pgid ≡ true)
      × Confirmed t clock pgid v

  -- From one state to another: the pid file is read first, and the last thing is a `kill -0` of the
  -- group that it names, which was not there.
  pub record Recorded (pid_file : Str) (w v : W) : Type 0 where
    pub timeout : Timeout
    pub result : CommandResult
    pub after : W
    pub opened : t.run (codes "cat" ∷ pid_file ∷ []) timeout w ≡ (ok result, after)
    pub gone : Names result v

  reconcile_read-Names :
      (rounds : ℕ) (deadline : Option ℕ) (grace poll : ℕ) (r : CommandResult) (w v : W)
      → reconcile_read t clock read rounds deadline grace poll r w ≡ (ok (some true), v)
      → Names r v
  unfolding reconcile_read terminate_read
  reconcile_read-Names rounds deadline grace poll r w v e =
      elim (Bool-cases (is_zero r.returncode)) [
        | inr bad ↦ ground arith
        | inl fine ↦ elim (Option-cases (parse_pgid read r.stdout)) [
          | inl n ↦ ground arith
          | inr (pgid, n) ↦
              let (written, big) = parse_pgid-some read r.stdout pgid n in
              (
                fine,
                pgid,
                written,
                big,
                terminate_process_group-Confirmed t clock rounds deadline pgid grace poll w v
                    (rw (fine, n) at e),
              )
        ]
      ]

  -- `reconcile_host` returns True only after it read the pid file, and right after a `kill -0` of the
  -- group that this names, which found no such group.
  pub reconcile_host-Recorded :
      (rounds : ℕ) (deadline : Option ℕ) (grace poll : ℕ) (pid_file : Str) (w v : W)
      → reconcile_host t clock read rounds deadline grace poll pid_file w ≡ (ok (some true), v)
      → Recorded pid_file w v
  unfolding reconcile_host
  reconcile_host-Recorded rounds none grace poll pid_file w v e =
      let (r, a, q, p) = and_then-ok (t.run (codes "cat" ∷ pid_file ∷ []) default w) _ e in
      record {
        timeout = default;
        result = r;
        after = a;
        opened = q;
        gone = reconcile_read-Names rounds none grace poll r a v p;
      }
  reconcile_host-Recorded rounds (some d) grace poll pid_file w v e =
      elim (Bool-cases (leb d (clock.now w))) [
        | inl late ↦ ground arith
        | inr soon ↦
            let (r, a, q, p) =
              and_then-ok (t.run (codes "cat" ∷ pid_file ∷ []) (seconds (d - clock.now w)) w)
                (reconcile_read t clock read rounds (some d) grace poll) (rw soon at e) in
            record {
              timeout = seconds (d - clock.now w);
              result = r;
              after = a;
              opened = q;
              gone = reconcile_read-Names rounds (some d) grace poll r a v p;
            }
      ]

  kill_read-Names :
      (rounds grace poll : ℕ) (r : CommandResult) (w v : W)
      → kill_read t clock read rounds grace poll r w ≡ (ok (some (some true)), v)
      → Names r v
  unfolding kill_read
  kill_read-Names rounds grace poll r w v e = elim (Bool-cases (is_zero r.returncode)) [
    | inr bad ↦ let z = rw (bad, kill_read) at e in ground arith
    | inl fine ↦ elim (Option-cases (parse_pgid read r.stdout)) [
      | inl n ↦ let z = rw (fine, n, kill_read) at e in ground arith
      | inr (pgid, n) ↦
          let (written, big) = parse_pgid-some read r.stdout pgid n in
          let (over, a, q, p) =
            and_then-ok (terminate_process_group t clock rounds none pgid grace poll w)
              (λ over. pure (some over)) (rw (fine, n, kill_read) at e) in
          (
            fine,
            pgid,
            written,
            big,
            terminate_process_group-Confirmed t clock rounds none pgid grace poll w v
                (q ∙ unwrapped over a v p),
          )
    ]
  ]
    where
      unwrapped :
          (over : Option Bool) (a v : W)
          → Path (Result (Option (Option Bool)) × W) (ok (some over), a) (ok (some (some true)), v)
          → Path (Result (Option Bool) × W) (ok over, a) (ok (some true), v)
      unwrapped over a v p = ground arith

  kill_round-Recorded :
      (rounds grace poll : ℕ) (pid_path : Str) (w v : W)
      → kill_round t clock read rounds grace poll pid_path w ≡ (ok (some (some true)), v)
      → Recorded pid_path w v
  unfolding kill_round
  kill_round-Recorded rounds grace poll pid_path w v e =
      by_result
        (and_then (t.run (codes "cat" ∷ pid_path ∷ []) default w)
          (kill_read t clock read rounds grace poll))
        refl e
    where
      by_result :
          (o : Result (Option (Option Bool)) × W)
          → and_then
              (t.run (codes "cat" ∷ pid_path ∷ []) default w)
              (kill_read t clock read rounds grace poll)
            ≡ o
          → caught o (λ x. if is_exception x then pure (some (some false)) else throw x)
            ≡ (ok (some (some true)), v)
          → Recorded pid_path w v
      by_result (ok x, u) q k =
          let (r, a, opened, p) =
            and_then-ok (t.run (codes "cat" ∷ pid_path ∷ []) default w)
              (kill_read t clock read rounds grace poll) (q ∙ k) in
          record {
            timeout = default;
            result = r;
            after = a;
            opened = opened;
            gone = kill_read-Names rounds grace poll r a v p;
          }
      by_result (raise x, u) q k = elim (Bool-cases (is_exception x)) [
        | inl plain ↦ let z = rw plain at k in ground arith
        | inr grave ↦ ground arith
      ]

  kill_until-Recorded :
      (rounds grace poll deadline : ℕ) (pid_path : Str) (tick : ℕ) (w v : W)
      → kill_until t clock rounds read grace poll deadline pid_path tick w ≡ (ok (some true), v)
      → (before : W) × Recorded pid_path before v
  unfolding kill_until kill_again
  kill_until-Recorded zero grace poll deadline pid_path tick w v e = ground arith
  kill_until-Recorded (suc rounds) grace poll deadline pid_path tick w v e =
      let more = kill_until t clock rounds read grace poll deadline pid_path tick in
      let (o, s, q, p) =
        and_then-ok (kill_round t clock read (suc rounds) grace poll pid_path w)
          (kill_again t clock more deadline tick) e in
      again (λ s. kill_until-Recorded rounds grace poll deadline pid_path tick s v) o s q p
    where
      again :
          ((s : W)
            → kill_until t clock rounds read grace poll deadline pid_path tick s
              ≡ (ok (some true), v)
            → (before : W) × Recorded pid_path before v)
          → (o : Option (Option Bool)) (s : W)
          → kill_round t clock read (suc rounds) grace poll pid_path w ≡ (ok o, s)
          → kill_again t clock
              (kill_until t clock rounds read grace poll deadline pid_path tick)
              deadline
              tick
              o
              s
            ≡ (ok (some true), v)
          → (before : W) × Recorded pid_path before v
      again ih none s q p = elim (Bool-cases (leb deadline (clock.now s))) [
        | inl late ↦ let z = rw late at p in ground arith
        | inr soon ↦ ih (clock.sleep tick s) (rw soon at p)
      ]
      again ih (some over) s q p =
          (w, kill_round-Recorded (suc rounds) grace poll pid_path w v (q ∙ wrapped over s p))
        where
          wrapped :
              (over : Option Bool) (s : W)
              → Path (Result (Option Bool) × W) (ok over, s) (ok (some true), v)
              → Path
                  (Result (Option (Option Bool)) × W)
                  (ok (some over), s)
                  (ok (some (some true)), v)
          wrapped over s p = ground arith

  -- `_kill_remote_pgid` returns True only after it read the pid file, and right after a `kill -0` of
  -- the group that this names, which found no such group.
  pub kill_remote_pgid-Recorded :
      (rounds grace poll : ℕ) (pid_path : Str) (wait tick : ℕ) (w v : W)
      → kill_remote_pgid t clock rounds read grace poll pid_path wait tick w ≡ (ok (some true), v)
      → (before : W) × Recorded pid_path before v
  unfolding kill_remote_pgid
  kill_remote_pgid-Recorded rounds grace poll pid_path wait tick w v e =
      kill_until-Recorded rounds grace poll (clock.now w + wait) pid_path tick w v e
