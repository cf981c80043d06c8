-- ===== src/Processes.antt =====
-- terminate_process_group of src/it/unimib/data/nanofaas/ray_dispatcher/ssh.py; `_parse_pgid`,
-- reconcile_host and `_kill_remote_pgid` of scheduling.py. A read of the clock takes no time.
pub mod Confirmed
pub mod Recorded
pub mod Timely
use ray_dispatcher.Base.{
  ℕ, zero, suc, ◌+◌, ◌-◌, ◌/◌, min, ltb, leb, ℤ, pos, negsuc, is_zero, Bool, true, false, not,
  if◌then◌else◌, Option, none, some, List, [], ◌∷◌, ◌++◌, Str, codes, decimal,
}
use ray_dispatcher.Errors.{
  Exn, transport_error, is_exception, Result, ok, raise, Action, pure, throw, catch, ◌>>=◌, ◌>>◌,
}
use ray_dispatcher.Transport.{CommandResult, Transport, Timeout, default, seconds}

-- `time.monotonic` and `time.sleep`.
pub record Clock (W : Type 0) : Type 0 where
  pub now : W → ℕ
  pub sleep : ℕ → W → W

-- `int(json.loads(text)["pgid"])`, `none` where that raises.
abbrev pub Reader : Type 0
Reader = Str → Option ℤ

-- `_parse_pgid(stdout)`
pub parse_pgid : Reader → Str → Option ℕ
parse_pgid read text = elim (read text) [
  | none ↦ none
  | some (pos n) ↦ if ltb 1 n then some n else none
  | some (negsuc n) ↦ none
]

-- `["kill", signal, f"-{pgid}"]`
unfoldable pub signal_argv : Str → ℕ → List Str
unfolding decimal
signal_argv signal pgid = codes "kill" ∷ signal ∷ (codes "-" ++ decimal pgid) ∷ []

module _ {W : Type 0} (t : Transport W) (clock : Clock W) where
  -- `command(argv)` within a deadline.
  pub command : Option ℕ → List Str → Action W CommandResult
  command none argv w = t.run argv default w
  command (some deadline) argv w =
      if leb deadline (clock.now w)
      then (raise (transport_error (codes "process cleanup deadline expired") none), w)
      else t.run argv (seconds (deadline - clock.now w)) w

  pub kill : Option ℕ → Str → ℕ → Action W CommandResult
  unfolding command
  kill deadline signal pgid = command deadline (signal_argv signal pgid)

  -- `gone()`
  pub gone : Option ℕ → ℕ → Action W Bool
  unfolding kill
  gone deadline pgid = do r ← kill deadline (codes "-0") pgid; pure (not (is_zero r.returncode))

  pub pause : ℕ → Action W (Unit {0})
  pause n w = (ok tt, clock.sleep n w)

  -- What a round of the loop does after its probe.
  pub waited : Action W (Option Bool) → ℕ → ℕ → Bool → Action W (Option Bool)
  unfolding pause
  waited more limit poll true w = (ok (some true), w)
  waited more limit poll false w = more (clock.sleep (min poll (limit - clock.now w)) w)

  -- The `while now() < deadline`: `some true` if a probe found the group gone, `some false` at the
  -- deadline, `none` if it goes on after the given rounds.
  pub wait_gone : ℕ → Option ℕ → ℕ → ℕ → ℕ → Action W (Option Bool)
  unfolding gone waited
  wait_gone zero deadline pgid poll limit w =
      if ltb (clock.now w) limit then (ok none, w) else (ok (some false), w)
  wait_gone (suc rounds) deadline pgid poll limit w =
      let more = wait_gone rounds deadline pgid poll limit in
      if ltb (clock.now w) limit
      then (gone deadline pgid >>= waited more limit poll) w
      else (ok (some false), w)

  -- The pause between SIGKILL and the last probe.
  pub last_pause : Option ℕ → ℕ → Action W (Unit {0})
  last_pause none poll w = (ok tt, clock.sleep poll w)
  last_pause (some deadline) poll w =
      (ok tt, clock.sleep (min poll ((deadline - clock.now w) / 2)) w)

  -- The end of `terminate_process_group`, from the outcome of the loop.
  pub finally_kill : Option ℕ → ℕ → ℕ → Option Bool → Action W (Option Bool)
  unfolding last_pause gone
  finally_kill deadline pgid poll none = pure none
  finally_kill deadline pgid poll (some true) = pure (some true)
  finally_kill deadline pgid poll (some false) = do
    kill deadline (codes "-KILL") pgid
    last_pause deadline poll
    over ← gone deadline pgid
    pure (some over)

  -- `deadline`, the end of the grace period.
  pub grace_end : Option ℕ → ℕ → ℕ → W → ℕ
  grace_end none grace poll w = clock.now w + grace
  grace_end (some deadline) grace poll w = min (clock.now w + grace) (deadline - poll)

  -- What follows the first probe.
  pub after_term : ℕ → Option ℕ → ℕ → ℕ → ℕ → Bool → Action W (Option Bool)
  unfolding wait_gone finally_kill grace_end
  after_term rounds deadline pgid grace poll true w = (ok (some true), w)
  after_term rounds deadline pgid grace poll false w =
      (wait_gone rounds deadline pgid poll (grace_end deadline grace poll w)
          >>= finally_kill deadline pgid poll)
        w

  -- `terminate_process_group(transport, pgid, …)`, `none` if its loop goes on after the rounds given.
  unfoldable pub terminate_process_group : ℕ → Option ℕ → ℕ → ℕ → ℕ → Action W (Option Bool)
  unfolding kill gone after_term
  terminate_process_group rounds deadline pgid grace poll = do
    kill deadline (codes "-TERM") pgid
    over ← gone deadline pgid
    after_term rounds deadline pgid grace poll over

  pub terminate_read : ℕ → Option ℕ → ℕ → ℕ → Option ℕ → Action W (Option Bool)
  terminate_read rounds deadline grace poll none = pure (some false)
  terminate_read rounds deadline grace poll (some pgid) =
      terminate_process_group rounds deadline pgid grace poll

  -- `reconcile_host(transport, pid_file, …)` after `cat`.
  pub reconcile_read : Reader → ℕ → Option ℕ → ℕ → ℕ → CommandResult → Action W (Option Bool)
  unfolding parse_pgid terminate_read terminate_process_group
  reconcile_read read rounds deadline grace poll r =
      if not (is_zero r.returncode)
      then pure (some false)
      else terminate_read rounds deadline grace poll (parse_pgid read r.stdout)

  unfoldable pub reconcile_host : Reader → ℕ → Option ℕ → ℕ → ℕ → Str → Action W (Option Bool)
  unfolding reconcile_read
  reconcile_host read rounds none grace poll pid_file w =
      (t.run (codes "cat" ∷ pid_file ∷ []) default >>= reconcile_read read rounds none grace poll) w
  reconcile_host read rounds (some deadline) grace poll pid_file w =
      if leb deadline (clock.now w)
      then (ok (some false), w)
      else (t.run (codes "cat" ∷ pid_file ∷ []) (seconds (deadline - clock.now w))
            >>= reconcile_read read rounds (some deadline) grace poll)
          w

  -- A round of `_kill_remote_pgid` up to its `except`: `none` if there is no process group yet.
  pub kill_read : Reader → ℕ → ℕ → ℕ → CommandResult → Action W (Option (Option Bool))
  unfolding parse_pgid terminate_process_group
  kill_read read rounds grace poll r =
      elim (if is_zero r.returncode then parse_pgid read r.stdout else none) [
        | none ↦ pure none
        | some pgid ↦ do
          over ← terminate_process_group rounds none pgid grace poll
          pure (some over)
      ]

  pub kill_round : Reader → ℕ → ℕ → ℕ → Str → Action W (Option (Option Bool))
  unfolding kill_read
  kill_round read rounds grace poll pid_path =
      catch (t.run (codes "cat" ∷ pid_path ∷ []) default >>= kill_read read rounds grace poll)
        (λ e. if is_exception e then pure (some (some false)) else throw e)

  -- What `_kill_remote_pgid` does after a round.
  pub kill_again : Action W (Option Bool) → ℕ → ℕ → Option (Option Bool) → Action W (Option Bool)
  kill_again more deadline poll (some over) w = (ok over, w)
  kill_again more deadline poll none w =
      let rest = more (clock.sleep poll w) in
      if leb deadline (clock.now w) then (ok (some false), w) else rest

  pub kill_until : ℕ → Reader → ℕ → ℕ → ℕ → Str → ℕ → Action W (Option Bool)
  unfolding kill_round kill_again
  kill_until zero read grace poll deadline pid_path tick = pure none
  kill_until (suc rounds) read grace poll deadline pid_path tick =
      kill_round read (suc rounds) grace poll pid_path
      >>= kill_again (kill_until rounds read grace poll deadline pid_path tick) deadline tick

  -- `_kill_remote_pgid(transport, pid_path, pid_wait_s=wait, poll_s=tick)`, with the grace period and
  -- the poll of `terminate_process_group`; `none` if it goes on after the given rounds.
  unfoldable pub kill_remote_pgid : ℕ → Reader → ℕ → ℕ → Str → ℕ → ℕ → Action W (Option Bool)
  unfolding kill_until
  kill_remote_pgid rounds read grace poll pid_path wait tick w =
      kill_until rounds read grace poll (clock.now w + wait) pid_path tick w
