-- ===== src/Locking.antt =====
-- src/it/unimib/data/nanofaas/ray_dispatcher/locking.py: the script that a session runs on a host
-- under the guard file's exclusive lock, the exceptions that SessionLock makes of its exit status,
-- and the thread that refreshes the lock. An exception carries the part of its message that varies.
pub mod Exclusion
pub mod Heartbeat
use ray_dispatcher.Base.{
  ℕ, ◌+◌, ◌-◌, leb, ltb, ℤ, pos, negsuc, is_zero, ◌==◌, Bool, true, false, not, ◌&&◌, Option, none,
  some, List, [], ◌∷◌, if◌then◌else◌, Str, codes, str_discrete, holds, strip, null,
}
use ray_dispatcher.Errors.{
  Exn, host_in_use, session_lock_lost, transport_error, Result, ok, raise, Action, pure, throw,
  ◌>>=◌,
}
use ray_dispatcher.Transport.{CommandResult, Transport, default}

-- The field `heartbeat` of the owner file: not there, not a number, or a time.
pub data Beat : Type 0 where
  missing : Beat
  unreadable : Beat
  at : ℕ → Beat

-- What `json.load` makes of the owner file: no file or no JSON, JSON that is no object, or an object
-- with its `session_id` (`none` if it is not there or is no text).
pub data OwnerFile : Type 0 where
  absent : OwnerFile
  not_object : OwnerFile
  owner : Option Str → Beat → OwnerFile

pub data Request : Type 0 where
  acquires heartbeats releases : Request

-- How the script ends: exit status 0, 3 with the owner printed, or 4.
pub data Exit : Type 0 where
  done : Exit
  conflict : Option Str → Exit
  lost : Exit

pub owned_by : Str → OwnerFile → Bool
owned_by session (owner (some s) b) = holds (str_discrete s session)
owned_by session _ = false

-- `now - float(owner.get("heartbeat", 0)) <= ttl`; a heartbeat in the future is live.
pub live : ℕ → ℕ → Beat → Bool
live now ttl missing = leb now ttl
live now ttl unreadable = false
live now ttl (at t) = leb (now - t) ttl

-- The owner that keeps a session out, if any.
pub blocker : Str → ℕ → ℕ → OwnerFile → Option (Option Str)
unfolding owned_by live
blocker session ttl now absent = none
blocker session ttl now not_object = none
blocker session ttl now (owner s b) =
    if not (owned_by session (owner s b)) && live now ttl b then some s else none

-- `_LOCK_SCRIPT` with its arguments, the time and the owner file: the exit and the file left.
unfoldable pub script : Request → Str → ℕ → ℕ → OwnerFile → Exit × OwnerFile
unfolding blocker owned_by
script acquires session ttl now file = elim (blocker session ttl now file) [
  | some s ↦ (conflict s, file)
  | none ↦ (done, owner (some session) (at now))
]
script heartbeats session ttl now file =
    if owned_by session file then (done, owner (some session) (at now)) else (lost, file)
script releases session ttl now file =
    if owned_by session file then (done, absent) else (done, file)

abbrev pub request_name : Request → Str
request_name acquires = codes "acquire"
request_name heartbeats = codes "heartbeat"
request_name releases = codes "release"

abbrev pub is_status : ℕ → ℤ → Bool
is_status n (pos k) = k == n
is_status n (negsuc k) = false

-- Any other exit status: the stripped stderr, or stdout if that is empty.
failure : CommandResult → Result (Unit {0})
failure r =
    let detail = strip r.stderr in
    raise (transport_error (if null detail then strip r.stdout else detail) (some r.returncode))

-- The end of `_operate`, by the action and the exit status.
pub verdict : Request → CommandResult → Result (Unit {0})
unfolding failure
verdict acquires r =
    if is_zero r.returncode
    then ok tt
    else if is_status 3 r.returncode
    then raise (host_in_use (strip r.stdout))
    else failure r
verdict heartbeats r =
    if is_zero r.returncode
    then ok tt
    else if is_status 4 r.returncode
    then raise (session_lock_lost (codes ""))
    else failure r
verdict releases r = if is_zero r.returncode then ok tt else failure r

-- `_operate`, given the text of the script and of the time to live.
pub operate : {W : Type 0} → Transport W → Str → Str → Str → Request → Action W (Unit {0})
unfolding verdict
operate t script_text session ttl request = do
  r ←
      t.run (codes "python3" ∷ codes "-c" ∷ script_text ∷ request_name request ∷ session ∷ ttl ∷ [])
        default
  λ w. (verdict request r, w)
