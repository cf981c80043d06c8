-- ===== src/Locking/Exclusion.antt =====
-- Several sessions on one host: at most one holds the lock at a time.
use ray_dispatcher.Base.{
  ℕ, ◌+◌, ◌≤◌, ◌<◌, ◌≡◌, ◌≢◌, refl, sym, subst, inl, inr, ite, Option, none, some, List, [], ◌∷◌,
  arith, Str, str_discrete, if_pos, Option-cases,
}
use ray_dispatcher.Locking.{
  OwnerFile, absent, owner, at, Request, acquires, heartbeats, releases, Exit, done, conflict, lost,
  blocker, script,
}

-- What the script answers a session that another one keeps out.
abbrev pub refusal : Str → Request → Exit
refusal holder acquires = conflict (some holder)
refusal holder heartbeats = lost
refusal holder releases = done

-- For as long as its heartbeat is no older than the time to live, the owner keeps every other
-- session out: an `acquire` is refused, a `heartbeat` fails, and nothing changes the owner file.
pub script-refuses :
    (holder session : Str) (t ttl now : ℕ) (r : Request)
    → session ≢ holder
    → now ≤ t + ttl
    → script r session ttl now (owner (some holder) (at t))
      ≡ (refusal holder r, owner (some holder) (at t))
unfolding script
script-refuses holder session t ttl now acquires ne h = ground arith
script-refuses holder session t ttl now heartbeats ne h = ground arith
script-refuses holder session t ttl now releases ne h = ground arith

-- The host with its owner file, the time of the last request, and for each session the time of its
-- last success, if it has neither released nor lost the lock since.
pub record Host : Type 0 where
  pub file : OwnerFile
  pub clock : ℕ
  pub since : Str → Option ℕ

pub record Turn : Type 0 where
  pub session : Str
  pub request : Request
  pub wait : ℕ

abbrev recorded : Request → Exit → ℕ → Option ℕ → Option ℕ
recorded acquires done now old = some now
recorded heartbeats done now old = some now
recorded releases done now old = none
recorded r lost now old = none
recorded r (conflict s) now old = old

-- One session runs the script, `wait` after the one before.
pub turn : ℕ → Host → Turn → Host
turn ttl h t =
    let now = h.clock + t.wait in
    let (e, file) = script t.request t.session ttl now h.file in
    record {
      file = file;
      clock = now;
      since =
          λ s. ite (str_discrete t.session s) (recorded t.request e now (h.since s)) (h.since s);
    }

unfoldable pub turns : ℕ → Host → List Turn → Host
unfolding turn
turns ttl h [] = h
turns ttl h (t ∷ ts) = turns ttl (turn ttl h t) ts

-- A session with the lock that has not run out is the owner in the file.
abbrev pub Agrees : ℕ → Host → Type 0
Agrees ttl h =
    (s : Str) (t : ℕ) → h.since s ≡ some t → h.clock ≤ t + ttl → h.file ≡ owner (some s) (at t)

turn-other :
    (ttl : ℕ) (h : Host) (t : Turn) (s : Str) (a : ℕ)
    → t.session ≢ s
    → h.file ≡ owner (some s) (at a)
    → h.clock + t.wait ≤ a + ttl
    → (turn ttl h t).file ≡ owner (some s) (at a)
unfolding turn
turn-other ttl h t s a ne e le =
    rw e (rw (script-refuses s t.session a ttl (h.clock + t.wait) t.request ne le) refl)

script-own :
    (ttl now : ℕ) (s : Str) (r : Request) (file : OwnerFile) (old : Option ℕ) (a : ℕ)
    → recorded r (script r s ttl now file).0 now old ≡ some a
    → (old ≡ some a → now ≤ a + ttl → file ≡ owner (some s) (at a))
    → now ≤ a + ttl
    → (script r s ttl now file).1 ≡ owner (some s) (at a)
unfolding script blocker
script-own ttl now s acquires file old a e keep le = elim (Option-cases (blocker s ttl now file)) [
  | inl q ↦ ground arith
  | inr (b, q) ↦ ground arith
]
script-own ttl now s heartbeats file old a e keep le = ground arith
script-own ttl now s releases file old a e keep le = ground arith

turn-Agrees : (ttl : ℕ) (h : Host) (t : Turn) → Agrees ttl h → Agrees ttl (turn ttl h t)
unfolding turn
turn-Agrees ttl h t v s a e le = elim (str_discrete t.session s) [
  | yes same ↦
      let own = rw (if_pos _ same) at e in
      subst (λ u. (turn ttl h (record t { session = u })).file ≡ owner (some s) (at a)) (sym same)
        (script-own ttl (h.clock + t.wait) s t.request h.file (h.since s) a (ground arith)
          (λ q l. v s a q (omega arith)) le)
  | no ne ↦ turn-other ttl h t s a ne (v s a (ground arith) (omega arith)) le
]

turns-Agrees : (ttl : ℕ) (h : Host) (ts : List Turn) → Agrees ttl h → Agrees ttl (turns ttl h ts)
unfolding turns
turns-Agrees ttl h [] v = v
turns-Agrees ttl h (t ∷ ts) v = turns-Agrees ttl (turn ttl h t) ts (turn-Agrees ttl h t v)

-- The host before any session: whatever its owner file holds, nobody has been granted the lock.
abbrev pub fresh : OwnerFile → ℕ → Host
fresh file now = record { file = file; clock = now; since = λ s. none }

-- After any requests of any sessions, two sessions that were granted the lock, neither gave it up
-- nor lost it, and have refreshed it within the time to live, are the same session.
pub one_session :
    (ttl : ℕ) (file : OwnerFile) (start : ℕ) (ts : List Turn) (s u : Str) (a b : ℕ)
    → (turns ttl (fresh file start) ts).since s ≡ some a
    → (turns ttl (fresh file start) ts).since u ≡ some b
    → (turns ttl (fresh file start) ts).clock ≤ a + ttl
    → (turns ttl (fresh file start) ts).clock ≤ b + ttl
    → s ≡ u
one_session ttl file start ts s u a b e f le le' =
    let v = turns-Agrees ttl (fresh file start) ts (λ x t q. cc) in
    ground (arith, v s a e le, v u b f le')

-- Once its heartbeat is older than the time to live, any other session takes the lock over, and the
-- old owner's next heartbeat fails, its release removes nothing, and the new owner's release does.
pub script-takes_over :
    (holder session : Str) (t ttl now later : ℕ)
    → session ≢ holder
    → t + ttl < now
    → (script acquires session ttl now (owner (some holder) (at t))
        ≡ (done, owner (some session) (at now)))
      × (script heartbeats holder ttl later (owner (some session) (at now))
          ≡ (lost, owner (some session) (at now)))
      × (script releases holder ttl later (owner (some session) (at now))
          ≡ (done, owner (some session) (at now)))
      × (script releases session ttl later (owner (some session) (at now)) ≡ (done, absent))
unfolding script blocker
script-takes_over holder session t ttl now later ne h =
    (ground arith, ground arith, ground arith, ground arith)
