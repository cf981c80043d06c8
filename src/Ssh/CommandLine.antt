-- ===== src/Ssh/CommandLine.antt =====
-- What the shell of the remote host makes of the command that SshTransport.run hands to Fabric.
use ray_dispatcher.Base.{
  ℕ, Bool, codes, ltb, ap, ◌∙◌, ◌==◌, ◌≡◌, refl, sym, subst, true, false, ◌||◌, if◌then◌else◌, all,
  Option, none, some, List, [], ◌∷◌, ◌++◌, append_assoc, append-nil, arith, Bool-cases, inl, inr,
  Str,
}
use ray_dispatcher.Errors.{
  Result, and_then, pure, throw, model_validation, ok, raise, ◌>>=◌, After, seq-After,
}
use ray_dispatcher.Transport.{CommandResult, Timeout, default, unbounded, seconds}
use ray_dispatcher.Shell.{is_safe, tick, mark, tick_out, quote}
use ray_dispatcher.Ssh.{
  Fabric, SshTransport, Channel, shlex_join, effective_timeout, conn_or, connected, run_on, run,
  answered, keep_conn, validate_timeout, build_connection,
}

-- Where a shell is in a command line.
pub data Place : Type 0 where
  gap bare single double : Place

-- The words, with one more character, or one more word, at their front.
pub longer : ℕ → Option (List Str) → Option (List Str)
longer c (some (w ∷ ws)) = some ((c ∷ w) ∷ ws)
longer c (some []) = none
longer c none = none

pub another : Option (List Str) → Option (List Str)
another none = none
another (some ws) = some ([] ∷ ws)

-- How a POSIX shell splits a text into words (2.2 and 2.3 of its command language): spaces, characters
-- that mean nothing to it, '…' and "…". It is `none` where a character would mean something else.
-- In a word, the first of the words is what is left of that one.
pub words : Place → Str → Option (List Str)
unfolding longer another
words gap [] = some []
words bare [] = some ([] ∷ [])
words single [] = none
words double [] = none
words gap (c ∷ s) =
    let between = words gap s in
    let apart = words single s in
    let marked = words double s in
    let more = words bare s in
    if c == 32
    then between
    else if c == tick
    then apart
    else if c == mark
    then marked
    else if is_safe c
    then longer c more
    else none
words bare (c ∷ s) =
    let between = words gap s in
    let apart = words single s in
    let marked = words double s in
    let more = words bare s in
    if c == 32
    then another between
    else if c == tick
    then apart
    else if c == mark
    then marked
    else if is_safe c
    then longer c more
    else none
words single (c ∷ s) =
    let more = words single s in
    let over = words bare s in if c == tick then over else longer c more
words double (c ∷ s) =
    let more = words double s in
    let over = words bare s in
    if c == mark then over else if c == 36 || (c == 96 || c == 92) then none else longer c more

safe-32 : (c : ℕ) → is_safe c ≡ true → (c == 32) ≡ false
unfolding is_safe
safe-32 c e = ground arith

safe-tick : (c : ℕ) → is_safe c ≡ true → (c == tick) ≡ false
unfolding is_safe
safe-tick c e = ground arith

safe-mark : (c : ℕ) → is_safe c ≡ true → (c == mark) ≡ false
unfolding is_safe
safe-mark c e = ground arith

both : (c : ℕ) (s : Str) → all is_safe (c ∷ s) ≡ true → (is_safe c ≡ true) × (all is_safe s ≡ true)
both c s e = elim (Bool-cases (is_safe c)) [ inl h ↦ (h, ground arith) | inr h ↦ ground arith ]

-- A character that needs no quotes starts a word, and goes on with one.
safe_step :
    (c : ℕ) (u w : Str) (ws : List Str)
    → is_safe c ≡ true
    → words bare u ≡ some (w ∷ ws)
    → (words bare (c ∷ u) ≡ some ((c ∷ w) ∷ ws)) × (words gap (c ∷ u) ≡ some ((c ∷ w) ∷ ws))
unfolding words longer
safe_step c u w ws e h = (
  rw (safe-32 c e, safe-tick c e, safe-mark c e, e, h) refl,
  rw (safe-32 c e, safe-tick c e, safe-mark c e, e, h) refl,
)

module _ (t : Str) (ws : List Str) (h : words bare t ≡ some ([] ∷ ws)) where
  words-safe : (s : Str) → all is_safe s ≡ true → words bare (s ++ t) ≡ some (s ∷ ws)
  words-safe [] e = h
  words-safe (c ∷ s) e =
      let (here, rest) = both c s e in (safe_step c (s ++ t) s ws here (words-safe s rest)).0

  words-tick :
      (u s : Str)
      → words single u ≡ some (s ∷ ws)
      → words single (tick ∷ mark ∷ tick ∷ mark ∷ tick ∷ u) ≡ some ((tick ∷ s) ∷ ws)
  unfolding words longer
  words-tick u s e = rw e refl

  words-other :
      (c : ℕ) (u s : Str)
      → (c == tick) ≡ false
      → words single u ≡ some (s ∷ ws)
      → words single (c ∷ u) ≡ some ((c ∷ s) ∷ ws)
  unfolding words longer
  words-other c u s n e = rw (n, e) refl

  words_end : words single (tick ∷ t) ≡ some ([] ∷ ws)
  unfolding words
  words_end = h

  words-tick_out : (s : Str) → words single (tick_out s ++ tick ∷ t) ≡ some (s ∷ ws)
  unfolding tick_out
  words-tick_out [] = words_end
  words-tick_out (c ∷ s) = elim (Bool-cases (c == tick)) [
    | inl e ↦
        let same : c ≡ tick = ground arith in
        subst (λ (b : ℕ). words single (tick_out (b ∷ s) ++ tick ∷ t) ≡ some ((b ∷ s) ∷ ws))
          (sym same) (words-tick (tick_out s ++ tick ∷ t) s (words-tick_out s))
    | inr n ↦ rw n (words-other c (tick_out s ++ tick ∷ t) s n (words-tick_out s))
  ]

  words-odd : (s : Str) → words gap (tick ∷ (tick_out s ++ tick ∷ []) ++ t) ≡ some (s ∷ ws)
  unfolding words
  words-odd s =
      subst (λ (u : Str). words single u ≡ some (s ∷ ws))
        (sym (append_assoc (tick_out s) (tick ∷ []) t)) (words-tick_out s)

  words_gap-safe :
      (c : ℕ) (s : Str) → all is_safe (c ∷ s) ≡ true → words gap (c ∷ s ++ t) ≡ some ((c ∷ s) ∷ ws)
  words_gap-safe c s e =
      let (here, rest) = both c s e in (safe_step c (s ++ t) s ws here (words-safe s rest)).1

  -- A quoted text is read as one word, before what ends the word.
  words-quote : (s : Str) → words gap (quote s ++ t) ≡ some (s ∷ ws)
  unfolding words quote
  words-quote [] = h
  words-quote (c ∷ s) = elim (Bool-cases (all is_safe (c ∷ s))) [
    | inl safe ↦ rw safe (words_gap-safe c s safe)
    | inr odd ↦ rw odd (words-odd (c ∷ s))
  ]

words-space :
    (s : Str) (ws : List Str) → words gap s ≡ some ws → words bare (32 ∷ s) ≡ some ([] ∷ ws)
unfolding words another
words-space s ws e = rw e refl

words_stop : words bare [] ≡ some ([] ∷ [])
unfolding words
words_stop = refl

-- A shell splits the command that is built from an argument vector into just these arguments.
words-shlex_join : (argv : List Str) → words gap (shlex_join argv) ≡ some argv
unfolding shlex_join words
words-shlex_join [] = refl
words-shlex_join (a ∷ []) =
    subst (λ (u : Str). words gap u ≡ some (a ∷ [])) (append-nil (quote a))
      (words-quote [] [] words_stop a)
words-shlex_join (a ∷ b ∷ argv) =
    words-quote (32 ∷ shlex_join (b ∷ argv)) (b ∷ argv)
      (words-space (shlex_join (b ∷ argv)) (b ∷ argv) (words-shlex_join (b ∷ argv))) a

-- A timeout that `subprocess` and Fabric take, or none.
pub IsLimit : Option ℕ → Type 0
IsLimit none = Unit {0}
IsLimit (some n) = ltb 0 n ≡ true

-- What is so when `run` returned `r`.
pub record Answered {W C : Type 0} (fabric : Fabric W C) (argv : List Str) (r : CommandResult)
    (s : Channel W C) : Type 0 where
  pub conn : C
  pub kept : s.conn ≡ some conn
  pub command : Str
  pub split : words gap command ≡ some argv
  pub limit : Option ℕ
  pub in_time : IsLimit limit
  pub before : W
  pub answer : fabric.run conn command limit before ≡ (ok r, s.world)

ok-IsLimit :
    {S : Type 0} (m : Option ℕ) {limit : Option ℕ} (s : S) {u : S}
    → IsLimit m
    → pure m s ≡ (ok limit, u)
    → IsLimit limit
ok-IsLimit m {limit = limit} s h e = let same : m ≡ limit = ground arith in subst IsLimit same h

as_pair : {A B : Type 0} (o : A × B) {a : A} {b : B} → o.0 ≡ a → o.1 ≡ b → o ≡ (a, b)
as_pair o p q = ground arith

module _ {W C : Type 0} (fabric : Fabric W C) where
  answered-ok : (o : Result CommandResult) {r : CommandResult} → answered fabric o ≡ ok r → o ≡ ok r
  unfolding answered
  answered-ok (ok x) e = e
  answered-ok (raise x) e = ground arith

  keep_conn-ok :
      (o : Result C × W) (before : Option C) {c : C} {u : Channel W C}
      → keep_conn fabric o before ≡ (ok c, u)
      → u.conn ≡ some c
  unfolding keep_conn
  keep_conn-ok (ok c, w) before e = ground arith
  keep_conn-ok (raise x, w) before e = ground arith

module _ {W C : Type 0} (fabric : Fabric W C) (t : SshTransport) where
  in_seconds :
      (n : ℕ) (fine : Bool) (s : Channel W C) {u : Channel W C} {limit : Option ℕ}
      → ltb 0 n ≡ fine
      → and_then
          ((if fine then pure n else throw (model_validation (codes "timeout_s"))) s)
          (λ n. pure (some n))
        ≡ (ok limit, u)
      → IsLimit limit
  unfolding IsLimit
  in_seconds n true s h e = ok-IsLimit (some n) s h e
  in_seconds n false s h e = ground arith

  effective_timeout-After :
      (timeout_s : Timeout)
      → ltb 0 t.control_timeout_s ≡ true
      → After
          (λ (s : Channel W C). Unit {0})
          (effective_timeout fabric t timeout_s)
          (λ limit s. IsLimit limit)
  unfolding effective_timeout IsLimit validate_timeout
  effective_timeout-After default h s u limit pre e = ok-IsLimit (some t.control_timeout_s) s h e
  effective_timeout-After unbounded h s u limit pre e = ok-IsLimit none s tt e
  effective_timeout-After (seconds n) h s u limit pre e = in_seconds n (ltb 0 n) s refl e

  conn_or-After :
      (before : Option C) (s u : Channel W C) (c : C)
      → conn_or fabric before t s ≡ (ok c, u)
      → u.conn ≡ some c
  unfolding conn_or keep_conn
  conn_or-After none s u c e =
      keep_conn-ok fabric (build_connection fabric t.cfg t.connect_timeout_s s.world) none e
  conn_or-After (some d) s u c e = ground arith

  run_on-After :
      (c : C) (argv : List Str) (limit : Option ℕ)
      → IsLimit limit
      → After
          (λ s. s.conn ≡ some c)
          (run_on fabric c (shlex_join argv) limit)
          (Answered fabric argv)
  unfolding run_on answered
  run_on-After c argv limit h s u r kept e =
      let o = fabric.run c (shlex_join argv) limit s.world in
      let same : s.conn ≡ u.conn = ap (λ p. p.1.conn) e in
      record {
        conn = c;
        kept = sym same ∙ kept;
        command = shlex_join argv;
        split = words-shlex_join argv;
        limit = limit;
        in_time = h;
        before = s.world;
        answer = as_pair o (answered-ok fabric o.0 (ap (λ p. p.0) e)) (ap (λ p. p.1.world) e);
      }

  -- When `run` returns, the answer is Fabric's, on the connection that the transport keeps, to a
  -- command that a shell splits into just the words of `argv`, with no timeout or one that is not 0;
  -- the transport's own timeout, the default, is not 0.
  pub run-Answered :
      (argv : List Str) (timeout_s : Timeout) (s u : Channel W C) (r : CommandResult)
      → ltb 0 t.control_timeout_s ≡ true
      → run fabric t argv timeout_s s ≡ (ok r, u)
      → Answered fabric argv r u
  unfolding run connected
  run-Answered argv timeout_s s u r h e =
      seq-After {Pre = λ s. Unit {0}} (effective_timeout fabric t timeout_s)
        (λ limit. connected fabric t >>= λ c. run_on fabric c (shlex_join argv) limit)
        (effective_timeout-After timeout_s h)
        (λ limit s u r in_time e.
          seq-After {Pre = λ s. Unit {0}} {Mid = λ c s. s.conn ≡ some c} (connected fabric t)
            (λ c. run_on fabric c (shlex_join argv) limit)
            (λ s u c pre e. conn_or-After s.conn s u c e) (λ c. run_on-After c argv limit in_time) s
            u r tt e)
        s u r tt e
