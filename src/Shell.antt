-- ===== src/Shell.antt =====
-- `shlex.quote`, which src/it/unimib/data/nanofaas/ray_dispatcher/ssh.py and scheduling.py put
-- texts into commands with, and write_remote_file of ssh.py.
use ray_dispatcher.Base.{
  ℕ, ◌==◌, Bool, ◌||◌, if◌then◌else◌, null, all, Option, none, some, [], ◌∷◌, ◌++◌, Str, codes,
  is_zero,
}
use ray_dispatcher.Errors.{transport_error, Action, ◌>>=◌, throw, pure}
use ray_dispatcher.Names.{is_alnum}
use ray_dispatcher.Transport.{CommandResult, Transport, default}

-- `[a-zA-Z0-9@%+=:,./_-]`
unfoldable pub is_safe : ℕ → Bool
is_safe c =
    is_alnum c
    || (c == 64
        || (c == 37
            || (c == 43
                || (c == 61
                    || (c == 58 || (c == 44 || (c == 46 || (c == 47 || (c == 95 || c == 45)))))))))

-- The apostrophe, and the quotation mark.
abbrev pub tick : ℕ
tick = 39

abbrev pub mark : ℕ
mark = 34

-- `s.replace("'", "'\"'\"'")`
unfoldable pub tick_out : Str → Str
tick_out [] = []
tick_out (c ∷ s) =
    let rest = tick_out s in if c == tick then tick ∷ mark ∷ tick ∷ mark ∷ tick ∷ rest else c ∷ rest

-- `shlex.quote(s)`
unfoldable pub quote : Str → Str
unfolding tick_out is_safe
quote s =
    if null s then tick ∷ tick ∷ [] else if all is_safe s then s else tick ∷ tick_out s ++ tick ∷ []

-- The command of `write_remote_file(transport, path, content)`, with the mode in octal digits.
pub write_command : Str → Str → Option Str → Str
unfolding quote
write_command path content mode =
    let temporary = quote (path ++ codes ".tmp") in
    codes "printf %s "
    ++ quote content
    ++ codes " > "
    ++ temporary
    ++ (elim mode [ none ↦ [] | some m ↦ codes " && chmod " ++ m ++ codes " " ++ temporary ])
    ++ codes " && mv -f "
    ++ temporary
    ++ codes " "
    ++ quote path

written : Str → CommandResult → {W : Type 0} → Action W (Unit {0})
written path r =
    if is_zero r.returncode
    then pure tt
    else throw (transport_error (codes "failed to write " ++ path) none)

unfoldable pub write_remote_file :
    {W : Type 0} → Transport W → Str → Str → Option Str → Action W (Unit {0})
unfolding write_command written
write_remote_file t path content mode = do
  r ← t.run (codes "sh" ∷ codes "-c" ∷ write_command path content mode ∷ []) default
  written path r
