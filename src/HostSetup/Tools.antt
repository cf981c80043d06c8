-- ===== src/HostSetup/Tools.antt =====
-- HostProvisioner: `_install_uv` and `_install_python`.
use ray_dispatcher.Base.{
  ◌≡◌, ap, ◌∙◌, Bool-cases, inl, inr, arith, is_zero, strip, split, Bool, true, if◌then◌else◌, null,
  holds, List, [], ◌∷◌, ◌++◌, Str, codes, ◌/s◌, mem_str, str_discrete,
}
use ray_dispatcher.Errors.{ok, and_then-ok, Action, pure, ◌>>=◌, ◌>>◌}
use ray_dispatcher.Layout.{RemoteLayout, uv_bin}
use ray_dispatcher.Shell.{quote}
use ray_dispatcher.Transport.{CommandResult, default}
use ray_dispatcher.HostSetup.{Provisioner, sh, run, step_error, checked, accepted}

module _ {W : Type 0} (self : Provisioner W) where
  -- `ver in text.split()`
  pub reports : Str → Str → Bool
  reports ver text = mem_str ver (split text)

  install_script : Str → Str → Str
  install_script ver dir =
      codes "set -e; mkdir -p "
      ++ quote dir
      ++ codes "; curl -LsSf https://astral.sh/uv/"
      ++ ver
      ++ codes "/install.sh | env UV_INSTALL_DIR="
      ++ quote dir
      ++ codes " INSTALLER_NO_MODIFY_PATH=1 sh"

  -- The installation of uv, with the test of what it reports.
  fresh_uv : Str → Str → Str → Action W Str
  unfolding checked sh install_script reports
  fresh_uv ver uv dir = do
    checked self (sh (install_script ver dir)) (codes "uv install")
    r ← checked self (uv ∷ codes "--version" ∷ []) (codes "uv version check")
    (if reports ver r.stdout
        then pure uv
        else step_error self
            (codes "installed uv on " ++ self.host.host ++ codes " reports " ++ strip r.stdout))

  unfoldable pub install_uv : RemoteLayout → Action W Str
  unfolding run reports fresh_uv
  install_uv lo =
      let ver = self.project.uv_version in
      let uv = uv_bin lo ver in
      let fresh = fresh_uv ver uv (lo.uv_root /s ver) in
      if self.force
      then fresh
      else run self (uv ∷ codes "--version" ∷ []) >>= λ r.
          if reports ver r.stdout then pure uv else fresh

  wanted_python : Str → Action W (Unit {0})
  wanted_python got =
      if holds (str_discrete got self.project.python)
      then pure tt
      else step_error self (codes "interpreter on " ++ self.host.host ++ codes " is " ++ got)

  ask_python : Str → Action W (Unit {0})
  unfolding checked wanted_python
  ask_python interp =
      if null interp
      then step_error self (
          codes "uv could not locate Python "
          ++ self.project.python
          ++ codes " on "
          ++ self.host.host)
      else do
        r ←
            checked self
              (interp
                ∷ codes "-c"
                ∷ codes "import sys;print('.'.join(map(str,sys.version_info[:3])))"
                ∷ [])
              (codes "python version check")
        wanted_python (strip r.stdout)

  unfoldable pub install_python : Str → Action W (Unit {0})
  unfolding checked ask_python
  install_python uv = do
    checked self (uv ∷ codes "python" ∷ codes "install" ∷ self.project.python ∷ [])
        (codes "uv python install")
    r ←
        checked self (uv ∷ codes "python" ∷ codes "find" ∷ self.project.python ∷ [])
          (codes "uv python find")
    ask_python (strip r.stdout)

  -- A command was the last that ran, and its output has the version among its words.
  pub record Reported (path : Str) (w : W) : Type 0 where
    pub before : W
    pub result : CommandResult
    pub ran : self.transport.run (path ∷ codes "--version" ∷ []) default before ≡ (ok result, w)
    pub has_version : reports self.project.uv_version result.stdout ≡ true

  checked-ran :
      (argv : List Str) (what : Str) (w v : W) (r : CommandResult)
      → checked self argv what w ≡ (ok r, v)
      → self.transport.run argv default w ≡ (ok r, v)
  unfolding checked run accepted
  checked-ran argv what w v r e =
      let (a, s, q, p) = and_then-ok (self.transport.run argv default w) (accepted self what) e in
      elim (Bool-cases (is_zero a.returncode)) [
        | inl fine ↦ q ∙ rw fine at p
        | inr bad ↦ ground arith
      ]

  reported :
      (path uv : Str) (before w v : W) (r : CommandResult) (more : Action W Str)
      → self.transport.run (path ∷ codes "--version" ∷ []) default before ≡ (ok r, w)
      → (more w ≡ (ok uv, v) → (uv ≡ path) × Reported path v)
      → (if reports self.project.uv_version r.stdout then pure path else more) w ≡ (ok uv, v)
      → (uv ≡ path) × Reported path v
  reported path uv before w v r more ran ih e =
      elim (Bool-cases (reports self.project.uv_version r.stdout)) [
        | inl yes_it_does ↦
            let p = rw yes_it_does at e in
            let same : w ≡ v = ap (λ x. x.1) p in
            (
              ground arith,
              record {
                before = before;
                result = r;
                ran = ran ∙ ap (λ x. (ok r, x)) same;
                has_version = yes_it_does;
              },
            )
        | inr no_it_does_not ↦ ih (rw no_it_does_not at e)
      ]

  fresh_uv-Reported :
      (uv path dir : Str) (w v : W)
      → fresh_uv self.project.uv_version path dir w ≡ (ok uv, v)
      → (uv ≡ path) × Reported path v
  unfolding fresh_uv
  fresh_uv-Reported uv path dir w v e =
      let ver = self.project.uv_version in
      let (a, s, _, p) =
        and_then-ok (checked self (sh (install_script ver dir)) (codes "uv install") w) _ e in
      let (r, u, q, p') =
        and_then-ok (checked self (path ∷ codes "--version" ∷ []) (codes "uv version check") s) _
          p in
      reported path uv s u v r _ (checked-ran _ (codes "uv version check") s u r q)
        (λ z. ground arith) p'

  -- `_install_uv` returns only the project's path of uv, right after a run of that uv whose
  -- `--version` has the pinned version among its words; whether it was there, was installed, or
  -- installed again by force.
  pub install_uv-Reported :
      (lo : RemoteLayout) (uv : Str) (w v : W)
      → install_uv lo w ≡ (ok uv, v)
      → (uv ≡ uv_bin lo self.project.uv_version) × Reported (uv_bin lo self.project.uv_version) v
  unfolding install_uv run
  install_uv-Reported lo uv w v e =
      let path = uv_bin lo self.project.uv_version in
      let dir = lo.uv_root /s self.project.uv_version in
      elim (Bool-cases self.force) [
        | inl forced ↦ fresh_uv-Reported uv path dir w v (rw forced at e)
        | inr not_forced ↦
            let (r, s, q, p) =
              and_then-ok (self.transport.run (path ∷ codes "--version" ∷ []) default w) _
                (rw not_forced at e) in
            reported path uv w s v r _ q (fresh_uv-Reported uv path dir s v) p
      ]
