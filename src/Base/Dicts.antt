-- ===== src/Base/Dicts.antt =====
-- A Python dict as an association list in the order of insertion.
use mathlib.Core.Path.{◌≡◌, refl}
use mathlib.Core.Logic.{ite}
use mathlib.Core.List.{List, [], ◌∷◌, map}
use mathlib.Core.Option.{Option, none, some}
use native.Mathlib.Omega.{arith}
use ray_dispatcher.Base.Text.{Str, str_discrete}

abbrev pub Dict {ℓ} : Type ℓ → Type ℓ
Dict V = List (Str × V)

module _ {ℓ} {V : Type ℓ} where
  -- `d.get(k)`
  abbrev pub get : Str → Dict V → Option V
  get k [] = none
  get k ((j, v) ∷ d) = ite (str_discrete j k) (some v) (get k d)

  -- `d[k] = v`: a key keeps its place, a new one goes to the end.
  abbrev pub put : Str → V → Dict V → Dict V
  put k v [] = (k, v) ∷ []
  put k v ((j, w) ∷ d) = ite (str_discrete j k) ((k, v) ∷ d) ((j, w) ∷ put k v d)

  -- `d.pop(k, None)`, without the value
  abbrev pub del : Str → Dict V → Dict V
  del k [] = []
  del k ((j, w) ∷ d) = ite (str_discrete j k) (del k d) ((j, w) ∷ del k d)

  abbrev pub keys : Dict V → List Str
  keys d = map (λ e. e.0) d

module _ {ℓ} {V : Type ℓ} where
  pub get-put :
      (k j : Str) (v : V) (d : Dict V)
      → get j (put k v d) ≡ ite (str_discrete k j) (some v) (get j d)
  get-put k j v [] = refl
  get-put k j v ((i, w) ∷ d) = ground (arith, get-put k j v d)

  pub get-del : (k j : Str) (d : Dict V) → get j (del k d) ≡ ite (str_discrete k j) none (get j d)
  get-del k j [] = ground arith
  get-del k j ((i, w) ∷ d) = ground (arith, get-del k j d)
